-- ===== src/Server/Advertise/V0.antt =====
-- The v0 advertisement, from the store over the wire to the client's `Advertisement`.
use go_ls_remote.Base.{
  Bool, true, false, ◌≡◌, ◌≢◌, refl, ap, ◌∙◌, [], ◌∷◌, ◌++◌, List, none, some, Bytes, All,
  All-append, arith, append-nil, ok, equal,
}
use go_ls_remote.Base.Text.{bytes, cut_suffix}
use go_ls_remote.Base.Fields.{Solid}
use go_ls_remote.Objfmt.Hash.{zeros, Algo, sha1, sha256, size, hex, digit}
use go_ls_remote.Pktline.{Packet, control, flush, eof}
use go_ls_remote.Pktline.Frame.{frames, IsPacket}
use go_ls_remote.Pktline.Incoming.{Incoming, stop, more, incoming, queue, incoming-whole}
use go_ls_remote.Pktline.Reader.Truncated.{ends_after}
use go_ls_remote.Pktline.Writer.{Writer, write_packet, write_flush}
use go_ls_remote.Pktline.Writer.Frames.{sent}
use go_ls_remote.Pktline.Writer.Sends.{line_packet, LineFits}
use go_ls_remote.Wire.{RawCapabilities, RawRef}
use go_ls_remote.Wire.Advertisement.{
  protocol_v0, parse_advertisement, ref_lines_loop, apply_symrefs, reversed_onto, set_symref,
  is_all_zero,
}
use go_ls_remote.Wire.Advertisement.RefLines.{
  first_line, named_line_no_version, parse_first_ref_line-named, parse_first_ref_line_placeholder,
  reversed_onto_twice,
}
use go_ls_remote.Wire.Advertisement.V0.{v0_advertisement, parse_advertisement-v0}
use go_ls_remote.Wire.Capabilities.{is_wire_space, parse_capabilities}
use go_ls_remote.Wire.LsRefs.{plain_ref}
use go_ls_remote.Wire.LsRefs.Request.{lines_of, lines_of-IsPacket}
use go_ls_remote.Server.{replied, reply, reply_then}
use go_ls_remote.Server.Advertise.{
  build_v0_caps, head_valid, placeholder, write_v0_lines, write_v0_refs, v0_collected, v0_from_head,
  write_v0_advertisement, collect_v0_refs,
}
use go_ls_remote.Server.Advertise.Caps.{
  v0_caps, with_symref, parse_capabilities-build_v0_caps, apply_symrefs-v0_caps, set_symref-absent,
}
use go_ls_remote.Server.Advertise.RefLines.{
  IsListable, peel_lines, ref_lines, seen_refs, read-peel, read-refs, queue-lines, emitted_line,
  v0_lines, v0_lines_emitted, Replies-refs,
}
use go_ls_remote.Server.LsRefs.Args.{queue-append}
use go_ls_remote.Server.LsRefs.Lines.{peel_hex, seen_ref}
use go_ls_remote.Server.Replies.{Replies, Replies-then, Replies-line, Replies-flush}
use go_ls_remote.Server.Store.{Head, RefEntry, Store, head_is, ref_peel}

-- The lines of the advertisement.
abbrev pub advertised_lines : Bool → Store → Bytes → Head → List RefEntry → List Bytes
advertised_lines true store caps head rs =
    first_line head.oid (bytes "HEAD") caps ∷ v0_lines store caps true rs
advertised_lines false store caps head [] = placeholder store.algo caps ∷ []
advertised_lines false store caps head (r ∷ rs) = v0_lines store caps false (r ∷ rs)

-- The refs of the advertisement: HEAD with its symref, and the refs with their peeled ids.
abbrev pub advertised_refs : Bool → Store → Head → List RefEntry → List RawRef
advertised_refs true store head rs =
    seen_ref head.oid (bytes "HEAD") head.symref [] ∷ seen_refs store rs
advertised_refs false store head rs = seen_refs store rs

seen_not_head :
    (store : Store) (rs : List RefEntry)
    → All (IsListable store) rs
    → All (λ (r : RawRef). r.name ≢ bytes "HEAD") (seen_refs store rs)
seen_not_head store [] h = tt
seen_not_head store (r ∷ rs) h = (h.0.not_head, seen_not_head store rs h.1)

with_symref-refs :
    (symref : Bytes) (store : Store) (rs : List RefEntry)
    → All (IsListable store) rs
    → with_symref symref (seen_refs store rs) ≡ seen_refs store rs
with_symref-refs [] store rs h = refl
with_symref-refs (c ∷ s) store rs h =
    set_symref-absent (bytes "HEAD") (c ∷ s) (seen_refs store rs) (seen_not_head store rs h)

with_symref-head :
    (symref o : Bytes) (refs : List RawRef)
    → with_symref symref (plain_ref o (bytes "HEAD") ∷ refs)
      ≡ record { oid = o; name = bytes "HEAD"; peeled = []; symref = symref; unborn = false } ∷ refs
unfolding set_symref equal
with_symref-head [] o refs = refl
with_symref-head (c ∷ s) o refs = refl

lines_sent :
    (valid : Bool) (store : Store) (caps : Bytes) (head : Head) (rs : List RefEntry)
    → head_valid head ≡ valid
    → All (IsListable store) rs
    → All LineFits (advertised_lines valid store caps head rs)
    → Replies
        (write_v0_lines store caps head rs)
        (lines_of (advertised_lines valid store caps head rs))
unfolding write_v0_lines
lines_sent true store caps head rs v h f = λ w free. rw v (
    ap (λ t. reply_then (reply (write_packet t w)) (write_v0_refs store caps true rs))
      (emitted_line head.oid (bytes "HEAD") (0 ∷ caps))
    ∙ Replies-then
        (λ u. reply (write_packet (first_line head.oid (bytes "HEAD") caps ++ bytes "\n") u))
        (write_v0_refs store caps true rs)
        (line_packet (first_line head.oid (bytes "HEAD") caps) ∷ [])
        (lines_of (v0_lines store caps true rs))
        (Replies-line (first_line head.oid (bytes "HEAD") caps) f.0)
        (Replies-refs store caps true rs h f.1) w free)
lines_sent false store caps head [] v h f =
    λ w free. rw v (Replies-line (placeholder store.algo caps) f.0 w free)
lines_sent false store caps head (r ∷ rs) v h f =
    λ w free. rw v (Replies-refs store caps false (r ∷ rs) h f w free)

-- The packets behind the lines.
abbrev ended : Incoming
ended = more (control flush) (stop eof)

-- The parser's refs behind the lines, the last first.
abbrev parsed_refs : Bool → Store → Head → List RefEntry → List RawRef
parsed_refs true store head rs =
    reversed_onto (seen_refs store rs) (plain_ref (hex head.oid) (bytes "HEAD") ∷ [])
parsed_refs false store head rs = reversed_onto (seen_refs store rs) []

zeros_are_zero : (algo : Algo) → is_all_zero (hex (zeros (size algo))) ≡ true
unfolding is_all_zero hex digit
zeros_are_zero sha1 = refl
zeros_are_zero sha256 = refl

lines_read :
    (valid : Bool) (store : Store) (text : Bytes) (caps : RawCapabilities) (head : Head)
    (rs : List RefEntry)
    → parse_capabilities text ≡ caps
    → All (IsListable store) rs
    → parse_advertisement (queue (lines_of (advertised_lines valid store text head rs)) ended) none
      ≡ ok (v0_advertisement caps (parsed_refs valid store head rs), stop eof)
lines_read true store text caps head rs e h =
    parse_advertisement-v0 (first_line head.oid (bytes "HEAD") text)
      (queue (lines_of (v0_lines store text true rs)) ended) (stop eof) caps
      (some (plain_ref (hex head.oid) (bytes "HEAD"))) _
      (named_line_no_version head.oid (bytes "HEAD" ++ (0 ∷ text)))
      (parse_first_ref_line-named head.oid (bytes "HEAD") text (ground arith)
          (unfold cut_suffix equal in refl)
        ∙ ap (λ (c : RawCapabilities). ok (c, some (plain_ref (hex head.oid) (bytes "HEAD")))) e)
      (ap
          (λ ls.
            ref_lines_loop (queue (lines_of ls) ended)
              (plain_ref (hex head.oid) (bytes "HEAD") ∷ []))
          (v0_lines_emitted store text rs)
        ∙ read-refs store rs ended (plain_ref (hex head.oid) (bytes "HEAD") ∷ []) h)
lines_read false store text caps head [] e h =
    parse_advertisement-v0 (placeholder store.algo text) ended (stop eof) caps none []
      (named_line_no_version (zeros (size store.algo)) (bytes "capabilities^{}" ++ (0 ∷ text)))
      (parse_first_ref_line_placeholder (zeros (size store.algo)) text (zeros_are_zero store.algo)
        ∙ ap (λ (c : RawCapabilities). ok (c, none)) e)
      refl
lines_read false store text caps head (r ∷ rs) e h =
    let p = ref_peel store r in
    parse_advertisement-v0 (first_line r.oid r.name text)
      (queue (lines_of (peel_lines r.name p ++ ref_lines store rs)) ended) (stop eof) caps
      (some (plain_ref (hex r.oid) r.name)) _ (named_line_no_version r.oid (r.name ++ (0 ∷ text)))
      (parse_first_ref_line-named r.oid r.name text h.0.no_nul h.0.unmarked
        ∙ ap (λ (c : RawCapabilities). ok (c, some (plain_ref (hex r.oid) r.name))) e)
      (ap (λ q. ref_lines_loop q (plain_ref (hex r.oid) r.name ∷ []))
          (queue-lines (peel_lines r.name p) (ref_lines store rs) ended)
        ∙ read-peel r.oid r.name p (queue (lines_of (ref_lines store rs)) ended) []
            h.0.peel_answered
        ∙ read-refs store rs ended (seen_ref r.oid r.name [] (peel_hex true p) ∷ []) h.1)

-- The refs in order, with HEAD's symref.
refs_in_order :
    (valid : Bool) (store : Store) (agent : Bytes) (head : Head) (rs : List RefEntry)
    → All (IsListable store) rs
    → apply_symrefs
        (reversed_onto (parsed_refs valid store head rs) [])
        (v0_caps head.symref store.algo agent)
      ≡ advertised_refs valid store head rs
refs_in_order true store agent head rs h =
    apply_symrefs-v0_caps head.symref store.algo agent _
    ∙ ap (with_symref head.symref) (
        reversed_onto_twice (seen_refs store rs) (plain_ref (hex head.oid) (bytes "HEAD") ∷ []) []
        ∙ ap (◌∷◌ (plain_ref (hex head.oid) (bytes "HEAD"))) (append-nil (seen_refs store rs)))
    ∙ with_symref-head head.symref (hex head.oid) (seen_refs store rs)
refs_in_order false store agent head rs h =
    apply_symrefs-v0_caps head.symref store.algo agent _
    ∙ ap (with_symref head.symref)
        (reversed_onto_twice (seen_refs store rs) [] [] ∙ append-nil (seen_refs store rs))
    ∙ with_symref-refs head.symref store rs h

-- For an agent without a space, tab or newline, and a store whose HEAD is answered, with a symref that has none
-- of these either, and whose refs are listed with names that a line can carry and
-- peels that are answered, and lines that fit a packet, the v0 advertisement, on an underlying writer that takes
-- everything, is parsed by the client as version 0 with the server's capabilities and the store's
-- refs in order, peeled ids included, behind HEAD with its symref, if it is valid; an empty
-- repository has no ref.
pub v0_advertisement-parsed :
    (store : Store) (agent : Bytes) (head : Head) (rs : List RefEntry) (w : Writer)
    → w.writes_left ≡ none
    → store.head ≡ head_is head
    → collect_v0_refs store ≡ ok rs
    → Solid is_wire_space head.symref
    → Solid is_wire_space agent
    → All (IsListable store) rs
    → All LineFits
        (advertised_lines (head_valid head) store (build_v0_caps head store.algo agent) head rs)
    → (b : Bytes) × (ps : List Packet) × (write_v0_advertisement store agent w
        ≡ replied (sent w b ps))
      × (parse_advertisement (incoming (ends_after b)) none
          ≡ ok (
            record {
              version = protocol_v0;
              caps = v0_caps head.symref store.algo agent;
              refs = advertised_refs (head_valid head) store head rs;
            },
            stop eof,
          ))
unfolding write_v0_advertisement
v0_advertisement-parsed store agent head rs w free eh ec hs ha h f =
    let text = build_v0_caps head store.algo agent in
    let valid = head_valid head in
    let ls = advertised_lines valid store text head rs in
    let ps = lines_of ls ++ (control flush ∷ []) in
    let caps = v0_caps head.symref store.algo agent in
    (
      frames ps,
      ps,
      ap (λ a. v0_from_head store agent a w) eh
          ∙ ap (λ c. v0_collected store text head c w) ec
          ∙ Replies-then (write_v0_lines store text head rs) (λ v. reply (write_flush v))
              (lines_of ls) _ (lines_sent valid store text head rs refl h f) Replies-flush w free,
      ap (λ q. parse_advertisement q none)
            (incoming-whole ps (
                All-append IsPacket (lines_of ls) (control flush ∷ []) (lines_of-IsPacket ls f)
                  (refl, tt))
              ∙ queue-append (lines_of ls) (control flush ∷ []) (stop eof))
          ∙ lines_read valid store text caps head rs
              (parse_capabilities-build_v0_caps head store.algo agent hs ha) h
          ∙ ap (λ refs. ok (record { version = protocol_v0; caps = caps; refs = refs }, stop eof))
              (refs_in_order valid store agent head rs h),
    )
