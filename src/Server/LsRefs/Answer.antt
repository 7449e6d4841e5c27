-- ===== src/Server/LsRefs/Answer.antt =====
-- The `ls-refs` response, from the store over the wire to the refs that the client is given.
use go_ls_remote.Base.{
  Bool, true, false, ◌&&◌, not, ◌≡◌, ◌≢◌, refl, ap, ◌∙◌, sym, [], ◌∷◌, ◌++◌, List, none,
  if◌then◌else◌, Bytes, All, All-append, Result, ok, Bool-cases, inl, inr,
}
use go_ls_remote.Base.Text.{bytes}
use go_ls_remote.Base.Fields.{is_space}
use go_ls_remote.Base.Spaces.{IsField, Spaceless, space_width}
use go_ls_remote.Objfmt.Hash.{is_zero}
use go_ls_remote.Pktline.{Packet, control, flush, eof}
use go_ls_remote.Pktline.Frame.{frames, IsPacket}
use go_ls_remote.Pktline.Incoming.{stop, incoming, incoming-whole}
use go_ls_remote.Pktline.Reader.Truncated.{ends_after}
use go_ls_remote.Pktline.Writer.{Writer, write_flush}
use go_ls_remote.Pktline.Writer.Frames.{sent}
use go_ls_remote.Pktline.Writer.Sends.{line_packet, LineFits}
use go_ls_remote.Wire.{RawRef, RefsArgs}
use go_ls_remote.Wire.LsRefs.{decode_ls_refs}
use go_ls_remote.Wire.LsRefs.Request.{lines_of, lines_of-append, lines_of-IsPacket}
use go_ls_remote.Wire.LsRefs.Response.{ParsesTo, lines, refs, AllParse, decode_ls_refs-lines}
use go_ls_remote.Server.{Reply, replied, reply, reply_then, ServerError}
use go_ls_remote.Server.LsRefs.{ref_match}
use go_ls_remote.Server.LsRefs.Args.{queue-append}
use go_ls_remote.Server.LsRefs.Lines.{
  peel_hex, ref_text, seen_ref, unborn_text, seen_unborn, ref_text-ParsesTo, unborn_text-ParsesTo,
  peel_hex-Spaceless, Answers, format_ref_line-text, format_head_line-text,
}
use go_ls_remote.Server.LsRefs.Respond.{
  write_from_head, write_collected, emit_head, write_refs, format_ref_line, format_head_line,
  write_ls_refs_response, respond_ls_refs, send_line, collect_ls_refs_refs,
}
use go_ls_remote.Server.Replies.{
  Replies, Replies-nothing, Replies-then, Replies-line, Replies-flush,
}
use go_ls_remote.Server.Store.{Head, RefEntry, head_is, Store, ref_peel}

-- A line of the response with the ref that it stands for.
abbrev pub Entry : Type 0
Entry = Bytes × RawRef

abbrev pub entry : Bytes → Bytes → Bytes → Bytes → Entry
entry oid name symref peeled = (ref_text oid name symref peeled, seen_ref oid name symref peeled)

abbrev pub ref_entry : Store → RefsArgs → RefEntry → Entry
ref_entry store args r = entry r.oid r.name [] (peel_hex args.peel (ref_peel store r))

abbrev pub ref_entries : Store → RefsArgs → List RefEntry → List Entry
ref_entries store args [] = []
ref_entries store args (r ∷ rs) = ref_entry store args r ∷ ref_entries store args rs

abbrev pub head_entry : Store → RefsArgs → Head → Entry
head_entry store args head =
    entry head.oid (bytes "HEAD") (if args.symrefs then head.symref else [])
      (peel_hex args.peel (store.peel head.oid))

-- HEAD is first, if a prefix matches it: with its id, or unborn for a client that asked for both.
abbrev pub head_entries : Store → RefsArgs → Head → List Entry
head_entries store args head =
    if ref_match args.prefixes (bytes "HEAD")
    then (if not head.unborn && not (is_zero head.oid)
        then head_entry store args head ∷ []
        else if head.unborn && (args.unborn && args.symrefs)
        then (unborn_text head.symref, seen_unborn head.symref) ∷ []
        else [])
    else []

-- A ref of a store that can be sent in a line: it has an id, its name is one field, and its peel is answered.
pub record IsServable (store : Store) (args : RefsArgs) (r : RefEntry) : Type 0 where
  pub has_id : r.oid ≢ []
  pub name_word : IsField r.name
  pub peel_answered : Answers (ref_peel store r)
  pub fits : LineFits (ref_text r.oid r.name [] (peel_hex args.peel (ref_peel store r)))

pub record IsServableHead (store : Store) (args : RefsArgs) (head : Head) : Type 0 where
  pub has_id : head.oid ≢ []
  pub symref_spaceless : Spaceless head.symref
  pub peel_answered : Answers (store.peel head.oid)
  pub fits : LineFits (head_entry store args head).0
  pub unborn_fits : LineFits (unborn_text head.symref)

entry-ParsesTo :
    (oid name symref peeled : Bytes)
    → oid ≢ []
    → IsField name
    → Spaceless symref
    → Spaceless peeled
    → ParsesTo (entry oid name symref peeled).0 (entry oid name symref peeled).1
entry-ParsesTo [] name symref peeled h hn hs hp = elim (h refl) [ ]
entry-ParsesTo (c ∷ o) name symref peeled h hn hs hp =
    ref_text-ParsesTo c o name symref peeled hn hs hp

-- A list of entries is answerable: what a client reads in its lines are its refs, and the lines fit.
abbrev pub Readable : List Entry → Type 0
Readable es = AllParse es × All LineFits (lines es)

Readable-append : (es fs : List Entry) → Readable es → Readable fs → Readable (es ++ fs)
Readable-append [] fs he hf = hf
Readable-append (e ∷ es) fs he hf =
    let rest = Readable-append es fs (he.0.1, he.1.1) hf in ((he.0.0, rest.0), (he.1.0, rest.1))

Sent : (Writer → Reply) → List Entry → Type 0
Sent m es = Replies m (lines_of (lines es)) × Readable es

abbrev solid_if : (on : Bool) (s : Bytes) → Spaceless s → Spaceless (if on then s else [])
solid_if false s h = tt
solid_if true s h = h

Replies-sent_line :
    (m : Result ServerError Bytes) (l : Bytes)
    → m ≡ ok (l ++ bytes "\n")
    → LineFits l
    → Replies (λ w. send_line m w) (line_packet l ∷ [])
Replies-sent_line m l e h w free = ap (λ r. send_line r w) e ∙ Replies-line l h w free

refs-Sent :
    (store : Store) (args : RefsArgs) (rs : List RefEntry)
    → All (IsServable store args) rs
    → Sent (write_refs store args rs) (ref_entries store args rs)
unfolding Sent write_refs
refs-Sent store args [] h = (Replies-nothing, (tt, tt))
refs-Sent store args (r ∷ rs) h =
    let rest = refs-Sent store args rs h.1 in
    (
      Replies-then (λ w. send_line (format_ref_line store args r) w) (write_refs store args rs)
          (line_packet (ref_entry store args r).0 ∷ []) _
          (Replies-sent_line (format_ref_line store args r) (ref_entry store args r).0
            (format_ref_line-text store args r h.0.peel_answered) h.0.fits)
          rest.0,
      (
        (
          entry-ParsesTo r.oid r.name [] _ h.0.has_id h.0.name_word tt
              (peel_hex-Spaceless args.peel (ref_peel store r)),
          rest.1.0,
        ),
        (h.0.fits, rest.1.1),
      ),
    )

one-Readable : (e : Entry) → ParsesTo e.0 e.1 → LineFits e.0 → Readable (e ∷ [])
one-Readable e p h = ((p, tt), (h, tt))

head-Sent :
    (store : Store) (args : RefsArgs) (head : Head)
    → IsServableHead store args head
    → Sent (emit_head store args head) (head_entries store args head)
unfolding Sent emit_head
head-Sent store args head h = elim (Bool-cases (ref_match args.prefixes (bytes "HEAD"))) [
  | inr m ↦ rw m (Replies-nothing, (tt, tt))
  | inl m ↦ rw m (elim (Bool-cases (not head.unborn && not (is_zero head.oid))) [
    | inl t ↦ rw t (
      Replies-sent_line (format_head_line store args head) (head_entry store args head).0
          (format_head_line-text store args head h.peel_answered) h.fits,
      one-Readable (head_entry store args head)
          (entry-ParsesTo head.oid (bytes "HEAD") _ _ h.has_id
            ((λ e. cc), unfold space_width is_space in (refl, (refl, (refl, (refl, tt)))))
            (solid_if args.symrefs head.symref h.symref_spaceless)
            (peel_hex-Spaceless args.peel (store.peel head.oid)))
          h.fits,
    )
    | inr t ↦ rw t (elim (Bool-cases (head.unborn && (args.unborn && args.symrefs))) [
      | inr u ↦ rw u (Replies-nothing, (tt, tt))
      | inl u ↦ rw u (
        Replies-line (unborn_text head.symref) h.unborn_fits,
        one-Readable (unborn_text head.symref, seen_unborn head.symref)
            (unborn_text-ParsesTo head.symref h.symref_spaceless) h.unborn_fits,
      )
    ])
  ])
]

lines-append : (es fs : List Entry) → lines (es ++ fs) ≡ lines es ++ lines fs
lines-append [] fs = refl
lines-append (e ∷ es) fs = ap (◌∷◌ e.0) (lines-append es fs)

-- The entries of the whole response, for the refs that `collectLSRefsRefs` gives.
abbrev pub response_entries : Store → RefsArgs → Head → List RefEntry → List Entry
response_entries store args head rs = head_entries store args head ++ ref_entries store args rs

response-Sent :
    (store : Store) (args : RefsArgs) (head : Head) (rs : List RefEntry)
    → store.head ≡ head_is head
    → collect_ls_refs_refs store args.prefixes ≡ ok rs
    → IsServableHead store args head
    → All (IsServable store args) rs
    → Sent (write_ls_refs_response store args) (response_entries store args head rs)
unfolding Sent write_ls_refs_response
response-Sent store args head rs eh ec hh hr =
    let es = head_entries store args head in
    let fs = ref_entries store args rs in
    let sent_head = head-Sent store args head hh in
    let sent_refs = refs-Sent store args rs hr in
    (
      (λ w free.
          ap (λ a. write_from_head store args a w) eh
          ∙ ap (λ c. reply_then (emit_head store args head w) (write_collected store args c)) ec
          ∙ Replies-then (emit_head store args head) (write_refs store args rs)
              (lines_of (lines es)) (lines_of (lines fs)) sent_head.0 sent_refs.0 w free
          ∙ ap (λ ps. replied (sent w (frames ps) ps))
              (sym (ap lines_of (lines-append es fs) ∙ lines_of-append (lines es) (lines fs)))),
      Readable-append es fs sent_head.1 sent_refs.1,
    )

-- For a store whose HEAD is answered, with an id, a symref without white space and a peel that is
-- answered, and whose refs are listed, each with an id, a name that is not empty and has no white space, and a
-- peel that is answered, where white space is that of `unicode.IsSpace`, and for lines that fit, the
-- response to `ls-refs`, on an underlying writer that takes everything, is decoded by the client as HEAD, if
-- a prefix selects it and it is born or wanted unborn, and then the collected refs in their order, with
-- their peeled ids and HEAD's symref as the arguments ask for them, and no error.
pub ls_refs_response-decoded :
    (store : Store) (args : RefsArgs) (head : Head) (rs : List RefEntry) (w : Writer)
    → w.writes_left ≡ none
    → store.head ≡ head_is head
    → collect_ls_refs_refs store args.prefixes ≡ ok rs
    → IsServableHead store args head
    → All (IsServable store args) rs
    → (b : Bytes) × (ps : List Packet) × (respond_ls_refs store args w ≡ replied (sent w b ps))
      × (decode_ls_refs (incoming (ends_after b))
          ≡ record { refs = refs (response_entries store args head rs); failure = none })
unfolding Sent respond_ls_refs
ls_refs_response-decoded store args head rs w free eh ec hh hr =
    let es = response_entries store args head rs in
    let all_sent = response-Sent store args head rs eh ec hh hr in
    let ps = lines_of (lines es) ++ (control flush ∷ []) in
    let whole =
      All-append IsPacket (lines_of (lines es)) (control flush ∷ [])
        (lines_of-IsPacket (lines es) all_sent.1.1) (refl, tt) in
    (
      frames ps,
      ps,
      Replies-then (write_ls_refs_response store args) (λ v. reply (write_flush v))
          (lines_of (lines es)) _ all_sent.0 Replies-flush w free,
      ap decode_ls_refs (
            incoming-whole ps whole
            ∙ queue-append (lines_of (lines es)) (control flush ∷ []) (stop eof))
          ∙ decode_ls_refs-lines es (stop eof) all_sent.1.0,
    )
