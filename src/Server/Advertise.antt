-- ===== src/Server/Advertise.antt =====
-- internal/server/advertise.go: the v0 and the v2 advertisement.
pub mod RefLines
pub mod Caps
pub mod V0
pub mod V2
use go_ls_remote.Base.{
  ℕ, Bool, true, false, ◌&&◌, ◌||◌, not, [], ◌∷◌, ◌++◌, List, Option, none, some, if◌then◌else◌,
  Bytes, Result, ok, err, ◌>>=◌, equal,
}
use go_ls_remote.Base.Text.{bytes}
use go_ls_remote.Objfmt.Hash.{zeros, Algo, size, to_string, hex, is_zero}
use go_ls_remote.Pktline.Writer.{Writer, Write, done, ◌>>◌, write_packet, write_flush}
use go_ls_remote.Wire.Capabilities.{agent_or_default}
use go_ls_remote.Server.{ServerError, store_failed, Reply, replied, reply_fault, reply, reply_then}
use go_ls_remote.Server.Sort.{sort_refs}
use go_ls_remote.Server.Store.{
  Head, RefEntry, Peel, peel_failed, absent, peels_to, HeadAnswer, head_failed, head_is, Refs,
  refs_end, refs_failed, refs_next, Store, ref_peel,
}

-- The loop of `writeV2Advertisement`.
abbrev pub write_caps : List Bytes → Write
write_caps [] = done
write_caps (c ∷ caps) = write_packet (c ++ bytes "\n") >> write_caps caps

abbrev pub v2_caps : Store → Bytes → List Bytes
v2_caps store agent =
    (bytes "agent=" ++ agent_or_default agent)
    ∷ bytes "ls-refs=unborn"
    ∷ (bytes "object-format=" ++ to_string store.algo)
    ∷ bytes "object-info"
    ∷ []

-- `writeV2Advertisement`.
unfoldable pub write_v2_advertisement : Store → Bytes → Write
write_v2_advertisement store agent =
    write_packet (bytes "version 2\n") >> (write_caps (v2_caps store agent) >> write_flush)

abbrev pub head_symref : Bytes → Bytes
head_symref [] = []
head_symref (c ∷ s) = bytes "symref=HEAD:" ++ ((c ∷ s) ++ bytes " ")

-- `buildV0Caps`.
unfoldable pub build_v0_caps : Head → Algo → Bytes → Bytes
build_v0_caps head algo agent =
    head_symref head.symref
    ++ (bytes "object-format=" ++ (to_string algo ++ (bytes " agent=" ++ agent_or_default agent)))

abbrev pub all_refs : Refs → Result ServerError (List RefEntry)
all_refs refs_end = ok []
all_refs refs_failed = err store_failed
all_refs (refs_next r rest) = do refs ← all_refs rest; ok (r ∷ refs)

-- `collectV0Refs`.
unfoldable pub collect_v0_refs : Store → Result ServerError (List RefEntry)
collect_v0_refs store = do refs ← all_refs store.refs; ok (sort_refs refs)

-- `headValid`.
abbrev pub head_valid : Head → Bool
head_valid head = not head.unborn && (not (equal head.symref []) || not (is_zero head.oid))

-- The peeled line of a ref, if its peel is an id that is not zero.
abbrev pub write_peel : Bytes → Peel → Writer → Reply
write_peel name peel_failed w = reply_fault store_failed w
write_peel name absent w = replied w
write_peel name (peels_to h) w =
    if is_zero h
    then replied w
    else reply (write_packet (hex h ++ (bytes " " ++ (name ++ bytes "^{}\n"))) w)

-- The capabilities of a line, on the first line that is sent.
abbrev pub caps_text : Bool → Bytes → Bytes
caps_text true caps = []
caps_text false caps = 0 ∷ caps

-- The loop of `writeV0Advertisement`, with `capsEmitted`.
unfoldable pub write_v0_refs : Store → Bytes → Bool → List RefEntry → Writer → Reply
write_v0_refs store caps emitted [] w = replied w
write_v0_refs store caps emitted (r ∷ refs) w =
    reply_then
      (reply (
        write_packet
          (hex r.oid ++ (bytes " " ++ (r.name ++ (caps_text emitted caps ++ bytes "\n")))) w))
      (λ v.
        reply_then (write_peel r.name (ref_peel store r) v) (write_v0_refs store caps true refs))

-- The first line of an empty repository.
abbrev pub placeholder : Algo → Bytes → Bytes
placeholder algo caps = hex (zeros (size algo)) ++ (bytes " capabilities^{}" ++ (0 ∷ caps))

abbrev pub no_refs : List RefEntry → Bool
no_refs [] = true
no_refs (r ∷ refs) = false

-- `writeV0Advertisement` behind the answers of the store.
unfoldable pub write_v0_lines : Store → Bytes → Head → List RefEntry → Writer → Reply
write_v0_lines store caps head refs w =
    if not (head_valid head) && no_refs refs
    then reply (write_packet (placeholder store.algo caps ++ bytes "\n") w)
    else if head_valid head
    then reply_then
        (reply (write_packet (hex head.oid ++ (bytes " HEAD" ++ (0 ∷ (caps ++ bytes "\n")))) w))
        (write_v0_refs store caps true refs)
    else write_v0_refs store caps false refs w

abbrev pub v0_collected : Store → Bytes → Head → Result ServerError (List RefEntry) → Writer → Reply
v0_collected store caps head (err e) w = reply_fault e w
v0_collected store caps head (ok refs) w =
    reply_then (write_v0_lines store caps head refs w) (λ v. reply (write_flush v))

abbrev pub v0_from_head : Store → Bytes → HeadAnswer → Writer → Reply
v0_from_head store agent head_failed w = reply_fault store_failed w
v0_from_head store agent (head_is head) w =
    v0_collected store (build_v0_caps head store.algo agent) head (collect_v0_refs store) w

-- `writeV0Advertisement`.
unfoldable pub write_v0_advertisement : Store → Bytes → Writer → Reply
write_v0_advertisement store agent w = v0_from_head store agent store.head w
