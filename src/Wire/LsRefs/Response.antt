-- ===== src/Wire/LsRefs/Response.antt =====
-- `DecodeLSRefs` on a response of well-formed lines.
use go_ls_remote.Base.{
  true, false, ◌≡◌, refl, ap, ◌∙◌, [], ◌∷◌, ◌++◌, List, none, equal, Bytes, All, arith, ok,
}
use go_ls_remote.Base.Text.{bytes, cut_prefix, trim_suffix-append}
use go_ls_remote.Base.Fields.{join}
use go_ls_remote.Base.Spaces.{IsField, fields-join}
use go_ls_remote.Pktline.{control, flush}
use go_ls_remote.Pktline.Incoming.{Incoming, more, queue}
use go_ls_remote.Pktline.Writer.Sends.{line_packet}
use go_ls_remote.Wire.{RawRef, check_err_packet}
use go_ls_remote.Wire.LsRefs.{
  Yield, decode_ls_refs, parse_ls_refs_line, parse_tokens, ref_attributes, unborn_attributes,
}
use go_ls_remote.Wire.LsRefs.Request.{lines_of}

-- The line is no `ERR ` packet, and is parsed as the ref.
pub record ParsesTo (line : Bytes) (r : RawRef) : Type 0 where
  pub no_error : check_err_packet line ≡ none
  pub parsed : parse_ls_refs_line line ≡ ok r

decode_line :
    (line : Bytes) (r : RawRef) (q : Incoming)
    → ParsesTo line r
    → decode_ls_refs (more (line_packet line) q)
      ≡ record { refs = r ∷ (decode_ls_refs q).refs; failure = (decode_ls_refs q).failure }
unfolding decode_ls_refs
decode_line line r q h = ground (arith, trim_suffix-append b'\n' line, h.no_error, h.parsed)

abbrev pub lines : List (Bytes × RawRef) → List Bytes
lines [] = []
lines ((l, r) ∷ xs) = l ∷ lines xs

abbrev pub refs : List (Bytes × RawRef) → List RawRef
refs [] = []
refs ((l, r) ∷ xs) = r ∷ refs xs

abbrev pub AllParse : List (Bytes × RawRef) → Type 0
AllParse [] = Unit {0}
AllParse ((l, r) ∷ xs) = ParsesTo l r × AllParse xs

-- The refs of the lines up to the flush are yielded in order, and no error.
pub decode_ls_refs-lines :
    (xs : List (Bytes × RawRef)) (q : Incoming)
    → AllParse xs
    → decode_ls_refs (queue (lines_of (lines xs)) (more (control flush) q))
      ≡ record { refs = refs xs; failure = none }
decode_ls_refs-lines [] q h = unfold decode_ls_refs in refl
decode_ls_refs-lines ((l, r) ∷ xs) q h =
    decode_line l r (queue (lines_of (lines xs)) (more (control flush) q)) h.0
    ∙ ap (λ (y : Yield). record { refs = r ∷ y.refs; failure = y.failure })
        (decode_ls_refs-lines xs q h.1)

-- A line of words is parsed by its words.
pub parse-join :
    (ws : List Bytes) → All IsField ws → parse_ls_refs_line (join b' ' ws) ≡ parse_tokens ws
unfolding parse_ls_refs_line
parse-join ws h = ap parse_tokens (fields-join ws h)

-- The attributes of a ref line as the server writes them.
abbrev pub opt_word : Bytes → Bytes → List Bytes
opt_word mark [] = []
opt_word mark (c ∷ v) = (mark ++ (c ∷ v)) ∷ []

pub parse_tokens-ref :
    (oid name symref peeled : Bytes)
    → equal oid (bytes "unborn") ≡ false
    → parse_tokens (
        oid
        ∷ name
        ∷ (opt_word (bytes "symref-target:") symref ++ opt_word (bytes "peeled:") peeled))
      ≡ ok (record { oid = oid; name = name; peeled = peeled; symref = symref; unborn = false })
unfolding parse_tokens ref_attributes cut_prefix
parse_tokens-ref oid name [] [] h = rw h refl
parse_tokens-ref oid name [] (p ∷ ps) h = rw h refl
parse_tokens-ref oid name (s ∷ ss) [] h = rw h refl
parse_tokens-ref oid name (s ∷ ss) (p ∷ ps) h = rw h refl

pub parse_tokens_unborn :
    (name symref : Bytes)
    → parse_tokens (bytes "unborn" ∷ name ∷ ((bytes "symref-target:" ++ symref) ∷ []))
      ≡ ok (record { oid = []; name = name; peeled = []; symref = symref; unborn = true })
unfolding parse_tokens unborn_attributes cut_prefix equal
parse_tokens_unborn name symref = refl
