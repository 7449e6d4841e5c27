-- ===== src/Tests/Loose.antt =====
-- Loose objects and the peeling of a tag, at concrete bytes.
use go_ls_remote.Base.{
  ℕ, ◌≡◌, refl, ◌∙◌, true, false, Option, some, List, [], ◌∷◌, ◌++◌, Bytes, ok, arith, equal,
  if◌then◌else◌,
}
use go_ls_remote.Base.Text.{bytes, cut_prefix}
use go_ls_remote.Objfmt.Hash.{sha1, zeros, hex, digit, parse_hex-hex}
use go_ls_remote.Objfmt.Loose.{Stream, read_loose_header, type_tag, close}
use go_ls_remote.Objfmt.Loose.Header.{tag, opened, object_text, read_loose_header_exact}
use go_ls_remote.Objfmt.Loose.Body.{reads, close-reads}
use go_ls_remote.Objstore.Peel.{
  Opening, not_exist, file, find_loose, read_loose_tag, parse_tag_body, peel,
}
use go_ls_remote.Objstore.Peel.Cached.{peel_all, uncached_all, peel_all-uncached_all}
use go_ls_remote.Objstore.Peel.Chain.{IsTag, last, peel_exact}

abbrev id : ℕ → Bytes
id n = n ∷ zeros 19

abbrev tag_text : Bytes
tag_text = bytes "object " ++ hex (id 2) ++ (10 ∷ bytes "type commit")

abbrev stream : Stream
stream = record { yields = object_text (bytes "tag") 58 tag_text; fails = false }

loose_header_example : read_loose_header (some stream) ≡ ok (type_tag, 58, opened 58 tag_text false)
loose_header_example =
    (read_loose_header_exact stream type_tag 58 (opened 58 tag_text false)).1
      (bytes "tag", tag_text, tag, omega arith, refl, refl)

-- Two reads that give four bytes of a body of three.
close_body_example :
    (close false (reads (2 ∷ 2 ∷ []) (opened 3 (bytes "abcd") false))).0.garbage ≡ true
close_body_example = close-reads 3 (bytes "abcd") false false (2 ∷ 2 ∷ []) (omega arith) ∙ refl

abbrev open_file : List Bytes → Opening
open_file [] = not_exist
open_file (dir ∷ []) = not_exist
open_file (dir ∷ sub ∷ rest) = if equal sub (bytes "01") then file [] else not_exist

abbrev inflate : Bytes → Option Stream
inflate content = some stream

abbrev scan_lines : Bytes → List Bytes
scan_lines body = (bytes "object " ++ hex (id 2)) ∷ bytes "type commit" ∷ []

tagged-IsTag : IsTag sha1 open_file inflate scan_lines (id 1) (id 2) (bytes "commit")
tagged-IsTag = record {
  body = tag_text;
  is_read = unfold read_loose_tag find_loose hex digit equal in rw loose_header_example refl;
  is_parsed =
      unfold parse_tag_body cut_prefix equal in
      rw (parse_hex-hex sha1 (id 2) refl (omega arith)) refl;
}

peel_example : (peel sha1 open_file inflate scan_lines (id 1) []).0 ≡ ok (some (id 2))
peel_example =
    (peel_exact sha1 open_file inflate scan_lines (id 1) (id 2)).1
      (1, omega arith, last tagged-IsTag (unfold equal in refl))

cache_example :
    peel_all sha1 open_file inflate scan_lines (id 1 ∷ id 3 ∷ id 1 ∷ []) []
    ≡ uncached_all sha1 open_file inflate scan_lines (id 1 ∷ id 3 ∷ id 1 ∷ [])
cache_example = peel_all-uncached_all sha1 open_file inflate scan_lines (id 1 ∷ id 3 ∷ id 1 ∷ [])
