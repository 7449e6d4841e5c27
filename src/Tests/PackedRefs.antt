-- ===== src/Tests/PackedRefs.antt =====
-- A packed-refs file with a peeled tag and a name out of order, at concrete bytes.
use go_ls_remote.Base.{
  ℕ, ◌≡◌, refl, false, none, some, List, [], ◌∷◌, Bytes, ok, err, arith, All, equal,
}
use go_ls_remote.Base.Maps.{lookup}
use go_ls_remote.Base.Text.{bytes}
use go_ls_remote.Base.Trim.{trim_right}
use go_ls_remote.Objfmt.Hash.{sha1, zeros}
use go_ls_remote.Objstore.Refname.{
  check_refname_format, check_parts, check_refname_component, scan_component, has_dot_lock_suffix,
  is_forbidden,
}
use go_ls_remote.Objstore.PackedRefs.{
  PackedRefs, corrupt_object, parse_packed_refs, packed_lines, packed_line, trimmed, peel_line,
}
use go_ls_remote.Objstore.PackedRefs.Lines.{Written, IsWritten, texts_of}
use go_ls_remote.Objstore.PackedRefs.RoundTrip.{
  last_entry, in_order, all_traits, header_text, parse_packed_refs-texts_of,
}

abbrev id : ℕ → Bytes
id n = n ∷ zeros 19

abbrev refs : List Written
refs =
    record { name = bytes "refs/tags/v1"; oid = id 1; peel = some (id 2) }
    ∷ record { name = bytes "refs/heads/m"; oid = id 3; peel = none }
    ∷ []

refs-IsWritten : All (IsWritten sha1) refs
unfolding check_refname_format check_parts check_refname_component scan_component
    has_dot_lock_suffix is_forbidden equal
refs-IsWritten = (
  record { good_name = refl; is_id = (refl, omega arith); is_peel = (refl, omega arith) },
  (record { good_name = refl; is_id = (refl, omega arith); is_peel = tt }, tt),
)

packed_refs_example :
    (r : PackedRefs) × (parse_packed_refs sha1 (header_text ∷ texts_of refs) false ≡ ok r)
    × ((n : Bytes) → lookup n r.refs ≡ last_entry sha1 n refs none)
    × (r.traits ≡ all_traits (in_order [] refs))
packed_refs_example = parse_packed_refs-texts_of sha1 refs refs-IsWritten

-- A peel before the first ref.
early_peel : parse_packed_refs sha1 ((b'^' ∷ []) ∷ []) false ≡ err corrupt_object
early_peel =
    unfold parse_packed_refs packed_lines packed_line trimmed trim_right peel_line equal in refl
