-- ===== src/Tests/PackHeader.antt =====
-- Object headers at concrete bytes.
use go_ls_remote.Base.{◌≡◌, refl, [], ◌∷◌, ◌++◌, Bytes, ok, arith}
use go_ls_remote.Objfmt.Hash.{sha1, zeros}
use go_ls_remote.Objfmt.PackHeader.{read_header, read_ofs_base, ofs_loop}
use go_ls_remote.Objfmt.PackHeader.Size.{groups}
use go_ls_remote.Objfmt.PackHeader.RoundTrip.{
  ofs_delta, entry_bytes, entry_header, read_header-entry_bytes,
}

-- The offset 300, in two bytes, of an object at 400.
abbrev offset : Bytes
offset = 129 ∷ 44 ∷ []

abbrev front : Bytes
front = zeros 400

read_header_example :
    read_header sha1 (front ++ (entry_bytes (ofs_delta offset) 1000 ++ (120 ∷ []))) 400
    ≡ ok (entry_header sha1 400 (ofs_delta offset) 1000 404)
unfolding groups
read_header_example =
    read_header-entry_bytes sha1 front (120 ∷ []) (ofs_delta offset) 1000
      ((omega arith, omega arith), omega arith, omega arith, omega arith) (omega arith)

-- The offset 2^63 - 1 in nine bytes, with one byte more behind it: the value wraps to that of the last byte.
wrapping_offset :
    read_ofs_base (254 ∷ 254 ∷ 254 ∷ 254 ∷ 254 ∷ 254 ∷ 254 ∷ 254 ∷ 255 ∷ 5 ∷ []) ≡ ok (5, 10)
wrapping_offset = unfold read_ofs_base ofs_loop in refl
