-- ===== src/Tests/Idx.antt =====
-- An index of version 1 with one name, at concrete bytes.
use go_ls_remote.Base.{
  ℕ, zero, suc, ◌≡◌, ◌↔◌, ◌<◌, ◌≤◌, refl, [], ◌∷◌, ◌++◌, some, Bytes, ok, arith,
}
use go_ls_remote.Base.BigEndian.{be}
use go_ls_remote.Objfmt.Hash.{sha1, zeros}
use go_ls_remote.Objfmt.Idx.{
  Idx, open_idx, parse_header, validate_from, find_offset, offset_after, fanout, first_byte,
}
use go_ls_remote.Objfmt.Idx.Opened.{IsOpened, open_idx-IsOpened}
use go_ls_remote.Objfmt.Idx.Search.{IsTable, row_name, row_offset, find_offset_exact}
use go_ls_remote.Objfmt.Idx.After.{IsLeast, Beyond, offset_after-IsLeast}

abbrev ones : ℕ → Bytes
ones zero = []
ones (suc n) = 0 ∷ 0 ∷ 0 ∷ 1 ∷ ones n

abbrev name : Bytes
name = 0 ∷ 7 ∷ zeros 18

abbrev index : Bytes
index = ones 256 ++ (0 ∷ 0 ∷ 0 ∷ 12 ∷ (name ++ zeros 40))

abbrev opened : Idx
opened = record { algo = sha1; ver = 1; count = 1; data_of = index }

index-opened : open_idx sha1 sha1 (some index) ≡ ok opened
index-opened = unfold open_idx parse_header validate_from be in refl

index-IsOpened : IsOpened sha1 opened
index-IsOpened = open_idx-IsOpened sha1 sha1 index opened index-opened

first_entry : fanout opened 0 ≡ 1
first_entry = unfold be in refl

index-IsTable : IsTable opened (row_name sha1 opened)
index-IsTable = record {
  ascends = λ a b l m. absurd (none_between a b l m);
  counted = λ n k s l. (λ _. low k l n, λ _. high k l n s);
}
  where
    none_between : (a b : ℕ) → a < b → b < 1 → ⊥
    none_between a b l m = omega arith

    low : (k : ℕ) → k < 1 → (n : ℕ) → first_byte (row_name sha1 opened k) ≤ n
    low zero l n = omega arith
    low (suc k) l n = absurd (omega arith)

    high : (k : ℕ) → k < 1 → (n : ℕ) → n < 256 → k < fanout opened n
    high k l n s = omega (arith, index-IsOpened.rises 0 n (omega arith) s, first_entry)

IsOpened-example : IsOpened sha1 opened
IsOpened-example = open_idx-IsOpened sha1 sha1 index opened index-opened

find_offset_example :
    (find_offset sha1 opened name ≡ some 12)
    ↔ ((k : ℕ) × ((k < 1) × (row_name sha1 opened k ≡ name)) × (row_offset sha1 opened k ≡ some 12))
find_offset_example =
    find_offset_exact sha1 sha1 index opened name 12 index-opened (λ _. refl) index-IsTable
      (omega arith)

offset_after_example : IsLeast (Beyond (row_offset sha1 opened) 3 1) (offset_after sha1 opened 3)
offset_after_example = offset_after-IsLeast sha1 sha1 index opened 3 index-opened (λ _. refl)
