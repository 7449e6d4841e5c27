-- ===== src/Objstore/PackedRefs/Lines.antt =====
-- The lines of the refs of a packed-refs file, and what reading them leaves.
use go_ls_remote.Base.{
  ℕ, ◌*◌, ◌/◌, ◌%◌, ◌<◌, ◌≡◌, ◌≢◌, refl, ap, ◌∙◌, sym, arith, true, false, ◌||◌, Option, none, some,
  List, [], ◌∷◌, ◌++◌, ◌==◌, Bytes, length, equal, equal_iff, append_assoc, All, IsByte, ok,
}
use go_ls_remote.Base.Fields.{Solid}
use go_ls_remote.Base.Maps.{Map, lookup, put, delete, delete-delete}
use go_ls_remote.Base.Text.{Lacks, cut, cut-append}
use go_ls_remote.Base.Trim.{trim_right, trim_right-append}
use go_ls_remote.Objfmt.Hash.{
  Algo, size, sha1, sha256, zero_id, hex, digit, parse_hex-hex, length-hex,
}
use go_ls_remote.Objstore.Refname.{check_refname_format}
use go_ls_remote.Objstore.PackedRefs.{
  PackedEntry, Parsing, trimmed, entry_of, peel_line, starts_badly, still_sorted, ref_line,
  packed_line, packed_lines,
}
use go_ls_remote.Objstore.PackedRefs.Plain.{
  IsPlain, is_digit, check_refname_format-IsPlain, check_refname_format-not_empty, hex-All,
}

-- A ref of a file: its name, its id, and the id that it peels to, if the file has it.
pub record Written : Type 0 where
  pub name : Bytes
  pub oid : Bytes
  pub peel : Option Bytes

abbrev pub ref_text : Written → Bytes
ref_text e = hex e.oid ++ (b' ' ∷ e.name)

abbrev pub peel_text : Bytes → Bytes
peel_text id = b'^' ∷ hex id

abbrev pub with_peel : Option Bytes → List Bytes → List Bytes
with_peel none texts = texts
with_peel (some id) texts = peel_text id ∷ texts

-- The lines of the refs.
abbrev pub texts_of : List Written → List Bytes
texts_of [] = []
texts_of (e ∷ es) = ref_text e ∷ with_peel e.peel (texts_of es)

module _ (algo : Algo) where
  abbrev pub IsId : Bytes → Type 0
  IsId id = (length id ≡ size algo) × All IsByte id

  abbrev pub IsPeel : Option Bytes → Type 0
  IsPeel none = Unit {0}
  IsPeel (some id) = IsId id

  -- A name that `checkRefnameFormat` admits, and ids of the algorithm.
  pub record IsWritten (e : Written) : Type 0 where
    pub good_name : check_refname_format e.name ≡ true
    pub is_id : IsId e.oid
    pub is_peel : IsPeel e.peel

  abbrev pub known : Bytes → Option Bytes → PackedEntry
  known oid none = record {
    oid = oid;
    peeled = zero_id algo;
    peel_known = false;
    from_packed = true;
  }
  known oid (some id) = record { oid = oid; peeled = id; peel_known = true; from_packed = true }

  abbrev pub entry : Written → PackedEntry
  entry e = known e.oid e.peel

  stays :
      (front : Bytes) (d : ℕ) (back : Bytes)
      → All (λ c. 32 < c) (d ∷ back)
      → trimmed (front ++ (d ∷ back)) ≡ front ++ (d ∷ back)
  unfolding trimmed
  stays front d back h =
      ap (trim_right (λ c. c == b' ' || c == 9))
        (trim_right-append (λ c. c == 13 || c == 10) front d back (ends (d ∷ back) h))
      ∙ trim_right-append (λ c. c == b' ' || c == 9) front d back (blanks (d ∷ back) h)
    where
      ends : (s : Bytes) → All (λ c. 32 < c) s → Solid (λ c. c == 13 || c == 10) s
      ends [] h = tt
      ends (c ∷ s) h = (ground (arith, h.0), ends s h.1)

      blanks : (s : Bytes) → All (λ c. 32 < c) s → Solid (λ c. c == b' ' || c == 9) s
      blanks [] h = tt
      blanks (c ∷ s) h = (ground (arith, h.0), blanks s h.1)

  -- The hex text of an id starts with a digit.
  data Hexed (id : Bytes) : Type 0 where
    hexed : (c : ℕ) (rest : Bytes) → is_digit c ≡ true → hex id ≡ c ∷ rest → Hexed id

  hex-Hexed : (id : Bytes) → IsId id → Hexed id
  unfolding hex
  hex-Hexed [] h = absurd (no_size algo (h.0))
    where
      no_size : (a : Algo) → 0 ≡ size a → ⊥
      no_size sha1 e = omega (arith, e)
      no_size sha256 e = omega (arith, e)
  hex-Hexed (b ∷ id) h =
      let digits = hex-All (λ c. is_digit c ≡ true) (b ∷ id) (λ c d. d) in
      hexed (digit (b / 16 % 16)) (digit (b % 16) ∷ hex id) digits.0 refl

  -- A line that starts with a digit is one of a ref.
  digit_line :
      (c : ℕ) (rest : Bytes) (p : Parsing)
      → is_digit c ≡ true
      → packed_line algo (c ∷ rest) p ≡ ref_line algo (cut b' ' (c ∷ rest)) p
  unfolding packed_line
  digit_line c rest p d = rw (no_comment, no_peel) refl
    where
      no_comment : (c == b'#') ≡ false
      no_comment = ground arith

      no_peel : (c == b'^') ≡ false
      no_peel = ground arith

  hex-Lacks : (id : Bytes) → Lacks b' ' (hex id)
  hex-Lacks id = hex-All (λ c. c ≢ b' ') id (λ c d. ground (arith, d))

  starts_well : (name : Bytes) → check_refname_format name ≡ true → starts_badly algo name ≡ false
  starts_well [] h = absurd (check_refname_format-not_empty h)
  starts_well (c ∷ name) h = first (check_refname_format-IsPlain (c ∷ name) h).0
    where
      first : IsPlain c → (c == b' ' || (c == 9 || c == b'^')) ≡ false
      first (x, y) = ground arith

  id_length : (id : Bytes) → IsId id → (length (hex id) == size algo * 2) ≡ true
  id_length id h = same (length (hex id)) (length-hex id ∙ ap (λ (n : ℕ). n * 2) h.0)
    where
      same : (n : ℕ) → n ≡ size algo * 2 → (n == size algo * 2) ≡ true
      same n e = ground arith

  -- What a line of a ref leaves.
  abbrev pub after_ref : Written → Parsing → Parsing
  after_ref e p = record {
    out = record {
      refs = put e.name (known e.oid none) p.out.refs;
      traits = still_sorted algo e.name p.last_ref p.out.traits;
    };
    seen_any = true;
    last_ref = e.name;
  }

  read_ref :
      (e : Written) (p : Parsing)
      → IsWritten e
      → packed_line algo (trimmed (ref_text e)) p ≡ ok (after_ref e p)
  unfolding ref_line
  read_ref e p w =
      ap (λ t. packed_line algo t p) (kept_text e.name w.good_name)
      ∙ from_digit (hex-Hexed e.oid w.is_id)
      ∙ ap (λ o. ref_line algo o p) (cut-append b' ' (hex e.oid) e.name (hex-Lacks e.oid))
      ∙ rw
          (
            starts_well e.name w.good_name,
            w.good_name,
            id_length e.oid w.is_id,
            parse_hex-hex algo e.oid w.is_id.0 w.is_id.1,
          )
          refl
    where
      above : (s : Bytes) → All IsPlain s → All (λ c. 32 < c) s
      above [] h = tt
      above (c ∷ s) h = (h.0.0, above s h.1)

      kept_text :
          (name : Bytes)
          → check_refname_format name ≡ true
          → trimmed (hex e.oid ++ (b' ' ∷ name)) ≡ hex e.oid ++ (b' ' ∷ name)
      kept_text [] h = absurd (check_refname_format-not_empty h)
      kept_text (d ∷ back) h =
          let split_off = append_assoc (hex e.oid) (b' ' ∷ []) (d ∷ back) in
          ap trimmed (sym split_off)
          ∙ stays (hex e.oid ++ (b' ' ∷ [])) d back
              (above (d ∷ back) (check_refname_format-IsPlain (d ∷ back) h))
          ∙ split_off

      from_digit :
          Hexed e.oid → packed_line algo (ref_text e) p ≡ ref_line algo (cut b' ' (ref_text e)) p
      from_digit (hexed c rest d x) = rw x (digit_line c (rest ++ (b' ' ∷ e.name)) p d)

  entry_of-put :
      (name : Bytes) (v : PackedEntry) (m : Map PackedEntry) → entry_of algo name (put name v m) ≡ v
  unfolding lookup
  entry_of-put name v m = rw ((equal_iff name name).1 refl, entry_of) refl

  -- What a line of a peel leaves behind the line of its ref.
  read_peel :
      (e : Written) (id : Bytes) (p : Parsing)
      → IsWritten e
      → IsId id
      → packed_line algo (trimmed (peel_text id)) (after_ref e p)
        ≡ ok (record (after_ref e p) {
          out = record (after_ref e p).out { refs = put e.name (known e.oid (some id)) p.out.refs };
        })
  unfolding packed_line peel_line delete
  read_peel e id p w h =
      ap (λ t. packed_line algo t (after_ref e p)) (stays [] b'^' (hex id) (omega arith, digits))
      ∙ rw
          (
            named e.name w.good_name,
            entry_of-put e.name (known e.oid none) p.out.refs,
            id_length id h,
            parse_hex-hex algo id h.0 h.1,
            (equal_iff e.name e.name).1 refl,
            delete-delete e.name p.out.refs,
          )
          refl
    where
      digits : All (λ c. 32 < c) (hex id)
      digits = hex-All (λ c. 32 < c) id (λ c d. ground (arith, d))

      named : (name : Bytes) → check_refname_format name ≡ true → equal name [] ≡ false
      named [] g = absurd (check_refname_format-not_empty g)
      named (c ∷ name) g = unfold equal in refl

  -- What the lines of a ref leave.
  abbrev pub after_entry : Written → Parsing → Parsing
  after_entry e p = record (after_ref e p) {
    out = record (after_ref e p).out { refs = put e.name (entry e) p.out.refs };
  }

  abbrev pub after : List Written → Parsing → Parsing
  after [] p = p
  after (e ∷ es) p = after es (after_entry e p)

  read_entry :
      (e : Written) (texts : List Bytes) (p : Parsing)
      → IsWritten e
      → packed_lines algo (ref_text e ∷ with_peel e.peel texts) p
        ≡ packed_lines algo texts (after_entry e p)
  unfolding packed_lines
  read_entry e texts p w = rw (read_ref e p w) (peeled e.peel refl w.is_peel)
    where
      peeled :
          (peel : Option Bytes)
          → e.peel ≡ peel
          → IsPeel peel
          → packed_lines algo (with_peel peel texts) (after_ref e p)
            ≡ packed_lines algo texts (record (after_ref e p) {
              out = record (after_ref e p).out { refs = put e.name (known e.oid peel) p.out.refs };
            })
      peeled none x h = refl
      peeled (some id) x h = rw (read_peel e id p w h) refl

  pub read_written :
      (es : List Written) (p : Parsing)
      → All IsWritten es
      → packed_lines algo (texts_of es) p ≡ ok (after es p)
  read_written [] p w = unfold packed_lines in refl
  read_written (e ∷ es) p w =
      read_entry e (texts_of es) p w.0 ∙ read_written es (after_entry e p) w.1
