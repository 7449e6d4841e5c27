-- ===== src/Objstore/PackedRefs.antt =====
-- internal/objstore/packed_refs.go: the parser of packed-refs. The lines that `bufio.Scanner` yields, and
-- whether it ends with an error, are parameters.
mod Plain
pub mod Lines
pub mod RoundTrip
use go_ls_remote.Base.{
  ℕ, ◌*◌, Bool, true, false, ◌&&◌, ◌||◌, not, Option, none, some, List, [], ◌∷◌, ◌==◌,
  if◌then◌else◌, Bytes, length, equal, Result, ok, err, ◌>>=◌,
}
use Prim.Native.Nat.{lt}
use go_ls_remote.Base.Compare.{compare_bytes}
use go_ls_remote.Base.Spaces.{fields, trim_space}
use go_ls_remote.Base.Maps.{Map, lookup, put}
use go_ls_remote.Base.Text.{bytes, cut, cut_prefix}
use go_ls_remote.Base.Trim.{trim_right, trim_left}
use go_ls_remote.Objfmt.Hash.{Algo, size, zero_id, parse_hex}
use go_ls_remote.Objstore.Refname.{check_refname_format}

-- An error that wraps ErrCorruptObject, and the scanner's.
pub data PackedError : Type 0 where
  corrupt_object read_failed : PackedError

-- `packedEntry`; an id that is absent is the zero id.
pub record PackedEntry : Type 0 where
  pub oid : Bytes
  pub peeled : Bytes
  pub peel_known : Bool
  pub from_packed : Bool

-- `packedTraits`.
pub record PackedTraits : Type 0 where
  pub is_peeled : Bool
  pub fully_peeled : Bool
  pub sorted : Bool

-- `packedRefs`.
pub record PackedRefs : Type 0 where
  pub refs : Map PackedEntry
  pub traits : PackedTraits

abbrev pub no_traits : PackedTraits
no_traits = record { is_peeled = false; fully_peeled = false; sorted = false }

-- One token of the header.
abbrev pub add_trait : Bytes → PackedTraits → PackedTraits
add_trait tok t =
    if equal tok (bytes "peeled")
    then record t { is_peeled = true }
    else if equal tok (bytes "fully-peeled")
    then record t { fully_peeled = true }
    else if equal tok (bytes "sorted")
    then record t { sorted = true }
    else t

abbrev pub add_traits : List Bytes → PackedTraits → PackedTraits
add_traits [] t = t
add_traits (tok ∷ toks) t = add_traits toks (add_trait tok t)

-- `parsePackedRefTraits`.
unfoldable pub parse_packed_ref_traits : Bytes → PackedTraits
parse_packed_ref_traits line =
    elim (cut_prefix (trim_space (trim_left (λ c. c == b'#') line)) (bytes "pack-refs with:")) [
      | none ↦ no_traits
      | some rest ↦ add_traits (fields rest) no_traits
    ]

-- The variables of `parsePackedRefs`.
pub record Parsing : Type 0 where
  pub out : PackedRefs
  pub seen_any : Bool
  pub last_ref : Bytes

abbrev pub initial : Parsing
initial = record { out = record { refs = []; traits = no_traits }; seen_any = false; last_ref = [] }

-- `line` of the loop.
unfoldable pub trimmed : Bytes → Bytes
trimmed text = trim_right (λ c. c == b' ' || c == 9) (trim_right (λ c. c == 13 || c == 10) text)

-- A line that starts with `#`.
unfoldable pub comment_line : Bytes → Parsing → Parsing
comment_line line p =
    if p.seen_any
    then p
    else record p { out = record p.out { traits = parse_packed_ref_traits line }; seen_any = true }

-- An id that has been read from its hex text, or the error of a text that is none.
abbrev pub with_id {ℓ} :
    {A : Type ℓ} → Option Bytes → (Bytes → Result PackedError A) → Result PackedError A
with_id none k = err corrupt_object
with_id (some id) k = k id

module _ (algo : Algo) where
  -- `out.refs[lastRef]`.
  abbrev pub entry_of : Bytes → Map PackedEntry → PackedEntry
  entry_of name refs = elim (lookup name refs) [
    | some e ↦ e
    | none ↦ record {
      oid = zero_id algo;
      peeled = zero_id algo;
      peel_known = false;
      from_packed = false;
    }
  ]

  -- A line that starts with `^`; `peel_hex` is the rest of it.
  unfoldable pub peel_line : Bytes → Parsing → Result PackedError Parsing
  peel_line peel_hex p =
      let entry = entry_of p.last_ref p.out.refs in
      if equal p.last_ref []
      then err corrupt_object
      else if entry.peel_known
      then err corrupt_object
      else if not (length peel_hex == size algo * 2)
      then err corrupt_object
      else with_id (parse_hex algo peel_hex) (λ peeled. ok (record p {
        out = record p.out {
          refs = put p.last_ref (record entry { peeled = peeled; peel_known = true }) p.out.refs;
        };
        seen_any = true;
      }))

  abbrev pub starts_badly : Bytes → Bool
  starts_badly [] = true
  starts_badly (c ∷ name) = c == b' ' || (c == 9 || c == b'^')

  -- The trait that a name behind `last_ref` leaves.
  abbrev pub still_sorted : Bytes → Bytes → PackedTraits → PackedTraits
  still_sorted name last_ref t =
      if t.sorted
        && (not (equal last_ref [])
            && (elim (compare_bytes name last_ref) [ lt ↦ true | _ ↦ false ]))
      then record t { sorted = false }
      else t

  -- A line of a ref, cut at its first space.
  unfoldable pub ref_line : Option (Bytes × Bytes) → Parsing → Result PackedError Parsing
  ref_line none p = err corrupt_object
  ref_line (some (oid_hex, name)) p =
      if starts_badly name
      then err corrupt_object
      else if not (check_refname_format name)
      then err corrupt_object
      else if not (length oid_hex == size algo * 2)
      then err corrupt_object
      else with_id (parse_hex algo oid_hex) (λ oid. ok (record {
        out = record {
          refs =
              put name
                (record {
                  oid = oid;
                  peeled = zero_id algo;
                  peel_known = false;
                  from_packed = true;
                })
                p.out.refs;
          traits = still_sorted name p.last_ref p.out.traits;
        };
        seen_any = true;
        last_ref = name;
      }))

  -- One round of the loop, on `line`.
  unfoldable pub packed_line : Bytes → Parsing → Result PackedError Parsing
  packed_line [] p = ok p
  packed_line (c ∷ line) p =
      if c == b'#'
      then ok (comment_line (c ∷ line) p)
      else if c == b'^'
      then peel_line line p
      else ref_line (cut b' ' (c ∷ line)) p

  -- The loop of `parsePackedRefs`.
  unfoldable pub packed_lines : List Bytes → Parsing → Result PackedError Parsing
  packed_lines [] p = ok p
  packed_lines (text ∷ texts) p = do q ← packed_line (trimmed text) p; packed_lines texts q

  -- `parsePackedRefs`.
  unfoldable pub parse_packed_refs : List Bytes → Bool → Result PackedError PackedRefs
  parse_packed_refs texts scan_failed = do
    p ← packed_lines texts initial
    if scan_failed then err read_failed else ok p.out
