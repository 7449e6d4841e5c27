-- ===== src/Objstore/PackedRefs/RoundTrip.antt =====
-- The lines of a packed-refs file, and that they are read back.
use go_ls_remote.Base.{
  ◌≡◌, refl, ap, ◌∙◌, Bool, true, false, ◌&&◌, not, Option, none, some, List, [], ◌∷◌,
  if◌then◌else◌, Bytes, equal, All, ok,
}
use Prim.Native.Nat.{lt}
use go_ls_remote.Base.Compare.{compare_bytes}
use go_ls_remote.Base.Fields.{is_space}
use go_ls_remote.Base.Spaces.{fields_at, behind_spaces, before_spaces, space_width}
use go_ls_remote.Base.Maps.{lookup, lookup-put, lookup_empty}
use go_ls_remote.Base.Text.{bytes, cut_prefix}
use go_ls_remote.Base.Trim.{trim_right, trim_left}
use go_ls_remote.Objfmt.Hash.{Algo}
use go_ls_remote.Objstore.PackedRefs.{
  PackedEntry, PackedTraits, PackedRefs, Parsing, trimmed, comment_line, parse_packed_ref_traits,
  still_sorted, packed_line, packed_lines, parse_packed_refs, initial,
}
use go_ls_remote.Objstore.PackedRefs.Lines.{
  Written, IsWritten, texts_of, entry, after_entry, after, read_written,
}

abbrev pub precedes : Bytes → Bytes → Bool
precedes a b = elim (compare_bytes a b) [ lt ↦ true | _ ↦ false ]

-- No name is before the name in front of it.
abbrev pub in_order : Bytes → List Written → Bool
in_order last [] = true
in_order last (e ∷ es) = not (not (equal last []) && precedes e.name last) && in_order e.name es

abbrev pub all_traits : Bool → PackedTraits
all_traits sorted = record { is_peeled = true; fully_peeled = true; sorted = sorted }

-- The header line that Git writes.
abbrev pub header_text : Bytes
header_text = bytes "# pack-refs with: peeled fully-peeled sorted "

abbrev headed : Parsing
headed = record {
  out = record { refs = []; traits = all_traits true };
  seen_any = true;
  last_ref = [];
}

module _ (algo : Algo) where
  -- The last entry of a name, or else what was known before.
  abbrev pub last_entry : Bytes → List Written → Option PackedEntry → Option PackedEntry
  last_entry n [] known = known
  last_entry n (e ∷ es) known =
      last_entry n es (if equal e.name n then some (entry algo e) else known)

  lookup-after :
      (n : Bytes) (es : List Written) (p : Parsing)
      → lookup n (after algo es p).out.refs ≡ last_entry n es (lookup n p.out.refs)
  lookup-after n [] p = refl
  lookup-after n (e ∷ es) p =
      lookup-after n es (after_entry algo e p)
      ∙ ap (last_entry n es) (lookup-put n e.name (entry algo e) p.out.refs)

  traits-after :
      (es : List Written) (p : Parsing) (sorted : Bool)
      → p.out.traits ≡ all_traits sorted
      → (after algo es p).out.traits ≡ all_traits (sorted && in_order p.last_ref es)
  traits-after [] p sorted h = h ∙ ap all_traits (whole sorted)
    where
      whole : (b : Bool) → b ≡ (b && true)
      whole true = refl
      whole false = refl
  traits-after (e ∷ es) p sorted h =
      traits-after es (after_entry algo e p) (sorted && not late)
        (ap (still_sorted algo e.name p.last_ref) h ∙ left sorted late)
      ∙ ap all_traits (grouped sorted late (in_order e.name es))
    where
      late : Bool
      late = not (equal p.last_ref []) && precedes e.name p.last_ref

      left :
          (b c : Bool)
          → (if b && c then all_traits false else all_traits b) ≡ all_traits (b && not c)
      left true true = refl
      left true false = refl
      left false c = refl

      grouped : (b c d : Bool) → ((b && not c) && d) ≡ (b && (not c && d))
      grouped true c d = refl
      grouped false c d = refl

  read_header : packed_line algo (trimmed header_text) initial ≡ ok headed
  read_header =
      unfold packed_line trimmed trim_right trim_left comment_line parse_packed_ref_traits
        cut_prefix fields_at behind_spaces before_spaces space_width is_space equal in
      refl

  -- The lines that Git writes, the header and those of refs, each with a name that `checkRefnameFormat` admits,
  -- an id of the algorithm, and the id that it peels to or none, are read, where the scanner yields them and no
  -- error, as a map in which each name has its last entry, and no other name has one. Of the traits, `sorted`
  -- is left exactly if no name is before the name in front of it.
  pub parse_packed_refs-texts_of :
      (es : List Written)
      → All (IsWritten algo) es
      → (r : PackedRefs) × (parse_packed_refs algo (header_text ∷ texts_of es) false ≡ ok r)
        × ((n : Bytes) → lookup n r.refs ≡ last_entry n es none)
        × (r.traits ≡ all_traits (in_order [] es))
  unfolding parse_packed_refs packed_lines
  parse_packed_refs-texts_of es w = (
    (after algo es headed).out,
    rw (read_header, read_written algo es headed w) refl,
    λ n. lookup-after n es headed ∙ ap (last_entry n es) (lookup_empty n),
    traits-after es headed true refl,
  )
