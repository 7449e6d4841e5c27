-- ===== src/Objstore/Peel/Chain.antt =====
-- Where a chain of tags ends.
use go_ls_remote.Base.{
  ℕ, zero, suc, ◌≤◌, ◌≡◌, ◌↔◌, inl, inr, refl, ap, ◌∙◌, sym, arith, true, false, Option, none, some,
  List, [], Bytes, equal, equal_iff, Result, ok, err, ok_injective, some_injective, none-some,
  bind_passed, Bool-cases, ◌==◌,
}
use mathlib.Core.Path.{subst}
use go_ls_remote.Base.Text.{bytes}
use go_ls_remote.Base.Maps.{lookup_empty}
use go_ls_remote.Objfmt.Hash.{Algo}
use go_ls_remote.Objfmt.Loose.{Stream, type_tag}
use go_ls_remote.Objstore.Peel.{
  StoreError, unknown_algo, open_failed, corrupt_object, peel_depth_exceeded, Opening,
  max_peel_depth, read_loose_tag, parse_tag_body, next_link, link_of, peel_chain, memoised, peel,
}

module _ (algo : Algo) (open_file : List Bytes → Opening) (inflate : Bytes → Option Stream)
    (scan_lines : Bytes → List Bytes) where
  -- A tag, by the id and the name of the type in its body.
  pub record IsTag (id next next_type : Bytes) : Type 0 where
    pub body : Bytes
    pub is_read : read_loose_tag algo open_file inflate scan_lines id ≡ ok (some (type_tag, body))
    pub is_parsed : parse_tag_body algo open_file inflate scan_lines body ≡ ok (next, next_type)

  -- A chain of `n` tags from an id to one that its last tag says is no tag.
  pub data Chain : ℕ → Bytes → Bytes → Type 0 where
    last :
        {id target type_name : Bytes}
        → IsTag id target type_name
        → equal type_name (bytes "tag") ≡ false
        → Chain 1 id target
    link :
        {n : ℕ} {id next target : Bytes}
        → IsTag id next (bytes "tag")
        → Chain n next target
        → Chain (suc n) id target

  peel_chain-Chain :
      (n rounds : ℕ) (id target : Bytes)
      → n ≤ rounds
      → Chain n id target
      → peel_chain algo open_file inflate scan_lines rounds id ≡ ok (some target)
  unfolding peel_chain equal
  peel_chain-Chain n zero id target h (last t d) = absurd (omega (arith, h))
  peel_chain-Chain n zero id target h (link t c) = absurd (omega (arith, h))
  peel_chain-Chain n (suc rounds) id target h (last t d) = rw (t.is_read, t.is_parsed, d) refl
  peel_chain-Chain n (suc rounds) id target h (link {n = m} t c) =
      rw (t.is_read, t.is_parsed) (peel_chain-Chain m rounds _ target (omega (arith, h)) c)

  -- The chain of a round that gives an id, from that of the round behind it.
  link_of-Chain :
      (rounds : ℕ) (id target : Bytes) (k : Bytes → Result StoreError (Option Bytes))
      (found : Option (ℕ × Bytes))
      → ((next : Bytes) → k next ≡ ok (some target) → (n : ℕ) × (n ≤ rounds) × Chain n next target)
      → read_loose_tag algo open_file inflate scan_lines id ≡ ok found
      → link_of algo open_file inflate scan_lines k found ≡ ok (some target)
      → (n : ℕ) × (n ≤ suc rounds) × Chain n id target
  link_of-Chain rounds id target k none h r e =
      absurd (none-some target (ok_injective {E = StoreError} e))
  link_of-Chain rounds id target k (some (typ, body)) h r e = elim (Bool-cases (typ == type_tag)) [
    | inr x ↦ absurd (none-some target (ok_injective {E = StoreError} (rw x at e)))
    | inl y ↦
        let ((next, next_type), parsed, e1) =
          bind_passed (parse_tag_body algo open_file inflate scan_lines body) _ (some target)
            (rw y at e) in
        followed (is_tag y) next next_type parsed e1
  ]
    where
      is_tag : (typ == type_tag) ≡ true → typ ≡ type_tag
      is_tag y = ground (arith, y)

      followed :
          typ ≡ type_tag
          → (next next_type : Bytes)
          → parse_tag_body algo open_file inflate scan_lines body ≡ ok (next, next_type)
          → next_link algo open_file inflate scan_lines k (next, next_type) ≡ ok (some target)
          → (n : ℕ) × (n ≤ suc rounds) × Chain n id target
      followed same next next_type parsed f = elim (Bool-cases (equal next_type (bytes "tag"))) [
        | inl y ↦
            let (n, less, chain) = h next (rw y at f) in
            (
              suc n,
              omega (arith, less),
              link
                  (tag_of (bytes "tag") next
                    (parsed ∙ ap (λ w. ok (next, w)) ((equal_iff next_type (bytes "tag")).0 y)))
                  chain,
            )
        | inr x ↦ (
          1,
          omega arith,
          subst (λ t. Chain 1 id t) (some_injective (ok_injective {E = StoreError} (rw x at f)))
              (last (tag_of next_type next parsed) x),
        )
      ]
        where
          tag_of :
              (word object : Bytes)
              → parse_tag_body algo open_file inflate scan_lines body ≡ ok (object, word)
              → IsTag id object word
          tag_of word object p = record {
            body = body;
            is_read = r ∙ ap (λ t. ok (some (t, body))) same;
            is_parsed = p;
          }

  Chain-peel_chain :
      (rounds : ℕ) (id target : Bytes)
      → peel_chain algo open_file inflate scan_lines rounds id ≡ ok (some target)
      → (n : ℕ) × (n ≤ rounds) × Chain n id target
  unfolding peel_chain
  Chain-peel_chain zero id target e = absurd (cc)
  Chain-peel_chain (suc rounds) id target e =
      let (found, is_read, e1) =
        bind_passed (read_loose_tag algo open_file inflate scan_lines id) _ (some target) e in
      link_of-Chain rounds id target (peel_chain algo open_file inflate scan_lines rounds) found
        (λ next f. Chain-peel_chain rounds next target f) is_read e1

  memoised_iff :
      (id target : Bytes) (r : Result StoreError (Option Bytes))
      → ((memoised algo open_file inflate scan_lines id r []).0 ≡ ok (some target))
        ↔ (r ≡ ok (some target))
  memoised_iff id target (err unknown_algo) = ((λ e. e), (λ e. e))
  memoised_iff id target (err open_failed) = ((λ e. e), (λ e. e))
  memoised_iff id target (err corrupt_object) = ((λ e. e), (λ e. e))
  memoised_iff id target (err peel_depth_exceeded) =
      ((λ e. absurd (none-some target (ok_injective {E = StoreError} e))), (λ e. absurd (cc)))
  memoised_iff id target (ok peeled) = ((λ e. e), (λ e. e))

  -- On an empty cache, `Peel` gives an id exactly where a chain of at most 16 loose tags leads to it: each names
  -- the next in its body, as a tag, and the last names that id, as an object of another type. Whether the store
  -- has an object of that id does not matter.
  pub peel_exact :
      (id target : Bytes)
      → ((peel algo open_file inflate scan_lines id []).0 ≡ ok (some target))
        ↔ ((n : ℕ) × (n ≤ 16) × Chain n id target)
  unfolding peel peel_chain
  peel_exact id target = (
    (λ e. Chain-peel_chain 16 id target (
        (memoised_iff id target (peel_chain algo open_file inflate scan_lines max_peel_depth id)).0
          (sym first ∙ e))),
    (λ c.
        first
        ∙ (memoised_iff id target
              (peel_chain algo open_file inflate scan_lines max_peel_depth id)).1
            (peel_chain-Chain c.0 16 id target c.1 c.2)),
  )
    where
      first :
          (peel algo open_file inflate scan_lines id []).0
          ≡ (memoised algo open_file inflate scan_lines id
              (peel_chain algo open_file inflate scan_lines max_peel_depth id)
              []).0
      first = rw (lookup_empty {V = Option Bytes} id, peel) refl
