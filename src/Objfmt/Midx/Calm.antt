-- ===== src/Objfmt/Midx/Calm.antt =====
-- The steps of `OpenMidx` that do not panic on any file.
use go_ls_remote.Base.{
  ℕ, zero, suc, ◌+◌, ◌-◌, ◌*◌, ◌^◌, ◌%◌, ◌≤◌, ◌<◌, ◌≡◌, ◌≢◌, inl, inr, refl, ap, ◌∙◌, sym, arith,
  ltb, leb, get_or, Bool, true, false, ◌||◌, not, none, some, List, [], ◌∷◌, Bytes, length, take,
  drop, ◌==◌, ok, err, equal, bind_failed, Option-cases, if◌then◌else◌, Result, ◌>>=◌, Option,
}
use go_ls_remote.Base.BigEndian.{be}
use go_ls_remote.Base.Maps.{Map, lookup}
use go_ls_remote.Base.Text.{cut}
use go_ls_remote.Objfmt.Hash.{Algo, size, sha1, sha256}
use go_ls_remote.Objfmt.Midx.{
  Failure, truncated, corrupt, panicked, slice, Entry, ChunkExtent, parse_chunk_table, body_end,
  collect_names, read_entries, record_chunk, record_chunks, has_required, with_name, fanout_from,
  ascending_from, is_less, signed_lt, no_chunk, midx_chunk_alignment, no_entry, checked_table,
  byte_at, refuse_if, midx_header_size, midx_chunk_toc_entry,
}
use go_ls_remote.Objfmt.Midx.Opened.{slice_inside}

-- A result that is not a panic.
abbrev pub IsCalm {ℓ} : {A : Type ℓ} → Result Failure A → Type ℓ
IsCalm r = r ≢ err panicked

module _ {A B : Type 0} where
  -- A do block that panics behind a first line that does not.
  pub bind_panicked :
      (r : Result Failure A) (k : A → Result Failure B)
      → IsCalm r
      → (r >>= k) ≡ err panicked
      → (a : A) × (r ≡ ok a) × (k a ≡ err panicked)
  bind_panicked r k c h = elim (bind_failed r k panicked h) [ inl x ↦ absurd (c x) | inr x ↦ x ]

module _ {A : Type 0} where
  pub guard_panicked :
      (test : Bool) (e : Failure) (r : Result Failure A)
      → e ≢ panicked
      → (if test then err e else r) ≡ err panicked
      → (test ≡ false) × (r ≡ err panicked)
  guard_panicked true e r n h = absurd (n (cc))
  guard_panicked false e r n h = (refl, h)

  pub ok-IsCalm : (a : A) → IsCalm (ok a)
  ok-IsCalm a h = absurd (cc)

  err-IsCalm : (e : Failure) → e ≢ panicked → IsCalm {A = A} (err e)
  err-IsCalm e n h = n (cc)

pub slice-IsCalm :
    (d : Bytes) (from to : ℕ) → from < 2 ^ 63 → from ≤ to → to ≤ length d → IsCalm (slice d from to)
slice-IsCalm d from to x y z h = absurd (clash (sym (slice_inside d from to x y z) ∙ h))
  where
    clash : Path (Result Failure Bytes) (ok (take (to - from) (drop from d))) (err panicked) → ⊥
    clash e = absurd (cc)

pub corrupt-IsCalm : corrupt ≢ panicked
corrupt-IsCalm e = absurd (cc)

truncated-IsCalm : truncated ≢ panicked
truncated-IsCalm e = absurd (cc)

module _ {A : Type 0} where
  -- The last test of a function.
  only_if-IsCalm :
      (test : Bool) (r : Result Failure A) → IsCalm r → IsCalm (if test then r else err corrupt)
  only_if-IsCalm true r c = c
  only_if-IsCalm false r c = err-IsCalm corrupt corrupt-IsCalm

with_name-IsCalm :
    (cut_name : Option (Bytes × Bytes)) (more : Bytes → Result Failure (List Bytes))
    → ((rest : Bytes) → IsCalm (more rest))
    → IsCalm (with_name cut_name more)
with_name-IsCalm none more c = err-IsCalm corrupt corrupt-IsCalm
with_name-IsCalm (some (name, rest)) more c = λ h.
    let (names, _, f) = bind_panicked (more rest) (λ names. ok (name ∷ names)) (c rest) h in
    ok-IsCalm (name ∷ names) f

pub collect_names-IsCalm : (wanted : ℕ) (body : Bytes) → IsCalm (collect_names wanted body)
unfolding collect_names
collect_names-IsCalm zero body = ok-IsCalm []
collect_names-IsCalm (suc wanted) [] = ok-IsCalm []
collect_names-IsCalm (suc wanted) (c ∷ body) =
    with_name-IsCalm (cut 0 (c ∷ body)) (collect_names wanted) (collect_names-IsCalm wanted)

pub fanout_from-IsCalm :
    (f : Bytes) (count k prev : ℕ)
    → length f < 2 ^ 63
    → (k + count) * 4 ≤ length f
    → IsCalm (fanout_from f count k prev)
unfolding fanout_from
fanout_from-IsCalm f zero k prev l m h = ok-IsCalm prev h
fanout_from-IsCalm f (suc count) k prev l m h =
    let (field, _, h1) =
      bind_panicked (slice f (k * 4) ((k + 1) * 4)) _
        (slice-IsCalm f (k * 4) ((k + 1) * 4) (omega (arith, l, m)) (omega arith)
          (omega (arith, m)))
        h in
    let (_, h2) = guard_panicked (ltb (be field) prev) corrupt _ corrupt-IsCalm h1 in
    fanout_from-IsCalm f count (k + 1) (be field) l (omega (arith, m)) h2

times_size : (hash : Algo) (a b : ℕ) → a ≤ b → a * size hash ≤ b * size hash
times_size sha1 a b h = omega (arith, h)
times_size sha256 a b h = omega (arith, h)

pub ascending_from-IsCalm :
    (hash : Algo) (body : Bytes) (left i : ℕ)
    → length body < 2 ^ 63
    → (i + left) * size hash ≤ length body
    → IsCalm (ascending_from hash body left i)
unfolding ascending_from
ascending_from-IsCalm hash body zero i l m h = ok-IsCalm tt h
ascending_from-IsCalm hash body (suc left) i l m h =
    let before = times_size hash (i - 1) i (omega arith) in
    let step = times_size hash i (i + 1) (omega arith) in
    let last = times_size hash (i + 1) (i + suc left) (omega arith) in
    let (prev, _, h1) =
      bind_panicked (slice body ((i - 1) * size hash) (i * size hash)) _
        (slice-IsCalm body _ _ (omega (arith, l, m, before, step, last)) before
          (omega (arith, m, step, last)))
        h in
    let (cur, _, h2) =
      bind_panicked (slice body (i * size hash) ((i + 1) * size hash)) _
        (slice-IsCalm body _ _ (omega (arith, l, m, step, last)) step (omega (arith, m, last)))
        h1 in
    only_if-IsCalm (is_less prev cur) (ascending_from hash body left (i + 1))
      (ascending_from-IsCalm hash body left (i + 1) l
        (omega (arith, m, ap (λ (x : ℕ). x * size hash) (moved i left))))
      h2
  where
    moved : (x y : ℕ) → x + 1 + y ≡ x + suc y
    moved x y = omega arith

-- The entries of a lookup table that ends in the file.
read_entries-IsCalm :
    (d : Bytes) (n i : ℕ)
    → length d < 2 ^ 63
    → 12 + (i + n) * 12 ≤ length d
    → IsCalm (read_entries d n i)
unfolding read_entries
read_entries-IsCalm d zero i l m h = ok-IsCalm [] h
read_entries-IsCalm d (suc n) i l m h =
    let base = midx_header_size + i * midx_chunk_toc_entry in
    let (id, _, h1) =
      bind_panicked (slice d base (base + 4)) _
        (slice-IsCalm d base (base + 4) (omega (arith, l, m)) (omega arith) (omega (arith, m))) h in
    let (off, _, h2) =
      bind_panicked (slice d (base + 4) (base + 12)) _
        (slice-IsCalm d (base + 4) (base + 12) (omega (arith, l, m)) (omega arith)
          (omega (arith, m)))
        h1 in
    let (rest, _, h3) =
      bind_panicked (read_entries d n (i + 1)) _
        (read_entries-IsCalm d n (i + 1) l (omega (arith, m))) h2 in
    ok-IsCalm _ h3

pub byte_at-IsCalm : (d : Bytes) (i : ℕ) → i < length d → IsCalm (byte_at d i)
unfolding byte_at
byte_at-IsCalm d i l h = ok-IsCalm _ (rw (inside l) at h)
  where
    inside : i < length d → leb (length d) i ≡ false
    inside x = ground (arith, x)

-- A guard that has not panicked has let its code pass.
pub refused_panicked :
    {A : Type 0} (test : Bool) (e : Failure) (k : Unit {0} → Result Failure A)
    → e ≢ panicked
    → (refuse_if test e >>= k) ≡ err panicked
    → (test ≡ false) × (k tt ≡ err panicked)
refused_panicked true e k n h = absurd (n (cc))
refused_panicked false e k n h = (refl, h)

record_chunk-IsCalm :
    (b : ℕ) (e next : Entry) (chunks : Map ChunkExtent) → IsCalm (record_chunk b e next chunks)
record_chunk-IsCalm b e next chunks h =
    let (_, h1) = guard_panicked (equal e.id no_chunk) corrupt _ corrupt-IsCalm h in
    let (_, h2) =
      guard_panicked (not (e.off % midx_chunk_alignment == 0)) corrupt _ corrupt-IsCalm h1 in
    let (_, h3) =
      guard_panicked (signed_lt next.off e.off || signed_lt b next.off) corrupt _ corrupt-IsCalm
        h2 in
    elim (Option-cases (lookup e.id chunks)) [
      | inl (x, f) ↦ err-IsCalm {A = Map ChunkExtent} corrupt corrupt-IsCalm (rw f at h3)
      | inr f ↦ ok-IsCalm _ (rw f at h3)
    ]

record_chunks-IsCalm :
    (b : ℕ) (entries : List Entry) (chunks : Map ChunkExtent)
    → IsCalm (record_chunks b entries chunks)
unfolding record_chunks
record_chunks-IsCalm b [] chunks h = ok-IsCalm chunks h
record_chunks-IsCalm b (e ∷ []) chunks h = ok-IsCalm chunks h
record_chunks-IsCalm b (e ∷ next ∷ rest) chunks h =
    let (more, _, f) =
      bind_panicked (record_chunk b e next chunks) (record_chunks b (next ∷ rest))
        (record_chunk-IsCalm b e next chunks) h in
    record_chunks-IsCalm b (next ∷ rest) more f

checked_table-IsCalm :
    (hash : Algo) (d : Bytes) (entries : List Entry) (last : Entry)
    → IsCalm (checked_table hash d entries last)
checked_table-IsCalm hash d entries last h =
    let (_, h2) = guard_panicked _ corrupt _ corrupt-IsCalm h in
    let (_, h3) = guard_panicked _ truncated _ truncated-IsCalm h2 in
    let (chunks, _, f) =
      bind_panicked (record_chunks (body_end hash d) entries []) _
        (record_chunks-IsCalm (body_end hash d) entries []) h3 in
    only_if-IsCalm (has_required chunks) (ok chunks) (ok-IsCalm chunks) f

pub parse_chunk_table-IsCalm :
    (hash : Algo) (d : Bytes) (n : ℕ) → length d < 2 ^ 63 → IsCalm (parse_chunk_table hash d n)
unfolding parse_chunk_table
parse_chunk_table-IsCalm hash d n l h =
    let (t, h1) =
      guard_panicked
        (ltb (length d - size hash) (midx_header_size + (n + 1) * midx_chunk_toc_entry)) truncated _
        truncated-IsCalm h in
    let (entries, _, h2) =
      bind_panicked (read_entries d (n + 1) 0) _
        (read_entries-IsCalm d (n + 1) 0 l (fits (size hash) t)) h1 in
    checked_table-IsCalm hash d entries (get_or entries n no_entry) h2
  where
    fits :
        (k : ℕ)
        → ltb (length d - k) (12 + (n + 1) * 12) ≡ false
        → 12 + (0 + (n + 1)) * 12 ≤ length d
    fits k t = ground (arith, t)
