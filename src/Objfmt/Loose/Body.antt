-- ===== src/Objfmt/Loose/Body.antt =====
-- The check of a loose object's length when its body is closed.
use go_ls_remote.Base.{
  ℕ, ◌+◌, ◌-◌, ◌≤◌, ◌<◌, ◌≡◌, inl, inr, refl, ◌∙◌, arith, Bool, true, false, ◌&&◌, ◌||◌, List, [],
  ◌∷◌, ltb, ◌==◌, if◌then◌else◌, Bytes, length, length-drop, Bool-cases,
}
use go_ls_remote.Objfmt.Loose.{LooseBody, read, has_garbage, close}
use go_ls_remote.Objfmt.Loose.Header.{opened}

-- The calls of `Read`, by the numbers of bytes that they give.
abbrev pub reads : List ℕ → LooseBody → LooseBody
reads [] b = b
reads (n ∷ ns) b = reads ns (read n b)

abbrev pub total : List ℕ → ℕ
total [] = 0
total (n ∷ ns) = n + total ns

-- The judgement over a body that owes `left` bytes, when `taken` more are read of a stream of `size`.
abbrev judge : Bool → ℕ → ℕ → ℕ → Bool → Bool
judge overrun left taken size fails =
    overrun || (ltb left taken || ((taken == left) && (ltb taken size || fails)))

abbrev judged : ℕ → LooseBody → Bool
judged taken b = judge b.overrun b.remaining taken (length b.reader.yields) b.reader.fails

judge_shorter :
    (o : Bool) (left n m size : ℕ) (fails : Bool)
    → n ≤ left
    → n + m ≤ size
    → judge o (left - n) m (size - n) fails ≡ judge o left (n + m) size fails
judge_shorter true left n m size fails h k = refl
judge_shorter false left n m size fails h k = ground (arith, h, k)

judge_over :
    (o : Bool) (left n m size : ℕ) (fails : Bool)
    → left < n
    → true ≡ judge o left (n + m) size fails
judge_over true left n m size fails h = refl
judge_over false left n m size fails h = ground (arith, h)

judged-read :
    (n m : ℕ) (b : LooseBody)
    → n + m ≤ length b.reader.yields
    → judged m (read n b) ≡ judged (n + m) b
unfolding read
judged-read n m b h = elim (Bool-cases (ltb b.remaining n)) [
  | inl y ↦ rw y (
      judge_over b.overrun b.remaining n m (length b.reader.yields) b.reader.fails
        (ground (arith, y)))
  | inr x ↦
      rw (x, length-drop n b.reader.yields)
        (judge_shorter b.overrun b.remaining n m (length b.reader.yields) b.reader.fails
          (ground (arith, x)) h)
]

yields-read : (n : ℕ) (b : LooseBody) → length (read n b).reader.yields ≡ length b.reader.yields - n
unfolding read
yields-read n b = elim (Bool-cases (ltb b.remaining n)) [
  | inl y ↦ rw y (length-drop n b.reader.yields)
  | inr x ↦ rw x (length-drop n b.reader.yields)
]

has_garbage-reads :
    (ns : List ℕ) (b : LooseBody)
    → total ns ≤ length b.reader.yields
    → has_garbage (reads ns b) ≡ judged (total ns) b
unfolding has_garbage
has_garbage-reads [] b h = untouched b.overrun b.remaining (length b.reader.yields) b.reader.fails
  where
    untouched :
        (o : Bool) (left size : ℕ) (fails : Bool)
        → (if o then true else if left == 0 then ltb 0 size || fails else false)
          ≡ judge o left 0 size fails
    untouched true left size fails = refl
    untouched false left size fails = ground arith
has_garbage-reads (n ∷ ns) b h =
    has_garbage-reads ns (read n b) (omega (arith, h, yields-read n b))
    ∙ judged-read n (total ns) b h

is_closed-reads : (ns : List ℕ) (b : LooseBody) → (reads ns b).is_closed ≡ b.is_closed
is_closed-reads [] b = refl
is_closed-reads (n ∷ ns) b = is_closed-reads ns (read n b) ∙ same
  where
    same : (read n b).is_closed ≡ b.is_closed
    same = elim (Bool-cases (ltb b.remaining n)) [
      | inl y ↦ unfold read in rw y refl
      | inr x ↦ unfold read in rw x refl
    ]

-- Where the calls of `Read` on the body of an object with `n` bytes give bytes that the stream has, `Close`
-- reports garbage exactly if they have given more than `n` bytes, or exactly `n` and the stream has more, or
-- fails in place of its end.
pub close-reads :
    (n : ℕ) (rest : Bytes) (fails decoder_fails : Bool) (ns : List ℕ)
    → total ns ≤ length rest
    → (close decoder_fails (reads ns (opened n rest fails))).0.garbage
      ≡ (ltb n (total ns) || ((total ns == n) && (ltb (total ns) (length rest) || fails)))
unfolding close
close-reads n rest fails decoder_fails ns h =
    rw (is_closed-reads ns (opened n rest fails)) (has_garbage-reads ns (opened n rest fails) h)
