-- ===== src/Reftable/Seek/Delivers.antt =====
-- Calls of the lookup that have not run out of fuel.
use go_ls_remote.Base.{Bool, true, false, ◌≡◌, ◌≢◌, refl, if◌then◌else◌, Result, ok, err, ◌>>=◌}
use go_ls_remote.Reftable.{Error}
use go_ls_remote.Reftable.Seek.{Fault, failed, no_ref_blocks, panicked, starved, passed_on}

-- A call has not run out of fuel, and what it returns has a property.
abbrev pub Delivers {ℓ} : {A : Type ℓ} → (A → Type 0) → Result Fault A → Type 0
Delivers P (err (failed e)) = Unit {0}
Delivers P (err no_ref_blocks) = Unit {0}
Delivers P (err panicked) = Unit {0}
Delivers P (err starved) = ⊥
Delivers P (ok a) = P a

abbrev pub Any {ℓ} : {A : Type ℓ} → A → Type 0
Any a = Unit {0}

module _ {A B : Type 0} (P : B → Type 0) where
  pub Delivers-passed_on :
      (r : Result Error A) (k : A → Result Fault B)
      → ((a : A) → r ≡ ok a → Delivers P (k a))
      → Delivers P (passed_on r k)
  Delivers-passed_on (err e) k h = tt
  Delivers-passed_on (ok a) k h = h a refl

  pub Delivers-bind :
      (Q : A → Type 0) (r : Result Fault A) (k : A → Result Fault B)
      → Delivers Q r
      → ((a : A) → Q a → Delivers P (k a))
      → Delivers P (r >>= k)
  Delivers-bind Q (err (failed e)) k d h = tt
  Delivers-bind Q (err no_ref_blocks) k d h = tt
  Delivers-bind Q (err panicked) k d h = tt
  Delivers-bind Q (err starved) k d h = elim d [ ]
  Delivers-bind Q (ok a) k d h = h a d

module _ {A : Type 0} (P : A → Type 0) where
  pub Delivers-if :
      (test : Bool) (v w : Result Fault A)
      → (test ≡ true → Delivers P v)
      → (test ≡ false → Delivers P w)
      → Delivers P (if test then v else w)
  Delivers-if true v w hv hw = hv refl
  Delivers-if false v w hv hw = hw refl

  pub Delivers-never_starved : (r : Result Fault A) → Delivers P r → r ≢ err starved
  Delivers-never_starved (err starved) d e = elim d [ ]
  Delivers-never_starved (err (failed x)) d e = absurd (cc)
  Delivers-never_starved (err no_ref_blocks) d e = absurd (cc)
  Delivers-never_starved (err panicked) d e = absurd (cc)
  Delivers-never_starved (ok a) d e = absurd (cc)
