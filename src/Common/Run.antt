-- ===== src/Common/Run.antt =====
-- A Go computation that returns, or that stops with a run-time panic (an index or a slice out of
-- range, a failed type assertion, a nil pointer, a division by zero).
use Prim.Native.Nat.{ℕ, zero, suc, ◌-◌}
use mathlib.Core.Path.{◌≡◌, refl}
use mathlib.Core.Logic.{◌≢◌}
use mathlib.Core.Bool.{◌&&◌}
use mathlib.Core.List.{List, [], ◌∷◌}
use sco.Common.Tests.{leb, if◌then◌else◌}
use sco.Common.Lists.{length, take, drop}

pub data Run {ℓ} (A : Type ℓ) : Type ℓ where
  done : A → Run A
  panic : Run A

infixl 5 ◌>>=◌ ◌>>◌
abbrev pub ◌>>=◌ {ℓ κ} : {A : Type ℓ} {B : Type κ} → Run A → (A → Run B) → Run B
done a >>= f = f a
panic >>= f = panic

abbrev pub ◌>>◌ {ℓ κ} : {A : Type ℓ} {B : Type κ} → Run A → Run B → Run B
m >> k = m >>= λ _. k

module _ {ℓ} {A : Type ℓ} where
  -- xs[i]
  abbrev pub index : List A → ℕ → Run A
  index [] i = panic
  index (x ∷ xs) zero = done x
  index (x ∷ xs) (suc i) = index xs i

  -- xs[lo:hi]
  abbrev pub slice : List A → ℕ → ℕ → Run (List A)
  slice xs lo hi =
      if leb lo hi && leb hi (length xs) then done (take (hi - lo) (drop lo xs)) else panic

module _ {ℓ} {A : Type ℓ} where
  pub returns : (m : Run A) → m ≢ panic → (a : A) × (m ≡ done a)
  returns (done a) h = (a, refl)
  returns panic h = absurd (h refl)

module _ {ℓ κ} {A : Type ℓ} {B : Type κ} where
  -- Inversion of a bind that returns.
  pub >>=-eq-done :
      (m : Run A) (f : A → Run B) {b : B}
      → (m >>= f) ≡ done b
      → (a : A) × (m ≡ done a) × (f a ≡ done b)
  >>=-eq-done (done a) f h = (a, refl, h)
  >>=-eq-done panic f h = cc
