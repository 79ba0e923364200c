-- ===== src/Common/Family.antt =====
-- Families indexed by numbers: heaps, and the goroutines of a program.
use Prim.Native.Nat.{ℕ}
use mathlib.Core.Path.{◌≡◌, sym, ap, ◌∙◌}
use mathlib.Core.Logic.{◌≢◌, ◌⊎◌, inl, inr}
use mathlib.Core.Option.{Option, some}
use native.Mathlib.Omega.{arith}
use sco.Common.Tests.{◌==◌, if◌then◌else◌, Bool-cases, ==_iff, ==_false→ne}

abbrev pub update {ℓ} : {A : Type ℓ} → (ℕ → A) → ℕ → A → ℕ → A
update f i a j = if i == j then a else f j

-- Some goroutine's `f` is `a`.
abbrev pub Someone {ℓ} : {P A : Type ℓ} → (P → Option A) → (ℕ → P) → A → Type ℓ
Someone f t a = (i : ℕ) × (f (t i) ≡ some a)

module _ {ℓ} {P A : Type ℓ} (f : P → Option A) (t : ℕ → P) (i : ℕ) (pc' : P) where
  -- What another goroutine holds, or what this one still does.
  pub still :
      (a : A) → (f (t i) ≡ some a → f pc' ≡ some a) → Someone f t a → Someone f (update t i pc') a
  still a keep (j, h) = (
    j,
    elim (Bool-cases (i == j)) [
      | inl e ↦ rw e (keep (ap f (ap t ((==_iff i j).0 e)) ∙ h))
      | inr e ↦ rw e h
    ],
  )

  -- Who holds something after the step: goroutine `i` at its new place, or another.
  pub who :
      (j : ℕ) (a : A)
      → f (update t i pc' j) ≡ some a
      → ((i ≡ j) × (f pc' ≡ some a)) ⊎ ((i ≢ j) × (f (t j) ≡ some a))
  who j a h = elim (Bool-cases (i == j)) [
    | inl e ↦ inl ((==_iff i j).0 e, ground arith)
    | inr e ↦ inr (==_false→ne i j e, ground arith)
  ]

  -- What is held after the step was held before.
  pub before :
      ((a : A) → f pc' ≡ some a → f (t i) ≡ some a)
      → (j : ℕ) (a : A) → f (update t i pc' j) ≡ some a
      → f (t j) ≡ some a
  before shrink j a h = elim (Bool-cases (i == j)) [
    | inl e ↦ ap f (ap t (sym ((==_iff i j).0 e))) ∙ shrink a (ground arith)
    | inr e ↦ ground arith
  ]
