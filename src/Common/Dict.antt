-- ===== src/Common/Dict.antt =====
-- Go maps as association lists. A key stands at most once; the order stands for the order of an
-- iteration, which Go leaves open.
use Prim.Native.Nat.{ℕ, ◌+◌, ◌≤◌}
use mathlib.Core.Path.{◌≡◌, refl, sym, subst}
use mathlib.Core.Logic.{◌≢◌, ite, if_pos, if_neg}
use mathlib.Core.List.{List, [], ◌∷◌}
use mathlib.Core.Option.{Option, none, some}
use native.Mathlib.Omega.{arith}
use native.Mathlib.Decide.{ℕ_discrete}
use sco.Common.Lists.{length, All}
use sco.Common.Text.{Text, Text-discrete}

-- Keys that can be compared.
pub record Key {ℓ} (K : Type ℓ) : Type ℓ where
  pub eq? : Discrete K

instance abbrev pub nat_key : Key ℕ
nat_key = record { eq? = ℕ_discrete }

instance abbrev pub text_key : Key Text
text_key = record { eq? = Text-discrete }

abbrev pub same {ℓ} : {K : Type ℓ} ⦃e : Key K⦄ → Discrete K
same ⦃e⦄ = e.eq?

module _ {ℓ} {K : Type ℓ} ⦃e : Key K⦄ {V : Type ℓ} where
  -- v, found := m[k]
  unfoldable pub lookup : K → List (K × V) → Option V
  lookup k [] = none
  lookup k ((j, v) ∷ m) = ite (same j k) (some v) (lookup k m)

  -- m[k] = v
  unfoldable pub insert : K → V → List (K × V) → List (K × V)
  insert k v [] = (k, v) ∷ []
  insert k v ((j, w) ∷ m) = ite (same j k) ((k, v) ∷ m) ((j, w) ∷ insert k v m)

  -- delete(m, k)
  unfoldable pub delete : K → List (K × V) → List (K × V)
  delete k [] = []
  delete k ((j, v) ∷ m) = ite (same j k) (delete k m) ((j, v) ∷ delete k m)

  abbrev pub Absent : K → List (K × V) → Type ℓ
  Absent k = All (λ p. p.0 ≢ k)

  -- No key stands twice.
  abbrev pub IsMap : List (K × V) → Type ℓ
  IsMap [] = Unit
  IsMap ((k, v) ∷ m) = Absent k m × IsMap m

  pub lookup-insert :
      (k j : K) (v : V) (m : List (K × V))
      → lookup j (insert k v m) ≡ ite (same k j) (some v) (lookup j m)
  unfolding lookup insert
  lookup-insert k j v [] = refl
  lookup-insert k j v ((i, w) ∷ m) = ground (arith, lookup-insert k j v m)

  pub lookup-delete :
      (k j : K) (m : List (K × V)) → lookup j (delete k m) ≡ ite (same k j) none (lookup j m)
  unfolding lookup delete
  lookup-delete k j [] = ground arith
  lookup-delete k j ((i, w) ∷ m) = ground (arith, lookup-delete k j m)

  pub lookup-insert_self :
      (k j : K) (v : V) (m : List (K × V)) → k ≡ j → lookup j (insert k v m) ≡ some v
  lookup-insert_self k j v m h = ground (arith, lookup-insert k j v m)

  pub lookup-insert_ne :
      (k j : K) (v : V) (m : List (K × V)) → k ≢ j → lookup j (insert k v m) ≡ lookup j m
  lookup-insert_ne k j v m h = ground (arith, lookup-insert k j v m)

  pub lookup-delete_self : (k j : K) (m : List (K × V)) → k ≡ j → lookup j (delete k m) ≡ none
  lookup-delete_self k j m h = ground (arith, lookup-delete k j m)

  pub lookup-delete_ne : (k j : K) (m : List (K × V)) → k ≢ j → lookup j (delete k m) ≡ lookup j m
  lookup-delete_ne k j m h = ground (arith, lookup-delete k j m)

  pub Absent-insert :
      (i k : K) (v : V) (m : List (K × V)) → k ≢ i → Absent i m → Absent i (insert k v m)
  unfolding insert
  Absent-insert i k v [] h a = (h, tt)
  Absent-insert i k v ((j, w) ∷ m) h a = ground (arith, Absent-insert i k v m)

  pub Absent-delete : (i k : K) (m : List (K × V)) → Absent i m → Absent i (delete k m)
  unfolding delete
  Absent-delete i k [] a = tt
  Absent-delete i k ((j, w) ∷ m) a = ground (arith, Absent-delete i k m)

  pub insert-IsMap : (k : K) (v : V) (m : List (K × V)) → IsMap m → IsMap (insert k v m)
  unfolding insert
  insert-IsMap k v [] h = (tt, tt)
  insert-IsMap k v ((j, w) ∷ m) h = elim (same j k) [
    | yes p ↦ rw (if_pos _ p) (subst (λ i. Absent i m) p h.0, h.1)
    | no p ↦ rw (if_neg _ p) (Absent-insert j k v m (λ q. p (sym q)) h.0, insert-IsMap k v m h.1)
  ]

  pub delete-IsMap : (k : K) (m : List (K × V)) → IsMap m → IsMap (delete k m)
  unfolding delete
  delete-IsMap k [] h = tt
  delete-IsMap k ((j, w) ∷ m) h = ground (arith, Absent-delete j k m, delete-IsMap k m)

  -- A map is empty at a key exactly when the key is absent.
  pub lookup-Absent : (k : K) (m : List (K × V)) → Absent k m → lookup k m ≡ none
  unfolding lookup
  lookup-Absent k [] a = refl
  lookup-Absent k ((j, w) ∷ m) a = ground (arith, lookup-Absent k m)

  pub Absent-lookup : (k : K) (m : List (K × V)) → lookup k m ≡ none → Absent k m
  unfolding lookup
  Absent-lookup k [] h = tt
  Absent-lookup k ((j, w) ∷ m) h = ground (arith, Absent-lookup k m)

  pub length-insert : (k : K) (v : V) (m : List (K × V)) → length (insert k v m) ≤ length m + 1
  unfolding insert
  length-insert k v [] = omega arith
  length-insert k v ((j, w) ∷ m) = ground (arith, length-insert k v m)
