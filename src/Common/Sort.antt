-- ===== src/Common/Sort.antt =====
-- slices.Sort on strings. Any sort gives the same list here, since equal strings are one string:
-- `sort_iff` says what the result is good for, so insertion stands for the library's algorithm.
use mathlib.Core.List.{Perm, foldr}
use native.Mathlib.Nat.{ℕ_set}
use mathlib.Core.List.Perm
use sco.Common.{
  ◌≡◌, ◌↔◌, refl, sym, subst, Bool, true, false, List, [], ◌∷◌, ltb, if◌then◌else◌, arith,
  Bool-cases, inl, inr,
}
use sco.Common.Text.{Text}

-- The order of strings: byte by byte.
text_leb : Text → Text → Bool
text_leb [] ys = true
text_leb (x ∷ xs) [] = false
text_leb (x ∷ xs) (y ∷ ys) = if ltb x y then true else if ltb y x then false else text_leb xs ys

text_leb-total : (xs ys : Text) → text_leb xs ys ≡ false → text_leb ys xs ≡ true
unfolding text_leb
text_leb-total [] ys h = cc
text_leb-total (x ∷ xs) [] h = refl
text_leb-total (x ∷ xs) (y ∷ ys) h = ground (arith, text_leb-total xs ys)

text_leb-antisym : (xs ys : Text) → text_leb xs ys ≡ true → text_leb ys xs ≡ true → xs ≡ ys
unfolding text_leb
text_leb-antisym [] [] h k = refl
text_leb-antisym [] (y ∷ ys) h k = cc
text_leb-antisym (x ∷ xs) [] h k = cc
text_leb-antisym (x ∷ xs) (y ∷ ys) h k = ground (arith, text_leb-antisym xs ys)

text_leb_trans :
    (xs ys zs : Text) → text_leb xs ys ≡ true → text_leb ys zs ≡ true → text_leb xs zs ≡ true
unfolding text_leb
text_leb_trans [] ys zs h k = refl
text_leb_trans (x ∷ xs) [] zs h k = cc
text_leb_trans (x ∷ xs) (y ∷ ys) [] h k = cc
text_leb_trans (x ∷ xs) (y ∷ ys) (z ∷ zs) h k = ground (arith, text_leb_trans xs ys zs)

insert : Text → List Text → List Text
insert x [] = x ∷ []
insert x (y ∷ ys) = if text_leb x y then x ∷ y ∷ ys else y ∷ insert x ys

unfoldable pub sort : List Text → List Text
unfolding insert text_leb
sort = foldr insert []

insert_comm : (x y : Text) (zs : List Text) → insert x (insert y zs) ≡ insert y (insert x zs)
unfolding insert
insert_comm x y [] = ground (arith, text_leb-total x y, text_leb-total y x, text_leb-antisym x y)
insert_comm x y (z ∷ zs) = ground (
  arith,
  text_leb-total x y,
  text_leb-total y x,
  text_leb-antisym x y,
  text_leb-total x z,
  text_leb-total y z,
  text_leb_trans x z y,
  text_leb_trans y z x,
  text_leb_trans x y z,
  text_leb_trans y x z,
  insert_comm x y zs,
)

insert-perm : (x : Text) (ys : List Text) → Perm (insert x ys) (x ∷ ys)
unfolding insert
insert-perm x [] = Perm.refl (x ∷ [])
insert-perm x (y ∷ ys) = elim (Bool-cases (text_leb x y)) [
  | inl e ↦ rw e (Perm.refl (x ∷ y ∷ ys))
  | inr e ↦ rw e (Perm.trans (Perm.cons y (insert-perm x ys)) (Perm.swap x y ys))
]

sort-perm : (xs : List Text) → Perm (sort xs) xs
unfolding sort
sort-perm [] = Perm.refl []
sort-perm (x ∷ xs) = Perm.trans (insert-perm x (foldr insert [] xs)) (Perm.cons x (sort-perm xs))

texts_set : IsSet (List Text)
texts_set = hlevel ℕ_set

sort-eq : (xs ys : List Text) → Perm xs ys → sort xs ≡ sort ys
unfolding sort
sort-eq xs ys p = Perm.foldr-eq texts_set insert insert_comm p []

-- Two lists sort to the same list exactly when they hold the same strings, as often.
pub sort_iff : (xs ys : List Text) → (sort xs ≡ sort ys) ↔ Perm xs ys
sort_iff xs ys = (
  λ e. Perm.trans (Perm.symm (sort-perm xs)) (subst (λ l. Perm l ys) (sym e) (sort-perm ys)),
  sort-eq xs ys,
)
