-- ===== src/Agent/Exec.antt =====
-- Go methods that act on the world and return an error or a value.
use sco.Common.{◌≡◌, ◌⊎◌, inl, inr, refl, ◌++◌}
use sco.Common.Result.{Result, ok, err}
use sco.Common.Text.{Text, codes}

-- What was done before an error stays done.
abbrev pub Exec : Type 0 → Type 0 → Type 0
Exec W A = W → Result Text A × W

abbrev pub pure : {W A : Type 0} → A → Exec W A
pure a w = (ok a, w)

abbrev pub raise : {W A : Type 0} → Text → Exec W A
raise e w = (err e, w)

abbrev pub continue : {W A B : Type 0} → Result Text A × W → (A → Exec W B) → Result Text B × W
continue (ok a, w) f = f a w
continue (err e, w) f = (err e, w)

-- if err != nil { return fmt.Errorf(prefix + ": %w", err) }
abbrev pub wrapped : {W A : Type 0} → Text → Result Text A × W → Result Text A × W
wrapped prefix (ok a, w) = (ok a, w)
wrapped prefix (err e, w) = (err (prefix ++ (codes ": " ++ e)), w)

infixl 5 ◌>>=◌ ◌>>◌
abbrev pub ◌>>=◌ : {W A B : Type 0} → Exec W A → (A → Exec W B) → Exec W B
◌>>=◌ m f w = continue (m w) f

abbrev pub ◌>>◌ : {W A B : Type 0} → Exec W A → Exec W B → Exec W B
m >> k = m >>= λ _. k

-- A method that returned: the value of the call before, and the rest.
pub bind_ok :
    {W A B : Type 0} (r : Result Text A × W) (f : A → Exec W B) (b : B)
    → (continue r f).0 ≡ ok b
    → (a : A) × (r.0 ≡ ok a) × ((f a r.1).0 ≡ ok b) × (continue r f ≡ f a r.1)
bind_ok (ok a, w) f b h = (a, refl, h, refl)
bind_ok (err e, w) f b h = cc

-- A property of the world that holds after the call before, and that the rest keeps.
pub bind_keeps :
    {W A B : Type 0} (P : W → Type 0) (r : Result Text A × W) (f : A → Exec W B)
    → P r.1
    → ((a : A) → P (f a r.1).1)
    → P (continue r f).1
bind_keeps P (ok a, w) f h k = k a
bind_keeps P (err e, w) f h k = h

-- A bind whose first call fails, or goes on.
pub bind_cases :
    {W A B : Type 0} (r : Result Text A × W) (f : A → Exec W B)
    → ((e : Text) × (r.0 ≡ err e) × (continue r f ≡ (err e, r.1)))
      ⊎ ((a : A) × (r.0 ≡ ok a) × (continue r f ≡ f a r.1))
bind_cases (ok a, w) f = inr (a, refl, refl)
bind_cases (err e, w) f = inl (e, refl, refl)

-- Without an error the prefix does not show.
pub wrapped_ok :
    {W A : Type 0} (p : Text) (r : Result Text A × W) (a : A)
    → (wrapped p r).0 ≡ ok a
    → wrapped p r ≡ r
wrapped_ok p (ok b, w) a h = refl
wrapped_ok p (err e, w) a h = absurd cc

-- The same, for a call before whose error gets a prefix.
pub bind_wrapped :
    {W A B : Type 0} (p : Text) (r : Result Text A × W) (f : A → Exec W B) (b : B)
    → (continue (wrapped p r) f).0 ≡ ok b
    → (a : A) × (r.0 ≡ ok a) × ((f a r.1).0 ≡ ok b) × (continue (wrapped p r) f ≡ f a r.1)
bind_wrapped p (ok a, w) f b h = (a, refl, h, refl)
bind_wrapped p (err e, w) f b h = cc

-- A call before that returns its value, and one that fails.
pub continue-wrapped :
    {W A B : Type 0} (p : Text) (r : Result Text A × W) (f : A → Exec W B) (a : A)
    → r.0 ≡ ok a
    → continue (wrapped p r) f ≡ f a r.1
continue-wrapped p (ok b, w) f a h = cc
continue-wrapped p (err e, w) f a h = cc

pub stop_wrapped :
    {W A B : Type 0} (p : Text) (r : Result Text A × W) (f : A → Exec W B) (e : Text)
    → r.0 ≡ err e
    → continue (wrapped p r) f ≡ (err (p ++ (codes ": " ++ e)), r.1)
stop_wrapped p (ok b, w) f e h = cc
stop_wrapped p (err e', w) f e h = cc
