-- ===== src/Base/Fallible.antt =====
-- Code that may panic and may return an error.
use mathlib.Core.Path.{◌≡◌, refl}
use mathlib.Core.Logic.{◌⊎◌, inl, inr}
use mathlib.Core.Bool.{Bool, true, false}
use rv.Base.Panics.{Run, done, panic, Result, ok, err}

-- The value of a function that returns a `Result`.
abbrev pub R : Type 0 → Type 0 → Type 0
R E A = Run (Result E A)

infixl 5 ◌>>=◌ ◌>>◌
abbrev pub ◌>>=◌ : {E A B : Type 0} → R E A → (A → R E B) → R E B
done (ok a) >>= f = f a
done (err e) >>= f = done (err e)
panic >>= f = panic

abbrev pub ◌>>◌ : {E B : Type 0} → R E (Unit {0}) → R E B → R E B
m >> k = m >>= λ _. k

abbrev pub pure : {E A : Type 0} → A → R E A
pure a = done (ok a)

abbrev pub throw : {E A : Type 0} → E → R E A
throw e = done (err e)

-- Code that only panics, and code that only fails.
abbrev pub lift : {E A : Type 0} → Run A → R E A
lift (done a) = done (ok a)
lift panic = panic

-- `if !b { return Err(e) }`
abbrev pub ensure : {E : Type 0} → Bool → E → R E (Unit {0})
ensure true e = done (ok tt)
ensure false e = done (err e)

-- `map_err`
abbrev pub map_err : {E E' A : Type 0} → (E → E') → R E A → R E' A
map_err f (done (ok a)) = done (ok a)
map_err f (done (err e)) = done (err (f e))
map_err f panic = panic

pub >>=-eq-ok :
    {E A B : Type 0} (m : R E A) (f : A → R E B) {b : B}
    → (m >>= f) ≡ done (ok b)
    → (a : A) × (m ≡ done (ok a)) × (f a ≡ done (ok b))
>>=-eq-ok (done (ok a)) f h = (a, refl, h)
>>=-eq-ok (done (err e)) f h = cc
>>=-eq-ok panic f h = cc

pub R-cases :
    {E A : Type 0} (r : R E A)
    → ((a : A) × (r ≡ done (ok a))) ⊎ (((e : E) × (r ≡ done (err e))) ⊎ (r ≡ panic))
R-cases (done (ok a)) = inl (a, refl)
R-cases (done (err e)) = inr (inl (e, refl))
R-cases panic = inr (inr refl)
