-- ===== src/Base/Stateful.antt =====
-- Code that changes a state, may panic and may return an error. An error leaves the state as it
-- stood at the failure.
use mathlib.Core.Path.{◌≡◌, refl}
use mathlib.Core.Bool.{Bool, true, false}
use rv.Base.Panics.{Run, done, panic, Result, ok, err}

abbrev pub M : Type 0 → Type 0 → Type 0 → Type 0
M S E A = S → Run (Result E A × S)

abbrev pub next : {S E A B : Type 0} → Run (Result E A × S) → (A → M S E B) → Run (Result E B × S)
next (done (ok a, s)) f = f a s
next (done (err e, s)) f = done (err e, s)
next panic f = panic

infixl 5 ◌>>=◌ ◌>>◌
unfoldable pub ◌>>=◌ : {S E A B : Type 0} → M S E A → (A → M S E B) → M S E B
◌>>=◌ m f s = next (m s) f

abbrev pub ◌>>◌ : {S E B : Type 0} → M S E (Unit {0}) → M S E B → M S E B
m >> k = m >>= λ _. k

abbrev pub pure : {S E A : Type 0} → A → M S E A
pure a s = done (ok a, s)

abbrev pub throw : {S E A : Type 0} → E → M S E A
throw e s = done (err e, s)

-- Code that only panics, and code that does not read the state.
unfoldable pub lift : {S E A : Type 0} → Run A → M S E A
lift (done a) s = done (ok a, s)
lift panic s = panic

unfoldable pub stateless : {S E A : Type 0} → Run (Result E A) → M S E A
stateless (done r) s = done (r, s)
stateless panic s = panic

unfoldable pub ensure : {S E : Type 0} → Bool → E → M S E (Unit {0})
ensure true e s = done (ok tt, s)
ensure false e s = done (err e, s)

-- `map_err`, of what a call has given.
abbrev pub failed : {S E E' A : Type 0} → (E → E') → Run (Result E A × S) → Run (Result E' A × S)
failed f (done (ok a, s)) = done (ok a, s)
failed f (done (err e, s)) = done (err (f e), s)
failed f panic = panic

unfoldable pub map_err : {S E E' A : Type 0} → (E → E') → M S E A → M S E' A
map_err f m s = failed f (m s)

module _ {S E : Type 0} where
  next-ok :
      {A B : Type 0} (r : Run (Result E A × S)) (f : A → M S E B) {b : B} {t : S}
      → next r f ≡ done (ok b, t)
      → (a : A) × (s : S) × (r ≡ done (ok a, s)) × (f a s ≡ done (ok b, t))
  next-ok (done (ok a, s)) f h = (a, s, refl, h)
  next-ok (done (err e, s)) f h = cc
  next-ok panic f h = cc

  -- What a block that succeeds has done first.
  pub >>=-ok :
      {A B : Type 0} (m : M S E A) (f : A → M S E B) {s t : S} {b : B}
      → (m >>= f) s ≡ done (ok b, t)
      → (a : A) × (s' : S) × (m s ≡ done (ok a, s')) × (f a s' ≡ done (ok b, t))
  unfolding ◌>>=◌
  >>=-ok m f {s} h = next-ok (m s) f h

  pub lift-ok :
      {A : Type 0} (r : Run A) (s : S) {t : S} {a : A}
      → lift {E = E} r s ≡ done (ok a, t)
      → (r ≡ done a) × (t ≡ s)
  unfolding lift
  lift-ok (done a) s h = (cc, cc)
  lift-ok panic s h = cc

  pub stateless-ok :
      {A : Type 0} (r : Run (Result E A)) (s : S) {t : S} {a : A}
      → stateless r s ≡ done (ok a, t)
      → (r ≡ done (ok a)) × (t ≡ s)
  unfolding stateless
  stateless-ok (done (ok a)) s h = (cc, cc)
  stateless-ok (done (err e)) s h = cc
  stateless-ok panic s h = cc

  pub ensure-ok :
      (b : Bool) (e : E) (s : S) {t : S} {u : Unit {0}}
      → ensure b e s ≡ done (ok u, t)
      → (b ≡ true) × (t ≡ s)
  unfolding ensure
  ensure-ok true e s h = (refl, cc)
  ensure-ok false e s h = cc

  failed-ok :
      {E' A : Type 0} (f : E → E') (r : Run (Result E A × S)) {a : A} {t : S}
      → failed f r ≡ done (ok a, t)
      → r ≡ done (ok a, t)
  failed-ok f (done (ok a, s)) h = cc
  failed-ok f (done (err e, s)) h = cc
  failed-ok f panic h = cc

  pub map_err-ok :
      {E' A : Type 0} (f : E → E') (m : M S E A) {s t : S} {a : A}
      → map_err f m s ≡ done (ok a, t)
      → m s ≡ done (ok a, t)
  unfolding map_err
  map_err-ok f m {s} h = failed-ok f (m s) h

  pub pure-ok :
      {A : Type 0} (a : A) {b : A} (s : S) {t : S}
      → pure {E = E} a s ≡ done (ok b, t)
      → (a ≡ b) × (s ≡ t)
  pure-ok a s h = (cc, cc)
