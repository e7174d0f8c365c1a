-- ===== src/Mmu/Space/Binds.antt =====
-- A method that starts with another: what it does by what the first one returns.
use rv.Base.{◌≡◌, ap, Run, done, panic, Result, ok, err}
use rv.Mmu.Space.{MapError, Space, M, ◌>>=◌, lift}

module _ {S A B : Type 0} (m : M S A) (f : A → M S B) (s s' : Space S) where
  pub bind-ok : (a : A) → m s ≡ done (ok a, s') → (m >>= f) s ≡ f a s'
  bind-ok a e =
      ap
        (λ r. elim r as (λ _. Run (Result MapError B × Space S)) [
          | panic ↦ panic
          | done (ok a, s') ↦ f a s'
          | done (err e, s') ↦ done (err e, s')
        ])
        e

  pub bind-err : (x : MapError) → m s ≡ done (err x, s') → (m >>= f) s ≡ done (err x, s')
  bind-err x e =
      ap
        (λ r. elim r as (λ _. Run (Result MapError B × Space S)) [
          | panic ↦ panic
          | done (ok a, s') ↦ f a s'
          | done (err e, s') ↦ done (err e, s')
        ])
        e

pub lift-eq :
    {S A : Type 0} (r : Run A) (a : A) (s : Space S) → r ≡ done a → lift r s ≡ done (ok a, s)
lift-eq r a s e = rw e
