-- ===== src/Base/Removal.antt =====
-- A list without one occurrence of a member.
use mathlib.Core.List.{List, ◌∷◌}

pub data Remove {ℓ} {A : Type ℓ} (a : A) : List A → List A → Type ℓ where
  here : {l : List A} → Remove a (a ∷ l) l
  there : {b : A} {l rest : List A} → Remove a l rest → Remove a (b ∷ l) (b ∷ rest)
