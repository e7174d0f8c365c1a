-- ===== src/Drivers/Virtq/Walk.antt =====
-- The free descriptors of a queue: from the first free one on they follow each other up to the end.
use native.Mathlib.Decide.{ℕ_discrete}
use rv.Base.{ℕ, zero, suc, ◌+◌, ◌≤◌, ◌<◌, ◌≡◌, refl, ap, ◌∙◌, arith}
use rv.Base.{List, get_elem?, some, done, ◌==◌, if◌then◌else◌}
use rv.Drivers.Virtq.{VirtqDescriptor, walk}

-- The descriptor after `k - 1`, which is `w` at the end.
abbrev pub after : ℕ → ℕ → ℕ → ℕ
after size w k = if k == size then w else k

abbrev pub Linked : List VirtqDescriptor → ℕ → ℕ → ℕ → Type 0
Linked descr size w j =
    (d : VirtqDescriptor) × (get_elem? descr j ≡ some d) × (d.next ≡ after size w (suc j))

-- Each descriptor from `f` on names the one after it, and the last one names `w`.
abbrev pub IsLinked : List VirtqDescriptor → ℕ → ℕ → ℕ → Type 0
IsLinked descr f size w = (j : ℕ) → f ≤ j → j < size → Linked descr size w j

walk-step :
    (descr : List VirtqDescriptor) (n idx : ℕ) (d : VirtqDescriptor)
    → get_elem? descr idx ≡ some d
    → walk descr (suc n) idx ≡ walk descr n d.next
unfolding walk
walk-step descr n idx d at = rw at refl

walk-none : (descr : List VirtqDescriptor) (idx : ℕ) → walk descr zero idx ≡ done idx
unfolding walk
walk-none descr idx = refl

pub walk-after :
    (descr : List VirtqDescriptor) (size w n f : ℕ)
    → f < size
    → f + n ≤ size
    → IsLinked descr f size w
    → walk descr n f ≡ done (after size w (f + n))
walk-after descr size w zero f lt le l = walk-none descr f ∙ ground arith
walk-after descr size w (suc n) f lt le l =
    let (d, at, link) = l f (omega arith) lt in
    walk-step descr n f d at ∙ elim (ℕ_discrete (suc f) size) [
      | yes last ↦
          let none_left : n ≡ 0 = omega arith in
          let here : d.next ≡ w = ground (arith, link, last) in
          ap (λ m. walk descr m d.next) none_left
          ∙ walk-none descr d.next
          ∙ ap done here
          ∙ ground arith
      | no more ↦
          let here : d.next ≡ suc f = ground (arith, link, more) in
          ap (walk descr n) here
          ∙ walk-after descr size w n (suc f) (omega arith) (omega arith)
              (λ j h h'. l j (omega arith) h')
          ∙ ap (λ k. done (after size w k)) {x = suc f + n} (omega arith)
    ]
