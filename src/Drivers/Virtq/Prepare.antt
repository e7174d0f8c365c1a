-- ===== src/Drivers/Virtq/Prepare.antt =====
-- The descriptors that the loop over the buffers writes.
use rv.Base.{ℕ, zero, suc, ◌+◌, ◌-◌, ◌≤◌, ◌<◌, ◌≡◌, ◌⊎◌, inl, refl, sym, ap, ◌∙◌, subst, arith}
use rv.Base.{
  List, [], ◌∷◌, length, length-set, set, get_elem?, get_elem?-set_self, get_elem?-set_ne, some,
  done,
}
use rv.Drivers.Virtq.{VirtqBuffer, VirtqDescriptor, prepare, prepared}
use rv.Drivers.Virtq.Walk.{after, IsLinked}

-- Descriptor `j` holds the buffer, with `rem` buffers left, and keeps its link.
abbrev pub Holds : (descr descr' : List VirtqDescriptor) → ℕ → VirtqBuffer → ℕ → Type 0
Holds descr descr' j b rem =
    (d : VirtqDescriptor) × (get_elem? descr j ≡ some d)
    × (get_elem? descr' j ≡ some (prepared b rem d))

-- The buffers have gone to the descriptors from `f` on, in order, and to no other.
pub record Prepared (descr descr' : List VirtqDescriptor) (f : ℕ) (buffers : List VirtqBuffer)
    : Type 0 where
  pub same_length : length descr' ≡ length descr
  pub outside :
      (j : ℕ) → (j < f) ⊎ (f + length buffers ≤ j) → get_elem? descr' j ≡ get_elem? descr j
  pub inside :
      (i : ℕ) (b : VirtqBuffer)
      → get_elem? buffers i ≡ some b
      → Holds descr descr' (f + i) b (length buffers - i)

prepare-step :
    (descr : List VirtqDescriptor) (idx n : ℕ) (b : VirtqBuffer) (buffers : List VirtqBuffer)
    (d : VirtqDescriptor)
    → get_elem? descr idx ≡ some d
    → prepare descr idx (suc n) (b ∷ buffers)
      ≡ prepare (set descr idx (prepared b (suc n) d)) d.next n buffers
unfolding prepare
prepare-step descr idx n b buffers d at = ground (arith, at)

prepare-none :
    (descr : List VirtqDescriptor) (idx rem : ℕ) → prepare descr idx rem [] ≡ done (descr, idx, rem)
unfolding prepare
prepare-none descr idx rem = refl

Prepared-none : (descr : List VirtqDescriptor) (f : ℕ) → Prepared descr descr f []
Prepared-none descr f = record { same_length = refl; outside = λ j h. refl; inside = λ i b e. cc }

module _ (descr descr' : List VirtqDescriptor) (f : ℕ) (b : VirtqBuffer)
    (buffers : List VirtqBuffer) (d : VirtqDescriptor) (at : get_elem? descr f ≡ some d)
    (lt : f < length descr)
    (p : Prepared (set descr f (prepared b (suc (length buffers)) d)) descr' (suc f) buffers) where
  first_one : get_elem? descr' f ≡ some (prepared b (suc (length buffers)) d)
  first_one = p.outside f (inl (omega arith)) ∙ get_elem?-set_self descr f _ lt

  inside-cons :
      (i : ℕ) (c : VirtqBuffer)
      → get_elem? (b ∷ buffers) i ≡ some c
      → Holds descr descr' (f + i) c (suc (length buffers) - i)
  inside-cons zero c h =
      let same : b ≡ c = cc in
      let start : f ≡ f + 0 = omega arith in
      let left : suc (length buffers) ≡ suc (length buffers) - 0 = omega arith in
      subst (λ j. Holds descr descr' j c (suc (length buffers) - 0)) start
        (subst (Holds descr descr' f c) left
          (subst (λ x. Holds descr descr' f x (suc (length buffers))) same (d, at, first_one)))
  inside-cons (suc i) c h =
      let (e, was, is) = p.inside i c h in
      let start : suc f + i ≡ f + suc i = omega arith in
      let left : length buffers - i ≡ suc (length buffers) - suc i = omega arith in
      subst (λ j. Holds descr descr' j c (suc (length buffers) - suc i)) start
        (subst (Holds descr descr' (suc f + i) c) left
          (e, sym (get_elem?-set_ne descr f (suc f + i) _ (omega arith)) ∙ was, is))

  Prepared-cons : Prepared descr descr' f (b ∷ buffers)
  Prepared-cons = record {
    same_length = p.same_length ∙ length-set descr f _;
    outside =
        λ j h. p.outside j (ground (arith, h)) ∙ get_elem?-set_ne descr f j _ (ground (arith, h));
    inside = inside-cons;
  }

IsLinked-set :
    (descr : List VirtqDescriptor) (f size w : ℕ) (v : VirtqDescriptor)
    → IsLinked descr f size w
    → IsLinked (set descr f v) (suc f) size w
IsLinked-set descr f size w v l j h h' =
    let (d, at, link) = l j (omega arith) h' in
    (d, get_elem?-set_ne descr f j v (omega arith) ∙ at, link)

pub prepare-Prepared :
    (descr : List VirtqDescriptor) (size w idx f : ℕ) (buffers : List VirtqBuffer)
    → IsLinked descr f size w
    → length descr ≡ size
    → f + length buffers ≤ size
    → idx ≡ after size w f
    → (descr' : List VirtqDescriptor) × (prepare descr idx (length buffers) buffers
        ≡ done (descr', after size w (f + length buffers), 0))
      × Prepared descr descr' f buffers
prepare-Prepared descr size w idx f [] l len le e = (
  descr,
  prepare-none descr idx 0 ∙ ap (λ k. done (descr, k, 0)) (e ∙ ap (after size w) (omega arith)),
  Prepared-none descr f,
)
prepare-Prepared descr size w idx f (b ∷ buffers) l len le e =
    let (d, at, link) = l f (omega arith) (omega arith) in
    let here : idx ≡ f = ground (arith, e, le) in
    let (descr', ran, p) =
      prepare-Prepared (set descr f (prepared b (suc (length buffers)) d)) size w d.next (suc f)
        buffers (IsLinked-set descr f size w _ l) (length-set descr f _ ∙ len) (omega arith) link in
    (
      descr',
      ap (λ k. prepare descr k (suc (length buffers)) (b ∷ buffers)) here
          ∙ prepare-step descr f (length buffers) b buffers d at
          ∙ ran
          ∙ ap (λ k. done (descr', after size w k, 0)) {x = suc f + length buffers} (omega arith),
      Prepared-cons descr descr' f b buffers d at (omega (arith, len, le)) p,
    )
