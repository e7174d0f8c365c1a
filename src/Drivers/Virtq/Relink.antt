-- ===== src/Drivers/Virtq/Relink.antt =====
-- The descriptor whose link is changed.
use native.Mathlib.Decide.{ℕ_discrete, dec_lt}
use rv.Base.{
  ℕ, zero, suc, ◌%◌, ◌^◌, ◌≤◌, ◌<◌, ◌≡◌, ◌≢◌, ◌⊎◌, inl, inr, refl, sym, ap, ◌∙◌, subst, arith,
}
use rv.Base.{
  List, [], ◌∷◌, length, length-set, set, get_elem?, get_elem?-set_self, get_elem?-set_ne,
  get_elem?-ge, Option, none, some, done,
}
use rv.Drivers.Virtq.{VirtqDescriptor, relink}
use rv.Drivers.Virtq.Walk.{after, Linked, IsLinked}

-- The same buffer, whatever comes next.
abbrev pub SameBuffer : VirtqDescriptor → VirtqDescriptor → Type 0
SameBuffer d d' = (d'.addr ≡ d.addr) × (d'.len ≡ d.len) × (d'.flags ≡ d.flags)

-- One descriptor that named the head now names the link.
pub record Relinked (descr descr' : List VirtqDescriptor) (head link : ℕ) : Type 0 where
  pub place : ℕ
  pub parent : VirtqDescriptor
  pub at : get_elem? descr place ≡ some parent
  pub named : parent.next ≡ head
  pub result : descr' ≡ set descr place (record parent { next = link % 2 ^ 16 })

Relinked-cons :
    (d : VirtqDescriptor) (descr descr' : List VirtqDescriptor) (head link : ℕ)
    → Relinked descr descr' head link
    → Relinked (d ∷ descr) (d ∷ descr') head link
Relinked-cons d descr descr' head link r = record {
  place = suc r.place;
  parent = r.parent;
  at = r.at;
  named = r.named;
  result = ap (λ ds. d ∷ ds) r.result;
}

relink-here :
    (d : VirtqDescriptor) (descr : List VirtqDescriptor) (head link : ℕ)
    → d.next ≡ head
    → relink (d ∷ descr) head link ≡ done (record d { next = link % 2 ^ 16 } ∷ descr)
unfolding relink
relink-here d descr head link e = ground (arith, e)

relink-later :
    (d : VirtqDescriptor) (descr descr' : List VirtqDescriptor) (head link : ℕ)
    → d.next ≢ head
    → relink descr head link ≡ done descr'
    → relink (d ∷ descr) head link ≡ done (d ∷ descr')
unfolding relink
relink-later d descr descr' head link n e = ground (arith, e, n)

pub relink-Relinked :
    (descr : List VirtqDescriptor) (head link p : ℕ) (d : VirtqDescriptor)
    → get_elem? descr p ≡ some d
    → d.next ≡ head
    → (descr' : List VirtqDescriptor) × (relink descr head link ≡ done descr')
      × Relinked descr descr' head link
relink-Relinked [] head link p d at e = cc
relink-Relinked (x ∷ descr) head link zero d at e =
    let same : x ≡ d = cc in
    let here : x.next ≡ head = ap (λ (y : VirtqDescriptor). y.next) same ∙ e in
    (
      record x { next = link % 2 ^ 16 } ∷ descr,
      relink-here x descr head link here,
      record { place = 0; parent = x; at = refl; named = here; result = refl },
    )
relink-Relinked (x ∷ descr) head link (suc p) d at e = elim (ℕ_discrete x.next head) [
  | yes here ↦ (
    record x { next = link % 2 ^ 16 } ∷ descr,
    relink-here x descr head link here,
    record { place = 0; parent = x; at = refl; named = here; result = refl },
  )
  | no there ↦
      let (descr', ran, r) = relink-Relinked descr head link p d at e in
      (
        x ∷ descr',
        relink-later x descr descr' head link there ran,
        Relinked-cons x descr descr' head link r,
      )
]

none-some : {A : Type 0} {a : A} → none ≡ some a → ⊥
none-some e = cc

pub same_some : {A : Type 0} {a b : A} (x : Option A) → x ≡ some a → x ≡ some b → a ≡ b
same_some x p q = cc

module _ (descr descr' : List VirtqDescriptor) (f link size w : ℕ)
    (r : Relinked descr descr' f link) (l : IsLinked descr f size w) (lt : f < size)
    (len : length descr ≡ size) where
  place-lt : r.place < size
  place-lt = elim (dec_lt r.place size) [
    | yes h ↦ h
    | no h ↦
        let beyond = get_elem?-ge descr r.place (omega (arith, len)) in
        absurd (none-some (sym beyond ∙ r.at))
  ]

  -- Only the last of the free descriptors can name the first.
  place-cases : (r.place < f) ⊎ (suc r.place ≡ size)
  place-cases = elim (dec_lt r.place f) [
    | yes h ↦ inl h
    | no h ↦ elim (ℕ_discrete (suc r.place) size) [
      | yes last ↦ inr last
      | no more ↦
          let (d, at, link') = l r.place (omega arith) place-lt in
          let same : d ≡ r.parent = same_some (get_elem? descr r.place) at r.at in
          let on : d.next ≡ suc r.place = ground (arith, link', more) in
          let named : d.next ≡ f = ap (λ (y : VirtqDescriptor). y.next) same ∙ r.named in
          absurd (omega (arith, on, named))
    ]
  ]

  -- Another descriptor is as it was.
  pub relinked-ne : (j : ℕ) → r.place ≢ j → get_elem? descr' j ≡ get_elem? descr j
  relinked-ne j n =
      ap (λ (ds : List VirtqDescriptor). get_elem? ds j) r.result
      ∙ get_elem?-set_ne descr r.place j _ n

  pub relinked_self : get_elem? descr' r.place ≡ some (record r.parent { next = link % 2 ^ 16 })
  relinked_self =
      ap (λ (ds : List VirtqDescriptor). get_elem? ds r.place) r.result
      ∙ get_elem?-set_self descr r.place _ (omega (arith, place-lt, len))

  relinked-Linked :
      (w' j : ℕ)
      → r.place ≢ j
      → f ≤ j
      → j < size
      → after size w (suc j) ≡ after size w' (suc j)
      → Linked descr' size w' j
  relinked-Linked w' j n h h' same =
      let (d, at, link') = l j h h' in (d, relinked-ne j n ∙ at, link' ∙ same)

  relinked-last :
      suc r.place ≡ size → (j : ℕ) → f ≤ j → j < size → Linked descr' size (link % 2 ^ 16) j
  relinked-last last j h h' = elim (ℕ_discrete r.place j) [
    | yes here ↦
        subst (Linked descr' size (link % 2 ^ 16)) here
          (record r.parent { next = link % 2 ^ 16 }, relinked_self, ground (arith, last))
    | no other ↦ relinked-Linked (link % 2 ^ 16) j other h h' (ground (arith, last, other))
  ]

  -- The free descriptors stay linked; the last one has the new link if it was the one to change.
  pub relinked-IsLinked : (w' : ℕ) × IsLinked descr' f size w' × ((w' ≡ w) ⊎ (w' ≡ link % 2 ^ 16))
  relinked-IsLinked = elim place-cases [
    | inl before ↦ (w, (λ j h h'. relinked-Linked w j (omega arith) h h' refl), inl refl)
    | inr last ↦ (link % 2 ^ 16, relinked-last last, inr refl)
  ]

  pub relinked-length : length descr' ≡ size
  relinked-length = ap length r.result ∙ length-set descr r.place _ ∙ len

  -- Only links change.
  pub relinked-buffer :
      (j : ℕ) (d : VirtqDescriptor)
      → get_elem? descr j ≡ some d
      → (d' : VirtqDescriptor) × (get_elem? descr' j ≡ some d') × SameBuffer d d'
  relinked-buffer j d at = elim (ℕ_discrete r.place j) [
    | no other ↦ (d, relinked-ne j other ∙ at, (refl, refl, refl))
    | yes here ↦
        let e : get_elem? descr j ≡ some r.parent =
          subst (λ k. get_elem? descr k ≡ some r.parent) here r.at in
        let same : r.parent ≡ d = same_some (get_elem? descr j) e at in
        let now =
          subst (λ k. get_elem? descr' k ≡ some (record r.parent { next = link % 2 ^ 16 })) here
            relinked_self in
        subst
          (λ (x : VirtqDescriptor).
            (d' : VirtqDescriptor) × (get_elem? descr' j ≡ some d') × SameBuffer x d')
          same (record r.parent { next = link % 2 ^ 16 }, now, (refl, refl, refl))
  ]
