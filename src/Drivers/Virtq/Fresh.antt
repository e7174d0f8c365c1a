-- ===== src/Drivers/Virtq/Fresh.antt =====
-- The queue that `new` makes, its layout, and a full queue.
use native.Mathlib.Decide.{ℕ_discrete}
use rv.Base.{
  ℕ, zero, suc, ◌+◌, ◌-◌, ◌*◌, ◌%◌, ◌^◌, ◌≤◌, ◌<◌, ◌≡◌, inl, inr, refl, ◌∙◌, subst, arith, true,
}
use rv.Base.{
  Bool, List, length, length-set, length-replicate, replicate, set, get_elem?, get_elem?-set_self,
  get_elem?-set_ne, get_elem?-lt, Option, some, done, panic, Run-cases,
}
use rv.Base.Bits.{bit_and_not_low}
use rv.Drivers.Virtq.{
  Virtq, VirtqBuffer, VirtqDescriptor, zeroed, set_next, chain, new, submit, walk, relink,
  vq_total_sz, vq_used_off, vq_avail_pad,
}
use rv.Drivers.Virtq.Walk.{Linked}
use rv.Drivers.Virtq.Queue.{IsQueue}

set_next-inside :
    (descr : List VirtqDescriptor) (i n : ℕ)
    → i < length descr
    → (d : VirtqDescriptor) × (set_next descr i n
        ≡ done (set descr i (record d { next = n % 2 ^ 16 })))
unfolding set_next
set_next-inside descr i n h = let (d, at) = get_elem?-lt descr i h in (d, ground (arith, at))

chain-step :
    (n i : ℕ) (descr descr' : List VirtqDescriptor)
    → set_next descr (i - 1) i ≡ done descr'
    → chain (suc n) i descr ≡ chain n (i + 1) descr'
unfolding chain
chain-step n i descr descr' e = ground (arith, e)

chain-none : (i : ℕ) (descr : List VirtqDescriptor) → chain zero i descr ≡ done descr
unfolding chain
chain-none i descr = refl

abbrev Names : List VirtqDescriptor → ℕ → ℕ → Type 0
Names descr j k = (d : VirtqDescriptor) × (get_elem? descr j ≡ some d) × (d.next ≡ k)

-- Descriptors `i - 1` to `size - 2` name the one after them, and those before are as they were.
record IsChained (i size : ℕ) (descr descr' : List VirtqDescriptor) : Type 0 where
  same_length : length descr' ≡ length descr
  before : (j : ℕ) → j + 1 < i → get_elem? descr' j ≡ get_elem? descr j
  names : (j : ℕ) → i ≤ j + 1 → j + 1 < size → Names descr' j (j + 1)

chain-IsChained :
    (n i size : ℕ) (descr : List VirtqDescriptor)
    → 1 ≤ i
    → i + n ≡ size
    → length descr ≡ size
    → size < 2 ^ 16
    → (descr' : List VirtqDescriptor) × (chain n i descr ≡ done descr')
      × IsChained i size descr descr'
chain-IsChained zero i size descr one end len word = (
  descr,
  chain-none i descr,
  record { same_length = refl; before = λ j h. refl; names = λ j h h'. absurd (omega arith) },
)
chain-IsChained (suc n) i size descr one end len word =
    let (d, e) = set_next-inside descr (i - 1) i (omega (arith, len)) in
    let d' : VirtqDescriptor = record d { next = i % 2 ^ 16 } in
    let (descr', ran, c) =
      chain-IsChained n (i + 1) size (set descr (i - 1) d') (omega arith) (omega arith)
        (length-set descr (i - 1) d' ∙ len) word in
    (
      descr',
      chain-step n i descr (set descr (i - 1) d') e ∙ ran,
      record {
        same_length = c.same_length ∙ length-set descr (i - 1) d';
        before =
            λ j h. c.before j (omega arith) ∙ get_elem?-set_ne descr (i - 1) j d' (omega arith);
        names = λ j h h'. elim (ℕ_discrete (j + 1) i) [
          | yes here ↦
              let at : get_elem? descr' (i - 1) ≡ some d' =
                c.before (i - 1) (omega arith)
                ∙ get_elem?-set_self descr (i - 1) d' (omega (arith, len)) in
              let place : i - 1 ≡ j = omega arith in
              (d', subst (λ k. get_elem? descr' k ≡ some d') place at, omega arith)
          | no later ↦ c.names j (omega arith) h'
        ];
      },
    )

-- The last descriptor names the first, which closes the ring.
module _ (idx size phys : ℕ) (size_pos : 0 < size) (word : size < 2 ^ 16)
    (first descr : List VirtqDescriptor) (c : IsChained 1 size first descr)
    (len : length descr ≡ size) (d : VirtqDescriptor) where
  closing : VirtqDescriptor
  closing = record d { next = 0 }

  closed : List VirtqDescriptor
  closed = set descr (size - 1) closing

  fresh : Virtq
  fresh = record {
    idx = idx;
    size = size;
    phys = phys;
    descr = closed;
    avail_idx = 0;
    avail_ring = replicate size 0;
    first_free = 0;
    free_count = size;
  }

  closed-last : get_elem? closed (size - 1) ≡ some closing
  unfolding closed
  closed-last = get_elem?-set_self descr (size - 1) closing (omega (arith, len))

  closed-Linked : (j : ℕ) → j < size → Linked closed size 0 j
  unfolding closed closing
  closed-Linked j h = elim (ℕ_discrete (j + 1) size) [
    | yes end ↦
        let place : size - 1 ≡ j = omega arith in
        (
          closing,
          subst (λ k. get_elem? closed k ≡ some closing) place closed-last,
          ground (arith, end),
        )
    | no more ↦
        let (e, at, next) = c.names j (omega arith) (omega arith) in
        (
          e,
          get_elem?-set_ne descr (size - 1) j closing (omega arith) ∙ at,
          ground (arith, next, more),
        )
  ]

  fresh-IsQueue : IsQueue fresh
  unfolding fresh closed closing
  fresh-IsQueue = record {
    size_pos = size_pos;
    size_word = word;
    descr_length = length-set descr (size - 1) closing ∙ len;
    ring_length = length-replicate size 0;
    avail = size_pos;
    free = λ h. record {
      last = 0;
      small = omega arith;
      place = omega arith;
      linked = λ j h1 h2. closed-Linked j h2;
      parent = size - 1;
      parent_descr = closing;
      parent_at = closed-last;
      parent_next = refl;
    };
  }

module _ (layout : ℕ → ℕ → Bool) (alloc : ℕ → ℕ → Option ℕ) (page_size idx size phys : ℕ)
    (size_pos : 0 < size) (word : size < 2 ^ 16) (fits : layout (vq_total_sz size) page_size ≡ true)
    (got : alloc (vq_total_sz size) page_size ≡ some phys) where
  -- For a size of one or more, if the layout is accepted and the memory is given, `new` returns a
  -- well-formed queue of that size, with its index and the address of the memory, whose descriptors are
  -- all free, from descriptor 0 on.
  pub new-IsQueue :
      (q : Virtq) × (new layout alloc page_size idx size ≡ done q)
      × IsQueue q
      × (q.size ≡ size)
      × (q.first_free ≡ 0)
      × (q.free_count ≡ size)
      × (q.idx ≡ idx)
      × (q.phys ≡ phys)
  unfolding new fresh closed closing
  new-IsQueue =
      let (descr, ran, c) =
        chain-IsChained (size - 1) 1 size (replicate size zeroed) (omega arith) (omega arith)
          (length-replicate size zeroed) word in
      let len : length descr ≡ size = c.same_length ∙ length-replicate size zeroed in
      let (d, e) = set_next-inside descr (size - 1) 0 (omega (arith, len)) in
      (
        fresh idx size phys size_pos word (replicate size zeroed) descr c len d,
        ground (arith, fits, got, ran, e),
        fresh-IsQueue idx size phys size_pos word (replicate size zeroed) descr c len d,
        refl,
        refl,
        refl,
        refl,
        refl,
      )

-- For an even size the ring of used elements does not start at a multiple of four, although the code
-- says that it must.
pub vq_used_off_misaligned : (k : ℕ) → 2 * k < 2 ^ 16 → vq_used_off (2 * k) % 4 ≡ 2
unfolding vq_used_off vq_avail_pad
vq_used_off_misaligned k h = ground (
  arith,
  bit_and_not_low 2 (16 * (2 * k) + (4 + 2 * (2 * k + 1)) + 3) (omega arith) (omega arith),
)

-- A call with more buffers than there are free descriptors panics.
pub submit_full :
    (q : Virtq) (buffers : List VirtqBuffer)
    → q.free_count < length buffers
    → submit q buffers ≡ panic
unfolding submit
submit_full q buffers more = elim (Run-cases (walk q.descr (length buffers) q.first_free)) [
  | inr stuck ↦ ground (arith, stuck)
  | inl (link, walked) ↦ elim (Run-cases (relink q.descr q.first_free link)) [
    | inr stuck ↦ ground (arith, walked, stuck)
    | inl (descr, relinked) ↦ ground (arith, walked, relinked)
  ]
]
