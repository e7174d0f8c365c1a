-- ===== src/Drivers/Virtq/Submit.antt =====
-- What `submit` does to a well-formed queue.
use native.Mathlib.Nat.{mod-lt}
use rv.Base.{
  ℕ, suc, ◌+◌, ◌-◌, ◌%◌, ◌^◌, ◌≤◌, ◌<◌, ◌≡◌, ◌≢◌, ◌⊎◌, inl, inr, refl, ap, ◌∙◌, subst, arith,
}
use rv.Base.{
  Bool, true, false, List, length, length-set, set, get_elem?, get_elem?-set_self, get_elem?-set_ne,
  get_elem?-some, get_elem?-lt, some, done, ◌==◌, if◌then◌else◌,
}
use rv.Drivers.Virtq.{
  Virtq, VirtqBuffer, readable, writeable, VirtqDescriptor, is_write, prepared, descriptor_flags,
  walk, relink, prepare, bump_avail, submit,
}
use rv.Drivers.Virtq.Walk.{after, IsLinked, walk-after}
use rv.Drivers.Virtq.Relink.{
  SameBuffer, Relinked, relink-Relinked, relinked-buffer, same_some, relinked-IsLinked,
  relinked-length,
}
use rv.Drivers.Virtq.Prepare.{Prepared, prepare-Prepared}
use rv.Drivers.Virtq.Queue.{IsFree, IsQueue, IsFor, IsSubmitted}

descriptor_flags-eq :
    (b : VirtqBuffer) (rem : ℕ) (is_last : Bool)
    → (rem == 1) ≡ is_last
    → descriptor_flags b rem ≡ (if is_last then 0 else 1) + (if is_write b then 2 else 0)
unfolding descriptor_flags
descriptor_flags-eq (readable addr len) rem true e = rw e refl
descriptor_flags-eq (readable addr len) rem false e = rw e refl
descriptor_flags-eq (writeable addr len) rem true e = rw e refl
descriptor_flags-eq (writeable addr len) rem false e = rw e refl

prepared-IsFor :
    (b : VirtqBuffer) (n i : ℕ) (d : VirtqDescriptor)
    → i < n
    → IsFor b (suc i == n) (prepared b (n - i) d)
prepared-IsFor b n i d h = (refl, refl, descriptor_flags-eq b (n - i) (suc i == n) (ground arith))

module _ (q : Virtq) (inv : IsQueue q) (buffers : List VirtqBuffer)
    (some_buffer : 0 < length buffers) (fits : length buffers ≤ q.free_count) where
  abbrev n : ℕ
  n = length buffers

  abbrev f : ℕ
  f = q.first_free

  free : IsFree q
  free = inv.free (omega arith)

  f-lt : f < q.size
  f-lt = omega (arith, free.place)

  room : f + n ≤ q.size
  room = omega (arith, free.place)

  link : ℕ
  link = after q.size free.last (f + n)

  link-lt : f + n < q.size → link ≡ f + n
  unfolding link
  link-lt h = ground arith

  walked : walk q.descr n f ≡ done link
  unfolding link
  walked = walk-after q.descr q.size free.last n f f-lt room free.linked

  relinked :
      (descr : List VirtqDescriptor) × (relink q.descr f link ≡ done descr)
      × Relinked q.descr descr f link
  relinked =
      relink-Relinked q.descr f link free.parent free.parent_descr free.parent_at free.parent_next

  linked : (w : ℕ) × IsLinked relinked.0 f q.size w × ((w ≡ free.last) ⊎ (w ≡ link % 2 ^ 16))
  linked =
      relinked-IsLinked q.descr relinked.0 f link q.size free.last relinked.2 free.linked f-lt
        inv.descr_length

  linked-link : after q.size linked.0 (f + n) ≡ link
  unfolding link
  linked-link = elim linked.2 [
    | inl same ↦ ap (λ w. after q.size w (f + n)) same
    | inr now ↦ ground (arith, now, free.small)
  ]

  linked-small : linked.0 < 2 ^ 16
  linked-small = elim linked.2 [
    | inl same ↦ omega (arith, same, free.small)
    | inr now ↦ omega (arith, now)
  ]

  done_prepare :
      (descr : List VirtqDescriptor) × (prepare relinked.0 f n buffers ≡ done (descr, link, 0))
      × Prepared relinked.0 descr f buffers
  done_prepare =
      let (descr, ran, p) =
        prepare-Prepared relinked.0 q.size linked.0 f f buffers linked.1
          (relinked-length q.descr relinked.0 f link q.size free.last relinked.2 free.linked f-lt
            inv.descr_length)
          room (ground (arith, f-lt)) in
      (descr, ran ∙ ap (λ k. done (descr, k, 0)) linked-link, p)

  submitted : Virtq
  submitted = record q {
    descr = done_prepare.0;
    first_free = link;
    free_count = q.free_count - n;
    avail_ring = set q.avail_ring q.avail_idx f;
    avail_idx = (q.avail_idx + 1) % q.size;
  }

  submit-submitted : submit q buffers ≡ done (submitted, q.idx)
  unfolding submit submitted bump_avail
  submit-submitted =
      ground
        (arith, walked, relinked.1, done_prepare.1, inv.avail, inv.size_word, inv.ring_length, f-lt)

  written :
      (i : ℕ) (b : VirtqBuffer)
      → get_elem? buffers i ≡ some b
      → (d : VirtqDescriptor) × (get_elem? submitted.descr (f + i) ≡ some d)
        × IsFor b (suc i == n) d
        × (d.next ≡ after q.size linked.0 (suc (f + i)))
  unfolding submitted
  written i b at =
      let i-lt : i < n = get_elem?-some buffers i at in
      let (d, was, is) = done_prepare.2.inside i b at in
      let (e, was', next) = linked.1 (f + i) (omega arith) (omega (arith, room)) in
      let same : e ≡ d = same_some (get_elem? relinked.0 (f + i)) was' was in
      let next' =
        subst (λ (x : VirtqDescriptor). x.next ≡ after q.size linked.0 (suc (f + i))) same next in
      (prepared b (n - i) d, is, prepared-IsFor b n i d i-lt, next')

  buffer_at :
      (i : ℕ) (b : VirtqBuffer)
      → get_elem? buffers i ≡ some b
      → (d : VirtqDescriptor) × (get_elem? submitted.descr (f + i) ≡ some d)
        × IsFor b (suc i == n) d
        × (suc i ≢ n → d.next ≡ f + suc i)
  buffer_at i b at =
      let (d, is, for_it, next) = written i b at in
      let i-lt : i < n = get_elem?-some buffers i at in
      (d, is, for_it, λ more. ground (arith, next, room, more, i-lt))

  others_kept :
      (j : ℕ) (d : VirtqDescriptor)
      → (j < f) ⊎ (f + n ≤ j)
      → get_elem? q.descr j ≡ some d
      → (d' : VirtqDescriptor) × (get_elem? submitted.descr j ≡ some d') × SameBuffer d d'
  unfolding submitted
  others_kept j d out at =
      let (d', was, same) =
        relinked-buffer q.descr relinked.0 f link q.size free.last relinked.2 free.linked f-lt
          inv.descr_length j d at in
      (d', done_prepare.2.outside j out ∙ was, same)

  free_left : 0 < q.free_count - n → IsFree submitted
  unfolding submitted
  free_left more =
      let place = free.place in
      let at : link ≡ f + n = link-lt (omega arith) in
      let (b, at_last) = get_elem?-lt buffers (n - 1) (omega arith) in
      let (d, is, for_it, next) = written (n - 1) b at_last in
      record {
        last = linked.0;
        small = linked-small;
        place = omega arith;
        linked = λ j h h'.
            let (e, was, next_of) = linked.1 j (omega arith) h' in
            (e, done_prepare.2.outside j (inr (omega arith)) ∙ was, next_of);
        parent = f + (n - 1);
        parent_descr = d;
        parent_at = is;
        parent_next = ground (arith, next, at, place, more);
      }

  submitted-IsQueue : IsQueue submitted
  unfolding submitted
  submitted-IsQueue = record {
    size_pos = inv.size_pos;
    size_word = inv.size_word;
    descr_length =
        done_prepare.2.same_length
        ∙ relinked-length q.descr relinked.0 f link q.size free.last relinked.2 free.linked f-lt
            inv.descr_length;
    ring_length = length-set q.avail_ring q.avail_idx f ∙ inv.ring_length;
    avail = mod-lt (q.avail_idx + 1) inv.size_pos;
    free = free_left;
  }

  -- For a well-formed queue and one buffer or more, at most as many as there are free descriptors, `submit`
  -- returns without a panic and notifies the device of the queue. Each buffer is in its descriptor, in order from
  -- the first free one on, linked to the next, with flags that say whether another one follows and whether
  -- the device writes. No other descriptor has another buffer. The first of them is the next entry of the
  -- ring of available ones, and the queue is well-formed with that many fewer free descriptors.
  pub submit-IsSubmitted :
      (q' : Virtq) × (submit q buffers ≡ done (q', q.idx)) × IsSubmitted q buffers q'
  unfolding submitted
  submit-IsSubmitted = (
    submitted,
    submit-submitted,
    record {
      queue = submitted-IsQueue;
      count = omega (arith, fits);
      same_size = refl;
      buffer = buffer_at;
      others = others_kept;
      ring =
          get_elem?-set_self q.avail_ring q.avail_idx f (omega (arith, inv.avail, inv.ring_length));
      ring_others = λ j h. get_elem?-set_ne q.avail_ring q.avail_idx j f h;
      ring_next = refl;
    },
  )
