-- ===== src/Drivers/Virtq/Tests.antt =====
-- A queue of two descriptors.
use rv.Base.{
  ◌+◌, ℕ, zero, suc, ◌*◌, ◌%◌, ◌<◌, ◌≡◌, refl, arith, Bool, true, List, [], ◌∷◌, Option, some, done,
}
use rv.Drivers.Virtq.{Virtq, VirtqBuffer, readable, writeable, new, submit, vq_used_off}
use rv.Drivers.Virtq.Walk.{Linked}
use rv.Drivers.Virtq.Queue.{IsQueue, IsSubmitted}
use rv.Drivers.Virtq.Runs.{submit_all, submit_all-IsQueue}
use rv.Drivers.Virtq.Submit.{submit-IsSubmitted}
use rv.Drivers.Virtq.Fresh.{new-IsQueue, vq_used_off_misaligned}

abbrev layout : ℕ → ℕ → Bool
layout size align = true

abbrev alloc : ℕ → ℕ → Option ℕ
alloc size align = some 0x8000_0000

new-IsQueue_example :
    (q : Virtq) × (new layout alloc 4096 0 2 ≡ done q)
    × IsQueue q
    × (q.size ≡ 2)
    × (q.first_free ≡ 0)
    × (q.free_count ≡ 2)
    × (q.idx ≡ 0)
    × (q.phys ≡ 0x8000_0000)
new-IsQueue_example =
    new-IsQueue layout alloc 4096 0 2 0x8000_0000 (omega arith) (omega arith) refl refl

abbrev queue : Virtq
queue = record {
  idx = 0;
  size = 2;
  phys = 0x8000_0000;
  descr =
      (record { addr = 0; len = 0; flags = 0; next = 1 })
      ∷ (record { addr = 0; len = 0; flags = 0; next = 0 })
      ∷ [];
  avail_idx = 0;
  avail_ring = 0 ∷ 0 ∷ [];
  first_free = 0;
  free_count = 2;
}

queue-Linked : (j : ℕ) → j < 2 → Linked queue.descr 2 0 j
queue-Linked zero h = (record { addr = 0; len = 0; flags = 0; next = 1 }, refl, refl)
queue-Linked (suc zero) h = (record { addr = 0; len = 0; flags = 0; next = 0 }, refl, refl)
queue-Linked (suc (suc j)) h = absurd (omega arith)

queue-IsQueue : IsQueue queue
queue-IsQueue = record {
  size_pos = omega arith;
  size_word = omega arith;
  descr_length = refl;
  ring_length = refl;
  avail = omega arith;
  free = λ h. record {
    last = 0;
    small = omega arith;
    place = refl;
    linked = λ j h1 h2. queue-Linked j h2;
    parent = 1;
    parent_descr = record { addr = 0; len = 0; flags = 0; next = 0 };
    parent_at = refl;
    parent_next = refl;
  };
}

abbrev buffers : List VirtqBuffer
buffers = readable 0x1000 16 ∷ writeable 0x2000 512 ∷ []

submit-IsSubmitted_example :
    (q' : Virtq) × (submit queue buffers ≡ done (q', 0)) × IsSubmitted queue buffers q'
submit-IsSubmitted_example =
    submit-IsSubmitted queue queue-IsQueue buffers (omega arith) (omega arith)

vq_used_off_misaligned_example : vq_used_off (2 * 4) % 4 ≡ 2
vq_used_off_misaligned_example = vq_used_off_misaligned 4 (omega arith)

-- Each buffer alone.
abbrev requests : List (List VirtqBuffer)
requests = (readable 0x1000 16 ∷ []) ∷ (writeable 0x2000 512 ∷ []) ∷ []

submit_all-IsQueue_example :
    (q' : Virtq) × (submit_all queue requests ≡ done q') × IsQueue q' × (q'.free_count + 2 ≡ 2)
submit_all-IsQueue_example =
    submit_all-IsQueue queue requests queue-IsQueue (omega arith, (omega arith, tt)) (omega arith)
