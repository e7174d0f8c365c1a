-- ===== src/Drivers/Blkdev/Tests.antt =====
-- Transfers of the block device at concrete inputs.
use rv.Base.{ℕ, zero, suc, ◌<◌, ◌≡◌, inl, inr, refl, arith, List, [], ◌∷◌, some, done}
use rv.Drivers.Blkdev.{Blkdev, in_, transfer}
use rv.Drivers.Blkdev.Transfers.{IsTransferred, transfer-IsTransferred, Request}
use rv.Drivers.Virtq.{Virtq, VirtqDescriptor}
use rv.Drivers.Virtq.Queue.{IsQueue}
use rv.Drivers.Virtq.Walk.{Linked}

abbrev linked_to : ℕ → VirtqDescriptor
linked_to n = record { addr = 0; len = 0; flags = 0; next = n }

abbrev queue : Virtq
queue = record {
  idx = 0;
  size = 3;
  phys = 0x8000_0000;
  descr = linked_to 1 ∷ linked_to 2 ∷ linked_to 0 ∷ [];
  avail_idx = 0;
  avail_ring = 0 ∷ 0 ∷ 0 ∷ [];
  first_free = 0;
  free_count = 3;
}

queue-Linked : (j : ℕ) → j < 3 → Linked queue.descr 3 0 j
queue-Linked zero h = (linked_to 1, refl, refl)
queue-Linked (suc zero) h = (linked_to 2, refl, refl)
queue-Linked (suc (suc zero)) h = (linked_to 0, refl, refl)
queue-Linked (suc (suc (suc j))) h = absurd (omega arith)

queue-IsQueue : IsQueue queue
queue-IsQueue = record {
  size_pos = omega arith;
  size_word = omega arith;
  descr_length = refl;
  ring_length = refl;
  avail = omega arith;
  free = λ h. record {
    last = 0;
    small = omega arith;
    place = refl;
    linked = λ j h1 h2. queue-Linked j h2;
    parent = 2;
    parent_descr = linked_to 0;
    parent_at = refl;
    parent_next = refl;
  };
}

abbrev dev : Blkdev
dev = record { virtq = queue; mem = λ p. 0; notified = []; cleared = [] }

-- Sector 7 is read to 0x9000, and the flag is set at the second read of the status.
transfer-IsTransferred_example :
    (dev' : Blkdev) × (later : List ℕ) × (transfer (some 0x8000) (0 ∷ 1 ∷ []) in_ 7 0x9000 512 dev
      ≡ done (some (dev', later)))
    × IsTransferred dev 0x8000 in_ 7 0x9000 512 dev'
transfer-IsTransferred_example =
    transfer-IsTransferred dev 0x8000 (0 ∷ 1 ∷ []) in_ 7 0x9000 512 queue-IsQueue (omega arith)
      (omega arith) (inr (inl refl))

abbrev read_sector : ℕ → Request
read_sector n = record { alloc = some 0x8000; kind = in_; sector = n; addr = 0x9000; len = 512 }
