-- ===== src/Drivers/Virtq/Queue.antt =====
-- A well-formed queue, and what `submit` does to it.
use rv.Base.{ℕ, suc, ◌+◌, ◌%◌, ◌^◌, ◌≤◌, ◌<◌, ◌≡◌, ◌≢◌, ◌⊎◌}
use rv.Base.{Bool, List, length, get_elem?, some, ◌==◌, if◌then◌else◌}
use rv.Drivers.Virtq.{Virtq, VirtqBuffer, VirtqDescriptor, buffer_addr, buffer_len, is_write}
use rv.Drivers.Virtq.Walk.{IsLinked}
use rv.Drivers.Virtq.Relink.{SameBuffer}

-- The free descriptors are the last `free_count` ones, linked in order; some descriptor names the first.
pub record IsFree (q : Virtq) : Type 0 where
  pub last : ℕ
  pub small : last < 2 ^ 16
  pub place : q.first_free + q.free_count ≡ q.size
  pub linked : IsLinked q.descr q.first_free q.size last
  pub parent : ℕ
  pub parent_descr : VirtqDescriptor
  pub parent_at : get_elem? q.descr parent ≡ some parent_descr
  pub parent_next : parent_descr.next ≡ q.first_free

pub record IsQueue (q : Virtq) : Type 0 where
  pub size_pos : 0 < q.size
  pub size_word : q.size < 2 ^ 16
  pub descr_length : length q.descr ≡ q.size
  pub ring_length : length q.avail_ring ≡ q.size
  pub avail : q.avail_idx < q.size
  pub free : 0 < q.free_count → IsFree q

-- The descriptor of a buffer: bit 0 of the flags says that another one follows, bit 1 that the device writes.
abbrev pub IsFor : VirtqBuffer → Bool → VirtqDescriptor → Type 0
IsFor b is_last d =
    (d.addr ≡ buffer_addr b)
    × (d.len ≡ buffer_len b % 2 ^ 32)
    × (d.flags ≡ (if is_last then 0 else 1) + (if is_write b then 2 else 0))

-- What a call leaves: each buffer in its descriptor, in order from the first free one on, the first of them in
-- the ring, and the counts moved on.
pub record IsSubmitted (q : Virtq) (buffers : List VirtqBuffer) (q' : Virtq) : Type 0 where
  pub queue : IsQueue q'
  pub count : q'.free_count + length buffers ≡ q.free_count
  pub same_size : q'.size ≡ q.size
  pub buffer :
      (i : ℕ) (b : VirtqBuffer)
      → get_elem? buffers i ≡ some b
      → (d : VirtqDescriptor) × (get_elem? q'.descr (q.first_free + i) ≡ some d)
        × IsFor b (suc i == length buffers) d
        × (suc i ≢ length buffers → d.next ≡ q.first_free + suc i)
  pub others :
      (j : ℕ) (d : VirtqDescriptor)
      → (j < q.first_free) ⊎ (q.first_free + length buffers ≤ j)
      → get_elem? q.descr j ≡ some d
      → (d' : VirtqDescriptor) × (get_elem? q'.descr j ≡ some d') × SameBuffer d d'
  pub ring : get_elem? q'.avail_ring q.avail_idx ≡ some q.first_free
  pub ring_others : (j : ℕ) → q.avail_idx ≢ j → get_elem? q'.avail_ring j ≡ get_elem? q.avail_ring j
  pub ring_next : q'.avail_idx ≡ (q.avail_idx + 1) % q.size
