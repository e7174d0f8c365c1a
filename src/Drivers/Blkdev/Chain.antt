-- ===== src/Drivers/Blkdev/Chain.antt =====
-- The chain of descriptors that a request of the block device takes in the queue.
use rv.Base.{
  ℕ, suc, ◌+◌, ◌%◌, ◌^◌, ◌≡◌, ◌≢◌, ◌⊎◌, ◌≤◌, ◌<◌, refl, ap, ◌∙◌, arith, List, length, get_elem?,
  Option, none, some, if◌then◌else◌,
}
use rv.Drivers.Blkdev.{
  VirtioBlkReqType, in_, out, flush, get_id, get_lifetime, discard, write_zeroes, secure_erase,
  data_buf, buffers,
}
use rv.Drivers.Virtq.{Virtq, VirtqBuffer, VirtqDescriptor, buffer_addr, buffer_len, is_write}
use rv.Drivers.Virtq.Queue.{IsQueue, IsSubmitted}
use rv.Drivers.Virtq.Relink.{SameBuffer}

-- Descriptor `i` describes `len` bytes at `addr`. Flag 1 says that another descriptor follows, and flag 2 that
-- the device writes the bytes.
abbrev pub HasLast : Virtq → (i addr len flags : ℕ) → Type 0
HasLast q i addr len flags =
    (d : VirtqDescriptor) × (get_elem? q.descr i ≡ some d)
    × (d.addr ≡ addr)
    × (d.len ≡ len)
    × (d.flags ≡ flags)

-- The same, and the descriptor names the next one.
abbrev pub HasLinked : Virtq → (i addr len flags : ℕ) → Type 0
HasLinked q i addr len flags =
    (d : VirtqDescriptor) × (get_elem? q.descr i ≡ some d)
    × (d.addr ≡ addr)
    × (d.len ≡ len)
    × (d.flags ≡ flags)
    × (d.next ≡ i + 1)

-- The flags for the data of a request, which the device writes where something is read. A flush has no data.
abbrev pub data_flags : VirtioBlkReqType → Option ℕ
data_flags in_ = some 3
data_flags out = some 1
data_flags flush = none
data_flags get_id = some 3
data_flags get_lifetime = some 1
data_flags discard = some 1
data_flags write_zeroes = some 1
data_flags secure_erase = some 1

abbrev pub chain_length : Option ℕ → ℕ
chain_length none = 2
chain_length (some f) = 3

-- From descriptor `i` on: the data, if there is any, and the status byte, which the device writes.
abbrev pub HasRest : Virtq → Option ℕ → (i req addr len : ℕ) → Type 0
HasRest q none i req addr len = HasLast q i (req + 16) 1 2
HasRest q (some f) i req addr len =
    HasLinked q i addr (len % 2 ^ 32) f × HasLast q (i + 1) (req + 16) 1 2

-- The request at `req` with data at `addr` has been put in the queue: its header, its data and its status in one
-- chain from the first free descriptor on, whose number stands in the next place of the ring. All else in the queue
-- is as it was, but for the links of the free descriptors.
pub record IsQueued (q : Virtq) (kind : VirtioBlkReqType) (req addr len : ℕ) (q' : Virtq)
    : Type 0 where
  pub queue : IsQueue q'
  pub same_size : q'.size ≡ q.size
  pub count : q'.free_count + chain_length (data_flags kind) ≡ q.free_count
  pub header : HasLinked q' q.first_free req 16 1
  pub rest : HasRest q' (data_flags kind) (q.first_free + 1) req addr len
  pub others :
      (j : ℕ) (d : VirtqDescriptor)
      → (j < q.first_free) ⊎ (q.first_free + chain_length (data_flags kind) ≤ j)
      → get_elem? q.descr j ≡ some d
      → (d' : VirtqDescriptor) × (get_elem? q'.descr j ≡ some d') × SameBuffer d d'
  pub ring : get_elem? q'.avail_ring q.avail_idx ≡ some q.first_free
  pub ring_others : (j : ℕ) → q.avail_idx ≢ j → get_elem? q'.avail_ring j ≡ get_elem? q.avail_ring j
  pub ring_next : q'.avail_idx ≡ (q.avail_idx + 1) % q.size

module _ (q q' : Virtq) (request : List VirtqBuffer) (s : IsSubmitted q request q') where
  linked-at :
      (i k : ℕ) (b : VirtqBuffer)
      → get_elem? request i ≡ some b
      → suc i ≢ length request
      → k ≡ q.first_free + i
      → HasLinked q' k (buffer_addr b) (buffer_len b % 2 ^ 32) (1 + (if is_write b then 2 else 0))
  linked-at i k b e more place =
      let (d, at, for_b, next) = s.buffer i b e in
      (
        d,
        ap (get_elem? q'.descr) place ∙ at,
        for_b.0,
        for_b.1,
        ground (arith, for_b.2, more),
        omega (arith, next more, place),
      )

  last-at :
      (i k : ℕ) (b : VirtqBuffer)
      → get_elem? request i ≡ some b
      → suc i ≡ length request
      → k ≡ q.first_free + i
      → HasLast q' k (buffer_addr b) (buffer_len b % 2 ^ 32) (if is_write b then 2 else 0)
  last-at i k b e end place =
      let (d, at, for_b, next) = s.buffer i b e in
      (d, ap (get_elem? q'.descr) place ∙ at, for_b.0, for_b.1, ground (arith, for_b.2, end))

-- What the driver makes of the data, against its description.
Matches : (addr len : ℕ) → Option VirtqBuffer → Option ℕ → Type 0
Matches addr len none none = Unit
Matches addr len none (some f) = ⊥
Matches addr len (some b) none = ⊥
Matches addr len (some b) (some f) =
    (buffer_addr b ≡ addr) × (buffer_len b ≡ len) × (1 + (if is_write b then 2 else 0) ≡ f)

data_buf-Matches :
    (kind : VirtioBlkReqType) (addr len : ℕ)
    → Matches addr len (data_buf kind addr len) (data_flags kind)
unfolding Matches
data_buf-Matches in_ addr len = (refl, refl, refl)
data_buf-Matches out addr len = (refl, refl, refl)
data_buf-Matches flush addr len = tt
data_buf-Matches get_id addr len = (refl, refl, refl)
data_buf-Matches get_lifetime addr len = (refl, refl, refl)
data_buf-Matches discard addr len = (refl, refl, refl)
data_buf-Matches write_zeroes addr len = (refl, refl, refl)
data_buf-Matches secure_erase addr len = (refl, refl, refl)

module _ (q q' : Virtq) (req addr len : ℕ) where
  length-chain :
      (part : Option VirtqBuffer) (flags : Option ℕ)
      → Matches addr len part flags
      → length (buffers req part (req + 16)) ≡ chain_length flags
  unfolding Matches
  length-chain none none m = refl
  length-chain none (some f) m = elim m [ ]
  length-chain (some b) none m = elim m [ ]
  length-chain (some b) (some f) m = refl

  chain-of :
      (part : Option VirtqBuffer) (flags : Option ℕ)
      → Matches addr len part flags
      → IsSubmitted q (buffers req part (req + 16)) q'
      → HasLinked q' q.first_free req 16 1 × HasRest q' flags (q.first_free + 1) req addr len
  unfolding Matches
  chain-of none none m s = (
    linked-at q q' _ s 0 q.first_free _ refl (λ e. absurd (omega (arith, e))) (omega arith),
    last-at q q' _ s 1 (q.first_free + 1) _ refl refl refl,
  )
  chain-of none (some f) m s = elim m [ ]
  chain-of (some b) none m s = elim m [ ]
  chain-of (some b) (some f) m s =
      let (d, at, to, size, flag, next) =
        linked-at q q' _ s 1 (q.first_free + 1) b refl (λ e. absurd (omega (arith, e))) refl in
      (
        linked-at q q' _ s 0 q.first_free _ refl (λ e. absurd (omega (arith, e))) (omega arith),
        (
          (d, at, to ∙ m.0, size ∙ ap (λ (n : ℕ). n % 2 ^ 32) m.1, flag ∙ m.2, next),
          last-at q q' _ s 2 (q.first_free + 1 + 1) _ refl refl (omega arith),
        ),
      )

  pub submitted-IsQueued :
      (kind : VirtioBlkReqType)
      → IsSubmitted q (buffers req (data_buf kind addr len) (req + 16)) q'
      → IsQueued q kind req addr len q'
  submitted-IsQueued kind s =
      let m = data_buf-Matches kind addr len in
      let n = length-chain (data_buf kind addr len) (data_flags kind) m in
      let (header, rest) = chain-of (data_buf kind addr len) (data_flags kind) m s in
      record {
        queue = s.queue;
        same_size = s.same_size;
        count = omega (arith, s.count, n);
        header = header;
        rest = rest;
        others = λ j d o at. s.others j d (omega (arith, o, n)) at;
        ring = s.ring;
        ring_others = s.ring_others;
        ring_next = s.ring_next;
      }
