-- ===== src/Drivers/Virtq.antt =====
-- The queue of a virtio device, kernel/src/drivers/virtio/virtq.rs. The rings that the driver shares with the
-- device are lists. The ring of used elements, which the driver sets up and does not read, is left out.
pub mod Walk
pub mod Relink
pub mod Prepare
pub mod Queue
pub mod Submit
pub mod Fresh
pub mod Runs
mod Tests
use rv.Base.{
  ℕ, zero, suc, ◌+◌, ◌-◌, ◌*◌, ◌/◌, ◌%◌, ◌^◌, bit_and, bit_or, Bool, true, false, Option, none,
  some,
}
use rv.Base.{
  List, [], ◌∷◌, length, set, replicate, Run, done, panic, assert, unwrap, index, ◌>>=◌, ◌>>◌, ◌==◌,
  ltb, if◌then◌else◌,
}
use rv.Base.Word
use rv.Base.Word.{complement}

pub data VirtqBuffer : Type 0 where
  readable writeable : (addr len : ℕ) → VirtqBuffer

pub record VirtqDescriptor : Type 0 where
  pub addr : ℕ
  pub len : ℕ
  pub flags : ℕ
  pub next : ℕ

-- `avail_idx` is the index field of the ring of available descriptors.
pub record Virtq : Type 0 where
  pub idx : ℕ
  pub size : ℕ
  pub phys : ℕ
  pub descr : List VirtqDescriptor
  pub avail_idx : ℕ
  pub avail_ring : List ℕ
  pub first_free : ℕ
  pub free_count : ℕ

-- Memory that was set to zero.
abbrev pub zeroed : VirtqDescriptor
zeroed = record { addr = 0; len = 0; flags = 0; next = 0 }

-- `xs[i] = v`
abbrev pub store : {A : Type 0} → List A → ℕ → A → Run (List A)
store xs i v = if ltb i (length xs) then done (set xs i v) else panic

-- `descr[i].next = n as u16`
unfoldable pub set_next : List VirtqDescriptor → ℕ → ℕ → Run (List VirtqDescriptor)
set_next descr i n = do d ← index descr i; done (set descr i (record d { next = n % 2 ^ 16 }))

-- The sizes of the parts: the descriptors, the ring of available ones, its padding, and the total.
abbrev pub vq_desc_sz : ℕ → ℕ
vq_desc_sz size = 16 * size

abbrev pub vq_avail_sz : ℕ → ℕ
vq_avail_sz size = 4 + 2 * (size + 1)

abbrev pub vq_used_sz : ℕ → ℕ
vq_used_sz size = 4 + 2 + 8 * size

unfoldable pub vq_avail_pad : ℕ → ℕ
vq_avail_pad size = bit_and (vq_desc_sz size + vq_avail_sz size + 3) (complement 3)

unfoldable pub vq_total_sz : ℕ → ℕ
vq_total_sz size = vq_desc_sz size + vq_avail_sz size + vq_used_sz size + vq_avail_pad size

unfoldable pub vq_used_off : ℕ → ℕ
vq_used_off size = vq_desc_sz size + vq_avail_sz size + vq_avail_pad size

-- `for i in 1..size`, with `n` rounds left.
unfoldable pub chain : ℕ → ℕ → List VirtqDescriptor → Run (List VirtqDescriptor)
chain zero i descr = done descr
chain (suc n) i descr = set_next descr (i - 1) i >>= chain n (i + 1)

-- `layout` is `Layout::from_size_align`, whether it accepts; `alloc` is `alloc_raw_zeroed`, with the address of
-- the memory.
unfoldable pub new :
    (layout : ℕ → ℕ → Bool) → (alloc : ℕ → ℕ → Option ℕ) → (page_size idx size : ℕ) → Run Virtq
new layout alloc page_size idx size = do
  assert (layout (vq_total_sz size) page_size)
  phys ← unwrap (alloc (vq_total_sz size) page_size)
  descr ← chain (size - 1) 1 (replicate size zeroed)
  last ← Word.sub size 1
  descr' ← set_next descr last 0
  done (record {
    idx = idx;
    size = size;
    phys = phys;
    descr = descr';
    avail_idx = 0;
    avail_ring = replicate size 0;
    first_free = 0;
    free_count = size;
  })

-- `(self.phys.as_usize() / mm::page_size()) as u32`
unfoldable pub pfn : ℕ → Virtq → ℕ
pfn page_size q = q.phys / page_size % 2 ^ 32

-- The link after `n` descriptors from `idx` on.
unfoldable pub walk : List VirtqDescriptor → ℕ → ℕ → Run ℕ
walk descr zero idx = done idx
walk descr (suc n) idx = index descr idx >>= λ d. walk descr n d.next

-- `find(|d| d.next == chain_head).unwrap().next = next_link`
unfoldable pub relink : List VirtqDescriptor → ℕ → ℕ → Run (List VirtqDescriptor)
relink [] chain_head next_link = panic
relink (d ∷ descr) chain_head next_link =
    if d.next == chain_head
    then done (record d { next = next_link % 2 ^ 16 } ∷ descr)
    else (relink descr chain_head next_link >>= λ rest. done (d ∷ rest))

abbrev pub buffer_addr : VirtqBuffer → ℕ
buffer_addr (readable addr len) = addr
buffer_addr (writeable addr len) = addr

abbrev pub buffer_len : VirtqBuffer → ℕ
buffer_len (readable addr len) = len
buffer_len (writeable addr len) = len

abbrev pub is_write : VirtqBuffer → Bool
is_write (readable addr len) = false
is_write (writeable addr len) = true

-- `rem` buffers are left, this one included.
unfoldable pub descriptor_flags : VirtqBuffer → ℕ → ℕ
descriptor_flags b rem =
    let f : ℕ = if rem == 1 then 0 else 1 in if is_write b then bit_or f 2 else f

abbrev pub prepared : VirtqBuffer → ℕ → VirtqDescriptor → VirtqDescriptor
prepared b rem d = record d {
  addr = buffer_addr b;
  len = buffer_len b % 2 ^ 32;
  flags = descriptor_flags b rem;
}

-- The loop over the buffers.
unfoldable pub prepare :
    List VirtqDescriptor → ℕ → ℕ → List VirtqBuffer → Run (List VirtqDescriptor × ℕ × ℕ)
prepare descr idx rem [] = done (descr, idx, rem)
prepare descr idx rem (b ∷ buffers) = do
  d ← index descr idx
  rem' ← Word.sub rem 1
  prepare (set descr idx (prepared b rem d)) d.next rem' buffers

-- `(self.avail.idx + 1) % self.size`
unfoldable pub bump_avail : Virtq → Run ℕ
bump_avail q =
    if ltb (q.avail_idx + 1) (2 ^ 16)
    then (if q.size == 0 then panic else done ((q.avail_idx + 1) % q.size))
    else panic

-- The queue after the call, and the index that the device is notified of.
unfoldable pub submit : Virtq → List VirtqBuffer → Run (Virtq × ℕ)
submit q buffers = do
  let total_req = length buffers
  let chain_head = q.first_free
  next_link ← walk q.descr total_req chain_head
  descr ← relink q.descr chain_head next_link
  free_count ← Word.sub q.free_count total_req
  r ← prepare descr chain_head total_req buffers
  assert (r.2 == 0)
  assert (r.1 == next_link)
  avail_ring ← store q.avail_ring q.avail_idx (chain_head % 2 ^ 16)
  avail_idx ← bump_avail q
  done (
    record q {
      descr = r.0;
      first_free = next_link;
      free_count = free_count;
      avail_ring = avail_ring;
      avail_idx = avail_idx;
    },
    q.idx,
  )
