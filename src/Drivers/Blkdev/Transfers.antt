-- ===== src/Drivers/Blkdev/Transfers.antt =====
-- What a transfer of the block device submits, and how many of them there can be.
use rv.Base.{
  ℕ, ◌+◌, ◌^◌, ◌≤◌, ◌<◌, ◌≡◌, ◌⊎◌, inl, inr, refl, arith, bit_and, false, Option, none, some, List,
  [], ◌∷◌, length, Run, done, ◌>>=◌, ◌==◌, Bool-cases,
}
use rv.Addr.Phys
use rv.Base.Word
use rv.Drivers.Blkdev.{
  VirtioBlkReqType, data_buf, buffers, Blkdev, store_bytes, request_bytes, wait, send, transfer,
}
use rv.Drivers.Blkdev.Memory.{IsWritten, request-IsWritten}
use rv.Drivers.Blkdev.Chain.{IsQueued, submitted-IsQueued}
use rv.Drivers.Virtq.{Virtq, VirtqBuffer}
use rv.Drivers.Virtq.Queue.{IsQueue}
use rv.Drivers.Virtq.Submit.{submit-IsSubmitted}

-- The device sets the flag at one of the reads.
abbrev pub Answers : List ℕ → Type 0
Answers [] = ⊥
Answers (status ∷ polls) = (bit_and status 1 ≡ 1) ⊎ Answers polls

wait-Answers : (polls : List ℕ) → Answers polls → (later : List ℕ) × (wait polls ≡ some later)
unfolding wait
wait-Answers [] a = elim a [ ]
wait-Answers (status ∷ polls) a = elim (Bool-cases (bit_and status 1 == 1)) [
  | inl now ↦ (polls, rw (wait, now))
  | inr not_yet ↦
      let (later, waited) =
        wait-Answers polls (elim a [ inl e ↦ absurd (apart e not_yet) | inr b ↦ b ]) in
      (later, rw (wait, not_yet) waited)
]
  where
    apart : bit_and status 1 ≡ 1 → (bit_and status 1 == 1) ≡ false → ⊥
    apart e f = ground arith

length-buffers :
    (b : Option VirtqBuffer) (req status : ℕ)
    → (0 < length (buffers req b status)) × (length (buffers req b status) ≤ 3)
length-buffers none req status = (omega arith, omega arith)
length-buffers (some b) req status = (omega arith, omega arith)

-- The device after `send`, with the queue that `submit` leaves, and after the interrupt is cleared.
abbrev pub sent : (req : ℕ) → VirtioBlkReqType → (sector : ℕ) → Blkdev → Virtq → Blkdev
sent req kind sector dev q = record dev {
  virtq = q;
  mem = store_bytes dev.mem req (request_bytes kind sector);
  notified = dev.virtq.idx ∷ dev.notified;
}

abbrev pub acknowledged : Blkdev → Blkdev
acknowledged dev = record dev { cleared = 1 ∷ dev.cleared }

-- The device after a whole transfer: the request is written to memory and put in the queue, the device is
-- notified of the queue, and the interrupt is cleared.
pub record IsTransferred (dev : Blkdev) (req : ℕ) (kind : VirtioBlkReqType) (sector addr len : ℕ)
    (dev' : Blkdev) : Type 0 where
  pub memory : IsWritten dev.mem req kind sector dev'.mem
  pub queued : IsQueued dev.virtq kind req addr len dev'.virtq
  pub notified : dev'.notified ≡ dev.virtq.idx ∷ dev.notified
  pub cleared : dev'.cleared ≡ 1 ∷ dev.cleared

-- On a well-formed queue with three free descriptors, where memory for the request is given below 2 ^ 56 - 16 and the
-- device sets its flag at some read of the status: the transfer returns. Memory holds the type of the request, in
-- four bytes, four zeros, the sector, in eight bytes, and a zero status byte, and is as before elsewhere. The header
-- of 16 bytes, the data, which the device writes for `In` and `GetId`, reads for the other types and does not get for
-- `Flush`, and the status byte, which it writes, are in one chain of descriptors from the first free one on, whose
-- number stands in the ring; the queue is well-formed and other descriptors keep their buffers. The device has been
-- notified and its interrupt cleared.
pub transfer-IsTransferred :
    (dev : Blkdev) (req : ℕ) (polls : List ℕ) (kind : VirtioBlkReqType) (sector addr len : ℕ)
    → IsQueue dev.virtq
    → 3 ≤ dev.virtq.free_count
    → req + 16 < 2 ^ 56
    → Answers polls
    → (dev' : Blkdev) × (later : List ℕ) × (transfer (some req) polls kind sector addr len dev
        ≡ done (some (dev', later)))
      × IsTransferred dev req kind sector addr len dev'
unfolding transfer send
transfer-IsTransferred dev req polls kind sector addr len inv room low answers =
    let n = length-buffers (data_buf kind addr len) req (req + 16) in
    let (q, ran, is) =
      submit-IsSubmitted dev.virtq inv (buffers req (data_buf kind addr len) (req + 16)) n.0
        (omega arith) in
    let (later, waited) = wait-Answers polls answers in
    (
      acknowledged (sent req kind sector dev q),
      later,
      rw (transfer, send, added, ran, waited),
      record {
        memory = request-IsWritten dev.mem req sector kind;
        queued = submitted-IsQueued dev.virtq q req addr len kind is;
        notified = refl;
        cleared = refl;
      },
    )
  where
    added : Phys.add req 16 ≡ done (req + 16)
    added = ground arith

-- A request as the driver makes it, and the descriptors that it needs.
pub record Request : Type 0 where
  pub alloc : Option ℕ
  pub kind : VirtioBlkReqType
  pub sector : ℕ
  pub addr : ℕ
  pub len : ℕ

abbrev pub needed : Request → ℕ
needed r = length (buffers 0 (data_buf r.kind r.addr r.len) 0)

abbrev pub total_needed : List Request → ℕ
total_needed [] = 0
total_needed (r ∷ requests) = needed r + total_needed requests

-- The device after all requests.
unfoldable pub send_all : List Request → Blkdev → Run Blkdev
send_all [] dev = done dev
send_all (r ∷ requests) dev = send r.alloc r.kind r.sector r.addr r.len dev >>= send_all requests

-- The queue after a request that does not panic.
record IsSent (r : Request) (dev dev' : Blkdev) : Type 0 where
  queue : IsQueue dev'.virtq
  count : dev'.virtq.free_count + needed r ≡ dev.virtq.free_count
