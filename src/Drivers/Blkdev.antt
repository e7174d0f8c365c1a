-- ===== src/Drivers/Blkdev.antt =====
-- The virtio block device, kernel/src/drivers/virtio/blkdev.rs: its requests and its configuration.
pub mod Config
pub mod Chain
pub mod Memory
pub mod Transfers
mod Tests
use rv.Base.{
  ℕ, zero, suc, ◌+◌, ◌-◌, ◌*◌, ◌/◌, ◌%◌, ◌^◌, bit_and, Bool, true, false, not, ◌&&◌, Option, none,
  some, List, [], ◌∷◌, ◌++◌, length, get_elem?, Run, done, panic, unwrap, ◌>>=◌, ◌==◌, ltb,
  if◌then◌else◌,
}
use rv.Addr.Phys
use rv.Drivers.Virtq.{Virtq, VirtqBuffer, readable, writeable, submit}
use rv.Elf.Ranges.{le_bytes}

-- `VirtioBlkReqType`
pub data VirtioBlkReqType : Type 0 where
  in_ out flush get_id get_lifetime discard write_zeroes secure_erase : VirtioBlkReqType

abbrev pub number : VirtioBlkReqType → ℕ
number in_ = 0
number out = 1
number flush = 4
number get_id = 8
number get_lifetime = 10
number discard = 11
number write_zeroes = 13
number secure_erase = 14

-- `VirtioBlkReq`, packed, with the fields in order.
abbrev pub header_size : ℕ
header_size = 16

abbrev pub trailer_size : ℕ
trailer_size = 1

unfoldable pub request_bytes : VirtioBlkReqType → (sector : ℕ) → List ℕ
request_bytes kind sector =
    le_bytes 4 (number kind) ++ (le_bytes 4 0 ++ (le_bytes 8 sector ++ (0 ∷ [])))

-- The buffer for the data of a request.
abbrev pub data_buf : VirtioBlkReqType → (addr len : ℕ) → Option VirtqBuffer
data_buf in_ addr len = some (writeable addr len)
data_buf get_id addr len = some (writeable addr len)
data_buf flush addr len = none
data_buf out addr len = some (readable addr len)
data_buf get_lifetime addr len = some (readable addr len)
data_buf discard addr len = some (readable addr len)
data_buf write_zeroes addr len = some (readable addr len)
data_buf secure_erase addr len = some (readable addr len)

-- `filter_map(Option::as_ref)`
abbrev pub buffers : ℕ → Option VirtqBuffer → ℕ → List VirtqBuffer
buffers req none status = readable req header_size ∷ writeable status trailer_size ∷ []
buffers req (some b) status = readable req header_size ∷ b ∷ writeable status trailer_size ∷ []

-- The queue of the driver, the memory that the device reaches, and what the driver has told the device: the queues
-- that it was notified of and the interrupts that it was told to clear, the latest first.
pub record Blkdev : Type 0 where
  pub virtq : Virtq
  pub mem : ℕ → ℕ
  pub notified : List ℕ
  pub cleared : List ℕ

abbrev pub byte_or : Option ℕ → ℕ → ℕ
byte_or none b = b
byte_or (some c) b = c

-- Memory with `bs` from `a` on.
unfoldable pub store_bytes : (ℕ → ℕ) → ℕ → List ℕ → ℕ → ℕ
store_bytes mem a bs p = if ltb p a then mem p else byte_or (get_elem? bs (p - a)) (mem p)

-- The loop on the interrupt status, whose values at its reads are `polls`: those after the first that has the flag
-- `USED_BUFFER`, and nothing where none has it, so that the loop goes on.
unfoldable pub wait : List ℕ → Option (List ℕ)
wait [] = none
wait (status ∷ polls) = if bit_and status 1 == 1 then some polls else wait polls

-- `alloc` is the address of the memory that `allocate_guest_mem` gives for the request.
unfoldable pub send : Option ℕ → VirtioBlkReqType → (sector addr len : ℕ) → Blkdev → Run Blkdev
send alloc kind sector addr len dev = do
  req ← unwrap alloc
  status ← Phys.add req header_size
  r ← submit dev.virtq (buffers req (data_buf kind addr len) status)
  done (record dev {
    virtq = r.0;
    mem = store_bytes dev.mem req (request_bytes kind sector);
    notified = r.1 ∷ dev.notified;
  })

-- The device afterwards and the later values of the interrupt status, or nothing while it waits.
unfoldable pub transfer :
    Option ℕ
    → List ℕ
    → VirtioBlkReqType
    → (sector addr len : ℕ) → Blkdev
    → Run (Option (Blkdev × List ℕ))
unfolding send wait
transfer alloc polls kind sector addr len dev = do
  dev' ← send alloc kind sector addr len dev
  done (elim (wait polls) [
    | none ↦ none
    | some later ↦ some (record dev' { cleared = 1 ∷ dev'.cleared }, later)
  ])
