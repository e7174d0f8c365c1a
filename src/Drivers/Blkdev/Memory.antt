-- ===== src/Drivers/Blkdev/Memory.antt =====
-- The bytes of a request of the block device in memory.
use native.Mathlib.Nat.{pow-succ', div-div-eq-div-mul}
use rv.Base.{
  ℕ, zero, suc, ◌+◌, ◌-◌, ◌/◌, ◌%◌, ◌^◌, ◌≤◌, ◌<◌, ◌≡◌, ◌⊎◌, inl, inr, refl, sym, ap, ◌∙◌, arith,
}
use rv.Base.{List, [], ◌∷◌, ◌++◌, length, get_elem?, get_elem?-ge, some}
use rv.Elf.Ranges.{le_bytes}
use rv.Drivers.Blkdev.{VirtioBlkReqType, store_bytes, request_bytes, number}
use rv.Drivers.Blkdev.{in_, out, flush, get_id, get_lifetime, discard, write_zeroes, secure_erase}

-- Memory holds `v` in `n` bytes from `a` on, the lowest byte first.
abbrev pub Holds : (ℕ → ℕ) → (a n v : ℕ) → Type 0
Holds mem a n v = (k : ℕ) → k < n → mem (a + k) ≡ v / 256 ^ k % 256

-- The number of a request type in the virtio specification.
abbrev pub code : VirtioBlkReqType → ℕ
code in_ = 0
code out = 1
code flush = 4
code get_id = 8
code get_lifetime = 10
code discard = 11
code write_zeroes = 13
code secure_erase = 14

-- The request at `req`: its type in four bytes, four bytes of zeros, the sector in eight bytes, and the
-- status, which the device is to write. All other memory is as before.
pub record IsWritten (mem : ℕ → ℕ) (req : ℕ) (kind : VirtioBlkReqType) (sector : ℕ) (mem' : ℕ → ℕ)
    : Type 0 where
  pub kind_field : Holds mem' req 4 (code kind)
  pub reserved : Holds mem' (req + 4) 4 0
  pub sector_field : Holds mem' (req + 8) 8 sector
  pub status : mem' (req + 16) ≡ 0
  pub others : (p : ℕ) → (p < req) ⊎ (req + 17 ≤ p) → mem' p ≡ mem p

number-code : (kind : VirtioBlkReqType) → number kind ≡ code kind
number-code in_ = refl
number-code out = refl
number-code flush = refl
number-code get_id = refl
number-code get_lifetime = refl
number-code discard = refl
number-code write_zeroes = refl
number-code secure_erase = refl

get_elem?-le_bytes : (n k x : ℕ) → k < n → get_elem? (le_bytes n x) k ≡ some (x / 256 ^ k % 256)
get_elem?-le_bytes zero k x h = absurd (omega arith)
get_elem?-le_bytes (suc n) zero x h =
    ap (λ (y : ℕ). some y) {x = x % 256} {y = x / 1 % 256} (omega arith)
get_elem?-le_bytes (suc n) (suc k) x h =
    get_elem?-le_bytes n k (x / 256) (omega arith)
    ∙ ap (λ (y : ℕ). some (y % 256)) {x = x / 256 / 256 ^ k} {y = x / 256 ^ suc k}
        (div-div-eq-div-mul x 256 (256 ^ k) ∙ ap (λ (d : ℕ). x / d) (sym (pow-succ' 256 k)))

get_elem?-append_left :
    (xs ys : List ℕ) (k : ℕ) → k < length xs → get_elem? (xs ++ ys) k ≡ get_elem? xs k
get_elem?-append_left [] ys k h = absurd (omega arith)
get_elem?-append_left (x ∷ xs) ys zero h = refl
get_elem?-append_left (x ∷ xs) ys (suc k) h = get_elem?-append_left xs ys k (omega arith)

get_elem?-append_right :
    (xs ys : List ℕ) (k j : ℕ) → k ≡ length xs + j → get_elem? (xs ++ ys) k ≡ get_elem? ys j
get_elem?-append_right [] ys k j h = ap (get_elem? ys) {x = k} {y = j} (omega (arith, h))
get_elem?-append_right (x ∷ xs) ys zero j h = absurd (omega (arith, h))
get_elem?-append_right (x ∷ xs) ys (suc k) j h = get_elem?-append_right xs ys k j (omega (arith, h))

store_bytes-inside :
    (mem : ℕ → ℕ) (a : ℕ) (bs : List ℕ) (k b : ℕ)
    → get_elem? bs k ≡ some b
    → store_bytes mem a bs (a + k) ≡ b
unfolding store_bytes
store_bytes-inside mem a bs k b e =
    let place : a + k - a ≡ k = omega arith in ground (arith, place, e)

store_bytes-outside :
    (mem : ℕ → ℕ) (a : ℕ) (bs : List ℕ) (p : ℕ)
    → (p < a) ⊎ (a + length bs ≤ p)
    → store_bytes mem a bs p ≡ mem p
unfolding store_bytes
store_bytes-outside mem a bs p (inl below) = ground arith
store_bytes-outside mem a bs p (inr above) =
    let e = get_elem?-ge bs (p - a) (omega arith) in ground (arith, e)

module _ (mem : ℕ → ℕ) (req sector : ℕ) (kind : VirtioBlkReqType) where
  abbrev bytes : List ℕ
  bytes = request_bytes kind sector

  -- What follows the first field, and the second.
  abbrev from_sector : List ℕ
  from_sector = le_bytes 8 sector ++ (0 ∷ [])

  abbrev from_reserved : List ℕ
  from_reserved = le_bytes 4 0 ++ from_sector

  length-bytes : length bytes ≡ 17
  unfolding request_bytes
  length-bytes = refl

  at_kind : (k : ℕ) → k < 4 → get_elem? bytes k ≡ some (number kind / 256 ^ k % 256)
  unfolding request_bytes
  at_kind k h =
      get_elem?-append_left (le_bytes 4 (number kind)) from_reserved k h
      ∙ get_elem?-le_bytes 4 k (number kind) h

  at_reserved : (k : ℕ) → k < 4 → get_elem? bytes (4 + k) ≡ some (0 / 256 ^ k % 256)
  unfolding request_bytes
  at_reserved k h =
      get_elem?-append_right (le_bytes 4 (number kind)) from_reserved (4 + k) k refl
      ∙ get_elem?-append_left (le_bytes 4 0) from_sector k h
      ∙ get_elem?-le_bytes 4 k 0 h

  at_sector : (k : ℕ) → k < 8 → get_elem? bytes (8 + k) ≡ some (sector / 256 ^ k % 256)
  unfolding request_bytes
  at_sector k h =
      get_elem?-append_right (le_bytes 4 (number kind)) from_reserved (8 + k) (4 + k) (omega arith)
      ∙ get_elem?-append_right (le_bytes 4 0) from_sector (4 + k) k refl
      ∙ get_elem?-append_left (le_bytes 8 sector) (0 ∷ []) k h
      ∙ get_elem?-le_bytes 8 k sector h

  at_status : get_elem? bytes 16 ≡ some 0
  unfolding request_bytes
  at_status = refl

  stored :
      (i k b : ℕ) → get_elem? bytes (i + k) ≡ some b → store_bytes mem req bytes (req + i + k) ≡ b
  stored i k b e =
      ap (store_bytes mem req bytes) {x = req + i + k} {y = req + (i + k)} (omega arith)
      ∙ store_bytes-inside mem req bytes (i + k) b e

  pub request-IsWritten :
      IsWritten mem req kind sector (store_bytes mem req (request_bytes kind sector))
  request-IsWritten = record {
    kind_field = λ k h.
        store_bytes-inside mem req bytes k _ (at_kind k h)
        ∙ ap (λ (n : ℕ). n / 256 ^ k % 256) (number-code kind);
    reserved = λ k h. stored 4 k _ (at_reserved k h);
    sector_field = λ k h. stored 8 k _ (at_sector k h);
    status = store_bytes-inside mem req bytes 16 0 at_status;
    others = λ p o.
        store_bytes-outside mem req bytes p
          (elim o [ inl below ↦ inl below | inr above ↦ inr (omega (arith, length-bytes)) ]);
  }
