-- ===== src/Mmu/Entry/Write.antt =====
-- `write_flags`: which flags an entry has after it.
use Prim.Native.Nat.{max}
use rv.Base.{ℕ, ◌+◌, ◌-◌, ◌*◌, ◌/◌, ◌%◌, ◌^◌, ◌<◌, ◌≡◌, sym, ap, ◌∙◌, arith, true, not}
use rv.Base.{bit_and, bit_or, ◌==◌}
use rv.Base.Bits.{
  bit_and_mask, bit_or_step, bit_and-eq-fields, bit_or-eq-fields, bit_or-lt, bit_or-zero,
  zero-bit_or,
}
use rv.Mmu.Entry.{is_valid, is_leaf, write_flags, get_ppn}
use rv.Mmu.Entry.Fields.{is_valid-eq, is_leaf-eq, get_ppn-eq}

-- What `remove(RWXUG)` leaves.
kept-eq : (e : ℕ) → e < 2 ^ 64 → bit_and e (2 ^ 64 - 1 - 0x3e) ≡ e / 2 ^ 6 * 2 ^ 6 + e % 2
kept-eq e h = omega (
  arith,
  bit_and-eq-fields 6 e (2 ^ 64 - 1 - 0x3e) (e / 2 ^ 6) (e % 2 ^ 6) (2 ^ 58 - 1) 1 (omega arith)
      (omega arith) (omega arith) (omega arith),
  bit_and_mask 58 (e / 2 ^ 6),
  bit_and_mask 1 (e % 2 ^ 6),
)

low-eq : (e f : ℕ) → bit_or (e % 2) f ≡ f / 2 * 2 + max (e % 2) (f % 2)
low-eq e f = omega (
  arith,
  bit_or_step (e % 2) f,
  ap (λ (t : ℕ). bit_or t (f / 2)) {x = e % 2 / 2} {y = 0} (omega arith),
  zero-bit_or (f / 2),
)

-- All bits from 6 up are or-ed; bits 1 to 5 are those of `f`.
write_flags-split :
    (e f : ℕ)
    → e < 2 ^ 64
    → write_flags e f
      ≡ bit_or (e / 2 ^ 6) (f / 2 ^ 6) * 2 ^ 6 + f % 2 ^ 6 / 2 * 2 + max (e % 2) (f % 2 ^ 6 % 2)
unfolding write_flags
write_flags-split e f h = omega (
  arith,
  bit_or-eq-fields 6 (bit_and e (2 ^ 64 - 1 - 0x3e)) f (e / 2 ^ 6) (e % 2) (f / 2 ^ 6) (f % 2 ^ 6)
      (kept-eq e h) (omega arith) (omega arith) (omega arith),
  low-eq e (f % 2 ^ 6),
)

pub write_flags-lt : (e f : ℕ) → e < 2 ^ 64 → f < 2 ^ 64 → write_flags e f < 2 ^ 64
write_flags-lt e f he hf = omega (
  arith,
  write_flags-split e f he,
  bit_or-lt 58 (e / 2 ^ 6) (f / 2 ^ 6) (omega arith) (omega arith),
)

-- With flags that say so, the entry is valid, and a leaf.
pub write_flags-is_valid :
    (e f : ℕ) → e < 2 ^ 64 → is_valid f ≡ true → is_valid (write_flags e f) ≡ true
write_flags-is_valid e f h v =
    ground (arith, is_valid-eq f, is_valid-eq (write_flags e f), write_flags-split e f h)

pub write_flags-is_leaf : (e f : ℕ) → e < 2 ^ 64 → is_leaf (write_flags e f) ≡ is_leaf f
write_flags-is_leaf e f h =
    is_leaf-eq (write_flags e f)
    ∙ ap (λ (t : ℕ). not (t == 0)) {x = write_flags e f / 2 % 8} {y = f / 2 % 8}
        (omega (arith, write_flags-split e f h))
    ∙ sym (is_leaf-eq f)

-- Flags below bit 10 leave the page number of the entry as it was.
pub get_ppn-write_flags :
    (e f : ℕ) → e < 2 ^ 64 → f < 2 ^ 10 → get_ppn (write_flags e f) ≡ get_ppn e
get_ppn-write_flags e f he hf = omega (
  arith,
  get_ppn-eq (write_flags e f),
  get_ppn-eq e,
  write_flags-split e f he,
  bit_or-eq-fields 4 (e / 2 ^ 6) (f / 2 ^ 6) (e / 2 ^ 10) (e / 2 ^ 6 % 2 ^ 4) 0 (f / 2 ^ 6)
      (omega arith) (omega arith) (omega arith) (omega arith),
  bit_or-zero (e / 2 ^ 10),
  bit_or-lt 4 (e / 2 ^ 6 % 2 ^ 4) (f / 2 ^ 6) (omega arith) (omega arith),
)

-- A valid entry stays valid, whatever the flags.
pub write_flags_stays_valid :
    (e f : ℕ) → e < 2 ^ 64 → is_valid e ≡ true → is_valid (write_flags e f) ≡ true
write_flags_stays_valid e f h v =
    ground (arith, is_valid-eq e, is_valid-eq (write_flags e f), write_flags-split e f h)

-- The permissions, bits 1 to 5, are those of the flags.
pub write_flags-rwxug : (e f : ℕ) → e < 2 ^ 64 → write_flags e f / 2 % 2 ^ 5 ≡ f / 2 % 2 ^ 5
write_flags-rwxug e f h = omega (arith, write_flags-split e f h)
