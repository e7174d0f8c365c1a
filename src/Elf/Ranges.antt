-- ===== src/Elf/Ranges.antt =====
-- When the checked reads succeed, and what they give.
use native.Mathlib.Nat.{pow-suc}
use rv.Base.{ℕ, zero, suc, ◌+◌, ◌/◌, ◌%◌, ◌^◌, ◌≤◌, ◌<◌, ◌≡◌, refl, ap, ◌∙◌, arith}
use rv.Base.{List, [], ◌∷◌, length, slice, take, done, panic, ok}
use rv.Elf.{le_value, read_le, get_range, field_at}

pub get_range-inside :
    (bytes : List ℕ) (off len : ℕ)
    → off + len ≤ length bytes
    → length bytes < 2 ^ 64
    → get_range bytes off len ≡ done (ok (slice bytes off (off + len)))
unfolding get_range
get_range-inside bytes off len inside word = ground arith

pub get_range-overflow :
    (bytes : List ℕ) (off len : ℕ) → 2 ^ 64 ≤ off + len → get_range bytes off len ≡ panic
unfolding get_range
get_range-overflow bytes off len big = ground arith

-- A range that is returned lies in the slice.
pub get_range-inv :
    (bytes : List ℕ) (off len : ℕ) {s : List ℕ}
    → get_range bytes off len ≡ done (ok s)
    → (off + len ≤ length bytes) × (s ≡ slice bytes off (off + len))
unfolding get_range
get_range-inv bytes off len e = ground arith

pub read_le-enough :
    (n : ℕ) (b : List ℕ) → n ≤ length b → read_le n b ≡ done (ok (le_value (take n b)))
unfolding read_le
read_le-enough n b h = ground arith

-- The little-endian form of a number in `n` bytes.
abbrev pub le_bytes : ℕ → ℕ → List ℕ
le_bytes zero x = []
le_bytes (suc n) x = (x % 256) ∷ le_bytes n (x / 256)

pub length-le_bytes : (n x : ℕ) → length (le_bytes n x) ≡ n
length-le_bytes zero x = refl
length-le_bytes (suc n) x = ap suc (length-le_bytes n (x / 256))

pub le_value-le_bytes : (n x : ℕ) → x < 256 ^ n → le_value (take n (le_bytes n x)) ≡ x
le_value-le_bytes zero x h = omega arith
le_value-le_bytes (suc n) x h =
    omega (arith, pow-suc 256 n, le_value-le_bytes n (x / 256) (omega (arith, pow-suc 256 n)))

pub read_le-le_bytes : (n x : ℕ) → x < 256 ^ n → read_le n (le_bytes n x) ≡ done (ok x)
read_le-le_bytes n x h =
    read_le-enough n (le_bytes n x) (omega (arith, length-le_bytes n x))
    ∙ ap (λ y. done (ok y)) (le_value-le_bytes n x h)

pub field_at-le_bytes :
    (bytes : List ℕ) (off n x : ℕ)
    → off + n ≤ length bytes
    → length bytes < 2 ^ 64
    → slice bytes off (off + n) ≡ le_bytes n x
    → x < 256 ^ n
    → field_at bytes off n ≡ done (ok x)
unfolding field_at
field_at-le_bytes bytes off n x inside word here h =
    rw (get_range-inside bytes off n inside word, here) (read_le-le_bytes n x h)
