-- ===== src/Allocator/Bitmap/Init.antt =====
-- `init`: which arguments it accepts, and the allocator that it makes.
use native.Mathlib.Nat.{div-mul-le_self, pow-le-pow_right}
use native.Mathlib.Nat.{mul-div_left, le-div_iff_mul-le, div-le_self}
use rv.Base.{ℕ, ◌+◌, ◌-◌, ◌*◌, ◌/◌, ◌%◌, ◌^◌, ◌≤◌, ◌<◌, ◌≡◌, ◌≢◌, ◌⊎◌, inl, ap, arith, true, false}
use rv.Base.{[], done, ok, err, replicate, length-replicate, get_elem?-replicate}
use rv.Base.{Bool-cases, if◌then◌else◌, inr}
use rv.Base.Word.{is_power_of_two, is_power_of_two_sound}
use rv.Addr.Align.Round.{ceil, align_up-eq, is_aligned-eq, one-le-align}
use rv.Addr.Align.Bounds.{IsCeil, ceil-IsCeil, quotient}
use rv.Allocator.{unaligned_address, invalid_page_size}
use rv.Allocator.Bitmap.{Bitmap, empty, init, init_pages}
use rv.Allocator.Bitmap.Scan.{RangeFree}
use rv.Allocator.Bitmap.Alloc.{IsValid}
use rv.Allocator.Bitmap.Live.Invariant.{IsTracked}

-- An allocator over the memory from `start` to `end`: its pages are free, aligned, and reach up to
-- `end`; the descriptors of one byte each lie below them.
pub record IsFresh (n start end : ℕ) (b : Bitmap) : Type 0 where
  pub valid : IsValid n b
  pub all_free : RangeFree b.descriptors 0 b.num_pages
  pub aligned : b.base_addr % n ≡ 0
  pub table_below : start + b.num_pages ≤ b.base_addr
  pub reaches_end : b.base_addr + b.num_pages * n ≡ end

sub-mul : (a b n : ℕ) → b ≤ a → (a - b) * n + b * n ≡ a * n
sub-mul a b n h = let e : a ≡ a - b + b = omega arith in omega (arith, ap (λ (t : ℕ). t * n) e)

div_mono : (n a b : ℕ) → 1 ≤ n → a ≤ b → a / n ≤ b / n
div_mono n a b one h =
    (le-div_iff_mul-le {k = n} {x = a / n} {y = b} one).1 (omega (arith, div-mul-le_self a n))

module _ (n start end : ℕ) (pow : is_power_of_two n ≡ true) (le : start ≤ end) (lt : end < 2 ^ 56)
    (start_aligned : start % n ≡ 0) (end_aligned : end % n ≡ 0) where
  pages_total : ℕ
  pages_total = (end - start) / n

  base : ℕ
  base = ceil (start + pages_total) n

  made : Bitmap
  made = record {
    descriptors = replicate ((end - base) / n) empty;
    base_addr = base;
    num_pages = (end - base) / n;
  }

  one : 1 ≤ n
  one = one-le-align n start pow

  page_size-le : n ≤ 2 ^ 63
  page_size-le =
      let (k, hk, e) = is_power_of_two_sound n pow in
      rw e (pow-le-pow_right {n = 2} (omega arith) {i = k} {j = 63} (omega arith))

  base-IsCeil : IsCeil n (start + pages_total) base
  unfolding base
  base-IsCeil = ceil-IsCeil n (start + pages_total) one

  total-le : pages_total ≤ end - start
  unfolding pages_total
  total-le = div-le_self (end - start) n

  base-le : base ≤ end
  base-le = base-IsCeil.least end end_aligned (omega (arith, total-le))

  pages-mul : (end - base) / n * n ≡ end - base
  pages-mul =
      let e : end - base ≡ (end / n - base / n) * n = omega (
        arith,
        quotient n end end_aligned,
        quotient n base base-IsCeil.multiple,
        sub-mul (end / n) (base / n) n (div_mono n base end one base-le),
      ) in
      rw e (ap (λ (t : ℕ). t * n) (mul-div_left (end / n - base / n) one))

  pages-le : (end - base) / n ≤ pages_total
  unfolding pages_total
  pages-le = div_mono n (end - base) (end - start) one (omega (arith, base-IsCeil.above))

  init_pages-eq : init_pages n start end ≡ done made
  unfolding init_pages made base pages_total
  init_pages-eq = ground (
    arith,
    total-le,
    align_up-eq n (start + (end - start) / n) pow (omega (arith, total-le, page_size-le)),
    base-le,
  )

  made-IsFresh : IsFresh n start end made
  unfolding made
  made-IsFresh = record {
    valid = record {
      page_size = one;
      table = length-replicate ((end - base) / n) empty;
      in_memory = omega (arith, pages-mul, base-le);
    };
    all_free = λ j p q. get_elem?-replicate ((end - base) / n) j empty (omega arith);
    aligned = base-IsCeil.multiple;
    table_below = omega (arith, pages-le, base-IsCeil.above);
    reaches_end = omega (arith, pages-mul, base-le);
  }

  init-eq : init n start end ≡ done (ok made)
  unfolding init
  init-eq =
      ground (arith, one, pow, is_aligned-eq n start pow, is_aligned-eq n end pow, init_pages-eq)

-- For a page size that is a power of two, and aligned addresses `start` up to `end` below 2 ^ 56,
-- `init` returns an allocator with all its pages free and aligned, which reach up to `end`, and with
-- its descriptors below its pages.
pub init-IsFresh :
    (n start end : ℕ)
    → is_power_of_two n ≡ true
    → start ≤ end
    → end < 2 ^ 56
    → start % n ≡ 0
    → end % n ≡ 0
    → (b : Bitmap) × (init n start end ≡ done (ok b)) × IsFresh n start end b
init-IsFresh n start end pow le lt s e = (
  made n start end pow le lt s e,
  init-eq n start end pow le lt s e,
  made-IsFresh n start end pow le lt s e,
)

-- For addresses below 2 ^ 56 `init` returns an error if the page size is no power of two or an address
-- is not aligned: `InvalidPageSize` in the first case, also with an address that is not aligned, and
-- otherwise `UnalignedAddress`.
pub init_errors :
    (n start end : ℕ)
    → start < 2 ^ 56
    → end < 2 ^ 56
    → (is_power_of_two n ≡ false) ⊎ (start % n ≢ 0) ⊎ (end % n ≢ 0)
    → init n start end
      ≡ done (err (if is_power_of_two n then unaligned_address else invalid_page_size))
init_errors n start end hs he h = elim (Bool-cases (is_power_of_two n)) [
  | inl pow ↦
      unfold init in
      ground
        (arith, pow, one-le-align n start pow, is_aligned-eq n start pow, is_aligned-eq n end pow)
  | inr bad ↦ unfold init in ground (arith, bad)
]

-- A fresh allocator has no allocation to track.
pub IsFresh-IsTracked :
    (n start end : ℕ) (b : Bitmap)
    → IsFresh n start end b
    → IsTracked n (record { bitmap = b; live = [] })
IsFresh-IsTracked n start end b f = record {
  valid = f.valid;
  owned = tt;
  others_free = λ j h. inl (f.all_free j (omega arith) (omega (arith, f.valid.table)));
}
