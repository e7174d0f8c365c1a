-- ===== src/Cpio/Steps.antt =====
-- The steps of the reader of an entry: what each needs so as not to panic, and where it leaves the offset.
use rv.Base.{ℕ, ◌+◌, ◌-◌, ◌*◌, ◌/◌, ◌^◌, ◌≤◌, ◌<◌, ◌≡◌, ◌⊎◌, inl, inr, refl, sym, subst, arith}
use rv.Base.{
  Bool, true, false, Bool-cases, Option, none, some, List, length, length-slice, slice,
  get_elem?-lt, Run, done, panic, Result, ok, err, ◌==◌, not,
}
use native.Mathlib.Decide.{dec_lt}
use rv.Base.Bits.{bit_and_not_low}
use rv.Base.Word
use rv.Base.Stateful
use rv.Base.Stateful.{◌>>=◌, lift, ensure, pure}
use rv.Cpio.{
  CpioError, P, slice_of, lacks_nul, align_up_4, read_exact, align_off, parse_hex_u32, ok_or,
  bad_hex, unexpected_eof, bad_alignment,
}

-- The code does not panic, and where it returns a value, the value and `off` have the property.
unfoldable pub Ends : {A : Type 0} → (A → ℕ → Type 0) → Run (Result CpioError A × ℕ) → Type 0
Ends Q (done (ok a, off)) = Q a off
Ends Q (done (err e, off)) = Unit
Ends Q panic = ⊥

next-Ends :
    {A B : Type 0} (Q : A → ℕ → Type 0) (Q' : B → ℕ → Type 0) (r : Run (Result CpioError A × ℕ))
    (f : A → P B)
    → Ends Q r
    → ((a : A) (off : ℕ) → Q a off → Ends Q' (f a off))
    → Ends Q' (Stateful.next r f)
unfolding Ends
next-Ends Q Q' (done (ok a, off)) f h k = k a off h
next-Ends Q Q' (done (err e, off)) f h k = tt
next-Ends Q Q' panic f h k = elim h [ ]

pub bind-Ends :
    {A B : Type 0} (Q : A → ℕ → Type 0) (Q' : B → ℕ → Type 0) (m : P A) (f : A → P B) (off : ℕ)
    → Ends Q (m off)
    → ((a : A) (off' : ℕ) → Q a off' → Ends Q' (f a off'))
    → Ends Q' ((m >>= f) off)
unfolding ◌>>=◌
bind-Ends Q Q' m f off h k = next-Ends Q Q' (m off) f h k

pub pure-Ends : {A : Type 0} (Q : A → ℕ → Type 0) (a : A) (off : ℕ) → Q a off → Ends Q (pure a off)
unfolding Ends
pure-Ends Q a off q = q

slice_of-inside :
    (xs : List ℕ) (start end : ℕ)
    → start ≤ end
    → end ≤ length xs
    → slice_of xs start end ≡ done (slice xs start end)
unfolding slice_of
slice_of-inside xs start end h h' = ground arith

lacks_nul-cases :
    (bytes : List ℕ) → (b : Bool) × (lacks_nul bytes ≡ done b) × (b ≡ false → 0 < length bytes)
unfolding lacks_nul
lacks_nul-cases bytes = elim (dec_lt 0 (length bytes)) [
  | no empty ↦ (true, ground arith, λ e. absurd (ground (arith, e)))
  | yes some_there ↦
      let (x, at) = get_elem?-lt bytes (length bytes - 1) (omega arith) in
      (not (x == 0), ground (arith, at), λ e. some_there)
]

read_exact-cases :
    (buf : List ℕ) (n off : ℕ)
    → ((e : CpioError) × (read_exact buf n off ≡ done (err e, off)))
      ⊎ ((off + n ≤ length buf)
          × (read_exact buf n off ≡ done (ok (slice buf off (off + n)), off + n)))
unfolding read_exact lift
read_exact-cases buf n off = elim (dec_lt (off + n) (2 ^ 64)) [
  | yes fits ↦ elim (dec_lt (length buf) (off + n)) [
    | yes long ↦ inl (unexpected_eof, ground arith)
    | no inside ↦
        inr (
          omega arith,
          ground (arith, slice_of-inside buf off (off + n) (omega arith) (omega arith)),
        )
  ]
  | no big ↦ inl (unexpected_eof, ground arith)
]

pub read_exact-Ends :
    (buf : List ℕ) (n off : ℕ)
    → Ends (λ xs o. (length xs ≡ n) × (off + n ≤ o)) (read_exact buf n off)
unfolding Ends
read_exact-Ends buf n off = elim (read_exact-cases buf n off) [
  | inl (e, eq) ↦ rw eq tt
  | inr (inside, eq) ↦
      let size = length-slice buf off (off + n) (omega arith) inside in
      rw eq (omega (arith, size), omega arith)
]

align_off-cases :
    (buf : List ℕ) (off : ℕ)
    → ((e : CpioError) × (align_off buf off ≡ done (err e, off)))
      ⊎ (((off + 3) / 4 * 4 ≤ length buf) × (align_off buf off ≡ done (ok tt, (off + 3) / 4 * 4)))
unfolding align_off align_up_4
align_off-cases buf off = elim (dec_lt (off + 3) (2 ^ 64)) [
  | yes fits ↦ elim (dec_lt (length buf) ((off + 3) / 4 * 4)) [
    | yes long ↦
        inl (unexpected_eof, ground (arith, bit_and_not_low 2 (off + 3) (omega arith) fits))
    | no inside ↦ inr (omega arith, ground (arith, bit_and_not_low 2 (off + 3) (omega arith) fits))
  ]
  | no big ↦ inl (bad_alignment, ground arith)
]

align_off-Ends :
    (buf : List ℕ) (off : ℕ) → Ends (λ _ o. (off ≤ o) × (o ≤ length buf)) (align_off buf off)
unfolding Ends
align_off-Ends buf off = elim (align_off-cases buf off) [
  | inl (e, eq) ↦ rw eq tt
  | inr (le, eq) ↦ rw eq (omega arith, le)
]

ok_or-Ends : (e : CpioError) (a : Option ℕ) (off : ℕ) → Ends (λ _ o. o ≡ off) (ok_or e a off)
unfolding Ends
ok_or-Ends e none off = tt
ok_or-Ends e (some a) off = refl

hex-Ends :
    (from_utf8 : List ℕ → Bool) (from_str_radix : List ℕ → ℕ → Option ℕ) (field : List ℕ) (off : ℕ)
    → Ends (λ _ o. o ≡ off) (parse_hex_u32 from_utf8 from_str_radix field off)
unfolding Ends parse_hex_u32
hex-Ends from_utf8 from_str_radix field off = elim (Bool-cases (from_utf8 field)) [
  | inl text ↦ rw text (ok_or-Ends bad_hex (from_str_radix field 16) off)
  | inr other ↦ rw other tt
]

-- A step, and what is left to show of the code after it.
module _ {B : Type 0} (Q : B → ℕ → Type 0) (off : ℕ) where
  lift-step :
      {A : Type 0} (r : Run A) (f : A → P B) (a : A)
      → r ≡ done a
      → Ends Q (f a off)
      → Ends Q ((lift r >>= f) off)
  unfolding ◌>>=◌ lift
  lift-step r f a e h = rw e h

  pub slice-step :
      (xs : List ℕ) (start end : ℕ) (f : List ℕ → P B)
      → start ≤ end
      → end ≤ length xs
      → ((ys : List ℕ) → Ends Q (f ys off))
      → Ends Q ((lift (slice_of xs start end) >>= f) off)
  slice-step xs start end f le inside h =
      lift-step (slice_of xs start end) f (slice xs start end)
        (slice_of-inside xs start end le inside) (h (slice xs start end))

  pub nul-step :
      (bytes : List ℕ) (f : Bool → P B)
      → ((b : Bool) → (b ≡ false → 0 < length bytes) → Ends Q (f b off))
      → Ends Q ((lift (lacks_nul bytes) >>= f) off)
  nul-step bytes f h =
      let (b, e, some_there) = lacks_nul-cases bytes in
      lift-step (lacks_nul bytes) f b e (h b some_there)

  pub sub-step :
      (n : ℕ) (f : ℕ → P B)
      → 0 < n
      → Ends Q (f (n - 1) off)
      → Ends Q ((lift (Word.sub n 1) >>= f) off)
  sub-step n f h k = lift-step (Word.sub n 1) f (n - 1) (ground arith) k

  pub ensure-step :
      (b : Bool) (e : CpioError) (f : Unit {0} → P B)
      → (b ≡ true → Ends Q (f tt off))
      → Ends Q ((ensure b e >>= f) off)
  unfolding ◌>>=◌ ensure Ends
  ensure-step true e f h = h refl
  ensure-step false e f h = tt

  pub hex-step :
      (from_utf8 : List ℕ → Bool) (from_str_radix : List ℕ → ℕ → Option ℕ) (field : List ℕ)
      (f : ℕ → P B)
      → ((n : ℕ) → Ends Q (f n off))
      → Ends Q ((parse_hex_u32 from_utf8 from_str_radix field >>= f) off)
  hex-step from_utf8 from_str_radix field f h =
      bind-Ends (λ _ o. o ≡ off) Q (parse_hex_u32 from_utf8 from_str_radix field) f off
        (hex-Ends from_utf8 from_str_radix field off)
        (λ n o e. subst (λ o'. Ends Q (f n o')) (sym e) (h n))

  pub read-step :
      (buf : List ℕ) (n : ℕ) (f : List ℕ → P B)
      → ((xs : List ℕ) (o : ℕ) → length xs ≡ n → off + n ≤ o → Ends Q (f xs o))
      → Ends Q ((read_exact buf n >>= f) off)
  read-step buf n f h =
      bind-Ends (λ xs o. (length xs ≡ n) × (off + n ≤ o)) Q (read_exact buf n) f off
        (read_exact-Ends buf n off) (λ xs o q. h xs o q.0 q.1)

  pub align-step :
      (buf : List ℕ) (f : Unit {0} → P B)
      → ((o : ℕ) → off ≤ o → o ≤ length buf → Ends Q (f tt o))
      → Ends Q ((align_off buf >>= f) off)
  align-step buf f h =
      bind-Ends (λ _ o. (off ≤ o) × (o ≤ length buf)) Q (align_off buf) f off
        (align_off-Ends buf off) (λ u o q. h o q.0 q.1)
