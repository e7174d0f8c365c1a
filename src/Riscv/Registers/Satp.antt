-- ===== src/Riscv/Registers/Satp.antt =====
-- `Satp` and `SatpMode` in kernel/src/arch/riscv/registers.rs, as functions of the word in the register.
use rv.Base.{
  ℕ, ◌+◌, ◌*◌, ◌/◌, ◌%◌, ◌^◌, ◌<◌, ◌≡◌, bit_and, bit_or, ap, ◌∙◌, arith, Run, done, panic, ◌==◌,
  if◌then◌else◌,
}
use rv.Base.Bits.{bit_and_not_low, bit_and_mask, bit_or_fields}
use rv.Base.Word.{complement}

-- `SatpMode`
pub data SatpMode : Type 0 where
  bare sv32 sv39 sv48 : SatpMode

abbrev pub mode_number : SatpMode → ℕ
mode_number bare = 0
mode_number sv32 = 1
mode_number sv39 = 8
mode_number sv48 = 9

unfoldable pub mode_from : ℕ → Run SatpMode
mode_from v =
    if v == 0
    then done bare
    else if v == 1
    then done sv32
    else if v == 8
    then done sv39
    else if v == 9
    then done sv48
    else panic

unfoldable pub read_ppn : ℕ → ℕ
read_ppn v = bit_and v 0xfff_ffff_ffff

unfoldable pub read_asid : ℕ → ℕ
read_asid v = bit_and (v / 2 ^ 44) 0xffff

unfoldable pub read_mode : ℕ → Run SatpMode
unfolding mode_from
read_mode v = mode_from (v / 2 ^ 60)

unfoldable pub write_ppn : (ppn v : ℕ) → ℕ
write_ppn ppn v = bit_or (bit_and v (complement 0xfff_ffff_ffff)) ppn

unfoldable pub write_asid : (asid v : ℕ) → ℕ
write_asid asid v = bit_or (bit_and v (complement (0xffff * 2 ^ 44))) (asid * 2 ^ 44 % 2 ^ 64)

unfoldable pub write_mode : (mode : SatpMode) (v : ℕ) → ℕ
write_mode mode v = bit_or (bit_and v (complement (0xf * 2 ^ 60))) (mode_number mode * 2 ^ 60)

-- Writing a page number that fits its field changes that field, and neither the address-space identifier nor the
-- mode.
pub write_ppn_fields :
    (ppn v : ℕ)
    → ppn < 2 ^ 44
    → v < 2 ^ 64
    → (read_ppn (write_ppn ppn v) ≡ ppn)
      × (read_asid (write_ppn ppn v) ≡ read_asid v)
      × (read_mode (write_ppn ppn v) ≡ read_mode v)
unfolding read_ppn read_asid read_mode write_ppn
write_ppn_fields ppn v h hv = (
  ap (λ w. bit_and w 0xfff_ffff_ffff) written
      ∙ bit_and_mask 44 (v / 2 ^ 44 * 2 ^ 44 + ppn)
      ∙ omega arith,
  ap (λ w. bit_and (w / 2 ^ 44) 0xffff) written ∙ ap (λ w. bit_and w 0xffff) (omega arith),
  ap (λ w. mode_from (w / 2 ^ 60)) written
      ∙ ap mode_from {x = (v / 2 ^ 44 * 2 ^ 44 + ppn) / 2 ^ 60} {y = v / 2 ^ 60} (omega arith),
)
  where
    written : write_ppn ppn v ≡ v / 2 ^ 44 * 2 ^ 44 + ppn
    written =
        ap (λ w. bit_or w ppn) (bit_and_not_low 44 v (omega arith) hv)
        ∙ bit_or_fields 44 (v / 2 ^ 44) ppn h
