-- ===== src/Riscv/Sbi.antt =====
-- Calls of the firmware, kernel/src/arch/riscv/sbi.rs. The firmware is a parameter: what it leaves in the registers
-- `a0` and `a1` for a call.
use rv.Base.{
  ℕ, ◌-◌, ◌/◌, ◌^◌, ◌<◌, ◌≡◌, arith, bit_and, Option, none, some, Run, done, panic, ok, err, ◌==◌,
  if◌then◌else◌,
}
use rv.Base.Fallible.{R}

pub data SbiError : Type 0 where
  failed not_supported invalid_param denied invalid_address already_available : SbiError

-- `SbiError::from(a0 as isize)`, on the word in `a0`.
unfoldable pub sbi_error : ℕ → Run SbiError
sbi_error code =
    if code == 2 ^ 64 - 1
    then done failed
    else if code == 2 ^ 64 - 2
    then done not_supported
    else if code == 2 ^ 64 - 3
    then done invalid_param
    else if code == 2 ^ 64 - 4
    then done denied
    else if code == 2 ^ 64 - 5
    then done invalid_address
    else if code == 2 ^ 64 - 6
    then done already_available
    else panic

pub data Extension : Type 0 where
  legacy_timer legacy_put_char legacy_get_char legacy_clear_ipi legacy_send_ipi
        legacy_remote_fence :
      Extension
  legacy_remote_sfence legacy_remote_sfence_asid legacy_system_shutdown : Extension
  base timer ipi rfence hsm system_reset_ext : Extension

abbrev pub extension_id : Extension → ℕ
extension_id legacy_timer = 0x00
extension_id legacy_put_char = 0x01
extension_id legacy_get_char = 0x02
extension_id legacy_clear_ipi = 0x03
extension_id legacy_send_ipi = 0x04
extension_id legacy_remote_fence = 0x05
extension_id legacy_remote_sfence = 0x06
extension_id legacy_remote_sfence_asid = 0x07
extension_id legacy_system_shutdown = 0x08
extension_id base = 0x10
extension_id timer = 0x54494D45
extension_id ipi = 0x735049
extension_id rfence = 0x52464E43
extension_id hsm = 0x48534D
extension_id system_reset_ext = 0x53525354

pub record SpecVersion : Type 0 where
  pub major : ℕ
  pub minor : ℕ

pub data HartState : Type 0 where
  started stopped start_pending stop_pending : HartState

unfoldable pub hart_state : ℕ → Run HartState
hart_state code =
    if code == 0
    then done started
    else if code == 1
    then done stopped
    else if code == 2
    then done start_pending
    else if code == 3
    then done stop_pending
    else panic

pub data ResetType : Type 0 where
  shutdown cold_reboot warm_reboot : ResetType
  custom_type : ℕ → ResetType

abbrev pub reset_type : ResetType → ℕ
reset_type shutdown = 0
reset_type cold_reboot = 1
reset_type warm_reboot = 2
reset_type (custom_type v) = v

pub data ResetReason : Type 0 where
  no_reason system_failure : ResetReason
  custom_reason : ℕ → ResetReason

abbrev pub reset_reason : ResetReason → ℕ
reset_reason no_reason = 0
reset_reason system_failure = 1
reset_reason (custom_reason v) = v

-- The registers of a call: `a7`, `a6`, and `a0` to `a5`.
pub record Call : Type 0 where
  pub ext : ℕ
  pub fid : ℕ
  pub a0 : ℕ
  pub a1 : ℕ
  pub a2 : ℕ
  pub a3 : ℕ
  pub a4 : ℕ
  pub a5 : ℕ

-- `hart_mask_base.unwrap_or(usize::MAX)`
abbrev pub mask_base : Option ℕ → ℕ
mask_base none = 2 ^ 64 - 1
mask_base (some b) = b

-- The result of a call, from what stands in `a0` and `a1`.
unfoldable pub answer : (a0 a1 : ℕ) → R SbiError ℕ
unfolding sbi_error
answer a0 a1 =
    if a0 == 0 then done (ok a1) else elim (sbi_error a0) [ panic ↦ panic | done e ↦ done (err e) ]

-- A call panics for every code but null and those from -1 to -6.
answer_panics : (a0 a1 : ℕ) → 0 < a0 → a0 < 2 ^ 64 - 6 → answer a0 a1 ≡ panic
unfolding answer sbi_error
answer_panics a0 a1 h h' = ground arith

-- `map`, with a function that may panic, and `map(|_| ())`.
abbrev pub map_run : {A : Type 0} → R SbiError ℕ → (ℕ → Run A) → R SbiError A
map_run panic f = panic
map_run (done (err e)) f = done (err e)
map_run (done (ok v)) f = elim (f v) [ panic ↦ panic | done a ↦ done (ok a) ]

abbrev pub no_value : R SbiError ℕ → R SbiError (Unit {0})
no_value r = map_run r (λ v. done tt)

module _ (firmware : Call → ℕ × ℕ) where
  unfoldable pub ecall : Extension → (fid a0 a1 a2 a3 a4 a5 : ℕ) → R SbiError ℕ
  unfolding answer
  ecall ext fid a0 a1 a2 a3 a4 a5 =
      let r = firmware (record {
        ext = extension_id ext;
        fid = fid;
        a0 = a0;
        a1 = a1;
        a2 = a2;
        a3 = a3;
        a4 = a4;
        a5 = a5;
      }) in
      answer r.0 r.1

  unfoldable pub get_spec_version : Run SpecVersion
  unfolding ecall
  get_spec_version = elim (ecall base 0 0 0 0 0 0 0) [
    | panic ↦ panic
    | done (err e) ↦ panic
    | done (ok v) ↦ done (record { major = bit_and (v / 2 ^ 24) 0x7f; minor = bit_and v 0xffffff })
  ]

  unfoldable pub get_impl_id : R SbiError ℕ
  unfolding ecall
  get_impl_id = ecall base 1 0 0 0 0 0 0

  unfoldable pub get_impl_version : R SbiError ℕ
  unfolding ecall
  get_impl_version = ecall base 2 0 0 0 0 0 0

  unfoldable pub get_mvendorid : R SbiError ℕ
  unfolding ecall
  get_mvendorid = ecall base 4 0 0 0 0 0 0

  unfoldable pub get_marchid : R SbiError ℕ
  unfolding ecall
  get_marchid = ecall base 5 0 0 0 0 0 0

  unfoldable pub get_mimpid : R SbiError ℕ
  unfolding ecall
  get_mimpid = ecall base 6 0 0 0 0 0 0

  unfoldable pub probe_extension : Extension → R SbiError ℕ
  unfolding ecall
  probe_extension id = ecall base 3 (extension_id id) 0 0 0 0 0

  -- `console::put`; `ok` forgets an error.
  unfoldable pub put : (c : ℕ) → Run (Unit {0})
  unfolding ecall
  put c = elim (ecall legacy_put_char 0 c 0 0 0 0 0) [ panic ↦ panic | done r ↦ done tt ]

  unfoldable pub set_timer : (stime : ℕ) → R SbiError (Unit {0})
  unfolding ecall
  set_timer stime = no_value (ecall timer 0 stime 0 0 0 0 0)

  unfoldable pub send_ipi : ℕ → Option ℕ → R SbiError (Unit {0})
  unfolding ecall
  send_ipi hart_mask hart_mask_base =
      no_value (ecall ipi 0 hart_mask (mask_base hart_mask_base) 0 0 0 0)

  unfoldable pub remote_fence_i : ℕ → Option ℕ → R SbiError (Unit {0})
  unfolding ecall
  remote_fence_i hart_mask hart_mask_base =
      no_value (ecall rfence 0 hart_mask (mask_base hart_mask_base) 0 0 0 0)

  unfoldable pub remote_sfence_vma : ℕ → Option ℕ → (start size : ℕ) → R SbiError (Unit {0})
  unfolding ecall
  remote_sfence_vma hart_mask hart_mask_base start size =
      no_value (ecall rfence 1 hart_mask (mask_base hart_mask_base) start size 0 0)

  unfoldable pub remote_sfence_vma_asid :
      ℕ → Option ℕ → (start size asid : ℕ) → R SbiError (Unit {0})
  unfolding ecall
  remote_sfence_vma_asid hart_mask hart_mask_base start size asid =
      no_value (ecall rfence 2 hart_mask (mask_base hart_mask_base) start size asid 0)

  unfoldable pub remote_hfence_gvma_vmid :
      ℕ → Option ℕ → (start size vmid : ℕ) → R SbiError (Unit {0})
  unfolding ecall
  remote_hfence_gvma_vmid hart_mask hart_mask_base start size vmid =
      no_value (ecall rfence 3 hart_mask (mask_base hart_mask_base) start size vmid 0)

  unfoldable pub remote_hfence_gvma : ℕ → Option ℕ → (start size : ℕ) → R SbiError (Unit {0})
  unfolding ecall
  remote_hfence_gvma hart_mask hart_mask_base start size =
      no_value (ecall rfence 4 hart_mask (mask_base hart_mask_base) start size 0 0)

  unfoldable pub remote_hfence_vvma_asid :
      ℕ → Option ℕ → (start size asid : ℕ) → R SbiError (Unit {0})
  unfolding ecall
  remote_hfence_vvma_asid hart_mask hart_mask_base start size asid =
      no_value (ecall rfence 5 hart_mask (mask_base hart_mask_base) start size asid 0)

  unfoldable pub remote_hfence_vvma : ℕ → Option ℕ → (start size : ℕ) → R SbiError (Unit {0})
  unfolding ecall
  remote_hfence_vvma hart_mask hart_mask_base start size =
      no_value (ecall rfence 6 hart_mask (mask_base hart_mask_base) start size 0 0)

  unfoldable pub start_hart : (hartid start opaque : ℕ) → R SbiError (Unit {0})
  unfolding ecall
  start_hart hartid start opaque = no_value (ecall hsm 0 hartid start opaque 0 0 0)

  unfoldable pub stop_hart : R SbiError (Unit {0})
  unfolding ecall
  stop_hart = no_value (ecall hsm 1 0 0 0 0 0 0)

  unfoldable pub get_hart_status : R SbiError HartState
  unfolding ecall hart_state
  get_hart_status = map_run (ecall hsm 2 0 0 0 0 0 0) hart_state

  unfoldable pub system_reset : ResetType → ResetReason → R SbiError (Unit {0})
  unfolding ecall
  system_reset kind reason =
      no_value (ecall system_reset_ext 0 (reset_type kind) (reset_reason reason) 0 0 0 0)
