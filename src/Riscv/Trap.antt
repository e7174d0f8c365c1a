-- ===== src/Riscv/Trap.antt =====
-- The handler of traps, kernel/src/arch/riscv/trap.rs.
pub mod Calls
pub mod Frame
mod Tests
use rv.Base.{
  ℕ, zero, suc, ◌+◌, ◌-◌, ◌*◌, ◌/◌, ◌%◌, ◌^◌, bit_and, Bool, true, false, not, Option, List, [],
  ◌∷◌, Run, done, panic, Result, ok, err, assert, ◌==◌, if◌then◌else◌,
}
use rv.Base.Word
use rv.Base.Word.{complement}
use rv.Riscv.Hart.{
  Hart, Event, unknown_syscall, next_tick, unhandled_irq, FaultKind, fetch, load, store, page_fault,
  unhandled_exception, dump, M, ◌>>=◌, ◌>>◌, pure, lift, emit, halt,
}
use rv.Riscv.Syscall.{Errno, enosys, SysArgs, sysno_write, sysno_exit, to_ret, sys_write, sys_exit}

abbrev pub cause_irq_flag_mask : ℕ
cause_irq_flag_mask = 2 ^ 63

pub data IrqCause : Type 0 where
  software timer external : IrqCause

unfoldable pub irq_cause : ℕ → Run IrqCause
irq_cause n =
    if n == 1
    then done software
    else if n == 5
    then done timer
    else if n == 9
    then done external
    else panic

pub data ExceptionCause : Type 0 where
  instr_addr_misaligned instr_access_fault illegal_instr breakpoint load_addr_misaligned
        load_access_fault :
      ExceptionCause
  store_addr_misaligned store_access_fault env_call_from_u env_call_from_s : ExceptionCause
  instr_page_fault load_page_fault store_page_fault : ExceptionCause

unfoldable pub exception_cause : ℕ → Run ExceptionCause
exception_cause n =
    if n == 0
    then done instr_addr_misaligned
    else if n == 1
    then done instr_access_fault
    else if n == 2
    then done illegal_instr
    else if n == 3
    then done breakpoint
    else if n == 4
    then done load_addr_misaligned
    else if n == 5
    then done load_access_fault
    else if n == 6
    then done store_addr_misaligned
    else if n == 7
    then done store_access_fault
    else if n == 8
    then done env_call_from_u
    else if n == 9
    then done env_call_from_s
    else if n == 12
    then done instr_page_fault
    else if n == 13
    then done load_page_fault
    else if n == 15
    then done store_page_fault
    else panic

-- The registers in the order in which they are pushed.
pub record TrapFrame : Type 0 where
  pub ra : ℕ
  pub sp : ℕ
  pub gp : ℕ
  pub tp : ℕ
  pub t0 : ℕ
  pub t1 : ℕ
  pub t2 : ℕ
  pub s0 : ℕ
  pub s1 : ℕ
  pub a0 : ℕ
  pub a1 : ℕ
  pub a2 : ℕ
  pub a3 : ℕ
  pub a4 : ℕ
  pub a5 : ℕ
  pub a6 : ℕ
  pub a7 : ℕ
  pub s2 : ℕ
  pub s3 : ℕ
  pub s4 : ℕ
  pub s5 : ℕ
  pub s6 : ℕ
  pub s7 : ℕ
  pub s8 : ℕ
  pub s9 : ℕ
  pub s10 : ℕ
  pub s11 : ℕ
  pub t3 : ℕ
  pub t4 : ℕ
  pub t5 : ℕ
  pub t6 : ℕ

abbrev pub sys_args : TrapFrame → SysArgs
sys_args tf = tf.a0 ∷ tf.a1 ∷ tf.a2 ∷ tf.a3 ∷ tf.a4 ∷ tf.a5 ∷ []

-- `CLINT_TIMEBASE` of kernel/src/arch/riscv/time.rs
abbrev pub clint_timebase : ℕ
clint_timebase = 10000000

-- Whether a trap is an interrupt, and its number.
abbrev pub is_irq : ℕ → Bool
is_irq cause = not (bit_and cause cause_irq_flag_mask == 0)

abbrev pub irq_number : ℕ → ℕ
irq_number cause = bit_and cause (complement cause_irq_flag_mask)

-- The debug facilities at the end of `handle_exception`, and the halt.
unfoldable pub stop_hart : (epc : ℕ) → Event → M (ℕ × TrapFrame)
stop_hart epc e = emit e >> emit (dump epc) >> halt

module _ (user : ℕ → Option ℕ) where
  -- The trap frame after the call.
  unfoldable pub handle_syscall : TrapFrame → M TrapFrame
  unfolding sys_write sys_exit to_ret
  handle_syscall tf = do
    res ←
        (if tf.a7 == sysno_write
          then sys_write user (sys_args tf)
          else if tf.a7 == sysno_exit
          then sys_exit (sys_args tf)
          else (emit (unknown_syscall tf.a7) >> pure (err enosys)))
    pure (record tf { a0 = to_ret res })

-- `user` is the memory of user pages, `time` the register of that name, `accepts` whether the firmware takes a time for
-- the next tick.
module _ (user : ℕ → Option ℕ) (time : ℕ) (accepts : ℕ → Bool) where
  -- `time::schedule_next_tick`; `unwrap`
  unfoldable pub schedule_next_tick : (interval : ℕ) → M (Unit {0})
  schedule_next_tick interval = do
    stime ← lift (Word.add time interval)
    emit (next_tick stime)
    lift (assert (accepts stime))

  unfoldable pub handle_irq : (n epc : ℕ) → TrapFrame → IrqCause → M (ℕ × TrapFrame)
  unfolding schedule_next_tick
  handle_irq n epc tf timer = schedule_next_tick clint_timebase >> pure (epc, tf)
  handle_irq n epc tf software = emit (unhandled_irq n) >> pure (epc, tf)
  handle_irq n epc tf external = emit (unhandled_irq n) >> pure (epc, tf)

  unfoldable pub handle_cause : (n epc tval : ℕ) → TrapFrame → ExceptionCause → M (ℕ × TrapFrame)
  unfolding handle_syscall stop_hart
  handle_cause n epc tval tf instr_page_fault = stop_hart epc (page_fault fetch tval)
  handle_cause n epc tval tf load_page_fault = stop_hart epc (page_fault load tval)
  handle_cause n epc tval tf store_page_fault = stop_hart epc (page_fault store tval)
  handle_cause n epc tval tf env_call_from_u =
      handle_syscall user tf >>= λ tf'. lift (Word.add epc 4) >>= λ pc. pure (pc, tf')
  handle_cause n epc tval tf _ = stop_hart epc (unhandled_exception n tval)

  -- The program counter to go on at, and the trap frame.
  unfoldable pub handle_exception : (cause epc tval : ℕ) → TrapFrame → M (ℕ × TrapFrame)
  unfolding irq_cause exception_cause handle_irq handle_cause
  handle_exception cause epc tval tf =
      if is_irq cause
      then (lift (irq_cause (irq_number cause)) >>= handle_irq (irq_number cause) epc tf)
      else (lift (exception_cause (irq_number cause))
          >>= handle_cause (irq_number cause) epc tval tf)
