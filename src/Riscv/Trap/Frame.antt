-- ===== src/Riscv/Trap/Frame.antt =====
-- What the handler of traps in kernel/src/arch/riscv/trap.rs leaves as it was.
use rv.Base.{
  ℕ, ◌+◌, ◌^◌, ◌<◌, ◌≡◌, ◌⊎◌, inl, inr, ap, ◌∙◌, sym, refl, arith, Bool, true, false, Option, Run,
  done, panic, Result, err, ◌==◌, if◌then◌else◌, Bool-cases,
}
use rv.Base.Word
use rv.Base.Bits.{bit_and_mask, bit_and_high}
use rv.Riscv.Hart.{
  Hart, Exit, returns, halts, traps, panics, M, next, lift, emit, pure, ◌>>◌, ◌>>=◌,
  unknown_syscall,
}
use rv.Riscv.Syscall.{Errno, enosys, sysno_write, sysno_exit, to_ret, sys_write, sys_exit}
use rv.Riscv.Trap.{
  TrapFrame, sys_args, handle_syscall, handle_exception, handle_cause, handle_irq, exception_cause,
  irq_cause, is_irq, irq_number, stop_hart, schedule_next_tick, clint_timebase, ExceptionCause,
  IrqCause, software, timer, external, env_call_from_u,
}

next-returns :
    {A B : Type 0} (m : Exit A) (f : A → M B) {b : B} {h : Hart}
    → next m f ≡ returns b h
    → (a : A) × (h' : Hart) × (m ≡ returns a h') × (f a h' ≡ returns b h)
next-returns (returns a h') f e = (a, h', refl, e)
next-returns (halts h') f e = cc
next-returns (traps h') f e = cc
next-returns panics f e = cc

returns-injective : {A : Type 0} (a b : A) {h h' : Hart} → returns a h ≡ returns b h' → a ≡ b
returns-injective a b e = cc

add-done : (a b c : ℕ) → Word.add a b ≡ done c → c ≡ a + b
add-done a b c e = ground arith

next-map :
    {A B : Type 0} (m : Exit A) (g : A → B) {b : B} {h : Hart}
    → next m (λ a s. returns (g a) s) ≡ returns b h
    → (a : A) × (b ≡ g a)
next-map (returns a h') g e = (a, cc)
next-map (halts h') g e = cc
next-map (traps h') g e = cc
next-map panics g e = cc

lift-returns :
    {A : Type 0} (r : Run A) (h : Hart) {a : A} {h' : Hart}
    → lift r h ≡ returns a h'
    → (r ≡ done a) × (h' ≡ h)
lift-returns (done a) h e = (cc, cc)
lift-returns panic h e = cc

exception_cause-call : (n : ℕ) → exception_cause n ≡ done env_call_from_u → n ≡ 8
unfolding exception_cause
exception_cause-call n e = ground arith

irq_number-eq : (cause : ℕ) → cause < 2 ^ 64 → is_irq cause ≡ false → irq_number cause ≡ cause
irq_number-eq cause h e = ground (arith, bit_and_mask 63 cause, bit_and_high 63 1 cause)

-- What a return looks like: after an interrupt all is as it was; else it was a call from user mode.
abbrev pub WentOn : (cause epc : ℕ) → TrapFrame → (ℕ × TrapFrame) → Type 0
WentOn cause epc tf (pc, tf') =
    ((is_irq cause ≡ true) × (pc ≡ epc) × (tf' ≡ tf))
    ⊎ ((cause ≡ 8) × (pc ≡ epc + 4) × ((ret : ℕ) × (tf' ≡ record tf { a0 = ret })))

module _ (user : ℕ → Option ℕ) where
  handle_syscall-returns :
      (tf tf' : TrapFrame) (h h' : Hart)
      → handle_syscall user tf h ≡ returns tf' h'
      → (ret : ℕ) × (tf' ≡ record tf { a0 = ret })
  unfolding handle_syscall
  handle_syscall-returns tf tf' h h' e =
      let (res, same) = next-map (call tf h) (λ res. record tf { a0 = to_ret res }) e in
      (to_ret res, same)
    where
      call : TrapFrame → M (Result Errno ℕ)
      call tf =
          if tf.a7 == sysno_write
          then sys_write user (sys_args tf)
          else if tf.a7 == sysno_exit
          then sys_exit (sys_args tf)
          else (emit (unknown_syscall tf.a7) >> pure (err enosys))

  module _ (time : ℕ) (accepts : ℕ → Bool) where
    handle_irq-returns :
        (n epc : ℕ) (tf : TrapFrame) (cause : IrqCause) (h h' : Hart) (r : ℕ × TrapFrame)
        → handle_irq user time accepts n epc tf cause h ≡ returns r h'
        → r ≡ (epc, tf)
    unfolding handle_irq
    handle_irq-returns n epc tf software h h' r e = cc
    handle_irq-returns n epc tf timer h h' r e =
        (next-map (schedule_next_tick user time accepts clint_timebase h) (λ _. (epc, tf)) e).1
    handle_irq-returns n epc tf external h h' r e = cc

    handle_cause-returns :
        (n epc tval : ℕ) (tf : TrapFrame) (cause : ExceptionCause) (h h' : Hart) (pc : ℕ)
        (tf' : TrapFrame)
        → handle_cause user time accepts n epc tval tf cause h ≡ returns (pc, tf') h'
        → (cause ≡ env_call_from_u) × (pc ≡ epc + 4) × ((ret : ℕ) × (tf' ≡ record tf { a0 = ret }))
    unfolding handle_cause stop_hart
    handle_cause-returns n epc tval tf env_call_from_u h h' pc tf' e =
        let (tf1, h1, called, left) =
          next-returns (handle_syscall user tf h) (λ t. lift (Word.add epc 4) >>= λ p. pure (p, t))
            e in
        let (pc1, h2, added, same) =
          next-returns (lift (Word.add epc 4) h1) (λ p. pure (p, tf1)) left in
        let (ret, frame) = handle_syscall-returns tf tf1 h h1 called in
        let pair = returns-injective (pc, tf') (pc1, tf1) (sym same) in
        (
          refl,
          ap (λ r. r.0) pair ∙ add-done epc 4 pc1 (lift-returns (Word.add epc 4) h1 added).0,
          (ret, ap (λ r. r.1) pair ∙ frame),
        )
    handle_cause-returns n epc tval tf _ h h' pc tf' e = cc

    -- Where the handler returns, the trap was an interrupt, after which the program goes on where it was with all its
    -- registers, or a call from user mode, after which it goes on behind the call with all its registers but `a0`.
    -- Every other trap halts the hart or panics.
    pub handle_exception-WentOn :
        (cause epc tval : ℕ) (tf : TrapFrame) (h h' : Hart) (r : ℕ × TrapFrame)
        → cause < 2 ^ 64
        → handle_exception user time accepts cause epc tval tf h ≡ returns r h'
        → WentOn cause epc tf r
    unfolding handle_exception
    handle_exception-WentOn cause epc tval tf h h' r word e = elim (Bool-cases (is_irq cause)) [
      | inl irq ↦
          let (c, h1, found, handled) =
            next-returns (lift (irq_cause (irq_number cause)) h)
              (handle_irq user time accepts (irq_number cause) epc tf) (as_irq irq) in
          let same = handle_irq-returns (irq_number cause) epc tf c h1 h' r handled in
          inl (irq, ap (λ p. p.0) same, ap (λ p. p.1) same)
      | inr call ↦
          let (c, h1, found, handled) =
            next-returns (lift (exception_cause (irq_number cause)) h)
              (handle_cause user time accepts (irq_number cause) epc tval tf) (as_call call) in
          let (kind, pc, frame) =
            handle_cause-returns (irq_number cause) epc tval tf c h1 h' r.0 r.1 handled in
          inr (
            sym (irq_number-eq cause word call)
                ∙ exception_cause-call (irq_number cause)
                    ((lift-returns (exception_cause (irq_number cause)) h found).0 ∙ ap done kind),
            pc,
            frame,
          )
    ]
      where
        as_irq :
            is_irq cause ≡ true
            → next
                (lift (irq_cause (irq_number cause)) h)
                (handle_irq user time accepts (irq_number cause) epc tf)
              ≡ returns r h'
        as_irq irq = rw (handle_exception, irq) at e

        as_call :
            is_irq cause ≡ false
            → next
                (lift (exception_cause (irq_number cause)) h)
                (handle_cause user time accepts (irq_number cause) epc tval tf)
              ≡ returns r h'
        as_call call = rw (handle_exception, call) at e
