-- ===== src/Riscv/Trap/Tests.antt =====
-- Traps and registers at concrete inputs.
use rv.Base.{
  ℕ, ◌-◌, ◌^◌, ◌≡◌, refl, arith, Bool, true, Option, none, some, List, [], ◌∷◌, ◌==◌, if◌then◌else◌,
}
use rv.Riscv.Hart.{Hart, byte, unknown_syscall, returns, with_user_access}
use rv.Riscv.Registers.Sstatus
use rv.Riscv.Syscall.{put_bytes}
use rv.Riscv.Trap.{TrapFrame, handle_exception}
use rv.Riscv.Trap.Calls.{
  handle_exception-write, handle_exception-refused, with_user_access_open, HasSum, opened, closed,
}
use rv.Riscv.Trap.Frame.{handle_exception-WentOn, WentOn}

abbrev hi : List ℕ
hi = 72 ∷ 105 ∷ []

abbrev user : ℕ → Option ℕ
user p = if p == 4096 then some 72 else if p == 4097 then some 105 else none

abbrev accepts : ℕ → Bool
accepts t = true

-- Interrupts are on, and access to user memory is off.
abbrev hart : Hart
hart = record { sstatus = 2; out = [] }

abbrev frame : (number fd : ℕ) → TrapFrame
frame number fd = record {
  ra = 1;
  sp = 2;
  gp = 3;
  tp = 4;
  t0 = 5;
  t1 = 6;
  t2 = 7;
  s0 = 8;
  s1 = 9;
  a0 = fd;
  a1 = 4096;
  a2 = 2;
  a3 = 13;
  a4 = 14;
  a5 = 15;
  a6 = 16;
  a7 = number;
  s2 = 18;
  s3 = 19;
  s4 = 20;
  s5 = 21;
  s6 = 22;
  s7 = 23;
  s8 = 24;
  s9 = 25;
  s10 = 26;
  s11 = 27;
  t3 = 28;
  t4 = 29;
  t5 = 30;
  t6 = 31;
}

handle_exception-write_example :
    handle_exception user 0 accepts 8 100 0 (frame 0 1) hart
    ≡ returns
        (104, frame 0 2)
        (closed hart (record (opened hart) { out = byte 72 ∷ byte 105 ∷ [] }))
handle_exception-write_example =
    handle_exception-write user 0 accepts 100 0 (frame 0 1) hart hi (omega arith) refl refl refl
      (refl, (refl, tt))

handle_exception-refused_example :
    handle_exception user 0 accepts 8 100 0 (frame 7 1) hart
    ≡ returns
        (104, record (frame 7 1) { a0 = 2 ^ 64 - 38 })
        (record hart { out = unknown_syscall 7 ∷ [] })
handle_exception-refused_example =
    handle_exception-refused user 0 accepts 100 0 (frame 7 1) hart (omega arith) (λ e. omega arith)
      (λ e. omega arith)

handle_exception-WentOn_example :
    WentOn 8 100 (frame 7 1) (104, record (frame 7 1) { a0 = 2 ^ 64 - 38 })
handle_exception-WentOn_example =
    handle_exception-WentOn user 0 accepts 8 100 0 (frame 7 1) hart
      (record hart { out = unknown_syscall 7 ∷ [] }) (104, record (frame 7 1) { a0 = 2 ^ 64 - 38 })
      (omega arith) handle_exception-refused_example

put_hi :
    put_bytes user 2 4096 (opened hart)
    ≡ returns tt (record (opened hart) { out = byte 72 ∷ byte 105 ∷ [] })
unfolding put_bytes Sstatus.set Sstatus.read
put_hi = refl

-- It is off before and on after.
with_user_access_open_example :
    (with_user_access (put_bytes user 2 4096) hart
      ≡ returns tt (closed hart (record (opened hart) { out = byte 72 ∷ byte 105 ∷ [] })))
    × HasSum (closed hart (record (opened hart) { out = byte 72 ∷ byte 105 ∷ [] }))
unfolding Sstatus.set Sstatus.read
with_user_access_open_example =
    with_user_access_open (put_bytes user 2 4096) hart
      (record (opened hart) { out = byte 72 ∷ byte 105 ∷ [] }) tt put_hi refl
