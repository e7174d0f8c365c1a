-- ===== src/Riscv/Hart.antt =====
-- What a handler of the kernel does to its hart and to the world: the register `sstatus`, and what it puts out, in
-- order. `with_user_access` of kernel/src/arch/riscv/uaccess.rs.
use rv.Base.{
  ℕ, ◌/◌, ◌%◌, ◌^◌, bit_or, Option, none, some, List, [], ◌∷◌, ◌++◌, Run, done, panic, ◌==◌,
  if◌then◌else◌,
}
use rv.Riscv.Registers.Sstatus
use rv.Riscv.Registers.SstatusFlags

-- Why a page fault is reported: at an instruction fetch, a load or a store.
pub data FaultKind : Type 0 where
  fetch load store : FaultKind

-- What goes out: a byte on the console, messages, the next tick of the timer, power off.
pub data Event : Type 0 where
  byte : ℕ → Event
  unknown_syscall : ℕ → Event
  init_terminated : Event
  power_off : Event
  next_tick : ℕ → Event
  unhandled_irq : ℕ → Event
  page_fault : FaultKind → ℕ → Event
  unhandled_exception : ℕ → ℕ → Event
  dump : ℕ → Event

pub record Hart : Type 0 where
  pub sstatus : ℕ
  pub out : List Event

-- A handler returns, halts the hart, runs into a page fault of its own, or panics.
pub data Exit (A : Type 0) : Type 0 where
  returns : A → Hart → Exit A
  halts : Hart → Exit A
  traps : Hart → Exit A
  panics : Exit A

abbrev pub M : Type 0 → Type 0
M A = Hart → Exit A

abbrev pub next : {A B : Type 0} → Exit A → (A → M B) → Exit B
next (returns a h) f = f a h
next (halts h) f = halts h
next (traps h) f = traps h
next panics f = panics

infixl 5 ◌>>=◌ ◌>>◌
abbrev pub ◌>>=◌ : {A B : Type 0} → M A → (A → M B) → M B
◌>>=◌ m f h = next (m h) f

abbrev pub ◌>>◌ : {B : Type 0} → M (Unit {0}) → M B → M B
m >> k = m >>= λ _. k

abbrev pub pure : {A : Type 0} → A → M A
pure a h = returns a h

abbrev pub lift : {A : Type 0} → Run A → M A
lift (done a) h = returns a h
lift panic h = panics

abbrev pub emit : Event → M (Unit {0})
emit e h = returns tt (record h { out = h.out ++ (e ∷ []) })

-- `hal::cpu::halt`
abbrev pub halt : {A : Type 0} → M A
halt h = halts h

abbrev pub modify_sstatus : (ℕ → ℕ) → M (Unit {0})
modify_sstatus f h = returns tt (record h { sstatus = f h.sstatus })

-- A load from user memory, where `user` gives the byte at an address that a user page maps. Without the flag
-- `SUM` the hart does not let the kernel load it.
unfoldable pub read_user : (ℕ → Option ℕ) → ℕ → M ℕ
read_user user p h =
    if h.sstatus / 2 ^ 18 % 2 == 1
    then elim (user p) [ none ↦ traps h | some b ↦ returns b h ]
    else traps h

unfoldable pub with_user_access : {A : Type 0} → M A → M A
unfolding Sstatus.read Sstatus.set
with_user_access f h =
    let sstatus = Sstatus.read h.sstatus in
    next (next (modify_sstatus (Sstatus.set (bit_or sstatus SstatusFlags.sum)) h) (λ _. f))
      (λ ret. modify_sstatus (Sstatus.set sstatus) >> pure ret)
