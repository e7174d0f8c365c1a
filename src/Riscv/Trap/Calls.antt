-- ===== src/Riscv/Trap/Calls.antt =====
-- What system calls do, and what the handler of traps in kernel/src/arch/riscv/trap.rs may change.
use mathlib.Core.List.{append_assoc, append-nil}
use rv.Base.{
  ℕ, ◌+◌, ◌-◌, ◌/◌, ◌%◌, ◌^◌, ◌<◌, ◌≡◌, ◌≢◌, ap, ◌∙◌, sym, refl, arith, bit_or, Bool, Option, some,
  List, [], ◌∷◌, ◌++◌, length, done, ok, ◌==◌, if◌then◌else◌,
}
use rv.Base.Word
use rv.Base.Bits.{bit_or_left, bit_or_right}
use rv.Riscv.Hart.{
  Hart, Event, byte, unknown_syscall, returns, M, next, emit, ◌>>◌, read_user, with_user_access,
}
use rv.Riscv.Registers.Sstatus
use rv.Riscv.Registers.SstatusFlags
use rv.Riscv.Syscall.{put_bytes, sys_write, to_ret}
use rv.Riscv.Trap.{TrapFrame, handle_syscall, handle_exception, handle_cause, exception_cause}

-- The hart lets the kernel load user memory.
abbrev pub HasSum : Hart → Type 0
HasSum h = h.sstatus / 2 ^ 18 % 2 ≡ 1

-- `bs` stand in user memory from `p` on.
abbrev pub Readable : (ℕ → Option ℕ) → ℕ → List ℕ → Type 0
Readable user p [] = Unit {0}
Readable user p (b ∷ bs) = (user p ≡ some b) × Readable user ((p + 1) % 2 ^ 64) bs

abbrev pub bytes_out : List ℕ → List Event
bytes_out [] = []
bytes_out (b ∷ bs) = byte b ∷ bytes_out bs

-- The hart inside `with_user_access`, and after it.
abbrev pub opened : Hart → Hart
opened h = record h {
  sstatus = Sstatus.set (bit_or (Sstatus.read h.sstatus) SstatusFlags.sum) h.sstatus;
}

abbrev pub closed : (before after : Hart) → Hart
closed before after = record after {
  sstatus = Sstatus.set (Sstatus.read before.sstatus) after.sstatus;
}

opened-HasSum : (h : Hart) → HasSum (opened h)
unfolding Sstatus.set
opened-HasSum h =
    bit_or_right 18 h.sstatus (bit_or (Sstatus.read h.sstatus) SstatusFlags.sum)
      (bit_or_right 18 (Sstatus.read h.sstatus) SstatusFlags.sum refl)

with_user_access-returns :
    {A : Type 0} (f : M A) (h h' : Hart) (a : A)
    → f (opened h) ≡ returns a h'
    → with_user_access f h ≡ returns a (closed h h')
unfolding with_user_access
with_user_access-returns f h h' a e = ap (λ r. next r (λ ret. λ s. returns ret (closed h s))) e

-- Code that is run with access to user memory, and does not take it back itself, leaves it open afterwards, also
-- where it was closed before: the flags are set again but none is cleared.
pub with_user_access_open :
    {A : Type 0} (f : M A) (h h' : Hart) (a : A)
    → f (opened h) ≡ returns a h'
    → HasSum h'
    → (with_user_access f h ≡ returns a (closed h h')) × HasSum (closed h h')
unfolding Sstatus.set
with_user_access_open f h h' a e sum =
    (with_user_access-returns f h h' a e, bit_or_left 18 h'.sstatus (Sstatus.read h.sstatus) sum)

add-eq : (a b : ℕ) → a + b < 2 ^ 64 → Word.add a b ≡ done (a + b)
add-eq a b h = ground arith

module _ (user : ℕ → Option ℕ) where
  read_user-byte :
      (p b : ℕ) (h : Hart) → HasSum h → user p ≡ some b → read_user user p h ≡ returns b h
  unfolding read_user
  read_user-byte p b h sum e = ground (arith, e)

  put_bytes-Readable :
      (bs : List ℕ) (p : ℕ) (h : Hart)
      → HasSum h
      → Readable user p bs
      → put_bytes user (length bs) p h ≡ returns tt (record h { out = h.out ++ bytes_out bs })
  unfolding put_bytes read_user
  put_bytes-Readable [] p h sum readable =
      ap (λ o. returns tt (record h { out = o })) (sym (append-nil h.out))
  put_bytes-Readable (b ∷ bs) p h sum readable =
      ap (λ r. next r (λ c. emit (byte c) >> put_bytes user (length bs) ((p + 1) % 2 ^ 64)))
        (read_user-byte p b h sum readable.0)
      ∙ put_bytes-Readable bs ((p + 1) % 2 ^ 64) (record h { out = h.out ++ (byte b ∷ []) }) sum
          readable.1
      ∙ ap (λ o. returns tt (record h { out = o }))
          (append_assoc h.out (byte b ∷ []) (bytes_out bs))

  sys_write-stdout :
      (bs : List ℕ) (p : ℕ) (a3 a4 a5 : ℕ) (h : Hart)
      → Readable user p bs
      → sys_write user (1 ∷ p ∷ length bs ∷ a3 ∷ a4 ∷ a5 ∷ []) h
        ≡ returns (ok (length bs)) (closed h (record (opened h) { out = h.out ++ bytes_out bs }))
  unfolding sys_write
  sys_write-stdout bs p a3 a4 a5 h readable =
      ap (λ r. next r (λ _. λ s. returns (ok (length bs)) s))
        (with_user_access-returns (put_bytes user (length bs) p) h _ tt
          (put_bytes-Readable bs p (opened h) (opened-HasSum h) readable))

  handle_syscall-write :
      (tf : TrapFrame) (h : Hart) (bs : List ℕ)
      → tf.a7 ≡ 0
      → tf.a0 ≡ 1
      → tf.a2 ≡ length bs
      → Readable user tf.a1 bs
      → handle_syscall user tf h
        ≡ returns
            (record tf { a0 = length bs })
            (closed h (record (opened h) { out = h.out ++ bytes_out bs }))
  unfolding handle_syscall to_ret
  handle_syscall-write tf h bs number fd len readable =
      rw (handle_syscall, number, fd, len, sys_write-stdout bs tf.a1 tf.a3 tf.a4 tf.a5 h readable)

  handle_syscall-refused :
      (tf : TrapFrame) (h : Hart)
      → tf.a7 ≢ 1
      → (tf.a7 ≡ 0 → tf.a0 ≢ 1)
      → handle_syscall user tf h ≡ (
          if tf.a7 == 0
          then returns (record tf { a0 = 2 ^ 64 - 22 }) h
          else returns
              (record tf { a0 = 2 ^ 64 - 38 })
              (record h { out = h.out ++ (unknown_syscall tf.a7 ∷ []) }))
  unfolding handle_syscall sys_write to_ret
  handle_syscall-refused tf h not_exit not_stdout = ground arith

  module _ (time : ℕ) (accepts : ℕ → Bool) where
    -- A write to the standard output of bytes that user memory holds puts out exactly these bytes, in order, gives
    -- their number back in `a0`, changes no other register of the frame, and goes on behind the call.
    pub handle_exception-write :
        (epc tval : ℕ) (tf : TrapFrame) (h : Hart) (bs : List ℕ)
        → epc + 4 < 2 ^ 64
        → tf.a7 ≡ 0
        → tf.a0 ≡ 1
        → tf.a2 ≡ length bs
        → Readable user tf.a1 bs
        → handle_exception user time accepts 8 epc tval tf h
          ≡ returns
              (epc + 4, record tf { a0 = length bs })
              (closed h (record (opened h) { out = h.out ++ bytes_out bs }))
    unfolding handle_exception handle_cause handle_syscall exception_cause to_ret
    handle_exception-write epc tval tf h bs room number fd len readable =
        rw
          (handle_exception, handle_syscall-write tf h bs number fd len readable, add-eq epc 4 room)

    -- A call that is refused, for another file or an unknown number, gives the negated error in `a0`; of the rest of
    -- the frame and of the register nothing changes, and only the unknown number is put out.
    pub handle_exception-refused :
        (epc tval : ℕ) (tf : TrapFrame) (h : Hart)
        → epc + 4 < 2 ^ 64
        → tf.a7 ≢ 1
        → (tf.a7 ≡ 0 → tf.a0 ≢ 1)
        → handle_exception user time accepts 8 epc tval tf h ≡ (
            if tf.a7 == 0
            then returns (epc + 4, record tf { a0 = 2 ^ 64 - 22 }) h
            else returns
                (epc + 4, record tf { a0 = 2 ^ 64 - 38 })
                (record h { out = h.out ++ (unknown_syscall tf.a7 ∷ []) }))
    unfolding handle_exception handle_cause handle_syscall exception_cause to_ret sys_write
    handle_exception-refused epc tval tf h room not_exit not_stdout =
        rw (handle_exception, handle_syscall-refused tf h not_exit not_stdout, add-eq epc 4 room)
          (ground arith)
