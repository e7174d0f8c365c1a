-- ===== src/Riscv/Syscall.antt =====
-- System calls, kernel/src/syscall.rs.
use rv.Base.{
  ℕ, zero, suc, ◌+◌, ◌-◌, ◌%◌, ◌^◌, not, Option, List, [], ◌∷◌, index, Run, Result, ok, err, ◌==◌,
  if◌then◌else◌,
}
use rv.Riscv.Hart.{
  byte, init_terminated, power_off, M, ◌>>=◌, ◌>>◌, pure, lift, emit, halt, read_user,
  with_user_access,
}

-- `Sysno`
abbrev pub sysno_write : ℕ
sysno_write = 0

abbrev pub sysno_exit : ℕ
sysno_exit = 1

pub data Errno : Type 0 where
  einval enosys : Errno

abbrev pub errno : Errno → ℕ
errno einval = 22
errno enosys = 38

abbrev pub SysArgs : Type 0
SysArgs = List ℕ

-- `SysArgs::get`
abbrev pub get : SysArgs → ℕ → Run ℕ
get args n = index args n

-- `(-(err as i64)) as isize as usize` for an error
unfoldable pub to_ret : Result Errno ℕ → ℕ
to_ret (ok val) = val
to_ret (err e) = 2 ^ 64 - errno e

module _ (user : ℕ → Option ℕ) where
  -- `for _ in 0..len`
  unfoldable pub put_bytes : (len p : ℕ) → M (Unit {0})
  unfolding read_user
  put_bytes zero p = pure tt
  put_bytes (suc len) p =
      read_user user p >>= λ b. emit (byte b) >> put_bytes len ((p + 1) % 2 ^ 64)

  -- `for b in dst.iter_mut()`, with the bytes that are read.
  unfoldable pub read_bytes : (len p : ℕ) → M (List ℕ)
  unfolding read_user
  read_bytes zero p = pure []
  read_bytes (suc len) p =
      read_user user p >>= λ b. read_bytes len ((p + 1) % 2 ^ 64) >>= λ bs. pure (b ∷ bs)

  -- The bytes that `dst` holds afterwards.
  unfoldable pub copy_from_user : (len src : ℕ) → M (List ℕ)
  unfolding read_bytes with_user_access
  copy_from_user len src = with_user_access (read_bytes len src)

  unfoldable pub sys_write : SysArgs → M (Result Errno ℕ)
  unfolding put_bytes with_user_access
  sys_write args = do
    fd ← lift (get args 0)
    buf ← lift (get args 1)
    len ← lift (get args 2)
    if not (fd == 1)
        then pure (err einval)
        else (with_user_access (put_bytes len buf) >> pure (ok len))

-- Powers off and halts.
unfoldable pub sys_exit : SysArgs → M (Result Errno ℕ)
sys_exit args = do exit_code ← lift (get args 0); emit init_terminated; emit power_off; halt
