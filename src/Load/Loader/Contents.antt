-- ===== src/Load/Loader/Contents.antt =====
-- What the methods of an `ElfLoader` do to the bytes of an address space, by the comments of the trait.
use rv.Base.{ℕ, ◌+◌, ◌≤◌, ◌<◌, ◌≡◌, ◌⊎◌, true, List, length, get_elem?, some, done, ok}
use rv.Base.Word.{is_power_of_two}
use rv.Load.Loader.{ElfLoader}

-- `x` is not among the `len` addresses from `start` on.
abbrev pub IsOutside : ℕ → ℕ → ℕ → Type 0
IsOutside start len x = (x < start) ⊎ (start + len ≤ x)

-- `byte a x` is the byte at address `x`. Mapping may change the bytes of the range that it maps; copying and
-- zeroing write their range; the other two change no byte.
pub record IsLoader {A E : Type 0} (loader : ElfLoader A E) (byte : A → ℕ → ℕ) : Type 0 where
  pub power : is_power_of_two loader.page_size ≡ true
  pub map_outside :
      (start len flags : ℕ) (a a' : A) (x : ℕ)
      → loader.map_anonymous start len flags a ≡ done (ok tt, a')
      → IsOutside start len x
      → byte a' x ≡ byte a x
  pub copy_inside :
      (start : ℕ) (src : List ℕ) (a a' : A) (i b : ℕ)
      → loader.copy_to_user start src a ≡ done (ok tt, a')
      → get_elem? src i ≡ some b
      → byte a' (start + i) ≡ b
  pub copy_outside :
      (start : ℕ) (src : List ℕ) (a a' : A) (x : ℕ)
      → loader.copy_to_user start src a ≡ done (ok tt, a')
      → IsOutside start (length src) x
      → byte a' x ≡ byte a x
  pub zero_inside :
      (start len : ℕ) (a a' : A) (i : ℕ)
      → loader.zero_user start len a ≡ done (ok tt, a')
      → i < len
      → byte a' (start + i) ≡ 0
  pub zero_outside :
      (start len : ℕ) (a a' : A) (x : ℕ)
      → loader.zero_user start len a ≡ done (ok tt, a')
      → IsOutside start len x
      → byte a' x ≡ byte a x
  pub protect_same :
      (start len flags : ℕ) (a a' : A) (x : ℕ)
      → loader.protect_range start len flags a ≡ done (ok tt, a')
      → byte a' x ≡ byte a x
  pub finalize_same :
      (ranges : List (ℕ × ℕ)) (a a' : A) (x : ℕ)
      → loader.finalize_image ranges a ≡ done (ok tt, a')
      → byte a' x ≡ byte a x
