-- ===== src/Load/Loader.antt =====
-- `load_elf_into` of kernel/src/proc/elf/mod.rs, for any `ElfLoader`. The address space `A` is the state.
-- `new_user_addr_space` and `choose_pie_base` are methods that `load_elf_into` does not call.
pub mod Steps
pub mod Image
pub mod Contents
pub mod Placed
pub mod Whole
use rv.Base.{ℕ, ◌-◌, bit_or, Bool, true, false, not, ◌&&◌, List, [], ◌∷◌, length}
use rv.Base.{Run, done, panic, Result, ok, err, ◌==◌, ltb, if◌then◌else◌}
use rv.Base.Stateful.{M, ◌>>=◌, ◌>>◌, pure, throw, lift, stateless, ensure, map_err}
use rv.Addr.Virt
use rv.Addr.Virt.{VirtAddr}
use rv.Load.Pages.{map_bounds}
use rv.Mmu.Entry.{contains}
use rv.Mmu.Entry.SegmentFlags
use rv.Load.{
  ElfLoadError, LoadSegment, LoadPolicy, LoadPlan, build_load_plan, bad_elf, unsupported,
  address_not_allowed, map_failed, copy_failed, zero_failed,
}

-- The methods of the trait, with the loader itself left out: an implementation's value is a record.
pub record ElfLoader (A E : Type 0) : Type 0 where
  pub validate_user_range : VirtAddr → ℕ → A → Run (Result E (Unit {0}))
  pub map_anonymous : VirtAddr → ℕ → ℕ → M A E (Unit {0})
  pub protect_range : VirtAddr → ℕ → ℕ → M A E (Unit {0})
  pub copy_to_user : VirtAddr → List ℕ → M A E (Unit {0})
  pub zero_user : VirtAddr → ℕ → M A E (Unit {0})
  pub finalize_image : List (VirtAddr × VirtAddr) → M A E (Unit {0})
  pub page_size : ℕ

-- `!policy.allow_wx && flags.contains(W) && flags.contains(X)`
abbrev pub breaks_wx : LoadPolicy → ℕ → Bool
breaks_wx policy f = not policy.allow_wx && contains f SegmentFlags.w && contains f SegmentFlags.x

module _ {A E : Type 0} (loader : ElfLoader A E) where
  -- The part after the segment's data is zeroed where there is one.
  unfoldable pub zero_tail : LoadSegment → M A ElfLoadError (Unit {0})
  zero_tail seg =
      if ltb (length seg.file_data) seg.mem_size
      then (do
        z_start ← lift (Virt.add seg.vaddr (length seg.file_data))
        map_err (λ _. zero_failed) (loader.zero_user z_start (seg.mem_size - length seg.file_data)))
      else pure tt

  -- Write permission goes where the segment does not ask for it.
  unfoldable pub drop_write : LoadSegment → VirtAddr → ℕ → ℕ → M A ElfLoadError (Unit {0})
  drop_write seg map_start len load_flags =
      if seg.flags == load_flags
      then pure tt
      else map_err (λ _. map_failed) (loader.protect_range map_start len seg.flags)

  -- The body of the loop.
  unfoldable pub load_segment : LoadPolicy → LoadSegment → M A ElfLoadError (Unit {0})
  load_segment policy seg = do
    ensure (not (breaks_wx policy seg.flags)) unsupported
    bounds ← lift (map_bounds loader.page_size seg)
    len ← lift (Virt.sub bounds.1 bounds.0)
    map_err (λ _. address_not_allowed)
        (λ a. stateless (loader.validate_user_range bounds.0 len a) a)
    let load_flags = bit_or seg.flags SegmentFlags.w
    map_err (λ _. map_failed) (loader.map_anonymous bounds.0 len load_flags)
    map_err (λ _. copy_failed) (loader.copy_to_user seg.vaddr seg.file_data)
    zero_tail seg
    drop_write seg bounds.0 len load_flags

  unfoldable pub load_segments : LoadPolicy → List LoadSegment → M A ElfLoadError (Unit {0})
  load_segments policy [] = pure tt
  load_segments policy (seg ∷ segs) = load_segment policy seg >> load_segments policy segs

  unfoldable pub load_elf_into : List ℕ → LoadPolicy → List LoadSegment → M A ElfLoadError LoadPlan
  load_elf_into bytes policy seg_buf = do
    plan ← stateless (build_load_plan bytes policy seg_buf)
    load_segments policy plan.segments
    map_err (λ _. unsupported) (loader.finalize_image [])
    pure plan
