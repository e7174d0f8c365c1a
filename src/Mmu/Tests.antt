-- ===== src/Mmu/Tests.antt =====
-- The page tables of a machine with memory from 0x8000_0000 on, whose first page is an empty root table.
use rv.Base.{ℕ, ◌≡◌, ◌⊎◌, refl, arith}
use rv.Base.{true, Option, some, none, Run, done, ◌==◌, if◌then◌else◌}
use rv.Allocator.Bump.{Bump}
use rv.Allocator.Bump.Frames
use rv.Allocator.Bump.Frames.{phys_to_virt_offset}
use rv.Mmu.Entry.EntryFlags
use rv.Mmu.Entry.{is_leaf, kb, to_table_level, size}
use rv.Mmu.Entry
use rv.Addr.Phys
use rv.Addr.Virt
use rv.Base.{panic, ok, err}
use rv.Mmu.Space
use rv.Mmu.Walker.{map}
use rv.Mmu.Lookup.{virt_to_phys}
use rv.Mmu.Entry.Links.{zero-not_valid}
use rv.Mmu.Space.{Space}
use rv.Mmu.Tree.{IsFrameAllocator, IsSpace}
use rv.Mmu.BumpFrames.{bump_frames, bump_frames_laws, new_frames-IsFrameAllocator, IsPaged}
use rv.Mmu.Walker.Maps.{Mapped, Failed, map-outcome}

new_frames-IsFrameAllocator_example :
    (b : Bump) × (Frames.new 0x8000_0000 0x8080_0000 ≡ done b)
    × ((laws : IsFrameAllocator (bump_frames 0x8000_0000) 0x8000_0000) × laws.Valid b)
new_frames-IsFrameAllocator_example =
    new_frames-IsFrameAllocator 0x8000_0000 0x8000_0000 0x8080_0000 (omega arith) (omega arith) refl
      (omega arith) (omega arith)

abbrev pages : Bump
pages = record { start = 0x8000_0000; end = 0x8080_0000; ptr = 0x8000_1000; allocated = 1 }

abbrev empty_root : Space Bump
empty_root = record { mem = λ _ _. 0; frames = pages }

abbrev root_only : ℕ → Option ℕ
root_only x = if x == phys_to_virt_offset then some 2 else none

pages-IsPaged : IsPaged 0x8000_0000 pages
pages-IsPaged = omega arith

empty_root-IsSpace : IsSpace (bump_frames_laws 0x8000_0000) root_only empty_root
unfolding bump_frames_laws
empty_root-IsSpace = record {
  tree = record {
    word = λ t i. omega arith;
    child_in_map = λ t k i r v n. absurd (zero-not_valid 0 refl v);
    child_role = λ t k i r v n. absurd (zero-not_valid 0 refl v);
  };
  valid = pages-IsPaged;
  used = λ t k r f. ground arith;
}

kernel-is_leaf : is_leaf EntryFlags.kernel ≡ true
unfolding is_leaf
kernel-is_leaf = refl

map-outcome_example :
    Mapped
      (bump_frames_laws 0x8000_0000)
      root_only
      empty_root
      phys_to_virt_offset
      0x1000
      0x8020_0000
      kb
      EntryFlags.kernel
    ⊎ Failed
        (bump_frames_laws 0x8000_0000)
        root_only
        empty_root
        phys_to_virt_offset
        0x1000
        0x8020_0000
        kb
        EntryFlags.kernel
unfolding to_table_level size
map-outcome_example =
    map-outcome (bump_frames_laws 0x8000_0000) root_only empty_root phys_to_virt_offset 0x1000
      0x8020_0000 kb EntryFlags.kernel empty_root-IsSpace refl
      (λ v. absurd (zero-not_valid 0 refl v)) (omega arith) refl (omega arith) kernel-is_leaf

-- The address 0x1234 after the page at 0x1000 has been mapped to the frame at 0x8020_0000.
abbrev translate_after_map : Run (Option ℕ)
translate_after_map =
    elim (map (bump_frames 0x8000_0000) 0x8000_0000 phys_to_virt_offset 0x1000 0x8020_0000 kb
      EntryFlags.kernel empty_root) [
        | panic ↦ panic
        | done (ok _, s) ↦ virt_to_phys 0x8000_0000 s.mem phys_to_virt_offset 0x1234
        | done (err _, s) ↦ panic
      ]

translates_offset : translate_after_map ≡ done (some 0x8020_0234)
unfolding map virt_to_phys to_table_level rv.Mmu.Walker.next_table Entry.is_valid Frames.alloc
    Virt.add Space.put_table Space.put Virt.vpn2 Entry.set_ppn Entry.set_flags Phys.page_index
    is_leaf Phys.from_ppn Entry.get_ppn Virt.vpn1 Virt.vpn0 Entry.write_flags Virt.new
    Virt.new_truncated Virt.page_offset Virt.try_new Frames.phys_to_virt Entry.flags
    rv.Mmu.Lookup.add_vpns rv.Mmu.Lookup.leaf_addr rv.Mmu.Lookup.lookup rv.Mmu.Lookup.table_va
    rv.Mmu.Lookup.vpn rv.Mmu.Walker.alloc_frame rv.Mmu.Walker.descend rv.Mmu.Walker.new_table
    rv.Mmu.Walker.set_leaf rv.Mmu.Walker.table_of
translates_offset = refl
