-- ===== src/Mmu/Ranges/Tests.antt =====
-- Tables in which every entry is a leaf that may be read; one page gets write permission.
use rv.Base.{ℕ, ◌≡◌, inl, refl, arith, true, done, ok}
use rv.Base.Word.{is_power_of_two}
use rv.Addr.Align
use rv.Addr.Virt
use rv.Mmu.Entry.{is_valid, is_leaf, write_flags}
use rv.Mmu.Lookup.{vpn, pte_ptr, get_pte_ptr, virt_to_phys}
use rv.Mmu.Space.{Memory, Space, put}
use rv.Mmu.Ranges.{update_page, update_pages, update_mapping}
use rv.Mmu.Ranges.Bounds.{page_range}
use rv.Mmu.Ranges.Updates.{IsLeafy}
use rv.Mmu.Ranges.Pages.{Given, update_mapping-virt_to_phys}
use rv.Mmu.Ranges.Given.{update_mapping-Given}

abbrev readable : Memory
readable t i = 3

abbrev space : Space ℕ
space = record { mem = readable; frames = 0 }

abbrev updated : Space ℕ
updated = record { mem = put readable 7 0 (write_flags 3 6); frames = 0 }

readable-IsLeafy : IsLeafy 0 7 readable
unfolding is_leaf
readable-IsLeafy = record { word = λ t i. omega arith; ends = λ v t i e. refl }

writes-is_leaf : is_leaf 6 ≡ true
unfolding is_leaf
writes-is_leaf = refl

ran : update_mapping 0 7 0x1000 16 6 space ≡ done (ok tt, updated)
unfolding update_mapping update_pages update_page get_pte_ptr pte_ptr vpn Virt.vpn2 is_valid is_leaf
    page_range Virt.align_down Virt.align_up Virt.add Virt.sub Virt.new Virt.try_new
    Align.align_down Align.align_up is_power_of_two
ran = refl

update_mapping-virt_to_phys_example :
    virt_to_phys 0 updated.mem 7 0x1234 ≡ virt_to_phys 0 space.mem 7 0x1234
update_mapping-virt_to_phys_example =
    update_mapping-virt_to_phys 0 7 6 0x1000 16 (omega arith) writes-is_leaf space updated
      readable-IsLeafy (ok tt) ran 0x1234

-- The address 0x1ab0 lies in the page of the range.
update_mapping-Given_example : Given 0 7 6 updated.mem 0x1ab0
update_mapping-Given_example =
    update_mapping-Given 0 7 6 0x1000 16 (omega arith) writes-is_leaf space updated readable-IsLeafy
      (inl (omega arith)) ran 0x1ab0 (omega arith) (omega arith)
