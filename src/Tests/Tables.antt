-- ===== src/Tests/Tables.antt =====
-- Concrete inputs for the theorems on page tables.
use flurry.Prelude.{ℕ, List, ◌∷◌, ◌==◌, if◌then◌else◌, ◌+◌, ◌%◌, ◌^◌, ◌<◌, refl, bit_or, [], arith}
use flurry.Paging.Descend.{Sound}
use flurry.Paging.Walk.{upper_indices, Mapped, vmm_map-Mapped, Undone, vmm_unmap-vmm_map}
use flurry.Paging.{Paging, is_entry_present, vmm_map, vmm_unmap}

-- An empty top table at 0x8000, and three free frames behind each other.
abbrev bare : Paging
bare = record {
  pmm = record {
    mem = λ a.
        if a == 0xffff_8000_0000_1000
        then 0x1000
        else if a == 0xffff_8000_0000_1008
        then 0xffff_8000_0000_2000
        else if a == 0xffff_8000_0000_2000
        then 0x2000
        else if a == 0xffff_8000_0000_2008
        then 0xffff_8000_0000_3000
        else if a == 0xffff_8000_0000_3000
        then 0x3000
        else 0;
    hhdm_offset = 0xffff_8000_0000_0000;
    free_list_head = 0xffff_8000_0000_1000;
  };
  cr3 = 0x8000;
  flushed = [];
}

abbrev three : List ℕ
three = 0x1000 ∷ 0x2000 ∷ 0x3000 ∷ []

bare-Sound :
    Sound bare.pmm.mem bare.pmm.hhdm_offset three [] 0x8000 (upper_indices 0xffff_8100_0000_0000)
unfolding is_entry_present
bare-Sound = (omega arith, tt, λ linked. cc linked)

vmm_map-Mapped_example :
    Mapped bare 0xffff_8000_0000_0000 0x8000 0xffff_8100_0000_0000
      (bit_or (bit_or 0x7000 1) ((2 ^ 63 + 2) % 2 ^ 16))
      three
      (vmm_map 0x8000 0xffff_8100_0000_0000 0x7000 (2 ^ 63 + 2) bare)
    × (bit_or (bit_or 0x7000 1) ((2 ^ 63 + 2) % 2 ^ 16) < 2 ^ 52)
vmm_map-Mapped_example =
    vmm_map-Mapped bare 0x8000 0xffff_8100_0000_0000 0x7000 (2 ^ 63 + 2) three (omega arith)
      (refl, refl, (refl, refl, (refl, refl, refl))) (omega arith) (omega arith) (omega arith)
      bare-Sound

vmm_unmap-vmm_map_example : Undone bare 0xffff_8000_0000_0000 0x8000 0xffff_8100_0000_0000 three (
    vmm_unmap 0x8000 0xffff_8100_0000_0000
      (vmm_map 0x8000 0xffff_8100_0000_0000 0x7000 (2 ^ 63 + 2) bare))
vmm_unmap-vmm_map_example =
    vmm_unmap-vmm_map bare 0x8000 0xffff_8100_0000_0000 0x7000 (2 ^ 63 + 2) three (omega arith)
      (refl, refl, (refl, refl, (refl, refl, refl))) (omega arith) (omega arith) (omega arith)
      bare-Sound
