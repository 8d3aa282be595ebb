-- ===== src/Paging.antt =====
-- The page tables, kernel/memory/paging.c, and the calls of kernel/memory/vmm.c that only pass on to
-- it. Tables are words of memory seen through the direct map; a table that is missing is taken from
-- the page frames. The flushing of one translation is the list `flushed`, newest first.
pub mod Present
pub mod Tables
pub mod Descend
pub mod Walk
use flurry.Prelude.{
  ℕ, ◌+◌, ◌*◌, ◌/◌, ◌%◌, ◌^◌, bit_and, bit_or, Bool, not, ◌==◌, if◌then◌else◌, List, [], ◌∷◌,
}
use flurry.Prelude.Words.{u16, add64}
use flurry.Prelude.Memory.{Mem, write}
use flurry.Pmm.{Pmm, pmm_alloc}

abbrev pub vm_flag_present : ℕ
vm_flag_present = 1

abbrev pub vm_flag_write : ℕ
vm_flag_write = 2

abbrev pub vm_flag_user : ℕ
vm_flag_user = 4

abbrev pub phys_addr_mask : ℕ
phys_addr_mask = 0x000f_ffff_ffff_f000

-- The frames with the memory, the same direct map for both; the active top table; the flushes.
pub record Paging : Type 0 where
  pub pmm : Pmm
  pub cr3 : ℕ
  pub flushed : List ℕ

-- The offset of paging.c is that of the frames, too: `kinit` hands the same one to both.
unfoldable pub paging_set_hhdm_offset : ℕ → Paging → Paging
paging_set_hhdm_offset offset s = record s { pmm = record (s.pmm) { hhdm_offset = offset } }

-- The word of entry `index` of the table at physical address `pml`.
unfoldable pub entry_at : Paging → ℕ → ℕ → ℕ
entry_at s pml index = add64 (add64 pml s.pmm.hhdm_offset) (8 * index)

unfoldable pub is_entry_present : ℕ → Bool
is_entry_present entry = not (bit_and entry vm_flag_present == 0)

unfoldable pub set_word : ℕ → ℕ → Paging → Paging
set_word p v s = record s { pmm = record (s.pmm) { mem = write s.pmm.mem p v } }

-- The entry of a new table: present, writable, for the user.
unfoldable pub table_entry : ℕ → ℕ
table_entry addr = bit_or (bit_or (bit_or addr vm_flag_present) vm_flag_write) vm_flag_user

unfoldable pub get_next_pml : ℕ → ℕ → Paging → ℕ × Paging
unfolding entry_at is_entry_present set_word table_entry
get_next_pml pml pml_index s =
    let entry = entry_at s pml pml_index in
    let frame = pmm_alloc s.pmm in
    if is_entry_present (s.pmm.mem entry) then (bit_and (s.pmm.mem entry) phys_addr_mask, s) else (
      bit_and (table_entry (frame.0)) phys_addr_mask,
      set_word entry (table_entry (frame.0)) (record s { pmm = frame.1 }),
    )

abbrev pub index_at : ℕ → ℕ → ℕ
index_at shift virt = u16 (bit_and (virt / 2 ^ shift) 0x1ff)

-- The address of the last table's entry.
unfoldable pub get_pml1_entry : ℕ → ℕ → Paging → ℕ × Paging
unfolding get_next_pml entry_at
get_pml1_entry pml4 virt s =
    let t3 = get_next_pml pml4 (index_at 39 virt) s in
    let t2 = get_next_pml t3.0 (index_at 30 virt) t3.1 in
    let t1 = get_next_pml t2.0 (index_at 21 virt) t2.1 in
    (entry_at t1.1 t1.0 (index_at 12 virt), t1.1)

unfoldable pub invlpg_if_needed : ℕ → ℕ → Paging → Paging
invlpg_if_needed pml4 virt s = if pml4 == s.cr3 then record s { flushed = virt ∷ s.flushed } else s

unfoldable pub paging_load_pml4 : ℕ → Paging → Paging
paging_load_pml4 pml4 s = record s { cr3 = pml4 }

-- `flags` is a uint16_t.
unfoldable pub paging_map_page : ℕ → ℕ → ℕ → ℕ → Paging → Paging
unfolding get_pml1_entry set_word invlpg_if_needed
paging_map_page pml4 virt phys flags s =
    let entry = get_pml1_entry pml4 virt s in
    invlpg_if_needed pml4 virt
      (set_word entry.0 (bit_or (bit_or phys vm_flag_present) (u16 flags)) entry.1)

unfoldable pub paging_unmap_page : ℕ → ℕ → Paging → Paging
unfolding get_pml1_entry set_word invlpg_if_needed
paging_unmap_page pml4 virt s =
    let entry = get_pml1_entry pml4 virt s in
    invlpg_if_needed pml4 virt (set_word entry.0 0 entry.1)

-- `vmm_map` hands its uint64_t flags to the uint16_t parameter of `paging_map_page`.
unfoldable pub vmm_map : ℕ → ℕ → ℕ → ℕ → Paging → Paging
unfolding paging_map_page
vmm_map pml4 virt phys flags s = paging_map_page pml4 virt phys flags s

unfoldable pub vmm_unmap : ℕ → ℕ → Paging → Paging
unfolding paging_unmap_page
vmm_unmap pml4 virt s = paging_unmap_page pml4 virt s
