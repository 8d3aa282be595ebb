-- ===== src/Paging/Present.antt =====
-- Mapping where the tables are there.
use flurry.Prelude.{
  ℕ, ◌%◌, ◌^◌, ◌≡◌, ◌≢◌, refl, bit_and, bit_or, true, ◌==◌, if◌then◌else◌, arith, ◌∷◌, Bool-cases,
  inl, inr, ◌<◌,
}
use flurry.Prelude.Bits.{bit_or_lt}
use flurry.Prelude.Words.{u16}
use flurry.Prelude.Memory.{write, write_self, write_ne}
use flurry.Pmm.{pmm_alloc}
use flurry.Paging.{
  Paging, entry_at, is_entry_present, set_word, table_entry, get_next_pml, index_at, get_pml1_entry,
  invlpg_if_needed, paging_map_page, paging_unmap_page, vmm_map, vmm_unmap, phys_addr_mask,
}

-- The table behind an entry, as the processor takes it.
abbrev pub below : Paging → ℕ → ℕ → ℕ
below s pml index = bit_and (s.pmm.mem (entry_at s pml index)) phys_addr_mask

abbrev pub pml3_of : Paging → ℕ → ℕ → ℕ
pml3_of s pml4 virt = below s pml4 (index_at 39 virt)

abbrev pub pml2_of : Paging → ℕ → ℕ → ℕ
pml2_of s pml4 virt = below s (pml3_of s pml4 virt) (index_at 30 virt)

abbrev pub pml1_of : Paging → ℕ → ℕ → ℕ
pml1_of s pml4 virt = below s (pml2_of s pml4 virt) (index_at 21 virt)

abbrev pub leaf_of : Paging → ℕ → ℕ → ℕ
leaf_of s pml4 virt = entry_at s (pml1_of s pml4 virt) (index_at 12 virt)

abbrev pub Present : Paging → ℕ → ℕ → Type 0
Present s pml index = is_entry_present (s.pmm.mem (entry_at s pml index)) ≡ true

-- The three upper tables on the way to a page are there.
pub record HasTables (s : Paging) (pml4 virt : ℕ) : Type 0 where
  pub upper : Present s pml4 (index_at 39 virt)
  pub middle : Present s (pml3_of s pml4 virt) (index_at 30 virt)
  pub lower : Present s (pml2_of s pml4 virt) (index_at 21 virt)

get_next_pml-eq :
    (pml index : ℕ) (s : Paging)
    → get_next_pml pml index s ≡ (
        if is_entry_present (s.pmm.mem (entry_at s pml index)) then (below s pml index, s) else (
          bit_and (table_entry ((pmm_alloc s.pmm).0)) phys_addr_mask,
          set_word
              (entry_at s pml index)
              (table_entry ((pmm_alloc s.pmm).0))
              (record s { pmm = (pmm_alloc s.pmm).1 }),
        ))
unfolding get_next_pml
get_next_pml-eq pml index s = refl

get_next_pml-Present :
    (pml index : ℕ) (s : Paging)
    → Present s pml index
    → get_next_pml pml index s ≡ (below s pml index, s)
get_next_pml-Present pml index s h = rw (get_next_pml-eq pml index s, h) refl

get_pml1_entry-HasTables :
    (pml4 virt : ℕ) (s : Paging)
    → HasTables s pml4 virt
    → get_pml1_entry pml4 virt s ≡ (leaf_of s pml4 virt, s)
unfolding get_pml1_entry
get_pml1_entry-HasTables pml4 virt s h =
    rw
      (
        get_next_pml-Present pml4 (index_at 39 virt) s h.upper,
        get_next_pml-Present (pml3_of s pml4 virt) (index_at 30 virt) s h.middle,
        get_next_pml-Present (pml2_of s pml4 virt) (index_at 21 virt) s h.lower,
      )
      refl

-- One word written, and the translation flushed if the tables are the active ones.
pub record Stored (s : Paging) (pml4 virt p v : ℕ) (s' : Paging) : Type 0 where
  pub word : s'.pmm.mem p ≡ v
  pub others : (a : ℕ) → a ≢ p → s'.pmm.mem a ≡ s.pmm.mem a
  pub flush : s'.flushed ≡ (if pml4 == s.cr3 then virt ∷ s.flushed else s.flushed)
  pub list : s'.pmm.free_list_head ≡ s.pmm.free_list_head

pub store-Stored :
    (s : Paging) (pml4 virt p v : ℕ)
    → Stored s pml4 virt p v (invlpg_if_needed pml4 virt (set_word p v s))
unfolding invlpg_if_needed set_word
store-Stored s pml4 virt p v =
    let word = write_self s.pmm.mem p v in
    let others : (a : ℕ) → a ≢ p → write s.pmm.mem p v a ≡ s.pmm.mem a =
      λ a h. write_ne s.pmm.mem p v a h in
    elim (Bool-cases (pml4 == s.cr3)) [
      | inl e ↦ rw e (record { word = word; others = others; flush = rw e refl; list = refl })
      | inr e ↦ rw e (record { word = word; others = others; flush = rw e refl; list = refl })
    ]

pub map-eq :
    (pml4 virt phys flags : ℕ) (s : Paging)
    → vmm_map pml4 virt phys flags s
      ≡ invlpg_if_needed pml4 virt (
          set_word
            ((get_pml1_entry pml4 virt s).0)
            (bit_or (bit_or phys 1) (u16 flags))
            ((get_pml1_entry pml4 virt s).1))
unfolding vmm_map paging_map_page
map-eq pml4 virt phys flags s = refl

pub unmap-eq :
    (pml4 virt : ℕ) (s : Paging)
    → vmm_unmap pml4 virt s
      ≡ invlpg_if_needed pml4 virt
          (set_word ((get_pml1_entry pml4 virt s).0) 0 ((get_pml1_entry pml4 virt s).1))
unfolding vmm_unmap paging_unmap_page
unmap-eq pml4 virt s = refl

-- Where the tables are there, `vmm_map` writes the one entry that the processor finds for the page:
-- the frame, the present bit and the low 16 bits of the flags. The entry has no bit above the frame's
-- 52, the no-execute bit 63 among them, whatever the flags. The active tables' translation is flushed.
pub vmm_map-Stored :
    (pml4 virt phys flags : ℕ) (s : Paging)
    → HasTables s pml4 virt
    → phys < 2 ^ 52
    → Stored s pml4 virt
        (leaf_of s pml4 virt)
        (bit_or (bit_or phys 1) (flags % 2 ^ 16))
        (vmm_map pml4 virt phys flags s)
      × (bit_or (bit_or phys 1) (flags % 2 ^ 16) < 2 ^ 52)
vmm_map-Stored pml4 virt phys flags s tables small = (
  rw (map-eq pml4 virt phys flags s, get_pml1_entry-HasTables pml4 virt s tables)
      (store-Stored s pml4 virt (leaf_of s pml4 virt) (bit_or (bit_or phys 1) (flags % 2 ^ 16))),
  bit_or_lt 52 (bit_or phys 1) (flags % 2 ^ 16) (bit_or_lt 52 phys 1 small (omega arith))
      (omega arith),
)

-- Where the tables are there, `vmm_unmap` clears the one entry that the processor finds for the page,
-- and flushes the active tables' translation.
pub vmm_unmap-Stored :
    (pml4 virt : ℕ) (s : Paging)
    → HasTables s pml4 virt
    → Stored s pml4 virt (leaf_of s pml4 virt) 0 (vmm_unmap pml4 virt s)
vmm_unmap-Stored pml4 virt s tables =
    rw (unmap-eq pml4 virt s, get_pml1_entry-HasTables pml4 virt s tables)
      (store-Stored s pml4 virt (leaf_of s pml4 virt) 0)
