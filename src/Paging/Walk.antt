-- ===== src/Paging/Walk.antt =====
-- Mapping a page, whichever of its tables are there: the processor's walk ends at the new entry.
use flurry.Prelude.{
  ℕ, ◌/◌, ◌%◌, ◌^◌, ◌<◌, ◌≤◌, ◌≡◌, ◌≢◌, refl, sym, ◌∙◌, inl, inr, bit_or, List, [], ◌∷◌, arith,
  ◌==◌, if◌then◌else◌, Bool-cases, All, length, ◌++◌,
}
use mathlib.Core.Path.{subst}
use flurry.Prelude.Bits.{bit_and_ones, bit_or_lt}
use flurry.Prelude.Words.{u16}
use flurry.Prelude.Memory.{Mem, write, write_ne}
use flurry.Pmm.Frames.{FreeList, Frames, FreeList-frame, InMap}
use flurry.Paging.{
  Paging, entry_at, set_word, index_at, get_pml1_entry, invlpg_if_needed, vmm_map, vmm_unmap,
}
use flurry.Paging.Present.{map-eq, unmap-eq, store-Stored}
use flurry.Paging.Tables.{slot, Linked, next_of, Framed, Page, OutOf, entry_at-slot}
use flurry.Paging.Descend.{descend, Walks, Sound, Descended, descend-Descended, descend-Walks}

-- The indices of a page in the three upper tables.
abbrev pub upper_indices : ℕ → List ℕ
upper_indices virt = index_at 39 virt ∷ index_at 30 virt ∷ index_at 21 virt ∷ []

index_at_lt : (shift virt : ℕ) → index_at shift virt < 512
index_at_lt shift virt = omega (arith, bit_and_ones 9 (virt / 2 ^ shift))

pub upper_indices_lt : (virt : ℕ) → All (λ i. i < 512) (upper_indices virt)
upper_indices_lt virt = (index_at_lt 39 virt, (index_at_lt 30 virt, (index_at_lt 21 virt, tt)))

get_pml1_entry-descend :
    (pml4 virt : ℕ) (s : Paging)
    → get_pml1_entry pml4 virt s
      ≡ (let d = descend (upper_indices virt) pml4 s in (entry_at d.1 d.0 (index_at 12 virt), d.1))
unfolding get_pml1_entry
get_pml1_entry-descend pml4 virt s = refl

-- A write to an entry of the table at the end is none to an entry on the way.
Walks-write :
    (m : Mem) (hhdm pml t index v : ℕ) (is : List ℕ)
    → index < 512
    → All (λ i. i < 512) is
    → Walks m hhdm pml is t
    → Walks (write m (slot hhdm t index) v) hhdm pml is t
Walks-write m hhdm pml t index v [] small all walks = walks
Walks-write m hhdm pml t index v (i ∷ is) small all walks =
    let e : write m (slot hhdm t index) v (slot hhdm pml i) ≡ m (slot hhdm pml i) =
      write_ne m (slot hhdm t index) v (slot hhdm pml i) (ground (arith, walks.2, all.0)) in
    rw e (
      walks.0,
      walks.1,
      walks.2,
      Walks-write m hhdm (next_of m (slot hhdm pml i)) t index v is small all.1 walks.3,
    )

-- A write to an entry of the table at the end leaves the way sound.
Sound-write :
    (m : Mem) (hhdm pml t index v : ℕ) (fs seen is : List ℕ)
    → index < 512
    → All (λ i. i < 512) is
    → Walks m hhdm pml is t
    → Sound m hhdm fs seen pml is
    → Sound (write m (slot hhdm t index) v) hhdm fs seen pml is
Sound-write m hhdm pml t index v fs seen [] small all walks sound = sound
Sound-write m hhdm pml t index v fs seen (i ∷ is) small all walks sound =
    let e : write m (slot hhdm t index) v (slot hhdm pml i) ≡ m (slot hhdm pml i) =
      write_ne m (slot hhdm t index) v (slot hhdm pml i) (ground (arith, walks.2, all.0)) in
    rw e (
      sound.0,
      sound.1,
      λ linked.
          Sound-write m hhdm (next_of m (slot hhdm pml i)) t index v fs (pml ∷ seen) is small all.1
            walks.3 (sound.2 linked),
    )

-- A page mapped: the walk from the top table ends in a table whose entry for the page is `v`, every
-- other entry that was present outside of the free frames is as it was, the free frames but the first
-- `taken` (none, if all tables were there) are a list again, the way is sound again, and the
-- translation is flushed if the tables are the active ones.
pub record Mapped (s : Paging) (hhdm pml4 virt v : ℕ) (fs : List ℕ) (s' : Paging) : Type 0 where
  pub table : ℕ
  pub walks : Walks s'.pmm.mem hhdm pml4 (upper_indices virt) table
  pub in_map : InMap hhdm table
  pub same_map : s'.pmm.hhdm_offset ≡ hhdm
  pub entry : s'.pmm.mem (slot hhdm table (index_at 12 virt)) ≡ v
  pub others :
      (w : ℕ)
      → OutOf hhdm fs w
      → Linked s.pmm.mem w
      → w ≢ slot hhdm table (index_at 12 virt)
      → s'.pmm.mem w ≡ s.pmm.mem w
  pub fs' : List ℕ
  pub list : FreeList s'.pmm.mem hhdm s'.pmm.free_list_head fs'
  pub frames : Frames hhdm fs'
  pub taken : List ℕ
  pub split : fs ≡ taken ++ fs'
  pub short : length taken ≤ 3
  pub none_new : (t : ℕ) → Walks s.pmm.mem hhdm pml4 (upper_indices virt) t → taken ≡ []
  pub sound : Sound s'.pmm.mem hhdm fs' [] pml4 (upper_indices virt)
  pub page : Page hhdm fs' table
  pub flush : s'.flushed ≡ (if pml4 == s.cr3 then virt ∷ s.flushed else s.flushed)

-- What a store does, as one equation for the memory.
stored-mem :
    (s : Paging) (pml4 virt p v : ℕ)
    → (invlpg_if_needed pml4 virt (set_word p v s)).pmm.mem ≡ write s.pmm.mem p v
unfolding invlpg_if_needed set_word
stored-mem s pml4 virt p v = elim (Bool-cases (pml4 == s.cr3)) [
  | inl e ↦ rw e refl
  | inr e ↦ rw e refl
]

stored-offset :
    (s : Paging) (pml4 virt p v : ℕ)
    → (invlpg_if_needed pml4 virt (set_word p v s)).pmm.hhdm_offset ≡ s.pmm.hhdm_offset
unfolding invlpg_if_needed set_word
stored-offset s pml4 virt p v = elim (Bool-cases (pml4 == s.cr3)) [
  | inl e ↦ rw e refl
  | inr e ↦ rw e refl
]

module _ (s : Paging) (hhdm pml4 virt v : ℕ) (fs : List ℕ)
    (d : Descended s hhdm pml4 (upper_indices virt) [] fs) where
  abbrev leaf : ℕ
  leaf = slot hhdm d.table (index_at 12 virt)

  abbrev stored : Paging
  stored = invlpg_if_needed pml4 virt (set_word leaf v d.s')

  stored-Mapped : Mapped s hhdm pml4 virt v fs stored
  stored-Mapped =
      let st = store-Stored d.s' pml4 virt leaf v in
      let mem = stored-mem d.s' pml4 virt leaf v in
      record {
        table = d.table;
        walks =
            subst (λ m. Walks m hhdm pml4 (upper_indices virt) d.table) (sym mem)
              (Walks-write d.s'.pmm.mem hhdm pml4 d.table (index_at 12 virt) v (upper_indices virt)
                (index_at_lt 12 virt) (upper_indices_lt virt) d.walks);
        in_map = d.page.0;
        same_map = stored-offset d.s' pml4 virt leaf v ∙ d.same_map;
        entry = st.word;
        others = λ w out linked ne. st.others w ne ∙ d.others w out linked;
        fs' = d.fs';
        list = rw st.list (
            FreeList-frame d.s'.pmm.mem stored.pmm.mem hhdm d.table d.s'.pmm.free_list_head d.fs'
              d.list d.frames d.page.1
              (λ w out. st.others w (ground (arith, out, index_at_lt 12 virt))));
        frames = d.frames;
        taken = d.taken;
        split = d.split;
        short = d.short;
        none_new = d.none_new;
        sound =
            subst (λ m. Sound m hhdm d.fs' [] pml4 (upper_indices virt)) (sym mem)
              (Sound-write d.s'.pmm.mem hhdm pml4 d.table (index_at 12 virt) v d.fs' []
                (upper_indices virt) (index_at_lt 12 virt) (upper_indices_lt virt) d.walks d.sound);
        page = d.page;
        flush = rw (sym d.same_cr3, sym d.same_flushed) st.flush;
      }

vmm_map-stored :
    (s : Paging) (hhdm pml4 virt phys flags : ℕ) (fs : List ℕ)
    (d : Descended s hhdm pml4 (upper_indices virt) [] fs)
    → vmm_map pml4 virt phys flags s
      ≡ stored s hhdm pml4 virt (bit_or (bit_or phys 1) (u16 flags)) fs d
vmm_map-stored s hhdm pml4 virt phys flags fs d =
    map-eq pml4 virt phys flags s
    ∙ rw
        (
          get_pml1_entry-descend pml4 virt s,
          d.returns,
          entry_at-slot d.s' hhdm d.table (index_at 12 virt) d.same_map d.page.0
              (index_at_lt 12 virt),
        )
        refl

-- With three free frames that lie apart, are aligned and below 2 ^ 52, a frame below 2 ^ 52 to map, and
-- tables that are sound along the page's way (those that are there are in the direct map, overlap no
-- free frame and no table above them), `vmm_map` makes the tables that are missing and maps the page:
-- the processor's walk ends at an entry that is the frame, the present bit and the low 16 bits of the
-- flags, every other entry that was present outside of the free frames is as it was, the free frames
-- but at most three, the first, are a list again, the way is sound again, and the translation is
-- flushed if the tables are the active ones. The entry has no bit above the frame's 52, the no-execute
-- bit 63 among them, whatever the flags.
pub vmm_map-Mapped :
    (s : Paging) (pml4 virt phys flags : ℕ) (fs : List ℕ)
    → phys < 2 ^ 52
    → FreeList s.pmm.mem s.pmm.hhdm_offset s.pmm.free_list_head fs
    → Frames s.pmm.hhdm_offset fs
    → All Framed fs
    → 3 ≤ length fs
    → Sound s.pmm.mem s.pmm.hhdm_offset fs [] pml4 (upper_indices virt)
    → Mapped s s.pmm.hhdm_offset pml4 virt
        (bit_or (bit_or phys 1) (flags % 2 ^ 16))
        fs
        (vmm_map pml4 virt phys flags s)
      × (bit_or (bit_or phys 1) (flags % 2 ^ 16) < 2 ^ 52)
vmm_map-Mapped s pml4 virt phys flags fs small list frames framed enough sound =
    let d =
      descend-Descended s.pmm.hhdm_offset (upper_indices virt) s pml4 [] fs refl list frames framed
        (upper_indices_lt virt) enough sound tt in
    (
      rw (vmm_map-stored s s.pmm.hhdm_offset pml4 virt phys flags fs d)
          (stored-Mapped s s.pmm.hhdm_offset pml4 virt (bit_or (bit_or phys 1) (u16 flags)) fs d),
      bit_or_lt 52 (bit_or phys 1) (flags % 2 ^ 16) (bit_or_lt 52 phys 1 small (omega arith))
          (omega arith),
    )

-- A page unmapped where it was mapped: the walk still ends in the table, whose entry for the page is 0,
-- every other word is as it was, and the translation is flushed if the tables are the active ones.
pub record Unmapped (s : Paging) (hhdm pml4 virt table : ℕ) (s' : Paging) : Type 0 where
  pub walks : Walks s'.pmm.mem hhdm pml4 (upper_indices virt) table
  pub entry : s'.pmm.mem (slot hhdm table (index_at 12 virt)) ≡ 0
  pub others : (w : ℕ) → w ≢ slot hhdm table (index_at 12 virt) → s'.pmm.mem w ≡ s.pmm.mem w
  pub flush : s'.flushed ≡ (if pml4 == s.cr3 then virt ∷ s.flushed else s.flushed)

unmap-Unmapped :
    (s : Paging) (hhdm pml4 virt table : ℕ)
    → s.pmm.hhdm_offset ≡ hhdm
    → InMap hhdm table
    → Walks s.pmm.mem hhdm pml4 (upper_indices virt) table
    → Unmapped s hhdm pml4 virt table (vmm_unmap pml4 virt s)
unmap-Unmapped s hhdm pml4 virt table map in_map walks =
    let leaf = slot hhdm table (index_at 12 virt) in
    let st = store-Stored s pml4 virt leaf 0 in
    let mem = stored-mem s pml4 virt leaf 0 in
    rw
      (
        unmap-eq pml4 virt s,
        get_pml1_entry-descend pml4 virt s,
        descend-Walks s hhdm pml4 table (upper_indices virt) map (upper_indices_lt virt) walks,
        entry_at-slot s hhdm table (index_at 12 virt) map in_map (index_at_lt 12 virt),
      )
      (record {
        walks =
            subst (λ m. Walks m hhdm pml4 (upper_indices virt) table) (sym mem)
              (Walks-write s.pmm.mem hhdm pml4 table (index_at 12 virt) 0 (upper_indices virt)
                (index_at_lt 12 virt) (upper_indices_lt virt) walks);
        entry = st.word;
        others = st.others;
        flush = st.flush;
      })

-- A page mapped and unmapped again: the processor's walk ends at an entry that is 0, and every other
-- entry that was present outside of the free frames is as it was before both.
pub record Undone (s : Paging) (hhdm pml4 virt : ℕ) (fs : List ℕ) (s' : Paging) : Type 0 where
  pub table : ℕ
  pub walks : Walks s'.pmm.mem hhdm pml4 (upper_indices virt) table
  pub entry : s'.pmm.mem (slot hhdm table (index_at 12 virt)) ≡ 0
  pub others :
      (w : ℕ)
      → OutOf hhdm fs w
      → Linked s.pmm.mem w
      → w ≢ slot hhdm table (index_at 12 virt)
      → s'.pmm.mem w ≡ s.pmm.mem w

-- Where `vmm_map` can map the page as above (three free frames that lie apart, are aligned and below
-- 2 ^ 52, a frame below 2 ^ 52 to map, tables that are sound along the page's way), `vmm_unmap` of the
-- page after it takes the mapping back: the processor's walk ends at an entry that is 0, and every
-- other entry that was present outside of the free frames is as it was before both calls.
pub vmm_unmap-vmm_map :
    (s : Paging) (pml4 virt phys flags : ℕ) (fs : List ℕ)
    → phys < 2 ^ 52
    → FreeList s.pmm.mem s.pmm.hhdm_offset s.pmm.free_list_head fs
    → Frames s.pmm.hhdm_offset fs
    → All Framed fs
    → 3 ≤ length fs
    → Sound s.pmm.mem s.pmm.hhdm_offset fs [] pml4 (upper_indices virt)
    → Undone s s.pmm.hhdm_offset pml4 virt fs (vmm_unmap pml4 virt (vmm_map pml4 virt phys flags s))
vmm_unmap-vmm_map s pml4 virt phys flags fs small list frames framed enough sound =
    let m = (vmm_map-Mapped s pml4 virt phys flags fs small list frames framed enough sound).0 in
    let u =
      unmap-Unmapped (vmm_map pml4 virt phys flags s) s.pmm.hhdm_offset pml4 virt m.table m.same_map
        m.in_map m.walks in
    record {
      table = m.table;
      walks = u.walks;
      entry = u.entry;
      others = λ w out linked ne. u.others w ne ∙ m.others w out linked ne;
    }
