-- ===== src/Paging/Tables.antt =====
-- One step down the page tables, with a table of the direct map and frames for those that are missing.
use flurry.Prelude.{
  ℕ, ◌+◌, ◌-◌, ◌*◌, ◌/◌, ◌%◌, ◌^◌, ◌<◌, ◌≤◌, ◌≡◌, ◌≢◌, refl, sym, ◌∙◌, ◌⊎◌, true, false, bit_and,
  bit_or, List, [], ◌∷◌, arith, if◌then◌else◌, All,
}
use mathlib.Core.Path.{subst}
use flurry.Prelude.Bits.{bit_or_low, bit_or-zero, bit_and_high, bit_and_ones}
use flurry.Prelude.Memory.{Mem, write, write_self, write_ne}
use flurry.Pmm.{Pmm, pmm_alloc}
use flurry.Pmm.Frames.{FreeList, Frames, InMap, Apart, FreeList-frame}
use flurry.Pmm.Alloc.{Taken, pmm_alloc-Taken}
use flurry.Paging.{
  Paging, entry_at, is_entry_present, set_word, table_entry, get_next_pml, phys_addr_mask,
}

-- The address of entry `index` in the direct map.
abbrev pub slot : ℕ → ℕ → ℕ → ℕ
slot hhdm pml index = pml + hhdm + 8 * index

abbrev pub Linked : Mem → ℕ → Type 0
Linked m w = is_entry_present (m w) ≡ true

-- The table or frame that an entry leads to.
abbrev pub next_of : Mem → ℕ → ℕ
next_of m w = bit_and (m w) phys_addr_mask

-- A frame that an entry can hold.
abbrev pub Framed : ℕ → Type 0
Framed a = (a % 4096 ≡ 0) × (a < 2 ^ 52)

-- A table in the direct map that is no free frame.
abbrev pub Page : ℕ → List ℕ → ℕ → Type 0
Page hhdm fs pml = InMap hhdm pml × All (Apart pml) fs

-- A word that lies in no free frame.
abbrev pub OutOf : ℕ → List ℕ → ℕ → Type 0
OutOf hhdm fs w = All (λ a. (w < a + hhdm) ⊎ (a + hhdm + 4096 ≤ w)) fs

pub OutOf-Apart :
    (hhdm pml w : ℕ) (fs : List ℕ)
    → All (Apart pml) fs
    → pml + hhdm ≤ w
    → w < pml + hhdm + 4096
    → OutOf hhdm fs w
OutOf-Apart hhdm pml w [] apart lo hi = tt
OutOf-Apart hhdm pml w (a ∷ fs) apart lo hi =
    (ground (arith, apart.0), OutOf-Apart hhdm pml w fs apart.1 lo hi)

pub entry_at-slot :
    (s : Paging) (hhdm pml index : ℕ)
    → s.pmm.hhdm_offset ≡ hhdm
    → InMap hhdm pml
    → index < 512
    → entry_at s pml index ≡ slot hhdm pml index
unfolding entry_at
entry_at-slot s hhdm pml index map in_map small = omega (arith, map, in_map.1)

-- An entry made for a table leads to it.
table_entry_shape : (a : ℕ) → Framed a → table_entry a ≡ a + 7
unfolding table_entry
table_entry_shape a f =
    let one : bit_or a 1 ≡ a + 1 = omega (arith, f.0, bit_or_low a 1, bit_or-zero (a / 2)) in
    let two : bit_or (a + 1) 2 ≡ a + 3 = omega (
      arith,
      f.0,
      bit_or_low (a + 1) 2,
      bit_or_low ((a + 1) / 2) 1,
      bit_or-zero ((a + 1) / 2 / 2),
    ) in
    let four : bit_or (a + 3) 4 ≡ a + 7 = omega (
      arith,
      f.0,
      bit_or_low (a + 3) 4,
      bit_or_low ((a + 3) / 2) 2,
      bit_or_low ((a + 3) / 2 / 2) 1,
      bit_or-zero ((a + 3) / 2 / 2 / 2),
    ) in
    rw (one, two, four) refl

pub table_entry_leads : (a : ℕ) → Framed a → bit_and (table_entry a) phys_addr_mask ≡ a
table_entry_leads a f =
    rw (table_entry_shape a f)
      (omega (arith, f, bit_and_high 12 (a + 7) (2 ^ 40 - 1), bit_and_ones 40 ((a + 7) / 2 ^ 12)))

pub table_entry_present : (a : ℕ) → Framed a → is_entry_present (table_entry a) ≡ true
unfolding is_entry_present
table_entry_present a f = rw (table_entry_shape a f) (ground (arith, f, bit_and_ones 1 (a + 7)))

get_next_pml-eq :
    (pml index : ℕ) (s : Paging)
    → get_next_pml pml index s ≡ (
        let entry = entry_at s pml index in
        let frame = pmm_alloc s.pmm in
        if is_entry_present (s.pmm.mem entry)
        then (bit_and (s.pmm.mem entry) phys_addr_mask, s)
        else (
          bit_and (table_entry (frame.0)) phys_addr_mask,
          set_word entry (table_entry (frame.0)) (record s { pmm = frame.1 }),
        ))
unfolding get_next_pml
get_next_pml-eq pml index s = refl

pub get_next_pml-there :
    (s : Paging) (hhdm pml index : ℕ)
    → s.pmm.hhdm_offset ≡ hhdm
    → InMap hhdm pml
    → index < 512
    → Linked s.pmm.mem (slot hhdm pml index)
    → get_next_pml pml index s ≡ (next_of s.pmm.mem (slot hhdm pml index), s)
get_next_pml-there s hhdm pml index map in_map small linked =
    get_next_pml-eq pml index s ∙ rw (entry_at-slot s hhdm pml index map in_map small, linked) refl

-- A table made of a free frame: the frame is off the list and holds no entry, the entry leads to it, and
-- no other word outside of the frame is changed.
pub record Made (s : Paging) (hhdm w a : ℕ) (fs : List ℕ) (s' : Paging) : Type 0 where
  pub same_map : s'.pmm.hhdm_offset ≡ hhdm
  pub same_cr3 : s'.cr3 ≡ s.cr3
  pub same_flushed : s'.flushed ≡ s.flushed
  pub frames : FreeList s'.pmm.mem hhdm s'.pmm.free_list_head fs
  pub linked : Linked s'.pmm.mem w
  pub leads : next_of s'.pmm.mem w ≡ a
  pub empty : (x : ℕ) → a + hhdm ≤ x → x < a + hhdm + 4096 → s'.pmm.mem x ≡ 0
  pub others : (x : ℕ) → x ≢ w → (x < a + hhdm) ⊎ (a + hhdm + 4096 ≤ x) → s'.pmm.mem x ≡ s.pmm.mem x

module _ (s : Paging) (hhdm pml index a : ℕ) (fs : List ℕ) (map : s.pmm.hhdm_offset ≡ hhdm)
    (in_map : InMap hhdm pml) (small : index < 512) (apart : All (Apart pml) (a ∷ fs))
    (framed : Framed a) (list : FreeList s.pmm.mem hhdm s.pmm.free_list_head (a ∷ fs))
    (frames : Frames hhdm (a ∷ fs))
    (missing : is_entry_present (s.pmm.mem (slot hhdm pml index)) ≡ false) where
  abbrev w : ℕ
  w = slot hhdm pml index

  new_table_lem :
      (q : Pmm)
      → Taken s.pmm a fs q
      → Made s hhdm w a fs (set_word w (table_entry a) (record s { pmm = q }))
  unfolding set_word
  new_table_lem q t =
      let same : q.hhdm_offset ≡ hhdm = t.same_map ∙ map in
      record {
        same_map = same;
        same_cr3 = refl;
        same_flushed = refl;
        frames =
            FreeList-frame q.mem (write q.mem w (table_entry a)) hhdm pml q.free_list_head fs
              (rw same at t.remaining) frames.2 apart.1
              (λ x out. write_ne q.mem w (table_entry a) x (ground (arith, out)));
        linked = rw (write_self q.mem w (table_entry a)) (table_entry_present a framed);
        leads = rw (write_self q.mem w (table_entry a)) (table_entry_leads a framed);
        empty = λ x low high.
            write_ne q.mem w (table_entry a) x (ground (arith, apart.0))
            ∙ t.zeroed x (omega (arith, map)) (omega (arith, map));
        others = λ x ne out.
            write_ne q.mem w (table_entry a) x ne ∙ t.outside x (ground (arith, map, out));
      }

  pub get_next_pml-Made :
      (s' : Paging) × (get_next_pml pml index s ≡ (a, s')) × Made s hhdm w a fs s'
  get_next_pml-Made =
      let t =
        pmm_alloc-Taken s.pmm a fs
          (subst (λ o. FreeList s.pmm.mem o s.pmm.free_list_head (a ∷ fs)) (sym map) list)
          (subst (λ o. Frames o (a ∷ fs)) (sym map) frames) in
      (
        set_word w (table_entry a) (record s { pmm = t.0 }),
        get_next_pml-eq pml index s
            ∙ rw
                (
                  entry_at-slot s hhdm pml index map in_map small,
                  missing,
                  t.1,
                  table_entry_leads a framed,
                )
                refl,
        new_table_lem t.0 t.2,
      )
