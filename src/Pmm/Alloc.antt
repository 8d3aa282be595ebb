-- ===== src/Pmm/Alloc.antt =====
-- What `pmm_alloc` and `pmm_free` do.
use flurry.Prelude.{
  ℕ, ◌+◌, ◌^◌, ◌<◌, ◌≤◌, ◌≡◌, refl, ◌⊎◌, false, List, ◌∷◌, arith, ne→==, ◌==◌, if◌then◌else◌,
}
use flurry.Prelude.Words.{add64}
use flurry.Prelude.Memory.{Mem, write_ne}
use flurry.Pmm.{Pmm, next_of, zero_page, pmm_alloc, pmm_free}
use flurry.Pmm.Frames.{FreeList, Frames, FreeList-frame}

-- A frame taken: it is the first of the list, the list goes on without it, the page is all zeros, and no
-- word outside of it was written.
pub record Taken (s : Pmm) (a : ℕ) (rest : List ℕ) (s' : Pmm) : Type 0 where
  pub same_map : s'.hhdm_offset ≡ s.hhdm_offset
  pub remaining : FreeList s'.mem s'.hhdm_offset s'.free_list_head rest
  pub zeroed : (w : ℕ) → a + s.hhdm_offset ≤ w → w < a + s.hhdm_offset + 4096 → s'.mem w ≡ 0
  pub outside :
      (w : ℕ) → (w < a + s.hhdm_offset) ⊎ (a + s.hhdm_offset + 4096 ≤ w) → s'.mem w ≡ s.mem w

zero_page-in : (m : Mem) (p w : ℕ) → p ≤ w → w < p + 4096 → zero_page m p w ≡ 0
unfolding zero_page
zero_page-in m p w low high = ground arith

zero_page-out : (m : Mem) (p w : ℕ) → (w < p) ⊎ (p + 4096 ≤ w) → zero_page m p w ≡ m w
unfolding zero_page
zero_page-out m p w out = ground arith

pmm_alloc-eq :
    (s : Pmm)
    → pmm_alloc s ≡ (
        if s.free_list_head == 0 then (0, s) else (
          s.mem s.free_list_head,
          record {
            mem = zero_page s.mem (add64 (s.mem s.free_list_head) s.hhdm_offset);
            hhdm_offset = s.hhdm_offset;
            free_list_head = s.mem (next_of s.free_list_head);
          },
        ))
unfolding pmm_alloc
pmm_alloc-eq s = refl

-- From a list of frames that lie apart, `pmm_alloc` takes the first and clears its page.
pub pmm_alloc-Taken :
    (s : Pmm) (a : ℕ) (rest : List ℕ)
    → FreeList s.mem s.hhdm_offset s.free_list_head (a ∷ rest)
    → Frames s.hhdm_offset (a ∷ rest)
    → (s' : Pmm) × (pmm_alloc s ≡ (a, s')) × Taken s a rest s'
pmm_alloc-Taken s a rest l f =
    let m' = zero_page s.mem (a + s.hhdm_offset) in
    let some_page : (s.free_list_head == 0) ≡ false = ground (arith, l.0, f.0) in
    let page : add64 a s.hhdm_offset ≡ a + s.hhdm_offset = omega (arith, f.0) in
    let out : (w : ℕ) → (w < a + s.hhdm_offset) ⊎ (a + s.hhdm_offset + 4096 ≤ w) → m' w ≡ s.mem w =
      λ w o. zero_page-out s.mem (a + s.hhdm_offset) w o in
    (
      record {
        mem = m';
        hhdm_offset = s.hhdm_offset;
        free_list_head = s.mem (next_of s.free_list_head);
      },
      rw (pmm_alloc-eq s, some_page, l.1, page) refl,
      record {
        same_map = refl;
        remaining =
            FreeList-frame s.mem m' s.hhdm_offset a (s.mem (next_of s.free_list_head)) rest l.2 f.2
              f.1 out;
        zeroed = λ w low high. zero_page-in s.mem (a + s.hhdm_offset) w low high;
        outside = out;
      },
    )

-- A frame that is given back and taken again comes back as the word that memory has at its own
-- physical address: `pmm_free` neither sets the address field nor uses the direct map.
pub pmm_alloc-pmm_free :
    (s : Pmm) (addr : ℕ)
    → 0 < addr
    → addr + 8 < 2 ^ 64
    → (pmm_alloc (pmm_free addr s)).0 ≡ s.mem addr
unfolding pmm_free
pmm_alloc-pmm_free s addr pos small =
    rw (pmm_alloc-eq (pmm_free addr s), ne→== addr 0 (omega arith))
      (write_ne s.mem (next_of addr) s.free_list_head addr (omega arith))
