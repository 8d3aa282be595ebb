-- ===== src/Vmm/Loops.antt =====
-- The loops by pages: each ends, and is a run over the list of its pages.
use flurry.Prelude.{
  ℕ, zero, suc, ◌+◌, ◌-◌, ◌*◌, ◌/◌, ◌^◌, ◌<◌, ◌≤◌, ◌≡◌, refl, ◌∙◌, true, false, ltb, List, [], ◌∷◌,
  ◌++◌, map, arith,
}
use flurry.Prelude.Bits.{bit_and_high, bit_and_ones}
use flurry.Prelude.Words.{add64, sub64}
use flurry.Prelude.Outcome.{ok}
use flurry.Vmm.{Vmm, align_up, align_down, vmm_kmap, for_pages}

-- So many pages from an address on.
abbrev pub pages : ℕ → ℕ → List ℕ
pages zero addr = []
pages (suc n) addr = addr ∷ pages n (addr + 4096)

-- The number of pages from `start` up to `end`, the last perhaps in part.
abbrev pub page_count : ℕ → ℕ → ℕ
page_count start end = (end - start + 4095) / 4096

abbrev pub run_all : (ℕ → Vmm → Vmm) → List ℕ → Vmm → Vmm
run_all body [] s = s
run_all body (x ∷ xs) s = run_all body xs (body x s)

pub for_pages-run_all :
    (n rounds start end : ℕ) (body : ℕ → Vmm → Vmm) (s : Vmm)
    → n ≡ page_count start end
    → n < rounds
    → end + 4096 ≤ 2 ^ 64
    → for_pages rounds start end body s ≡ ok (run_all body (pages n start) s)
unfolding for_pages
for_pages-run_all n zero start end body s count enough small = absurd (omega (arith, enough))
for_pages-run_all zero (suc rounds) start end body s count enough small =
    let over : ltb start end ≡ false = ground (arith, count) in rw over refl
for_pages-run_all (suc n) (suc rounds) start end body s count enough small =
    let inside : ltb start end ≡ true = ground (arith, count) in
    let next : add64 start 4096 ≡ start + 4096 = ground (arith, count) in
    rw (inside, next)
      (for_pages-run_all n rounds (start + 4096) end body (body start s) (omega (arith, count))
        (omega (arith, enough)) small)

-- A page mapped: its virtual address, its frame and its flags.
pub record Mapping : Type 0 where
  pub virt : ℕ
  pub phys : ℕ
  pub flags : ℕ

abbrev pub kmap_all : List Mapping → Vmm → Vmm
kmap_all [] s = s
kmap_all (m ∷ ms) s = kmap_all ms (vmm_kmap m.virt m.phys m.flags s)

pub kmap_all-append :
    (ms ns : List Mapping) (s : Vmm) → kmap_all (ms ++ ns) s ≡ kmap_all ns (kmap_all ms s)
kmap_all-append [] ns s = refl
kmap_all-append (m ∷ ms) ns s = kmap_all-append ms ns (vmm_kmap m.virt m.phys m.flags s)

pub run_all-kmap_all :
    (virt phys : ℕ → ℕ) (flags : ℕ) (xs : List ℕ) (s : Vmm)
    → run_all (λ x. vmm_kmap (virt x) (phys x) flags) xs s
      ≡ kmap_all (map (λ x. record { virt = virt x; phys = phys x; flags = flags }) xs) s
run_all-kmap_all virt phys flags [] s = refl
run_all-kmap_all virt phys flags (x ∷ xs) s =
    run_all-kmap_all virt phys flags xs (vmm_kmap (virt x) (phys x) flags s)

kmap-kept :
    (virt phys flags : ℕ) (s : Vmm)
    → ((vmm_kmap virt phys flags s).hhdm_offset ≡ s.hhdm_offset)
      × ((vmm_kmap virt phys flags s).kernel_pml4 ≡ s.kernel_pml4)
unfolding vmm_kmap
kmap-kept virt phys flags s = (refl, refl)

pub kmap_all-kept :
    (ms : List Mapping) (s : Vmm)
    → ((kmap_all ms s).hhdm_offset ≡ s.hhdm_offset) × ((kmap_all ms s).kernel_pml4 ≡ s.kernel_pml4)
kmap_all-kept [] s = (refl, refl)
kmap_all-kept (m ∷ ms) s =
    let rest = kmap_all-kept ms (vmm_kmap m.virt m.phys m.flags s) in
    let first = kmap-kept m.virt m.phys m.flags s in (rest.0 ∙ first.0, rest.1 ∙ first.1)

pub align_down_lem : (a : ℕ) → a < 2 ^ 64 → align_down a 4096 ≡ a / 4096 * 4096
unfolding align_down
align_down_lem a small = omega (arith, bit_and_high 12 a (2 ^ 52 - 1), bit_and_ones 52 (a / 2 ^ 12))

pub align_up_lem : (a : ℕ) → a + 4096 ≤ 2 ^ 64 → align_up a 4096 ≡ (a + 4095) / 4096 * 4096
unfolding align_up
align_up_lem a small =
    let e : sub64 (add64 a 4096) 1 ≡ a + 4095 = omega arith in
    rw e (
      omega (arith, bit_and_high 12 (a + 4095) (2 ^ 52 - 1), bit_and_ones 52 ((a + 4095) / 2 ^ 12)))
