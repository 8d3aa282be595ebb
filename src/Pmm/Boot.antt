-- ===== src/Pmm/Boot.antt =====
-- The list that `pmm_init` makes.
use flurry.Prelude.{
  ℕ, zero, suc, false, ◌+◌, ◌*◌, ◌^◌, ◌<◌, ◌≤◌, ◌≡◌, ◌∙◌, sym, refl, ◌⊎◌, inl, inr, List, [], ◌∷◌,
  arith, Bool-cases, ltb, if◌then◌else◌, All,
}
use mathlib.Core.Path.{subst}
use flurry.Prelude.Words.{add64}
use flurry.Prelude.Memory.{Mem, write, write_self, write_ne}
use flurry.Prelude.Outcome.{Outcome, ok}
use flurry.Pmm.{
  PhysMemoryRegion, is_usable, Pmm, next_of, push_page, push_pages, add_regions, behind_first,
  pmm_init,
}
use flurry.Pmm.Frames.{FreeList, Frames, FreeList-frame}

abbrev pub IsFree : Pmm → List ℕ → Type 0
IsFree s xs = FreeList s.mem s.hhdm_offset s.free_list_head xs

pushed-FreeList :
    (m : Mem) (hhdm p a : ℕ) (xs : List ℕ)
    → FreeList m hhdm p xs
    → Frames hhdm (a ∷ xs)
    → FreeList (write (write m (a + hhdm) a) (next_of (a + hhdm)) p) hhdm (a + hhdm) (a ∷ xs)
pushed-FreeList m hhdm p a xs l f =
    let page = a + hhdm in
    let m1 = write m page a in
    let m2 = write m1 (next_of page) p in
    let link : m2 (next_of page) ≡ p = write_self m1 (next_of page) p in
    let word : m2 page ≡ a =
      write_ne m1 (next_of page) p page (omega (arith, f.0)) ∙ write_self m page a in
    let out : (w : ℕ) → (w < page) ⊎ (page + 4096 ≤ w) → m2 w ≡ m w = λ w o.
      write_ne m1 (next_of page) p w (ground (arith, f.0)) ∙ write_ne m page a w (ground arith) in
    (refl, word, rw link (FreeList-frame m m2 hhdm a p xs l f.2 f.1 out))

push_page-eq :
    (addr : ℕ) (s : Pmm)
    → push_page addr s ≡ record {
      mem =
          write
            (write s.mem (add64 addr s.hhdm_offset) addr)
            (next_of (add64 addr s.hhdm_offset))
            s.free_list_head;
      hhdm_offset = s.hhdm_offset;
      free_list_head = add64 addr s.hhdm_offset;
    }
unfolding push_page
push_page-eq addr s = refl

pub push_page-IsFree :
    (addr : ℕ) (s : Pmm) (xs : List ℕ)
    → IsFree s xs
    → Frames s.hhdm_offset (addr ∷ xs)
    → IsFree (push_page addr s) (addr ∷ xs)
push_page-IsFree addr s xs l f =
    let page : add64 addr s.hhdm_offset ≡ addr + s.hhdm_offset = omega (arith, f.0) in
    subst (λ t. IsFree t (addr ∷ xs)) (sym (push_page-eq addr s))
      (subst
        (λ q.
          FreeList (write (write s.mem q addr) (next_of q) s.free_list_head) s.hhdm_offset q
            (addr ∷ xs))
        (sym page) (pushed-FreeList s.mem s.hhdm_offset s.free_list_head addr xs l f))

push_page-map : (addr : ℕ) (s : Pmm) → (push_page addr s).hhdm_offset ≡ s.hhdm_offset
unfolding push_page
push_page-map addr s = refl

-- The frames from `addr` to below `end`, each put in front of those before it.
abbrev pub frames : ℕ → ℕ → ℕ → List ℕ → List ℕ
frames zero addr end xs = xs
frames (suc rounds) addr end xs =
    if ltb addr end then frames rounds (addr + 4096) end (addr ∷ xs) else xs

-- The frames of the usable regions.
abbrev pub region_frames : ℕ → List PhysMemoryRegion → List ℕ → List ℕ
region_frames rounds [] xs = xs
region_frames rounds (entry ∷ rest) xs =
    region_frames rounds rest
      (if is_usable entry.kind then frames rounds entry.base (entry.base + entry.len) xs else xs)

frames-Frames :
    (rounds addr end hhdm : ℕ) (xs : List ℕ)
    → Frames hhdm (frames rounds addr end xs)
    → Frames hhdm xs
frames-Frames zero addr end hhdm xs f = f
frames-Frames (suc rounds) addr end hhdm xs f = elim (Bool-cases (ltb addr end)) [
  | inl e ↦ (frames-Frames rounds (addr + 4096) end hhdm (addr ∷ xs) (rw e at f)).2
  | inr e ↦ rw e at f
]

-- A result whose list is these frames, seen through the same map.
abbrev pub Makes : Outcome Pmm → ℕ → List ℕ → Type 0
Makes o hhdm xs = (s' : Pmm) × (o ≡ ok s') × (s'.hhdm_offset ≡ hhdm) × IsFree s' xs

push_pages-Makes :
    (rounds addr end : ℕ) (s : Pmm) (xs : List ℕ)
    → IsFree s xs
    → Frames s.hhdm_offset (frames (suc rounds) addr end xs)
    → end ≤ addr + rounds * 4096
    → Makes (push_pages (suc rounds) addr end s) s.hhdm_offset (frames (suc rounds) addr end xs)
unfolding push_pages
push_pages-Makes zero addr end s xs l f enough =
    let over : ltb addr end ≡ false = ground arith in rw over (s, refl, refl, l)
push_pages-Makes (suc rounds) addr end s xs l f enough = elim (Bool-cases (ltb addr end)) [
  | inl e ↦
      let f' : Frames s.hhdm_offset (frames (suc rounds) (addr + 4096) end (addr ∷ xs)) =
        rw e at f in
      let front = frames-Frames (suc rounds) (addr + 4096) end s.hhdm_offset (addr ∷ xs) f' in
      let next : add64 addr 4096 ≡ addr + 4096 = omega (arith, front.0) in
      let rest =
        push_pages-Makes rounds (addr + 4096) end (push_page addr s) (addr ∷ xs)
          (push_page-IsFree addr s xs l front) (rw (push_page-map addr s) f') (omega arith) in
      rw (e, next) (rw (push_page-map addr s) at rest)
  | inr e ↦ rw e (s, refl, refl, l)
]

-- Every usable region ends below 2 ^ 64 and has pages for no more than `rounds`.
abbrev pub Fits : ℕ → PhysMemoryRegion → Type 0
Fits rounds entry = (entry.base + entry.len < 2 ^ 64) × (entry.len ≤ rounds * 4096)

region_frames-Frames :
    (rounds hhdm : ℕ) (entries : List PhysMemoryRegion) (xs : List ℕ)
    → Frames hhdm (region_frames rounds entries xs)
    → Frames hhdm xs
region_frames-Frames rounds hhdm [] xs f = f
region_frames-Frames rounds hhdm (entry ∷ rest) xs f = elim (Bool-cases (is_usable entry.kind)) [
  | inl e ↦ frames-Frames rounds entry.base (entry.base + entry.len) hhdm xs (
      region_frames-Frames rounds hhdm rest (frames rounds entry.base (entry.base + entry.len) xs)
        (rw e at f))
  | inr e ↦ region_frames-Frames rounds hhdm rest xs (rw e at f)
]

add_regions-Makes :
    (rounds : ℕ) (entries : List PhysMemoryRegion) (s : Pmm) (xs : List ℕ)
    → IsFree s xs
    → Frames s.hhdm_offset (region_frames (suc rounds) entries xs)
    → All (Fits rounds) entries
    → Makes
        (add_regions (suc rounds) entries s)
        s.hhdm_offset
        (region_frames (suc rounds) entries xs)
unfolding add_regions
add_regions-Makes rounds [] s xs l f fit = (s, refl, refl, l)
add_regions-Makes rounds (entry ∷ rest) s xs l f fit = elim (Bool-cases (is_usable entry.kind)) [
  | inl e ↦
      let end : add64 entry.base entry.len ≡ entry.base + entry.len = omega (arith, fit.0) in
      let f' : Frames s.hhdm_offset (
          region_frames (suc rounds) rest
            (frames (suc rounds) entry.base (entry.base + entry.len) xs)) =
        rw e at f in
      let made =
        push_pages-Makes rounds entry.base (entry.base + entry.len) s xs l
          (region_frames-Frames (suc rounds) s.hhdm_offset rest _ f') (omega (arith, fit.0)) in
      let later =
        add_regions-Makes rounds rest made.0
          (frames (suc rounds) entry.base (entry.base + entry.len) xs) made.3 (rw made.2 f')
          fit.1 in
      rw (e, end, made.1) (rw made.2 at later)
  | inr e ↦ rw e (add_regions-Makes rounds rest s xs l (rw e at f) fit.1)
]

-- From an empty list, `pmm_init` makes the list of the frames of every usable region but the first
-- entry's, when no two of them overlap, all are in the direct map, and the rounds are enough for the
-- largest region.
pub pmm_init-Makes :
    (rounds offset : ℕ) (entries : List PhysMemoryRegion) (s : Pmm)
    → s.free_list_head ≡ 0
    → Frames offset (region_frames (suc rounds) (behind_first entries) [])
    → All (Fits rounds) (behind_first entries)
    → Makes
        (pmm_init (suc rounds) offset entries s)
        offset
        (region_frames (suc rounds) (behind_first entries) [])
unfolding pmm_init
pmm_init-Makes rounds offset entries s empty f fit =
    add_regions-Makes rounds (behind_first entries) (record s { hhdm_offset = offset }) [] empty f
      fit
