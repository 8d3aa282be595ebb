-- ===== src/Paging/Descend.antt =====
-- The way down the page tables: it ends in a table to which the entries lead, and no entry that was
-- there is changed.
use mathlib.Core.Path.{subst}
use flurry.Prelude.{
  ℕ, ◌+◌, ◌<◌, ◌≤◌, ◌≡◌, ◌≢◌, refl, ◌∙◌, ap, inl, inr, false, List, [], ◌∷◌, arith, Bool-cases, All,
  ◌++◌, length,
}
use flurry.Prelude.Memory.{Mem}
use flurry.Pmm.Frames.{InMap, FreeList, Frames, Apart}
use flurry.Paging.{Paging, is_entry_present, get_next_pml}
use flurry.Paging.Tables.{
  slot, Linked, next_of, Framed, Page, OutOf, OutOf-Apart, get_next_pml-there, Made,
  get_next_pml-Made,
}

-- `get_next_pml` along these indices, as `get_pml1_entry` calls it.
abbrev pub descend : List ℕ → ℕ → Paging → ℕ × Paging
descend [] pml s = (pml, s)
descend (i ∷ is) pml s = let t = get_next_pml pml i s in descend is t.0 t.1

-- The entries lead from `pml`, by tables in the direct map, along the indices to the table `t`, which
-- overlaps none on the way.
abbrev pub Walks : Mem → ℕ → ℕ → List ℕ → ℕ → Type 0
Walks m hhdm pml [] t = pml ≡ t
Walks m hhdm pml (i ∷ is) t =
    InMap hhdm pml
    × Linked m (slot hhdm pml i)
    × Apart t pml
    × Walks m hhdm (next_of m (slot hhdm pml i)) is t

-- As far as there are tables along the indices, they are in the direct map, none is a free frame, and
-- none overlaps one above it (`seen`).
abbrev pub Sound : Mem → ℕ → List ℕ → List ℕ → ℕ → List ℕ → Type 0
Sound m hhdm fs seen pml [] = Page hhdm fs pml × All (Apart pml) seen
Sound m hhdm fs seen pml (i ∷ is) =
    Page hhdm fs pml
    × All (Apart pml) seen
    × (Linked m (slot hhdm pml i) → Sound m hhdm fs (pml ∷ seen) (next_of m (slot hhdm pml i)) is)

-- The way down made: `taken` are the frames of the tables that were missing.
pub record Descended (s : Paging) (hhdm pml : ℕ) (is seen fs : List ℕ) : Type 0 where
  pub table : ℕ
  pub s' : Paging
  pub fs' : List ℕ
  pub returns : descend is pml s ≡ (table, s')
  pub same_map : s'.pmm.hhdm_offset ≡ hhdm
  pub same_cr3 : s'.cr3 ≡ s.cr3
  pub same_flushed : s'.flushed ≡ s.flushed
  pub list : FreeList s'.pmm.mem hhdm s'.pmm.free_list_head fs'
  pub frames : Frames hhdm fs'
  pub page : Page hhdm fs' table
  pub apart : All (Apart table) seen
  pub walks : Walks s'.pmm.mem hhdm pml is table
  pub taken : List ℕ
  pub split : fs ≡ taken ++ fs'
  pub short : length taken ≤ length is
  pub none_new : (t : ℕ) → Walks s.pmm.mem hhdm pml is t → taken ≡ []
  pub sound : Sound s'.pmm.mem hhdm fs' seen pml is
  pub others : (w : ℕ) → OutOf hhdm fs w → Linked s.pmm.mem w → s'.pmm.mem w ≡ s.pmm.mem w

-- What holds of all of a list holds of its end.
pub All-behind : (P : ℕ → Type 0) (xs ys : List ℕ) → All P (xs ++ ys) → All P ys
All-behind P [] ys all = all
All-behind P (x ∷ xs) ys all = All-behind P xs ys all.1

-- The way down where all tables are there: it changes nothing.
pub descend-Walks :
    (s : Paging) (hhdm pml t : ℕ) (is : List ℕ)
    → s.pmm.hhdm_offset ≡ hhdm
    → All (λ i. i < 512) is
    → Walks s.pmm.mem hhdm pml is t
    → descend is pml s ≡ (t, s)
descend-Walks s hhdm pml t [] map small walks = ap (λ x. (x, s)) walks
descend-Walks s hhdm pml t (i ∷ is) map small walks =
    ap (λ r. descend is r.0 r.1) (get_next_pml-there s hhdm pml i map walks.0 small.0 walks.1)
    ∙ descend-Walks s hhdm (next_of s.pmm.mem (slot hhdm pml i)) t is map small.1 walks.3

zero_not_present : is_entry_present 0 ≡ false
unfolding is_entry_present
zero_not_present = refl

-- A table of an empty page leads nowhere.
Sound-empty :
    (m : Mem) (hhdm : ℕ) (fs seen : List ℕ) (a : ℕ) (is : List ℕ)
    → ((x : ℕ) → a + hhdm ≤ x → x < a + hhdm + 4096 → m x ≡ 0)
    → All (λ i. i < 512) is
    → Page hhdm fs a
    → All (Apart a) seen
    → Sound m hhdm fs seen a is
Sound-empty m hhdm fs seen a [] empty small page apart = (page, apart)
Sound-empty m hhdm fs seen a (i ∷ is) empty small page apart =
    let nothing : m (slot hhdm a i) ≡ 0 =
      empty (slot hhdm a i) (omega arith) (omega (arith, small.0)) in
    (page, apart, λ linked. cc (linked, nothing, zero_not_present))

-- The first of the free frames is apart from each table seen.
clear_of_first :
    (a : ℕ) (fs seen : List ℕ)
    → All (λ x. All (Apart x) (a ∷ fs)) seen
    → All (Apart a) seen × All (λ x. All (Apart x) fs) seen
clear_of_first a fs [] all = (tt, tt)
clear_of_first a fs (x ∷ seen) all =
    let rest = clear_of_first a fs seen all.1 in
    ((ground (arith, all.0.0), rest.0), (all.0.1, rest.1))

module _ (hhdm : ℕ) where
  -- A step that finds its table.
  step_there :
      (s : Paging) (pml i : ℕ) (is seen fs : List ℕ)
      → s.pmm.hhdm_offset ≡ hhdm
      → i < 512
      → Page hhdm fs pml
      → Linked s.pmm.mem (slot hhdm pml i)
      → All (Apart pml) seen
      → Descended s hhdm (next_of s.pmm.mem (slot hhdm pml i)) is (pml ∷ seen) fs
      → Descended s hhdm pml (i ∷ is) seen fs
  step_there s pml i is seen fs map small page linked apart d =
      let e : d.s'.pmm.mem (slot hhdm pml i) ≡ s.pmm.mem (slot hhdm pml i) =
        d.others (slot hhdm pml i)
          (OutOf-Apart hhdm pml (slot hhdm pml i) fs page.1 (omega arith) (omega arith)) linked in
      record {
        table = d.table;
        s' = d.s';
        fs' = d.fs';
        same_map = d.same_map;
        same_cr3 = d.same_cr3;
        same_flushed = d.same_flushed;
        list = d.list;
        frames = d.frames;
        page = d.page;
        others = d.others;
        returns =
            ap (λ t. descend is t.0 t.1) (get_next_pml-there s hhdm pml i map page.0 small linked)
            ∙ d.returns;
        apart = d.apart.1;
        walks = rw e (page.0, linked, d.apart.0, d.walks);
        taken = d.taken;
        split = d.split;
        short = omega (arith, d.short);
        none_new = λ t way. d.none_new t way.3;
        sound = (
          (page.0, All-behind (Apart pml) d.taken d.fs' (subst (All (Apart pml)) d.split page.1)),
          apart,
          λ l. rw e d.sound,
        );
      }

  -- A step that makes its table of the first free frame.
  step_new :
      (s : Paging) (pml i a : ℕ) (is seen fs : List ℕ) (s1 : Paging)
      → i < 512
      → Page hhdm (a ∷ fs) pml
      → is_entry_present (s.pmm.mem (slot hhdm pml i)) ≡ false
      → get_next_pml pml i s ≡ (a, s1)
      → Made s hhdm (slot hhdm pml i) a fs s1
      → All (Apart pml) seen
      → Descended s1 hhdm a is (pml ∷ seen) fs
      → Descended s hhdm pml (i ∷ is) seen (a ∷ fs)
  step_new s pml i a is seen fs s1 small page missing e made apart d =
      let same : d.s'.pmm.mem (slot hhdm pml i) ≡ s1.pmm.mem (slot hhdm pml i) =
        d.others (slot hhdm pml i)
          (OutOf-Apart hhdm pml (slot hhdm pml i) fs page.1.1 (omega arith) (omega arith))
          made.linked in
      record {
        table = d.table;
        s' = d.s';
        fs' = d.fs';
        returns = ap (λ t. descend is t.0 t.1) e ∙ d.returns;
        same_map = d.same_map;
        same_cr3 = d.same_cr3 ∙ made.same_cr3;
        same_flushed = d.same_flushed ∙ made.same_flushed;
        list = d.list;
        frames = d.frames;
        page = d.page;
        apart = d.apart.1;
        walks = rw same (page.0, made.linked, d.apart.0, rw made.leads d.walks);
        taken = a ∷ d.taken;
        split = ap (λ xs. a ∷ xs) d.split;
        short = omega (arith, d.short);
        none_new = λ t way. absurd (cc (way.1, missing));
        sound = (
          (page.0, All-behind (Apart pml) d.taken d.fs' (subst (All (Apart pml)) d.split page.1.1)),
          apart,
          λ l. rw same (rw made.leads d.sound),
        );
        others = λ w out linked.
            let ne : w ≢ slot hhdm pml i = λ q. cc (linked, missing, ap s.pmm.mem q) in
            let kept : s1.pmm.mem w ≡ s.pmm.mem w = made.others w ne out.0 in
            d.others w out.1 (rw kept linked) ∙ kept;
      }

  pub descend-Descended :
      (is : List ℕ) (s : Paging) (pml : ℕ) (seen fs : List ℕ)
      → s.pmm.hhdm_offset ≡ hhdm
      → FreeList s.pmm.mem hhdm s.pmm.free_list_head fs
      → Frames hhdm fs
      → All Framed fs
      → All (λ i. i < 512) is
      → length is ≤ length fs
      → Sound s.pmm.mem hhdm fs seen pml is
      → All (λ x. All (Apart x) fs) seen
      → Descended s hhdm pml is seen fs
  descend-Descended [] s pml seen fs map list frames framed small enough sound clear = record {
    table = pml;
    s' = s;
    fs' = fs;
    returns = refl;
    same_map = map;
    same_cr3 = refl;
    same_flushed = refl;
    list = list;
    frames = frames;
    page = sound.0;
    apart = sound.1;
    walks = refl;
    taken = [];
    split = refl;
    short = omega arith;
    none_new = λ t way. refl;
    sound = sound;
    others = λ w out linked. refl;
  }
  descend-Descended (i ∷ is) s pml seen [] map list frames framed small enough sound clear =
      absurd (omega (arith, enough))
  descend-Descended (i ∷ is) s pml seen (a ∷ fs) map list frames framed small enough sound clear =
      elim (Bool-cases (is_entry_present (s.pmm.mem (slot hhdm pml i)))) [
        | inl there ↦ step_there s pml i is seen (a ∷ fs) map small.0 sound.0 there sound.1 (
            descend-Descended is s (next_of s.pmm.mem (slot hhdm pml i)) (pml ∷ seen) (a ∷ fs) map
              list frames framed small.1 (omega arith) (sound.2 there) (sound.0.1, clear))
        | inr missing ↦
            let made =
              get_next_pml-Made s hhdm pml i a fs map sound.0.0 small.0 sound.0.1 framed.0 list
                frames missing in
            let split = clear_of_first a fs seen clear in
            step_new s pml i a is seen fs made.0 small.0 sound.0 missing made.1 made.2 sound.1 (
              descend-Descended is made.0 a (pml ∷ seen) fs made.2.same_map made.2.frames frames.2
                framed.1 small.1 (omega arith)
                (Sound-empty made.0.pmm.mem hhdm fs (pml ∷ seen) a is made.2.empty small.1
                  (frames.0, frames.1) (ground (arith, sound.0.1.0), split.0))
                (sound.0.1.1, split.1))
      ]
