-- ===== src/Kmalloc/Free/Alone.antt =====
-- `kfree` of a chunk with no free neighbour.
use flurry.Prelude.{
  ℕ, ◌+◌, ◌-◌, ◌≤◌, ◌≡◌, ◌≢◌, refl, ◌∙◌, ◌⊎◌, inl, inr, true, false, List, ◌∷◌, arith,
  if◌then◌else◌, Bool-cases, All,
}
use flurry.Prelude.Words.{add64, sub64}
use flurry.Prelude.Memory.{Mem, write, write_ne, write_self}
use flurry.Kmalloc.{
  Heap, heap_start, heap_end, null, get_sz, set_flag, flag_is_free, is_in_heap_bounds,
  flag_is_prev_free, freelist_add_node, free_alone,
}
use flurry.Kmalloc.Meta.{IsMeta, IsMeta-frame, get_sz-IsMeta, set_free-IsMeta, set_flag_ne}
use flurry.Kmalloc.Freelist.{
  NotLink, Far, Spread, IsFreelist, Linked-touch, Linked-write, freelist_add_node-IsFreelist,
  freelist_add_node_ne,
}
use flurry.Kmalloc.Layout.{
  Chunk, used, unused, Tiles, Tiles-le, Tiles-frame, Footed-any, words, words-within,
}
use flurry.Kmalloc.Layout.Bags.{All-map, All-map₂}
use flurry.Kmalloc.Free.{head_free}
use flurry.Kmalloc.Free.Frame.{
  Around, NotLink-Around, flag_behind, flag_behind_ne, flag_behind-Tiles, Kept,
}

free_alone-steps :
    (b : ℕ) (h : Heap)
    → free_alone b h ≡ (
        let sz = get_sz h.mem b in
        let next = add64 b sz in
        let h1 =
          freelist_add_node b
            (record h { mem = set_flag (write h.mem (sub64 next 8) sz) b flag_is_free }) in
        if is_in_heap_bounds next
        then record h1 { mem = set_flag h1.mem next flag_is_prev_free }
        else h1)
unfolding free_alone
free_alone-steps b h = refl

-- The nodes of the list lie before the chunk or behind it.
abbrev pub Outside : ℕ → ℕ → ℕ → Type 0
Outside b s x = (x + 32 ≤ b) ⊎ (b + s ≤ x)

module _ (h : Heap) (b s : ℕ) (rest : List Chunk) (xs : List ℕ) (lo : heap_start ≤ b)
    (row : Tiles h.mem b false (used s ∷ rest)) (none_free : head_free rest ≡ false)
    (listed : IsFreelist h xs) (spread : Spread xs)
    (outside : All (λ x. Outside b s x × (x + 32 ≤ heap_end)) xs)
    (clear : All (λ w. NotLink w xs) (words (b + s) rest)) where
  hi : b + s ≤ heap_end
  hi = Tiles-le h.mem (b + s) false rest row.2

  around : All (λ x. Around b (b + s) 0 0 x × (x + 32 ≤ heap_end)) xs
  around =
      All-map (λ x. Outside b s x × (x + 32 ≤ heap_end))
        (λ x. Around b (b + s) 0 0 x × (x + 32 ≤ heap_end)) (λ x o. ground arith) xs outside

  inside : (y : ℕ) → b ≤ y → y ≤ b + s → NotLink y xs
  inside y above below =
      NotLink-Around b (b + s) 0 0 y xs above (omega arith) hi (omega arith) (omega arith)
        (omega arith) (omega arith) (omega arith) (omega arith) around

  new-Spread : Spread (b ∷ xs)
  new-Spread = (
    (lo, omega (arith, row.1, hi)),
    All-map (λ x. Outside b s x × (x + 32 ≤ heap_end)) (Far b) (λ x o. ground (arith, row.1)) xs
        outside,
    spread,
  )

  abbrev footed : Mem
  footed = write h.mem (b + s - 8) s

  abbrev marked : Heap
  marked = record h { mem = set_flag footed b flag_is_free }

  abbrev added : Heap
  added = freelist_add_node b marked

  abbrev pub final : Heap
  final = record added { mem = flag_behind (b + s) added.mem }

  pub free_alone-eq : free_alone b h ≡ final
  free_alone-eq =
      let size : get_sz h.mem b ≡ s = get_sz-IsMeta row.0 in
      let next : add64 b s ≡ b + s = omega (arith, hi, lo) in
      let footer : sub64 (b + s) 8 ≡ b + s - 8 = omega (arith, hi, lo) in
      free_alone-steps b h
      ∙ rw (size, next, footer)
          (elim (Bool-cases (is_in_heap_bounds (b + s))) [ inl e ↦ rw e refl | inr e ↦ rw e refl ])

  marked-IsFreelist : IsFreelist marked xs
  marked-IsFreelist = record {
    links =
        Linked-touch footed marked.mem null h.freelist_head b xs
          (λ x ne. set_flag_ne footed b x ne flag_is_free)
          (Linked-write h.mem null h.freelist_head (b + s - 8) s xs listed.links
            (inside (b + s - 8) (omega (arith, row.1)) (omega arith)))
          (inside b (omega arith) (omega arith));
  }

  added_ne : (w : ℕ) → w ≢ b → w ≢ b + s - 8 → NotLink w (b ∷ xs) → added.mem w ≡ h.mem w
  added_ne w ne ne' out =
      freelist_add_node_ne b marked xs w marked-IsFreelist out
      ∙ set_flag_ne footed b w ne flag_is_free
      ∙ write_ne h.mem (b + s - 8) s w ne'

  pub final-IsFreelist : IsFreelist final (b ∷ xs)
  final-IsFreelist = record {
    links =
        Linked-touch added.mem final.mem null added.freelist_head (b + s) (b ∷ xs)
          (λ x ne. flag_behind_ne (b + s) x added.mem ne)
          (freelist_add_node-IsFreelist b marked xs marked-IsFreelist new-Spread).links
          (
            (omega (arith, row.1, lo, hi), omega (arith, row.1, lo, hi)),
            inside (b + s) (omega arith) (omega arith),
          );
  }

  final-IsMeta : IsMeta final.mem b s false true
  final-IsMeta =
      IsMeta-frame marked.mem final.mem
        (flag_behind_ne (b + s) b added.mem (omega (arith, row.1))
          ∙ freelist_add_node_ne b marked xs b marked-IsFreelist (
            (omega (arith, lo, hi), omega (arith, lo, hi)),
            inside b (omega arith) (omega arith),
          ))
        (set_free-IsMeta
          (IsMeta-frame h.mem footed (write_ne h.mem (b + s - 8) s b (omega (arith, row.1))) row.0))

  final-footer : final.mem (b + s - 8) ≡ s
  final-footer =
      flag_behind_ne (b + s) (b + s - 8) added.mem (omega (arith, row.1))
      ∙ freelist_add_node_ne b marked xs (b + s - 8) marked-IsFreelist (
        (omega (arith, lo, hi, row.1), omega (arith, lo, hi, row.1)),
        inside (b + s - 8) (omega (arith, row.1)) (omega arith),
      )
      ∙ set_flag_ne footed b (b + s - 8) (omega (arith, row.1)) flag_is_free
      ∙ write_self h.mem (b + s - 8) s

  pub final-Kept : Kept h xs b s final
  final-Kept w out clear =
      flag_behind_ne (b + s) w added.mem (ground arith)
      ∙ added_ne w (ground arith) (ground (arith, row.1))
          ((ground (arith, lo, hi, row.1), ground (arith, lo, hi, row.1)), clear)

  pub final-row : Tiles final.mem b false (unused s ∷ rest)
  final-row = (
    final-IsMeta,
    row.1,
    flag_behind-Tiles added.mem (b + s) rest (omega (arith, lo))
        (Tiles-frame h.mem added.mem (b + s) false rest row.2 (
          All-map₂ (λ w. (b + s ≤ w) × (w + 8 ≤ heap_end)) (λ w. NotLink w xs)
            (λ w. added.mem w ≡ h.mem w)
            (λ w within out.
              added_ne w (omega (arith, row.1)) (omega (arith, row.1))
                ((omega (arith, row.1, lo, hi), omega (arith, row.1, lo, hi)), out))
            (words (b + s) rest) (words-within h.mem (b + s) false rest row.2) clear))
        none_free,
    Footed-any final.mem b s rest final-footer,
    refl,
  )
