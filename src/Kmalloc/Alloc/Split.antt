-- ===== src/Kmalloc/Alloc/Split.antt =====
-- A chunk split in two: what each part of the code leaves in the memory and on the freelist.
use flurry.Prelude.{ℕ, ◌+◌, ◌-◌, ◌%◌, ◌≤◌, ◌≡◌, ◌≢◌, refl, ◌∙◌, true, false, List, ◌∷◌, arith}
use flurry.Prelude.Words.{add64, sub64}
use flurry.Prelude.Memory.{Mem, write, write_ne, write_self}
use flurry.Kmalloc.{
  Heap, heap_start, heap_end, null, get_sz, split, mark_remain, mark_allocated, freelist_add_node,
}
use flurry.Kmalloc.Meta.{
  IsMeta, IsMeta-frame, get_sz-IsMeta, mark_allocated-IsMeta, mark_allocated_ne, mark_remain-IsMeta,
  mark_remain_ne,
}
use flurry.Kmalloc.Freelist.{
  IsFreelist, Spread, NotLink, NotLink-self, Linked-touch, freelist_add_node-IsFreelist,
  freelist_add_node_ne,
}

-- `split` step by step.
split-steps :
    (b s sz : ℕ) (h : Heap)
    → split b s sz h ≡ (
        let remain = add64 b sz in
        let h1 =
          freelist_add_node remain (record h { mem = mark_remain h.mem remain (sub64 s sz) }) in
        record h1 {
          mem = write h1.mem (sub64 (add64 remain (get_sz h1.mem remain)) 8) (get_sz h1.mem remain);
        })
unfolding split
split-steps b s sz h = refl

-- The chunk at `b` of `s` bytes gives `sz`, and the rest starts at `r`.
module _ (h : Heap) (b s sz : ℕ) (xs : List ℕ) (lo : heap_start ≤ b) (hi : b + s ≤ heap_end)
    (big : 32 ≤ sz) (fit : sz + 32 ≤ s) (aligned : sz % 8 ≡ 0) (aligned' : s % 8 ≡ 0)
    (listed : IsFreelist h xs) (spread : Spread ((b + sz) ∷ xs)) where
  abbrev r : ℕ
  r = b + sz

  abbrev marked : Heap
  marked = record h { mem = mark_remain h.mem r (s - sz) }

  abbrev added : Heap
  added = freelist_add_node r marked

  r-NotLink : NotLink r xs
  r-NotLink = NotLink-self r xs spread.0 spread.1 spread.2

  marked-IsFreelist : IsFreelist marked xs
  marked-IsFreelist = record {
    links =
        Linked-touch h.mem marked.mem null h.freelist_head r xs
          (λ x ne. mark_remain_ne h.mem r x ne (s - sz)) listed.links r-NotLink;
  }

  added-IsFreelist : IsFreelist added (r ∷ xs)
  added-IsFreelist = freelist_add_node-IsFreelist r marked xs marked-IsFreelist spread

  added_ne : (x : ℕ) → x ≢ r → NotLink x (r ∷ xs) → added.mem x ≡ h.mem x
  added_ne x ne out =
      freelist_add_node_ne r marked xs x marked-IsFreelist out
      ∙ mark_remain_ne h.mem r x ne (s - sz)

  added-IsMeta : IsMeta added.mem r (s - sz) false true
  added-IsMeta =
      IsMeta-frame marked.mem added.mem
        (freelist_add_node_ne r marked xs r marked-IsFreelist
          ((omega arith, omega arith), r-NotLink))
        (mark_remain-IsMeta h.mem r (s - sz) (omega arith) (omega arith))

  split-eq : split b s sz h ≡ record added { mem = write added.mem (b + s - 8) (s - sz) }
  split-eq =
      let size : get_sz added.mem r ≡ s - sz = get_sz-IsMeta added-IsMeta in
      let at_r : add64 b sz ≡ r = omega arith in
      let left : sub64 s sz ≡ s - sz = omega arith in
      let end : sub64 (add64 r (s - sz)) 8 ≡ b + s - 8 = omega arith in
      split-steps b s sz h ∙ rw (at_r, left, size, end)

  abbrev footed : Mem
  footed = write added.mem (b + s - 8) (s - sz)

  abbrev final : Mem
  final = mark_allocated footed b sz

  -- Words that are neither of the two metadata words, nor the footer, nor links, are kept.
  final_ne : (x : ℕ) → x ≢ b → x ≢ r → x ≢ b + s - 8 → NotLink x (r ∷ xs) → final x ≡ h.mem x
  final_ne x ne ne' ne'' out =
      mark_allocated_ne footed b x ne sz ∙ write_ne added.mem _ _ x ne'' ∙ added_ne x ne' out

  remain-IsMeta : IsMeta final r (s - sz) false true
  remain-IsMeta =
      IsMeta-frame added.mem final
        (mark_allocated_ne footed b r (omega arith) sz ∙ write_ne added.mem _ _ r (omega arith))
        added-IsMeta

  footer-size : final (b + s - 8) ≡ s - sz
  footer-size = mark_allocated_ne footed b (b + s - 8) (omega arith) sz ∙ write_self added.mem _ _

  module _ (b-NotLink : NotLink b (r ∷ xs)) (end-NotLink : NotLink (b + s - 8) (r ∷ xs)) where
    here-IsMeta : IsMeta h.mem b s false true → IsMeta final b sz false false
    here-IsMeta meta =
        mark_allocated-IsMeta
          (IsMeta-frame h.mem footed
            (write_ne added.mem _ _ b (omega arith) ∙ added_ne b (omega arith) b-NotLink) meta)
          sz (omega arith) aligned

    final-IsFreelist : IsFreelist (record added { mem = final }) (r ∷ xs)
    final-IsFreelist = record {
      links =
          Linked-touch footed final null added.freelist_head b (r ∷ xs)
            (λ x ne. mark_allocated_ne footed b x ne sz)
            (Linked-touch added.mem footed null added.freelist_head (b + s - 8) (r ∷ xs)
              (λ x ne. write_ne added.mem _ _ x ne) added-IsFreelist.links end-NotLink)
            b-NotLink;
    }

-- The heap behind `split` and the marking of the first part.
pub record Parted (h : Heap) (b s sz : ℕ) (xs : List ℕ) (h' : Heap) : Type 0 where
  pub here : IsMeta h.mem b s false true → IsMeta h'.mem b sz false false
  pub remain : IsMeta h'.mem (b + sz) (s - sz) false true
  pub footer : h'.mem (b + s - 8) ≡ s - sz
  pub kept :
      (x : ℕ) → x ≢ b → x ≢ b + sz → x ≢ b + s - 8 → NotLink x ((b + sz) ∷ xs) → h'.mem x ≡ h.mem x
  pub freelist : IsFreelist h' ((b + sz) ∷ xs)

pub split-Parted :
    (h : Heap) (b s sz : ℕ) (xs : List ℕ)
    → heap_start ≤ b
    → b + s ≤ heap_end
    → 32 ≤ sz
    → sz + 32 ≤ s
    → sz % 8 ≡ 0
    → s % 8 ≡ 0
    → IsFreelist h xs
    → Spread ((b + sz) ∷ xs)
    → NotLink b ((b + sz) ∷ xs)
    → NotLink (b + s - 8) ((b + sz) ∷ xs)
    → Parted h b s sz xs
        (record (split b s sz h) { mem = mark_allocated (split b s sz h).mem b sz })
split-Parted h b s sz xs lo hi big fit al al' listed spread out out' =
    rw (split-eq h b s sz xs lo hi big fit al al' listed spread) (record {
      here = here-IsMeta h b s sz xs lo hi big fit al al' listed spread out out';
      remain = remain-IsMeta h b s sz xs lo hi big fit al al' listed spread;
      footer = footer-size h b s sz xs lo hi big fit al al' listed spread;
      kept = final_ne h b s sz xs lo hi big fit al al' listed spread;
      freelist = final-IsFreelist h b s sz xs lo hi big fit al al' listed spread out out';
    })
