-- ===== src/Events/Queue.antt =====
-- The queue of events as a list in the order of times: what the operations of events.c do to it.
use mathlib.Core.Path.{subst}
use mathlib.Core.List.{append_assoc}
use flurry.Prelude.{
  ℕ, ◌<◌, ◌≤◌, ◌≡◌, ◌≢◌, ◌∙◌, refl, sym, ap, Bool, ltb, arith, ==_refl, List, ◌∷◌, ◌++◌, length,
  length-append,
}
use flurry.Prelude.Memory.{write_ne}
use flurry.Prelude.Outcome.{Outcome, ok}
use flurry.Events.{Links, Events, bst_delete, clear_links, inorder}
use flurry.Events.Shape.{Tree, node, top, count, one_if, apart, Rep-frame, Rep-zero}
use flurry.Events.Placed.{Placed, join, height}
use flurry.Events.Delete.{bst_delete-join}
use flurry.Events.Items.{
  items, count_in, plug, before, after, items-plug, items-join, count_in-append, count_in-items,
  height-length, zip_up, Found, find, inorder-items,
}
use flurry.Events.Order.{erase, erase-append}

-- The links are a tree with these events in order.
pub record Holds (l : Links) (xs : List ℕ) : Type 0 where
  pub tree : Tree
  pub placed : Placed l l.root 0 tree top
  pub listed : items tree ≡ xs

-- The flag of an event says whether it is in the list.
abbrev pub Flags : (ℕ → Bool) → List ℕ → Type 0
Flags enqueued xs = (x : ℕ) → enqueued x ≡ ltb 0 (count_in x xs)

pub record IsTree (s : Events) (xs : List ℕ) : Type 0 where
  pub holds : Holds s.links xs
  pub flags : Flags s.enqueued xs

-- A call returns, with these events in the queue and their times and callbacks as they were.
pub record Makes (o : Outcome Events) (s : Events) (xs : List ℕ) : Type 0 where
  pub final : Events
  pub returns : o ≡ ok final
  pub queue : IsTree final xs
  pub times : final.time ≡ s.time
  pub callbacks : final.callback ≡ s.callback

module _ (l : Links) (xs : List ℕ) (h : Holds l xs) where
  pub count-tree : (x : ℕ) → count x h.tree ≡ count_in x xs
  count-tree x = sym (count_in-items x h.tree) ∙ ap (count_in x) h.listed

  pub Holds-once : (x : ℕ) → count_in x xs ≤ 1
  Holds-once x = omega (arith, h.placed.once x, count-tree x)

  pub Holds-zero : count_in 0 xs ≡ 0
  Holds-zero = omega (arith, Rep-zero l l.root 0 h.tree h.placed.tree, count-tree 0)

  pub height-xs : height h.tree ≤ length xs
  height-xs = omega (arith, height-length h.tree, ap length h.listed)

  pub clear_links-Holds : (n : ℕ) → count_in n xs ≡ 0 → Holds (clear_links n l) xs
  unfolding clear_links
  clear_links-Holds n out = record {
    tree = h.tree;
    placed = record {
      ctx = h.placed.ctx;
      tree = Rep-frame l (clear_links n l) l.root 0 h.tree h.placed.tree (λ x some.
          let other : x ≢ n = apart h.tree x n some (omega (arith, count-tree n)) in
          record {
            left = write_ne l.left n 0 x other;
            right = write_ne l.right n 0 x other;
            parent = write_ne l.parent n 0 x other;
          });
      once = h.placed.once;
    };
    listed = h.listed;
  }

  -- The events are printed in the order of the list, when there are more rounds than events.
  pub inorder-Holds : (rounds : ℕ) → length xs < rounds → inorder rounds l l.root ≡ ok xs
  inorder-Holds rounds enough =
      inorder-items rounds l l.root 0 h.tree h.placed.tree (omega (arith, height-xs))
      ∙ ap ok h.listed

-- A call of `bst_delete` returns, and the node is no more in the list.
pub record Deletes (o : Outcome Links) (n : ℕ) (xs : List ℕ) : Type 0 where
  pub final : Links
  pub returns : o ≡ ok final
  pub holds : Holds final (erase n xs)

regroup :
    (n : ℕ) (os bs cs ds : List ℕ) → os ++ ((bs ++ (n ∷ cs)) ++ ds) ≡ (os ++ bs) ++ (n ∷ (cs ++ ds))
regroup n os bs cs ds = simp append_assoc

erase-mid :
    (n : ℕ) (os bs cs ds : List ℕ)
    → count_in n (os ++ ((bs ++ (n ∷ cs)) ++ ds)) ≤ 1
    → erase n (os ++ ((bs ++ (n ∷ cs)) ++ ds)) ≡ os ++ ((bs ++ cs) ++ ds)
erase-mid n os bs cs ds once =
    let self : one_if n n ≡ 1 = rw (==_refl n) refl in
    let out : count_in n (os ++ bs) ≡ 0 = omega (
      arith,
      once,
      self,
      ap (count_in n) (regroup n os bs cs ds),
      count_in-append n (os ++ bs) (n ∷ (cs ++ ds)),
    ) in
    ap (erase n) (regroup n os bs cs ds)
    ∙ erase-append n (os ++ bs) (cs ++ ds) out
    ∙ simp append_assoc

length-mid : (n : ℕ) (os bs cs ds : List ℕ) → length cs < length (os ++ ((bs ++ (n ∷ cs)) ++ ds))
length-mid n os bs cs ds = omega (
  arith,
  length-append os ((bs ++ (n ∷ cs)) ++ ds),
  length-append (bs ++ (n ∷ cs)) ds,
  length-append bs (n ∷ cs),
)

module _ (rounds : ℕ) (l : Links) (n : ℕ) (xs : List ℕ) (h : Holds l xs) where
  split :
      (f : Found l n h.tree top)
      → xs ≡ before f.above ++ ((items f.low ++ (n ∷ items f.high)) ++ after f.above)
  split f = sym h.listed ∙ ap items (sym f.same) ∙ items-plug f.above (node f.low n f.high)

  Found-Deletes :
      (f : Found l n h.tree top) → length xs ≤ rounds → Deletes (bst_delete rounds n l) n xs
  Found-Deletes f enough =
      let shorter = length-mid n (before f.above) (items f.low) (items f.high) (after f.above) in
      let once : count_in n
            (before f.above ++ ((items f.low ++ (n ∷ items f.high)) ++ after f.above))
          ≤ 1 =
        subst (λ ys. count_in n ys ≤ 1) (split f) (Holds-once l xs h n) in
      let d =
        bst_delete-join rounds l n f.par f.low f.high f.above f.placed
          (omega (arith, height-length f.high, shorter, ap length (split f))) in
      record {
        final = d.after;
        returns = d.returns;
        holds = record {
          tree = plug f.above (join f.low f.high);
          placed = zip_up d.after d.p d.par (join f.low f.high) f.above d.placed;
          listed =
              items-plug f.above (join f.low f.high)
              ∙ ap (λ ys. before f.above ++ (ys ++ after f.above)) (items-join f.low f.high)
              ∙ sym (erase-mid n (before f.above) (items f.low) (items f.high) (after f.above) once)
              ∙ ap (erase n) (sym (split f));
        };
      }

  pub bst_delete-erase :
      0 < count_in n xs → length xs ≤ rounds → Deletes (bst_delete rounds n l) n xs
  bst_delete-erase some enough =
      Found-Deletes (find l l.root 0 n h.tree top h.placed (omega (arith, count-tree l xs h n)))
        enough
