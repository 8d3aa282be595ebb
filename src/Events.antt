-- ===== src/Events.antt =====
-- The queue of timed events, kernel/multitasking/events.c: a binary search tree by time, with links to
-- the children and to the parent. An event is its address, and each field of the struct is a function
-- of the address; NULL is 0.
pub mod Shape
pub mod Placed
pub mod Supplant
pub mod Delete
pub mod Items
pub mod Hang
pub mod Insert
pub mod Order
pub mod Queue
pub mod Calls
use flurry.Prelude.{
  ℕ, zero, suc, Bool, true, false, ◌==◌, ltb, ◌||◌, if◌then◌else◌, List, [], ◌∷◌, ◌++◌,
}
use flurry.Prelude.Memory.{Mem, write}
use flurry.Prelude.Outcome.{Outcome, ok, panic, out_of_fuel, ◌>>=◌}

-- The links of all events, and `event_root`.
pub record Links : Type 0 where
  pub root : ℕ
  pub left : Mem
  pub right : Mem
  pub parent : Mem

-- The functions that the kernel sets as callbacks.
pub data EventCallback : Type 0 where
  no_callback : EventCallback
  call_switch_thread : EventCallback
  call_thread_wake : EventCallback

pub data EventKind : Type 0 where
  none_kind : EventKind
  switch_kind : EventKind
  switch_same_kind : EventKind
  wake_kind : EventKind

pub record Events : Type 0 where
  pub links : Links
  pub time : Mem
  pub enqueued : ℕ → Bool
  pub owner : Mem
  pub callback : ℕ → EventCallback
  pub callback_arg : Mem
  pub kind : ℕ → EventKind

-- One field of one event set to a value that is no number.
unfoldable pub set_field {ℓ} : {A : Type ℓ} → ℕ → A → (ℕ → A) → ℕ → A
set_field p v f q = if q == p then v else f q

-- `event_create`, at the address that `kmalloc` gave for the event.
unfoldable pub event_create : ℕ → Events → Events
unfolding set_field
event_create event s = record {
  links = record {
    root = s.links.root;
    left = write s.links.left event 0;
    right = write s.links.right event 0;
    parent = write s.links.parent event 0;
  };
  time = write s.time event 0;
  enqueued = set_field event false s.enqueued;
  owner = write s.owner event 0;
  callback = set_field event no_callback s.callback;
  callback_arg = write s.callback_arg event 0;
  kind = set_field event none_kind s.kind;
}

-- The child that the search for `node` goes on to.
unfoldable pub next_child : Mem → Links → ℕ → ℕ → ℕ
next_child time l node current =
    if ltb (time node) (time current) then l.left current else l.right current

-- The loop of `event_bst_insert`: the last node before NULL.
unfoldable pub insert_parent : ℕ → Mem → Links → ℕ → ℕ → ℕ → Outcome ℕ
unfolding next_child
insert_parent zero time l node parent current = out_of_fuel
insert_parent (suc rounds) time l node parent current =
    let rest = insert_parent rounds time l node current (next_child time l node current) in
    if current == 0 then ok parent else rest

unfoldable pub attach : Mem → ℕ → ℕ → Links → Links
attach time node parent l =
    if ltb (time node) (time parent)
    then record l { parent = write l.parent node parent; left = write l.left parent node }
    else record l { parent = write l.parent node parent; right = write l.right parent node }

unfoldable pub event_bst_insert : ℕ → Mem → ℕ → Links → Outcome Links
unfolding insert_parent attach
event_bst_insert rounds time node l =
    if l.root == 0
    then ok (record l { root = node })
    else do parent ← insert_parent rounds time l node 0 l.root; ok (attach time node parent l)

-- `if (v != NULL) v->parent = p`.
unfoldable pub set_parent : ℕ → ℕ → Links → Links
set_parent v p l = if v == 0 then l else record l { parent = write l.parent v p }

unfoldable pub bst_transplant : ℕ → ℕ → Links → Links
unfolding set_parent
bst_transplant u v l = set_parent v (l.parent u) (
    if l.parent u == 0
    then record l { root = v }
    else if u == l.left (l.parent u)
    then record l { left = write l.left (l.parent u) v }
    else record l { right = write l.right (l.parent u) v })

unfoldable pub leftmost : ℕ → Mem → ℕ → Outcome ℕ
leftmost zero left node = out_of_fuel
leftmost (suc rounds) left node =
    let rest = leftmost rounds left (left node) in if left node == 0 then ok node else rest

unfoldable pub bst_minimum : ℕ → Mem → ℕ → Outcome ℕ
unfolding leftmost
bst_minimum rounds left node = if node == 0 then ok 0 else leftmost rounds left node

-- The steps of `bst_delete` for a node with two children: `y` leaves its place, and takes the node's.
unfoldable pub detach : ℕ → ℕ → Links → Links
unfolding bst_transplant set_parent
detach node y l =
    let l1 = bst_transplant y (l.right y) l in
    set_parent (l1.right node) y (record l1 { right = write l1.right y (l1.right node) })

unfoldable pub supplant : ℕ → ℕ → Links → Links
unfolding bst_transplant set_parent
supplant node y l =
    let l1 = bst_transplant node y l in
    set_parent (l1.left node) y (record l1 { left = write l1.left y (l1.left node) })

unfoldable pub bst_delete : ℕ → ℕ → Links → Outcome Links
unfolding bst_transplant bst_minimum detach supplant
bst_delete rounds node l =
    if l.left node == 0
    then ok (bst_transplant node (l.right node) l)
    else if l.right node == 0
    then ok (bst_transplant node (l.left node) l)
    else do
      y ← bst_minimum rounds l.left (l.right node)
      ok (supplant node y (if l.parent y == node then l else detach node y l))

unfoldable pub clear_links : ℕ → Links → Links
clear_links event l = record l {
  left = write l.left event 0;
  right = write l.right event 0;
  parent = write l.parent event 0;
}

unfoldable pub event_remove : ℕ → ℕ → Events → Outcome Events
unfolding bst_delete clear_links set_field
event_remove rounds to_remove s = if (s.links.root == 0) || (to_remove == 0) then ok s else do
  l ← bst_delete rounds to_remove s.links
  ok (record s { links = clear_links to_remove l; enqueued = set_field to_remove false s.enqueued })

-- `event_enqueue` from the removal on.
unfoldable pub enqueue_removed : ℕ → ℕ → Events → Outcome Events
unfolding clear_links event_bst_insert set_field
enqueue_removed rounds to_insert s = do
  l ← event_bst_insert rounds s.time to_insert (clear_links to_insert s.links)
  ok (record s { links = l; enqueued = set_field to_insert true s.enqueued })

unfoldable pub event_enqueue : ℕ → ℕ → Events → Outcome Events
unfolding event_remove enqueue_removed
event_enqueue rounds to_insert s =
    if to_insert == 0
    then panic
    else if s.enqueued to_insert
    then (event_remove rounds to_insert s >>= enqueue_removed rounds to_insert)
    else enqueue_removed rounds to_insert s

unfoldable pub event_peek_next : ℕ → Events → Outcome ℕ
unfolding bst_minimum
event_peek_next rounds s = bst_minimum rounds s.links.left s.links.root

unfoldable pub event_dequeue : ℕ → Events → Outcome (ℕ × Events)
unfolding bst_minimum bst_delete
event_dequeue rounds s = if s.links.root == 0 then panic else do
  min_event ← bst_minimum rounds s.links.left s.links.root
  l ← bst_delete rounds min_event s.links
  ok (min_event, record s { links = l })

-- The events in the order in which `print_event_bst_inorder` prints them.
unfoldable pub inorder : ℕ → Links → ℕ → Outcome (List ℕ)
inorder zero l node = out_of_fuel
inorder (suc rounds) l node =
    let below = inorder rounds l (l.left node) in
    let above = inorder rounds l (l.right node) in
    if node == 0 then ok [] else do xs ← below; ys ← above; ok (xs ++ (node ∷ ys))
