-- ===== src/LocHeap.antt =====
-- gps/utils/LocHeap.cpp: a binary tree that keeps the highest ranking data on top.
--
-- A `LocHeapNode` is a `node` with the pointer to its data; NULL is `leaf`. The operations change
-- nodes in place, and each node has one owner, so a change is the new tree. `mSize` is an `int`, which
-- the number of nodes in memory cannot reach. `LocRankable` is abstract: `out_ranks` is the virtual
-- method, a parameter, and `same` compares addresses.

pub mod Order
pub mod Push
pub mod Pop
pub mod Remove
pub mod Top
mod Tests
use android_device_samsung_a.Base.{
  ℕ, suc, ◌-◌, Bool, true, false, ◌&&◌, not, Option, none, some, ◌==◌, leb, if◌then◌else◌,
}

pub data Tree (D : Type 0) : Type 0 where
  leaf : Tree D
  node : (size : ℕ) → D → (left right : Tree D) → Tree D

module _ {D : Type 0} where
  -- `mSize` of a subtree, 0 for NULL.
  abbrev pub size_of : Tree D → ℕ
  size_of leaf = 0
  size_of (node n d l r) = n

  -- `new LocHeapNode(data)`
  abbrev pub single : D → Tree D
  single d = node 1 d leaf leaf

abbrev pub is_some : {D : Type 0} → Option D → Bool
is_some none = false
is_some (some d) = true

module _ {D : Type 0} (out_ranks : D → D → Bool) where
  -- The data of the higher rank stays, the other goes down (`swap`).
  abbrev pub winner : (incoming current : D) → D
  winner x d = if out_ranks x d then x else d

  abbrev pub loser : (incoming current : D) → D
  loser x d = if out_ranks x d then d else x

  -- Whether the top of a subtree ranks above `d`.
  abbrev pub above : Tree D → D → Bool
  above leaf d = false
  above (node n c l r) d = out_ranks c d

  -- `LocHeapNode::push`, with `LocHeap::push` on an empty tree.
  pub push : D → Tree D → Tree D
  push x leaf = single x
  push x (node n d leaf r) = node (suc n) (winner x d) (single (loser x d)) r
  push x (node n d (node nl dl ll lr) leaf) =
      node (suc n) (winner x d) (node nl dl ll lr) (single (loser x d))
  push x (node n d (node nl dl ll lr) (node nr dr rl rr)) =
      let left = push (loser x d) (node nl dl ll lr) in
      let right = push (loser x d) (node nr dr rl rr) in
      if leb nl nr
      then node (suc n) (winner x d) left (node nr dr rl rr)
      else node (suc n) (winner x d) (node nl dl ll lr) right

  -- `LocHeapNode::pop` on a tree whose top holds the data `x` by now (`swap` brought it there from
  -- above): the data of the node that
  -- comes out, and the tree that is left.
  pub pop_top : D → Tree D → D × Tree D
  pop_top x leaf = (x, leaf)
  pop_top x (node n d leaf leaf) = (x, leaf)
  pop_top x (node n d leaf (node nr dr rl rr)) =
      let r = pop_top x (node nr dr rl rr) in (r.0, node (n - 1) dr leaf r.1)
  pop_top x (node n d (node nl dl ll lr) leaf) =
      let l = pop_top x (node nl dl ll lr) in (l.0, node (n - 1) dl l.1 leaf)
  pop_top x (node n d (node nl dl ll lr) (node nr dr rl rr)) =
      let l = pop_top x (node nl dl ll lr) in
      let r = pop_top x (node nr dr rl rr) in
      if out_ranks dl dr
      then (l.0, node (n - 1) dl l.1 (node nr dr rl rr))
      else (r.0, node (n - 1) dr (node nl dl ll lr) r.1)

  -- `LocHeap::peek`
  pub peek : Tree D → Option D
  peek leaf = none
  peek (node n d l r) = some d

  -- `LocHeap::pop`
  pub pop : Tree D → Option D × Tree D
  unfolding pop_top
  pop leaf = (none, leaf)
  pop (node n d l r) = let p = pop_top d (node n d l r) in (some p.0, p.1)

  -- `LocHeapNode::checkNodes`, on NULL too (`LocHeap::checkTree`). The sizes are taken off as they
  -- are in the source; a difference below 0 is not 1, and nor is the 0 that stands for it here.
  pub check_nodes : Tree D → Bool
  check_nodes leaf = true
  check_nodes (node n d l r) =
      not (above l d)
      && check_nodes l
      && not (above r d)
      && check_nodes r
      && (n - size_of l - size_of r == 1)

  -- `LocHeapNode::remove`: the data of the node that comes out, and the tree.
  module _ (same : D → D → Bool) where
    pub remove_node : D → Tree D → Option D × Tree D
    unfolding pop_top
    remove_node x leaf = (none, leaf)
    remove_node x (node n d l r) =
        let in_left = remove_node x l in
        let in_right = remove_node x r in
        if same x d
        then (some (pop_top d (node n d l r)).0, (pop_top d (node n d l r)).1)
        else if out_ranks x d
        then (none, node n d l r)
        else if is_some in_left.0
        then (in_left.0, node (n - 1) d in_left.1 r)
        else if is_some in_right.0
        then (in_right.0, node (n - 1) d l in_right.1)
        else (none, node n d l r)

    -- `LocHeap::remove`
    pub remove : D → Tree D → Option D × Tree D
    unfolding remove_node
    remove x t = remove_node x t
