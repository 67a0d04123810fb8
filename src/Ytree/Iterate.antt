-- ===== src/Ytree/Iterate.antt =====
-- ydb/ytree.c, the iterators: Tree_FirstNode, Tree_LastNode, Tree_NextNode, Tree_PrevNode and the
-- functions that walk along the tree with them. `none` is the NULL iterator.
pub mod Order
pub mod Traverse
use libydb.Prelude.{
  ℕ, zero, suc, ◌+◌, ℤ, pos, ◌==ℤ◌, Bool, true, false, if◌then◌else◌, Option, none, some, List, [],
  ◌∷◌,
}
use libydb.Ytree.{Tree, null, node, Frame, from_left, from_right, Ancestors, Place, node_at}
use libydb.Ytree.Node.{leftmost, rightmost}

module _ {ℓ κ} {K : Type ℓ} {D : Type κ} where
  unfoldable pub tree_top_node : Tree K D → Option (Place K D)
  tree_top_node null = none
  tree_top_node (node l k x b r) =
      some (record { ancestors = []; left = l; key = k; value = x; balance = b; right = r })

  unfoldable pub tree_first_node : Tree K D → Option (Place K D)
  unfolding leftmost
  tree_first_node null = none
  tree_first_node (node l k x b r) = some (leftmost l k x b r [])

  unfoldable pub tree_last_node : Tree K D → Option (Place K D)
  unfolding rightmost
  tree_last_node null = none
  tree_last_node (node l k x b r) = some (rightmost l k x b r [])

  -- `while (n != NULL && n->right == nTemp)`, where `t` is nTemp and `p` its ancestors
  unfoldable pub climb_from_right : Ancestors K D → Tree K D → Option (Place K D)
  climb_from_right [] t = none
  climb_from_right (from_right l k x b ∷ p) t = climb_from_right p (node l k x b t)
  climb_from_right (from_left k x b r ∷ p) t =
      some (record { ancestors = p; left = t; key = k; value = x; balance = b; right = r })

  -- `while (n != NULL && n->left == nTemp)`
  unfoldable pub climb_from_left : Ancestors K D → Tree K D → Option (Place K D)
  climb_from_left [] t = none
  climb_from_left (from_left k x b r ∷ p) t = climb_from_left p (node t k x b r)
  climb_from_left (from_right l k x b ∷ p) t =
      some (record { ancestors = p; left = l; key = k; value = x; balance = b; right = t })

  -- Tree_NextNode, from the node `l`, `k`, `x`, `b`, `r` under `p`
  unfoldable pub next_at :
      Ancestors K D → Tree K D → K → Option D → ℤ → Tree K D → Option (Place K D)
  unfolding leftmost climb_from_right
  next_at p l k x b null = climb_from_right p (node l k x b null)
  next_at p l k x b (node rl rk rx rb rr) = some (leftmost rl rk rx rb rr (from_right l k x b ∷ p))

  unfoldable pub tree_next_node : Place K D → Option (Place K D)
  unfolding next_at
  tree_next_node n = next_at n.ancestors n.left n.key n.value n.balance n.right

  -- Tree_PrevNode
  unfoldable pub prev_at :
      Ancestors K D → Tree K D → K → Option D → ℤ → Tree K D → Option (Place K D)
  unfolding rightmost climb_from_left
  prev_at p null k x b r = climb_from_left p (node null k x b r)
  prev_at p (node ll lk lx lb lr) k x b r = some (rightmost ll lk lx lb lr (from_left k x b r ∷ p))

  unfoldable pub tree_prev_node : Place K D → Option (Place K D)
  unfolding prev_at
  tree_prev_node n = prev_at n.ancestors n.left n.key n.value n.balance n.right

  -- ytree_next and ytree_prev: from NULL to the first, and to the last node
  unfoldable pub ytree_next : Tree K D → Option (Place K D) → Option (Place K D)
  unfolding tree_first_node tree_next_node
  ytree_next root none = tree_first_node root
  ytree_next root (some n) = tree_next_node n

  unfoldable pub ytree_prev : Tree K D → Option (Place K D) → Option (Place K D)
  unfolding tree_last_node tree_prev_node
  ytree_prev root none = tree_last_node root
  ytree_prev root (some n) = tree_prev_node n

  -- The number of nodes: the fuel of the loops below.
  abbrev pub nodes : Tree K D → ℕ
  nodes null = 0
  nodes (node l k x b r) = suc (nodes l + nodes r)

-- A callback gets an entry, and the state `S` behind `user_data`; it stops the walk by a result
-- other than 0.
abbrev pub Callback {ℓ κ μ} : Type ℓ → Type κ → Type μ → Type (ℓ ⊔ κ ⊔ μ)
Callback K D S = K → Option D → S → ℤ × S

module _ {ℓ κ μ} {K : Type ℓ} {D : Type κ} {S : Type μ} (cb : Callback K D S) where
  -- The loop of ytree_traverse, and of ytree_traverse_reverse; `none` if the fuel runs out.
  unfoldable pub traverse_from :
      ℕ → (Place K D → Option (Place K D)) → Option (Place K D) → S → Option (ℤ × S)
  traverse_from zero step n s = none
  traverse_from (suc fuel) step none s = some (pos 0, s)
  traverse_from (suc fuel) step (some n) s =
      let (res, s') = cb n.key n.value s in
      let rest = traverse_from fuel step (step n) s' in
      if res ==ℤ pos 0 then rest else some (res, s')

  unfoldable pub ytree_traverse : Tree K D → S → Option (ℤ × S)
  unfolding traverse_from tree_first_node tree_next_node
  ytree_traverse root = traverse_from (suc (nodes root)) tree_next_node (tree_first_node root)

  unfoldable pub ytree_traverse_reverse : Tree K D → S → Option (ℤ × S)
  unfolding traverse_from tree_last_node tree_prev_node
  ytree_traverse_reverse root =
      traverse_from (suc (nodes root)) tree_prev_node (tree_last_node root)
