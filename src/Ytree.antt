-- ===== src/Ytree.antt =====
-- ydb/ytree.c
pub mod Rotate
pub mod Balance
pub mod Node
pub mod Leftmost
pub mod Avl
pub mod Entries
pub mod Api
pub mod Iterate
pub mod Nearby
pub mod Remove
pub mod Push
pub mod Client
mod Tests
use libydb.Prelude.{
  ℕ, ℤ, pos, negsuc, Option, none, some, List, [], ◌∷◌, ◌++◌, Bool, ◌+◌, ◌-◌, ◌%◌, ◌^◌,
}

-- `struct _ytree_node`, with the nodes below it: left, key, data, balance, right. `null` is NULL.
pub data Tree {ℓ κ} (K : Type ℓ) (D : Type κ) : Type (ℓ ⊔ κ) where
  null : Tree K D
  node : Tree K D → K → Option D → ℤ → Tree K D → Tree K D

-- A parent, seen from the child through which it was reached.
pub data Frame {ℓ κ} (K : Type ℓ) (D : Type κ) : Type (ℓ ⊔ κ) where
  from_left : K → Option D → ℤ → Tree K D → Frame K D
  from_right : Tree K D → K → Option D → ℤ → Frame K D

-- The chain of `parent` pointers of a node, nearest first.
abbrev pub Ancestors {ℓ κ} : Type ℓ → Type κ → Type (ℓ ⊔ κ)
Ancestors K D = List (Frame K D)

module _ {ℓ κ} {K : Type ℓ} {D : Type κ} where
  -- The parent, with its child pointer set to `t`.
  abbrev pub plug : Frame K D → Tree K D → Tree K D
  plug (from_left k x b r) t = node t k x b r
  plug (from_right l k x b) t = node l k x b t

  -- The whole tree (`t->root`) in which `t` hangs under its ancestors.
  unfoldable pub root_of : Ancestors K D → Tree K D → Tree K D
  root_of [] t = t
  root_of (f ∷ p) t = root_of p (plug f t)

-- A pointer to a node of the tree: where it hangs, and its fields.
pub record Place {ℓ κ} (K : Type ℓ) (D : Type κ) : Type (ℓ ⊔ κ) where
  pub ancestors : Ancestors K D
  pub left : Tree K D
  pub key : K
  pub value : Option D
  pub balance : ℤ
  pub right : Tree K D

module _ {ℓ κ} {K : Type ℓ} {D : Type κ} where
  -- The node itself, with what is below it.
  abbrev pub node_at : Place K D → Tree K D
  node_at n = node n.left n.key n.value n.balance n.right

  -- `node->key = key; node->data = data;`, as a change of the whole tree.
  unfoldable pub write_at : Place K D → K → Option D → Tree K D
  unfolding root_of
  write_at n key x = root_of n.ancestors (node n.left key x n.balance n.right)
