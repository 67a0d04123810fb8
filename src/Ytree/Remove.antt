-- ===== src/Ytree/Remove.antt =====
-- ydb/ytree.c, removal by iterator and the end of a tree: ytree_remove, ytree_remove_reverse and
-- ytree_destroy_custom. An iterator that is returned beside a changed tree is named by the key of
-- its node, which no change of the tree moves to another node.
pub mod Order
pub mod Destroy
use libydb.Prelude.{ℕ, zero, suc, Bool, ◌||◌, Option, none, some, List, [], ◌∷◌, ◌++◌, ◌>>=◌}
use libydb.Ytree.{Tree, Place}
use libydb.Ytree.Iterate.{nodes, tree_top_node, tree_next_node, tree_prev_node}
use libydb.Ytree.Api.{Ytree, Freed, free_key, free_data, tree_delete_node}

module _ {ℓ κ} {K : Type ℓ} {D : Type κ} where
  abbrev pub key_of : Option (Place K D) → Option K
  key_of none = none
  key_of (some n) = some n.key

  -- Both functions, `i` being the node that is returned: the key is freed before the node is
  -- deleted. The third result is what goes through `data`.
  unfoldable pub remove_returning :
      Ytree K D → Place K D → Option (Place K D) → Option (Ytree K D × Option K × Option D)
  unfolding tree_delete_node
  remove_returning t n i = do
    u ← tree_delete_node (record t { freed = t.freed ++ free_key t.key_free n.key }) n
    some (u, key_of i, n.value)

  unfoldable pub ytree_remove : Ytree K D → Place K D → Option (Ytree K D × Option K × Option D)
  unfolding remove_returning
  ytree_remove t n = remove_returning t n (tree_prev_node n)

  unfoldable pub ytree_remove_reverse :
      Ytree K D → Place K D → Option (Ytree K D × Option K × Option D)
  unfolding remove_returning
  ytree_remove_reverse t n = remove_returning t n (tree_next_node n)

  -- The loop of ytree_destroy_custom: the root is deleted until there is none. `none` is the end of
  -- the fuel, or a read through NULL.
  unfoldable pub destroy_loop : ℕ → Bool → Ytree K D → Option (Ytree K D)
  destroy_loop zero data_free t = none
  destroy_loop (suc fuel) data_free t = elim (tree_top_node t.root) [
    | none ↦ some t
    | some n ↦ tree_delete_node t n >>= λ u. destroy_loop fuel data_free (record u {
      freed =
          u.freed ++ (free_key u.key_free n.key ++ free_data (data_free || u.data_free) n.value);
    })
  ]

  -- The calls that free the entries; the tree itself is freed after them.
  unfoldable pub ytree_destroy_custom : Ytree K D → Bool → Option (List (Freed K D))
  unfolding destroy_loop
  ytree_destroy_custom t data_free = do
    u ← destroy_loop (suc (nodes t.root)) data_free t
    some u.freed
