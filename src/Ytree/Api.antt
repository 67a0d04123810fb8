-- ===== src/Ytree/Api.antt =====
-- ydb/ytree.c, the functions of ydb/ytree.h that look a key up or change the tree.
pub mod Refine
use libydb.Prelude.{
  ℕ, ◌+◌, ◌-◌, ◌%◌, ◌^◌, Bool, true, false, if◌then◌else◌, Option, none, some, List, [], ◌∷◌, ◌++◌,
  ◌>>=◌,
}
use libydb.Order.{Ord}
use libydb.Ytree.{Tree, null, node, Ancestors, Place, node_at, write_at}
use libydb.Ytree.Node.{Walk, attached, found, insert_walk, search_node, delete_node}

-- A call of `key_free`, `data_free` or the caller's `data_free`.
pub data Freed {ℓ κ} (K : Type ℓ) (D : Type κ) : Type (ℓ ⊔ κ) where
  freed_key : K → Freed K D
  freed_data : D → Freed K D

-- `struct _ytree`. `key_free` and `data_free` say whether a callback is set; `freed` is the list of
-- the calls made, oldest first. `comp` is the instance of `Ord`.
pub record Ytree {ℓ κ} (K : Type ℓ) (D : Type κ) : Type (ℓ ⊔ κ) where
  pub root : Tree K D
  pub size : ℕ
  pub key_free : Bool
  pub data_free : Bool
  pub freed : List (Freed K D)

-- size_t: `size++` and `size--`
abbrev pub size_mod : ℕ
size_mod = 2 ^ 64

abbrev pub size_inc : ℕ → ℕ
size_inc n = (n + 1) % size_mod

abbrev pub size_dec : ℕ → ℕ
size_dec n = (n + size_mod - 1) % size_mod

module _ {ℓ κ} {K : Type ℓ} {D : Type κ} where
  -- `if (key_free && key) key_free(key);`, keys being no NULL pointers
  abbrev pub free_key : Bool → K → List (Freed K D)
  free_key set k = if set then freed_key k ∷ [] else []

  -- `if (data_free && data) data_free(data);`
  abbrev pub free_data : Bool → Option D → List (Freed K D)
  free_data set none = []
  free_data set (some d) = if set then freed_data d ∷ [] else []

  -- ytree_create
  unfoldable pub ytree_create : Bool → Ytree K D
  ytree_create key_free = record {
    root = null;
    size = 0;
    key_free = key_free;
    data_free = false;
    freed = [];
  }

  -- ytree_size returns an `unsigned int`.
  unfoldable pub ytree_size : Ytree K D → ℕ
  ytree_size t = t.size % 2 ^ 32

  -- Tree_DeleteNode, with its `t->size--`
  unfoldable pub tree_delete_node : Ytree K D → Place K D → Option (Ytree K D)
  tree_delete_node t n = do
    root ← delete_node n.ancestors n.left n.balance n.right
    some (record t { root = root; size = size_dec t.size })

  -- What Tree_Insert does where its loop ends. With `del` it frees and overwrites a node that it
  -- found and returns NULL (`none` beside the tree), else it returns that node.
  unfoldable pub insert_at :
      Ytree K D → K → Option D → Bool → Walk K D → Option (Ytree K D × Option (Place K D))
  insert_at t key x del (attached o) = do
    root ← o
    some (record t { root = root; size = size_inc t.size }, none)
  insert_at t key x true (found n) = some (
    record t {
      root = write_at n key x;
      freed = t.freed ++ (free_key t.key_free n.key ++ free_data t.data_free n.value);
    },
    none,
  )
  insert_at t key x false (found n) = some (t, some n)

  -- ytree_insert, on what Tree_Insert returned: the node's old data is returned.
  unfoldable pub overwrite :
      K → Option D → Ytree K D × Option (Place K D) → Option (Ytree K D × Option D)
  overwrite key x (t, none) = some (t, none)
  overwrite key x (t, some n) =
      some (
        record t { root = write_at n key x; freed = t.freed ++ free_key t.key_free n.key },
        n.value,
      )

  -- ytree_delete and ytree_delete_custom, on the node that Tree_SearchNode returned; `data_freed` is
  -- what the caller's `data_free` is called with, after `key_free`.
  unfoldable pub delete_at :
      Ytree K D → (Option D → List (Freed K D)) → Option (Place K D) → Option (Ytree K D × Option D)
  unfolding tree_delete_node
  delete_at t data_freed none = some (t, none)
  delete_at t data_freed (some n) = do
    u ← tree_delete_node t n
    some
        (record u { freed = u.freed ++ (free_key u.key_free n.key ++ data_freed n.value) }, n.value)

module _ {ℓ κ} {K : Type ℓ} {D : Type κ} ⦃o : Ord K⦄ where
  -- Tree_Insert; `none` is a read through NULL.
  unfoldable pub tree_insert :
      Ytree K D → K → Option D → Bool → Option (Ytree K D × Option (Place K D))
  unfolding insert_at
  tree_insert t key x del = insert_at t key x del (insert_walk t.root [] key x)

  -- `none` beside the tree is the NULL of a key that was not there, or of its NULL data.
  unfoldable pub ytree_insert : Ytree K D → K → Option D → Option (Ytree K D × Option D)
  unfolding tree_insert overwrite
  ytree_insert t key x = tree_insert t key x false >>= overwrite key x

  -- The tree's own `data_free` is put back when the entry is in.
  unfoldable pub ytree_insert_custom : Ytree K D → K → Option D → Bool → Option (Ytree K D)
  unfolding tree_insert
  ytree_insert_custom t key x data_free = do
    r ← tree_insert (record t { data_free = data_free }) key x true
    some (record (r.0) { data_free = t.data_free })

  unfoldable pub ytree_delete : Ytree K D → K → Option (Ytree K D × Option D)
  unfolding delete_at
  ytree_delete t key = delete_at t (λ _. []) (search_node t.root [] key)

  unfoldable pub ytree_delete_custom : Ytree K D → K → Bool → Option (Ytree K D)
  unfolding delete_at
  ytree_delete_custom t key data_free = do
    r ← delete_at t (free_data data_free) (search_node t.root [] key)
    some r.0

  unfoldable pub ytree_search : Ytree K D → K → Option D
  ytree_search t key = elim (search_node t.root [] key) [ none ↦ none | some n ↦ n.value ]

  unfoldable pub ytree_exist : Ytree K D → K → Bool
  ytree_exist t key = elim (search_node t.root [] key) [ none ↦ false | some n ↦ true ]
