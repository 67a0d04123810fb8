-- ===== src/Ytree/Node.antt =====
-- ydb/ytree.c, the functions on nodes: Tree_Insert, Tree_SearchNode, Tree_DeleteNode.
use Prim.Native.Nat.Ordering.{lt, eq, gt}
use libydb.Prelude.{ℤ, pos, negsuc, Option, none, some, [], ◌∷◌, ◌++◌}
use libydb.Order.{Ord}
use libydb.Ytree.{Tree, null, node, from_left, from_right, Ancestors, plug, Place}
use libydb.Ytree.Balance.{insert_balance, insert_delta, delete_balance, delete_delta}

-- How the loop of Tree_Insert ends: a new node was hung and the tree balanced (`none`: the
-- balancing read through NULL), or the key is there already.
pub data Walk {ℓ κ} (K : Type ℓ) (D : Type κ) : Type (ℓ ⊔ κ) where
  attached : Option (Tree K D) → Walk K D
  found : Place K D → Walk K D

module _ {ℓ κ} {K : Type ℓ} {D : Type κ} where
  -- Node_New, as the child of the node above.
  unfoldable pub node_new : K → Option D → Tree K D
  node_new key x = node null key x (pos 0) null

  -- `while (n->left != NULL) n = n->left;`, from the node with these fields.
  unfoldable pub leftmost : Tree K D → K → Option D → ℤ → Tree K D → Ancestors K D → Place K D
  leftmost null k x b r p = record {
    ancestors = p;
    left = null;
    key = k;
    value = x;
    balance = b;
    right = r;
  }
  leftmost (node ll lk lx lb lr) k x b r p = leftmost ll lk lx lb lr (from_left k x b r ∷ p)

  -- `while (n->right != NULL) n = n->right;`
  unfoldable pub rightmost : Tree K D → K → Option D → ℤ → Tree K D → Ancestors K D → Place K D
  rightmost l k x b null p = record {
    ancestors = p;
    left = l;
    key = k;
    value = x;
    balance = b;
    right = null;
  }
  rightmost l k x b (node rl rk rx rb rr) p = rightmost rl rk rx rb rr (from_right l k x b ∷ p)

  -- A node without children is unhung from its parent.
  unfoldable pub delete_leaf : Ancestors K D → Option (Tree K D)
  delete_leaf [] = some null
  delete_leaf (f ∷ p) = delete_balance p (plug f null) (delete_delta f)

  -- The successor `s` of a node takes its place, its left subtree `l` and its balance `b`. The
  -- ancestors of `s` are counted from the node's right child: there are none if it is that child.
  unfoldable pub splice :
      Ancestors K D → Tree K D → ℤ → Place K D → Ancestors K D → Option (Tree K D)
  splice p l b s [] = delete_balance p (node l s.key s.value b s.right) (negsuc 0)
  splice p l b s (f ∷ q) =
      delete_balance (q ++ (from_right l s.key s.value b ∷ p)) (plug f s.right) (pos 1)

  -- Tree_DeleteNode: the whole tree without the node that has these fields.
  unfoldable pub delete_node : Ancestors K D → Tree K D → ℤ → Tree K D → Option (Tree K D)
  unfolding delete_leaf splice leftmost
  delete_node p null b null = delete_leaf p
  delete_node p null b (node rl rk rx rb rr) = delete_balance p (node rl rk rx rb rr) (pos 0)
  delete_node p (node ll lk lx lb lr) b null = delete_balance p (node ll lk lx lb lr) (pos 0)
  delete_node p (node ll lk lx lb lr) b (node rl rk rx rb rr) =
      let s = leftmost rl rk rx rb rr [] in splice p (node ll lk lx lb lr) b s s.ancestors

module _ {ℓ κ} {K : Type ℓ} {D : Type κ} ⦃o : Ord K⦄ where
  -- The loop of Tree_Insert at the child `t` of the nearest of `p`. At NULL the new node becomes
  -- that child of its parent `f`, and the balancing starts at the parent with -1 or 1; an empty tree
  -- gets it as its root.
  unfoldable pub insert_walk : Tree K D → Ancestors K D → K → Option D → Walk K D
  unfolding node_new
  insert_walk null [] key x = attached (some (node_new key x))
  insert_walk null (f ∷ p) key x =
      attached (insert_balance p (plug f (node_new key x)) (insert_delta f))
  insert_walk (node l k y b r) p key x = elim (o.cmp key k) [
    | lt ↦ insert_walk l (from_left k y b r ∷ p) key x
    | gt ↦ insert_walk r (from_right l k y b ∷ p) key x
    | eq ↦ found (record { ancestors = p; left = l; key = k; value = y; balance = b; right = r })
  ]

  -- The loop of Tree_SearchNode.
  unfoldable pub search_node : Tree K D → Ancestors K D → K → Option (Place K D)
  search_node null p key = none
  search_node (node l k y b r) p key = elim (o.cmp key k) [
    | lt ↦ search_node l (from_left k y b r ∷ p) key
    | gt ↦ search_node r (from_right l k y b ∷ p) key
    | eq ↦ some (record { ancestors = p; left = l; key = k; value = y; balance = b; right = r })
  ]
