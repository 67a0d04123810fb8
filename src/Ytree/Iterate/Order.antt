-- ===== src/Ytree/Iterate/Order.antt =====
-- The iterators of ydb/ytree.c go along the entries of the tree in their order, one at a time.
use libydb.Prelude.{
  ℤ, Option, none, some, List, [], ◌∷◌, ◌++◌, ◌≡◌, refl, append_assoc, append-nil, sym, ◌∙◌,
}
use libydb.Dict.{Entry}
use libydb.Ytree.{Tree, null, node, from_left, from_right, Ancestors, root_of, Place, node_at}
use libydb.Ytree.Node.{leftmost, rightmost}
use libydb.Ytree.Iterate.{
  tree_first_node, tree_last_node, climb_from_right, climb_from_left, next_at, prev_at,
  tree_next_node, tree_prev_node,
}
use libydb.Ytree.Entries.{entries, before, after, entries-root_of}

module _ {ℓ κ} {K : Type ℓ} {D : Type κ} where
  -- The entries before, at and after a node.
  abbrev pub preceding : Place K D → List (Entry K D)
  preceding n = before n.ancestors ++ entries n.left

  abbrev pub entry_at : Place K D → Entry K D
  entry_at n = (n.key, n.value)

  abbrev pub following : Place K D → List (Entry K D)
  following n = entries n.right ++ after n.ancestors

  -- The whole tree that a node belongs to.
  abbrev pub tree_of : Place K D → Tree K D
  tree_of n = root_of n.ancestors (node_at n)

  pub entries-tree_of :
      (n : Place K D) → entries (tree_of n) ≡ preceding n ++ (entry_at n ∷ following n)
  entries-tree_of n = entries-root_of n.ancestors (node_at n) ∙ simp append_assoc

  -- The iterator `m` stands at the first of the entries `fs`, which come after `ps` in the tree
  -- `root`; the NULL iterator stands at the end.
  abbrev pub StandsAt :
      Tree K D → List (Entry K D) → List (Entry K D) → Option (Place K D) → Type (ℓ ⊔ κ)
  StandsAt root ps fs none = fs ≡ []
  StandsAt root ps fs (some m) =
      (tree_of m ≡ root) × (preceding m ≡ ps) × (entry_at m ∷ following m ≡ fs)

  leftmost-StandsAt :
      (l : Tree K D) (k : K) (x : Option D) (b : ℤ) (r : Tree K D) (p : Ancestors K D)
      → StandsAt
          (root_of p (node l k x b r))
          (before p)
          (entries (node l k x b r) ++ after p)
          (some (leftmost l k x b r p))
  unfolding leftmost root_of
  leftmost-StandsAt null k x b r p = (refl, append-nil _, refl)
  leftmost-StandsAt (node ll lk lx lb lr) k x b r p =
      let (e, ps, fs) = leftmost-StandsAt ll lk lx lb lr (from_left k x b r ∷ p) in
      (e, ps, fs ∙ simp append_assoc)

  climb_from_right-StandsAt :
      (p : Ancestors K D) (t : Tree K D)
      → StandsAt (root_of p t) (before p ++ entries t) (after p) (climb_from_right p t)
  unfolding climb_from_right root_of
  climb_from_right-StandsAt [] t = refl
  climb_from_right-StandsAt (from_left k x b r ∷ p) t = (refl, refl, refl)
  climb_from_right-StandsAt (from_right l k x b ∷ p) t =
      rw
        (
          append_assoc (before p) (entries l ++ ((k, x) ∷ [])) (entries t),
          append_assoc (entries l) ((k, x) ∷ []) (entries t),
        )
        (climb_from_right-StandsAt p (node l k x b t))

  -- Tree_NextNode goes to the entry after the node's, and to NULL from the last.
  pub tree_next_node-StandsAt :
      (n : Place K D)
      → StandsAt (tree_of n) (preceding n ++ (entry_at n ∷ [])) (following n) (tree_next_node n)
  unfolding tree_next_node next_at root_of
  tree_next_node-StandsAt n = at n.ancestors n.left n.key n.value n.balance n.right
    where
      at :
          (p : Ancestors K D) (l : Tree K D) (k : K) (x : Option D) (b : ℤ) (r : Tree K D)
          → StandsAt
              (root_of p (node l k x b r))
              ((before p ++ entries l) ++ ((k, x) ∷ []))
              (entries r ++ after p)
              (next_at p l k x b r)
      at p l k x b null =
          rw (append_assoc (before p) (entries l) ((k, x) ∷ []))
            (climb_from_right-StandsAt p (node l k x b null))
      at p l k x b (node rl rk rx rb rr) =
          rw (append_assoc (before p) (entries l) ((k, x) ∷ []))
            (leftmost-StandsAt rl rk rx rb rr (from_right l k x b ∷ p))

  pub tree_first_node-StandsAt : (t : Tree K D) → StandsAt t [] (entries t) (tree_first_node t)
  unfolding tree_first_node root_of
  tree_first_node-StandsAt null = refl
  tree_first_node-StandsAt (node l k x b r) =
      rw (sym (append-nil (entries (node l k x b r)))) (leftmost-StandsAt l k x b r [])

  -- The iterator `m` stands at the last of the entries `ps`, which come before `fs` in the tree
  -- `root`; the NULL iterator stands before them all.
  abbrev pub EndsAt :
      Tree K D → List (Entry K D) → List (Entry K D) → Option (Place K D) → Type (ℓ ⊔ κ)
  EndsAt root ps fs none = ps ≡ []
  EndsAt root ps fs (some m) =
      (tree_of m ≡ root) × (preceding m ++ (entry_at m ∷ []) ≡ ps) × (following m ≡ fs)

  rightmost-EndsAt :
      (l : Tree K D) (k : K) (x : Option D) (b : ℤ) (r : Tree K D) (p : Ancestors K D)
      → EndsAt
          (root_of p (node l k x b r))
          (before p ++ entries (node l k x b r))
          (after p)
          (some (rightmost l k x b r p))
  unfolding rightmost root_of
  rightmost-EndsAt l k x b null p = (refl, append_assoc (before p) (entries l) _, refl)
  rightmost-EndsAt l k x b (node rl rk rx rb rr) p =
      let (e, ps, fs) = rightmost-EndsAt rl rk rx rb rr (from_right l k x b ∷ p) in
      (e, ps ∙ simp append_assoc, fs)

  climb_from_left-EndsAt :
      (p : Ancestors K D) (t : Tree K D)
      → EndsAt (root_of p t) (before p) (entries t ++ after p) (climb_from_left p t)
  unfolding climb_from_left root_of
  climb_from_left-EndsAt [] t = refl
  climb_from_left-EndsAt (from_right l k x b ∷ p) t =
      (refl, append_assoc (before p) (entries l) _, refl)
  climb_from_left-EndsAt (from_left k x b r ∷ p) t =
      rw (sym (append_assoc (entries t) ((k, x) ∷ entries r) (after p)))
        (climb_from_left-EndsAt p (node t k x b r))

  -- Tree_PrevNode goes to the entry before the node's, and to NULL from the first.
  pub tree_prev_node-EndsAt :
      (n : Place K D)
      → EndsAt (tree_of n) (preceding n) (entry_at n ∷ following n) (tree_prev_node n)
  unfolding tree_prev_node prev_at root_of
  tree_prev_node-EndsAt n = at n.ancestors n.left n.key n.value n.balance n.right
    where
      at :
          (p : Ancestors K D) (l : Tree K D) (k : K) (x : Option D) (b : ℤ) (r : Tree K D)
          → EndsAt
              (root_of p (node l k x b r))
              (before p ++ entries l)
              ((k, x) ∷ (entries r ++ after p))
              (prev_at p l k x b r)
      at p null k x b r = rw (append-nil (before p)) (climb_from_left-EndsAt p (node null k x b r))
      at p (node ll lk lx lb lr) k x b r = rightmost-EndsAt ll lk lx lb lr (from_left k x b r ∷ p)

  pub tree_last_node-EndsAt : (t : Tree K D) → EndsAt t (entries t) [] (tree_last_node t)
  unfolding tree_last_node root_of
  tree_last_node-EndsAt null = refl
  tree_last_node-EndsAt (node l k x b r) = rightmost-EndsAt l k x b r []
