-- ===== src/Ytree/Avl/Node.antt =====
-- Tree_Insert and Tree_DeleteNode (ydb/ytree.c) keep the AVL invariant.
use libydb.Prelude.{
  suc, ◌≡◌, max, ℤ, pos, Option, [], ◌∷◌, ◌++◌, arith, Returns, inl, refl, ap, subst,
}
use libydb.Order.{Ord}
use libydb.Ytree.{Tree, null, node, from_left, from_right, Ancestors, root_of, Place, node_at}
use libydb.Ytree.Balance.{delete_balance, delete_round}
use libydb.Ytree.Node.{
  Walk, attached, found, insert_walk, node_new, leftmost, delete_leaf, splice, delete_node,
}
use libydb.Ytree.Leftmost.{AllLeft, AllLeft-leftmost, left-leftmost, root_of-leftmost}
use libydb.Ytree.Avl.{height, Balances, IsSmall, IsAvl, IsAvlAbove}
use libydb.Ytree.Avl.Insert.{insert_balance-IsAvl}
use libydb.Ytree.Avl.Delete.{delete_balance-IsAvl}

module _ {ℓ κ} {K : Type ℓ} {D : Type κ} where
  -- A part of an AVL tree is one, and its ancestors are in order.
  pub IsAvl-of_root :
      (p : Ancestors K D) (t : Tree K D) → IsAvl (root_of p t) → IsAvl t × IsAvlAbove p (height t)
  unfolding root_of
  IsAvl-of_root [] t h = (h, tt)
  IsAvl-of_root (from_left k x b r ∷ p) t h =
      let (a, above) = IsAvl-of_root p (node t k x b r) h in (a.0, (a.1, a.2, a.3, above))
  IsAvl-of_root (from_right l k x b ∷ p) t h =
      let (a, above) = IsAvl-of_root p (node l k x b t) h in (a.1, (a.0, a.2, a.3, above))

  -- A tree that a walk has found, or made, is an AVL tree.
  abbrev pub WalkIsAvl : Walk K D → Type 0
  WalkIsAvl (attached o) = Returns IsAvl o
  WalkIsAvl (found n) = IsAvl (node_at n) × IsAvlAbove n.ancestors (height (node_at n))

  height-root_of :
      (p : Ancestors K D) (t u : Tree K D)
      → height t ≡ height u
      → height (root_of p t) ≡ height (root_of p u)
  unfolding root_of
  height-root_of [] t u e = e
  height-root_of (from_left k x b r ∷ p) t u e = height-root_of p _ _ (omega arith)
  height-root_of (from_right l k x b ∷ p) t u e = height-root_of p _ _ (omega arith)

  IsAvlAbove-append :
      (q p : Ancestors K D) (t : Tree K D)
      → IsAvlAbove q (height t)
      → IsAvlAbove p (height (root_of q t))
      → IsAvlAbove (q ++ p) (height t)
  unfolding root_of
  IsAvlAbove-append [] p t a b = b
  IsAvlAbove-append (from_left k x c r ∷ q) p t a b =
      (a.0, a.1, a.2, IsAvlAbove-append q p (node t k x c r) a.3 b)
  IsAvlAbove-append (from_right l k x c ∷ q) p t a b =
      (a.0, a.1, a.2, IsAvlAbove-append q p (node l k x c t) a.3 b)

  delete_leaf-IsAvl : (p : Ancestors K D) → IsAvlAbove p 1 → Returns IsAvl (delete_leaf p)
  unfolding delete_leaf
  delete_leaf-IsAvl [] a = tt
  delete_leaf-IsAvl (f ∷ p) a = delete_balance-IsAvl f p null tt a

  -- A node whose only child `t` took its place: `t` has no children.
  only_child-IsAvl :
      (p : Ancestors K D) (t : Tree K D)
      → IsAvl t
      → height t ≡ 1
      → IsAvlAbove p 2
      → Returns IsAvl (delete_balance p t (pos 0))
  unfolding delete_balance delete_round
  only_child-IsAvl p null a h above = absurd (omega arith)
  only_child-IsAvl [] (node l k x b r) a h above = ground arith
  only_child-IsAvl (f ∷ p) (node l k x b r) a h above =
      ground (arith, delete_balance-IsAvl f p (node l k x b r))

  splice-IsAvl :
      (p : Ancestors K D) (l : Tree K D) (b : ℤ) (s : Place K D) (q : Ancestors K D)
      → s.left ≡ null
      → AllLeft q
      → IsAvl l
      → IsAvl (root_of q (node_at s))
      → Balances b (height l) (height (root_of q (node_at s)))
      → IsSmall b
      → IsAvlAbove p (suc (max (height l) (height (root_of q (node_at s)))))
      → Returns IsAvl (splice p l b s q)
  unfolding splice root_of
  splice-IsAvl p l b s [] e left al ar bb sb above =
      let hs : height (node_at s) ≡ suc (height s.right) = omega (arith, ap height e) in
      delete_balance-IsAvl (from_right l s.key s.value b) p s.right ar.1
        (al, (rw hs at bb), sb, (rw hs at above))
  splice-IsAvl p l b s (from_left k x c r ∷ q) e left al ar bb sb above =
      let hs : height (node_at s) ≡ suc (height s.right) = omega (arith, ap height e) in
      let (whole, under) = IsAvl-of_root (from_left k x c r ∷ q) (node_at s) ar in
      let all =
        IsAvlAbove-append (from_left k x c r ∷ q) (from_right l s.key s.value b ∷ p) (node_at s)
          under (al, bb, sb, above) in
      delete_balance-IsAvl (from_left k x c r) (q ++ (from_right l s.key s.value b ∷ p)) s.right
        whole.1 (rw hs at all)
  splice-IsAvl p l b s (from_right _ _ _ _ ∷ q) e left al ar bb sb above = absurd left

  -- The node that hangs under `p` is taken out of an AVL tree: no read through NULL, and what is
  -- left is an AVL tree.
  pub delete_node-IsAvl :
      (p : Ancestors K D) (l : Tree K D) (k : K) (x : Option D) (b : ℤ) (r : Tree K D)
      → IsAvl (node l k x b r)
      → IsAvlAbove p (height (node l k x b r))
      → Returns IsAvl (delete_node p l b r)
  unfolding delete_node root_of
  delete_node-IsAvl p null k x b null a above = delete_leaf-IsAvl p above
  delete_node-IsAvl p null k x b (node rl rk rx rb rr) a above =
      only_child-IsAvl p (node rl rk rx rb rr) a.1 (omega arith)
        (subst (λ n. IsAvlAbove p n) (omega arith) above)
  delete_node-IsAvl p (node ll lk lx lb lr) k x b null a above =
      only_child-IsAvl p (node ll lk lx lb lr) a.0 (omega arith)
        (subst (λ n. IsAvlAbove p n) (omega arith) above)
  delete_node-IsAvl p (node ll lk lx lb lr) k x b (node rl rk rx rb rr) a above =
      let s = leftmost rl rk rx rb rr [] in
      let e = root_of-leftmost rl rk rx rb rr [] in
      splice-IsAvl p (node ll lk lx lb lr) b s s.ancestors (left-leftmost rl rk rx rb rr [])
        (AllLeft-leftmost rl rk rx rb rr [] tt) a.0 (rw e a.1) (rw e a.2) a.3 (rw e above)

module _ {ℓ κ} {K : Type ℓ} {D : Type κ} ⦃o : Ord K⦄ where
  -- The walk of an insertion through an AVL tree reads through no NULL. It ends in an AVL tree, or
  -- at the node that has the key.
  pub insert_walk-IsAvl :
      (t : Tree K D) (p : Ancestors K D) (key : K) (x : Option D)
      → IsAvl t
      → IsAvlAbove p (height t)
      → WalkIsAvl (insert_walk t p key x)
  unfolding insert_walk
  insert_walk-IsAvl null [] key x a above = ground arith
  insert_walk-IsAvl null (f ∷ p) key x a above =
      insert_balance-IsAvl f p (node_new key x) 0 (tt, tt, refl, omega arith) (inl refl) refl above
  insert_walk-IsAvl (node l k y b r) p key x a above = ground (
    arith,
    insert_walk-IsAvl l (from_left k y b r ∷ p) key x a.0 (a.1, a.2, a.3, above),
    insert_walk-IsAvl r (from_right l k y b ∷ p) key x a.1 (a.0, a.2, a.3, above),
  )
