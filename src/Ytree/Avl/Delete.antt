-- ===== src/Ytree/Avl/Delete.antt =====
-- Tree_DeleteBalance (ydb/ytree.c) restores the AVL invariant.
use libydb.Prelude.{
  ℕ, zero, suc, ◌≡◌, max, ℤ, pos, negsuc, Option, [], ◌∷◌, arith, Returns, Returns->>=,
}
use libydb.Ytree.{Tree, null, node, Frame, from_left, from_right, Ancestors, plug}
use libydb.Ytree.Rotate.{rotate_left, rotate_right, rotate_left_right, rotate_right_left}
use libydb.Ytree.Rotate.{left_right_balances, right_left_balances}
use libydb.Ytree.Balance.{
  Round, done, climb, delete_left_heavy, delete_right_heavy, delete_round, delete_delta,
  delete_balance,
}
use libydb.Ytree.Avl.{
  height, Balances, IsSmall, IsAvl, IsAvlAbove, root_of-IsAvl-height, height_with,
}

module _ {ℓ κ} {K : Type ℓ} {D : Type κ} where
  -- After a round: the subtree has its old height `h` again, or it has lost one level.
  abbrev Settled : ℕ → Round K D → Type 0
  Settled h (done t) = IsAvl t × (height t ≡ h)
  Settled h (climb t) = IsAvl t × (suc (height t) ≡ h)

  delete_right_heavy-Settled :
      (l r : Tree K D) (k : K) (x : Option D) (b : ℤ)
      → IsAvl l
      → IsAvl r
      → height r ≡ suc (suc (height l))
      → Returns (Settled (suc (height r))) (delete_right_heavy (node l k x b r) r)
  unfolding delete_right_heavy rotate_left rotate_right_left right_left_balances
  delete_right_heavy-Settled l null k x b al ar e = absurd (omega arith)
  delete_right_heavy-Settled l (node rl rk rx (pos m) rr) k x b al ar e = ground arith
  delete_right_heavy-Settled l (node null rk rx (negsuc m) rr) k x b al ar e = ground arith
  delete_right_heavy-Settled l (node (node ml mk mx mb mr) rk rx (negsuc m) rr) k x b al ar e =
      ground arith

  delete_left_heavy-Settled :
      (l r : Tree K D) (k : K) (x : Option D) (b : ℤ)
      → IsAvl l
      → IsAvl r
      → height l ≡ suc (suc (height r))
      → Returns (Settled (suc (height l))) (delete_left_heavy (node l k x b r) l)
  unfolding delete_left_heavy rotate_right rotate_left_right left_right_balances
  delete_left_heavy-Settled null r k x b al ar e = absurd (omega arith)
  delete_left_heavy-Settled (node ll lk lx (negsuc m) lr) r k x b al ar e = ground arith
  delete_left_heavy-Settled (node ll lk lx (pos m) null) r k x b al ar e = ground arith
  delete_left_heavy-Settled (node ll lk lx (pos m) (node ml mk mx mb mr)) r k x b al ar e =
      ground arith

  delete_round-left :
      (l r : Tree K D) (k : K) (x : Option D) (b : ℤ)
      → IsAvl l
      → IsAvl r
      → Balances b (suc (height l)) (height r)
      → IsSmall b
      → Returns
          (Settled (suc (max (suc (height l)) (height r))))
          (delete_round (node l k x b r) (pos 1))
  unfolding delete_round
  delete_round-left l r k x (pos zero) al ar bb sb = ground arith
  delete_round-left l r k x (pos (suc m)) al ar bb sb =
      let e : m ≡ 0 = omega arith in
      let h : max (suc (height l)) (height r) ≡ height r = omega arith in
      rw (e, h) (delete_right_heavy-Settled l r k x (pos 2) al ar (omega arith))
  delete_round-left l r k x (negsuc m) al ar bb sb = ground arith

  delete_round-right :
      (l r : Tree K D) (k : K) (x : Option D) (b : ℤ)
      → IsAvl l
      → IsAvl r
      → Balances b (height l) (suc (height r))
      → IsSmall b
      → Returns
          (Settled (suc (max (height l) (suc (height r)))))
          (delete_round (node l k x b r) (negsuc 0))
  unfolding delete_round
  delete_round-right l r k x (pos m) al ar bb sb = ground arith
  delete_round-right l r k x (negsuc m) al ar bb sb =
      let e : m ≡ 0 = omega arith in
      let h : max (height l) (suc (height r)) ≡ height l = omega arith in
      rw (e, h) (delete_left_heavy-Settled l r k x (negsuc 1) al ar (omega arith))

  -- One round at the node `plug f t` above a subtree `t` that has lost one level.
  delete_round-Settled :
      (f : Frame K D) (p : Ancestors K D) (t : Tree K D)
      → IsAvl t
      → IsAvlAbove (f ∷ p) (suc (height t))
      → Returns
          (Settled (height_with f (suc (height t))))
          (delete_round (plug f t) (delete_delta f))
        × IsAvlAbove p (height_with f (suc (height t)))
  delete_round-Settled (from_left k x b r) p t a above =
      (delete_round-left t r k x b a above.0 above.1 above.2, above.3)
  delete_round-Settled (from_right l k x b) p t a above =
      (delete_round-right l t k x b above.0 a above.1 above.2, above.3)

  -- The whole loop, from the node above a subtree that has lost one level: it reads through no
  -- NULL, and leaves an AVL tree.
  pub delete_balance-IsAvl :
      (f : Frame K D) (p : Ancestors K D) (t : Tree K D)
      → IsAvl t
      → IsAvlAbove (f ∷ p) (suc (height t))
      → Returns IsAvl (delete_balance p (plug f t) (delete_delta f))
  unfolding delete_balance
  delete_balance-IsAvl f [] t a above =
      Returns->>= IsAvl (delete_round (plug f t) (delete_delta f)) _
        (delete_round-Settled f [] t a above).0 elim [ done n ↦ λ s. s.0 | climb n ↦ λ s. s.0 ]
  delete_balance-IsAvl f (g ∷ p) t a above =
      let (settled, above') = delete_round-Settled f (g ∷ p) t a above in
      Returns->>= IsAvl (delete_round (plug f t) (delete_delta f)) _ settled elim [
        | done n ↦ λ s. root_of-IsAvl-height (g ∷ p) n _ above' s
        | climb n ↦ λ s. delete_balance-IsAvl g p n s.0 (rw s.1 above')
      ]
