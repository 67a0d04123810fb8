-- ===== src/Ytree/Avl/Insert.antt =====
-- Tree_InsertBalance restores the AVL invariant.
use libydb.Prelude.{
  ℕ, suc, ◌+◌, ◌≡◌, ◌⊎◌, max, ℤ, pos, negsuc, pos_part, neg_part, Option, [], ◌∷◌, arith, Returns,
  Returns->>=,
}
use libydb.Ytree.{Tree, null, node, Frame, from_left, from_right, Ancestors, plug}
use libydb.Ytree.Rotate.{rotate_left, rotate_right, rotate_left_right, rotate_right_left}
use libydb.Ytree.Rotate.{left_right_balances, right_left_balances}
use libydb.Ytree.Balance.{
  Round, done, climb, insert_left_heavy, insert_right_heavy, insert_round, insert_delta,
  insert_balance,
}
use libydb.Ytree.Avl.{
  height, Balances, IsSmall, IsAvl, IsAvlAbove, root_of-IsAvl-height, height_with,
}

module _ {ℓ κ} {K : Type ℓ} {D : Type κ} where
  -- A subtree that has just grown is a new leaf, or leans to one side.
  abbrev Leans : Tree K D → Type 0
  Leans null = ⊥
  Leans (node l k x b r) = (height (node l k x b r) ≡ 1) ⊎ (pos_part b + neg_part b ≡ 1)

  -- After a round: the subtree has its old height `h` again, or it has grown.
  abbrev Settled : ℕ → Round K D → Type 0
  Settled h (done t) = IsAvl t × (height t ≡ h)
  Settled h (climb t) = IsAvl t × Leans t × (height t ≡ suc h)

  insert_round-left :
      (l r : Tree K D) (k : K) (x : Option D) (b : ℤ) (h : ℕ)
      → IsAvl l
      → Leans l
      → height l ≡ suc h
      → IsAvl r
      → Balances b h (height r)
      → IsSmall b
      → Returns (Settled (suc (max h (height r)))) (insert_round (node l k x b r) (negsuc 0))
  unfolding insert_round insert_left_heavy rotate_right rotate_left_right left_right_balances
  insert_round-left null r k x b h al ll hl ar bb sb = absurd ll
  insert_round-left (node ll lk lx lb null) r k x b h al leans hl ar bb sb = ground arith
  insert_round-left (node ll lk lx lb (node ml mk mx mb mr)) r k x b h al leans hl ar bb sb =
      ground arith

  insert_round-right :
      (l r : Tree K D) (k : K) (x : Option D) (b : ℤ) (h : ℕ)
      → IsAvl r
      → Leans r
      → height r ≡ suc h
      → IsAvl l
      → Balances b (height l) h
      → IsSmall b
      → Returns (Settled (suc (max (height l) h))) (insert_round (node l k x b r) (pos 1))
  unfolding insert_round insert_right_heavy rotate_left rotate_right_left right_left_balances
  insert_round-right l null k x b h ar lr hr al bb sb = absurd lr
  insert_round-right l (node null rk rx rb rr) k x b h ar lr hr al bb sb = ground arith
  insert_round-right l (node (node ml mk mx mb mr) rk rx rb rr) k x b h ar lr hr al bb sb =
      ground arith

  -- One round at the node `plug f t` above a subtree `t` that has grown from height `h`.
  insert_round-Settled :
      (f : Frame K D) (p : Ancestors K D) (t : Tree K D) (h : ℕ)
      → IsAvl t
      → Leans t
      → height t ≡ suc h
      → IsAvlAbove (f ∷ p) h
      → Returns (Settled (height_with f h)) (insert_round (plug f t) (insert_delta f))
        × IsAvlAbove p (height_with f h)
  insert_round-Settled (from_left k x b r) p t h a le e above =
      (insert_round-left t r k x b h a le e above.0 above.1 above.2, above.3)
  insert_round-Settled (from_right l k x b) p t h a le e above =
      (insert_round-right l t k x b h a le e above.0 above.1 above.2, above.3)

  -- The whole loop, from the node above a subtree that has grown by one: it reads through no
  -- NULL, and leaves an AVL tree.
  pub insert_balance-IsAvl :
      (f : Frame K D) (p : Ancestors K D) (t : Tree K D) (h : ℕ)
      → IsAvl t
      → Leans t
      → height t ≡ suc h
      → IsAvlAbove (f ∷ p) h
      → Returns IsAvl (insert_balance p (plug f t) (insert_delta f))
  unfolding insert_balance
  insert_balance-IsAvl f [] t h a le e above =
      Returns->>= IsAvl (insert_round (plug f t) (insert_delta f)) _
        (insert_round-Settled f [] t h a le e above).0
        elim [ done n ↦ λ s. s.0 | climb n ↦ λ s. s.0 ]
  insert_balance-IsAvl f (g ∷ p) t h a le e above =
      let (settled, above') = insert_round-Settled f (g ∷ p) t h a le e above in
      Returns->>= IsAvl (insert_round (plug f t) (insert_delta f)) _ settled elim [
        | done n ↦ λ s. root_of-IsAvl-height (g ∷ p) n (height_with f h) above' s
        | climb n ↦ λ s. insert_balance-IsAvl g p n (height_with f h) s.0 s.1 s.2 above'
      ]
