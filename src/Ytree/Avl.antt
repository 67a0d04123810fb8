-- ===== src/Ytree/Avl.antt =====
-- The AVL invariant of the tree of ydb/ytree.c: a node's `balance` is the height of its right
-- subtree less that of its left subtree, and lies between -1 and 1.
pub mod Insert
pub mod Delete
pub mod Node
pub mod Depth
use libydb.Prelude.{ℕ, suc, ◌+◌, ◌≤◌, ◌≡◌, ◌≢◌, max, ℤ, pos, pos_part, neg_part, [], ◌∷◌, arith}
use libydb.Ytree.{Tree, null, node, Frame, from_left, from_right, Ancestors, root_of}

-- `b` is `hr - hl`.
abbrev pub Balances : ℤ → ℕ → ℕ → Type 0
Balances b hl hr = hl + pos_part b ≡ hr + neg_part b

abbrev pub IsSmall : ℤ → Type 0
IsSmall b = (pos_part b ≤ 1) × (neg_part b ≤ 1)

module _ {ℓ κ} {K : Type ℓ} {D : Type κ} where
  abbrev pub height : Tree K D → ℕ
  height null = 0
  height (node l k x b r) = suc (max (height l) (height r))

  abbrev pub IsAvl : Tree K D → Type 0
  IsAvl null = Unit
  IsAvl (node l k x b r) = IsAvl l × IsAvl r × Balances b (height l) (height r) × IsSmall b

  -- The ancestors are in order if a tree of height `h` hangs under them.
  abbrev pub IsAvlAbove : Ancestors K D → ℕ → Type 0
  IsAvlAbove [] h = Unit
  IsAvlAbove (from_left k x b r ∷ p) h =
      IsAvl r × Balances b h (height r) × IsSmall b × IsAvlAbove p (suc (max h (height r)))
  IsAvlAbove (from_right l k x b ∷ p) h =
      IsAvl l × Balances b (height l) h × IsSmall b × IsAvlAbove p (suc (max (height l) h))

  -- The height of a parent over a child of height `h`.
  abbrev pub height_with : Frame K D → ℕ → ℕ
  height_with (from_left k x b r) h = suc (max h (height r))
  height_with (from_right l k x b) h = suc (max (height l) h)

  pub root_of-IsAvl :
      (p : Ancestors K D) (t : Tree K D) → IsAvlAbove p (height t) → IsAvl t → IsAvl (root_of p t)
  unfolding root_of
  root_of-IsAvl [] t a h = h
  root_of-IsAvl (from_left k x b r ∷ p) t a h =
      root_of-IsAvl p (node t k x b r) a.3 (h, a.0, a.1, a.2)
  root_of-IsAvl (from_right l k x b ∷ p) t a h =
      root_of-IsAvl p (node l k x b t) a.3 (a.0, h, a.1, a.2)

  -- `root_of-IsAvl`, for a subtree that has the height `h` which its ancestors expect.
  pub root_of-IsAvl-height :
      (p : Ancestors K D) (t : Tree K D) (h : ℕ)
      → IsAvlAbove p h
      → IsAvl t × (height t ≡ h)
      → IsAvl (root_of p t)
  root_of-IsAvl-height p t h a s = root_of-IsAvl p t (rw s.1 a) s.0
