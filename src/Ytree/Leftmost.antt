-- ===== src/Ytree/Leftmost.antt =====
-- Where the node that `leftmost` finds hangs (ydb/ytree.c, the search for a successor).
use libydb.Prelude.{◌≡◌, refl, ℤ, Option, [], ◌∷◌, ◌++◌}
use libydb.Ytree.{Tree, null, node, from_left, from_right, Ancestors, plug, root_of, node_at}
use libydb.Ytree.Node.{leftmost, rightmost}

module _ {ℓ κ} {K : Type ℓ} {D : Type κ} where
  -- Each of the nodes was left by its left child.
  abbrev pub AllLeft : Ancestors K D → Type 0
  AllLeft [] = Unit
  AllLeft (from_left k x b r ∷ p) = AllLeft p
  AllLeft (from_right l k x b ∷ p) = ⊥

  pub AllLeft-leftmost :
      (l : Tree K D) (k : K) (x : Option D) (b : ℤ) (r : Tree K D) (p : Ancestors K D)
      → AllLeft p
      → AllLeft (leftmost l k x b r p).ancestors
  unfolding leftmost
  AllLeft-leftmost null k x b r p h = h
  AllLeft-leftmost (node ll lk lx lb lr) k x b r p h =
      AllLeft-leftmost ll lk lx lb lr (from_left k x b r ∷ p) h

  pub left-leftmost :
      (l : Tree K D) (k : K) (x : Option D) (b : ℤ) (r : Tree K D) (p : Ancestors K D)
      → (leftmost l k x b r p).left ≡ null
  unfolding leftmost
  left-leftmost null k x b r p = refl
  left-leftmost (node ll lk lx lb lr) k x b r p =
      left-leftmost ll lk lx lb lr (from_left k x b r ∷ p)

  pub root_of-leftmost :
      (l : Tree K D) (k : K) (x : Option D) (b : ℤ) (r : Tree K D) (p : Ancestors K D)
      → root_of (leftmost l k x b r p).ancestors (node_at (leftmost l k x b r p))
        ≡ root_of p (node l k x b r)
  unfolding leftmost root_of
  root_of-leftmost null k x b r p = refl
  root_of-leftmost (node ll lk lx lb lr) k x b r p =
      root_of-leftmost ll lk lx lb lr (from_left k x b r ∷ p)

  pub root_of-rightmost :
      (l : Tree K D) (k : K) (x : Option D) (b : ℤ) (r : Tree K D) (p : Ancestors K D)
      → root_of (rightmost l k x b r p).ancestors (node_at (rightmost l k x b r p))
        ≡ root_of p (node l k x b r)
  unfolding rightmost root_of
  root_of-rightmost l k x b null p = refl
  root_of-rightmost l k x b (node rl rk rx rb rr) p =
      root_of-rightmost rl rk rx rb rr (from_right l k x b ∷ p)

  pub root_of-append :
      (q p : Ancestors K D) (t : Tree K D) → root_of (q ++ p) t ≡ root_of p (root_of q t)
  unfolding root_of
  root_of-append [] p t = refl
  root_of-append (f ∷ q) p t = root_of-append q p (plug f t)
