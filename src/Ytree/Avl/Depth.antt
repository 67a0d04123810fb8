-- ===== src/Ytree/Avl/Depth.antt =====
-- How deep a search in an AVL tree of ydb/ytree.c can go.
use native.Mathlib.Nat.{pow-suc}
use libydb.Prelude.{
  ℕ, zero, suc, ◌+◌, ◌^◌, ◌≤◌, ◌≡◌, max, some, [], ◌∷◌, length, arith, Ensures, ◌⊎◌, inl, inr, ℤ,
  pos, negsuc,
}
use libydb.Order.{Ord}
use libydb.Ytree.{Tree, null, node, from_left, from_right, Ancestors, Place}
use libydb.Ytree.Node.{search_node}
use libydb.Ytree.Avl.{IsAvl, height, Balances, IsSmall}
use libydb.Ytree.Iterate.{nodes}

-- The least number of nodes of an AVL tree of a height.
abbrev min_nodes : ℕ → ℕ
min_nodes zero = 0
min_nodes (suc zero) = 1
min_nodes (suc (suc h)) = suc (min_nodes (suc h) + min_nodes h)

min_nodes_mono : (h : ℕ) → min_nodes h ≤ min_nodes (suc h)
min_nodes_mono zero = omega arith
min_nodes_mono (suc h) = omega arith

pow-le-min_nodes : (k h : ℕ) → k + k ≤ h → 2 ^ k ≤ suc (min_nodes h)
pow-le-min_nodes zero h e = omega arith
pow-le-min_nodes (suc k) zero e = absurd (omega arith)
pow-le-min_nodes (suc k) (suc zero) e = absurd (omega arith)
pow-le-min_nodes (suc k) (suc (suc h)) e =
    omega (arith, pow-suc 2 k, pow-le-min_nodes k h (omega arith), min_nodes_mono h)

min_nodes_double : (h : ℕ) → min_nodes (suc h) ≤ suc (min_nodes h + min_nodes h)
min_nodes_double zero = omega arith
min_nodes_double (suc h) = omega (arith, min_nodes_mono h)

-- The two subtrees of an AVL node differ in height by one at most.
min_nodes-node :
    (hl hr : ℕ)
    → (hl ≡ hr) ⊎ ((hl ≡ suc hr) ⊎ (hr ≡ suc hl))
    → min_nodes (suc (max hl hr)) ≤ suc (min_nodes hl + min_nodes hr)
min_nodes-node hl hr (inl e) =
    let m : max hl hr ≡ hr = omega arith in rw (m, e) (min_nodes_double hr)
min_nodes-node hl hr (inr (inl e)) =
    let m : max hl hr ≡ suc hr = omega arith in rw (m, e) (omega arith)
min_nodes-node hl hr (inr (inr e)) =
    let m : max hl hr ≡ suc hl = omega arith in rw (m, e) (omega arith)

module _ {ℓ κ} {K : Type ℓ} {D : Type κ} where
  min_nodes-le-nodes : (t : Tree K D) → IsAvl t → min_nodes (height t) ≤ nodes t
  min_nodes-le-nodes null a = omega arith
  min_nodes-le-nodes (node l k x b r) a = omega (
    arith,
    min_nodes-node (height l) (height r) (differ b (height l) (height r) a.2 a.3),
    min_nodes-le-nodes l a.0,
    min_nodes-le-nodes r a.1,
  )
    where
      differ :
          (c : ℤ) (hl hr : ℕ)
          → Balances c hl hr
          → IsSmall c
          → (hl ≡ hr) ⊎ ((hl ≡ suc hr) ⊎ (hr ≡ suc hl))
      differ (pos zero) hl hr e s = inl (omega arith)
      differ (pos (suc n)) hl hr e s = inr (inr (omega arith))
      differ (negsuc n) hl hr e s = inr (inl (omega arith))

module _ {ℓ κ} {K : Type ℓ} {D : Type κ} ⦃o : Ord K⦄ where
  search_node-ancestors :
      (t : Tree K D) (p : Ancestors K D) (q : K)
      → Ensures (λ n. suc (length n.ancestors) ≤ length p + height t) (search_node t p q)
  unfolding search_node
  search_node-ancestors null p q = tt
  search_node-ancestors (node l k x b r) p q = ground (
    arith,
    search_node-ancestors l (from_left k x b r ∷ p) q,
    search_node-ancestors r (from_right l k x b ∷ p) q,
  )

  pub search_node-depth :
      (t : Tree K D) (q : K) (n : Place K D) (k : ℕ)
      → IsAvl t
      → search_node t [] q ≡ some n
      → k + k ≤ suc (length n.ancestors)
      → 2 ^ k ≤ suc (nodes t)
  search_node-depth t q n k a found deep =
      let d : suc (length n.ancestors) ≤ 0 + height t =
        rw found at (search_node-ancestors t [] q) in
      omega (arith, pow-le-min_nodes k (height t) (omega arith), min_nodes-le-nodes t a)
