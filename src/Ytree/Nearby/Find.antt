-- ===== src/Ytree/Nearby/Find.antt =====
-- Which node ytree_find_nearby (ydb/ytree.c) returns.
use libydb.Prelude.{
  ℕ, zero, suc, ◌+◌, ◌<◌, true, false, ◌>>=◌, Option, none, some, List, [], ◌∷◌, ◌++◌, ◌≡◌, ◌⊎◌,
  inl, inr, refl, sym, ◌∙◌, ap, arith, length, length-append, All-append, All-append_left,
  All-append_right, subst, append_assoc,
}
use mathlib.Core.Option.{some-injective}
use libydb.Order.{Ord, ◌≺◌, Ordering-cases}
use libydb.Dict.{Entry, Below, Above, IsSorted}
use libydb.Dict.Split.{IsSorted-split, Below-trans}
use libydb.Dict.{Above-trans}
use libydb.Ytree.{Tree, null, node, from_left, from_right, Ancestors, root_of, Place}
use libydb.Ytree.Iterate.{nodes, tree_prev_node}
use libydb.Ytree.Iterate.Order.{
  preceding, following, entry_at, tree_of, entries-tree_of, EndsAt, tree_prev_node-EndsAt,
}
use libydb.Ytree.Iterate.Traverse.{length-entries}
use libydb.Ytree.Entries.{entries, before, after}
use libydb.Ytree.Nearby.{
  Near, exact, near, is_less, is_greater, nearest_walk, nearest, place_of, ytree_find_nearest,
  prev_until, root_place, nearby_from, ytree_find_nearby, or_nearest,
}

module _ {ℓ κ} {K : Type ℓ} {D : Type κ} ⦃o : Ord K⦄ where
  -- The node is one of `root`, and the key would stand right before or right after it.
  abbrev pub IsBeside : Tree K D → K → Place K D → Type (ℓ ⊔ κ)
  IsBeside root q n =
      (tree_of n ≡ root)
      × Below q (preceding n)
      × Above q (following n)
      × ((n.key ≺ q) ⊎ (q ≺ n.key))

  abbrev pub IsNear : Tree K D → K → Near K D → Type (ℓ ⊔ κ)
  IsNear root q (exact n) = (tree_of n ≡ root) × (q ≡ n.key)
  IsNear root q (near n) = IsBeside root q n

  nearest_walk-IsNear :
      (t : Tree K D) (p : Ancestors K D) (q : K) (m : Place K D)
      → IsSorted (entries t)
      → Below q (before p)
      → Above q (after p)
      → (t ≡ null → IsBeside (root_of p t) q m)
      → IsNear (root_of p t) q (nearest_walk t p q m)
  unfolding nearest_walk root_of
  nearest_walk-IsNear null p q m s b a h = h refl
  nearest_walk-IsNear (node l k x c r) p q m s b a h =
      let (sl, bl, ar, sr) = IsSorted-split (entries l) k x (entries r) s in
      elim (Ordering-cases (o.cmp q k)) [
        | inl e ↦
            let above : Above q (entries r ++ after p) =
              All-append (λ u. q ≺ u.0) (entries r) (after p) (Above-trans q k (entries r) e ar)
                a in
            rw (e, nearest_walk)
              (nearest_walk-IsNear l (from_left k x c r ∷ p) q _ sl b (e, above)
                (λ z. (
                  refl,
                  All-append (λ u. u.0 ≺ q) (before p) (entries l) b (rw z tt),
                  above,
                  inr e,
                )))
        | inr (inl e) ↦ rw (e, nearest_walk) (refl, o.eq_of_cmp q k e)
        | inr (inr e) ↦
            let below : Below q (before p ++ entries l) =
              All-append (λ u. u.0 ≺ q) (before p) (entries l) b
                (Below-trans k q (entries l) bl (o.lt_of_gt q k e)) in
            rw (e, nearest_walk)
              (nearest_walk-IsNear r (from_right l k x c ∷ p) q _ sr
                (rw (← append_assoc (before p) (entries l) ((k, x) ∷ [])) (
                  All-append (λ u. u.0 ≺ q) (before p ++ entries l) ((k, x) ∷ []) below
                    (o.lt_of_gt q k e, tt)))
                a
                (λ z. (
                  refl,
                  below,
                  All-append (λ u. q ≺ u.0) (entries r) (after p) (rw z tt) a,
                  inl (o.lt_of_gt q k e),
                )))
      ]

  -- The search ends at the node of the key, or at a node beside the key; a tree with no node has
  -- none.
  pub nearest-IsNear :
      (root : Tree K D) (q : K) (n : Near K D)
      → IsSorted (entries root)
      → nearest root q ≡ some n
      → IsNear root q n
  unfolding nearest root_of
  nearest-IsNear null q n s h = cc
  nearest-IsNear (node l k x c r) q n s h =
      subst (IsNear (node l k x c r) q) (some-injective _ _ h)
        (nearest_walk-IsNear (node l k x c r) [] q (root_place l k x c r) s tt tt (λ z. cc))

  -- What a search for the lower neighbour may return: the node of the key; or the last node below
  -- the key; or the first node, if it is above the key; or NULL, from an empty tree.
  abbrev pub IsLower : Tree K D → K → Option (Place K D) → Type (ℓ ⊔ κ)
  IsLower root q none = entries root ≡ []
  IsLower root q (some n) =
      (tree_of n ≡ root)
      × ((q ≡ n.key) ⊎ (((n.key ≺ q) × Above q (following n)) ⊎ ((q ≺ n.key) × (preceding n ≡ []))))

  -- The same for the other direction, as the code has it: the first node above the key is
  -- returned only where the search met it, else the last node below the key.
  abbrev pub IsUpper : Tree K D → K → Option (Place K D) → Type (ℓ ⊔ κ)
  IsUpper root q none = entries root ≡ []
  IsUpper root q (some n) =
      (tree_of n ≡ root)
      × ((q ≡ n.key)
          ⊎ (((q ≺ n.key) × Below q (preceding n)) ⊎ ((n.key ≺ q) × Above q (following n))))

  -- One round, or two: the node before one that stands right above the key is below the key.
  nearby_from-IsLower :
      (f : ℕ) (root : Tree K D) (q : K) (n : Place K D)
      → IsBeside root q n
      → (r : Place K D) × (nearby_from (suc (suc f)) q true (near n) ≡ some (some r))
        × IsLower root q (some r)
  unfolding nearby_from prev_until
  nearby_from-IsLower f root q n (e, b, a, inl below) = (n, rw below, (e, inr (inl (below, a))))
  nearby_from-IsLower f root q n (e, b, a, inr above) =
      rw (o.gt_of_lt q n.key above) (step (tree_prev_node n) (tree_prev_node-EndsAt n))
    where
      step :
          (w : Option (Place K D))
          → EndsAt (tree_of n) (preceding n) (entry_at n ∷ following n) w
          → (r : Place K D) × ((prev_until (suc f) is_less q w >>= λ m.
                some (some (or_nearest n m)))
              ≡ some (some r))
            × IsLower root q (some r)
      step none h = (n, refl, (e, inr (inr (above, h))))
      step (some m) h =
          let below : m.key ≺ q =
            (All-append_right (λ u. u.0 ≺ q) (preceding m) (entry_at m ∷ []) (rw h.1 b)).0 in
          (m, rw below, (h.0 ∙ e, inr (inl (below, rw h.2 (above, a)))))

  -- All the way back: no node before one that stands right below the key is above it.
  prev_until-greater :
      (f : ℕ) (root : Tree K D) (ps fs : List (Entry K D)) (q : K) (w : Option (Place K D))
      → EndsAt root ps fs w
      → Below q ps
      → length ps < f
      → prev_until f is_greater q w ≡ some none
  unfolding prev_until
  prev_until-greater zero root ps fs q w h b lt = elim lt [ ]
  prev_until-greater (suc f) root ps fs q none h b lt = refl
  prev_until-greater (suc f) root ps fs q (some m) h b lt =
      let b' = rw (← h.1) at b in
      let below : m.key ≺ q =
        (All-append_right (λ u. u.0 ≺ q) (preceding m) (entry_at m ∷ []) b').0 in
      rw below (
        prev_until-greater f (tree_of m) (preceding m) _ q (tree_prev_node m)
          (tree_prev_node-EndsAt m) (All-append_left (λ u. u.0 ≺ q) (preceding m) _ b')
          (omega (arith, ap length h.1, length-append (preceding m) (entry_at m ∷ []))))

  nearby_from-IsUpper :
      (f : ℕ) (root : Tree K D) (q : K) (n : Place K D)
      → IsBeside root q n
      → length (entries root) < suc f
      → (nearby_from (suc f) q false (near n) ≡ some (some n)) × IsUpper root q (some n)
  unfolding nearby_from prev_until
  nearby_from-IsUpper f root q n (e, b, a, inr above) lt =
      (rw (o.gt_of_lt q n.key above), (e, inr (inl (above, b))))
  nearby_from-IsUpper f root q n (e, b, a, inl below) lt =
      let size = ap length (sym (ap entries e) ∙ entries-tree_of n) in
      (
        rw (
          below,
          prev_until-greater f (tree_of n) (preceding n) (entry_at n ∷ following n) q
              (tree_prev_node n) (tree_prev_node-EndsAt n) b
              (omega (arith, size, length-append (preceding n) (entry_at n ∷ following n))),
        ),
        (e, inr (inr (below, a))),
      )

  -- On a tree whose entries are in order ytree_find_nearby ends. With `lower` it returns the node of
  -- the key if there is one, else the last node below the key, else the first node of the tree,
  -- and NULL from an empty tree.
  pub find_nearby-IsLower :
      (root : Tree K D) (q : K)
      → IsSorted (entries root)
      → (r : Option (Place K D)) × (ytree_find_nearby root q true ≡ some r) × IsLower root q r
  unfolding ytree_find_nearby nearby_from nearest
  find_nearby-IsLower null q s = (none, refl, refl)
  find_nearby-IsLower (node l k x c r) q s =
      of_near (nearest_walk (node l k x c r) [] q (root_place l k x c r))
        (nearest-IsNear (node l k x c r) q _ s refl)
    where
      of_near :
          (n : Near K D)
          → IsNear (node l k x c r) q n
          → (m : Option (Place K D)) × (nearby_from (suc (nodes (node l k x c r))) q true n
              ≡ some m)
            × IsLower (node l k x c r) q m
      of_near (exact n) h = (some n, refl, (h.0, inl h.1))
      of_near (near n) h =
          let (m, e, i) = nearby_from-IsLower (nodes l + nodes r) (node l k x c r) q n h in
          (some m, e, i)

  -- On a tree whose entries are in order ytree_find_nearby without `lower` ends, and returns the
  -- last node of the search, as ytree_find_nearest does: the node of the key if there is one, else
  -- the first node above the key or the last node below it, whichever the search met last.
  pub find_nearby-eq-find_nearest :
      (root : Tree K D) (q : K)
      → IsSorted (entries root)
      → (ytree_find_nearby root q false ≡ some (ytree_find_nearest root q))
        × IsUpper root q (ytree_find_nearest root q)
  unfolding ytree_find_nearby ytree_find_nearest nearby_from nearest
  find_nearby-eq-find_nearest null q s = (refl, refl)
  find_nearby-eq-find_nearest (node l k x c r) q s =
      of_near (nearest_walk (node l k x c r) [] q (root_place l k x c r))
        (nearest-IsNear (node l k x c r) q _ s refl)
    where
      of_near :
          (n : Near K D)
          → IsNear (node l k x c r) q n
          → (nearby_from (suc (nodes (node l k x c r))) q false n ≡ some (some (place_of n)))
            × IsUpper (node l k x c r) q (some (place_of n))
      of_near (exact n) h = (refl, (h.0, inl h.1))
      of_near (near n) h =
          nearby_from-IsUpper (nodes (node l k x c r)) (node l k x c r) q n h
            (omega (arith, length-entries (node l k x c r)))
