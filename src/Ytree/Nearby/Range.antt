-- ===== src/Ytree/Nearby/Range.antt =====
-- Which entries ytree_traverse_in_range (ydb/ytree.c) hands to its callback.
use libydb.Prelude.{
  ℕ, zero, suc, ◌+◌, ◌<◌, ℤ, pos, ◌==ℤ◌, Bool, true, false, if◌then◌else◌, ◌||◌, ◌>>=◌, Option,
  none, some, List, [], ◌∷◌, ◌++◌, ◌≡◌, inl, inr, refl, sym, ◌∙◌, ap, arith, length, length-append,
  All-append_right,
}
use libydb.Order.{Ord, ◌≺◌}
use libydb.Dict.{Entry, Below, Above, IsSorted}
use libydb.Dict.{Above-trans}
use libydb.Dict.Split.{IsSorted-split, Below-trans}
use libydb.Ytree.{Tree, Place}
use libydb.Ytree.Iterate.{Callback, nodes, tree_prev_node, tree_next_node}
use libydb.Ytree.Iterate.Order.{
  preceding, following, entry_at, tree_of, entries-tree_of, EndsAt, StandsAt, tree_prev_node-EndsAt,
  tree_next_node-StandsAt,
}
use libydb.Ytree.Iterate.Traverse.{visit, length-entries}
use libydb.Ytree.Entries.{entries}
use libydb.Ytree.Nearby.{
  is_greater, range_loop, range_from, ytree_find_nearest, ytree_traverse_in_range,
}
use libydb.Ytree.Nearby.Find.{IsUpper, find_nearby-eq-find_nearest}

module _ {ℓ κ} {K : Type ℓ} {D : Type κ} ⦃o : Ord K⦄ where
  -- The entries whose keys lie in the closed range.
  unfoldable pub within : K → K → List (Entry K D) → List (Entry K D)
  within lo hi [] = []
  within lo hi ((k, x) ∷ es) =
      let rest = within lo hi es in
      if is_greater (o.cmp lo k) || is_greater (o.cmp k hi) then rest else (k, x) ∷ rest

  -- The entries up to the first above `hi`.
  unfoldable pub bounded : K → List (Entry K D) → List (Entry K D)
  bounded hi [] = []
  bounded hi ((k, x) ∷ es) =
      let rest = bounded hi es in if is_greater (o.cmp k hi) then [] else (k, x) ∷ rest

  -- `base` alone, unless it is below `lo`.
  abbrev pub base_if : K → Place K D → List (Entry K D)
  base_if lo n = if is_greater (o.cmp lo n.key) then [] else entry_at n ∷ []

  -- The entries before the node that the search for `q` ended at are below `q`, and those after it
  -- are above.
  around_nearest :
      (root : Tree K D) (q : K) (n : Place K D)
      → IsSorted (entries root)
      → IsUpper root q (some n)
      → Below q (preceding n) × Above q (following n) × IsSorted (following n)
  around_nearest root q n s (e, u) =
      let (sp, bp, af, sf) =
        IsSorted-split (preceding n) n.key n.value (following n)
          (rw (sym (entries-tree_of n)) (rw e s)) in
      elim u [
        | inl same ↦ (rw same bp, rw same af, sf)
        | inr (inl (above, b)) ↦ (b, Above-trans q n.key (following n) above af, sf)
        | inr (inr (below, a)) ↦ (Below-trans n.key q (preceding n) bp below, a, sf)
      ]

module _ {ℓ κ μ} {K : Type ℓ} {D : Type κ} {S : Type μ} ⦃o : Ord K⦄ (cb : Callback K D S) where
  range_loop_forward :
      (fuel : ℕ) (root : Tree K D) (ps fs : List (Entry K D)) (hi : K) (n : Option (Place K D))
      (s : S)
      → StandsAt root ps fs n
      → length fs < fuel
      → (range_loop cb fuel tree_next_node (λ k. is_greater (o.cmp k hi)) n s >>= λ r.
          some (r.1, r.2))
        ≡ some (visit cb (bounded hi fs) s)
  unfolding range_loop visit bounded
  range_loop_forward zero root ps fs hi n s h l = elim l [ ]
  range_loop_forward (suc fuel) root ps fs hi none s h l = rw h
  range_loop_forward (suc fuel) root ps fs hi (some n) s h l =
      let ih =
        range_loop_forward fuel (tree_of n) _ (following n) hi (tree_next_node n)
          (cb n.key n.value s).1 (tree_next_node-StandsAt n) (omega (arith, ap length h.2)) in
      rw (sym h.2) (ground (arith, ih))

  -- What a loop of the range leaves when it has handed one entry, or none, to the callback.
  abbrev outcome : ℤ × S → Bool × ℤ × S
  outcome r = if r.0 ==ℤ pos 0 then (true, pos 0, r.1) else (false, r.0, r.1)

  range_loop-Below :
      (m : ℕ) (root : Tree K D) (ps fs : List (Entry K D)) (lo : K) (n : Option (Place K D)) (s : S)
      → EndsAt root ps fs n
      → Below lo ps
      → range_loop cb (suc m) tree_prev_node (λ k. is_greater (o.cmp lo k)) n s
        ≡ some (true, pos 0, s)
  unfolding range_loop
  range_loop-Below m root ps fs lo none s h b = refl
  range_loop-Below m root ps fs lo (some n) s h b =
      let below : n.key ≺ lo =
        (All-append_right (λ u. u.0 ≺ lo) (preceding n) (entry_at n ∷ []) (rw h.1 b)).0 in
      rw (o.gt_of_lt n.key lo below)

  -- The backward loop stops behind its first node: the node before it is below `lo`.
  range_loop_back :
      (m : ℕ) (lo : K) (n : Place K D) (s : S)
      → Below lo (preceding n)
      → range_loop cb (suc (suc m)) tree_prev_node (λ k. is_greater (o.cmp lo k)) (some n) s
        ≡ some (outcome (visit cb (base_if lo n) s))
  unfolding range_loop visit
  range_loop_back m lo n s b = ground (
    arith,
    range_loop-Below m (tree_of n) (preceding n) (entry_at n ∷ following n) lo (tree_prev_node n)
        (cb n.key n.value s).1 (tree_prev_node-EndsAt n) b,
  )

  visit-base :
      (lo : K) (n : Place K D) (es : List (Entry K D)) (s : S)
      → let r = visit cb (base_if lo n) s in
        visit cb (base_if lo n ++ es) s ≡ (if r.0 ==ℤ pos 0 then visit cb es r.1 else r)
  unfolding visit
  visit-base lo n es s = ground arith

  range_from_visits :
      (m : ℕ) (lo hi : K) (base : Place K D) (s : S)
      → Below lo (preceding base)
      → length (following base) < suc m
      → range_from cb (suc (suc m)) lo hi base s
        ≡ some (visit cb (base_if lo base ++ bounded hi (following base)) s)
  unfolding range_from
  range_from_visits m lo hi base s b l = ground (
    arith,
    range_loop_back m lo base s b,
    visit-base lo base (bounded hi (following base)) s,
    range_loop_forward (suc (suc m)) (tree_of base) (preceding base ++ (entry_at base ∷ []))
        (following base) hi (tree_next_node base) (visit cb (base_if lo base) s).1
        (tree_next_node-StandsAt base) (omega arith),
  )

  pub traverse_in_range_visits :
      (root : Tree K D) (lo hi : K) (base : Place K D) (s : S)
      → IsSorted (entries root)
      → ytree_find_nearest root lo ≡ some base
      → ytree_traverse_in_range cb root lo hi s
        ≡ some (visit cb (base_if lo base ++ bounded hi (following base)) s)
  unfolding ytree_traverse_in_range
  traverse_in_range_visits root lo hi base s sorted found =
      let upper : IsUpper root lo (some base) =
        rw found at ((find_nearby-eq-find_nearest root lo sorted).1) in
      let (below, above, sf) = around_nearest root lo base sorted upper in
      let count : length (preceding base) + suc (length (following base)) ≡ nodes root =
        sym (length-append (preceding base) (entry_at base ∷ following base))
        ∙ ap length (sym (entries-tree_of base) ∙ ap entries upper.0)
        ∙ length-entries root in
      let m = length (preceding base) + length (following base) in
      let e : nodes root ≡ suc m = omega arith in
      rw (found, ytree_traverse_in_range, e) (range_from_visits m lo hi base s below (omega arith))

module _ {ℓ κ} {K : Type ℓ} {D : Type κ} ⦃o : Ord K⦄ where
  within-Below :
      (lo hi : K) (xs ys : List (Entry K D))
      → Below lo xs
      → within lo hi (xs ++ ys) ≡ within lo hi ys
  unfolding within
  within-Below lo hi [] ys b = refl
  within-Below lo hi (x ∷ xs) ys b =
      ground (arith, o.gt_of_lt x.0 lo b.0, within-Below lo hi xs ys b.1)

  within-past : (lo hi k : K) (es : List (Entry K D)) → hi ≺ k → Above k es → within lo hi es ≡ []
  unfolding within
  within-past lo hi k [] h a = refl
  within-past lo hi k (x ∷ es) h a =
      ground (arith, o.lt_trans hi k x.0 h a.0, o.gt_of_lt hi x.0, within-past lo hi k es h a.1)

  within-bounded :
      (lo hi : K) (es : List (Entry K D))
      → Above lo es
      → IsSorted es
      → within lo hi es ≡ bounded hi es
  unfolding within bounded
  within-bounded lo hi [] a s = refl
  within-bounded lo hi ((k, x) ∷ es) a s =
      ground (arith, within-bounded lo hi es a.1 s.1, within-past lo hi k es, o.lt_of_gt k hi)

  -- What the call hands over is what lies in the range, if the node where the search ended does not
  -- lie above it.
  within-nearest :
      (root : Tree K D) (lo hi : K) (base : Place K D)
      → IsSorted (entries root)
      → IsUpper root lo (some base)
      → is_greater (o.cmp base.key hi) ≡ false
      → base_if lo base ++ bounded hi (following base) ≡ within lo hi (entries root)
  unfolding within
  within-nearest root lo hi base sorted upper small =
      let (below, above, sf) = around_nearest root lo base sorted upper in
      sym (
        ap (within lo hi) (sym (ap entries upper.0) ∙ entries-tree_of base)
        ∙ within-Below lo hi (preceding base) (entry_at base ∷ following base) below
        ∙ ground (arith, within-bounded lo hi (following base) above sf))

-- On a tree whose entries are in order, where the search for the lower bound does not end above the
-- higher bound, the callback gets exactly the entries in the closed range, in order, until it
-- returns a result other than 0, which is then the result of the call.
pub traverse_in_range-within {ℓ κ μ} :
    {K : Type ℓ} {D : Type κ} {S : Type μ} ⦃o : Ord K⦄ (cb : Callback K D S) (root : Tree K D)
    (lo hi : K) (base : Place K D) (s : S)
    → IsSorted (entries root)
    → ytree_find_nearest root lo ≡ some base
    → is_greater (o.cmp base.key hi) ≡ false
    → ytree_traverse_in_range cb root lo hi s ≡ some (visit cb (within lo hi (entries root)) s)
traverse_in_range-within cb root lo hi base s sorted found small =
    traverse_in_range_visits cb root lo hi base s sorted found
    ∙ ap (λ es. some (visit cb es s))
        (within-nearest root lo hi base sorted
          (rw found at ((find_nearby-eq-find_nearest root lo sorted).1)) small)
