-- ===== src/Ytree/Iterate/Traverse.antt =====
-- ytree_traverse and ytree_traverse_reverse (ydb/ytree.c) against a walk along a list of entries.
use mathlib.Core.List.{reverse, reverse-append}
use libydb.Prelude.{
  ℕ, zero, suc, ◌<◌, ℤ, pos, ◌==ℤ◌, if◌then◌else◌, Option, none, some, List, [], ◌∷◌, ◌≡◌, refl,
  sym, ap, arith, length, length-append,
}
use libydb.Dict.{Entry}
use libydb.Ytree.{Tree, null, node, Place}
use libydb.Ytree.Iterate.{
  Callback, nodes, traverse_from, ytree_traverse, ytree_traverse_reverse, tree_next_node,
  tree_prev_node, tree_first_node, tree_last_node,
}
use libydb.Ytree.Entries.{entries}
use libydb.Ytree.Iterate.Order.{
  preceding, following, entry_at, tree_of, StandsAt, EndsAt, tree_next_node-StandsAt,
  tree_prev_node-EndsAt, tree_first_node-StandsAt, tree_last_node-EndsAt,
}

-- What the callback makes of a list of entries: the first result other than 0, or 0.
unfoldable pub visit {ℓ κ μ} :
    {K : Type ℓ} {D : Type κ} {S : Type μ} → Callback K D S → List (Entry K D) → S → ℤ × S
visit cb [] s = (pos 0, s)
visit cb ((k, x) ∷ es) s =
    let (res, s') = cb k x s in
    let rest = visit cb es s' in if res ==ℤ pos 0 then rest else (res, s')

pub length-entries {ℓ κ} : {K : Type ℓ} {D : Type κ} (t : Tree K D) → length (entries t) ≡ nodes t
length-entries null = refl
length-entries (node l k x b r) =
    omega
      (arith, length-append (entries l) ((k, x) ∷ entries r), length-entries l, length-entries r)

module _ {ℓ κ μ} {K : Type ℓ} {D : Type κ} {S : Type μ} (cb : Callback K D S) where
  traverse_forward :
      (fuel : ℕ) (root : Tree K D) (ps fs : List (Entry K D)) (n : Option (Place K D)) (s : S)
      → StandsAt root ps fs n
      → length fs < fuel
      → traverse_from cb fuel tree_next_node n s ≡ some (visit cb fs s)
  unfolding traverse_from visit
  traverse_forward zero root ps fs n s h lt = elim lt [ ]
  traverse_forward (suc fuel) root ps fs none s h lt = rw h
  traverse_forward (suc fuel) root ps fs (some n) s h lt =
      let ih =
        traverse_forward fuel (tree_of n) _ (following n) (tree_next_node n) (cb n.key n.value s).1
          (tree_next_node-StandsAt n) (omega (arith, ap length h.2)) in
      rw (sym h.2) (ground (arith, ih))

  -- On every tree ytree_traverse ends, and is the walk along the entries in the order of the tree.
  pub ytree_traverse_visits :
      (t : Tree K D) (s : S) → ytree_traverse cb t s ≡ some (visit cb (entries t) s)
  unfolding ytree_traverse
  ytree_traverse_visits t s =
      traverse_forward (suc (nodes t)) t [] (entries t) (tree_first_node t) s
        (tree_first_node-StandsAt t) (omega (arith, length-entries t))

  traverse_backward :
      (fuel : ℕ) (root : Tree K D) (ps fs : List (Entry K D)) (n : Option (Place K D)) (s : S)
      → EndsAt root ps fs n
      → length ps < fuel
      → traverse_from cb fuel tree_prev_node n s ≡ some (visit cb (reverse ps) s)
  unfolding traverse_from visit
  traverse_backward zero root ps fs n s h lt = elim lt [ ]
  traverse_backward (suc fuel) root ps fs none s h lt = rw h
  traverse_backward (suc fuel) root ps fs (some n) s h lt =
      let ih =
        traverse_backward fuel (tree_of n) (preceding n) _ (tree_prev_node n) (cb n.key n.value s).1
          (tree_prev_node-EndsAt n)
          (omega (arith, ap length h.1, length-append (preceding n) (entry_at n ∷ []))) in
      rw (sym h.1, reverse-append (preceding n) (entry_at n ∷ [])) (ground (arith, ih))

  -- On every tree ytree_traverse_reverse ends, and is the walk along the entries from the last to
  -- the first.
  pub ytree_traverse_reverse_visits :
      (t : Tree K D) (s : S)
      → ytree_traverse_reverse cb t s ≡ some (visit cb (reverse (entries t)) s)
  unfolding ytree_traverse_reverse
  ytree_traverse_reverse_visits t s =
      traverse_backward (suc (nodes t)) t (entries t) [] (tree_last_node t) s
        (tree_last_node-EndsAt t) (omega (arith, length-entries t))
