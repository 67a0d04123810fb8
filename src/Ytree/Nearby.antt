-- ===== src/Ytree/Nearby.antt =====
-- ydb/ytree.c, the searches for a node near a key: ytree_find_nearest, ytree_find_nearby and
-- ytree_traverse_in_range.
pub mod Find
pub mod Range
use Prim.Native.Nat.{Ordering}
use Prim.Native.Nat.Ordering.{lt, eq, gt}
use libydb.Prelude.{
  ℕ, zero, suc, ℤ, pos, negsuc, ◌==ℤ◌, Bool, true, false, if◌then◌else◌, Option, none, some, List,
  [], ◌∷◌, ◌>>=◌,
}
use libydb.Order.{Ord}
use libydb.Ytree.{Tree, null, node, from_left, from_right, Ancestors, Place}
use libydb.Ytree.Iterate.{Callback, nodes, tree_next_node, tree_prev_node}

-- Where the search loop ends: at the key, or past a leaf, with the last node before it.
pub data Near {ℓ κ} (K : Type ℓ) (D : Type κ) : Type (ℓ ⊔ κ) where
  exact : Place K D → Near K D
  near : Place K D → Near K D

-- `res < 0` and `res > 0`, for the result `res` of a comparison
abbrev pub is_less : Ordering → Bool
is_less lt = true
is_less _ = false

abbrev pub is_greater : Ordering → Bool
is_greater gt = true
is_greater _ = false

-- The pointer to the root, which has these fields.
abbrev pub root_place {ℓ κ} :
    {K : Type ℓ} {D : Type κ} → Tree K D → K → Option D → ℤ → Tree K D → Place K D
root_place l k x b r = record {
  ancestors = [];
  left = l;
  key = k;
  value = x;
  balance = b;
  right = r;
}

module _ {ℓ κ} {K : Type ℓ} {D : Type κ} ⦃o : Ord K⦄ where
  -- The loop of the search at the child `t` of the nearest of `p`; `nearest` is that parent.
  unfoldable pub nearest_walk : Tree K D → Ancestors K D → K → Place K D → Near K D
  nearest_walk null p key nearest = near nearest
  nearest_walk (node l k x b r) p key nearest =
      let n : Place K D = record {
        ancestors = p;
        left = l;
        key = k;
        value = x;
        balance = b;
        right = r;
      } in
      elim (o.cmp key k) [
        | lt ↦ nearest_walk l (from_left k x b r ∷ p) key n
        | gt ↦ nearest_walk r (from_right l k x b ∷ p) key n
        | eq ↦ exact n
      ]

  -- The loop from the root, `none` on an empty tree.
  unfoldable pub nearest : Tree K D → K → Option (Near K D)
  unfolding nearest_walk
  nearest null key = none
  nearest (node l k x b r) key = some (nearest_walk (node l k x b r) [] key (root_place l k x b r))

  abbrev pub place_of : Near K D → Place K D
  place_of (exact n) = n
  place_of (near n) = n

  unfoldable pub ytree_find_nearest : Tree K D → K → Option (Place K D)
  unfolding nearest
  ytree_find_nearest root key = elim (nearest root key) [ none ↦ none | some n ↦ some (place_of n) ]

  -- `while (node) { if (test(comp(node->key, key))) return node; node = Tree_PrevNode(node); }`. The
  -- outer `none` is the end of the fuel; the inner one is the NULL at which the loop ends.
  unfoldable pub prev_until :
      ℕ → (Ordering → Bool) → K → Option (Place K D) → Option (Option (Place K D))
  prev_until zero test key n = none
  prev_until (suc fuel) test key none = some none
  prev_until (suc fuel) test key (some n) =
      let rest = prev_until fuel test key (tree_prev_node n) in
      if test (o.cmp n.key key) then some (some n) else rest

  -- `return nearest;` where the loop has ended at NULL
  abbrev pub or_nearest : Place K D → Option (Place K D) → Place K D
  or_nearest n none = n
  or_nearest n (some m) = m

  -- The part of ytree_find_nearby behind the search loop; both directions go to previous nodes.
  unfoldable pub nearby_from : ℕ → K → Bool → Near K D → Option (Option (Place K D))
  unfolding prev_until
  nearby_from fuel key lower (exact n) = some (some n)
  nearby_from fuel key lower (near n) = do
    m ← prev_until fuel (if lower then is_less else is_greater) key (some n)
    some (some (or_nearest n m))

  unfoldable pub ytree_find_nearby : Tree K D → K → Bool → Option (Option (Place K D))
  unfolding nearby_from nearest
  ytree_find_nearby root key lower = elim (nearest root key) [
    | none ↦ some none
    | some n ↦ nearby_from (suc (nodes root)) key lower n
  ]

module _ {ℓ κ μ} {K : Type ℓ} {D : Type κ} {S : Type μ} ⦃o : Ord K⦄ (cb : Callback K D S) where
  -- A loop of ytree_traverse_in_range: from `n` by `step`, up to the first node whose key is `out`.
  -- It ends by its test (`true`) or by a result of the callback (`false`).
  unfoldable pub range_loop :
      ℕ
      → (Place K D → Option (Place K D))
      → (K → Bool)
      → Option (Place K D)
      → S
      → Option (Bool × ℤ × S)
  range_loop zero step out n s = none
  range_loop (suc fuel) step out none s = some (true, pos 0, s)
  range_loop (suc fuel) step out (some n) s =
      let (res, s') = cb n.key n.value s in
      let rest = range_loop fuel step out (step n) s' in
      if out n.key
      then some (true, pos 0, s)
      else if res ==ℤ pos 0
      then rest
      else some (false, res, s')

  -- Both loops of ytree_traverse_in_range, from the node `base`.
  unfoldable pub range_from : ℕ → K → K → Place K D → S → Option (ℤ × S)
  range_from fuel lower higher base s = do
    (ended, res, s') ←
        range_loop fuel tree_prev_node (λ k. is_greater (o.cmp lower k)) (some base) s
    let forward =
        range_loop fuel tree_next_node (λ k. is_greater (o.cmp k higher)) (tree_next_node base) s'
    (if ended then forward >>= (λ r. some (r.1, r.2)) else some (res, s'))

  -- -1 on an empty tree
  unfoldable pub ytree_traverse_in_range : Tree K D → K → K → S → Option (ℤ × S)
  ytree_traverse_in_range root lower higher s = elim (ytree_find_nearest root lower) [
    | none ↦ some (negsuc 0, s)
    | some base ↦ range_from (suc (nodes root)) lower higher base s
  ]
