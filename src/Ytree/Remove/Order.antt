-- ===== src/Ytree/Remove/Order.antt =====
-- ytree_remove and ytree_remove_reverse (ydb/ytree.c) take out the iterator's entry, and return the
-- one before it, or behind it.
use libydb.Prelude.{
  ◌≡◌, refl, Option, none, some, List, [], ◌∷◌, ◌++◌, length, length-append, append_assoc, sym, ◌∙◌,
  ap, arith, Returns-and_Ensures,
}
use libydb.Order.{Ord}
use libydb.Dict.{Entry, IsSorted, Above}
use libydb.Ytree.{Tree, Place, node_at}
use libydb.Ytree.Node.{delete_node}
use libydb.Ytree.Avl.{IsAvl}
use libydb.Ytree.Avl.Node.{IsAvl-of_root, delete_node-IsAvl}
use libydb.Ytree.Entries.{entries}
use libydb.Ytree.Entries.Delete.{delete_node-Holds}
use libydb.Ytree.Iterate.{tree_prev_node, tree_next_node}
use libydb.Ytree.Iterate.Order.{preceding, following, entry_at, tree_of, entries-tree_of}
use libydb.Ytree.Iterate.Order.{EndsAt, StandsAt, tree_prev_node-EndsAt, tree_next_node-StandsAt}
use libydb.Ytree.Api.{Ytree, size_dec, free_key, tree_delete_node}
use libydb.Ytree.Api.Refine.{IsValid, IsValidRoot}
use libydb.Ytree.Remove.{key_of, remove_returning, ytree_remove, ytree_remove_reverse}

module _ {ℓ κ} {K : Type ℓ} {D : Type κ} ⦃o : Ord K⦄ where
  -- Two sorted parts with a gap between them.
  IsSorted-gap :
      (xs ys : List (Entry K D)) (k : K) (y : Option D)
      → IsSorted (xs ++ ((k, y) ∷ ys))
      → IsSorted (xs ++ ys)
  IsSorted-gap [] ys k y s = s.1
  IsSorted-gap (x ∷ xs) ys k y s = (Above-gap xs s.0, IsSorted-gap xs ys k y s.1)
    where
      Above-gap : (us : List (Entry K D)) → Above x.0 (us ++ ((k, y) ∷ ys)) → Above x.0 (us ++ ys)
      Above-gap [] a = a.1
      Above-gap (u ∷ us) a = (a.0, Above-gap us a.1)

  -- A node of a valid tree is taken out: no read through NULL, and a valid tree without its entry.
  pub tree_delete_node_lem :
      (t : Ytree K D) (n : Place K D)
      → IsValid t
      → tree_of n ≡ t.root
      → (root : Tree K D) × (tree_delete_node t n
          ≡ some (record t { root = root; size = size_dec t.size }))
        × IsValidRoot root (size_dec t.size)
        × (entries root ≡ preceding n ++ following n)
  unfolding tree_delete_node
  tree_delete_node_lem t n v e =
      let (a, above) = IsAvl-of_root n.ancestors (node_at n) (rw e v.avl) in
      let (root, returned, avl, holds) =
        Returns-and_Ensures IsAvl _ (delete_node n.ancestors n.left n.balance n.right)
          (delete_node-IsAvl n.ancestors n.left n.key n.value n.balance n.right a above)
          (delete_node-Holds n.ancestors n.left n.balance n.right) in
      let es : entries t.root ≡ preceding n ++ (entry_at n ∷ following n) =
        sym (ap entries e) ∙ entries-tree_of n in
      let rest : entries root ≡ preceding n ++ following n = holds ∙ simp append_assoc in
      let c = ap length es in
      let c1 = length-append (preceding n) (entry_at n ∷ following n) in
      let c2 = length-append (preceding n) (following n) in
      (
        root,
        rw returned,
        record {
          avl = avl;
          sorted =
              rw rest (IsSorted-gap (preceding n) (following n) n.key n.value (rw es at v.sorted));
          counted = rw rest (omega (arith, v.counted));
        },
        rest,
      )

  -- The key of the last entry of a list.
  abbrev pub last_key : List (Entry K D) → Option K
  last_key [] = none
  last_key (e ∷ []) = some e.0
  last_key (e ∷ f ∷ es) = last_key (f ∷ es)

  abbrev pub first_key : List (Entry K D) → Option K
  first_key [] = none
  first_key (e ∷ es) = some e.0

  last_key-append : (es : List (Entry K D)) (e : Entry K D) → last_key (es ++ (e ∷ [])) ≡ some e.0
  last_key-append [] e = refl
  last_key-append (x ∷ []) e = refl
  last_key-append (x ∷ y ∷ es) e = last_key-append (y ∷ es) e

  -- The entry is taken out, its key freed; the iterator returned stands at the key `k`.
  abbrev pub Removes :
      Ytree K D → Place K D → Option K → Option (Ytree K D × Option K × Option D) → Type (ℓ ⊔ κ)
  Removes t n k r =
      (u : Ytree K D) × (r ≡ some (u, k, n.value))
      × IsValid u
      × (entries u.root ≡ preceding n ++ following n)
      × (u.freed ≡ t.freed ++ free_key t.key_free n.key)

  remove_returning-Removes :
      (t : Ytree K D) (n : Place K D) (i : Option (Place K D)) (k : Option K)
      → IsValid t
      → tree_of n ≡ t.root
      → key_of i ≡ k
      → Removes t n k (remove_returning t n i)
  unfolding remove_returning
  remove_returning-Removes t n i k v e ek =
      let fs = t.freed ++ free_key t.key_free n.key in
      let (root, returned, valid, es) = tree_delete_node_lem (record t { freed = fs }) n v e in
      (
        record t { root = root; size = size_dec t.size; freed = fs },
        rw (returned, ek),
        valid,
        es,
        refl,
      )

  prev-key :
      (n : Place K D) (w : Option (Place K D))
      → EndsAt (tree_of n) (preceding n) (entry_at n ∷ following n) w
      → key_of w ≡ last_key (preceding n)
  prev-key n none h = rw h
  prev-key n (some m) h = sym (last_key-append (preceding m) (entry_at m)) ∙ ap last_key h.1

  next-key :
      (n : Place K D) (w : Option (Place K D))
      → StandsAt (tree_of n) (preceding n ++ (entry_at n ∷ [])) (following n) w
      → key_of w ≡ first_key (following n)
  next-key n none h = rw h
  next-key n (some m) h = ap first_key h.2

  -- For a node of a valid tree ytree_remove takes its entry out, frees its key, hands its data over
  -- and returns the iterator at the entry before it, or NULL if there was none.
  pub ytree_remove_refines :
      (t : Ytree K D) (n : Place K D)
      → IsValid t
      → tree_of n ≡ t.root
      → Removes t n (last_key (preceding n)) (ytree_remove t n)
  unfolding ytree_remove
  ytree_remove_refines t n v e =
      remove_returning-Removes t n (tree_prev_node n) _ v e
        (prev-key n (tree_prev_node n) (tree_prev_node-EndsAt n))

  -- ytree_remove_reverse does the same, and returns the iterator at the entry behind it.
  pub ytree_remove_reverse_refines :
      (t : Ytree K D) (n : Place K D)
      → IsValid t
      → tree_of n ≡ t.root
      → Removes t n (first_key (following n)) (ytree_remove_reverse t n)
  unfolding ytree_remove_reverse
  ytree_remove_reverse_refines t n v e =
      remove_returning-Removes t n (tree_next_node n) _ v e
        (next-key n (tree_next_node n) (tree_next_node-StandsAt n))
