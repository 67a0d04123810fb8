-- ===== src/Ytree/Entries/Insert.antt =====
-- The walk of Tree_Insert (ydb/ytree.c) against insertion into the ordered entries.
use libydb.Prelude.{
  Option, none, some, [], ◌∷◌, ◌++◌, ◌≡◌, refl, append_assoc, sym, ◌∙◌, ap, inl, inr, Ensures,
}
use libydb.Order.{Ord, Ordering-cases}
use libydb.Dict.{find, insert, IsSorted}
use libydb.Dict.Split.{insert-append_lt, find-append_lt, IsSorted-split}
use libydb.Dict.Split.{find-split_gt, insert-split_gt, find-split_eq, insert-split_eq}
use libydb.Ytree.{
  Tree, null, node, from_left, from_right, Ancestors, plug, root_of, node_at, write_at,
}
use libydb.Ytree.Balance.{insert_delta}
use libydb.Ytree.Node.{Walk, attached, found, insert_walk, node_new}
use libydb.Ytree.Entries.{entries, before, after, entries-root_of}
use libydb.Ytree.Entries.Rebalance.{Holds, insert_balance-Holds}

module _ {ℓ κ} {K : Type ℓ} {D : Type κ} ⦃o : Ord K⦄ where
  -- The subtree `t` under `p` was searched for `q`: where it is not there, the new tree holds it
  -- beside the rest, with the data `x`; where it is there, the node holds it with the data that the
  -- dictionary has, and a write to the node is an insertion into the dictionary.
  abbrev pub WalkInserts : Tree K D → Ancestors K D → K → Option D → Walk K D → Type (ℓ ⊔ κ)
  WalkInserts t p q x (attached root) =
      (find q (entries t) ≡ none)
      × Ensures (Holds (before p ++ (insert q x (entries t) ++ after p))) root
  WalkInserts t p q x (found n) =
      (find q (entries t) ≡ some (n.key, n.value))
      × (q ≡ n.key)
      × (root_of n.ancestors (node_at n) ≡ root_of p t)
      × Holds (before p ++ (insert q x (entries t) ++ after p)) (write_at n q x)

  -- A search that goes on in a part of the tree stands for one of the whole.
  WalkInserts-move :
      (t u : Tree K D) (p p' : Ancestors K D) (q : K) (x : Option D) (w : Walk K D)
      → find q (entries t) ≡ find q (entries u)
      → before p ++ (insert q x (entries t) ++ after p)
        ≡ before p' ++ (insert q x (entries u) ++ after p')
      → root_of p' u ≡ root_of p t
      → WalkInserts u p' q x w
      → WalkInserts t p q x w
  WalkInserts-move t u p p' q x (attached none) ef ei er h = (ef ∙ h.0, tt)
  WalkInserts-move t u p p' q x (attached (some v)) ef ei er h = (ef ∙ h.0, h.1 ∙ sym ei)
  WalkInserts-move t u p p' q x (found n) ef ei er h = (ef ∙ h.0, h.1, h.2 ∙ er, h.3 ∙ sym ei)

  -- The walk finds the key exactly when the dictionary has it; the tree that it makes holds the
  -- entry in its place.
  pub insert_walk-inserts :
      (t : Tree K D) (p : Ancestors K D) (q : K) (x : Option D)
      → IsSorted (entries t)
      → WalkInserts t p q x (insert_walk t p q x)
  unfolding insert_walk insert find root_of write_at
  insert_walk-inserts null [] q x s = (refl, refl)
  insert_walk-inserts null (f ∷ p) q x s = (
    refl,
    rw (entries-root_of (f ∷ p) (node_new q x)) at
        (insert_balance-Holds p (plug f (node_new q x)) (insert_delta f)),
  )
  insert_walk-inserts (node l k y b r) p q x s =
      let (sl, bl, ar, sr) = IsSorted-split (entries l) k y (entries r) s in
      elim (Ordering-cases (o.cmp q k)) [
        | inl e ↦
            rw (e, insert_walk)
              (WalkInserts-move (node l k y b r) l p (from_left k y b r ∷ p) q x _
                (find-append_lt q k y (entries l) (entries r) e)
                (simp (insert-append_lt q k x y (entries l) (entries r) e, append_assoc)) refl
                (insert_walk-inserts l (from_left k y b r ∷ p) q x sl))
        | inr (inl e) ↦
            rw (e, insert_walk)
              (
                find-split_eq q k y (entries l) (entries r) e bl,
                o.eq_of_cmp q k e,
                refl,
                rw (entries-root_of p (node l q x b r)) (
                    ap (λ es. before p ++ (es ++ after p))
                      (sym (insert-split_eq q k y (entries l) (entries r) e bl x))),
              )
        | inr (inr e) ↦
            rw (e, insert_walk)
              (WalkInserts-move (node l k y b r) r p (from_right l k y b ∷ p) q x _
                (find-split_gt q k y (entries l) (entries r) e bl)
                (simp (insert-split_gt q k y (entries l) (entries r) e bl x, append_assoc)) refl
                (insert_walk-inserts r (from_right l k y b ∷ p) q x sr))
      ]
