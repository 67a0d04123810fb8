-- ===== src/Ytree/Entries/Search.antt =====
-- The walk of Tree_SearchNode (ydb/ytree.c) against a search through the ordered entries.
use libydb.Prelude.{Option, none, some, ◌∷◌, ◌++◌, ◌≡◌, refl, append_assoc, sym, ◌∙◌, ap, inl, inr}
use libydb.Order.{Ord, Ordering-cases}
use libydb.Dict.{find, erase, IsSorted}
use libydb.Dict.Split.{erase-append_lt, find-append_lt, IsSorted-split}
use libydb.Dict.Split.{find-split_gt, erase-split_gt, find-split_eq, erase-split_eq}
use libydb.Ytree.{Tree, null, node, from_left, from_right, Ancestors, root_of, Place, node_at}
use libydb.Ytree.Node.{search_node}
use libydb.Ytree.Entries.{entries, before, after, entries-root_of}
use libydb.Ytree.Entries.Delete.{without}

module _ {ℓ κ} {K : Type ℓ} {D : Type κ} ⦃o : Ord K⦄ where
  -- The subtree `t` under `p` was searched for `q`. A node that was found is a node of the tree, it
  -- holds the dictionary's entry of `q`, and the tree without it is the dictionary without `q`.
  abbrev pub Searched : Tree K D → Ancestors K D → K → Option (Place K D) → Type (ℓ ⊔ κ)
  Searched t p q none =
      (find q (entries t) ≡ none)
      × (before p ++ (erase q (entries t) ++ after p) ≡ before p ++ (entries t ++ after p))
  Searched t p q (some n) =
      (find q (entries t) ≡ some (n.key, n.value))
      × (without n.ancestors n.left n.right ≡ before p ++ (erase q (entries t) ++ after p))
      × (q ≡ n.key)
      × (root_of n.ancestors (node_at n) ≡ root_of p t)

  Searched-move :
      (t u : Tree K D) (p p' : Ancestors K D) (q : K) (w : Option (Place K D))
      → find q (entries t) ≡ find q (entries u)
      → before p ++ (erase q (entries t) ++ after p)
        ≡ before p' ++ (erase q (entries u) ++ after p')
      → root_of p' u ≡ root_of p t
      → Searched u p' q w
      → Searched t p q w
  Searched-move t u p p' q none ef ei er h =
      (ef ∙ h.0, ei ∙ h.1 ∙ sym (entries-root_of p' u) ∙ ap entries er ∙ entries-root_of p t)
  Searched-move t u p p' q (some n) ef ei er h = (ef ∙ h.0, h.1 ∙ sym ei, h.2, h.3 ∙ er)

  pub search_node-Searched :
      (t : Tree K D) (p : Ancestors K D) (q : K)
      → IsSorted (entries t)
      → Searched t p q (search_node t p q)
  unfolding search_node find erase root_of
  search_node-Searched null p q s = (refl, refl)
  search_node-Searched (node l k y b r) p q s =
      let (sl, bl, ar, sr) = IsSorted-split (entries l) k y (entries r) s in
      elim (Ordering-cases (o.cmp q k)) [
        | inl e ↦
            rw (e, search_node)
              (Searched-move (node l k y b r) l p (from_left k y b r ∷ p) q _
                (find-append_lt q k y (entries l) (entries r) e)
                (simp (erase-append_lt q k y (entries l) (entries r) e, append_assoc)) refl
                (search_node-Searched l (from_left k y b r ∷ p) q sl))
        | inr (inl e) ↦
            rw (e, search_node)
              (
                find-split_eq q k y (entries l) (entries r) e bl,
                ap (λ es. before p ++ (es ++ after p))
                    (sym (erase-split_eq q k y (entries l) (entries r) e bl)),
                o.eq_of_cmp q k e,
                refl,
              )
        | inr (inr e) ↦
            rw (e, search_node)
              (Searched-move (node l k y b r) r p (from_right l k y b ∷ p) q _
                (find-split_gt q k y (entries l) (entries r) e bl)
                (simp (erase-split_gt q k y (entries l) (entries r) e bl, append_assoc)) refl
                (search_node-Searched r (from_right l k y b ∷ p) q sr))
      ]
