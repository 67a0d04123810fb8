-- ===== src/Ymap/Iterator.antt =====
-- The iterators of ydb/ymap.c: steps, and insertion and removal at an iterator.
use libydb.Prelude.{
  ℕ, suc, ◌<◌, ◌≡◌, refl, sym, ap, ◌∙◌, subst, ℤ, pos, negsuc, zero, Bool, true, false,
  if◌then◌else◌, ◌==◌, inl, inr, Option, none, some, List, [], ◌∷◌, ◌++◌, map-append, append_assoc,
  arith, length, length-map, snoc-cases, All, All-append_left, All-append_right, All-at, All-and,
  All-imp, All_of_map,
}
use libydb.Order.{Ord}
use libydb.Keyed.{seek}
use libydb.Keyed.Split.{seek-none-Lacks}
use libydb.Ytree.Api.Refine.{data_of, ytree_search_refines}
use libydb.Ylist.{update, Ylist, head}
use libydb.Ylist.Chain
use libydb.Ylist.Ring.{IsRing, linked, unlinked}
use libydb.Ylist.Iterator.{ylist_data, ylist_insert}
use libydb.Ylist.Iterator.Change.{erase-unlinked, insert-linked}
use libydb.Ylist.Iterator.Walk.{
  first_iter, last_iter, entry_ℤ, ylist_next-and_prev, ylist_first-and_last, ylist_index_lem,
}
use libydb.Ymap.{
  Imap, Ymap, with_imap, ymap_first, ymap_last, ymap_next, ymap_prev, ymap_index, ymap_remove,
  ymap_insert, insert_behind,
}
use libydb.Ymap.Rows.{Row, cells, HasRows, linked-HasRows, unlinked-HasRows, IsRing-at, new_row}
use libydb.Ymap.Keys.{row_key, entry_of, HasKeys, delete-HasKeys, insert_new-HasKeys}
use libydb.Ymap.Refine.{IsYmap}
use libydb.Ymap.Ends.{first, last, last-append}

module _ {ℓ κ} {K : Type ℓ} {D : Type κ} where
  -- The iterator of a row
  abbrev pub imap_at : Option (Row K D) → Option ℕ
  imap_at none = none
  imap_at (some r) = some r.imap

  abbrev pub row_at : List (Row K D) → ℤ → Option (Row K D)
  row_at rows (negsuc i) = none
  row_at [] (pos i) = none
  row_at (r ∷ rows) (pos zero) = some r
  row_at (r ∷ rows) (pos (suc i)) = row_at rows (pos i)

  cell_at : Option (Row K D) → Option ℕ
  cell_at none = none
  cell_at (some r) = some r.cell

  first-cells : (rows : List (Row K D)) → first_iter (cells rows) ≡ cell_at (first rows)
  unfolding cell_at
  first-cells [] = refl
  first-cells (r ∷ rows) = refl

  last-cells : (rows : List (Row K D)) → last_iter (cells rows) ≡ cell_at (last rows)
  unfolding cell_at
  last-cells [] = refl
  last-cells (r ∷ []) = refl
  last-cells (r ∷ s ∷ rows) = last-cells (s ∷ rows)

  entry-cells : (rows : List (Row K D)) (i : ℤ) → entry_ℤ (cells rows) i ≡ cell_at (row_at rows i)
  unfolding cell_at
  entry-cells rows (negsuc i) = refl
  entry-cells [] (pos i) = refl
  entry-cells (r ∷ rows) (pos zero) = refl
  entry-cells (r ∷ rows) (pos (suc i)) = entry-cells rows (pos i)

  data-cell :
      (list : Ylist ℕ) (rows : List (Row K D)) (o : Option (Row K D))
      → ((r : Row K D)
          → o ≡ some r
          → (list.live r.cell ≡ true) × (list.content r.cell ≡ some r.imap))
      → ylist_data list (cell_at o) ≡ some (imap_at o)
  unfolding ylist_data cell_at
  data-cell list rows none f = refl
  data-cell list rows (some r) f = let (live, holds) = f r refl in rw (live, holds) refl

  rows-Reads :
      (list : Ylist ℕ) (imaps : ℕ → Option (Imap K D)) (fresh : ℕ) (rows : List (Row K D))
      → HasRows list imaps fresh rows
      → All (λ r. (list.live r.cell ≡ true) × (list.content r.cell ≡ some r.imap)) rows
  rows-Reads list imaps fresh rows h =
      All-and _ _ rows (All_of_map _ (λ r. r.cell) rows h.ring.live.1)
        (All-imp (λ r k. k.0) rows h.stand)

  first-All {ν} :
      (P : Row K D → Type ν) (rows : List (Row K D))
      → All P rows
      → (r : Row K D) → first rows ≡ some r
      → P r
  first-All P [] h r e = cc
  first-All P (s ∷ rows) h r e = subst P (ground arith) h.0

  last-All {ν} :
      (P : Row K D → Type ν) (rows : List (Row K D))
      → All P rows
      → (r : Row K D) → last rows ≡ some r
      → P r
  last-All P [] h r e = cc
  last-All P (s ∷ []) h r e = subst P (ground arith) h.0
  last-All P (s ∷ u ∷ rows) h r e = last-All P (u ∷ rows) h.1 r e

  row_at-All {ν} :
      (P : Row K D → Type ν) (rows : List (Row K D)) (i : ℤ)
      → All P rows
      → (r : Row K D) → row_at rows i ≡ some r
      → P r
  row_at-All P rows (negsuc i) h r e = cc
  row_at-All P [] (pos i) h r e = cc
  row_at-All P (s ∷ rows) (pos zero) h r e = subst P (ground arith) h.0
  row_at-All P (s ∷ rows) (pos (suc i)) h r e = row_at-All P rows (pos i) h.1 r e

module _ {ℓ κ} {K : Type ℓ} {D : Type κ} ⦃o : Ord K⦄ where
  -- The iterators of a well-formed map: the first, the last, and the one at an index of its list.
  pub ymap_first-and_last :
      (m : Ymap K D) (rows : List (Row K D)) (fuel : ℕ) (i : ℤ)
      → IsYmap m rows
      → length rows < fuel
      → (ymap_first m ≡ some (imap_at (first rows)))
        × (ymap_last m ≡ some (imap_at (last rows)))
        × (ymap_index fuel m i ≡ some (imap_at (row_at rows i)))
  unfolding ymap_first ymap_last ymap_index
  ymap_first-and_last m rows fuel i h enough =
      let (one, end, _, _) = ylist_first-and_last m.list (cells rows) h.in_list.ring in
      let at =
        ylist_index_lem fuel m.list (cells rows) i h.in_list.ring
          (omega (arith, length-map (λ (r : Row K D). r.cell) rows)) in
      let reads = rows-Reads m.list m.imaps m.fresh rows h.in_list in
      (
        rw (one, first-cells rows) (data-cell m.list rows (first rows) (first-All _ rows reads)),
        rw (end, last-cells rows) (data-cell m.list rows (last rows) (last-All _ rows reads)),
        rw (at, entry-cells rows i)
            (data-cell m.list rows (row_at rows i) (row_at-All _ rows i reads)),
      )

  -- From an iterator of a well-formed map ymap_next and ymap_prev lead to the iterators beside it in
  -- the list, and to NULL at its ends.
  pub ymap_next-and_prev :
      (m : Ymap K D) (xs : List (Row K D)) (r : Row K D) (ys : List (Row K D))
      → IsYmap m (xs ++ (r ∷ ys))
      → (ymap_next m (some r.imap) ≡ some (imap_at (first ys)))
        × (ymap_prev m (some r.imap) ≡ some (imap_at (last xs)))
  unfolding ymap_next ymap_prev
  ymap_next-and_prev m xs r ys h =
      let (ring, stand) = IsRing-at m.list m.imaps m.fresh xs r ys h.in_list in
      let (ahead, back) = ylist_next-and_prev m.list (cells xs) r.cell (cells ys) ring in
      let reads = rows-Reads m.list m.imaps m.fresh (xs ++ (r ∷ ys)) h.in_list in
      let before = All-append_left _ xs (r ∷ ys) reads in
      let after = (All-append_right _ xs (r ∷ ys) reads).1 in
      (
        rw (stand.1, ahead, first-cells ys) (data-cell m.list ys (first ys) (first-All _ ys after)),
        rw (stand.1, back, last-cells xs) (data-cell m.list xs (last xs) (last-All _ xs before)),
      )

  -- The data of the cell before a cut, or of the head
  data-last :
      (list : Ylist ℕ) (imaps : ℕ → Option (Imap K D)) (fresh : ℕ) (xs ys : List (Row K D))
      → HasRows list imaps fresh (xs ++ ys)
      → ylist_data list (some (Chain.last_of head (cells xs))) ≡ some (imap_at (last xs))
  unfolding ylist_data
  data-last list imaps fresh xs ys h = elim (snoc-cases xs) [
    | inl e ↦ rw (e, h.ring.live.0, h.blank) refl
    | inr (us, s, e) ↦
        let (live, holds) = All-at _ us s ys (
          subst (All _) (ap (λ l. l ++ ys) e ∙ append_assoc us (s ∷ []) ys)
            (rows-Reads list imaps fresh (xs ++ ys) h)) in
        let (end, _) = last-append us s in
        let there : Chain.last_of head (cells xs) ≡ s.cell =
          ap (λ l. Chain.last_of head (cells l)) e
          ∙ ap (Chain.last_of head) (map-append (λ (t : Row K D). t.cell) us (s ∷ []))
          ∙ Chain.last_of-append head (cells us) s.cell in
        rw (there, live, holds, ap last e, end) refl
  ]

  -- On a well-formed map ymap_remove takes the entry of an iterator out of the list and of the tree
  -- and frees the iterator. The iterator before it, or NULL, is returned, and ufree, if it is set, is
  -- called on the data.
  pub ymap_remove_refines :
      (m : Ymap K D) (xs : List (Row K D)) (r : Row K D) (ys : List (Row K D)) (ufree : Bool)
      → IsYmap m (xs ++ (r ∷ ys))
      → (u : Ymap K D) × (ymap_remove m (some r.imap) ufree
          ≡ some (u, imap_at (last xs), if ufree then r.value ∷ [] else []))
        × IsYmap u (xs ++ ys)
        × (u.imaps r.imap ≡ none)
  unfolding ymap_remove
  ymap_remove_refines m xs r ys ufree h =
      let (ring, stand) = IsRing-at m.list m.imaps m.fresh xs r ys h.in_list in
      let (t, done, keys) = delete-HasKeys m.tree xs r ys h.in_tree in
      let erased = erase-unlinked m.list (cells xs) r.cell (cells ys) false ring in
      let left = unlinked-HasRows m.list m.imaps m.fresh xs r ys h.in_list in
      let before =
        data-last (unlinked m.list (cells xs) r.cell (cells ys)) (update m.imaps r.imap none)
          m.fresh xs ys left in
      let same_imap : (r.imap == r.imap) ≡ true = ground arith in
      (
        record m {
          tree = t;
          list = unlinked m.list (cells xs) r.cell (cells ys);
          imaps = update m.imaps r.imap none;
        },
        rw (stand.1, done, erased, before, same_imap) refl,
        record { in_list = left; in_tree = keys },
        Chain.update-same m.imaps r.imap none,
      )

  insert_behind-IsYmap :
      (m : Ymap K D) (xs : List (Row K D)) (r : Row K D) (ys : List (Row K D)) (q : K)
      (x : Option D)
      → IsYmap m (xs ++ (r ∷ ys))
      → seek row_key q (xs ++ (r ∷ ys)) ≡ none
      → let new = new_row m.list m.fresh q x in
        (u : Ymap K D) × (insert_behind m (some r.imap) q x ≡ some (u, some new.imap))
        × IsYmap u (xs ++ (r ∷ new ∷ ys))
  unfolding insert_behind
  insert_behind-IsYmap m xs r ys q x h e =
      let new = new_row m.list m.fresh q x in
      let (_, stand) = IsRing-at m.list m.imaps m.fresh xs r ys h.in_list in
      let cut : xs ++ (r ∷ ys) ≡ (xs ++ (r ∷ [])) ++ ys = sym (append_assoc xs (r ∷ []) ys) in
      let around : xs ++ (r ∷ new ∷ ys) ≡ (xs ++ (r ∷ [])) ++ (new ∷ ys) =
        sym (append_assoc xs (r ∷ []) (new ∷ ys)) in
      let before = subst (HasRows m.list m.imaps m.fresh) cut h.in_list in
      let rows = linked-HasRows m.list m.imaps m.fresh (xs ++ (r ∷ [])) ys q x before in
      let (t, done, keys) =
        insert_new-HasKeys m.tree (xs ++ (r ∷ [])) ys new (subst (HasKeys m.tree) cut h.in_tree) (
          seek-none-Lacks row_key q ((xs ++ (r ∷ [])) ++ ys)
            (subst (λ l. seek row_key q l ≡ none) cut e)) in
      let at : Chain.last_of head (cells (xs ++ (r ∷ []))) ≡ r.cell =
        ap (Chain.last_of head) (map-append (λ (s : Row K D). s.cell) xs (r ∷ []))
        ∙ Chain.last_of-append head (cells xs) r.cell in
      let ring =
        subst (IsRing m.list) (map-append (λ (s : Row K D). s.cell) (xs ++ (r ∷ [])) ys)
          before.ring in
      let put =
        ap (λ c. ylist_insert m.list (some c) (some m.fresh)) (sym at)
        ∙ insert-linked m.list (cells (xs ++ (r ∷ []))) (cells ys) (some m.fresh) ring in
      (
        with_imap (record m { tree = t })
            (linked m.list (cells (xs ++ (r ∷ []))) (cells ys) (some m.fresh)) new.cell q x,
        rw (stand.1, put, done) refl,
        record {
          in_list = subst (HasRows _ _ _) (sym around) rows;
          in_tree = subst (HasKeys t) (sym around) keys;
        },
      )

  -- On a well-formed map ymap_insert at an iterator changes nothing and returns NULL if the key is
  -- there. If not, the new entry comes to stand right behind the iterator's, and its iterator is
  -- returned.
  pub ymap_insert_refines :
      (m : Ymap K D) (xs : List (Row K D)) (r : Row K D) (ys : List (Row K D)) (q : K)
      (x : Option D)
      → IsYmap m (xs ++ (r ∷ ys))
      → let new = new_row m.list m.fresh q x in
        ((s : Row K D)
          → seek row_key q (xs ++ (r ∷ ys)) ≡ some s
          → ymap_insert m (some r.imap) q x ≡ some (m, none))
        × (seek row_key q (xs ++ (r ∷ ys)) ≡ none
            → (u : Ymap K D) × (ymap_insert m (some r.imap) q x ≡ some (u, some new.imap))
              × IsYmap u (xs ++ (r ∷ new ∷ ys)))
  unfolding ymap_insert
  ymap_insert_refines m xs r ys q x h =
      let rows = xs ++ (r ∷ ys) in
      let (got, _) = ytree_search_refines m.tree q h.in_tree.valid in
      let found = got ∙ ap data_of (h.in_tree.finds q) in
      (
        λ s e. let there = found ∙ ap (λ v. data_of (entry_of v)) e in rw (there, ymap_insert) refl,
        λ e.
            let absent = found ∙ ap (λ v. data_of (entry_of v)) e in
            let (u, inserted, map_u) = insert_behind-IsYmap m xs r ys q x h e in
            (u, rw (absent, ymap_insert) inserted, map_u),
      )
