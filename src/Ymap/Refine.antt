-- ===== src/Ymap/Refine.antt =====
-- The functions of ydb/ymap.c that change the map, as operations on its entries in their order.
use libydb.Prelude.{
  ◌≡◌, refl, sym, ap, ◌∙◌, subst, false, inl, inr, Option-cases, Option, none, some, List, [], ◌∷◌,
  ◌++◌, ◌>>=◌, map, map-append, append-nil, append_assoc, arith,
}
use libydb.Order.{Ord}
use libydb.Keyed.{seek, without}
use libydb.Keyed.Split.{seek-none-Lacks, seek-some-Cut, without-Lacks}
use libydb.Dict.{Entry}
use libydb.Ytree.Api.Refine.{data_of}
use libydb.Ylist.Iterator.Change.{erase-unlinked}
use libydb.Ylist.{update}
use libydb.Ylist.Ring.{push_back-linked, push_front-linked, unlinked, linked}
use libydb.Ymap.{
  Ymap, with_imap, take_out, enter_tree, ymap_insert_back, ymap_insert_front, ymap_delete,
}
use libydb.Ymap.Rows.{Row, cells, HasRows, linked-HasRows, unlinked-HasRows, IsRing-at, new_row}
use libydb.Ymap.Keys.{
  row_key, HasKeys, insert_new-HasKeys, insert_old-HasKeys, delete-HasKeys, delete_none-HasKeys,
}

module _ {ℓ κ} {K : Type ℓ} {D : Type κ} where
  abbrev pub pair : Row K D → Entry K D
  pair r = (r.key, r.value)

  abbrev pub entry_key : Entry K D → K
  entry_key e = e.0

module _ {ℓ κ} {K : Type ℓ} {D : Type κ} ⦃o : Ord K⦄ where
  -- The list, the iterators and the tree of a map hold the same rows.
  pub record IsYmap (m : Ymap K D) (rows : List (Row K D)) : Type (ℓ ⊔ κ) where
    pub in_list : HasRows m.list m.imaps m.fresh rows
    pub in_tree : HasKeys m.tree rows

  -- The map is well formed and has these entries, in this order.
  abbrev pub Maps : Ymap K D → List (Entry K D) → Type (ℓ ⊔ κ)
  Maps m es = (rows : List (Row K D)) × IsYmap m rows × (map pair rows ≡ es)

  pub seek-pair :
      (q : K) (rows : List (Row K D))
      → seek entry_key q (map pair rows) ≡ (seek row_key q rows >>= λ r. some (pair r))
  unfolding seek
  seek-pair q [] = refl
  seek-pair q (r ∷ rows) = ground (arith, seek-pair q rows)

  pub seek-pairs :
      (q : K) (rows : List (Row K D))
      → data_of (seek entry_key q (map pair rows)) ≡ (seek row_key q rows >>= λ r. r.value)
  seek-pairs q rows = ap data_of (seek-pair q rows) ∙ on_row (seek row_key q rows)
    where
      on_row : (o : Option (Row K D)) → data_of (o >>= λ r. some (pair r)) ≡ (o >>= λ r. r.value)
      on_row none = refl
      on_row (some r) = refl

  pub without-pairs :
      (q : K) (rows : List (Row K D))
      → without entry_key q (map pair rows) ≡ map pair (without row_key q rows)
  unfolding without
  without-pairs q [] = refl
  without-pairs q (r ∷ rows) = ground (arith, without-pairs q rows)

  -- An iterator of the list is taken out of it and freed.
  take_out-HasRows :
      (m : Ymap K D) (xs : List (Row K D)) (r : Row K D) (ys : List (Row K D))
      → HasRows m.list m.imaps m.fresh (xs ++ (r ∷ ys))
      → (u : Ymap K D) × (take_out m (some r.imap) ≡ some (u, r.value))
        × HasRows u.list u.imaps u.fresh (xs ++ ys)
        × (u.tree ≡ m.tree)
  unfolding take_out
  take_out-HasRows m xs r ys h =
      let (ring, stand) = IsRing-at m.list m.imaps m.fresh xs r ys h in
      (
        record m {
          list = unlinked m.list (cells xs) r.cell (cells ys);
          imaps = update m.imaps r.imap none;
        },
        rw (stand.1, erase-unlinked m.list (cells xs) r.cell (cells ys) false ring) refl,
        unlinked-HasRows m.list m.imaps m.fresh xs r ys h,
        refl,
      )

  enter_new :
      (m : Ymap K D) (xs ys : List (Row K D)) (r : Row K D)
      → HasRows m.list m.imaps m.fresh (xs ++ (r ∷ ys))
      → HasKeys m.tree (xs ++ ys)
      → seek row_key r.key (xs ++ ys) ≡ none
      → (u : Ymap K D) × (enter_tree m r.key r.imap ≡ some (u, none)) × IsYmap u (xs ++ (r ∷ ys))
  unfolding enter_tree take_out
  enter_new m xs ys r h k e =
      let (t, done, keys) =
        insert_new-HasKeys m.tree xs ys r k (seek-none-Lacks row_key r.key (xs ++ ys) e) in
      (record m { tree = t }, rw done refl, record { in_list = h; in_tree = keys })

  enter_old :
      (m : Ymap K D) (ps : List (Row K D)) (old : Row K D) (qs xs ys ls rs : List (Row K D))
      (r : Row K D)
      → HasRows m.list m.imaps m.fresh (ls ++ (old ∷ rs))
      → HasKeys m.tree (ps ++ (old ∷ qs))
      → r.key ≡ old.key
      → ps ++ qs ≡ xs ++ ys
      → ls ++ rs ≡ xs ++ (r ∷ ys)
      → (u : Ymap K D) × (enter_tree m r.key r.imap ≡ some (u, old.value))
        × IsYmap u (xs ++ (r ∷ ys))
  unfolding enter_tree
  enter_old m ps old qs xs ys ls rs r h k same_key rest there =
      let (t, done, keys) = insert_old-HasKeys m.tree ps old qs xs ys r k same_key rest in
      let (u, out, rows, tree) = take_out-HasRows (record m { tree = t }) ls old rs h in
      (
        u,
        rw (done, out) refl,
        record {
          in_list = subst (HasRows u.list u.imaps u.fresh) there rows;
          in_tree = rw tree keys;
        },
      )

  -- The new iterator stands last in the list.
  enter_back :
      (m : Ymap K D) (rows : List (Row K D)) (r : Row K D)
      → HasRows m.list m.imaps m.fresh (rows ++ (r ∷ []))
      → HasKeys m.tree rows
      → (u : Ymap K D) × (enter_tree m r.key r.imap
          ≡ some (u, seek row_key r.key rows >>= λ s. s.value))
        × IsYmap u (without row_key r.key rows ++ (r ∷ []))
  enter_back m rows r h k = elim (Option-cases (seek row_key r.key rows)) [
    | inl e ↦
        let flat : HasKeys m.tree (rows ++ []) = rw (append-nil rows) k in
        rw (e, without-Lacks row_key r.key rows (seek-none-Lacks row_key r.key rows e))
          (enter_new m rows [] r h flat (rw (append-nil rows) e))
    | inr (old, e) ↦
        let (ps, qs, cut, same_key, rest) = seek-some-Cut row_key r.key rows old e in
        let there : HasRows m.list m.imaps m.fresh (ps ++ (old ∷ (qs ++ (r ∷ [])))) =
          subst (HasRows m.list m.imaps m.fresh)
            (ap (λ l. l ++ (r ∷ [])) cut ∙ append_assoc ps (old ∷ qs) (r ∷ [])) h in
        rw (e, rest)
          (enter_old m ps old qs (ps ++ qs) [] ps (qs ++ (r ∷ [])) r there
            (subst (HasKeys m.tree) cut k) same_key (sym (append-nil (ps ++ qs)))
            (sym (append_assoc ps qs (r ∷ []))))
  ]

  -- The new iterator stands first in the list.
  enter_front :
      (m : Ymap K D) (rows : List (Row K D)) (r : Row K D)
      → HasRows m.list m.imaps m.fresh (r ∷ rows)
      → HasKeys m.tree rows
      → (u : Ymap K D) × (enter_tree m r.key r.imap
          ≡ some (u, seek row_key r.key rows >>= λ s. s.value))
        × IsYmap u (r ∷ without row_key r.key rows)
  enter_front m rows r h k = elim (Option-cases (seek row_key r.key rows)) [
    | inl e ↦
        rw (e, without-Lacks row_key r.key rows (seek-none-Lacks row_key r.key rows e))
          (enter_new m [] rows r h k e)
    | inr (old, e) ↦
        let (ps, qs, cut, same_key, rest) = seek-some-Cut row_key r.key rows old e in
        let there : HasRows m.list m.imaps m.fresh (r ∷ (ps ++ (old ∷ qs))) =
          subst (HasRows m.list m.imaps m.fresh) (ap (λ l. r ∷ l) cut) h in
        rw (e, rest)
          (enter_old m ps old qs [] (ps ++ qs) (r ∷ ps) qs r there (subst (HasKeys m.tree) cut k)
            same_key refl refl)
  ]

  -- On a well-formed map ymap_insert_back uses allocated memory only. It returns the data of the
  -- entry of the key, or NULL, takes that entry out, and puts the new one last.
  pub ymap_insert_back_refines :
      (m : Ymap K D) (es : List (Entry K D)) (q : K) (x : Option D)
      → Maps m es
      → (u : Ymap K D) × (ymap_insert_back m q x ≡ some (u, data_of (seek entry_key q es)))
        × Maps u (without entry_key q es ++ ((q, x) ∷ []))
  unfolding ymap_insert_back
  ymap_insert_back_refines m es q x (rows, h, held) =
      let flat = subst (HasRows m.list m.imaps m.fresh) (sym (append-nil rows)) h.in_list in
      let linked_rows = linked-HasRows m.list m.imaps m.fresh rows [] q x flat in
      let r = new_row m.list m.fresh q x in
      let n = with_imap m (linked m.list (cells rows) [] (some m.fresh)) r.cell q x in
      let (u, e, map_u) = enter_back n rows r linked_rows h.in_tree in
      rw (sym held, push_back-linked m.list (cells rows) (some m.fresh) h.in_list.ring)
        (
          u,
          e ∙ ap (λ v. some (u, v)) (sym (seek-pairs q rows)),
          (
            without row_key q rows ++ (r ∷ []),
            map_u,
            map-append pair (without row_key q rows) (r ∷ [])
                ∙ ap (λ l. l ++ ((q, x) ∷ [])) (sym (without-pairs q rows)),
          ),
        )

  -- On a well-formed map ymap_insert_front uses allocated memory only. It returns the data of the
  -- entry of the key, or NULL, takes that entry out, and puts the new one first.
  pub ymap_insert_front_refines :
      (m : Ymap K D) (es : List (Entry K D)) (q : K) (x : Option D)
      → Maps m es
      → (u : Ymap K D) × (ymap_insert_front m q x ≡ some (u, data_of (seek entry_key q es)))
        × Maps u ((q, x) ∷ without entry_key q es)
  unfolding ymap_insert_front
  ymap_insert_front_refines m es q x (rows, h, held) =
      let linked_rows = linked-HasRows m.list m.imaps m.fresh [] rows q x h.in_list in
      let r = new_row m.list m.fresh q x in
      let n = with_imap m (linked m.list [] (cells rows) (some m.fresh)) r.cell q x in
      let (u, e, map_u) = enter_front n rows r linked_rows h.in_tree in
      rw (sym held, push_front-linked m.list (cells rows) (some m.fresh) h.in_list.ring)
        (
          u,
          e ∙ ap (λ v. some (u, v)) (sym (seek-pairs q rows)),
          (r ∷ without row_key q rows, map_u, ap (λ l. (q, x) ∷ l) (sym (without-pairs q rows))),
        )

  -- On a well-formed map ymap_delete uses allocated memory only. It takes the entry of the key out,
  -- if there is one, and returns its data, or NULL; the others keep their order.
  pub ymap_delete_refines :
      (m : Ymap K D) (es : List (Entry K D)) (q : K)
      → Maps m es
      → (u : Ymap K D) × (ymap_delete m q ≡ some (u, data_of (seek entry_key q es)))
        × Maps u (without entry_key q es)
  unfolding ymap_delete
  ymap_delete_refines m es q (rows, h, held) =
      rw (sym held, seek-pairs q rows, without-pairs q rows)
        (elim (Option-cases (seek row_key q rows)) [
          | inl e ↦
              let (t, done, keys) = delete_none-HasKeys m.tree rows q h.in_tree e in
              rw (e, without-Lacks row_key q rows (seek-none-Lacks row_key q rows e))
                (
                  record m { tree = t },
                  rw (done, take_out) refl,
                  (rows, record { in_list = h.in_list; in_tree = keys }, refl),
                )
          | inr (old, e) ↦
              let (ps, qs, cut, same_key, rest) = seek-some-Cut row_key q rows old e in
              let (t, done, keys) =
                delete-HasKeys m.tree ps old qs (subst (HasKeys m.tree) cut h.in_tree) in
              let (u, out, left, tree) =
                take_out-HasRows (record m { tree = t }) ps old qs
                  (subst (HasRows m.list m.imaps m.fresh) cut h.in_list) in
              rw (e, rest, same_key)
                (
                  u,
                  rw (done, out) refl,
                  (ps ++ qs, record { in_list = left; in_tree = rw tree keys }, refl),
                )
        ])
