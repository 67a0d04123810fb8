-- ===== src/Ymap/Keys.antt =====
-- ydb/ymap.c: the tree of a map against the rows of its list.
use libydb.Prelude.{
  ℕ, ◌≡◌, refl, sym, ap, ◌∙◌, subst, Bool-cases, false, inl, inr, if◌then◌else◌, Option, none, some,
  List, ◌∷◌, ◌++◌, arith, length, length-append,
}
use libydb.Order.{Ord}
use libydb.Keyed.{same, eq_of_same, seek, Lacks, IsUnique, same_refl}
use libydb.Keyed.Split.{seek-with, seek-Lacks, IsUnique-with, IsUnique-cut, Lacks-cut}
use libydb.Dict.{Entry, find}
use libydb.Dict.Lookup.{find-insert, find-erase}
use libydb.Ytree.Entries.{entries}
use libydb.Ytree.Api.{Ytree, ytree_insert, ytree_delete}
use libydb.Ytree.Api.Refine.{
  IsValid, data_of, ytree_insert_refines, ytree_delete_refines, length-insert, length-erase,
}
use libydb.Ymap.Rows.{Row}

module _ {ℓ κ} {K : Type ℓ} {D : Type κ} ⦃o : Ord K⦄ where
  abbrev pub row_key : Row K D → K
  row_key r = r.key

  -- The entry of the tree for a row
  abbrev pub entry_of : Option (Row K D) → Option (Entry K ℕ)
  entry_of none = none
  entry_of (some r) = some (r.key, some r.imap)

  -- The tree is valid and finds the iterators of the rows, whose keys differ.
  pub record HasKeys (tree : Ytree K ℕ) (rows : List (Row K D)) : Type (ℓ ⊔ κ) where
    pub valid : IsValid tree
    pub finds : (q : K) → find q (entries tree.root) ≡ entry_of (seek row_key q rows)
    pub unique : IsUnique row_key rows
    pub counted : length (entries tree.root) ≡ length rows

  -- A key that is new to the map
  pub insert_new-HasKeys :
      (tree : Ytree K ℕ) (xs ys : List (Row K D)) (r : Row K D)
      → HasKeys tree (xs ++ ys)
      → Lacks row_key r.key (xs ++ ys)
      → (u : Ytree K ℕ) × (ytree_insert tree r.key (some r.imap) ≡ some (u, none))
        × HasKeys u (xs ++ (r ∷ ys))
  insert_new-HasKeys tree xs ys r h lacks =
      let (u, e, valid, holds, freed) = ytree_insert_refines tree r.key (some r.imap) h.valid in
      let miss : find r.key (entries tree.root) ≡ none =
        h.finds r.key ∙ ap entry_of (seek-Lacks row_key r.key (xs ++ ys) lacks) in
      let size = (length-insert r.key (some r.imap) (entries tree.root)).0 miss in
      (
        u,
        e ∙ ap (λ f. some (u, data_of f)) miss,
        record {
          valid = valid;
          finds = λ q.
              rw
                (
                  holds,
                  find-insert q r.key (some r.imap) (entries tree.root),
                  seek-with row_key q xs r ys lacks,
                )
                (by_key q);
          unique = IsUnique-with row_key xs r ys lacks h.unique;
          counted = omega (
            arith,
            ap length holds,
            size,
            h.counted,
            length-append xs ys,
            length-append xs (r ∷ ys),
          );
        },
      )
    where
      by_key :
          (q : K)
          → (if same q r.key then some (r.key, some r.imap) else find q (entries tree.root))
            ≡ entry_of (if same q r.key then some r else seek row_key q (xs ++ ys))
      by_key q = elim (Bool-cases (same q r.key)) [ inl e ↦ rw e refl | inr e ↦ rw e (h.finds q) ]

  -- A key that the row `old` of the map has: the new row comes to stand anywhere.
  pub insert_old-HasKeys :
      (tree : Ytree K ℕ) (ps : List (Row K D)) (old : Row K D) (qs xs ys : List (Row K D))
      (r : Row K D)
      → HasKeys tree (ps ++ (old ∷ qs))
      → r.key ≡ old.key
      → ps ++ qs ≡ xs ++ ys
      → (u : Ytree K ℕ) × (ytree_insert tree r.key (some r.imap) ≡ some (u, some old.imap))
        × HasKeys u (xs ++ (r ∷ ys))
  insert_old-HasKeys tree ps old qs xs ys r h same_key rest =
      let (u, e, valid, holds, freed) = ytree_insert_refines tree r.key (some r.imap) h.valid in
      let apart = Lacks-cut row_key ps old qs h.unique in
      let lacks : Lacks row_key r.key (xs ++ ys) = rw (same_key, ← rest) apart in
      let unique = subst (IsUnique row_key) rest (IsUnique-cut row_key ps old qs h.unique) in
      let seen : seek row_key r.key (ps ++ (old ∷ qs)) ≡ some old =
        rw same_key (seek-with row_key old.key ps old qs apart ∙ rw (same_refl old.key) refl) in
      let hit : find r.key (entries tree.root) ≡ some (old.key, some old.imap) =
        h.finds r.key ∙ ap entry_of seen in
      let size =
        (length-insert r.key (some r.imap) (entries tree.root)).1 (old.key, some old.imap) hit in
      (
        u,
        e ∙ ap (λ f. some (u, data_of f)) hit,
        record {
          valid = valid;
          finds = λ q.
              rw
                (
                  holds,
                  find-insert q r.key (some r.imap) (entries tree.root),
                  seek-with row_key q xs r ys lacks,
                )
                (by_key q apart);
          unique = IsUnique-with row_key xs r ys lacks unique;
          counted = omega (
            arith,
            ap length holds,
            size,
            h.counted,
            ap length rest,
            length-append xs ys,
            length-append xs (r ∷ ys),
            length-append ps qs,
            length-append ps (old ∷ qs),
          );
        },
      )
    where
      by_key :
          (q : K)
          → Lacks row_key old.key (ps ++ qs)
          → (if same q r.key then some (r.key, some r.imap) else find q (entries tree.root))
            ≡ entry_of (if same q r.key then some r else seek row_key q (xs ++ ys))
      by_key q apart = elim (Bool-cases (same q r.key)) [
        | inl e ↦ rw e refl
        | inr e ↦
            let other : same q old.key ≡ false = subst (λ v. same q v ≡ false) same_key e in
            let split : seek row_key q (ps ++ (old ∷ qs)) ≡ seek row_key q (xs ++ ys) =
              seek-with row_key q ps old qs apart ∙ rw (other, rest) refl in
            rw e (h.finds q ∙ ap entry_of split)
      ]

  -- The row of a key is taken out.
  pub delete-HasKeys :
      (tree : Ytree K ℕ) (xs : List (Row K D)) (r : Row K D) (ys : List (Row K D))
      → HasKeys tree (xs ++ (r ∷ ys))
      → (u : Ytree K ℕ) × (ytree_delete tree r.key ≡ some (u, some r.imap)) × HasKeys u (xs ++ ys)
  delete-HasKeys tree xs r ys h =
      let (u, e, valid, holds, freed) = ytree_delete_refines tree r.key h.valid in
      let lacks = Lacks-cut row_key xs r ys h.unique in
      let seen : seek row_key r.key (xs ++ (r ∷ ys)) ≡ some r =
        seek-with row_key r.key xs r ys lacks ∙ rw (same_refl r.key) refl in
      let hit : find r.key (entries tree.root) ≡ some (r.key, some r.imap) =
        h.finds r.key ∙ ap entry_of seen in
      let size = (length-erase r.key (entries tree.root)).1 (r.key, some r.imap) hit in
      (
        u,
        e ∙ ap (λ f. some (u, data_of f)) hit,
        record {
          valid = valid;
          finds = λ q.
              rw (holds, find-erase q r.key (entries tree.root) h.valid.sorted) (by_key q lacks);
          unique = IsUnique-cut row_key xs r ys h.unique;
          counted = omega (
            arith,
            ap length holds,
            size,
            h.counted,
            length-append xs ys,
            length-append xs (r ∷ ys),
          );
        },
      )
    where
      by_key :
          (q : K)
          → Lacks row_key r.key (xs ++ ys)
          → (if same q r.key then none else find q (entries tree.root))
            ≡ entry_of (seek row_key q (xs ++ ys))
      by_key q lacks = elim (Bool-cases (same q r.key)) [
        | inl e ↦
            let none_left =
              subst (λ v. seek row_key v (xs ++ ys) ≡ none) (sym (eq_of_same q r.key e))
                (seek-Lacks row_key r.key (xs ++ ys) lacks) in
            rw (e, none_left) refl
        | inr e ↦
            let split = seek-with row_key q xs r ys lacks in
            rw e (h.finds q ∙ ap entry_of (rw e at split))
      ]

  -- A key that no row has
  pub delete_none-HasKeys :
      (tree : Ytree K ℕ) (rows : List (Row K D)) (q : K)
      → HasKeys tree rows
      → seek row_key q rows ≡ none
      → (u : Ytree K ℕ) × (ytree_delete tree q ≡ some (u, none)) × HasKeys u rows
  delete_none-HasKeys tree rows q h none_there =
      let (u, e, valid, holds, freed) = ytree_delete_refines tree q h.valid in
      let miss : find q (entries tree.root) ≡ none = h.finds q ∙ ap entry_of none_there in
      let size = (length-erase q (entries tree.root)).0 miss in
      (
        u,
        e ∙ ap (λ f. some (u, data_of f)) miss,
        record {
          valid = valid;
          finds = λ p. rw (holds, find-erase p q (entries tree.root) h.valid.sorted) (by_key p);
          unique = h.unique;
          counted = omega (arith, ap length holds, size, h.counted);
        },
      )
    where
      by_key :
          (p : K)
          → (if same p q then none else find p (entries tree.root)) ≡ entry_of (seek row_key p rows)
      by_key p = elim (Bool-cases (same p q)) [
        | inl e ↦ let eq = eq_of_same p q e in rw (e, eq, none_there) refl
        | inr e ↦ rw e (h.finds p)
      ]
