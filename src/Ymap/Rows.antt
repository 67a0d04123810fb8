-- ===== src/Ymap/Rows.antt =====
-- ydb/ymap.c: the list of a map and the memory of its iterators.
use libydb.Prelude.{
  ℕ, suc, ◌<◌, ◌≡◌, refl, sym, ap₂, ◌∙◌, subst, Option, none, some, List, [], ◌∷◌, ◌++◌, map,
  map-append, All, All-imp, All-and, All_of_map, All-at, All-with, All-without, arith, ◌≢◌,
}
use libydb.Order.{nat_ord}
use libydb.Keyed.{Lacks, IsUnique}
use libydb.Keyed.Split.{IsUnique-with, IsUnique-cut, Lacks-cut}
use libydb.Ylist.{update, Ylist, head}
use libydb.Ylist.Chain
use libydb.Ylist.Ring.{IsRing, contents, linked, unlinked, linked-IsRing, unlinked-IsRing}
use libydb.Ymap.{Imap}

-- An entry of a map: its cell in the list, its iterator, and what the iterator holds.
pub record Row {ℓ κ} (K : Type ℓ) (D : Type κ) : Type (ℓ ⊔ κ) where
  pub cell : ℕ
  pub imap : ℕ
  pub key : K
  pub value : Option D

module _ {ℓ κ} {K : Type ℓ} {D : Type κ} where
  abbrev pub cells : List (Row K D) → List ℕ
  cells = map (λ r. r.cell)

  -- The cell holds the iterator, which is allocated and holds the entry.
  abbrev pub Stands : Ylist ℕ → (ℕ → Option (Imap K D)) → ℕ → Row K D → Type (ℓ ⊔ κ)
  Stands list imaps fresh r =
      (list.content r.cell ≡ some r.imap)
      × (imaps r.imap ≡ some (record { ilist = r.cell; key = r.key; value = r.value }))
      × (r.imap < fresh)

  pub record HasRows (list : Ylist ℕ) (imaps : ℕ → Option (Imap K D)) (fresh : ℕ)
      (rows : List (Row K D)) : Type (ℓ ⊔ κ) where
    pub ring : IsRing list (cells rows)
    pub blank : list.content head ≡ none
    pub stand : All (Stands list imaps fresh) rows
    pub apart : IsUnique (λ r. r.imap) rows

  cells-append : (xs ys : List (Row K D)) → cells (xs ++ ys) ≡ cells xs ++ cells ys
  cells-append xs ys = map-append (λ r. r.cell) xs ys

  -- The row of a new iterator and its new cell.
  abbrev pub new_row : Ylist ℕ → ℕ → K → Option D → Row K D
  new_row list fresh key x = record { cell = list.fresh; imap = fresh; key = key; value = x }

  abbrev pub imap_of : Row K D → Imap K D
  imap_of r = record { ilist = r.cell; key = r.key; value = r.value }

  pub linked-HasRows :
      (list : Ylist ℕ) (imaps : ℕ → Option (Imap K D)) (fresh : ℕ) (xs ys : List (Row K D))
      (key : K) (x : Option D)
      → HasRows list imaps fresh (xs ++ ys)
      → let r = new_row list fresh key x in
        HasRows
          (linked list (cells xs) (cells ys) (some fresh))
          (update imaps fresh (some (imap_of r)))
          (suc fresh)
          (xs ++ (r ∷ ys))
  linked-HasRows list imaps fresh xs ys key x h =
      let r = new_row list fresh key x in
      let ring : IsRing list (cells xs ++ cells ys) =
        subst (IsRing list) (cells-append xs ys) h.ring in
      let (linked_ring, held) = linked-IsRing list (cells xs) (cells ys) (some fresh) ring in
      let blank =
        Chain.update-other list.content list.fresh (some fresh) head
          (λ e. omega (arith, h.ring.bounded.0))
        ∙ h.blank in
      let mine : Stands (linked list (cells xs) (cells ys) (some fresh))
          (update imaps fresh (some (imap_of r))) (suc fresh) r =
        (
          Chain.update-same list.content list.fresh (some fresh),
          Chain.update-same imaps fresh (some (imap_of r)),
          omega arith,
        ) in
      let lacks : Lacks (λ s. s.imap) fresh (xs ++ ys) =
        All-imp (λ s k. ground (arith, k.2)) (xs ++ ys) h.stand in
      let old = All_of_map _ (λ s. s.cell) (xs ++ ys) h.ring.bounded.1 in
      let kept =
        All-imp
          (λ s k.
            let a : s.cell ≢ list.fresh = λ e. omega (arith, k.1) in
            let b : s.imap ≢ fresh = λ e. omega (arith, k.0.2) in
            (
              Chain.update-other list.content list.fresh (some fresh) s.cell a ∙ k.0.0,
              Chain.update-other imaps fresh (some (imap_of r)) s.imap b ∙ k.0.1,
              omega (arith, k.0.2),
            ))
          (xs ++ ys) (All-and _ _ (xs ++ ys) h.stand old) in
      record {
        ring = subst (IsRing _) (sym (cells-append xs (r ∷ ys))) linked_ring;
        blank = blank;
        stand = All-with _ xs r ys mine kept;
        apart = IsUnique-with (λ s. s.imap) xs r ys lacks h.apart;
      }

  pub unlinked-HasRows :
      (list : Ylist ℕ) (imaps : ℕ → Option (Imap K D)) (fresh : ℕ) (xs : List (Row K D))
      (r : Row K D) (ys : List (Row K D))
      → HasRows list imaps fresh (xs ++ (r ∷ ys))
      → HasRows
          (unlinked list (cells xs) r.cell (cells ys))
          (update imaps r.imap none)
          fresh
          (xs ++ ys)
  unlinked-HasRows list imaps fresh xs r ys h =
      let ring : IsRing list (cells xs ++ (r.cell ∷ cells ys)) =
        subst (IsRing list) (cells-append xs (r ∷ ys)) h.ring in
      let others = Lacks-cut (λ s. s.imap) xs r ys h.apart in
      record {
        ring =
            subst (IsRing _) (sym (cells-append xs ys))
              (unlinked-IsRing list (cells xs) r.cell (cells ys) ring);
        blank = h.blank;
        stand =
            All-imp
              (λ s k.
                let b : s.imap ≢ r.imap = λ e. ground (arith, k.1) in
                (k.0.0, Chain.update-other imaps r.imap none s.imap b ∙ k.0.1, k.0.2))
              (xs ++ ys) (All-and _ _ (xs ++ ys) (All-without _ xs r ys h.stand) others);
        apart = IsUnique-cut (λ s. s.imap) xs r ys h.apart;
      }

  -- The ring of a map that is cut at a row, and what the row's cell and iterator hold.
  pub IsRing-at :
      (list : Ylist ℕ) (imaps : ℕ → Option (Imap K D)) (fresh : ℕ) (xs : List (Row K D))
      (r : Row K D) (ys : List (Row K D))
      → HasRows list imaps fresh (xs ++ (r ∷ ys))
      → IsRing list (cells xs ++ (r.cell ∷ cells ys)) × Stands list imaps fresh r
  IsRing-at list imaps fresh xs r ys h =
      (subst (IsRing list) (cells-append xs (r ∷ ys)) h.ring, All-at _ xs r ys h.stand)

  -- The data of the list are the iterators.
  pub contents-rows :
      (list : Ylist ℕ) (imaps : ℕ → Option (Imap K D)) (fresh : ℕ) (rows : List (Row K D))
      → All (Stands list imaps fresh) rows
      → contents list (cells rows) ≡ map (λ r. some r.imap) rows
  contents-rows list imaps fresh [] h = refl
  contents-rows list imaps fresh (r ∷ rows) h =
      ap₂ (λ a l. a ∷ l) h.0.0 (contents-rows list imaps fresh rows h.1)
