-- ===== src/Dict/Split.antt =====
-- The dictionary operations (for ydb/ytree.c) on a list of entries that is split at a key, as a
-- search through a tree splits it.
use Prim.Native.Nat.Ordering.{eq, gt}
use libydb.Prelude.{
  ◌∙◌, Option, some, List, [], ◌∷◌, ◌++◌, ◌≡◌, refl, All-append_left, All-append_right, arith,
}
use libydb.Order.{Ord, ◌≺◌}
use libydb.Dict.{Entry, find, insert, erase, Below, Above, IsSorted}

module _ {ℓ κ} {K : Type ℓ} {D : Type κ} ⦃o : Ord K⦄ where
  pub find-append_lt :
      (q k : K) (y : Option D) (xs ys : List (Entry K D))
      → q ≺ k
      → find q (xs ++ ((k, y) ∷ ys)) ≡ find q xs
  unfolding find
  find-append_lt q k y [] ys h = ground arith
  find-append_lt q k y (x ∷ xs) ys h = ground (arith, find-append_lt q k y xs ys h)

  pub find-append_gt :
      (q : K) (xs ys : List (Entry K D)) → Below q xs → find q (xs ++ ys) ≡ find q ys
  unfolding find
  find-append_gt q [] ys b = refl
  find-append_gt q (x ∷ xs) ys b =
      ground (arith, o.gt_of_lt x.0 q b.0, o.lt_of_gt q x.0, find-append_gt q xs ys b.1)

  pub insert-append_lt :
      (q k : K) (x y : Option D) (xs ys : List (Entry K D))
      → q ≺ k
      → insert q x (xs ++ ((k, y) ∷ ys)) ≡ insert q x xs ++ ((k, y) ∷ ys)
  unfolding insert
  insert-append_lt q k x y [] ys h = ground arith
  insert-append_lt q k x y (e ∷ xs) ys h = ground (arith, insert-append_lt q k x y xs ys h)

  pub insert-append_gt :
      (q : K) (x : Option D) (xs ys : List (Entry K D))
      → Below q xs
      → insert q x (xs ++ ys) ≡ xs ++ insert q x ys
  unfolding insert
  insert-append_gt q x [] ys b = refl
  insert-append_gt q x (e ∷ xs) ys b =
      ground (arith, o.gt_of_lt e.0 q b.0, insert-append_gt q x xs ys b.1)

  pub erase-append_lt :
      (q k : K) (y : Option D) (xs ys : List (Entry K D))
      → q ≺ k
      → erase q (xs ++ ((k, y) ∷ ys)) ≡ erase q xs ++ ((k, y) ∷ ys)
  unfolding erase
  erase-append_lt q k y [] ys h = ground arith
  erase-append_lt q k y (e ∷ xs) ys h = ground (arith, erase-append_lt q k y xs ys h)

  pub erase-append_gt :
      (q : K) (xs ys : List (Entry K D)) → Below q xs → erase q (xs ++ ys) ≡ xs ++ erase q ys
  unfolding erase
  erase-append_gt q [] ys b = refl
  erase-append_gt q (e ∷ xs) ys b =
      ground (arith, o.gt_of_lt e.0 q b.0, erase-append_gt q xs ys b.1)

  pub IsSorted-append_right : (xs ys : List (Entry K D)) → IsSorted (xs ++ ys) → IsSorted ys
  IsSorted-append_right [] ys s = s
  IsSorted-append_right (x ∷ xs) ys s = IsSorted-append_right xs ys s.1

  -- What a sorted list says of the entries on the two sides of one of them.
  pub IsSorted-split :
      (xs : List (Entry K D)) (k : K) (y : Option D) (ys : List (Entry K D))
      → IsSorted (xs ++ ((k, y) ∷ ys))
      → IsSorted xs × Below k xs × Above k ys × IsSorted ys
  IsSorted-split [] k y ys s = (tt, tt, s.0, s.1)
  IsSorted-split (x ∷ xs) k y ys s =
      let (sx, bx, ay, sy) = IsSorted-split xs k y ys s.1 in
      let above = All-append_right (λ e. x.0 ≺ e.0) xs ((k, y) ∷ ys) s.0 in
      ((All-append_left (λ e. x.0 ≺ e.0) xs ((k, y) ∷ ys) s.0, sx), (above.0, bx), ay, sy)

  pub Below-trans : (k q : K) (xs : List (Entry K D)) → Below k xs → k ≺ q → Below q xs
  Below-trans k q [] b h = tt
  Below-trans k q (x ∷ xs) b h = (o.lt_trans x.0 k q b.0 h, Below-trans k q xs b.1 h)

-- The three operations on a list that is split at the entry of `k`, by how `q` compares to `k`.
module _ {ℓ κ} {K : Type ℓ} {D : Type κ} ⦃o : Ord K⦄ (q k : K) (y : Option D)
    (xs ys : List (Entry K D)) where
  module _ (e : o.cmp q k ≡ gt) (b : Below k xs) where
    lower : Below q xs
    lower = Below-trans k q xs b (o.lt_of_gt q k e)

    pub find-split_gt : find q (xs ++ ((k, y) ∷ ys)) ≡ find q ys
    unfolding find
    find-split_gt = find-append_gt q xs ((k, y) ∷ ys) lower ∙ (rw (e, find))

    pub insert-split_gt :
        (x : Option D) → insert q x (xs ++ ((k, y) ∷ ys)) ≡ xs ++ ((k, y) ∷ insert q x ys)
    unfolding insert
    insert-split_gt x = insert-append_gt q x xs ((k, y) ∷ ys) lower ∙ (rw (e, insert))

    pub erase-split_gt : erase q (xs ++ ((k, y) ∷ ys)) ≡ xs ++ ((k, y) ∷ erase q ys)
    unfolding erase
    erase-split_gt = erase-append_gt q xs ((k, y) ∷ ys) lower ∙ (rw (e, erase))

  module _ (e : o.cmp q k ≡ eq) (b : Below k xs) where
    lower_eq : Below q xs
    lower_eq = rw (o.eq_of_cmp q k e) b

    pub find-split_eq : find q (xs ++ ((k, y) ∷ ys)) ≡ some (k, y)
    unfolding find
    find-split_eq = find-append_gt q xs ((k, y) ∷ ys) lower_eq ∙ (rw (e, find))

    pub insert-split_eq : (x : Option D) → insert q x (xs ++ ((k, y) ∷ ys)) ≡ xs ++ ((q, x) ∷ ys)
    unfolding insert
    insert-split_eq x = insert-append_gt q x xs ((k, y) ∷ ys) lower_eq ∙ (rw (e, insert))

    pub erase-split_eq : erase q (xs ++ ((k, y) ∷ ys)) ≡ xs ++ ys
    unfolding erase
    erase-split_eq = erase-append_gt q xs ((k, y) ∷ ys) lower_eq ∙ (rw (e, erase))
