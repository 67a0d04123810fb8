-- ===== src/Dict/Lookup.antt =====
-- What a key finds in a dictionary after an insertion or an erasure, for the trees of ydb/ytree.c.
use libydb.Prelude.{if◌then◌else◌, Option, none, some, List, [], ◌∷◌, ◌≡◌, refl, arith}
use libydb.Order.{Ord}
use libydb.Keyed.{same}
use libydb.Dict.{Entry, find, insert, erase, Above, IsSorted, Above-trans}

module _ {ℓ κ} {K : Type ℓ} {D : Type κ} ⦃o : Ord K⦄ where
  find-Above : (q : K) (es : List (Entry K D)) → Above q es → find q es ≡ none
  unfolding find
  find-Above q [] a = refl
  find-Above q ((k, y) ∷ es) a = ground (arith, a.0)

  pub find-insert :
      (p q : K) (x : Option D) (es : List (Entry K D))
      → find p (insert q x es) ≡ (if same p q then some (q, x) else find p es)
  unfolding find insert
  find-insert p q x [] = ground arith
  find-insert p q x ((k, y) ∷ es) = ground (
    arith,
    find-insert p q x es,
    o.eq_of_cmp q k,
    o.eq_of_cmp p q,
    o.lt_trans p q k,
    o.cmp_refl k,
  )

  pub find-erase :
      (p q : K) (es : List (Entry K D))
      → IsSorted es
      → find p (erase q es) ≡ (if same p q then none else find p es)
  unfolding find erase
  find-erase p q [] s = ground arith
  find-erase p q ((k, y) ∷ es) s = ground (
    arith,
    find-erase p q es s.1,
    o.eq_of_cmp q k,
    o.eq_of_cmp p q,
    find-Above p es,
    Above-trans p k es,
    o.cmp_refl k,
    o.lt_trans p q k,
    Above-trans q k es,
  )
