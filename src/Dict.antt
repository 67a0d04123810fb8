-- ===== src/Dict.antt =====
-- What a tree of ydb/ytree.c promises: a dictionary, as the list of its entries in the order of
-- their keys. Every operation here is independent of the tree.
pub mod Split
pub mod Lookup
use Prim.Native.Nat.Ordering.{lt, eq, gt}
use libydb.Prelude.{ℕ, Option, none, some, List, [], ◌∷◌, ◌++◌, ◌≡◌, refl, ap, All, arith}
use libydb.Order.{Ord, ◌≺◌}

-- A key with its data; `none` is a NULL data pointer.
abbrev pub Entry {ℓ κ} : Type ℓ → Type κ → Type (ℓ ⊔ κ)
Entry K D = K × Option D

module _ {ℓ κ} {K : Type ℓ} {D : Type κ} ⦃o : Ord K⦄ where
  unfoldable pub find : K → List (Entry K D) → Option (Entry K D)
  find q [] = none
  find q ((k, y) ∷ ys) = elim (o.cmp q k) [ lt ↦ none | eq ↦ some (k, y) | gt ↦ find q ys ]

  -- The entry of an equal key is replaced, its key included.
  unfoldable pub insert : K → Option D → List (Entry K D) → List (Entry K D)
  insert q x [] = (q, x) ∷ []
  insert q x ((k, y) ∷ ys) = elim (o.cmp q k) [
    | lt ↦ (q, x) ∷ (k, y) ∷ ys
    | eq ↦ (q, x) ∷ ys
    | gt ↦ (k, y) ∷ insert q x ys
  ]

  unfoldable pub erase : K → List (Entry K D) → List (Entry K D)
  erase q [] = []
  erase q ((k, y) ∷ ys) = elim (o.cmp q k) [ lt ↦ (k, y) ∷ ys | eq ↦ ys | gt ↦ (k, y) ∷ erase q ys ]

  abbrev pub Below : K → List (Entry K D) → Type 0
  Below q = All (λ e. e.0 ≺ q)

  abbrev pub Above : K → List (Entry K D) → Type 0
  Above q = All (λ e. q ≺ e.0)

  abbrev pub IsSorted : List (Entry K D) → Type 0
  IsSorted [] = Unit
  IsSorted ((k, y) ∷ ys) = Above k ys × IsSorted ys

  pub Above-trans : (q k : K) (ys : List (Entry K D)) → q ≺ k → Above k ys → Above q ys
  Above-trans q k [] h a = tt
  Above-trans q k ((j, z) ∷ ys) h a = (o.lt_trans q k j h a.0, Above-trans q k ys h a.1)

  pub Above-insert :
      (a q : K) (x : Option D) (ys : List (Entry K D))
      → a ≺ q
      → Above a ys
      → Above a (insert q x ys)
  unfolding insert
  Above-insert a q x [] h b = (h, tt)
  Above-insert a q x ((k, y) ∷ ys) h b = ground (arith, Above-insert a q x ys h b.1)

  -- `insert` keeps the entries in order.
  pub insert-IsSorted :
      (q : K) (x : Option D) (ys : List (Entry K D)) → IsSorted ys → IsSorted (insert q x ys)
  unfolding insert
  insert-IsSorted q x [] s = (tt, tt)
  insert-IsSorted q x ((k, y) ∷ ys) s = ground (
    arith,
    insert-IsSorted q x ys s.1,
    Above-insert k q x ys,
    o.lt_of_gt q k,
    o.eq_of_cmp q k,
    Above-trans q k ys,
  )

  Above-erase : (a q : K) (ys : List (Entry K D)) → Above a ys → Above a (erase q ys)
  unfolding erase
  Above-erase a q [] b = tt
  Above-erase a q ((k, y) ∷ ys) b = ground (arith, Above-erase a q ys b.1)

  -- `erase` keeps the entries in order.
  pub erase-IsSorted : (q : K) (ys : List (Entry K D)) → IsSorted ys → IsSorted (erase q ys)
  unfolding erase
  erase-IsSorted q [] s = tt
  erase-IsSorted q ((k, y) ∷ ys) s = ground (arith, erase-IsSorted q ys s.1, Above-erase k q ys s.0)
