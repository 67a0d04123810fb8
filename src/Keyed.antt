-- ===== src/Keyed.antt =====
-- Lists of items that have keys, in any order: what the list of a map of ydb/ymap.c holds.
pub mod Split
use Prim.Native.Nat.Ordering.{lt, eq, gt}
use libydb.Prelude.{
  Bool, true, false, ◌&&◌, if◌then◌else◌, Option, none, some, List, [], ◌∷◌, ◌++◌, ◌≡◌, ◌≢◌, refl,
  All, arith,
}
use libydb.Order.{Ord}

-- Equality of keys, by the comparison
abbrev pub same {ℓ} : {K : Type ℓ} ⦃o : Ord K⦄ → K → K → Bool
same ⦃o⦄ q k = elim (o.cmp q k) [ lt ↦ false | eq ↦ true | gt ↦ false ]

pub eq_of_same {ℓ} : {K : Type ℓ} ⦃o : Ord K⦄ → (q k : K) → same q k ≡ true → q ≡ k
eq_of_same ⦃o⦄ q k h = o.eq_of_cmp q k (ground arith)

pub same_refl {ℓ} : {K : Type ℓ} ⦃o : Ord K⦄ → (k : K) → same k k ≡ true
same_refl ⦃o⦄ k = ground (arith, o.cmp_refl k)

pub same_comm {ℓ} : {K : Type ℓ} ⦃o : Ord K⦄ → (q k : K) → same q k ≡ false → same k q ≡ false
same_comm ⦃o⦄ q k h = ground (arith, o.eq_of_cmp k q, o.cmp_refl k)

module _ {ℓ κ} {K : Type ℓ} {A : Type κ} ⦃o : Ord K⦄ (key : A → K) where
  -- The first item of the key
  unfoldable pub seek : K → List A → Option A
  seek q [] = none
  seek q (a ∷ rs) = if same q (key a) then some a else seek q rs

  -- All but the first item of the key
  unfoldable pub without : K → List A → List A
  without q [] = []
  without q (a ∷ rs) = if same q (key a) then rs else a ∷ without q rs

  -- No item has the key.
  abbrev pub Lacks : K → List A → Type 0
  Lacks q = All (λ a. same q (key a) ≡ false)

  -- No two items have the same key.
  abbrev pub IsUnique : List A → Type 0
  IsUnique [] = Unit
  IsUnique (a ∷ rs) = Lacks (key a) rs × IsUnique rs
