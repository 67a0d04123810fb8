-- ===== src/Yarray/Get.antt =====
-- ydb/yarray.c: yfragment_get, which finds the fragment of an index from the nearer end, and
-- yarray_data.
pub mod Locate
pub mod Data
use mathlib.Core.List.{reverse, reverse-cons, reverse-reverse}
use libydb.Prelude.{
  ℕ, zero, suc, ◌+◌, ◌-◌, ◌%◌, ◌/◌, ◌^◌, ◌<◌, ◌≤◌, ◌≡◌, refl, sym, ap, ◌∙◌, ltb, leb, ℤ, pos,
  negsuc, pos_part, ◌-ℤ◌, leb_ℤ, true, false, if◌then◌else◌, Option, none, some, List, [], ◌∷◌,
  ◌++◌, inl, inr, arith, Bool-cases, length, length-append, append_assoc, append-nil, leb→le,
}
use libydb.Yarray.{Fragment, Yarray, yindex, size_mod}
use libydb.Yarray.Buffer.{length-items_from, items, all_items, items_from}
use libydb.Yarray.Ends.{IsArray, all_items-append}

-- A size_t as an int of 32 bits
abbrev pub to_int : ℕ → ℤ
to_int n = let m = n % 2 ^ 32 in if ltb m (2 ^ 31) then pos m else negsuc (2 ^ 32 - m - 1)

-- What yfragment_get returns: a fragment, with those before it (the nearest first) and those after it,
-- and the local index.
pub record Found {ℓ} (D : Type ℓ) : Type ℓ where
  pub passed : List (Fragment D)
  pub fragment : Fragment D
  pub after : List (Fragment D)
  pub local : ℕ

module _ {ℓ} {D : Type ℓ} where
  -- The loop from the first fragment; `n` is the number of entries passed, an int.
  unfoldable pub get_forward : List (Fragment D) → List (Fragment D) → ℕ → ℕ → Option (Found D)
  get_forward passed [] n index = none
  get_forward passed (fra ∷ fs) n index =
      let rest = get_forward (fra ∷ passed) fs (n + fra.n) index in
      if ltb index (n + fra.n)
      then some (record { passed = passed; fragment = fra; after = fs; local = index - n })
      else rest

  -- The loop from the last fragment, on the fragments from the last to the first.
  unfoldable pub get_backward : List (Fragment D) → List (Fragment D) → ℤ → ℕ → Option (Found D)
  get_backward [] after n index = none
  get_backward (fra ∷ fs) after n index =
      let m = n -ℤ pos fra.n in
      let rest = get_backward fs (fra ∷ after) m index in
      if leb_ℤ m (pos index)
      then some
          (record { passed = fs; fragment = fra; after = after; local = pos_part (pos index -ℤ m) })
      else rest

  unfoldable pub yfragment_get : Yarray D → ℤ → Option (Found D)
  unfolding get_forward get_backward
  yfragment_get a (negsuc index) = none
  yfragment_get a (pos index) =
      if leb a.n index
      then none
      else if ltb index (a.n / 2)
      then get_forward [] a.fragments 0 index
      else get_backward (reverse a.fragments) [] (to_int a.n) index

  unfoldable pub yarray_data : Yarray D → ℤ → Option D
  unfolding yfragment_get
  yarray_data a index = elim (yfragment_get a index) [
    | none ↦ none
    | some r ↦ (r.fragment).slots (yindex r.fragment r.local)
  ]
