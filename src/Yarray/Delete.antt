-- ===== src/Yarray/Delete.antt =====
-- ydb/yarray.c: yarray_delete and yarray_delete_custom.
pub mod Row
pub mod Refine
use mathlib.Core.List.{reverse, reverse-cons}
use libydb.Prelude.{
  ℕ, zero, suc, ◌+◌, ◌-◌, ◌%◌, ◌^◌, ◌<◌, ◌≤◌, ◌≡◌, refl, sym, ap, ap₂, ◌∙◌, ltb, leb, leb→le,
  Bool-cases, Bool, true, false, if◌then◌else◌, ℤ, pos, negsuc, Option, none, some, Option-cases,
  Ensures, List, [], ◌∷◌, ◌++◌, ◌⊎◌, inl, inr, append_assoc, All, All-append, All-append_left,
  All-append_right, arith, length, length-append, subst, append-nil,
}
use libydb.Yarray.{Fragment, Yarray, size_mod, count_down}
use libydb.Yarray.Buffer.{IsBuffer, items, all_items}
use libydb.Yarray.Ends.{all_items-append}
use libydb.Yarray.Destroy.{free_if}
use libydb.Yarray.Get.{Found, yfragment_get}
use libydb.Yarray.Inside.{delete_inside}
use libydb.Yarray.Inside.Delete.{delete_inside_lem, delete_inside-fsize}
use libydb.Yarray.Merge.{yfragment_merge_next, yfragment_merge_next_lem, IsSlice}

module _ {ℓ} {D : Type ℓ} where
  -- yfragment_merge_prev: the fragments, those before `fra` the nearest first
  unfoldable pub yfragment_merge_prev :
      List (Fragment D) → Fragment D → List (Fragment D) → List (Fragment D)
  yfragment_merge_prev [] fra after = fra ∷ after
  yfragment_merge_prev (p ∷ passed) fra after = elim (yfragment_merge_next p fra) [
    | none ↦ reverse passed ++ (p ∷ fra ∷ after)
    | some h ↦ reverse passed ++ (h ∷ after)
  ]

  -- `merged = yfragment_merge_next(array, fra); if (!merged) yfragment_merge_prev(array, fra);`
  unfoldable pub merge_around :
      List (Fragment D) → Fragment D → List (Fragment D) → List (Fragment D)
  unfolding yfragment_merge_prev
  merge_around passed fra [] = yfragment_merge_prev passed fra []
  merge_around passed fra (tar ∷ after) = elim (yfragment_merge_next fra tar) [
    | none ↦ yfragment_merge_prev passed fra (tar ∷ after)
    | some h ↦ reverse passed ++ (h ∷ after)
  ]

  -- On the fragment that yfragment_get found
  unfoldable pub delete_found : Yarray D → Option (Found D) → Yarray D × Option D
  unfolding merge_around
  delete_found a none = (a, none)
  delete_found a (some r) =
      let (fra, x) = delete_inside r.fragment r.local in
      (count_down a (merge_around r.passed fra r.after), x)

  unfoldable pub yarray_delete : Yarray D → ℤ → Yarray D × Option D
  unfolding delete_found
  yarray_delete a (negsuc index) = (a, none)
  yarray_delete a (pos index) =
      if ltb a.n index then (a, none) else delete_found a (yfragment_get a (pos index))

  -- The call of `ufree` on the data, if both are there
  unfoldable pub yarray_delete_custom : Yarray D → ℤ → Bool → Yarray D × List D
  unfolding yarray_delete
  yarray_delete_custom a index ufree =
      let (b, x) = yarray_delete a index in (b, if ufree then free_if x else [])
