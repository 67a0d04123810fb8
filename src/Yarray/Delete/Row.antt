-- ===== src/Yarray/Delete/Row.antt =====
-- ydb/yarray.c: the fragments after the merges of yarray_delete.
use mathlib.Core.List.{reverse, reverse-cons}
use libydb.Prelude.{
  ℕ, ◌≡◌, refl, sym, ap, ◌∙◌, Option, none, some, Ensures, List, [], ◌∷◌, ◌++◌, append_assoc, All,
  All-append, All-append_left, All-append_right, subst, append-nil,
}
use libydb.Yarray.{Fragment}
use libydb.Yarray.Buffer.{items, all_items}
use libydb.Yarray.Ends.{all_items-append}
use libydb.Yarray.Merge.{yfragment_merge_next, yfragment_merge_next_lem, IsSlice}
use libydb.Yarray.Delete.{yfragment_merge_prev, merge_around}

module _ {ℓ} {D : Type ℓ} where
  -- The fragments are those of an array of the size, with these entries.
  abbrev pub IsRow : ℕ → List (Option D) → List (Fragment D) → Type ℓ
  IsRow fsize es fs = All (IsSlice fsize) fs × (all_items fs ≡ es)

  pub append-IsRow :
      (fsize : ℕ) (fs gs : List (Fragment D))
      → All (IsSlice fsize) fs
      → All (IsSlice fsize) gs
      → IsRow fsize (all_items fs ++ all_items gs) (fs ++ gs)
  append-IsRow fsize fs gs h k = (All-append _ fs gs h k, all_items-append fs gs)

  -- What yfragment_merge_next has made of two neighbours.
  abbrev Joins : ℕ → Fragment D → Fragment D → Option (Fragment D) → Type ℓ
  Joins fsize p q o = Ensures (λ h. IsSlice fsize h × (items h ≡ items p ++ items q)) o

  joined-IsRow :
      (fsize : ℕ) (ps : List (Fragment D)) (p q h : Fragment D) (after : List (Fragment D))
      → All (IsSlice fsize) ps
      → Joins fsize p q (some h)
      → All (IsSlice fsize) after
      → IsRow fsize (all_items ps ++ (items p ++ (items q ++ all_items after))) (ps ++ (h ∷ after))
  joined-IsRow fsize ps p q h after hp j ha =
      let (slices, e) = append-IsRow fsize ps (h ∷ after) hp (j.0, ha) in
      (
        slices,
        e
            ∙ ap (λ l. all_items ps ++ l)
                (ap (λ l. l ++ all_items after) j.1
                  ∙ append_assoc (items p) (items q) (all_items after)),
      )

  merge_prev-IsRow :
      (fsize : ℕ) (passed : List (Fragment D)) (fra : Fragment D) (after : List (Fragment D))
      → All (IsSlice fsize) (reverse passed)
      → IsSlice fsize fra
      → All (IsSlice fsize) after
      → IsRow fsize
          (all_items (reverse passed) ++ (items fra ++ all_items after))
          (yfragment_merge_prev passed fra after)
  unfolding yfragment_merge_prev
  merge_prev-IsRow fsize [] fra after hp hf ha = ((hf, ha), refl)
  merge_prev-IsRow fsize (p ∷ passed) fra after hp hf ha =
      let split : All (IsSlice fsize) (reverse passed ++ (p ∷ [])) =
        subst (All (IsSlice fsize)) (reverse-cons p passed) hp in
      let front = All-append_left _ (reverse passed) (p ∷ []) split in
      let near = (All-append_right _ (reverse passed) (p ∷ []) split).0 in
      let rest = items fra ++ all_items after in
      let whole : all_items (reverse (p ∷ passed)) ++ rest
          ≡ all_items (reverse passed) ++ (items p ++ rest) =
        ap (λ l. all_items l ++ rest) (reverse-cons p passed)
        ∙ ap (λ l. l ++ rest) (all_items-append (reverse passed) (p ∷ []))
        ∙ append_assoc (all_items (reverse passed)) (items p ++ []) rest
        ∙ ap (λ l. all_items (reverse passed) ++ (l ++ rest)) (append-nil (items p)) in
      subst (λ es. IsRow fsize es (yfragment_merge_prev (p ∷ passed) fra after)) (sym whole)
        (by_merge (yfragment_merge_next p fra) (yfragment_merge_next_lem fsize p fra near hf) front
          near)
    where
      by_merge :
          (o : Option (Fragment D))
          → Joins fsize p fra o
          → All (IsSlice fsize) (reverse passed)
          → IsSlice fsize p
          → IsRow fsize
              (all_items (reverse passed) ++ (items p ++ (items fra ++ all_items after)))
              (elim o [
                | none ↦ reverse passed ++ (p ∷ fra ∷ after)
                | some h ↦ reverse passed ++ (h ∷ after)
              ])
      by_merge none j front near =
          append-IsRow fsize (reverse passed) (p ∷ fra ∷ after) front (near, (hf, ha))
      by_merge (some h) j front near = joined-IsRow fsize (reverse passed) p fra h after front j ha

  pub merge_around-IsRow :
      (fsize : ℕ) (passed : List (Fragment D)) (fra : Fragment D) (after : List (Fragment D))
      → All (IsSlice fsize) (reverse passed)
      → IsSlice fsize fra
      → All (IsSlice fsize) after
      → IsRow fsize
          (all_items (reverse passed) ++ (items fra ++ all_items after))
          (merge_around passed fra after)
  unfolding merge_around
  merge_around-IsRow fsize passed fra [] hp hf ha = merge_prev-IsRow fsize passed fra [] hp hf ha
  merge_around-IsRow fsize passed fra (tar ∷ after) hp hf ha =
      by_merge (yfragment_merge_next fra tar) (yfragment_merge_next_lem fsize fra tar hf ha.0)
    where
      by_merge :
          (o : Option (Fragment D))
          → Joins fsize fra tar o
          → IsRow fsize
              (all_items (reverse passed) ++ (items fra ++ (items tar ++ all_items after)))
              (elim o [
                | none ↦ yfragment_merge_prev passed fra (tar ∷ after)
                | some h ↦ reverse passed ++ (h ∷ after)
              ])
      by_merge none j = merge_prev-IsRow fsize passed fra (tar ∷ after) hp hf ha
      by_merge (some h) j = joined-IsRow fsize (reverse passed) fra tar h after hp j ha.1
