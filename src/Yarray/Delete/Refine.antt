-- ===== src/Yarray/Delete/Refine.antt =====
-- ydb/yarray.c: yarray_delete as an operation on the entries.
use mathlib.Core.List.{reverse}
use libydb.Prelude.{
  ℕ, ◌%◌, ◌^◌, ◌<◌, ◌≤◌, ◌≡◌, refl, sym, ap, ◌∙◌, ltb, Bool-cases, false, pos, Option, none, List,
  ◌∷◌, ◌++◌, inl, inr, append_assoc, All, All-append_left, All-append_right, arith, length,
  length-append, subst,
}
use libydb.Yarray.{Yarray, size_mod}
use libydb.Yarray.Buffer.{all_items}
use libydb.Yarray.Ends.{all_items-append}
use libydb.Yarray.Get.Locate.{yfragment_get-Locates, yfragment_get-none}
use libydb.Yarray.Inside.{delete_inside}
use libydb.Yarray.Inside.Delete.{delete_inside_lem, delete_inside-fsize}
use libydb.Yarray.Merge.{IsSlice}
use libydb.Yarray.Delete.{delete_found, yarray_delete}
use libydb.Yarray.Delete.Row.{merge_around-IsRow}

module _ {ℓ} {D : Type ℓ} where
  -- A well-formed array whose fragments may be empty.
  pub record IsSliced (a : Yarray D) : Type 0 where
    pub slices : All (IsSlice a.fsize) a.fragments
    pub counted : a.n ≡ length (all_items a.fragments) % size_mod

  -- From an array of fewer than 2 ^ 31 entries yarray_delete takes the entry at a place of the array
  -- out, returns its data and keeps the order of the others.
  pub yarray_delete_lem :
      (a : Yarray D) (i : ℕ)
      → IsSliced a
      → length (all_items a.fragments) < 2 ^ 31
      → i < length (all_items a.fragments)
      → (xs ys : List (Option D)) × (length xs ≡ i)
        × (all_items a.fragments ≡ xs ++ ((yarray_delete a (pos i)).1 ∷ ys))
        × IsSliced (yarray_delete a (pos i)).0
        × (all_items ((yarray_delete a (pos i)).0.fragments) ≡ xs ++ ys)
  unfolding yarray_delete
  yarray_delete_lem a i h small lt =
      let (r, got, whole, inside, sum) = yfragment_get-Locates a i h.counted small lt in
      let test : ltb a.n i ≡ false = ground (arith, h.counted) in
      let parts = subst (All (IsSlice a.fsize)) whole h.slices in
      let around = All-append_right _ (reverse r.passed) (r.fragment ∷ r.after) parts in
      let slice = around.0 in
      let (us, vs, size, cut, buffer, kept) =
        delete_inside_lem r.fragment r.local slice.buffer inside in
      let ps = all_items (reverse r.passed) in
      let qs = all_items r.after in
      let x = (delete_inside r.fragment r.local).1 in
      let before : all_items a.fragments ≡ (ps ++ us) ++ (x ∷ (vs ++ qs)) =
        ap all_items whole
        ∙ all_items-append (reverse r.passed) (r.fragment ∷ r.after)
        ∙ ap (λ l. ps ++ (l ++ qs)) cut
        ∙ ap (λ l. ps ++ l) (append_assoc us (x ∷ vs) qs)
        ∙ sym (append_assoc ps us (x ∷ (vs ++ qs))) in
      let (slices, now) =
        merge_around-IsRow a.fsize r.passed (delete_inside r.fragment r.local).0 r.after
          (All-append_left _ (reverse r.passed) (r.fragment ∷ r.after) parts)
          (record { buffer = buffer; sized = delete_inside-fsize r.fragment r.local ∙ slice.sized })
          around.1 in
      let after =
        now
        ∙ ap (λ l. ps ++ (l ++ qs)) kept
        ∙ ap (λ l. ps ++ l) (append_assoc us vs qs)
        ∙ sym (append_assoc ps us (vs ++ qs)) in
      rw (test, got, delete_found)
        (
          ps ++ us,
          vs ++ qs,
          omega (arith, sum, size, length-append ps us),
          before,
          record {
            slices = slices;
            counted = omega (
              arith,
              h.counted,
              ap length before,
              ap length after,
              length-append (ps ++ us) (x ∷ (vs ++ qs)),
              length-append (ps ++ us) (vs ++ qs),
            );
          },
          after,
        )

  -- Past the end nothing is changed.
  pub yarray_delete_outside : (a : Yarray D) (i : ℕ) → a.n ≤ i → yarray_delete a (pos i) ≡ (a, none)
  unfolding yarray_delete delete_found
  yarray_delete_outside a i le = elim (Bool-cases (ltb a.n i)) [
    | inl past ↦ rw past refl
    | inr edge ↦ rw (edge, yfragment_get-none a i le) refl
  ]
