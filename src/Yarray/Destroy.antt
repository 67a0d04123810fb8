-- ===== src/Yarray/Destroy.antt =====
-- ydb/yarray.c: yfragment_free and yarray_destroy_custom.
use libydb.Prelude.{
  ℕ, zero, suc, ◌≡◌, refl, sym, ap, ap₂, ◌∙◌, Bool, true, false, if◌then◌else◌, Option, none, some,
  List, [], ◌∷◌, ◌++◌, append_assoc,
}
use libydb.Yarray.{Fragment, Yarray, yindex}
use libydb.Yarray.Buffer.{items, all_items, items_from}

module _ {ℓ} {D : Type ℓ} where
  -- `if (data) ufree(data);`
  abbrev pub free_if : Option D → List D
  free_if none = []
  free_if (some x) = x ∷ []

  unfoldable pub free_slots : Fragment D → ℕ → ℕ → List D
  free_slots fra i zero = []
  free_slots fra i (suc k) = free_if (fra.slots (yindex fra i)) ++ free_slots fra (suc i) k

  -- The calls of `ufree`, if it is set.
  unfoldable pub yfragment_free : Fragment D → Bool → List D
  unfolding free_slots
  yfragment_free fra ufree = if ufree then free_slots fra 0 fra.n else []

  -- The loop that pops the fragments
  unfoldable pub free_fragments : List (Fragment D) → Bool → List D
  unfolding yfragment_free
  free_fragments [] ufree = []
  free_fragments (fra ∷ fs) ufree = yfragment_free fra ufree ++ free_fragments fs ufree

  unfoldable pub yarray_destroy_custom : Yarray D → Bool → List D
  unfolding free_fragments
  yarray_destroy_custom a ufree = free_fragments a.fragments ufree

  -- The data that are not NULL.
  abbrev pub present : List (Option D) → List D
  present [] = []
  present (x ∷ xs) = free_if x ++ present xs

  present-append : (xs ys : List (Option D)) → present (xs ++ ys) ≡ present xs ++ present ys
  present-append [] ys = refl
  present-append (x ∷ xs) ys =
      ap (λ l. free_if x ++ l) (present-append xs ys)
      ∙ sym (append_assoc (free_if x) (present xs) (present ys))

  free_slots-present :
      (fra : Fragment D) (i k : ℕ)
      → free_slots fra i k ≡ present (items_from fra.slots fra.front fra.fsize i k)
  unfolding free_slots items_from
  free_slots-present fra i zero = refl
  free_slots-present fra i (suc k) =
      ap (λ l. free_if (fra.slots (yindex fra i)) ++ l) (free_slots-present fra (suc i) k)

  free_fragments-present :
      (fs : List (Fragment D))
      → (free_fragments fs true ≡ present (all_items fs)) × (free_fragments fs false ≡ [])
  unfolding free_fragments yfragment_free
  free_fragments-present [] = (refl, refl)
  free_fragments-present (fra ∷ fs) =
      let (t, f) = free_fragments-present fs in
      (
        ap₂ (λ u v. u ++ v) (free_slots-present fra 0 fra.n) t
            ∙ sym (present-append (items fra) (all_items fs)),
        f,
      )

  -- The end of an array calls `ufree`, if it is set, on the data that are not NULL, each once and in
  -- order.
  pub yarray_destroy_lem :
      (a : Yarray D)
      → (yarray_destroy_custom a true ≡ present (all_items a.fragments))
        × (yarray_destroy_custom a false ≡ [])
  unfolding yarray_destroy_custom
  yarray_destroy_lem a = free_fragments-present a.fragments
