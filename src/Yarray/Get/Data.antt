-- ===== src/Yarray/Get/Data.antt =====
-- ydb/yarray.c: what yarray_data reads.
use mathlib.Core.List.{reverse}
use libydb.Prelude.{
  ℕ, zero, suc, ◌+◌, ◌%◌, ◌^◌, ◌<◌, ◌≤◌, ◌≡◌, refl, sym, ap, ◌∙◌, leb, ℤ, pos, negsuc, Option, none,
  List, [], ◌∷◌, ◌++◌, inl, inr, arith, Bool-cases, length, leb→le,
}
use libydb.Yarray.{Fragment, Yarray, yindex}
use libydb.Yarray.Buffer.{length-items_from, items, all_items, items_from}
use libydb.Yarray.Ends.{IsArray, all_items-append}
use libydb.Yarray.Get.{yfragment_get, yarray_data}
use libydb.Yarray.Get.Locate.{yfragment_get-Locates, yfragment_get-none}

module _ {ℓ} {D : Type ℓ} where
  -- The data at a place of a list, NULL past its end.
  abbrev pub datum : List (Option D) → ℕ → Option D
  datum [] i = none
  datum (x ∷ xs) zero = x
  datum (x ∷ xs) (suc i) = datum xs i

  abbrev pub datum_ℤ : List (Option D) → ℤ → Option D
  datum_ℤ xs (pos i) = datum xs i
  datum_ℤ xs (negsuc i) = none

  datum-append_left :
      (xs ys : List (Option D)) (i : ℕ) → i < length xs → datum (xs ++ ys) i ≡ datum xs i
  datum-append_left [] ys i l = elim l [ ]
  datum-append_left (x ∷ xs) ys zero l = refl
  datum-append_left (x ∷ xs) ys (suc i) l = datum-append_left xs ys i (omega arith)

  datum-append_right :
      (xs ys : List (Option D)) (i : ℕ) → datum (xs ++ ys) (length xs + i) ≡ datum ys i
  datum-append_right [] ys i = let e : 0 + i ≡ i = omega arith in rw e refl
  datum-append_right (x ∷ xs) ys i =
      let e : suc (length xs) + i ≡ suc (length xs + i) = omega arith in
      rw e (datum-append_right xs ys i)

  datum-past : (xs : List (Option D)) (i : ℕ) → length xs ≤ i → datum xs i ≡ none
  datum-past [] i l = refl
  datum-past (x ∷ xs) zero l = elim l [ ]
  datum-past (x ∷ xs) (suc i) l = datum-past xs i (omega arith)

  datum-items_from :
      (slots : ℕ → Option D) (front fsize i k j : ℕ)
      → j < k
      → datum (items_from slots front fsize i k) j ≡ slots ((front + (i + j)) % fsize)
  unfolding items_from
  datum-items_from slots front fsize i zero j l = elim l [ ]
  datum-items_from slots front fsize i (suc k) zero l = let e : i + 0 ≡ i = omega arith in rw e refl
  datum-items_from slots front fsize i (suc k) (suc j) l =
      let e : i + suc j ≡ suc i + j = omega arith in
      rw e (datum-items_from slots front fsize (suc i) k j (omega arith))

  -- In the first of two parts, which is a fragment.
  datum-items :
      (fra : Fragment D) (ys : List (Option D)) (j : ℕ)
      → j < fra.n
      → fra.slots (yindex fra j) ≡ datum (items fra ++ ys) j
  datum-items fra ys j l =
      let e : 0 + j ≡ j = omega arith in
      sym (
        datum-append_left (items fra) ys j
          (omega (arith, length-items_from fra.slots fra.front fra.fsize 0 fra.n))
        ∙ datum-items_from fra.slots fra.front fra.fsize 0 fra.n j l
        ∙ ap (λ v. fra.slots ((fra.front + v) % fra.fsize)) e)

  -- On a well-formed array of fewer than 2 ^ 31 entries yarray_data gives the data at a place, from
  -- whichever end it is looked for, and NULL past the end and for a negative place.
  pub yarray_data_lem :
      (a : Yarray D) (index : ℤ)
      → IsArray a
      → length (all_items a.fragments) < 2 ^ 31
      → yarray_data a index ≡ datum_ℤ (all_items a.fragments) index
  unfolding yarray_data yfragment_get
  yarray_data_lem a (negsuc i) h small = refl
  yarray_data_lem a (pos i) h small = elim (Bool-cases (leb (length (all_items a.fragments)) i)) [
    | inl past ↦
        rw (yfragment_get-none a i (omega (arith, h.counted, leb→le _ _ past)), yarray_data)
          (sym (datum-past (all_items a.fragments) i (leb→le _ _ past)))
    | inr inside ↦
        let lt : i < length (all_items a.fragments) = ground arith in
        let (r, g, whole, in_it, sum) = yfragment_get-Locates a i h.counted small lt in
        let xs = all_items (reverse r.passed) in
        rw (g, yarray_data)
          (datum-items r.fragment (all_items r.after) r.local in_it
            ∙ sym (datum-append_right xs (items r.fragment ++ all_items r.after) r.local)
            ∙ ap (datum (xs ++ (items r.fragment ++ all_items r.after))) sum
            ∙ ap (λ l. datum l i)
                (sym (
                  ap all_items whole ∙ all_items-append (reverse r.passed) (r.fragment ∷ r.after))))
  ]
