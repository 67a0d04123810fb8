-- ===== src/Yarray/Get/Locate.antt =====
-- ydb/yarray.c: the fragment that yfragment_get finds, from either end.
use mathlib.Core.List.{reverse, reverse-cons, reverse-reverse}
use libydb.Prelude.{
  ℕ, ◌+◌, ◌-◌, ◌%◌, ◌/◌, ◌^◌, ◌<◌, ◌≤◌, ◌≡◌, refl, sym, ap, ◌∙◌, ltb, leb, pos, pos_part, ◌-ℤ◌,
  leb_ℤ, true, false, Option, none, some, List, [], ◌∷◌, ◌++◌, inl, inr, arith, Bool-cases, length,
  length-append, append_assoc, append-nil,
}
use libydb.Yarray.{Fragment, Yarray, size_mod}
use libydb.Yarray.Buffer.{length-items_from, items, all_items}
use libydb.Yarray.Ends.{all_items-append}
use libydb.Yarray.Get.{Found, to_int, get_forward, get_backward, yfragment_get}

module _ {ℓ} {D : Type ℓ} where
  -- The fragment of an index was found.
  abbrev pub Locates : List (Fragment D) → ℕ → Option (Found D) → Type ℓ
  Locates fs index o =
      (r : Found D) × (o ≡ some r)
      × (fs ≡ reverse r.passed ++ (r.fragment ∷ r.after))
      × (r.local < (r.fragment).n)
      × (length (all_items (reverse r.passed)) + r.local ≡ index)

  reverse-move :
      (f : Fragment D) (fs gs : List (Fragment D)) → reverse (f ∷ fs) ++ gs ≡ reverse fs ++ (f ∷ gs)
  reverse-move f fs gs =
      ap (λ l. l ++ gs) (reverse-cons f fs) ∙ append_assoc (reverse fs) (f ∷ []) gs

  length-reverse_cons :
      (f : Fragment D) (fs : List (Fragment D))
      → length (all_items (reverse (f ∷ fs))) ≡ length (all_items (reverse fs)) + f.n
  length-reverse_cons f fs = omega (
    arith,
    ap length (ap all_items (reverse-cons f fs) ∙ all_items-append (reverse fs) (f ∷ [])),
    length-append (all_items (reverse fs)) (items f ++ []),
    length-append (items f) [],
    length-items_from f.slots f.front f.fsize 0 f.n,
  )

  get_forward-Locates :
      (passed fs : List (Fragment D)) (n index : ℕ)
      → n ≡ length (all_items (reverse passed))
      → n ≤ index
      → index < n + length (all_items fs)
      → Locates (reverse passed ++ fs) index (get_forward passed fs n index)
  unfolding get_forward
  get_forward-Locates passed [] n index e le lt = absurd (omega arith)
  get_forward-Locates passed (fra ∷ fs) n index e le lt =
      let size = length-items_from fra.slots fra.front fra.fsize 0 fra.n in
      elim (Bool-cases (ltb index (n + fra.n))) [
        | inl here ↦ rw here (
          record { passed = passed; fragment = fra; after = fs; local = index - n },
          refl,
          refl,
          ground arith,
          omega arith,
        )
        | inr there ↦
            let past : n + fra.n ≤ index = ground arith in
            let (r, g, whole, inside, sum) =
              get_forward-Locates (fra ∷ passed) fs (n + fra.n) index
                (omega (arith, length-reverse_cons fra passed)) past
                (omega (arith, size, length-append (items fra) (all_items fs))) in
            rw there (r, g, sym (reverse-move fra passed fs) ∙ whole, inside, sum)
      ]

  get_backward-Locates :
      (rs after : List (Fragment D)) (n index : ℕ)
      → n ≡ length (all_items (reverse rs))
      → index < n
      → Locates (reverse rs ++ after) index (get_backward rs after (pos n) index)
  unfolding get_backward
  get_backward-Locates [] after n index e lt = absurd (omega arith)
  get_backward-Locates (fra ∷ rs) after n index e lt =
      let size = length (all_items (reverse rs)) in
      let total : n ≡ size + fra.n = omega (arith, length-reverse_cons fra rs) in
      let m : pos n -ℤ pos fra.n ≡ pos size = ground arith in
      elim (Bool-cases (leb size index)) [
        | inl here ↦
            let local : pos_part (pos index -ℤ pos size) ≡ index - size = ground arith in
            let test : leb_ℤ (pos size) (pos index) ≡ true = ground arith in
            rw (m, test, local)
              (
                record { passed = rs; fragment = fra; after = after; local = index - size },
                refl,
                reverse-move fra rs after,
                ground arith,
                ground arith,
              )
        | inr there ↦
            let test : leb_ℤ (pos size) (pos index) ≡ false = ground arith in
            let (r, g, whole, inside, sum) =
              get_backward-Locates rs (fra ∷ after) size index refl (ground arith) in
            rw (m, test) (r, g, reverse-move fra rs after ∙ whole, inside, sum)
      ]

  -- yfragment_get on an array of fewer than 2 ^ 31 entries.
  pub yfragment_get-Locates :
      (a : Yarray D) (i : ℕ)
      → a.n ≡ length (all_items a.fragments) % size_mod
      → length (all_items a.fragments) < 2 ^ 31
      → i < length (all_items a.fragments)
      → Locates a.fragments i (yfragment_get a (pos i))
  unfolding yfragment_get
  yfragment_get-Locates a i counted small lt =
      let size : a.n ≡ length (all_items a.fragments) = omega (arith, counted) in
      let inside : leb a.n i ≡ false = ground arith in
      elim (Bool-cases (ltb i (a.n / 2))) [
        | inl low ↦
            rw (inside, low)
              (get_forward-Locates [] a.fragments 0 i refl (omega arith) (omega arith))
        | inr high ↦
            let twice = reverse-reverse a.fragments in
            let int : to_int a.n ≡ pos a.n = ground arith in
            let (r, g, whole, in_it, sum) =
              get_backward-Locates (reverse a.fragments) [] a.n i (rw twice size) (omega arith) in
            rw (inside, high, int)
              (
                r,
                g,
                sym (append-nil a.fragments ∙ refl) ∙ ap (λ l. l ++ []) (sym twice) ∙ whole,
                in_it,
                sum,
              )
      ]

  pub yfragment_get-none : (a : Yarray D) (i : ℕ) → a.n ≤ i → yfragment_get a (pos i) ≡ none
  unfolding yfragment_get
  yfragment_get-none a i le = let past : leb a.n i ≡ true = ground arith in rw past refl
