-- ===== src/Yarray/Insert/Refine.antt =====
-- ydb/yarray.c: yarray_insert as an operation on the entries.
use mathlib.Core.List.{reverse}
use libydb.Prelude.{
  ℕ, ◌+◌, ◌-◌, ◌/◌, ◌^◌, ◌<◌, ◌≤◌, ◌≡◌, refl, sym, ap, ◌∙◌, ltb, ltb→lt, Bool-cases, false, pos,
  negsuc, Option, List, ◌∷◌, ◌++◌, inl, inr, append_assoc, All, All-append_left, All-append_right,
  arith, length, length-append, subst,
}
use libydb.Yarray.{Fragment, Yarray, count_up}
use libydb.Yarray.Buffer.{items, all_items, items_from, length-items_from}
use libydb.Yarray.Ends.{all_items-append}
use libydb.Yarray.Get.{Found}
use libydb.Yarray.Get.Locate.{yfragment_get-Locates, yfragment_get-none}
use libydb.Yarray.Inside.{insert_inside, items_from-append}
use libydb.Yarray.Inside.Insert.{insert_inside_lem, insert_inside-fsize}
use libydb.Yarray.Merge.{IsSlice}
use libydb.Yarray.Delete.Refine.{IsSliced}
use libydb.Yarray.Delete.Row.{append-IsRow}
use libydb.Yarray.Insert.{insert_row, insert_found, yarray_insert}
use libydb.Yarray.Insert.Row.{HoldsNew, ahead_of, behind_of, insert_next-IsRow, insert_prev-IsRow}

module _ {ℓ} {D : Type ℓ} where
  -- What an insertion at an entry that was found leaves.
  abbrev Inserts : ℕ → Found D → Option D → List (Fragment D) → Type ℓ
  Inserts fsize r x fs =
      (us vs : List (Option D)) × (length us ≡ r.local)
      × (items r.fragment ≡ us ++ vs)
      × HoldsNew fsize r us x vs fs

  shifted-Inserts :
      (fsize : ℕ) (r : Found D) (x : Option D) (fs : List (Fragment D))
      → r.local < (r.fragment).n
      → HoldsNew fsize r (ahead_of r) x (behind_of r) fs
      → Inserts fsize r x fs
  shifted-Inserts fsize r x fs l h =
      let fra = r.fragment in
      let size : fra.n ≡ r.local + (fra.n - r.local) = omega arith in
      let z : 0 + r.local ≡ r.local = omega arith in
      (
        ahead_of r,
        behind_of r,
        length-items_from fra.slots fra.front fra.fsize 0 r.local,
        ap (items_from fra.slots fra.front fra.fsize 0) size
            ∙ items_from-append fra.slots fra.front fra.fsize 0 r.local (fra.n - r.local)
            ∙ ap (λ v. ahead_of r ++ items_from fra.slots fra.front fra.fsize v (fra.n - r.local))
                z,
        h,
      )

  insert_row-Inserts :
      (fsize : ℕ) (r : Found D) (x : Option D)
      → All (IsSlice fsize) (reverse r.passed)
      → IsSlice fsize r.fragment
      → All (IsSlice fsize) r.after
      → r.local < (r.fragment).n
      → Inserts fsize r x (insert_row r x)
  unfolding insert_row
  insert_row-Inserts fsize r x hp hf ha l =
      elim (Bool-cases (ltb (r.fragment).n (r.fragment).fsize)) [
        | inl free ↦
            let (us, vs, size, cut, buffer, now) =
              insert_inside_lem r.fragment r.local x hf.buffer (ltb→lt _ _ free) (omega arith) in
            let (slices, e) =
              append-IsRow fsize (reverse r.passed) (insert_inside r.fragment r.local x ∷ r.after)
                hp
                (
                  record {
                    buffer = buffer;
                    sized = insert_inside-fsize r.fragment r.local x ∙ hf.sized;
                  },
                  ha,
                ) in
            rw free (
              us,
              vs,
              size,
              cut,
              (slices, e ∙ ap (λ v. all_items (reverse r.passed) ++ (v ++ all_items r.after)) now),
            )
        | inr full ↦ elim (Bool-cases (ltb ((r.fragment).n / 2) r.local)) [
          | inl high ↦
              rw (full, high)
                (shifted-Inserts fsize r x _ l
                  (insert_next-IsRow fsize r x hp hf ha (omega (arith, ltb→lt _ _ high)) l))
          | inr low ↦
              rw (full, low)
                (shifted-Inserts fsize r x _ l (insert_prev-IsRow fsize r x hp hf ha l))
        ]
      ]

  -- Into an array of fewer than 2 ^ 31 entries, at a place of the array, yarray_insert puts the data
  -- in front of the entry that stood there, keeps the order of the others and returns the index.
  pub yarray_insert_lem :
      (a : Yarray D) (i : ℕ) (x : Option D)
      → IsSliced a
      → length (all_items a.fragments) < 2 ^ 31
      → i < length (all_items a.fragments)
      → (xs ys : List (Option D)) × (length xs ≡ i)
        × (all_items a.fragments ≡ xs ++ ys)
        × IsSliced (yarray_insert a (pos i) x).0
        × (all_items ((yarray_insert a (pos i) x).0.fragments) ≡ xs ++ (x ∷ ys))
        × ((yarray_insert a (pos i) x).1 ≡ pos i)
  unfolding yarray_insert
  yarray_insert_lem a i x h small lt =
      let (r, got, whole, inside, sum) = yfragment_get-Locates a i h.counted small lt in
      let test : ltb a.n i ≡ false = ground (arith, h.counted) in
      let parts = subst (All (IsSlice a.fsize)) whole h.slices in
      let around = All-append_right _ (reverse r.passed) (r.fragment ∷ r.after) parts in
      let (us, vs, size, cut, (slices, now)) =
        insert_row-Inserts a.fsize r x
          (All-append_left _ (reverse r.passed) (r.fragment ∷ r.after) parts) around.0 around.1
          inside in
      let ps = all_items (reverse r.passed) in
      let qs = all_items r.after in
      let before : all_items a.fragments ≡ (ps ++ us) ++ (vs ++ qs) =
        ap all_items whole
        ∙ all_items-append (reverse r.passed) (r.fragment ∷ r.after)
        ∙ ap (λ v. ps ++ (v ++ qs)) cut
        ∙ ap (λ v. ps ++ v) (append_assoc us vs qs)
        ∙ sym (append_assoc ps us (vs ++ qs)) in
      let after : all_items (insert_row r x) ≡ (ps ++ us) ++ (x ∷ (vs ++ qs)) =
        now
        ∙ ap (λ v. ps ++ v) (append_assoc us (x ∷ vs) qs)
        ∙ sym (append_assoc ps us (x ∷ (vs ++ qs))) in
      rw (test, got, insert_found, count_up)
        (
          ps ++ us,
          vs ++ qs,
          omega (arith, sum, size, length-append ps us),
          before,
          record {
            slices = slices;
            counted = omega (
              arith,
              h.counted,
              ap length before,
              ap length after,
              length-append (ps ++ us) (x ∷ (vs ++ qs)),
              length-append (ps ++ us) (vs ++ qs),
            );
          },
          after,
          refl,
        )

  -- Past the last entry, the place behind it included, nothing is changed and -1 is returned.
  yarray_insert_outside :
      (a : Yarray D) (i : ℕ) (x : Option D) → a.n ≤ i → yarray_insert a (pos i) x ≡ (a, negsuc 0)
  unfolding yarray_insert insert_found
  yarray_insert_outside a i x le = elim (Bool-cases (ltb a.n i)) [
    | inl past ↦ rw past refl
    | inr edge ↦ rw (edge, yfragment_get-none a i le) refl
  ]
