-- ===== src/Yarray/Insert/Row.antt =====
-- ydb/yarray.c: the fragments after an insertion of yarray_insert that shifts entries.
use mathlib.Core.List.{reverse, reverse-cons, reverse-reverse}
use libydb.Prelude.{
  ℕ, ◌-◌, ◌<◌, ◌≤◌, ◌≡◌, refl, sym, ap, ap₂, ◌∙◌, subst, ltb, Bool-cases, Option, List, [], ◌∷◌,
  ◌++◌, ◌+◌, inl, inr, append-nil, append_assoc, length, length-append, All, All-append, arith,
}
use libydb.Yarray.{Fragment, yfragment_new}
use libydb.Yarray.Buffer.{items, all_items, items_from, length-items_from}
use libydb.Yarray.Ends.{all_items-append}
use libydb.Yarray.Get.{Found}
use libydb.Yarray.Inside.{insert_inside}
use libydb.Yarray.Inside.Insert.{insert_inside_lem, insert_inside-fsize}
use libydb.Yarray.Merge.{IsSlice}
use libydb.Yarray.Delete.Row.{IsRow, append-IsRow}
use libydb.Yarray.Insert.Move.{shift_into_next_lem, shift_into_prev_lem}
use libydb.Yarray.Insert.{shift_into_next, shift_into_prev, next_with_room}

module _ {ℓ} {D : Type ℓ} where
  nil_of_length : (xs : List (Option D)) → length xs ≡ 0 → xs ≡ []
  nil_of_length [] e = refl
  nil_of_length (x ∷ xs) e = absurd (omega arith)

  -- An insertion behind the last entry.
  insert_last :
      (fsize : ℕ) (fra : Fragment D) (local : ℕ) (x : Option D)
      → IsSlice fsize fra
      → fra.n < fra.fsize
      → local ≡ fra.n
      → IsSlice fsize (insert_inside fra local x)
        × (items (insert_inside fra local x) ≡ items fra ++ (x ∷ []))
  insert_last fsize fra local x s free e =
      let (us, vs, size, cut, buffer, now) =
        insert_inside_lem fra local x s.buffer free (omega arith) in
      let rest : vs ≡ [] = nil_of_length vs (
        omega (
          arith,
          ap length cut,
          length-append us vs,
          length-items_from fra.slots fra.front fra.fsize 0 fra.n,
        )) in
      let whole : items fra ≡ us = cut ∙ ap (λ l. us ++ l) rest ∙ append-nil us in
      (
        record { buffer = buffer; sized = insert_inside-fsize fra local x ∙ s.sized },
        now ∙ ap₂ (λ l m. l ++ (x ∷ m)) (sym whole) rest,
      )

  All-reverse :
      (fsize : ℕ) (fs : List (Fragment D))
      → All (IsSlice fsize) fs
      → All (IsSlice fsize) (reverse fs)
  All-reverse fsize [] h = tt
  All-reverse fsize (f ∷ fs) h =
      subst (All (IsSlice fsize)) (sym (reverse-cons f fs))
        (All-append _ (reverse fs) (f ∷ []) (All-reverse fsize fs h.1) (h.0, tt))

  yfragment_new-IsSlice :
      (fsize size : ℕ) → 0 < size → size ≡ fsize → IsSlice {D = D} fsize (yfragment_new size)
  unfolding yfragment_new
  yfragment_new-IsSlice fsize size p e = record {
    buffer = record { front_in = p; fits = omega arith };
    sized = e;
  }

  next_with_room-IsRow :
      (fsize size max : ℕ) (after : List (Fragment D))
      → 0 < size
      → max ≤ size
      → size ≡ fsize
      → All (IsSlice fsize) after
      → let r = next_with_room size max after in
        IsSlice fsize r.0
        × All (IsSlice fsize) r.1
        × (max ≤ (r.0).fsize - (r.0).n)
        × (all_items after ≡ items r.0 ++ all_items r.1)
        × (all_items (reverse after) ≡ all_items (reverse r.1) ++ items r.0)
        × All (IsSlice fsize) (reverse r.1)
  unfolding next_with_room yfragment_new items_from
  next_with_room-IsRow fsize size max [] p le e h =
      (yfragment_new-IsSlice fsize size p e, tt, omega arith, refl, refl, tt)
  next_with_room-IsRow fsize size max (tar ∷ after) p le e h =
      elim (Bool-cases (ltb (tar.fsize - tar.n) max)) [
        | inl full ↦ rw full (
          yfragment_new-IsSlice fsize size p e,
          h,
          omega arith,
          refl,
          sym (append-nil (all_items (reverse (tar ∷ after)))),
          All-reverse fsize (tar ∷ after) h,
        )
        | inr room ↦
            let split : all_items (reverse (tar ∷ after)) ≡ all_items (reverse after) ++ items tar =
              ap all_items (reverse-cons tar after)
              ∙ all_items-append (reverse after) (tar ∷ [])
              ∙ ap (λ l. all_items (reverse after) ++ l) (append-nil (items tar)) in
            rw room (h.0, h.1, ground arith, refl, split, All-reverse fsize after h.1)
      ]

  -- What the row of fragments holds when an entry has come in between the two parts of a fragment.
  abbrev pub HoldsNew :
      ℕ → Found D → List (Option D) → Option D → List (Option D) → List (Fragment D) → Type ℓ
  HoldsNew fsize r us x vs fs =
      IsRow fsize (all_items (reverse r.passed) ++ ((us ++ (x ∷ vs)) ++ all_items r.after)) fs

  abbrev pub ahead_of : Found D → List (Option D)
  ahead_of r = items_from (r.fragment).slots (r.fragment).front (r.fragment).fsize 0 r.local

  abbrev pub behind_of : Found D → List (Option D)
  behind_of r =
      items_from (r.fragment).slots (r.fragment).front (r.fragment).fsize r.local
        ((r.fragment).n - r.local)

  shift_into_next-sizes :
      (fra tar : Fragment D) (local : ℕ)
      → let cut = shift_into_next fra tar local in
        ((cut.0).fsize ≡ fra.fsize)
        × ((cut.1).fsize ≡ tar.fsize)
        × ((cut.0).n ≡ fra.n - (fra.n - local))
  unfolding shift_into_next
  shift_into_next-sizes fra tar local = (refl, refl, refl)

  shift_into_prev-sizes :
      (tar fra : Fragment D) (local : ℕ)
      → let moved = shift_into_prev tar fra local in
        ((moved.0).fsize ≡ tar.fsize)
        × ((moved.1).fsize ≡ fra.fsize)
        × ((moved.0).n ≡ tar.n + local)
  unfolding shift_into_prev
  shift_into_prev-sizes tar fra local = (refl, refl, refl)

  pub insert_next-IsRow :
      (fsize : ℕ) (r : Found D) (x : Option D)
      → All (IsSlice fsize) (reverse r.passed)
      → IsSlice fsize r.fragment
      → All (IsSlice fsize) r.after
      → 0 < r.local
      → r.local < (r.fragment).n
      → let next = next_with_room (r.fragment).fsize ((r.fragment).n - r.local) r.after in
        let cut = shift_into_next r.fragment next.0 r.local in
        HoldsNew fsize r
          (ahead_of r)
          x
          (behind_of r)
          (reverse r.passed ++ (insert_inside cut.0 r.local x ∷ cut.1 ∷ next.1))
  insert_next-IsRow fsize r x hp hf ha p l =
      let fra = r.fragment in
      let next = next_with_room fra.fsize (fra.n - r.local) r.after in
      let cut = shift_into_next fra next.0 r.local in
      let b = hf.buffer in
      let (ht, hn, room, all_after, _, _) =
        next_with_room-IsRow fsize fra.fsize (fra.n - r.local) r.after (omega (arith, b.front_in))
          (omega (arith, b.fits)) hf.sized ha in
      let (s0, s1, count) = shift_into_next-sizes fra next.0 r.local in
      let (b0, b1, i0, i1) =
        shift_into_next_lem fra next.0 r.local b ht.buffer (omega arith) room in
      let (h, now) =
        insert_last fsize cut.0 r.local x (record { buffer = b0; sized = s0 ∙ hf.sized })
          (omega (arith, s0, count, b.fits)) (omega (arith, count)) in
      let (slices, e) =
        append-IsRow fsize (reverse r.passed) (insert_inside cut.0 r.local x ∷ cut.1 ∷ next.1) hp
          (h, (record { buffer = b1; sized = s1 ∙ ht.sized }, hn)) in
      let us = ahead_of r in
      let vs = behind_of r in
      (
        slices,
        e
            ∙ ap (λ v. all_items (reverse r.passed) ++ v)
                (ap₂ (λ v w. v ++ (w ++ all_items next.1)) (now ∙ ap (λ v. v ++ (x ∷ [])) i0) i1
                  ∙ append_assoc us (x ∷ []) ((vs ++ items next.0) ++ all_items next.1)
                  ∙ ap (λ v. us ++ (x ∷ v)) (append_assoc vs (items next.0) (all_items next.1))
                  ∙ sym (append_assoc us (x ∷ vs) (items next.0 ++ all_items next.1))
                  ∙ ap (λ v. (us ++ (x ∷ vs)) ++ v) (sym all_after)),
      )

  pub insert_prev-IsRow :
      (fsize : ℕ) (r : Found D) (x : Option D)
      → All (IsSlice fsize) (reverse r.passed)
      → IsSlice fsize r.fragment
      → All (IsSlice fsize) r.after
      → r.local < (r.fragment).n
      → let prev = next_with_room (r.fragment).fsize (r.local + 1) r.passed in
        let moved = shift_into_prev prev.0 r.fragment r.local in
        HoldsNew fsize r
          (ahead_of r)
          x
          (behind_of r)
          (reverse prev.1 ++ (insert_inside moved.0 (moved.0).n x ∷ moved.1 ∷ r.after))
  insert_prev-IsRow fsize r x hp hf ha l =
      let fra = r.fragment in
      let prev = next_with_room fra.fsize (r.local + 1) r.passed in
      let moved = shift_into_prev prev.0 fra r.local in
      let b = hf.buffer in
      let back : All (IsSlice fsize) r.passed =
        subst (All (IsSlice fsize)) (reverse-reverse r.passed)
          (All-reverse fsize (reverse r.passed) hp) in
      let (ht, _, room, _, all_before, hn) =
        next_with_room-IsRow fsize fra.fsize (r.local + 1) r.passed (omega (arith, b.front_in))
          (omega (arith, b.fits)) hf.sized back in
      let (s0, s1, count) = shift_into_prev-sizes prev.0 fra r.local in
      let (b0, b1, i0, i1) =
        shift_into_prev_lem prev.0 fra r.local ht.buffer b (omega arith) (omega (arith, room)) in
      let (h, now) =
        insert_last fsize moved.0 (moved.0).n x (record { buffer = b0; sized = s0 ∙ ht.sized })
          (omega (arith, s0, count, room)) refl in
      let (slices, e) =
        append-IsRow fsize (reverse prev.1)
          (insert_inside moved.0 (moved.0).n x ∷ moved.1 ∷ r.after) hn
          (h, (record { buffer = b1; sized = s1 ∙ hf.sized }, ha)) in
      let us = ahead_of r in
      let vs = behind_of r in
      let ps = all_items (reverse prev.1) in
      let qs = all_items r.after in
      let t = items prev.0 in
      (
        slices,
        e
            ∙ ap (λ v. ps ++ v)
                (ap₂ (λ v w. v ++ (w ++ qs)) (now ∙ ap (λ v. v ++ (x ∷ [])) i0) i1
                  ∙ append_assoc (t ++ us) (x ∷ []) (vs ++ qs)
                  ∙ append_assoc t us (x ∷ (vs ++ qs))
                  ∙ ap (λ v. t ++ v) (sym (append_assoc us (x ∷ vs) qs)))
            ∙ sym (append_assoc ps t ((us ++ (x ∷ vs)) ++ qs))
            ∙ ap (λ v. v ++ ((us ++ (x ∷ vs)) ++ qs)) (sym all_before),
      )
