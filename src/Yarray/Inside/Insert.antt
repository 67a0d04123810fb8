-- ===== src/Yarray/Inside/Insert.antt =====
-- ydb/yarray.c: the entry that yarray_insert puts into its fragment.
use native.Mathlib.Nat.{mod-lt, mod-add-mod, add-mod_left}
use libydb.Prelude.{
  ℕ, suc, ◌+◌, ◌-◌, ◌%◌, ◌/◌, ◌<◌, ◌≤◌, ◌≡◌, ap, ap₂, ◌∙◌, leb, Bool-cases, Option, List, ◌∷◌, ◌++◌,
  inl, inr, length, arith,
}
use libydb.Yarray.{Fragment, write}
use libydb.Yarray.Buffer.{
  IsBuffer, items, items_from, items_from-write, items_from-shift, write-same,
}
use libydb.Yarray.Buffer.{length-items_from}
use libydb.Yarray.Shift.{
  shift_up, shift_down, shift_up-other, shift_up-moved, shift_down-other, shift_down-moved,
}
use libydb.Yarray.Inside.{insert_inside, items_from-append, items-cut}

module _ {ℓ} {D : Type ℓ} where
  -- The entry at `local` in between two parts that a move has left alone.
  items-around :
      (slots : ℕ → Option D) (front fsize n local : ℕ) (x : Option D)
      → front < fsize
      → local ≤ n
      → n < fsize
      → items_from (write slots ((front + local) % fsize) x) front fsize 0 (suc n)
        ≡ items_from slots front fsize 0 local
          ++ (x ∷ items_from slots front fsize (suc local) (n - local))
  items-around slots front fsize n local x f l le =
      let new = write slots ((front + local) % fsize) x in
      let e : suc n - local - 1 ≡ n - local = omega arith in
      items-cut new front fsize (suc n) local (omega arith)
      ∙ ap₂ (λ u v. u ++ v)
          (items_from-write slots front fsize 0 local local x f (omega arith) (omega arith)
            (inr (omega arith)))
          (ap₂ (λ u v. u ∷ v) (write-same slots ((front + local) % fsize) x)
            (ap (items_from new front fsize (suc local)) e
              ∙ items_from-write slots front fsize (suc local) (n - local) local x f (omega arith)
                  (omega arith) (inl (omega arith))))

  insert_down-items :
      (slots : ℕ → Option D) (front fsize n local : ℕ) (x : Option D)
      → front < fsize
      → local ≤ n
      → n < fsize
      → let g = (fsize + front - 1) % fsize in
        items_from
          (write (shift_down slots g fsize 0 local) ((g + local) % fsize) x)
          g
          fsize
          0
          (suc n)
        ≡ items_from slots front fsize 0 local
          ++ (x ∷ items_from slots front fsize local (n - local))
  insert_down-items slots front fsize n local x f l le =
      let g = (fsize + front - 1) % fsize in
      let inside : g < fsize = mod-lt (fsize + front - 1) (omega arith) in
      let down = shift_down slots g fsize 0 local in
      let step : (m : ℕ) → (g + suc m) % fsize ≡ (front + m) % fsize = λ m.
        let e : fsize + front - 1 + suc m ≡ fsize + (front + m) = omega arith in
        mod-add-mod (fsize + front - 1) fsize (suc m)
        ∙ ap (λ v. v % fsize) e
        ∙ add-mod_left fsize (front + m) in
      items-around down g fsize n local x inside l le
      ∙ ap₂ (λ u v. u ++ (x ∷ v))
          (shift_down-moved slots g fsize 0 local inside (omega arith)
            ∙ items_from-shift slots g front fsize 0 local step)
          (shift_down-other slots g fsize 0 local (suc local) (n - local) inside (omega arith)
              (omega arith) (inr (omega arith))
            ∙ items_from-shift slots g front fsize local (n - local) step)

  insert_up-items :
      (slots : ℕ → Option D) (front fsize n local : ℕ) (x : Option D)
      → front < fsize
      → local ≤ n
      → n < fsize
      → items_from
          (write (shift_up slots front fsize local (n - local)) ((front + local) % fsize) x)
          front
          fsize
          0
          (suc n)
        ≡ items_from slots front fsize 0 local
          ++ (x ∷ items_from slots front fsize local (n - local))
  insert_up-items slots front fsize n local x f l le =
      let up = shift_up slots front fsize local (n - local) in
      items-around up front fsize n local x f l le
      ∙ ap₂ (λ u v. u ++ (x ∷ v))
          (shift_up-other slots front fsize local (n - local) 0 local f (omega arith) (omega arith)
            (inl (omega arith)))
          (shift_up-moved slots front fsize local (n - local) f (omega arith))

  -- In a well-formed fragment with a free slot, yarray_insert puts the data at the local index and
  -- keeps the order of the others, whichever of them it moves.
  pub insert_inside_lem :
      (fra : Fragment D) (local : ℕ) (x : Option D)
      → IsBuffer fra
      → fra.n < fra.fsize
      → local ≤ fra.n
      → (xs ys : List (Option D)) × (length xs ≡ local)
        × (items fra ≡ xs ++ ys)
        × IsBuffer (insert_inside fra local x)
        × (items (insert_inside fra local x) ≡ xs ++ (x ∷ ys))
  unfolding insert_inside
  insert_inside_lem fra local x b free l =
      let xs = items_from fra.slots fra.front fra.fsize 0 local in
      let ys = items_from fra.slots fra.front fra.fsize local (fra.n - local) in
      let size = length-items_from fra.slots fra.front fra.fsize 0 local in
      let e : fra.n ≡ local + (fra.n - local) = omega arith in
      let z : 0 + local ≡ local = omega arith in
      let cut : items fra ≡ xs ++ ys =
        ap (items_from fra.slots fra.front fra.fsize 0) e
        ∙ items_from-append fra.slots fra.front fra.fsize 0 local (fra.n - local)
        ∙ ap (λ v. xs ++ items_from fra.slots fra.front fra.fsize v (fra.n - local)) z in
      let inside : (fra.fsize + fra.front - 1) % fra.fsize < fra.fsize =
        mod-lt (fra.fsize + fra.front - 1) (omega arith) in
      elim (Bool-cases (leb local (fra.n / 2))) [
        | inl low ↦ rw low (
          xs,
          ys,
          size,
          cut,
          record { front_in = inside; fits = free },
          insert_down-items fra.slots fra.front fra.fsize fra.n local x b.front_in l free,
        )
        | inr high ↦ rw high (
          xs,
          ys,
          size,
          cut,
          record { front_in = b.front_in; fits = free },
          insert_up-items fra.slots fra.front fra.fsize fra.n local x b.front_in l free,
        )
      ]

  pub insert_inside-fsize :
      (fra : Fragment D) (local : ℕ) (x : Option D) → (insert_inside fra local x).fsize ≡ fra.fsize
  unfolding insert_inside
  insert_inside-fsize fra local x = ground arith
