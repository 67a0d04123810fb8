-- ===== src/Yarray/Inside/Delete.antt =====
-- ydb/yarray.c: the entry that yarray_delete takes out of its fragment.
use native.Mathlib.Nat.{mod-lt, mod-add-mod}
use libydb.Prelude.{
  ℕ, suc, ◌+◌, ◌-◌, ◌%◌, ◌/◌, ◌<◌, ◌≤◌, ◌≡◌, sym, ap, ap₂, ◌∙◌, leb, Bool-cases, Option, none, List,
  ◌∷◌, ◌++◌, inl, inr, length, arith,
}
use libydb.Yarray.{Fragment, write}
use libydb.Yarray.Buffer.{IsBuffer, items, items_from, items_from-write, items_from-shift}
use libydb.Yarray.Buffer.{length-items_from}
use libydb.Yarray.Shift.{
  shift_up, shift_down, shift_up-other, shift_up-moved, shift_down-other, shift_down-moved,
}
use libydb.Yarray.Inside.{delete_inside, items_from-append, items-cut}

module _ {ℓ} {D : Type ℓ} where
  delete_up-items :
      (slots : ℕ → Option D) (front fsize n local : ℕ)
      → front < fsize
      → local < n
      → n ≤ fsize
      → items_from
          (write (shift_up slots front fsize 0 local) ((front + 0) % fsize) none)
          ((front + 1) % fsize)
          fsize
          0
          (n - 1)
        ≡ items_from slots front fsize 0 local
          ++ items_from slots front fsize (suc local) (n - local - 1)
  delete_up-items slots front fsize n local f l le =
      let up = shift_up slots front fsize 0 local in
      let e : n - 1 ≡ local + (n - local - 1) = omega arith in
      let s : 1 + local ≡ suc local = omega arith in
      let step : (j : ℕ) → (front + suc j) % fsize ≡ ((front + 1) % fsize + j) % fsize = λ j.
        let e1 : front + suc j ≡ front + 1 + j = omega arith in
        ap (λ v. v % fsize) e1 ∙ sym (mod-add-mod (front + 1) fsize j) in
      sym (
        items_from-shift (write up ((front + 0) % fsize) none) front ((front + 1) % fsize) fsize 0
          (n - 1) step)
      ∙ items_from-write up front fsize 1 (n - 1) 0 none f (omega arith) (omega arith)
          (inl (omega arith))
      ∙ ap (items_from up front fsize 1) e
      ∙ items_from-append up front fsize 1 local (n - local - 1)
      ∙ ap₂ (λ l r. l ++ r) (shift_up-moved slots front fsize 0 local f (omega arith))
          (rw s (
            shift_up-other slots front fsize 0 local (suc local) (n - local - 1) f (omega arith)
              (omega arith) (inr (omega arith))))

  delete_down-items :
      (slots : ℕ → Option D) (front fsize n local : ℕ)
      → front < fsize
      → local < n
      → n ≤ fsize
      → items_from
          (write
            (shift_down slots front fsize local (n - local - 1))
            ((front + (n - 1)) % fsize)
            none)
          front
          fsize
          0
          (n - 1)
        ≡ items_from slots front fsize 0 local
          ++ items_from slots front fsize (suc local) (n - local - 1)
  delete_down-items slots front fsize n local f l le =
      let down = shift_down slots front fsize local (n - local - 1) in
      let e : n - 1 ≡ local + (n - local - 1) = omega arith in
      let z : 0 + local ≡ local = omega arith in
      items_from-write down front fsize 0 (n - 1) (n - 1) none f (omega arith) (omega arith)
        (inr (omega arith))
      ∙ ap (items_from down front fsize 0) e
      ∙ items_from-append down front fsize 0 local (n - local - 1)
      ∙ ap₂ (λ l r. l ++ r)
          (shift_down-other slots front fsize local (n - local - 1) 0 local f (omega arith)
            (omega arith) (inl (omega arith)))
          (rw z (shift_down-moved slots front fsize local (n - local - 1) f (omega arith)))

  -- In a well-formed fragment, yarray_delete takes the entry at the local index out, returns its data
  -- and keeps the order of the others, whichever of them it moves.
  pub delete_inside_lem :
      (fra : Fragment D) (local : ℕ)
      → IsBuffer fra
      → local < fra.n
      → (xs ys : List (Option D)) × (length xs ≡ local)
        × (items fra ≡ xs ++ ((delete_inside fra local).1 ∷ ys))
        × IsBuffer (delete_inside fra local).0
        × (items (delete_inside fra local).0 ≡ xs ++ ys)
  unfolding delete_inside
  delete_inside_lem fra local b l =
      let xs = items_from fra.slots fra.front fra.fsize 0 local in
      let ys = items_from fra.slots fra.front fra.fsize (suc local) (fra.n - local - 1) in
      let size = length-items_from fra.slots fra.front fra.fsize 0 local in
      let cut = items-cut fra.slots fra.front fra.fsize fra.n local l in
      let inside : (fra.front + 1) % fra.fsize < fra.fsize =
        mod-lt (fra.front + 1) (omega (arith, b.front_in)) in
      let fits : fra.n - 1 ≤ fra.fsize = omega (arith, b.fits) in
      elim (Bool-cases (leb local (fra.n / 2))) [
        | inl low ↦ rw low (
          xs,
          ys,
          size,
          cut,
          record { front_in = inside; fits = fits },
          delete_up-items fra.slots fra.front fra.fsize fra.n local b.front_in l b.fits,
        )
        | inr high ↦ rw high (
          xs,
          ys,
          size,
          cut,
          record { front_in = b.front_in; fits = fits },
          delete_down-items fra.slots fra.front fra.fsize fra.n local b.front_in l b.fits,
        )
      ]

  pub delete_inside-fsize :
      (fra : Fragment D) (local : ℕ) → ((delete_inside fra local).0).fsize ≡ fra.fsize
  unfolding delete_inside
  delete_inside-fsize fra local = ground arith
