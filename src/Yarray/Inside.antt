-- ===== src/Yarray/Inside.antt =====
-- ydb/yarray.c: what yarray_insert and yarray_delete do within the fragment of the index, where the
-- entry fits. The choice of the fragment, its split and its merge are not part of it.
pub mod Delete
pub mod Insert
use native.Mathlib.Nat.{mod-lt, mod-add-mod, add-mod_left}
use libydb.Prelude.{
  ℕ, zero, suc, ◌+◌, ◌-◌, ◌%◌, ◌/◌, ◌<◌, ◌≤◌, ◌≡◌, refl, sym, ap, ap₂, ◌∙◌, leb, leb→le, Bool-cases,
  Bool, true, false, if◌then◌else◌, Option, none, some, List, [], ◌∷◌, ◌++◌, ◌⊎◌, inl, inr, length,
  arith,
}
use libydb.Yarray.{Fragment, write, yindex}
use libydb.Yarray.Buffer.{
  IsBuffer, items, items_from, items_from-write, items_from-cons, items_from-shift, write-same,
}
use libydb.Yarray.Buffer.{length-items_from}
use libydb.Yarray.Shift.{
  shift_up, shift_down, shift_up-other, shift_up-moved, shift_down-other, shift_down-moved,
}

module _ {ℓ} {D : Type ℓ} where
  -- The entry at `local` is taken out; the shorter part of the others moves.
  unfoldable pub delete_inside : Fragment D → ℕ → Fragment D × Option D
  delete_inside fra local =
      let up : Fragment D = record fra {
        slots = write (shift_up fra.slots fra.front fra.fsize 0 local) (yindex fra 0) none;
        front = (fra.front + 1) % fra.fsize;
        n = fra.n - 1;
      } in
      let down : Fragment D = record fra {
        slots =
            write (shift_down fra.slots fra.front fra.fsize local (fra.n - local - 1))
              (yindex fra (fra.n - 1)) none;
        n = fra.n - 1;
      } in
      (if leb local (fra.n / 2) then up else down, fra.slots (yindex fra local))

  -- A new entry at `local`, in a fragment that has a free slot.
  unfoldable pub insert_inside : Fragment D → ℕ → Option D → Fragment D
  insert_inside fra local x =
      let front = (fra.fsize + fra.front - 1) % fra.fsize in
      let down : Fragment D = record fra {
        slots =
            write (shift_down fra.slots front fra.fsize 0 local) ((front + local) % fra.fsize) x;
        front = front;
        n = suc fra.n;
      } in
      let up : Fragment D = record fra {
        slots =
            write (shift_up fra.slots fra.front fra.fsize local (fra.n - local)) (yindex fra local)
              x;
        n = suc fra.n;
      } in
      if leb local (fra.n / 2) then down else up

  pub items_from-append :
      (slots : ℕ → Option D) (front fsize i j k : ℕ)
      → items_from slots front fsize i (j + k)
        ≡ items_from slots front fsize i j ++ items_from slots front fsize (i + j) k
  unfolding items_from
  items_from-append slots front fsize i zero k =
      let e : i + 0 ≡ i = omega arith in let z : 0 + k ≡ k = omega arith in rw (e, z) refl
  items_from-append slots front fsize i (suc j) k =
      let e : suc j + k ≡ suc (j + k) = omega arith in
      let s : i + suc j ≡ suc i + j = omega arith in
      ap (items_from slots front fsize i) e
      ∙ ap (λ l. slots ((front + i) % fsize) ∷ l)
          (items_from-append slots front fsize (suc i) j k
            ∙ ap (λ v. items_from slots front fsize (suc i) j ++ items_from slots front fsize v k)
                (sym s))

  -- A fragment that is cut at an entry.
  pub items-cut :
      (slots : ℕ → Option D) (front fsize n local : ℕ)
      → local < n
      → items_from slots front fsize 0 n
        ≡ items_from slots front fsize 0 local
          ++ (slots ((front + local) % fsize)
              ∷ items_from slots front fsize (suc local) (n - local - 1))
  items-cut slots front fsize n local l =
      let e : n ≡ local + suc (n - local - 1) = omega arith in
      let z : 0 + local ≡ local = omega arith in
      ap (items_from slots front fsize 0) e
      ∙ items_from-append slots front fsize 0 local (suc (n - local - 1))
      ∙ rw z (
          ap (λ l. items_from slots front fsize 0 local ++ l)
            (items_from-cons slots front fsize local (n - local - 1)))
