-- ===== src/Yarray/Insert.antt =====
-- ydb/yarray.c: yfragment_shift_next, yfragment_shift_prev and yarray_insert.
pub mod Move
pub mod Row
pub mod Refine
use mathlib.Core.List.{reverse}
use libydb.Prelude.{
  ℕ, zero, suc, ◌+◌, ◌-◌, ◌%◌, ◌/◌, ltb, leb, Bool, true, false, if◌then◌else◌, ℤ, pos, negsuc,
  Option, none, some, List, [], ◌∷◌, ◌++◌,
}
use libydb.Yarray.{Fragment, Yarray, write, yfragment_new, count_up}
use libydb.Yarray.Get.{Found, yfragment_get}
use libydb.Yarray.Inside.{insert_inside}

module _ {ℓ} {D : Type ℓ} where
  -- `k` rounds of a loop that moves entries from the indices from `i` on, of one fragment, to those
  -- from `base` on, of another, and clears where they stood. The slots of both.
  unfoldable pub move_slots :
      (to : ℕ → Option D) (front fsize base : ℕ) (source : ℕ → Option D) (sfront ssize i k : ℕ)
      → (ℕ → Option D) × (ℕ → Option D)
  move_slots to front fsize base source sfront ssize i zero = (to, source)
  move_slots to front fsize base source sfront ssize i (suc k) =
      move_slots (write to ((front + base) % fsize) (source ((sfront + i) % ssize))) front fsize
        (suc base) (write source ((sfront + i) % ssize) none) sfront ssize (suc i) k

  -- The loop of yfragment_shift_next: both fragments after it.
  unfoldable pub shift_into_next : Fragment D → Fragment D → ℕ → Fragment D × Fragment D
  unfolding move_slots
  shift_into_next fra tar local =
      let max = fra.n - local in
      let front = (tar.fsize + tar.front - max) % tar.fsize in
      let (to, rest) =
        move_slots tar.slots front tar.fsize 0 fra.slots fra.front fra.fsize local max in
      (
        record fra { slots = rest; n = fra.n - max },
        record tar { slots = to; front = front; n = tar.n + max },
      )

  -- The loop of yfragment_shift_prev: the fragment before, and `fra`, after it.
  unfoldable pub shift_into_prev : Fragment D → Fragment D → ℕ → Fragment D × Fragment D
  unfolding move_slots
  shift_into_prev tar fra local =
      let (to, rest) =
        move_slots tar.slots tar.front tar.fsize tar.n fra.slots fra.front fra.fsize 0 local in
      (
        record tar { slots = to; n = tar.n + local },
        record fra {
          slots = rest;
          front = (fra.fsize + fra.front + local) % fra.fsize;
          n = fra.n - local;
        },
      )

  -- The next fragment and those behind it: a new one where there is none, or no room in it.
  unfoldable pub next_with_room : ℕ → ℕ → List (Fragment D) → Fragment D × List (Fragment D)
  unfolding yfragment_new
  next_with_room fsize max [] = (yfragment_new fsize, [])
  next_with_room fsize max (tar ∷ after) =
      if ltb (tar.fsize - tar.n) max then (yfragment_new fsize, tar ∷ after) else (tar, after)

  -- The fragments with the entry, from the fragment that was found
  unfoldable pub insert_row : Found D → Option D → List (Fragment D)
  unfolding shift_into_next shift_into_prev next_with_room insert_inside
  insert_row r x =
      let fra = r.fragment in
      let next = next_with_room fra.fsize (fra.n - r.local) r.after in
      let cut = shift_into_next fra next.0 r.local in
      let prev = next_with_room fra.fsize (r.local + 1) r.passed in
      let moved = shift_into_prev prev.0 fra r.local in
      if ltb fra.n fra.fsize
      then reverse r.passed ++ (insert_inside fra r.local x ∷ r.after)
      else if ltb (fra.n / 2) r.local
      then reverse r.passed ++ (insert_inside cut.0 r.local x ∷ cut.1 ∷ next.1)
      else reverse prev.1 ++ (insert_inside moved.0 (moved.0).n x ∷ moved.1 ∷ r.after)

  -- The index, or -1
  unfoldable pub insert_found : Yarray D → ℕ → Option D → Option (Found D) → Yarray D × ℤ
  unfolding insert_row
  insert_found a index x none = (a, negsuc 0)
  insert_found a index x (some r) = (count_up a (insert_row r x), pos index)

  unfoldable pub yarray_insert : Yarray D → ℤ → Option D → Yarray D × ℤ
  unfolding insert_found
  yarray_insert a (negsuc index) x = (a, negsuc 0)
  yarray_insert a (pos index) x =
      if ltb a.n index then (a, negsuc 0) else insert_found a index x (yfragment_get a (pos index))
