-- ===== src/Yarray/Insert/Move.antt =====
-- ydb/yarray.c: the entries of two fragments after the loops that shift entries between them.
use native.Mathlib.Nat.{mod-lt, mod-add-mod, add-mod_left}
use libydb.Prelude.{
  ℕ, zero, suc, ◌+◌, ◌-◌, ◌%◌, ◌<◌, ◌≤◌, ◌≡◌, refl, sym, ap, ap₂, ◌∙◌, Option, none, ◌∷◌, ◌++◌, ◌⊎◌,
  inl, inr, arith,
}
use libydb.Ylist.Ends
use libydb.Yarray.{Fragment, write}
use libydb.Yarray.Buffer.{IsBuffer, items, items_from, items_from-write, write-same}
use libydb.Yarray.Inside.{items_from-append}
use libydb.Yarray.Merge.{items_from-offset}
use libydb.Yarray.Insert.{move_slots, shift_into_next, shift_into_prev}

module _ {ℓ} {D : Type ℓ} where
  move-to_other :
      (to : ℕ → Option D) (front fsize base : ℕ) (source : ℕ → Option D) (sfront ssize i k j n : ℕ)
      → front < fsize
      → base + k ≤ fsize
      → j + n ≤ fsize
      → (j + n ≤ base) ⊎ (base + k ≤ j)
      → items_from (move_slots to front fsize base source sfront ssize i k).0 front fsize j n
        ≡ items_from to front fsize j n
  unfolding move_slots
  move-to_other to front fsize base source sfront ssize i zero j n f b l out = refl
  move-to_other to front fsize base source sfront ssize i (suc k) j n f b l out =
      let far : (base < j) ⊎ (j + n ≤ base) = elim out [
        | inl a ↦ inr a
        | inr a ↦ inl (omega arith)
      ] in
      let near : (j + n ≤ suc base) ⊎ (suc base + k ≤ j) = elim out [
        | inl a ↦ inl (omega arith)
        | inr a ↦ inr (omega arith)
      ] in
      let x = source ((sfront + i) % ssize) in
      move-to_other (write to ((front + base) % fsize) x) front fsize (suc base)
        (write source ((sfront + i) % ssize) none) sfront ssize (suc i) k j n f (omega arith) l near
      ∙ items_from-write to front fsize j n base x f l (omega arith) far

  move-source_other :
      (to : ℕ → Option D) (front fsize base : ℕ) (source : ℕ → Option D) (sfront ssize i k j n : ℕ)
      → sfront < ssize
      → i + k ≤ ssize
      → j + n ≤ ssize
      → (j + n ≤ i) ⊎ (i + k ≤ j)
      → items_from (move_slots to front fsize base source sfront ssize i k).1 sfront ssize j n
        ≡ items_from source sfront ssize j n
  unfolding move_slots
  move-source_other to front fsize base source sfront ssize i zero j n f b l out = refl
  move-source_other to front fsize base source sfront ssize i (suc k) j n f b l out =
      let far : (i < j) ⊎ (j + n ≤ i) = elim out [ inl a ↦ inr a | inr a ↦ inl (omega arith) ] in
      let near : (j + n ≤ suc i) ⊎ (suc i + k ≤ j) = elim out [
        | inl a ↦ inl (omega arith)
        | inr a ↦ inr (omega arith)
      ] in
      let x = source ((sfront + i) % ssize) in
      move-source_other (write to ((front + base) % fsize) x) front fsize (suc base)
        (write source ((sfront + i) % ssize) none) sfront ssize (suc i) k j n f (omega arith) l near
      ∙ items_from-write source sfront ssize j n i none f l (omega arith) far

  move-moved :
      (to : ℕ → Option D) (front fsize base : ℕ) (source : ℕ → Option D) (sfront ssize i k : ℕ)
      → front < fsize
      → base + k ≤ fsize
      → sfront < ssize
      → i + k ≤ ssize
      → items_from (move_slots to front fsize base source sfront ssize i k).0 front fsize base k
        ≡ items_from source sfront ssize i k
  unfolding move_slots items_from
  move-moved to front fsize base source sfront ssize i zero f b sf sb = refl
  move-moved to front fsize base source sfront ssize i (suc k) f b sf sb =
      let x = source ((sfront + i) % ssize) in
      let new = write to ((front + base) % fsize) x in
      let left = write source ((sfront + i) % ssize) none in
      ap₂ (λ v l. v ∷ l)
        (ap Ends.front (
            move-to_other new front fsize (suc base) left sfront ssize (suc i) k base 1 f
              (omega arith) (omega arith) (inl (omega arith)))
          ∙ write-same to ((front + base) % fsize) x)
        (move-moved new front fsize (suc base) left sfront ssize (suc i) k f (omega arith) sf
            (omega arith)
          ∙ items_from-write source sfront ssize (suc i) k i none sf (omega arith) (omega arith)
              (inl (omega arith)))

  -- From a well-formed fragment to a well-formed one with enough free slots, the loop of
  -- yfragment_shift_next leaves both well-formed; the first keeps the entries before the local index,
  -- which is at most their number, and the others stand, in order, in front of those of the second.
  pub shift_into_next_lem :
      (fra tar : Fragment D) (local : ℕ)
      → IsBuffer fra
      → IsBuffer tar
      → local ≤ fra.n
      → fra.n - local ≤ tar.fsize - tar.n
      → let r = shift_into_next fra tar local in
        IsBuffer (r.0)
        × IsBuffer (r.1)
        × (items r.0 ≡ items_from fra.slots fra.front fra.fsize 0 local)
        × (items r.1 ≡ items_from fra.slots fra.front fra.fsize local (fra.n - local) ++ items tar)
  unfolding shift_into_next
  shift_into_next_lem fra tar local b c l room =
      let max = fra.n - local in
      let g = (tar.fsize + tar.front - max) % tar.fsize in
      let inside : g < tar.fsize =
        mod-lt (tar.fsize + tar.front - max) (omega (arith, c.front_in)) in
      let r = move_slots tar.slots g tar.fsize 0 fra.slots fra.front fra.fsize local max in
      let keep : fra.n - max ≡ local = omega arith in
      let all : tar.n + max ≡ max + tar.n = omega arith in
      let z : 0 + max ≡ max + 0 = omega arith in
      let step : (m : ℕ) → (g + (max + m)) % tar.fsize ≡ (tar.front + m) % tar.fsize = λ m.
        let s : tar.fsize + tar.front - max + (max + m) ≡ tar.fsize + (tar.front + m) =
          omega (arith, c.fits) in
        mod-add-mod (tar.fsize + tar.front - max) tar.fsize (max + m)
        ∙ ap (λ v. v % tar.fsize) s
        ∙ add-mod_left tar.fsize (tar.front + m) in
      (
        record { front_in = b.front_in; fits = omega (arith, b.fits) },
        record { front_in = inside; fits = omega (arith, c.fits) },
        ap (items_from r.1 fra.front fra.fsize 0) keep
            ∙ move-source_other tar.slots g tar.fsize 0 fra.slots fra.front fra.fsize local max 0
                local b.front_in (omega (arith, b.fits)) (omega (arith, b.fits))
                (inl (omega arith)),
        ap (items_from r.0 g tar.fsize 0) all
            ∙ items_from-append r.0 g tar.fsize 0 max tar.n
            ∙ ap₂ (λ u v. u ++ v)
                (move-moved tar.slots g tar.fsize 0 fra.slots fra.front fra.fsize local max inside
                  (omega (arith, c.fits)) b.front_in (omega (arith, b.fits)))
                (move-to_other tar.slots g tar.fsize 0 fra.slots fra.front fra.fsize local max
                    (0 + max) tar.n inside (omega (arith, c.fits)) (omega (arith, c.fits))
                    (inr (omega arith))
                  ∙ ap (λ v. items_from tar.slots g tar.fsize v tar.n) z
                  ∙ items_from-offset tar.slots g tar.front tar.fsize max 0 tar.n step),
      )

  -- From a well-formed fragment to a well-formed one with enough free slots, the loop of
  -- yfragment_shift_prev leaves both well-formed; the entries before the local index, which is at
  -- most their number, stand in order behind those of the first, and the second keeps the others.
  pub shift_into_prev_lem :
      (tar fra : Fragment D) (local : ℕ)
      → IsBuffer tar
      → IsBuffer fra
      → local ≤ fra.n
      → local ≤ tar.fsize - tar.n
      → let r = shift_into_prev tar fra local in
        IsBuffer (r.0)
        × IsBuffer (r.1)
        × (items r.0 ≡ items tar ++ items_from fra.slots fra.front fra.fsize 0 local)
        × (items r.1 ≡ items_from fra.slots fra.front fra.fsize local (fra.n - local))
  unfolding shift_into_prev
  shift_into_prev_lem tar fra local c b l room =
      let g = (fra.fsize + fra.front + local) % fra.fsize in
      let inside : g < fra.fsize =
        mod-lt (fra.fsize + fra.front + local) (omega (arith, b.front_in)) in
      let r =
        move_slots tar.slots tar.front tar.fsize tar.n fra.slots fra.front fra.fsize 0 local in
      let z : 0 + tar.n ≡ tar.n = omega arith in
      let e : local + 0 ≡ local = omega arith in
      let step : (m : ℕ) → (fra.front + (local + m)) % fra.fsize ≡ (g + m) % fra.fsize = λ m.
        let s : fra.fsize + fra.front + local + m ≡ fra.fsize + (fra.front + (local + m)) =
          omega arith in
        sym (
          mod-add-mod (fra.fsize + fra.front + local) fra.fsize m
          ∙ ap (λ v. v % fra.fsize) s
          ∙ add-mod_left fra.fsize (fra.front + (local + m))) in
      (
        record { front_in = c.front_in; fits = omega (arith, c.fits) },
        record { front_in = inside; fits = omega (arith, b.fits) },
        items_from-append r.0 tar.front tar.fsize 0 tar.n local
            ∙ ap₂ (λ u v. u ++ v)
                (move-to_other tar.slots tar.front tar.fsize tar.n fra.slots fra.front fra.fsize 0
                  local 0 tar.n c.front_in (omega (arith, c.fits)) (omega (arith, c.fits))
                  (inl (omega arith)))
                (rw z (
                  move-moved tar.slots tar.front tar.fsize tar.n fra.slots fra.front fra.fsize 0
                    local c.front_in (omega (arith, c.fits)) b.front_in (omega (arith, b.fits)))),
        sym (items_from-offset r.1 fra.front g fra.fsize local 0 (fra.n - local) step)
            ∙ ap (λ v. items_from r.1 fra.front fra.fsize v (fra.n - local)) e
            ∙ move-source_other tar.slots tar.front tar.fsize tar.n fra.slots fra.front fra.fsize 0
                local local (fra.n - local) b.front_in (omega (arith, b.fits))
                (omega (arith, b.fits)) (inr (omega arith)),
      )
