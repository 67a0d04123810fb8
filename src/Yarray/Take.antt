-- ===== src/Yarray/Take.antt =====
-- One fragment of ydb/yarray.c, when an entry is taken out at an end.
use native.Mathlib.Nat.{mod-lt, mod-add-mod}
use libydb.Prelude.{
  ℕ, suc, ◌+◌, ◌-◌, ◌%◌, ◌<◌, ◌≡◌, refl, sym, ap, ◌∙◌, leb, ◌==◌, false, Option, none, some, List,
  [], ◌∷◌, ◌++◌, inl, inr, arith, Bool-cases, All, append-nil,
}
use libydb.Yarray.{Fragment, write, take_back, take_front}
use libydb.Yarray.Buffer.{
  IsFilled, items, all_items, items_from, items_from-write, items_from-suc, items_from-cons,
  items_from-zero, items_from-shift,
}

module _ {ℓ} {D : Type ℓ} where
  -- The last entry is taken out of a fragment.
  pub take_back-items :
      (fsize : ℕ) (fra : Fragment D)
      → IsFilled fsize fra
      → (rest : List (Fragment D)) × (x : Option D) × (take_back fra ≡ some (rest, x))
        × All (IsFilled fsize) rest
        × (items fra ≡ all_items rest ++ (x ∷ []))
  unfolding take_back items_from
  take_back-items fsize fra h =
      let m = fra.n - 1 in
      let e : fra.n ≡ suc m = omega (arith, h.filled) in
      let nonzero : (fra.front + fra.n == 0) ≡ false = ground (arith, h.filled) in
      let at : fra.front + fra.n - 1 ≡ fra.front + (0 + m) = omega arith in
      let at_m : fra.front + fra.n - 1 ≡ fra.front + m = omega arith in
      let x = fra.slots ((fra.front + fra.n - 1) % fra.fsize) in
      let kept = items_from fra.slots fra.front fra.fsize 0 m in
      let split : items fra ≡ kept ++ (x ∷ []) =
        ap (items_from fra.slots fra.front fra.fsize 0) e
        ∙ items_from-suc fra.slots fra.front fra.fsize 0 m
        ∙ ap (λ j. kept ++ (fra.slots (j % fra.fsize) ∷ [])) (sym at) in
      elim (Bool-cases (leb fra.n 1)) [
        | inl one ↦
            let none_kept : m ≡ 0 = ground arith in
            (
              [],
              x,
              rw (nonzero, one) refl,
              tt,
              split ∙ ap (λ j. items_from fra.slots fra.front fra.fsize 0 j ++ (x ∷ [])) none_kept,
            )
        | inr more ↦
            let some_kept : 0 < m = ground arith in
            let cut : Fragment D = record fra {
              slots = write fra.slots ((fra.front + fra.n - 1) % fra.fsize) none;
              n = m;
            } in
            let same : items cut ≡ kept = rw at_m (
              items_from-write fra.slots fra.front fra.fsize 0 m m none h.buffer.front_in
                (omega (arith, h.buffer.fits)) (omega (arith, h.buffer.fits))
                (inr (omega arith))) in
            (
              cut ∷ [],
              x,
              rw (nonzero, more) refl,
              (
                record {
                  buffer = record {
                    front_in = h.buffer.front_in;
                    fits = omega (arith, h.buffer.fits);
                  };
                  filled = some_kept;
                  sized = h.sized;
                },
                tt,
              ),
              split ∙ ap (λ l. l ++ (x ∷ [])) (sym (append-nil (items cut) ∙ same)),
            )
      ]

  -- The first entry is taken out of a fragment.
  pub take_front-items :
      (fsize : ℕ) (fra : Fragment D)
      → IsFilled fsize fra
      → All (IsFilled fsize) (take_front fra).0
        × (items fra ≡ (take_front fra).1 ∷ all_items (take_front fra).0)
  unfolding take_front
  take_front-items fsize fra h =
      let m = fra.n - 1 in
      let e : fra.n ≡ suc m = omega (arith, h.filled) in
      let f = (fra.front + 1) % fra.fsize in
      let inside : f < fra.fsize = mod-lt (fra.front + 1) (omega (arith, h.buffer.front_in)) in
      let step : (j : ℕ) → (fra.front + suc j) % fra.fsize ≡ (f + j) % fra.fsize = λ j.
        let e1 : fra.front + suc j ≡ fra.front + 1 + j = omega arith in
        ap (λ v. v % fra.fsize) e1 ∙ sym (mod-add-mod (fra.front + 1) fra.fsize j) in
      let x = fra.slots ((fra.front + 0) % fra.fsize) in
      let split : items fra ≡ x ∷ items_from fra.slots fra.front fra.fsize 1 m =
        ap (items_from fra.slots fra.front fra.fsize 0) e
        ∙ items_from-cons fra.slots fra.front fra.fsize 0 m in
      elim (Bool-cases (leb fra.n 1)) [
        | inl one ↦
            let none_kept : m ≡ 0 = ground arith in
            rw one (
              tt,
              split
                  ∙ ap (λ l. x ∷ l)
                      (ap (items_from fra.slots fra.front fra.fsize 1) none_kept
                        ∙ items_from-zero fra.slots fra.front fra.fsize 1),
            )
        | inr more ↦
            let some_kept : 0 < m = ground arith in
            let cut : Fragment D = record fra {
              slots = write fra.slots ((fra.front + 0) % fra.fsize) none;
              front = f;
              n = m;
            } in
            let same : items cut ≡ items_from fra.slots fra.front fra.fsize 1 m =
              sym (items_from-shift cut.slots fra.front f fra.fsize 0 m step)
              ∙ items_from-write fra.slots fra.front fra.fsize 1 m 0 none h.buffer.front_in
                  (omega (arith, h.buffer.fits)) (omega (arith, h.buffer.fits))
                  (inl (omega arith)) in
            rw more (
              (
                record {
                  buffer = record { front_in = inside; fits = omega (arith, h.buffer.fits) };
                  filled = some_kept;
                  sized = h.sized;
                },
                tt,
              ),
              split ∙ ap (λ l. x ∷ l) (sym (append-nil (items cut) ∙ same)),
            )
      ]
