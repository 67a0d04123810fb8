-- ===== src/Yarray/Merge.antt =====
-- ydb/yarray.c: yfragment_merge_next and yfragment_merge_prev, which yarray_delete calls.
use native.Mathlib.Nat.{mod-lt, mod-add-mod, add-mod_left}
use libydb.Prelude.{
  ℕ, zero, suc, ◌+◌, ◌-◌, ◌%◌, ◌<◌, ◌≤◌, ◌≡◌, refl, ap, ap₂, ◌∙◌, leb, leb→le, Bool-cases, Bool,
  true, false, ◌&&◌, if◌then◌else◌, Option, none, some, Ensures, ◌∷◌, ◌++◌, ◌⊎◌, inl, inr, arith,
}
use libydb.Ylist.Ends
use libydb.Yarray.{Fragment, write, yindex}
use libydb.Yarray.Buffer.{IsBuffer, items, items_from, items_from-write, write-same}
use libydb.Yarray.Inside.{items_from-append}

and-left : (a b : Bool) → (a && b) ≡ true → a ≡ true
and-left true b e = refl
and-left false b e = e

module _ {ℓ} {D : Type ℓ} where
  -- `k` rounds of a loop that copies `source j`, `source (j + 1)`, ... to the indices from `base` on.
  unfoldable pub fill : (ℕ → Option D) → ℕ → ℕ → ℕ → (ℕ → Option D) → ℕ → ℕ → ℕ → Option D
  fill slots front fsize base source j zero = slots
  fill slots front fsize base source j (suc k) =
      fill (write slots ((front + base) % fsize) (source j)) front fsize (suc base) source (suc j) k

  -- `fra->data[YINDEX(fra, ...)]`, as a function of the index
  abbrev pub reads : Fragment D → ℕ → Option D
  reads fra i = fra.slots (yindex fra i)

  -- yfragment_merge_next, for a fragment and the next one: the merged fragment that takes their
  -- places, or `none` where they are left alone.
  unfoldable pub yfragment_merge_next : Fragment D → Fragment D → Option (Fragment D)
  unfolding fill
  yfragment_merge_next fra tar =
      let front = (tar.fsize + tar.front - fra.n) % tar.fsize in
      if leb tar.n (fra.fsize - fra.n) && leb tar.n fra.n
      then some (record fra {
        slots = fill fra.slots fra.front fra.fsize fra.n (reads tar) 0 tar.n;
        n = fra.n + tar.n;
      })
      else if leb fra.n (tar.fsize - tar.n) && leb fra.n tar.n
      then some (record tar {
        slots = fill tar.slots front tar.fsize 0 (reads fra) 0 fra.n;
        front = front;
        n = tar.n + fra.n;
      })
      else none

  fill-other :
      (slots : ℕ → Option D) (front fsize base : ℕ) (source : ℕ → Option D) (j k i n : ℕ)
      → front < fsize
      → base + k ≤ fsize
      → i + n ≤ fsize
      → (i + n ≤ base) ⊎ (base + k ≤ i)
      → items_from (fill slots front fsize base source j k) front fsize i n
        ≡ items_from slots front fsize i n
  unfolding fill
  fill-other slots front fsize base source j zero i n f b l out = refl
  fill-other slots front fsize base source j (suc k) i n f b l out =
      let far : (base < i) ⊎ (i + n ≤ base) = elim out [
        | inl a ↦ inr a
        | inr a ↦ inl (omega arith)
      ] in
      let near : (i + n ≤ suc base) ⊎ (suc base + k ≤ i) = elim out [
        | inl a ↦ inl (omega arith)
        | inr a ↦ inr (omega arith)
      ] in
      fill-other (write slots ((front + base) % fsize) (source j)) front fsize (suc base) source
        (suc j) k i n f (omega arith) l near
      ∙ items_from-write slots front fsize i n base (source j) f l (omega arith) far

  fill-filled :
      (slots : ℕ → Option D) (front fsize base : ℕ) (fra : Fragment D) (j k : ℕ)
      → front < fsize
      → base + k ≤ fsize
      → items_from (fill slots front fsize base (reads fra) j k) front fsize base k
        ≡ items_from fra.slots fra.front fra.fsize j k
  unfolding fill items_from
  fill-filled slots front fsize base fra j zero f b = refl
  fill-filled slots front fsize base fra j (suc k) f b =
      let new = write slots ((front + base) % fsize) (reads fra j) in
      ap₂ (λ v l. v ∷ l)
        (ap Ends.front (
            fill-other new front fsize (suc base) (reads fra) (suc j) k base 1 f (omega arith)
              (omega arith) (inl (omega arith)))
          ∙ write-same slots ((front + base) % fsize) (reads fra j))
        (fill-filled new front fsize (suc base) fra (suc j) k f (omega arith))

  pub items_from-offset :
      (slots : ℕ → Option D) (f g fsize d i k : ℕ)
      → ((m : ℕ) → (f + (d + m)) % fsize ≡ (g + m) % fsize)
      → items_from slots f fsize (d + i) k ≡ items_from slots g fsize i k
  unfolding items_from
  items_from-offset slots f g fsize d i zero h = refl
  items_from-offset slots f g fsize d i (suc k) h =
      let e : suc (d + i) ≡ d + suc i = omega arith in
      ap₂ (λ v l. v ∷ l) (ap slots (h i))
        (ap (λ v. items_from slots f fsize v k) e ∙ items_from-offset slots f g fsize d (suc i) k h)

  merge_into_first :
      (fra tar : Fragment D)
      → fra.front < fra.fsize
      → fra.n + tar.n ≤ fra.fsize
      → items_from
          (fill fra.slots fra.front fra.fsize fra.n (reads tar) 0 tar.n)
          fra.front
          fra.fsize
          0
          (fra.n + tar.n)
        ≡ items fra ++ items tar
  merge_into_first fra tar f le =
      let new = fill fra.slots fra.front fra.fsize fra.n (reads tar) 0 tar.n in
      let z : 0 + fra.n ≡ fra.n = omega arith in
      items_from-append new fra.front fra.fsize 0 fra.n tar.n
      ∙ ap₂ (λ u v. u ++ v)
          (fill-other fra.slots fra.front fra.fsize fra.n (reads tar) 0 tar.n 0 fra.n f le
            (omega arith) (inl (omega arith)))
          (rw z (fill-filled fra.slots fra.front fra.fsize fra.n tar 0 tar.n f le))

  merge_into_second :
      (fra tar : Fragment D)
      → tar.front < tar.fsize
      → tar.n + fra.n ≤ tar.fsize
      → let front = (tar.fsize + tar.front - fra.n) % tar.fsize in
        items_from
          (fill tar.slots front tar.fsize 0 (reads fra) 0 fra.n)
          front
          tar.fsize
          0
          (tar.n + fra.n)
        ≡ items fra ++ items tar
  merge_into_second fra tar f le =
      let front = (tar.fsize + tar.front - fra.n) % tar.fsize in
      let inside : front < tar.fsize = mod-lt (tar.fsize + tar.front - fra.n) (omega arith) in
      let new = fill tar.slots front tar.fsize 0 (reads fra) 0 fra.n in
      let e : tar.n + fra.n ≡ fra.n + tar.n = omega arith in
      let z : 0 + fra.n ≡ fra.n + 0 = omega arith in
      let step : (m : ℕ) → (front + (fra.n + m)) % tar.fsize ≡ (tar.front + m) % tar.fsize = λ m.
        let s : tar.fsize + tar.front - fra.n + (fra.n + m) ≡ tar.fsize + (tar.front + m) =
          omega arith in
        mod-add-mod (tar.fsize + tar.front - fra.n) tar.fsize (fra.n + m)
        ∙ ap (λ v. v % tar.fsize) s
        ∙ add-mod_left tar.fsize (tar.front + m) in
      ap (items_from new front tar.fsize 0) e
      ∙ items_from-append new front tar.fsize 0 fra.n tar.n
      ∙ ap₂ (λ u v. u ++ v)
          (fill-filled tar.slots front tar.fsize 0 fra 0 fra.n inside (omega arith))
          (fill-other tar.slots front tar.fsize 0 (reads fra) 0 fra.n (0 + fra.n) tar.n inside
              (omega arith) (omega arith) (inr (omega arith))
            ∙ ap (λ v. items_from tar.slots front tar.fsize v tar.n) z
            ∙ items_from-offset tar.slots front tar.front tar.fsize fra.n 0 tar.n step)

  -- A well-formed fragment of the array's size, which may be empty.
  pub record IsSlice (fsize : ℕ) (fra : Fragment D) : Type 0 where
    pub buffer : IsBuffer fra
    pub sized : fra.fsize ≡ fsize

  -- Where two fragments are merged, the entries of the new one are theirs.
  pub yfragment_merge_next_lem :
      (fsize : ℕ) (fra tar : Fragment D)
      → IsSlice fsize fra
      → IsSlice fsize tar
      → Ensures
          (λ h. IsSlice fsize h × (items h ≡ items fra ++ items tar))
          (yfragment_merge_next fra tar)
  unfolding yfragment_merge_next
  yfragment_merge_next_lem fsize fra tar s t =
      elim (Bool-cases (leb tar.n (fra.fsize - fra.n) && leb tar.n fra.n)) [
        | inl first ↦
            let room =
              leb→le tar.n (fra.fsize - fra.n)
                (and-left (leb tar.n (fra.fsize - fra.n)) (leb tar.n fra.n) first) in
            rw first (
              record {
                buffer = record {
                  front_in = s.buffer.front_in;
                  fits = omega (arith, room, s.buffer.fits);
                };
                sized = s.sized;
              },
              merge_into_first fra tar s.buffer.front_in (omega (arith, room, s.buffer.fits)),
            )
        | inr other ↦ elim (Bool-cases (leb fra.n (tar.fsize - tar.n) && leb fra.n tar.n)) [
          | inl second ↦
              let room =
                leb→le fra.n (tar.fsize - tar.n)
                  (and-left (leb fra.n (tar.fsize - tar.n)) (leb fra.n tar.n) second) in
              let inside : (tar.fsize + tar.front - fra.n) % tar.fsize < tar.fsize =
                mod-lt (tar.fsize + tar.front - fra.n) (omega (arith, t.buffer.front_in)) in
              rw (other, second)
                (
                  record {
                    buffer = record {
                      front_in = inside;
                      fits = omega (arith, room, t.buffer.fits);
                    };
                    sized = t.sized;
                  },
                  merge_into_second fra tar t.buffer.front_in (omega (arith, room, t.buffer.fits)),
                )
          | inr neither ↦ rw (other, neither) tt
        ]
      ]
