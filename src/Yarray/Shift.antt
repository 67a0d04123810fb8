-- ===== src/Yarray/Shift.antt =====
-- ydb/yarray.c, the loops of yarray_insert and yarray_delete that move entries within a fragment.
use libydb.Prelude.{
  ℕ, zero, suc, ◌+◌, ◌%◌, ◌<◌, ◌≤◌, ◌≡◌, refl, sym, ap, ap₂, ◌∙◌, Option, [], ◌∷◌, ◌++◌, ◌⊎◌, inl,
  inr, arith,
}
use libydb.Ylist.Ends
use libydb.Yarray.{write}
use libydb.Yarray.Buffer.{items_from, items_from-write, items_from-suc, write-same}

module _ {ℓ} {D : Type ℓ} where
  -- The entries at `base`, ..., `base + k - 1` go up by one, the last first.
  unfoldable pub shift_up : (ℕ → Option D) → ℕ → ℕ → ℕ → ℕ → ℕ → Option D
  shift_up slots front fsize base zero = slots
  shift_up slots front fsize base (suc k) =
      shift_up
        (write slots ((front + (base + suc k)) % fsize) (slots ((front + (base + k)) % fsize)))
        front fsize base k

  -- The entries at `base + 1`, ..., `base + k` go down by one, the first first.
  unfoldable pub shift_down : (ℕ → Option D) → ℕ → ℕ → ℕ → ℕ → ℕ → Option D
  shift_down slots front fsize base zero = slots
  shift_down slots front fsize base (suc k) =
      shift_down (write slots ((front + base) % fsize) (slots ((front + suc base) % fsize))) front
        fsize (suc base) k

  -- Entries that are not among those that are written.
  pub shift_up-other :
      (slots : ℕ → Option D) (front fsize base k i n : ℕ)
      → front < fsize
      → base + k < fsize
      → i + n ≤ fsize
      → (i + n ≤ suc base) ⊎ (base + k < i)
      → items_from (shift_up slots front fsize base k) front fsize i n
        ≡ items_from slots front fsize i n
  unfolding shift_up
  shift_up-other slots front fsize base zero i n f b l out = refl
  shift_up-other slots front fsize base (suc k) i n f b l out =
      let far : (base + suc k < i) ⊎ (i + n ≤ base + suc k) = elim out [
        | inl a ↦ inr (omega arith)
        | inr a ↦ inl a
      ] in
      let near : (i + n ≤ suc base) ⊎ (base + k < i) = elim out [
        | inl a ↦ inl a
        | inr a ↦ inr (omega arith)
      ] in
      shift_up-other
        (write slots ((front + (base + suc k)) % fsize) (slots ((front + (base + k)) % fsize)))
        front fsize base k i n f (omega arith) l near
      ∙ items_from-write slots front fsize i n (base + suc k) _ f l b far

  pub shift_up-at :
      (slots : ℕ → Option D) (front fsize base k j : ℕ)
      → front < fsize
      → base + k < fsize
      → j < fsize
      → (j ≤ base) ⊎ (base + k < j)
      → shift_up slots front fsize base k ((front + j) % fsize) ≡ slots ((front + j) % fsize)
  unfolding items_from
  shift_up-at slots front fsize base k j f b l out =
      let apart : (j + 1 ≤ suc base) ⊎ (base + k < j) = elim out [
        | inl a ↦ inl (omega arith)
        | inr a ↦ inr a
      ] in
      ap Ends.front (shift_up-other slots front fsize base k j 1 f b (omega arith) apart)

  pub shift_up-moved :
      (slots : ℕ → Option D) (front fsize base k : ℕ)
      → front < fsize
      → base + k < fsize
      → items_from (shift_up slots front fsize base k) front fsize (suc base) k
        ≡ items_from slots front fsize base k
  unfolding shift_up items_from
  shift_up-moved slots front fsize base zero f b = refl
  shift_up-moved slots front fsize base (suc k) f b =
      let x = slots ((front + (base + k)) % fsize) in
      let moved = write slots ((front + (base + suc k)) % fsize) x in
      let up = shift_up moved front fsize base k in
      let at : suc base + k ≡ base + suc k = omega arith in
      items_from-suc up front fsize (suc base) k
      ∙ ap₂ (λ l v. l ++ (v ∷ []))
          (shift_up-moved moved front fsize base k f (omega arith)
            ∙ items_from-write slots front fsize base k (base + suc k) x f (omega arith) b
                (inr (omega arith)))
          (shift_up-at moved front fsize base k (suc base + k) f (omega arith) (omega arith)
              (inr (omega arith))
            ∙ rw at (write-same slots ((front + (base + suc k)) % fsize) x))
      ∙ sym (items_from-suc slots front fsize base k)

  pub shift_down-other :
      (slots : ℕ → Option D) (front fsize base k i n : ℕ)
      → front < fsize
      → base + k < fsize
      → i + n ≤ fsize
      → (i + n ≤ base) ⊎ (base + k ≤ i)
      → items_from (shift_down slots front fsize base k) front fsize i n
        ≡ items_from slots front fsize i n
  unfolding shift_down
  shift_down-other slots front fsize base zero i n f b l out = refl
  shift_down-other slots front fsize base (suc k) i n f b l out =
      let x = slots ((front + suc base) % fsize) in
      let far : (base < i) ⊎ (i + n ≤ base) = elim out [
        | inl a ↦ inr a
        | inr a ↦ inl (omega arith)
      ] in
      let near : (i + n ≤ suc base) ⊎ (suc base + k ≤ i) = elim out [
        | inl a ↦ inl (omega arith)
        | inr a ↦ inr (omega arith)
      ] in
      shift_down-other (write slots ((front + base) % fsize) x) front fsize (suc base) k i n f
        (omega arith) l near
      ∙ items_from-write slots front fsize i n base x f l (omega arith) far

  pub shift_down-moved :
      (slots : ℕ → Option D) (front fsize base k : ℕ)
      → front < fsize
      → base + k < fsize
      → items_from (shift_down slots front fsize base k) front fsize base k
        ≡ items_from slots front fsize (suc base) k
  unfolding shift_down items_from
  shift_down-moved slots front fsize base zero f b = refl
  shift_down-moved slots front fsize base (suc k) f b =
      let x = slots ((front + suc base) % fsize) in
      let moved = write slots ((front + base) % fsize) x in
      let first = ap Ends.front (
        shift_down-other moved front fsize (suc base) k base 1 f (omega arith) (omega arith)
          (inl (omega arith))) in
      ap₂ (λ v l. v ∷ l) (first ∙ write-same slots ((front + base) % fsize) x)
        (shift_down-moved moved front fsize (suc base) k f (omega arith)
          ∙ items_from-write slots front fsize (suc (suc base)) k base x f (omega arith)
              (omega arith) (inl (omega arith)))
