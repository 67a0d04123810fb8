-- ===== src/Yarray/Buffer.antt =====
-- One fragment of ydb/yarray.c: a circular buffer as a list.
use native.Mathlib.Nat.{mod-lt, mod-eq_of_lt, mod-eq-sub-mod, mod-add-mod, add-mod_left}
use libydb.Prelude.{
  length, ℕ, zero, suc, ◌+◌, ◌-◌, ◌%◌, ◌<◌, ◌≤◌, ◌≡◌, ◌≢◌, refl, ap, ap₂, ◌∙◌, ltb, Option, List,
  [], ◌∷◌, ◌++◌, ◌⊎◌, inl, inr, arith, Bool-cases, ltb→lt,
}
use libydb.Yarray.{Fragment, write, yindex, put_back, put_front, put_first, yfragment_new}

-- An index below twice the size wraps at most once.
pub mod_once : (a s : ℕ) → a < s + s → ((a < s) × (a % s ≡ a)) ⊎ ((s ≤ a) × (a % s + s ≡ a))
mod_once a s l = elim (Bool-cases (ltb a s)) [
  | inl e ↦ let lt = ltb→lt a s e in inl (lt, mod-eq_of_lt lt)
  | inr e ↦
      let le : s ≤ a = ground arith in
      let small : a - s < s = omega arith in
      let m : a % s ≡ a - s = mod-eq-sub-mod le ∙ mod-eq_of_lt small in inr (le, omega arith)
]

-- Different indices stand for different slots.
index-apart :
    (front fsize i j : ℕ)
    → front < fsize
    → i < fsize
    → j < fsize
    → i ≢ j
    → (front + i) % fsize ≢ (front + j) % fsize
index-apart front fsize i j f hi hj ne e = elim (mod_once (front + i) fsize (omega arith)) [
  | inl a ↦ elim (mod_once (front + j) fsize (omega arith)) [
    | inl b ↦ ne (omega arith)
    | inr b ↦ omega arith
  ]
  | inr a ↦ elim (mod_once (front + j) fsize (omega arith)) [
    | inl b ↦ omega arith
    | inr b ↦ ne (omega arith)
  ]
]

pub write-same {ℓ} : {A : Type ℓ} (f : ℕ → A) (a : ℕ) (v : A) → write f a v a ≡ v
unfolding write
write-same f a v = ground arith

module _ {ℓ} {D : Type ℓ} where
  -- The entries of `k` slots from the index `i` on.
  unfoldable pub items_from : (ℕ → Option D) → ℕ → ℕ → ℕ → ℕ → List (Option D)
  items_from slots front fsize i zero = []
  items_from slots front fsize i (suc k) =
      slots ((front + i) % fsize) ∷ items_from slots front fsize (suc i) k

  -- The contents of a fragment.
  abbrev pub items : Fragment D → List (Option D)
  items fra = items_from fra.slots fra.front fra.fsize 0 fra.n

  pub record IsBuffer (fra : Fragment D) : Type 0 where
    pub front_in : fra.front < fra.fsize
    pub fits : fra.n ≤ fra.fsize

  -- A write at none of the slots.
  pub items_from-write :
      (slots : ℕ → Option D) (front fsize i k : ℕ) (j : ℕ) (x : Option D)
      → front < fsize
      → i + k ≤ fsize
      → j < fsize
      → (j < i) ⊎ (i + k ≤ j)
      → items_from (write slots ((front + j) % fsize) x) front fsize i k
        ≡ items_from slots front fsize i k
  unfolding items_from write
  items_from-write slots front fsize i zero j x f le lt out = refl
  items_from-write slots front fsize i (suc k) j x f le lt out =
      let ne : i ≢ j = λ e. elim out [ inl a ↦ omega arith | inr a ↦ omega arith ] in
      let apart = index-apart front fsize i j f (omega arith) lt ne in
      let out' : (j < suc i) ⊎ (suc i + k ≤ j) = elim out [
        | inl a ↦ inl (omega arith)
        | inr a ↦ inr (omega arith)
      ] in
      ground (arith, items_from-write slots front fsize (suc i) k j x f (omega arith) lt out')

  pub items_from-suc :
      (slots : ℕ → Option D) (front fsize i k : ℕ)
      → items_from slots front fsize i (suc k)
        ≡ items_from slots front fsize i k ++ (slots ((front + (i + k)) % fsize) ∷ [])
  unfolding items_from
  items_from-suc slots front fsize i zero = let e : i + 0 ≡ i = omega arith in rw e refl
  items_from-suc slots front fsize i (suc k) =
      let e : suc i + k ≡ i + suc k = omega arith in
      rw (← e)
        (ap (λ l. slots ((front + i) % fsize) ∷ l) (items_from-suc slots front fsize (suc i) k))

  pub items_from-cons :
      (slots : ℕ → Option D) (front fsize i k : ℕ)
      → items_from slots front fsize i (suc k)
        ≡ slots ((front + i) % fsize) ∷ items_from slots front fsize (suc i) k
  unfolding items_from
  items_from-cons slots front fsize i k = refl

  pub items_from-zero :
      (slots : ℕ → Option D) (front fsize i : ℕ) → items_from slots front fsize i 0 ≡ []
  unfolding items_from
  items_from-zero slots front fsize i = refl

  pub length-items_from :
      (slots : ℕ → Option D) (front fsize i k : ℕ) → length (items_from slots front fsize i k) ≡ k
  unfolding items_from
  length-items_from slots front fsize i zero = refl
  length-items_from slots front fsize i (suc k) =
      ap suc (length-items_from slots front fsize (suc i) k)

  -- The same slots, counted from the next one.
  pub items_from-shift :
      (slots : ℕ → Option D) (f g fsize i k : ℕ)
      → ((m : ℕ) → (f + suc m) % fsize ≡ (g + m) % fsize)
      → items_from slots f fsize (suc i) k ≡ items_from slots g fsize i k
  unfolding items_from
  items_from-shift slots f g fsize i zero h = refl
  items_from-shift slots f g fsize i (suc k) h =
      ap₂ (λ v l. v ∷ l) (ap slots (h i)) (items_from-shift slots f g fsize (suc i) k h)

  -- An entry behind the last.
  pub put_back-items :
      (fra : Fragment D) (x : Option D)
      → IsBuffer fra
      → fra.n < fra.fsize
      → IsBuffer (put_back fra x) × (items (put_back fra x) ≡ items fra ++ (x ∷ []))
  put_back-items fra x b l =
      let z : 0 + fra.n ≡ fra.n = omega arith in
      (
        record { front_in = b.front_in; fits = l },
        items_from-suc _ fra.front fra.fsize 0 fra.n
            ∙ ap₂ (λ us v. us ++ (v ∷ []))
                (items_from-write fra.slots fra.front fra.fsize 0 fra.n fra.n x b.front_in
                  (omega (arith, b.fits)) l (inr (omega arith)))
                (rw z (write-same fra.slots (yindex fra fra.n) x)),
      )

  -- An entry in front of the first.
  pub put_front-items :
      (fra : Fragment D) (x : Option D)
      → IsBuffer fra
      → fra.n < fra.fsize
      → IsBuffer (put_front fra x) × (items (put_front fra x) ≡ x ∷ items fra)
  unfolding items_from
  put_front-items fra x b l =
      let f = (fra.fsize + fra.front - 1) % fra.fsize in
      let inside : f < fra.fsize = mod-lt (fra.fsize + fra.front - 1) (omega arith) in
      let step : (m : ℕ) → (f + suc m) % fra.fsize ≡ (fra.front + m) % fra.fsize = λ m.
        let e : fra.fsize + fra.front - 1 + suc m ≡ fra.fsize + (fra.front + m) = omega arith in
        mod-add-mod (fra.fsize + fra.front - 1) fra.fsize (suc m)
        ∙ ap (λ v. v % fra.fsize) e
        ∙ add-mod_left fra.fsize (fra.front + m) in
      (
        record { front_in = inside; fits = l },
        ap₂ (λ v us. v ∷ us) (write-same fra.slots ((f + 0) % fra.fsize) x)
            (items_from-write fra.slots f fra.fsize 1 fra.n 0 x inside (omega arith) (omega arith)
                (inl (omega arith))
              ∙ items_from-shift fra.slots f fra.front fra.fsize 0 fra.n step),
      )

  -- The entries of a list of fragments.
  abbrev pub all_items : List (Fragment D) → List (Option D)
  all_items [] = []
  all_items (fra ∷ fs) = items fra ++ all_items fs

  -- A fragment of a well-formed array holds something.
  pub record IsFilled (fsize : ℕ) (fra : Fragment D) : Type 0 where
    pub buffer : IsBuffer fra
    pub filled : 0 < fra.n
    pub sized : fra.fsize ≡ fsize

  -- The first entry of a new fragment.
  pub put_first-items :
      (fsize : ℕ) (x : Option D)
      → 0 < fsize
      → IsFilled fsize (put_first (yfragment_new fsize) x)
        × (items (put_first (yfragment_new fsize) x) ≡ x ∷ [])
  unfolding yfragment_new items_from write
  put_first-items fsize x p =
      let zero_mod : 0 % fsize ≡ 0 = mod-eq_of_lt p in
      (
        record {
          buffer = record { front_in = p; fits = omega arith };
          filled = omega arith;
          sized = refl;
        },
        rw zero_mod refl,
      )
