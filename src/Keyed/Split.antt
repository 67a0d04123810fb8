-- ===== src/Keyed/Split.antt =====
-- Lists of items with keys that are cut at an item, for ydb/ymap.c.
use libydb.Prelude.{
  false, if◌then◌else◌, Bool-cases, inl, inr, none, some, List, [], ◌∷◌, ◌++◌, ◌≡◌, refl, sym, ap,
  ◌∙◌, subst, All-at, All-with, All-without, arith,
}
use libydb.Order.{Ord}
use libydb.Keyed.{same, eq_of_same, same_comm, seek, without, Lacks, IsUnique}

module _ {ℓ κ} {K : Type ℓ} {A : Type κ} ⦃o : Ord K⦄ (key : A → K) where
  pub seek-none-Lacks : (q : K) (rs : List A) → seek key q rs ≡ none → Lacks key q rs
  unfolding seek
  seek-none-Lacks q [] h = tt
  seek-none-Lacks q (a ∷ rs) h = elim (Bool-cases (same q (key a))) [
    | inl e ↦ let bad = (rw e at h) in cc bad
    | inr e ↦ (e, seek-none-Lacks q rs (rw e at h))
  ]

  pub seek-Lacks : (q : K) (rs : List A) → Lacks key q rs → seek key q rs ≡ none
  unfolding seek
  seek-Lacks q [] h = refl
  seek-Lacks q (a ∷ rs) h = rw h.0 (seek-Lacks q rs h.1)

  pub without-Lacks : (q : K) (rs : List A) → Lacks key q rs → without key q rs ≡ rs
  unfolding without
  without-Lacks q [] h = refl
  without-Lacks q (a ∷ rs) h = rw h.0 (ap (λ l. a ∷ l) (without-Lacks q rs h.1))

  -- Where the item of a key stands.
  abbrev pub Cut : K → A → List A → Type (ℓ ⊔ κ)
  Cut q a rs =
      (xs ys : List A) × (rs ≡ xs ++ (a ∷ ys)) × (q ≡ key a) × (without key q rs ≡ xs ++ ys)

  pub seek-some-Cut : (q : K) (rs : List A) (a : A) → seek key q rs ≡ some a → Cut q a rs
  unfolding seek without
  seek-some-Cut q [] a h = cc
  seek-some-Cut q (b ∷ rs) a h = elim (Bool-cases (same q (key b))) [
    | inl e ↦
        let there : b ≡ a = ground arith in
        ([], rs, ap (λ c. c ∷ rs) there, eq_of_same q (key b) e ∙ ap key there, rw e refl)
    | inr e ↦
        let (xs, ys, cut, eq, rest) = seek-some-Cut q rs a (rw e at h) in
        (b ∷ xs, ys, ap (λ l. b ∷ l) cut, eq, rw e (ap (λ l. b ∷ l) rest))
  ]

  -- An item put in between
  pub seek-with :
      (q : K) (xs : List A) (a : A) (ys : List A)
      → Lacks key (key a) (xs ++ ys)
      → seek key q (xs ++ (a ∷ ys)) ≡ (if same q (key a) then some a else seek key q (xs ++ ys))
  unfolding seek
  seek-with q [] a ys h = refl
  seek-with q (x ∷ xs) a ys h = elim (Bool-cases (same q (key a))) [
    | inl e ↦
        let here : same q (key x) ≡ false =
          subst (λ v. same v (key x) ≡ false) (sym (eq_of_same q (key a) e)) h.0 in
        rw (e, here) (seek-with q xs a ys h.1 ∙ rw e refl)
    | inr e ↦
        let ih : seek key q (xs ++ (a ∷ ys)) ≡ seek key q (xs ++ ys) =
          seek-with q xs a ys h.1 ∙ rw e refl in
        rw (e, ih) refl
  ]

  pub IsUnique-with :
      (xs : List A) (a : A) (ys : List A)
      → Lacks key (key a) (xs ++ ys)
      → IsUnique key (xs ++ ys)
      → IsUnique key (xs ++ (a ∷ ys))
  IsUnique-with [] a ys h u = (h, u)
  IsUnique-with (x ∷ xs) a ys h u = (
    All-with (λ b. same (key x) (key b) ≡ false) xs a ys (same_comm (key a) (key x) h.0) u.0,
    IsUnique-with xs a ys h.1 u.1,
  )

  -- An item taken out
  pub Lacks-cut :
      (xs : List A) (a : A) (ys : List A)
      → IsUnique key (xs ++ (a ∷ ys))
      → Lacks key (key a) (xs ++ ys)
  Lacks-cut [] a ys u = u.0
  Lacks-cut (x ∷ xs) a ys u =
      (same_comm (key x) (key a) (All-at _ xs a ys u.0), Lacks-cut xs a ys u.1)

  pub IsUnique-cut :
      (xs : List A) (a : A) (ys : List A) → IsUnique key (xs ++ (a ∷ ys)) → IsUnique key (xs ++ ys)
  IsUnique-cut [] a ys u = u.1
  IsUnique-cut (x ∷ xs) a ys u = (All-without _ xs a ys u.0, IsUnique-cut xs a ys u.1)
