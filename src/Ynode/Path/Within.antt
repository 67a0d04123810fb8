-- ===== src/Ynode/Path/Within.antt =====
-- ydb/ynode.c: the inner loop of ynode_path_tokenize ends.
use libydb.Prelude.{
  ℕ, zero, suc, ◌==◌, ◌<◌, ◌≤◌, ◌≡◌, refl, ap, subst, Bool, Bool-cases, Option, none, some, [], ◌∷◌,
  ◌++◌, length, Option-cases, inl, inr, arith,
}
use libydb.Ynode.Bytes.{Text}
use libydb.Ynode.Path.{
  get_pair_delimiter, is_delimiter, stops, Cut, find_byte, skip_ignored, next_token,
}

-- What is behind the cut is shorter than the bound.
abbrev pub Within : Option Cut → ℕ → Type 0
Within none n = Unit
Within (some cut) n = length cut.after < n

find_byte-Within :
    (f : ℕ → Bool) (s : Text) (cut : Cut) → find_byte f s ≡ some cut → length cut.after < length s
unfolding find_byte
find_byte-Within f [] cut h = cc
find_byte-Within f (c ∷ s) cut h = elim (Bool-cases (f c)) [
  | inl e ↦
      let found : record { before = []; at = c; after = s } ≡ cut = ground (arith, h, e) in
      subst (λ v. length v.after < suc (length s)) found (omega arith)
  | inr e ↦ elim (Option-cases (find_byte f s)) [
    | inl none_left ↦ ground (arith, h, e, none_left)
    | inr (v, found) ↦
        let ih = find_byte-Within f s v found in
        let same_cut : record v { before = c ∷ v.before } ≡ cut = ground (arith, h, e, found) in
        let after_is : v.after ≡ cut.after = ap (λ w. w.after) same_cut in
        rw (← after_is) (omega (arith, ih))
  ]
]

Within-up : (r : Option Cut) (m n : ℕ) → m ≤ n → Within r m → Within r n
Within-up none m n h w = tt
Within-up (some cut) m n h w = omega (arith, h, w)

-- The inner loop ends within its fuel.
skip_ignored-Within :
    (n : ℕ) (token : Cut)
    → length token.after < n
    → (r : Option Cut) × (skip_ignored n token ≡ some r) × Within r (suc (length token.after))
unfolding skip_ignored
skip_ignored-Within zero token h = (none, ground (arith, h), tt)
skip_ignored-Within (suc n) token h = elim (Bool-cases (is_delimiter token.at)) [
  | inl d ↦ rw d (some token, refl, omega arith)
  | inr d ↦ elim (Option-cases (find_byte (λ c. c == get_pair_delimiter token.at) token.after)) [
    | inl e ↦ rw (d, e) (none, refl, tt)
    | inr (close, e) ↦ elim (Option-cases (find_byte stops close.after)) [
      | inl f ↦ rw (d, e, f) (none, refl, tt)
      | inr (next, f) ↦
          let one = find_byte-Within (λ c. c == get_pair_delimiter token.at) token.after close e in
          let two = find_byte-Within stops close.after next f in
          let (r, done, less) =
            skip_ignored-Within n
              (record next {
                before = token.before ++ (token.at ∷ (close.before ++ (close.at ∷ next.before)));
              })
              (omega (arith, one, two, h)) in
          rw (d, e, f)
            (
              r,
              done,
              Within-up r (suc (length next.after)) (suc (length token.after))
                  (omega (arith, one, two)) less,
            )
    ]
  ]
]

pub next_token-Within :
    (n : ℕ) (path : Text)
    → length path ≤ n
    → (r : Option Cut) × (next_token n path ≡ some r) × Within r (length path)
unfolding next_token
next_token-Within n path h = elim (Option-cases (find_byte stops path)) [
  | inl e ↦ rw (next_token, e) (none, refl, tt)
  | inr (token, e) ↦
      let one = find_byte-Within stops path token e in
      let (r, done, less) = skip_ignored-Within n token (omega (arith, one, h)) in
      rw (next_token, e)
        (r, done, Within-up r (suc (length token.after)) (length path) (omega (arith, one)) less)
]
