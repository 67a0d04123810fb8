-- ===== src/Ytimer/Fresh.antt =====
-- ydb/ytimer.c: the search for a number that no timer has ends.
use libydb.Prelude.{
  ℕ, zero, suc, ◌+◌, ◌%◌, ◌^◌, ◌<◌, ◌≤◌, ◌≡◌, ◌≢◌, refl, sym, ◌∙◌, subst, Bool-cases, Option, some,
  Option-cases, List, [], ◌∷◌, length, inl, inr, arith,
}
use libydb.Order.{Ord}
use libydb.Keyed.{same, eq_of_same}
use libydb.Dict.{Entry, find, insert, erase, IsSorted, erase-IsSorted}
use libydb.Dict.Lookup.{find-erase}
use libydb.Ytimer.Order.{id_ord}
use libydb.Ytimer.{TimerCb, Timer, search_id, fresh_id}

-- The number that is tried `k` rounds after the next one
abbrev nth_id : ℕ → ℕ → ℕ
nth_id next k = (next + suc k) % 4294967296 % 100000 + 1

mod_step : (a k : ℕ) → (a % 4294967296 + k) % 4294967296 ≡ (a + k) % 4294967296
mod_step a k = omega arith

nth_id-step : (next k : ℕ) → nth_id (suc next % 4294967296) k ≡ nth_id next (suc k)
nth_id-step next k = omega arith

nth_id-differs : (next k : ℕ) → suc k < 67296 → nth_id next (suc k) ≢ nth_id next 0
nth_id-differs next k h = omega (arith, h)

module _ {ℓ κ} {K : Type ℓ} {D : Type κ} ⦃o : Ord K⦄ where
  length-erase :
      (q : K) (es : List (Entry K D)) (e : Entry K D)
      → find q es ≡ some e
      → suc (length (erase q es)) ≡ length es
  unfolding find erase
  length-erase q [] e h = cc
  length-erase q ((k, y) ∷ es) e h = ground (arith, length-erase q es e)

  pub length-erase_le : (q : K) (es : List (Entry K D)) → length (erase q es) ≤ length es
  unfolding erase
  length-erase_le q [] = omega arith
  length-erase_le q ((k, y) ∷ es) = ground (arith, length-erase_le q es)

  pub length-insert_le :
      (q : K) (x : Option D) (es : List (Entry K D)) → length (insert q x es) ≤ suc (length es)
  unfolding insert
  length-insert_le q x [] = omega arith
  length-insert_le q x ((k, y) ∷ es) = ground (arith, length-insert_le q x es)

found_entry :
    (t : Timer) (id : ℕ) (cb : TimerCb)
    → search_id t id ≡ some cb
    → (e : Entry ℕ TimerCb) × (find ⦃o = id_ord⦄ id t.timer_ids ≡ some e)
unfolding search_id
found_entry t id cb h = elim (Option-cases (find ⦃o = id_ord⦄ id t.timer_ids)) [
  | inl e ↦ ground (arith, h, e)
  | inr (e, f) ↦ (e, f)
]

-- With more rounds than there are timers among the numbers that come next, and not more than come before
-- a number is tried again, the search ends.
fresh_id_among :
    (n next : ℕ) (t : Timer) (es : List (Entry ℕ TimerCb))
    → IsSorted ⦃o = id_ord⦄ es
    → n ≤ 67296
    → length es < n
    → ((k : ℕ) (e : Entry ℕ TimerCb)
        → k < n
        → find ⦃o = id_ord⦄ (nth_id next k) t.timer_ids ≡ some e
        → find ⦃o = id_ord⦄ (nth_id next k) es ≡ some e)
    → (f : ℕ × ℕ) × (fresh_id n t next ≡ some f)
unfolding fresh_id
fresh_id_among zero next t es s bound less among = ((0, 0), ground (arith, less))
fresh_id_among (suc n) next t es s bound less among =
    let next_id = suc next % 2 ^ 32 in
    let id = next_id % 100000 + 1 in
    elim (Option-cases (search_id t id)) [
      | inl e ↦ ((next_id, id), rw (fresh_id, e) refl)
      | inr (cb, e) ↦
          let (entry, found) = found_entry t id cb e in
          let first : nth_id next 0 ≡ id = omega arith in
          let here : find ⦃o = id_ord⦄ id es ≡ some entry =
            subst (λ q. find ⦃o = id_ord⦄ q es ≡ some entry) first
              (among 0 entry (omega arith)
                (subst (λ q. find ⦃o = id_ord⦄ q t.timer_ids ≡ some entry) (sym first) found)) in
          let fewer = length-erase ⦃o = id_ord⦄ id es entry here in
          let (f, rest) =
            fresh_id_among n next_id t (erase ⦃o = id_ord⦄ id es)
              (erase-IsSorted ⦃o = id_ord⦄ id es s) (omega (arith, bound))
              (omega (arith, fewer, less)) (λ k e' l h. later k e' l h id first) in
          (f, rw (fresh_id, e) rest)
    ]
  where
    later :
        (k : ℕ) (e' : Entry ℕ TimerCb)
        → k < n
        → find ⦃o = id_ord⦄ (nth_id (suc next % 2 ^ 32) k) t.timer_ids ≡ some e'
        → (id : ℕ) → nth_id next 0 ≡ id
        → find ⦃o = id_ord⦄ (nth_id (suc next % 2 ^ 32) k) (erase ⦃o = id_ord⦄ id es) ≡ some e'
    later k e' l h id first =
        let p = nth_id (suc next % 2 ^ 32) k in
        let at : p ≡ nth_id next (suc k) = nth_id-step next k in
        let old : find ⦃o = id_ord⦄ p es ≡ some e' =
          subst (λ q. find ⦃o = id_ord⦄ q es ≡ some e') (sym at)
            (among (suc k) e' (omega (arith, l))
              (subst (λ q. find ⦃o = id_ord⦄ q t.timer_ids ≡ some e') at h)) in
        elim (Bool-cases (same ⦃o = id_ord⦄ p id)) [
          | inl e ↦
              let again : nth_id next (suc k) ≡ nth_id next 0 =
                sym at ∙ eq_of_same ⦃o = id_ord⦄ p id e ∙ sym first in
              elim (nth_id-differs next k (omega (arith, l, bound)) again) [ ]
          | inr e ↦ find-erase ⦃o = id_ord⦄ p id es s ∙ rw e old
        ]

pub fresh_id-total :
    (n next : ℕ) (t : Timer)
    → IsSorted ⦃o = id_ord⦄ t.timer_ids
    → length t.timer_ids < n
    → n ≤ 67296
    → (f : ℕ × ℕ) × (fresh_id n t next ≡ some f)
fresh_id-total n next t s less bound =
    fresh_id_among n next t t.timer_ids s bound less (λ k e l h. h)
