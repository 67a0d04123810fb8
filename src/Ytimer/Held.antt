-- ===== src/Ytimer/Held.antt =====
-- ydb/ytimer.c: the two trees hold the same timers.
use mathlib.Core.Option.{some-injective}
use libydb.Prelude.{
  ℕ, ◌≡◌, refl, sym, ap, ◌∙◌, subst, Bool, Bool-cases, true, false, if◌then◌else◌, none, some, inl,
  inr, arith,
}
use libydb.Keyed.{same, same_refl, eq_of_same}
use libydb.Dict.{Entry, find, IsSorted, insert-IsSorted, erase-IsSorted}
use libydb.Dict.Lookup.{find-insert, find-erase}
use libydb.Ytimer.Order.{Due, due_ord, id_ord}
use libydb.Ytimer.{TimerCb, Timer, due, data_of_id, search_id, insert_timer, delete_timer}

-- Both trees are in order, every timer is in the tree of the ends under its own, and that tree has no
-- other entries.
pub record IsHeld (t : Timer) : Type 0 where
  pub ids_sorted : IsSorted ⦃o = id_ord⦄ t.timer_ids
  pub dues_sorted : IsSorted ⦃o = due_ord⦄ t.timers
  pub listed :
      (id : ℕ) (cb : TimerCb)
      → search_id t id ≡ some cb
      → find ⦃o = due_ord⦄ (due id cb) t.timers ≡ some (due id cb, some id)
  pub known :
      (k : Due) (e : Entry Due ℕ)
      → find ⦃o = due_ord⦄ k t.timers ≡ some e
      → (cb : TimerCb) × (search_id t k.timer_id ≡ some cb) × (due k.timer_id cb ≡ k)

abbrev pub same_id : ℕ → ℕ → Bool
same_id p q = same ⦃o = id_ord⦄ p q

abbrev same_due : Due → Due → Bool
same_due p q = same ⦃o = due_ord⦄ p q

pub timer_id-due : (id : ℕ) (cb : TimerCb) → (due id cb).timer_id ≡ id
unfolding due
timer_id-due id cb = ground arith

due-other :
    (p id : ℕ) (a b : TimerCb) → same_id p id ≡ false → same_due (due p a) (due id b) ≡ false
due-other p id a b h = elim (Bool-cases (same_due (due p a) (due id b))) [
  | inl e ↦
      let ends : due p a ≡ due id b = eq_of_same ⦃o = due_ord⦄ (due p a) (due id b) e in
      let ids : p ≡ id = sym (timer_id-due p a) ∙ ap (λ k. k.timer_id) ends ∙ timer_id-due id b in
      let yes : same_id p id ≡ true =
        subst (λ q. same_id p q ≡ true) ids (same_refl ⦃o = id_ord⦄ p) in
      ground (arith, h, yes)
  | inr e ↦ e
]

pub search_id-insert_timer :
    (t : Timer) (id : ℕ) (cb : TimerCb) (p : ℕ)
    → search_id (insert_timer t id cb) p ≡ (if same_id p id then some cb else search_id t p)
unfolding search_id insert_timer
search_id-insert_timer t id cb p =
    ap data_of_id (find-insert ⦃o = id_ord⦄ p id (some cb) t.timer_ids) ∙ ground arith

pub search_id-delete_timer :
    (t : Timer) (id : ℕ) (cb : TimerCb) (p : ℕ)
    → IsHeld t
    → search_id (delete_timer t id cb) p ≡ (if same_id p id then none else search_id t p)
unfolding search_id delete_timer
search_id-delete_timer t id cb p h =
    ap data_of_id (find-erase ⦃o = id_ord⦄ p id t.timer_ids h.ids_sorted) ∙ ground arith

due-same : (id : ℕ) (cb : TimerCb) → same_due (due id cb) (due id cb) ≡ true
due-same id cb = same_refl ⦃o = due_ord⦄ (due id cb)

id-differs :
    (t : Timer) (p id : ℕ) (cb : TimerCb)
    → search_id t id ≡ none
    → search_id t p ≡ some cb
    → same_id p id ≡ false
id-differs t p id cb absent there = elim (Bool-cases (same_id p id)) [
  | inl e ↦
      let q = subst (λ v. search_id t v ≡ some cb) (eq_of_same ⦃o = id_ord⦄ p id e) there in cc
  | inr e ↦ e
]

end-differs :
    (t : Timer) (k : Due) (id : ℕ) (cb a : TimerCb)
    → search_id t id ≡ some cb
    → search_id t k.timer_id ≡ some a
    → due k.timer_id a ≡ k
    → same_due k (due id cb) ≡ false
    → same_id k.timer_id id ≡ false
end-differs t k id cb a held there ends f = elim (Bool-cases (same_id k.timer_id id)) [
  | inl e ↦
      let number = eq_of_same ⦃o = id_ord⦄ k.timer_id id e in
      let timer : a ≡ cb = some-injective a cb (sym there ∙ ap (search_id t) number ∙ held) in
      let key : due id cb ≡ k =
        ap (λ q. due q cb) (sym number) ∙ ap (due k.timer_id) (sym timer) ∙ ends in
      let yes : same_due k (due id cb) ≡ true =
        subst (λ d. same_due d (due id cb) ≡ true) key (due-same id cb) in
      let no : true ≡ false = sym yes ∙ f in cc
  | inr e ↦ e
]

find-inserted :
    (t : Timer) (id : ℕ) (cb : TimerCb)
    → find ⦃o = due_ord⦄ (due id cb) (insert_timer t id cb).timers ≡ some (due id cb, some id)
unfolding insert_timer
find-inserted t id cb =
    find-insert ⦃o = due_ord⦄ (due id cb) (due id cb) (some id) t.timers ∙ rw (due-same id cb) refl

-- A timer with a new number can be put into both trees.
pub insert_timer-IsHeld :
    (t : Timer) (id : ℕ) (cb : TimerCb)
    → IsHeld t
    → search_id t id ≡ none
    → IsHeld (insert_timer t id cb)
unfolding insert_timer
insert_timer-IsHeld t id cb h absent = record {
  ids_sorted = insert-IsSorted ⦃o = id_ord⦄ id (some cb) t.timer_ids h.ids_sorted;
  dues_sorted = insert-IsSorted ⦃o = due_ord⦄ (due id cb) (some id) t.timers h.dues_sorted;
  listed = λ p a found.
      let now = find-insert ⦃o = due_ord⦄ (due p a) (due id cb) (some id) t.timers in
      let at = sym (search_id-insert_timer t id cb p) ∙ found in
      elim (Bool-cases (same_id p id)) [
        | inl e ↦
            let ids = eq_of_same ⦃o = id_ord⦄ p id e in
            let timer : cb ≡ a = some-injective cb a (rw e at at) in
            subst
              (λ b.
                find ⦃o = due_ord⦄ (due p b) (insert_timer t id cb).timers ≡ some (due p b, some p))
              timer
              (subst
                (λ q.
                  find ⦃o = due_ord⦄ (due q cb) (insert_timer t id cb).timers
                  ≡ some (due q cb, some q))
                (sym ids) (find-inserted t id cb))
        | inr e ↦ now ∙ rw (due-other p id a cb e) (h.listed p a (rw e at at))
      ];
  known = λ k e found.
      let at = sym (find-insert ⦃o = due_ord⦄ k (due id cb) (some id) t.timers) ∙ found in
      elim (Bool-cases (same_due k (due id cb))) [
        | inl f ↦
            let key = eq_of_same ⦃o = due_ord⦄ k (due id cb) f in
            let number : k.timer_id ≡ id = ap (λ d. d.timer_id) key ∙ timer_id-due id cb in
            let yes : same_id k.timer_id id ≡ true =
              subst (λ q. same_id q id ≡ true) (sym number) (same_refl ⦃o = id_ord⦄ id) in
            (
              cb,
              search_id-insert_timer t id cb k.timer_id ∙ rw yes refl,
              ap (λ q. due q cb) number ∙ sym key,
            )
        | inr f ↦
            let (a, there, ends) = h.known k e (rw f at at) in
            let differs = id-differs t k.timer_id id a absent there in
            (a, search_id-insert_timer t id cb k.timer_id ∙ rw differs there, ends)
      ];
}

-- Taking a timer out of both trees leaves the others in both.
pub delete_timer-IsHeld :
    (t : Timer) (id : ℕ) (cb : TimerCb)
    → IsHeld t
    → search_id t id ≡ some cb
    → IsHeld (delete_timer t id cb)
unfolding delete_timer
delete_timer-IsHeld t id cb h held = record {
  ids_sorted = erase-IsSorted ⦃o = id_ord⦄ id t.timer_ids h.ids_sorted;
  dues_sorted = erase-IsSorted ⦃o = due_ord⦄ (due id cb) t.timers h.dues_sorted;
  listed = λ p a found.
      let now = find-erase ⦃o = due_ord⦄ (due p a) (due id cb) t.timers h.dues_sorted in
      let at = sym (search_id-delete_timer t id cb p h) ∙ found in
      elim (Bool-cases (same_id p id)) [
        | inl e ↦ let at' : none ≡ some a = rw e at at in cc
        | inr e ↦ now ∙ rw (due-other p id a cb e) (h.listed p a (rw e at at))
      ];
  known = λ k e found.
      let at = sym (find-erase ⦃o = due_ord⦄ k (due id cb) t.timers h.dues_sorted) ∙ found in
      elim (Bool-cases (same_due k (due id cb))) [
        | inl f ↦ let at' : none ≡ some e = rw f at at in cc
        | inr f ↦
            let (a, there, ends) = h.known k e (rw f at at) in
            (
              a,
              search_id-delete_timer t id cb k.timer_id h
                  ∙ rw (end-differs t k id cb a held there ends f) there,
              ends,
            )
      ];
}
