-- ===== src/Ytimer/Keeps.antt =====
-- ydb/ytimer.c: what the functions that set, restart and delete timers leave of the two trees.
use mathlib.Core.Option.{some-injective}
use libydb.Prelude.{
  ℕ, zero, suc, ◌==◌, ltb, ◌||◌, ◌%◌, ◌^◌, ◌+◌, ◌≡◌, refl, sym, ap, ◌∙◌, subst, Bool, Bool-cases,
  false, ℤ, pos, negsuc, Option, none, some, Option-cases, List, length, inl, inr, arith,
}
use libydb.Keyed.{same_refl}
use libydb.Dict.{find, IsSorted}
use libydb.Ytimer.Order.{Due, due_ord, id_ord}
use libydb.Ytimer.{
  Time, TimerCb, Timer, due, data_of_id, first_due, search_id, insert_timer, delete_timer, fresh_id,
  restart_timer, set_result, start_timer, ytimer_set_msec, ytimer_restart_msec, ytimer_delete,
}
use libydb.Ytimer.Held.{
  IsHeld, same_id, insert_timer-IsHeld, delete_timer-IsHeld, search_id-insert_timer,
  search_id-delete_timer,
}
use libydb.Ytimer.Serve.{ytimer_create}

pub ytimer_create-IsHeld : (fd : ℕ) → IsHeld (ytimer_create fd)
unfolding ytimer_create search_id find
ytimer_create-IsHeld fd = record {
  ids_sorted = tt;
  dues_sorted = tt;
  listed = λ id cb h. cc;
  known = λ k e h. cc;
}

-- There is a timer of this number.
abbrev pub Alive : ℕ → Timer → Type 0
Alive id t = (cb : TimerCb) × (search_id t id ≡ some cb)

-- The trees hold the same timers still, and the running timer is still there.
abbrev pub Keeps : Timer → Timer → Type 0
Keeps t u = IsHeld u × (u.cur_id ≡ t.cur_id) × (Alive t.cur_id t → Alive t.cur_id u)

-- The trees are all that counts.
pub transfer : (t u : Timer) → u.timers ≡ t.timers → u.timer_ids ≡ t.timer_ids → IsHeld t → IsHeld u
unfolding search_id
transfer t u e f h =
    let searches : (id : ℕ) → search_id t id ≡ search_id u id =
      λ id. ap (λ es. data_of_id (find ⦃o = id_ord⦄ id es)) (sym f) in
    record {
      ids_sorted = subst (λ es. IsSorted ⦃o = id_ord⦄ es) (sym f) h.ids_sorted;
      dues_sorted = subst (λ es. IsSorted ⦃o = due_ord⦄ es) (sym e) h.dues_sorted;
      listed = λ id cb q. ap (find ⦃o = due_ord⦄ (due id cb)) e ∙ h.listed id cb (searches id ∙ q);
      known = λ k d q.
          let (cb, there, ends) = h.known k d (ap (find ⦃o = due_ord⦄ k) (sym e) ∙ q) in
          (cb, sym (searches k.timer_id) ∙ there, ends);
    }

pub Keeps-trans : (t u v : Timer) → Keeps t u → Keeps u v → Keeps t v
Keeps-trans t u v (h, c, a) (h', c', a') = (
  h',
  c' ∙ c,
  λ alive. subst (λ id. Alive id v) c (a' (subst (λ id. Alive id u) (sym c) (a alive))),
)

delete_timer-Keeps :
    (t : Timer) (id : ℕ) (cb : TimerCb)
    → IsHeld t
    → search_id t id ≡ some cb
    → same_id t.cur_id id ≡ false
    → Keeps t (delete_timer t id cb)
unfolding delete_timer
delete_timer-Keeps t id cb h there differs = (
  delete_timer-IsHeld t id cb h there,
  refl,
  λ (c, alive). (c, search_id-delete_timer t id cb t.cur_id h ∙ rw differs alive),
)

insert_timer-Keeps :
    (t : Timer) (id : ℕ) (cb : TimerCb)
    → IsHeld t
    → search_id t id ≡ none
    → Keeps t (insert_timer t id cb)
unfolding insert_timer
insert_timer-Keeps t id cb h absent = (
  insert_timer-IsHeld t id cb h absent,
  refl,
  λ (c, alive). elim (Bool-cases (same_id t.cur_id id)) [
    | inl e ↦ (cb, search_id-insert_timer t id cb t.cur_id ∙ rw e refl)
    | inr e ↦ (c, search_id-insert_timer t id cb t.cur_id ∙ rw e alive)
  ],
)

-- A timer that is replaced under its number
pub replace_timer-Keeps :
    (t : Timer) (id : ℕ) (cb new : TimerCb)
    → IsHeld t
    → search_id t id ≡ some cb
    → Keeps t (insert_timer (delete_timer t id cb) id new)
unfolding delete_timer insert_timer
replace_timer-Keeps t id cb new h there =
    let rest = delete_timer t id cb in
    let held = delete_timer-IsHeld t id cb h there in
    let gone : search_id rest id ≡ none =
      search_id-delete_timer t id cb id h ∙ rw (same_refl ⦃o = id_ord⦄ id) refl in
    (
      insert_timer-IsHeld rest id new held gone,
      refl,
      λ (c, alive). elim (Bool-cases (same_id t.cur_id id)) [
        | inl e ↦ (new, search_id-insert_timer rest id new t.cur_id ∙ rw e refl)
        | inr e ↦ (
          c,
          search_id-insert_timer rest id new t.cur_id
              ∙ rw e (search_id-delete_timer t id cb t.cur_id h ∙ rw e alive),
        )
      ],
    )

fresh_id-absent :
    (n : ℕ) (t : Timer) (next : ℕ) (f : ℕ × ℕ) → fresh_id n t next ≡ some f → search_id t f.1 ≡ none
unfolding fresh_id
fresh_id-absent zero t next f h = cc
fresh_id-absent (suc n) t next f h =
    let next_id = suc next % 2 ^ 32 in
    let id = next_id % 100000 + 1 in
    elim (Option-cases (search_id t id)) [
      | inl e ↦
          let found : (next_id, id) ≡ f = some-injective (next_id, id) f (rw (fresh_id, e) at h) in
          subst (λ g. search_id t g.1 ≡ none) found e
      | inr (cb, e) ↦ fresh_id-absent n t next_id f (rw (fresh_id, e) at h)
    ]

module _ (settime : Option Due → Bool) (expired : TimerCb → Time → Bool) (fuel : ℕ) where
  pub restart_timer-Keeps :
      (t u : Timer) → Keeps t u → Keeps t (restart_timer settime expired fuel u).0
  unfolding restart_timer search_id
  restart_timer-Keeps t u (h, c, a) = elim (Bool-cases (settime (first_due u.timers))) [
    | inl e ↦ rw (restart_timer, e) (h, c, a)
    | inr e ↦ rw (restart_timer, e) (transfer u (record u { timerfd = 0 }) refl refl h, c, a)
  ]

  pub ytimer_delete-Keeps :
      (t : Timer) (id : ℕ) → IsHeld t → Keeps t (ytimer_delete settime expired fuel t id).0
  unfolding ytimer_delete
  ytimer_delete-Keeps t id h = elim (Bool-cases (t.timerfd == 0)) [
    | inl e ↦ rw (ytimer_delete, e) (h, refl, λ a. a)
    | inr e ↦ elim (Bool-cases (t.cur_id == id)) [
      | inl f ↦ rw (ytimer_delete, e, f) (h, refl, λ a. a)
      | inr f ↦ elim (Option-cases (search_id t id)) [
        | inl g ↦ rw (ytimer_delete, e, f, g) (h, refl, λ a. a)
        | inr (cb, g) ↦
            rw (ytimer_delete, e, f, g)
              (restart_timer-Keeps t (delete_timer t id cb)
                (delete_timer-Keeps t id cb h g (ground (arith, f))))
      ]
    ]
  ]

  pub ytimer_restart_msec-Keeps :
      (t : Timer) (id msec : ℕ) (now : Time)
      → IsHeld t
      → Keeps t (ytimer_restart_msec settime expired fuel t id msec now).0
  unfolding ytimer_restart_msec
  ytimer_restart_msec-Keeps t id msec now h = elim (Bool-cases (t.timerfd == 0)) [
    | inl e ↦ rw (ytimer_restart_msec, e) (h, refl, λ a. a)
    | inr e ↦ elim (Option-cases (search_id t id)) [
      | inl g ↦ rw (ytimer_restart_msec, e, g) (h, refl, λ a. a)
      | inr (cb, g) ↦
          let new = record cb { duration_ms = msec; starttime = now } in
          rw (ytimer_restart_msec, e, g)
            (restart_timer-Keeps t (insert_timer (delete_timer t id cb) id new)
              (replace_timer-Keeps t id cb new h g))
    ]
  ]

  set_result-Keeps :
      (t : Timer) (id : ℕ) (r : Timer × ℤ)
      → Keeps t r.0
      → Keeps t (set_result settime expired fuel id r).0
  unfolding set_result
  set_result-Keeps t id (u, pos n) k = k
  set_result-Keeps t id (u, negsuc n) k = k

  start_timer-Keeps :
      (t : Timer) (cb : TimerCb) (fresh : ℕ × ℕ)
      → IsHeld t
      → search_id t fresh.1 ≡ none
      → Keeps t (start_timer settime expired fuel t cb fresh).0
  unfolding start_timer search_id
  start_timer-Keeps t cb fresh h absent =
      let u = record t { next_id = fresh.0 } in
      let held = transfer t u refl refl h in
      let placed = insert_timer-Keeps u fresh.1 cb held absent in
      set_result-Keeps t fresh.1 (restart_timer settime expired fuel (insert_timer u fresh.1 cb))
        (restart_timer-Keeps t (insert_timer u fresh.1 cb) placed)

  pub ytimer_set_msec-Keeps :
      (t : Timer) (msec : ℕ) (p : Bool) (fn : ℕ) (user : List ℕ) (now : Time) (r : Timer × ℕ)
      → IsHeld t
      → ytimer_set_msec settime expired fuel t msec p fn user now ≡ some r
      → Keeps t r.0
  unfolding ytimer_set_msec
  ytimer_set_msec-Keeps t msec p fn user now r h set =
      elim (Bool-cases (t.timerfd == 0 || (fn == 0 || ltb 5 (length user)))) [
        | inl e ↦
            let same_timer : (t, 0) ≡ r = ground (arith, set, e) in
            subst (λ q. Keeps t q.0) same_timer (h, refl, λ a. a)
        | inr e ↦ elim (Option-cases (fresh_id fuel t t.next_id)) [
          | inl f ↦ ground (arith, set, e, f)
          | inr (fresh, f) ↦
              let cb : TimerCb = record {
                timer_periodic = p;
                timer_func = fn;
                starttime = now;
                duration_ms = msec;
                user = user;
              } in
              let started : start_timer settime expired fuel t cb fresh ≡ r =
                ground (arith, set, e, f) in
              let absent = fresh_id-absent fuel t t.next_id fresh f in
              subst (λ q. Keeps t q.0) started (start_timer-Keeps t cb fresh h absent)
        ]
      ]
