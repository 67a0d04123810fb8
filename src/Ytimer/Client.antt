-- ===== src/Ytimer/Client.antt =====
-- ydb/ytimer.c: any sequence of calls that set, restart and delete timers.
use libydb.Prelude.{
  ℕ, suc, ◌+◌, ◌==◌, ◌<◌, ◌≤◌, ◌||◌, ltb, ◌≡◌, refl, Bool, Bool-cases, ℤ, pos, negsuc, Option, some,
  Option-cases, List, [], ◌∷◌, length, inl, inr, arith,
}
use libydb.Ytimer.Order.{Due, id_ord}
use libydb.Ytimer.{
  Time, Status, TimerCb, Timer, first_due, search_id, insert_timer, delete_timer, restart_timer,
  set_result, start_timer, ytimer_set_msec, ytimer_restart_msec, ytimer_delete,
}
use libydb.Ytimer.Held.{IsHeld}
use libydb.Ytimer.Serve.{TimerCall, call_set, call_restart, call_delete, run_call, run_calls}
use libydb.Ytimer.Safe.{run_call-Keeps}
use libydb.Ytimer.Fresh.{length-insert_le, length-erase_le, fresh_id-total}

abbrev count : Timer → ℕ
count t = length t.timer_ids

count-insert : (t : Timer) (id : ℕ) (cb : TimerCb) → count (insert_timer t id cb) ≤ suc (count t)
unfolding insert_timer
count-insert t id cb = length-insert_le ⦃o = id_ord⦄ id (some cb) t.timer_ids

count-delete : (t : Timer) (id : ℕ) (cb : TimerCb) → count (delete_timer t id cb) ≤ count t
unfolding delete_timer
count-delete t id cb = length-erase_le ⦃o = id_ord⦄ id t.timer_ids

module _ (settime : Option Due → Bool) (expired : TimerCb → Time → Bool) (fuel : ℕ) where
  count-restart : (t : Timer) → count (restart_timer settime expired fuel t).0 ≡ count t
  unfolding restart_timer
  count-restart t = elim (Bool-cases (settime (first_due t.timers))) [
    | inl e ↦ rw (restart_timer, e) refl
    | inr e ↦ rw (restart_timer, e) refl
  ]

  count-set : (id : ℕ) (r : Timer × ℤ) → count (set_result settime expired fuel id r).0 ≡ count r.0
  unfolding set_result
  count-set id (t, pos n) = refl
  count-set id (t, negsuc n) = refl

  ytimer_delete-count :
      (t : Timer) (id : ℕ) → count (ytimer_delete settime expired fuel t id).0 ≤ count t
  unfolding ytimer_delete
  ytimer_delete-count t id = elim (Bool-cases (t.timerfd == 0 || (t.cur_id == id))) [
    | inl e ↦ ground (arith, e)
    | inr e ↦ elim (Option-cases (search_id t id)) [
      | inl f ↦ ground (arith, e, f)
      | inr (cb, f) ↦
          let less : count (restart_timer settime expired fuel (delete_timer t id cb)).0 ≤ count t =
            omega (arith, count-restart (delete_timer t id cb), count-delete t id cb) in
          ground (arith, e, f, less)
    ]
  ]

  ytimer_restart_msec-count :
      (t : Timer) (id msec : ℕ) (now : Time)
      → count (ytimer_restart_msec settime expired fuel t id msec now).0 ≤ suc (count t)
  unfolding ytimer_restart_msec
  ytimer_restart_msec-count t id msec now = elim (Bool-cases (t.timerfd == 0)) [
    | inl e ↦ ground (arith, e)
    | inr e ↦ elim (Option-cases (search_id t id)) [
      | inl f ↦ ground (arith, e, f)
      | inr (cb, f) ↦
          let new : TimerCb = record cb { duration_ms = msec; starttime = now } in
          let u = delete_timer t id cb in
          let less : count (restart_timer settime expired fuel (insert_timer u id new)).0
              ≤ suc (count t) =
            omega (
              arith,
              count-restart (insert_timer u id new),
              count-insert u id new,
              count-delete t id cb,
            ) in
          ground (arith, e, f, less)
    ]
  ]

  start_timer-count :
      (t : Timer) (cb : TimerCb) (fresh : ℕ × ℕ)
      → count (start_timer settime expired fuel t cb fresh).0 ≤ suc (count t)
  unfolding start_timer
  start_timer-count t cb fresh =
      let u = insert_timer (record t { next_id = fresh.0 }) fresh.1 cb in
      omega (
        arith,
        count-set fresh.1 (restart_timer settime expired fuel u),
        count-restart u,
        count-insert (record t { next_id = fresh.0 }) fresh.1 cb,
      )

  ytimer_set_msec-total :
      (t : Timer) (msec : ℕ) (p : Bool) (fn : ℕ) (user : List ℕ) (now : Time)
      → IsHeld t
      → count t < fuel
      → fuel ≤ 67296
      → (r : Timer × ℕ) × (ytimer_set_msec settime expired fuel t msec p fn user now ≡ some r)
        × (count r.0 ≤ suc (count t))
  unfolding ytimer_set_msec
  ytimer_set_msec-total t msec p fn user now h less bound =
      elim (Bool-cases (t.timerfd == 0 || (fn == 0 || ltb 5 (length user)))) [
        | inl e ↦ ((t, 0), ground (arith, e), omega arith)
        | inr e ↦
            let (fresh, found) = fresh_id-total fuel t.next_id t h.ids_sorted less bound in
            let cb : TimerCb = record {
              timer_periodic = p;
              timer_func = fn;
              starttime = now;
              duration_ms = msec;
              user = user;
            } in
            (
              start_timer settime expired fuel t cb fresh,
              ground (arith, e, found),
              start_timer-count t cb fresh,
            )
      ]

module _ (settime : Option Due → Bool) (expired : TimerCb → Time → Bool) (fuel : ℕ)
    (callback : Timer → ℕ → TimerCb → Status → List TimerCall × Status) where
  run_call-total :
      (t : Timer) (c : TimerCall)
      → IsHeld t
      → count t < fuel
      → fuel ≤ 67296
      → (u : Timer) × (run_call settime expired fuel callback t c ≡ some u)
        × (count u ≤ suc (count t))
  unfolding run_call
  run_call-total t (call_set msec p fn user now) h less bound =
      let (r, done, more) =
        ytimer_set_msec-total settime expired fuel t msec p fn user now h less bound in
      (r.0, rw done refl, more)
  run_call-total t (call_restart id msec now) h less bound = (
    (ytimer_restart_msec settime expired fuel t id msec now).0,
    refl,
    ytimer_restart_msec-count settime expired fuel t id msec now,
  )
  run_call-total t (call_delete id) h less bound = (
    (ytimer_delete settime expired fuel t id).0,
    refl,
    omega (arith, ytimer_delete-count settime expired fuel t id),
  )

  pub ytimer_run-IsHeld :
      (cs : List TimerCall) (t : Timer)
      → IsHeld t
      → length t.timer_ids + length cs < fuel
      → fuel ≤ 67296
      → (u : Timer) × (run_calls settime expired fuel callback t cs ≡ some u) × IsHeld u
  unfolding run_calls
  ytimer_run-IsHeld [] t h less bound = (t, refl, h)
  ytimer_run-IsHeld (c ∷ cs) t h less bound =
      let (u, done, more) = run_call-total t c h (omega (arith, less)) bound in
      let held = (run_call-Keeps settime expired fuel callback t c u h done).0 in
      let (v, rest, end) = ytimer_run-IsHeld cs u held (omega (arith, less, more)) bound in
      (v, rw (done, rest) refl, end)
