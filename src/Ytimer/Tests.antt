-- ===== src/Ytimer/Tests.antt =====
-- The theorems on the timers of ydb/ytimer.c with two timers, and runs.
use libydb.Ytimer.Serving.Expired.{serves, ytimer_serve-serves}
use Prim.Native.Nat.Ordering.{lt}
use libydb.Prelude.{
  ℕ, ◌+◌, ◌*◌, ◌==◌, leb, ◌≡◌, refl, pos, Bool, true, false, if◌then◌else◌, Option, some, List, [],
  ◌∷◌, arith, sym, ◌∙◌, ◌&&◌, ◌||◌, ltb, Bool-cases, inl, inr, ℤ, ◌>>=◌, ◌%◌,
}
use libydb.Dict.{find, insert, erase}
use libydb.Ytimer.Order.{Due, timer_cb_cmp}
use libydb.Ytimer.{Time, Status, no_err, TimerCb, Timer, due, search_id, insert_timer, fresh_id}
use libydb.Ytimer.Held.{IsHeld, insert_timer-IsHeld}
use libydb.Ytimer.Serve.{
  ytimer_create, TimerCall, call_set, call_delete, returns, never, run_calls, ytimer_serve,
  call_restart,
}
use libydb.Ytimer.Fresh.{fresh_id-total}
use libydb.Ytimer.Client.{ytimer_run-IsHeld}
use libydb.Ytimer.Keeps.{ytimer_create-IsHeld}
use libydb.Ytimer.Safe.{SafeServed, ytimer_serve-SafeServed}

abbrev at : ℕ → Time
at s = record { tv_sec = s; tv_nsec = 0 }

abbrev settime : Option Due → Bool
settime d = true

abbrev expired : TimerCb → Time → Bool
expired cb now = leb (cb.starttime.tv_sec * 1000 + cb.duration_ms) (now.tv_sec * 1000)

-- The function at 7 deletes the timer 3.
abbrev callback : Timer → ℕ → TimerCb → Status → List TimerCall × Status
callback t id cb s = if cb.timer_func == 7 then (call_delete 3 ∷ [], no_err) else ([], no_err)

abbrev timer : Bool → ℕ → ℕ → TimerCb
timer periodic fn msec = record {
  timer_periodic = periodic;
  timer_func = fn;
  starttime = at 0;
  duration_ms = msec;
  user = [];
}

-- A timer 2 that repeats after one second, and a timer 3 that ends after 1.5 seconds
abbrev two : Timer
two = insert_timer (insert_timer (ytimer_create 5) 2 (timer true 1 1000)) 3 (timer false 1 1500)

two-IsHeld : IsHeld two
unfolding insert_timer ytimer_create due search_id find insert timer_cb_cmp
two-IsHeld =
    insert_timer-IsHeld (insert_timer (ytimer_create 5) 2 (timer true 1 1000)) 3
      (timer false 1 1500)
      (insert_timer-IsHeld (ytimer_create 5) 2 (timer true 1 1000) (ytimer_create-IsHeld 5) refl)
      refl

ytimer_serve-SafeServed_example : SafeServed (ytimer_serve settime expired 10 callback two (at 3))
ytimer_serve-SafeServed_example =
    ytimer_serve-SafeServed settime expired 10 callback two (at 3) two-IsHeld

-- The timers of a run of set calls
set_test :
    run_calls settime expired 10 callback
      (ytimer_create 5)
      (call_set 1000 true 1 [] (at 0) ∷ call_set 1500 false 1 [] (at 0) ∷ [])
    ≡ some (record two { next_id = 2 })
unfolding run_calls ytimer_create insert_timer due find insert timer_cb_cmp
set_test = refl

-- After three seconds the timer 2 starts again, and the timer 3 is gone.
serve_test :
    ytimer_serve settime expired 10 callback two (at 3)
    ≡ returns
        (insert_timer (ytimer_create 5) 2 (record (timer true 1 1000) { starttime = at 3 }))
        (pos 0)
unfolding ytimer_serve ytimer_create insert_timer due find insert erase timer_cb_cmp
serve_test = refl

-- The callback of the timer 2 deletes the timer 3, which has expired too: ytimer_serve does not return.
never_test :
    ytimer_serve settime expired 10 callback
      (insert_timer (insert_timer (ytimer_create 5) 2 (timer true 7 1000)) 3 (timer false 1 1500))
      (at 3)
    ≡ never
unfolding ytimer_serve ytimer_create insert_timer due find insert erase timer_cb_cmp
never_test = refl

abbrev calls : List TimerCall
calls = call_set 500 false 1 [] (at 1) ∷ call_restart 2 2000 (at 2) ∷ call_delete 3 ∷ []

ytimer_run-IsHeld_example :
    (u : Timer) × (run_calls settime expired 10 callback two calls ≡ some u) × IsHeld u
unfolding insert_timer ytimer_create due find insert timer_cb_cmp
ytimer_run-IsHeld_example =
    ytimer_run-IsHeld settime expired 10 callback calls two two-IsHeld (omega arith) (omega arith)

fresh_id-total_example : (f : ℕ × ℕ) × (fresh_id 3 two 4294967295 ≡ some f)
unfolding insert_timer ytimer_create due find insert timer_cb_cmp
fresh_id-total_example =
    fresh_id-total 3 4294967295 two two-IsHeld.ids_sorted (omega arith) (omega arith)

-- The numbers 1 to 3: 2 and 3 are in use, and 1 comes after the largest next_id.
fresh_test : fresh_id 3 two 4294967295 ≡ some (0, 1)
unfolding fresh_id insert_timer ytimer_create due find insert timer_cb_cmp
fresh_test = refl

-- The end is not after the time.
abbrev is_past : Due → Time → Bool
is_past d now = ltb d.sec now.tv_sec || (d.sec == now.tv_sec && leb d.nsec now.tv_nsec)

abbrev has_ended : TimerCb → Time → Bool
has_ended cb now = is_past (due 0 cb) now

is_past-due : (id : ℕ) (cb : TimerCb) (now : Time) → is_past (due id cb) now ≡ has_ended cb now
unfolding due
is_past-due id cb now =
    elim (Bool-cases (leb 1000000000 (cb.starttime.tv_nsec + cb.duration_ms % 1000 * 1000000))) [
      | inl e ↦ rw e refl
      | inr e ↦ rw e refl
    ]

is_past-earlier :
    (a b : Due) (now : Time) → timer_cb_cmp a b ≡ lt → is_past b now ≡ true → is_past a now ≡ true
unfolding timer_cb_cmp
is_past-earlier a b now h k = ground arith

ended_earlier :
    (i j : ℕ) (a b : TimerCb)
    → timer_cb_cmp (due i a) (due j b) ≡ lt
    → has_ended b (at 3) ≡ true
    → has_ended a (at 3) ≡ true
ended_earlier i j a b h k =
    sym (is_past-due i a (at 3))
    ∙ is_past-earlier (due i a) (due j b) (at 3) h (is_past-due j b (at 3) ∙ k)

abbrev silent : Timer → ℕ → TimerCb → Status → List TimerCall × Status
silent t id cb s = ([], no_err)

ytimer_serve-serves_example :
    (u : Timer) × (r : ℤ) × (ytimer_serve settime has_ended 10 silent two (at 3) ≡ returns u r)
    × IsHeld u
    × ((p : ℕ)
        → search_id u p ≡ (
            search_id two p >>= λ cb.
            serves settime has_ended 10 silent (λ id cb'. no_err) (λ t id cb' s. refl) (at 3) p cb))
unfolding insert_timer ytimer_create due search_id find insert timer_cb_cmp
ytimer_serve-serves_example =
    ytimer_serve-serves settime has_ended 10 silent (λ id cb. no_err) (λ t id cb s. refl) two (at 3)
      ended_earlier two-IsHeld refl refl refl
