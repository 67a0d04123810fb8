-- ===== src/Ytimer/Safe.antt =====
-- ydb/ytimer.c: what the callbacks and ytimer_serve leave of the two trees.
use mathlib.Core.Option.{some-injective}
use libydb.Prelude.{
  ℕ, zero, suc, ◌==◌, leb, not, ◌≡◌, refl, subst, Bool, Bool-cases, true, false, if◌then◌else◌,
  Option, some, Option-cases, List, [], ◌∷◌, ◌++◌, length, inl, inr, arith,
}
use libydb.Ytimer.Order.{Due}
use libydb.Ytimer.{
  Time, Status, no_err, aborted, TimerCb, Timer, search_id, insert_timer, delete_timer,
  ytimer_set_msec, ytimer_restart_msec, ytimer_delete,
}
use libydb.Ytimer.Held.{IsHeld, delete_timer-IsHeld}
use libydb.Ytimer.Serve.{
  TimerCall, call_set, call_restart, call_delete, LoopEnd, ended, forever, dangling, Served,
  returns, never, dangles, is_no_err, run_call, run_calls, run_timer_cb, after_run, serve_loop,
  finish_serve, ytimer_serve, collect,
}
use libydb.Ytimer.Keeps.{
  Alive, Keeps, transfer, Keeps-trans, replace_timer-Keeps, restart_timer-Keeps,
  ytimer_delete-Keeps, ytimer_restart_msec-Keeps, ytimer_set_msec-Keeps,
}

either-IsHeld :
    (b c : Bool) (x y : Timer)
    → IsHeld x
    → IsHeld y
    → IsHeld (if not b then x else if not c then x else y)
either-IsHeld false c x y h k = h
either-IsHeld true false x y h k = h
either-IsHeld true true x y h k = k

-- What the loop of ytimer_serve may end with
abbrev pub SafeEnd : LoopEnd → Type 0
SafeEnd (ended t) = IsHeld t
SafeEnd forever = Unit
SafeEnd dangling = ⊥

abbrev pub SafeServed : Served → Type 0
SafeServed (returns t r) = IsHeld t
SafeServed never = Unit
SafeServed dangles = ⊥

module _ (settime : Option Due → Bool) (expired : TimerCb → Time → Bool) (fuel : ℕ)
    (callback : Timer → ℕ → TimerCb → Status → List TimerCall × Status) where
  pub run_call-Keeps :
      (t : Timer) (c : TimerCall) (u : Timer)
      → IsHeld t
      → run_call settime expired fuel callback t c ≡ some u
      → Keeps t u
  unfolding run_call
  run_call-Keeps t (call_set msec p fn user now) u h e =
      let r = ytimer_set_msec settime expired fuel t msec p fn user now in
      elim (Option-cases r) [
        | inl f ↦ ground (arith, e, f)
        | inr (q, f) ↦
            let same_timer : q.0 ≡ u = ground (arith, e, f) in
            subst (Keeps t) same_timer
              (ytimer_set_msec-Keeps settime expired fuel t msec p fn user now q h f)
      ]
  run_call-Keeps t (call_restart id msec now) u h e =
      subst (Keeps t)
        (some-injective (ytimer_restart_msec settime expired fuel t id msec now).0 u e)
        (ytimer_restart_msec-Keeps settime expired fuel t id msec now h)
  run_call-Keeps t (call_delete id) u h e =
      subst (Keeps t) (some-injective (ytimer_delete settime expired fuel t id).0 u e)
        (ytimer_delete-Keeps settime expired fuel t id h)

  -- Whatever a callback, or a client, calls: both trees hold the same timers after it, and the timer
  -- whose callback runs is still there.
  pub run_calls-Keeps :
      (cs : List TimerCall) (t u : Timer)
      → IsHeld t
      → run_calls settime expired fuel callback t cs ≡ some u
      → Keeps t u
  unfolding run_calls
  run_calls-Keeps [] t u h e = subst (Keeps t) (some-injective t u e) (h, refl, λ a. a)
  run_calls-Keeps (c ∷ cs) t u h e =
      elim (Option-cases (run_call settime expired fuel callback t c)) [
        | inl f ↦ ground (arith, e, f)
        | inr (v, f) ↦
            let first = run_call-Keeps t c v h f in
            let rest : run_calls settime expired fuel callback v cs ≡ some u =
              ground (arith, e, f) in
            Keeps-trans t v u first (run_calls-Keeps cs v u first.0 rest)
      ]

  run_timer_cb-Alive :
      (t : Timer) (s : Status) (id : ℕ) (cb : TimerCb) (r : Timer × Status)
      → IsHeld t
      → search_id t id ≡ some cb
      → run_timer_cb settime expired fuel callback t s id cb ≡ some r
      → IsHeld r.0 × Alive id r.0
  unfolding run_timer_cb search_id
  run_timer_cb-Alive t s id cb r h there e =
      let calls = if leb (length cb.user) 5 then callback t id cb s else ([], aborted) in
      let start = record t { cur_id = id } in
      elim (Option-cases (run_calls settime expired fuel callback start calls.0)) [
        | inl f ↦ ground (arith, e, f)
        | inr (u, f) ↦
            let (held, cur, alive) =
              run_calls-Keeps calls.0 start u (transfer t start refl refl h) f in
            let done : (record u { cur_id = 0 }, calls.1) ≡ r = ground (arith, e, f) in
            subst (λ q. IsHeld q.0 × Alive id q.0) done
              (transfer u (record u { cur_id = 0 }) refl refl held, alive (cb, there))
      ]

  pub after_run-IsHeld :
      (t : Timer) (id : ℕ) (cb : TimerCb) (s : Status) (cur : Time)
      → IsHeld t
      → search_id t id ≡ some cb
      → IsHeld (after_run settime expired fuel callback t id cb s cur)
  unfolding after_run
  after_run-IsHeld t id cb s cur h there =
      let gone = delete_timer-IsHeld t id cb h there in
      let again = (replace_timer-Keeps t id cb (record cb { starttime = cur }) h there).0 in
      either-IsHeld cb.timer_periodic (is_no_err s) (delete_timer t id cb)
        (insert_timer (delete_timer t id cb) id (record cb { starttime = cur })) gone again

  serve_loop-SafeEnd :
      (ids : List ℕ) (t : Timer) (cur : Time)
      → IsHeld t
      → SafeEnd (serve_loop settime expired fuel callback ids t cur)
  unfolding serve_loop
  serve_loop-SafeEnd [] t cur h = h
  serve_loop-SafeEnd (zero ∷ ids) t cur h = transfer t (record t { dtimers = ids }) refl refl h
  serve_loop-SafeEnd (suc n ∷ ids) t cur h = elim (Option-cases (search_id t (suc n))) [
    | inl e ↦ rw (serve_loop, e) tt
    | inr (cb, e) ↦
        elim (Option-cases (run_timer_cb settime expired fuel callback t no_err (suc n) cb)) [
          | inl f ↦ rw (serve_loop, e, f) tt
          | inr (r, f) ↦
              let (held, (now, there)) = run_timer_cb-Alive t no_err (suc n) cb r h e f in
              rw (serve_loop, e, f, there)
                (serve_loop-SafeEnd ids
                  (after_run settime expired fuel callback r.0 (suc n) now r.1 cur) cur
                  (after_run-IsHeld r.0 (suc n) now r.1 cur held there))
        ]
  ]

  finish_serve-Safe :
      (e : LoopEnd) → SafeEnd e → SafeServed (finish_serve settime expired fuel callback e)
  unfolding finish_serve
  finish_serve-Safe (ended t) h = (restart_timer-Keeps settime expired fuel t t (h, refl, λ a. a)).0
  finish_serve-Safe forever h = tt
  finish_serve-Safe dangling h = h

  pub ytimer_serve-SafeServed :
      (t : Timer) (cur : Time)
      → IsHeld t
      → SafeServed (ytimer_serve settime expired fuel callback t cur)
  unfolding ytimer_serve
  ytimer_serve-SafeServed t cur h = elim (Bool-cases (t.timerfd == 0)) [
    | inl e ↦ rw (ytimer_serve, e) h
    | inr e ↦ elim (Bool-cases (length t.timers == 0)) [
      | inl f ↦ rw (ytimer_serve, e, f) h
      | inr f ↦
          let ids = t.dtimers ++ collect settime expired fuel callback t.timers t cur in
          let start = record t { dtimers = [] } in
          rw (ytimer_serve, e, f)
            (finish_serve-Safe (serve_loop settime expired fuel callback ids start cur)
              (serve_loop-SafeEnd ids start cur (transfer t start refl refl h)))
    ]
  ]
