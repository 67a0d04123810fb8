-- ===== src/Ytimer/Serve.antt =====
-- ydb/ytimer.c: the callbacks of timers, and ytimer_serve, ytimer_create and ytimer_destroy.
use libydb.Prelude.{
  ℕ, zero, ◌==◌, leb, not, Bool, true, false, if◌then◌else◌, ℤ, pos, negsuc, Option, none, some,
  ◌>>=◌, List, [], ◌∷◌, ◌++◌, length,
}
use libydb.Dict.{Entry}
use libydb.Ytimer.Order.{Due}
use libydb.Ytimer.{
  Time, Status, no_err, completed, aborted, TimerCb, Timer, search_id, insert_timer, delete_timer,
  restart_timer, ytimer_set_msec, ytimer_restart_msec, ytimer_delete,
}

-- ytimer_create, with the descriptor that timerfd_create returned
unfoldable pub ytimer_create : ℕ → Timer
ytimer_create fd = record {
  timers = [];
  timer_ids = [];
  dtimers = [];
  timerfd = fd;
  cur_id = 0;
  next_id = 0;
}

-- What a callback may call, with the times of the clock
pub data TimerCall : Type 0 where
  call_set : ℕ → Bool → ℕ → List ℕ → Time → TimerCall
  call_restart : ℕ → ℕ → Time → TimerCall
  call_delete : ℕ → TimerCall

-- The loop of ytimer_serve ends; or it meets a timer that is gone and goes round for ever; or it uses a
-- timer that has been freed.
pub data LoopEnd : Type 0 where
  ended : Timer → LoopEnd
  forever dangling : LoopEnd

pub data Served : Type 0 where
  returns : Timer → ℤ → Served
  never dangles : Served

abbrev pub is_no_err : Status → Bool
is_no_err no_err = true
is_no_err completed = false
is_no_err aborted = false

-- `callback` stands for the functions of the timers: what each calls, and its status.
module _ (settime : Option Due → Bool) (expired : TimerCb → Time → Bool) (fuel : ℕ)
    (callback : Timer → ℕ → TimerCb → Status → List TimerCall × Status) where
  unfoldable pub run_call : Timer → TimerCall → Option Timer
  unfolding ytimer_set_msec ytimer_restart_msec ytimer_delete
  run_call t (call_set msec periodic fn user now) =
      ytimer_set_msec settime expired fuel t msec periodic fn user now >>= λ r. some r.0
  run_call t (call_restart id msec now) =
      some (ytimer_restart_msec settime expired fuel t id msec now).0
  run_call t (call_delete id) = some (ytimer_delete settime expired fuel t id).0

  unfoldable pub run_calls : Timer → List TimerCall → Option Timer
  unfolding run_call
  run_calls t [] = some t
  run_calls t (c ∷ cs) = run_call t c >>= λ u. run_calls u cs

  -- run_timer_cb; functions take at most five arguments.
  unfoldable pub run_timer_cb : Timer → Status → ℕ → TimerCb → Option (Timer × Status)
  unfolding run_calls
  run_timer_cb t cur_status id cb =
      let r = if leb (length cb.user) 5 then callback t id cb cur_status else ([], aborted) in
      run_calls (record t { cur_id = id }) r.0 >>= λ u. some (record u { cur_id = 0 }, r.1)

  -- The first loop of ytimer_serve: the numbers of the timers that have expired
  unfoldable pub collect : List (Entry Due ℕ) → Timer → Time → List ℕ
  unfolding search_id
  collect [] t cur = []
  collect ((k, none) ∷ es) t cur = []
  collect ((k, some id) ∷ es) t cur = elim (search_id t id) [
    | none ↦ []
    | some cb ↦ if expired cb cur then id ∷ collect es t cur else []
  ]

  -- What becomes of a timer after its callback
  unfoldable pub after_run : Timer → ℕ → TimerCb → Status → Time → Timer
  unfolding delete_timer insert_timer
  after_run t id cb status cur =
      if not cb.timer_periodic
      then delete_timer t id cb
      else if not (is_no_err status)
      then delete_timer t id cb
      else insert_timer (delete_timer t id cb) id (record cb { starttime = cur })

  -- The second loop. The timer is read anew after its callback, which may have restarted it.
  unfoldable pub serve_loop : List ℕ → Timer → Time → LoopEnd
  unfolding search_id run_timer_cb after_run
  serve_loop [] t cur = ended t
  serve_loop (zero ∷ ids) t cur = ended (record t { dtimers = ids })
  serve_loop (id ∷ ids) t cur = elim (search_id t id) [
    | none ↦ forever
    | some cb ↦ elim (run_timer_cb t no_err id cb) [
      | none ↦ forever
      | some r ↦ elim (search_id r.0 id) [
        | none ↦ dangling
        | some now ↦ serve_loop ids (after_run r.0 id now r.1 cur) cur
      ]
    ]
  ]

  unfoldable pub finish_serve : LoopEnd → Served
  unfolding restart_timer
  finish_serve (ended t) = let r = restart_timer settime expired fuel t in returns r.0 r.1
  finish_serve forever = never
  finish_serve dangling = dangles

  unfoldable pub ytimer_serve : Timer → Time → Served
  unfolding collect serve_loop finish_serve
  ytimer_serve t cur =
      if t.timerfd == 0
      then returns t (negsuc 0)
      else if length t.timers == 0
      then returns t (pos 0)
      else finish_serve
          (serve_loop (t.dtimers ++ collect t.timers t cur) (record t { dtimers = [] }) cur)

  -- ytimer_destroy: the callbacks run with YTIMER_ABORTED in the order of the ends, with the descriptor
  -- closed, so that what they call changes no timer.
  unfoldable pub abort_timers : List (Entry Due ℕ) → Timer → Option Timer
  unfolding search_id run_timer_cb
  abort_timers [] t = some t
  abort_timers ((k, none) ∷ es) t = none
  abort_timers ((k, some id) ∷ es) t = do
    cb ← search_id t id
    r ← run_timer_cb t aborted id cb
    abort_timers es r.0

  unfoldable pub ytimer_destroy : Timer → Option Timer
  unfolding abort_timers
  ytimer_destroy t = let closed = record t { timerfd = 0 } in abort_timers closed.timers closed
