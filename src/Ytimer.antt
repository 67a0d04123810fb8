-- ===== src/Ytimer.antt =====
-- ydb/ytimer.c: timers in two trees, by their end and by their number. A pointer to a timer is its
-- number; the trees are the dictionaries that ydb/ytree.c implements.
pub mod Order
pub mod Held
pub mod Serve
pub mod Keeps
pub mod Safe
pub mod Fresh
pub mod Client
pub mod Serving
mod Tests
use Prim.Native.Nat.{Ordering, compare}
use Prim.Native.Nat.Ordering.{lt, eq, gt}
use libydb.Prelude.{
  ℕ, zero, suc, ◌+◌, ◌-◌, ◌*◌, ◌/◌, ◌%◌, ◌^◌, ◌==◌, ltb, leb, not, ◌||◌, Bool, true, false,
  if◌then◌else◌, ℤ, pos, negsuc, Option, none, some, ◌>>=◌, List, [], ◌∷◌, ◌++◌, length,
}
use libydb.Dict.{Entry, find, insert, erase}
use libydb.Ytimer.Order.{Due, due_ord, id_ord}

-- struct timespec
pub record Time : Type 0 where
  pub tv_sec : ℕ
  pub tv_nsec : ℕ

pub data Status : Type 0 where
  no_err completed aborted : Status

-- `struct _ytimer_cb`, without its number; a function and its arguments are addresses.
pub record TimerCb : Type 0 where
  pub timer_periodic : Bool
  pub timer_func : ℕ
  pub starttime : Time
  pub duration_ms : ℕ
  pub user : List ℕ

pub record Timer : Type 0 where
  pub timers : List (Entry Due ℕ)
  pub timer_ids : List (Entry ℕ TimerCb)
  pub dtimers : List ℕ
  pub timerfd : ℕ
  pub cur_id : ℕ
  pub next_id : ℕ

-- What timer_cb_cmp reads of a timer: the second and the nanosecond of its end, and its number.
unfoldable pub due : ℕ → TimerCb → Due
due id cb =
    let n = cb.starttime.tv_nsec + cb.duration_ms % 1000 * 1000000 in
    let t = cb.starttime.tv_sec + cb.duration_ms / 1000 in
    if leb 1000000000 n
    then record { sec = suc t; nsec = n - 1000000000; timer_id = id }
    else record { sec = t; nsec = n; timer_id = id }

abbrev pub data_of_id : Option (Entry ℕ TimerCb) → Option TimerCb
data_of_id none = none
data_of_id (some e) = e.1

-- ytree_search(timer->timer_ids, …)
unfoldable pub search_id : Timer → ℕ → Option TimerCb
search_id t id = data_of_id (find ⦃o = id_ord⦄ id t.timer_ids)

-- ytree_insert into both trees, and ytree_delete from both
unfoldable pub insert_timer : Timer → ℕ → TimerCb → Timer
unfolding due
insert_timer t id cb = record t {
  timers = insert ⦃o = due_ord⦄ (due id cb) (some id) t.timers;
  timer_ids = insert ⦃o = id_ord⦄ id (some cb) t.timer_ids;
}

unfoldable pub delete_timer : Timer → ℕ → TimerCb → Timer
unfolding due
delete_timer t id cb = record t {
  timers = erase ⦃o = due_ord⦄ (due id cb) t.timers;
  timer_ids = erase ⦃o = id_ord⦄ id t.timer_ids;
}

-- The next number that no timer has, with next_id after it. It takes fuel.
unfoldable pub fresh_id : ℕ → Timer → ℕ → Option (ℕ × ℕ)
unfolding search_id
fresh_id zero t next = none
fresh_id (suc n) t next =
    let next_id = suc next % 2 ^ 32 in
    let id = next_id % 100000 + 1 in
    elim (search_id t id) [ none ↦ some (next_id, id) | some cb ↦ fresh_id n t next_id ]

-- The loop of ytimer_set over the user's arguments, from 1 on
abbrev pub but_last : List ℕ → List ℕ
but_last [] = []
but_last (a ∷ []) = []
but_last (a ∷ b ∷ more) = a ∷ but_last (b ∷ more)

abbrev pub from_second : List ℕ → List ℕ
from_second [] = []
from_second (a ∷ more) = 0 ∷ but_last (a ∷ more)

abbrev pub first_due : List (Entry Due ℕ) → Option Due
first_due [] = none
first_due (e ∷ es) = some e.0

-- `settime` stands for timerfd_settime, for the first timer or none; `expired` for the arithmetic of
-- get_timer_remained on doubles (`remained <= 0.0`) at a time.
module _ (settime : Option Due → Bool) (expired : TimerCb → Time → Bool) (fuel : ℕ) where
  unfoldable pub restart_timer : Timer → Timer × ℤ
  restart_timer t =
      if settime (first_due t.timers) then (t, pos 0) else (record t { timerfd = 0 }, negsuc 0)

  -- The number of the new timer, or 0
  unfoldable pub set_result : ℕ → Timer × ℤ → Timer × ℕ
  set_result id (t, pos n) = (t, id)
  set_result id (t, negsuc n) = (t, 0)

  unfoldable pub start_timer : Timer → TimerCb → ℕ × ℕ → Timer × ℕ
  unfolding insert_timer restart_timer set_result
  start_timer t cb fresh =
      set_result fresh.1 (restart_timer (insert_timer (record t { next_id = fresh.0 }) fresh.1 cb))

  -- _ytimer_set_msec, with the time of the clock. A function at 0 is NULL.
  unfoldable pub ytimer_set_msec : Timer → ℕ → Bool → ℕ → List ℕ → Time → Option (Timer × ℕ)
  unfolding fresh_id start_timer
  ytimer_set_msec t msec is_periodic timer_fn user now =
      if t.timerfd == 0
      then some (t, 0)
      else if timer_fn == 0
      then some (t, 0)
      else if ltb 5 (length user)
      then some (t, 0)
      else (fresh_id fuel t t.next_id >>= λ fresh. some (
          start_timer t
            (record {
              timer_periodic = is_periodic;
              timer_func = timer_fn;
              starttime = now;
              duration_ms = msec;
              user = user;
            })
            fresh))

  unfoldable pub ytimer_restart_msec : Timer → ℕ → ℕ → Time → Timer × ℤ
  unfolding search_id insert_timer delete_timer restart_timer
  ytimer_restart_msec t id msec now =
      if t.timerfd == 0 then (t, negsuc 0) else elim (search_id t id) [
        | none ↦ (t, negsuc 0)
        | some cb ↦ restart_timer (
            insert_timer (delete_timer t id cb) id
              (record cb { duration_ms = msec; starttime = now }))
      ]

  unfoldable pub ytimer_delete : Timer → ℕ → Timer × ℤ
  unfolding search_id delete_timer restart_timer
  ytimer_delete t id =
      if t.timerfd == 0
      then (t, negsuc 0)
      else if t.cur_id == id
      then (t, negsuc 0)
      else elim (search_id t id) [
        | none ↦ (t, negsuc 0)
        | some cb ↦ restart_timer (delete_timer t id cb)
      ]

  -- Seconds come as an unsigned int, and so do the milliseconds.
  unfoldable pub ytimer_restart : Timer → ℕ → ℕ → Time → Timer × ℤ
  unfolding ytimer_restart_msec
  ytimer_restart t id seconds now = ytimer_restart_msec t id (seconds * 1000 % 2 ^ 32) now

  -- ytimer_set leaves the first of the user's arguments at 0, and takes the others from the first on.
  unfoldable pub ytimer_set : Timer → ℕ → Bool → ℕ → List ℕ → Time → Option (Timer × ℕ)
  unfolding ytimer_set_msec
  ytimer_set t seconds is_periodic timer_fn user now =
      ytimer_set_msec t (seconds * 1000 % 2 ^ 32) is_periodic timer_fn (from_second user) now

unfoldable pub ytimer_fd : Timer → ℕ
ytimer_fd t = t.timerfd
