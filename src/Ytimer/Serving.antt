-- ===== src/Ytimer/Serving.antt =====
-- ydb/ytimer.c: what ytimer_serve does to each timer, where the callbacks call nothing.
pub mod Expired
use mathlib.Core.Option.{some-injective}
use libydb.Prelude.{
  ℕ, zero, suc, ◌==◌, leb, not, ◌||◌, ◌≡◌, refl, sym, ap, ◌∙◌, subst, Bool, Bool-cases, true, false,
  if◌then◌else◌, ℤ, pos, negsuc, Option, none, some, ◌>>=◌, Option-cases, List, [], ◌∷◌, ◌++◌,
  length, All, inl, inr, arith,
}
use libydb.Keyed.{same, same_comm, same_refl, eq_of_same}
use libydb.Ytimer.Order.{Due, id_ord}
use libydb.Ytimer.{
  Time, Status, no_err, aborted, TimerCb, Timer, search_id, insert_timer, delete_timer,
}
use libydb.Ytimer.Held.{
  IsHeld, same_id, search_id-insert_timer, search_id-delete_timer, delete_timer-IsHeld,
}
use libydb.Ytimer.Serve.{TimerCall, LoopEnd, ended, is_no_err, run_timer_cb, after_run, serve_loop}
use libydb.Ytimer.Keeps.{Alive, transfer}
use libydb.Ytimer.Safe.{after_run-IsHeld}

abbrev pub is_among : ℕ → List ℕ → Bool
is_among p [] = false
is_among p (id ∷ ids) = same_id p id || is_among p ids

abbrev pub IsDistinct : List ℕ → Type 0
IsDistinct [] = Unit
IsDistinct (id ∷ ids) = (is_among id ids ≡ false) × IsDistinct ids

-- What becomes of a timer by the status of its callback: one that repeats starts again at the time.
abbrev pub settled : Status → Time → TimerCb → Option TimerCb
settled s cur cb =
    if not cb.timer_periodic
    then none
    else if not (is_no_err s)
    then none
    else some (record cb { starttime = cur })

zero_differs : (n : ℕ) → same_id 0 (suc n) ≡ false
zero_differs n = ground arith

or_false : (a b : Bool) → (a || b) ≡ false → (a ≡ false) × (b ≡ false)
or_false false b h = (refl, h)
or_false true b h = cc

search_id-either :
    (b c : Bool) (x y : Timer) (p : ℕ) (gone again : Option TimerCb)
    → search_id x p ≡ gone
    → search_id y p ≡ again
    → search_id (if not b then x else if not c then x else y) p
      ≡ (if not b then gone else if not c then gone else again)
search_id-either false c x y p g a e f = e
search_id-either true false x y p g a e f = e
search_id-either true true x y p g a e f = f

if_if :
    (b c s : Bool) (x : Option TimerCb) (y : Option TimerCb)
    → (if not b
        then (if s then none else y)
        else if not c
        then (if s then none else y)
        else if s
        then x
        else y)
      ≡ (if s then (if not b then none else if not c then none else x) else y)
if_if false c s x y = refl
if_if true false s x y = refl
if_if true true s x y = refl

module _ (settime : Option Due → Bool) (expired : TimerCb → Time → Bool) (fuel : ℕ)
    (callback : Timer → ℕ → TimerCb → Status → List TimerCall × Status)
    (status : ℕ → TimerCb → Status)
    (quiet : (t : Timer) (id : ℕ) (cb : TimerCb) (s : Status)
      → callback t id cb s ≡ ([], status id cb)) where
  search_id-after_run :
      (t : Timer) (id : ℕ) (cb : TimerCb) (s : Status) (cur : Time) (p : ℕ)
      → IsHeld t
      → search_id t id ≡ some cb
      → search_id (after_run settime expired fuel callback t id cb s cur) p
        ≡ (if same_id p id then settled s cur cb else search_id t p)
  unfolding after_run
  search_id-after_run t id cb s cur p h there =
      let rest = delete_timer t id cb in
      let new : TimerCb = record cb { starttime = cur } in
      let gone = search_id-delete_timer t id cb p h in
      let again : search_id (insert_timer rest id new) p
          ≡ (if same_id p id then some new else search_id t p) =
        search_id-insert_timer rest id new p ∙ elim (Bool-cases (same_id p id)) [
          | inl e ↦ rw e refl
          | inr e ↦ rw e (gone ∙ rw e refl)
        ] in
      search_id-either cb.timer_periodic (is_no_err s) rest (insert_timer rest id new) p
        (if same_id p id then none else search_id t p)
        (if same_id p id then some new else search_id t p) gone again
      ∙ if_if cb.timer_periodic (is_no_err s) (same_id p id) (some new) (search_id t p)

  -- The status that run_timer_cb returns
  abbrev pub ran : ℕ → TimerCb → Status
  ran id cb = if leb (length cb.user) 5 then status id cb else aborted

  run_timer_cb-quiet :
      (t : Timer) (s : Status) (id : ℕ) (cb : TimerCb)
      → run_timer_cb settime expired fuel callback t s id cb
        ≡ some (record t { cur_id = 0 }, ran id cb)
  unfolding run_timer_cb
  run_timer_cb-quiet t s id cb = elim (Bool-cases (leb (length cb.user) 5)) [
    | inl e ↦ rw (run_timer_cb, e, quiet t id cb s) refl
    | inr e ↦ rw (run_timer_cb, e) refl
  ]

  -- A timer after the loop: settled if it was among the numbers, and unchanged if not.
  abbrev pub served : List ℕ → Time → Timer → ℕ → Option TimerCb
  served ids cur t p =
      if is_among p ids then search_id t p >>= (λ cb. settled (ran p cb) cur cb) else search_id t p

  abbrev pub AreAlive : List ℕ → Timer → Type 0
  AreAlive ids t = All (λ id. Alive id t) ids

  distinct_from :
      (id : ℕ) (ids : List ℕ) (t u : Timer)
      → is_among id ids ≡ false
      → ((p : ℕ) → same_id p id ≡ false → search_id u p ≡ search_id t p)
      → AreAlive ids t
      → AreAlive ids u
  distinct_from id [] t u d h a = tt
  distinct_from id (j ∷ ids) t u d h ((cb, there), a) =
      let (x, y) = or_false (same_id id j) (is_among id ids) d in
      ((cb, h j (same_comm ⦃o = id_ord⦄ id j x) ∙ there), distinct_from id ids t u y h a)

  pub serve_loop-served :
      (ids : List ℕ) (t : Timer) (cur : Time)
      → IsHeld t
      → search_id t 0 ≡ none
      → IsDistinct ids
      → AreAlive ids t
      → (u : Timer) × (serve_loop settime expired fuel callback ids t cur ≡ ended u)
        × IsHeld u
        × ((p : ℕ) → search_id u p ≡ served ids cur t p)
  unfolding serve_loop
  serve_loop-served [] t cur h z d a = (t, refl, h, λ p. refl)
  serve_loop-served (zero ∷ ids) t cur h z d ((cb, there), a) =
      let no : none ≡ some cb = sym z ∙ there in cc
  serve_loop-served (suc n ∷ ids) t cur h z (fresh, d) ((cb, there), a) =
      let id = suc n in
      let v = record t { cur_id = 0 } in
      let v_held : IsHeld v = transfer t v refl refl h in
      let w = after_run settime expired fuel callback v id cb (ran id cb) cur in
      let w_held : IsHeld w =
        after_run-IsHeld settime expired fuel callback v id cb (ran id cb) cur v_held there in
      let w_reads = λ (p : ℕ). search_id-after_run v id cb (ran id cb) cur p v_held there in
      let others = λ (p : ℕ) (e : same_id p id ≡ false). w_reads p ∙ rw e refl in
      let (u, done, held, reads) =
        serve_loop-served ids w cur w_held (others 0 (zero_differs n) ∙ z) d
          (distinct_from id ids t w fresh others a) in
      (
        u,
        rw (serve_loop, there, run_timer_cb-quiet t no_err id cb, there) done,
        held,
        λ p. reads p ∙ elim (Bool-cases (same_id p id)) [
          | inl e ↦
              let at_id : served ids cur w id ≡ served (id ∷ ids) cur t id =
                rw (fresh, same_refl ⦃o = id_ord⦄ id, there)
                  (w_reads id ∙ rw (same_refl ⦃o = id_ord⦄ id) refl) in
              subst (λ q. served ids cur w q ≡ served (id ∷ ids) cur t q)
                (sym (eq_of_same ⦃o = id_ord⦄ p id e)) at_id
          | inr e ↦ rw (e, others p e) refl
        ],
      )
