-- ===== src/Ytimer/Serving/Expired.antt =====
-- ydb/ytimer.c: the timers that ytimer_serve finds expired, and what it does to all timers.
use Prim.Native.Nat.Ordering.{lt, eq}
use mathlib.Core.Option.{some-injective}
use libydb.Prelude.{
  ℕ, ◌==◌, ◌≡◌, refl, sym, ap, ◌∙◌, subst, Bool, Bool-cases, true, false, if◌then◌else◌, ℤ, pos,
  Option, none, some, ◌>>=◌, Option-cases, List, [], ◌∷◌, ◌++◌, length, All, All-imp, All-and, inl,
  inr, arith,
}
use libydb.Order.{Ord}
use libydb.Keyed.{same, same_refl, eq_of_same}
use libydb.Dict.{Entry, find, Above, IsSorted}
use libydb.Ytimer.Order.{Due, due_ord, id_ord, timer_cb_cmp}
use libydb.Ytimer.{Time, Status, TimerCb, Timer, due, first_due, search_id, restart_timer}
use libydb.Ytimer.Held.{IsHeld, same_id, timer_id-due}
use libydb.Ytimer.Serve.{TimerCall, collect, serve_loop, finish_serve, returns, ytimer_serve}
use libydb.Ytimer.Keeps.{Alive, transfer, restart_timer-Keeps}
use libydb.Ytimer.Serving.{is_among, IsDistinct, settled, ran, served, serve_loop-served}

module _ {ℓ κ} {K : Type ℓ} {D : Type κ} ⦃o : Ord K⦄ where
  find-tail :
      (q k : K) (y : Option D) (es : List (Entry K D))
      → o.cmp k q ≡ lt
      → find q ((k, y) ∷ es) ≡ find q es
  unfolding find
  find-tail q k y es h = ground (arith, o.gt_of_lt k q h)

  find-all : (es : List (Entry K D)) → IsSorted es → All (λ e. find e.0 es ≡ some e) es
  unfolding find
  find-all [] s = tt
  find-all ((k, y) ∷ es) s = (
    ground (arith, o.cmp_refl k),
    All-imp (λ e h. find-tail e.0 k y es h.0 ∙ h.1) es
        (All-and (λ e. o.cmp k e.0 ≡ lt) (λ e. find e.0 es ≡ some e) es s.0 (find-all es s.1)),
  )

  find-empty : (q : K) (es : List (Entry K D)) → (length es == 0) ≡ true → find q es ≡ none
  unfolding find
  find-empty q [] h = refl
  find-empty q (e ∷ es) h = ground (arith, h)

  find-rest :
      (q k : K) (y : Option D) (es : List (Entry K D)) (e : Entry K D)
      → same q k ≡ false
      → find q ((k, y) ∷ es) ≡ some e
      → find q es ≡ some e
  unfolding find
  find-rest q k y es e h f = ground (arith, h, f)

  -- What is found behind a key is greater.
  find-after :
      (q k : K) (e : Entry K D) (es : List (Entry K D))
      → Above k es
      → find q es ≡ some e
      → o.cmp k q ≡ lt
  unfolding find
  find-after q k e [] a h = cc
  find-after q k e ((j, z) ∷ es) a h = ground (arith, find-after q k e es a.1, o.eq_of_cmp q j, a.0)

-- An entry of the tree of ends that stands for a timer
abbrev Stands : Timer → Entry Due ℕ → Type 0
Stands t e =
    (e.1 ≡ some e.0.timer_id)
    × ((cb : TimerCb) × (search_id t e.0.timer_id ≡ some cb) × (due e.0.timer_id cb ≡ e.0))

-- A timer whose end comes before another entry has another number.
id-differs :
    (t : Timer) (id : ℕ) (cb : TimerCb) (k : Due) (c : TimerCb)
    → search_id t id ≡ some cb
    → search_id t k.timer_id ≡ some c
    → due k.timer_id c ≡ k
    → timer_cb_cmp (due id cb) k ≡ lt
    → same_id id k.timer_id ≡ false
id-differs t id cb k c there held ends before = elim (Bool-cases (same_id id k.timer_id)) [
  | inl e ↦
      let number : id ≡ k.timer_id = eq_of_same ⦃o = id_ord⦄ id k.timer_id e in
      let timer : cb ≡ c = some-injective cb c (sym there ∙ ap (search_id t) number ∙ held) in
      let key : due id cb ≡ k = ap (λ q. due q cb) number ∙ ap (due k.timer_id) timer ∙ ends in
      let no : eq ≡ lt = sym (due_ord.cmp_refl k) ∙ subst (λ d. timer_cb_cmp d k ≡ lt) key before in
      cc
  | inr e ↦ e
]

due-differs :
    (id : ℕ) (cb : TimerCb) (k : Due)
    → same_id id k.timer_id ≡ false
    → same ⦃o = due_ord⦄ (due id cb) k ≡ false
due-differs id cb k h = elim (Bool-cases (same ⦃o = due_ord⦄ (due id cb) k)) [
  | inl e ↦
      let number : id ≡ k.timer_id =
        sym (timer_id-due id cb)
        ∙ ap (λ d. d.timer_id) (eq_of_same ⦃o = due_ord⦄ (due id cb) k e) in
      let no : false ≡ true =
        sym h ∙ subst (λ q. same_id id q ≡ true) number (same_refl ⦃o = id_ord⦄ id) in
      cc
  | inr e ↦ e
]

timers-Stand : (t : Timer) → IsHeld t → All (Stands t) t.timers
timers-Stand t h =
    All-imp
      (λ e found.
        let (cb, there, ends) = h.known e.0 e found in
        let listed : find ⦃o = due_ord⦄ e.0 t.timers ≡ some (e.0, some e.0.timer_id) =
          subst (λ d. find ⦃o = due_ord⦄ d t.timers ≡ some (d, some e.0.timer_id)) ends
            (h.listed e.0.timer_id cb there) in
        let entry : e ≡ (e.0, some e.0.timer_id) =
          some-injective e (e.0, some e.0.timer_id) (sym found ∙ listed) in
        (ap (λ d. d.1) entry, (cb, there, ends)))
      t.timers (find-all ⦃o = due_ord⦄ t.timers h.dues_sorted)

module _ (settime : Option Due → Bool) (expired : TimerCb → Time → Bool) (fuel : ℕ)
    (callback : Timer → ℕ → TimerCb → Status → List TimerCall × Status) where
  collect-AreAlive :
      (es : List (Entry Due ℕ)) (t : Timer) (cur : Time)
      → All (λ id. Alive id t) (collect settime expired fuel callback es t cur)
  unfolding collect
  collect-AreAlive [] t cur = tt
  collect-AreAlive ((k, none) ∷ es) t cur = tt
  collect-AreAlive ((k, some id) ∷ es) t cur = elim (Option-cases (search_id t id)) [
    | inl e ↦ rw (collect, e) tt
    | inr (cb, e) ↦ elim (Bool-cases (expired cb cur)) [
      | inl f ↦ rw (collect, e, f) ((cb, e), collect-AreAlive es t cur)
      | inr f ↦ rw (collect, e, f) tt
    ]
  ]

  collect-step :
      (k : Due) (y : Option ℕ) (es : List (Entry Due ℕ)) (t : Timer) (cur : Time) (cb : TimerCb)
      → y ≡ some k.timer_id
      → search_id t k.timer_id ≡ some cb
      → collect settime expired fuel callback ((k, y) ∷ es) t cur ≡ (
          if expired cb cur
          then k.timer_id ∷ collect settime expired fuel callback es t cur
          else [])
  unfolding collect
  collect-step k y es t cur cb e there =
      ap (λ z. collect settime expired fuel callback ((k, z) ∷ es) t cur) e
      ∙ rw (collect, there) refl

  collect-lacks :
      (es : List (Entry Due ℕ)) (t : Timer) (cur : Time) (id : ℕ) (cb : TimerCb)
      → All (Stands t) es
      → search_id t id ≡ some cb
      → Above ⦃o = due_ord⦄ (due id cb) es
      → is_among id (collect settime expired fuel callback es t cur) ≡ false
  unfolding collect
  collect-lacks [] t cur id cb p there a = refl
  collect-lacks ((k, y) ∷ es) t cur id cb ((stored, (c, held, ends)), p) there a =
      let rest = collect-lacks es t cur id cb p there a.1 in
      let other = id-differs t id cb k c there held ends a.0 in
      ap (is_among id) (collect-step k y es t cur c stored held)
      ∙ elim (Bool-cases (expired c cur)) [ inl e ↦ rw (e, other) rest | inr e ↦ rw e refl ]

  collect-IsDistinct :
      (es : List (Entry Due ℕ)) (t : Timer) (cur : Time)
      → All (Stands t) es
      → IsSorted ⦃o = due_ord⦄ es
      → IsDistinct (collect settime expired fuel callback es t cur)
  unfolding collect
  collect-IsDistinct [] t cur p s = tt
  collect-IsDistinct ((k, y) ∷ es) t cur ((stored, (c, held, ends)), p) s =
      let rest = collect-IsDistinct es t cur p s.1 in
      let lacks =
        collect-lacks es t cur k.timer_id c p held
          (subst (λ d. Above ⦃o = due_ord⦄ d es) (sym ends) s.0) in
      subst IsDistinct (sym (collect-step k y es t cur c stored held))
        (elim (Bool-cases (expired c cur)) [ inl e ↦ rw e (lacks, rest) | inr e ↦ rw e tt ])

  -- Where a timer that ends earlier has expired if a later one has, a timer is collected if and only if
  -- it has expired.
  collect-expired :
      (cur : Time)
      → ((i j : ℕ) (a b : TimerCb)
          → timer_cb_cmp (due i a) (due j b) ≡ lt
          → expired b cur ≡ true
          → expired a cur ≡ true)
      → (es : List (Entry Due ℕ)) (t : Timer) (id : ℕ) (cb : TimerCb) (entry : Entry Due ℕ)
      → All (Stands t) es
      → IsSorted ⦃o = due_ord⦄ es
      → search_id t id ≡ some cb
      → find ⦃o = due_ord⦄ (due id cb) es ≡ some entry
      → is_among id (collect settime expired fuel callback es t cur) ≡ expired cb cur
  unfolding collect find
  collect-expired cur orderly [] t id cb entry p s there found = cc
  collect-expired cur orderly ((k, y) ∷ es) t id cb entry ((stored, (c, held, ends)), p) s there
        found =
      ap (is_among id) (collect-step k y es t cur c stored held)
      ∙ elim (Bool-cases (same_id id k.timer_id)) [
        | inl e ↦
            let timer : cb ≡ c =
              some-injective cb c
                (sym there ∙ ap (search_id t) (eq_of_same ⦃o = id_ord⦄ id k.timer_id e) ∙ held) in
            let alike : expired c cur ≡ expired cb cur = ap (λ v. expired v cur) (sym timer) in
            elim (Bool-cases (expired c cur)) [
              | inl f ↦ rw (f, e) (sym f ∙ alike)
              | inr f ↦ rw f (sym f ∙ alike)
            ]
        | inr e ↦
            let behind : find ⦃o = due_ord⦄ (due id cb) es ≡ some entry =
              find-rest ⦃o = due_ord⦄ (due id cb) k y es entry (due-differs id cb k e) found in
            let later : timer_cb_cmp (due k.timer_id c) (due id cb) ≡ lt =
              subst (λ d. timer_cb_cmp d (due id cb) ≡ lt) (sym ends)
                (find-after ⦃o = due_ord⦄ (due id cb) k entry es s.0 behind) in
            let rest = collect-expired cur orderly es t id cb entry p s.1 there behind in
            elim (Bool-cases (expired c cur)) [
              | inl f ↦ rw (f, e) rest
              | inr f ↦ elim (Bool-cases (expired cb cur)) [
                | inl g ↦ let no : false ≡ true = sym f ∙ orderly k.timer_id id c cb later g in cc
                | inr g ↦ rw f (sym g)
              ]
            ]
      ]

module _ (settime : Option Due → Bool) (expired : TimerCb → Time → Bool) (fuel : ℕ)
    (callback : Timer → ℕ → TimerCb → Status → List TimerCall × Status)
    (status : ℕ → TimerCb → Status)
    (quiet : (t : Timer) (id : ℕ) (cb : TimerCb) (s : Status)
      → callback t id cb s ≡ ([], status id cb)) where
  -- What ytimer_serve makes of one timer
  abbrev pub serves : Time → ℕ → TimerCb → Option TimerCb
  serves cur id cb =
      if expired cb cur
      then settled (ran settime expired fuel callback status quiet id cb) cur cb
      else some cb

  served-serves :
      (t : Timer) (cur : Time)
      → ((i j : ℕ) (a b : TimerCb)
          → timer_cb_cmp (due i a) (due j b) ≡ lt
          → expired b cur ≡ true
          → expired a cur ≡ true)
      → IsHeld t
      → (p : ℕ)
      → served settime expired fuel callback status quiet
          (collect settime expired fuel callback t.timers t cur)
          cur
          t
          p
        ≡ (search_id t p >>= λ cb. serves cur p cb)
  served-serves t cur orderly h p = elim (Option-cases (search_id t p)) [
    | inl e ↦
        elim (Bool-cases (is_among p (collect settime expired fuel callback t.timers t cur))) [
          | inl f ↦ rw (e, f) refl
          | inr f ↦ rw (e, f) refl
        ]
    | inr (cb, e) ↦
        let all = timers-Stand t h in
        let among =
          collect-expired settime expired fuel callback cur orderly t.timers t p cb
            (due p cb, some p) all h.dues_sorted e (h.listed p cb e) in
        rw (e, among) refl
  ]

  search_id-restart_timer :
      (t : Timer) (p : ℕ) → search_id (restart_timer settime expired fuel t).0 p ≡ search_id t p
  unfolding restart_timer search_id
  search_id-restart_timer t p = elim (Bool-cases (settime (first_due t.timers))) [
    | inl e ↦ rw (restart_timer, e) refl
    | inr e ↦ rw (restart_timer, e) refl
  ]

  nothing_held :
      (t : Timer) (f : ℕ → TimerCb → Option TimerCb)
      → IsHeld t
      → (length t.timers == 0) ≡ true
      → (p : ℕ) → search_id t p ≡ (search_id t p >>= λ cb. f p cb)
  nothing_held t f h e p = elim (Option-cases (search_id t p)) [
    | inl g ↦ rw g refl
    | inr (cb, g) ↦
        let no : ◌≡◌ {A = Option (Entry Due ℕ)} none (some (due p cb, some p)) =
          sym (find-empty ⦃o = due_ord⦄ (due p cb) t.timers e) ∙ h.listed p cb g in
        cc
  ]

  -- Where the callbacks call nothing, and a timer that ends earlier has expired if a later one has,
  -- ytimer_serve returns. Every timer that has expired then starts again at the time, if it repeats and
  -- its callback returned no error, and is gone if not; every other timer is as it was. The timers are
  -- in both trees, none has the number 0, and no number is left from a run before.
  pub ytimer_serve-serves :
      (t : Timer) (cur : Time)
      → ((i j : ℕ) (a b : TimerCb)
          → timer_cb_cmp (due i a) (due j b) ≡ lt
          → expired b cur ≡ true
          → expired a cur ≡ true)
      → IsHeld t
      → search_id t 0 ≡ none
      → t.dtimers ≡ []
      → (t.timerfd == 0) ≡ false
      → (u : Timer) × (r : ℤ) × (ytimer_serve settime expired fuel callback t cur ≡ returns u r)
        × IsHeld u
        × ((p : ℕ) → search_id u p ≡ (search_id t p >>= λ cb. serves cur p cb))
  unfolding ytimer_serve finish_serve search_id
  ytimer_serve-serves t cur orderly h z d fd = elim (Bool-cases (length t.timers == 0)) [
    | inl e ↦ (t, pos 0, rw (ytimer_serve, fd, e) refl, h, nothing_held t (serves cur) h e)
    | inr e ↦
        let ids = collect settime expired fuel callback t.timers t cur in
        let start = record t { dtimers = [] } in
        let (u, done, held, reads) =
          serve_loop-served settime expired fuel callback status quiet ids start cur
            (transfer t start refl refl h) z
            (collect-IsDistinct settime expired fuel callback t.timers t cur (timers-Stand t h)
              h.dues_sorted)
            (collect-AreAlive settime expired fuel callback t.timers t cur) in
        let again = restart_timer settime expired fuel u in
        (
          again.0,
          again.1,
          rw (ytimer_serve, fd, e)
              (ap
                  (λ ds.
                    finish_serve settime expired fuel callback
                      (serve_loop settime expired fuel callback (ds ++ ids) start cur))
                  d
                ∙ ap (finish_serve settime expired fuel callback) done),
          (restart_timer-Keeps settime expired fuel u u (held, refl, λ a. a)).0,
          λ p. search_id-restart_timer u p ∙ reads p ∙ served-serves t cur orderly h p,
        )
  ]
