-- ===== src/Ylist/Client.antt =====
-- A user of the list of ydb/ylist.c: any sequence of calls at its ends, from ylist_create on.
use libydb.Prelude.{◌≡◌, refl, Option, some, ◌>>=◌, List, [], ◌∷◌, ◌++◌, arith}
use libydb.Ylist.{
  Ylist, ylist_create, ylist_push_front, ylist_push_back, ylist_pop_front, ylist_pop_back,
}
use libydb.Ylist.Ring.{IsRing}
use libydb.Ylist.Ends.{
  Holds, front, behind, back, ahead, ylist_push_front_refines, ylist_push_back_refines,
  ylist_pop_front_refines, ylist_pop_back_refines,
}

pub data Call {ℓ} (D : Type ℓ) : Type ℓ where
  push_front : Option D → Call D
  push_back : Option D → Call D
  pop_front : Call D
  pop_back : Call D

module _ {ℓ} {D : Type ℓ} where
  -- The list after the calls, and what the calls that pop returned.
  unfoldable pub run : List (Call D) → Ylist D → Option (Ylist D × List (Option D))
  unfolding ylist_push_front ylist_push_back ylist_pop_front ylist_pop_back
  run [] t = some (t, [])
  run (push_front x ∷ cs) t = ylist_push_front t x >>= λ r. run cs r.0
  run (push_back x ∷ cs) t = ylist_push_back t x >>= λ r. run cs r.0
  run (pop_front ∷ cs) t = do r ← ylist_pop_front t; s ← run cs r.0; some (s.0, r.1 ∷ s.1)
  run (pop_back ∷ cs) t = do r ← ylist_pop_back t; s ← run cs r.0; some (s.0, r.1 ∷ s.1)

  -- The same calls on a double-ended queue.
  unfoldable pub queue_after : List (Call D) → List (Option D) → List (Option D)
  queue_after [] es = es
  queue_after (push_front x ∷ cs) es = queue_after cs (x ∷ es)
  queue_after (push_back x ∷ cs) es = queue_after cs (es ++ (x ∷ []))
  queue_after (pop_front ∷ cs) es = queue_after cs (behind es)
  queue_after (pop_back ∷ cs) es = queue_after cs (ahead es)

  unfoldable pub popped : List (Call D) → List (Option D) → List (Option D)
  popped [] es = []
  popped (push_front x ∷ cs) es = popped cs (x ∷ es)
  popped (push_back x ∷ cs) es = popped cs (es ++ (x ∷ []))
  popped (pop_front ∷ cs) es = front es ∷ popped cs (behind es)
  popped (pop_back ∷ cs) es = back es ∷ popped cs (ahead es)

  run-Holds :
      (cs : List (Call D)) (t : Ylist D) (es : List (Option D))
      → Holds t es
      → (u : Ylist D) × (run cs t ≡ some (u, popped cs es)) × Holds u (queue_after cs es)
  unfolding run queue_after popped
  run-Holds [] t es h = (t, refl, h)
  run-Holds (push_front x ∷ cs) t es h =
      let (u, i, e, k) = ylist_push_front_refines t es x h in
      let (v, f, m) = run-Holds cs u (x ∷ es) k in (v, rw (e, f) refl, m)
  run-Holds (push_back x ∷ cs) t es h =
      let (u, i, e, k) = ylist_push_back_refines t es x h in
      let (v, f, m) = run-Holds cs u (es ++ (x ∷ [])) k in (v, rw (e, f) refl, m)
  run-Holds (pop_front ∷ cs) t es h =
      let (u, e, k) = ylist_pop_front_refines t es h in
      let (v, f, m) = run-Holds cs u (behind es) k in (v, rw (e, f) refl, m)
  run-Holds (pop_back ∷ cs) t es h =
      let (u, e, k) = ylist_pop_back_refines t es h in
      let (v, f, m) = run-Holds cs u (ahead es) k in (v, rw (e, f) refl, m)

  pub ylist_create-IsRing : IsRing {D = D} ylist_create []
  unfolding ylist_create
  ylist_create-IsRing = record {
    chain = (refl, refl);
    apart = (tt, tt, tt);
    live = (refl, tt);
    bounded = (omega arith, tt);
    counted = refl;
  }

  -- Any sequence of calls at the ends of a new list uses allocated cells only, returns what the same
  -- calls on an empty double-ended queue return, and leaves the contents of that queue.
  pub ylist_run_refines :
      (cs : List (Call D))
      → (u : Ylist D) × (run cs ylist_create ≡ some (u, popped cs [])) × Holds u (queue_after cs [])
  ylist_run_refines cs = run-Holds cs ylist_create [] ([], ylist_create-IsRing, refl)
