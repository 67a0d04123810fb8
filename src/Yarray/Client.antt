-- ===== src/Yarray/Client.antt =====
-- A user of the array of ydb/yarray.c: any sequence of calls at its ends, from yarray_create on. The
-- calls and the queue that they work on are those of the list.
use libydb.Prelude.{◌≡◌, refl, ap, ◌∙◌, ℤ, Option, some, ◌>>=◌, List, [], ◌∷◌, ◌++◌, arith}
use libydb.Ylist.Ends.{behind, ahead}
use libydb.Ylist.Client.{Call, push_front, push_back, pop_front, pop_back, queue_after, popped}
use libydb.Yarray.{
  Yarray, yarray_create, yarray_push_front, yarray_push_back, yarray_pop_front, yarray_pop_back,
}
use libydb.Yarray.Buffer.{all_items}
use libydb.Yarray.Ends.{
  IsArray, yarray_push_front_refines, yarray_push_back_refines, yarray_pop_front_refines,
  yarray_pop_back_refines,
}

module _ {ℓ} {D : Type ℓ} where
  -- The array after the calls, and what the calls that pop returned; `none` is a read outside of a
  -- fragment.
  unfoldable pub run_array : List (Call D) → Yarray D → Option (Yarray D × List (Option D))
  run_array [] a = some (a, [])
  run_array (push_front x ∷ cs) a = run_array cs (yarray_push_front a x).0
  run_array (push_back x ∷ cs) a = run_array cs (yarray_push_back a x).0
  run_array (pop_front ∷ cs) a = do
    let r = yarray_pop_front a
    s ← run_array cs r.0
    some (s.0, r.1 ∷ s.1)
  run_array (pop_back ∷ cs) a = do
    r ← yarray_pop_back a
    s ← run_array cs r.0
    some (s.0, r.1 ∷ s.1)

  -- The array is well formed and has these entries.
  abbrev pub Contains : Yarray D → List (Option D) → Type ℓ
  Contains a es = IsArray a × (all_items a.fragments ≡ es)

  run_array-Contains :
      (cs : List (Call D)) (a : Yarray D) (es : List (Option D))
      → Contains a es
      → (b : Yarray D) × (run_array cs a ≡ some (b, popped cs es)) × Contains b (queue_after cs es)
  unfolding run_array queue_after popped
  run_array-Contains [] a es h = (a, refl, h)
  run_array-Contains (push_front x ∷ cs) a es h =
      let (v, e, i) = yarray_push_front_refines a x h.0 in
      run_array-Contains cs (yarray_push_front a x).0 (x ∷ es) (v, e ∙ ap (λ l. x ∷ l) h.1)
  run_array-Contains (push_back x ∷ cs) a es h =
      let (v, e, i) = yarray_push_back_refines a x h.0 in
      run_array-Contains cs (yarray_push_back a x).0 (es ++ (x ∷ []))
        (v, e ∙ ap (λ l. l ++ (x ∷ [])) h.1)
  run_array-Contains (pop_front ∷ cs) a es h =
      let (r, v, e) = yarray_pop_front_refines a h.0 in
      let (b, f, m) =
        run_array-Contains cs (yarray_pop_front a).0 (behind es) (v, e ∙ ap behind h.1) in
      (b, rw (f, r, h.1) refl, m)
  run_array-Contains (pop_back ∷ cs) a es h =
      let (u, r, v, e) = yarray_pop_back_refines a h.0 in
      let (b, f, m) = run_array-Contains cs u (ahead es) (v, e ∙ ap ahead h.1) in
      (b, rw (r, f, h.1) refl, m)

  yarray_create-Contains : (fsize : ℤ) → Contains (yarray_create fsize) []
  unfolding yarray_create
  yarray_create-Contains fsize =
      (record { filled = tt; sized = ground arith; counted = refl }, refl)

  pub yarray_run_refines :
      (fsize : ℤ) (cs : List (Call D))
      → (b : Yarray D) × (run_array cs (yarray_create fsize) ≡ some (b, popped cs []))
        × Contains b (queue_after cs [])
  yarray_run_refines fsize cs =
      run_array-Contains cs (yarray_create fsize) [] (yarray_create-Contains fsize)
