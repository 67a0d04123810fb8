-- ===== src/Yarray/Ends.antt =====
-- The functions of ydb/yarray.c at the ends of the array, as operations on its contents.
use libydb.Prelude.{
  ℕ, ◌%◌, ◌<◌, ◌≡◌, refl, sym, ap, ◌∙◌, ltb, ltb→lt, Option, some, List, [], ◌∷◌, ◌++◌, inl, inr,
  arith, Bool-cases, All, All-append, append-nil, append_assoc, length, length-append,
}
use libydb.Ylist.Ends.{front, behind, back, ahead, back-append}
use libydb.Yarray.{
  Fragment, Yarray, size_mod, push_back_into, push_front_into, pop_back_of, pop_back_at,
  pop_front_at, count_down, take_front, yarray_push_back, yarray_push_front, yarray_pop_back,
  yarray_pop_front,
}
use libydb.Yarray.Buffer.{
  IsFilled, items, all_items, put_back-items, put_front-items, put_first-items,
}
use libydb.Yarray.Take.{take_back-items, take_front-items}

module _ {ℓ} {D : Type ℓ} where
  -- Every fragment holds something, and the entries are counted.
  pub record IsArray (a : Yarray D) : Type 0 where
    pub filled : All (IsFilled a.fsize) a.fragments
    pub sized : 0 < a.fsize
    pub counted : a.n ≡ length (all_items a.fragments) % size_mod

  pub all_items-append :
      (fs gs : List (Fragment D)) → all_items (fs ++ gs) ≡ all_items fs ++ all_items gs
  all_items-append [] gs = refl
  all_items-append (f ∷ fs) gs =
      ap (λ l. items f ++ l) (all_items-append fs gs)
      ∙ sym (append_assoc (items f) (all_items fs) (all_items gs))

  push_back_into-items :
      (fsize : ℕ) (x : Option D) (fs : List (Fragment D))
      → 0 < fsize
      → All (IsFilled fsize) fs
      → All (IsFilled fsize) (push_back_into fsize x fs)
        × (all_items (push_back_into fsize x fs) ≡ all_items fs ++ (x ∷ []))
  unfolding push_back_into
  push_back_into-items fsize x [] p h =
      let (b, e) = put_first-items fsize x p in ((b, tt), append-nil _ ∙ e)
  push_back_into-items fsize x (fra ∷ []) p h = elim (Bool-cases (ltb fra.n fra.fsize)) [
    | inl l ↦
        let (b, e) = put_back-items fra x h.0.buffer (ltb→lt fra.n fra.fsize l) in
        rw l (
          (record { buffer = b; filled = omega arith; sized = h.0.sized }, tt),
          append-nil _ ∙ e ∙ ap (λ u. u ++ (x ∷ [])) (sym (append-nil (items fra))),
        )
    | inr l ↦
        let (b, e) = put_first-items fsize x p in
        rw l (
          (h.0, (b, tt)),
          ap (λ u. items fra ++ u) (append-nil _ ∙ e)
              ∙ ap (λ u. u ++ (x ∷ [])) (sym (append-nil (items fra))),
        )
  ]
  push_back_into-items fsize x (fra ∷ f ∷ fs) p h =
      let (b, e) = push_back_into-items fsize x (f ∷ fs) p h.1 in
      (
        (h.0, b),
        ap (λ u. items fra ++ u) e ∙ sym (append_assoc (items fra) (all_items (f ∷ fs)) (x ∷ [])),
      )

  -- On a well-formed array yarray_push_back puts the data last and returns its index, the length
  -- before the call (modulo 2 ^ 64).
  pub yarray_push_back_refines :
      (a : Yarray D) (x : Option D)
      → IsArray a
      → IsArray (yarray_push_back a x).0
        × (all_items ((yarray_push_back a x).0.fragments) ≡ all_items a.fragments ++ (x ∷ []))
        × ((yarray_push_back a x).1 ≡ length (all_items a.fragments) % size_mod)
  unfolding yarray_push_back
  yarray_push_back_refines a x h =
      let (b, e) = push_back_into-items a.fsize x a.fragments h.sized h.filled in
      (
        record {
          filled = b;
          sized = h.sized;
          counted =
              omega (arith, h.counted, ap length e, length-append (all_items a.fragments) (x ∷ []));
        },
        e,
        h.counted,
      )

  push_front_into-items :
      (fsize : ℕ) (x : Option D) (fs : List (Fragment D))
      → 0 < fsize
      → All (IsFilled fsize) fs
      → All (IsFilled fsize) (push_front_into fsize x fs)
        × (all_items (push_front_into fsize x fs) ≡ x ∷ all_items fs)
  unfolding push_front_into
  push_front_into-items fsize x [] p h =
      let (b, e) = put_first-items fsize x p in ((b, tt), append-nil _ ∙ e)
  push_front_into-items fsize x (fra ∷ fs) p h = elim (Bool-cases (ltb fra.n fra.fsize)) [
    | inl l ↦
        let (b, e) = put_front-items fra x h.0.buffer (ltb→lt fra.n fra.fsize l) in
        rw l (
          (record { buffer = b; filled = omega arith; sized = h.0.sized }, h.1),
          ap (λ u. u ++ all_items fs) e,
        )
    | inr l ↦
        let (b, e) = put_first-items fsize x p in
        rw l ((b, h), ap (λ u. u ++ (items fra ++ all_items fs)) e)
  ]

  -- On a well-formed array yarray_push_front puts the data first and returns 0.
  pub yarray_push_front_refines :
      (a : Yarray D) (x : Option D)
      → IsArray a
      → IsArray (yarray_push_front a x).0
        × (all_items ((yarray_push_front a x).0.fragments) ≡ x ∷ all_items a.fragments)
        × ((yarray_push_front a x).1 ≡ 0)
  unfolding yarray_push_front
  yarray_push_front_refines a x h =
      let (b, e) = push_front_into-items a.fsize x a.fragments h.sized h.filled in
      (
        record { filled = b; sized = h.sized; counted = omega (arith, h.counted, ap length e) },
        e,
        refl,
      )

  pop_back_of-items :
      (fsize : ℕ) (fra : Fragment D) (fs : List (Fragment D))
      → All (IsFilled fsize) (fra ∷ fs)
      → (rest : List (Fragment D)) × (x : Option D) × (pop_back_of fra fs ≡ some (rest, x))
        × All (IsFilled fsize) rest
        × (all_items (fra ∷ fs) ≡ all_items rest ++ (x ∷ []))
  unfolding pop_back_of
  pop_back_of-items fsize fra [] h =
      let (rest, x, e, b, i) = take_back-items fsize fra h.0 in (rest, x, e, b, append-nil _ ∙ i)
  pop_back_of-items fsize fra (f ∷ fs) h =
      let (rest, x, e, b, i) = pop_back_of-items fsize f fs h.1 in
      (
        fra ∷ rest,
        x,
        rw e refl,
        (h.0, b),
        ap (λ u. items fra ++ u) i ∙ sym (append_assoc (items fra) (all_items rest) (x ∷ [])),
      )

  pop_back_at-items :
      (a : Yarray D) (fs : List (Fragment D))
      → a.fragments ≡ fs
      → IsArray a
      → (b : Yarray D) × (pop_back_at a fs ≡ some (b, back (all_items fs)))
        × IsArray b
        × (all_items b.fragments ≡ ahead (all_items fs))
  unfolding pop_back_at
  pop_back_at-items a [] e h = (a, refl, h, ap all_items e)
  pop_back_at-items a (fra ∷ gs) e h =
      let (rest, x, taken, b, i) = pop_back_of-items a.fsize fra gs (rw e at h.filled) in
      let (last, first) = back-append (all_items rest) x in
      (
        count_down a rest,
        rw (taken, i, last) refl,
        record {
          filled = b;
          sized = h.sized;
          counted = omega (
            arith,
            h.counted,
            ap length (ap all_items e),
            ap length i,
            length-append (all_items rest) (x ∷ []),
          );
        },
        rw (i, first) refl,
      )

  -- On a well-formed array yarray_pop_back reads no slot outside of a fragment. It takes the last
  -- data out and returns it, and NULL from an empty array.
  pub yarray_pop_back_refines :
      (a : Yarray D)
      → IsArray a
      → (b : Yarray D) × (yarray_pop_back a ≡ some (b, back (all_items a.fragments)))
        × IsArray b
        × (all_items b.fragments ≡ ahead (all_items a.fragments))
  unfolding yarray_pop_back
  yarray_pop_back_refines a h = pop_back_at-items a a.fragments refl h

  pop_front_at-items :
      (a : Yarray D) (fs : List (Fragment D))
      → a.fragments ≡ fs
      → IsArray a
      → ((pop_front_at a fs).1 ≡ front (all_items fs))
        × IsArray (pop_front_at a fs).0
        × (all_items ((pop_front_at a fs).0.fragments) ≡ behind (all_items fs))
  unfolding pop_front_at
  pop_front_at-items a [] e h = (refl, h, ap all_items e)
  pop_front_at-items a (fra ∷ gs) e h =
      let filled : All (IsFilled a.fsize) (fra ∷ gs) = rw e at h.filled in
      let (b, i) = take_front-items a.fsize fra filled.0 in
      let whole : all_items (fra ∷ gs) ≡ (take_front fra).1 ∷ all_items ((take_front fra).0 ++ gs) =
        ap (λ u. u ++ all_items gs) i
        ∙ ap (λ u. (take_front fra).1 ∷ u) (sym (all_items-append (take_front fra).0 gs)) in
      (
        ap front (sym whole),
        record {
          filled = All-append _ (take_front fra).0 gs b filled.1;
          sized = h.sized;
          counted = omega (arith, h.counted, ap length (ap all_items e), ap length whole);
        },
        ap behind (sym whole),
      )

  -- On a well-formed array yarray_pop_front takes the first data out and returns it, and NULL from
  -- an empty array.
  pub yarray_pop_front_refines :
      (a : Yarray D)
      → IsArray a
      → ((yarray_pop_front a).1 ≡ front (all_items a.fragments))
        × IsArray (yarray_pop_front a).0
        × (all_items ((yarray_pop_front a).0.fragments) ≡ behind (all_items a.fragments))
  unfolding yarray_pop_front
  yarray_pop_front_refines a h = pop_front_at-items a a.fragments refl h
