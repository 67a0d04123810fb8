-- ===== src/Ylist/Ends.antt =====
-- The functions of ydb/ylist.c at the ends of the list, as operations on its contents.
use libydb.Prelude.{
  ℕ, ◌≡◌, refl, sym, ap, subst, ◌∙◌, Option, none, some, inl, inr, List, [], ◌∷◌, ◌++◌, append-nil,
  map-append, snoc-cases,
}
use libydb.Ylist.{Ylist, ylist_push_front, ylist_push_back, ylist_pop_front, ylist_pop_back}
use libydb.Ylist.Ring.{
  IsRing, contents, linked, unlinked, linked-IsRing, unlinked-IsRing, push_front-linked,
  push_back-linked, pop_front-unlinked, pop_back-unlinked,
}

module _ {ℓ} {D : Type ℓ} where
  -- The list is well formed and has these contents.
  abbrev pub Holds : Ylist D → List (Option D) → Type ℓ
  Holds t es = (cs : List ℕ) × IsRing t cs × (contents t cs ≡ es)

  -- The first and the last data of a list, NULL of an empty one, and the rest.
  abbrev pub front : List (Option D) → Option D
  front [] = none
  front (e ∷ es) = e

  abbrev pub behind : List (Option D) → List (Option D)
  behind [] = []
  behind (e ∷ es) = es

  abbrev pub back : List (Option D) → Option D
  back [] = none
  back (e ∷ []) = e
  back (e ∷ f ∷ es) = back (f ∷ es)

  abbrev pub ahead : List (Option D) → List (Option D)
  ahead [] = []
  ahead (e ∷ []) = []
  ahead (e ∷ f ∷ es) = e ∷ ahead (f ∷ es)

  -- On a well-formed list ylist_push_front uses allocated cells only, and puts the data first.
  pub ylist_push_front_refines :
      (t : Ylist D) (es : List (Option D)) (x : Option D)
      → Holds t es
      → (u : Ylist D) × (iter : ℕ) × (ylist_push_front t x ≡ some (u, iter)) × Holds u (x ∷ es)
  ylist_push_front_refines t es x (cs, r, e) =
      let (ring, held) = linked-IsRing t [] cs x r in
      (
        linked t [] cs x,
        t.fresh,
        push_front-linked t cs x r,
        (t.fresh ∷ cs, ring, held ∙ ap (λ l. x ∷ l) e),
      )

  -- On a well-formed list ylist_push_back uses allocated cells only, and puts the data last.
  pub ylist_push_back_refines :
      (t : Ylist D) (es : List (Option D)) (x : Option D)
      → Holds t es
      → (u : Ylist D) × (iter : ℕ) × (ylist_push_back t x ≡ some (u, iter))
        × Holds u (es ++ (x ∷ []))
  ylist_push_back_refines t es x (cs, r, e) =
      let (ring, held) = linked-IsRing t cs [] x (subst (IsRing t) (sym (append-nil cs)) r) in
      (
        linked t cs [] x,
        t.fresh,
        push_back-linked t cs x r,
        (cs ++ (t.fresh ∷ []), ring, held ∙ ap (λ l. l ++ (x ∷ [])) e),
      )

  pub back-append :
      (es : List (Option D)) (x : Option D)
      → (back (es ++ (x ∷ [])) ≡ x) × (ahead (es ++ (x ∷ [])) ≡ es)
  back-append [] x = (refl, refl)
  back-append (e ∷ []) x = (refl, refl)
  back-append (e ∷ f ∷ es) x = let (b, a) = back-append (f ∷ es) x in (b, ap (λ l. e ∷ l) a)

  pub pop_front-empty : (t : Ylist D) → IsRing t [] → ylist_pop_front t ≡ some (t, none)
  unfolding ylist_pop_front
  pop_front-empty t r = simp (r.live.0, r.chain.0)

  pub pop_back-empty : (t : Ylist D) → IsRing t [] → ylist_pop_back t ≡ some (t, none)
  unfolding ylist_pop_back
  pop_back-empty t r = simp (r.live.0, r.chain.1)

  -- On a well-formed list ylist_pop_front uses allocated cells only. It takes the first data out and
  -- returns it, and NULL from an empty list.
  pub ylist_pop_front_refines :
      (t : Ylist D) (es : List (Option D))
      → Holds t es
      → (u : Ylist D) × (ylist_pop_front t ≡ some (u, front es)) × Holds u (behind es)
  ylist_pop_front_refines t es ([], r, e) = rw (sym e) (t, pop_front-empty t r, ([], r, refl))
  ylist_pop_front_refines t es (c ∷ cs, r, e) =
      rw (sym e)
        (unlinked t [] c cs, pop_front-unlinked t c cs r, (cs, unlinked-IsRing t [] c cs r, refl))

  -- On a well-formed list ylist_pop_back uses allocated cells only. It takes the last data out and
  -- returns it, and NULL from an empty list.
  pub ylist_pop_back_refines :
      (t : Ylist D) (es : List (Option D))
      → Holds t es
      → (u : Ylist D) × (ylist_pop_back t ≡ some (u, back es)) × Holds u (ahead es)
  ylist_pop_back_refines t es (cs, r, e) = elim (snoc-cases cs) [
    | inl n ↦ rw (sym e, n) (t, pop_back-empty t (rw n at r), ([], (rw n at r), refl))
    | inr (xs, a, n) ↦
        let ring : IsRing t (xs ++ (a ∷ [])) = rw n at r in
        let (b, h) = back-append (contents t xs) (t.content a) in
        rw (sym e, n, map-append t.content xs (a ∷ []), b, h)
          (
            unlinked t xs a [],
            pop_back-unlinked t xs a ring,
            (
              xs,
              subst (IsRing (unlinked t xs a [])) (append-nil xs) (unlinked-IsRing t xs a [] ring),
              refl,
            ),
          )
  ]
