-- ===== src/Ylist/Ring.antt =====
-- The well-formed list of ydb/ylist.c, and what the functions at its ends leave in memory.
use libydb.Prelude.{
  ℕ, suc, ◌+◌, ◌-◌, ◌%◌, ◌<◌, ◌≡◌, sym, ap₂, subst, ◌∙◌, ◌==◌, true, false, Option, some, List, [],
  ◌∷◌, ◌++◌, map, append-nil, length, length-append, All, All-with, All-without, All-imp, All-at,
  All-append_left, All-append_right, map-append, arith,
}
use libydb.Ylist.{
  update, Ylist, head, count_mod, ylist_push_front, ylist_push_back, ylist_pop_front,
  ylist_pop_back,
}
use libydb.Ylist.Chain

module _ {ℓ} {D : Type ℓ} where
  -- The cells `cs` form a ring with the head. They are allocated, and malloc gives none of them.
  pub record IsRing (t : Ylist D) (cs : List ℕ) : Type 0 where
    pub chain : Chain.IsChain t.next t.prev head cs head
    pub apart : Chain.IsApart head cs head
    pub live : All (λ c. t.live c ≡ true) (head ∷ cs)
    pub bounded : All (λ c. c < t.fresh) (head ∷ cs)
    pub counted : t.size ≡ length cs % count_mod

  -- The data of the cells in their order: the contents of the list.
  abbrev pub contents : Ylist D → List ℕ → List (Option D)
  contents t cs = map t.content cs

  -- `t` with a new cell between `xs` and `ys`, as all three functions that insert leave it.
  abbrev pub linked : Ylist D → List ℕ → List ℕ → Option D → Ylist D
  linked t xs ys x = record {
    next = update (update t.next t.fresh (Chain.first_of ys head)) (Chain.last_of head xs) t.fresh;
    prev = update (update t.prev t.fresh (Chain.last_of head xs)) (Chain.first_of ys head) t.fresh;
    content = update t.content t.fresh x;
    live = update t.live t.fresh true;
    fresh = suc t.fresh;
    size = (t.size + 1) % count_mod;
  }

  pub fresh-IsFresh :
      (t : Ylist D) (cs : List ℕ) → All (λ c. c < t.fresh) cs → Chain.IsFresh t.fresh cs
  fresh-IsFresh t cs h = All-imp (λ c l e. omega arith) cs h

  pub linked-IsRing :
      (t : Ylist D) (xs ys : List ℕ) (x : Option D)
      → IsRing t (xs ++ ys)
      → IsRing (linked t xs ys x) (xs ++ (t.fresh ∷ ys))
        × (contents (linked t xs ys x) (xs ++ (t.fresh ∷ ys))
            ≡ contents t xs ++ (x ∷ contents t ys))
  linked-IsRing t xs ys x r =
      let f : Chain.IsFresh t.fresh (head ∷ (xs ++ ys)) =
        fresh-IsFresh t (head ∷ (xs ++ ys)) r.bounded in
      (
        record {
          chain =
              Chain.IsChain-link t.next t.prev head xs ys head t.fresh f.0 f.0 f.1 r.apart r.chain;
          apart =
              Chain.IsApart-with head xs t.fresh ys head (λ e. f.0 (sym e)) (λ e. f.0 (sym e)) f.1
                r.apart;
          live = (
            Chain.update-other _ _ _ _ f.0 ∙ r.live.0,
            All-with _ xs t.fresh ys (Chain.update-same t.live t.fresh true)
                (Chain.All-update t.live t.fresh true (xs ++ ys) f.1 r.live.1),
          );
          bounded = (
            omega (arith, r.bounded.0),
            All-with _ xs t.fresh ys (omega arith)
                (All-imp (λ c l. omega arith) (xs ++ ys) r.bounded.1),
          );
          counted = omega (arith, r.counted, length-append xs ys, length-append xs (t.fresh ∷ ys));
        },
        map-append _ xs (t.fresh ∷ ys)
            ∙ ap₂ (λ us vs. us ++ vs)
                (Chain.map-update t.content t.fresh x xs (All-append_left _ xs ys f.1))
                (ap₂ (λ y vs. y ∷ vs) (Chain.update-same t.content t.fresh x)
                  (Chain.map-update t.content t.fresh x ys (All-append_right _ xs ys f.1))),
      )

  -- `t` without the cell `a`, which stood between `xs` and `ys`.
  abbrev pub unlinked : Ylist D → List ℕ → ℕ → List ℕ → Ylist D
  unlinked t xs a ys = record {
    next = update t.next (Chain.last_of head xs) (Chain.first_of ys head);
    prev = update t.prev (Chain.first_of ys head) (Chain.last_of head xs);
    content = t.content;
    live = update t.live a false;
    fresh = t.fresh;
    size = (t.size + count_mod - 1) % count_mod;
  }

  pub unlinked-IsRing :
      (t : Ylist D) (xs : List ℕ) (a : ℕ) (ys : List ℕ)
      → IsRing t (xs ++ (a ∷ ys))
      → IsRing (unlinked t xs a ys) (xs ++ ys)
  unlinked-IsRing t xs a ys r =
      let f = Chain.IsDistinct-IsFresh xs a ys r.apart.2 in
      record {
        chain = Chain.IsChain-unlink t.next t.prev head xs a ys head r.apart r.chain;
        apart = Chain.IsApart-without head xs a ys head r.apart;
        live = (
          Chain.update-other t.live a false head (λ e. All-at _ xs a ys r.apart.0 (sym e))
              ∙ r.live.0,
          Chain.All-update t.live a false (xs ++ ys) f (All-without _ xs a ys r.live.1),
        );
        bounded = (r.bounded.0, All-without _ xs a ys r.bounded.1);
        counted = omega (arith, r.counted, length-append xs ys, length-append xs (a ∷ ys));
      }

  pub push_front-linked :
      (t : Ylist D) (cs : List ℕ) (x : Option D)
      → IsRing t cs
      → ylist_push_front t x ≡ some (linked t [] cs x, t.fresh)
  unfolding ylist_push_front
  push_front-linked t cs x r =
      let f = fresh-IsFresh t (head ∷ cs) r.bounded in
      let l = (Chain.IsChain-last t.next t.prev head [] cs head r.chain).0 in
      let mine = Chain.update-same t.live t.fresh true in
      let all = Chain.All-update t.live t.fresh true (head ∷ cs) f r.live in
      let first = Chain.All-first (λ c. update t.live t.fresh true c ≡ true) cs head all.0 all.1 in
      let again = Chain.update-other t.next t.fresh (Chain.first_of cs head) head f.0 in
      simp (mine, all.0, l, again, first)

  pub push_back-linked :
      (t : Ylist D) (cs : List ℕ) (x : Option D)
      → IsRing t cs
      → ylist_push_back t x ≡ some (linked t cs [] x, t.fresh)
  unfolding ylist_push_back
  push_back-linked t cs x r =
      let f = fresh-IsFresh t (head ∷ cs) r.bounded in
      let l =
        (Chain.IsChain-last t.next t.prev head cs [] head
          (subst (λ l. Chain.IsChain t.next t.prev head l head) (sym (append-nil cs)) r.chain)).1 in
      let mine = Chain.update-same t.live t.fresh true in
      let all = Chain.All-update t.live t.fresh true (head ∷ cs) f r.live in
      let last = Chain.All-last (λ c. update t.live t.fresh true c ≡ true) head cs all.0 all.1 in
      let again = Chain.update-other t.prev t.fresh (Chain.last_of head cs) head f.0 in
      simp (mine, all.0, l, again, last)

  pub pop_front-unlinked :
      (t : Ylist D) (a : ℕ) (cs : List ℕ)
      → IsRing t (a ∷ cs)
      → ylist_pop_front t ≡ some (unlinked t [] a cs, t.content a)
  unfolding ylist_pop_front
  pop_front-unlinked t a cs r =
      let l = (Chain.IsChain-last t.next t.prev head [] (a ∷ cs) head r.chain).0 in
      let m = (Chain.IsChain-last t.next t.prev head (a ∷ []) cs head r.chain).0 in
      let first = Chain.All-first (λ c. t.live c ≡ true) cs head r.live.0 r.live.1.1 in
      let apart : (a == head) ≡ false = ground (arith, r.apart.0.0) in
      simp (l, r.live.0, r.live.1.0, m, first, apart)

  pub pop_back-unlinked :
      (t : Ylist D) (xs : List ℕ) (a : ℕ)
      → IsRing t (xs ++ (a ∷ []))
      → ylist_pop_back t ≡ some (unlinked t xs a [], t.content a)
  unfolding ylist_pop_back
  pop_back-unlinked t xs a r =
      let (l, k) =
        Chain.IsChain-last t.next t.prev head (xs ++ (a ∷ [])) [] head
          (subst (λ l. Chain.IsChain t.next t.prev head l head) (sym (append-nil _)) r.chain) in
      let final = k ∙ Chain.last_of-append head xs a in
      let m = (Chain.IsChain-last t.next t.prev head xs (a ∷ []) head r.chain).1 in
      let live = All-append_left _ xs (a ∷ []) r.live.1 in
      let last = Chain.All-last (λ c. t.live c ≡ true) head xs r.live.0 live in
      let apart : (a == head) ≡ false = ground (arith, All-at _ xs a [] r.apart.0) in
      simp (final, r.live.0, All-at _ xs a [] r.live.1, m, last, apart)
