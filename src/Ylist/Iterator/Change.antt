-- ===== src/Ylist/Iterator/Change.antt =====
-- Insertion and erasure at an iterator of ydb/ylist.c.
use libydb.Prelude.{
  ℕ, ◌≡◌, ◌≢◌, sym, ap, ◌∙◌, subst, ◌==◌, Bool, true, false, if◌then◌else◌, Option, none, some,
  List, [], ◌∷◌, ◌++◌, All-at, All-append_left, All-append_right, arith, map-append, append_assoc,
}
use libydb.Ylist.{update, Ylist, head}
use libydb.Ylist.Chain
use libydb.Ylist.Ring.{
  IsRing, contents, linked, unlinked, linked-IsRing, unlinked-IsRing, push_back-linked,
  fresh-IsFresh,
}
use libydb.Ylist.Iterator.{ylist_erase, ylist_insert}

module _ {ℓ} {D : Type ℓ} where
  -- What ylist_erase leaves in memory.
  pub erase-unlinked :
      (t : Ylist D) (xs : List ℕ) (a : ℕ) (ys : List ℕ) (ufree : Bool)
      → IsRing t (xs ++ (a ∷ ys))
      → ylist_erase t (some a) ufree
        ≡ some (
          unlinked t xs a ys,
          some (Chain.last_of head xs),
          if ufree then t.content a ∷ [] else [],
        )
  unfolding ylist_erase
  erase-unlinked t xs a ys ufree r =
      let before = Chain.IsChain-last t.next t.prev head xs (a ∷ ys) head r.chain in
      let after = Chain.IsChain-last t.next t.prev head (xs ++ (a ∷ [])) ys head (
        subst (λ l. Chain.IsChain t.next t.prev head l head) (sym (append_assoc xs (a ∷ []) ys))
          r.chain) in
      let next : t.next a ≡ Chain.first_of ys head =
        sym (ap t.next (Chain.last_of-append head xs a)) ∙ after.0 in
      let apart : (a == head) ≡ false = ground (arith, All-at _ xs a ys r.apart.0) in
      let live = All-append_left _ xs (a ∷ ys) r.live.1 in
      let rest = (All-append_right _ xs (a ∷ ys) r.live.1).1 in
      let last = Chain.All-last (λ c. t.live c ≡ true) head xs r.live.0 live in
      let first = Chain.All-first (λ c. t.live c ≡ true) ys head r.live.0 rest in
      let alone = Chain.IsDistinct-last head xs a ys r.apart in
      let again =
        Chain.update-other t.next (Chain.last_of head xs) (Chain.first_of ys head) a alone in
      simp (apart, All-at _ xs a ys r.live.1, before.1, next, again, last, first)

  -- An iterator at a cell of a well-formed list: the cell is taken out of the list, freed, and the
  -- cell before it, or the head, is returned; `ufree` is called on its data.
  pub ylist_erase_refines :
      (t : Ylist D) (xs : List ℕ) (a : ℕ) (ys : List ℕ) (ufree : Bool)
      → IsRing t (xs ++ (a ∷ ys))
      → (u : Ylist D) × (ylist_erase t (some a) ufree
          ≡ some (u, some (Chain.last_of head xs), if ufree then t.content a ∷ [] else []))
        × IsRing u (xs ++ ys)
        × (contents u (xs ++ ys) ≡ contents t xs ++ contents t ys)
        × (u.live a ≡ false)
  ylist_erase_refines t xs a ys ufree r = (
    unlinked t xs a ys,
    erase-unlinked t xs a ys ufree r,
    unlinked-IsRing t xs a ys r,
    map-append t.content xs ys,
    Chain.update-same t.live a false,
  )

  -- What ylist_insert leaves in memory.
  pub insert-linked :
      (t : Ylist D) (xs ys : List ℕ) (x : Option D)
      → IsRing t (xs ++ ys)
      → ylist_insert t (some (Chain.last_of head xs)) x ≡ some (linked t xs ys x, t.fresh)
  unfolding ylist_insert
  insert-linked t xs ys x r =
      let f = fresh-IsFresh t (head ∷ (xs ++ ys)) r.bounded in
      let l = (Chain.IsChain-last t.next t.prev head xs ys head r.chain).0 in
      let mine = Chain.update-same t.live t.fresh true in
      let all = Chain.All-update t.live t.fresh true (head ∷ (xs ++ ys)) f r.live in
      let left = All-append_left _ xs ys all.1 in
      let right = All-append_right _ xs ys all.1 in
      let last = Chain.All-last (λ c. update t.live t.fresh true c ≡ true) head xs all.0 left in
      let first = Chain.All-first (λ c. update t.live t.fresh true c ≡ true) ys head all.0 right in
      let other = Chain.All-last (λ c. c ≢ t.fresh) head xs f.0 (All-append_left _ xs ys f.1) in
      let again =
        Chain.update-other t.next t.fresh (Chain.first_of ys head) (Chain.last_of head xs) other in
      simp (mine, last, l, again, first)

  -- The iterator of the last of the cells `xs`, or the head, in a well-formed list: a new cell comes
  -- to stand behind it. The NULL iterator stands for the end of the list.
  pub ylist_insert_refines :
      (t : Ylist D) (xs ys : List ℕ) (x : Option D)
      → IsRing t (xs ++ ys)
      → (u : Ylist D) × (ylist_insert t (some (Chain.last_of head xs)) x ≡ some (u, t.fresh))
        × IsRing u (xs ++ (t.fresh ∷ ys))
        × (contents u (xs ++ (t.fresh ∷ ys)) ≡ contents t xs ++ (x ∷ contents t ys))
        × (ylist_insert t none x ≡ some (linked t (xs ++ ys) [] x, t.fresh))
  unfolding ylist_insert
  ylist_insert_refines t xs ys x r =
      let (ring, held) = linked-IsRing t xs ys x r in
      (linked t xs ys x, insert-linked t xs ys x r, ring, held, push_back-linked t (xs ++ ys) x r)
