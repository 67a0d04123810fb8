-- ===== src/Ylist/Iterator/Walk.antt =====
-- Reading the list of ydb/ylist.c: iterators, the index of an entry, and the traversal.
use libydb.Prelude.{
  ℕ, zero, suc, ◌+◌, ◌%◌, ◌^◌, ◌<◌, ◌≡◌, ◌≢◌, refl, sym, ap, ◌∙◌, subst, ◌==◌, ℤ, pos, negsuc,
  ◌==ℤ◌, true, false, if◌then◌else◌, Option, none, some, List, [], ◌∷◌, ◌++◌, append-nil,
  append_assoc, All-at, All-append_left, All-append_right, arith, length,
}
use libydb.Ylist.{Ylist, head}
use libydb.Ylist.Chain
use libydb.Ylist.Ring.{IsRing, contents}
use libydb.Ylist.Ends.{Holds, front, back}
use libydb.Ylist.Iterator.{
  Visitor, off_head, ylist_front, ylist_back, ylist_size, ylist_empty, ylist_first, ylist_last,
  ylist_next, ylist_prev, index_loop, ylist_index, traverse_loop, ylist_traverse,
}

-- The iterators of the first and of the last cell of a list.
abbrev pub first_iter : List ℕ → Option ℕ
first_iter [] = none
first_iter (c ∷ cs) = some c

abbrev pub last_iter : List ℕ → Option ℕ
last_iter [] = none
last_iter (c ∷ []) = some c
last_iter (c ∷ d ∷ cs) = last_iter (d ∷ cs)

-- The item at a place of a list, and none at a negative place or past the end.
abbrev pub entry : List ℕ → ℕ → Option ℕ
entry [] i = none
entry (c ∷ cs) zero = some c
entry (c ∷ cs) (suc i) = entry cs i

abbrev pub entry_ℤ : List ℕ → ℤ → Option ℕ
entry_ℤ cs (pos i) = entry cs i
entry_ℤ cs (negsuc i) = none

first_iter-off_head :
    (cs : List ℕ) → Chain.IsFresh head cs → off_head (Chain.first_of cs head) ≡ first_iter cs
first_iter-off_head [] f = refl
first_iter-off_head (c ∷ cs) f = ground (arith, f.0)

last_iter-off_head :
    (cs : List ℕ) → Chain.IsFresh head cs → off_head (Chain.last_of head cs) ≡ last_iter cs
last_iter-off_head [] f = refl
last_iter-off_head (c ∷ []) f = ground (arith, f.0)
last_iter-off_head (c ∷ d ∷ cs) f = last_iter-off_head (d ∷ cs) f.1

-- The cells of `ys`, counted from `count`.
abbrev counted_from : List ℕ → ℕ → ℤ → Option ℕ
counted_from [] count index = none
counted_from (y ∷ ys) count index =
    if pos count ==ℤ index then some y else counted_from ys (suc count) index

empty-cells :
    (cs : List ℕ)
    → Chain.IsFresh head cs
    → (if Chain.first_of cs head == head then true else Chain.last_of head cs == head)
      ≡ (length cs == 0)
empty-cells [] f = refl
empty-cells (c ∷ cs) f = ground (arith, f.0, Chain.All-last (λ d. d ≢ head) c cs f.0 f.1)

counted_from-entry :
    (ys : List ℕ) (count : ℕ) (i : ℕ) → counted_from ys count (pos (count + i)) ≡ entry ys i
counted_from-entry [] count i = refl
counted_from-entry (y ∷ ys) count zero = ground arith
counted_from-entry (y ∷ ys) count (suc i) = ground (arith, counted_from-entry ys (suc count) i)

counted_from-negative : (ys : List ℕ) (count : ℕ) (i : ℕ) → counted_from ys count (negsuc i) ≡ none
counted_from-negative [] count i = refl
counted_from-negative (y ∷ ys) count i = ground (arith, counted_from-negative ys (suc count) i)

module _ {ℓ} {D : Type ℓ} where
  next-first :
      (t : Ylist D) (xs : List ℕ) (a : ℕ) (ys : List ℕ)
      → IsRing t (xs ++ (a ∷ ys))
      → t.next a ≡ Chain.first_of ys head
  next-first t xs a ys r =
      sym (ap t.next (Chain.last_of-append head xs a))
      ∙ (Chain.IsChain-last t.next t.prev head (xs ++ (a ∷ [])) ys head (
          subst (λ l. Chain.IsChain t.next t.prev head l head) (sym (append_assoc xs (a ∷ []) ys))
            r.chain)).0

  -- The iterators at a cell of a well-formed list lead to the cells beside it, and to NULL at the
  -- ends.
  pub ylist_next-and_prev :
      (t : Ylist D) (xs : List ℕ) (a : ℕ) (ys : List ℕ)
      → IsRing t (xs ++ (a ∷ ys))
      → (ylist_next t (some a) ≡ some (first_iter ys))
        × (ylist_prev t (some a) ≡ some (last_iter xs))
  unfolding ylist_next ylist_prev
  ylist_next-and_prev t xs a ys r =
      let live = All-at _ xs a ys r.live.1 in
      let away = All-append_right _ xs (a ∷ ys) r.apart.0 in
      let ahead = All-append_left _ xs (a ∷ ys) r.apart.0 in
      let before = (Chain.IsChain-last t.next t.prev head xs (a ∷ ys) head r.chain).1 in
      (
        rw (live, next-first t xs a ys r) (ap some (first_iter-off_head ys away.1)),
        rw (live, before) (ap some (last_iter-off_head xs ahead)),
      )

  -- From a well-formed list: its first and its last iterator, whether it is empty, and its length
  -- modulo 2 ^ 32.
  pub ylist_first-and_last :
      (t : Ylist D) (cs : List ℕ)
      → IsRing t cs
      → (ylist_first t ≡ some (first_iter cs))
        × (ylist_last t ≡ some (last_iter cs))
        × (ylist_empty t ≡ some (length cs == 0))
        × (ylist_size t ≡ length cs % 2 ^ 32)
  unfolding ylist_first ylist_last ylist_empty ylist_size
  ylist_first-and_last t cs r =
      let first = (Chain.IsChain-last t.next t.prev head [] cs head r.chain).0 in
      let last =
        (Chain.IsChain-last t.next t.prev head cs [] head
          (subst (λ l. Chain.IsChain t.next t.prev head l head) (sym (append-nil cs)) r.chain)).1 in
      (
        rw (r.live.0, first) (ap some (first_iter-off_head cs r.apart.0)),
        rw (r.live.0, last) (ap some (last_iter-off_head cs r.apart.0)),
        rw (r.live.0, first, last) (ap some (empty-cells cs r.apart.0)),
        omega (arith, r.counted),
      )

  index_loop-counted_from :
      (fuel : ℕ) (t : Ylist D) (xs ys : List ℕ) (count : ℕ) (index : ℤ)
      → IsRing t (xs ++ ys)
      → length ys < fuel
      → index_loop fuel t (first_iter ys) count index ≡ some (counted_from ys count index)
  unfolding index_loop
  index_loop-counted_from zero t xs ys count index r l = elim l [ ]
  index_loop-counted_from (suc fuel) t xs [] count index r l = refl
  index_loop-counted_from (suc fuel) t xs (y ∷ ys) count index r l =
      let ih =
        index_loop-counted_from fuel t (xs ++ (y ∷ [])) ys (suc count) index
          (subst (IsRing t) (sym (append_assoc xs (y ∷ []) ys)) r) (omega arith) in
      ground (arith, (ylist_next-and_prev t xs y ys r).0, ih)

  -- ylist_index gives the iterator at a place of a well-formed list, NULL past its end and for a
  -- negative place, whenever its fuel is more than the length of the list.
  pub ylist_index_lem :
      (fuel : ℕ) (t : Ylist D) (cs : List ℕ) (index : ℤ)
      → IsRing t cs
      → length cs < fuel
      → ylist_index fuel t index ≡ some (entry_ℤ cs index)
  unfolding ylist_index
  ylist_index_lem fuel t cs index r l =
      rw ((ylist_first-and_last t cs r).0)
        (index_loop-counted_from fuel t [] cs 0 index r l ∙ ap some (at index))
    where
      at : (i : ℤ) → counted_from cs 0 i ≡ entry_ℤ cs i
      at (pos i) =
          subst (λ j. counted_from cs 0 (pos j) ≡ entry cs i) (omega arith)
            (counted_from-entry cs 0 i)
      at (negsuc i) = counted_from-negative cs 0 i

  back-contents :
      (t : Ylist D) (c : ℕ) (cs : List ℕ)
      → back (contents t (c ∷ cs)) ≡ t.content (Chain.last_of c cs)
  back-contents t c [] = refl
  back-contents t c (d ∷ cs) = back-contents t d cs

  -- ylist_front and ylist_back of a well-formed list return its first and its last data, and NULL of
  -- an empty list.
  pub ylist_front-and_back :
      (t : Ylist D) (es : List (Option D))
      → Holds t es
      → (ylist_front t ≡ some (front es)) × (ylist_back t ≡ some (back es))
  unfolding ylist_front ylist_back
  ylist_front-and_back t es ([], r, e) =
      rw (sym e) (simp (r.live.0, r.chain.0), simp (r.live.0, r.chain.1))
  ylist_front-and_back t es (c ∷ cs, r, e) =
      let last =
        (Chain.IsChain-last t.next t.prev head (c ∷ cs) [] head (
          subst (λ l. Chain.IsChain t.next t.prev head l head) (sym (append-nil (c ∷ cs)))
            r.chain)).1 in
      let live = Chain.All-last (λ d. t.live d ≡ true) c cs r.live.1.0 r.live.1.1 in
      let away = Chain.All-last (λ d. d ≢ head) c cs r.apart.0.0 r.apart.0.1 in
      let first : (c == head) ≡ false = ground (arith, r.apart.0.0) in
      let end : (Chain.last_of c cs == head) ≡ false = ground (arith, away) in
      rw (sym e, back-contents t c cs)
        (simp (r.live.0, r.chain.0, first, r.live.1.0), simp (r.live.0, last, end, live))

module _ {ℓ μ} {D : Type ℓ} {S : Type μ} (cb : Visitor D S) where
  -- The callback on the data of a list, in order: its first result other than 0, or the last result;
  -- `res` of an empty list.
  unfoldable pub visit_all : List (Option D) → ℤ → S → ℤ × S
  visit_all [] res s = (res, s)
  visit_all (e ∷ es) res s =
      let (res', s') = cb e s in
      let rest = visit_all es res' s' in if res' ==ℤ pos 0 then rest else (res', s')

  traverse_loop-visit_all :
      (fuel : ℕ) (t : Ylist D) (xs ys : List ℕ) (res : ℤ) (s : S)
      → IsRing t (xs ++ ys)
      → length ys < fuel
      → traverse_loop cb fuel t (Chain.first_of ys head) res s
        ≡ some (visit_all (contents t ys) res s)
  unfolding traverse_loop visit_all
  traverse_loop-visit_all zero t xs ys res s r l = elim l [ ]
  traverse_loop-visit_all (suc fuel) t xs [] res s r l = refl
  traverse_loop-visit_all (suc fuel) t xs (y ∷ ys) res s r l =
      let step = cb (t.content y) s in
      let ih =
        traverse_loop-visit_all fuel t (xs ++ (y ∷ [])) ys step.0 step.1
          (subst (IsRing t) (sym (append_assoc xs (y ∷ []) ys)) r) (omega arith) in
      let live = All-at _ xs y ys r.live.1 in
      let apart : (y == head) ≡ false = ground (arith, All-at _ xs y ys r.apart.0) in
      let next = next-first t xs y ys r in rw (apart, live, next, ih) (ground arith)

  -- On a well-formed list ylist_traverse ends, and is the walk along its data; -1 on an empty list.
  pub ylist_traverse_visits :
      (fuel : ℕ) (t : Ylist D) (cs : List ℕ) (s : S)
      → IsRing t cs
      → length cs < fuel
      → ylist_traverse cb fuel t s ≡ some (visit_all (contents t cs) (negsuc 0) s)
  unfolding ylist_traverse
  ylist_traverse_visits fuel t cs s r l =
      let first = (Chain.IsChain-last t.next t.prev head [] cs head r.chain).0 in
      rw (r.live.0, first) (traverse_loop-visit_all fuel t [] cs (negsuc 0) s r l)
