-- ===== src/Yarray/Traverse.antt =====
-- ydb/yarray.c: yarray_traverse and yfragment_free, the loops over all entries.
use libydb.Prelude.{
  ℕ, zero, suc, ◌+◌, ◌≡◌, refl, ap, ℤ, pos, negsuc, ◌==ℤ◌, Bool, true, false, if◌then◌else◌, Option,
  List, [], ◌∷◌, ◌++◌, arith,
}
use libydb.Yarray.{Fragment, Yarray, yindex}
use libydb.Yarray.Buffer.{items, all_items, items_from}

-- Gets the index and the data of an entry, and the state `S` behind `addition`.
abbrev pub Visitor {ℓ μ} : Type ℓ → Type μ → Type (ℓ ⊔ μ)
Visitor D S = ℕ → Option D → S → ℤ × S

-- The variables of the loops: whether the callback has stopped them, the index, the result of the
-- last call, and the callback's state.
pub record Progress {μ} (S : Type μ) : Type μ where
  pub stopped : Bool
  pub index : ℕ
  pub res : ℤ
  pub state : S

module _ {ℓ μ} {D : Type ℓ} {S : Type μ} (cb : Visitor D S) where
  -- One call: the index goes on if its result is 0.
  abbrev pub call : Option D → Progress S → Progress S
  call x p =
      let (res, s) = cb p.index x p.state in
      if res ==ℤ pos 0
      then record { stopped = false; index = p.index + 1; res = res; state = s }
      else record { stopped = true; index = p.index; res = res; state = s }

  -- The inner loop, from the local index `i` on, `k` rounds.
  unfoldable pub traverse_slots : Fragment D → ℕ → ℕ → Progress S → Progress S
  traverse_slots fra i zero p = p
  traverse_slots fra i (suc k) p =
      let q = call (fra.slots (yindex fra i)) p in
      let rest = traverse_slots fra (suc i) k q in if q.stopped then q else rest

  unfoldable pub traverse_fragments : List (Fragment D) → Progress S → Progress S
  unfolding traverse_slots
  traverse_fragments [] p = p
  traverse_fragments (fra ∷ fs) p =
      let q = traverse_slots fra 0 fra.n p in
      let rest = traverse_fragments fs q in if q.stopped then q else rest

  unfoldable pub yarray_traverse : Yarray D → S → ℤ × S
  unfolding traverse_fragments
  yarray_traverse a s =
      let p =
        traverse_fragments a.fragments
          (record { stopped = false; index = 0; res = negsuc 0; state = s }) in
      (p.res, p.state)

  -- The callback on a list.
  unfoldable pub visits : List (Option D) → Progress S → Progress S
  visits [] p = p
  visits (x ∷ xs) p = let q = call x p in let rest = visits xs q in if q.stopped then q else rest

  visits-append :
      (xs ys : List (Option D)) (p : Progress S)
      → p.stopped ≡ false
      → visits (xs ++ ys) p
        ≡ (if (visits xs p).stopped then visits xs p else visits ys (visits xs p))
  unfolding visits
  visits-append [] ys p e = rw e refl
  visits-append (x ∷ xs) ys p e = ground (arith, visits-append xs ys (call x p))

  traverse_slots-visits :
      (fra : Fragment D) (i k : ℕ) (p : Progress S)
      → traverse_slots fra i k p ≡ visits (items_from fra.slots fra.front fra.fsize i k) p
  unfolding traverse_slots visits items_from
  traverse_slots-visits fra i zero p = refl
  traverse_slots-visits fra i (suc k) p =
      ground (arith, traverse_slots-visits fra (suc i) k (call (fra.slots (yindex fra i)) p))

  traverse_fragments-visits :
      (fs : List (Fragment D)) (p : Progress S)
      → p.stopped ≡ false
      → traverse_fragments fs p ≡ visits (all_items fs) p
  unfolding traverse_fragments visits
  traverse_fragments-visits [] p e = refl
  traverse_fragments-visits (fra ∷ fs) p e =
      let q = visits (items fra) p in
      rw (traverse_slots-visits fra 0 fra.n p, visits-append (items fra) (all_items fs) p e)
        (ground (arith, traverse_fragments-visits fs q))

  pub yarray_traverse-visits :
      (a : Yarray D) (s : S)
      → let p =
          visits
            (all_items a.fragments)
            (record { stopped = false; index = 0; res = negsuc 0; state = s }) in
        yarray_traverse a s ≡ (p.res, p.state)
  unfolding yarray_traverse
  yarray_traverse-visits a s =
      ap (λ (p : Progress S). (p.res, p.state))
        (traverse_fragments-visits a.fragments
          (record { stopped = false; index = 0; res = negsuc 0; state = s }) refl)
