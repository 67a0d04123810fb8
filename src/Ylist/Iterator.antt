-- ===== src/Ylist/Iterator.antt =====
-- ydb/ylist.c, the functions on iterators and those that walk along the list. `none` is the NULL
-- iterator; the outer `none` is an access to a cell that is not allocated, or the end of the fuel.
pub mod Change
pub mod Walk
pub mod Destroy
use libydb.Prelude.{
  ℕ, zero, suc, ◌+◌, ◌%◌, ◌^◌, ◌==◌, ℤ, pos, negsuc, ◌==ℤ◌, Bool, true, false, if◌then◌else◌,
  Option, none, some, ◌>>=◌, List, [], ◌∷◌, ◌++◌,
}
use libydb.Ylist.{
  update, Ylist, head, count_up, count_down, malloc, free, load_next, load_prev, load_data,
  store_next, store_prev, store_data, ylist_push_back, ylist_pop_front,
}

-- Gets the data of an entry, and the state `S` behind `addition`.
abbrev pub Visitor {ℓ μ} : Type ℓ → Type μ → Type (ℓ ⊔ μ)
Visitor D S = Option D → S → ℤ × S

-- The iterator at an address that is not that of the head
abbrev pub off_head : ℕ → Option ℕ
off_head a = if a == head then none else some a

unfoldable pub ylist_done : Option ℕ → Bool
ylist_done none = true
ylist_done (some iter) = iter == head

module _ {ℓ} {D : Type ℓ} where
  -- An int, in 32 bits
  unfoldable pub ylist_size : Ylist D → ℕ
  ylist_size t = t.size % 2 ^ 32

  unfoldable pub ylist_empty : Ylist D → Option Bool
  ylist_empty t = do
    first ← load_next t head
    last ← load_prev t head
    some (if first == head then true else last == head)

  unfoldable pub ylist_front : Ylist D → Option (Option D)
  ylist_front t = do
    iter ← load_next t head
    let x = load_data t iter
    (if iter == head then some none else x)

  unfoldable pub ylist_back : Ylist D → Option (Option D)
  ylist_back t = do
    iter ← load_prev t head
    let x = load_data t iter
    (if iter == head then some none else x)

  unfoldable pub ylist_first : Ylist D → Option (Option ℕ)
  ylist_first t = do iter ← load_next t head; some (off_head iter)

  unfoldable pub ylist_last : Ylist D → Option (Option ℕ)
  ylist_last t = do iter ← load_prev t head; some (off_head iter)

  unfoldable pub ylist_next : Ylist D → Option ℕ → Option (Option ℕ)
  ylist_next t none = some none
  ylist_next t (some iter) = do a ← load_next t iter; some (off_head a)

  unfoldable pub ylist_prev : Ylist D → Option ℕ → Option (Option ℕ)
  ylist_prev t none = some none
  ylist_prev t (some iter) = do a ← load_prev t iter; some (off_head a)

  unfoldable pub ylist_data : Ylist D → Option ℕ → Option (Option D)
  ylist_data t none = some none
  ylist_data t (some iter) = load_data t iter

  -- The loop of ylist_index; `index` is an int.
  unfoldable pub index_loop : ℕ → Ylist D → Option ℕ → ℕ → ℤ → Option (Option ℕ)
  unfolding ylist_next
  index_loop zero t iter count index = none
  index_loop (suc fuel) t none count index = some none
  index_loop (suc fuel) t (some iter) count index =
      let rest = ylist_next t (some iter) >>= λ i. index_loop fuel t i (suc count) index in
      if pos count ==ℤ index then some (some iter) else rest

  unfoldable pub ylist_index : ℕ → Ylist D → ℤ → Option (Option ℕ)
  unfolding ylist_first index_loop
  ylist_index fuel t index = do iter ← ylist_first t; index_loop fuel t iter 0 index

  -- The previous iterator is returned, and the calls of `ufree`, which gets NULL data too.
  unfoldable pub ylist_erase :
      Ylist D → Option ℕ → Bool → Option (Ylist D × Option ℕ × List (Option D))
  ylist_erase t0 none ufree = some (t0, none, [])
  ylist_erase t0 (some iter) ufree =
      let erased = do
        prev ← load_prev t0 iter
        x ← load_data t0 iter
        after ← load_next t0 iter
        t1 ← store_next t0 prev after
        second ← load_next t1 iter
        before ← load_prev t1 iter
        t2 ← store_prev t1 second before
        t3 ← free t2 iter
        some (count_down t3, some prev, if ufree then x ∷ [] else [])
      in if iter == head then some (t0, none, []) else erased

  unfoldable pub ylist_insert : Ylist D → Option ℕ → Option D → Option (Ylist D × ℕ)
  unfolding ylist_push_back
  ylist_insert t0 none x = ylist_push_back t0 x
  ylist_insert t0 (some iter) x = do
    let (t1, new_iter) = malloc t0
    t2 ← store_data t1 new_iter x
    after ← load_next t2 iter
    t3 ← store_next t2 new_iter after
    t4 ← store_prev t3 new_iter iter
    second ← load_next t4 iter
    t5 ← store_prev t4 second new_iter
    t6 ← store_next t5 iter new_iter
    some (count_up t6, new_iter)

  -- The loop of ylist_destroy_custom, which ends at NULL data; ylist_destroy is the one without
  -- `ufree`. The list that is left when the loop has ended, and the calls of `ufree`.
  unfoldable pub destroy_all : ℕ → Ylist D → Bool → Option (Ylist D × List D)
  unfolding ylist_pop_front
  destroy_all zero t ufree = none
  destroy_all (suc fuel) t ufree = do
    r ← ylist_pop_front t
    elim (r.1) [
      | none ↦ some (r.0, [])
      | some x ↦
          destroy_all fuel (r.0) ufree >>= λ s. some (s.0, (if ufree then x ∷ [] else []) ++ s.1)
    ]

module _ {ℓ μ} {D : Type ℓ} {S : Type μ} (cb : Visitor D S) where
  -- `for (...; iter != list->head; iter = iter->next)`, with the result `res` of the call before
  unfoldable pub traverse_loop : ℕ → Ylist D → ℕ → ℤ → S → Option (ℤ × S)
  traverse_loop zero t iter res s = none
  traverse_loop (suc fuel) t iter res s =
      let body = do
        x ← load_data t iter
        let (res', s') = cb x s
        let rest = load_next t iter >>= λ n. traverse_loop fuel t n res' s'
        (if res' ==ℤ pos 0 then rest else some (res', s'))
      in if iter == head then some (res, s) else body

  unfoldable pub ylist_traverse : ℕ → Ylist D → S → Option (ℤ × S)
  unfolding traverse_loop
  ylist_traverse fuel t s = do iter ← load_next t head; traverse_loop fuel t iter (negsuc 0) s
