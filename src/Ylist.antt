-- ===== src/Ylist.antt =====
-- ydb/ylist.c: the circular list over its head, in a memory with a function for each field.
pub mod Chain
pub mod Ring
pub mod Ends
pub mod Iterator
pub mod Client
mod Tests
use libydb.Prelude.{
  ℕ, suc, ◌+◌, ◌-◌, ◌%◌, ◌^◌, ◌==◌, Bool, true, false, if◌then◌else◌, Option, none, some, ◌>>=◌,
}

-- `f` with the value `v` at `a`.
unfoldable pub update {ℓ} : {A : Type ℓ} → (ℕ → A) → ℕ → A → ℕ → A
update f a v x = if x == a then v else f x

-- `struct _ylist`, with the memory of its `struct _ylist_iter`: a pointer is a number, the address of
-- `_head` is 0. `live` says which cells are allocated, and malloc gives the address `fresh`.
pub record Ylist {ℓ} (D : Type ℓ) : Type ℓ where
  pub next : ℕ → ℕ
  pub prev : ℕ → ℕ
  pub content : ℕ → Option D
  pub live : ℕ → Bool
  pub fresh : ℕ
  pub size : ℕ

abbrev pub head : ℕ
head = 0

-- size_t: `size++` and `size--`
abbrev pub count_mod : ℕ
count_mod = 2 ^ 64

module _ {ℓ} {D : Type ℓ} where
  -- Access to a field; `none` where the cell is not allocated.
  abbrev pub load_next : Ylist D → ℕ → Option ℕ
  load_next t a = if t.live a then some (t.next a) else none

  abbrev pub load_prev : Ylist D → ℕ → Option ℕ
  load_prev t a = if t.live a then some (t.prev a) else none

  -- The inner `none` is a NULL in the field `data`.
  abbrev pub load_data : Ylist D → ℕ → Option (Option D)
  load_data t a = if t.live a then some (t.content a) else none

  abbrev pub store_next : Ylist D → ℕ → ℕ → Option (Ylist D)
  store_next t a b = if t.live a then some (record t { next = update t.next a b }) else none

  abbrev pub store_prev : Ylist D → ℕ → ℕ → Option (Ylist D)
  store_prev t a b = if t.live a then some (record t { prev = update t.prev a b }) else none

  abbrev pub store_data : Ylist D → ℕ → Option D → Option (Ylist D)
  store_data t a x = if t.live a then some (record t { content = update t.content a x }) else none

  -- malloc, which does not fail, and free, which needs an allocated cell.
  abbrev pub malloc : Ylist D → Ylist D × ℕ
  malloc t = (record t { live = update t.live t.fresh true; fresh = suc t.fresh }, t.fresh)

  abbrev pub free : Ylist D → ℕ → Option (Ylist D)
  free t a = if t.live a then some (record t { live = update t.live a false }) else none

  abbrev pub count_up : Ylist D → Ylist D
  count_up t = record t { size = (t.size + 1) % count_mod }

  abbrev pub count_down : Ylist D → Ylist D
  count_down t = record t { size = (t.size + count_mod - 1) % count_mod }

  unfoldable pub ylist_create : Ylist D
  ylist_create = record {
    next = λ _. head;
    prev = λ _. head;
    content = λ _. none;
    live = λ a. a == head;
    fresh = 1;
    size = 0;
  }

  unfoldable pub ylist_push_front : Ylist D → Option D → Option (Ylist D × ℕ)
  ylist_push_front t0 x = do
    let (t1, iter) = malloc t0
    t2 ← store_data t1 iter x
    first ← load_next t2 head
    t3 ← store_next t2 iter first
    t4 ← store_prev t3 iter head
    second ← load_next t4 head
    t5 ← store_prev t4 second iter
    t6 ← store_next t5 head iter
    some (count_up t6, iter)

  unfoldable pub ylist_push_back : Ylist D → Option D → Option (Ylist D × ℕ)
  ylist_push_back t0 x = do
    let (t1, iter) = malloc t0
    t2 ← store_data t1 iter x
    t3 ← store_next t2 iter head
    last ← load_prev t3 head
    t4 ← store_prev t3 iter last
    again ← load_prev t4 head
    t5 ← store_next t4 again iter
    t6 ← store_prev t5 head iter
    some (count_up t6, iter)

  -- The inner `none` of the data is NULL: of an empty list, or the data of the entry.
  unfoldable pub ylist_pop_front : Ylist D → Option (Ylist D × Option D)
  ylist_pop_front t0 = do
    iter ← load_next t0 head
    let taken = do
      x ← load_data t0 iter
      after ← load_next t0 iter
      t1 ← store_prev t0 after head
      second ← load_next t1 iter
      t2 ← store_next t1 head second
      t3 ← free (count_down t2) iter
      some (t3, x)
    (if iter == head then some (t0, none) else taken)

  unfoldable pub ylist_pop_back : Ylist D → Option (Ylist D × Option D)
  ylist_pop_back t0 = do
    iter ← load_prev t0 head
    let taken = do
      x ← load_data t0 iter
      before ← load_prev t0 iter
      t1 ← store_next t0 before head
      second ← load_prev t1 iter
      t2 ← store_prev t1 head second
      t3 ← free (count_down t2) iter
      some (t3, x)
    (if iter == head then some (t0, none) else taken)
