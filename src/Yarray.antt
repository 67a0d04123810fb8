-- ===== src/Yarray.antt =====
-- ydb/yarray.c: an array in fragments, each a circular buffer. The list of the fragments
-- (ydb/ylist.c) is a list here, and a fragment's own iterator is its place in it.
pub mod Buffer
pub mod Take
pub mod Ends
pub mod Get
pub mod Traverse
pub mod Destroy
pub mod Client
pub mod Shift
pub mod Inside
pub mod Merge
pub mod Delete
pub mod Insert
mod Tests
use libydb.Prelude.{
  ℕ, zero, suc, ◌+◌, ◌-◌, ◌%◌, ◌/◌, ◌^◌, ltb, leb, ◌==◌, ℤ, pos, negsuc, ◌-ℤ◌, ◌+ℤ◌, leb_ℤ, ltb_ℤ,
  pos_part, neg_part, ◌==ℤ◌, Bool, true, false, if◌then◌else◌, Option, none, some, ◌>>=◌, List, [],
  ◌∷◌, ◌++◌,
}

-- `struct _yfragment`; NULL data are `none`.
pub record Fragment {ℓ} (D : Type ℓ) : Type ℓ where
  pub n : ℕ
  pub front : ℕ
  pub fsize : ℕ
  pub slots : ℕ → Option D

-- `struct _yarray`
pub record Yarray {ℓ} (D : Type ℓ) : Type ℓ where
  pub fragments : List (Fragment D)
  pub fsize : ℕ
  pub n : ℕ

-- size_t: `n++` and `n--`
abbrev pub size_mod : ℕ
size_mod = 2 ^ 64

-- The slots with the value `x` at `a`.
unfoldable pub write {ℓ} : {A : Type ℓ} → (ℕ → A) → ℕ → A → ℕ → A
write f a x i = if i == a then x else f i

module _ {ℓ} {D : Type ℓ} where
  -- YINDEX, for an index that is not negative
  abbrev pub yindex : Fragment D → ℕ → ℕ
  yindex fra index = (fra.front + index) % fra.fsize

  unfoldable pub yfragment_new : ℕ → Fragment D
  yfragment_new size = record { n = 0; front = 0; fsize = size; slots = λ _. none }

  -- The size is an int; a smaller one than 4 is 4.
  unfoldable pub yarray_create : ℤ → Yarray D
  yarray_create fsize = record {
    fragments = [];
    fsize = if ltb_ℤ fsize (pos 4) then 4 else pos_part fsize;
    n = 0;
  }

  -- `fra->data[YINDEX(fra, fra->n)] = data; fra->n++;`
  abbrev pub put_back : Fragment D → Option D → Fragment D
  put_back fra x = record fra { slots = write fra.slots (yindex fra fra.n) x; n = suc fra.n }

  -- `fra->front = (fra->fsize + fra->front - 1) % fra->fsize;` before the write at the front
  abbrev pub put_front : Fragment D → Option D → Fragment D
  put_front fra x =
      let moved : Fragment D = record fra { front = (fra.fsize + fra.front - 1) % fra.fsize } in
      record moved { slots = write moved.slots (yindex moved 0) x; n = suc fra.n }

  abbrev pub put_first : Fragment D → Option D → Fragment D
  put_first fra x = record fra { slots = write fra.slots 0 x; n = suc fra.n }

  abbrev pub count_up : Yarray D → List (Fragment D) → Yarray D
  count_up a fs = record a { fragments = fs; n = (a.n + 1) % size_mod }

  abbrev pub count_down : Yarray D → List (Fragment D) → Yarray D
  count_down a fs = record a { fragments = fs; n = (a.n + size_mod - 1) % size_mod }

  -- The last fragment, changed.
  unfoldable pub push_back_into : ℕ → Option D → List (Fragment D) → List (Fragment D)
  unfolding yfragment_new
  push_back_into fsize x [] = put_first (yfragment_new fsize) x ∷ []
  push_back_into fsize x (fra ∷ []) =
      if ltb fra.n fra.fsize
      then put_back fra x ∷ []
      else fra ∷ put_first (yfragment_new fsize) x ∷ []
  push_back_into fsize x (fra ∷ f ∷ fs) = fra ∷ push_back_into fsize x (f ∷ fs)

  -- The index returned is that of the new entry, an int.
  unfoldable pub yarray_push_back : Yarray D → Option D → Yarray D × ℕ
  unfolding push_back_into
  yarray_push_back a x = (count_up a (push_back_into a.fsize x a.fragments), a.n)

  unfoldable pub push_front_into : ℕ → Option D → List (Fragment D) → List (Fragment D)
  unfolding yfragment_new
  push_front_into fsize x [] = put_first (yfragment_new fsize) x ∷ []
  push_front_into fsize x (fra ∷ fs) =
      if ltb fra.n fra.fsize
      then put_front fra x ∷ fs
      else put_first (yfragment_new fsize) x ∷ fra ∷ fs

  unfoldable pub yarray_push_front : Yarray D → Option D → Yarray D × ℕ
  unfolding push_front_into
  yarray_push_front a x = (count_up a (push_front_into a.fsize x a.fragments), 0)

  -- The last fragment, without its last entry: `none` is a read before its first slot. With no more
  -- than one entry it is freed.
  unfoldable pub take_back : Fragment D → Option (List (Fragment D) × Option D)
  take_back fra =
      let index = (fra.front + fra.n - 1) % fra.fsize in
      let cut : Fragment D = record fra { slots = write fra.slots index none; n = fra.n - 1 } in
      if fra.front + fra.n == 0
      then none
      else some (if leb fra.n 1 then [] else cut ∷ [], fra.slots index)

  unfoldable pub pop_back_of :
      Fragment D → List (Fragment D) → Option (List (Fragment D) × Option D)
  unfolding take_back
  pop_back_of fra [] = take_back fra
  pop_back_of fra (f ∷ fs) = do r ← pop_back_of f fs; some (fra ∷ r.0, r.1)

  -- On the array's fragments
  unfoldable pub pop_back_at : Yarray D → List (Fragment D) → Option (Yarray D × Option D)
  unfolding pop_back_of
  pop_back_at a [] = some (a, none)
  pop_back_at a (fra ∷ fs) = do r ← pop_back_of fra fs; some (count_down a r.0, r.1)

  unfoldable pub yarray_pop_back : Yarray D → Option (Yarray D × Option D)
  unfolding pop_back_at
  yarray_pop_back a = pop_back_at a a.fragments

  unfoldable pub take_front : Fragment D → List (Fragment D) × Option D
  take_front fra =
      let index = yindex fra 0 in
      let cut : Fragment D = record fra {
        slots = write fra.slots index none;
        front = (fra.front + 1) % fra.fsize;
        n = fra.n - 1;
      } in
      (if leb fra.n 1 then [] else cut ∷ [], fra.slots index)

  unfoldable pub pop_front_at : Yarray D → List (Fragment D) → Yarray D × Option D
  unfolding take_front
  pop_front_at a [] = (a, none)
  pop_front_at a (fra ∷ fs) = (count_down a ((take_front fra).0 ++ fs), (take_front fra).1)

  unfoldable pub yarray_pop_front : Yarray D → Yarray D × Option D
  unfolding pop_front_at
  yarray_pop_front a = pop_front_at a a.fragments

  unfoldable pub yarray_empty : Yarray D → Bool
  yarray_empty a = a.n == 0

  -- An int
  unfoldable pub yarray_size : Yarray D → ℕ
  yarray_size a = a.n % 2 ^ 32
