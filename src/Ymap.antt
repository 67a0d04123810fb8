-- ===== src/Ymap.antt =====
-- ydb/ymap.c: a tree of keys beside a list in the order of insertion. The data of both are iterators
-- (`struct _ymap_iter`), which stand in a memory of their own.
pub mod Rows
pub mod Keys
pub mod Refine
pub mod Ends
pub mod Client
pub mod Iterator
pub mod Walk
mod Tests
use libydb.Prelude.{
  ℕ, zero, suc, ◌+◌, ◌%◌, ◌^◌, ◌==◌, ℤ, pos, Bool, true, false, if◌then◌else◌, Option, none, some,
  ◌>>=◌, List, [], ◌∷◌, ◌++◌,
}
use libydb.Order.{Ord}
use libydb.Ytree.{Place}
use libydb.Ytree.Api.{
  Ytree, Freed, ytree_create, ytree_size, ytree_insert, ytree_delete, ytree_search,
}
use libydb.Ytree.Iterate.{Callback, ytree_traverse}
use libydb.Ytree.Nearby.{ytree_find_nearby}
use libydb.Ytree.Remove.{ytree_destroy_custom}
use libydb.Ytree.Push.{ytree_data}
use libydb.Ylist.{
  update, Ylist, ylist_create, ylist_push_front, ylist_push_back, ylist_pop_front, ylist_pop_back,
}
use libydb.Ylist.Iterator.{
  Visitor, ylist_empty, ylist_done, ylist_first, ylist_last, ylist_next, ylist_prev, ylist_data,
  ylist_index, ylist_erase, ylist_insert, ylist_traverse,
}

-- `struct _ymap_iter`
pub record Imap {ℓ κ} (K : Type ℓ) (D : Type κ) : Type (ℓ ⊔ κ) where
  pub ilist : ℕ
  pub key : K
  pub value : Option D

-- `struct _ymap`, with the memory of the iterators: `none` is not allocated, and malloc gives `fresh`.
pub record Ymap {ℓ κ} (K : Type ℓ) (D : Type κ) : Type (ℓ ⊔ κ) where
  pub tree : Ytree K ℕ
  pub list : Ylist ℕ
  pub imaps : ℕ → Option (Imap K D)
  pub fresh : ℕ

-- `imap_copy == imap`
abbrev pub is_imap : Option ℕ → ℕ → Bool
is_imap none i = false
is_imap (some j) i = j == i

module _ {ℓ κ} {K : Type ℓ} {D : Type κ} where
  unfoldable pub ymap_create : Bool → Ymap K D
  unfolding ytree_create ylist_create
  ymap_create key_free = record {
    tree = ytree_create key_free;
    list = ylist_create;
    imaps = λ _. none;
    fresh = 0;
  }

  -- The new iterator, whose cell in the list is `ilist`
  abbrev pub with_imap : Ymap K D → Ylist ℕ → ℕ → K → Option D → Ymap K D
  with_imap m list ilist key x = record m {
    list = list;
    imaps = update m.imaps m.fresh (some (record { ilist = ilist; key = key; value = x }));
    fresh = suc m.fresh;
  }

  -- An iterator that the tree handed out leaves the list and is freed; its data is returned.
  unfoldable pub take_out : Ymap K D → Option ℕ → Option (Ymap K D × Option D)
  unfolding ylist_erase
  take_out m none = some (m, none)
  take_out m (some i) = do
    imap ← m.imaps i
    e ← ylist_erase m.list (some imap.ilist) false
    some (record m { list = e.0; imaps = update m.imaps i none }, imap.value)

  unfoldable pub ymap_size : Ymap K D → ℕ
  unfolding ytree_size
  ymap_size m = ytree_size m.tree

  unfoldable pub ymap_first : Ymap K D → Option (Option ℕ)
  unfolding ylist_first ylist_data
  ymap_first m = ylist_first m.list >>= ylist_data m.list

  unfoldable pub ymap_last : Ymap K D → Option (Option ℕ)
  unfolding ylist_last ylist_data
  ymap_last m = ylist_last m.list >>= ylist_data m.list

  unfoldable pub ymap_prev : Ymap K D → Option ℕ → Option (Option ℕ)
  unfolding ylist_prev ylist_data
  ymap_prev m none = some none
  ymap_prev m (some i) = do
    imap ← m.imaps i
    c ← ylist_prev m.list (some imap.ilist)
    ylist_data m.list c

  unfoldable pub ymap_next : Ymap K D → Option ℕ → Option (Option ℕ)
  unfolding ylist_next ylist_first ylist_data
  ymap_next m none = ylist_first m.list >>= ylist_data m.list
  ymap_next m (some i) = do
    imap ← m.imaps i
    c ← ylist_next m.list (some imap.ilist)
    ylist_data m.list c

  unfoldable pub ymap_done : Ymap K D → Option ℕ → Option Bool
  unfolding ylist_done
  ymap_done m none = some true
  ymap_done m (some i) = do imap ← m.imaps i; some (ylist_done (some imap.ilist))

  unfoldable pub ymap_key : Ymap K D → Option ℕ → Option (Option K)
  ymap_key m none = some none
  ymap_key m (some i) = do imap ← m.imaps i; some (some imap.key)

  unfoldable pub ymap_data : Ymap K D → Option ℕ → Option (Option D)
  ymap_data m none = some none
  ymap_data m (some i) = do imap ← m.imaps i; some imap.value

  -- The loop of ylist_index takes fuel.
  unfoldable pub ymap_index : ℕ → Ymap K D → ℤ → Option (Option ℕ)
  unfolding ylist_index ylist_data
  ymap_index fuel m index = ylist_index fuel m.list index >>= ylist_data m.list

module _ {ℓ κ} {K : Type ℓ} {D : Type κ} ⦃o : Ord K⦄ where
  -- The new iterator goes into the tree, and the one that it replaces is taken out.
  unfoldable pub enter_tree : Ymap K D → K → ℕ → Option (Ymap K D × Option D)
  unfolding ytree_insert take_out
  enter_tree m key i = do
    r ← ytree_insert m.tree key (some i)
    take_out (record m { tree = r.0 }) r.1

  unfoldable pub ymap_insert_back : Ymap K D → K → Option D → Option (Ymap K D × Option D)
  unfolding ylist_push_back enter_tree
  ymap_insert_back m key x = do
    r ← ylist_push_back m.list (some m.fresh)
    enter_tree (with_imap m r.0 r.1 key x) key m.fresh

  unfoldable pub ymap_insert_front : Ymap K D → K → Option D → Option (Ymap K D × Option D)
  unfolding ylist_push_front enter_tree
  ymap_insert_front m key x = do
    r ← ylist_push_front m.list (some m.fresh)
    enter_tree (with_imap m r.0 r.1 key x) key m.fresh

  -- The rest of the two functions that pop, on what the list handed out: the key and the data. A
  -- failed assertion is `none`.
  unfoldable pub pop_out : Ymap K D → Ylist ℕ → Option ℕ → Option (Ymap K D × Option (K × Option D))
  unfolding ytree_delete
  pop_out m list none = some (record m { list = list }, none)
  pop_out m list (some i) = do
    imap ← m.imaps i
    s ← ytree_delete m.tree imap.key
    let popped = record m { tree = s.0; list = list; imaps = update m.imaps i none }
    (if is_imap s.1 i then some (popped, some (imap.key, imap.value)) else none)

  unfoldable pub ymap_pop_front : Ymap K D → Option (Ymap K D × Option (K × Option D))
  unfolding ylist_pop_front pop_out
  ymap_pop_front m = do r ← ylist_pop_front m.list; pop_out m r.0 r.1

  unfoldable pub ymap_pop_tail : Ymap K D → Option (Ymap K D × Option (K × Option D))
  unfolding ylist_pop_back pop_out
  ymap_pop_tail m = do r ← ylist_pop_back m.list; pop_out m r.0 r.1

  unfoldable pub ymap_delete : Ymap K D → K → Option (Ymap K D × Option D)
  unfolding ytree_delete take_out
  ymap_delete m key = do r ← ytree_delete m.tree key; take_out (record m { tree = r.0 }) r.1

  unfoldable pub ymap_search : Ymap K D → K → Option (Option D)
  unfolding ytree_search ymap_data
  ymap_search m key = ymap_data m (ytree_search m.tree key)

  unfoldable pub ymap_exist : Ymap K D → K → Bool
  unfolding ytree_search
  ymap_exist m key = elim (ytree_search m.tree key) [ none ↦ false | some i ↦ true ]

  unfoldable pub ymap_find : Ymap K D → K → Option ℕ
  unfolding ytree_search
  ymap_find m key = ytree_search m.tree key

  -- The key and the data of the iterator in the node that was found; a node without one is a read
  -- through NULL.
  unfoldable pub near_imap : Ymap K D → Option (Place K ℕ) → Option (Option (K × Option D))
  unfolding ytree_data
  near_imap m none = some none
  near_imap m (some n) = do
    i ← ytree_data (some n)
    imap ← m.imaps i
    some (some (imap.key, imap.value))

  unfoldable pub ymap_search_nearby : Ymap K D → K → Bool → Option (Option (K × Option D))
  unfolding ytree_find_nearby near_imap
  ymap_search_nearby m key lower = do n ← ytree_find_nearby m.tree.root key lower; near_imap m n

  -- The previous iterator, and the calls of `ufree`, which gets NULL data too.
  unfoldable pub ymap_remove :
      Ymap K D → Option ℕ → Bool → Option (Ymap K D × Option ℕ × List (Option D))
  unfolding ytree_delete ylist_erase ylist_data
  ymap_remove m none ufree = some (m, none, [])
  ymap_remove m (some i) ufree = do
    imap ← m.imaps i
    r ← ytree_delete m.tree imap.key
    let removed = do
      e ← ylist_erase m.list (some imap.ilist) false
      prev ← ylist_data e.0 e.1
      some (
        record m { tree = r.0; list = e.0; imaps = update m.imaps i none },
        prev,
        if ufree then imap.value ∷ [] else [],
      )
    (if is_imap r.1 i then removed else none)

  -- The body of ymap_insert, for a key that is not there.
  unfoldable pub insert_behind : Ymap K D → Option ℕ → K → Option D → Option (Ymap K D × Option ℕ)
  unfolding ylist_insert ytree_insert
  insert_behind m none key x = none
  insert_behind m (some i) key x = do
    imap ← m.imaps i
    r ← ylist_insert m.list (some imap.ilist) (some m.fresh)
    s ← ytree_insert m.tree key (some m.fresh)
    let entered = with_imap (record m { tree = s.0 }) r.0 r.1 key x
    elim (s.1) [ none ↦ some (entered, some m.fresh) | some j ↦ none ]

  unfoldable pub ymap_insert : Ymap K D → Option ℕ → K → Option D → Option (Ymap K D × Option ℕ)
  unfolding ytree_search insert_behind
  ymap_insert m imap key x = elim (ytree_search m.tree key) [
    | none ↦ insert_behind m imap key x
    | some i ↦ some (m, none)
  ]

module _ {ℓ κ} {K : Type ℓ} {D : Type κ} where
  -- The loop of ymap_destroy_custom: the map that is left, and the calls of `ufree`, which gets NULL
  -- data too.
  unfoldable pub destroy_list : ℕ → Bool → Ymap K D → Option (Ymap K D × List (Option D))
  unfolding ylist_empty ylist_pop_front
  destroy_list zero ufree m = none
  destroy_list (suc fuel) ufree m =
      let popped = do
        r ← ylist_pop_front m.list
        i ← r.1
        imap ← m.imaps i
        s ← destroy_list fuel ufree (record m { list = r.0; imaps = update m.imaps i none })
        some (s.0, (if ufree then imap.value ∷ [] else []) ++ s.1)
      in ylist_empty m.list >>= λ done. if done then some (m, []) else popped

  -- The calls that free the keys, and those of `ufree`. At the end the list is empty; ymap_destroy is
  -- the one without `ufree`.
  unfoldable pub ymap_destroy_custom :
      ℕ → Ymap K D → Bool → Option (List (Freed K ℕ) × Ymap K D × List (Option D))
  unfolding ytree_destroy_custom destroy_list
  ymap_destroy_custom fuel m ufree = do
    fs ← ytree_destroy_custom m.tree false
    r ← destroy_list fuel ufree m
    some (fs, r.0, r.1)

module _ {ℓ κ μ} {K : Type ℓ} {D : Type κ} {S : Type μ} (m : Ymap K D) (cb : Callback K D S) where
  -- The callbacks that the map hands to its list and to its tree read an iterator. The state of the
  -- user's callback is `none` after a read of one that is not allocated, which ends the walk.
  unfoldable pub through_imap : (Imap K D → S → ℤ × S) → Option ℕ → Option S → ℤ × Option S
  through_imap f i none = (pos 1, none)
  through_imap f none (some s) = (pos 1, none)
  through_imap f (some i) (some s) = elim (m.imaps i) [
    | none ↦ (pos 1, none)
    | some imap ↦ ((f imap s).0, some (f imap s).1)
  ]

  unfoldable pub ymap_traverse_sub : Callback K ℕ (Option S)
  unfolding through_imap
  ymap_traverse_sub key i s = through_imap (λ imap s'. cb key imap.value s') i s

  unfoldable pub ymap_traverse_order_sub : Visitor ℕ (Option S)
  unfolding through_imap
  ymap_traverse_order_sub i s = through_imap (λ imap s'. cb imap.key imap.value s') i s

  unfoldable pub ymap_traverse : S → Option (ℤ × Option S)
  unfolding ytree_traverse ymap_traverse_sub
  ymap_traverse s = ytree_traverse ymap_traverse_sub m.tree.root (some s)

  unfoldable pub ymap_traverse_order : ℕ → S → Option (ℤ × Option S)
  unfolding ylist_traverse ymap_traverse_order_sub
  ymap_traverse_order fuel s = ylist_traverse ymap_traverse_order_sub fuel m.list (some s)
