-- ===== src/Yarray/Tests.antt =====
-- The theorems on the array of ydb/yarray.c at concrete arrays.
use libydb.Prelude.{
  Option, ℕ, ◌-◌, ◌%◌, ◌≡◌, refl, ◌==◌, pos, negsuc, false, if◌then◌else◌, none, some, List, [],
  ◌∷◌, ◌++◌, arith, length,
}
use libydb.Ylist.Ends.{front, behind}
use libydb.Yarray.{
  Fragment, Yarray, size_mod, yarray_create, yarray_push_back, yarray_pop_back, yarray_pop_front,
}
use libydb.Yarray.Buffer.{IsBuffer, all_items, items_from}
use libydb.Yarray.Ends.{IsArray, yarray_push_back_refines, yarray_pop_front_refines}
use libydb.Yarray.Insert.{yarray_insert}
use libydb.Yarray.Insert.Refine.{yarray_insert_lem}
use libydb.Yarray.Get.{yarray_data}
use libydb.Yarray.Get.Data.{datum_ℤ, yarray_data_lem}
use libydb.Ylist.Client.{Call, push_front, push_back, pop_front, pop_back, queue_after, popped}
use libydb.Yarray.Client.{run_array, Contains, yarray_run_refines}
use libydb.Yarray.Inside.{delete_inside}
use libydb.Yarray.Delete.{yarray_delete, delete_found, merge_around, yfragment_merge_prev}
use libydb.Yarray.Delete.Refine.{IsSliced, yarray_delete_lem}
use libydb.Yarray.Shift.{shift_up, shift_down}
use libydb.Yarray.Get.{yfragment_get, get_forward, get_backward}
use libydb.Yarray.{write, pop_back_at, pop_back_of, take_back}
use libydb.Prelude.{◌>>=◌, ◌-◌, ◌^◌}
use libydb.Yarray.Traverse.{Visitor, visits, yarray_traverse, yarray_traverse-visits}

-- The entries 10, 20 and 30, the first two at the end of their fragment of 4 slots.
abbrev first : Fragment ℕ
first = record {
  n = 2;
  front = 3;
  fsize = 4;
  slots = λ i. if i == 3 then some 10 else if i == 0 then some 20 else none;
}

abbrev second : Fragment ℕ
second = record { n = 1; front = 0; fsize = 4; slots = λ i. if i == 0 then some 30 else none }

abbrev sample : Yarray ℕ
sample = record { fragments = first ∷ second ∷ []; fsize = 4; n = 3 }

sample_items : all_items (first ∷ second ∷ []) ≡ some 10 ∷ some 20 ∷ some 30 ∷ []
unfolding items_from
sample_items = refl

sample-IsArray : IsArray sample
unfolding items_from
sample-IsArray = record {
  filled = (
    record {
      buffer = record { front_in = omega arith; fits = omega arith };
      filled = omega arith;
      sized = refl;
    },
    (
      record {
        buffer = record { front_in = omega arith; fits = omega arith };
        filled = omega arith;
        sized = refl;
      },
      tt,
    ),
  );
  sized = omega arith;
  counted = refl;
}

yarray_push_back_refines_example :
    IsArray (yarray_push_back sample (some 40)).0
    × (all_items ((yarray_push_back sample (some 40)).0.fragments)
        ≡ all_items (first ∷ second ∷ []) ++ (some 40 ∷ []))
    × ((yarray_push_back sample (some 40)).1 ≡ length (all_items (first ∷ second ∷ [])) % size_mod)
yarray_push_back_refines_example = yarray_push_back_refines sample (some 40) sample-IsArray

yarray_pop_front_refines_example :
    ((yarray_pop_front sample).1 ≡ front (all_items (first ∷ second ∷ [])))
    × IsArray (yarray_pop_front sample).0
    × (all_items ((yarray_pop_front sample).0.fragments) ≡ behind (all_items (first ∷ second ∷ [])))
yarray_pop_front_refines_example = yarray_pop_front_refines sample sample-IsArray

yarray_data_lem_example :
    yarray_data sample (pos 2) ≡ datum_ℤ (all_items (first ∷ second ∷ [])) (pos 2)
unfolding items_from
yarray_data_lem_example = yarray_data_lem sample (pos 2) sample-IsArray (omega arith)

-- Stops at the index 1.
abbrev until_one : Visitor ℕ (List ℕ)
until_one i x s = (if i == 1 then pos 5 else pos 0, i ∷ s)

yarray_traverse-visits_example :
    let p =
      visits until_one
        (all_items (first ∷ second ∷ []))
        (record { stopped = false; index = 0; res = negsuc 0; state = [] }) in
    yarray_traverse until_one sample [] ≡ (p.res, p.state)
yarray_traverse-visits_example = yarray_traverse-visits until_one sample []

abbrev calls : List (Call ℕ)
calls = push_back (some 1) ∷ push_front (some 2) ∷ pop_back ∷ push_back none ∷ pop_front ∷ []

yarray_run_refines_example :
    (b : Yarray ℕ) × (run_array calls (yarray_create (negsuc 0)) ≡ some (b, popped calls []))
    × Contains b (queue_after calls [])
yarray_run_refines_example = yarray_run_refines (negsuc 0) calls

first-IsBuffer : IsBuffer first
first-IsBuffer = record { front_in = omega arith; fits = omega arith }

sample-IsSliced : IsSliced sample
unfolding items_from
sample-IsSliced = record {
  slices = (
    record { buffer = first-IsBuffer; sized = refl },
    (record { buffer = record { front_in = omega arith; fits = omega arith }; sized = refl }, tt),
  );
  counted = refl;
}

yarray_delete_lem_example :
    (xs ys : List (Option ℕ)) × (length xs ≡ 1)
    × (all_items (first ∷ second ∷ []) ≡ xs ++ ((yarray_delete sample (pos 1)).1 ∷ ys))
    × IsSliced (yarray_delete sample (pos 1)).0
    × (all_items ((yarray_delete sample (pos 1)).0.fragments) ≡ xs ++ ys)
unfolding items_from
yarray_delete_lem_example = yarray_delete_lem sample 1 sample-IsSliced (omega arith) (omega arith)

-- The only entry is deleted: the empty fragment stays in the list, and a pop from the empty array
-- counts the entries down below 0, to the greatest size_t.
abbrev single : Yarray ℕ
single = record { fragments = second ∷ []; fsize = 4; n = 1 }

pop_after_delete :
    (yarray_pop_back (yarray_delete single (pos 0)).0 >>= λ r. some (r.0.n)) ≡ some (2 ^ 64 - 1)
unfolding yarray_delete delete_found merge_around yfragment_merge_prev yfragment_get get_forward
    get_backward delete_inside shift_up shift_down yarray_pop_back pop_back_at pop_back_of take_back
    write
pop_after_delete = refl

abbrev full : Fragment ℕ
full = record { n = 2; front = 1; fsize = 2; slots = λ i. if i == 1 then some 10 else some 20 }

-- An array whose only fragment is full, so that an insertion needs another one.
abbrev tight : Yarray ℕ
tight = record { fragments = full ∷ []; fsize = 2; n = 2 }

tight-IsSliced : IsSliced tight
unfolding items_from
tight-IsSliced = record {
  slices =
      (record { buffer = record { front_in = omega arith; fits = omega arith }; sized = refl }, tt);
  counted = refl;
}

yarray_insert_lem_example :
    (xs ys : List (Option ℕ)) × (length xs ≡ 1)
    × (all_items (full ∷ []) ≡ xs ++ ys)
    × IsSliced (yarray_insert tight (pos 1) (some 15)).0
    × (all_items ((yarray_insert tight (pos 1) (some 15)).0.fragments) ≡ xs ++ (some 15 ∷ ys))
    × ((yarray_insert tight (pos 1) (some 15)).1 ≡ pos 1)
unfolding items_from
yarray_insert_lem_example =
    yarray_insert_lem tight 1 (some 15) tight-IsSliced (omega arith) (omega arith)
