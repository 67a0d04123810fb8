-- ===== src/Ymap/Tests.antt =====
-- The theorems on the map of ydb/ymap.c at a map of two entries, and a run.
use mathlib.Core.List.{Perm}
use libydb.Prelude.{
  ℕ, ◌==◌, ◌≡◌, refl, pos, negsuc, true, false, if◌then◌else◌, none, some, List, [], ◌∷◌, ◌++◌, map,
  arith,
}
use libydb.Order.{nat_ord}
use libydb.Keyed.{seek, without}
use libydb.Dict.{find}
use libydb.Ytree.{null, node}
use libydb.Ytree.Entries.{entries}
use libydb.Ytree.Api.{Ytree, Freed}
use libydb.Ytree.Iterate.{Callback}
use libydb.Ytree.Remove.Destroy.{free_all}
use libydb.Ylist.{ylist_create}
use libydb.Ylist.Ring.{linked}
use libydb.Ylist.Client.{ylist_create-IsRing}
use libydb.Ymap.{
  Ymap, with_imap, ymap_create, ymap_insert, ymap_remove, ymap_traverse_order, ymap_destroy_custom,
}
use libydb.Ymap.Rows.{Row, HasRows, new_row, linked-HasRows}
use libydb.Ymap.Keys.{HasKeys, row_key}
use libydb.Ymap.Refine.{IsYmap, Maps, pair}
use libydb.Ymap.Client.{
  MapCall, insert_back, insert_front, pop_front, pop_tail, delete, search, run_map, run_list,
  ymap_run_refines, data_out, entry_out,
}
use libydb.Ymap.Iterator.{imap_at, ymap_remove_refines, ymap_insert_refines}
use libydb.Ymap.Ends.{last}
use libydb.Ymap.Walk.{outcome, given, ymap_traverse_order_visits, ymap_destroy_frees_all}

-- The entries 5 ↦ 50 and 3 ↦ NULL, inserted in this order.
abbrev five : Row ℕ ℕ
five = record { cell = 1; imap = 0; key = 5; value = some 50 }

abbrev three : Row ℕ ℕ
three = record { cell = 2; imap = 1; key = 3; value = none }

abbrev tree : Ytree ℕ ℕ
tree = record {
  root = node (node null 3 (some 1) (pos 0) null) 5 (some 0) (negsuc 0) null;
  size = 2;
  key_free = true;
  data_free = false;
  freed = [];
}

abbrev blank : Ymap ℕ ℕ
blank = record { tree = tree; list = ylist_create; imaps = λ _. none; fresh = 0 }

abbrev one_in : Ymap ℕ ℕ
one_in = with_imap blank (linked ylist_create [] [] (some 0)) 1 5 (some 50)

abbrev sample : Ymap ℕ ℕ
sample = with_imap one_in (linked one_in.list (1 ∷ []) [] (some 1)) 2 3 none

tree-HasKeys : HasKeys tree (five ∷ three ∷ [])
unfolding find seek
tree-HasKeys = record {
  valid = record { avl = ground arith; sorted = ground arith; counted = refl };
  finds = λ q. ground arith;
  unique = ((refl, tt), (tt, tt));
  counted = refl;
}

sample-HasRows : HasRows sample.list sample.imaps sample.fresh (five ∷ three ∷ [])
unfolding ylist_create
sample-HasRows = linked-HasRows one_in.list one_in.imaps 1 (five ∷ []) [] 3 none (
    linked-HasRows blank.list blank.imaps 0 [] [] 5 (some 50)
      (record { ring = ylist_create-IsRing; blank = refl; stand = tt; apart = tt }))

sample-IsYmap : IsYmap sample (five ∷ three ∷ [])
sample-IsYmap = record { in_list = sample-HasRows; in_tree = tree-HasKeys }

-- Insertions at both ends, the second of 5 instead of the first; a pop, a deletion and a search.
abbrev calls : List (MapCall ℕ ℕ)
calls =
    insert_back 5 (some 50)
    ∷ insert_back 3 none
    ∷ insert_front 5 (some 51)
    ∷ insert_back 9 (some 90)
    ∷ pop_front
    ∷ delete 9
    ∷ search 3
    ∷ pop_tail
    ∷ []

run_list_lem : run_list calls [] ≡ (
  [],
  data_out none
      ∷ data_out none
      ∷ data_out (some 50)
      ∷ data_out none
      ∷ entry_out (some (5, some 51))
      ∷ data_out (some 90)
      ∷ data_out none
      ∷ entry_out (some (3, none))
      ∷ [],
)
unfolding run_list seek without
run_list_lem = refl

ymap_run_refines_example :
    (u : Ymap ℕ ℕ) × (run_map calls (ymap_create true) ≡ some (u, (run_list calls []).1))
    × Maps u (run_list calls []).0
ymap_run_refines_example = ymap_run_refines true calls

ymap_remove_refines_example :
    (u : Ymap ℕ ℕ) × (ymap_remove sample (some 1) true
      ≡ some (u, imap_at (last (five ∷ [])), if true then none ∷ [] else []))
    × IsYmap u (five ∷ [])
    × (u.imaps 1 ≡ none)
ymap_remove_refines_example = ymap_remove_refines sample (five ∷ []) three [] true sample-IsYmap

ymap_insert_refines_example :
    let new = new_row {K = ℕ} {D = ℕ} sample.list sample.fresh 4 (some 40) in
    ((s : Row ℕ ℕ)
      → seek row_key 4 (five ∷ three ∷ []) ≡ some s
      → ymap_insert sample (some 0) 4 (some 40) ≡ some (sample, none))
    × (seek row_key 4 (five ∷ three ∷ []) ≡ none
        → (u : Ymap ℕ ℕ) × (ymap_insert sample (some 0) 4 (some 40) ≡ some (u, some new.imap))
          × IsYmap u (five ∷ new ∷ three ∷ []))
ymap_insert_refines_example =
    ymap_insert_refines sample [] five (three ∷ []) 4 (some 40) sample-IsYmap

-- Keeps the keys, and stops at 3.
abbrev until_three : Callback ℕ ℕ (List ℕ)
until_three k x s = (if k == 3 then pos 1 else pos 0, k ∷ s)

ymap_traverse_order_visits_example :
    ymap_traverse_order sample until_three 3 []
    ≡ some (outcome sample until_three (negsuc 0) (five ∷ three ∷ []) [])
ymap_traverse_order_visits_example =
    ymap_traverse_order_visits sample until_three 3 (five ∷ three ∷ []) [] sample-IsYmap
      (omega arith)

ymap_destroy_frees_all_example :
    (fs : List (Freed ℕ ℕ)) × (u : Ymap ℕ ℕ) × (ymap_destroy_custom 3 sample true
      ≡ some ([] ++ fs, u, given true (map pair (five ∷ three ∷ []))))
    × Perm fs (free_all true false (entries tree.root))
    × HasRows u.list u.imaps u.fresh []
ymap_destroy_frees_all_example =
    ymap_destroy_frees_all 3 sample (five ∷ three ∷ []) true sample-IsYmap (omega arith)
