-- ===== src/Ytree/Tests.antt =====
-- Runs of the tree of ydb/ytree.c, and its theorems at concrete trees.
use libydb.Prelude.{
  ℕ, ◌+◌, ◌≤◌, ◌^◌, suc, ◌≡◌, refl, pos, negsuc, true, false, Option, none, some, List, [], ◌∷◌,
  ◌++◌, ◌>>=◌, arith, Returns, Ensures, inl, ◌==◌, if◌then◌else◌,
}
use mathlib.Core.List.{Perm}
use libydb.Order.{nat_ord}
use libydb.Dict
use libydb.Dict.{IsSorted}
use libydb.Ytree.{Tree, null, node, Frame, from_left, from_right, plug, Place, root_of, write_at}
use libydb.Ytree.Api.{Ytree, Freed, ytree_create, ytree_insert, ytree_delete}
use libydb.Ytree.Node.{insert_walk, search_node}
use libydb.Ytree.Balance.{insert_balance, insert_delta, delete_balance, delete_delta, insert_round}
use libydb.Ytree.Balance.{insert_left_heavy, insert_right_heavy}
use libydb.Ytree.Rotate.{rotate_left, rotate_right, rotate_left_right, rotate_right_left}
use libydb.Ytree.Rotate.{left_right_balances, right_left_balances}
use libydb.Ytree.Avl.{IsAvl}
use libydb.Ytree.Avl.Insert.{insert_balance-IsAvl}
use libydb.Ytree.Avl.Delete.{delete_balance-IsAvl}
use libydb.Ytree.Avl.Depth.{search_node-depth}
use libydb.Ytree.Entries.{entries}
use libydb.Ytree.Entries.Rebalance.{Holds, insert_balance-Holds, delete_balance-Holds}
use libydb.Ytree.Api.Refine.{
  IsValid, Yields, frees, data_of, ytree_insert_refines, ytree_delete_refines,
}
use libydb.Ytree.Iterate.{nodes, Callback, tree_prev_node, ytree_traverse}
use libydb.Ytree.Iterate.Order.{tree_of, preceding, following}
use libydb.Ytree.Iterate.Traverse.{visit, ytree_traverse_visits}
use libydb.Ytree.Nearby.{
  nearest, nearest_walk, ytree_find_nearest, ytree_find_nearby, ytree_traverse_in_range,
}
use libydb.Ytree.Nearby.Range.{base_if, bounded, traverse_in_range_visits}
use libydb.Ytree.Client.{
  TreeCall, call_insert, call_insert_custom, call_delete, call_delete_custom, call_search, run_tree,
  dict_after, answers, Represents, ytree_run_refines,
}
use libydb.Ytree.Push.{ytree_push, ytree_push_refines}
use libydb.Ytree.Remove.{ytree_remove, ytree_destroy_custom}
use libydb.Ytree.Remove.Order.{Removes, last_key, ytree_remove_refines}
use libydb.Ytree.Remove.Destroy.{free_all, ytree_destroy_frees_all}

-- Keys 1 to 7, each with the data key + 10, in a full tree.
abbrev leaf : ℕ → Tree ℕ ℕ
leaf k = node null k (some (k + 10)) (pos 0) null

abbrev low : Tree ℕ ℕ
low = node (leaf 1) 2 (some 12) (pos 0) (leaf 3)

abbrev high : Tree ℕ ℕ
high = node (leaf 5) 6 (some 16) (pos 0) (leaf 7)

abbrev full : Tree ℕ ℕ
full = node low 4 (some 14) (pos 0) high

abbrev sample : Ytree ℕ ℕ
sample = record { root = full; size = 7; key_free = true; data_free = false; freed = [] }

-- The node of the key 6.
abbrev six : Place ℕ ℕ
six = record {
  ancestors = from_right low 4 (some 14) (pos 0) ∷ [];
  left = leaf 5;
  key = 6;
  value = some 16;
  balance = pos 0;
  right = leaf 7;
}

insert_all : List ℕ → Ytree ℕ ℕ → Option (Ytree ℕ ℕ)
insert_all [] t = some t
insert_all (k ∷ ks) t = ytree_insert t k (some (k + 10)) >>= λ r. insert_all ks r.0

-- Ascending insertion ends in the full tree.
insert_all_ascending : insert_all (1 ∷ 2 ∷ 3 ∷ 4 ∷ 5 ∷ 6 ∷ 7 ∷ []) (ytree_create true) ≡ some sample
unfolding insert_all ytree_create ytree_insert insert_walk insert_balance insert_round
    insert_left_heavy insert_right_heavy rotate_left rotate_right rotate_left_right
    rotate_right_left left_right_balances right_left_balances root_of write_at
insert_all_ascending = refl

full-IsAvl : IsAvl full
full-IsAvl = ground arith

full-IsSorted : IsSorted (entries full)
full-IsSorted = ground arith

sample-IsValid : IsValid sample
sample-IsValid = record { avl = full-IsAvl; sorted = full-IsSorted; counted = refl }

ytree_insert_refines_example :
    Yields sample
      (Dict.insert 3 (some 99) (entries full))
      (frees true (λ _. []) (Dict.find 3 (entries full)))
      (data_of (Dict.find 3 (entries full)))
      (ytree_insert sample 3 (some 99))
ytree_insert_refines_example = ytree_insert_refines sample 3 (some 99) sample-IsValid

ytree_delete_refines_example :
    Yields sample
      (Dict.erase 4 (entries full))
      (frees true (λ _. []) (Dict.find 4 (entries full)))
      (data_of (Dict.find 4 (entries full)))
      (ytree_delete sample 4)
ytree_delete_refines_example = ytree_delete_refines sample 4 sample-IsValid

abbrev seven_above : Frame ℕ ℕ
seven_above = from_right null 7 (some 17) (pos 0)

abbrev six_above : Frame ℕ ℕ
six_above = from_left 6 (some 16) (pos 0) (leaf 7)

-- The key 8 below the key 7.
insert_balance-IsAvl_example : Returns IsAvl (
    insert_balance
      (from_right (leaf 5) 6 (some 16) (pos 0) ∷ from_right low 4 (some 14) (pos 0) ∷ [])
      (plug seven_above (leaf 8))
      (insert_delta seven_above))
insert_balance-IsAvl_example =
    insert_balance-IsAvl seven_above
      (from_right (leaf 5) 6 (some 16) (pos 0) ∷ from_right low 4 (some 14) (pos 0) ∷ []) (leaf 8) 0
      (ground arith) (inl refl) refl (ground arith)

-- The key 5 is gone from below the key 6.
delete_balance-IsAvl_example : Returns IsAvl (
    delete_balance
      (from_right low 4 (some 14) (pos 0) ∷ [])
      (plug six_above null)
      (delete_delta six_above))
delete_balance-IsAvl_example =
    delete_balance-IsAvl six_above (from_right low 4 (some 14) (pos 0) ∷ []) null (ground arith)
      (ground arith)

insert_balance-Holds_example :
    Ensures
      (Holds (entries (root_of (from_right low 4 (some 14) (pos 1) ∷ []) high)))
      (insert_balance (from_right low 4 (some 14) (pos 1) ∷ []) high (pos 1))
insert_balance-Holds_example =
    insert_balance-Holds (from_right low 4 (some 14) (pos 1) ∷ []) high (pos 1)

delete_balance-Holds_example :
    Ensures
      (Holds (entries (root_of (from_right low 4 (some 14) (pos 0) ∷ []) high)))
      (delete_balance (from_right low 4 (some 14) (pos 0) ∷ []) high (pos 1))
delete_balance-Holds_example =
    delete_balance-Holds (from_right low 4 (some 14) (pos 0) ∷ []) high (pos 1)

-- The key 6 has one ancestor, so there are at least three nodes.
search_six : search_node full [] 6 ≡ some six
unfolding search_node
search_six = refl

search_node-depth_example : 2 ^ 1 ≤ suc (nodes full)
search_node-depth_example = search_node-depth full 6 six 1 full-IsAvl search_six (ground arith)

-- Lists the keys, and stops at the key 6.
abbrev until_six : Callback ℕ ℕ (List ℕ)
until_six k x ks = (if k == 6 then pos 1 else pos 0, k ∷ ks)

ytree_traverse_visits_example :
    ytree_traverse until_six full [] ≡ some (visit until_six (entries full) [])
ytree_traverse_visits_example = ytree_traverse_visits until_six full []

-- The keys 10 and 20 under the root 10.
abbrev tens : Tree ℕ ℕ
tens = node null 10 (some 1) (pos 1) (node null 20 (some 2) (pos 0) null)

tens-IsSorted : IsSorted (entries tens)
tens-IsSorted = ground arith

-- In the tree with the root 20 and the key 10 below it, a search for a greater node than 15 returns
-- the lower node 10, though 20 is there.
abbrev twenty : Tree ℕ ℕ
twenty = node (node null 10 (some 1) (pos 0) null) 20 (some 2) (negsuc 0) null

abbrev ten : Place ℕ ℕ
ten = record {
  ancestors = from_left 20 (some 2) (negsuc 0) null ∷ [];
  left = null;
  key = 10;
  value = some 1;
  balance = pos 0;
  right = null;
}

find_nearby_above : ytree_find_nearby twenty 15 false ≡ some (some ten)
unfolding ytree_find_nearby nearest nearest_walk tree_prev_node
find_nearby_above = refl

-- The range 12 to 15 of the keys 10 and 20: the node 20 is handed over, though it is above the range.
nearest_of_twelve :
    ytree_find_nearest tens 12
    ≡ some (record {
      ancestors = from_right null 10 (some 1) (pos 1) ∷ [];
      left = null;
      key = 20;
      value = some 2;
      balance = pos 0;
      right = null;
    })
unfolding ytree_find_nearest nearest nearest_walk
nearest_of_twelve = refl

abbrev twenty_of_tens : Place ℕ ℕ
twenty_of_tens = record {
  ancestors = from_right null 10 (some 1) (pos 1) ∷ [];
  left = null;
  key = 20;
  value = some 2;
  balance = pos 0;
  right = null;
}

traverse_in_range_visits_example :
    ytree_traverse_in_range until_six tens 12 15 []
    ≡ some (visit until_six (base_if 12 twenty_of_tens ++ bounded 15 (following twenty_of_tens)) [])
traverse_in_range_visits_example =
    traverse_in_range_visits until_six tens 12 15 twenty_of_tens [] tens-IsSorted nearest_of_twelve

nearest_six : ytree_find_nearest full 6 ≡ some six
unfolding ytree_find_nearest nearest nearest_walk
nearest_six = refl

six-tree_of : tree_of six ≡ full
unfolding root_of
six-tree_of = refl

ytree_remove_refines_example :
    Removes sample six (last_key (preceding six)) (ytree_remove sample six)
ytree_remove_refines_example = ytree_remove_refines sample six sample-IsValid six-tree_of

ytree_destroy_frees_all_example :
    (fs : List (Freed ℕ ℕ)) × (ytree_destroy_custom sample true ≡ some ([] ++ fs))
    × Perm fs (free_all true true (entries full))
ytree_destroy_frees_all_example = ytree_destroy_frees_all sample true sample-IsValid

abbrev tree_calls : List (TreeCall ℕ ℕ)
tree_calls =
    call_insert 3 (some 30)
    ∷ call_insert 1 none
    ∷ call_insert_custom 3 (some 31) true
    ∷ call_search 3
    ∷ call_delete 1
    ∷ call_insert 2 (some 20)
    ∷ call_delete_custom 3 false
    ∷ []

ytree_run_refines_example :
    (u : Ytree ℕ ℕ) × (run_tree tree_calls (ytree_create true) ≡ some (u, answers tree_calls []))
    × Represents u (dict_after tree_calls [])
ytree_run_refines_example = ytree_run_refines true tree_calls

ytree_push_refines_example :
    (u : Ytree ℕ ℕ) × (ytree_push sample 3 (some 99)
      ≡ some (u, 3, data_of (Dict.find 3 (entries full))))
    × IsValid u
    × (entries u.root ≡ Dict.insert 3 (some 99) (entries full))
    × (u.freed ≡ [] ++ frees true (λ _. []) (Dict.find 3 (entries full)))
ytree_push_refines_example = ytree_push_refines sample 3 (some 99) sample-IsValid
