-- ===== src/Ylist/Tests.antt =====
-- The theorems on the list of ydb/ylist.c at concrete lists.
use libydb.Prelude.{
  ℕ, ◌+◌, ◌≡◌, refl, ◌==◌, pos, true, false, if◌then◌else◌, Option, none, some, List, [], ◌∷◌, ◌++◌,
  arith,
}
use libydb.Ylist.{Ylist, head, ylist_create, ylist_push_back, ylist_pop_front}
use libydb.Ylist.Chain
use libydb.Ylist.Ring.{IsRing, contents, linked}
use libydb.Ylist.Ends.{Holds, front, behind, back, ylist_push_back_refines, ylist_pop_front_refines}
use libydb.Ylist.Client.{
  Call, push_front, push_back, pop_front, pop_back, run, queue_after, popped, ylist_run_refines,
}
use libydb.Ylist.Iterator.{ylist_erase, ylist_insert, ylist_front, ylist_back, destroy_all, Visitor}
use libydb.Ylist.Iterator.Change.{ylist_erase_refines, ylist_insert_refines}
use libydb.Ylist.Iterator.Walk.{ylist_front-and_back}
use libydb.Ylist.Iterator.Destroy.{before_null, beyond_null, calls_of, ylist_destroy_lem}

-- The cells 1, 2 and 3 with the data 10, NULL and 30.
abbrev three : Ylist ℕ
three = record {
  next = λ a. if a == 3 then 0 else a + 1;
  prev = λ a. if a == 0 then 3 else if a == 1 then 0 else if a == 2 then 1 else 2;
  content = λ a. if a == 1 then some 10 else if a == 3 then some 30 else none;
  live = λ a. true;
  fresh = 4;
  size = 3;
}

three-IsRing : IsRing three (1 ∷ 2 ∷ 3 ∷ [])
three-IsRing = record {
  chain = (refl, refl, (refl, refl, (refl, refl, (refl, refl))));
  apart = ground arith;
  live = (refl, (refl, (refl, (refl, tt))));
  bounded = ground arith;
  counted = refl;
}

abbrev datas : List (Option ℕ)
datas = some 10 ∷ none ∷ some 30 ∷ []

three-Holds : Holds three datas
three-Holds = (1 ∷ 2 ∷ 3 ∷ [], three-IsRing, refl)

ylist_push_back_refines_example :
    (u : Ylist ℕ) × (iter : ℕ) × (ylist_push_back three (some 5) ≡ some (u, iter))
    × Holds u (datas ++ (some 5 ∷ []))
ylist_push_back_refines_example = ylist_push_back_refines three datas (some 5) three-Holds

ylist_pop_front_refines_example :
    (u : Ylist ℕ) × (ylist_pop_front three ≡ some (u, front datas)) × Holds u (behind datas)
ylist_pop_front_refines_example = ylist_pop_front_refines three datas three-Holds

abbrev calls : List (Call ℕ)
calls = push_back (some 1) ∷ push_front (some 2) ∷ pop_back ∷ push_back none ∷ pop_front ∷ []

ylist_run_refines_example :
    (u : Ylist ℕ) × (run calls ylist_create ≡ some (u, popped calls []))
    × Holds u (queue_after calls [])
ylist_run_refines_example = ylist_run_refines calls

pops_in_order : popped calls [] ≡ some 1 ∷ some 2 ∷ []
unfolding popped
pops_in_order = refl

ylist_erase_refines_example :
    (u : Ylist ℕ) × (ylist_erase three (some 2) true
      ≡ some (u, some (Chain.last_of head (1 ∷ [])), if true then three.content 2 ∷ [] else []))
    × IsRing u ((1 ∷ []) ++ (3 ∷ []))
    × (contents u ((1 ∷ []) ++ (3 ∷ [])) ≡ contents three (1 ∷ []) ++ contents three (3 ∷ []))
    × (u.live 2 ≡ false)
ylist_erase_refines_example = ylist_erase_refines three (1 ∷ []) 2 (3 ∷ []) true three-IsRing

ylist_insert_refines_example :
    (u : Ylist ℕ) × (ylist_insert three (some (Chain.last_of head (1 ∷ []))) (some 15)
      ≡ some (u, three.fresh))
    × IsRing u ((1 ∷ []) ++ (three.fresh ∷ 2 ∷ 3 ∷ []))
    × (contents u ((1 ∷ []) ++ (three.fresh ∷ 2 ∷ 3 ∷ []))
        ≡ contents three (1 ∷ []) ++ (some 15 ∷ contents three (2 ∷ 3 ∷ [])))
    × (ylist_insert three none (some 15)
        ≡ some (linked three ((1 ∷ []) ++ (2 ∷ 3 ∷ [])) [] (some 15), three.fresh))
ylist_insert_refines_example =
    ylist_insert_refines three (1 ∷ []) (2 ∷ 3 ∷ []) (some 15) three-IsRing

ylist_front-and_back_example :
    (ylist_front three ≡ some (front datas)) × (ylist_back three ≡ some (back datas))
ylist_front-and_back_example = ylist_front-and_back three datas three-Holds

-- Counts the calls and stops at NULL.
abbrev until_null : Visitor ℕ ℕ
until_null none n = (pos 7, n)
until_null (some x) n = (pos 0, n + 1)

ylist_destroy_lem_example :
    (u : Ylist ℕ) × (destroy_all 5 three true ≡ some (u, calls_of true (before_null datas)))
    × Holds u (beyond_null datas)
ylist_destroy_lem_example = ylist_destroy_lem 5 three datas true three-Holds (omega arith)

-- The data 30 behind the NULL is not freed.
freed_of_three : calls_of true (before_null datas) ≡ 10 ∷ []
freed_of_three = refl
