-- ===== src/Ylist/Iterator/Destroy.antt =====
-- The end of a list: the loop of ylist_destroy and ylist_destroy_custom in ydb/ylist.c.
use libydb.Prelude.{
  ℕ, zero, suc, ◌<◌, ◌≡◌, refl, Bool, if◌then◌else◌, Option, none, some, List, [], ◌∷◌, ◌++◌,
  length, arith,
}
use libydb.Ylist.{Ylist}
use libydb.Ylist.Ends.{Holds, ylist_pop_front_refines}
use libydb.Ylist.Iterator.{destroy_all}

module _ {ℓ} {D : Type ℓ} where
  -- The data in front of the first NULL, and what stands behind that NULL.
  abbrev pub before_null : List (Option D) → List D
  before_null [] = []
  before_null (none ∷ es) = []
  before_null (some x ∷ es) = x ∷ before_null es

  abbrev pub beyond_null : List (Option D) → List (Option D)
  beyond_null [] = []
  beyond_null (none ∷ es) = es
  beyond_null (some x ∷ es) = beyond_null es

  abbrev pub calls_of : Bool → List D → List D
  calls_of ufree [] = []
  calls_of ufree (x ∷ xs) = (if ufree then x ∷ [] else []) ++ calls_of ufree xs

  -- On a well-formed list, with fuel for its length, the loop ends and uses allocated cells only.
  -- It calls `ufree` on the data in front of the first NULL, in order; what stands behind that NULL
  -- is still in the list when the loop ends, and is lost with it.
  pub ylist_destroy_lem :
      (fuel : ℕ) (t : Ylist D) (es : List (Option D)) (ufree : Bool)
      → Holds t es
      → length es < fuel
      → (u : Ylist D) × (destroy_all fuel t ufree ≡ some (u, calls_of ufree (before_null es)))
        × Holds u (beyond_null es)
  unfolding destroy_all
  ylist_destroy_lem zero t es ufree h l = elim l [ ]
  ylist_destroy_lem (suc fuel) t [] ufree h l =
      let (u, e, held) = ylist_pop_front_refines t [] h in (u, rw e refl, held)
  ylist_destroy_lem (suc fuel) t (none ∷ es) ufree h l =
      let (u, e, held) = ylist_pop_front_refines t (none ∷ es) h in (u, rw e refl, held)
  ylist_destroy_lem (suc fuel) t (some x ∷ es) ufree h l =
      let (u, e, held) = ylist_pop_front_refines t (some x ∷ es) h in
      let (v, ended, rest) = ylist_destroy_lem fuel u es ufree held (omega arith) in
      (v, rw (e, ended) refl, rest)
