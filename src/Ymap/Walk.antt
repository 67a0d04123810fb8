-- ===== src/Ymap/Walk.antt =====
-- The walk along a map of ydb/ymap.c in the order of its list, and the end of a map.
use mathlib.Core.List.{Perm}
use libydb.Prelude.{
  ℕ, zero, suc, ◌<◌, ◌≡◌, refl, ap, ◌∙◌, ℤ, pos, negsuc, ◌==ℤ◌, ◌==◌, Bool, true, false,
  if◌then◌else◌, Option, none, some, List, [], ◌∷◌, ◌++◌, map, arith, length, length-map, All,
  Bool-cases, inl, inr,
}
use libydb.Order.{Ord}
use libydb.Dict.{Entry}
use libydb.Ytree.Api.{Freed}
use libydb.Ytree.Entries.{entries}
use libydb.Ytree.Iterate.{Callback}
use libydb.Ytree.Iterate.Traverse.{visit}
use libydb.Ytree.Remove.Destroy.{free_all, ytree_destroy_frees_all}
use libydb.Ylist.{update}
use libydb.Ylist.Ring.{unlinked, pop_front-unlinked}
use libydb.Ylist.Iterator.Walk.{visit_all, ylist_first-and_last, ylist_traverse_visits}
use libydb.Ymap.{
  Ymap, through_imap, ymap_traverse_order_sub, ymap_traverse_order, destroy_list,
  ymap_destroy_custom,
}
use libydb.Ymap.Rows.{Row, cells, Stands, HasRows, unlinked-HasRows, IsRing-at, contents-rows}
use libydb.Ymap.Refine.{pair, IsYmap}

module _ {ℓ κ μ} {K : Type ℓ} {D : Type κ} {S : Type μ} (m : Ymap K D) (cb : Callback K D S) where
  -- What the walk along entries that are in memory returns.
  abbrev walked : ℤ × S → ℤ × Option S
  walked (res, s) = (res, some s)

  -- The result of an empty walk is -1, and of any other the callback's.
  abbrev pub outcome : ℤ → List (Row K D) → S → ℤ × Option S
  outcome res [] s = (res, some s)
  outcome res (r ∷ rows) s = walked (visit cb (map pair (r ∷ rows)) s)

  zero_of : (i : ℤ) → (i ==ℤ pos 0) ≡ true → i ≡ pos 0
  zero_of (pos i) h = ground arith
  zero_of (negsuc i) h = ground arith

  outcome-zero :
      (rows : List (Row K D)) (s : S) → outcome (pos 0) rows s ≡ walked (visit cb (map pair rows) s)
  unfolding visit
  outcome-zero [] s = refl
  outcome-zero (r ∷ rows) s = refl

  order_sub_lem :
      (r : Row K D) (s : S)
      → Stands m.list m.imaps m.fresh r
      → ymap_traverse_order_sub m cb (some r.imap) (some s) ≡ walked (cb r.key r.value s)
  unfolding ymap_traverse_order_sub through_imap
  order_sub_lem r s h = rw (h.1, through_imap) refl

  visit_all-outcome :
      (rows : List (Row K D)) (res : ℤ) (s : S)
      → All (Stands m.list m.imaps m.fresh) rows
      → visit_all (ymap_traverse_order_sub m cb) (map (λ t. some t.imap) rows) res (some s)
        ≡ outcome res rows s
  unfolding visit_all visit
  visit_all-outcome [] res s h = refl
  visit_all-outcome (r ∷ rows) res s h =
      let step = cb r.key r.value s in
      let ih = visit_all-outcome rows step.0 step.1 h.1 in
      elim (Bool-cases (step.0 ==ℤ pos 0)) [
        | inl e ↦
            let z = zero_of step.0 e in
            let tail = ih ∙ ap (λ v. outcome v rows step.1) z ∙ outcome-zero rows step.1 in
            rw (order_sub_lem r s h.0, e) tail
        | inr e ↦ rw (order_sub_lem r s h.0, e) refl
      ]

  -- On a well-formed map ymap_traverse_order ends, reads allocated memory only, and hands the entries
  -- to the callback in the order of the list, until a result other than 0; it is -1 on an empty map.
  pub ymap_traverse_order_visits :
      ⦃o : Ord K⦄ (fuel : ℕ) (rows : List (Row K D)) (s : S)
      → IsYmap m rows
      → length rows < fuel
      → ymap_traverse_order m cb fuel s ≡ some (outcome (negsuc 0) rows s)
  unfolding ymap_traverse_order
  ymap_traverse_order_visits fuel rows s h enough =
      ylist_traverse_visits (ymap_traverse_order_sub m cb) fuel m.list (cells rows) (some s)
        h.in_list.ring (omega (arith, length-map (λ (r : Row K D). r.cell) rows))
      ∙ ap (λ l. some (visit_all (ymap_traverse_order_sub m cb) l (negsuc 0) (some s)))
          (contents-rows m.list m.imaps m.fresh rows h.in_list.stand)
      ∙ ap some (visit_all-outcome rows (negsuc 0) s h.in_list.stand)

module _ {ℓ κ} {K : Type ℓ} {D : Type κ} where
  abbrev pub given : Bool → List (Entry K D) → List (Option D)
  given ufree es = if ufree then map (λ e. e.1) es else []

  given-cons :
      (ufree : Bool) (r : Row K D) (rows : List (Row K D))
      → (if ufree then r.value ∷ [] else []) ++ given ufree (map pair rows)
        ≡ given ufree (map pair (r ∷ rows))
  given-cons true r rows = refl
  given-cons false r rows = refl

  destroy_list-gives :
      (fuel : ℕ) (ufree : Bool) (m : Ymap K D) (rows : List (Row K D))
      → HasRows m.list m.imaps m.fresh rows
      → length rows < fuel
      → (u : Ymap K D) × (destroy_list fuel ufree m ≡ some (u, given ufree (map pair rows)))
        × HasRows u.list u.imaps u.fresh []
  unfolding destroy_list
  destroy_list-gives zero ufree m rows h l = elim l [ ]
  destroy_list-gives (suc fuel) ufree m [] h l =
      let (_, _, empty, _) = ylist_first-and_last m.list [] h.ring in
      elim (Bool-cases ufree) [
        | inl e ↦ (m, rw (empty, e) refl, h)
        | inr e ↦ (m, rw (empty, e) refl, h)
      ]
  destroy_list-gives (suc fuel) ufree m (r ∷ rows) h l =
      let (_, _, empty, _) = ylist_first-and_last m.list (cells (r ∷ rows)) h.ring in
      let (ring, stand) = IsRing-at m.list m.imaps m.fresh [] r rows h in
      let left = unlinked-HasRows m.list m.imaps m.fresh [] r rows h in
      let more : (length (cells (r ∷ rows)) == 0) ≡ false = ground arith in
      let (u, ended, gone) =
        destroy_list-gives fuel ufree
          (record m {
            list = unlinked m.list [] r.cell (cells rows);
            imaps = update m.imaps r.imap none;
          })
          rows left (omega arith) in
      (
        u,
        rw
            (
              empty,
              more,
              pop_front-unlinked m.list r.cell (cells rows) ring,
              stand.0,
              stand.1,
              ended,
            )
            (ap (λ v. some (u, v)) (given-cons ufree r rows)),
        gone,
      )

  -- The end of a well-formed map: the loops end and use allocated memory only. The keys are freed,
  -- each once, if the map has a kfree, and ufree, if it is set, is called on the data of the entries in
  -- their order. No iterator is left in the list.
  pub ymap_destroy_frees_all :
      ⦃o : Ord K⦄ (fuel : ℕ) (m : Ymap K D) (rows : List (Row K D)) (ufree : Bool)
      → IsYmap m rows
      → length rows < fuel
      → (fs : List (Freed K ℕ)) × (u : Ymap K D) × (ymap_destroy_custom fuel m ufree
          ≡ some (m.tree.freed ++ fs, u, given ufree (map pair rows)))
        × Perm fs (free_all m.tree.key_free m.tree.data_free (entries m.tree.root))
        × HasRows u.list u.imaps u.fresh []
  unfolding ymap_destroy_custom
  ymap_destroy_frees_all fuel m rows ufree h enough =
      let (fs, freed, perm) = ytree_destroy_frees_all m.tree false h.in_tree.valid in
      let (u, ended, gone) = destroy_list-gives fuel ufree m rows h.in_list enough in
      (fs, u, rw (freed, ended) refl, perm, gone)
