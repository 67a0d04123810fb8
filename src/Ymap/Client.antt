-- ===== src/Ymap/Client.antt =====
-- A user of the map of ydb/ymap.c: any sequence of calls on a new map, against a list of entries.
use libydb.Prelude.{◌≡◌, refl, Bool, Option, some, ◌>>=◌, List, [], ◌∷◌, ◌++◌}
use libydb.Order.{Ord}
use libydb.Keyed.{seek, without}
use libydb.Dict.{Entry}
use libydb.Ytree.Api.Refine.{data_of}
use libydb.Ymap.{
  Ymap, ymap_create, ymap_insert_back, ymap_insert_front, ymap_pop_front, ymap_pop_tail,
  ymap_delete, ymap_search,
}
use libydb.Ymap.Refine.{
  entry_key, Maps, ymap_insert_back_refines, ymap_insert_front_refines, ymap_delete_refines,
}
use libydb.Ymap.Ends.{
  first, behind_first, last, ahead_of_last, ymap_create-Maps, ymap_pop_front_refines,
  ymap_pop_tail_refines, ymap_search_refines,
}

pub data MapCall {ℓ κ} (K : Type ℓ) (D : Type κ) : Type (ℓ ⊔ κ) where
  insert_back : K → Option D → MapCall K D
  insert_front : K → Option D → MapCall K D
  pop_front : MapCall K D
  pop_tail : MapCall K D
  delete : K → MapCall K D
  search : K → MapCall K D

-- What a call returns: data, or the key and the data that a pop hands over.
pub data Answer {ℓ κ} (K : Type ℓ) (D : Type κ) : Type (ℓ ⊔ κ) where
  data_out : Option D → Answer K D
  entry_out : Option (Entry K D) → Answer K D

module _ {ℓ κ} {K : Type ℓ} {D : Type κ} ⦃o : Ord K⦄ where
  call_map : MapCall K D → Ymap K D → Option (Ymap K D × Answer K D)
  call_map (insert_back q x) m = do r ← ymap_insert_back m q x; some (r.0, data_out r.1)
  call_map (insert_front q x) m = do r ← ymap_insert_front m q x; some (r.0, data_out r.1)
  call_map pop_front m = do r ← ymap_pop_front m; some (r.0, entry_out r.1)
  call_map pop_tail m = do r ← ymap_pop_tail m; some (r.0, entry_out r.1)
  call_map (delete q) m = do r ← ymap_delete m q; some (r.0, data_out r.1)
  call_map (search q) m = do r ← ymap_search m q; some (m, data_out r)

  -- The same call on the entries in their order.
  call_list : MapCall K D → List (Entry K D) → List (Entry K D) × Answer K D
  call_list (insert_back q x) es =
      (without entry_key q es ++ ((q, x) ∷ []), data_out (data_of (seek entry_key q es)))
  call_list (insert_front q x) es =
      ((q, x) ∷ without entry_key q es, data_out (data_of (seek entry_key q es)))
  call_list pop_front es = (behind_first es, entry_out (first es))
  call_list pop_tail es = (ahead_of_last es, entry_out (last es))
  call_list (delete q) es = (without entry_key q es, data_out (data_of (seek entry_key q es)))
  call_list (search q) es = (es, data_out (data_of (seek entry_key q es)))

  unfoldable pub run_map : List (MapCall K D) → Ymap K D → Option (Ymap K D × List (Answer K D))
  unfolding call_map
  run_map [] m = some (m, [])
  run_map (c ∷ cs) m = do r ← call_map c m; s ← run_map cs r.0; some (s.0, r.1 ∷ s.1)

  unfoldable pub run_list :
      List (MapCall K D) → List (Entry K D) → List (Entry K D) × List (Answer K D)
  unfolding call_list
  run_list [] es = (es, [])
  run_list (c ∷ cs) es = let r = call_list c es in let s = run_list cs r.0 in (s.0, r.1 ∷ s.1)

  call_map-Maps :
      (c : MapCall K D) (m : Ymap K D) (es : List (Entry K D))
      → Maps m es
      → (u : Ymap K D) × (call_map c m ≡ some (u, (call_list c es).1)) × Maps u (call_list c es).0
  unfolding call_map call_list
  call_map-Maps (insert_back q x) m es h =
      let (u, e, k) = ymap_insert_back_refines m es q x h in (u, rw e refl, k)
  call_map-Maps (insert_front q x) m es h =
      let (u, e, k) = ymap_insert_front_refines m es q x h in (u, rw e refl, k)
  call_map-Maps pop_front m es h =
      let (u, e, k) = ymap_pop_front_refines m es h in (u, rw e refl, k)
  call_map-Maps pop_tail m es h = let (u, e, k) = ymap_pop_tail_refines m es h in (u, rw e refl, k)
  call_map-Maps (delete q) m es h =
      let (u, e, k) = ymap_delete_refines m es q h in (u, rw e refl, k)
  call_map-Maps (search q) m es h =
      let (e, _, _) = ymap_search_refines m es q h in (m, rw e refl, h)

  run_map-Maps :
      (cs : List (MapCall K D)) (m : Ymap K D) (es : List (Entry K D))
      → Maps m es
      → (u : Ymap K D) × (run_map cs m ≡ some (u, (run_list cs es).1)) × Maps u (run_list cs es).0
  unfolding run_map run_list
  run_map-Maps [] m es h = (m, refl, h)
  run_map-Maps (c ∷ cs) m es h =
      let (u, e, k) = call_map-Maps c m es h in
      let (v, f, l) = run_map-Maps cs u (call_list c es).0 k in (v, rw (e, f) refl, l)

  -- Any sequence of insertions at both ends, pops at both ends, deletions and searches on a new map
  -- uses allocated memory only, fails no assertion, returns what the same calls on a list of entries
  -- with one entry for a key return, and leaves the entries of that list in their order.
  pub ymap_run_refines :
      (key_free : Bool) (cs : List (MapCall K D))
      → (u : Ymap K D) × (run_map cs (ymap_create key_free) ≡ some (u, (run_list cs []).1))
        × Maps u (run_list cs []).0
  ymap_run_refines key_free cs =
      run_map-Maps cs (ymap_create key_free) [] (ymap_create-Maps key_free)
