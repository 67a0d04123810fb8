-- ===== src/Ytree/Client.antt =====
-- A user of the tree of ydb/ytree.c: any sequence of insertions, deletions and searches, from
-- ytree_create on.
use libydb.Prelude.{◌≡◌, refl, ap, Bool, Option, some, ◌>>=◌, List, [], ◌∷◌, ◌∙◌}
use libydb.Order.{Ord}
use libydb.Dict.{Entry, find, insert, erase}
use libydb.Ytree.Entries.{entries}
use libydb.Ytree.Api.{
  Ytree, ytree_create, ytree_insert, ytree_insert_custom, ytree_delete, ytree_delete_custom,
  ytree_search,
}
use libydb.Ytree.Api.Refine.{
  IsValid, data_of, ytree_insert_refines, ytree_insert_custom_refines, ytree_delete_refines,
  ytree_delete_custom_refines, ytree_search_refines,
}

-- The Boolean is whether the caller hands over a `data_free`.
pub data TreeCall {ℓ κ} (K : Type ℓ) (D : Type κ) : Type (ℓ ⊔ κ) where
  call_insert : K → Option D → TreeCall K D
  call_insert_custom : K → Option D → Bool → TreeCall K D
  call_delete : K → TreeCall K D
  call_delete_custom : K → Bool → TreeCall K D
  call_search : K → TreeCall K D

module _ {ℓ κ} {K : Type ℓ} {D : Type κ} ⦃o : Ord K⦄ where
  -- The tree after the calls, and what those that return data returned.
  unfoldable pub run_tree : List (TreeCall K D) → Ytree K D → Option (Ytree K D × List (Option D))
  run_tree [] t = some (t, [])
  run_tree (call_insert k x ∷ cs) t = do
    r ← ytree_insert t k x
    s ← run_tree cs r.0
    some (s.0, r.1 ∷ s.1)
  run_tree (call_insert_custom k x d ∷ cs) t = ytree_insert_custom t k x d >>= λ u. run_tree cs u
  run_tree (call_delete k ∷ cs) t = do
    r ← ytree_delete t k
    s ← run_tree cs r.0
    some (s.0, r.1 ∷ s.1)
  run_tree (call_delete_custom k d ∷ cs) t = ytree_delete_custom t k d >>= λ u. run_tree cs u
  run_tree (call_search k ∷ cs) t = do s ← run_tree cs t; some (s.0, ytree_search t k ∷ s.1)

  -- The same calls on a dictionary.
  unfoldable pub dict_after : List (TreeCall K D) → List (Entry K D) → List (Entry K D)
  dict_after [] es = es
  dict_after (call_insert k x ∷ cs) es = dict_after cs (insert k x es)
  dict_after (call_insert_custom k x d ∷ cs) es = dict_after cs (insert k x es)
  dict_after (call_delete k ∷ cs) es = dict_after cs (erase k es)
  dict_after (call_delete_custom k d ∷ cs) es = dict_after cs (erase k es)
  dict_after (call_search k ∷ cs) es = dict_after cs es

  unfoldable pub answers : List (TreeCall K D) → List (Entry K D) → List (Option D)
  answers [] es = []
  answers (call_insert k x ∷ cs) es = data_of (find k es) ∷ answers cs (insert k x es)
  answers (call_insert_custom k x d ∷ cs) es = answers cs (insert k x es)
  answers (call_delete k ∷ cs) es = data_of (find k es) ∷ answers cs (erase k es)
  answers (call_delete_custom k d ∷ cs) es = answers cs (erase k es)
  answers (call_search k ∷ cs) es = data_of (find k es) ∷ answers cs es

  -- The tree is valid and has these entries.
  abbrev pub Represents : Ytree K D → List (Entry K D) → Type (ℓ ⊔ κ)
  Represents t es = IsValid t × (entries t.root ≡ es)

  run_tree-Represents :
      (cs : List (TreeCall K D)) (t : Ytree K D) (es : List (Entry K D))
      → Represents t es
      → (u : Ytree K D) × (run_tree cs t ≡ some (u, answers cs es))
        × Represents u (dict_after cs es)
  unfolding run_tree answers dict_after
  run_tree-Represents [] t es h = (t, refl, h)
  run_tree-Represents (call_insert k x ∷ cs) t es h =
      let (u, e, v, held, freed) = ytree_insert_refines t k x h.0 in
      let (w, f, m) = run_tree-Represents cs u (insert k x es) (v, held ∙ ap (insert k x) h.1) in
      (w, rw (e, f, h.1) refl, m)
  run_tree-Represents (call_insert_custom k x d ∷ cs) t es h =
      let (u, e, v, held, freed, kept) = ytree_insert_custom_refines t k x d h.0 in
      let (w, f, m) = run_tree-Represents cs u (insert k x es) (v, held ∙ ap (insert k x) h.1) in
      (w, rw (e, f) refl, m)
  run_tree-Represents (call_delete k ∷ cs) t es h =
      let (u, e, v, held, freed) = ytree_delete_refines t k h.0 in
      let (w, f, m) = run_tree-Represents cs u (erase k es) (v, held ∙ ap (erase k) h.1) in
      (w, rw (e, f, h.1) refl, m)
  run_tree-Represents (call_delete_custom k d ∷ cs) t es h =
      let (u, e, v, held, freed) = ytree_delete_custom_refines t k d h.0 in
      let (w, f, m) = run_tree-Represents cs u (erase k es) (v, held ∙ ap (erase k) h.1) in
      (w, rw (e, f) refl, m)
  run_tree-Represents (call_search k ∷ cs) t es h =
      let found = (ytree_search_refines t k h.0).0 in
      let (w, f, m) = run_tree-Represents cs t es h in (w, rw (f, found, h.1) refl, m)

  pub ytree_create-Represents : (keys : Bool) → Represents (ytree_create keys) []
  unfolding ytree_create
  ytree_create-Represents keys = (record { avl = tt; sorted = tt; counted = refl }, refl)

  -- Any sequence of calls on a new tree reads through no NULL, returns what the same calls on an
  -- empty dictionary return, and leaves an AVL tree of the entries of that dictionary.
  pub ytree_run_refines :
      (keys : Bool) (cs : List (TreeCall K D))
      → (u : Ytree K D) × (run_tree cs (ytree_create keys) ≡ some (u, answers cs []))
        × Represents u (dict_after cs [])
  ytree_run_refines keys cs =
      run_tree-Represents cs (ytree_create keys) [] (ytree_create-Represents keys)
