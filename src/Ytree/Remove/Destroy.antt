-- ===== src/Ytree/Remove/Destroy.antt =====
-- ytree_destroy_custom (ydb/ytree.c) ends, and frees every entry once.
use mathlib.Core.List.{Perm, perm_append_comm}
use mathlib.Core.List.Perm
use libydb.Prelude.{
  ℕ, zero, suc, ◌<◌, ◌≡◌, refl, Bool, ◌||◌, Option, none, some, List, [], ◌∷◌, ◌++◌, ◌>>=◌, length,
  length-append, append_assoc, append-nil, sym, ◌∙◌, ap, arith,
}
use libydb.Order.{Ord}
use libydb.Dict.{Entry}
use libydb.Ytree.{Tree, null, node, Place, root_of}
use libydb.Ytree.Iterate.{nodes, tree_top_node}
use libydb.Ytree.Iterate.Order.{preceding, following, entry_at, tree_of}
use libydb.Ytree.Iterate.Traverse.{length-entries}
use libydb.Ytree.Entries.{entries}
use libydb.Ytree.Api.{size_dec, Ytree, Freed, free_key, free_data, tree_delete_node}
use libydb.Ytree.Api.Refine.{IsValid}
use libydb.Ytree.Remove.{destroy_loop, ytree_destroy_custom}
use libydb.Ytree.Remove.Order.{tree_delete_node_lem}

perm_middle_block {ℓ} :
    {A : Type ℓ} (as' xs ys fs : List A) → Perm fs (xs ++ ys) → Perm (as' ++ fs) (xs ++ (as' ++ ys))
perm_middle_block as' xs ys fs p = rw (← append_assoc xs as' ys) (
    Perm.trans (Perm.append_left as' p)
      (rw (← append_assoc as' xs ys) (Perm.append_right ys (perm_append_comm as' xs))))

module _ {ℓ κ} {K : Type ℓ} {D : Type κ} where
  -- The calls that free each of the entries.
  unfoldable pub free_all : Bool → Bool → List (Entry K D) → List (Freed K D)
  free_all keys datas [] = []
  free_all keys datas (e ∷ es) =
      (free_key keys e.0 ++ free_data datas e.1) ++ free_all keys datas es

  free_all-append :
      (b c : Bool) (xs ys : List (Entry K D))
      → free_all b c (xs ++ ys) ≡ free_all b c xs ++ free_all b c ys
  unfolding free_all
  free_all-append b c [] ys = refl
  free_all-append b c (x ∷ xs) ys = rw (free_all-append b c xs ys) (simp append_assoc)

  -- The root's entry may be freed first.
  free_all-middle :
      (b c : Bool) (xs ys : List (Entry K D)) (e : Entry K D) (fs : List (Freed K D))
      → Perm fs (free_all b c (xs ++ ys))
      → Perm ((free_key b e.0 ++ free_data c e.1) ++ fs) (free_all b c (xs ++ (e ∷ ys)))
  unfolding free_all
  free_all-middle b c xs ys e fs p = rw (free_all-append b c xs (e ∷ ys)) (
      perm_middle_block (free_key b e.0 ++ free_data c e.1) (free_all b c xs) (free_all b c ys) fs
        (rw (free_all-append b c xs ys) at p))

  -- The top node is the root, and NULL of an empty tree only.
  abbrev IsTop : Tree K D → Option (Place K D) → Type (ℓ ⊔ κ)
  IsTop root none = entries root ≡ []
  IsTop root (some n) =
      (tree_of n ≡ root) × (entries root ≡ preceding n ++ (entry_at n ∷ following n))

  tree_top_node-IsTop : (root : Tree K D) → IsTop root (tree_top_node root)
  unfolding tree_top_node root_of
  tree_top_node-IsTop null = refl
  tree_top_node-IsTop (node l k x b r) = (refl, simp append-nil)

module _ {ℓ κ} {K : Type ℓ} {D : Type κ} ⦃o : Ord K⦄ where
  -- The loop ends with calls that are those of the entries, in some order.
  abbrev Destroys : Bool → Ytree K D → Option (Ytree K D) → Type (ℓ ⊔ κ)
  Destroys data_free t r =
      (u : Ytree K D) × (fs : List (Freed K D)) × (r ≡ some u)
      × (u.freed ≡ t.freed ++ fs)
      × Perm fs (free_all t.key_free (data_free || t.data_free) (entries t.root))

  destroy_loop-Destroys :
      (fuel : ℕ) (data_free : Bool) (t : Ytree K D)
      → IsValid t
      → length (entries t.root) < fuel
      → Destroys data_free t (destroy_loop fuel data_free t)
  unfolding destroy_loop free_all
  destroy_loop-Destroys zero data_free t v l = elim l [ ]
  destroy_loop-Destroys (suc fuel) data_free t v l =
      round (destroy_loop-Destroys fuel data_free) (tree_top_node t.root)
        (tree_top_node-IsTop t.root)
    where
      round :
          ((u : Ytree K D)
            → IsValid u
            → length (entries u.root) < fuel
            → Destroys data_free u (destroy_loop fuel data_free u))
          → (w : Option (Place K D)) → IsTop t.root w
          → Destroys data_free t (elim w [
            | none ↦ some t
            | some n ↦ tree_delete_node t n >>= λ u. destroy_loop fuel data_free (record u {
              freed =
                  u.freed
                  ++ (free_key u.key_free n.key ++ free_data (data_free || u.data_free) n.value);
            })
          ])
      round rec none h = (t, [], refl, sym (append-nil t.freed), rw h (Perm.refl []))
      round rec (some n) h =
          let (root, deleted, valid, es) = tree_delete_node_lem t n v h.0 in
          let calls = free_key t.key_free n.key ++ free_data (data_free || t.data_free) n.value in
          let c = ap length h.1 in
          let c1 = length-append (preceding n) (entry_at n ∷ following n) in
          let c2 = length-append (preceding n) (following n) in
          let c3 = ap length es in
          let (u, fs, ended, freed, perm) =
            rec (record t { root = root; size = size_dec t.size; freed = t.freed ++ calls }) valid
              (omega arith) in
          (
            u,
            calls ++ fs,
            rw deleted ended,
            freed ∙ append_assoc t.freed calls fs,
            rw h.1 (
                free_all-middle t.key_free (data_free || t.data_free) (preceding n) (following n)
                  (entry_at n) fs (rw es at perm)),
          )

  -- The end of a valid tree: the loop ends and reads through no NULL. The calls that it makes are
  -- those that free the entries of the tree, each once, by the caller's `data_free` or the tree's.
  pub ytree_destroy_frees_all :
      (t : Ytree K D) (data_free : Bool)
      → IsValid t
      → (fs : List (Freed K D)) × (ytree_destroy_custom t data_free ≡ some (t.freed ++ fs))
        × Perm fs (free_all t.key_free (data_free || t.data_free) (entries t.root))
  unfolding ytree_destroy_custom
  ytree_destroy_frees_all t data_free v =
      let (u, fs, ended, freed, perm) =
        destroy_loop-Destroys (suc (nodes t.root)) data_free t v
          (omega (arith, length-entries t.root)) in
      (fs, rw (ended, freed), perm)
