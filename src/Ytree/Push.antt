-- ===== src/Ytree/Push.antt =====
-- ydb/ytree.c: ytree_push, and the functions that hand out iterators and read them.
use libydb.Prelude.{◌≡◌, refl, ◌∙◌, false, Option, none, some, ◌>>=◌, [], ◌++◌}
use libydb.Order.{Ord}
use libydb.Dict.{Entry, find, insert}
use libydb.Ytree.{Place}
use libydb.Ytree.Node.{search_node}
use libydb.Ytree.Entries.{entries}
use libydb.Ytree.Entries.Search.{Searched, search_node-Searched}
use libydb.Ytree.Iterate.{tree_top_node, tree_first_node, tree_last_node}
use libydb.Ytree.Api.{Ytree, tree_insert, overwrite, ytree_insert}
use libydb.Ytree.Api.Refine.{IsValid, frees, data_of, ytree_insert_refines}

module _ {ℓ κ} {K : Type ℓ} {D : Type κ} where
  unfoldable pub ytree_top : Ytree K D → Option (Place K D)
  unfolding tree_top_node
  ytree_top t = tree_top_node t.root

  unfoldable pub ytree_first : Ytree K D → Option (Place K D)
  unfolding tree_first_node
  ytree_first t = tree_first_node t.root

  unfoldable pub ytree_last : Ytree K D → Option (Place K D)
  unfolding tree_last_node
  ytree_last t = tree_last_node t.root

  unfoldable pub ytree_data : Option (Place K D) → Option D
  ytree_data none = none
  ytree_data (some n) = n.value

  unfoldable pub ytree_key : Option (Place K D) → Option K
  ytree_key none = none
  ytree_key (some n) = some n.key

  -- The key, or NULL, of an entry that was looked up.
  abbrev pub key_found : Option (Entry K D) → Option K
  key_found none = none
  key_found (some e) = some e.0

module _ {ℓ κ} {K : Type ℓ} {D : Type κ} ⦃o : Ord K⦄ where
  unfoldable pub ytree_find : Ytree K D → K → Option (Place K D)
  unfolding search_node
  ytree_find t key = search_node t.root [] key

  -- The iterator that is returned, at the new node or at the one that was overwritten, is named by
  -- its key; the third result is what goes through `old_data`.
  unfoldable pub ytree_push : Ytree K D → K → Option D → Option (Ytree K D × K × Option D)
  unfolding tree_insert overwrite
  ytree_push t key x = do r ← tree_insert t key x false; s ← overwrite key x r; some (s.0, key, s.1)

  push_insert :
      (t : Ytree K D) (key : K) (x : Option D)
      → ytree_push t key x ≡ (ytree_insert t key x >>= λ s. some (s.0, key, s.1))
  unfolding ytree_push ytree_insert
  push_insert t key x = through (tree_insert t key x false)
    where
      named : Ytree K D × Option D → Option (Ytree K D × K × Option D)
      named s = some (s.0, key, s.1)

      through :
          (r : Option (Ytree K D × Option (Place K D)))
          → (r >>= λ a. (overwrite key x a >>= named)) ≡ ((r >>= overwrite key x) >>= named)
      through none = refl
      through (some a) = refl

  pub ytree_push_refines :
      (t : Ytree K D) (q : K) (x : Option D)
      → IsValid t
      → (u : Ytree K D) × (ytree_push t q x ≡ some (u, q, data_of (find q (entries t.root))))
        × IsValid u
        × (entries u.root ≡ insert q x (entries t.root))
        × (u.freed ≡ t.freed ++ frees t.key_free (λ _. []) (find q (entries t.root)))
  ytree_push_refines t q x v =
      let (u, e, valid, held, freed) = ytree_insert_refines t q x v in
      (u, push_insert t q x ∙ rw e refl, valid, held, freed)

  -- On a valid tree ytree_find gives an iterator at the key, whose data ytree_data reads, where the
  -- dictionary of the entries has it, and NULL where it does not.
  pub ytree_find_refines :
      (t : Ytree K D) (q : K)
      → IsValid t
      → (ytree_data (ytree_find t q) ≡ data_of (find q (entries t.root)))
        × (ytree_key (ytree_find t q) ≡ key_found (find q (entries t.root)))
  unfolding ytree_find ytree_data ytree_key
  ytree_find_refines t q v =
      by_node (search_node t.root [] q) (search_node-Searched t.root [] q v.sorted)
    where
      by_node :
          (w : Option (Place K D))
          → Searched t.root [] q w
          → (ytree_data w ≡ data_of (find q (entries t.root)))
            × (ytree_key w ≡ key_found (find q (entries t.root)))
      by_node none s = rw s.0 (refl, refl)
      by_node (some n) s = rw s.0 (refl, refl)
