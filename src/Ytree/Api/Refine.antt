-- ===== src/Ytree/Api/Refine.antt =====
-- The functions of ydb/ytree.h keep the tree's invariant and do to its entries what the dictionary
-- does.
use libydb.Prelude.{
  ℕ, suc, ◌%◌, ◌≡◌, refl, Bool, true, false, Option, none, some, List, [], ◌∷◌, ◌++◌, ◌>>=◌, length,
  append-nil, sym, ◌∙◌, ap, arith, Returns-and_Ensures,
}
use libydb.Order.{Ord}
use libydb.Dict.{Entry, find, insert, erase, IsSorted, insert-IsSorted, erase-IsSorted}
use libydb.Ytree.{Tree, node, root_of, Place, node_at, write_at}
use libydb.Ytree.Node.{Walk, attached, found, insert_walk, search_node, delete_node}
use libydb.Ytree.Avl.{IsAvl, root_of-IsAvl}
use libydb.Ytree.Avl.Node.{WalkIsAvl, insert_walk-IsAvl, IsAvl-of_root, delete_node-IsAvl}
use libydb.Ytree.Entries.{entries}
use libydb.Ytree.Entries.Insert.{WalkInserts, insert_walk-inserts}
use libydb.Ytree.Entries.Search.{Searched, search_node-Searched}
use libydb.Ytree.Entries.Delete.{delete_node-Holds}
use libydb.Ytree.Api.{
  Ytree, Freed, size_inc, size_dec, free_key, free_data, size_mod, insert_at, overwrite, delete_at,
  ytree_insert, ytree_insert_custom, ytree_delete, ytree_delete_custom, ytree_search, ytree_exist,
}

module _ {ℓ κ} {K : Type ℓ} {D : Type κ} ⦃o : Ord K⦄ where
  -- An AVL tree whose entries are in the order of their keys, each once, and counted by `size`.
  pub record IsValidRoot (root : Tree K D) (size : ℕ) : Type 0 where
    pub avl : IsAvl root
    pub sorted : IsSorted (entries root)
    pub counted : size ≡ length (entries root) % size_mod

  abbrev pub IsValid : Ytree K D → Type 0
  IsValid t = IsValidRoot t.root t.size

  -- The data, or NULL, of an entry that was looked up.
  abbrev pub data_of : Option (Entry K D) → Option D
  data_of none = none
  data_of (some e) = e.1

  abbrev pub is_found : Option (Entry K D) → Bool
  is_found none = false
  is_found (some e) = true

  -- The calls that free the key of an entry that was looked up, and then those of `free` on its data.
  abbrev pub frees : Bool → (Option D → List (Freed K D)) → Option (Entry K D) → List (Freed K D)
  frees keys free none = []
  frees keys free (some e) = free_key keys e.0 ++ free e.1

  pub length-insert :
      (q : K) (x : Option D) (es : List (Entry K D))
      → (find q es ≡ none → length (insert q x es) ≡ suc (length es))
        × ((e : Entry K D) → find q es ≡ some e → length (insert q x es) ≡ length es)
  unfolding insert find
  length-insert q x [] = (λ h. refl, λ e h. cc)
  length-insert q x ((k, y) ∷ es) = ground (arith, length-insert q x es)

  pub length-erase :
      (q : K) (es : List (Entry K D))
      → (find q es ≡ none → length (erase q es) ≡ length es)
        × ((e : Entry K D) → find q es ≡ some e → suc (length (erase q es)) ≡ length es)
  unfolding erase find
  length-erase q [] = (λ h. refl, λ e h. cc)
  length-erase q ((k, y) ∷ es) = ground (arith, length-erase q es)

  -- The call returns; its tree is valid, holds the entries `es`, and has made the calls `fs` since
  -- `t`; beside it stands `x`.
  abbrev pub Yields :
      Ytree K D
      → List (Entry K D)
      → List (Freed K D)
      → Option D
      → Option (Ytree K D × Option D)
      → Type (ℓ ⊔ κ)
  Yields t es fs x r =
      (u : Ytree K D) × (r ≡ some (u, x))
      × IsValid u
      × (entries u.root ≡ es)
      × (u.freed ≡ t.freed ++ fs)

  -- A tree that has taken an entry in is valid, if its size was counted right.
  inserted :
      (t : Ytree K D) (q : K) (x : Option D) (root : Tree K D) (n : ℕ)
      → IsValid t
      → IsAvl root
      → entries root ≡ insert q x (entries t.root)
      → n ≡ length (insert q x (entries t.root)) % size_mod
      → IsValidRoot root n
  inserted t q x root n v a e c = record {
    avl = a;
    sorted = rw e (insert-IsSorted q x (entries t.root) v.sorted);
    counted = rw e c;
  }

  insert_at-Yields :
      (t : Ytree K D) (q : K) (x : Option D) (w : Walk K D)
      → IsValid t
      → WalkIsAvl w
      → WalkInserts t.root [] q x w
      → Yields t
          (insert q x (entries t.root))
          (frees t.key_free (λ _. []) (find q (entries t.root)))
          (data_of (find q (entries t.root)))
          (insert_at t q x false w >>= overwrite q x)
  unfolding insert_at overwrite write_at root_of
  insert_at-Yields t q x (attached none) v a i = absurd a
  insert_at-Yields t q x (attached (some root)) v a i =
      let e : entries root ≡ insert q x (entries t.root) = i.1 ∙ append-nil _ in
      let c = (length-insert q x (entries t.root)).0 i.0 in
      rw i.0 (
        record t { root = root; size = size_inc t.size },
        refl,
        inserted t q x root _ v a e (omega (arith, v.counted)),
        e,
        sym (append-nil t.freed),
      )
  insert_at-Yields t q x (found n) v a i =
      let e : entries (write_at n q x) ≡ insert q x (entries t.root) = i.3 ∙ append-nil _ in
      let c = (length-insert q x (entries t.root)).1 (n.key, n.value) i.0 in
      let avl = root_of-IsAvl n.ancestors (node n.left q x n.balance n.right) a.1 a.0 in
      rw i.0 (
        record t { root = write_at n q x; freed = t.freed ++ free_key t.key_free n.key },
        refl,
        inserted t q x (write_at n q x) t.size v avl e (omega (arith, v.counted)),
        e,
        ap (λ fs. t.freed ++ fs) (sym (append-nil (free_key t.key_free n.key))),
      )

  delete_at-Yields :
      (t : Ytree K D) (q : K) (free : Option D → List (Freed K D)) (w : Option (Place K D))
      → IsValid t
      → Searched t.root [] q w
      → Yields t
          (erase q (entries t.root))
          (frees t.key_free free (find q (entries t.root)))
          (data_of (find q (entries t.root)))
          (delete_at t free w)
  unfolding delete_at root_of
  delete_at-Yields t q free none v s =
      let e : entries t.root ≡ erase q (entries t.root) =
        sym (append-nil _) ∙ sym s.1 ∙ append-nil _ in
      rw s.0 (t, refl, v, e, sym (append-nil t.freed))
  delete_at-Yields t q free (some n) v s =
      let (a, above) = IsAvl-of_root n.ancestors (node_at n) (rw s.3 v.avl) in
      let (root, returned, avl, holds) =
        Returns-and_Ensures IsAvl _ (delete_node n.ancestors n.left n.balance n.right)
          (delete_node-IsAvl n.ancestors n.left n.key n.value n.balance n.right a above)
          (delete_node-Holds n.ancestors n.left n.balance n.right) in
      let e : entries root ≡ erase q (entries t.root) = holds ∙ s.1 ∙ append-nil _ in
      let c = (length-erase q (entries t.root)).1 (n.key, n.value) s.0 in
      rw (s.0, returned)
        (
          record t {
            root = root;
            size = size_dec t.size;
            freed = t.freed ++ (free_key t.key_free n.key ++ free n.value);
          },
          refl,
          record {
            avl = avl;
            sorted = rw e (erase-IsSorted q (entries t.root) v.sorted);
            counted = rw e (omega (arith, v.counted));
          },
          e,
          refl,
        )

  pub ytree_insert_refines :
      (t : Ytree K D) (q : K) (x : Option D)
      → IsValid t
      → Yields t
          (insert q x (entries t.root))
          (frees t.key_free (λ _. []) (find q (entries t.root)))
          (data_of (find q (entries t.root)))
          (ytree_insert t q x)
  unfolding ytree_insert
  ytree_insert_refines t q x v =
      insert_at-Yields t q x (insert_walk t.root [] q x) v
        (insert_walk-IsAvl t.root [] q x v.avl tt) (insert_walk-inserts t.root [] q x v.sorted)

  -- The call returns; its tree is valid, holds the entries `es`, has made the calls `fs` since `t`
  -- and has the callback `d`.
  abbrev pub Restores :
      Ytree K D → List (Entry K D) → List (Freed K D) → Bool → Option (Ytree K D) → Type (ℓ ⊔ κ)
  Restores t es fs d r =
      (u : Ytree K D) × (r ≡ some u)
      × IsValid u
      × (entries u.root ≡ es)
      × (u.freed ≡ t.freed ++ fs)
      × (u.data_free ≡ d)

  insert_at-Restores :
      (t : Ytree K D) (q : K) (x : Option D) (d : Bool) (w : Walk K D)
      → IsValid t
      → WalkIsAvl w
      → WalkInserts t.root [] q x w
      → Restores t
          (insert q x (entries t.root))
          (frees t.key_free (free_data t.data_free) (find q (entries t.root)))
          d
          (insert_at t q x true w >>= λ r. some (record (r.0) { data_free = d }))
  unfolding insert_at write_at root_of
  insert_at-Restores t q x d (attached none) v a i = absurd a
  insert_at-Restores t q x d (attached (some root)) v a i =
      let e : entries root ≡ insert q x (entries t.root) = i.1 ∙ append-nil _ in
      let c = (length-insert q x (entries t.root)).0 i.0 in
      rw i.0 (
        record t { root = root; size = size_inc t.size; data_free = d },
        refl,
        inserted t q x root _ v a e (omega (arith, v.counted)),
        e,
        sym (append-nil t.freed),
        refl,
      )
  insert_at-Restores t q x d (found n) v a i =
      let e : entries (write_at n q x) ≡ insert q x (entries t.root) = i.3 ∙ append-nil _ in
      let c = (length-insert q x (entries t.root)).1 (n.key, n.value) i.0 in
      let avl = root_of-IsAvl n.ancestors (node n.left q x n.balance n.right) a.1 a.0 in
      rw i.0 (
        record t {
          root = write_at n q x;
          freed = t.freed ++ (free_key t.key_free n.key ++ free_data t.data_free n.value);
          data_free = d;
        },
        refl,
        inserted t q x (write_at n q x) t.size v avl e (omega (arith, v.counted)),
        e,
        refl,
        refl,
      )

  -- On a valid tree ytree_insert_custom reads through no NULL. It puts the entry in its place among
  -- the entries, frees the key of the entry that it replaced, and then, by the caller's `data_free`,
  -- its data, and leaves a valid tree with the `data_free` that the tree had.
  pub ytree_insert_custom_refines :
      (t : Ytree K D) (q : K) (x : Option D) (data_free : Bool)
      → IsValid t
      → Restores t
          (insert q x (entries t.root))
          (frees t.key_free (free_data data_free) (find q (entries t.root)))
          t.data_free
          (ytree_insert_custom t q x data_free)
  unfolding ytree_insert_custom
  ytree_insert_custom_refines t q x data_free v =
      insert_at-Restores (record t { data_free = data_free }) q x t.data_free
        (insert_walk t.root [] q x) v (insert_walk-IsAvl t.root [] q x v.avl tt)
        (insert_walk-inserts t.root [] q x v.sorted)

  pub ytree_delete_refines :
      (t : Ytree K D) (q : K)
      → IsValid t
      → Yields t
          (erase q (entries t.root))
          (frees t.key_free (λ _. []) (find q (entries t.root)))
          (data_of (find q (entries t.root)))
          (ytree_delete t q)
  unfolding ytree_delete
  ytree_delete_refines t q v =
      delete_at-Yields t q (λ _. []) (search_node t.root [] q) v
        (search_node-Searched t.root [] q v.sorted)

  -- ytree_delete_custom does the same to a valid tree as ytree_delete, returns nothing, and calls
  -- the caller's `data_free` on the data that is no NULL.
  pub ytree_delete_custom_refines :
      (t : Ytree K D) (q : K) (data_free : Bool)
      → IsValid t
      → (u : Ytree K D) × (ytree_delete_custom t q data_free ≡ some u)
        × IsValid u
        × (entries u.root ≡ erase q (entries t.root))
        × (u.freed ≡ t.freed ++ frees t.key_free (free_data data_free) (find q (entries t.root)))
  unfolding ytree_delete_custom
  ytree_delete_custom_refines t q data_free v =
      let (u, e, valid, holds, freed) =
        delete_at-Yields t q (free_data data_free) (search_node t.root [] q) v
          (search_node-Searched t.root [] q v.sorted) in
      (u, rw e, valid, holds, freed)

  -- ytree_search and ytree_exist answer from the dictionary of the entries.
  pub ytree_search_refines :
      (t : Ytree K D) (q : K)
      → IsValid t
      → (ytree_search t q ≡ data_of (find q (entries t.root)))
        × (ytree_exist t q ≡ is_found (find q (entries t.root)))
  unfolding ytree_search ytree_exist
  ytree_search_refines t q v =
      by_node (search_node t.root [] q) (search_node-Searched t.root [] q v.sorted)
    where
      by_node :
          (w : Option (Place K D))
          → Searched t.root [] q w
          → (elim w [ none ↦ none | some n ↦ n.value ] ≡ data_of (find q (entries t.root)))
            × (elim w [ none ↦ false | some n ↦ true ] ≡ is_found (find q (entries t.root)))
      by_node none s = rw s.0 (refl, refl)
      by_node (some n) s = rw s.0 (refl, refl)
