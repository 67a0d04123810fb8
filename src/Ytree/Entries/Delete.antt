-- ===== src/Ytree/Entries/Delete.antt =====
-- Tree_DeleteNode (ydb/ytree.c) takes one entry out and keeps the others in their order.
use libydb.Prelude.{
  ℤ, pos, negsuc, List, [], ◌∷◌, ◌++◌, ◌≡◌, refl, append-nil, sym, ◌∙◌, ap, Ensures,
}
use libydb.Dict.{Entry}
use libydb.Ytree.{Tree, null, node, from_left, from_right, Ancestors, plug, root_of, Place, node_at}
use libydb.Ytree.Balance.{delete_delta}
use libydb.Ytree.Node.{leftmost, delete_leaf, splice, delete_node}
use libydb.Ytree.Leftmost.{
  AllLeft, AllLeft-leftmost, left-leftmost, root_of-leftmost, root_of-append,
}
use libydb.Ytree.Entries.{entries, before, after, entries-root_of}
use libydb.Ytree.Entries.Rebalance.{Holds, delete_balance-Holds_eq}

module _ {ℓ κ} {K : Type ℓ} {D : Type κ} where
  before-AllLeft : (q : Ancestors K D) → AllLeft q → before q ≡ []
  before-AllLeft [] a = refl
  before-AllLeft (from_left k x b r ∷ q) a = before-AllLeft q a
  before-AllLeft (from_right l k x b ∷ q) a = absurd a

  -- The leftmost node holds the first entry.
  entries-leftmost :
      (q : Ancestors K D) (s : Place K D)
      → AllLeft q
      → s.left ≡ null
      → entries (root_of q (node_at s)) ≡ (s.key, s.value) ∷ entries (root_of q s.right)
  entries-leftmost q s a e =
      rw (entries-root_of q (node_at s), entries-root_of q s.right, before-AllLeft q a, e) refl

  -- What is left of the whole tree when the node between `l` and `r` is gone.
  abbrev pub without : Ancestors K D → Tree K D → Tree K D → List (Entry K D)
  without p l r = before p ++ ((entries l ++ entries r) ++ after p)

  delete_leaf-Holds : (p : Ancestors K D) → Ensures (Holds (without p null null)) (delete_leaf p)
  unfolding delete_leaf root_of
  delete_leaf-Holds [] = refl
  delete_leaf-Holds (f ∷ p) =
      delete_balance-Holds_eq p (plug f null) (delete_delta f) _ (entries-root_of (f ∷ p) null)

  splice-Holds :
      (p : Ancestors K D) (l : Tree K D) (b : ℤ) (s : Place K D) (q : Ancestors K D) (r : Tree K D)
      → s.left ≡ null
      → AllLeft q
      → root_of q (node_at s) ≡ r
      → Ensures (Holds (without p l r)) (splice p l b s q)
  unfolding splice root_of
  splice-Holds p l b s [] r e a er =
      delete_balance-Holds_eq p (node l s.key s.value b s.right) (negsuc 0) _
        (entries-root_of p (node l s.key s.value b s.right) ∙ rw (← er, entries-leftmost [] s a e))
  splice-Holds p l b s (f ∷ q) r e a er =
      delete_balance-Holds_eq (q ++ (from_right l s.key s.value b ∷ p)) (plug f s.right) (pos 1) _ (
        ap entries (root_of-append q (from_right l s.key s.value b ∷ p) (plug f s.right))
        ∙ entries-root_of p (node l s.key s.value b (root_of (f ∷ q) s.right))
        ∙ rw (← er, entries-leftmost (f ∷ q) s a e))

  -- The function returns the whole tree without the node's entry, if it returns.
  pub delete_node-Holds :
      (p : Ancestors K D) (l : Tree K D) (b : ℤ) (r : Tree K D)
      → Ensures (Holds (without p l r)) (delete_node p l b r)
  unfolding delete_node root_of
  delete_node-Holds p null b null = delete_leaf-Holds p
  delete_node-Holds p null b (node rl rk rx rb rr) =
      delete_balance-Holds_eq p (node rl rk rx rb rr) (pos 0) _
        (entries-root_of p (node rl rk rx rb rr))
  delete_node-Holds p (node ll lk lx lb lr) b null =
      delete_balance-Holds_eq p (node ll lk lx lb lr) (pos 0) _ (
        entries-root_of p (node ll lk lx lb lr)
        ∙ ap (λ es. before p ++ (es ++ after p)) (sym (append-nil (entries (node ll lk lx lb lr)))))
  delete_node-Holds p (node ll lk lx lb lr) b (node rl rk rx rb rr) =
      let s = leftmost rl rk rx rb rr [] in
      splice-Holds p (node ll lk lx lb lr) b s s.ancestors (node rl rk rx rb rr)
        (left-leftmost rl rk rx rb rr []) (AllLeft-leftmost rl rk rx rb rr [] tt)
        (root_of-leftmost rl rk rx rb rr [])
