-- ===== src/Ytree/Entries.antt =====
-- The entries of a tree of ydb/ytree.c in their order.
pub mod Rebalance
pub mod Insert
pub mod Search
pub mod Delete
use libydb.Prelude.{List, [], ◌∷◌, ◌++◌, ◌≡◌, refl, append-nil, append_assoc, sym, ◌∙◌}
use libydb.Dict.{Entry}
use libydb.Ytree.{Tree, null, node, Frame, from_left, from_right, Ancestors, plug, root_of}

module _ {ℓ κ} {K : Type ℓ} {D : Type κ} where
  abbrev pub entries : Tree K D → List (Entry K D)
  entries null = []
  entries (node l k x b r) = entries l ++ ((k, x) ∷ entries r)

  -- What stands before, and after, the subtree that hangs under `p`.
  abbrev pub before : Ancestors K D → List (Entry K D)
  before [] = []
  before (from_left k x b r ∷ p) = before p
  before (from_right l k x b ∷ p) = before p ++ (entries l ++ ((k, x) ∷ []))

  abbrev pub after : Ancestors K D → List (Entry K D)
  after [] = []
  after (from_left k x b r ∷ p) = (k, x) ∷ (entries r ++ after p)
  after (from_right l k x b ∷ p) = after p

  pub entries-root_of :
      (p : Ancestors K D) (t : Tree K D)
      → entries (root_of p t) ≡ before p ++ (entries t ++ after p)
  unfolding root_of
  entries-root_of [] t = simp append-nil
  entries-root_of (from_left k x b r ∷ p) t =
      simp (entries-root_of p (node t k x b r), append_assoc)
  entries-root_of (from_right l k x b ∷ p) t =
      simp (entries-root_of p (node l k x b t), append_assoc)
