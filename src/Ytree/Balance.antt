-- ===== src/Ytree/Balance.antt =====
-- ydb/ytree.c, Tree_InsertBalance and Tree_DeleteBalance: the loops that climb from a node to the
-- root. The loop's variable `node` is the tree at the end of its ancestors.
use libydb.Prelude.{
  ℤ, pos, negsuc, Option, none, some, [], ◌∷◌, ◌+ℤ◌, ◌==ℤ◌, leb_ℤ, if◌then◌else◌, ◌>>=◌,
}
use libydb.Ytree.{Tree, null, node, Frame, from_left, from_right, Ancestors, plug, root_of}
use libydb.Ytree.Rotate.{rotate_left, rotate_right, rotate_left_right, rotate_right_left}

-- How one round ends: the function returns, or the loop goes on at the parent of the node that now
-- stands where the round began.
pub data Round {ℓ κ} (K : Type ℓ) (D : Type κ) : Type (ℓ ⊔ κ) where
  done : Tree K D → Round K D
  climb : Tree K D → Round K D

module _ {ℓ κ} {K : Type ℓ} {D : Type κ} where
  -- `node->balance`, a fault at NULL
  unfoldable pub balance_of : Tree K D → Option ℤ
  balance_of null = none
  balance_of (node l k x b r) = some b

  -- `balance == -2`, for the node `n` whose left child is `l`.
  unfoldable pub insert_left_heavy : Tree K D → Tree K D → Option (Round K D)
  unfolding balance_of
  insert_left_heavy n l = do
    lb ← balance_of l
    n' ← (if lb ==ℤ negsuc 0 then rotate_right n else rotate_left_right n)
    some (done n')

  -- `balance == 2`, for the node `n` whose right child is `r`.
  unfoldable pub insert_right_heavy : Tree K D → Tree K D → Option (Round K D)
  unfolding balance_of
  insert_right_heavy n r = do
    rb ← balance_of r
    n' ← (if rb ==ℤ pos 1 then rotate_left n else rotate_right_left n)
    some (done n')

  unfoldable pub insert_round : Tree K D → ℤ → Option (Round K D)
  insert_round null delta = some (done null)
  insert_round (node l k x b r) delta =
      let balance = b +ℤ delta in
      let n = node l k x balance r in
      if balance ==ℤ pos 0
      then some (done n)
      else if balance ==ℤ negsuc 1
      then insert_left_heavy n l
      else if balance ==ℤ pos 2
      then insert_right_heavy n r
      else some (climb n)

  -- `(parent->left == node) ? -1 : 1`
  abbrev pub insert_delta : Frame K D → ℤ
  insert_delta (from_left k x b r) = negsuc 0
  insert_delta (from_right l k x b) = pos 1

  -- The whole tree when the loop has ended.
  unfoldable pub insert_balance : Ancestors K D → Tree K D → ℤ → Option (Tree K D)
  insert_balance [] n delta = do
    round ← insert_round n delta
    elim round [ done n' ↦ some n' | climb n' ↦ some n' ]
  insert_balance (f ∷ p) n delta = do
    round ← insert_round n delta
    elim round [
      | done n' ↦ some (root_of (f ∷ p) n')
      | climb n' ↦ insert_balance p (plug f n') (insert_delta f)
    ]

  -- After a single rotation of a deletion: `if (node->balance == b) return;`
  unfoldable pub stop_at : ℤ → Tree K D → Option (Round K D)
  unfolding balance_of
  stop_at b n = do nb ← balance_of n; some (if nb ==ℤ b then done n else climb n)

  unfoldable pub delete_left_heavy : Tree K D → Tree K D → Option (Round K D)
  unfolding stop_at
  delete_left_heavy n l = do
    lb ← balance_of l
    let double = rotate_left_right n >>= λ n'. some (climb n')
    (if leb_ℤ lb (pos 0) then rotate_right n >>= stop_at (pos 1) else double)

  unfoldable pub delete_right_heavy : Tree K D → Tree K D → Option (Round K D)
  unfolding stop_at
  delete_right_heavy n r = do
    rb ← balance_of r
    let double = rotate_right_left n >>= λ n'. some (climb n')
    (if leb_ℤ (pos 0) rb then rotate_left n >>= stop_at (negsuc 0) else double)

  unfoldable pub delete_round : Tree K D → ℤ → Option (Round K D)
  delete_round null delta = some (done null)
  delete_round (node l k x b r) delta =
      let balance = b +ℤ delta in
      let n = node l k x balance r in
      if balance ==ℤ negsuc 1
      then delete_left_heavy n l
      else if balance ==ℤ pos 2
      then delete_right_heavy n r
      else some (if balance ==ℤ pos 0 then climb n else done n)

  -- `(parent->left == node) ? 1 : -1`
  abbrev pub delete_delta : Frame K D → ℤ
  delete_delta (from_left k x b r) = pos 1
  delete_delta (from_right l k x b) = negsuc 0

  unfoldable pub delete_balance : Ancestors K D → Tree K D → ℤ → Option (Tree K D)
  delete_balance [] n delta = do
    round ← delete_round n delta
    elim round [ done n' ↦ some n' | climb n' ↦ some n' ]
  delete_balance (f ∷ p) n delta = do
    round ← delete_round n delta
    elim round [
      | done n' ↦ some (root_of (f ∷ p) n')
      | climb n' ↦ delete_balance p (plug f n') (delete_delta f)
    ]
