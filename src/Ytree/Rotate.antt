-- ===== src/Ytree/Rotate.antt =====
-- ydb/ytree.c, the four rotations. A rotation takes the node that is out of balance and returns the
-- node that took its place: the assignments to `parent` pointers, to the parent's child pointer and
-- to `t->root` are those of hanging the result where the node hung. `none` is a read through NULL.
use libydb.Prelude.{ℤ, pos, negsuc, Option, none, some, ◌+ℤ◌, ◌-ℤ◌, ◌==ℤ◌, if◌then◌else◌}
use libydb.Ytree.{Tree, node}

-- The balances that `node` and `left` get from the balance of `leftRight`.
unfoldable pub left_right_balances : ℤ → ℤ × ℤ
left_right_balances m =
    if m ==ℤ pos 1
    then (pos 0, negsuc 0)
    else if m ==ℤ pos 0
    then (pos 0, pos 0)
    else (pos 1, pos 0)

-- The balances that `node` and `right` get from the balance of `rightLeft`.
unfoldable pub right_left_balances : ℤ → ℤ × ℤ
right_left_balances m =
    if m ==ℤ negsuc 0
    then (pos 0, pos 1)
    else if m ==ℤ pos 0
    then (pos 0, pos 0)
    else (negsuc 0, pos 0)

module _ {ℓ κ} {K : Type ℓ} {D : Type κ} where
  unfoldable pub rotate_left : Tree K D → Option (Tree K D)
  rotate_left (node l k x b (node rl rk rx rb rr)) =
      let right_balance = rb -ℤ pos 1 in
      let node_balance = pos 0 -ℤ right_balance in
      some (node (node l k x node_balance rl) rk rx right_balance rr)
  rotate_left _ = none

  unfoldable pub rotate_right : Tree K D → Option (Tree K D)
  rotate_right (node (node ll lk lx lb lr) k x b r) =
      let left_balance = lb +ℤ pos 1 in
      let node_balance = pos 0 -ℤ left_balance in
      some (node ll lk lx left_balance (node lr k x node_balance r))
  rotate_right _ = none

  unfoldable pub rotate_left_right : Tree K D → Option (Tree K D)
  rotate_left_right (node (node ll lk lx lb (node ml mk mx mb mr)) k x b r) =
      let (node_balance, left_balance) = left_right_balances mb in
      some (node (node ll lk lx left_balance ml) mk mx (pos 0) (node mr k x node_balance r))
  rotate_left_right _ = none

  unfoldable pub rotate_right_left : Tree K D → Option (Tree K D)
  rotate_right_left (node l k x b (node (node ml mk mx mb mr) rk rx rb rr)) =
      let (node_balance, right_balance) = right_left_balances mb in
      some (node (node l k x node_balance ml) mk mx (pos 0) (node mr rk rx right_balance rr))
  rotate_right_left _ = none
