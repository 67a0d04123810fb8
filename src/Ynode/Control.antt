-- ===== src/Ynode/Control.antt =====
-- ydb/ynode.c: ynode_control, which merges a source into a node, and the functions on top of it.
pub mod Ascending
pub mod Keys
pub mod Merge
pub mod Frame
pub mod Paths
pub mod Copy
use libydb.Prelude.{
  ℕ, ℤ, pos, negsuc, not, ◌+◌, ◌==◌, Bool, true, false, if◌then◌else◌, Option, none, some, List, [],
  ◌∷◌,
}
use libydb.Ynode.Bytes.{Text}
use libydb.Ynode.{
  Kind, Info, Node, val, branch, Kids, nil, kid, is_list, seek_kid, without_kid, push_kid, set_kid,
  ynode_attach, Op, create, replace, delete, nothing, ynode_op_get,
}

-- What ynode_control has made of `cur`: a new node, a new one in its place, itself, or nothing.
pub data Outcome : Type 0 where
  created : Node → Outcome
  replaced : Node → Outcome
  kept : Node → Outcome
  deleted : Outcome

-- What it does to the children of the parent.
unfoldable pub settle : Kind → Text → Outcome → Kids → Kids
unfolding ynode_attach set_kid without_kid
settle k key (created n) ks = ynode_attach k key n ks
settle k key (replaced n) ks = ynode_attach k key n ks
settle k key (kept n) ks = set_kid key n ks
settle k key deleted ks = without_kid key ks

-- The origin of a value that is kept; nodes without a value keep theirs.
unfoldable pub update_origin : Info → Node → Node
update_origin i (val j v) =
    val (record j { origin = if j.origin == 0 then j.origin else i.origin }) v
update_origin i (branch j k ks) = branch j k ks

-- The node that is kept, which nothing but a missing `cur` can lack.
abbrev pub kept_or : (Node → Node) → Option Node → Outcome
kept_or f none = deleted
kept_or f (some n) = kept (f n)

unfoldable mutual
  unfolding ynode_op_get update_origin settle seek_kid

  -- ynode_control with a source, whose children are handled before the function returns. A new node has
  -- the type, the tag, the value and the origin of the source; a tag that names a type (ynode_tag_ctrl) is
  -- never the tag of a node.
  pub ynode_control : Option Node → Node → Outcome
  ynode_control cur (val i v) = elim (ynode_op_get cur (some (val i v))) [
    | create ↦ created (val i v)
    | replace ↦ replaced (val i v)
    | delete ↦ deleted
    | nothing ↦ kept_or (update_origin i) cur
  ]
  ynode_control cur (branch i k ks) = elim (ynode_op_get cur (some (branch i k ks))) [
    | create ↦ created (branch i k (control_kids (is_list k) k nil ks))
    | replace ↦ replaced (branch i k (control_kids (is_list k) k nil ks))
    | delete ↦ deleted
    | nothing ↦
        kept_or
          (λ c. elim c [
            | val j v ↦ val j v
            | branch j l ls ↦ branch j l (control_kids (is_list k) l ls ks)
          ])
          cur
  ]

  -- The loops over the children of the source. Those of a list come without a key and without a node
  -- that stands for them.
  pub control_kids : Bool → Kind → Kids → Kids → Kids
  control_kids from_list l ls nil = ls
  control_kids true l ls (kid key n ks) =
      control_kids true l (settle l [] (ynode_control none n) ls) ks
  control_kids false l ls (kid key n ks) =
      control_kids false l (settle l key (ynode_control (seek_kid key ls) n) ls) ks

unfoldable mutual
  unfolding ynode_attach

  -- ynode_copy, which attaches the copies of the children one after the other.
  pub ynode_copy : Node → Node
  ynode_copy (val i v) = val i v
  ynode_copy (branch i k ks) = branch i k (copy_kids k nil ks)

  pub copy_kids : Kind → Kids → Kids → Kids
  copy_kids k ls nil = ls
  copy_kids k ls (kid key n ks) = copy_kids k (ynode_attach k key (ynode_copy n) ls) ks

-- What is left of a root, and what a source without a root becomes.
abbrev pub root_after : Outcome → Option Node
root_after (created n) = some n
root_after (replaced n) = some n
root_after (kept n) = some n
root_after deleted = none

-- ynode_merge, of a node that has no parent
unfoldable pub ynode_merge : Option Node → Node → Option Node
unfolding ynode_copy ynode_control
ynode_merge none src = some (ynode_copy src)
ynode_merge (some dest) src = root_after (ynode_control (some dest) src)

-- `src->origin != origin && origin >= 0`
abbrev other_origin : ℕ → ℤ → Bool
other_origin have (pos origin) = not (have == origin)
other_origin have (negsuc origin) = false

unfoldable mutual
  -- ynode_get_with_origin: the number of the values that it hands to the log.
  pub ynode_get_with_origin : Node → ℤ → ℕ
  ynode_get_with_origin (val i v) origin = if other_origin i.origin origin then 0 else 1
  ynode_get_with_origin (branch i k ks) origin = get_kids ks origin

  pub get_kids : Kids → ℤ → ℕ
  get_kids nil origin = 0
  get_kids (kid key n ks) origin = ynode_get_with_origin n origin + get_kids ks origin
