-- ===== src/Ynode.antt =====
-- ydb/ynode.c: the nodes of a YAML document. The children of a map, a set or an imap (trees of
-- ydb/ytree.c), of an omap (ydb/ymap.c) and of a list (ydb/ylist.c) are the entries that these
-- containers hold, in their order. Hooks, meta data and logs are left out.
pub mod Bytes
pub mod Control
pub mod Create
pub mod Path
mod Tests
use Prim.Native.Nat.{Ordering}
use Prim.Native.Nat.Ordering.{lt, eq, gt}
use libydb.Prelude.{
  ℕ, zero, suc, ◌+◌, ◌==◌, Bool, true, false, if◌then◌else◌, ℤ, pos, negsuc, ◌==ℤ◌, leb_ℤ, Option,
  none, some, [], ◌∷◌,
}
use libydb.Keyed.{same}
use libydb.Ynode.Bytes.{Text, codes, strcmp, imap_cmp, atoi, text_ord}

-- node_type, without YNODE_TYPE_VAL
pub data Kind : Type 0 where
  list map set imap omap : Kind

-- node_type: `none` is YNODE_TYPE_VAL.
abbrev pub NodeType : Type 0
NodeType = Option Kind

pub record Info : Type 0 where
  pub tag : Option Text
  pub origin : ℕ

-- `struct _ynode`: a value, or a node with children. The children of a list have no key: theirs is [].
mutual
  pub data Node : Type 0 where
    val : Info → Text → Node
    branch : Info → Kind → Kids → Node

  pub data Kids : Type 0 where
    nil : Kids
    kid : Text → Node → Kids → Kids

abbrev pub eq_text : Text → Text → Bool
eq_text a b = same a b

unfoldable pub ynode_tag_ctrl : NodeType → Option Text → NodeType × Option Text
ynode_tag_ctrl type none = (type, none)
ynode_tag_ctrl type (some tag) =
    if eq_text tag (codes "!!map")
    then (some Kind.map, none)
    else if eq_text tag (codes "!!seq")
    then (some Kind.list, none)
    else if eq_text tag (codes "!!omap")
    then (some Kind.omap, none)
    else if eq_text tag (codes "!!set")
    then (some Kind.set, none)
    else if eq_text tag (codes "!!imap")
    then (some Kind.imap, none)
    else if eq_text tag (codes "!!str")
    then (none, none)
    else (type, some tag)

-- A value without a string fails.
unfoldable pub new_node : NodeType × Option Text → Option Text → ℕ → Option Node
new_node (some kind, tag) value origin =
    some (branch (record { tag = tag; origin = origin }) kind nil)
new_node (none, tag) none origin = none
new_node (none, tag) (some v) origin = some (val (record { tag = tag; origin = origin }) v)

unfoldable pub ynode_new : NodeType → Option Text → Option Text → ℕ → Option Node
unfolding ynode_tag_ctrl new_node
ynode_new type tag value origin = new_node (ynode_tag_ctrl type tag) value origin

abbrev pub is_list : Kind → Bool
is_list Kind.list = true
is_list Kind.map = false
is_list Kind.set = false
is_list Kind.imap = false
is_list Kind.omap = false

-- The entry of a key: ytree_search, and ymap_search
unfoldable pub seek_kid : Text → Kids → Option Node
seek_kid q nil = none
seek_kid q (kid k n ks) = if eq_text q k then some n else seek_kid q ks

-- ytree_delete, ymap_delete
unfoldable pub without_kid : Text → Kids → Kids
without_kid q nil = nil
without_kid q (kid k n ks) = if eq_text q k then ks else kid k n (without_kid q ks)

-- ytree_push, in the order of the tree
unfoldable pub insert_kid : (Text → Text → Ordering) → Text → Node → Kids → Kids
insert_kid cmp q x nil = kid q x nil
insert_kid cmp q x (kid k n ks) = elim (cmp q k) [
  | lt ↦ kid q x (kid k n ks)
  | eq ↦ kid q x ks
  | gt ↦ kid k n (insert_kid cmp q x ks)
]

-- ylist_push_back
unfoldable pub push_kid : Text → Node → Kids → Kids
push_kid q x nil = kid q x nil
push_kid q x (kid k n ks) = kid k n (push_kid q x ks)

-- The node of an entry is changed where it stands.
unfoldable pub set_kid : Text → Node → Kids → Kids
set_kid q x nil = nil
set_kid q x (kid k n ks) = if eq_text q k then kid k x ks else kid k n (set_kid q x ks)

-- ynode_attach, by the type of the parent: the node that stood under the key leaves the children.
unfoldable pub ynode_attach : Kind → Text → Node → Kids → Kids
unfolding insert_kid push_kid without_kid
ynode_attach Kind.list key x ks = push_kid [] x ks
ynode_attach Kind.map key x ks = insert_kid strcmp key x ks
ynode_attach Kind.set key x ks = insert_kid strcmp key x ks
ynode_attach Kind.imap key x ks = insert_kid imap_cmp key x ks
ynode_attach Kind.omap key x ks = push_kid key x (without_kid key ks)

-- The loop of ynode_find_child over a list
unfoldable pub nth_kid : Kids → ℕ → ℤ → Option Node
nth_kid nil count index = none
nth_kid (kid k n ks) count index =
    if pos count ==ℤ index then some n else nth_kid ks (suc count) index

unfoldable pub ynode_find_child : Node → Text → Option Node
unfolding seek_kid nth_kid atoi
ynode_find_child (val i v) key = none
ynode_find_child (branch i Kind.list ks) key = elim (atoi key) [
  | pos n ↦ nth_kid ks 0 (pos n)
  | negsuc n ↦ none
]
ynode_find_child (branch i Kind.map ks) key = seek_kid key ks
ynode_find_child (branch i Kind.set ks) key = seek_kid key ks
ynode_find_child (branch i Kind.imap ks) key = seek_kid key ks
ynode_find_child (branch i Kind.omap ks) key = seek_kid key ks

unfoldable pub ynode_type : Node → NodeType
ynode_type (val i v) = none
ynode_type (branch i k ks) = some k

unfoldable pub ynode_value : Node → Option Text
ynode_value (val i v) = some v
ynode_value (branch i k ks) = none

unfoldable pub ynode_origin : Node → ℕ
ynode_origin (val i v) = i.origin
ynode_origin (branch i k ks) = i.origin

abbrev pub count_kids : Kids → ℕ
count_kids nil = 0
count_kids (kid k n ks) = suc (count_kids ks)

abbrev pub kids_of : Node → Kids
kids_of (val i v) = nil
kids_of (branch i k ks) = ks

unfoldable pub ynode_size : Node → ℕ
ynode_size (val i v) = 0
ynode_size (branch i k ks) = count_kids ks

unfoldable pub ynode_empty : Node → Bool
ynode_empty (val i v) = false
ynode_empty (branch i k ks) = count_kids ks == 0

abbrev pub first_kid : Kids → Option Node
first_kid nil = none
first_kid (kid k n ks) = some n

unfoldable pub ynode_down : Node → Option Node
ynode_down (val i v) = none
ynode_down (branch i k ks) = first_kid ks

-- YHOOK_OP_CREATE, _REPLACE, _DELETE and _NONE
pub data Op : Type 0 where
  create replace delete nothing : Op

-- `new->tag && strcmp(new->tag, "!ydb!delete") == 0`
abbrev pub asks_delete : Info → Bool
asks_delete i = elim (i.tag) [ none ↦ false | some tag ↦ eq_text tag (codes "!ydb!delete") ]

-- A change of type is none between maps, sets, imaps and omaps.
unfoldable pub op_of_types : Kind → Kind → Op
op_of_types cur new =
    if is_list cur
    then (if is_list new then nothing else replace)
    else if is_list new
    then replace
    else nothing

unfoldable pub op_of_nodes : Node → Node → Op
unfolding op_of_types
op_of_nodes (val i v) (val j w) =
    if asks_delete j then delete else if eq_text v w then nothing else replace
op_of_nodes (val i v) (branch j k ks) = if asks_delete j then delete else replace
op_of_nodes (branch i l ls) (val j w) = if asks_delete j then delete else replace
op_of_nodes (branch i l ls) (branch j k ks) = if asks_delete j then delete else op_of_types l k

unfoldable pub ynode_op_get : Option Node → Option Node → Op
unfolding op_of_nodes
ynode_op_get none none = nothing
ynode_op_get none (some new) = create
ynode_op_get (some cur) none = delete
ynode_op_get (some cur) (some new) = op_of_nodes cur new
