-- ===== src/Ynode/Create.antt =====
-- ydb/ynode.c: ynode_new and the tags that name a type.
use mathlib.Core.Option.{some-injective}
use libydb.Prelude.{ℕ, ◌≡◌, ◌↔◌, refl, ap, subst, Option, none, some, arith}
use libydb.Ynode.Bytes.{Text, text_ord}
use libydb.Ynode.{
  NodeType, Node, val, branch, nil, ynode_tag_ctrl, new_node, ynode_new, ynode_type, ynode_value,
  ynode_origin,
}
use libydb.Ynode.Control.Paths.{info_of}

-- A tag is left over only where it names no type, and then it is left over again.
ynode_tag_ctrl-twice :
    (type again : NodeType) (tag : Option Text)
    → ynode_tag_ctrl again (ynode_tag_ctrl type tag).1 ≡ (again, (ynode_tag_ctrl type tag).1)
unfolding ynode_tag_ctrl
ynode_tag_ctrl-twice type again none = refl
ynode_tag_ctrl-twice type again (some tag) = ground arith

-- ynode_new makes a node of a node's own type, tag, value and origin: the same node.
pub ynode_new_again :
    (type : NodeType) (tag value : Option Text) (origin : ℕ) (n : Node)
    → ynode_new type tag value origin ≡ some n
    → ynode_new (ynode_type n) ((info_of n).tag) (ynode_value n) (ynode_origin n) ≡ some n
unfolding ynode_new new_node ynode_type ynode_value ynode_origin
ynode_new_again type tag value origin n h = go (ynode_tag_ctrl type tag) value refl h
  where
    Again : Node → Type 0
    Again m = ynode_new (ynode_type m) ((info_of m).tag) (ynode_value m) (ynode_origin m) ≡ some m

    left_over :
        (kind : NodeType) (t : Option Text)
        → ynode_tag_ctrl type tag ≡ (kind, t)
        → ynode_tag_ctrl kind t ≡ (kind, t)
    left_over kind t e =
        subst (λ q. ynode_tag_ctrl kind q ≡ (kind, q)) (ap (λ r. r.1) e)
          (ynode_tag_ctrl-twice type kind tag)

    go :
        (r : NodeType × Option Text) (value : Option Text)
        → ynode_tag_ctrl type tag ≡ r
        → new_node r value origin ≡ some n
        → ynode_new (ynode_type n) ((info_of n).tag) (ynode_value n) (ynode_origin n) ≡ some n
    go (none, t) none e k = cc
    go (none, t) (some v) e k =
        subst Again (some-injective (val (record { tag = t; origin = origin }) v) n k)
          (ap (λ r. new_node r (some v) origin) (left_over none t e))
    go (some kind, t) value e k =
        subst Again (some-injective (branch (record { tag = t; origin = origin }) kind nil) n k)
          (ap (λ r. new_node r none origin) (left_over (some kind) t e))

pub ynode_new_fails :
    (type : NodeType) (tag value : Option Text) (origin : ℕ)
    → (ynode_new type tag value origin ≡ none)
      ↔ (((ynode_tag_ctrl type tag).0 ≡ none) × (value ≡ none))
unfolding ynode_new new_node
ynode_new_fails type tag value origin = go (ynode_tag_ctrl type tag) value
  where
    go :
        (r : NodeType × Option Text) (value : Option Text)
        → (new_node r value origin ≡ none) ↔ ((r.0 ≡ none) × (value ≡ none))
    go (none, t) none = ((λ h. (refl, refl)), (λ h. refl))
    go (none, t) (some v) = ((λ h. cc), (λ h. cc))
    go (some kind, t) value = ((λ h. cc), (λ h. cc))
