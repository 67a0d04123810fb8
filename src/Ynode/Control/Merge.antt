-- ===== src/Ynode/Control/Merge.antt =====
-- ydb/ynode.c: ynode_control keeps the nodes well formed, and what its loops do to one key.
use Prim.Native.Nat.{Ordering}
use libydb.Prelude.{
  ◌≡◌, ◌⊎◌, inl, inr, refl, sym, subst, Bool, true, false, Bool-cases, Option, none, some, [],
  arith,
}
use libydb.Ynode.Bytes.{Text, text_ord, strcmp, imap_cmp}
use libydb.Ynode.{
  Kind, Node, val, branch, Kids, nil, kid, is_list, eq_text, seek_kid, without_kid, insert_kid,
  push_kid, set_kid, ynode_attach, replace, nothing, ynode_op_get, op_of_nodes, op_of_types,
}
use libydb.Ynode.Control.{
  Outcome, created, replaced, kept, deleted, settle, update_origin, ynode_control, control_kids,
  root_after,
}
use libydb.Ynode.Control.Keys.{InOrder, ynode_attach-InOrder, without_kid-InOrder, set_kid-InOrder}

-- A node whose containers are in order, at every depth.
abbrev mutual
  pub IsNode : Node → Type 0
  IsNode (val i v) = Unit
  IsNode (branch i k ks) = InOrder k ks × AreNodes ks

  pub AreNodes : Kids → Type 0
  AreNodes nil = Unit
  AreNodes (kid k n ks) = IsNode n × AreNodes ks

abbrev pub MaybeIsNode : Option Node → Type 0
MaybeIsNode none = Unit
MaybeIsNode (some n) = IsNode n

pub seek_kid-IsNode : (q : Text) (ks : Kids) → AreNodes ks → MaybeIsNode (seek_kid q ks)
unfolding seek_kid
seek_kid-IsNode q nil h = tt
seek_kid-IsNode q (kid k n ks) h = elim (Bool-cases (eq_text q k)) [
  | inl e ↦ rw e h.0
  | inr e ↦ rw e (seek_kid-IsNode q ks h.1)
]

insert_kid-AreNodes :
    (cmp : Text → Text → Ordering) (q : Text) (x : Node) (ks : Kids)
    → IsNode x
    → AreNodes ks
    → AreNodes (insert_kid cmp q x ks)
unfolding insert_kid
insert_kid-AreNodes cmp q x nil i h = (i, tt)
insert_kid-AreNodes cmp q x (kid k n ks) i h = ground (arith, insert_kid-AreNodes cmp q x ks i h.1)

push_kid-AreNodes :
    (q : Text) (x : Node) (ks : Kids) → IsNode x → AreNodes ks → AreNodes (push_kid q x ks)
unfolding push_kid
push_kid-AreNodes q x nil i h = (i, tt)
push_kid-AreNodes q x (kid k n ks) i h = (h.0, push_kid-AreNodes q x ks i h.1)

without_kid-AreNodes : (q : Text) (ks : Kids) → AreNodes ks → AreNodes (without_kid q ks)
unfolding without_kid
without_kid-AreNodes q nil h = tt
without_kid-AreNodes q (kid k n ks) h = ground (arith, without_kid-AreNodes q ks h.1)

set_kid-AreNodes :
    (q : Text) (x : Node) (ks : Kids) → IsNode x → AreNodes ks → AreNodes (set_kid q x ks)
unfolding set_kid
set_kid-AreNodes q x nil i h = tt
set_kid-AreNodes q x (kid k n ks) i h = ground (arith, set_kid-AreNodes q x ks i h.1)

pub ynode_attach-AreNodes :
    (l : Kind) (key : Text) (x : Node) (ks : Kids)
    → IsNode x
    → AreNodes ks
    → AreNodes (ynode_attach l key x ks)
unfolding ynode_attach
ynode_attach-AreNodes Kind.list key x ks i h = push_kid-AreNodes [] x ks i h
ynode_attach-AreNodes Kind.map key x ks i h = insert_kid-AreNodes strcmp key x ks i h
ynode_attach-AreNodes Kind.set key x ks i h = insert_kid-AreNodes strcmp key x ks i h
ynode_attach-AreNodes Kind.imap key x ks i h = insert_kid-AreNodes imap_cmp key x ks i h
ynode_attach-AreNodes Kind.omap key x ks i h =
    push_kid-AreNodes key x (without_kid key ks) i (without_kid-AreNodes key ks h)

pub settle-AreNodes :
    (l : Kind) (key : Text) (r : Outcome) (ks : Kids)
    → MaybeIsNode (root_after r)
    → AreNodes ks
    → AreNodes (settle l key r ks)
unfolding settle
settle-AreNodes l key (created n) ks i h = ynode_attach-AreNodes l key n ks i h
settle-AreNodes l key (replaced n) ks i h = ynode_attach-AreNodes l key n ks i h
settle-AreNodes l key (kept n) ks i h = set_kid-AreNodes key n ks i h
settle-AreNodes l key deleted ks i h = without_kid-AreNodes key ks h

pub settle-InOrder :
    (l : Kind) (key : Text) (r : Outcome) (ks : Kids)
    → is_list l ≡ false
    → InOrder l ks
    → InOrder l (settle l key r ks)
unfolding settle
settle-InOrder l key (created n) ks e h = ynode_attach-InOrder l key n ks h
settle-InOrder l key (replaced n) ks e h = ynode_attach-InOrder l key n ks h
settle-InOrder l key (kept n) ks e h = set_kid-InOrder l key n ks e h
settle-InOrder l key deleted ks e h = without_kid-InOrder l key ks e h

-- Without a node that stands for it, a source is created.
pub ynode_control-created : (n : Node) → (m : Node) × (ynode_control none n ≡ created m)
unfolding ynode_control
ynode_control-created (val i v) = (val i v, refl)
ynode_control-created (branch i k ks) = (branch i k (control_kids (is_list k) k nil ks), refl)

pub nil-InOrder : (k : Kind) → InOrder k nil
nil-InOrder Kind.list = tt
nil-InOrder Kind.map = tt
nil-InOrder Kind.set = tt
nil-InOrder Kind.imap = tt
nil-InOrder Kind.omap = tt

-- Two nodes with children: the one is kept if both are lists or neither is, and replaced if not.
pub op_of_types-cases :
    (l k : Kind)
    → ((op_of_types l k ≡ nothing) × (is_list k ≡ is_list l)) ⊎ (op_of_types l k ≡ replace)
unfolding op_of_types
op_of_types-cases l k = elim (Bool-cases (is_list l)) [
  | inl e ↦ elim (Bool-cases (is_list k)) [
    | inl f ↦ rw (e, f) (inl (refl, refl))
    | inr f ↦ rw (e, f) (inr refl)
  ]
  | inr e ↦ elim (Bool-cases (is_list k)) [
    | inl f ↦ rw (e, f) (inr refl)
    | inr f ↦ rw (e, f) (inl (refl, refl))
  ]
]

mutual
  unfolding ynode_control ynode_op_get op_of_nodes update_origin settle

  pub control-IsNode :
      (cur : Option Node) (src : Node)
      → MaybeIsNode cur
      → IsNode src
      → MaybeIsNode (root_after (ynode_control cur src))
  control-IsNode none (val i v) c s = tt
  control-IsNode (some (val j w)) (val i v) c s = ground arith
  control-IsNode (some (branch j l ls)) (val i v) c s = ground arith
  control-IsNode none (branch i k ks) c s =
      control_kids-IsNode (is_list k) k nil ks refl (nil-InOrder k) tt s.1
  control-IsNode (some (val j w)) (branch i k ks) c s =
      let new = control_kids-IsNode (is_list k) k nil ks refl (nil-InOrder k) tt s.1 in
      ground (arith, new)
  control-IsNode (some (branch j l ls)) (branch i k ks) c s =
      let new = control_kids-IsNode (is_list k) k nil ks refl (nil-InOrder k) tt s.1 in
      elim (op_of_types-cases l k) [
        | inl (e, same_type) ↦
            let more = control_kids-IsNode (is_list k) l ls ks same_type c.0 c.1 s.1 in
            ground (arith, more)
        | inr e ↦ ground (arith, new)
      ]

  control_kids-IsNode :
      (from_list : Bool) (l : Kind) (ls ks : Kids)
      → from_list ≡ is_list l
      → InOrder l ls
      → AreNodes ls
      → AreNodes ks
      → InOrder l (control_kids from_list l ls ks) × AreNodes (control_kids from_list l ls ks)
  control_kids-IsNode b l ls nil e o h k = (o, h)
  control_kids-IsNode true l ls (kid key n ks) e o h k =
      let i = control-IsNode none n tt k.0 in
      let (m, made) = ynode_control-created n in
      let placed : InOrder l (settle l [] (ynode_control none n) ls) =
        subst (λ r. InOrder l (settle l [] r ls)) (sym made) (ynode_attach-InOrder l [] m ls o) in
      control_kids-IsNode true l (settle l [] (ynode_control none n) ls) ks e placed
        (settle-AreNodes l [] (ynode_control none n) ls i h) k.1
  control_kids-IsNode false l ls (kid key n ks) e o h k =
      let r = ynode_control (seek_kid key ls) n in
      let i = control-IsNode (seek_kid key ls) n (seek_kid-IsNode key ls h) k.0 in
      control_kids-IsNode false l (settle l key r ls) ks e (settle-InOrder l key r ls (sym e) o)
        (settle-AreNodes l key r ls i h) k.1
