-- ===== src/Ynode/Control/Copy.antt =====
-- ydb/ynode.c: ynode_copy, and ynode_control where there is no node yet.
use Prim.Native.Nat.Ordering.{lt}
use libydb.Prelude.{
  ◌≡◌, refl, sym, ap, ◌∙◌, subst, Bool, true, false, Option, none, some, [], arith,
}
use libydb.Order.{Ord}
use libydb.Keyed.{same_comm}
use libydb.Ynode.Bytes.{Text, text_ord, imap_ord}
use libydb.Ynode.{
  Kind, Node, val, branch, Kids, nil, kid, is_list, eq_text, seek_kid, without_kid, insert_kid,
  push_kid, ynode_attach,
}
use libydb.Ynode.Control.{
  created, settle, ynode_control, control_kids, ynode_copy, copy_kids, ynode_merge,
}
use libydb.Ynode.Control.Ascending.{
  LacksKid, IsUniqueKids, IsAscending, AfterKey, seek_kid-LacksKid,
}
use libydb.Ynode.Control.Keys.{InOrder, InOrder-IsUniqueKids}
use libydb.Ynode.Control.Merge.{IsNode, AreNodes, MaybeIsNode, control-IsNode}

-- The children of one list behind those of another
abbrev then_kids : Kids → Kids → Kids
then_kids nil ks = ks
then_kids (kid k n ls) ks = kid k n (then_kids ls ks)

then_kids-nil : (ls : Kids) → then_kids ls nil ≡ ls
then_kids-nil nil = refl
then_kids-nil (kid k n ls) = ap (kid k n) (then_kids-nil ls)

push_then :
    (ls : Kids) (key : Text) (n : Node) (ks : Kids)
    → then_kids (push_kid key n ls) ks ≡ then_kids ls (kid key n ks)
unfolding push_kid
push_then nil key n ks = refl
push_then (kid k m ls) key n ks = ap (kid k m) (push_then ls key n ks)

module _ (o : Ord Text) where
  insert_kid_last :
      (ls : Kids) (key : Text) (n : Node) (ks : Kids)
      → IsAscending o (then_kids ls (kid key n ks))
      → insert_kid o.cmp key n ls ≡ push_kid key n ls
  unfolding insert_kid push_kid
  insert_kid_last nil key n ks h = refl
  insert_kid_last (kid k m ls) key n ks h =
      let before : o.cmp k key ≡ lt = first_after ls h.0 in
      let ih = insert_kid_last ls key n ks h.1 in ground (arith, o.gt_of_lt k key before, ih)
    where
      first_after : (ls' : Kids) → AfterKey o k (then_kids ls' (kid key n ks)) → o.cmp k key ≡ lt
      first_after nil a = a.0
      first_after (kid j p ls') a = first_after ls' a.1

LacksKid-before :
    (ls : Kids) (key : Text) (n : Node) (ks : Kids)
    → IsUniqueKids (then_kids ls (kid key n ks))
    → LacksKid key ls
LacksKid-before nil key n ks u = tt
LacksKid-before (kid k m ls) key n ks u =
    (same_comm k key (at ls u.0), LacksKid-before ls key n ks u.1)
  where
    at : (ls' : Kids) → LacksKid k (then_kids ls' (kid key n ks)) → eq_text k key ≡ false
    at nil a = a.0
    at (kid j p ls') a = at ls' a.1

without_kid-LacksKid : (key : Text) (ls : Kids) → LacksKid key ls → without_kid key ls ≡ ls
unfolding without_kid
without_kid-LacksKid key nil h = refl
without_kid-LacksKid key (kid k n ls) h = rw h.0 (ap (kid k n) (without_kid-LacksKid key ls h.1))

blank_key :
    (ls : Kids) (key : Text) (n : Node) (ks : Kids)
    → InOrder Kind.list (then_kids ls (kid key n ks))
    → key ≡ []
blank_key nil key n ks h = h.0
blank_key (kid k m ls) key n ks h = blank_key ls key n ks h.1

-- A child that comes next in the order of the container is attached last.
attach_last :
    (l : Kind) (ls : Kids) (key : Text) (n : Node) (ks : Kids)
    → InOrder l (then_kids ls (kid key n ks))
    → ynode_attach l key n ls ≡ push_kid key n ls
unfolding ynode_attach
attach_last Kind.list ls key n ks h = ap (λ q. push_kid q n ls) (sym (blank_key ls key n ks h))
attach_last Kind.map ls key n ks h = insert_kid_last text_ord ls key n ks h
attach_last Kind.set ls key n ks h = insert_kid_last text_ord ls key n ks h
attach_last Kind.imap ls key n ks h = insert_kid_last imap_ord ls key n ks h
attach_last Kind.omap ls key n ks h =
    ap (push_kid key n) (without_kid-LacksKid key ls (LacksKid-before ls key n ks h))

mutual
  unfolding ynode_copy

  copy_lem : (n : Node) → IsNode n → ynode_copy n ≡ n
  copy_lem (val i v) h = refl
  copy_lem (branch i k ks) h = ap (branch i k) (copy_kids_lem k nil ks h.0 h.1)

  copy_kids_lem :
      (l : Kind) (ls ks : Kids)
      → InOrder l (then_kids ls ks)
      → AreNodes ks
      → copy_kids l ls ks ≡ then_kids ls ks
  copy_kids_lem l ls nil h a = sym (then_kids-nil ls)
  copy_kids_lem l ls (kid key n ks) h a =
      let child = copy_lem n a.0 in
      let place = ap (λ m. ynode_attach l key m ls) child ∙ attach_last l ls key n ks h in
      let next = push_then ls key n ks in
      ap (λ v. copy_kids l v ks) place
      ∙ copy_kids_lem l (push_kid key n ls) ks (subst (InOrder l) (sym next) h) a.1
      ∙ next

only_list : (l : Kind) → true ≡ is_list l → l ≡ Kind.list
only_list Kind.list e = refl
only_list Kind.map e = cc
only_list Kind.set e = cc
only_list Kind.imap e = cc
only_list Kind.omap e = cc

mutual
  unfolding ynode_control settle

  create_lem : (n : Node) → IsNode n → ynode_control none n ≡ created n
  create_lem (val i v) h = refl
  create_lem (branch i k ks) h =
      ap (λ v. created (branch i k v)) (create_kids_lem (is_list k) k nil ks refl h.0 h.1)

  create_kids_lem :
      (from_list : Bool) (l : Kind) (ls ks : Kids)
      → from_list ≡ is_list l
      → InOrder l (then_kids ls ks)
      → AreNodes ks
      → control_kids from_list l ls ks ≡ then_kids ls ks
  create_kids_lem b l ls nil e h a = sym (then_kids-nil ls)
  create_kids_lem true l ls (kid key n ks) e h a =
      let list_is : l ≡ Kind.list = only_list l e in
      let blank =
        blank_key ls key n ks (subst (λ k. InOrder k (then_kids ls (kid key n ks))) list_is h) in
      let child = create_lem n a.0 in
      let place =
        ap (λ r. settle l [] r ls) child
        ∙ ap (λ q. ynode_attach l q n ls) (sym blank)
        ∙ attach_last l ls key n ks h in
      let next = push_then ls key n ks in
      ap (λ v. control_kids true l v ks) place
      ∙ create_kids_lem true l (push_kid key n ls) ks e (subst (InOrder l) (sym next) h) a.1
      ∙ next
  create_kids_lem false l ls (kid key n ks) e h a =
      let absent : seek_kid key ls ≡ none = seek_kid-LacksKid key ls (
        LacksKid-before ls key n ks
          (InOrder-IsUniqueKids l (then_kids ls (kid key n ks)) (sym e) h)) in
      let child = ap (λ c. ynode_control c n) absent ∙ create_lem n a.0 in
      let place = ap (λ r. settle l key r ls) child ∙ attach_last l ls key n ks h in
      let next = push_then ls key n ks in
      ap (λ v. control_kids false l v ks) place
      ∙ create_kids_lem false l (push_kid key n ls) ks e (subst (InOrder l) (sym next) h) a.1
      ∙ next

pub ynode_copy-and_create :
    (n : Node) → IsNode n → (ynode_copy n ≡ n) × (ynode_control none n ≡ created n)
ynode_copy-and_create n h = (copy_lem n h, create_lem n h)

pub ynode_merge-IsNode :
    (dest : Option Node) (src : Node)
    → MaybeIsNode dest
    → IsNode src
    → MaybeIsNode (ynode_merge dest src)
unfolding ynode_merge
ynode_merge-IsNode none src d s = subst IsNode (sym (copy_lem src s)) s
ynode_merge-IsNode (some n) src d s = control-IsNode (some n) src d s
