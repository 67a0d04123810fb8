-- ===== src/Ynode/Control/Frame.antt =====
-- ydb/ynode.c: what ynode_control leaves under each key, and under each path of keys.
use libydb.Prelude.{
  ◌≡◌, inl, inr, refl, ap, ◌∙◌, subst, false, Bool-cases, Option, none, some, ◌>>=◌, Option-cases,
  List, [], ◌∷◌, arith,
}
use libydb.Keyed.{same_refl, eq_of_same}
use libydb.Ynode.Bytes.{Text, text_ord}
use libydb.Ynode.{
  Kind, Info, Node, val, branch, Kids, nil, kid, is_list, eq_text, seek_kid, ynode_find_child,
  asks_delete,
}
use libydb.Ynode.Control.{
  Outcome, created, replaced, kept, deleted, settle, ynode_control, control_kids, root_after,
}
use libydb.Ynode.Control.Ascending.{LacksKid, IsUniqueKids, LacksKid-seek_kid}
use libydb.Ynode.Control.Keys.{
  InOrder, InOrder-IsUniqueKids, seek_kid-ynode_attach, seek_kid-without_kid, seek_kid-set_kid,
}
use libydb.Ynode.Control.Merge.{IsNode, AreNodes, ynode_control-created, settle-InOrder}

settle-seek_other :
    (l : Kind) (q key : Text) (r : Outcome) (ls : Kids)
    → is_list l ≡ false
    → InOrder l ls
    → eq_text q key ≡ false
    → seek_kid q (settle l key r ls) ≡ seek_kid q ls
unfolding settle
settle-seek_other l q key (created n) ls e o f = seek_kid-ynode_attach l q key n ls e o ∙ rw f refl
settle-seek_other l q key (replaced n) ls e o f = seek_kid-ynode_attach l q key n ls e o ∙ rw f refl
settle-seek_other l q key (kept n) ls e o f = seek_kid-set_kid q key n ls ∙ rw f refl
settle-seek_other l q key deleted ls e o f =
    seek_kid-without_kid q key ls (InOrder-IsUniqueKids l ls e o) ∙ rw f refl

-- A node is kept only where there is one.
Fits : Option Node → Outcome → Type 0
Fits cur (created n) = Unit
Fits cur (replaced n) = Unit
Fits cur (kept n) = (c : Node) × (cur ≡ some c)
Fits cur deleted = Unit

control-Fits : (cur : Option Node) (src : Node) → Fits cur (ynode_control cur src)
unfolding Fits
control-Fits none src = let (m, e) = ynode_control-created src in rw e tt
control-Fits (some c) src = any (ynode_control (some c) src)
  where
    any : (r : Outcome) → Fits (some c) r
    any (created n) = tt
    any (replaced n) = tt
    any (kept n) = (c, refl)
    any deleted = tt

settle-seek_same :
    (l : Kind) (key : Text) (r : Outcome) (ls : Kids)
    → is_list l ≡ false
    → InOrder l ls
    → Fits (seek_kid key ls) r
    → seek_kid key (settle l key r ls) ≡ root_after r
unfolding settle Fits
settle-seek_same l key (created n) ls e o f =
    seek_kid-ynode_attach l key key n ls e o ∙ rw (same_refl key) refl
settle-seek_same l key (replaced n) ls e o f =
    seek_kid-ynode_attach l key key n ls e o ∙ rw (same_refl key) refl
settle-seek_same l key (kept n) ls e o (c, f) =
    seek_kid-set_kid key key n ls ∙ rw (same_refl key, f) refl
settle-seek_same l key deleted ls e o f =
    seek_kid-without_kid key key ls (InOrder-IsUniqueKids l ls e o) ∙ rw (same_refl key) refl

pub control_kids-other :
    (l : Kind) (q : Text) (ls ks : Kids)
    → is_list l ≡ false
    → InOrder l ls
    → LacksKid q ks
    → seek_kid q (control_kids false l ls ks) ≡ seek_kid q ls
unfolding control_kids
control_kids-other l q ls nil e o h = refl
control_kids-other l q ls (kid key n ks) e o h =
    let r = ynode_control (seek_kid key ls) n in
    control_kids-other l q (settle l key r ls) ks e (settle-InOrder l key r ls e o) h.1
    ∙ settle-seek_other l q key r ls e o h.0

pub control_kids-same :
    (l : Kind) (q : Text) (ls ks : Kids) (n : Node)
    → is_list l ≡ false
    → InOrder l ls
    → IsUniqueKids ks
    → seek_kid q ks ≡ some n
    → seek_kid q (control_kids false l ls ks) ≡ root_after (ynode_control (seek_kid q ls) n)
unfolding control_kids seek_kid
control_kids-same l q ls nil n e o u h = cc
control_kids-same l q ls (kid key m ks) n e o u h =
    let r = ynode_control (seek_kid key ls) m in
    let next = settle-InOrder l key r ls e o in
    elim (Bool-cases (eq_text q key)) [
      | inl f ↦
          let key_is : q ≡ key = eq_of_same q key f in
          let there : m ≡ n = ground (arith, h, f) in
          rw (key_is, ← there)
            (control_kids-other l key (settle l key r ls) ks e next u.0
              ∙ settle-seek_same l key r ls e o (control-Fits (seek_kid key ls) m))
      | inr f ↦
          control_kids-same l q (settle l key r ls) ks n e next u.1 (rw f at h)
          ∙ ap (λ c. root_after (ynode_control c n)) (settle-seek_other l q key r ls e o f)
    ]

pub control_kids_pointwise :
    (l : Kind) (q : Text) (ls ks : Kids)
    → is_list l ≡ false
    → InOrder l ls
    → IsUniqueKids ks
    → seek_kid q (control_kids false l ls ks) ≡ elim (seek_kid q ks) [
      | none ↦ seek_kid q ls
      | some n ↦ root_after (ynode_control (seek_kid q ls) n)
    ]
control_kids_pointwise l q ls ks e o u = elim (Option-cases (seek_kid q ks)) [
  | inl f ↦ rw f (control_kids-other l q ls ks e o (LacksKid-seek_kid q ks f))
  | inr (n, f) ↦ rw f (control_kids-same l q ls ks n e o u f)
]

-- The node at a path of keys, as ynode_find_child goes there.
unfoldable pub lookup : Node → List Text → Option Node
unfolding ynode_find_child
lookup n [] = some n
lookup n (key ∷ p) = ynode_find_child n key >>= λ m. lookup m p

-- No node is a list; and no node asks for a deletion.
abbrev mutual
  pub HasNoList : Node → Type 0
  HasNoList (val i v) = Unit
  HasNoList (branch i k ks) = (is_list k ≡ false) × HaveNoList ks

  pub HaveNoList : Kids → Type 0
  HaveNoList nil = Unit
  HaveNoList (kid k n ks) = HasNoList n × HaveNoList ks

abbrev mutual
  pub HasNoDelete : Node → Type 0
  HasNoDelete (val i v) = asks_delete i ≡ false
  HasNoDelete (branch i k ks) = (asks_delete i ≡ false) × HaveNoDelete ks

  pub HaveNoDelete : Kids → Type 0
  HaveNoDelete nil = Unit
  HaveNoDelete (kid k n ks) = HasNoDelete n × HaveNoDelete ks

pub find_child-seek_kid :
    (i : Info) (k : Kind) (ks : Kids) (key : Text)
    → is_list k ≡ false
    → ynode_find_child (branch i k ks) key ≡ seek_kid key ks
unfolding ynode_find_child
find_child-seek_kid i Kind.list ks key e = cc
find_child-seek_kid i Kind.map ks key e = refl
find_child-seek_kid i Kind.set ks key e = refl
find_child-seek_kid i Kind.imap ks key e = refl
find_child-seek_kid i Kind.omap ks key e = refl

-- What holds of all children holds of the one that is found.
pub seek_kid-IsGood :
    (q : Text) (ks : Kids) (n : Node)
    → AreNodes ks
    → HaveNoList ks
    → HaveNoDelete ks
    → seek_kid q ks ≡ some n
    → IsNode n × HasNoList n × HasNoDelete n
unfolding seek_kid
seek_kid-IsGood q nil n a b c h = cc
seek_kid-IsGood q (kid k m ks) n a b c h = elim (Bool-cases (eq_text q k)) [
  | inl e ↦
      let there : m ≡ n = ground (arith, h, e) in
      subst (λ v. IsNode v × HasNoList v × HasNoDelete v) there (a.0, b.0, c.0)
  | inr e ↦ seek_kid-IsGood q ks n a.1 b.1 c.1 (rw e at h)
]
