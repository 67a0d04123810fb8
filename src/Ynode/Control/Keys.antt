-- ===== src/Ynode/Control/Keys.antt =====
-- What a key finds among the children of a node of ydb/ynode.c after a change.
use libydb.Prelude.{
  ◌≡◌, ◌⊎◌, refl, sym, ◌∙◌, subst, true, false, Bool-cases, inl, inr, if◌then◌else◌, none, some,
  ◌>>=◌, [], arith,
}
use libydb.Keyed.{eq_of_same, same_refl, same_comm}
use libydb.Ynode.Bytes.{Text, text_ord, imap_ord}
use libydb.Ynode.{
  Kind, Node, Kids, nil, kid, is_list, eq_text, seek_kid, without_kid, push_kid, set_kid,
  ynode_attach,
}
use libydb.Ynode.Control.Ascending.{
  LacksKid, IsUniqueKids, seek_kid-LacksKid, seek_kid-insert_kid, IsAscending,
  insert_kid-IsAscending, without_kid-IsAscending, set_kid-IsAscending, IsUniqueKids-ascending,
}

pub seek_kid-push_kid :
    (q key : Text) (x : Node) (ks : Kids)
    → LacksKid key ks
    → seek_kid q (push_kid key x ks) ≡ (if eq_text q key then some x else seek_kid q ks)
unfolding seek_kid push_kid
seek_kid-push_kid q key x nil h = refl
seek_kid-push_kid q key x (kid k n ks) h =
    ground (arith, seek_kid-push_kid q key x ks h.1, eq_of_same q key, eq_of_same q k)

pub LacksKid-push_kid :
    (q key : Text) (x : Node) (ks : Kids)
    → eq_text q key ≡ false
    → LacksKid q ks
    → LacksKid q (push_kid key x ks)
unfolding push_kid
LacksKid-push_kid q key x nil e h = (e, tt)
LacksKid-push_kid q key x (kid k n ks) e h = (h.0, LacksKid-push_kid q key x ks e h.1)

push_kid-IsUniqueKids :
    (key : Text) (x : Node) (ks : Kids)
    → LacksKid key ks
    → IsUniqueKids ks
    → IsUniqueKids (push_kid key x ks)
unfolding push_kid
push_kid-IsUniqueKids key x nil h u = (tt, tt)
push_kid-IsUniqueKids key x (kid k n ks) h u =
    (LacksKid-push_kid k key x ks (same_comm key k h.0) u.0, push_kid-IsUniqueKids key x ks h.1 u.1)

LacksKid-without_kid_other :
    (q key : Text) (ks : Kids) → LacksKid q ks → LacksKid q (without_kid key ks)
unfolding without_kid
LacksKid-without_kid_other q key nil h = tt
LacksKid-without_kid_other q key (kid k n ks) h =
    ground (arith, LacksKid-without_kid_other q key ks h.1)

LacksKid-without_kid :
    (key : Text) (ks : Kids) → IsUniqueKids ks → LacksKid key (without_kid key ks)
unfolding without_kid
LacksKid-without_kid key nil u = tt
LacksKid-without_kid key (kid k n ks) u = elim (Bool-cases (eq_text key k)) [
  | inl e ↦ rw e (subst (λ v. LacksKid v ks) (sym (eq_of_same key k e)) u.0)
  | inr e ↦ rw e (e, LacksKid-without_kid key ks u.1)
]

pub without_kid-IsUniqueKids :
    (key : Text) (ks : Kids) → IsUniqueKids ks → IsUniqueKids (without_kid key ks)
unfolding without_kid
without_kid-IsUniqueKids key nil u = tt
without_kid-IsUniqueKids key (kid k n ks) u =
    ground (arith, without_kid-IsUniqueKids key ks u.1, LacksKid-without_kid_other k key ks u.0)

pub seek_kid-without_kid :
    (q key : Text) (ks : Kids)
    → IsUniqueKids ks
    → seek_kid q (without_kid key ks) ≡ (if eq_text q key then none else seek_kid q ks)
unfolding seek_kid without_kid
seek_kid-without_kid q key nil u = ground arith
seek_kid-without_kid q key (kid k n ks) u = ground (
  arith,
  seek_kid-without_kid q key ks u.1,
  seek_kid-LacksKid k ks u.0,
  eq_of_same q key,
  eq_of_same q k,
  eq_of_same key k,
  same_refl k,
)

pub seek_kid-set_kid :
    (q key : Text) (x : Node) (ks : Kids)
    → seek_kid q (set_kid key x ks)
      ≡ (if eq_text q key then (seek_kid q ks >>= λ m. some x) else seek_kid q ks)
unfolding seek_kid set_kid
seek_kid-set_kid q key x nil = ground arith
seek_kid-set_kid q key x (kid k n ks) = ground (
  arith,
  seek_kid-set_kid q key x ks,
  eq_of_same q key,
  eq_of_same q k,
  eq_of_same key k,
  same_refl k,
)

LacksKid-set_kid :
    (q key : Text) (x : Node) (ks : Kids) → LacksKid q ks → LacksKid q (set_kid key x ks)
unfolding set_kid
LacksKid-set_kid q key x nil h = tt
LacksKid-set_kid q key x (kid k n ks) h = ground (arith, LacksKid-set_kid q key x ks h.1)

pub set_kid-IsUniqueKids :
    (key : Text) (x : Node) (ks : Kids) → IsUniqueKids ks → IsUniqueKids (set_kid key x ks)
unfolding set_kid
set_kid-IsUniqueKids key x nil u = tt
set_kid-IsUniqueKids key x (kid k n ks) u =
    ground (arith, set_kid-IsUniqueKids key x ks u.1, LacksKid-set_kid k key x ks u.0)

-- What the container of a node keeps of its keys: the order of a map, a set or an imap, and one entry
-- for a key of an omap. A list has no keys.
abbrev pub InOrder : Kind → Kids → Type 0
InOrder Kind.list nil = Unit
InOrder Kind.list (kid k n ks) = (k ≡ []) × InOrder Kind.list ks
InOrder Kind.map ks = IsAscending text_ord ks
InOrder Kind.set ks = IsAscending text_ord ks
InOrder Kind.imap ks = IsAscending imap_ord ks
InOrder Kind.omap ks = IsUniqueKids ks

pub InOrder-IsUniqueKids :
    (l : Kind) (ks : Kids) → is_list l ≡ false → InOrder l ks → IsUniqueKids ks
InOrder-IsUniqueKids Kind.list ks e h = cc
InOrder-IsUniqueKids Kind.map ks e h = IsUniqueKids-ascending text_ord ks h
InOrder-IsUniqueKids Kind.set ks e h = IsUniqueKids-ascending text_ord ks h
InOrder-IsUniqueKids Kind.imap ks e h = IsUniqueKids-ascending imap_ord ks h
InOrder-IsUniqueKids Kind.omap ks e h = h

push_kid-blank :
    (x : Node) (ks : Kids) → InOrder Kind.list ks → InOrder Kind.list (push_kid [] x ks)
unfolding push_kid
push_kid-blank x nil h = (refl, tt)
push_kid-blank x (kid k n ks) h = (h.0, push_kid-blank x ks h.1)

pub ynode_attach-InOrder :
    (l : Kind) (key : Text) (x : Node) (ks : Kids)
    → InOrder l ks
    → InOrder l (ynode_attach l key x ks)
unfolding ynode_attach
ynode_attach-InOrder Kind.list key x ks h = push_kid-blank x ks h
ynode_attach-InOrder Kind.map key x ks h = insert_kid-IsAscending text_ord key x ks h
ynode_attach-InOrder Kind.set key x ks h = insert_kid-IsAscending text_ord key x ks h
ynode_attach-InOrder Kind.imap key x ks h = insert_kid-IsAscending imap_ord key x ks h
ynode_attach-InOrder Kind.omap key x ks h =
    push_kid-IsUniqueKids key x (without_kid key ks) (LacksKid-without_kid key ks h)
      (without_kid-IsUniqueKids key ks h)

pub without_kid-InOrder :
    (l : Kind) (key : Text) (ks : Kids)
    → is_list l ≡ false
    → InOrder l ks
    → InOrder l (without_kid key ks)
without_kid-InOrder Kind.list key ks e h = cc
without_kid-InOrder Kind.map key ks e h = without_kid-IsAscending text_ord key ks h
without_kid-InOrder Kind.set key ks e h = without_kid-IsAscending text_ord key ks h
without_kid-InOrder Kind.imap key ks e h = without_kid-IsAscending imap_ord key ks h
without_kid-InOrder Kind.omap key ks e h = without_kid-IsUniqueKids key ks h

pub set_kid-InOrder :
    (l : Kind) (key : Text) (x : Node) (ks : Kids)
    → is_list l ≡ false
    → InOrder l ks
    → InOrder l (set_kid key x ks)
set_kid-InOrder Kind.list key x ks e h = cc
set_kid-InOrder Kind.map key x ks e h = set_kid-IsAscending text_ord key x ks h
set_kid-InOrder Kind.set key x ks e h = set_kid-IsAscending text_ord key x ks h
set_kid-InOrder Kind.imap key x ks e h = set_kid-IsAscending imap_ord key x ks h
set_kid-InOrder Kind.omap key x ks e h = set_kid-IsUniqueKids key x ks h

-- ynode_attach to a parent with keys: the key finds the new node, every other what it found before.
pub seek_kid-ynode_attach :
    (l : Kind) (q key : Text) (x : Node) (ks : Kids)
    → is_list l ≡ false
    → InOrder l ks
    → seek_kid q (ynode_attach l key x ks) ≡ (if eq_text q key then some x else seek_kid q ks)
unfolding ynode_attach
seek_kid-ynode_attach Kind.list q key x ks e h = cc
seek_kid-ynode_attach Kind.map q key x ks e h = seek_kid-insert_kid text_ord q key x ks
seek_kid-ynode_attach Kind.set q key x ks e h = seek_kid-insert_kid text_ord q key x ks
seek_kid-ynode_attach Kind.imap q key x ks e h = seek_kid-insert_kid imap_ord q key x ks
seek_kid-ynode_attach Kind.omap q key x ks e h =
    seek_kid-push_kid q key x (without_kid key ks) (LacksKid-without_kid key ks h)
    ∙ after_without (Bool-cases (eq_text q key))
  where
    after_without :
        (eq_text q key ≡ true) ⊎ (eq_text q key ≡ false)
        → (if eq_text q key then some x else seek_kid q (without_kid key ks))
          ≡ (if eq_text q key then some x else seek_kid q ks)
    after_without (inl t) = rw t refl
    after_without (inr f) = let other = seek_kid-without_kid q key ks h in rw f (rw f at other)
