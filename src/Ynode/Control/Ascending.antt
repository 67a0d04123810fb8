-- ===== src/Ynode/Control/Ascending.antt =====
-- ydb/ynode.c: the children of a map, a set or an imap, in the order of their keys.
use Prim.Native.Nat.Ordering.{lt}
use libydb.Prelude.{◌≡◌, refl, false, Bool-cases, inl, inr, if◌then◌else◌, none, some, arith}
use libydb.Order.{Ord}
use libydb.Keyed.{eq_of_same}
use libydb.Ynode.Bytes.{Text, text_ord}
use libydb.Ynode.{Node, Kids, nil, kid, eq_text, seek_kid, without_kid, insert_kid, set_kid}

-- No child has the key.
abbrev pub LacksKid : Text → Kids → Type 0
LacksKid q nil = Unit
LacksKid q (kid k n ks) = (eq_text q k ≡ false) × LacksKid q ks

-- No two children have the same key.
abbrev pub IsUniqueKids : Kids → Type 0
IsUniqueKids nil = Unit
IsUniqueKids (kid k n ks) = LacksKid k ks × IsUniqueKids ks

pub seek_kid-LacksKid : (q : Text) (ks : Kids) → LacksKid q ks → seek_kid q ks ≡ none
unfolding seek_kid
seek_kid-LacksKid q nil h = refl
seek_kid-LacksKid q (kid k n ks) h = rw h.0 (seek_kid-LacksKid q ks h.1)

pub LacksKid-seek_kid : (q : Text) (ks : Kids) → seek_kid q ks ≡ none → LacksKid q ks
unfolding seek_kid
LacksKid-seek_kid q nil h = tt
LacksKid-seek_kid q (kid k n ks) h = elim (Bool-cases (eq_text q k)) [
  | inl e ↦ let bad = (rw e at h) in cc bad
  | inr e ↦ (e, LacksKid-seek_kid q ks (rw e at h))
]

module _ (o : Ord Text) where
  pub seek_kid-insert_kid :
      (q key : Text) (x : Node) (ks : Kids)
      → seek_kid q (insert_kid o.cmp key x ks) ≡ (if eq_text q key then some x else seek_kid q ks)
  unfolding seek_kid insert_kid
  seek_kid-insert_kid q key x nil = refl
  seek_kid-insert_kid q key x (kid k n ks) = ground (
    arith,
    seek_kid-insert_kid q key x ks,
    o.eq_of_cmp key k,
    o.cmp_refl k,
    eq_of_same q key,
    eq_of_same q k,
  )

  pub LacksKid-insert_kid :
      (q key : Text) (x : Node) (ks : Kids)
      → eq_text q key ≡ false
      → LacksKid q ks
      → LacksKid q (insert_kid o.cmp key x ks)
  unfolding insert_kid
  LacksKid-insert_kid q key x nil e h = (e, tt)
  LacksKid-insert_kid q key x (kid k n ks) e h =
      ground (arith, LacksKid-insert_kid q key x ks e h.1)

  -- Every child's key comes after the key.
  abbrev pub AfterKey : Text → Kids → Type 0
  AfterKey q nil = Unit
  AfterKey q (kid k n ks) = (o.cmp q k ≡ lt) × AfterKey q ks

  -- The keys ascend.
  abbrev pub IsAscending : Kids → Type 0
  IsAscending nil = Unit
  IsAscending (kid k n ks) = AfterKey k ks × IsAscending ks

  AfterKey-trans : (q k : Text) (ks : Kids) → o.cmp q k ≡ lt → AfterKey k ks → AfterKey q ks
  AfterKey-trans q k nil h a = tt
  AfterKey-trans q k (kid j n ks) h a = (o.lt_trans q k j h a.0, AfterKey-trans q k ks h a.1)

  AfterKey-insert_kid :
      (q key : Text) (x : Node) (ks : Kids)
      → o.cmp q key ≡ lt
      → AfterKey q ks
      → AfterKey q (insert_kid o.cmp key x ks)
  unfolding insert_kid
  AfterKey-insert_kid q key x nil h a = (h, tt)
  AfterKey-insert_kid q key x (kid k n ks) h a =
      ground (arith, AfterKey-insert_kid q key x ks h a.1)

  pub insert_kid-IsAscending :
      (key : Text) (x : Node) (ks : Kids) → IsAscending ks → IsAscending (insert_kid o.cmp key x ks)
  unfolding insert_kid
  insert_kid-IsAscending key x nil s = (tt, tt)
  insert_kid-IsAscending key x (kid k n ks) s = ground (
    arith,
    insert_kid-IsAscending key x ks s.1,
    AfterKey-insert_kid k key x ks,
    o.lt_of_gt key k,
    o.eq_of_cmp key k,
    AfterKey-trans key k ks,
  )

  AfterKey-without_kid :
      (q key : Text) (ks : Kids) → AfterKey q ks → AfterKey q (without_kid key ks)
  unfolding without_kid
  AfterKey-without_kid q key nil a = tt
  AfterKey-without_kid q key (kid k n ks) a = ground (arith, AfterKey-without_kid q key ks a.1)

  pub without_kid-IsAscending :
      (key : Text) (ks : Kids) → IsAscending ks → IsAscending (without_kid key ks)
  unfolding without_kid
  without_kid-IsAscending key nil s = tt
  without_kid-IsAscending key (kid k n ks) s =
      ground (arith, without_kid-IsAscending key ks s.1, AfterKey-without_kid k key ks s.0)

  AfterKey-set_kid :
      (q key : Text) (x : Node) (ks : Kids) → AfterKey q ks → AfterKey q (set_kid key x ks)
  unfolding set_kid
  AfterKey-set_kid q key x nil a = tt
  AfterKey-set_kid q key x (kid k n ks) a = ground (arith, AfterKey-set_kid q key x ks a.1)

  pub set_kid-IsAscending :
      (key : Text) (x : Node) (ks : Kids) → IsAscending ks → IsAscending (set_kid key x ks)
  unfolding set_kid
  set_kid-IsAscending key x nil s = tt
  set_kid-IsAscending key x (kid k n ks) s =
      ground (arith, set_kid-IsAscending key x ks s.1, AfterKey-set_kid k key x ks s.0)

  AfterKey-LacksKid : (q : Text) (ks : Kids) → AfterKey q ks → LacksKid q ks
  AfterKey-LacksKid q nil a = tt
  AfterKey-LacksKid q (kid k n ks) a =
      (ground (arith, a.0, eq_of_same q k, o.cmp_refl k), AfterKey-LacksKid q ks a.1)

  pub IsUniqueKids-ascending : (ks : Kids) → IsAscending ks → IsUniqueKids ks
  IsUniqueKids-ascending nil s = tt
  IsUniqueKids-ascending (kid k n ks) s =
      (AfterKey-LacksKid k ks s.0, IsUniqueKids-ascending ks s.1)
