-- ===== src/Ynode/Control/Paths.antt =====
-- ydb/ynode.c: what can be read at a path after ynode_control.
use libydb.Prelude.{
  ◌≡◌, ◌⊎◌, inl, inr, refl, sym, ap, ◌∙◌, subst, Bool, true, false, Bool-cases, if◌then◌else◌,
  Option, none, some, ◌>>=◌, ◌==◌, Option-cases, List, [], ◌∷◌, arith,
}
use libydb.Keyed.{eq_of_same}
use libydb.Ynode.Bytes.{Text, text_ord}
use libydb.Ynode.{
  Kind, Info, Node, val, branch, Kids, nil, kid, is_list, eq_text, seek_kid, ynode_op_get,
  op_of_nodes, op_of_types, asks_delete,
}
use libydb.Ynode.Control.{update_origin, ynode_control, control_kids, root_after}
use libydb.Ynode.Control.Ascending.{IsUniqueKids, LacksKid-seek_kid}
use libydb.Ynode.Control.Keys.{InOrder, InOrder-IsUniqueKids}
use libydb.Ynode.Control.Merge.{
  IsNode, AreNodes, MaybeIsNode, seek_kid-IsNode, op_of_types-cases, nil-InOrder,
}
use libydb.Ynode.Control.Frame.{
  control_kids-same, control_kids-other, lookup, HasNoList, HasNoDelete, HaveNoList,
  find_child-seek_kid, seek_kid-IsGood,
}

-- A source with children, not a list and not a deletion, becomes a node with children, which are the
-- source's worked into those of the node that stood there, or into none.
abbrev Grows : Option Node → Kids → Option Node → Type 0
Grows cur ks r =
    (j : Info) × (l : Kind) × (ls : Kids) × (is_list l ≡ false)
    × (r ≡ some (branch j l (control_kids false l ls ks)))
    × ((ls ≡ nil) ⊎ ((i : Info) × (cur ≡ some (branch i l ls))))

control-Grows :
    (cur : Option Node) (i : Info) (k : Kind) (ks : Kids)
    → is_list k ≡ false
    → asks_delete i ≡ false
    → Grows cur ks (root_after (ynode_control cur (branch i k ks)))
unfolding ynode_control ynode_op_get op_of_nodes
control-Grows none i k ks e d = (i, k, nil, e, rw e refl, inl refl)
control-Grows (some (val j w)) i k ks e d = (i, k, nil, e, ground (arith, d, e), inl refl)
control-Grows (some (branch j l ls)) i k ks e d = elim (op_of_types-cases l k) [
  | inl (f, same_type) ↦ (j, l, ls, sym same_type ∙ e, ground (arith, d, e, f), inr (j, refl))
  | inr f ↦ (i, k, nil, e, ground (arith, d, e, f), inl refl)
]

-- The children that the source's are worked into
start-IsNode :
    (cur : Option Node) (l : Kind) (ls : Kids)
    → MaybeIsNode cur
    → (ls ≡ nil) ⊎ ((i : Info) × (cur ≡ some (branch i l ls)))
    → IsNode (branch (record { tag = none; origin = 0 }) l ls)
start-IsNode cur l ls c (inl e) = rw e (nil-InOrder l, tt)
start-IsNode cur l ls c (inr (i, e)) = subst MaybeIsNode e c

control-val :
    (cur : Option Node) (i : Info) (v : Text)
    → asks_delete i ≡ false
    → (j : Info) × (root_after (ynode_control cur (val i v)) ≡ some (val j v))
unfolding ynode_control ynode_op_get op_of_nodes update_origin
control-val none i v d = (i, refl)
control-val (some (branch j l ls)) i v d = (i, ground (arith, d))
control-val (some (val j w)) i v d = elim (Bool-cases (eq_text w v)) [
  | inl e ↦ (
    record j { origin = if j.origin == 0 then j.origin else i.origin },
    ground (arith, d, e, eq_of_same w v e),
  )
  | inr e ↦ (i, ground (arith, d, e))
]

>>=-some {ℓ κ} :
    {A : Type ℓ} {B : Type κ} (m : Option A) (f : A → Option B) (b : B)
    → (m >>= f) ≡ some b
    → (a : A) × (m ≡ some a) × (f a ≡ some b)
>>=-some none f b h = cc
>>=-some (some a) f b h = (a, refl, h)

pub control_reads_source :
    (p : List Text) (src : Node) (cur : Option Node) (i : Info) (v : Text)
    → IsNode src
    → HasNoList src
    → HasNoDelete src
    → MaybeIsNode cur
    → lookup src p ≡ some (val i v)
    → (r : Node) × (j : Info) × (root_after (ynode_control cur src) ≡ some r)
      × (lookup r p ≡ some (val j v))
unfolding lookup
control_reads_source [] (branch i' k ks) cur i v s a d c h = cc
control_reads_source [] (val i' w) cur i v s a d c h =
    let there : w ≡ v = ground (arith, h) in
    let (j, e) = control-val cur i' w d in (val j v, j, e ∙ ap (λ u. some (val j u)) there, refl)
control_reads_source (key ∷ p) (val i' w) cur i v s a d c h = cc
control_reads_source (key ∷ p) (branch i' k ks) cur i v s a d c h =
    let h' : (seek_kid key ks >>= λ m. lookup m p) ≡ some (val i v) =
      ap (λ o. o >>= λ m. lookup m p) (sym (find_child-seek_kid i' k ks key a.0)) ∙ h in
    let (n, found, below) = >>=-some (seek_kid key ks) (λ m. lookup m p) (val i v) h' in
    let (good, no_list, no_delete) = seek_kid-IsGood key ks n s.1 a.1 d.1 found in
    let (j, l, ls, keyed, result, origin) = control-Grows cur i' k ks a.0 d.0 in
    let (order, nodes) = start-IsNode cur l ls c origin in
    let (r, jv, kept_r, read) =
      control_reads_source p n (seek_kid key ls) i v good no_list no_delete
        (seek_kid-IsNode key ls nodes) below in
    let unique = InOrder-IsUniqueKids k ks a.0 s.0 in
    let child = control_kids-same l key ls ks n keyed order unique found ∙ kept_r in
    (
      branch j l (control_kids false l ls ks),
      jv,
      result,
      ap (λ o. o >>= λ m. lookup m p)
            (find_child-seek_kid j l (control_kids false l ls ks) key keyed ∙ child)
          ∙ read,
    )

control-kept :
    (i : Info) (k : Kind) (ks : Kids) (j : Info) (l : Kind) (ls : Kids)
    → is_list k ≡ false
    → is_list l ≡ false
    → asks_delete i ≡ false
    → root_after (ynode_control (some (branch j l ls)) (branch i k ks))
      ≡ some (branch j l (control_kids false l ls ks))
unfolding ynode_control ynode_op_get op_of_nodes op_of_types
control-kept i k ks j l ls e f d = ground (arith, d, e, f)

abbrev pub info_of : Node → Info
info_of (val i v) = i
info_of (branch i k ks) = i

control-deleted :
    (c n : Node) → asks_delete (info_of n) ≡ true → root_after (ynode_control (some c) n) ≡ none
unfolding ynode_control ynode_op_get op_of_nodes
control-deleted (val j w) (val i v) d = ground (arith, d)
control-deleted (branch j l ls) (val i v) d = ground (arith, d)
control-deleted (val j w) (branch i k ks) d = ground (arith, d)
control-deleted (branch j l ls) (branch i k ks) d = ground (arith, d)

seek_kid-IsFine :
    (q : Text) (ks : Kids) (n : Node)
    → AreNodes ks
    → HaveNoList ks
    → seek_kid q ks ≡ some n
    → IsNode n × HasNoList n
unfolding seek_kid
seek_kid-IsFine q nil n a b h = cc
seek_kid-IsFine q (kid k m ks) n a b h = elim (Bool-cases (eq_text q k)) [
  | inl e ↦
      let there : m ≡ n = ground (arith, h, e) in
      subst (λ v. IsNode v × HasNoList v) there (a.0, b.0)
  | inr e ↦ seek_kid-IsFine q ks n a.1 b.1 (rw e at h)
]

-- The source has no node at the path, and a node with children at the last place before.
unfoldable pub misses : Node → List Text → Bool
unfolding seek_kid
misses src [] = false
misses (val i v) (key ∷ p) = false
misses (branch i k ks) (key ∷ p) = elim (seek_kid key ks) [ none ↦ true | some n ↦ misses n p ]

pub control_keeps_rest :
    (p : List Text) (src cur m : Node)
    → IsNode src
    → HasNoList src
    → HasNoDelete src
    → IsNode cur
    → HasNoList cur
    → misses src p ≡ true
    → lookup cur p ≡ some m
    → (r : Node) × (root_after (ynode_control (some cur) src) ≡ some r) × (lookup r p ≡ some m)
unfolding lookup misses
control_keeps_rest [] src cur m s a d c b away h = cc
control_keeps_rest (key ∷ p) (val i v) cur m s a d c b away h = cc
control_keeps_rest (key ∷ p) (branch i k ks) (val j w) m s a d c b away h = cc
control_keeps_rest (key ∷ p) (branch i k ks) (branch j l ls) m s a d c b away h =
    let h' : (seek_kid key ls >>= λ c'. lookup c' p) ≡ some m =
      ap (λ o. o >>= λ c'. lookup c' p) (sym (find_child-seek_kid j l ls key b.0)) ∙ h in
    let (child, found, below) = >>=-some (seek_kid key ls) (λ c'. lookup c' p) m h' in
    let result = control-kept i k ks j l ls a.0 b.0 d.0 in
    let unique = InOrder-IsUniqueKids k ks a.0 s.0 in
    let go =
      λ (r : Node) (e : seek_kid key (control_kids false l ls ks) ≡ some r)
          (f : lookup r p ≡ some m).
        ap (λ o. o >>= λ c'. lookup c' p)
          (find_child-seek_kid j l (control_kids false l ls ks) key b.0 ∙ e)
        ∙ f in
    elim (Option-cases (seek_kid key ks)) [
      | inl e ↦ (
        branch j l (control_kids false l ls ks),
        result,
        go child (control_kids-other l key ls ks b.0 c.0 (LacksKid-seek_kid key ks e) ∙ found)
            below,
      )
      | inr (n, e) ↦
          let (good, no_list, no_delete) = seek_kid-IsGood key ks n s.1 a.1 d.1 e in
          let (cgood, cno_list) = seek_kid-IsFine key ls child c.1 b.1 found in
          let (r, kept_r, read) =
            control_keeps_rest p n child m good no_list no_delete cgood cno_list
              (rw (e, misses) at away) below in
          (
            branch j l (control_kids false l ls ks),
            result,
            go r
                (control_kids-same l key ls ks n b.0 c.0 unique e
                  ∙ ap (λ o. root_after (ynode_control o n)) found
                  ∙ kept_r)
                read,
          )
    ]

pub control_deletes :
    (l : Kind) (key : Text) (ls ks : Kids) (n c : Node)
    → is_list l ≡ false
    → InOrder l ls
    → IsUniqueKids ks
    → seek_kid key ks ≡ some n
    → seek_kid key ls ≡ some c
    → asks_delete (info_of n) ≡ true
    → seek_kid key (control_kids false l ls ks) ≡ none
control_deletes l key ls ks n c e o u there old ask =
    control_kids-same l key ls ks n e o u there
    ∙ ap (λ v. root_after (ynode_control v n)) old
    ∙ control-deleted c n ask
