-- ===== src/Ynode/Bytes.antt =====
-- Strings of bytes (`char *`, without the closing 0), and the two orders of keys of ydb/ynode.c.
use Prim.Native.Nat.{compare, Ordering}
use Prim.Native.Nat.Ordering.{lt, eq, gt}
use Prim.Native.Char.{code}
use Prim.Native.String.{String}
use libydb.Prelude.{
  ℕ, ◌+◌, ◌-◌, ◌*◌, ◌≡◌, refl, ◌∙◌, ◌==◌, leb, ◌&&◌, ◌||◌, if◌then◌else◌, ℤ, pos, negsuc, sub_ℕ,
  ◌-ℤ◌, ltb_ℤ, List, [], ◌∷◌, arith,
}
use libydb.Order.{Ord, eq_of_compare}

abbrev pub Text : Type 0
Text = List ℕ

-- The bytes of a literal
abbrev pub codes : String → Text
codes String.[] = []
codes (String.◌∷◌ c s) = code c ∷ codes s

unfoldable pub strcmp : Text → Text → Ordering
strcmp [] [] = eq
strcmp [] (b ∷ t) = lt
strcmp (a ∷ s) [] = gt
strcmp (a ∷ s) (b ∷ t) = elim (compare a b) [ lt ↦ lt | eq ↦ strcmp s t | gt ↦ gt ]

pub strcmp_refl : (s : Text) → strcmp s s ≡ eq
unfolding strcmp
strcmp_refl [] = refl
strcmp_refl (a ∷ s) = ground (arith, strcmp_refl s)

pub eq_of_strcmp : (s t : Text) → strcmp s t ≡ eq → s ≡ t
unfolding strcmp
eq_of_strcmp [] [] h = refl
eq_of_strcmp [] (b ∷ t) h = cc
eq_of_strcmp (a ∷ s) [] h = cc
eq_of_strcmp (a ∷ s) (b ∷ t) h = ground (arith, eq_of_compare a b, eq_of_strcmp s t)

pub strcmp-lt_of_gt : (s t : Text) → strcmp s t ≡ gt → strcmp t s ≡ lt
unfolding strcmp
strcmp-lt_of_gt [] [] h = cc
strcmp-lt_of_gt [] (b ∷ t) h = cc
strcmp-lt_of_gt (a ∷ s) [] h = refl
strcmp-lt_of_gt (a ∷ s) (b ∷ t) h = ground (arith, strcmp-lt_of_gt s t)

pub strcmp-gt_of_lt : (s t : Text) → strcmp s t ≡ lt → strcmp t s ≡ gt
unfolding strcmp
strcmp-gt_of_lt [] [] h = cc
strcmp-gt_of_lt [] (b ∷ t) h = refl
strcmp-gt_of_lt (a ∷ s) [] h = cc
strcmp-gt_of_lt (a ∷ s) (b ∷ t) h = ground (arith, strcmp-gt_of_lt s t)

pub strcmp_trans : (s t u : Text) → strcmp s t ≡ lt → strcmp t u ≡ lt → strcmp s u ≡ lt
unfolding strcmp
strcmp_trans [] [] u h k = cc
strcmp_trans (a ∷ s) [] u h k = cc
strcmp_trans s (b ∷ t) [] h k = cc
strcmp_trans [] (b ∷ t) (c ∷ u) h k = refl
strcmp_trans (a ∷ s) (b ∷ t) (c ∷ u) h k = ground (arith, strcmp_trans s t u)

-- Keys in the order of their bytes
instance abbrev pub text_ord : Ord Text
text_ord = record {
  cmp = strcmp;
  cmp_refl = strcmp_refl;
  eq_of_cmp = eq_of_strcmp;
  lt_of_gt = strcmp-lt_of_gt;
  gt_of_lt = strcmp-gt_of_lt;
  lt_trans = strcmp_trans;
}

-- atoi of the C library: spaces, a sign, and digits up to the first other byte. Numbers that do not
-- fit an int are left out of consideration.
unfoldable pub digits : ℕ → Text → ℕ
digits n [] = n
digits n (c ∷ s) =
    let rest = digits (n * 10 + (c - b'0')) s in if leb b'0' c && leb c b'9' then rest else n

unfoldable pub signed : Text → ℤ
unfolding digits
signed [] = pos 0
signed (c ∷ s) =
    if c == b'-'
    then sub_ℕ 0 (digits 0 s)
    else if c == b'+'
    then pos (digits 0 s)
    else pos (digits 0 (c ∷ s))

unfoldable pub atoi : Text → ℤ
unfolding signed
atoi [] = pos 0
atoi (c ∷ s) =
    let rest = atoi s in if c == 32 || (leb 9 c && leb c 13) then rest else signed (c ∷ s)

-- `res`, if it is not 0, and else the other comparison
unfoldable pub int_first : ℤ → ℤ → Ordering → Ordering
int_first a b c =
    let res = a -ℤ b in if ltb_ℤ res (pos 0) then lt else if ltb_ℤ (pos 0) res then gt else c

unfoldable pub imap_cmp : Text → Text → Ordering
unfolding int_first atoi strcmp
imap_cmp a b = int_first (atoi a) (atoi b) (strcmp a b)

int_first_refl : (a : ℤ) (c : Ordering) → int_first a a c ≡ c
unfolding int_first
int_first_refl a c = ground arith

eq_of_int_first : (a b : ℤ) (c : Ordering) → int_first a b c ≡ eq → (a ≡ b) × (c ≡ eq)
unfolding int_first
eq_of_int_first (pos a) (pos b) c h = ground arith
eq_of_int_first (pos a) (negsuc b) c h = ground arith
eq_of_int_first (negsuc a) (pos b) c h = ground arith
eq_of_int_first (negsuc a) (negsuc b) c h = ground arith

int_first-lt_of_gt :
    (a b : ℤ) (c d : Ordering) → (c ≡ gt → d ≡ lt) → int_first a b c ≡ gt → int_first b a d ≡ lt
unfolding int_first
int_first-lt_of_gt a b c d k h = ground arith

int_first-gt_of_lt :
    (a b : ℤ) (c d : Ordering) → (c ≡ lt → d ≡ gt) → int_first a b c ≡ lt → int_first b a d ≡ gt
unfolding int_first
int_first-gt_of_lt a b c d k h = ground arith

int_first_trans :
    (a b c : ℤ) (p q r : Ordering)
    → (p ≡ lt → q ≡ lt → r ≡ lt)
    → int_first a b p ≡ lt
    → int_first b c q ≡ lt
    → int_first a c r ≡ lt
unfolding int_first
int_first_trans a b c p q r k h l = ground arith

pub imap_cmp_refl : (a : Text) → imap_cmp a a ≡ eq
unfolding imap_cmp
imap_cmp_refl a = int_first_refl (atoi a) (strcmp a a) ∙ strcmp_refl a

pub eq_of_imap_cmp : (a b : Text) → imap_cmp a b ≡ eq → a ≡ b
unfolding imap_cmp
eq_of_imap_cmp a b h = eq_of_strcmp a b (eq_of_int_first (atoi a) (atoi b) (strcmp a b) h).1

pub imap_cmp-lt_of_gt : (a b : Text) → imap_cmp a b ≡ gt → imap_cmp b a ≡ lt
unfolding imap_cmp
imap_cmp-lt_of_gt a b h =
    int_first-lt_of_gt (atoi a) (atoi b) (strcmp a b) (strcmp b a) (strcmp-lt_of_gt a b) h

pub imap_cmp-gt_of_lt : (a b : Text) → imap_cmp a b ≡ lt → imap_cmp b a ≡ gt
unfolding imap_cmp
imap_cmp-gt_of_lt a b h =
    int_first-gt_of_lt (atoi a) (atoi b) (strcmp a b) (strcmp b a) (strcmp-gt_of_lt a b) h

pub imap_cmp_trans : (a b c : Text) → imap_cmp a b ≡ lt → imap_cmp b c ≡ lt → imap_cmp a c ≡ lt
unfolding imap_cmp
imap_cmp_trans a b c h k =
    int_first_trans (atoi a) (atoi b) (atoi c) (strcmp a b) (strcmp b c) (strcmp a c)
      (strcmp_trans a b c) h k

-- Keys in the order of their numbers, as imap_cmp compares them. It is a total order of the keys, as
-- ytree_create needs it.
abbrev pub imap_ord : Ord Text
imap_ord = record {
  cmp = imap_cmp;
  cmp_refl = imap_cmp_refl;
  eq_of_cmp = eq_of_imap_cmp;
  lt_of_gt = imap_cmp-lt_of_gt;
  gt_of_lt = imap_cmp-gt_of_lt;
  lt_trans = imap_cmp_trans;
}
