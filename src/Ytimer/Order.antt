-- ===== src/Ytimer/Order.antt =====
-- ydb/ytimer.c: timer_cb_cmp and timer_id_cmp.
use Prim.Native.Nat.{Ordering, compare}
use Prim.Native.Nat.Ordering.{lt, eq, gt}
use libydb.Prelude.{ℕ, ◌≡◌, sym, arith}
use libydb.Order.{
  Ord, compare_refl, eq_of_compare, compare-lt_of_gt, compare-gt_of_lt, compare_trans,
}

-- The end of a timer, and its number
pub record Due : Type 0 where
  pub sec : ℕ
  pub nsec : ℕ
  pub timer_id : ℕ

unfoldable pub timer_cb_cmp : Due → Due → Ordering
timer_cb_cmp a b = elim (compare a.sec b.sec) [
  | lt ↦ lt
  | gt ↦ gt
  | eq ↦ elim (compare a.nsec b.nsec) [ lt ↦ lt | gt ↦ gt | eq ↦ compare a.timer_id b.timer_id ]
]

-- `tcb2->timer_id - tcb1->timer_id`
abbrev pub timer_id_cmp : ℕ → ℕ → Ordering
timer_id_cmp a b = compare b a

pub timer_cb_cmp_refl : (a : Due) → timer_cb_cmp a a ≡ eq
unfolding timer_cb_cmp
timer_cb_cmp_refl a = ground arith

pub eq_of_timer_cb_cmp : (a b : Due) → timer_cb_cmp a b ≡ eq → a ≡ b
unfolding timer_cb_cmp
eq_of_timer_cb_cmp a b h = ground (
  arith,
  eq_of_compare a.sec b.sec,
  eq_of_compare a.nsec b.nsec,
  eq_of_compare a.timer_id b.timer_id,
)

pub timer_cb_cmp-lt_of_gt : (a b : Due) → timer_cb_cmp a b ≡ gt → timer_cb_cmp b a ≡ lt
unfolding timer_cb_cmp
timer_cb_cmp-lt_of_gt a b h = ground arith

pub timer_cb_cmp-gt_of_lt : (a b : Due) → timer_cb_cmp a b ≡ lt → timer_cb_cmp b a ≡ gt
unfolding timer_cb_cmp
timer_cb_cmp-gt_of_lt a b h = ground arith

pub timer_cb_cmp_trans :
    (a b c : Due) → timer_cb_cmp a b ≡ lt → timer_cb_cmp b c ≡ lt → timer_cb_cmp a c ≡ lt
unfolding timer_cb_cmp
timer_cb_cmp_trans a b c h k = ground arith

-- The timers in the order of their ends: the order that ytree_create is given.
abbrev pub due_ord : Ord Due
due_ord = record {
  cmp = timer_cb_cmp;
  cmp_refl = timer_cb_cmp_refl;
  eq_of_cmp = eq_of_timer_cb_cmp;
  lt_of_gt = timer_cb_cmp-lt_of_gt;
  gt_of_lt = timer_cb_cmp-gt_of_lt;
  lt_trans = timer_cb_cmp_trans;
}

abbrev pub id_ord : Ord ℕ
id_ord = record {
  cmp = timer_id_cmp;
  cmp_refl = compare_refl;
  eq_of_cmp = λ a b h. sym (eq_of_compare b a h);
  lt_of_gt = λ a b h. compare-lt_of_gt b a h;
  gt_of_lt = λ a b h. compare-gt_of_lt b a h;
  lt_trans = λ a b c h k. compare_trans c b a k h;
}
