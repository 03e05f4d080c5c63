-- ===== src/Tsync/Points.antt =====
-- Time points and their differences (include/ara/tsync/time_sync.h, src/ara/tsync/tsync.cpp).
use my_auto_sar_ap.Prelude.{ℕ, suc, ◌%◌, ◌<◌, ◌≡◌, ◌≢◌, arith}
use my_auto_sar_ap.Prelude.Int.{
  ℤ, pos, negsuc, neg_part, ◌+ℤ◌, ◌-ℤ◌, scale, tdiv, trem, to_u32, ltb_ℤ,
}
use my_auto_sar_ap.Tsync.{TimePoint, point_lt, get_time_diff, to_chrono, from_chrono}

-- The documented range of the nanoseconds.
abbrev pub IsNormal : TimePoint → Type 0
IsNormal t = t.nanoseconds < 1000000000

abbrev pub Nonneg : ℤ → Type 0
Nonneg a = neg_part a ≡ 0

-- A normal time point from the epoch on survives the way to `system_clock` and back.
pub from_chrono-to_chrono :
    (t : TimePoint) → IsNormal t → Nonneg t.seconds → from_chrono (to_chrono t) ≡ t
unfolding from_chrono to_chrono scale tdiv trem to_u32 ◌+ℤ◌
from_chrono-to_chrono t n h = ground arith

-- A time of the system clock from the epoch on survives the way to a time point and back, and the time
-- point is normal.
pub to_chrono-from_chrono :
    (total : ℤ)
    → Nonneg total
    → (to_chrono (from_chrono total) ≡ total) × IsNormal (from_chrono total)
unfolding from_chrono to_chrono scale tdiv trem to_u32 ◌+ℤ◌
to_chrono-from_chrono total h = ground arith

-- A time of the system clock before the epoch, not on a whole second, gives a time point whose
-- nanoseconds are out of their range.
pub from_chrono-negative : (n : ℕ) → suc n % 1000000000 ≢ 0 → ¬ IsNormal (from_chrono (negsuc n))
unfolding from_chrono trem to_u32
from_chrono-negative n h = ground arith

-- The order of normal time points is the order of their difference.
pub point_lt-get_time_diff :
    (a b : TimePoint) → IsNormal a → IsNormal b → point_lt a b ≡ ltb_ℤ (pos 0) (get_time_diff a b)
unfolding get_time_diff scale ◌+ℤ◌ ◌-ℤ◌
point_lt-get_time_diff a b n m = ground arith
