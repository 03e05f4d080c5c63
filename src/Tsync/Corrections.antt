-- ===== src/Tsync/Corrections.antt =====
-- What the providers of a time base do to it and to the others (src/ara/tsync/tsync.cpp).
use my_auto_sar_ap.Prelude.{
  ℕ, suc, ◌<◌, ◌≤◌, ◌≡◌, ◌≢◌, ◌%◌, refl, ap, arith, List, length, get_or-set, nat_eq, if◌then◌else◌,
}
use my_auto_sar_ap.Prelude.Int.{ℤ, negsuc, neg_part, ◌+ℤ◌, scale, tdiv, trem, to_u32}
use my_auto_sar_ap.Tsync.{
  TimeBaseState, TimeBaseId, TimePoint, synchronized, time_base, index, write, total_ns, billion,
  set_time, get_sync_status, apply_correction, zero_state,
}

-- The time that a time base stands for, in nanoseconds.
abbrev pub base_ns : List TimeBaseState → TimeBaseId → ℤ
base_ns bases id = total_ns (time_base bases id).epoch_seconds (time_base bases id).nano_seconds

time_base-write :
    (bases : List TimeBaseState) (id j : TimeBaseId) (tb : TimeBaseState)
    → length bases ≡ 4
    → time_base (write bases id tb) j
      ≡ (if nat_eq (index id) (index j) then tb else time_base bases j)
time_base-write bases id j tb four =
    get_or-set bases (index id) (index j) tb zero_state (ground arith)

pub write_self :
    (bases : List TimeBaseState) (id : TimeBaseId) (tb : TimeBaseState)
    → length bases ≡ 4
    → time_base (write bases id tb) id ≡ tb
write_self bases id tb four = ground (arith, time_base-write bases id id tb four)

pub split_nonneg :
    (cur : ℤ)
    → neg_part cur ≡ 0
    → (total_ns (tdiv cur billion) (to_u32 (trem cur billion)) ≡ cur)
      × (to_u32 (trem cur billion) < 1000000000)
unfolding scale tdiv trem to_u32 ◌+ℤ◌
split_nonneg cur h = ground arith

-- A correction that does not lead before the epoch moves the time base by exactly the correction,
-- leaves its nanoseconds in their range and its status as it was, and leaves the other time bases
-- alone.
pub apply_correction_lem :
    (bases : List TimeBaseState) (id j : TimeBaseId) (correction : ℤ)
    → length bases ≡ 4
    → neg_part (base_ns bases id +ℤ correction) ≡ 0
    → let after = apply_correction bases id correction in
      (base_ns after id ≡ base_ns bases id +ℤ correction)
      × ((time_base after id).nano_seconds < 1000000000)
      × (get_sync_status after id ≡ get_sync_status bases id)
      × (time_base after j
          ≡ (if nat_eq (index id) (index j) then time_base after id else time_base bases j))
unfolding apply_correction get_sync_status
apply_correction_lem bases id j correction four h =
    let tb = time_base bases id in
    let cur = base_ns bases id +ℤ correction in
    let tb' : TimeBaseState = record tb {
      epoch_seconds = tdiv cur billion;
      nano_seconds = to_u32 (trem cur billion);
    } in
    let own = write_self bases id tb' four in
    let other = time_base-write bases id j tb' four in
    let (total, small) = split_nonneg cur h in
    rw (own, other) (total, small, ap (λ (b : TimeBaseState). b.sync_status) own, refl)

negative_ns : (n : ℕ) → suc n % 1000000000 ≢ 0 → 1000000000 ≤ to_u32 (trem (negsuc n) billion)
unfolding trem to_u32
negative_ns n h = ground arith

-- A correction that leads before the epoch, not on a whole second, leaves the time base with
-- nanoseconds out of their range.
pub apply_correction-negative :
    (bases : List TimeBaseState) (id : TimeBaseId) (correction : ℤ) (n : ℕ)
    → length bases ≡ 4
    → base_ns bases id +ℤ correction ≡ negsuc n
    → suc n % 1000000000 ≢ 0
    → 1000000000 ≤ (time_base (apply_correction bases id correction) id).nano_seconds
unfolding apply_correction
apply_correction-negative bases id correction n four e h =
    let tb = time_base bases id in
    let cur = base_ns bases id +ℤ correction in
    let tb' : TimeBaseState = record tb {
      epoch_seconds = tdiv cur billion;
      nano_seconds = to_u32 (trem cur billion);
    } in
    rw (write_self bases id tb' four, e) (negative_ns n h)

-- `SetTime` sets the time of its own time base, marks it as synchronized, and leaves the other time
-- bases alone.
pub set_time_lem :
    (bases : List TimeBaseState) (id j : TimeBaseId) (t : TimePoint)
    → length bases ≡ 4
    → let after = set_time bases id t in
      (base_ns after id ≡ total_ns t.seconds t.nanoseconds)
      × (get_sync_status after id ≡ synchronized)
      × (time_base after j
          ≡ (if nat_eq (index id) (index j) then time_base after id else time_base bases j))
unfolding set_time get_sync_status
set_time_lem bases id j t four =
    let tb' : TimeBaseState = record {
      epoch_seconds = t.seconds;
      nano_seconds = t.nanoseconds;
      sync_status = synchronized;
    } in
    let own = write_self bases id tb' four in
    rw (own, time_base-write bases id j tb' four)
      (refl, ap (λ (b : TimeBaseState). b.sync_status) own, refl)
