-- ===== src/Tsync.antt =====
-- ara::tsync: include/ara/tsync/time_sync.h and src/ara/tsync/tsync.cpp. The system clock, in
-- nanoseconds since the epoch, is the argument `now`. `int64_t` values are integers: the code's sums
-- and products are taken where they do not overflow.
pub mod Points
pub mod Corrections
pub mod Range
pub mod Race
use my_auto_sar_ap.Prelude.{
  ℕ, ◌+◌, ◌*◌, ◌<◌, Bool, true, false, not, List, [], ◌∷◌, get_or, set, map, ltb, leb, nat_eq, ◌&&◌,
  if◌then◌else◌,
}
use my_auto_sar_ap.Prelude.Int.{ℤ, pos, ◌+ℤ◌, ◌-ℤ◌, scale, tdiv, trem, to_u32, ltb_ℤ, eq_ℤ}

pub record TimePoint : Type 0 where
  pub seconds : ℤ
  pub nanoseconds : ℕ  -- uint32_t

abbrev pub point_eq : TimePoint → TimePoint → Bool
point_eq a b = eq_ℤ a.seconds b.seconds && nat_eq a.nanoseconds b.nanoseconds

abbrev pub point_lt : TimePoint → TimePoint → Bool
point_lt a b =
    if not (eq_ℤ a.seconds b.seconds)
    then ltb_ℤ a.seconds b.seconds
    else ltb a.nanoseconds b.nanoseconds

abbrev pub point_le : TimePoint → TimePoint → Bool
point_le a b = not (point_lt b a)

-- The `uint8_t` value of a `TimeBaseId`.
abbrev pub TimeBaseId : Type 0
TimeBaseId = ℕ

abbrev pub system_time : TimeBaseId
system_time = 0

pub data SyncStatus : Type 0 where
  synchronized syncing lost_sync not_supported : SyncStatus

pub record TimeBaseState : Type 0 where
  pub epoch_seconds : ℤ
  pub nano_seconds : ℕ  -- uint32_t
  pub sync_status : SyncStatus

abbrev pub zero_state : TimeBaseState
zero_state = record { epoch_seconds = pos 0; nano_seconds = 0; sync_status = syncing }

abbrev pub billion : ℕ
billion = 1000000000

-- The index that `GetTimeBaseState` uses.
abbrev pub index : TimeBaseId → ℕ
index id = if leb 4 id then 3 else id

abbrev pub time_base : List TimeBaseState → TimeBaseId → TimeBaseState
time_base bases id = get_or bases (index id) zero_state

abbrev pub write : List TimeBaseState → TimeBaseId → TimeBaseState → List TimeBaseState
write bases id tb = set bases (index id) tb

abbrev pub point_of : ℤ → TimePoint
point_of total = record { seconds = tdiv total billion; nanoseconds = to_u32 (trem total billion) }

abbrev started : ℤ → SyncStatus → TimeBaseState
started now status = record {
  epoch_seconds = tdiv now billion;
  nano_seconds = to_u32 (trem now billion);
  sync_status = status;
}

-- The static initializer: four time bases at the clock's time, of which the first is synchronized.
unfoldable pub init_time_bases : ℤ → List TimeBaseState
init_time_bases now =
    started now synchronized ∷ started now syncing ∷ started now syncing ∷ started now syncing ∷ []

-- `SynchronizedTimeBaseConsumer::GetCurrentTime`: the time base is looked up and not used.
unfoldable pub get_current_time : List TimeBaseState → TimeBaseId → ℤ → TimePoint
get_current_time bases id now = point_of now

abbrev pub total_ns : ℤ → ℕ → ℤ
total_ns seconds nanoseconds = scale seconds billion +ℤ pos nanoseconds

unfoldable pub get_time_diff : TimePoint → TimePoint → ℤ
get_time_diff t1 t2 = total_ns t2.seconds t2.nanoseconds -ℤ total_ns t1.seconds t1.nanoseconds

unfoldable pub get_sync_status : List TimeBaseState → TimeBaseId → SyncStatus
get_sync_status bases id = (time_base bases id).sync_status

unfoldable pub set_time : List TimeBaseState → TimeBaseId → TimePoint → List TimeBaseState
set_time bases id t =
    write bases id (record {
      epoch_seconds = t.seconds;
      nano_seconds = t.nanoseconds;
      sync_status = synchronized;
    })

unfoldable pub set_sync_status : List TimeBaseState → TimeBaseId → SyncStatus → List TimeBaseState
set_sync_status bases id status =
    write bases id (record (time_base bases id) { sync_status = status })

-- Reading, adding and writing back, with no other writer in between.
unfoldable pub apply_correction : List TimeBaseState → TimeBaseId → ℤ → List TimeBaseState
apply_correction bases id correction =
    let tb = time_base bases id in
    let cur = total_ns tb.epoch_seconds tb.nano_seconds +ℤ correction in
    write bases id
      (record tb { epoch_seconds = tdiv cur billion; nano_seconds = to_u32 (trem cur billion) })

-- A `system_clock::time_point` is its nanoseconds since the epoch.
unfoldable pub to_chrono : TimePoint → ℤ
to_chrono t = total_ns t.seconds t.nanoseconds

unfoldable pub from_chrono : ℤ → TimePoint
from_chrono total = point_of total

-- The global `GetCurrentTime`.
unfoldable pub current_time : List TimeBaseState → ℤ → TimePoint
unfolding get_current_time
current_time bases now = get_current_time bases system_time now
