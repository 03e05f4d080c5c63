-- ===== src/Phm.antt =====
-- ara::phm: include/ara/phm/platform_health_management.h and src/ara/phm/phm.cpp. The steady clock
-- is the argument `now`.
pub mod Global
pub mod Registry
pub mod Contents
pub mod Abstract
pub mod Entries
use my_auto_sar_ap.Prelude.{
  ℕ, ◌+◌, ◌%◌, String, Bool, true, false, Option, none, some, List, [], ◌∷◌, if◌then◌else◌,
  String_eq,
}
use my_auto_sar_ap.Prelude.Map.{lookup, insert, erase}

pub data SupervisionStatus : Type 0 where
  ok failed expired stopped deactivated : SupervisionStatus

pub data GlobalSupervisionStatus : Type 0 where
  normal failed expired stopped : GlobalSupervisionStatus

pub data PhmAction : Type 0 where
  no_action report_error restart_app trigger_sm hard_reset : PhmAction

pub record AliveSupervisionConfig : Type 0 where
  pub alive_reference_cycle_ms : ℕ
  pub min_margin : ℕ
  pub max_margin : ℕ
  pub failed_supervision_cycles_tol : ℕ

pub record EntityRecord : Type 0 where
  pub alive_conf : AliveSupervisionConfig
  pub status : SupervisionStatus
  pub last_checkpoint_time : ℕ
  pub alive_count_in_cycle : ℕ  -- uint32_t
  pub action : PhmAction

pub record PlatformHealthManagement : Type 0 where
  pub entities : List (String × EntityRecord)
  pub recovery_callback : Option ℕ
  pub running : Bool
  pub last_wdg_kick : ℕ

unfoldable pub new : PlatformHealthManagement
new = record { entities = []; recovery_callback = none; running = false; last_wdg_kick = 0 }

abbrev pub registered : AliveSupervisionConfig → ℕ → EntityRecord
registered conf now = record {
  alive_conf = conf;
  status = SupervisionStatus.ok;
  last_checkpoint_time = now;
  alive_count_in_cycle = 0;
  action = report_error;
}

unfoldable pub register_entity :
    PlatformHealthManagement → String → AliveSupervisionConfig → ℕ → PlatformHealthManagement × Bool
register_entity phm id conf now = elim (lookup id phm.entities) [
  | some rec ↦ (phm, false)
  | none ↦ (record phm { entities = insert id (registered conf now) phm.entities }, true)
]

unfoldable pub unregister_entity : PlatformHealthManagement → String → PlatformHealthManagement
unregister_entity phm id = record phm { entities = erase id phm.entities }

abbrev pub reported : EntityRecord → ℕ → EntityRecord
reported rec now = record rec {
  last_checkpoint_time = now;
  alive_count_in_cycle = (rec.alive_count_in_cycle + 1) % 4294967296;
  status = SupervisionStatus.ok;
}

-- The checkpoint's id is not used.
unfoldable pub report_checkpoint :
    PlatformHealthManagement → String → ℕ → ℕ → PlatformHealthManagement
report_checkpoint phm id cp now = elim (lookup id phm.entities) [
  | none ↦ phm
  | some rec ↦ record phm { entities = insert id (reported rec now) phm.entities }
]

-- The body of the loop in `GetGlobalStatus`, but for the `break` on `kExpired`.
abbrev pub worsen : SupervisionStatus → GlobalSupervisionStatus → GlobalSupervisionStatus
worsen failed acc = GlobalSupervisionStatus.failed
worsen stopped normal = GlobalSupervisionStatus.stopped
worsen _ acc = acc

abbrev pub is_expired : SupervisionStatus → Bool
is_expired expired = true
is_expired _ = false

unfoldable pub scan :
    GlobalSupervisionStatus → List (String × EntityRecord) → GlobalSupervisionStatus
scan acc [] = acc
scan acc ((id, rec) ∷ rest) =
    let next = scan (worsen rec.status acc) rest in
    if is_expired rec.status then GlobalSupervisionStatus.expired else next

unfoldable pub get_global_status : PlatformHealthManagement → GlobalSupervisionStatus
get_global_status phm = scan normal phm.entities

unfoldable pub kick_watchdog : PlatformHealthManagement → ℕ → PlatformHealthManagement
kick_watchdog phm now = record phm { last_wdg_kick = now }

unfoldable pub set_recovery_callback :
    PlatformHealthManagement → Option ℕ → PlatformHealthManagement
set_recovery_callback phm cb = record phm { recovery_callback = cb }

unfoldable pub set_phm_action :
    PlatformHealthManagement → String → PhmAction → PlatformHealthManagement
set_phm_action phm id action = elim (lookup id phm.entities) [
  | none ↦ phm
  | some rec ↦ record phm { entities = insert id (record rec { action = action }) phm.entities }
]

unfoldable pub start : PlatformHealthManagement → ℕ → PlatformHealthManagement
start phm now = record phm { running = true; last_wdg_kick = now }

unfoldable pub stop : PlatformHealthManagement → PlatformHealthManagement
stop phm = record phm { running = false }

pub record SupervisedEntity : Type 0 where
  pub instance_id : String
  pub status : SupervisionStatus
  pub last_checkpoint_time : ℕ
  pub checkpoint_count : ℕ  -- uint32_t

abbrev pub default_conf : AliveSupervisionConfig
default_conf = record {
  alive_reference_cycle_ms = 100;
  min_margin = 0;
  max_margin = 2;
  failed_supervision_cycles_tol = 3;
}

-- The constructor, the destructor and `CheckpointReached` of a supervised entity.
unfoldable pub make_entity :
    PlatformHealthManagement → String → ℕ → PlatformHealthManagement × SupervisedEntity
make_entity phm id now = (
  (register_entity phm id default_conf now).0,
  record {
    instance_id = id;
    status = SupervisionStatus.ok;
    last_checkpoint_time = now;
    checkpoint_count = 0;
  },
)

unfoldable pub destroy_entity :
    PlatformHealthManagement → SupervisedEntity → PlatformHealthManagement
destroy_entity phm se = unregister_entity phm se.instance_id

unfoldable pub checkpoint_reached :
    PlatformHealthManagement
    → SupervisedEntity
    → ℕ
    → ℕ
    → PlatformHealthManagement × SupervisedEntity
checkpoint_reached phm se cp now = (
  report_checkpoint phm se.instance_id cp now,
  record se {
    last_checkpoint_time = now;
    checkpoint_count = (se.checkpoint_count + 1) % 4294967296;
  },
)

unfoldable pub get_status : SupervisedEntity → SupervisionStatus
get_status se = se.status

unfoldable pub is_running : PlatformHealthManagement → Bool
is_running phm = phm.running
