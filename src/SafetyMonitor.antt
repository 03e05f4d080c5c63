-- ===== src/SafetyMonitor.antt =====
-- The safety monitor: src/application/SwcSafetyMonitor/SafetyMonitorService.h and .cpp. The managers
-- that it calls are fields; the steady clock is the argument `now`. A call of the level callback is an
-- entry of `trace`, newest first. The execution state that is reported is only printed. `none` is the
-- null pointer that `supervisedEntity_` holds before `Init`, or a call through it.
pub mod Levels
pub mod Emergency
pub mod Loop
pub mod Race
use my_auto_sar_ap.Prelude.{
  ℕ, String, Bool, true, false, Option, none, some, List, [], ◌∷◌, leb, max, if◌then◌else◌,
  String_eq,
}
use my_auto_sar_ap.Sm
use my_auto_sar_ap.Sm.{
  StateManagement, MachineState, off, parked, shutdown, request_machine_state_change, request_group,
  get_function_group, trigger_error_state,
}
use my_auto_sar_ap.Phm
use my_auto_sar_ap.Phm.{
  PlatformHealthManagement, SupervisedEntity, GlobalSupervisionStatus, trigger_sm, make_entity,
  destroy_entity, set_phm_action, start, stop, kick_watchdog, checkpoint_reached, get_global_status,
}

pub data SafetyLevel : Type 0 where
  level0_normal level1_degraded level2_min_risk level3_safe_stop level4_emergency : SafetyLevel

abbrev pub level_code : SafetyLevel → ℕ
level_code level0_normal = 0
level_code level1_degraded = 1
level_code level2_min_risk = 2
level_code level3_safe_stop = 3
level_code level4_emergency = 4

pub record McuSafetyStatus : Type 0 where
  pub safety_level : SafetyLevel
  pub wdg_status : ℕ
  pub asil_d_violation : Bool
  pub fault_code : ℕ
  pub timestamp_ms : ℕ
  pub e2e_counter : ℕ

-- `lastWdgKickMs` is never set, so that it has no value to model.
pub record SocSafetySnapshot : Type 0 where
  pub soc_level : SafetyLevel
  pub mcu_level : SafetyLevel
  pub system_level : SafetyLevel
  pub phm_status : GlobalSupervisionStatus
  pub ipc_connected : Bool

pub record SafetyMonitor : Type 0 where
  pub current_level : SafetyLevel
  pub last_mcu_status : McuSafetyStatus
  pub safety_level_callback : Option ℕ
  pub running : Bool
  pub last_wdg_kick : ℕ
  pub supervised_entity : Option SupervisedEntity
  pub sm : StateManagement
  pub phm : PlatformHealthManagement
  pub trace : List (ℕ × SafetyLevel × String)

-- `lastMcuStatus_` is not initialized: what it holds at first is an argument.
unfoldable pub new :
    McuSafetyStatus → StateManagement → PlatformHealthManagement → ℕ → SafetyMonitor
new unset sm phm now = record {
  current_level = level0_normal;
  last_mcu_status = unset;
  safety_level_callback = none;
  running = false;
  last_wdg_kick = now;
  supervised_entity = none;
  sm = sm;
  phm = phm;
  trace = [];
}

-- The pointer's assignment destroys the entity that was there, after the new one is made.
abbrev pub drop_entity :
    Option SupervisedEntity → PlatformHealthManagement → PlatformHealthManagement
drop_entity none phm = phm
drop_entity (some se) phm = destroy_entity phm se

unfoldable pub init : SafetyMonitor → ℕ → SafetyMonitor × Bool
init m now =
    let (phm, se) = make_entity m.phm "SafetyMonitorService" now in
    let phm' = drop_entity m.supervised_entity phm in
    (
      record m {
        supervised_entity = some se;
        phm = start (set_phm_action phm' "SafetyMonitorService" trigger_sm) now;
        sm = (Sm.initialize m.sm).0;
      },
      true,
    )

-- `if (fg) fg->RequestStateChange(kOff)`, for the pointer that `GetFunctionGroup` gave.
abbrev pub switch_off : StateManagement → Option ℕ → StateManagement
switch_off sm none = sm
switch_off sm (some p) = (request_group sm p off).0

-- The text of `"Safety level " + std::to_string(level)`.
abbrev pub level_text : SafetyLevel → String
level_text level0_normal = "Safety level 0"
level_text level1_degraded = "Safety level 1"
level_text level2_min_risk = "Safety level 2"
level_text level3_safe_stop = "Safety level 3"
level_text level4_emergency = "Safety level 4"

abbrev pub stop_machine : StateManagement → SafetyLevel → StateManagement
stop_machine sm level =
    (request_machine_state_change (trigger_error_state sm (level_text level)) shutdown).0

unfoldable pub execute_safety_action : StateManagement → SafetyLevel → StateManagement
execute_safety_action sm level0_normal = sm
execute_safety_action sm level1_degraded = switch_off sm (get_function_group sm "Infotainment")
execute_safety_action sm level2_min_risk =
    let infotainment = get_function_group sm "Infotainment" in
    let ota = get_function_group sm "OTA" in
    (request_machine_state_change (switch_off (switch_off sm infotainment) ota) parked).0
execute_safety_action sm level3_safe_stop = stop_machine sm level3_safe_stop
execute_safety_action sm level4_emergency = stop_machine sm level4_emergency

abbrev pub call :
    Option ℕ
    → SafetyLevel
    → String
    → List (ℕ × SafetyLevel × String)
    → List (ℕ × SafetyLevel × String)
call none level reason t = t
call (some cb) level reason t = (cb, level, reason) ∷ t

unfoldable pub escalate_safety_level : SafetyMonitor → SafetyLevel → String → SafetyMonitor
escalate_safety_level m level reason =
    if leb (level_code level) (level_code m.current_level) then m else record m {
      current_level = level;
      sm = execute_safety_action m.sm level;
      trace = call m.safety_level_callback level reason m.trace;
    }

-- The last part of the check: the MCU's status.
unfoldable pub check_mcu_status : SafetyMonitor → SafetyMonitor
check_mcu_status m =
    if m.last_mcu_status.asil_d_violation
    then escalate_safety_level m level4_emergency "MCU ASIL-D violation"
    else if leb 2 (level_code m.last_mcu_status.safety_level)
    then escalate_safety_level m m.last_mcu_status.safety_level "MCU safety escalation"
    else m

abbrev pub check_phm_status : SafetyMonitor → GlobalSupervisionStatus → SafetyMonitor
check_phm_status m Phm.GlobalSupervisionStatus.expired =
    escalate_safety_level m level3_safe_stop "PHM supervision expired"
check_phm_status m Phm.GlobalSupervisionStatus.failed =
    escalate_safety_level m level2_min_risk "PHM supervision failed"
check_phm_status m _ = check_mcu_status m

unfoldable pub periodic_safety_check : SafetyMonitor → ℕ → Option SafetyMonitor
periodic_safety_check m now = elim m.supervised_entity [
  | none ↦ none
  | some entity ↦
      let (phm, se) = checkpoint_reached (kick_watchdog m.phm now) entity 1 now in
      some (
        check_phm_status (record m { phm = phm; supervised_entity = some se; last_wdg_kick = now })
          (get_global_status phm))
]

unfoldable pub shut_down : SafetyMonitor → SafetyMonitor
shut_down m =
    let stopped =
      escalate_safety_level (record m { running = false }) level3_safe_stop "Planned shutdown" in
    record stopped { phm = stop stopped.phm }

unfoldable pub on_mcu_safety_status : SafetyMonitor → McuSafetyStatus → SafetyMonitor
on_mcu_safety_status m status = record m { last_mcu_status = status }

-- `std::max` of two levels, which gives the first of equal ones.
abbrev pub max_level : SafetyLevel → SafetyLevel → SafetyLevel
max_level a b = if leb (level_code b) (level_code a) then a else b

unfoldable pub get_safety_snapshot : SafetyMonitor → SocSafetySnapshot
get_safety_snapshot m = record {
  soc_level = m.current_level;
  mcu_level = m.last_mcu_status.safety_level;
  system_level = max_level m.current_level m.last_mcu_status.safety_level;
  phm_status = get_global_status m.phm;
  ipc_connected = true;
}

unfoldable pub set_safety_level_callback : SafetyMonitor → Option ℕ → SafetyMonitor
set_safety_level_callback m cb = record m { safety_level_callback = cb }
