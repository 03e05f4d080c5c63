-- ===== src/SafetyMonitor/Levels.antt =====
-- The safety level over sequences of calls, and what it does to the machine
-- (src/application/SwcSafetyMonitor/SafetyMonitorService.cpp).
use my_auto_sar_ap.Prelude.{
  ℕ, ◌≤◌, ◌<◌, ◌≡◌, ◌⊎◌, inl, inr, refl, arith, String, Bool, true, false, Option, none, some, List,
  [], ◌∷◌, leb, if◌then◌else◌, Bool-cases,
}
use my_auto_sar_ap.Sm.{
  StateManagement, MachineState, off, request_machine_state_change, trigger_error_state, make_group,
  is_valid_transition, initialize, register_function_group,
}
use my_auto_sar_ap.Sm.Runs.{IsHalted, request-IsHalted}
use my_auto_sar_ap.Phm
use my_auto_sar_ap.Phm.{
  SupervisedEntity, GlobalSupervisionStatus, get_global_status, normal, kick_watchdog,
  checkpoint_reached,
}
use my_auto_sar_ap.SafetyMonitor.{
  SafetyMonitor, SafetyLevel, McuSafetyStatus, level_code, level0_normal, level1_degraded,
  level2_min_risk, level3_safe_stop, level4_emergency, execute_safety_action, escalate_safety_level,
  stop_machine, check_mcu_status, check_phm_status, periodic_safety_check, init, shut_down,
  on_mcu_safety_status, set_safety_level_callback,
}

-- The calls of the monitor, and a request to the state manager by any other client.
pub data Op : Type 0 where
  inits checks : ℕ → Op
  shuts_down : Op
  reports : McuSafetyStatus → Op
  sets_callback : Option ℕ → Op
  requests : MachineState → Op

unfoldable pub step : SafetyMonitor → Op → Option SafetyMonitor
step m (inits now) = some (init m now).0
step m (checks now) = periodic_safety_check m now
step m shuts_down = some (shut_down m)
step m (reports status) = some (on_mcu_safety_status m status)
step m (sets_callback cb) = some (set_safety_level_callback m cb)
step m (requests target) = some (record m { sm = (request_machine_state_change m.sm target).0 })

unfoldable pub run : SafetyMonitor → List Op → Option SafetyMonitor
run m [] = some m
run m (op ∷ ops) = elim (step m op) [ none ↦ none | some m' ↦ run m' ops ]

-- A monitor is initialized, and at level 3 or 4 the machine is halted.
pub record IsSound (m : SafetyMonitor) : Type 0 where
  pub entity : (se : SupervisedEntity) × (m.supervised_entity ≡ some se)
  pub halted : (level_code m.current_level < 3) ⊎ IsHalted m.sm.current_state

stop-IsHalted :
    (sm : StateManagement) (level : SafetyLevel) → IsHalted (stop_machine sm level).current_state
unfolding trigger_error_state request_machine_state_change is_valid_transition
stop-IsHalted sm level = ground arith

pub action-IsHalted :
    (sm : StateManagement) (level : SafetyLevel)
    → 3 ≤ level_code level
    → IsHalted (execute_safety_action sm level).current_state
unfolding execute_safety_action
action-IsHalted sm level0_normal h = absurd (omega arith)
action-IsHalted sm level1_degraded h = absurd (omega arith)
action-IsHalted sm level2_min_risk h = absurd (omega arith)
action-IsHalted sm level3_safe_stop h = stop-IsHalted sm level3_safe_stop
action-IsHalted sm level4_emergency h = stop-IsHalted sm level4_emergency

settled :
    (sm : StateManagement) (level : SafetyLevel)
    → (level_code level < 3) ⊎ IsHalted (execute_safety_action sm level).current_state
settled sm level = elim (Bool-cases (leb 3 (level_code level))) [
  | inl high ↦ inr (action-IsHalted sm level (ground arith))
  | inr low ↦ inl (ground arith)
]

-- What a call may do: it keeps the monitor sound and does not lower its level.
abbrev pub Keeps : SafetyMonitor → SafetyMonitor → Type 0
Keeps m m' = IsSound m' × (level_code m.current_level ≤ level_code m'.current_level)

pub escalate-Keeps :
    (m : SafetyMonitor) (level : SafetyLevel) (reason : String)
    → IsSound m
    → Keeps m (escalate_safety_level m level reason)
unfolding escalate_safety_level
escalate-Keeps m level reason s =
    elim (Bool-cases (leb (level_code level) (level_code m.current_level))) [
      | inl lower ↦ rw lower (s, omega arith)
      | inr higher ↦
          rw higher ((record { entity = s.entity; halted = settled m.sm level }), ground arith)
    ]

if-Keeps : (b : Bool) (m x y : SafetyMonitor) → Keeps m x → Keeps m y → Keeps m (if b then x else y)
if-Keeps true m x y kx ky = kx
if-Keeps false m x y kx ky = ky

mcu-Keeps : (m : SafetyMonitor) → IsSound m → Keeps m (check_mcu_status m)
unfolding check_mcu_status
mcu-Keeps m s = if-Keeps m.last_mcu_status.asil_d_violation m _ _ (escalate-Keeps m _ _ s) (
    if-Keeps (leb 2 (level_code m.last_mcu_status.safety_level)) m _ _ (escalate-Keeps m _ _ s)
      (s, omega arith))

phm-Keeps :
    (m : SafetyMonitor) (status : GlobalSupervisionStatus)
    → IsSound m
    → Keeps m (check_phm_status m status)
phm-Keeps m Phm.GlobalSupervisionStatus.expired s = escalate-Keeps m _ _ s
phm-Keeps m Phm.GlobalSupervisionStatus.failed s = escalate-Keeps m _ _ s
phm-Keeps m Phm.GlobalSupervisionStatus.stopped s = mcu-Keeps m s
phm-Keeps m normal s = mcu-Keeps m s

register-machine :
    (sm : StateManagement) (p : Option ℕ)
    → (register_function_group sm p).current_state ≡ sm.current_state
unfolding register_function_group
register-machine sm none = refl
register-machine sm (some p) = ground arith

initialize-machine : (sm : StateManagement) → (initialize sm).0.current_state ≡ sm.current_state
unfolding initialize
initialize-machine sm =
    let (s1, a) = make_group sm "DriveAssist" off in
    let (s2, b) = make_group s1 "Infotainment" off in
    let (s3, c) = make_group s2 "Diagnostic" off in
    let (s4, d) = make_group s3 "OTA" off in simp register-machine refl

-- What a call leads to: a sound monitor of at least the level.
abbrev pub LeadsOn : SafetyMonitor → Option SafetyMonitor → Type 0
LeadsOn m r =
    (m' : SafetyMonitor) × (r ≡ some m')
    × IsSound m'
    × (level_code m.current_level ≤ level_code m'.current_level)

requested :
    (m : SafetyMonitor) (target : MachineState)
    → (level_code m.current_level < 3) ⊎ IsHalted m.sm.current_state
    → (level_code m.current_level < 3)
      ⊎ IsHalted (request_machine_state_change m.sm target).0.current_state
requested m target (inl low) = inl low
requested m target (inr halted) = inr (request-IsHalted m.sm target halted)

pub step-LeadsOn : (m : SafetyMonitor) (op : Op) → IsSound m → LeadsOn m (step m op)
unfolding step init periodic_safety_check shut_down on_mcu_safety_status set_safety_level_callback
step-LeadsOn m (inits now) s = (
  (init m now).0,
  refl,
  (record { entity = (_, refl); halted = rw (initialize-machine m.sm) s.halted }),
  omega arith,
)
step-LeadsOn m (checks now) s =
    let (se, present) = s.entity in
    let (phm, se') = checkpoint_reached (kick_watchdog m.phm now) se 1 now in
    let m' : SafetyMonitor = record m {
      phm = phm;
      supervised_entity = some se';
      last_wdg_kick = now;
    } in
    let kept =
      phm-Keeps m' (get_global_status phm) (record { entity = (se', refl); halted = s.halted }) in
    (check_phm_status m' (get_global_status phm), rw present, kept.0, kept.1)
step-LeadsOn m shuts_down s =
    let m' : SafetyMonitor = record m { running = false } in
    let (kept, up) =
      escalate-Keeps m' level3_safe_stop "Planned shutdown"
        (record { entity = s.entity; halted = s.halted }) in
    (shut_down m, refl, (record { entity = kept.entity; halted = kept.halted }), up)
step-LeadsOn m (reports status) s = (
  on_mcu_safety_status m status,
  refl,
  (record { entity = s.entity; halted = s.halted }),
  omega arith,
)
step-LeadsOn m (sets_callback cb) s = (
  set_safety_level_callback m cb,
  refl,
  (record { entity = s.entity; halted = s.halted }),
  omega arith,
)
step-LeadsOn m (requests target) s = (
  (record m { sm = (request_machine_state_change m.sm target).0 }),
  refl,
  (record { entity = s.entity; halted = requested m target s.halted }),
  omega arith,
)

-- `Init` makes a monitor below level 3 sound.
pub init-IsSound :
    (m : SafetyMonitor) (now : ℕ) → level_code m.current_level < 3 → IsSound (init m now).0
unfolding init
init-IsSound m now h = record { entity = (_, refl); halted = inl h }

-- A sound monitor takes every sequence of its calls, mixed with requests to the state manager by
-- others, to an end: its level never goes down, and at level 3 or 4 the machine is in Shutdown or in
-- Error. Sound means that it has its supervised entity, and that the machine is in one of the two
-- already if the level is 3 or 4.
pub run-IsSound :
    (m : SafetyMonitor) (ops : List Op)
    → IsSound m
    → (m' : SafetyMonitor) × (run m ops ≡ some m')
      × (level_code m.current_level ≤ level_code m'.current_level)
      × ((level_code m'.current_level < 3) ⊎ IsHalted m'.sm.current_state)
unfolding run
run-IsSound m [] s = (m, refl, omega arith, s.halted)
run-IsSound m (op ∷ ops) s =
    let (m1, stepped, sound, up) = step-LeadsOn m op s in
    let (m2, ran, higher, halted) = run-IsSound m1 ops sound in
    (m2, rw (stepped, run) ran, omega arith, halted)
