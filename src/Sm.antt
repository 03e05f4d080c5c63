-- ===== src/Sm.antt =====
-- ara::sm: include/ara/sm/state_management.h and src/ara/sm/sm.cpp. Function groups are shared
-- objects: they stand in `groups`, and a `shared_ptr` is an index into it. A call of a registered
-- callback, or of the error stream, is an entry of `trace`, newest first.
pub mod Machine
pub mod Runs
pub mod Groups
use my_auto_sar_ap.Prelude.{
  ℕ, String, Bool, true, false, not, Option, none, some, List, [], ◌∷◌, ◌++◌, length, get_elem?,
  set, if◌then◌else◌, ◌||◌, ℕ_eq, String_eq, ◌==◌,
}
use my_auto_sar_ap.Prelude.Map.{lookup, insert}

pub data MachineState : Type 0 where
  startup driving parked charging shutdown error : MachineState

pub data FunctionGroupState : Type 0 where
  off on suspend diag : FunctionGroupState

pub data StateTransitionResult : Type 0 where
  success rejected timeout invalid_state in_progress : StateTransitionResult

-- The underlying `uint8_t` values, which `==` compares.
abbrev pub machine_code : MachineState → ℕ
machine_code startup = 0
machine_code driving = 1
machine_code parked = 2
machine_code charging = 3
machine_code shutdown = 4
machine_code error = 5

abbrev pub group_code : FunctionGroupState → ℕ
group_code off = 0
group_code on = 1
group_code suspend = 2
group_code diag = 3

pub data Event : Type 0 where
  machine_changed : ℕ → MachineState → MachineState → Event
  group_changed : ℕ → FunctionGroupState → FunctionGroupState → Event
  error_logged : String → Event

pub record FunctionGroup : Type 0 where
  pub name : String
  pub current_state : FunctionGroupState
  pub state_change_callback : Option ℕ

pub record StateManagement : Type 0 where
  pub current_state : MachineState
  pub groups : List FunctionGroup
  pub function_groups : List (String × ℕ)
  pub machine_state_callback : Option ℕ
  pub trace : List Event

unfoldable pub new : StateManagement
new = record {
  current_state = startup;
  groups = [];
  function_groups = [];
  machine_state_callback = none;
  trace = [];
}

-- The constructor of `FunctionGroup`, under `std::make_shared`: the new object's address.
unfoldable pub make_group : StateManagement → String → FunctionGroupState → StateManagement × ℕ
make_group s name initial = (
  record s {
    groups =
        s.groups
        ++ record { name = name; current_state = initial; state_change_callback = none } ∷ [];
  },
  length s.groups,
)

abbrev pub notify_group :
    Option ℕ → FunctionGroupState → FunctionGroupState → List Event → List Event
notify_group none old target t = t
notify_group (some cb) old target t = group_changed cb old target ∷ t

unfoldable pub request_state_change :
    FunctionGroup
    → FunctionGroupState
    → List Event
    → FunctionGroup × StateTransitionResult × List Event
request_state_change g target t =
    if group_code g.current_state == group_code target then (g, success, t) else (
      record g { current_state = target },
      success,
      notify_group g.state_change_callback g.current_state target t,
    )

-- `fg->RequestStateChange(target)` at an address. A `shared_ptr` is never dangling: `none` is no
-- case of the program.
unfoldable pub request_group :
    StateManagement → ℕ → FunctionGroupState → StateManagement × StateTransitionResult
unfolding request_state_change
request_group s p target = elim (get_elem? s.groups p) [
  | none ↦ (s, invalid_state)
  | some g ↦ (
    record s {
      groups = set s.groups p (request_state_change g target s.trace).0;
      trace = (request_state_change g target s.trace).2;
    },
    (request_state_change g target s.trace).1,
  )
]

unfoldable pub set_state_change_callback : FunctionGroup → Option ℕ → FunctionGroup
set_state_change_callback g cb = record g { state_change_callback = cb }

-- The `switch` of `IsValidTransition`.
abbrev pub allowed : MachineState → MachineState → Bool
allowed startup to =
    machine_code to == machine_code driving || machine_code to == machine_code parked
allowed driving to = machine_code to == machine_code parked
allowed parked to =
    machine_code to == machine_code driving || machine_code to == machine_code charging
allowed charging to = machine_code to == machine_code parked
allowed shutdown to = false
allowed error to = false

unfoldable pub is_valid_transition : MachineState → MachineState → Bool
is_valid_transition from to =
    if machine_code to == machine_code shutdown
    then true
    else if machine_code to == machine_code error
    then true
    else allowed from to

abbrev pub notify_machine : Option ℕ → MachineState → MachineState → List Event → List Event
notify_machine none old target t = t
notify_machine (some cb) old target t = machine_changed cb old target ∷ t

unfoldable pub request_machine_state_change :
    StateManagement → MachineState → StateManagement × StateTransitionResult
request_machine_state_change s target =
    if machine_code s.current_state == machine_code target
    then (s, success)
    else if not (is_valid_transition s.current_state target)
    then (s, rejected)
    else (
      record s {
        current_state = target;
        trace = notify_machine s.machine_state_callback s.current_state target s.trace;
      },
      success,
    )

-- `nullptr` is `none`.
unfoldable pub register_function_group : StateManagement → Option ℕ → StateManagement
register_function_group s none = s
register_function_group s (some p) = elim (get_elem? s.groups p) [
  | none ↦ s
  | some g ↦ record s { function_groups = insert g.name p s.function_groups }
]

unfoldable pub get_function_group : StateManagement → String → Option ℕ
get_function_group s name = lookup name s.function_groups

unfoldable pub set_machine_state_callback : StateManagement → Option ℕ → StateManagement
set_machine_state_callback s cb = record s { machine_state_callback = cb }

unfoldable pub trigger_error_state : StateManagement → String → StateManagement
trigger_error_state s reason =
    (request_machine_state_change (record s { trace = error_logged reason ∷ s.trace }) error).0

unfoldable pub initialize : StateManagement → StateManagement × Bool
unfolding make_group register_function_group
initialize s =
    let (s1, drive_assist) = make_group s "DriveAssist" off in
    let (s2, infotainment) = make_group s1 "Infotainment" off in
    let (s3, diagnostic) = make_group s2 "Diagnostic" off in
    let (s4, ota) = make_group s3 "OTA" off in
    let s5 = register_function_group s4 (some drive_assist) in
    let s6 = register_function_group s5 (some infotainment) in
    let s7 = register_function_group s6 (some diagnostic) in
    (register_function_group s7 (some ota), true)

unfoldable pub shut_down : StateManagement → StateManagement
shut_down s = (request_machine_state_change s shutdown).0

unfoldable pub get_group_state : FunctionGroup → FunctionGroupState
get_group_state g = g.current_state

unfoldable pub get_current_machine_state : StateManagement → MachineState
get_current_machine_state s = s.current_state
