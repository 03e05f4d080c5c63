-- ===== src/Platform/Mutexes.antt =====
-- The mutexes that the methods of the three applications take, in src/application/*/*.cpp, and those of
-- the managers that they call, in src/ara/phm/phm.cpp, sm/sm.cpp, nm/nm.cpp and com/someip_binding.cpp.
-- An argument chooses the branch; callbacks that nothing in the repository registers take no mutex. A
-- program puts its actions in front of what comes after it. A mutex is a number.
pub mod Order
use my_auto_sar_ap.Prelude.{ℕ, zero, suc, Bool, true, false, Option, none, some, List, [], ◌∷◌}
use my_auto_sar_ap.Platform.Locks.{LockAct, acquire, release, Thread}
use my_auto_sar_ap.SafetyMonitor.{
  SafetyLevel, level0_normal, level1_degraded, level2_min_risk, level3_safe_stop, level4_emergency,
}

abbrev pub discovery_mutex : ℕ
discovery_mutex = 0

abbrev pub proxy_mutex : ℕ
proxy_mutex = 1

abbrev pub service_mutex : ℕ
service_mutex = 2

abbrev pub monitor_mutex : ℕ
monitor_mutex = 3

abbrev pub entity_mutex : ℕ
entity_mutex = 4

abbrev pub phm_mutex : ℕ
phm_mutex = 5

abbrev pub sm_mutex : ℕ
sm_mutex = 6

abbrev pub group_mutex : ℕ
group_mutex = 7

abbrev pub nm_mutex : ℕ
nm_mutex = 8

abbrev pub bridge_mutex : ℕ
bridge_mutex = 9

abbrev pub Program : Type 0
Program = List LockAct → List LockAct

-- A scope with a `std::lock_guard`.
abbrev pub guarded : ℕ → Program → Program
guarded m body rest = acquire m ∷ body (release ∷ rest)

abbrev pub nothing : Program
nothing rest = rest

abbrev pub optional : Bool → Program → Program
optional true body = body
optional false body = nothing

abbrev pub brief : ℕ → Program
brief m = guarded m nothing

-- What becomes of signals: they are accepted, or refused, with a report of the fault or without.
pub data Reception : Type 0 where
  accepts refuses reports : Reception

abbrev pub on_signal_received : Reception → Program
on_signal_received accepts = brief service_mutex
on_signal_received refuses = nothing
on_signal_received reports = brief phm_mutex

-- The proxy's callback in the discovery, when the service is there; the proxy has a callback or not.
abbrev pub on_available : Option Reception → Program
on_available none = brief proxy_mutex
on_available (some r) = guarded proxy_mutex (on_signal_received r)

abbrev pub notify_all : List (Option Reception) → Program
notify_all [] rest = rest
notify_all (w ∷ ws) rest = on_available w (notify_all ws rest)

-- `OfferService`, with the watchers of the service.
abbrev pub offer_service : List (Option Reception) → Program
offer_service ws = guarded discovery_mutex (notify_all ws)

abbrev pub offer_ipc_services : List (List (Option Reception)) → Program
offer_ipc_services [] rest = rest
offer_ipc_services (ws ∷ services) rest = offer_service ws (offer_ipc_services services rest)

-- `n` calls of `StopOfferService`, of which the proxy's callback takes no mutex.
abbrev pub stop_ipc_services : ℕ → Program
stop_ipc_services zero rest = rest
stop_ipc_services (suc n) rest = brief discovery_mutex (stop_ipc_services n rest)

abbrev pub when_offered : Option (Option Reception) → Program
when_offered none = nothing
when_offered (some w) = on_available w

-- `SubscribeVehicleSignals`, for a service that is not offered or that is.
abbrev pub subscribe_vehicle_signals : Option (Option Reception) → Program
subscribe_vehicle_signals offered =
    guarded proxy_mutex (guarded discovery_mutex (when_offered offered))

-- The two answers tell whether the function groups are found.
abbrev pub execute_safety_action : SafetyLevel → Bool → Bool → Program
execute_safety_action level0_normal infotainment ota rest = rest
execute_safety_action level1_degraded infotainment ota rest =
    brief sm_mutex (optional infotainment (brief group_mutex) rest)
execute_safety_action level2_min_risk infotainment ota rest = brief sm_mutex (
    brief sm_mutex (
      optional infotainment (brief group_mutex)
        (optional ota (brief group_mutex) (brief sm_mutex rest))))
execute_safety_action level3_safe_stop infotainment ota rest = brief sm_mutex (brief sm_mutex rest)
execute_safety_action level4_emergency infotainment ota rest = brief sm_mutex (brief sm_mutex rest)

-- What an escalation does: nothing, or the action of a level.
pub data Escalation : Type 0 where
  stays : Escalation
  rises : SafetyLevel → Bool → Bool → Escalation

abbrev pub escalate_safety_level : Escalation → Program
escalate_safety_level stays = nothing
escalate_safety_level (rises level infotainment ota) = execute_safety_action level infotainment ota

abbrev pub checkpoint_reached : Program
checkpoint_reached = guarded entity_mutex (brief phm_mutex)

-- The check goes on to the status of the MCU, or ends with the status of the health management.
abbrev pub periodic_safety_check : Bool → Escalation → Program
periodic_safety_check asks_mcu e rest =
    checkpoint_reached
      (brief phm_mutex (optional asks_mcu (brief monitor_mutex) (escalate_safety_level e rest)))

-- The entity registers, one that was there before unregisters, the action is set, and four function
-- groups are registered.
abbrev pub init_monitor : Bool → Program
init_monitor had_entity rest = brief phm_mutex (
    optional had_entity (brief phm_mutex)
      (brief phm_mutex (brief sm_mutex (brief sm_mutex (brief sm_mutex (brief sm_mutex rest))))))

-- The network is initialized and requested, and a handle that was there before is released; then the
-- bridge registers, if it got the network.
abbrev pub init_bridge : Bool → Bool → Program
init_bridge had_handle granted rest = brief nm_mutex (
    brief nm_mutex (optional had_handle (brief nm_mutex) (optional granted (brief phm_mutex) rest)))

-- What a pass of the bridge's `Run` does after its report: it offers the services, empties the queue,
-- or takes no mutex.
pub data BridgePass : Type 0 where
  offers : List (List (Option Reception)) → BridgePass
  drains : BridgePass
  waits : BridgePass

abbrev pub bridge_pass : BridgePass → Program
bridge_pass (offers services) rest = brief phm_mutex (offer_ipc_services services rest)
bridge_pass drains rest = brief phm_mutex (brief bridge_mutex rest)
bridge_pass waits rest = brief phm_mutex rest

abbrev pub shut_down_bridge : ℕ → Bool → Program
shut_down_bridge services has_handle rest =
    stop_ipc_services services (optional has_handle (brief nm_mutex) rest)

abbrev pub init_app : Option (Option Reception) → Program
init_app offered rest = brief phm_mutex (subscribe_vehicle_signals offered rest)

-- The calls of the three applications.
pub data Call : Type 0 where
  inits_monitor : Bool → Call
  checks : Bool → Escalation → Call
  shuts_down_monitor : Escalation → Call
  gets_mcu_status : Call
  gets_snapshot : Call
  sets_safety_callback : Call
  inits_bridge : Bool → Bool → Call
  passes : BridgePass → Call
  shuts_down_bridge : ℕ → Bool → Call
  sends_message : Bool → Call  -- whether the link is in Normal
  sends_frame : Call
  sets_bridge_callback : Call
  inits_app : Option (Option Reception) → Call
  reports_app : Call
  shuts_down_app : Call
  gets_current_signals : Call
  gets_latest_signals : Call
  sets_signal_callback : Call

abbrev pub mutexes_of : Call → Program
mutexes_of (inits_monitor had_entity) = init_monitor had_entity
mutexes_of (checks asks_mcu e) = periodic_safety_check asks_mcu e
mutexes_of (shuts_down_monitor e) = escalate_safety_level e
mutexes_of gets_mcu_status = brief monitor_mutex
mutexes_of gets_snapshot = guarded monitor_mutex (brief phm_mutex)
mutexes_of sets_safety_callback = brief monitor_mutex
mutexes_of (inits_bridge had_handle granted) = init_bridge had_handle granted
mutexes_of (passes p) = bridge_pass p
mutexes_of (shuts_down_bridge services has_handle) = shut_down_bridge services has_handle
mutexes_of (sends_message in_normal) = optional in_normal (brief bridge_mutex)
mutexes_of sends_frame = brief bridge_mutex
mutexes_of sets_bridge_callback = brief bridge_mutex
mutexes_of (inits_app offered) = init_app offered
mutexes_of reports_app = brief phm_mutex
mutexes_of shuts_down_app = brief proxy_mutex
mutexes_of gets_current_signals = brief proxy_mutex
mutexes_of gets_latest_signals = brief service_mutex
mutexes_of sets_signal_callback = brief service_mutex

-- The calls of a thread, one after the other.
abbrev pub mutexes_of_all : List Call → List LockAct
mutexes_of_all [] = []
mutexes_of_all (c ∷ cs) = mutexes_of c (mutexes_of_all cs)

abbrev pub thread : List Call → Thread
thread cs = record { held = []; todo = mutexes_of_all cs }
