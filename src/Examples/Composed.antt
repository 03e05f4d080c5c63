-- ===== src/Examples/Composed.antt =====
-- Concrete runs of the applications' threads and of the three applications together (src/application).
use my_auto_sar_ap.Prelude.{
  ℕ, ◌≤◌, ◌≡◌, refl, inl, arith, true, false, Option, none, some, List, [], ◌∷◌, ◌++◌,
  if◌then◌else◌,
}
use my_auto_sar_ap.Sm
use my_auto_sar_ap.Sm.Runs.{IsHalted}
use my_auto_sar_ap.Nm
use my_auto_sar_ap.Phm
use my_auto_sar_ap.SomeIp.Discovery
use my_auto_sar_ap.SomeIp.Discovery.{service_catalog, offer_service}
use my_auto_sar_ap.SomeIp.Discovery.Views
use my_auto_sar_ap.SafetyMonitor
use my_auto_sar_ap.SafetyMonitor.{
  SafetyMonitor, McuSafetyStatus, level0_normal, level3_safe_stop, level4_emergency, level_code,
}
use my_auto_sar_ap.SafetyMonitor.Levels
use my_auto_sar_ap.SafetyMonitor.Levels.{
  IsSound, init-IsSound, checks, reports, requests, shuts_down,
}
use my_auto_sar_ap.SafetyMonitor.Loop
use my_auto_sar_ap.SafetyMonitor.Loop.{Pass}
use my_auto_sar_ap.SafetyMonitor.Loop.Ends.{run_service-stops}
use my_auto_sar_ap.IpcBridge
use my_auto_sar_ap.IpcBridge.{IpcBridge}
use my_auto_sar_ap.IpcBridge.Link
use my_auto_sar_ap.IpcBridge.Queues.{IsUp, recovery}
use my_auto_sar_ap.IpcBridge.Loop as BridgeLoop
use my_auto_sar_ap.IpcBridge.Loop.{Withdrawn, HoldsNetwork}
use my_auto_sar_ap.Nm.{eth_ipc}
use my_auto_sar_ap.Nm.RefCount.{Tracks}
use my_auto_sar_ap.Prelude.Map.{lookup, insert}
use my_auto_sar_ap.IpcBridge.Loop.Ends.{run_service-ends}
use my_auto_sar_ap.SignalService
use my_auto_sar_ap.SignalService.Subscription
use my_auto_sar_ap.SignalService.Subscription.{SignalApp, init}
use my_auto_sar_ap.SignalService.Subscription.Runs.{init-cases, initialized, is_offered}
use my_auto_sar_ap.SignalService.Subscription.Simulated
use my_auto_sar_ap.SignalService.Subscription.Simulated.{
  IsSimulated, run-IsSimulated, starts, polls, sees,
}
use my_auto_sar_ap.Platform
use my_auto_sar_ap.Platform.{Platform, Op, monitors, starts_bridge, bridges, signals, supervises}
use my_auto_sar_ap.Platform.Violation.{violation-halts}
use my_auto_sar_ap.Platform.Status.{IsGood}

abbrev quiet : McuSafetyStatus
quiet = record {
  safety_level = level0_normal;
  wdg_status = 0;
  asil_d_violation = false;
  fault_code = 0;
  timestamp_ms = 0;
  e2e_counter = 0;
}

abbrev fresh_monitor : SafetyMonitor
fresh_monitor = SafetyMonitor.new quiet Sm.new Phm.new 0

abbrev monitor : SafetyMonitor
monitor = (SafetyMonitor.init fresh_monitor 1).0

monitor-IsSound : IsSound monitor
unfolding SafetyMonitor.new
monitor-IsSound = init-IsSound fresh_monitor 1 (omega arith)

abbrev two_passes : List Pass
two_passes = (10, requests Sm.driving ∷ []) ∷ (20, shuts_down ∷ requests Sm.parked ∷ []) ∷ []

run_service-stops_example :
    (after : SafetyMonitor) × (Loop.run_service monitor two_passes ≡ Loop.returned after)
    × (3 ≤ level_code after.current_level)
    × IsHalted after.sm.current_state
run_service-stops_example = run_service-stops monitor two_passes monitor-IsSound refl

abbrev fresh_bridge : IpcBridge
fresh_bridge = IpcBridge.new Nm.new Phm.new Discovery.new 0

abbrev bridge_passes : List BridgeLoop.Pass
bridge_passes =
    record { start = 10; now = 20; later = 30; calls = [] }
    ∷ record {
      start = 200000000;
      now = 200000010;
      later = 200000020;
      calls = BridgeLoop.sets_gpio 2 true ∷ BridgeLoop.shuts_down ∷ [];
    }
    ∷ []

held_bridge : HoldsNetwork 0 (IpcBridge.init fresh_bridge 1 2).0
unfolding IpcBridge.init IpcBridge.new Nm.new Nm.initialize Nm.open_handle Nm.request_network lookup
    insert IpcBridge.transition_state
held_bridge = record { handle = refl; counted = refl }

run_service-ends_example :
    (after : IpcBridge) × (BridgeLoop.run_service (IpcBridge.init fresh_bridge 1 2).0 bridge_passes
      ≡ BridgeLoop.returned after)
    × Withdrawn after
    × Tracks eth_ipc 0 after.nm
run_service-ends_example =
    run_service-ends (IpcBridge.init fresh_bridge 1 2).0 bridge_passes 0 held_bridge refl

abbrev fresh_app : SignalApp
fresh_app = record {
  discovery = Discovery.new;
  proxy = Subscription.make_proxy "VehicleSignalService_0x1001";
  service = SignalService.new Phm.new;
}

init-cases_example :
    init fresh_app 5
    ≡ (if is_offered fresh_app.discovery then none else some (initialized fresh_app 5))
unfolding Subscription.make_proxy
init-cases_example = init-cases fresh_app 5 refl

abbrev linked : IpcBridge
linked = record fresh_bridge {
  connection_state = IpcBridge.error;
  gpio_state = true ∷ true ∷ true ∷ false ∷ false ∷ false ∷ false ∷ false ∷ [];
}

abbrev up_again : IpcBridge
up_again = IpcBridge.run_pass (IpcBridge.run_pass linked 10 20 30) 200000000 200000030 200000040

up_again-IsUp : IsUp up_again
up_again-IsUp =
    recovery linked 10 20 30 200000000 200000030 200000040 refl refl (omega arith) (omega arith)

abbrev vehicle_service : Discovery.ServiceDescriptor
vehicle_service = record {
  service_id = 0x1001;
  instance_id = 1;
  major_version = 1;
  minor_version = 0;
  service_name = "VehicleSignalService";
  eventgroup_id = 1;
  tcp_binding = false;
  port = 30501;
}

abbrev app_calls : List Simulated.Op
app_calls = starts 5 ∷ sees (Views.offers vehicle_service) 6 ∷ polls 7 ∷ []

fresh_app-IsSimulated : IsSimulated fresh_app
unfolding SignalService.new Subscription.make_proxy
fresh_app-IsSimulated = record {
  current = inl refl;
  latest = inl refl;
  shown = tt;
  counter = refl;
  errors = refl;
  waiting = refl;
}

abbrev app_or : SignalApp → Option SignalApp → SignalApp
app_or a none = a
app_or a (some b) = b

abbrev after_calls : SignalApp
after_calls = app_or fresh_app (Simulated.run fresh_app app_calls)

run-IsSimulated_example : IsSimulated after_calls
unfolding Simulated.run Simulated.step init Subscription.subscribe_vehicle_signals
    Subscription.on_events Discovery.subscribe_service_availability
    my_auto_sar_ap.Prelude.Map.lookup Discovery.new Subscription.elsewhere Views.step offer_service
    Discovery.notify_all my_auto_sar_ap.Prelude.Map.insert Subscription.on_availability
run-IsSimulated_example = run-IsSimulated fresh_app after_calls app_calls fresh_app-IsSimulated refl

abbrev fresh_platform : Platform
fresh_platform = record {
  sm = monitor.sm;
  phm = monitor.phm;
  nm = Nm.new;
  discovery = Discovery.new;
  monitor = monitor;
  bridge = fresh_bridge;
  app = fresh_app;
}

abbrev before : List Op
before = starts_bridge 5 6 ∷ signals (starts 7) ∷ bridges (Link.passes 10 20 30) ∷ []

abbrev after : List Op
after = monitors (requests Sm.driving) ∷ []

abbrev platform_or : Platform → Option Platform → Platform
platform_or p none = p
platform_or p (some q) = q

abbrev platform_calls : List Op
platform_calls =
    monitors (reports (record quiet { asil_d_violation = true }))
    ∷ (before ++ monitors (checks 9) ∷ after)

abbrev halted : Platform
halted = platform_or fresh_platform (Platform.run fresh_platform platform_calls)

fresh_platform-IsGood : IsGood fresh_platform
unfolding SafetyMonitor.new SafetyMonitor.init Phm.make_entity Phm.register_entity Phm.new
    Phm.set_phm_action Phm.start my_auto_sar_ap.Prelude.Map.lookup my_auto_sar_ap.Prelude.Map.insert
fresh_platform-IsGood = record {
  fine = (refl, tt);
  sound = record { entity = monitor-IsSound.entity; halted = monitor-IsSound.halted };
}

violation-halts_example :
    (halted.monitor.current_level ≡ level4_emergency) × IsHalted halted.sm.current_state
unfolding Platform.run Platform.step Levels.step Simulated.step init
    Subscription.subscribe_vehicle_signals Subscription.on_events
    Discovery.subscribe_service_availability my_auto_sar_ap.Prelude.Map.lookup IpcBridge.init
    Nm.open_handle Nm.request_network Nm.initialize Nm.new my_auto_sar_ap.Prelude.Map.insert
    IpcBridge.transition_state Discovery.new SafetyMonitor.periodic_safety_check
    SafetyMonitor.on_mcu_safety_status SafetyMonitor.init
violation-halts_example =
    violation-halts fresh_platform halted (record quiet { asil_d_violation = true }) before after 9
      fresh_platform-IsGood refl refl refl
