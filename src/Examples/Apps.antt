-- ===== src/Examples/Apps.antt =====
-- Concrete runs of the safety monitor and the IPC bridge (src/application).
use my_auto_sar_ap.Prelude.{◌<◌, ◌≤◌, ◌≡◌, ◌⊎◌, refl, arith, true, false, some, List, [], ◌∷◌, ◌++◌}
use my_auto_sar_ap.Sm
use my_auto_sar_ap.Sm.Runs.{IsHalted}
use my_auto_sar_ap.Nm
use my_auto_sar_ap.Phm
use my_auto_sar_ap.Phm.{SupervisedEntity, get_global_status, checkpoint_reached, kick_watchdog}
use my_auto_sar_ap.SomeIp.{SomeIpMessage}
use my_auto_sar_ap.SomeIp.Discovery
use my_auto_sar_ap.SafetyMonitor
use my_auto_sar_ap.SafetyMonitor.{
  SafetyMonitor, McuSafetyStatus, level0_normal, level2_min_risk, level4_emergency, level_code,
  periodic_safety_check, on_mcu_safety_status,
}
use my_auto_sar_ap.SafetyMonitor.Levels
use my_auto_sar_ap.SafetyMonitor.Levels.{
  IsSound, init-IsSound, run-IsSound, checks, reports, shuts_down, requests,
}
use my_auto_sar_ap.IpcBridge
use my_auto_sar_ap.IpcBridge.{IpcBridge, IpcConnectionState, run_pass}
use my_auto_sar_ap.IpcBridge.Link
use my_auto_sar_ap.IpcBridge.Link.{passes, sends}
use my_auto_sar_ap.IpcBridge.Queues.{IsUp, recovery, run-eth, accepted}

abbrev quiet : McuSafetyStatus
quiet = record {
  safety_level = level0_normal;
  wdg_status = 0;
  asil_d_violation = false;
  fault_code = 0;
  timestamp_ms = 0;
  e2e_counter = 0;
}

abbrev violated : McuSafetyStatus
violated = record quiet { asil_d_violation = true }

abbrev entity : SupervisedEntity
entity = record {
  instance_id = "SafetyMonitorService";
  status = Phm.SupervisionStatus.ok;
  last_checkpoint_time = 1;
  checkpoint_count = 0;
}

abbrev monitor : SafetyMonitor
monitor = (SafetyMonitor.init (SafetyMonitor.new quiet Sm.new Phm.new 0) 1).0

monitor-IsSound : IsSound monitor
unfolding SafetyMonitor.new
monitor-IsSound = init-IsSound (SafetyMonitor.new quiet Sm.new Phm.new 0) 1 (omega arith)

run-IsSound_example :
    (m' : SafetyMonitor) × (Levels.run monitor
        (checks 1 ∷ reports violated ∷ checks 2 ∷ requests Sm.driving ∷ [])
      ≡ some m')
    × (level_code monitor.current_level ≤ level_code m'.current_level)
    × ((level_code m'.current_level < 3) ⊎ IsHalted m'.sm.current_state)
run-IsSound_example =
    run-IsSound monitor (checks 1 ∷ reports violated ∷ checks 2 ∷ requests Sm.driving ∷ [])
      monitor-IsSound

abbrev broken_link : IpcBridge
broken_link = record (IpcBridge.new Nm.new Phm.new Discovery.new 0) {
  connection_state = IpcBridge.error;
  gpio_state = true ∷ true ∷ true ∷ false ∷ false ∷ false ∷ false ∷ false ∷ [];
  ipc_state_callback = some 3;
}

recovery_example : IsUp (run_pass (run_pass broken_link 10 20 30) 200000000 200000030 200000040)
recovery_example =
    recovery broken_link 10 20 30 200000000 200000030 200000040 refl refl (omega arith)
      (omega arith)

abbrev empty_message : SomeIpMessage
empty_message = record {
  header = record {
    service_id = 1;
    method_id = 1;
    msg_length = 8;
    client_id = 0;
    session_id = 0;
    proto_version = 1;
    iface_version = 1;
    msg_type = 0;
    return_code = 0;
  };
  payload = [];
}

abbrev link_calls : List Link.Op
link_calls = sends empty_message ∷ passes 10 20 30 ∷ passes 200000000 200000030 200000040 ∷ []

run-eth_example :
    (Link.run broken_link link_calls).eth_tx_queue
    ≡ broken_link.eth_tx_queue ++ accepted broken_link link_calls
run-eth_example = run-eth broken_link link_calls
