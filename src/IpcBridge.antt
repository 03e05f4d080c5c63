-- ===== src/IpcBridge.antt =====
-- The IPC bridge: src/application/SwcIPCBridge/IPCBridgeService.h and .cpp. The managers that it calls
-- are fields. The steady clock, in nanoseconds, is an argument of each read: it does not go back, so
-- that a difference on ℕ is the code's. A callback's call and a line of the error stream are entries of
-- `trace`, newest first. The execution state that is reported, which is only printed, is left out, and
-- so are the waits.
mod State
pub mod Link
pub mod Queues
pub mod Loop
use my_auto_sar_ap.Prelude.{
  ℕ, ◌-◌, ◌/◌, ◌%◌, String, Bool, true, false, not, ◌&&◌, Option, none, some, List, [], ◌∷◌, ◌++◌,
  ltb, leb, get_or, set, replicate, nat_eq, if◌then◌else◌, String_eq,
}
use my_auto_sar_ap.Nm
use my_auto_sar_ap.Nm.{NetworkManagement, NetworkHandle, eth_ipc, open_handle, close_handle}
use my_auto_sar_ap.Phm.{
  PlatformHealthManagement, AliveSupervisionConfig, register_entity, report_checkpoint,
}
use my_auto_sar_ap.SomeIp.{SomeIpMessage}
use my_auto_sar_ap.SomeIp.Discovery.{
  ServiceDescriptor, ServiceDiscovery, service_catalog, offer_service, stop_offer_service,
}
use my_auto_sar_ap.E2e.{compute_crc16}
pub use my_auto_sar_ap.IpcBridge.State.{
  IpcConnectionState, state_code, GpioSignal, soc_reset_n, soc_pwr_en, soc_ready, SpiIpcFrame,
  Event, IpcBridge, offline, handshake, normal, error, reset, state_changed, gpio_changed,
  error_logged,
}
unfoldable pub use my_auto_sar_ap.IpcBridge.State.{new}

abbrev pub notify_state :
    Option ℕ → IpcConnectionState → IpcConnectionState → List Event → List Event
notify_state none old target t = t
notify_state (some cb) old target t = state_changed cb old target ∷ t

unfoldable pub transition_state : IpcBridge → IpcConnectionState → IpcBridge
transition_state b target = record b {
  connection_state = target;
  trace =
      if nat_eq (state_code b.connection_state) (state_code target)
      then b.trace
      else notify_state b.ipc_state_callback b.connection_state target b.trace;
}

abbrev pub notify_gpio : Option ℕ → GpioSignal → Bool → List Event → List Event
notify_gpio none signal level t = t
notify_gpio (some cb) signal level t = gpio_changed cb signal level ∷ t

unfoldable pub set_gpio_signal : IpcBridge → GpioSignal → Bool → IpcBridge
set_gpio_signal b signal level = if leb 8 signal then b else record b {
  gpio_state = set b.gpio_state signal level;
  trace = notify_gpio b.gpio_callback signal level b.trace;
}

unfoldable pub get_gpio_signal : IpcBridge → GpioSignal → Bool
get_gpio_signal b signal = if leb 8 signal then false else get_or b.gpio_state signal false

-- The assignment of the pointer releases the handle that was there, after the new one is made.
abbrev pub release_handle : Option NetworkHandle → NetworkManagement → NetworkManagement
release_handle none nm = nm
release_handle (some h) nm = (close_handle nm h).0

abbrev pub alive_conf : AliveSupervisionConfig
alive_conf = record {
  alive_reference_cycle_ms = 50;
  min_margin = 0;
  max_margin = 2;
  failed_supervision_cycles_tol = 3;
}

-- `now` and `later` are the clock's readings by `RegisterEntity` and at the end.
unfoldable pub init : IpcBridge → ℕ → ℕ → IpcBridge × Bool
init b now later =
    let (nm, handle) = open_handle (Nm.initialize b.nm).0 eth_ipc in
    let held : IpcBridge = record b {
      nm = release_handle b.network_handle nm;
      network_handle = some handle;
    } in
    let ready : IpcBridge =
      transition_state
        (record held {
          phm = (register_entity held.phm "IPCBridgeService" alive_conf now).0;
          gpio_state = set (set held.gpio_state soc_ready true) soc_pwr_en true;
        })
        handshake in
    if not handle.valid
    then (
      record held {
        trace = error_logged "[IPCBridge] Failed to request EthIPC network" ∷ held.trace;
      },
      false,
    )
    else (record ready { handshake_start_time = later }, true)

abbrev pub offer_all : ServiceDiscovery → List ServiceDescriptor → ServiceDiscovery
offer_all sd [] = sd
offer_all sd (svc ∷ rest) = offer_all (offer_service sd svc) rest

abbrev pub stop_all : ServiceDiscovery → List ServiceDescriptor → ServiceDiscovery
stop_all sd [] = sd
stop_all sd (svc ∷ rest) = stop_all (stop_offer_service sd svc.service_id) rest

unfoldable pub offer_ipc_services : IpcBridge → IpcBridge
offer_ipc_services b = record b { discovery = offer_all b.discovery service_catalog }

unfoldable pub stop_ipc_services : IpcBridge → IpcBridge
stop_ipc_services b = record b { discovery = stop_all b.discovery service_catalog }

abbrev pub elapsed_ms : ℕ → ℕ → ℕ
elapsed_ms now start = (now - start) / 1000000

unfoldable pub handle_handshake : IpcBridge → ℕ → ℕ → IpcBridge
handle_handshake b now later =
    let elapsed = elapsed_ms now b.handshake_start_time in
    if ltb 2000 elapsed
    then transition_state b error
    else if ltb 100 elapsed && get_or b.gpio_state soc_ready false
    then record (offer_ipc_services (transition_state b normal)) { last_heartbeat_time = later }
    else b

-- The loop pops each frame of the SPI queue, and sends none of them.
unfoldable pub drain : List SpiIpcFrame → List SpiIpcFrame
drain [] = []
drain (frame ∷ frames) = drain frames

unfoldable pub handle_normal_operation : IpcBridge → ℕ → ℕ → IpcBridge
handle_normal_operation b now later =
    let elapsed = elapsed_ms now b.last_heartbeat_time in
    if ltb 500 elapsed then transition_state b error else record b {
      last_heartbeat_time = if ltb 100 elapsed then later else b.last_heartbeat_time;
      spi_tx_queue = drain b.spi_tx_queue;
    }

unfoldable pub handle_error : IpcBridge → ℕ → IpcBridge
handle_error b later =
    let low = set_gpio_signal (transition_state b reset) soc_reset_n false in
    let high = set_gpio_signal low soc_reset_n true in
    record (transition_state high handshake) { handshake_start_time = later }

abbrev pub dispatch : IpcConnectionState → IpcBridge → ℕ → ℕ → IpcBridge
dispatch handshake b now later = handle_handshake b now later
dispatch normal b now later = handle_normal_operation b now later
dispatch error b now later = handle_error b later
dispatch _ b now later = b

-- One pass of the loop of `Run`; `start` is the clock's reading by `ReportCheckpoint`.
unfoldable pub run_pass : IpcBridge → ℕ → ℕ → ℕ → IpcBridge
run_pass b start now later =
    dispatch b.connection_state
      (record b { phm = report_checkpoint b.phm "IPCBridgeService" 1 start }) now later

unfoldable pub shut_down : IpcBridge → IpcBridge
shut_down b =
    let stopped = stop_ipc_services (record b { running = false }) in
    record stopped { nm = release_handle b.network_handle stopped.nm; network_handle = none }

unfoldable pub send_some_ip_message : IpcBridge → SomeIpMessage → IpcBridge × Bool
send_some_ip_message b msg =
    if nat_eq (state_code b.connection_state) (state_code normal)
    then (record b { eth_tx_queue = b.eth_tx_queue ++ msg ∷ [] }, true)
    else (b, false)

abbrev pub crc_input : SpiIpcFrame → List ℕ
crc_input frame =
    frame.sof ∷ frame.frame_ctrl ∷ frame.length / 256 % 256 ∷ frame.length % 256 ∷ frame.payload

-- The frame is an in and out parameter: it comes back with its checksum.
unfoldable pub send_spi_frame : IpcBridge → SpiIpcFrame → IpcBridge × SpiIpcFrame × Bool
send_spi_frame b frame =
    let filled : SpiIpcFrame = record frame { crc16 = compute_crc16 (crc_input frame) } in
    (record b { spi_tx_queue = b.spi_tx_queue ++ filled ∷ [] }, filled, true)

unfoldable pub set_ipc_state_callback : IpcBridge → Option ℕ → IpcBridge
set_ipc_state_callback b cb = record b { ipc_state_callback = cb }

unfoldable pub set_spi_rx_callback : IpcBridge → Option ℕ → IpcBridge
set_spi_rx_callback b cb = record b { spi_rx_callback = cb }

unfoldable pub set_gpio_change_callback : IpcBridge → Option ℕ → IpcBridge
set_gpio_change_callback b cb = record b { gpio_callback = cb }
