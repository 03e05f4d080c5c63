-- ===== src/IpcBridge/State.antt =====
-- The state of the IPC bridge (src/application/SwcIPCBridge/IPCBridgeService.h).
use my_auto_sar_ap.Prelude.{ℕ, String, Bool, false, Option, none, List, [], replicate, String_eq}
use my_auto_sar_ap.Nm.{NetworkManagement, NetworkHandle}
use my_auto_sar_ap.Phm.{PlatformHealthManagement}
use my_auto_sar_ap.SomeIp.{SomeIpMessage}
use my_auto_sar_ap.SomeIp.Discovery.{ServiceDiscovery}

pub data IpcConnectionState : Type 0 where
  offline handshake normal error reset : IpcConnectionState

abbrev pub state_code : IpcConnectionState → ℕ
state_code offline = 0
state_code handshake = 1
state_code normal = 2
state_code error = 3
state_code reset = 4

-- The `uint8_t` value of a `GpioSignal`.
abbrev pub GpioSignal : Type 0
GpioSignal = ℕ

abbrev pub soc_reset_n : GpioSignal
soc_reset_n = 0

abbrev pub soc_pwr_en : GpioSignal
soc_pwr_en = 1

abbrev pub soc_ready : GpioSignal
soc_ready = 2

pub record SpiIpcFrame : Type 0 where
  pub sof : ℕ
  pub frame_ctrl : ℕ
  pub length : ℕ  -- uint16_t
  pub payload : List ℕ
  pub crc16 : ℕ

pub data Event : Type 0 where
  state_changed : ℕ → IpcConnectionState → IpcConnectionState → Event
  gpio_changed : ℕ → GpioSignal → Bool → Event
  error_logged : String → Event

pub record IpcBridge : Type 0 where
  pub connection_state : IpcConnectionState
  pub running : Bool
  pub gpio_state : List Bool  -- bool[8]
  pub spi_tx_queue : List SpiIpcFrame
  pub eth_tx_queue : List SomeIpMessage
  pub ipc_state_callback : Option ℕ
  pub spi_rx_callback : Option ℕ
  pub gpio_callback : Option ℕ
  pub handshake_start_time : ℕ
  pub last_heartbeat_time : ℕ
  pub network_handle : Option NetworkHandle
  pub nm : NetworkManagement
  pub phm : PlatformHealthManagement
  pub discovery : ServiceDiscovery
  pub trace : List Event

unfoldable pub new : NetworkManagement → PlatformHealthManagement → ServiceDiscovery → ℕ → IpcBridge
new nm phm discovery now = record {
  connection_state = offline;
  running = false;
  gpio_state = replicate 8 false;
  spi_tx_queue = [];
  eth_tx_queue = [];
  ipc_state_callback = none;
  spi_rx_callback = none;
  gpio_callback = none;
  handshake_start_time = now;
  last_heartbeat_time = now;
  network_handle = none;
  nm = nm;
  phm = phm;
  discovery = discovery;
  trace = [];
}
