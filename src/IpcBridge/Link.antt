-- ===== src/IpcBridge/Link.antt =====
-- The link's state over the passes of the loop (src/application/SwcIPCBridge/IPCBridgeService.cpp).
use my_auto_sar_ap.Prelude.{ℕ, ◌≡◌, Bool, some, List, [], ◌∷◌, ℕ_eq}
use my_auto_sar_ap.SomeIp.{SomeIpMessage}
use my_auto_sar_ap.IpcBridge.{
  IpcBridge, IpcConnectionState, offline, handshake, normal, error, reset, Event, state_changed,
  gpio_changed, error_logged, GpioSignal, SpiIpcFrame, set_gpio_signal, run_pass,
  send_some_ip_message, send_spi_frame,
}

infix 20 ◌⟶◌
-- The diagram of the link.
pub data ◌⟶◌ : IpcConnectionState → IpcConnectionState → Type 0 where
  starts : offline ⟶ handshake
  connects : handshake ⟶ normal
  gives_up : handshake ⟶ error
  times_out : normal ⟶ error
  resets : error ⟶ reset
  retries : reset ⟶ handshake

-- The calls between an `Init` and the next one.
pub data Op : Type 0 where
  passes : ℕ → ℕ → ℕ → Op
  sends : SomeIpMessage → Op
  sends_spi : SpiIpcFrame → Op
  sets_gpio : GpioSignal → Bool → Op

unfoldable pub step : IpcBridge → Op → IpcBridge
step b (passes start now later) = run_pass b start now later
step b (sends msg) = (send_some_ip_message b msg).0
step b (sends_spi frame) = (send_spi_frame b frame).0
step b (sets_gpio signal level) = set_gpio_signal b signal level

unfoldable pub run : IpcBridge → List Op → IpcBridge
run b [] = b
run b (op ∷ ops) = run (step b op) ops

-- The calls of the state callback in a trace, newest first, lead from `start` to `now` along edges of
-- the diagram, each beginning where the one before it ended.
abbrev pub Linked : IpcConnectionState → List Event → IpcConnectionState → Type 0
Linked start [] now = now ≡ start
Linked start (state_changed cb old target ∷ t) now =
    (target ≡ now) × (old ⟶ now) × Linked start t old
Linked start (gpio_changed cb signal level ∷ t) now = Linked start t now
Linked start (error_logged line ∷ t) now = Linked start t now

abbrev Watched : ℕ → IpcConnectionState → IpcBridge → Type 0
Watched cb start b = (b.ipc_state_callback ≡ some cb) × Linked start b.trace b.connection_state
