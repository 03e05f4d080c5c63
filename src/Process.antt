-- ===== src/Process.antt =====
-- What the process of src/application/main.cpp has besides its objects: sockets, loggers, standard
-- output and the static counter of src/ara/app/vehicle_signal_swc.cpp. A line of the output is its
-- format with the values that it prints; those of a logger stand among those of printf.
pub mod Loopback
pub mod Tally
use my_auto_sar_ap.Prelude.{
  ℕ, ◌≡◌, ◌⊎◌, ◌≤◌, length, Bool, true, false, ◌&&◌, ◌||◌, not, Option, none, some, List, [], ◌∷◌,
  String, get_or, nat_eq, if◌then◌else◌,
}
use my_auto_sar_ap.Log.{Logging, Logger, LogLevel, create_logger, init_logging, log_at, verbose}
use my_auto_sar_ap.Log
use my_auto_sar_ap.VehicleSignal.{VehicleSignalSample, Stats}
use my_auto_sar_ap.Exec.{ExecutionState}

-- The socket calls of POSIX. A descriptor is a number and a failure `none` or `false`; `select` tells
-- whether the descriptor is ready, `receive` gives the bytes of a datagram, at most as many as there
-- is room for, or `none` when it returns 0 or less. `is_open` is the table of descriptors.
pub record Sockets : Type 1 where
  pub State : Type 0
  pub is_open : State → ℕ → Bool
  pub socket : State → State × Option ℕ
  pub set_reuse : State → ℕ → State
  pub bind : State → ℕ → ℕ → State × Bool
  pub shut_down : State → ℕ → State
  pub close : State → ℕ → State
  pub select : State → ℕ → State × Bool
  pub receive : State → ℕ → ℕ → State × Option (List ℕ)

abbrev pub opened : Option ℕ → ℕ → Bool
opened none k = false
opened (some fd) k = nat_eq fd k

abbrev pub is_new : (ℕ → Bool) → Option ℕ → Bool
is_new table none = true
is_new table (some fd) = not (table fd)

abbrev pub Sized : Option (List ℕ) → ℕ → Type 0
Sized none room = Unit
Sized (some buf) room = (1 ≤ length buf) × (length buf ≤ room)

-- POSIX: a new descriptor was not open, only `close` closes one, no call but these two changes
-- the table, and a datagram has at least one byte and no more than there is room for.
pub record IsLawful (S : Sockets) : Type 0 where
  pub open-socket :
      (s : S.State) (k : ℕ)
      → S.is_open (S.socket s).0 k ≡ (S.is_open s k || opened (S.socket s).1 k)
  pub socket-new : (s : S.State) → is_new (S.is_open s) (S.socket s).1 ≡ true
  pub open-close :
      (s : S.State) (fd k : ℕ) → S.is_open (S.close s fd) k ≡ (S.is_open s k && not (nat_eq fd k))
  pub open-set_reuse : (s : S.State) (fd k : ℕ) → S.is_open (S.set_reuse s fd) k ≡ S.is_open s k
  pub open-bind : (s : S.State) (fd port k : ℕ) → S.is_open (S.bind s fd port).0 k ≡ S.is_open s k
  pub open-shut_down : (s : S.State) (fd k : ℕ) → S.is_open (S.shut_down s fd) k ≡ S.is_open s k
  pub open-select : (s : S.State) (fd k : ℕ) → S.is_open (S.select s fd).0 k ≡ S.is_open s k
  pub open-receive :
      (s : S.State) (fd room k : ℕ) → S.is_open (S.receive s fd room).0 k ≡ S.is_open s k
  pub receive-Sized : (s : S.State) (fd room : ℕ) → Sized (S.receive s fd room).1 room

-- What a logger is given to write. The texts of errors of the system are left out.
pub data Message : Type 0 where
  socket_failed : Message
  bind_failed listening : ℕ → Message
  crc_mismatch : ℕ → ℕ → ℕ → Message
  swc_starting find_service_error : Message
  swc_subscribed : ℕ → Message
  someip_received : VehicleSignalSample → Message
  swc_stopped : Message
  statistics : Stats → ℕ → ℕ → ℕ → Message
  app_starting report_failed app_running shutdown_requested app_stopped : Message

pub data Line : Type 0 where
  logged : LogLevel → String → Message → Line
  log_initialized : String → Line
  raw_rx : ℕ → ℕ → Line
  find_service_failed find_service_ok subscribed_event : ℕ → Line
  signal_dispatch ap_hmi_send someip_rx : VehicleSignalSample → ℕ → Line
  ap_signal_json : VehicleSignalSample → Line
  stopped : ℕ → Line
  banner : Line
  execution_reported : String → Line

-- The newest line of the output is the first.
pub record Process (S : Sockets) : Type 0 where
  pub os : S.State
  pub logging : Logging
  pub output : List Line
  pub tick : ℕ  -- uint32_t

abbrev nameless : Logger
nameless = record { ctx_id = ""; ctx_desc = ""; level = verbose }

-- The logger at an address that `create_logger` gave.
abbrev pub logger_at : Logging → ℕ → Logger
logger_at log p = get_or log.loggers p nameless

module _ {S : Sockets} where
  abbrev pub print : Process S → Line → Process S
  print w line = record w { output = line ∷ w.output }

  -- `logger.LogInfo() << ...` and the like.
  unfoldable pub write : Process S → Logger → LogLevel → Message → Process S
  unfolding log_at
  write w logger level message =
      let stream = log_at logger level in print w (logged stream.level stream.ctx_id message)

  -- `CreateLogger(...).LogInfo() << ...` and the like, with the default level of the header.
  unfoldable pub create_and_write : Process S → String → String → LogLevel → Message → Process S
  unfolding write
  create_and_write w ctx desc level message =
      let (log, p) = create_logger w.logging ctx desc verbose in
      write (record w { logging = log }) (logger_at log p) level message
