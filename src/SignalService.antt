-- ===== src/SignalService.antt =====
-- The vehicle signal application: src/application/SwcVehicleSignal/VehicleSignalService.h and .cpp.
-- Its proxy is in Subscription. The steady clock is the argument `now`; the bits of a float are a
-- number. A call of the external callback is an entry of `trace`, newest first.
pub mod Counter
pub mod Subscription
use my_auto_sar_ap.Prelude.{
  ℕ, ◌+◌, ◌%◌, Bool, true, false, not, ◌&&◌, Option, none, some, List, [], ◌∷◌, ltb, nat_eq,
  if◌then◌else◌, String_eq,
}
use my_auto_sar_ap.Phm.{
  PlatformHealthManagement, AliveSupervisionConfig, register_entity, report_checkpoint,
}

pub record VehicleSignals : Type 0 where
  pub vehicle_speed_kph : ℕ
  pub engine_rpm : ℕ
  pub gear_position : ℕ
  pub battery_voltage : ℕ
  pub battery_current_a : ℕ
  pub ignition_on : Bool
  pub brake_pressed : Bool
  pub odometer : ℕ
  pub timestamp_ms : ℕ
  pub e2e_counter_value : ℕ  -- uint8_t
  pub e2e_crc_value : ℕ

pub record SignalService : Type 0 where
  pub latest_signals : VehicleSignals
  pub running : Bool
  pub external_callback : Option ℕ
  pub last_e2e_counter : ℕ  -- uint8_t
  pub e2e_error_count : ℕ  -- uint32_t
  pub phm : PlatformHealthManagement
  pub trace : List (ℕ × VehicleSignals)

-- 12 V is the bit pattern 0x41400000.
abbrev pub default_signals : VehicleSignals
default_signals = record {
  vehicle_speed_kph = 0;
  engine_rpm = 0;
  gear_position = 0;
  battery_voltage = 0x41400000;
  battery_current_a = 0;
  ignition_on = false;
  brake_pressed = false;
  odometer = 0;
  timestamp_ms = 0;
  e2e_counter_value = 0;
  e2e_crc_value = 0;
}

unfoldable pub new : PlatformHealthManagement → SignalService
new phm = record {
  latest_signals = default_signals;
  running = false;
  external_callback = none;
  last_e2e_counter = 0;
  e2e_error_count = 0;
  phm = phm;
  trace = [];
}

abbrev pub alive_conf : AliveSupervisionConfig
alive_conf = record {
  alive_reference_cycle_ms = 100;
  min_margin = 0;
  max_margin = 2;
  failed_supervision_cycles_tol = 5;
}

-- The registration of `Init`, which also subscribes through the proxy.
unfoldable pub register_service : SignalService → ℕ → SignalService
register_service r now = record r {
  phm = (register_entity r.phm "VehicleSignalService" alive_conf now).0;
}

-- One pass of the loop of `Run`.
unfoldable pub run_pass : SignalService → ℕ → SignalService
run_pass r now = record r { phm = report_checkpoint r.phm "VehicleSignalService" 1 now }

unfoldable pub set_signal_change_callback : SignalService → Option ℕ → SignalService
set_signal_change_callback r cb = record r { external_callback = cb }

-- The result and the counter that is kept.
unfoldable pub validate_e2e : SignalService → VehicleSignals → SignalService × Bool
validate_e2e r signals =
    let expected = (r.last_e2e_counter + 1) % 256 in
    if not (nat_eq signals.e2e_counter_value expected) && not (nat_eq r.last_e2e_counter 0)
    then (r, false)
    else (record r { last_e2e_counter = signals.e2e_counter_value }, true)

abbrev pub call : Option ℕ → VehicleSignals → List (ℕ × VehicleSignals) → List (ℕ × VehicleSignals)
call none signals t = t
call (some cb) signals t = (cb, signals) ∷ t

abbrev pub count_error : SignalService → ℕ → SignalService
count_error r now =
    let count = (r.e2e_error_count + 1) % 4294967296 in
    record r {
      e2e_error_count = count;
      phm = if ltb 3 count then report_checkpoint r.phm "VehicleSignalService" 255 now else r.phm;
    }

abbrev pub accept : SignalService → VehicleSignals → SignalService
accept r signals = record r {
  latest_signals = signals;
  trace = call r.external_callback signals r.trace;
}

abbrev pub after_check : SignalService × Bool → VehicleSignals → ℕ → SignalService
after_check (r, true) signals now = accept r signals
after_check (r, false) signals now = count_error r now

unfoldable pub on_signal_received : SignalService → VehicleSignals → ℕ → SignalService
on_signal_received r signals now = after_check (validate_e2e r signals) signals now

unfoldable pub get_latest_signals : SignalService → VehicleSignals
get_latest_signals r = r.latest_signals
