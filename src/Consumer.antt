-- ===== src/Consumer.antt =====
-- The consumer of the vehicle signals: include/ara/app/vehicle_signal_swc.h and
-- src/ara/app/vehicle_signal_swc.cpp. A printed float is its 32-bit pattern, not its decimal form.
pub mod Lines
pub mod Accounts
pub mod Descriptors
pub mod EndToEnd
pub mod Decode
pub mod RoundTrip
use my_auto_sar_ap.Prelude.{ℕ, ◌+◌, ◌%◌, Option, none, some, List, [], ◌∷◌, nat_eq, if◌then◌else◌}
use my_auto_sar_ap.Log
use my_auto_sar_ap.Log.{Logger, create_logger, verbose}
use my_auto_sar_ap.Process.{
  Sockets, Process, Line, swc_starting, find_service_error, swc_subscribed, someip_received,
  swc_stopped, statistics, find_service_failed, find_service_ok, subscribed_event, signal_dispatch,
  ap_signal_json, ap_hmi_send, someip_rx, stopped, print, write, logger_at,
}
use my_auto_sar_ap.VehicleSignal.{
  VehicleSignalProxy, VehicleSignalSample, subscribe, unsubscribe, set_receive_handler, u64,
}
use my_auto_sar_ap.VehicleSignal.Proxy.{find_service, destroy_proxy, get_stats, rx_pass}

pub record VehicleSignalSwc : Type 0 where
  pub proxy : Option VehicleSignalProxy
  pub logger : Logger  -- a copy of the registered one
  pub samples_received : ℕ  -- uint64_t
  pub last_speed_kmh : ℕ
  pub last_rpm : ℕ
  pub last_fuel_pct : ℕ
  pub last_e2e_counter : ℕ

abbrev pub vehicle_signal_svc_port : ℕ
vehicle_signal_svc_port = 30501

-- The callback of `Start`, of which there is one.
abbrev pub handler : ℕ
handler = 1

-- The assignments of the callback.
unfoldable pub keep_sample : VehicleSignalSwc → VehicleSignalSample → VehicleSignalSwc
keep_sample c sample = record c {
  last_speed_kmh = sample.vehicle_speed_kmh;
  last_rpm = sample.engine_rpm;
  last_fuel_pct = sample.fuel_level_pct;
  last_e2e_counter = sample.e2e_counter;
  samples_received = u64 (c.samples_received + 1);
}

abbrev pub emptied : VehicleSignalProxy → VehicleSignalProxy
emptied p = record p { vehicle_signal = record (p.vehicle_signal) { delivered = [] } }

module _ {S : Sockets} where
  unfoldable pub make_swc : Process S → Process S × VehicleSignalSwc
  make_swc w =
      let (log, p) = create_logger w.logging "VSIG" "VehicleSignalSWC" verbose in
      (
        record w { logging = log },
        record {
          proxy = none;
          logger = logger_at log p;
          samples_received = 0;
          last_speed_kmh = 0;
          last_rpm = 0;
          last_fuel_pct = 0;
          last_e2e_counter = 0;
        },
      )

  -- The lines of the callback for the n-th sample.
  unfoldable pub print_sample : Process S → Logger → VehicleSignalSample → ℕ → Process S
  print_sample w logger sample n =
      let w1 : Process S = if nat_eq (n % 10) 1 then print w (signal_dispatch sample n) else w in
      let w2 : Process S = print w1 (ap_signal_json sample) in
      let w3 : Process S = if nat_eq (n % 10) 1 then print w2 (ap_hmi_send sample n) else w2 in
      if nat_eq (n % 100) 1
      then write (print w3 (someip_rx sample n)) logger Log.info (someip_received sample)
      else w3

  -- The callback.
  unfoldable pub handle_sample :
      Process S → VehicleSignalSwc → VehicleSignalSample → Process S × VehicleSignalSwc
  handle_sample w c sample =
      let c' = keep_sample c sample in (print_sample w c'.logger sample c'.samples_received, c')

  abbrev pub release : Process S → Option VehicleSignalProxy → Process S
  release w none = w
  release w (some p) = destroy_proxy w p

  -- What `Start` does with the pointer that `FindService` gave.
  abbrev pub start_with :
      Process S → VehicleSignalSwc → Option VehicleSignalProxy → Process S × VehicleSignalSwc
  start_with w c none =
      let w' = write w c.logger Log.error find_service_error in
      (print w' (find_service_failed vehicle_signal_svc_port), record c { proxy = none })
  start_with w c (some p) =
      let w1 = print w (find_service_ok vehicle_signal_svc_port) in
      let w2 = print w1 (subscribed_event vehicle_signal_svc_port) in
      (
        write w2 c.logger Log.info (swc_subscribed vehicle_signal_svc_port),
        record c {
          proxy = some (record p {
            vehicle_signal = set_receive_handler (subscribe p.vehicle_signal 32) (some handler);
          });
        },
      )

  -- The assignment releases the proxy that was there.
  unfoldable pub start : Process S → VehicleSignalSwc → Process S × VehicleSignalSwc
  start w c =
      let (w', found) =
        find_service (write w c.logger Log.info swc_starting) vehicle_signal_svc_port in
      start_with (release w' c.proxy) c found

  -- The proxy is unsubscribed, then destroyed.
  abbrev pub stop_with :
      Process S → VehicleSignalSwc → Option VehicleSignalProxy → Process S × VehicleSignalSwc
  stop_with w c none = (w, c)
  stop_with w c (some p) =
      let p' : VehicleSignalProxy = record p { vehicle_signal = unsubscribe p.vehicle_signal } in
      let w' = write (destroy_proxy w p') c.logger Log.info swc_stopped in
      (print w' (stopped c.samples_received), record c { proxy = none })

  unfoldable pub stop : Process S → VehicleSignalSwc → Process S × VehicleSignalSwc
  stop w c = stop_with w c c.proxy

  abbrev pub tick_with : Process S → VehicleSignalSwc → Option VehicleSignalProxy → Process S
  tick_with w c none = w
  tick_with w c (some p) =
      let stats = get_stats p in
      let tick = (w.tick + 1) % 4294967296 in
      let w' : Process S = record w { tick = tick } in
      if nat_eq (tick % 10) 0
      then write w' c.logger Log.info (statistics stats c.last_speed_kmh c.last_rpm c.last_fuel_pct)
      else w'

  unfoldable pub main_function_100ms : Process S → VehicleSignalSwc → Process S
  main_function_100ms w c = tick_with w c c.proxy

  -- The calls of the callback that a pass has recorded, the oldest first.
  abbrev pub handle_calls :
      Process S → VehicleSignalSwc → List (ℕ × VehicleSignalSample) → Process S × VehicleSignalSwc
  handle_calls w c [] = (w, c)
  handle_calls w c ((h, sample) ∷ calls) =
      let (w', c') = handle_calls w c calls in handle_sample w' c' sample

  abbrev pub call_back :
      VehicleSignalSwc
      → Option (Process S × VehicleSignalProxy)
      → Option (Process S × VehicleSignalSwc)
  call_back c none = none
  call_back c (some (w, p)) =
      some (handle_calls w (record c { proxy = some (emptied p) }) p.vehicle_signal.delivered)

  abbrev pub pass_with :
      Process S
      → VehicleSignalSwc
      → Option VehicleSignalProxy
      → Option (Process S × VehicleSignalSwc)
  pass_with w c none = some (w, c)
  pass_with w c (some p) = call_back c (rx_pass w p)

  -- A pass of the receive thread of the consumer's proxy.
  unfoldable pub receive_pass : Process S → VehicleSignalSwc → Option (Process S × VehicleSignalSwc)
  receive_pass w c = pass_with w c c.proxy
