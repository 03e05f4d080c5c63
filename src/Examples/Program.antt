-- ===== src/Examples/Program.antt =====
-- Concrete runs of the program (src/application/main.cpp) on the sockets of Process.Loopback.
use my_auto_sar_ap.Prelude.{some, ℕ, ◌≡◌, refl, arith, true, false, List, [], ◌∷◌, ◌++◌}
use my_auto_sar_ap.Prelude.Int.{pos}
use my_auto_sar_ap.Log
use my_auto_sar_ap.Process.{Process}
use my_auto_sar_ap.Process.Loopback.{loopback, loopback-IsLawful}
use my_auto_sar_ap.Process.Tally.{Tally, tally, expected}
use my_auto_sar_ap.VehicleSignal.Dispatch.{frame}
use my_auto_sar_ap.VehicleSignal.{
  VehicleSignalProxy, VehicleSignalSample, new_event, subscribe, set_receive_handler,
}
use my_auto_sar_ap.VehicleSignal.Proxy.{idle_proxy}
use my_auto_sar_ap.Consumer.{VehicleSignalSwc, handler}
use my_auto_sar_ap.Consumer.Decode.{IsReady}
use my_auto_sar_ap.Consumer.EndToEnd.{take_all, take_all-read_all, read_all, json_of, Shows}
use my_auto_sar_ap.Consumer.Decode.{decode}
use my_auto_sar_ap.Consumer.RoundTrip.{decode-encode, encode, Fits}
use my_auto_sar_ap.MainProgram.{
  Happening, passes, signals, Running, Outcome, returned, looping, undefined, main,
}
use my_auto_sar_ap.MainProgram.Ends.{main-returns}
use my_auto_sar_ap.MainProgram.Books.{main-InOrder, InOrder}

abbrev header : List ℕ
header = 0x10 ∷ 0x01 ∷ 0x80 ∷ 0x01 ∷ 0 ∷ 0 ∷ 0 ∷ 28 ∷ 0 ∷ 1 ∷ 0 ∷ 9 ∷ 1 ∷ 1 ∷ 2 ∷ 0 ∷ []

abbrev covered : List ℕ
covered = 0 ∷ 0 ∷ 200 ∷ 66 ∷ 0 ∷ 128 ∷ 59 ∷ 69 ∷ 1 ∷ 0 ∷ 0 ∷ 0 ∷ 0 ∷ 5 ∷ 0 ∷ 0 ∷ 0 ∷ 64 ∷ []

-- A frame with the right checksum, one with a wrong one, and one that is too short.
abbrev inbox : List (List ℕ)
inbox = frame header covered 243 7 [] ∷ frame header covered 1 8 [] ∷ (1 ∷ 2 ∷ []) ∷ []

abbrev started : Process loopback
started = record {
  os = record { in_use = false; port_free = true; inbox = inbox };
  logging = Log.new;
  output = [];
  tick = 0;
}

abbrev three_passes : List (List Happening)
three_passes = (passes ∷ passes ∷ []) ∷ [] ∷ (passes ∷ []) ∷ []

main-returns_example :
    (after : Process loopback) × (main started (three_passes ++ (signals ∷ []) ∷ [])
      ≡ returned (pos 0) after)
    × (loopback.is_open after.os 3 ≡ loopback.is_open started.os 3)
main-returns_example =
    main-returns loopback loopback-IsLawful 3 started (three_passes ++ (signals ∷ []) ∷ []) refl

main-InOrder_example :
    (r : Running loopback) × (main started three_passes ≡ looping r) × InOrder 3 r.process r.swc
main-InOrder_example = main-InOrder loopback-IsLawful started three_passes refl refl (omega arith)

-- The samples, the counter of the last one, and the tally of the lines.
abbrev summary : Outcome loopback → ℕ × ℕ × Tally
summary (looping r) = (r.swc.samples_received, r.swc.last_e2e_counter, tally r.process.output)
summary (returned code w) = (0, 0, tally w.output)
summary undefined = (0, 0, tally [])

one_sample : summary (main started three_passes) ≡ (1, 7, expected 1 3)
unfolding main my_auto_sar_ap.Exec.report_execution_state my_auto_sar_ap.MainProgram.main_loop
    my_auto_sar_ap.MainProgram.set_up my_auto_sar_ap.MainProgram.happen_all
    my_auto_sar_ap.MainProgram.happen my_auto_sar_ap.Consumer.receive_pass
    my_auto_sar_ap.Consumer.start my_auto_sar_ap.VehicleSignal.Proxy.find_service
    my_auto_sar_ap.VehicleSignal.Proxy.make_proxy my_auto_sar_ap.Process.write
    my_auto_sar_ap.Consumer.make_swc my_auto_sar_ap.VehicleSignal.Proxy.rx_pass
    my_auto_sar_ap.Consumer.main_function_100ms my_auto_sar_ap.Process.create_and_write
    my_auto_sar_ap.VehicleSignal.Proxy.take_datagram my_auto_sar_ap.VehicleSignal.parse_and_dispatch
    my_auto_sar_ap.Consumer.handle_sample my_auto_sar_ap.Consumer.keep_sample
    my_auto_sar_ap.Consumer.print_sample my_auto_sar_ap.Consumer.stop my_auto_sar_ap.E2e.crc8_loop
    my_auto_sar_ap.E2e.e2e_crc8 my_auto_sar_ap.E2e.shift8 my_auto_sar_ap.E2e.times Log.create_logger
    Log.init_logging Log.log_at my_auto_sar_ap.MainProgram.finish my_auto_sar_ap.Prelude.Map.insert
    my_auto_sar_ap.Prelude.Map.lookup my_auto_sar_ap.VehicleSignal.Proxy.destroy_proxy
    my_auto_sar_ap.VehicleSignal.Proxy.get_stats my_auto_sar_ap.VehicleSignal.Proxy.network_port
    my_auto_sar_ap.VehicleSignal.check_and_push my_auto_sar_ap.VehicleSignal.crc_matches
    my_auto_sar_ap.VehicleSignal.early_return my_auto_sar_ap.VehicleSignal.new_event
    my_auto_sar_ap.VehicleSignal.push_sample my_auto_sar_ap.VehicleSignal.set_receive_handler
    my_auto_sar_ap.VehicleSignal.subscribe my_auto_sar_ap.VehicleSignal.unsubscribe Log.new
one_sample = refl

abbrev ready_proxy : VehicleSignalProxy
ready_proxy = record idle_proxy {
  sock_fd = some 3;
  running = true;
  rx_thread = true;
  vehicle_signal = set_receive_handler (subscribe new_event 32) (some handler);
}

abbrev ready_swc : VehicleSignalSwc
ready_swc = record {
  proxy = some ready_proxy;
  logger = record { ctx_id = "VSIG"; ctx_desc = "VehicleSignalSWC"; level = Log.verbose };
  samples_received = 0;
  last_speed_kmh = 0;
  last_rpm = 0;
  last_fuel_pct = 0;
  last_e2e_counter = 0;
}

ready_proxy-IsReady : IsReady ready_proxy
unfolding set_receive_handler subscribe new_event
ready_proxy-IsReady = record { room = omega arith; state = refl; handles = refl; calls = refl }

take_all-read_all_example :
    (w' : Process loopback) × (c' : VehicleSignalSwc) × (take_all started ready_swc inbox
      ≡ some (w', c'))
    × (json_of w'.output ≡ read_all inbox [])
    × Shows c' (read_all inbox [])
take_all-read_all_example =
    take_all-read_all started ready_swc ready_proxy inbox refl ready_proxy-IsReady tt

abbrev sent_sample : VehicleSignalSample
sent_sample = record {
  vehicle_speed_kmh = 0x42C80000;
  engine_rpm = 0x453B8000;
  brake_pedal = true;
  steering_angle_deg = 0;
  door_status = 5;
  fuel_level_pct = 0x40000000;
  e2e_crc = 243;
  e2e_counter = 7;
  session_id = 9;
}

sent_sample-Fits : Fits sent_sample
sent_sample-Fits = record {
  speed = omega arith;
  rpm = omega arith;
  steering = omega arith;
  fuel = omega arith;
  session = omega arith;
}

decode-encode_example : decode (encode sent_sample) ≡ some sent_sample
unfolding my_auto_sar_ap.E2e.e2e_crc8 my_auto_sar_ap.VehicleSignal.Wire.covered_bytes
decode-encode_example = decode-encode sent_sample sent_sample-Fits refl
