-- ===== src/Examples/Com.antt =====
-- Concrete messages, frames and discoveries (src/ara/com and the IPC bridge's checksum).
use my_auto_sar_ap.Prelude.{
  ℕ, ◌+◌, ◌<◌, ◌≡◌, ◌≢◌, ◌↔◌, ◌≤◌, refl, arith, true, false, some, List, [], ◌∷◌, ◌++◌, drop, ℕ_eq,
}
use my_auto_sar_ap.Prelude.Map.{lookup, insert}
use my_auto_sar_ap.SomeIp.{
  SomeIpMessage, SomeIpHeader, serialize, deserialize, parsed, overrun, rd4, payload_len,
}
use my_auto_sar_ap.SomeIp.RoundTrip.{deserialize-serialize, serialize-deserialize}
use my_auto_sar_ap.SomeIp.Overrun.{deserialize-overrun_iff}
use my_auto_sar_ap.SomeIp.Discovery.{new, find_services, to_list}
use my_auto_sar_ap.SomeIp.Discovery
use my_auto_sar_ap.SomeIp.Discovery.Views
use my_auto_sar_ap.SomeIp.Discovery.Views.{
  find_services-run, last_seen-run, last_seen, offered, offers, stops, subscribes, run,
}
use my_auto_sar_ap.E2e.{e2e_crc8}
use my_auto_sar_ap.E2e.Detect.{e2e_crc8-differ}
use my_auto_sar_ap.VehicleSignal.{
  VehicleSignalProxy, VehicleSignalSample, parse_and_dispatch, to_sample, crc_matches,
  count_e2e_error, new_event, new_stats, subscribe, subscribed,
}
use my_auto_sar_ap.VehicleSignal.Queue.{push_all-subscribe, push_all}
use my_auto_sar_ap.VehicleSignal.Counters.{receive_all}
use my_auto_sar_ap.VehicleSignal.Layout.{is_broken, is_refused}
use my_auto_sar_ap.VehicleSignal.Totals.{IsWords, Totals, count, receive_all-Totals}
use my_auto_sar_ap.VehicleSignal.Dispatch.{dispatch_corrupted, frame, IsNotification}

abbrev request_header : SomeIpHeader
request_header = record {
  service_id = 0x1001;
  method_id = 0x8001;
  msg_length = 8;
  client_id = 1;
  session_id = 258;
  proto_version = 1;
  iface_version = 1;
  msg_type = 2;
  return_code = 0;
}

abbrev three_bytes : SomeIpMessage
three_bytes = record { header = request_header; payload = 9 ∷ 8 ∷ 7 ∷ [] }

deserialize-serialize_example :
    deserialize (serialize three_bytes ++ 5 ∷ []) three_bytes ≡ parsed true three_bytes
deserialize-serialize_example = deserialize-serialize three_bytes three_bytes (5 ∷ []) (record {
  service_id = omega arith;
  method_id = omega arith;
  client_id = omega arith;
  session_id = omega arith;
  payload_size = omega arith;
})

abbrev encoded : List ℕ
encoded =
    0x10 ∷ 0x01 ∷ 0x80 ∷ 0x01 ∷ 0 ∷ 0 ∷ 0 ∷ 11 ∷ 0 ∷ 1 ∷ 1 ∷ 2 ∷ 1 ∷ 1 ∷ 2 ∷ 0 ∷ 9 ∷ 8 ∷ 7 ∷ 5 ∷ []

serialize-deserialize_example :
    serialize three_bytes ++ drop (16 + payload_len (rd4 encoded 4)) encoded ≡ encoded
unfolding deserialize
serialize-deserialize_example =
    serialize-deserialize encoded three_bytes three_bytes (ground arith) (omega arith) refl

abbrev huge : List ℕ
huge = 0x10 ∷ 0x01 ∷ 0x80 ∷ 0x01 ∷ 255 ∷ 255 ∷ 255 ∷ 255 ∷ 0 ∷ 1 ∷ 0 ∷ 0 ∷ 1 ∷ 1 ∷ 2 ∷ 0 ∷ []

deserialize-overrun_iff_example :
    (deserialize huge three_bytes ≡ overrun) ↔ (4294967288 ≤ rd4 huge 4)
deserialize-overrun_iff_example =
    deserialize-overrun_iff huge three_bytes (omega arith) (omega arith) (omega arith)

abbrev vehicle_service : Discovery.ServiceDescriptor
vehicle_service = record {
  service_id = 0x1001;
  instance_id = 1;
  major_version = 1;
  minor_version = 0;
  service_name = "VehicleSignalService";
  eventgroup_id = 1;
  tcp_binding = false;
  port = 30501;
}

abbrev calls : List Views.Op
calls = subscribes 0x1001 4 ∷ offers vehicle_service ∷ stops 0x1002 ∷ []

last_seen-run_example : last_seen 4 0x1001 (run new calls).trace ≡ some vehicle_service
unfolding run Views.step Discovery.offer_service Discovery.stop_offer_service
    Discovery.subscribe_service_availability lookup insert Discovery.new
last_seen-run_example = last_seen-run calls 0x1001 4 refl

e2e_crc8-differ_example : e2e_crc8 (1 ∷ 2 ∷ 3 ∷ 4 ∷ []) ≢ e2e_crc8 (1 ∷ 2 ∷ 67 ∷ 4 ∷ [])
e2e_crc8-differ_example =
    e2e_crc8-differ 3 67 (1 ∷ 2 ∷ []) (4 ∷ []) (omega arith) (omega arith) (ground arith)
      (ground arith) (omega arith)

abbrev subscribed_proxy : VehicleSignalProxy
subscribed_proxy = record {
  instance = "VehicleSignalService.0x01";
  sock_fd = some 3;
  rx_thread = true;
  running = true;
  vehicle_signal = record new_event { state = subscribed };
  stats = new_stats;
}

abbrev signal_header : List ℕ
signal_header = 0x10 ∷ 0x01 ∷ 0x80 ∷ 0x01 ∷ 0 ∷ 0 ∷ 0 ∷ 28 ∷ 0 ∷ 1 ∷ 0 ∷ 9 ∷ 1 ∷ 1 ∷ 2 ∷ 0 ∷ []

abbrev covered_before : List ℕ
covered_before = 0 ∷ 0 ∷ 200 ∷ 66 ∷ 0 ∷ 128 ∷ 59 ∷ 69 ∷ []

abbrev covered_after : List ℕ
covered_after = 0 ∷ 0 ∷ 0 ∷ 0 ∷ 5 ∷ 0 ∷ 0 ∷ 0 ∷ 64 ∷ []

abbrev good_frame : List ℕ
good_frame = frame signal_header (covered_before ++ 1 ∷ covered_after) 243 7 []

good_frame-IsNotification : IsNotification good_frame
good_frame-IsNotification = record {
  long_enough = omega arith;
  service = refl;
  method = refl;
  kind = refl;
  declared = omega arith;
  complete = omega arith;
}

subscribed_proxy-IsWords : IsWords subscribed_proxy
subscribed_proxy-IsWords = record {
  packets = omega arith;
  bytes = omega arith;
  refusals = omega arith;
  broken = omega arith;
}

abbrev corrupted_frame : List ℕ
corrupted_frame = frame signal_header (covered_before ++ 0 ∷ covered_after) 243 7 []

subscribed_proxy-room : 0 < subscribed_proxy.vehicle_signal.max_samples
unfolding new_event
subscribed_proxy-room = omega arith

receive_all-Totals_example :
    (q : VehicleSignalProxy) × (receive_all subscribed_proxy
        (good_frame ∷ corrupted_frame ∷ (7 ∷ []) ∷ [])
      ≡ some q)
    × Totals subscribed_proxy (good_frame ∷ corrupted_frame ∷ (7 ∷ []) ∷ []) q
receive_all-Totals_example =
    receive_all-Totals subscribed_proxy (good_frame ∷ corrupted_frame ∷ (7 ∷ []) ∷ [])
      subscribed_proxy-IsWords subscribed_proxy-room

-- One datagram with a wrong checksum, and two that are refused.
totals_example :
    (count is_broken (good_frame ∷ corrupted_frame ∷ (7 ∷ []) ∷ []) ≡ 1)
    × (count is_refused (good_frame ∷ corrupted_frame ∷ (7 ∷ []) ∷ []) ≡ 2)
unfolding e2e_crc8
totals_example = (refl, refl)

dispatch_corrupted_example :
    parse_and_dispatch subscribed_proxy
      (frame signal_header (covered_before ++ 0 ∷ covered_after) 243 7 [])
    ≡ some (count_e2e_error subscribed_proxy, false)
unfolding crc_matches e2e_crc8
dispatch_corrupted_example =
    dispatch_corrupted subscribed_proxy signal_header covered_before covered_after [] 1 0 243 7 refl
      refl (omega arith) (omega arith) (ground arith) (ground arith) (omega arith)
      good_frame-IsNotification refl

abbrev sample : ℕ → VehicleSignalSample
sample n = to_sample [] n

push_all-subscribe_example :
    push_all (subscribe new_event 2) (sample 1 ∷ sample 2 ∷ sample 3 ∷ [])
    ≡ some (record new_event {
      state = subscribed;
      max_samples = 2;
      sample_queue = sample 2 ∷ sample 3 ∷ [];
    })
unfolding new_event
push_all-subscribe_example =
    push_all-subscribe new_event 2 (sample 1 ∷ sample 2 ∷ sample 3 ∷ []) refl (omega arith)
