-- ===== src/Consumer/RoundTrip.antt =====
-- What a sender writes and the proxy reads (include/ara/com/someip_proto.h,
-- src/ara/com/vehicle_signal_proxy.cpp).
use my_auto_sar_ap.Prelude.{
  ℕ, ◌+◌, ◌*◌, ◌/◌, ◌%◌, ◌<◌, ◌≡◌, refl, ap, ◌∙◌, arith, Bool, true, false, not, none, some, List,
  ◌++◌, nat_eq, nat_eq_iff, if◌then◌else◌,
}
use my_auto_sar_ap.SomeIp.{rd2}
use my_auto_sar_ap.E2e.{e2e_crc8}
use my_auto_sar_ap.VehicleSignal.{
  VehicleSignalSample, early_return, crc_matches, raw_payload, to_sample,
}
use my_auto_sar_ap.VehicleSignal.Wire.{
  HeaderStruct, PayloadStruct, htons, htonl, header_bytes, payload_bytes, covered_bytes,
}
use my_auto_sar_ap.Consumer.Decode.{decode, carried}

-- The structures that a sender fills for a sample of a session, but for the checksum.
abbrev header_of : ℕ → HeaderStruct
header_of session = record {
  service_id = htons 0x1001;
  method_id = htons 0x8001;
  length = htonl 28;
  client_id = htons 1;
  session_id = htons session;
  proto_ver = 1;
  iface_ver = 1;
  msg_type = 2;
  return_code = 0;
}

abbrev payload_of : VehicleSignalSample → PayloadStruct
payload_of s = record {
  vehicle_speed_kmh = s.vehicle_speed_kmh;
  engine_rpm = s.engine_rpm;
  brake_pedal = if s.brake_pedal then 1 else 0;
  steering_angle_deg = s.steering_angle_deg;
  door_status = s.door_status;
  fuel_level_pct = s.fuel_level_pct;
  e2e_crc = s.e2e_crc;
  e2e_counter = s.e2e_counter;
}

-- The checksum of what the sender writes.
abbrev pub checksum_of : VehicleSignalSample → ℕ
checksum_of s = e2e_crc8 (covered_bytes (payload_of s))

abbrev pub encode : VehicleSignalSample → List ℕ
encode s = header_bytes (header_of s.session_id) ++ payload_bytes (payload_of s)

-- Every field fits its type in the structures, but for the bytes, which are copied.
pub record Fits (s : VehicleSignalSample) : Type 0 where
  pub speed : s.vehicle_speed_kmh < 4294967296
  pub rpm : s.engine_rpm < 4294967296
  pub steering : s.steering_angle_deg < 4294967296
  pub fuel : s.fuel_level_pct < 4294967296
  pub session : s.session_id < 65536

encode-accepted : (s : VehicleSignalSample) → early_return (encode s) ≡ none
unfolding early_return header_bytes payload_bytes covered_bytes htons htonl
encode-accepted s = refl

encode-crc :
    (s : VehicleSignalSample)
    → s.e2e_crc ≡ checksum_of s
    → crc_matches (raw_payload (encode s)) ≡ true
unfolding crc_matches header_bytes payload_bytes covered_bytes
encode-crc s e = (nat_eq_iff s.e2e_crc (checksum_of s)).1 e

-- A pattern is read from its bytes in memory, and a session from its bytes in network order.
pattern_word :
    (x : ℕ)
    → x < 4294967296
    → x % 256 + x / 256 % 256 * 256 + x / 65536 % 256 * 65536 + x / 16777216 % 256 * 16777216 ≡ x
pattern_word x h = omega arith

session_word : (x : ℕ) → x < 65536 → htons x % 256 * 256 + htons x / 256 % 256 ≡ x
unfolding htons
session_word x h = omega arith

brake_bit : (b : Bool) → not (nat_eq (if b then 1 else 0) 0) ≡ b
brake_bit true = refl
brake_bit false = refl

encode-sample :
    (s : VehicleSignalSample) → Fits s → to_sample (raw_payload (encode s)) (rd2 (encode s) 10) ≡ s
unfolding header_bytes payload_bytes covered_bytes
encode-sample s f = rw (
  pattern_word s.vehicle_speed_kmh f.speed,
  pattern_word s.engine_rpm f.rpm,
  pattern_word s.steering_angle_deg f.steering,
  pattern_word s.fuel_level_pct f.fuel,
  session_word s.session_id f.session,
  brake_bit s.brake_pedal,
)

-- A frame that a sender writes for a sample, by the structures and the byte order of someip_proto.h and
-- with the checksum of its bytes, is read as that sample.
pub decode-encode :
    (s : VehicleSignalSample) → Fits s → s.e2e_crc ≡ checksum_of s → decode (encode s) ≡ some s
decode-encode s f e =
    ap
      (λ o.
        carried o (crc_matches (raw_payload (encode s)))
          (to_sample (raw_payload (encode s)) (rd2 (encode s) 10)))
      (encode-accepted s)
    ∙ ap (λ b. carried none b (to_sample (raw_payload (encode s)) (rd2 (encode s) 10)))
        (encode-crc s e)
    ∙ ap some (encode-sample s f)
