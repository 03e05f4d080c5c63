-- ===== src/VehicleSignal.antt =====
-- The VehicleSignal proxy: include/ara/com/vehicle_signal_proxy.h, src/ara/com/vehicle_signal_proxy.cpp
-- and the payload of include/ara/com/someip_proto.h. A `float` is its 32-bit pattern, which the code
-- only copies. Here a datagram that `recv` returns is an argument; Proxy has the socket and the thread.
-- `none` is a step that C++ leaves undefined.
mod Event
pub mod Queue
pub mod Dispatch
pub mod Counters
pub mod Layout
pub mod Totals
pub mod Proxy
pub mod Effects
pub mod Descriptors
pub mod Passes
pub mod Fresh
pub mod Wire
pub mod Threads
use my_auto_sar_ap.Prelude.{
  ℕ, zero, suc, ◌+◌, ◌-◌, ◌*◌, ◌%◌, String, Bool, true, false, not, Option, none, some, List, [],
  ◌∷◌, ◌++◌, length, get_or, take, drop, nat_eq, ltb, leb, if◌then◌else◌,
}
use my_auto_sar_ap.SomeIp.{rd2, rd4, payload_len}
use my_auto_sar_ap.E2e.{e2e_crc8}
pub use my_auto_sar_ap.VehicleSignal.Event.{
  SubscriptionState, VehicleSignalSample, VehicleSignalEvent, pop, is_subscribed, call, enqueue,
  not_subscribed, subscribed, subscription_pending,
}
unfoldable pub use my_auto_sar_ap.VehicleSignal.Event.{
  new_event, subscribe, unsubscribe, get_subscription_state, set_receive_handler, pull,
  get_new_samples, push_sample,
}

pub record Stats : Type 0 where
  pub rx_packets : ℕ  -- uint64_t, like the others
  pub rx_bytes : ℕ
  pub e2e_errors : ℕ
  pub parse_errors : ℕ

-- The descriptor -1 is `none`; `rx_thread` tells whether the thread is joinable.
pub record VehicleSignalProxy : Type 0 where
  pub instance : String
  pub vehicle_signal : VehicleSignalEvent
  pub sock_fd : Option ℕ
  pub rx_thread : Bool
  pub running : Bool
  pub stats : Stats

abbrev pub new_stats : Stats
new_stats = record { rx_packets = 0; rx_bytes = 0; e2e_errors = 0; parse_errors = 0 }

abbrev pub u64 : ℕ → ℕ
u64 n = n % 18446744073709551616

abbrev pub payload_size : ℕ
payload_size = 20

-- A native, little-endian 32-bit pattern of the packed payload.
abbrev pub float_at : List ℕ → ℕ → ℕ
float_at raw off =
    get_or raw off 0
    + get_or raw (off + 1) 0 * 256
    + get_or raw (off + 2) 0 * 65536
    + get_or raw (off + 3) 0 * 16777216

-- The packed layout of `VehicleSignalPayload_t`, copied from behind the header.
abbrev pub raw_payload : List ℕ → List ℕ
raw_payload buf = take payload_size (drop 16 buf)

abbrev pub to_sample : List ℕ → ℕ → VehicleSignalSample
to_sample raw session = record {
  vehicle_speed_kmh = float_at raw 0;
  engine_rpm = float_at raw 4;
  brake_pedal = not (nat_eq (get_or raw 8 0) 0);
  steering_angle_deg = float_at raw 9;
  door_status = get_or raw 13 0;
  fuel_level_pct = float_at raw 14;
  e2e_crc = get_or raw 18 0;
  e2e_counter = get_or raw 19 0;
  session_id = session;
}

abbrev pub count_e2e_error : VehicleSignalProxy → VehicleSignalProxy
count_e2e_error p = record p {
  stats = record (p.stats) { e2e_errors = u64 (p.stats.e2e_errors + 1) };
}

abbrev pub with_event :
    VehicleSignalProxy → Option VehicleSignalEvent → Option (VehicleSignalProxy × Bool)
with_event p none = none
with_event p (some ev) = some (record p { vehicle_signal = ev }, true)

-- The CRC covers the payload but for its last two bytes.
unfoldable pub crc_matches : List ℕ → Bool
crc_matches raw = nat_eq (get_or raw 18 0) (e2e_crc8 (take 18 raw))

-- The early returns up to the checksum, with their results. `16u + payloadLen` wraps.
unfoldable pub early_return : List ℕ → Option Bool
early_return buf =
    let plen = payload_len (rd4 buf 4) in
    if ltb (length buf) 36
    then some false
    else if not (nat_eq (rd2 buf 0) 0x1001)
    then some true
    else if not (nat_eq (rd2 buf 2) 0x8001)
    then some true
    else if not (nat_eq (get_or buf 14 0) 0x02)
    then some false
    else if ltb plen payload_size
    then some false
    else if ltb (length buf) ((16 + plen) % 4294967296)
    then some false
    else none

-- The rest of `ParseAndDispatch`; the log line of a mismatch is left out.
unfoldable pub check_and_push : VehicleSignalProxy → List ℕ → Option (VehicleSignalProxy × Bool)
check_and_push p buf =
    let raw = raw_payload buf in
    if not (crc_matches raw)
    then some (count_e2e_error p, false)
    else with_event p (push_sample p.vehicle_signal (to_sample raw (rd2 buf 10)))

unfoldable pub parse_and_dispatch : VehicleSignalProxy → List ℕ → Option (VehicleSignalProxy × Bool)
parse_and_dispatch p buf = elim (early_return buf) [
  | some accepted ↦ some (p, accepted)
  | none ↦ check_and_push p buf
]

abbrev pub count_parse_error : Option (VehicleSignalProxy × Bool) → Option VehicleSignalProxy
count_parse_error none = none
count_parse_error (some (p, true)) = some p
count_parse_error (some (p, false)) =
    some (record p { stats = record (p.stats) { parse_errors = u64 (p.stats.parse_errors + 1) } })

abbrev pub count_packet : VehicleSignalProxy → ℕ → VehicleSignalProxy
count_packet p n = record p {
  stats = record (p.stats) {
    rx_packets = u64 (p.stats.rx_packets + 1);
    rx_bytes = u64 (p.stats.rx_bytes + n);
  };
}

-- One pass of the receive loop, for a datagram of at least one byte.
unfoldable pub receive : VehicleSignalProxy → List ℕ → Option VehicleSignalProxy
receive p buf = count_parse_error (parse_and_dispatch (count_packet p (length buf)) buf)
