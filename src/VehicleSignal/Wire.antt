-- ===== src/VehicleSignal/Wire.antt =====
-- The packed structures of include/ara/com/someip_proto.h on a little-endian machine, as their bytes in
-- memory. A `float` is its 32-bit pattern.
use my_auto_sar_ap.Prelude.{
  ℕ, ◌+◌, ◌*◌, ◌/◌, ◌%◌, ◌<◌, ◌≡◌, arith, List, [], ◌∷◌, ◌++◌, length, length-append,
}

-- `SOMEIP_HTONS` and `SOMEIP_HTONL`; the reverse macros are the same.
unfoldable pub htons : ℕ → ℕ
htons x = (x / 256 + x % 256 * 256) % 65536

unfoldable pub htonl : ℕ → ℕ
htonl x = x / 16777216 % 256 + x / 65536 % 256 * 256 + x / 256 % 256 * 65536 + x % 256 * 16777216

pub record HeaderStruct : Type 0 where
  pub service_id : ℕ
  pub method_id : ℕ
  pub length : ℕ
  pub client_id : ℕ
  pub session_id : ℕ
  pub proto_ver : ℕ
  pub iface_ver : ℕ
  pub msg_type : ℕ
  pub return_code : ℕ

pub record PayloadStruct : Type 0 where
  pub vehicle_speed_kmh : ℕ
  pub engine_rpm : ℕ
  pub brake_pedal : ℕ
  pub steering_angle_deg : ℕ
  pub door_status : ℕ
  pub fuel_level_pct : ℕ
  pub e2e_crc : ℕ
  pub e2e_counter : ℕ

-- The bytes of a word in memory.
abbrev pub word2 : ℕ → List ℕ
word2 x = x % 256 ∷ x / 256 % 256 ∷ []

abbrev pub word4 : ℕ → List ℕ
word4 x = x % 256 ∷ x / 256 % 256 ∷ x / 65536 % 256 ∷ x / 16777216 % 256 ∷ []

unfoldable pub header_bytes : HeaderStruct → List ℕ
header_bytes h =
    word2 h.service_id
    ++ word2 h.method_id
    ++ word4 h.length
    ++ word2 h.client_id
    ++ word2 h.session_id
    ++ h.proto_ver ∷ h.iface_ver ∷ h.msg_type ∷ h.return_code ∷ []

-- The 18 bytes that the checksum covers.
unfoldable pub covered_bytes : PayloadStruct → List ℕ
covered_bytes p =
    word4 p.vehicle_speed_kmh
    ++ word4 p.engine_rpm
    ++ p.brake_pedal ∷ (word4 p.steering_angle_deg ++ p.door_status ∷ word4 p.fuel_level_pct)

unfoldable pub payload_bytes : PayloadStruct → List ℕ
unfolding covered_bytes
payload_bytes p = covered_bytes p ++ p.e2e_crc ∷ p.e2e_counter ∷ []

-- The macros undo themselves.
pub htons-htons : (x : ℕ) → x < 65536 → htons (htons x) ≡ x
unfolding htons
htons-htons x h = omega arith

pub htonl-htonl : (x : ℕ) → x < 4294967296 → htonl (htonl x) ≡ x
unfolding htonl
htonl-htonl x h = omega arith

pub record SdEntry : Type 0 where
  pub entry_type : ℕ
  pub index_first : ℕ
  pub index_second : ℕ
  pub num_opts : ℕ
  pub service_id : ℕ
  pub instance_id : ℕ
  pub major_ver : ℕ
  pub ttl : List ℕ  -- three bytes
  pub minor_ver : ℕ

unfoldable pub sd_entry_bytes : SdEntry → List ℕ
sd_entry_bytes e =
    e.entry_type ∷ e.index_first ∷ e.index_second ∷ e.num_opts ∷ word2 e.service_id
    ++ (word2 e.instance_id ++ (e.major_ver ∷ e.ttl ++ word4 e.minor_ver))

-- An entry has 16 bytes.
pub length-sd_entry_bytes : (e : SdEntry) → length e.ttl ≡ 3 → length (sd_entry_bytes e) ≡ 16
unfolding sd_entry_bytes
length-sd_entry_bytes e three = omega (arith, three, length-append e.ttl (word4 e.minor_ver))
