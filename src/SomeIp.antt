-- ===== src/SomeIp.antt =====
-- ara::com's SOME/IP message: include/ara/com/someip_binding.h and the first half of
-- src/ara/com/someip_binding.cpp. Bytes are numbers below 256, for which `|` of shifted bytes is a
-- sum. A `MessageType` and a `ReturnCode` are their `uint8_t` values: any byte is cast to them.
pub mod RoundTrip
pub mod Overrun
pub mod Caller
pub mod Discovery
use my_auto_sar_ap.Prelude.{
  ℕ, ◌+◌, ◌-◌, ◌*◌, ◌/◌, ◌%◌, Bool, true, false, List, [], ◌∷◌, ◌++◌, length, get_or, take, drop,
  ltb, leb, if◌then◌else◌,
}

abbrev pub MessageType : Type 0
MessageType = ℕ

abbrev pub ReturnCode : Type 0
ReturnCode = ℕ

pub record SomeIpHeader : Type 0 where
  pub service_id : ℕ
  pub method_id : ℕ
  pub msg_length : ℕ
  pub client_id : ℕ
  pub session_id : ℕ
  pub proto_version : ℕ
  pub iface_version : ℕ
  pub msg_type : MessageType
  pub return_code : ReturnCode

pub record SomeIpMessage : Type 0 where
  pub header : SomeIpHeader
  pub payload : List ℕ

-- Big-endian `uint16_t` and `uint32_t`.
abbrev pub push2 : ℕ → List ℕ
push2 v = v / 256 % 256 ∷ v % 256 ∷ []

abbrev pub push4 : ℕ → List ℕ
push4 v = v / 16777216 % 256 ∷ v / 65536 % 256 ∷ v / 256 % 256 ∷ v % 256 ∷ []

unfoldable pub serialize : SomeIpMessage → List ℕ
serialize msg =
    push2 msg.header.service_id
    ++ (push2 msg.header.method_id
        ++ (push4 ((8 + length msg.payload) % 4294967296)
            ++ (push2 msg.header.client_id
                ++ (push2 msg.header.session_id
                    ++ (msg.header.proto_version ∷ msg.header.iface_version ∷ msg.header.msg_type
                        ∷ msg.header.return_code ∷ msg.payload)))))

abbrev pub rd2 : List ℕ → ℕ → ℕ
rd2 bytes off = get_or bytes off 0 * 256 + get_or bytes (off + 1) 0

abbrev pub rd4 : List ℕ → ℕ → ℕ
rd4 bytes off =
    get_or bytes off 0 * 16777216
    + get_or bytes (off + 1) 0 * 65536
    + get_or bytes (off + 2) 0 * 256
    + get_or bytes (off + 3) 0

-- The length of the payload that a message declares.
abbrev pub payload_len : ℕ → ℕ
payload_len declared = if leb 8 declared then declared - 8 else 0

-- `parsed` holds the result and the out parameter. `overrun` is a read past the end of the buffer,
-- which C++ leaves undefined.
pub data Outcome : Type 0 where
  parsed : Bool → SomeIpMessage → Outcome
  overrun : Outcome

-- The header that is written to the out parameter; its length field is left as it was.
abbrev pub read_header : List ℕ → SomeIpHeader → SomeIpHeader
read_header bytes old = record {
  service_id = rd2 bytes 0;
  method_id = rd2 bytes 2;
  msg_length = old.msg_length;
  client_id = rd2 bytes 8;
  session_id = rd2 bytes 10;
  proto_version = get_or bytes 12 0;
  iface_version = get_or bytes 13 0;
  msg_type = get_or bytes 14 0;
  return_code = get_or bytes 15 0;
}

-- `16 + payloadLen` is a `uint32_t` sum and wraps; the iterators' sum does not.
unfoldable pub deserialize : List ℕ → SomeIpMessage → Outcome
deserialize bytes msg =
    let plen = payload_len (rd4 bytes 4) in
    let header = read_header bytes msg.header in
    if ltb (length bytes) 16
    then parsed false msg
    else if ltb (length bytes) ((16 + plen) % 4294967296)
    then parsed false (record { header = header; payload = msg.payload })
    else if ltb (length bytes) (16 + plen)
    then overrun
    else parsed true (record { header = header; payload = take plen (drop 16 bytes) })
