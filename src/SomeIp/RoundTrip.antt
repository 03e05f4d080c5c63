-- ===== src/SomeIp/RoundTrip.antt =====
-- `Serialize` and `Deserialize` are inverse to one another (src/ara/com/someip_binding.cpp).
use my_auto_sar_ap.Prelude.{
  ℕ, suc, ◌+◌, ◌<◌, ◌≤◌, ◌≡◌, ◌/◌, ◌%◌, ◌*◌, refl, arith, true, List, ◌∷◌, ◌++◌, length,
  length-append, take, drop, take-length-append, take-append-drop, length-take, All, Below,
}
use my_auto_sar_ap.SomeIp.{
  SomeIpHeader, SomeIpMessage, parsed, serialize, deserialize, read_header, rd4, payload_len,
}

-- Each field fits its type, and the payload fits the length field with room to spare.
pub record IsWellFormed (m : SomeIpMessage) : Type 0 where
  pub service_id : m.header.service_id < 65536
  pub method_id : m.header.method_id < 65536
  pub client_id : m.header.client_id < 65536
  pub session_id : m.header.session_id < 65536
  pub payload_size : length m.payload < 4294967280

header-serialize :
    (m old : SomeIpMessage) (rest : List ℕ)
    → IsWellFormed m
    → read_header (serialize m ++ rest) old.header
      ≡ record m.header { msg_length = old.header.msg_length }
unfolding serialize
header-serialize m old rest w = ground arith

declared-serialize :
    (m : SomeIpMessage) (rest : List ℕ)
    → IsWellFormed m
    → payload_len (rd4 (serialize m ++ rest) 4) ≡ length m.payload
unfolding serialize
declared-serialize m rest w = ground arith

length-serialize : (m : SomeIpMessage) → length (serialize m) ≡ 16 + length m.payload
unfolding serialize
length-serialize m = omega arith

drop-serialize :
    (m : SomeIpMessage) (rest : List ℕ) → drop 16 (serialize m ++ rest) ≡ m.payload ++ rest
unfolding serialize
drop-serialize m rest = refl

-- A well-formed message that is serialized, with any bytes behind it in the buffer, is read back
-- whole, but for the length field of the header, which keeps the value that the out parameter had.
pub deserialize-serialize :
    (m old : SomeIpMessage) (rest : List ℕ)
    → IsWellFormed m
    → deserialize (serialize m ++ rest) old
      ≡ parsed true (record {
        header = record m.header { msg_length = old.header.msg_length };
        payload = m.payload;
      })
unfolding deserialize
deserialize-serialize m old rest w = ground (
  arith,
  header-serialize m old rest w,
  declared-serialize m rest w,
  length-append (serialize m) rest,
  length-serialize m,
  drop-serialize m rest,
  take-length-append m.payload rest,
)

abbrev reread : List ℕ → SomeIpHeader → ℕ → SomeIpMessage
reread bytes old p = record { header = read_header bytes old; payload = take p (drop 16 bytes) }

parsed_shape :
    (bytes : List ℕ) (m old : SomeIpMessage)
    → deserialize bytes old ≡ parsed true m
    → (16 + payload_len (rd4 bytes 4) ≤ length bytes)
      × (m ≡ reread bytes old.header (payload_len (rd4 bytes 4)))
unfolding deserialize
parsed_shape bytes m old e = ground arith

two_bytes :
    (a b : ℕ) → a < 256 → b < 256 → ((a * 256 + b) / 256 % 256 ≡ a) × ((a * 256 + b) % 256 ≡ b)
two_bytes a b h k = omega arith

abbrev word : ℕ → ℕ → ℕ → ℕ → ℕ
word a b c d = a * 16777216 + b * 65536 + c * 256 + d

four_bytes :
    (a b c d : ℕ)
    → a < 256
    → b < 256
    → c < 256
    → d < 256
    → (word a b c d / 16777216 % 256 ≡ a)
      × (word a b c d / 65536 % 256 ≡ b)
      × (word a b c d / 256 % 256 ≡ c)
      × (word a b c d % 256 ≡ d)
four_bytes a b c d h i j k = omega arith

sixteen :
    (p : ℕ)
    → 16 + p
      ≡ suc (
          suc (suc (suc (suc (suc (suc (suc (suc (suc (suc (suc (suc (suc (suc (suc p)))))))))))))))
sixteen p = omega arith

reserialize :
    (bytes : List ℕ) (old : SomeIpHeader) (p : ℕ)
    → All (Below 256) bytes
    → rd4 bytes 4 ≡ 8 + p
    → 16 + p ≤ length bytes
    → serialize (reread bytes old p) ++ drop (16 + p) bytes ≡ bytes
unfolding serialize
reserialize
      (b0 ∷ b1 ∷ b2 ∷ b3 ∷ b4 ∷ b5 ∷ b6 ∷ b7 ∷ b8 ∷ b9 ∷ b10 ∷ b11 ∷ b12 ∷ b13 ∷ b14 ∷ b15 ∷ rest)
      old p a e l =
    let size : (8 + length (take p rest)) % 4294967296 ≡ word b4 b5 b6 b7 =
      omega (arith, length-take p rest) in
    let fields = four_bytes b4 b5 b6 b7 (omega arith) (omega arith) (omega arith) (omega arith) in
    rw (sixteen p, size)
      (cc (
        (two_bytes b0 b1 (omega arith) (omega arith)).0,
        (two_bytes b0 b1 (omega arith) (omega arith)).1,
        (two_bytes b2 b3 (omega arith) (omega arith)).0,
        (two_bytes b2 b3 (omega arith) (omega arith)).1,
        fields.0,
        fields.1,
        fields.2,
        fields.3,
        (two_bytes b8 b9 (omega arith) (omega arith)).0,
        (two_bytes b8 b9 (omega arith) (omega arith)).1,
        (two_bytes b10 b11 (omega arith) (omega arith)).0,
        (two_bytes b10 b11 (omega arith) (omega arith)).1,
        take-append-drop p rest,
      ))
reserialize _ old p a e l = absurd (omega arith)

-- A buffer that is read as a message is that message's serialization and whatever follows it, if the
-- buffer holds bytes and declares at least the eight header bytes that the length field counts.
pub serialize-deserialize :
    (bytes : List ℕ) (m old : SomeIpMessage)
    → All (Below 256) bytes
    → 8 ≤ rd4 bytes 4
    → deserialize bytes old ≡ parsed true m
    → serialize m ++ drop (16 + payload_len (rd4 bytes 4)) bytes ≡ bytes
serialize-deserialize bytes m old b h e =
    let (fits, shape) = parsed_shape bytes m old e in
    rw shape (reserialize bytes old.header (payload_len (rd4 bytes 4)) b (ground arith) fits)
