-- ===== src/VehicleSignal/Layout.antt =====
-- The layout of a datagram of the VehicleSignal event (include/ara/com/someip_proto.h), by the offsets
-- of its fields from the datagram's start, and what it carries.
use my_auto_sar_ap.Prelude.{
  ℕ, zero, suc, ◌+◌, ◌*◌, ◌%◌, ◌<◌, ◌≤◌, ◌≡◌, refl, ap, ◌∙◌, arith, Bool, true, false, ◌&&◌, not,
  inl, inr, Option-cases, List, Option, none, some, [], ◌∷◌, length, get_or, take, drop, nat_eq,
  leb, ltb, ◌||◌, if◌then◌else◌,
}
use my_auto_sar_ap.SomeIp.{rd2}
use my_auto_sar_ap.E2e.{e2e_crc8}
use my_auto_sar_ap.VehicleSignal.{
  VehicleSignalSample, early_return, crc_matches, raw_payload, to_sample,
}

abbrev pub byte : List ℕ → ℕ → ℕ
byte buf at = get_or buf at 0

-- The header is in network order, the payload's floats in the order of the sender's memory.
abbrev pub big_endian2 : List ℕ → ℕ → ℕ
big_endian2 buf at = byte buf at * 256 + byte buf (at + 1)

abbrev pub big_endian4 : List ℕ → ℕ → ℕ
big_endian4 buf at =
    byte buf at * 16777216 + byte buf (at + 1) * 65536 + byte buf (at + 2) * 256 + byte buf (at + 3)

abbrev pub little_endian4 : List ℕ → ℕ → ℕ
little_endian4 buf at =
    byte buf at + byte buf (at + 1) * 256 + byte buf (at + 2) * 65536 + byte buf (at + 3) * 16777216

-- A header and a payload are there; service 0x1001, event 0x8001, a notification; the length that the
-- header declares has room for the payload, and the datagram for the length, which is compared modulo
-- 2^32.
abbrev pub has_layout : List ℕ → Bool
has_layout buf =
    leb 36 (length buf)
    && nat_eq (big_endian2 buf 0) 0x1001
    && nat_eq (big_endian2 buf 2) 0x8001
    && nat_eq (byte buf 14) 2
    && leb 28 (big_endian4 buf 4)
    && leb ((8 + big_endian4 buf 4) % 4294967296) (length buf)

-- The checksum stands behind the 18 bytes of the payload that it covers.
abbrev pub has_checksum : List ℕ → Bool
has_checksum buf = nat_eq (byte buf 34) (e2e_crc8 (take 18 (drop 16 buf)))

abbrev pub fields : List ℕ → VehicleSignalSample
fields buf = record {
  vehicle_speed_kmh = little_endian4 buf 16;
  engine_rpm = little_endian4 buf 20;
  brake_pedal = not (nat_eq (byte buf 24) 0);
  steering_angle_deg = little_endian4 buf 25;
  door_status = byte buf 29;
  fuel_level_pct = little_endian4 buf 30;
  e2e_crc = byte buf 34;
  e2e_counter = byte buf 35;
  session_id = big_endian2 buf 10;
}

-- The specification: what a datagram carries.
abbrev pub reads : List ℕ → Option VehicleSignalSample
reads buf = if has_layout buf && has_checksum buf then some (fields buf) else none

get_or-take : (n i : ℕ) (xs : List ℕ) → i < n → get_or (take n xs) i 0 ≡ get_or xs i 0
get_or-take zero i xs h = absurd (omega arith)
get_or-take (suc n) i [] h = refl
get_or-take (suc n) zero (x ∷ xs) h = refl
get_or-take (suc n) (suc i) (x ∷ xs) h = get_or-take n i xs (omega arith)

get_or-drop : (n i : ℕ) (xs : List ℕ) → get_or (drop n xs) i 0 ≡ get_or xs (n + i) 0
get_or-drop zero i xs = ap (λ j. get_or xs j 0) (omega arith)
get_or-drop (suc n) i [] = refl
get_or-drop (suc n) i (x ∷ xs) =
    let index : suc (n + i) ≡ suc n + i = omega arith in
    get_or-drop n i xs ∙ ap (λ j. get_or (x ∷ xs) j 0) index

take-take : (n m : ℕ) (xs : List ℕ) → n ≤ m → take n (take m xs) ≡ take n xs
take-take zero m xs h = refl
take-take (suc n) zero xs h = absurd (omega arith)
take-take (suc n) (suc m) [] h = refl
take-take (suc n) (suc m) (x ∷ xs) h = ap (◌∷◌ x) (take-take n m xs (omega arith))

byte-raw : (buf : List ℕ) (i : ℕ) → i < 20 → get_or (raw_payload buf) i 0 ≡ byte buf (16 + i)
byte-raw buf i h = get_or-take 20 i (drop 16 buf) h ∙ get_or-drop 16 i buf

abbrev sample : ℕ → ℕ → Bool → ℕ → ℕ → ℕ → ℕ → ℕ → ℕ → VehicleSignalSample
sample v r brake a door f crc counter session = record {
  vehicle_speed_kmh = v;
  engine_rpm = r;
  brake_pedal = brake;
  steering_angle_deg = a;
  door_status = door;
  fuel_level_pct = f;
  e2e_crc = crc;
  e2e_counter = counter;
  session_id = session;
}

ext_sample :
    {v r a f v' r' a' f' door crc counter door' crc' counter' session : ℕ} {brake brake' : Bool}
    → v ≡ v'
    → r ≡ r'
    → brake ≡ brake'
    → a ≡ a'
    → door ≡ door'
    → f ≡ f'
    → crc ≡ crc'
    → counter ≡ counter'
    → sample v r brake a door f crc counter session
      ≡ sample v' r' brake' a' door' f' crc' counter' session
ext_sample hv hr hb ha hd hf hc hn = rw (hv, hr, hb, ha, hd, hf, hc, hn)

float-raw :
    (buf : List ℕ) (i : ℕ)
    → i < 17
    → get_or (raw_payload buf) i 0
        + get_or (raw_payload buf) (i + 1) 0 * 256
        + get_or (raw_payload buf) (i + 2) 0 * 65536
        + get_or (raw_payload buf) (i + 3) 0 * 16777216
      ≡ get_or buf (16 + i) 0
        + get_or buf (16 + (i + 1)) 0 * 256
        + get_or buf (16 + (i + 2)) 0 * 65536
        + get_or buf (16 + (i + 3)) 0 * 16777216
float-raw buf i h = omega (
  arith,
  byte-raw buf i (omega arith),
  byte-raw buf (i + 1) (omega arith),
  byte-raw buf (i + 2) (omega arith),
  byte-raw buf (i + 3) (omega arith),
)

pub to_sample-raw : (buf : List ℕ) → to_sample (raw_payload buf) (rd2 buf 10) ≡ fields buf
to_sample-raw buf =
    ext_sample (float-raw buf 0 (omega arith)) (float-raw buf 4 (omega arith))
      (ap (λ x. not (nat_eq x 0)) (byte-raw buf 8 (omega arith))) (float-raw buf 9 (omega arith))
      (byte-raw buf 13 (omega arith)) (float-raw buf 14 (omega arith))
      (byte-raw buf 18 (omega arith)) (byte-raw buf 19 (omega arith))

pub crc_matches-raw : (buf : List ℕ) → crc_matches (raw_payload buf) ≡ has_checksum buf
unfolding crc_matches
crc_matches-raw buf =
    rw (byte-raw buf 18 (omega arith), take-take 18 20 (drop 16 buf) (omega arith))

pub early_return-layout : (buf : List ℕ) → has_layout buf ≡ true → early_return buf ≡ none
unfolding early_return
early_return-layout buf h = ground arith

layout-early_return : (buf : List ℕ) → early_return buf ≡ none → ¬ (has_layout buf ≡ false)
unfolding early_return
layout-early_return buf e h = ground arith

pub early_return-other :
    (buf : List ℕ) → has_layout buf ≡ false → (accepted : Bool) × (early_return buf ≡ some accepted)
early_return-other buf h = elim (Option-cases (early_return buf)) [
  | inl e ↦ absurd (layout-early_return buf e h)
  | inr (accepted, e) ↦ (accepted, e)
]

-- The event, of whatever type and size.
abbrev pub is_event : List ℕ → Bool
is_event buf = nat_eq (big_endian2 buf 0) 0x1001 && nat_eq (big_endian2 buf 2) 0x8001

-- An error of the datagram, and not only another service's or event's.
abbrev pub is_refused : List ℕ → Bool
is_refused buf = ltb (length buf) 36 || (is_event buf && not (has_layout buf && has_checksum buf))

-- The layout and a wrong checksum.
abbrev pub is_broken : List ℕ → Bool
is_broken buf = has_layout buf && not (has_checksum buf)

pub early_return-refused :
    (buf : List ℕ) → has_layout buf ≡ false → early_return buf ≡ some (not (is_refused buf))
unfolding early_return
early_return-refused buf h = ground arith

pub has_layout-event :
    (buf : List ℕ) → has_layout buf ≡ true → (is_event buf ≡ true) × (ltb (length buf) 36 ≡ false)
has_layout-event buf h = ground arith
