-- ===== src/VehicleSignal/Totals.antt =====
-- What the counters of the receive loop count, by the layout of the datagrams
-- (src/ara/com/vehicle_signal_proxy.cpp).
use my_auto_sar_ap.Prelude.{
  ℕ, ◌+◌, ◌<◌, ◌≡◌, refl, sym, subst, ◌∙◌, arith, Bool, true, false, inl, inr, Bool-cases, List,
  some, [], ◌∷◌, length, if◌then◌else◌,
}
use my_auto_sar_ap.SomeIp.{rd2}
use my_auto_sar_ap.VehicleSignal.{
  VehicleSignalProxy, receive, parse_and_dispatch, check_and_push, raw_payload, to_sample,
  count_packet, count_e2e_error, u64,
}
use my_auto_sar_ap.VehicleSignal.Layout.{
  has_layout, has_checksum, is_refused, is_broken, has_layout-event, early_return-layout,
  early_return-refused, crc_matches-raw,
}
use my_auto_sar_ap.VehicleSignal.Effects.{push-Handed, refused}
use my_auto_sar_ap.VehicleSignal.Counters.{receive_all}

abbrev one : Bool → ℕ
one test = if test then 1 else 0

abbrev pub count : (List ℕ → Bool) → List (List ℕ) → ℕ
count test [] = 0
count test (buf ∷ bufs) = one (test buf) + count test bufs

abbrev pub total_size : List (List ℕ) → ℕ
total_size [] = 0
total_size (buf ∷ bufs) = length buf + total_size bufs

-- The counters before and after, with what they have counted.
record Adds (p : VehicleSignalProxy) (a b c d : ℕ) (q : VehicleSignalProxy) : Type 0 where
  packets : q.stats.rx_packets ≡ u64 (p.stats.rx_packets + a)
  bytes : q.stats.rx_bytes ≡ u64 (p.stats.rx_bytes + b)
  refusals : q.stats.parse_errors ≡ u64 (p.stats.parse_errors + c)
  broken : q.stats.e2e_errors ≡ u64 (p.stats.e2e_errors + d)
  room : q.vehicle_signal.max_samples ≡ p.vehicle_signal.max_samples

-- The counters are words of 64 bits.
pub record IsWords (p : VehicleSignalProxy) : Type 0 where
  pub packets : p.stats.rx_packets < 18446744073709551616
  pub bytes : p.stats.rx_bytes < 18446744073709551616
  pub refusals : p.stats.parse_errors < 18446744073709551616
  pub broken : p.stats.e2e_errors < 18446744073709551616

Adds-trans :
    (p q r : VehicleSignalProxy) (a b c d a' b' c' d' : ℕ)
    → Adds p a b c d q
    → Adds q a' b' c' d' r
    → Adds p (a + a') (b + b') (c + c') (d + d') r
Adds-trans p q r a b c d a' b' c' d' s t = record {
  packets = omega (arith, s.packets, t.packets);
  bytes = omega (arith, s.bytes, t.bytes);
  refusals = omega (arith, s.refusals, t.refusals);
  broken = omega (arith, s.broken, t.broken);
  room = t.room ∙ s.room;
}

Adds-IsWords : (p q : VehicleSignalProxy) (a b c d : ℕ) → Adds p a b c d q → IsWords q
Adds-IsWords p q a b c d s = record {
  packets = omega (arith, s.packets);
  bytes = omega (arith, s.bytes);
  refusals = omega (arith, s.refusals);
  broken = omega (arith, s.broken);
}

with_flags :
    (p : VehicleSignalProxy) (buf : List ℕ) (q : VehicleSignalProxy) (x y : Bool)
    → is_refused buf ≡ x
    → is_broken buf ≡ y
    → Adds p 1 (length buf) (one x) (one y) q
    → Adds p 1 (length buf) (one (is_refused buf)) (one (is_broken buf)) q
with_flags p buf q x y e f a =
    subst (λ b. Adds p 1 (length buf) (one b) (one (is_broken buf)) q) (sym e)
      (subst (λ b. Adds p 1 (length buf) (one x) (one b) q) (sym f) a)

right-refused :
    (buf : List ℕ) → has_layout buf ≡ true → has_checksum buf ≡ true → is_refused buf ≡ false
right-refused buf layout right =
    let (event, long) = has_layout-event buf layout in rw long (rw event (rw layout (rw right)))

wrong-refused :
    (buf : List ℕ) → has_layout buf ≡ true → has_checksum buf ≡ false → is_refused buf ≡ true
wrong-refused buf layout wrong =
    let (event, long) = has_layout-event buf layout in rw long (rw event (rw layout (rw wrong)))

receive-Adds :
    (p : VehicleSignalProxy) (buf : List ℕ)
    → IsWords p
    → 0 < p.vehicle_signal.max_samples
    → (q : VehicleSignalProxy) × (receive p buf ≡ some q)
      × Adds p 1 (length buf) (one (is_refused buf)) (one (is_broken buf)) q
unfolding receive parse_and_dispatch check_and_push
receive-Adds p buf w room =
    let counted = count_packet p (length buf) in
    elim (Bool-cases (has_layout buf)) [
      | inr other ↦
          let e = early_return-refused buf other in
          elim (Bool-cases (is_refused buf)) [
            | inl bad ↦ (
              refused counted,
              rw (e, parse_and_dispatch, bad),
              with_flags p buf _ true false bad (rw other) (record {
                packets = refl;
                bytes = refl;
                refusals = refl;
                broken = omega (arith, w.broken);
                room = refl;
              }),
            )
            | inr fine ↦ (
              counted,
              rw (e, parse_and_dispatch, fine),
              with_flags p buf _ false false fine (rw other) (record {
                packets = refl;
                bytes = refl;
                refusals = omega (arith, w.refusals);
                broken = omega (arith, w.broken);
                room = refl;
              }),
            )
          ]
      | inl layout ↦
          let e = early_return-layout buf layout in
          elim (Bool-cases (has_checksum buf)) [
            | inr wrong ↦ (
              refused (count_e2e_error counted),
              rw (e, parse_and_dispatch, crc_matches-raw buf, wrong),
              with_flags p buf _ true true (wrong-refused buf layout wrong) (rw layout (rw wrong))
                  (record {
                    packets = refl;
                    bytes = refl;
                    refusals = refl;
                    broken = refl;
                    room = refl;
                  }),
            )
            | inl right ↦
                let s = to_sample (raw_payload buf) (rd2 buf 10) in
                let (after, pushed, same, _) = push-Handed p.vehicle_signal s room in
                (
                  record counted { vehicle_signal = after },
                  rw (e, parse_and_dispatch, crc_matches-raw buf, right, pushed),
                  with_flags p buf _ false false (right-refused buf layout right)
                      (rw layout (rw right))
                      (record {
                        packets = refl;
                        bytes = refl;
                        refusals = omega (arith, w.refusals);
                        broken = omega (arith, w.broken);
                        room = same.room;
                      }),
                )
          ]
    ]

-- What the loop has counted.
pub record Totals (p : VehicleSignalProxy) (bufs : List (List ℕ)) (q : VehicleSignalProxy)
    : Type 0 where
  pub packets : q.stats.rx_packets ≡ u64 (p.stats.rx_packets + length bufs)
  pub bytes : q.stats.rx_bytes ≡ u64 (p.stats.rx_bytes + total_size bufs)
  pub refusals : q.stats.parse_errors ≡ u64 (p.stats.parse_errors + count is_refused bufs)
  pub broken : q.stats.e2e_errors ≡ u64 (p.stats.e2e_errors + count is_broken bufs)

receive_all-Adds :
    (p : VehicleSignalProxy) (bufs : List (List ℕ))
    → IsWords p
    → 0 < p.vehicle_signal.max_samples
    → (q : VehicleSignalProxy) × (receive_all p bufs ≡ some q)
      × Adds p (length bufs) (total_size bufs) (count is_refused bufs) (count is_broken bufs) q
unfolding receive_all
receive_all-Adds p [] w room = (
  p,
  refl,
  record {
    packets = omega (arith, w.packets);
    bytes = omega (arith, w.bytes);
    refusals = omega (arith, w.refusals);
    broken = omega (arith, w.broken);
    room = refl;
  },
)
receive_all-Adds p (buf ∷ bufs) w room =
    let (q, e, first) = receive-Adds p buf w room in
    let (r, f, rest) =
      receive_all-Adds q bufs (Adds-IsWords p q _ _ _ _ first) (omega (arith, room, first.room)) in
    let both = Adds-trans p q r _ _ _ _ _ _ _ _ first rest in
    (
      r,
      rw (e, receive_all) f,
      record {
        packets = omega (arith, both.packets);
        bytes = both.bytes;
        refusals = both.refusals;
        broken = both.broken;
        room = both.room;
      },
    )

-- With room for a sample, the receive loop takes any datagrams that `recv` gives it to an end, and its
-- 64-bit counters then have counted, each once and modulo 2^64: the datagrams and their bytes; as E2E errors the datagrams with
-- the layout of a notification of the event and a wrong checksum; and as parse errors those, the datagrams
-- of the event that have not this layout, and the datagrams shorter than 36 bytes. Datagrams of other
-- services and events, if they are not shorter, are no errors.
pub receive_all-Totals :
    (p : VehicleSignalProxy) (bufs : List (List ℕ))
    → IsWords p
    → 0 < p.vehicle_signal.max_samples
    → (q : VehicleSignalProxy) × (receive_all p bufs ≡ some q) × Totals p bufs q
receive_all-Totals p bufs w room =
    let (q, e, a) = receive_all-Adds p bufs w room in
    (
      q,
      e,
      record { packets = a.packets; bytes = a.bytes; refusals = a.refusals; broken = a.broken },
    )
