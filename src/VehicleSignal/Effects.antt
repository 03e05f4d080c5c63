-- ===== src/VehicleSignal/Effects.antt =====
-- What a datagram changes in the proxy (src/ara/com/vehicle_signal_proxy.cpp).
use my_auto_sar_ap.Prelude.{
  ℕ, ◌+◌, ◌<◌, ◌≡◌, ◌⊎◌, inl, inr, refl, arith, true, false, some, List, [], ◌∷◌, ◌++◌, length, leb,
  Bool-cases, Option-cases,
}
use my_auto_sar_ap.VehicleSignal.{
  VehicleSignalProxy, VehicleSignalEvent, VehicleSignalSample, push_sample, is_subscribed, receive,
  parse_and_dispatch, check_and_push, early_return, crc_matches, count_packet, count_e2e_error,
  raw_payload, to_sample, call, u64,
}
use my_auto_sar_ap.VehicleSignal.Counters.{pop_total}
use my_auto_sar_ap.SomeIp.{rd2}

-- The calls of the handler after a push: one more, or the same if the event is not subscribed.
abbrev pub Handed : VehicleSignalEvent → VehicleSignalSample → VehicleSignalEvent → Type 0
Handed ev s after =
    ((after.delivered ≡ ev.delivered) × (is_subscribed ev.state ≡ false))
    ⊎ ((after.delivered ≡ call ev.receive_handler s ev.delivered) × (is_subscribed ev.state ≡ true))

-- What a push leaves of the subscription.
pub record SameSubscription (ev after : VehicleSignalEvent) : Type 0 where
  pub room : after.max_samples ≡ ev.max_samples
  pub state : after.state ≡ ev.state
  pub handler : after.receive_handler ≡ ev.receive_handler

same_subscription : (ev : VehicleSignalEvent) → SameSubscription ev ev
same_subscription ev = record { room = refl; state = refl; handler = refl }

pub push-Handed :
    (ev : VehicleSignalEvent) (s : VehicleSignalSample)
    → 0 < ev.max_samples
    → (after : VehicleSignalEvent) × (push_sample ev s ≡ some after)
      × SameSubscription ev after
      × Handed ev s after
unfolding push_sample
push-Handed ev s h = elim (Bool-cases (is_subscribed ev.state)) [
  | inr idle ↦ (ev, rw idle, same_subscription ev, inl (refl, idle))
  | inl live ↦ elim (Bool-cases (leb ev.max_samples (length ev.sample_queue))) [
    | inr room ↦ (
      record ev {
        sample_queue = ev.sample_queue ++ s ∷ [];
        delivered = call ev.receive_handler s ev.delivered;
      },
      rw (live, room),
      record { room = refl; state = refl; handler = refl },
      inr (refl, live),
    )
    | inl full ↦
        let (r, e) = pop_total ev.sample_queue (ground arith) in
        (
          record ev {
            sample_queue = r ++ s ∷ [];
            delivered = call ev.receive_handler s ev.delivered;
          },
          rw (live, full, e),
          record { room = refl; state = refl; handler = refl },
          inr (refl, live),
        )
  ]
]

-- The calls and the count of refused datagrams: a call and the same count, or no call and at most one
-- more refused datagram. A checksum that does not fit is refused.
abbrev pub Result : VehicleSignalProxy → VehicleSignalProxy → Type 0
Result p q =
    ((s : VehicleSignalSample) × Handed p.vehicle_signal s q.vehicle_signal
      × (q.stats.parse_errors ≡ p.stats.parse_errors)
      × (q.stats.e2e_errors ≡ p.stats.e2e_errors))
    ⊎ ((q.vehicle_signal.delivered ≡ p.vehicle_signal.delivered)
        × (((q.stats.parse_errors ≡ p.stats.parse_errors)
              × (q.stats.e2e_errors ≡ p.stats.e2e_errors))
            ⊎ ((q.stats.parse_errors ≡ u64 (p.stats.parse_errors + 1))
                × ((q.stats.e2e_errors ≡ p.stats.e2e_errors)
                    ⊎ (q.stats.e2e_errors ≡ u64 (p.stats.e2e_errors + 1))))))

pub record Effect (p : VehicleSignalProxy) (size : ℕ) (q : VehicleSignalProxy) : Type 0 where
  pub socket : q.sock_fd ≡ p.sock_fd
  pub thread : q.rx_thread ≡ p.rx_thread
  pub running : q.running ≡ p.running
  pub subscription : SameSubscription p.vehicle_signal q.vehicle_signal
  pub packets : q.stats.rx_packets ≡ u64 (p.stats.rx_packets + 1)
  pub bytes : q.stats.rx_bytes ≡ u64 (p.stats.rx_bytes + size)
  pub result : Result p q

abbrev pub refused : VehicleSignalProxy → VehicleSignalProxy
refused p = record p { stats = record (p.stats) { parse_errors = u64 (p.stats.parse_errors + 1) } }

-- With room for a sample in the queue, no datagram is undefined.
pub receive-Effect :
    (p : VehicleSignalProxy) (buf : List ℕ)
    → 0 < p.vehicle_signal.max_samples
    → (q : VehicleSignalProxy) × (receive p buf ≡ some q) × Effect p (length buf) q
unfolding receive parse_and_dispatch check_and_push
receive-Effect p buf room =
    let counted = count_packet p (length buf) in
    let same = same_subscription p.vehicle_signal in
    elim (Option-cases (early_return buf)) [
      | inr (accepted, e) ↦ elim (Bool-cases accepted) [
        | inl fine ↦ (
          counted,
          rw (e, parse_and_dispatch, fine),
          record {
            socket = refl;
            thread = refl;
            running = refl;
            subscription = same;
            packets = refl;
            bytes = refl;
            result = inr (refl, inl (refl, refl));
          },
        )
        | inr bad ↦ (
          refused counted,
          rw (e, parse_and_dispatch, bad),
          record {
            socket = refl;
            thread = refl;
            running = refl;
            subscription = same;
            packets = refl;
            bytes = refl;
            result = inr (refl, inr (refl, inl refl));
          },
        )
      ]
      | inl e ↦ elim (Bool-cases (crc_matches (raw_payload buf))) [
        | inr broken ↦ (
          refused (count_e2e_error counted),
          rw (e, parse_and_dispatch, broken),
          record {
            socket = refl;
            thread = refl;
            running = refl;
            subscription = same;
            packets = refl;
            bytes = refl;
            result = inr (refl, inr (refl, inr refl));
          },
        )
        | inl right ↦
            let s = to_sample (raw_payload buf) (rd2 buf 10) in
            let (after, pushed, kept, handed) = push-Handed p.vehicle_signal s room in
            (
              record counted { vehicle_signal = after },
              rw (e, parse_and_dispatch, right, pushed),
              record {
                socket = refl;
                thread = refl;
                running = refl;
                subscription = kept;
                packets = refl;
                bytes = refl;
                result = inl (s, handed, refl, refl);
              },
            )
      ]
    ]
