-- ===== src/VehicleSignal/Counters.antt =====
-- The counters of the receive loop (src/ara/com/vehicle_signal_proxy.cpp).
use my_auto_sar_ap.Prelude.{
  ℕ, ◌+◌, ◌<◌, ◌≤◌, ◌≡◌, inl, inr, refl, arith, Option, none, some, List, [], ◌∷◌, ◌++◌, length,
  leb, Bool-cases, Option-cases,
}
use my_auto_sar_ap.VehicleSignal.{
  VehicleSignalProxy, VehicleSignalEvent, VehicleSignalSample, push_sample, pop, is_subscribed,
  receive, parse_and_dispatch, check_and_push, early_return, crc_matches, count_packet,
  count_e2e_error, raw_payload, to_sample, call, u64,
}
use my_auto_sar_ap.SomeIp.{rd2}

unfoldable pub receive_all : VehicleSignalProxy → List (List ℕ) → Option VehicleSignalProxy
receive_all p [] = some p
receive_all p (buf ∷ bufs) = elim (receive p buf) [ none ↦ none | some q ↦ receive_all q bufs ]

pub pop_total :
    (q : List VehicleSignalSample)
    → 0 < length q
    → (r : List VehicleSignalSample) × (pop q ≡ some r)
pop_total [] h = elim h [ ]
pop_total (s ∷ q) h = (q, refl)

abbrev queued :
    VehicleSignalEvent → VehicleSignalSample → List VehicleSignalSample → VehicleSignalEvent
queued ev s q = record ev {
  sample_queue = q ++ s ∷ [];
  delivered = call ev.receive_handler s ev.delivered;
}

abbrev refuse : VehicleSignalProxy → VehicleSignalProxy
refuse p = record p { stats = record (p.stats) { parse_errors = u64 (p.stats.parse_errors + 1) } }

push_total :
    (ev : VehicleSignalEvent) (s : VehicleSignalSample)
    → 0 < ev.max_samples
    → (after : VehicleSignalEvent) × (push_sample ev s ≡ some after)
      × (after.max_samples ≡ ev.max_samples)
unfolding push_sample
push_total ev s h = elim (Bool-cases (is_subscribed ev.state)) [
  | inr idle ↦ (ev, rw idle, refl)
  | inl live ↦ elim (Bool-cases (leb ev.max_samples (length ev.sample_queue))) [
    | inr room ↦ (queued ev s ev.sample_queue, rw (live, room), refl)
    | inl full ↦
        let (r, e) = pop_total ev.sample_queue (ground arith) in
        (queued ev s r, rw (live, full, e), refl)
  ]
]

-- The counters after n datagrams.
pub record Counted (p : VehicleSignalProxy) (n : ℕ) : Type 0 where
  pub packets : p.stats.rx_packets ≡ n
  pub refused : p.stats.parse_errors ≤ n
  pub broken : p.stats.e2e_errors ≤ p.stats.parse_errors
  pub room : 0 < p.vehicle_signal.max_samples

receive-Counted :
    (p : VehicleSignalProxy) (buf : List ℕ) (n : ℕ)
    → n + 1 < 18446744073709551616
    → Counted p n
    → (q : VehicleSignalProxy) × (receive p buf ≡ some q) × Counted q (n + 1)
unfolding receive parse_and_dispatch check_and_push
receive-Counted p buf n small c = elim (Option-cases (early_return buf)) [
  | inr (accepted, e) ↦ elim (Bool-cases accepted) [
    | inl fine ↦ (count_packet p (length buf), ground arith, ground arith)
    | inr bad ↦
        (refuse (count_packet p (length buf)), rw (e, parse_and_dispatch, bad), ground arith)
  ]
  | inl e ↦ elim (Bool-cases (crc_matches (raw_payload buf))) [
    | inr broken ↦ (
      refuse (count_e2e_error (count_packet p (length buf))),
      rw (e, parse_and_dispatch, broken),
      ground arith,
    )
    | inl right ↦
        let (after, pushed, same) =
          push_total p.vehicle_signal (to_sample (raw_payload buf) (rd2 buf 10)) c.room in
        (
          record (count_packet p (length buf)) { vehicle_signal = after },
          rw (e, parse_and_dispatch, right, pushed),
          ground arith,
        )
  ]
]

receive_all-Counted :
    (p : VehicleSignalProxy) (n : ℕ) (bufs : List (List ℕ))
    → n + length bufs < 18446744073709551616
    → Counted p n
    → (q : VehicleSignalProxy) × (receive_all p bufs ≡ some q) × Counted q (n + length bufs)
unfolding receive_all
receive_all-Counted p n [] small c = (p, refl, ground arith)
receive_all-Counted p n (buf ∷ bufs) small c =
    let (q, e, d) = receive-Counted p buf n (omega arith) c in
    let (r, f, g) = receive_all-Counted q (n + 1) bufs (omega arith) d in
    (r, rw (e, receive_all) f, ground arith)

-- With room for a sample, the loop takes any datagrams to an end, and after fewer than 2^64 of them
-- it has counted each once; the refused ones are among them, and the E2E errors among those.
pub receive_all_counts :
    (p : VehicleSignalProxy) (bufs : List (List ℕ))
    → Counted p 0
    → length bufs < 18446744073709551616
    → (q : VehicleSignalProxy) × (receive_all p bufs ≡ some q) × Counted q (length bufs)
receive_all_counts p bufs c small =
    let (q, e, d) = receive_all-Counted p 0 bufs (omega arith) c in (q, e, ground arith)
