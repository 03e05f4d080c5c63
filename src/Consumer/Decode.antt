-- ===== src/Consumer/Decode.antt =====
-- The sample that the proxy makes of a datagram (src/ara/com/vehicle_signal_proxy.cpp).
use my_auto_sar_ap.Prelude.{
  ℕ, if◌then◌else◌, ◌<◌, ◌≡◌, refl, sym, ap, ◌∙◌, arith, Bool, true, false, inl, inr, Bool-cases,
  Option-cases, List, Option, none, some, [], ◌∷◌, length,
}
use my_auto_sar_ap.SomeIp.{rd2}
use my_auto_sar_ap.VehicleSignal.{
  VehicleSignalProxy, VehicleSignalSample, subscribed, receive, parse_and_dispatch, check_and_push,
  early_return, crc_matches, raw_payload, to_sample, count_packet, count_e2e_error, call,
}
use my_auto_sar_ap.VehicleSignal.Layout.{
  reads, fields, has_layout, has_checksum, early_return-layout, early_return-other, crc_matches-raw,
  to_sample-raw,
}
use my_auto_sar_ap.VehicleSignal.Effects.{push-Handed, refused}
use my_auto_sar_ap.Consumer.{handler, emptied}

abbrev pub carried : Option Bool → Bool → VehicleSignalSample → Option VehicleSignalSample
carried (some accepted) right s = none
carried none true s = some s
carried none false s = none

-- The sample that the proxy makes of a datagram, by its own tests.
abbrev pub decode : List ℕ → Option VehicleSignalSample
decode buf =
    carried (early_return buf) (crc_matches (raw_payload buf))
      (to_sample (raw_payload buf) (rd2 buf 10))

abbrev pub calls_of : Option VehicleSignalSample → List (ℕ × VehicleSignalSample)
calls_of none = []
calls_of (some s) = (handler, s) ∷ []

-- A proxy that the consumer has subscribed, with no call to hand over.
pub record IsReady (p : VehicleSignalProxy) : Type 0 where
  pub room : 0 < p.vehicle_signal.max_samples
  pub state : p.vehicle_signal.state ≡ subscribed
  pub handles : p.vehicle_signal.receive_handler ≡ some handler
  pub calls : p.vehicle_signal.delivered ≡ []

-- The proxy after a datagram.
pub record Took (buf : List ℕ) (r : Option VehicleSignalProxy) : Type 0 where
  pub proxy : VehicleSignalProxy
  pub result : r ≡ some proxy
  pub calls : proxy.vehicle_signal.delivered ≡ calls_of (decode buf)
  pub ready : IsReady (emptied proxy)

pub IsReady-emptied :
    (p q : VehicleSignalProxy)
    → q.vehicle_signal.max_samples ≡ p.vehicle_signal.max_samples
    → q.vehicle_signal.state ≡ p.vehicle_signal.state
    → q.vehicle_signal.receive_handler ≡ p.vehicle_signal.receive_handler
    → IsReady p
    → IsReady (emptied q)
IsReady-emptied p q room state handles r = record {
  room = omega (arith, room, r.room);
  state = state ∙ r.state;
  handles = handles ∙ r.handles;
  calls = refl;
}

pub receive-Took : (p : VehicleSignalProxy) (buf : List ℕ) → IsReady p → Took buf (receive p buf)
unfolding receive parse_and_dispatch check_and_push
receive-Took p buf r =
    let counted = count_packet p (length buf) in
    elim (Option-cases (early_return buf)) [
      | inr (true, e) ↦ record {
        proxy = counted;
        result = rw (e, parse_and_dispatch);
        calls = r.calls ∙ rw e;
        ready = IsReady-emptied p counted refl refl refl r;
      }
      | inr (false, e) ↦ record {
        proxy = refused counted;
        result = rw (e, parse_and_dispatch);
        calls = r.calls ∙ rw e;
        ready = IsReady-emptied p (refused counted) refl refl refl r;
      }
      | inl e ↦ elim (Bool-cases (crc_matches (raw_payload buf))) [
        | inr broken ↦ record {
          proxy = refused (count_e2e_error counted);
          result = rw (e, parse_and_dispatch, broken);
          calls = r.calls ∙ rw (e, broken);
          ready = IsReady-emptied p (refused (count_e2e_error counted)) refl refl refl r;
        }
        | inl right ↦
            let s = to_sample (raw_payload buf) (rd2 buf 10) in
            let (after, pushed, same, handed) = push-Handed p.vehicle_signal s r.room in
            let q : VehicleSignalProxy = record counted { vehicle_signal = after } in
            record {
              proxy = q;
              result = rw (e, parse_and_dispatch, right, pushed);
              calls = elim handed [
                | inl (_, idle) ↦ absurd (ground (arith, r.state))
                | inr (calls, _) ↦
                    calls
                    ∙ ap (λ h. call h s p.vehicle_signal.delivered) r.handles
                    ∙ ap (λ t. (handler, s) ∷ t) r.calls
                    ∙ ap (λ b. calls_of (carried none b s)) (sym right)
                    ∙ ap (λ o. calls_of (carried o (crc_matches (raw_payload buf)) s)) (sym e)
              ];
              ready = IsReady-emptied p q same.room same.state same.handler r;
            }
      ]
    ]

carried_if :
    (right : Bool) (s : VehicleSignalSample)
    → carried none right s ≡ (if right then some s else none)
carried_if true s = refl
carried_if false s = refl

-- The proxy's own tests and reads take what the datagram's layout says.
pub decode-reads : (buf : List ℕ) → decode buf ≡ reads buf
decode-reads buf = elim (Bool-cases (has_layout buf)) [
  | inl layout ↦
      rw (early_return-layout buf layout, crc_matches-raw buf, to_sample-raw buf, layout)
        (carried_if (has_checksum buf) (fields buf))
  | inr other ↦ let (accepted, e) = early_return-other buf other in rw (e, other)
]
