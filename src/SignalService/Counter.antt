-- ===== src/SignalService/Counter.antt =====
-- What the counter check lets through (src/application/SwcVehicleSignal/VehicleSignalService.cpp).
use my_auto_sar_ap.Prelude.{
  ℕ, suc, ◌+◌, ◌<◌, ◌≤◌, ◌≡◌, ◌≢◌, ◌%◌, refl, sym, ap, subst, ◌∙◌, arith, true, false, Option, List,
  [], ◌∷◌, length,
}
use my_auto_sar_ap.SignalService.{
  SignalService, VehicleSignals, on_signal_received, validate_e2e, after_check, count_error, call,
}

-- The frames that arrive, all at the clock's reading `now`.
unfoldable pub receive_all : SignalService → List VehicleSignals → ℕ → SignalService
receive_all r [] now = r
receive_all r (s ∷ ss) now = receive_all (on_signal_received r s now) ss now

-- The counters of a sender that counts from `c`.
abbrev pub CountsFrom : ℕ → List VehicleSignals → Type 0
CountsFrom c [] = Unit
CountsFrom c (s ∷ ss) = (s.e2e_counter_value ≡ c % 256) × CountsFrom (suc c) ss

abbrev pub newest : VehicleSignals → List VehicleSignals → VehicleSignals
newest latest [] = latest
newest latest (s ∷ ss) = newest s ss

abbrev pub handed_over :
    Option ℕ → List VehicleSignals → List (ℕ × VehicleSignals) → List (ℕ × VehicleSignals)
handed_over cb [] t = t
handed_over cb (s ∷ ss) t = handed_over cb ss (call cb s t)

validate_next :
    (r : SignalService) (s : VehicleSignals)
    → s.e2e_counter_value ≡ (r.last_e2e_counter + 1) % 256
    → validate_e2e r s ≡ (record r { last_e2e_counter = s.e2e_counter_value }, true)
unfolding validate_e2e
validate_next r s e = ground arith

validate_other :
    (r : SignalService) (s : VehicleSignals)
    → r.last_e2e_counter ≢ 0
    → s.e2e_counter_value ≢ (r.last_e2e_counter + 1) % 256
    → validate_e2e r s ≡ (r, false)
unfolding validate_e2e
validate_other r s e f = ground arith

abbrev caught_up : SignalService → ℕ → List VehicleSignals → SignalService
caught_up r c ss = record r {
  last_e2e_counter = (c + length ss) % 256;
  latest_signals = newest r.latest_signals ss;
  trace = handed_over r.external_callback ss r.trace;
}

receive_counting :
    (r : SignalService) (c : ℕ) (ss : List VehicleSignals) (now : ℕ)
    → r.last_e2e_counter ≡ c % 256
    → CountsFrom (suc c) ss
    → receive_all r ss now ≡ caught_up r c ss
unfolding receive_all on_signal_received
receive_counting r c [] now e k = ap (λ n. record r { last_e2e_counter = n }) (omega (arith, e))
receive_counting r c (s ∷ ss) now e k =
    let r' : SignalService = record r {
      last_e2e_counter = s.e2e_counter_value;
      latest_signals = s;
      trace = call r.external_callback s r.trace;
    } in
    ap (λ q. receive_all (after_check q s now) ss now) (validate_next r s (ground arith))
    ∙ receive_counting r' (suc c) ss now k.0 k.1
    ∙ ap (λ n. record (caught_up r c (s ∷ ss)) { last_e2e_counter = n }) (omega arith)

-- A service that has missed no frame takes a sender's frames in order: each reaches the callback, the
-- newest one is kept, and no error is counted.
pub receive_all-CountsFrom :
    (r : SignalService) (ss : List VehicleSignals) (now : ℕ)
    → r.last_e2e_counter < 256
    → CountsFrom (r.last_e2e_counter + 1) ss
    → let after = receive_all r ss now in
      (after.latest_signals ≡ newest r.latest_signals ss)
      × (after.trace ≡ handed_over r.external_callback ss r.trace)
      × (after.last_e2e_counter ≡ (r.last_e2e_counter + length ss) % 256)
      × (after.e2e_error_count ≡ r.e2e_error_count)
receive_all-CountsFrom r ss now h k =
    rw
      (receive_counting r r.last_e2e_counter ss now (omega arith)
        (subst (λ c. CountsFrom c ss) (omega arith) k))
      (refl, refl, refl, refl)

-- A service that has the signals, the calls and the counter of `r`.
abbrev Unmoved : SignalService → ℕ → SignalService → Type 0
Unmoved r last after =
    (after.latest_signals ≡ r.latest_signals)
    × (after.trace ≡ r.trace)
    × (after.last_e2e_counter ≡ last)

refuse_all :
    (r : SignalService) (last c : ℕ) (ss : List VehicleSignals) (now : ℕ)
    → r.last_e2e_counter ≡ last
    → last ≢ 0
    → last + 1 < c
    → c + length ss ≤ last + 257
    → CountsFrom c ss
    → Unmoved r last (receive_all r ss now)
unfolding receive_all on_signal_received
refuse_all r last c [] now e nz above room k = (refl, refl, e)
refuse_all r last c (s ∷ ss) now e nz above room k =
    let r' = count_error r now in
    let (kept, silent, still) =
      refuse_all r' last (suc c) ss now e nz (omega arith) (omega arith) k.1 in
    let refused = validate_other r s (omega (arith, e, nz)) (omega (arith, e, k.0, above, room)) in
    subst (Unmoved r last) (sym (ap (λ q. receive_all (after_check q s now) ss now) refused))
      (kept, silent, still)

-- After one lost frame the next 255 frames of the sender are refused, in order though they are: the
-- signals that are kept and the callback's calls stay as they were. The service must have taken a frame
-- whose counter is not 0, which the proxy of the repository never hands over.
pub receive_all-lost :
    (r : SignalService) (ss : List VehicleSignals) (now : ℕ)
    → r.last_e2e_counter < 256
    → r.last_e2e_counter ≢ 0
    → length ss ≤ 255
    → CountsFrom (r.last_e2e_counter + 2) ss
    → let after = receive_all r ss now in
      (after.latest_signals ≡ r.latest_signals)
      × (after.trace ≡ r.trace)
      × (after.last_e2e_counter ≡ r.last_e2e_counter)
receive_all-lost r ss now h nz short k =
    refuse_all r r.last_e2e_counter (r.last_e2e_counter + 2) ss now refl nz (omega arith)
      (omega arith) k
