-- ===== src/Consumer/EndToEnd.antt =====
-- From datagrams to printed samples (src/ara/com/vehicle_signal_proxy.cpp,
-- src/ara/app/vehicle_signal_swc.cpp).
use my_auto_sar_ap.Prelude.{
  ℕ, ◌%◌, ◌≡◌, refl, sym, ap, subst, ◌∙◌, arith, Bool, ◌&&◌, true, inl, inr, nat_eq, Bool-cases,
  List, if◌then◌else◌, Option, none, some, [], ◌∷◌, length,
}
use my_auto_sar_ap.Log.{Logger}
use my_auto_sar_ap.Process.{Sockets, Process, Line, ap_signal_json, write, create_and_write}
use my_auto_sar_ap.VehicleSignal.{
  VehicleSignalProxy, VehicleSignalSample, receive, early_return, crc_matches, raw_payload,
  count_packet,
}
use my_auto_sar_ap.VehicleSignal.Proxy.{
  take_datagram, print_raw, log_mismatch, with_process, rx_pass, buf_size, when_ready, wait_for,
}
use my_auto_sar_ap.Consumer.{
  VehicleSignalSwc, call_back, receive_pass, pass_with, emptied, handle_sample, keep_sample,
  print_sample,
}
use my_auto_sar_ap.Consumer.Decode.{IsReady, calls_of, decode, decode-reads, receive-Took}
use my_auto_sar_ap.VehicleSignal.Layout.{reads}

-- The samples of the JSON lines, newest first.
abbrev pub json_of : List Line → List VehicleSignalSample
json_of [] = []
json_of (ap_signal_json s ∷ lines) = s ∷ json_of lines
json_of (_ ∷ lines) = json_of lines

-- The consumer keeps the values of the newest sample.
abbrev pub Shows : VehicleSignalSwc → List VehicleSignalSample → Type 0
Shows c [] = Unit
Shows c (s ∷ older) =
    (c.last_speed_kmh ≡ s.vehicle_speed_kmh)
    × (c.last_rpm ≡ s.engine_rpm)
    × (c.last_fuel_pct ≡ s.fuel_level_pct)
    × (c.last_e2e_counter ≡ s.e2e_counter)

same-Shows :
    (c : VehicleSignalSwc) (o : Option VehicleSignalProxy) (xs : List VehicleSignalSample)
    → Shows c xs
    → Shows (record c { proxy = o }) xs
same-Shows c o [] s = tt
same-Shows c o (x ∷ xs) s = s

abbrev pub with_newest :
    Option VehicleSignalSample → List VehicleSignalSample → List VehicleSignalSample
with_newest none older = older
with_newest (some s) older = s ∷ older

-- What datagrams carry, the newest first, in front of older samples.
abbrev pub read_all : List (List ℕ) → List VehicleSignalSample → List VehicleSignalSample
read_all [] older = older
read_all (buf ∷ bufs) older = read_all bufs (with_newest (reads buf) older)

module _ {S : Sockets} where
  abbrev take_with :
      Process S
      → VehicleSignalSwc
      → Option VehicleSignalProxy
      → List ℕ
      → Option (Process S × VehicleSignalSwc)
  take_with w c none buf = some (w, c)
  take_with w c (some p) buf = call_back c (take_datagram w p (some buf))

  -- A pass of the receive thread in which `recv` gives the datagram, but for the socket.
  unfoldable pub take_in :
      Process S → VehicleSignalSwc → List ℕ → Option (Process S × VehicleSignalSwc)
  take_in w c buf = take_with w c c.proxy buf

  unfoldable pub take_all :
      Process S → VehicleSignalSwc → List (List ℕ) → Option (Process S × VehicleSignalSwc)
  take_all w c [] = some (w, c)
  take_all w c (buf ∷ bufs) = elim (take_in w c buf) [
    | none ↦ none
    | some (w', c') ↦ take_all w' c' bufs
  ]

  raw-json : (w : Process S) (n total : ℕ) → json_of (print_raw w n total).output ≡ json_of w.output
  raw-json w n total = ground arith

  mismatch-json :
      (w : Process S) (buf : List ℕ) (o : Option Bool)
      → json_of (log_mismatch w buf o).output ≡ json_of w.output
  unfolding create_and_write write
  mismatch-json w buf (some b) = refl
  mismatch-json w buf none = elim (Bool-cases (crc_matches (raw_payload buf))) [
    | inl fits ↦ rw fits
    | inr broken ↦ rw broken
  ]

  print_sample-json :
      (w : Process S) (logger : Logger) (sample : VehicleSignalSample) (n : ℕ)
      → json_of (print_sample w logger sample n).output ≡ sample ∷ json_of w.output
  unfolding print_sample write
  print_sample-json w logger sample n = elim (Bool-cases (nat_eq (n % 10) 1)) [
    | inl first ↦ elim (Bool-cases (nat_eq (n % 100) 1)) [
      | inl rare ↦ rw (first, rare) refl
      | inr often ↦ rw (first, often) refl
    ]
    | inr later ↦ elim (Bool-cases (nat_eq (n % 100) 1)) [
      | inl rare ↦ rw (later, rare) refl
      | inr often ↦ rw (later, often) refl
    ]
  ]

  -- What a datagram leads to.
  record Showed (older : List VehicleSignalSample) (r : Option (Process S × VehicleSignalSwc))
      : Type 0 where
    process : Process S
    swc : VehicleSignalSwc
    proxy : VehicleSignalProxy
    result : r ≡ some (process, swc)
    held : swc.proxy ≡ some proxy
    ready : IsReady proxy
    json : json_of process.output ≡ older
    shows : Shows swc older

  call_back-Showed :
      (w : Process S) (c : VehicleSignalSwc) (q : VehicleSignalProxy)
      (o : Option VehicleSignalSample)
      → q.vehicle_signal.delivered ≡ calls_of o
      → IsReady (emptied q)
      → Shows c (json_of w.output)
      → Showed (with_newest o (json_of w.output)) (call_back c (some (w, q)))
  unfolding handle_sample keep_sample
  call_back-Showed w c q none calls ready shows = record {
    process = w;
    swc = record c { proxy = some (emptied q) };
    proxy = emptied q;
    result = rw calls;
    held = refl;
    ready = ready;
    json = refl;
    shows = same-Shows c (some (emptied q)) (json_of w.output) shows;
  }
  call_back-Showed w c q (some s) calls ready shows =
      let c1 : VehicleSignalSwc = record c { proxy = some (emptied q) } in
      record {
        process = (handle_sample w c1 s).0;
        swc = (handle_sample w c1 s).1;
        proxy = emptied q;
        result = rw calls;
        held = refl;
        ready = ready;
        json = print_sample-json w _ s _;
        shows = (refl, refl, refl, refl);
      }

  datagram-Showed :
      (w : Process S) (c : VehicleSignalSwc) (p : VehicleSignalProxy) (buf : List ℕ)
      → IsReady p
      → Shows c (json_of w.output)
      → Showed (with_newest (decode buf) (json_of w.output)) (take_with w c (some p) buf)
  unfolding take_datagram receive
  datagram-Showed w c p buf r shows =
      let counted = count_packet p (length buf) in
      let w1 = print_raw w (length buf) counted.stats.rx_packets in
      let w2 = log_mismatch w1 buf (early_return buf) in
      let t = receive-Took p buf r in
      let same : json_of w2.output ≡ json_of w.output =
        mismatch-json w1 buf (early_return buf)
        ∙ raw-json w (length buf) counted.stats.rx_packets in
      subst (λ older. Showed (with_newest (decode buf) older) (take_with w c (some p) buf)) same
        (subst
          (λ o.
            Showed (with_newest (decode buf) (json_of w2.output)) (call_back c (with_process w2 o)))
          (sym t.result)
          (call_back-Showed w2 c t.proxy (decode buf) t.calls t.ready
            (subst (Shows c) (sym same) shows)))

  take_in-Showed :
      (w : Process S) (c : VehicleSignalSwc) (p : VehicleSignalProxy) (buf : List ℕ)
      → c.proxy ≡ some p
      → IsReady p
      → Shows c (json_of w.output)
      → Showed (with_newest (reads buf) (json_of w.output)) (take_in w c buf)
  unfolding take_in
  take_in-Showed w c p buf has r shows =
      subst (λ o. Showed (with_newest o (json_of w.output)) (take_in w c buf)) (decode-reads buf)
        (subst (λ o. Showed (with_newest (decode buf) (json_of w.output)) (take_with w c o buf))
          (sym has) (datagram-Showed w c p buf r shows))

  -- A pass of the receive thread for which the socket is ready and `recv` gives a datagram.
  pub receive_pass-take_in :
      (w : Process S) (c : VehicleSignalSwc) (p : VehicleSignalProxy) (fd : ℕ) (buf : List ℕ)
      → c.proxy ≡ some p
      → (p.running && p.rx_thread) ≡ true
      → p.sock_fd ≡ some fd
      → (S.select w.os fd).1 ≡ true
      → (S.receive (S.select w.os fd).0 fd buf_size).1 ≡ some buf
      → receive_pass w c
        ≡ take_in (record w { os = (S.receive (S.select w.os fd).0 fd buf_size).0 }) c buf
  unfolding receive_pass take_in rx_pass
  receive_pass-take_in w c p fd buf has live socket ready got =
      let w1 : Process S = record w { os = (S.select w.os fd).0 } in
      let w2 : Process S = record w { os = (S.receive (S.select w.os fd).0 fd buf_size).0 } in
      let rx : rx_pass w p ≡ take_datagram w2 p (some buf) =
        ap (λ b. if b then wait_for w p p.sock_fd else some (w, p)) live
        ∙ ap (wait_for w p) socket
        ∙ ap (when_ready w1 p fd) ready
        ∙ ap (take_datagram w2 p) got in
      ap (pass_with w c) has ∙ ap (call_back c) rx ∙ sym (ap (λ o. take_with w2 c o buf) has)

  -- The consumer that has subscribed prints one JSON line for each datagram that has the layout of a
  -- notification of the event and the right checksum over the payload's first 18 bytes, with the fields
  -- at their offsets and in the order of arrival, and none for any other datagram; it keeps the values
  -- of the last one. No datagram is undefined. The lists have the newest sample first.
  pub take_all-read_all :
      (w : Process S) (c : VehicleSignalSwc) (p : VehicleSignalProxy) (bufs : List (List ℕ))
      → c.proxy ≡ some p
      → IsReady p
      → Shows c (json_of w.output)
      → (w' : Process S) × (c' : VehicleSignalSwc) × (take_all w c bufs ≡ some (w', c'))
        × (json_of w'.output ≡ read_all bufs (json_of w.output))
        × Shows c' (read_all bufs (json_of w.output))
  unfolding take_all
  take_all-read_all w c p [] has r shows = (w, c, refl, refl, shows)
  take_all-read_all w c p (buf ∷ bufs) has r shows =
      let s = take_in-Showed w c p buf has r shows in
      let (w', c', e, json, shows') =
        take_all-read_all s.process s.swc s.proxy bufs s.held s.ready
          (subst (Shows s.swc) (sym s.json) s.shows) in
      (
        w',
        c',
        rw (s.result, take_all) e,
        json ∙ ap (read_all bufs) s.json,
        subst (λ older. Shows c' (read_all bufs older)) s.json shows',
      )
