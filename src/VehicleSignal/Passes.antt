-- ===== src/VehicleSignal/Passes.antt =====
-- A pass of the receive thread (src/ara/com/vehicle_signal_proxy.cpp).
use my_auto_sar_ap.Prelude.{
  ℕ, ◌+◌, ◌%◌, ◌≤◌, ◌<◌, ◌≡◌, ◌⊎◌, refl, sym, ap, ◌∙◌, arith, Bool, true, false, ◌&&◌, Option, none,
  some, inl, inr, List, length, nat_eq, Bool-cases, if◌then◌else◌,
}
use my_auto_sar_ap.Process.{Sockets, IsLawful, Sized, Process, write, create_and_write}
use my_auto_sar_ap.Process.Tally.{Tally, tally}
use my_auto_sar_ap.VehicleSignal.{
  VehicleSignalProxy, receive, early_return, crc_matches, raw_payload, count_packet,
}
use my_auto_sar_ap.VehicleSignal.Effects.{Effect, receive-Effect}
use my_auto_sar_ap.VehicleSignal.Proxy.{
  rx_pass, take_datagram, when_ready, wait_for, print_raw, log_mismatch, buf_size,
}

abbrev pub with_raw : Tally → ℕ → Tally
with_raw t total = if nat_eq (total % 10) 1 then record t { raw = t.raw + 1 } else t

module _ (S : Sockets) where
  -- A pass without a datagram, or with one of 1 to 1024 bytes.
  abbrev pub Passed : Process S → VehicleSignalProxy → Process S → VehicleSignalProxy → Type 0
  Passed w p w' p' =
      ((p' ≡ p) × (w'.output ≡ w.output))
      ⊎ ((size : ℕ) × (1 ≤ size)
          × (size ≤ 1024)
          × Effect p size p'
          × (tally w'.output ≡ with_raw (tally w.output) p'.stats.rx_packets))

  -- What a pass leads to, for the descriptor k.
  pub record LeadsTo (k : ℕ) (w : Process S) (p : VehicleSignalProxy)
      (r : Option (Process S × VehicleSignalProxy)) : Type 0 where
    pub process : Process S
    pub proxy : VehicleSignalProxy
    pub result : r ≡ some (process, proxy)
    pub table : S.is_open process.os k ≡ S.is_open w.os k
    pub passed : Passed w p process proxy

  raw-tally :
      (w : Process S) (n total : ℕ)
      → tally (print_raw w n total).output ≡ with_raw (tally w.output) total
  raw-tally w n total = ground arith

  raw-os : (w : Process S) (n total : ℕ) → (print_raw w n total).os ≡ w.os
  raw-os w n total = ground arith

  mismatch-tally :
      (w : Process S) (buf : List ℕ) (o : Option Bool)
      → tally (log_mismatch w buf o).output ≡ tally w.output
  unfolding create_and_write write
  mismatch-tally w buf (some b) = refl
  mismatch-tally w buf none = elim (Bool-cases (crc_matches (raw_payload buf))) [
    | inl fits ↦ rw fits
    | inr broken ↦ rw broken
  ]

  mismatch-os : (w : Process S) (buf : List ℕ) (o : Option Bool) → (log_mismatch w buf o).os ≡ w.os
  unfolding create_and_write write
  mismatch-os w buf (some b) = refl
  mismatch-os w buf none = elim (Bool-cases (crc_matches (raw_payload buf))) [
    | inl fits ↦ rw fits
    | inr broken ↦ rw broken
  ]

  datagram-LeadsTo :
      (k : ℕ) (w : Process S) (p : VehicleSignalProxy) (buf : List ℕ)
      → 0 < p.vehicle_signal.max_samples
      → 1 ≤ length buf
      → length buf ≤ 1024
      → LeadsTo k w p (take_datagram w p (some buf))
  unfolding take_datagram receive
  datagram-LeadsTo k w p buf room some_bytes fits =
      let counted = count_packet p (length buf) in
      let w1 = print_raw w (length buf) counted.stats.rx_packets in
      let w2 = log_mismatch w1 buf (early_return buf) in
      let (q, e, effect) = receive-Effect p buf room in
      record {
        process = w2;
        proxy = q;
        result = rw e;
        table =
            ap (λ s. S.is_open s k)
              (mismatch-os w1 buf (early_return buf)
                ∙ raw-os w (length buf) counted.stats.rx_packets);
        passed = inr (
          length buf,
          some_bytes,
          fits,
          effect,
          mismatch-tally w1 buf (early_return buf)
              ∙ raw-tally w (length buf) counted.stats.rx_packets
              ∙ ap (with_raw (tally w.output)) (sym effect.packets),
        );
      }

  nothing-LeadsTo :
      (k : ℕ) (w w' : Process S) (p : VehicleSignalProxy)
      → S.is_open w'.os k ≡ S.is_open w.os k
      → w'.output ≡ w.output
      → LeadsTo k w p (some (w', p))
  nothing-LeadsTo k w w' p e f = record {
    process = w';
    proxy = p;
    result = refl;
    table = e;
    passed = inl (refl, f);
  }

  -- The same from a process that differs in the sockets only.
  from-LeadsTo :
      (k : ℕ) (w w' : Process S) (p : VehicleSignalProxy)
      (r : Option (Process S × VehicleSignalProxy))
      → S.is_open w'.os k ≡ S.is_open w.os k
      → w'.output ≡ w.output
      → LeadsTo k w' p r
      → LeadsTo k w p r
  from-LeadsTo k w w' p r e f l = record {
    process = l.process;
    proxy = l.proxy;
    result = l.result;
    table = l.table ∙ e;
    passed = elim l.passed [
      | inl (same, out) ↦ inl (same, out ∙ f)
      | inr (size, lo, hi, effect, counts) ↦
          inr
            (size, lo, hi, effect, counts ∙ ap (λ o. with_raw (tally o) l.proxy.stats.rx_packets) f)
    ];
  }

  take-LeadsTo :
      (k : ℕ) (w : Process S) (p : VehicleSignalProxy) (o : Option (List ℕ))
      → 0 < p.vehicle_signal.max_samples
      → Sized o 1024
      → LeadsTo k w p (take_datagram w p o)
  unfolding take_datagram
  take-LeadsTo k w p none room sized = nothing-LeadsTo k w w p refl refl
  take-LeadsTo k w p (some buf) room (lo, hi) = datagram-LeadsTo k w p buf room lo hi

  module _ (lawful : IsLawful S) where
    ready-LeadsTo :
        (k : ℕ) (w : Process S) (p : VehicleSignalProxy) (fd : ℕ) (b : Bool)
        → 0 < p.vehicle_signal.max_samples
        → LeadsTo k w p (when_ready w p fd b)
    ready-LeadsTo k w p fd false room = nothing-LeadsTo k w w p refl refl
    ready-LeadsTo k w p fd true room =
        let (os, datagram) = S.receive w.os fd buf_size in
        from-LeadsTo k w (record w { os = os }) p _ (lawful.open-receive w.os fd buf_size k) refl
          (take-LeadsTo k (record w { os = os }) p datagram room
            (lawful.receive-Sized w.os fd buf_size))

    wait-LeadsTo :
        (k : ℕ) (w : Process S) (p : VehicleSignalProxy) (o : Option ℕ)
        → 0 < p.vehicle_signal.max_samples
        → LeadsTo k w p (wait_for w p o)
    wait-LeadsTo k w p none room = nothing-LeadsTo k w w p refl refl
    wait-LeadsTo k w p (some fd) room =
        let (os, ready) = S.select w.os fd in
        from-LeadsTo k w (record w { os = os }) p _ (lawful.open-select w.os fd k) refl
          (ready-LeadsTo k (record w { os = os }) p fd ready room)

    -- A pass of the thread is not undefined and keeps the table of descriptors.
    pub rx_pass-LeadsTo :
        (k : ℕ) (w : Process S) (p : VehicleSignalProxy)
        → 0 < p.vehicle_signal.max_samples
        → LeadsTo k w p (rx_pass w p)
    unfolding rx_pass
    rx_pass-LeadsTo k w p room = elim (Bool-cases (p.running && p.rx_thread)) [
      | inl live ↦ rw live (wait-LeadsTo k w p p.sock_fd room)
      | inr idle ↦ rw idle (nothing-LeadsTo k w w p refl refl)
    ]
