-- ===== src/Consumer/Accounts.antt =====
-- What the consumer has counted and printed after some passes of its receive thread
-- (src/ara/app/vehicle_signal_swc.cpp, src/ara/com/vehicle_signal_proxy.cpp).
use my_auto_sar_ap.Prelude.{
  ℕ, ◌+◌, ◌*◌, ◌%◌, ◌<◌, ◌≤◌, ◌≡◌, ◌⊎◌, refl, sym, ap, ◌∙◌, subst, arith, inl, inr, nat_eq,
  Bool-cases, Option, some, [], ◌∷◌,
}
use my_auto_sar_ap.Process.{Sockets, IsLawful, Process}
use my_auto_sar_ap.Process.Tally.{tally, expected, tenth}
use my_auto_sar_ap.VehicleSignal.{VehicleSignalProxy, VehicleSignalSample, subscribed, u64}
use my_auto_sar_ap.VehicleSignal.Effects.{Effect}
use my_auto_sar_ap.VehicleSignal.Passes.{Passed, rx_pass-LeadsTo, with_raw}
use my_auto_sar_ap.Consumer.{
  VehicleSignalSwc, handler, receive_pass, pass_with, handle_sample, emptied, keep_sample,
  call_back,
}
use my_auto_sar_ap.Consumer.Lines.{handle_sample-expected}

raw-expected : (n m : ℕ) → with_raw (expected n m) (m + 1) ≡ expected n (m + 1)
raw-expected n m = elim (Bool-cases (nat_eq ((m + 1) % 10) 1)) [
  | inl first ↦ rw (tenth m, first)
  | inr later ↦ rw (tenth m, later)
]

-- The books of a proxy after n passes or fewer, of which `sent` gave a sample: every packet is of 1 to
-- 1024 bytes, a packet is not both refused and a sample, and the packets that failed the checksum are
-- among the refused.
pub record Books (n sent : ℕ) (p : VehicleSignalProxy) : Type 0 where
  pub room : 0 < p.vehicle_signal.max_samples
  pub state : p.vehicle_signal.state ≡ subscribed
  pub handles : p.vehicle_signal.receive_handler ≡ some handler
  pub packets : p.stats.rx_packets ≤ n
  pub some_bytes : p.stats.rx_packets ≤ p.stats.rx_bytes
  pub bytes : p.stats.rx_bytes ≤ 1024 * p.stats.rx_packets
  pub samples : sent + p.stats.parse_errors ≤ p.stats.rx_packets
  pub broken : p.stats.e2e_errors ≤ p.stats.parse_errors

grow-Books :
    (n sent size : ℕ) (p q : VehicleSignalProxy)
    → n < 9007199254740992
    → Books n sent p
    → 1 ≤ size
    → size ≤ 1024
    → Effect p size q
    → (sent' : ℕ) → sent' + q.stats.parse_errors ≤ p.stats.rx_packets + 1
    → q.stats.e2e_errors ≤ q.stats.parse_errors
    → Books (n + 1) sent' q
grow-Books n sent size p q small b lo hi e sent' samples broken =
    let same = e.subscription in
    record {
      room = omega (arith, same.room, b.room);
      state = same.state ∙ b.state;
      handles = same.handler ∙ b.handles;
      packets = omega (arith, e.packets, b.packets);
      some_bytes = omega (arith, e.packets, e.bytes, b.packets, b.some_bytes, b.bytes);
      bytes = omega (arith, e.packets, e.bytes, b.packets, b.some_bytes, b.bytes);
      samples = omega (arith, e.packets, b.packets, samples);
      broken = broken;
    }

-- What a packet delivers, with the books after it.
abbrev Delivers : ℕ → ℕ → VehicleSignalProxy → Type 0
Delivers n sent q =
    ((q.vehicle_signal.delivered ≡ []) × Books n sent q)
    ⊎ ((s : VehicleSignalSample) × (q.vehicle_signal.delivered ≡ (handler, s) ∷ [])
        × Books n (sent + 1) q)

Effect-Delivers :
    (n sent size : ℕ) (p q : VehicleSignalProxy)
    → n < 9007199254740992
    → Books n sent p
    → p.vehicle_signal.delivered ≡ []
    → 1 ≤ size
    → size ≤ 1024
    → Effect p size q
    → Delivers (n + 1) sent q
Effect-Delivers n sent size p q small b none_yet lo hi e =
    let grow = grow-Books n sent size p q small b lo hi e in
    elim e.result [
      | inl (s, handed, parse, broken) ↦ elim handed [
        | inl (_, idle) ↦ absurd (ground (arith, b.state))
        | inr (calls, _) ↦ inr (
          s,
          calls ∙ rw (b.handles, none_yet),
          grow (sent + 1) (omega (arith, b.samples, parse))
              (omega (arith, broken, parse, b.broken)),
        )
      ]
      | inr (calls, other) ↦
          let small_parse : p.stats.parse_errors + 1 < 18446744073709551616 =
            omega (arith, b.samples, b.packets) in
          inl (
            calls ∙ none_yet,
            grow sent
                (elim other [
                  | inl (parse, _) ↦ omega (arith, b.samples, parse)
                  | inr (parse, _) ↦ omega (arith, b.samples, parse)
                ])
                (elim other [
                  | inl (parse, broken) ↦ omega (arith, b.broken, parse, broken)
                  | inr (parse, inl broken) ↦ omega (arith, b.broken, parse, broken)
                  | inr (parse, inr broken) ↦ omega (arith, b.broken, parse, broken)
                ]),
          )
    ]

later-Books : (n sent : ℕ) (p : VehicleSignalProxy) → Books n sent p → Books (n + 1) sent p
later-Books n sent p b = record {
  room = b.room;
  state = b.state;
  handles = b.handles;
  packets = omega (arith, b.packets);
  some_bytes = b.some_bytes;
  bytes = b.bytes;
  samples = b.samples;
  broken = b.broken;
}

emptied-Books : (n sent : ℕ) (p : VehicleSignalProxy) → Books n sent p → Books n sent (emptied p)
emptied-Books n sent p b = record {
  room = b.room;
  state = b.state;
  handles = b.handles;
  packets = b.packets;
  some_bytes = b.some_bytes;
  bytes = b.bytes;
  samples = b.samples;
  broken = b.broken;
}

module _ {S : Sockets} where
  -- The books of a consumer and its proxy, whose lines are those of the samples and packets.
  pub record Accounts (n : ℕ) (w : Process S) (c : VehicleSignalSwc) (p : VehicleSignalProxy)
      : Type 0 where
    pub books : Books n c.samples_received p
    pub calls : p.vehicle_signal.delivered ≡ []
    pub lines : tally w.output ≡ expected c.samples_received p.stats.rx_packets

  -- A result with its consumer's proxy and its books.
  pub record Booked (n : ℕ) (r : Option (Process S × VehicleSignalSwc)) : Type 0 where
    pub process : Process S
    pub swc : VehicleSignalSwc
    pub proxy : VehicleSignalProxy
    pub result : r ≡ some (process, swc)
    pub held : swc.proxy ≡ some proxy
    pub accounts : Accounts n process swc proxy

  none-Booked :
      (n : ℕ) (w : Process S) (c : VehicleSignalSwc) (p : VehicleSignalProxy)
      → Books n c.samples_received p
      → p.vehicle_signal.delivered ≡ []
      → tally w.output ≡ expected c.samples_received p.stats.rx_packets
      → Booked n (call_back c (some (w, p)))
  none-Booked n w c p b e lines = record {
    process = w;
    swc = record c { proxy = some (emptied p) };
    proxy = emptied p;
    result = rw e;
    held = refl;
    accounts = record {
      books = emptied-Books n c.samples_received p b;
      calls = refl;
      lines = lines;
    };
  }

  one-Booked :
      (n : ℕ) (w : Process S) (c : VehicleSignalSwc) (p : VehicleSignalProxy)
      (s : VehicleSignalSample)
      → n ≤ 9007199254740992
      → Books n (c.samples_received + 1) p
      → p.vehicle_signal.delivered ≡ (handler, s) ∷ []
      → tally w.output ≡ expected c.samples_received p.stats.rx_packets
      → Booked n (call_back c (some (w, p)))
  unfolding handle_sample keep_sample
  one-Booked n w c p s small b e lines =
      let next : u64 (c.samples_received + 1) ≡ c.samples_received + 1 =
        omega (arith, b.samples, b.packets) in
      let c1 : VehicleSignalSwc = record c { proxy = some (emptied p) } in
      record {
        process = (handle_sample w c1 s).0;
        swc = (handle_sample w c1 s).1;
        proxy = emptied p;
        result = rw e;
        held = refl;
        accounts = record {
          books = rw next (emptied-Books n (c.samples_received + 1) p b);
          calls = refl;
          lines =
              handle_sample-expected w c1 s p.stats.rx_packets (omega (arith, b.samples, b.packets))
                lines
              ∙ ap (λ k. expected k p.stats.rx_packets) (sym next);
        };
      }

  call_back-Booked :
      (n : ℕ) (w w' : Process S) (c : VehicleSignalSwc) (p p' : VehicleSignalProxy)
      → n < 9007199254740992
      → Accounts n w c p
      → Passed S w p w' p'
      → Booked (n + 1) (call_back c (some (w', p')))
  call_back-Booked n w w' c p p' small a (inl (same, out)) =
      subst (λ q. Booked (n + 1) (call_back c (some (w', q)))) (sym same)
        (none-Booked (n + 1) w' c p (later-Books n c.samples_received p a.books) a.calls
          (ap tally out ∙ a.lines))
  call_back-Booked n w w' c p p' small a (inr (size, lo, hi, effect, counts)) =
      let packets : p'.stats.rx_packets ≡ p.stats.rx_packets + 1 =
        omega (arith, effect.packets, a.books.packets) in
      let lines : tally w'.output ≡ expected c.samples_received p'.stats.rx_packets =
        counts
        ∙ ap (λ t. with_raw t p'.stats.rx_packets) a.lines
        ∙ rw packets (raw-expected c.samples_received p.stats.rx_packets) in
      elim (Effect-Delivers n c.samples_received size p p' small a.books a.calls lo hi effect) [
        | inl (calls, books) ↦ none-Booked (n + 1) w' c p' books calls lines
        | inr (s, calls, books) ↦ one-Booked (n + 1) w' c p' s (omega arith) books calls lines
      ]

  module _ (lawful : IsLawful S) where
    -- A pass keeps the books.
    pub receive_pass-Booked :
        (n : ℕ) (w : Process S) (c : VehicleSignalSwc) (p : VehicleSignalProxy)
        → n < 9007199254740992
        → c.proxy ≡ some p
        → Accounts n w c p
        → Booked (n + 1) (receive_pass w c)
    unfolding receive_pass
    receive_pass-Booked n w c p small has a =
        let l = rx_pass-LeadsTo S lawful 0 w p a.books.room in
        subst (λ o. Booked (n + 1) (pass_with w c o)) (sym has)
          (subst (λ r. Booked (n + 1) (call_back c r)) (sym l.result)
            (call_back-Booked n w l.process c p l.proxy small a l.passed))
