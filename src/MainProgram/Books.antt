-- ===== src/MainProgram/Books.antt =====
-- What the program has counted and printed while it runs (src/application/main.cpp and the consumer).
use my_auto_sar_ap.Prelude.{
  ℕ, ◌+◌, ◌<◌, ◌≤◌, ◌≡◌, ◌⊎◌, refl, sym, ap, subst, ◌∙◌, arith, true, false, Option, none, some,
  inl, inr, List, [], ◌∷◌, Bool-cases, nat_eq, ◌%◌,
}
use my_auto_sar_ap.Exec.{report_execution_state}
use my_auto_sar_ap.Log
use my_auto_sar_ap.Process.{Sockets, IsLawful, Process, write, swc_starting}
use my_auto_sar_ap.Process.Tally.{tally, expected}
use my_auto_sar_ap.VehicleSignal.{VehicleSignalProxy, subscribe, set_receive_handler, new_event}
use my_auto_sar_ap.VehicleSignal.Fresh.{listening_proxy, find_service-Found}
use my_auto_sar_ap.VehicleSignal.Proxy.{find_service}
use my_auto_sar_ap.Consumer.{
  VehicleSignalSwc, make_swc, start, start_with, main_function_100ms, tick_with, receive_pass,
  pass_with, vehicle_signal_svc_port, release,
}
use my_auto_sar_ap.Consumer.Accounts.{Accounts, receive_pass-Booked}
use my_auto_sar_ap.MainProgram.{
  Happening, passes, signals, Running, looping, happen, happen_all, main_loop, set_up, main,
}
use my_auto_sar_ap.MainProgram.Ends.{ends_sleep, signalled}

abbrev passes_in : List Happening → ℕ
passes_in [] = 0
passes_in (passes ∷ hs) = 1 + passes_in hs
passes_in (signals ∷ hs) = passes_in hs

-- How many passes of the receive thread the sleeps have.
abbrev pub pass_count : List (List Happening) → ℕ
pass_count [] = 0
pass_count (sleep ∷ sleeps) = passes_in sleep + pass_count sleeps

module _ {S : Sockets} where
  -- No proxy, or one whose books are in order.
  abbrev pub InOrder : ℕ → Process S → VehicleSignalSwc → Type 0
  InOrder n w c =
      (c.proxy ≡ none) ⊎ ((p : VehicleSignalProxy) × (c.proxy ≡ some p) × Accounts n w c p)

  later : (n m : ℕ) (w : Process S) (c : VehicleSignalSwc) → n ≡ m → InOrder n w c → InOrder m w c
  later n m w c e = subst (λ l. InOrder l w c) e

  -- The same consumer, after lines that are not counted.
  same_lines :
      (n : ℕ) (w w' : Process S) (c : VehicleSignalSwc)
      → tally w'.output ≡ tally w.output
      → InOrder n w c
      → InOrder n w' c
  same_lines n w w' c e (inl gone) = inl gone
  same_lines n w w' c e (inr (p, has, a)) =
      inr (p, has, record { books = a.books; calls = a.calls; lines = e ∙ a.lines })

  tick-tally :
      (w : Process S) (c : VehicleSignalSwc) (o : Option VehicleSignalProxy)
      → tally (tick_with w c o).output ≡ tally w.output
  unfolding write
  tick-tally w c none = refl
  tick-tally w c (some p) = elim (Bool-cases (nat_eq ((w.tick + 1) % 4294967296 % 10) 0)) [
    | inl tenth ↦ rw tenth
    | inr other ↦ rw other
  ]

  main_function_100ms-InOrder :
      (n : ℕ) (w : Process S) (c : VehicleSignalSwc)
      → InOrder n w c
      → InOrder n (main_function_100ms w c) c
  unfolding main_function_100ms
  main_function_100ms-InOrder n w c = same_lines n w _ c (tick-tally w c c.proxy)

  start_with-InOrder :
      (w : Process S) (c : VehicleSignalSwc) (o : Option VehicleSignalProxy)
      → c.samples_received ≡ 0
      → tally w.output ≡ expected 0 0
      → (o ≡ none) ⊎ ((fd : ℕ) × (o ≡ some (listening_proxy fd)))
      → let (w', c') = start_with w c o in InOrder 0 w' c'
  unfolding write subscribe set_receive_handler new_event
  start_with-InOrder w c o zero blank (inl failed) = rw failed (inl refl)
  start_with-InOrder w c o zero blank (inr (fd, e)) = rw e (
      inr (
        _,
        refl,
        record {
          books = record {
            room = omega arith;
            state = refl;
            handles = refl;
            packets = omega arith;
            some_bytes = omega arith;
            bytes = omega arith;
            samples = omega (arith, zero);
            broken = omega arith;
          };
          calls = refl;
          lines = rw zero blank;
        },
      ))

  start-InOrder :
      (w : Process S) (c : VehicleSignalSwc)
      → c.samples_received ≡ 0
      → c.proxy ≡ none
      → tally w.output ≡ expected 0 0
      → let (w', c') = start w c in InOrder 0 w' c'
  unfolding start write
  start-InOrder w c zero gone blank =
      let w1 = write w c.logger Log.info swc_starting in
      let (out, found) = find_service-Found w1 vehicle_signal_svc_port in
      let (w2, o) = find_service w1 vehicle_signal_svc_port in
      subst (λ p. let (w', c') = start_with (release w2 p) c o in InOrder 0 w' c') (sym gone)
        (start_with-InOrder w2 c o zero (out ∙ blank) found)

  -- A result in order, whose flag is as it was.
  record Continued (n : ℕ) (w : Process S) (c : VehicleSignalSwc)
      (r : Option (Process S × VehicleSignalSwc)) : Type 0 where
    process : Process S
    swc : VehicleSignalSwc
    result : r ≡ some (process, swc)
    order : InOrder n process swc

  set_up-InOrder : (w : Process S) → w.output ≡ [] → InOrder 0 (set_up w).process (set_up w).swc
  unfolding set_up make_swc write
  set_up-InOrder w blank = start-InOrder _ _ refl refl (ap tally blank)

  module _ (lawful : IsLawful S) where
    pass-Continued :
        (n : ℕ) (w : Process S) (c : VehicleSignalSwc)
        → n < 9007199254740992
        → InOrder n w c
        → Continued (n + 1) w c (receive_pass w c)
    unfolding receive_pass
    pass-Continued n w c small (inl gone) =
        subst (λ o. Continued (n + 1) w c (pass_with w c o)) (sym gone)
          (record { process = w; swc = c; result = refl; order = inl gone })
    pass-Continued n w c small (inr (p, has, a)) =
        let b = receive_pass-Booked lawful n w c p small has a in
        record {
          process = b.process;
          swc = b.swc;
          result = b.result;
          order = inr (b.proxy, b.held, b.accounts);
        }

    sleep_in_order :
        (hs : List Happening) (n : ℕ) (r : Running S)
        → n + passes_in hs ≤ 9007199254740992
        → ends_sleep hs ≡ false
        → InOrder n r.process r.swc
        → (r' : Running S) × (happen_all r hs ≡ some r')
          × (r'.g_running ≡ r.g_running)
          × InOrder (n + passes_in hs) r'.process r'.swc
    unfolding happen_all happen
    sleep_in_order [] n r small quiet o = (r, refl, refl, later n _ r.process r.swc (omega arith) o)
    sleep_in_order (passes ∷ hs) n r small quiet o =
        let b = pass-Continued n r.process r.swc (omega arith) o in
        let (r', e, same, o') =
          sleep_in_order hs (n + 1) (record r { process = b.process; swc = b.swc }) (omega arith)
            quiet b.order in
        (r', rw (happen_all, b.result) e, same, later _ _ r'.process r'.swc (omega arith) o')
    sleep_in_order (signals ∷ hs) n r small quiet o = absurd (ground arith)

    main_loop-next :
        (r r' : Running S) (sleep : List Happening) (sleeps : List (List Happening))
        → r.g_running ≡ true
        → happen_all (record r { process = main_function_100ms r.process r.swc }) sleep ≡ some r'
        → main_loop r (sleep ∷ sleeps) ≡ main_loop r' sleeps
    unfolding main_loop
    main_loop-next r r' sleep sleeps on e = rw e (rw on)

    loop_in_order :
        (sleeps : List (List Happening)) (n : ℕ) (r : Running S)
        → n + pass_count sleeps ≤ 9007199254740992
        → signalled sleeps ≡ false
        → r.g_running ≡ true
        → InOrder n r.process r.swc
        → (r' : Running S) × (main_loop r sleeps ≡ looping r')
          × InOrder (n + pass_count sleeps) r'.process r'.swc
    unfolding main_loop
    loop_in_order [] n r small quiet on o = (r, rw on, later n _ r.process r.swc (omega arith) o)
    loop_in_order (sleep ∷ sleeps) n r small quiet on o =
        let w = main_function_100ms r.process r.swc in
        let (r1, e, same, o1) =
          sleep_in_order sleep n (record r { process = w }) (omega arith) (ground (arith, quiet))
            (main_function_100ms-InOrder n r.process r.swc o) in
        let (r2, f, o2) =
          loop_in_order sleeps (n + passes_in sleep) r1 (omega arith) (ground (arith, quiet))
            (same ∙ on) o1 in
        (
          r2,
          main_loop-next r r1 sleep sleeps on e ∙ f,
          later _ _ r2.process r2.swc (omega arith) o2,
        )

    -- Until a signal comes, and for at most 2^53 passes of the receive thread, `main` stays in its loop,
    -- and either its consumer could not start or the books are in order: the samples and the refused
    -- packets together are at most as many as the packets, a packet has 1 to 1024 bytes, and of n
    -- samples there are n JSON lines, (n + 9) / 10 lines of each of the two kinds that are printed for
    -- every tenth sample and (n + 99) / 100 of the kind for every hundredth.
    pub main-InOrder :
        (w : Process S) (sleeps : List (List Happening))
        → w.output ≡ []
        → signalled sleeps ≡ false
        → pass_count sleeps ≤ 9007199254740992
        → (r : Running S) × (main w sleeps ≡ looping r)
          × InOrder (pass_count sleeps) r.process r.swc
    unfolding main report_execution_state write set_up
    main-InOrder w sleeps blank quiet small =
        let (r, e, order) =
          loop_in_order sleeps 0 _ (omega arith) quiet refl
            (same_lines 0 (set_up w).process _ (set_up w).swc refl (set_up-InOrder w blank)) in
        (r, e, later _ _ r.process r.swc (omega arith) order)
