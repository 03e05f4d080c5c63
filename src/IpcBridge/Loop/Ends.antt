-- ===== src/IpcBridge/Loop/Ends.antt =====
-- When the bridge's `Run` ends (src/application/SwcIPCBridge/IPCBridgeService.cpp).
use my_auto_sar_ap.Prelude.{
  ℕ, ◌≡◌, ◌⊎◌, inl, inr, refl, sym, subst, ◌∙◌, arith, Bool, true, false, none, List, All, [], ◌∷◌,
  if◌then◌else◌, ℕ_eq,
}
use my_auto_sar_ap.Prelude.Map.{lookup}
use my_auto_sar_ap.SomeIp.{SomeIpMessage}
use my_auto_sar_ap.SomeIp.Discovery.{service_catalog}
use my_auto_sar_ap.Nm.{NetworkManagement, eth_ipc}
use my_auto_sar_ap.Nm.RefCount.{Tracks}
use my_auto_sar_ap.IpcBridge.{
  IpcBridge, release_handle, GpioSignal, run_pass, shut_down, send_some_ip_message, send_spi_frame,
  set_gpio_signal, handle_handshake, handle_normal_operation, handle_error, transition_state,
  offer_ipc_services,
}
use my_auto_sar_ap.IpcBridge.Loop.{
  returned, Call, Pass, RunResult, Withdrawn, answer, answer_all, asks_shut_down, run_loop,
  run_service, sends, sends_spi, sets_gpio, HoldsNetwork, release-HoldsNetwork, shut_down-Withdrawn,
  shuts_down, stopped_in,
}

-- What the calls but `Shutdown`, and the passes, leave alone.
record Same (b b' : IpcBridge) : Type 0 where
  handle : b'.network_handle ≡ b.network_handle
  nm : b'.nm ≡ b.nm
  flag : b'.running ≡ b.running

Same-trans : (a b c : IpcBridge) → Same a b → Same b c → Same a c
Same-trans a b c s t = record {
  handle = t.handle ∙ s.handle;
  nm = t.nm ∙ s.nm;
  flag = t.flag ∙ s.flag;
}

send-Same : (b : IpcBridge) (msg : SomeIpMessage) → Same b (send_some_ip_message b msg).0
unfolding send_some_ip_message
send-Same b msg = record { handle = ground arith; nm = ground arith; flag = ground arith }

send-discovery :
    (b : IpcBridge) (msg : SomeIpMessage) → (send_some_ip_message b msg).0.discovery ≡ b.discovery
unfolding send_some_ip_message
send-discovery b msg = ground arith

gpio-Same :
    (b : IpcBridge) (signal : GpioSignal) (level : Bool) → Same b (set_gpio_signal b signal level)
unfolding set_gpio_signal
gpio-Same b signal level = record { handle = ground arith; nm = ground arith; flag = ground arith }

gpio-discovery :
    (b : IpcBridge) (signal : GpioSignal) (level : Bool)
    → (set_gpio_signal b signal level).discovery ≡ b.discovery
unfolding set_gpio_signal
gpio-discovery b signal level = ground arith

pass-Same : (b : IpcBridge) (start now later : ℕ) → Same b (run_pass b start now later)
unfolding run_pass handle_handshake handle_normal_operation handle_error transition_state
    set_gpio_signal offer_ipc_services
pass-Same b start now later = record {
  handle = ground arith;
  nm = ground arith;
  flag = ground arith;
}

-- A bridge that has been shut down, and left the network's books as `net`.
record IsDown (net : NetworkManagement) (b : IpcBridge) : Type 0 where
  services : All (λ svc. lookup svc.service_id b.discovery.offered_services ≡ none) service_catalog
  network : b.network_handle ≡ none
  nm : b.nm ≡ net
  flag : b.running ≡ false

-- A bridge whose shutdown will leave them so.
record WillLeave (net : NetworkManagement) (b : IpcBridge) : Type 0 where
  leaves : release_handle b.network_handle b.nm ≡ net

Same-WillLeave :
    (net : NetworkManagement) (b b' : IpcBridge) → Same b b' → WillLeave net b → WillLeave net b'
Same-WillLeave net b b' s w = record { leaves = rw (s.handle, s.nm) w.leaves }

shut_down-IsDown :
    (net : NetworkManagement) (b : IpcBridge) → WillLeave net b → IsDown net (shut_down b)
shut_down-IsDown net b w =
    let ((services, network), flag, released) = shut_down-Withdrawn b in
    record { services = services; network = network; nm = released ∙ w.leaves; flag = flag }

IsDown-WillLeave : (net : NetworkManagement) (b : IpcBridge) → IsDown net b → WillLeave net b
IsDown-WillLeave net b d = record { leaves = rw d.network d.nm }

Same-IsDown :
    (net : NetworkManagement) (b b' : IpcBridge)
    → Same b b'
    → b'.discovery ≡ b.discovery
    → IsDown net b
    → IsDown net b'
Same-IsDown net b b' s e d = record {
  services =
      subst (λ sd. All (λ svc. lookup svc.service_id sd.offered_services ≡ none) service_catalog)
        (sym e) d.services;
  network = s.handle ∙ d.network;
  nm = s.nm ∙ d.nm;
  flag = s.flag ∙ d.flag;
}

module _ (net : NetworkManagement) where
  answer-IsDown : (b : IpcBridge) (call : Call) → IsDown net b → IsDown net (answer b call)
  unfolding answer send_spi_frame
  answer-IsDown b (sends msg) d = Same-IsDown net b _ (send-Same b msg) (send-discovery b msg) d
  answer-IsDown b (sends_spi frame) d = record {
    services = d.services;
    network = d.network;
    nm = d.nm;
    flag = d.flag;
  }
  answer-IsDown b (sets_gpio signal level) d =
      Same-IsDown net b _ (gpio-Same b signal level) (gpio-discovery b signal level) d
  answer-IsDown b shuts_down d = shut_down-IsDown net b (IsDown-WillLeave net b d)

  answer_all-IsDown :
      (b : IpcBridge) (calls : List Call) → IsDown net b → IsDown net (answer_all b calls)
  unfolding answer_all
  answer_all-IsDown b [] d = d
  answer_all-IsDown b (call ∷ calls) d =
      answer_all-IsDown (answer b call) calls (answer-IsDown b call d)

  -- Calls with a shutdown among them shut the bridge down, and calls without leave it running.
  answer_all-cases :
      (b : IpcBridge) (calls : List Call)
      → WillLeave net b
      → (IsDown net (answer_all b calls))
        ⊎ ((asks_shut_down calls ≡ false) × Same b (answer_all b calls))
  unfolding answer_all answer send_spi_frame
  answer_all-cases b [] w = inr (refl, record { handle = refl; nm = refl; flag = refl })
  answer_all-cases b (shuts_down ∷ calls) w =
      inl (answer_all-IsDown (shut_down b) calls (shut_down-IsDown net b w))
  answer_all-cases b (sends msg ∷ calls) w =
      let b' = (send_some_ip_message b msg).0 in
      elim (answer_all-cases b' calls (Same-WillLeave net b b' (send-Same b msg) w)) [
        | inl down ↦ inl down
        | inr (quiet, same) ↦ inr (quiet, Same-trans b b' _ (send-Same b msg) same)
      ]
  answer_all-cases b (sends_spi frame ∷ calls) w =
      elim (answer_all-cases (send_spi_frame b frame).0 calls (record { leaves = w.leaves })) [
        | inl down ↦ inl down
        | inr (quiet, same) ↦
            inr (quiet, record { handle = same.handle; nm = same.nm; flag = same.flag })
      ]
  answer_all-cases b (sets_gpio signal level ∷ calls) w =
      let b' = set_gpio_signal b signal level in
      elim (answer_all-cases b' calls (Same-WillLeave net b b' (gpio-Same b signal level) w)) [
        | inl down ↦ inl down
        | inr (quiet, same) ↦ inr (quiet, Same-trans b b' _ (gpio-Same b signal level) same)
      ]

  abbrev Ends : RunResult → Type 0
  Ends r = (b : IpcBridge) × (r ≡ returned b) × Withdrawn b × (b.nm ≡ net)

  if-Ends :
      (test : Bool) (x y : RunResult)
      → (test ≡ true → Ends x)
      → (test ≡ false → Ends y)
      → Ends (if test then x else y)
  if-Ends true x y hx hy = hx refl
  if-Ends false x y hx hy = hy refl

  down-Ends : (b : IpcBridge) → IsDown net b → Ends (returned b)
  down-Ends b d = (b, refl, (d.services, d.network), d.nm)

  run_loop-Ends :
      (b : IpcBridge) (passes : List Pass)
      → IsDown net b ⊎ (WillLeave net b × (b.running ≡ true) × (stopped_in passes ≡ true))
      → Ends (run_loop b passes)
  unfolding run_loop
  run_loop-Ends b [] (inl d) =
      if-Ends b.running _ _ (λ on. absurd (ground (arith, on, d.flag))) (λ _. down-Ends b d)
  run_loop-Ends b [] (inr (w, on, h)) = absurd (ground (arith, h))
  run_loop-Ends b (pass ∷ passes) (inl d) =
      if-Ends b.running _ _ (λ on. absurd (ground (arith, on, d.flag))) (λ _. down-Ends b d)
  run_loop-Ends b (pass ∷ passes) (inr (w, on, h)) =
      let after = run_pass b pass.start pass.now pass.later in
      let kept = pass-Same b pass.start pass.now pass.later in
      let w' = Same-WillLeave net b after kept w in
      if-Ends b.running _ _
        (λ _.
          run_loop-Ends (answer_all after pass.calls) passes
            (elim (answer_all-cases after pass.calls w') [
              | inl down ↦ inl down
              | inr (quiet, same) ↦ inr (
                Same-WillLeave net after _ same w',
                same.flag ∙ kept.flag ∙ on,
                ground (arith, quiet, h),
              )
            ]))
        (λ off. absurd (ground (arith, on, off)))

-- A `Shutdown` that comes while the bridge's thread sleeps ends `Run`, whatever the link was doing: then
-- no service of the catalog is offered, the bridge keeps no handle, and of the requests of the network
-- `eth_ipc`, one of which the bridge held, one less is outstanding. The network sleeps if that was the
-- last one. However often `Shutdown` is called, the request is given back once.
pub run_service-ends :
    (b : IpcBridge) (passes : List Pass) (n : ℕ)
    → HoldsNetwork n b
    → stopped_in passes ≡ true
    → (after : IpcBridge) × (run_service b passes ≡ returned after)
      × Withdrawn after
      × Tracks eth_ipc n after.nm
unfolding run_service
run_service-ends b passes n held h =
    let net = release_handle b.network_handle b.nm in
    let (after, ends, withdrawn, books) =
      run_loop-Ends net (record b { running = true }) passes
        (inr (record { leaves = refl }, refl, h)) in
    (
      after,
      ends,
      withdrawn,
      subst (λ nm. Tracks eth_ipc n nm) (sym books) (release-HoldsNetwork n b held),
    )
