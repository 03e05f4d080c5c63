-- ===== src/IpcBridge/Queues.antt =====
-- Recovery of the link and its transmit queues (src/application/SwcIPCBridge/IPCBridgeService.cpp).
use my_auto_sar_ap.Prelude.{
  ℕ, ◌≤◌, ◌<◌, ◌≡◌, refl, sym, ap, subst, ◌∙◌, arith, Bool, true, false, some, List, [], ◌∷◌, ◌++◌,
  length, get_or, get_or-set, set, All, nat_eq, if◌then◌else◌, ℕ_eq,
}
use mathlib.Core.List.{append-nil, append_assoc}
use my_auto_sar_ap.Prelude.Map.{lookup, lookup-insert}
use my_auto_sar_ap.Phm.{report_checkpoint}
use my_auto_sar_ap.SomeIp.{SomeIpMessage}
use my_auto_sar_ap.SomeIp.Discovery.{ServiceDiscovery, service_catalog, offer_service}
use my_auto_sar_ap.IpcBridge.{
  IpcBridge, handshake, normal, error, GpioSignal, transition_state, set_gpio_signal,
  get_gpio_signal, state_code, run_pass, dispatch, handle_handshake, handle_normal_operation,
  handle_error, offer_ipc_services, offer_all, send_some_ip_message, send_spi_frame, elapsed_ms,
  soc_ready,
}
use my_auto_sar_ap.IpcBridge.Link.{Op, passes, sends, sends_spi, sets_gpio, step, run}

-- Every service of the catalog is offered.
abbrev pub OffersAll : ServiceDiscovery → Type 0
OffersAll sd = All (λ svc. lookup svc.service_id sd.offered_services ≡ some svc) service_catalog

offer_all-OffersAll : (sd : ServiceDiscovery) → OffersAll (offer_all sd service_catalog)
unfolding offer_service
offer_all-OffersAll sd =
    simp lookup-insert (refl, (refl, (refl, (refl, (refl, (refl, (refl, tt)))))))

abbrev pub IsUp : IpcBridge → Type 0
IsUp b = (b.connection_state ≡ normal) × OffersAll b.discovery

handshake_done :
    (b : IpcBridge) (now later : ℕ)
    → 100 < elapsed_ms now b.handshake_start_time
    → elapsed_ms now b.handshake_start_time ≤ 2000
    → get_or b.gpio_state soc_ready false ≡ true
    → handle_handshake b now later
      ≡ record (offer_ipc_services (transition_state b normal)) { last_heartbeat_time = later }
unfolding handle_handshake
handshake_done b now later h k ready = ground arith

handshake-IsUp :
    (b : IpcBridge) (now later : ℕ)
    → 100 < elapsed_ms now b.handshake_start_time
    → elapsed_ms now b.handshake_start_time ≤ 2000
    → get_or b.gpio_state soc_ready false ≡ true
    → IsUp (handle_handshake b now later)
unfolding offer_ipc_services transition_state
handshake-IsUp b now later h k ready =
    subst IsUp (sym (handshake_done b now later h k ready)) (refl, offer_all-OffersAll b.discovery)

reset_keeps_ready :
    (xs : List Bool) (level : Bool) → get_or (set xs 0 level) 2 false ≡ get_or xs 2 false
reset_keeps_ready [] level = refl
reset_keeps_ready (x ∷ xs) level = refl

-- An error pass leaves the link in the handshake that began at its last clock reading, with SOC_READY
-- as it was.
error-retries :
    (b : IpcBridge) (start now later : ℕ)
    → b.connection_state ≡ error
    → let b' = run_pass b start now later in
      (b'.connection_state ≡ handshake)
      × (b'.handshake_start_time ≡ later)
      × (get_or b'.gpio_state soc_ready false ≡ get_or b.gpio_state soc_ready false)
unfolding run_pass handle_error transition_state set_gpio_signal
error-retries b start now later e = rw e (
  refl,
  refl,
  reset_keeps_ready (set b.gpio_state 0 false) true ∙ reset_keeps_ready b.gpio_state false,
)

pass_handshake :
    (b : IpcBridge) (start now later : ℕ)
    → b.connection_state ≡ handshake
    → run_pass b start now later
      ≡ handle_handshake
          (record b { phm = report_checkpoint b.phm "IPCBridgeService" 1 start })
          now
          later
unfolding run_pass
pass_handshake b start now later e =
    ap
      (λ s.
        dispatch s (record b { phm = report_checkpoint b.phm "IPCBridgeService" 1 start }) now
          later)
      e

-- Two passes bring a link in Error with the SOC_READY signal set back to Normal, if the second reads
-- the clock more than 100 ms and at most 2000 ms after the first: then every service of the catalog is
-- offered.
pub recovery :
    (b : IpcBridge) (start now later start' now' later' : ℕ)
    → b.connection_state ≡ error
    → get_or b.gpio_state soc_ready false ≡ true
    → 100 < elapsed_ms now' later
    → elapsed_ms now' later ≤ 2000
    → IsUp (run_pass (run_pass b start now later) start' now' later')
recovery b start now later start' now' later' e ready h k =
    let b1 = run_pass b start now later in
    let (waiting, begun, kept) = error-retries b start now later e in
    let b2 : IpcBridge = record b1 { phm = report_checkpoint b1.phm "IPCBridgeService" 1 start' } in
    subst IsUp (sym (pass_handshake b1 start' now' later' waiting))
      (handshake-IsUp b2 now' later' (rw begun h) (rw begun k) (kept ∙ ready))

-- The messages that are accepted over a list of calls.
unfoldable pub accepted : IpcBridge → List Op → List SomeIpMessage
accepted b [] = []
accepted b (sends msg ∷ ops) =
    let rest = accepted (step b (sends msg)) ops in
    if nat_eq (state_code b.connection_state) (state_code normal) then msg ∷ rest else rest
accepted b (passes start now later ∷ ops) = accepted (step b (passes start now later)) ops
accepted b (sends_spi frame ∷ ops) = accepted (step b (sends_spi frame)) ops
accepted b (sets_gpio signal level ∷ ops) = accepted (step b (sets_gpio signal level)) ops

pass-eth :
    (b : IpcBridge) (start now later : ℕ)
    → (run_pass b start now later).eth_tx_queue ≡ b.eth_tx_queue
unfolding run_pass handle_handshake handle_normal_operation handle_error transition_state
    set_gpio_signal offer_ipc_services
pass-eth b start now later = ground arith

gpio-eth :
    (b : IpcBridge) (signal : GpioSignal) (level : Bool)
    → (set_gpio_signal b signal level).eth_tx_queue ≡ b.eth_tx_queue
unfolding set_gpio_signal
gpio-eth b signal level = ground arith

send-eth :
    (b : IpcBridge) (msg : SomeIpMessage)
    → (step b (sends msg)).eth_tx_queue ≡ (
        if nat_eq (state_code b.connection_state) (state_code normal)
        then b.eth_tx_queue ++ msg ∷ []
        else b.eth_tx_queue)
unfolding step send_some_ip_message
send-eth b msg = ground arith

append_if {ℓ} :
    {A : Type ℓ} (test : Bool) (xs : List A) (a : A) (ys : List A)
    → (if test then xs ++ a ∷ [] else xs) ++ ys ≡ xs ++ (if test then a ∷ ys else ys)
append_if true xs a ys = append_assoc xs (a ∷ []) ys
append_if false xs a ys = refl

-- Over any run, the Ethernet queue is what it was with the accepted messages behind it, in order: no
-- pass takes one out, and no reset of the link drops one.
pub run-eth :
    (b : IpcBridge) (ops : List Op) → (run b ops).eth_tx_queue ≡ b.eth_tx_queue ++ accepted b ops
unfolding run accepted step send_spi_frame
run-eth b [] = sym (append-nil b.eth_tx_queue)
run-eth b (sends msg ∷ ops) =
    let rest = accepted (step b (sends msg)) ops in
    run-eth (step b (sends msg)) ops
    ∙ ap (λ q. q ++ rest) (send-eth b msg)
    ∙ append_if (nat_eq (state_code b.connection_state) (state_code normal)) b.eth_tx_queue msg rest
run-eth b (passes start now later ∷ ops) =
    run-eth (step b (passes start now later)) ops
    ∙ ap (λ q. q ++ accepted (step b (passes start now later)) ops) (pass-eth b start now later)
run-eth b (sends_spi frame ∷ ops) = run-eth (step b (sends_spi frame)) ops
run-eth b (sets_gpio signal level ∷ ops) =
    run-eth (step b (sets_gpio signal level)) ops
    ∙ ap (λ q. q ++ accepted (step b (sets_gpio signal level)) ops) (gpio-eth b signal level)

-- A signal reads as it was last driven, and driving it leaves the other seven as they were.
pub set_gpio-get :
    (b : IpcBridge) (signal k : GpioSignal) (level : Bool)
    → length b.gpio_state ≡ 8
    → signal < 8
    → get_gpio_signal (set_gpio_signal b signal level) k
      ≡ (if nat_eq signal k then level else get_gpio_signal b k)
unfolding set_gpio_signal get_gpio_signal
set_gpio-get b signal k level h l =
    ground (arith, get_or-set b.gpio_state signal k level false (ground arith))
