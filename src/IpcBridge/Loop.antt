-- ===== src/IpcBridge/Loop.antt =====
-- The bridge's thread: `Run`, the calls that come while it sleeps, and the destructor
-- (src/application/SwcIPCBridge/IPCBridgeService.cpp).
pub mod Ends
use my_auto_sar_ap.Prelude.{
  ℕ, ◌≡◌, ◌⊎◌, inl, inr, refl, sym, subst, ◌∙◌, arith, Bool, true, false, ◌||◌, none, some, ◌+◌,
  List, All, [], ◌∷◌, if◌then◌else◌, Option-cases, ℕ_eq, ◌==◌, nat_eq_iff,
}
use my_auto_sar_ap.Prelude.Map.{lookup, lookup-erase}
use my_auto_sar_ap.SomeIp.{SomeIpMessage}
use my_auto_sar_ap.SomeIp.Discovery.{ServiceDiscovery, service_catalog, stop_offer_service}
use my_auto_sar_ap.Nm.{eth_ipc, release_network, close_handle}
use my_auto_sar_ap.Nm.RefCount.{Tracks, release-Tracks}
use my_auto_sar_ap.IpcBridge.{
  IpcBridge, release_handle, SpiIpcFrame, GpioSignal, run_pass, shut_down, stop_ipc_services,
  stop_all, send_some_ip_message, send_spi_frame, set_gpio_signal, handle_handshake,
  handle_normal_operation, handle_error, transition_state, offer_ipc_services,
}

-- The calls of other threads.
pub data Call : Type 0 where
  sends : SomeIpMessage → Call
  sends_spi : SpiIpcFrame → Call
  sets_gpio : GpioSignal → Bool → Call
  shuts_down : Call

unfoldable pub answer : IpcBridge → Call → IpcBridge
answer b (sends msg) = (send_some_ip_message b msg).0
answer b (sends_spi frame) = (send_spi_frame b frame).0
answer b (sets_gpio signal level) = set_gpio_signal b signal level
answer b shuts_down = shut_down b

unfoldable pub answer_all : IpcBridge → List Call → IpcBridge
answer_all b [] = b
answer_all b (call ∷ calls) = answer_all (answer b call) calls

-- A pass: the clock's three readings and the calls that come during the sleep after it.
pub record Pass : Type 0 where
  pub start : ℕ
  pub now : ℕ
  pub later : ℕ
  pub calls : List Call

pub data RunResult : Type 0 where
  returned looping : IpcBridge → RunResult

unfoldable pub run_loop : IpcBridge → List Pass → RunResult
run_loop b [] = if b.running then looping b else returned b
run_loop b (pass ∷ passes) =
    let slept = answer_all (run_pass b pass.start pass.now pass.later) pass.calls in
    let rest = run_loop slept passes in if b.running then rest else returned b

unfoldable pub run_service : IpcBridge → List Pass → RunResult
run_service b passes = run_loop (record b { running = true }) passes

-- The destructor.
unfoldable pub destroy : IpcBridge → IpcBridge
destroy b = if b.running then shut_down b else b

abbrev pub asks_shut_down : List Call → Bool
asks_shut_down [] = false
asks_shut_down (shuts_down ∷ calls) = true
asks_shut_down (sends msg ∷ calls) = asks_shut_down calls
asks_shut_down (sends_spi frame ∷ calls) = asks_shut_down calls
asks_shut_down (sets_gpio signal level ∷ calls) = asks_shut_down calls

abbrev pub stopped_in : List Pass → Bool
stopped_in [] = false
stopped_in (pass ∷ passes) = asks_shut_down pass.calls || stopped_in passes

-- No service of the catalog is offered, and no handle of the network is kept.
abbrev pub Withdrawn : IpcBridge → Type 0
Withdrawn b =
    All (λ svc. lookup svc.service_id b.discovery.offered_services ≡ none) service_catalog
    × (b.network_handle ≡ none)

-- The bridge holds a valid handle of the network `eth_ipc`, and with this one `n + 1` requests of the
-- network are outstanding.
pub record HoldsNetwork (n : ℕ) (b : IpcBridge) : Type 0 where
  pub handle : b.network_handle ≡ some (record { network_id = eth_ipc; valid = true })
  pub counted : Tracks eth_ipc (n + 1) b.nm

pub stop-lookup :
    (sd : ServiceDiscovery) (id j : ℕ)
    → lookup j (stop_offer_service sd id).offered_services
      ≡ (if id == j then none else lookup j sd.offered_services)
unfolding stop_offer_service
stop-lookup sd id j = elim (Option-cases (lookup id sd.offered_services)) [
  | inl e ↦ ground (arith, nat_eq_iff id j)
  | inr (svc, e) ↦ ground (arith, lookup-erase id j sd.offered_services)
]

pub stop_all-withdraws :
    (sd : ServiceDiscovery)
    → All
        (λ svc. lookup svc.service_id (stop_all sd service_catalog).offered_services ≡ none)
        service_catalog
stop_all-withdraws sd = simp stop-lookup (refl, (refl, (refl, (refl, (refl, (refl, (refl, tt)))))))

-- `Shutdown` gives the network back through the handle that it drops.
pub shut_down-Withdrawn :
    (b : IpcBridge)
    → Withdrawn (shut_down b)
      × ((shut_down b).running ≡ false)
      × ((shut_down b).nm ≡ release_handle b.network_handle b.nm)
unfolding shut_down stop_ipc_services
shut_down-Withdrawn b = ((stop_all-withdraws b.discovery, refl), refl, refl)

pub release-HoldsNetwork :
    (n : ℕ) (b : IpcBridge)
    → HoldsNetwork n b
    → Tracks eth_ipc n (release_handle b.network_handle b.nm)
unfolding close_handle
release-HoldsNetwork n b h = rw h.handle (
    subst (λ m. Tracks eth_ipc m (release_network b.nm eth_ipc).0) (omega arith)
      (release-Tracks b.nm eth_ipc (n + 1) eth_ipc h.counted))
