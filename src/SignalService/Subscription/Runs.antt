-- ===== src/SignalService/Subscription/Runs.antt =====
-- When the application's `Init` returns, and the signals that it ever shows
-- (src/application/SwcVehicleSignal/VehicleSignalService.cpp).
use my_auto_sar_ap.Prelude.{
  ℕ, ◌≡◌, inl, inr, refl, ap, ◌∙◌, Bool, true, false, Option, none, some, [], if◌then◌else◌, ℕ_eq,
  Option-cases,
}
use my_auto_sar_ap.Prelude.Map.{lookup}
use my_auto_sar_ap.SomeIp.Discovery.{
  ServiceDiscovery, ServiceDescriptor, subscribe_service_availability,
}
use my_auto_sar_ap.VehicleSignal.{subscribed}
use my_auto_sar_ap.IpcBridge.{IpcBridge}
use my_auto_sar_ap.IpcBridge.Queues.{IsUp}
use my_auto_sar_ap.SignalService.{SignalService, register_service}
use my_auto_sar_ap.SignalService.Subscription.{
  ServiceProxy, SignalApp, init, settle, subscribe_vehicle_signals, on_events, on_availability,
  hand_over, watcher, listener, vehicle_signal_id, news,
}

-- The application after an `Init` that returns.
abbrev pub initialized : SignalApp → ℕ → SignalApp
initialized a now = record {
  discovery = subscribe_service_availability a.discovery vehicle_signal_id watcher;
  proxy = record (a.proxy) {
    callback = some listener;
    subscription_state = subscribed;
    calls = [];
  };
  service = register_service a.service now;
}

abbrev pub is_some : Option ServiceDescriptor → Bool
is_some none = false
is_some (some svc) = true

abbrev pub is_offered : ServiceDiscovery → Bool
is_offered sd = is_some (lookup vehicle_signal_id sd.offered_services)

subscribe-events :
    (sd : ServiceDiscovery) (p : ServiceProxy)
    → on_events true p (news (λ d. subscribe_service_availability d vehicle_signal_id watcher) sd)
      ≡ (if is_offered sd then none else some p)
unfolding subscribe_service_availability on_events on_availability
subscribe-events sd p = elim (Option-cases (lookup vehicle_signal_id sd.offered_services)) [
  | inl e ↦ rw (e, is_offered)
  | inr (svc, e) ↦ rw (e, is_offered)
]

settle_if :
    (b : Bool) (sd : ServiceDiscovery) (r : SignalService) (now : ℕ) (p : ServiceProxy)
    → p.calls ≡ []
    → settle sd r now (if b then none else some p) ≡ (
        if b
        then none
        else some (record { discovery = sd; proxy = record p { calls = [] }; service = r }))
unfolding hand_over
settle_if true sd r now p idle = refl
settle_if false sd r now p idle =
    ap
      (λ calls. some (record {
        discovery = sd;
        proxy = record p { calls = [] };
        service = hand_over r calls now;
      }))
      idle

-- If the vehicle signal service is offered, `Init` waits for a mutex that it holds and never returns; if
-- it is not, `Init` returns, subscribed, and has handed no signals to the application.
pub init-cases :
    (a : SignalApp) (now : ℕ)
    → a.proxy.calls ≡ []
    → init a now ≡ (if is_offered a.discovery then none else some (initialized a now))
unfolding init subscribe_vehicle_signals
init-cases a now idle =
    ap (settle _ (register_service a.service now) now) (subscribe-events a.discovery _)
    ∙ settle_if (is_offered a.discovery) _ (register_service a.service now) now _ idle

-- Once the IPC bridge is up, the application's `Init` on the same discovery never returns.
pub init-IsUp :
    (a : SignalApp) (b : IpcBridge) (now : ℕ)
    → IsUp b
    → a.proxy.calls ≡ []
    → init (record a { discovery = b.discovery }) now ≡ none
init-IsUp a b now (_, (offered, _)) idle =
    init-cases (record a { discovery = b.discovery }) now idle
    ∙ ap
        (λ o.
          if is_some o then none else some (initialized (record a { discovery = b.discovery }) now))
        offered
