-- ===== src/SignalService/Subscription.antt =====
-- The proxy of the vehicle signal application and the application's life cycle:
-- src/application/SwcVehicleSignal/VehicleSignalService.h and .cpp. The proxy's callback in the service
-- discovery is `watcher`, the application's callback in the proxy `listener`; both run in the thread that
-- notifies them. `none` is a thread that waits forever for a mutex that it holds itself.
pub mod Runs
pub mod Simulated
use my_auto_sar_ap.Prelude.{
  ℕ, String, Bool, true, false, ◌&&◌, Option, none, some, List, [], ◌∷◌, nat_eq, if◌then◌else◌,
}
use my_auto_sar_ap.SomeIp.Discovery.{
  ServiceDiscovery, ServiceDescriptor, Event, availability, offer_service, stop_offer_service,
  subscribe_service_availability,
}
use my_auto_sar_ap.VehicleSignal.{SubscriptionState, not_subscribed, subscribed}
use my_auto_sar_ap.SignalService.{
  SignalService, VehicleSignals, default_signals, call, register_service, on_signal_received,
}

-- A call of the callback is an entry of `calls`, newest first.
pub record ServiceProxy : Type 0 where
  pub instance : String
  pub latest_signals : VehicleSignals
  pub callback : Option ℕ
  pub subscription_state : SubscriptionState
  pub calls : List (ℕ × VehicleSignals)

unfoldable pub make_proxy : String → ServiceProxy
make_proxy name = record {
  instance = name;
  latest_signals = default_signals;
  callback = none;
  subscription_state = not_subscribed;
  calls = [];
}

abbrev pub vehicle_signal_id : ℕ
vehicle_signal_id = 0x1001

abbrev pub watcher : ℕ
watcher = 1

abbrev pub listener : ℕ
listener = 1

-- The simulated first signals; 12.6 V is the bit pattern 0x4149999A.
abbrev pub init_signals : VehicleSignals
init_signals = record default_signals {
  vehicle_speed_kph = 0;
  battery_voltage = 0x4149999A;
  ignition_on = true;
}

-- The callback of the discovery, in a thread that holds the proxy's mutex or not.
unfoldable pub on_availability : Bool → ServiceProxy → Bool → Option ServiceProxy
on_availability locked p false = some p
on_availability true p true = none
on_availability false p true =
    some (record p { latest_signals = init_signals; calls = call p.callback init_signals p.calls })

abbrev pub after_event : Bool → Event → Option ServiceProxy → Option ServiceProxy
after_event locked e none = none
after_event locked (availability cb svc available) (some p) =
    if nat_eq cb watcher then on_availability locked p available else some p

-- The calls of the discovery's callbacks, the oldest of which is the last of the list.
unfoldable pub on_events : Bool → ServiceProxy → List Event → Option ServiceProxy
on_events locked p [] = some p
on_events locked p (e ∷ events) = after_event locked e (on_events locked p events)

-- The calls that an operation of the discovery makes.
abbrev pub news : (ServiceDiscovery → ServiceDiscovery) → ServiceDiscovery → List Event
news f sd = (f (record sd { trace = [] })).trace

unfoldable pub subscribe_vehicle_signals :
    ServiceDiscovery → ServiceProxy → ℕ → ServiceDiscovery × Option ServiceProxy
subscribe_vehicle_signals sd p cb =
    let watch : ServiceDiscovery → ServiceDiscovery =
      (λ d. subscribe_service_availability d vehicle_signal_id watcher) in
    (
      watch sd,
      on_events true (record p { callback = some cb; subscription_state = subscribed })
          (news watch sd),
    )

unfoldable pub unsubscribe_vehicle_signals : ServiceProxy → ServiceProxy
unsubscribe_vehicle_signals p = record p { subscription_state = not_subscribed; callback = none }

unfoldable pub get_current_signals : ServiceProxy → VehicleSignals
get_current_signals p = p.latest_signals

-- The application with the discovery that it shares with others.
pub record SignalApp : Type 0 where
  pub discovery : ServiceDiscovery
  pub proxy : ServiceProxy
  pub service : SignalService

-- `OnSignalReceived` for the calls of the proxy's callback, the oldest first.
unfoldable pub hand_over : SignalService → List (ℕ × VehicleSignals) → ℕ → SignalService
hand_over r [] now = r
hand_over r ((cb, signals) ∷ calls) now = on_signal_received (hand_over r calls now) signals now

abbrev pub settle : ServiceDiscovery → SignalService → ℕ → Option ServiceProxy → Option SignalApp
settle sd r now none = none
settle sd r now (some p) =
    some (record {
      discovery = sd;
      proxy = record p { calls = [] };
      service = hand_over r p.calls now;
    })

-- `Init`, which always returns true if it returns.
unfoldable pub init : SignalApp → ℕ → Option SignalApp
init a now =
    let (sd, p) = subscribe_vehicle_signals a.discovery a.proxy listener in
    settle sd (register_service a.service now) now p

unfoldable pub shut_down : SignalApp → SignalApp
shut_down a = record a {
  proxy = unsubscribe_vehicle_signals a.proxy;
  service = record (a.service) { running = false };
}

-- An operation of the discovery by another part of the platform.
unfoldable pub elsewhere : SignalApp → (ServiceDiscovery → ServiceDiscovery) → ℕ → Option SignalApp
elsewhere a f now =
    settle (f a.discovery) a.service now (on_events false a.proxy (news f a.discovery))

-- The destructor of the application.
unfoldable pub destroy : SignalApp → SignalApp
unfolding shut_down
destroy a = if a.service.running then shut_down a else a
