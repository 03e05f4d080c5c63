-- ===== src/SignalService/Subscription/Simulated.antt =====
-- The signals that the application ever shows
-- (src/application/SwcVehicleSignal/VehicleSignalService.cpp).
use my_auto_sar_ap.Prelude.{
  ℕ, ◌≡◌, ◌⊎◌, inl, inr, refl, sym, subst, arith, Bool, true, false, Option, none, some, List, [],
  ◌∷◌, All, nat_eq, if◌then◌else◌, Option-cases,
}
use my_auto_sar_ap.SomeIp.Discovery.{ServiceDiscovery, Event, availability}
use my_auto_sar_ap.SomeIp.Discovery.Views
use my_auto_sar_ap.SignalService.{
  SignalService, VehicleSignals, default_signals, call, register_service, on_signal_received,
  validate_e2e, after_check, run_pass, set_signal_change_callback,
}
use my_auto_sar_ap.SignalService.Subscription.{
  ServiceProxy, SignalApp, init, shut_down, elsewhere, settle, subscribe_vehicle_signals,
  unsubscribe_vehicle_signals, on_events, after_event, on_availability, hand_over, watcher,
  init_signals,
}

-- The calls of the application, and any call of the service discovery by others.
pub data Op : Type 0 where
  starts : ℕ → Op
  polls : ℕ → Op
  ends : Op
  sets_callback : Option ℕ → Op
  sees : Views.Op → ℕ → Op

unfoldable pub step : SignalApp → Op → Option SignalApp
step a (starts now) = init a now
step a (polls now) = some (record a { service = run_pass a.service now })
step a ends = some (shut_down a)
step a (sets_callback cb) = some (record a { service = set_signal_change_callback a.service cb })
step a (sees op now) = elsewhere a (λ sd. Views.step sd op) now

unfoldable pub run : SignalApp → List Op → Option SignalApp
run a [] = some a
run a (op ∷ ops) = elim (step a op) [ none ↦ none | some a' ↦ run a' ops ]

abbrev pub IsBuiltIn : VehicleSignals → Type 0
IsBuiltIn signals = (signals ≡ default_signals) ⊎ (signals ≡ init_signals)

abbrev AllSimulated : List (ℕ × VehicleSignals) → Type 0
AllSimulated = All (λ entry. entry.1 ≡ init_signals)

-- Nothing but the built-in signals is kept or handed over, and no error of the counter is counted.
pub record IsSimulated (a : SignalApp) : Type 0 where
  pub current : IsBuiltIn a.proxy.latest_signals
  pub latest : IsBuiltIn a.service.latest_signals
  pub shown : All (λ entry. entry.1 ≡ init_signals) a.service.trace
  pub counter : a.service.last_e2e_counter ≡ 0
  pub errors : a.service.e2e_error_count ≡ 0
  pub waiting : a.proxy.calls ≡ []

record Quiet (p : ServiceProxy) : Type 0 where
  latest : IsBuiltIn p.latest_signals
  calls : AllSimulated p.calls

abbrev QuietIf : Option ServiceProxy → Type 0
QuietIf none = Unit
QuietIf (some p) = Quiet p

call-AllSimulated :
    (cb : Option ℕ) (t : List (ℕ × VehicleSignals))
    → AllSimulated t
    → AllSimulated (call cb init_signals t)
call-AllSimulated none t h = h
call-AllSimulated (some cb) t h = (refl, h)

availability-QuietIf :
    (locked available : Bool) (p : ServiceProxy)
    → Quiet p
    → QuietIf (on_availability locked p available)
unfolding on_availability
availability-QuietIf locked false p q = q
availability-QuietIf true true p q = tt
availability-QuietIf false true p q = record {
  latest = inr refl;
  calls = call-AllSimulated p.callback p.calls q.calls;
}

if-QuietIf :
    (b : Bool) (x y : Option ServiceProxy) → QuietIf x → QuietIf y → QuietIf (if b then x else y)
if-QuietIf true x y hx hy = hx
if-QuietIf false x y hx hy = hy

event-QuietIf :
    (locked : Bool) (e : Event) (o : Option ServiceProxy)
    → QuietIf o
    → QuietIf (after_event locked e o)
event-QuietIf locked e none q = tt
event-QuietIf locked (availability cb svc available) (some p) q =
    if-QuietIf (nat_eq cb watcher) _ _ (availability-QuietIf locked available p q) q

events-QuietIf :
    (locked : Bool) (p : ServiceProxy) (events : List Event)
    → Quiet p
    → QuietIf (on_events locked p events)
unfolding on_events
events-QuietIf locked p [] q = q
events-QuietIf locked p (e ∷ events) q = event-QuietIf locked e _ (events-QuietIf locked p events q)

-- What a service keeps when the simulated signals arrive.
record Calm (r : SignalService) : Type 0 where
  latest : IsBuiltIn r.latest_signals
  shown : AllSimulated r.trace
  counter : r.last_e2e_counter ≡ 0
  errors : r.e2e_error_count ≡ 0

-- A service that has kept the counter 0 takes any frame.
validate_zero :
    (r : SignalService) (s : VehicleSignals)
    → r.last_e2e_counter ≡ 0
    → validate_e2e r s ≡ (record r { last_e2e_counter = s.e2e_counter_value }, true)
unfolding validate_e2e
validate_zero r s e = ground arith

on_signal-Calm :
    (r : SignalService) (signals : VehicleSignals) (now : ℕ)
    → signals ≡ init_signals
    → Calm r
    → Calm (on_signal_received r signals now)
unfolding on_signal_received
on_signal-Calm r signals now e c =
    subst (λ s. Calm (on_signal_received r s now)) (sym e)
      (subst (λ q. Calm (after_check q init_signals now))
        (sym (validate_zero r init_signals c.counter))
        (record {
          latest = inr refl;
          shown = call-AllSimulated r.external_callback r.trace c.shown;
          counter = refl;
          errors = c.errors;
        }))

hand_over-Calm :
    (r : SignalService) (calls : List (ℕ × VehicleSignals)) (now : ℕ)
    → AllSimulated calls
    → Calm r
    → Calm (hand_over r calls now)
unfolding hand_over
hand_over-Calm r [] now all c = c
hand_over-Calm r ((cb, signals) ∷ calls) now (e, all) c =
    on_signal-Calm (hand_over r calls now) signals now e (hand_over-Calm r calls now all c)

abbrev SimulatedIf : Option SignalApp → Type 0
SimulatedIf none = Unit
SimulatedIf (some a) = IsSimulated a

settle-SimulatedIf :
    (sd : ServiceDiscovery) (r : SignalService) (now : ℕ) (o : Option ServiceProxy)
    → QuietIf o
    → Calm r
    → SimulatedIf (settle sd r now o)
settle-SimulatedIf sd r now none q c = tt
settle-SimulatedIf sd r now (some p) q c =
    let c' = hand_over-Calm r p.calls now q.calls c in
    record {
      current = q.latest;
      latest = c'.latest;
      shown = c'.shown;
      counter = c'.counter;
      errors = c'.errors;
      waiting = refl;
    }

quiet : (a : SignalApp) → IsSimulated a → Quiet a.proxy
quiet a s = record { latest = s.current; calls = subst AllSimulated (sym s.waiting) tt }

step-SimulatedIf : (a : SignalApp) (op : Op) → IsSimulated a → SimulatedIf (step a op)
unfolding step init subscribe_vehicle_signals shut_down elsewhere unsubscribe_vehicle_signals
    register_service run_pass set_signal_change_callback
step-SimulatedIf a (starts now) s =
    let q = quiet a s in
    settle-SimulatedIf _ _ now _
      (events-QuietIf true _ _ (record { latest = q.latest; calls = q.calls }))
      (record { latest = s.latest; shown = s.shown; counter = s.counter; errors = s.errors })
step-SimulatedIf a (polls now) s = record {
  current = s.current;
  latest = s.latest;
  shown = s.shown;
  counter = s.counter;
  errors = s.errors;
  waiting = s.waiting;
}
step-SimulatedIf a ends s = record {
  current = s.current;
  latest = s.latest;
  shown = s.shown;
  counter = s.counter;
  errors = s.errors;
  waiting = s.waiting;
}
step-SimulatedIf a (sets_callback cb) s = record {
  current = s.current;
  latest = s.latest;
  shown = s.shown;
  counter = s.counter;
  errors = s.errors;
  waiting = s.waiting;
}
step-SimulatedIf a (sees op now) s =
    settle-SimulatedIf _ a.service now _ (events-QuietIf false a.proxy _ (quiet a s))
      (record { latest = s.latest; shown = s.shown; counter = s.counter; errors = s.errors })

run-SimulatedIf : (a : SignalApp) (ops : List Op) → IsSimulated a → SimulatedIf (run a ops)
unfolding run
run-SimulatedIf a [] s = s
run-SimulatedIf a (op ∷ ops) s = elim (Option-cases (step a op)) [
  | inl e ↦ rw (e, run) tt
  | inr (a', e) ↦
      let kept = subst SimulatedIf e (step-SimulatedIf a op s) in
      rw (e, run) (run-SimulatedIf a' ops kept)
]

-- No signal of a vehicle ever reaches the application: after any calls of it and of the service
-- discovery, in any order, that return, the signals that it keeps are those of the constructor or the
-- simulated first ones, its callback has been given only the latter, and no frame was refused.
pub run-IsSimulated :
    (a after : SignalApp) (ops : List Op)
    → IsSimulated a
    → run a ops ≡ some after
    → IsSimulated after
run-IsSimulated a after ops s e = subst SimulatedIf e (run-SimulatedIf a ops s)
