-- ===== src/VehicleSignal/Threads/Complete.antt =====
-- What is accepted while the event stays subscribed (src/ara/com/vehicle_signal_proxy.cpp).
use my_auto_sar_ap.Prelude.{All, Bool, true, false, List, ◌∷◌, ◌≡◌, refl, ap, arith}
use my_auto_sar_ap.VehicleSignal.{is_subscribed, set_receive_handler, get_new_samples}
use my_auto_sar_ap.VehicleSignal.Threads.{
  Steps-keep, Threads, Act, Step, Steps, store, run_handler, pull_samples, locks, refuses, passes,
  stores, calls, max_set, marked, unsubscribed, unsubscribes, handler_set, pulled,
}
use my_auto_sar_ap.VehicleSignal.Threads.Order.{newest}

abbrev pub unsubscribes_now : Act → Bool
unsubscribes_now unsubscribes = true
unsubscribes_now _ = false

abbrev IsTaken : Threads → Type 0
IsTaken t = (is_subscribed t.event.state ≡ true) × (newest t.accepted ≡ t.handled)

Step-IsTaken :
    {a : Act} {t u : Threads} → unsubscribes_now a ≡ false → IsTaken t → Step t a u → IsTaken u
unfolding store run_handler pull_samples set_receive_handler get_new_samples
Step-IsTaken {t} stays h (locks s e) = h
Step-IsTaken {t} stays h (refuses e fails) = ground arith
Step-IsTaken {t} stays h (passes e holds) = h
Step-IsTaken {t} stays h (stores {s} e room) = (h.0, ap (λ l. s ∷ l) h.1)
Step-IsTaken {t} stays h (calls e) = h
Step-IsTaken stays h (max_set n) = h
Step-IsTaken stays h marked = (refl, h.1)
Step-IsTaken stays h unsubscribed = ground arith
Step-IsTaken stays h (handler_set g free) = h
Step-IsTaken stays h (pulled n free) = h

-- While the event stays subscribed, every sample that is pushed is accepted.
pub none_refused :
    {t u : Threads} (acts : List Act)
    → is_subscribed t.event.state ≡ true
    → newest t.accepted ≡ t.handled
    → All (λ a. unsubscribes_now a ≡ false) acts
    → Steps t acts u
    → newest u.accepted ≡ u.handled
none_refused acts on same stays run =
    (Steps-keep IsTaken (λ a. unsubscribes_now a ≡ false) (λ a v w q h st. Step-IsTaken q h st)
      stays (on, same) run).1
