-- ===== src/Platform/Mutexes/Order.antt =====
-- The order of the mutexes of src/application/*/*.cpp, and the calls that break it.
use my_auto_sar_ap.Prelude.{
  ℕ, zero, suc, ◌+◌, ◌<◌, ◌≡◌, ◌⊎◌, refl, arith, Bool, true, false, Option, none, some, List, [],
  ◌∷◌, All, map,
}
use my_auto_sar_ap.Platform.Locks.{
  LockAct, acquire, release, Thread, IsRanked, IsSafe, Schedule, done, next, here, there, any_moves,
  work, Schedule-ends,
}
use my_auto_sar_ap.SafetyMonitor.{
  level0_normal, level1_degraded, level2_min_risk, level3_safe_stop, level4_emergency,
}
use my_auto_sar_ap.Platform.Mutexes.{
  discovery_mutex, proxy_mutex, Program, on_signal_received, on_available, notify_all,
  offer_ipc_services, stop_ipc_services, escalate_safety_level, mutexes_of, mutexes_of_all, thread,
  Reception, accepts, refuses, reports, Escalation, stays, rises, offers, drains, waits, Call,
  inits_monitor, checks, shuts_down_monitor, gets_mcu_status, gets_snapshot, sets_safety_callback,
  inits_bridge, passes, shuts_down_bridge, sends_message, sends_frame, sets_bridge_callback,
  inits_app, reports_app, shuts_down_app, gets_current_signals, gets_latest_signals,
  sets_signal_callback,
}

-- A program that keeps to the order behind the mutexes that are held.
abbrev KeepsOrder : List ℕ → Program → Type 0
KeepsOrder held body = (rest : List LockAct) → IsRanked held rest → IsRanked held (body rest)

reception-KeepsOrder :
    (r : Reception) → KeepsOrder (proxy_mutex ∷ discovery_mutex ∷ []) (on_signal_received r)
reception-KeepsOrder accepts rest h = ground arith
reception-KeepsOrder refuses rest h = h
reception-KeepsOrder reports rest h = ground arith

watcher-KeepsOrder : (w : Option Reception) → KeepsOrder (discovery_mutex ∷ []) (on_available w)
watcher-KeepsOrder none rest h = ground arith
watcher-KeepsOrder (some s) rest h = ground (arith, reception-KeepsOrder s (release ∷ rest))

notify-KeepsOrder :
    (ws : List (Option Reception)) → KeepsOrder (discovery_mutex ∷ []) (notify_all ws)
notify-KeepsOrder [] rest h = h
notify-KeepsOrder (w ∷ ws) rest h = watcher-KeepsOrder w _ (notify-KeepsOrder ws rest h)

offers-KeepsOrder :
    (services : List (List (Option Reception))) → KeepsOrder [] (offer_ipc_services services)
offers-KeepsOrder [] rest h = h
offers-KeepsOrder (ws ∷ services) rest h =
    (tt, omega arith, notify-KeepsOrder ws _ (offers-KeepsOrder services rest h))

stops-KeepsOrder : (n : ℕ) → KeepsOrder [] (stop_ipc_services n)
stops-KeepsOrder zero rest h = h
stops-KeepsOrder (suc n) rest h = ground (arith, stops-KeepsOrder n rest h)

escalation-KeepsOrder : (e : Escalation) → KeepsOrder [] (escalate_safety_level e)
escalation-KeepsOrder stays rest h = h
escalation-KeepsOrder (rises level0_normal i o) rest h = h
escalation-KeepsOrder (rises level1_degraded true o) rest h = ground arith
escalation-KeepsOrder (rises level1_degraded false o) rest h = ground arith
escalation-KeepsOrder (rises level2_min_risk true true) rest h = ground arith
escalation-KeepsOrder (rises level2_min_risk true false) rest h = ground arith
escalation-KeepsOrder (rises level2_min_risk false true) rest h = ground arith
escalation-KeepsOrder (rises level2_min_risk false false) rest h = ground arith
escalation-KeepsOrder (rises level3_safe_stop i o) rest h = ground arith
escalation-KeepsOrder (rises level4_emergency i o) rest h = ground arith

-- Whether a call subscribes to the signals.
abbrev pub is_subscription : Call → Bool
is_subscription (inits_app offered) = true
is_subscription _ = false

call-KeepsOrder : (c : Call) → is_subscription c ≡ false → KeepsOrder [] (mutexes_of c)
call-KeepsOrder (inits_monitor true) s rest h = ground arith
call-KeepsOrder (inits_monitor false) s rest h = ground arith
call-KeepsOrder (checks true e) s rest h = ground (arith, escalation-KeepsOrder e rest)
call-KeepsOrder (checks false e) s rest h = ground (arith, escalation-KeepsOrder e rest)
call-KeepsOrder (shuts_down_monitor e) s rest h = escalation-KeepsOrder e rest h
call-KeepsOrder gets_mcu_status s rest h = ground arith
call-KeepsOrder gets_snapshot s rest h = ground arith
call-KeepsOrder sets_safety_callback s rest h = ground arith
call-KeepsOrder (inits_bridge true true) s rest h = ground arith
call-KeepsOrder (inits_bridge true false) s rest h = ground arith
call-KeepsOrder (inits_bridge false true) s rest h = ground arith
call-KeepsOrder (inits_bridge false false) s rest h = ground arith
call-KeepsOrder (passes (offers services)) s rest h =
    ground (arith, offers-KeepsOrder services rest)
call-KeepsOrder (passes drains) s rest h = ground arith
call-KeepsOrder (passes waits) s rest h = ground arith
call-KeepsOrder (shuts_down_bridge n true) s rest h = stops-KeepsOrder n _ (tt, omega arith, h)
call-KeepsOrder (shuts_down_bridge n false) s rest h = stops-KeepsOrder n rest h
call-KeepsOrder (sends_message true) s rest h = ground arith
call-KeepsOrder (sends_message false) s rest h = h
call-KeepsOrder sends_frame s rest h = ground arith
call-KeepsOrder sets_bridge_callback s rest h = ground arith
call-KeepsOrder (inits_app offered) s rest h = ground arith
call-KeepsOrder reports_app s rest h = ground arith
call-KeepsOrder shuts_down_app s rest h = ground arith
call-KeepsOrder gets_current_signals s rest h = ground arith
call-KeepsOrder gets_latest_signals s rest h = ground arith
call-KeepsOrder sets_signal_callback s rest h = ground arith

abbrev pub HasNoSubscription : List Call → Type 0
HasNoSubscription calls = All (λ c. is_subscription c ≡ false) calls

calls-IsRanked : (calls : List Call) → HasNoSubscription calls → IsRanked [] (mutexes_of_all calls)
calls-IsRanked [] plain = refl
calls-IsRanked (c ∷ cs) plain = call-KeepsOrder c plain.0 _ (calls-IsRanked cs plain.1)

threads-IsSafe :
    (threads : List (List Call)) → All HasNoSubscription threads → All IsSafe (map thread threads)
threads-IsSafe [] plain = tt
threads-IsSafe (calls ∷ threads) plain =
    (calls-IsRanked calls plain.0, threads-IsSafe threads plain.1)

-- Any number of threads may make any calls of the three applications, `Init` of the vehicle signal
-- application aside, on whatever branches: under every schedule some thread can go on until all have
-- finished, which they have after as many steps as there are mutexes to take and to give back.
pub threads-end :
    {ts : List Thread} (threads : List (List Call)) (n : ℕ)
    → All HasNoSubscription threads
    → Schedule (map thread threads) n ts
    → (n + work ts ≡ work (map thread threads)) × ((work ts ≡ 0) ⊎ (any_moves ts ts ≡ true))
threads-end threads n plain run = Schedule-ends n (threads-IsSafe threads plain) run

-- What is left when each of two threads holds the mutex that the other one wants.
abbrev embraced : Option Reception → List LockAct → List LockAct → List Thread
embraced w rest others =
    record { held = proxy_mutex ∷ []; todo = acquire discovery_mutex ∷ release ∷ release ∷ rest }
    ∷ record { held = discovery_mutex ∷ []; todo = on_available w others }
    ∷ []

embraced-stuck :
    (w : Option Reception) (rest others : List LockAct)
    → any_moves (embraced w rest others) (embraced w rest others) ≡ false
embraced-stuck none rest others = refl
embraced-stuck (some r) rest others = refl

-- If the application subscribes again while the bridge offers the service, of which the proxy is a
-- watcher already, both threads can come to wait for each other: one holds the proxy's mutex and
-- waits for the discovery's, the other one holds this and waits for that.
pub subscribe-offer :
    (w : Option Reception) (ws : List (Option Reception))
    (services : List (List (Option Reception)))
    → (ts : List Thread) × Schedule
        (map thread ((inits_app none ∷ []) ∷ (passes (offers ((w ∷ ws) ∷ services)) ∷ []) ∷ []))
        6
        ts
      × (any_moves ts ts ≡ false)
      × (0 < work ts)
subscribe-offer w ws services = (
  embraced w [] (notify_all ws (release ∷ offer_ipc_services services [])),
  next
      (next
        (next (next (next (next done (here _ refl)) (here _ refl)) (here _ refl))
          (there _ (here _ refl)))
        (there _ (here _ refl)))
      (there _ (here _ refl)),
  embraced-stuck w [] _,
  omega arith,
)
