-- ===== src/Sm/Runs.antt =====
-- Sequences of `RequestMachineStateChange` calls (src/ara/sm/sm.cpp): what is reached, what is
-- never left, and what the callback sees.
use my_auto_sar_ap.Prelude.{
  ℕ, ◌≤◌, ◌≡◌, ◌≢◌, ◌⊎◌, inl, inr, refl, arith, List, [], ◌∷◌, some, length,
}
use my_auto_sar_ap.Sm.{
  MachineState, startup, driving, parked, charging, shutdown, error, StateManagement, Event,
  machine_changed, group_changed, error_logged, request_machine_state_change, is_valid_transition,
}
use my_auto_sar_ap.Sm.Machine.{◌⟶◌, is_valid_transition-⟶}

unfoldable pub run : StateManagement → List MachineState → StateManagement
run s [] = s
run s (m ∷ ms) = run (request_machine_state_change s m).0 ms

abbrev pub IsHalted : MachineState → Type 0
IsHalted m = (m ≡ shutdown) ⊎ (m ≡ error)

pub request-IsHalted :
    (s : StateManagement) (m : MachineState)
    → IsHalted s.current_state
    → IsHalted (request_machine_state_change s m).0.current_state
unfolding request_machine_state_change is_valid_transition
request-IsHalted s m h = ground arith

-- Once the machine is in Shutdown or in Error, every sequence of requests leaves it in one of the
-- two.
pub run-IsHalted :
    (s : StateManagement) (ms : List MachineState)
    → IsHalted s.current_state
    → IsHalted (run s ms).current_state
unfolding run
run-IsHalted s [] h = h
run-IsHalted s (m ∷ ms) h =
    run-IsHalted (request_machine_state_change s m).0 ms (request-IsHalted s m h)

-- The requests that take the machine from one running state to any state but Startup.
abbrev pub route : MachineState → MachineState → List MachineState
route startup charging = parked ∷ charging ∷ []
route driving charging = parked ∷ charging ∷ []
route charging driving = parked ∷ driving ∷ []
route from to = to ∷ []

route_from :
    (from to : MachineState) (s : StateManagement)
    → s.current_state ≡ from
    → ¬ IsHalted from
    → to ≢ startup
    → ((run s (route from to)).current_state ≡ to) × (length (route from to) ≤ 2)
unfolding run request_machine_state_change is_valid_transition
route_from from startup s e h k = absurd (k refl)
route_from shutdown _ s e h k = absurd (h (inl refl))
route_from error _ s e h k = absurd (h (inr refl))
route_from _ _ s e h k = (ground arith, omega arith)

-- From every state but Shutdown and Error, at most two requests lead to any state but Startup.
pub run-route :
    (s : StateManagement) (to : MachineState)
    → ¬ IsHalted s.current_state
    → to ≢ startup
    → ((run s (route s.current_state to)).current_state ≡ to)
      × (length (route s.current_state to) ≤ 2)
run-route s to h k = route_from s.current_state to s refl h k

-- A trace of calls of the machine callback, newest first, that leads from `start` to `now`: each
-- call reports an edge of the diagram between two different states, and begins where the one
-- before it ended.
abbrev pub Linked : MachineState → List Event → MachineState → Type 0
Linked start [] now = now ≡ start
Linked start (machine_changed cb old target ∷ t) now =
    (target ≡ now) × (old ≢ now) × (old ⟶ now) × Linked start t old
Linked start (group_changed cb old target ∷ t) now = ⊥
Linked start (error_logged reason ∷ t) now = ⊥

request-Linked :
    (start : MachineState) (s : StateManagement) (m : MachineState) (cb : ℕ)
    → s.machine_state_callback ≡ some cb
    → Linked start s.trace s.current_state
    → let t = (request_machine_state_change s m).0 in
      Linked start t.trace t.current_state × (t.machine_state_callback ≡ some cb)
unfolding request_machine_state_change
request-Linked start s m cb h l = ground (arith, is_valid_transition-⟶ s.current_state m)

-- If a callback is registered and its calls so far form a path of the diagram from a first state to
-- the current one, then after any requests they form a path from the same first state to the one that
-- is then current: no change of state is left out.
pub run-Linked :
    (start : MachineState) (s : StateManagement) (ms : List MachineState) (cb : ℕ)
    → s.machine_state_callback ≡ some cb
    → Linked start s.trace s.current_state
    → Linked start (run s ms).trace (run s ms).current_state
unfolding run
run-Linked start s [] cb h l = l
run-Linked start s (m ∷ ms) cb h l =
    let (linked, kept) = request-Linked start s m cb h l in
    run-Linked start (request_machine_state_change s m).0 ms cb kept linked
