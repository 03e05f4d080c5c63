-- ===== src/SafetyMonitor/Loop/Ends.antt =====
-- When the monitor's `Run` ends (src/application/SwcSafetyMonitor/SafetyMonitorService.cpp).
use my_auto_sar_ap.Prelude.{
  ◌≤◌, ◌≡◌, ◌⊎◌, inl, inr, refl, arith, Bool, true, false, not, ◌&&◌, Option, List, [], ◌∷◌,
  if◌then◌else◌,
}
use my_auto_sar_ap.Sm.Runs.{IsHalted}
use my_auto_sar_ap.SafetyMonitor.{SafetyMonitor, level_code, level3_safe_stop, shut_down}
use my_auto_sar_ap.SafetyMonitor.Levels.{checks, IsSound, escalate-Keeps}
use my_auto_sar_ap.SafetyMonitor.Loop.{
  Pass, Ran, RunResult, looping, returned, run-Ran, run_loop, run_service, stopped_in,
}

if-result :
    (b : Bool) (x y : RunResult) (P : RunResult → Type 0)
    → (b ≡ true → P x)
    → (b ≡ false → P y)
    → P (if b then x else y)
if-result true x y P hx hy = hx refl
if-result false x y P hx hy = hy refl

abbrev Stops : RunResult → Type 0
Stops r =
    (m : SafetyMonitor) × (r ≡ returned m)
    × (3 ≤ level_code m.current_level)
    × IsHalted m.sm.current_state

-- A thread that is to stop is at level 3 or more.
abbrev Settled : SafetyMonitor → Type 0
Settled m = (m.running ≡ true) ⊎ (3 ≤ level_code m.current_level)

stop_here : (m : SafetyMonitor) → IsSound m → Settled m → m.running ≡ false → Stops (returned m)
stop_here m s (inl on) off = absurd (ground (arith, on, off))
stop_here m s (inr high) off = (
  m,
  refl,
  high,
  elim s.halted [ inl low ↦ absurd (omega (arith, low, high)) | inr halted ↦ halted ],
)

run-Settled :
    (stops : Bool) (m : SafetyMonitor) (r : Option SafetyMonitor) (ran : Ran stops m r)
    → m.running ≡ true
    → Settled ran.after
run-Settled stops m r ran on = elim ran.safe [
  | inl quiet ↦ inl (ground (arith, ran.flag, on, quiet))
  | inr high ↦ inr high
]

run_loop-Stops :
    (m : SafetyMonitor) (passes : List Pass)
    → IsSound m
    → Settled m
    → (m.running && not (stopped_in passes)) ≡ false
    → Stops (run_loop m passes)
unfolding run_loop
run_loop-Stops m [] s settled ends =
    if-result m.running _ _ Stops (λ on. absurd (ground (arith, ends, on))) (stop_here m s settled)
run_loop-Stops m ((now, calls) ∷ passes) s settled ends =
    let ran = run-Ran m (checks now ∷ calls) s in
    if-result m.running _ _ Stops
      (λ on. rw ran.result (
        run_loop-Stops ran.after passes ran.sound (run-Settled _ m _ ran on)
          (ground (arith, ran.flag, ends, on))))
      (stop_here m s settled)

-- A `Shutdown` that comes while the thread of a sound monitor sleeps ends `Run`, with the level at 3 or
-- more and the machine in Shutdown or Error, whatever other calls come.
pub run_service-stops :
    (m : SafetyMonitor) (passes : List Pass)
    → IsSound m
    → stopped_in passes ≡ true
    → (after : SafetyMonitor) × (run_service m passes ≡ returned after)
      × (3 ≤ level_code after.current_level)
      × IsHalted after.sm.current_state
unfolding run_service
run_service-stops m passes s h =
    run_loop-Stops (record m { running = true }) passes
      (record { entity = s.entity; halted = s.halted }) (inl refl) (ground (arith, h))

abbrev Loops : RunResult → Type 0
Loops r = (m : SafetyMonitor) × (r ≡ looping m)

run_loop-Loops :
    (m : SafetyMonitor) (passes : List Pass)
    → IsSound m
    → m.running ≡ true
    → stopped_in passes ≡ false
    → Loops (run_loop m passes)
unfolding run_loop
run_loop-Loops m [] s on h =
    if-result m.running _ _ Loops (λ _. (m, refl)) (λ off. absurd (ground (arith, on, off)))
run_loop-Loops m ((now, calls) ∷ passes) s on h =
    let ran = run-Ran m (checks now ∷ calls) s in
    if-result m.running _ _ Loops
      (λ _. rw ran.result (
        run_loop-Loops ran.after passes ran.sound (ground (arith, ran.flag, on, h))
          (ground (arith, h))))
      (λ off. absurd (ground (arith, on, off)))

-- A `Shutdown` that comes before the thread reaches `Run` is lost: the loop runs until another comes.
pub shut_down-lost :
    (m : SafetyMonitor) (passes : List Pass)
    → IsSound m
    → stopped_in passes ≡ false
    → (after : SafetyMonitor) × (run_service (shut_down m) passes ≡ looping after)
unfolding run_service shut_down
shut_down-lost m passes s h =
    let (kept, up) =
      escalate-Keeps (record m { running = false }) level3_safe_stop "Planned shutdown"
        (record { entity = s.entity; halted = s.halted }) in
    run_loop-Loops _ passes (record { entity = kept.entity; halted = kept.halted }) refl h
