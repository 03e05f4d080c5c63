-- ===== src/Platform/Violation.antt =====
-- An ASIL-D violation, from the MCU's report to the end, on the platform that the applications of
-- src/application share.
use my_auto_sar_ap.Prelude.{
  ℕ, ◌≤◌, ◌≡◌, ◌≢◌, inl, inr, refl, ap, subst, ◌∙◌, arith, true, false, Option, none, some, List,
  [], ◌∷◌, ◌++◌, Option-cases,
}
use my_auto_sar_ap.Sm.Runs.{IsHalted}
use my_auto_sar_ap.SafetyMonitor.{
  McuSafetyStatus, level_code, level4_emergency, on_mcu_safety_status,
}
use my_auto_sar_ap.SafetyMonitor.Levels
use my_auto_sar_ap.SafetyMonitor.Levels.{IsSound, step-LeadsOn, checks, reports}
use my_auto_sar_ap.SafetyMonitor.Emergency.{violation-stops, highest}
use my_auto_sar_ap.Platform.{
  Platform, Op, monitors, starts_bridge, bridges, stops_bridge, signals, supervises, step, run,
  monitor_of, put_monitor, after_monitor,
}
use my_auto_sar_ap.Platform.Supervision.{IsFine-normal, checkpoint-IsFine}
use my_auto_sar_ap.Platform.Status.{IsGood, Keeps, KeepsIf, no_report, reports_mcu, step-KeepsIf}

-- The platform after the MCU's report.
abbrev pub told : Platform → McuSafetyStatus → Platform
told p status = put_monitor p (on_mcu_safety_status (monitor_of p) status)

told-IsGood : (p : Platform) (status : McuSafetyStatus) → IsGood p → IsGood (told p status)
unfolding on_mcu_safety_status
told-IsGood p status g = record {
  fine = g.fine;
  sound = record { entity = g.sound.entity; halted = g.sound.halted };
}

-- What any call leaves.
record Grows (p q : Platform) : Type 0 where
  good : IsGood q
  up : level_code p.monitor.current_level ≤ level_code q.monitor.current_level

abbrev GrowsIf : Platform → Option Platform → Type 0
GrowsIf p none = Unit
GrowsIf p (some q) = Grows p q

weaken : (p : Platform) (o : Option Platform) → KeepsIf p o → GrowsIf p o
weaken p none k = tt
weaken p (some q) k = record { good = k.good; up = k.up }

told-Grows : (p : Platform) (status : McuSafetyStatus) → IsGood p → Grows p (told p status)
unfolding on_mcu_safety_status
told-Grows p status g = record { good = told-IsGood p status g; up = omega arith }

other-GrowsIf : (p : Platform) (op : Op) → reports_mcu op ≡ false → IsGood p → GrowsIf p (step p op)
other-GrowsIf p op other g = weaken p (step p op) (step-KeepsIf p op other g)

step-GrowsIf : (p : Platform) (op : Op) → IsGood p → GrowsIf p (step p op)
unfolding step Levels.step
step-GrowsIf p (monitors (reports status)) g = told-Grows p status g
step-GrowsIf p (monitors (Levels.inits now)) g =
    other-GrowsIf p (monitors (Levels.inits now)) refl g
step-GrowsIf p (monitors (checks now)) g = other-GrowsIf p (monitors (checks now)) refl g
step-GrowsIf p (monitors Levels.shuts_down) g = other-GrowsIf p (monitors Levels.shuts_down) refl g
step-GrowsIf p (monitors (Levels.sets_callback cb)) g =
    other-GrowsIf p (monitors (Levels.sets_callback cb)) refl g
step-GrowsIf p (monitors (Levels.requests target)) g =
    other-GrowsIf p (monitors (Levels.requests target)) refl g
step-GrowsIf p (starts_bridge now later) g = other-GrowsIf p (starts_bridge now later) refl g
step-GrowsIf p (bridges op) g = other-GrowsIf p (bridges op) refl g
step-GrowsIf p stops_bridge g = other-GrowsIf p stops_bridge refl g
step-GrowsIf p (signals op) g = other-GrowsIf p (signals op) refl g
step-GrowsIf p (supervises op) g = other-GrowsIf p (supervises op) refl g

nothing {ℓ} : {A : Type ℓ} (a : A) → none ≢ some a
nothing a e = ground (arith, e)

run-Grows : (p q : Platform) (ops : List Op) → IsGood p → run p ops ≡ some q → Grows p q
unfolding run
run-Grows p q [] g e = subst (GrowsIf p) e (record { good = g; up = omega arith })
run-Grows p q (op ∷ ops) g e = elim (Option-cases (step p op)) [
  | inl stuck ↦ absurd (nothing q (rw (stuck, run) at e))
  | inr (p', s) ↦
      let one = subst (GrowsIf p) s (step-GrowsIf p op g) in
      let rest = run-Grows p' q ops one.good (rw (s, run) at e) in
      record { good = rest.good; up = omega (arith, one.up, rest.up) }
]

run-Keeps :
    (p q : Platform) (ops : List Op)
    → no_report ops ≡ true
    → IsGood p
    → run p ops ≡ some q
    → Keeps p q
unfolding run
run-Keeps p q [] h g e = subst (KeepsIf p) e (record { good = g; up = omega arith; status = refl })
run-Keeps p q (op ∷ ops) h g e = elim (Option-cases (step p op)) [
  | inl stuck ↦ absurd (nothing q (rw (stuck, run) at e))
  | inr (p', s) ↦
      let one = subst (KeepsIf p) s (step-KeepsIf p op (ground (arith, h)) g) in
      let rest = run-Keeps p' q ops (ground (arith, h)) one.good (rw (s, run) at e) in
      record {
        good = rest.good;
        up = omega (arith, one.up, rest.up);
        status = rest.status ∙ one.status;
      }
]

-- A run of two lists of calls goes through a platform between them.
run-between :
    (p q : Platform) (xs ys : List Op)
    → run p (xs ++ ys) ≡ some q
    → (m : Platform) × (run p xs ≡ some m) × (run m ys ≡ some q)
unfolding run
run-between p q [] ys e = (p, refl, e)
run-between p q (op ∷ xs) ys e = elim (Option-cases (step p op)) [
  | inl stuck ↦ absurd (nothing q (rw (stuck, run) at e))
  | inr (p', s) ↦
      let (m, first, second) = run-between p' q xs ys (rw (s, run) at e) in
      (m, rw (s, run) first, second)
]

-- A check of a good platform whose last MCU status has an ASIL-D violation.
check_violated :
    (p : Platform) (now : ℕ)
    → IsGood p
    → p.monitor.last_mcu_status.asil_d_violation ≡ true
    → (q : Platform) × (step p (monitors (checks now)) ≡ some q)
      × IsGood q
      × (q.monitor.current_level ≡ level4_emergency)
unfolding step Levels.step on_mcu_safety_status
check_violated p now g violated =
    let (se, present) = g.sound.entity in
    let fine = IsFine-normal _ (checkpoint-IsFine p.phm se now g.fine) in
    let (m, e, top, halted) =
      violation-stops (monitor_of p) p.monitor.last_mcu_status se now g.sound present violated
        fine in
    let q = put_monitor p m in
    let good =
      subst (GrowsIf p) (ap (after_monitor p) e) (step-GrowsIf p (monitors (checks now)) g) in
    (q, ap (after_monitor p) e, good.good, top)

-- If the MCU reports an ASIL-D violation, then any calls of the three applications and of the managers
-- may come, in any order, but no other report of the MCU, before the monitor's next check; after it, and
-- whatever is called later, the safety level is 4 and the machine is in Shutdown or Error. The platform
-- must have a sound monitor, and no entity with a status other than Ok, at first.
pub violation-halts :
    (p q : Platform) (status : McuSafetyStatus) (before after : List Op) (now : ℕ)
    → IsGood p
    → status.asil_d_violation ≡ true
    → no_report before ≡ true
    → run p (monitors (reports status) ∷ (before ++ monitors (checks now) ∷ after)) ≡ some q
    → (q.monitor.current_level ≡ level4_emergency) × IsHalted q.sm.current_state
unfolding run step Levels.step on_mcu_safety_status
violation-halts p q status before after now g violated quiet e =
    let (p1, to_check, rest) =
      run-between (told p status) q before (monitors (checks now) ∷ after) e in
    let k = run-Keeps (told p status) p1 before quiet (told-IsGood p status g) to_check in
    let (p2, checked, good, top) =
      check_violated p1 now k.good (ap (λ s. s.asil_d_violation) k.status ∙ violated) in
    let grows = run-Grows p2 q after good (rw (checked, run) at rest) in
    let top' = highest q.monitor.current_level (omega (arith, ap level_code top, grows.up)) in
    (
      top',
      elim grows.good.sound.halted [
        | inl low ↦ absurd (omega (arith, low, ap level_code top'))
        | inr halted ↦ halted
      ],
    )
