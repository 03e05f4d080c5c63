-- ===== src/SafetyMonitor/Loop.antt =====
-- The monitor's thread: `Run`, the calls that come while it sleeps, and the destructor
-- (src/application/SwcSafetyMonitor/SafetyMonitorService.cpp).
pub mod Ends
use my_auto_sar_ap.Prelude.{
  ℕ, ◌≤◌, ◌≡◌, ◌⊎◌, inl, inr, refl, subst, ◌∙◌, arith, Bool, true, false, not, ◌&&◌, ◌||◌, Option,
  none, some, List, [], ◌∷◌, if◌then◌else◌, Option-cases, String,
}
use my_auto_sar_ap.Sm.Runs.{IsHalted}
use my_auto_sar_ap.Phm.{GlobalSupervisionStatus, normal}
use my_auto_sar_ap.Phm
use my_auto_sar_ap.SafetyMonitor.{
  SafetyMonitor, SafetyLevel, level_code, level3_safe_stop, escalate_safety_level, check_mcu_status,
  check_phm_status, periodic_safety_check, init, shut_down, on_mcu_safety_status,
  set_safety_level_callback,
}
use my_auto_sar_ap.SafetyMonitor.Levels.{
  Op, inits, checks, shuts_down, reports, sets_callback, requests, step, run, IsSound, step-LeadsOn,
  escalate-Keeps,
}

-- A pass: the clock's reading and the calls that come during the sleep after it.
abbrev pub Pass : Type 0
Pass = ℕ × List Op

-- `Run` returns, is still in its loop when the passes end, or is undefined.
pub data RunResult : Type 0 where
  returned : SafetyMonitor → RunResult
  looping : SafetyMonitor → RunResult
  undefined : RunResult

unfoldable pub run_loop : SafetyMonitor → List Pass → RunResult
run_loop m [] = if m.running then looping m else returned m
run_loop m ((now, calls) ∷ passes) =
    let rest : RunResult = elim (run m (checks now ∷ calls)) [
      | none ↦ undefined
      | some m' ↦ run_loop m' passes
    ] in
    if m.running then rest else returned m

unfoldable pub run_service : SafetyMonitor → List Pass → RunResult
run_service m passes = run_loop (record m { running = true }) passes

-- The destructor.
unfoldable pub destroy : SafetyMonitor → SafetyMonitor
destroy m = if m.running then shut_down m else m

abbrev pub is_shut_down : Op → Bool
is_shut_down shuts_down = true
is_shut_down _ = false

abbrev pub asks_shut_down : List Op → Bool
asks_shut_down [] = false
asks_shut_down (op ∷ ops) = is_shut_down op || asks_shut_down ops

-- Whether a `Shutdown` comes while the thread sleeps.
abbrev pub stopped_in : List Pass → Bool
stopped_in [] = false
stopped_in ((now, calls) ∷ passes) = asks_shut_down calls || stopped_in passes

pub escalate-running :
    (m : SafetyMonitor) (level : SafetyLevel) (reason : String)
    → (escalate_safety_level m level reason).running ≡ m.running
unfolding escalate_safety_level
escalate-running m level reason = ground arith

pub mcu-running : (m : SafetyMonitor) → (check_mcu_status m).running ≡ m.running
unfolding check_mcu_status escalate_safety_level
mcu-running m = ground arith

pub phm-running :
    (m : SafetyMonitor) (s : GlobalSupervisionStatus) → (check_phm_status m s).running ≡ m.running
phm-running m Phm.GlobalSupervisionStatus.expired = escalate-running m _ _
phm-running m Phm.GlobalSupervisionStatus.failed = escalate-running m _ _
phm-running m Phm.GlobalSupervisionStatus.stopped = mcu-running m
phm-running m normal = mcu-running m

pub escalate_to :
    (m : SafetyMonitor) (level : SafetyLevel) (reason : String)
    → level_code level ≤ level_code (escalate_safety_level m level reason).current_level
unfolding escalate_safety_level
escalate_to m level reason = ground arith

-- The flag after a call, and the level that a shutdown leads to.
abbrev pub Flagged : Bool → SafetyMonitor → Option SafetyMonitor → Type 0
Flagged stops m none = Unit
Flagged stops m (some m') =
    (m'.running ≡ (m.running && not stops)) × ((stops ≡ false) ⊎ (3 ≤ level_code m'.current_level))

pub step-Flagged : (m : SafetyMonitor) (op : Op) → Flagged (is_shut_down op) m (step m op)
unfolding step init shut_down on_mcu_safety_status set_safety_level_callback periodic_safety_check
step-Flagged m (inits now) = (ground arith, inl refl)
step-Flagged m (checks now) = elim (Option-cases m.supervised_entity) [
  | inl e ↦ rw e tt
  | inr (se, e) ↦ rw e (phm-running _ _ ∙ ground arith, inl refl)
]
step-Flagged m shuts_down = (
  escalate-running (record m { running = false }) level3_safe_stop "Planned shutdown"
      ∙ ground arith,
  inr (escalate_to (record m { running = false }) level3_safe_stop "Planned shutdown"),
)
step-Flagged m (reports status) = (ground arith, inl refl)
step-Flagged m (sets_callback cb) = (ground arith, inl refl)
step-Flagged m (requests target) = (ground arith, inl refl)

pub both_safe :
    (a b : Bool) (l l' : ℕ)
    → (a ≡ false) ⊎ (3 ≤ l)
    → (b ≡ false) ⊎ (3 ≤ l')
    → l ≤ l'
    → ((a || b) ≡ false) ⊎ (3 ≤ l')
both_safe a b l l' (inr high) _ up = inr (omega (arith, high, up))
both_safe a b l l' (inl quiet) (inr high) up = inr high
both_safe a b l l' (inl quiet) (inl calm) up = inl (rw (quiet, calm) refl)

-- What a run of calls leaves.
pub record Ran (stops : Bool) (m : SafetyMonitor) (r : Option SafetyMonitor) : Type 0 where
  pub after : SafetyMonitor
  pub result : r ≡ some after
  pub sound : IsSound after
  pub up : level_code m.current_level ≤ level_code after.current_level
  pub flag : after.running ≡ (m.running && not stops)
  pub safe : (stops ≡ false) ⊎ (3 ≤ level_code after.current_level)

pub run-Ran :
    (m : SafetyMonitor) (ops : List Op) → IsSound m → Ran (asks_shut_down ops) m (run m ops)
unfolding run
run-Ran m [] s = record {
  after = m;
  result = refl;
  sound = s;
  up = omega arith;
  flag = ground arith;
  safe = inl refl;
}
run-Ran m (op ∷ ops) s =
    let (m1, e, sound, up) = step-LeadsOn m op s in
    let (flag, safe) = subst (Flagged (is_shut_down op) m) e (step-Flagged m op) in
    let rest = run-Ran m1 ops sound in
    record {
      after = rest.after;
      result = rw (e, run) rest.result;
      sound = rest.sound;
      up = omega (arith, up, rest.up);
      flag = ground (arith, flag, rest.flag);
      safe = both_safe _ _ _ _ safe rest.safe rest.up;
    }
