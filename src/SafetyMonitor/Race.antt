-- ===== src/SafetyMonitor/Race.antt =====
-- `EscalateSafetyLevel` in two threads: the level is read and tested first, and stored later
-- (src/application/SwcSafetyMonitor/SafetyMonitorService.cpp).
use my_auto_sar_ap.Prelude.{◌<◌, ◌≡◌, refl, arith, Bool, true, not, String, leb, if◌then◌else◌}
use my_auto_sar_ap.Sm.Runs.{IsHalted}
use my_auto_sar_ap.SafetyMonitor.{
  SafetyMonitor, SafetyLevel, level_code, level3_safe_stop, level4_emergency, escalate_safety_level,
  execute_safety_action, call,
}
use my_auto_sar_ap.SafetyMonitor.Levels.{action-IsHalted}

-- The load and the test.
unfoldable pub passes_test : SafetyMonitor → SafetyLevel → Bool
passes_test m level = not (leb (level_code level) (level_code m.current_level))

-- The store and what follows.
unfoldable pub commit : SafetyMonitor → SafetyLevel → String → SafetyMonitor
commit m level reason = record m {
  current_level = level;
  sm = execute_safety_action m.sm level;
  trace = call m.safety_level_callback level reason m.trace;
}

-- Without another thread in between, the two steps are `EscalateSafetyLevel`.
pub commit-passes_test :
    (m : SafetyMonitor) (level : SafetyLevel) (reason : String)
    → escalate_safety_level m level reason
      ≡ (if passes_test m level then commit m level reason else m)
unfolding escalate_safety_level passes_test commit
commit-passes_test m level reason = ground arith

-- If the check and a planned shutdown both read a level below 3 and the check stores level 4 first, then
-- the shutdown takes the level back to 3; the machine stays in Shutdown or Error.
pub race-lowers :
    (m : SafetyMonitor) (reason : String)
    → level_code m.current_level < 3
    → (passes_test m level4_emergency ≡ true)
      × (passes_test m level3_safe_stop ≡ true)
      × ((commit m level4_emergency reason).current_level ≡ level4_emergency)
      × ((commit
            (commit m level4_emergency reason)
            level3_safe_stop
            "Planned shutdown").current_level
          ≡ level3_safe_stop)
      × IsHalted
          (commit
            (commit m level4_emergency reason)
            level3_safe_stop
            "Planned shutdown").sm.current_state
unfolding passes_test commit
race-lowers m reason low = (
  ground arith,
  ground arith,
  refl,
  refl,
  action-IsHalted (execute_safety_action m.sm level4_emergency) level3_safe_stop (omega arith),
)
