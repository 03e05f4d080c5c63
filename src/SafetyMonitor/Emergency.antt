-- ===== src/SafetyMonitor/Emergency.antt =====
-- What the check does about an ASIL-D violation
-- (src/application/SwcSafetyMonitor/SafetyMonitorService.cpp).
use my_auto_sar_ap.Prelude.{
  ℕ, ◌≤◌, ◌≡◌, inl, inr, refl, ap, arith, String, true, some, leb, Bool-cases,
}
use my_auto_sar_ap.Sm.Runs.{IsHalted}
use my_auto_sar_ap.Phm.{
  SupervisedEntity, get_global_status, normal, kick_watchdog, checkpoint_reached,
}
use my_auto_sar_ap.SafetyMonitor.{
  SafetyMonitor, SafetyLevel, McuSafetyStatus, level_code, level0_normal, level1_degraded,
  level2_min_risk, level3_safe_stop, level4_emergency, escalate_safety_level, check_mcu_status,
  periodic_safety_check, on_mcu_safety_status,
}
use my_auto_sar_ap.SafetyMonitor.Levels.{IsSound, escalate-Keeps}

mcu_violated :
    (m : SafetyMonitor)
    → m.last_mcu_status.asil_d_violation ≡ true
    → check_mcu_status m ≡ escalate_safety_level m level4_emergency "MCU ASIL-D violation"
unfolding check_mcu_status
mcu_violated m h = ground arith

pub highest : (level : SafetyLevel) → 4 ≤ level_code level → level ≡ level4_emergency
highest level0_normal h = absurd (omega arith)
highest level1_degraded h = absurd (omega arith)
highest level2_min_risk h = absurd (omega arith)
highest level3_safe_stop h = absurd (omega arith)
highest level4_emergency h = refl

escalate_emergency :
    (m : SafetyMonitor) (reason : String)
    → (escalate_safety_level m level4_emergency reason).current_level ≡ level4_emergency
unfolding escalate_safety_level
escalate_emergency m reason = elim (Bool-cases (leb 4 (level_code m.current_level))) [
  | inl there ↦ rw there (highest m.current_level (ground arith))
  | inr below ↦ rw below
]

-- The check after an MCU status with an ASIL-D violation puts a sound monitor at level 4 and halts the
-- machine, if the health manager reports Normal after the check's own checkpoint.
pub violation-stops :
    (m : SafetyMonitor) (status : McuSafetyStatus) (se : SupervisedEntity) (now : ℕ)
    → IsSound m
    → m.supervised_entity ≡ some se
    → status.asil_d_violation ≡ true
    → get_global_status (checkpoint_reached (kick_watchdog m.phm now) se 1 now).0 ≡ normal
    → (m' : SafetyMonitor) × (periodic_safety_check (on_mcu_safety_status m status) now ≡ some m')
      × (m'.current_level ≡ level4_emergency)
      × IsHalted m'.sm.current_state
unfolding periodic_safety_check on_mcu_safety_status
violation-stops m status se now s present violated fine =
    let (phm, se') = checkpoint_reached (kick_watchdog m.phm now) se 1 now in
    let m1 : SafetyMonitor = record m {
      phm = phm;
      supervised_entity = some se';
      last_wdg_kick = now;
      last_mcu_status = status;
    } in
    let (kept, up) =
      escalate-Keeps m1 level4_emergency "MCU ASIL-D violation"
        (record { entity = (se', refl); halted = s.halted }) in
    let top = escalate_emergency m1 "MCU ASIL-D violation" in
    (
      escalate_safety_level m1 level4_emergency "MCU ASIL-D violation",
      rw (present, fine) (ap some (mcu_violated m1 violated)),
      top,
      elim kept.halted [
        | inl low ↦ absurd (omega (arith, ap level_code top))
        | inr halted ↦ halted
      ],
    )
