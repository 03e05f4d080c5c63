-- ===== src/Platform/Supervision.antt =====
-- The safety monitor's calls of the health manager (src/application/SwcSafetyMonitor, src/ara/phm/phm.cpp).
use my_auto_sar_ap.Prelude.{
  ℕ, ◌≡◌, sym, subst, arith, false, Option, none, some, All, String, Option-cases, inl, inr,
}
use my_auto_sar_ap.Phm.{
  PlatformHealthManagement, SupervisedEntity, make_entity, destroy_entity, checkpoint_reached,
  register_entity, report_checkpoint, GlobalSupervisionStatus, get_global_status, normal,
  trigger_sm,
}
use my_auto_sar_ap.Phm
use my_auto_sar_ap.Phm.Global.{
  IsOk, step-IsOk, scan-IsOk, registers, unregisters, reports, kicks, sets_action, starts, stops,
}
use my_auto_sar_ap.Phm.Global
use my_auto_sar_ap.SafetyMonitor.{
  SafetyMonitor, drop_entity, init, periodic_safety_check, shut_down, escalate_safety_level,
  check_mcu_status, check_phm_status,
}
use my_auto_sar_ap.SafetyMonitor
use my_auto_sar_ap.SafetyMonitor.Levels

-- No registered entity has a status other than Ok.
abbrev pub IsFine : PlatformHealthManagement → Type 0
IsFine phm = All IsOk phm.entities

pub IsFine-normal : (phm : PlatformHealthManagement) → IsFine phm → get_global_status phm ≡ normal
unfolding get_global_status
IsFine-normal phm f = scan-IsOk phm.entities f

pub escalate-phm :
    (m : SafetyMonitor) (level : SafetyMonitor.SafetyLevel) (reason : String)
    → (escalate_safety_level m level reason).phm ≡ m.phm
unfolding escalate_safety_level
escalate-phm m level reason = ground arith

pub mcu-phm : (m : SafetyMonitor) → (check_mcu_status m).phm ≡ m.phm
unfolding check_mcu_status escalate_safety_level
mcu-phm m = ground arith

pub status-phm :
    (m : SafetyMonitor) (s : GlobalSupervisionStatus) → (check_phm_status m s).phm ≡ m.phm
status-phm m Phm.GlobalSupervisionStatus.expired = escalate-phm m _ _
status-phm m Phm.GlobalSupervisionStatus.failed = escalate-phm m _ _
status-phm m Phm.GlobalSupervisionStatus.stopped = mcu-phm m
status-phm m normal = mcu-phm m

pub drop-IsFine :
    (o : Option SupervisedEntity) (phm : PlatformHealthManagement)
    → IsFine phm
    → IsFine (drop_entity o phm)
unfolding destroy_entity Global.step
drop-IsFine none phm f = f
drop-IsFine (some se) phm f = step-IsOk phm (unregisters se.instance_id) f

pub checkpoint-IsFine :
    (phm : PlatformHealthManagement) (se : SupervisedEntity) (now : ℕ)
    → IsFine phm
    → IsFine (checkpoint_reached (Phm.kick_watchdog phm now) se 1 now).0
unfolding checkpoint_reached Global.step
checkpoint-IsFine phm se now f =
    step-IsOk (Phm.kick_watchdog phm now) (reports se.instance_id 1 now)
      (step-IsOk phm (kicks now) f)

pub init-IsFine : (m : SafetyMonitor) (now : ℕ) → IsFine m.phm → IsFine (init m now).0.phm
unfolding init make_entity Global.step
init-IsFine m now f =
    let made = step-IsOk m.phm (registers "SafetyMonitorService" Phm.default_conf now) f in
    let (phm, se) = make_entity m.phm "SafetyMonitorService" now in
    let dropped = drop-IsFine m.supervised_entity phm made in
    step-IsOk _ (starts now) (
      step-IsOk (drop_entity m.supervised_entity phm)
        (sets_action "SafetyMonitorService" trigger_sm) dropped)

abbrev pub FineMonitor : Option SafetyMonitor → Type 0
FineMonitor none = Unit
FineMonitor (some m) = IsFine m.phm

pub check-FineMonitor :
    (m : SafetyMonitor) (now : ℕ) → IsFine m.phm → FineMonitor (periodic_safety_check m now)
unfolding periodic_safety_check
check-FineMonitor m now f = elim (Option-cases m.supervised_entity) [
  | inl e ↦ rw e tt
  | inr (se, e) ↦ rw e (subst IsFine (sym (status-phm _ _)) (checkpoint-IsFine m.phm se now f))
]

pub monitor-FineMonitor :
    (m : SafetyMonitor) (op : Levels.Op) → IsFine m.phm → FineMonitor (Levels.step m op)
unfolding Levels.step shut_down Phm.stop SafetyMonitor.on_mcu_safety_status
    SafetyMonitor.set_safety_level_callback
monitor-FineMonitor m (Levels.inits now) f = init-IsFine m now f
monitor-FineMonitor m (Levels.checks now) f = check-FineMonitor m now f
monitor-FineMonitor m Levels.shuts_down f =
    subst (λ phm. IsFine (Phm.stop phm))
      (sym (
        escalate-phm (record m { running = false }) SafetyMonitor.level3_safe_stop
          "Planned shutdown"))
      f
monitor-FineMonitor m (Levels.reports status) f = f
monitor-FineMonitor m (Levels.sets_callback cb) f = f
monitor-FineMonitor m (Levels.requests target) f = f

pub report-IsFine :
    (phm : PlatformHealthManagement) (id : String) (cp now : ℕ)
    → IsFine phm
    → IsFine (report_checkpoint phm id cp now)
unfolding Global.step
report-IsFine phm id cp now f = step-IsOk phm (reports id cp now) f
