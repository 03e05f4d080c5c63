-- ===== src/Platform/Status.antt =====
-- What a call leaves of the safety monitor and of the MCU's last status (src/application).
use my_auto_sar_ap.Prelude.{
  ℕ, ◌≤◌, ◌≡◌, not, inl, inr, refl, sym, ap, subst, arith, Bool, true, false, ◌&&◌, Option, none,
  some, List, [], ◌∷◌, String, Option-cases,
}
use my_auto_sar_ap.Sm.Runs.{IsHalted}
use my_auto_sar_ap.Phm
use my_auto_sar_ap.Phm.{
  GlobalSupervisionStatus, get_global_status, normal, kick_watchdog, checkpoint_reached,
  SupervisedEntity,
}
use my_auto_sar_ap.Phm.Global.{step-IsOk}
use my_auto_sar_ap.SafetyMonitor.{
  SafetyMonitor, SafetyLevel, level_code, escalate_safety_level, check_mcu_status, check_phm_status,
  periodic_safety_check, init, shut_down, set_safety_level_callback,
}
use my_auto_sar_ap.SafetyMonitor.Levels
use my_auto_sar_ap.SafetyMonitor.Levels.{IsSound, step-LeadsOn, checks, reports}
use my_auto_sar_ap.IpcBridge
use my_auto_sar_ap.SignalService.Subscription.Simulated
use my_auto_sar_ap.Platform.{
  Platform, Op, monitors, starts_bridge, bridges, stops_bridge, signals, supervises, step,
  monitor_of, bridge_of, app_of, put_app,
}
use my_auto_sar_ap.Platform.Supervision.{IsFine, monitor-FineMonitor, FineMonitor}
use my_auto_sar_ap.Platform.Health.{bridge-init-IsFine, bridge-IsFine, app-FineApp, FineApp}

-- The monitor is sound, and no supervised entity has a status other than Ok.
pub record IsGood (p : Platform) : Type 0 where
  pub fine : IsFine p.phm
  pub sound : IsSound (monitor_of p)

abbrev pub is_report : Levels.Op → Bool
is_report (reports status) = true
is_report _ = false

abbrev pub reports_mcu : Op → Bool
reports_mcu (monitors op) = is_report op
reports_mcu _ = false

-- No report of the MCU among the calls.
abbrev pub no_report : List Op → Bool
no_report [] = true
no_report (op ∷ ops) = not (reports_mcu op) && no_report ops

pub escalate-status :
    (m : SafetyMonitor) (level : SafetyLevel) (reason : String)
    → (escalate_safety_level m level reason).last_mcu_status ≡ m.last_mcu_status
unfolding escalate_safety_level
escalate-status m level reason = ground arith

pub mcu-status : (m : SafetyMonitor) → (check_mcu_status m).last_mcu_status ≡ m.last_mcu_status
unfolding check_mcu_status escalate_safety_level
mcu-status m = ground arith

pub phm-status :
    (m : SafetyMonitor) (s : GlobalSupervisionStatus)
    → (check_phm_status m s).last_mcu_status ≡ m.last_mcu_status
phm-status m Phm.GlobalSupervisionStatus.expired = escalate-status m _ _
phm-status m Phm.GlobalSupervisionStatus.failed = escalate-status m _ _
phm-status m Phm.GlobalSupervisionStatus.stopped = mcu-status m
phm-status m normal = mcu-status m

-- What a call leaves: a good platform of at least the level, with the MCU's status that was there.
pub record Keeps (p q : Platform) : Type 0 where
  pub good : IsGood q
  pub up : level_code p.monitor.current_level ≤ level_code q.monitor.current_level
  pub status : q.monitor.last_mcu_status ≡ p.monitor.last_mcu_status

abbrev pub KeepsIf : Platform → Option Platform → Type 0
KeepsIf p none = Unit
KeepsIf p (some q) = Keeps p q

abbrev pub SameStatus : SafetyMonitor → Option SafetyMonitor → Type 0
SameStatus m none = Unit
SameStatus m (some m') = m'.last_mcu_status ≡ m.last_mcu_status

pub check-SameStatus : (m : SafetyMonitor) (now : ℕ) → SameStatus m (periodic_safety_check m now)
unfolding periodic_safety_check
check-SameStatus m now = elim (Option-cases m.supervised_entity) [
  | inl e ↦ rw e tt
  | inr (se, e) ↦ rw e (phm-status _ _)
]

pub monitor-SameStatus :
    (m : SafetyMonitor) (op : Levels.Op) → is_report op ≡ false → SameStatus m (Levels.step m op)
unfolding Levels.step init shut_down set_safety_level_callback
monitor-SameStatus m (Levels.inits now) h = refl
monitor-SameStatus m (checks now) h = check-SameStatus m now
monitor-SameStatus m Levels.shuts_down h = escalate-status (record m { running = false }) _ _
monitor-SameStatus m (reports status) h = absurd (ground arith)
monitor-SameStatus m (Levels.sets_callback cb) h = refl
monitor-SameStatus m (Levels.requests target) h = refl

pub monitor-KeepsIf :
    (p : Platform) (op : Levels.Op)
    → is_report op ≡ false
    → IsGood p
    → KeepsIf p (step p (monitors op))
unfolding step
monitor-KeepsIf p op h g =
    let (m, e, sound, up) = step-LeadsOn (monitor_of p) op g.sound in
    let fine = subst FineMonitor e (monitor-FineMonitor (monitor_of p) op g.fine) in
    let same = subst (SameStatus (monitor_of p)) e (monitor-SameStatus (monitor_of p) op h) in
    rw e (record {
      good = record {
        fine = fine;
        sound = record { entity = sound.entity; halted = sound.halted };
      };
      up = up;
      status = same;
    })

abbrev pub Entity : SafetyMonitor → Type 0
Entity m = (se : SupervisedEntity) × (m.supervised_entity ≡ some se)

pub others :
    (p q : Platform) → IsGood p → IsFine q.phm → q.monitor ≡ p.monitor → q.sm ≡ p.sm → Keeps p q
others p q g fine same machine = record {
  good = record {
    fine = fine;
    sound = record {
      entity = subst (λ m. Entity m) (sym same) g.sound.entity;
      halted = elim g.sound.halted [
        | inl low ↦ inl (omega (arith, low, ap (λ m. level_code m.current_level) same))
        | inr halted ↦ inr (subst (λ sm. IsHalted sm.current_state) (sym machine) halted)
      ];
    };
  };
  up = omega (arith, ap (λ m. level_code m.current_level) same);
  status = ap (λ m. m.last_mcu_status) same;
}

pub app-KeepsIf : (p : Platform) (op : Simulated.Op) → IsGood p → KeepsIf p (step p (signals op))
unfolding step
app-KeepsIf p op g = elim (Option-cases (Simulated.step (app_of p) op)) [
  | inl e ↦ rw e tt
  | inr (a, e) ↦
      let fine = subst FineApp e (app-FineApp (app_of p) op g.fine) in
      rw e (others p (put_app p a) g fine refl refl)
]

pub step-KeepsIf :
    (p : Platform) (op : Op) → reports_mcu op ≡ false → IsGood p → KeepsIf p (step p op)
unfolding step IpcBridge.shut_down IpcBridge.stop_ipc_services
step-KeepsIf p (monitors op) h g = monitor-KeepsIf p op h g
step-KeepsIf p (starts_bridge now later) h g =
    others p _ g (bridge-init-IsFine (bridge_of p) now later g.fine) refl refl
step-KeepsIf p (bridges op) h g = others p _ g (bridge-IsFine (bridge_of p) op g.fine) refl refl
step-KeepsIf p stops_bridge h g = others p _ g g.fine refl refl
step-KeepsIf p (signals op) h g = app-KeepsIf p op g
step-KeepsIf p (supervises op) h g = others p _ g (step-IsOk p.phm op g.fine) refl refl
