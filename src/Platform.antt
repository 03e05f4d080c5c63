-- ===== src/Platform.antt =====
-- The three applications of src/application with the managers that they share: the singletons of
-- ara::sm, ara::phm, ara::nm and of the service discovery. An application's record has a copy of the
-- managers that it calls; a step puts the shared ones in and takes them out again.
pub mod Locks
pub mod Mutexes
pub mod Health
pub mod Supervision
pub mod Status
pub mod Violation
use my_auto_sar_ap.Prelude.{ℕ, Option, none, some, List, [], ◌∷◌}
use my_auto_sar_ap.Sm.{StateManagement}
use my_auto_sar_ap.Nm.{NetworkManagement}
use my_auto_sar_ap.Phm.{PlatformHealthManagement}
use my_auto_sar_ap.Phm.Global
use my_auto_sar_ap.SomeIp.Discovery.{ServiceDiscovery}
use my_auto_sar_ap.SafetyMonitor.{SafetyMonitor}
use my_auto_sar_ap.SafetyMonitor.Levels
use my_auto_sar_ap.IpcBridge.{IpcBridge}
use my_auto_sar_ap.IpcBridge
use my_auto_sar_ap.IpcBridge.Link
use my_auto_sar_ap.SignalService.Subscription.{SignalApp}
use my_auto_sar_ap.SignalService.Subscription.Simulated

pub record Platform : Type 0 where
  pub sm : StateManagement
  pub phm : PlatformHealthManagement
  pub nm : NetworkManagement
  pub discovery : ServiceDiscovery
  pub monitor : SafetyMonitor
  pub bridge : IpcBridge
  pub app : SignalApp

abbrev pub monitor_of : Platform → SafetyMonitor
monitor_of p = record (p.monitor) { sm = p.sm; phm = p.phm }

abbrev pub bridge_of : Platform → IpcBridge
bridge_of p = record (p.bridge) { nm = p.nm; phm = p.phm; discovery = p.discovery }

abbrev pub app_of : Platform → SignalApp
app_of p = record (p.app) {
  discovery = p.discovery;
  service = record (p.app.service) { phm = p.phm };
}

abbrev pub put_monitor : Platform → SafetyMonitor → Platform
put_monitor p m = record p { monitor = m; sm = m.sm; phm = m.phm }

abbrev pub put_bridge : Platform → IpcBridge → Platform
put_bridge p b = record p { bridge = b; nm = b.nm; phm = b.phm; discovery = b.discovery }

abbrev pub put_app : Platform → SignalApp → Platform
put_app p a = record p { app = a; discovery = a.discovery; phm = a.service.phm }

-- The calls of the three applications, and those of the health manager by others.
pub data Op : Type 0 where
  monitors : Levels.Op → Op
  starts_bridge : ℕ → ℕ → Op
  bridges : Link.Op → Op
  stops_bridge : Op
  signals : Simulated.Op → Op
  supervises : Global.Op → Op

abbrev pub after_monitor : Platform → Option SafetyMonitor → Option Platform
after_monitor p none = none
after_monitor p (some m) = some (put_monitor p m)

abbrev pub after_app : Platform → Option SignalApp → Option Platform
after_app p none = none
after_app p (some a) = some (put_app p a)

-- `none` is a call that is undefined or does not return.
unfoldable pub step : Platform → Op → Option Platform
step p (monitors op) = after_monitor p (Levels.step (monitor_of p) op)
step p (starts_bridge now later) = some (put_bridge p (IpcBridge.init (bridge_of p) now later).0)
step p (bridges op) = some (put_bridge p (Link.step (bridge_of p) op))
step p stops_bridge = some (put_bridge p (IpcBridge.shut_down (bridge_of p)))
step p (signals op) = after_app p (Simulated.step (app_of p) op)
step p (supervises op) = some (record p { phm = Global.step p.phm op })

unfoldable pub run : Platform → List Op → Option Platform
run p [] = some p
run p (op ∷ ops) = elim (step p op) [ none ↦ none | some p' ↦ run p' ops ]
