-- ===== src/Platform/Health.antt =====
-- The health manager that the applications share (src/application, src/ara/phm/phm.cpp).
use my_auto_sar_ap.Prelude.{
  ℕ, ◌+◌, ◌%◌, ◌≡◌, sym, subst, arith, Bool, true, false, Option, none, some, List, [], ◌∷◌,
  if◌then◌else◌, ltb, Bool-cases, inl, inr,
}
use my_auto_sar_ap.Phm.{report_checkpoint}
use my_auto_sar_ap.Phm.Global.{
  IsOk, step-IsOk, scan-IsOk, registers, unregisters, reports, kicks, sets_action, starts, stops,
}
use my_auto_sar_ap.Phm.Global
use my_auto_sar_ap.IpcBridge.{IpcBridge}
use my_auto_sar_ap.IpcBridge
use my_auto_sar_ap.IpcBridge.Link
use my_auto_sar_ap.SignalService.{SignalService, VehicleSignals}
use my_auto_sar_ap.SignalService
use my_auto_sar_ap.SomeIp.{SomeIpMessage}
use my_auto_sar_ap.SomeIp.Discovery.{ServiceDiscovery}
use my_auto_sar_ap.SignalService.Subscription
use my_auto_sar_ap.SignalService.Subscription.{SignalApp, ServiceProxy, hand_over, settle}
use my_auto_sar_ap.SignalService.Subscription.Simulated
use my_auto_sar_ap.Platform.Supervision.{IsFine, report-IsFine}

if-IsFine :
    (b : Bool) (x y : IpcBridge × Bool)
    → IsFine x.0.phm
    → IsFine y.0.phm
    → IsFine (if b then x else y).0.phm
if-IsFine true x y fx fy = fx
if-IsFine false x y fx fy = fy

pub bridge-init-IsFine :
    (b : IpcBridge) (now later : ℕ) → IsFine b.phm → IsFine (IpcBridge.init b now later).0.phm
unfolding IpcBridge.init IpcBridge.transition_state Global.step
bridge-init-IsFine b now later f =
    if-IsFine _ _ _ f (step-IsOk b.phm (registers "IPCBridgeService" IpcBridge.alive_conf now) f)

pass-phm :
    (b : IpcBridge) (start now later : ℕ)
    → (IpcBridge.run_pass b start now later).phm
      ≡ report_checkpoint b.phm "IPCBridgeService" 1 start
unfolding IpcBridge.run_pass IpcBridge.handle_handshake IpcBridge.handle_normal_operation
    IpcBridge.handle_error IpcBridge.transition_state IpcBridge.set_gpio_signal
    IpcBridge.offer_ipc_services
pass-phm b start now later = ground arith

gpio-phm :
    (b : IpcBridge) (signal : ℕ) (level : Bool)
    → (IpcBridge.set_gpio_signal b signal level).phm ≡ b.phm
unfolding IpcBridge.set_gpio_signal
gpio-phm b signal level = ground arith

send-phm :
    (b : IpcBridge) (msg : SomeIpMessage) → (IpcBridge.send_some_ip_message b msg).0.phm ≡ b.phm
unfolding IpcBridge.send_some_ip_message
send-phm b msg = ground arith

pub bridge-IsFine : (b : IpcBridge) (op : Link.Op) → IsFine b.phm → IsFine (Link.step b op).phm
unfolding Link.step IpcBridge.send_spi_frame
bridge-IsFine b (Link.passes start now later) f =
    subst IsFine (sym (pass-phm b start now later))
      (report-IsFine b.phm "IPCBridgeService" 1 start f)
bridge-IsFine b (Link.sends msg) f = subst IsFine (sym (send-phm b msg)) f
bridge-IsFine b (Link.sends_spi frame) f = f
bridge-IsFine b (Link.sets_gpio signal level) f = subst IsFine (sym (gpio-phm b signal level)) f

count_error-IsFine :
    (r : SignalService) (now : ℕ) → IsFine r.phm → IsFine (SignalService.count_error r now).phm
count_error-IsFine r now f = elim (Bool-cases (ltb 3 ((r.e2e_error_count + 1) % 4294967296))) [
  | inl many ↦ rw many (report-IsFine r.phm "VehicleSignalService" 255 now f)
  | inr few ↦ rw few f
]

after_check-IsFine :
    (q : SignalService × Bool) (signals : VehicleSignals) (now : ℕ)
    → IsFine q.0.phm
    → IsFine (SignalService.after_check q signals now).phm
after_check-IsFine (r, true) signals now f = f
after_check-IsFine (r, false) signals now f = count_error-IsFine r now f

validate-phm :
    (r : SignalService) (signals : VehicleSignals)
    → (SignalService.validate_e2e r signals).0.phm ≡ r.phm
unfolding SignalService.validate_e2e
validate-phm r signals = ground arith

hand_over-IsFine :
    (r : SignalService) (calls : List (ℕ × VehicleSignals)) (now : ℕ)
    → IsFine r.phm
    → IsFine (hand_over r calls now).phm
unfolding hand_over SignalService.on_signal_received
hand_over-IsFine r [] now f = f
hand_over-IsFine r ((cb, signals) ∷ calls) now f =
    let r' = hand_over r calls now in
    after_check-IsFine (SignalService.validate_e2e r' signals) signals now
      (subst IsFine (sym (validate-phm r' signals)) (hand_over-IsFine r calls now f))

abbrev pub FineApp : Option SignalApp → Type 0
FineApp none = Unit
FineApp (some a) = IsFine a.service.phm

settle-FineApp :
    (sd : ServiceDiscovery) (r : SignalService) (now : ℕ) (o : Option ServiceProxy)
    → IsFine r.phm
    → FineApp (settle sd r now o)
settle-FineApp sd r now none f = tt
settle-FineApp sd r now (some p) f = hand_over-IsFine r p.calls now f

pub app-FineApp :
    (a : SignalApp) (op : Simulated.Op) → IsFine a.service.phm → FineApp (Simulated.step a op)
unfolding Simulated.step Subscription.init Subscription.subscribe_vehicle_signals
    Subscription.shut_down Subscription.elsewhere SignalService.register_service Global.step
    SignalService.run_pass SignalService.set_signal_change_callback
app-FineApp a (Simulated.starts now) f =
    settle-FineApp _ _ now _
      (step-IsOk a.service.phm (registers "VehicleSignalService" SignalService.alive_conf now) f)
app-FineApp a (Simulated.polls now) f = report-IsFine a.service.phm "VehicleSignalService" 1 now f
app-FineApp a Simulated.ends f = f
app-FineApp a (Simulated.sets_callback cb) f = f
app-FineApp a (Simulated.sees op now) f = settle-FineApp _ a.service now _ f
