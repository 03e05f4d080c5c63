-- ===== src/Consumer/Descriptors.antt =====
-- The descriptor of the consumer's proxy (src/ara/app/vehicle_signal_swc.cpp).
use my_auto_sar_ap.Prelude.{
  ℕ, ◌+◌, ◌%◌, ◌<◌, ◌≡◌, refl, sym, ap, subst, ◌∙◌, arith, Bool, false, inl, inr, nat_eq,
  Bool-cases, List, [], ◌∷◌, Option, none, some,
}
use my_auto_sar_ap.Process.{Sockets, IsLawful, Process, opened, write}
use my_auto_sar_ap.VehicleSignal.{
  VehicleSignalProxy, VehicleSignalSample, subscribe, set_receive_handler,
}
use my_auto_sar_ap.VehicleSignal.Descriptors.{
  Adds, held, find_service-Adds, destroy_proxy-Adds, same_table,
}
use my_auto_sar_ap.VehicleSignal.Passes.{LeadsTo, rx_pass-LeadsTo}
use my_auto_sar_ap.VehicleSignal.Proxy.{rx_pass}
use my_auto_sar_ap.Consumer.{
  VehicleSignalSwc, start, start_with, stop, stop_with, main_function_100ms, tick_with,
  receive_pass, handle_calls, handle_sample, keep_sample, pass_with, emptied,
  vehicle_signal_svc_port,
}
use my_auto_sar_ap.Consumer.Lines.{handle_sample-os}

abbrev pub Roomy : Option VehicleSignalProxy → Type 0
Roomy none = Unit
Roomy (some p) = 0 < p.vehicle_signal.max_samples

module _ (S : Sockets) (lawful : IsLawful S) (k : ℕ) where
  -- The descriptor k is open if it was at first, `before`, or if it is that of the consumer's proxy.
  pub record Owns (before : Bool) (w : Process S) (c : VehicleSignalSwc) : Type 0 where
    pub adds : Adds S lawful k before w.os (held c.proxy k)
    pub room : Roomy c.proxy

  handle_calls-keeps :
      (w : Process S) (c : VehicleSignalSwc) (calls : List (ℕ × VehicleSignalSample))
      → ((handle_calls w c calls).0.os ≡ w.os) × ((handle_calls w c calls).1.proxy ≡ c.proxy)
  unfolding handle_sample keep_sample
  handle_calls-keeps w c [] = (refl, refl)
  handle_calls-keeps w c ((h, s) ∷ calls) =
      let (w', c') = handle_calls w c calls in
      let (os, proxy) = handle_calls-keeps w c calls in (handle_sample-os w' c' s ∙ os, proxy)

  -- A result that has an owner's process and consumer.
  pub record Continues (before : Bool) (r : Option (Process S × VehicleSignalSwc)) : Type 0 where
    pub process : Process S
    pub swc : VehicleSignalSwc
    pub result : r ≡ some (process, swc)
    pub owns : Owns before process swc

  same_proxy :
      (w : Process S) (p : VehicleSignalProxy) (l : LeadsTo S k w p (rx_pass w p))
      → (l.proxy.sock_fd ≡ p.sock_fd)
        × (l.proxy.vehicle_signal.max_samples ≡ p.vehicle_signal.max_samples)
  same_proxy w p l = elim l.passed [
    | inl (same, _) ↦ rw same (refl, refl)
    | inr (_, _, _, effect, _) ↦ (effect.socket, effect.subscription.room)
  ]

  pass-Continues :
      (before : Bool) (w : Process S) (c : VehicleSignalSwc) (o : Option VehicleSignalProxy)
      → Adds S lawful k before w.os (held o k)
      → Roomy o
      → c.proxy ≡ o
      → Continues before (pass_with w c o)
  pass-Continues before w c none adds room e = record {
    process = w;
    swc = c;
    result = refl;
    owns = record { adds = rw e adds; room = rw e room };
  }
  pass-Continues before w c (some p) adds room e =
      let l = rx_pass-LeadsTo S lawful k w p room in
      let (fd, same_room) = same_proxy w p l in
      let c1 : VehicleSignalSwc = record c { proxy = some (emptied l.proxy) } in
      let calls = l.proxy.vehicle_signal.delivered in
      let after : Process S = (handle_calls l.process c1 calls).0 in
      let (os, proxy) = handle_calls-keeps l.process c1 calls in
      record {
        process = after;
        swc = (handle_calls l.process c1 calls).1;
        result = rw l.result;
        owns = record {
          adds =
              subst (λ o. Adds S lawful k before after.os (held o k)) (sym proxy)
                (subst (λ fd. Adds S lawful k before after.os (opened fd k)) (sym fd)
                  (same_table S lawful k before _ w.os _ (ap (λ s. S.is_open s k) os ∙ l.table)
                    adds));
          room = subst Roomy (sym proxy) (omega (arith, same_room, room));
        };
      }

  -- A pass of the receive thread is not undefined and opens and closes no descriptor.
  pub receive_pass-Continues :
      (before : Bool) (w : Process S) (c : VehicleSignalSwc)
      → Owns before w c
      → Continues before (receive_pass w c)
  unfolding receive_pass
  receive_pass-Continues before w c o = pass-Continues before w c c.proxy o.adds o.room refl

  tick-os :
      (w : Process S) (c : VehicleSignalSwc) (o : Option VehicleSignalProxy)
      → (tick_with w c o).os ≡ w.os
  unfolding write
  tick-os w c none = refl
  tick-os w c (some p) = elim (Bool-cases (nat_eq ((w.tick + 1) % 4294967296 % 10) 0)) [
    | inl tenth ↦ rw tenth
    | inr other ↦ rw other
  ]

  pub main_function_100ms-Owns :
      (before : Bool) (w : Process S) (c : VehicleSignalSwc)
      → Owns before w c
      → Owns before (main_function_100ms w c) c
  unfolding main_function_100ms
  main_function_100ms-Owns before w c o = record {
    adds =
        same_table S lawful k before _ w.os _ (ap (λ s. S.is_open s k) (tick-os w c c.proxy))
          o.adds;
    room = o.room;
  }

  start_with-Owns :
      (before : Bool) (w : Process S) (c : VehicleSignalSwc) (o : Option VehicleSignalProxy)
      → Adds S lawful k before w.os (held o k)
      → let (w', c') = start_with w c o in Owns before w' c'
  unfolding write subscribe set_receive_handler
  start_with-Owns before w c none adds = record { adds = adds; room = tt }
  start_with-Owns before w c (some p) adds = record { adds = adds; room = omega arith }

  -- A consumer without a proxy that starts has the one descriptor that was opened.
  pub start-Owns :
      (w : Process S) (c : VehicleSignalSwc)
      → c.proxy ≡ none
      → let (w', c') = start w c in Owns (S.is_open w.os k) w' c'
  unfolding start write
  start-Owns w c e = rw e (
      start_with-Owns (S.is_open w.os k) _ c _
        (find_service-Adds S lawful k _ vehicle_signal_svc_port))

  stop_with-Owns :
      (before : Bool) (w : Process S) (c : VehicleSignalSwc) (o : Option VehicleSignalProxy)
      → Adds S lawful k before w.os (held o k)
      → c.proxy ≡ o
      → let (w', c') = stop_with w c o in Adds S lawful k before w'.os false × (c'.proxy ≡ none)
  unfolding write
  stop_with-Owns before w c none adds e = (adds, e)
  stop_with-Owns before w c (some p) adds e = (destroy_proxy-Adds S lawful k w _ before adds, refl)

  -- After `Stop` the descriptors are those that were open before the consumer started.
  pub stop-Owns :
      (before : Bool) (w : Process S) (c : VehicleSignalSwc)
      → Owns before w c
      → let (w', c') = stop w c in Adds S lawful k before w'.os false × (c'.proxy ≡ none)
  unfolding stop
  stop-Owns before w c o = stop_with-Owns before w c c.proxy o.adds refl

pub stop_idle :
    {S : Sockets} (w : Process S) (c : VehicleSignalSwc) → c.proxy ≡ none → stop w c ≡ (w, c)
unfolding stop
stop_idle w c e = ap (stop_with w c) e
