-- ===== src/Phm/Contents/Steps.antt =====
-- The calls of `PlatformHealthManagement` respect the contents of its table (src/ara/phm/phm.cpp).
use my_auto_sar_ap.Prelude.{
  ℕ, ◌≡◌, refl, sym, ◌∙◌, arith, String, some, none, List, String_eq, Option-cases, inl, inr,
}
use my_auto_sar_ap.Prelude.Map.{
  lookup, insert, IsDistinct, insert-IsDistinct, erase-IsDistinct, lookup-erase,
}
use my_auto_sar_ap.Phm.{
  PlatformHealthManagement, EntityRecord, AliveSupervisionConfig, PhmAction, register_entity,
  unregister_entity, report_checkpoint, kick_watchdog, set_recovery_callback, set_phm_action, start,
  stop, registered, reported,
}
use my_auto_sar_ap.Phm.Global.{
  Op, registers, unregisters, reports, kicks, sets_callback, sets_action, starts, stops, step,
}
use my_auto_sar_ap.Phm.Contents.{Same, lookup-insert_same}

with_entries :
    (p q : PlatformHealthManagement) (es fs : List (String × EntityRecord))
    → Same p q
    → ((k : String) → lookup k es ≡ lookup k fs)
    → Same (record p { entities = es }) (record q { entities = fs })
with_entries p q es fs s h = record {
  entries = h;
  callback = s.callback;
  running = s.running;
  kick = s.kick;
}

module _ (p q : PlatformHealthManagement) (id : String) (s : Same p q) where
  absent-Same : lookup id p.entities ≡ none → lookup id q.entities ≡ none
  absent-Same e = sym (s.entries id) ∙ e

  present-Same :
      (rec : EntityRecord) → lookup id p.entities ≡ some rec → lookup id q.entities ≡ some rec
  present-Same rec e = sym (s.entries id) ∙ e

  insert-Same :
      (rec : EntityRecord)
      → Same
          (record p { entities = insert id rec p.entities })
          (record q { entities = insert id rec q.entities })
  insert-Same rec =
      with_entries p q _ _ s (lookup-insert_same id rec p.entities q.entities s.entries)

  pub register-Same :
      (conf : AliveSupervisionConfig) (now : ℕ)
      → Same (register_entity p id conf now).0 (register_entity q id conf now).0
        × ((register_entity p id conf now).1 ≡ (register_entity q id conf now).1)
  unfolding register_entity
  register-Same conf now = elim (Option-cases (lookup id p.entities)) [
    | inl e ↦ rw (register_entity, e, absent-Same e) (insert-Same (registered conf now), refl)
    | inr (rec, e) ↦ rw (register_entity, e, present-Same rec e) (s, refl)
  ]

  unregister-Same : Same (unregister_entity p id) (unregister_entity q id)
  unfolding unregister_entity
  unregister-Same =
      with_entries p q _ _ s
        (λ k. rw (lookup-erase id k p.entities, lookup-erase id k q.entities, s.entries k))

  report-Same : (cp now : ℕ) → Same (report_checkpoint p id cp now) (report_checkpoint q id cp now)
  unfolding report_checkpoint
  report-Same cp now = elim (Option-cases (lookup id p.entities)) [
    | inl e ↦ rw (report_checkpoint, e, absent-Same e) s
    | inr (rec, e) ↦ rw (report_checkpoint, e, present-Same rec e) (insert-Same (reported rec now))
  ]

  set_action-Same :
      (action : PhmAction) → Same (set_phm_action p id action) (set_phm_action q id action)
  unfolding set_phm_action
  set_action-Same action = elim (Option-cases (lookup id p.entities)) [
    | inl e ↦ rw (set_phm_action, e, absent-Same e) s
    | inr (rec, e) ↦
        rw (set_phm_action, e, present-Same rec e) (insert-Same (record rec { action = action }))
  ]

pub step-Same : (p q : PlatformHealthManagement) (op : Op) → Same p q → Same (step p op) (step q op)
unfolding step kick_watchdog set_recovery_callback start stop
step-Same p q (registers id conf now) s = (register-Same p q id s conf now).0
step-Same p q (unregisters id) s = unregister-Same p q id s
step-Same p q (reports id cp now) s = report-Same p q id s cp now
step-Same p q (kicks now) s = record {
  entries = s.entries;
  callback = s.callback;
  running = s.running;
  kick = refl;
}
step-Same p q (sets_callback cb) s = record {
  entries = s.entries;
  callback = refl;
  running = s.running;
  kick = s.kick;
}
step-Same p q (sets_action id action) s = set_action-Same p q id s action
step-Same p q (starts now) s = record {
  entries = s.entries;
  callback = s.callback;
  running = refl;
  kick = refl;
}
step-Same p q stops s = record {
  entries = s.entries;
  callback = s.callback;
  running = refl;
  kick = s.kick;
}

pub step-IsDistinct :
    (p : PlatformHealthManagement) (op : Op)
    → IsDistinct p.entities
    → IsDistinct (step p op).entities
unfolding step register_entity unregister_entity report_checkpoint kick_watchdog
    set_recovery_callback set_phm_action start stop
step-IsDistinct p (registers id conf now) d =
    ground (arith, insert-IsDistinct id (registered conf now) p.entities d)
step-IsDistinct p (unregisters id) d = erase-IsDistinct id p.entities d
step-IsDistinct p (reports id cp now) d = elim (Option-cases (lookup id p.entities)) [
  | inl e ↦ rw (step, report_checkpoint, e) d
  | inr (rec, e) ↦
      rw (step, report_checkpoint, e) (insert-IsDistinct id (reported rec now) p.entities d)
]
step-IsDistinct p (kicks now) d = d
step-IsDistinct p (sets_callback cb) d = d
step-IsDistinct p (sets_action id action) d = elim (Option-cases (lookup id p.entities)) [
  | inl e ↦ rw (step, set_phm_action, e) d
  | inr (rec, e) ↦
      rw (step, set_phm_action, e)
        (insert-IsDistinct id (record rec { action = action }) p.entities d)
]
step-IsDistinct p (starts now) d = d
step-IsDistinct p stops d = d
