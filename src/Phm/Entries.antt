-- ===== src/Phm/Entries.antt =====
-- What `PlatformHealthManagement` knows of one entity after any calls (src/ara/phm/phm.cpp), against a
-- specification that has no table.
use my_auto_sar_ap.Prelude.{
  ℕ, ◌+◌, ◌%◌, ◌≡◌, refl, sym, ap, ◌∙◌, arith, String, Option, none, some, List, [], ◌∷◌,
  if◌then◌else◌, ◌==◌, String_eq, Option-cases, inl, inr,
}
use my_auto_sar_ap.Prelude.Map.{lookup, lookup-insert, lookup-erase}
use my_auto_sar_ap.Phm.{
  PlatformHealthManagement, EntityRecord, SupervisionStatus, PhmAction, AliveSupervisionConfig,
  report_error, register_entity, unregister_entity, kick_watchdog, set_recovery_callback,
  set_phm_action, start, stop,
}
use my_auto_sar_ap.Phm.Global.{
  Op, registers, unregisters, reports, kicks, sets_callback, sets_action, starts, stops, step,
}
use my_auto_sar_ap.Phm.Registry.{is_none, register_entity_lem, report_checkpoint_lem}
use my_auto_sar_ap.Phm.Abstract.{Runs, done, calls, rehashes}

-- The first registration holds until the entity is removed.
abbrev pub first_registered : Option EntityRecord → AliveSupervisionConfig → ℕ → Option EntityRecord
first_registered (some rec) conf now = some rec
first_registered none conf now = some (record {
  alive_conf = conf;
  status = SupervisionStatus.ok;
  last_checkpoint_time = now;
  alive_count_in_cycle = 0;
  action = report_error;
})

-- A sign of life: the time of the newest one, and one more, in 32 bits.
abbrev pub seen_alive : Option EntityRecord → ℕ → Option EntityRecord
seen_alive none now = none
seen_alive (some rec) now = some (record {
  alive_conf = rec.alive_conf;
  status = SupervisionStatus.ok;
  last_checkpoint_time = now;
  alive_count_in_cycle = (rec.alive_count_in_cycle + 1) % 4294967296;
  action = rec.action;
})

abbrev pub with_action : Option EntityRecord → PhmAction → Option EntityRecord
with_action none chosen = none
with_action (some rec) chosen = some (record {
  alive_conf = rec.alive_conf;
  status = rec.status;
  last_checkpoint_time = rec.last_checkpoint_time;
  alive_count_in_cycle = rec.alive_count_in_cycle;
  action = chosen;
})

-- The specification: what a call does to what is known of the entity `id`.
abbrev pub entry_after : String → Option EntityRecord → Op → Option EntityRecord
entry_after id rec (registers j conf now) = if j == id then first_registered rec conf now else rec
entry_after id rec (unregisters j) = if j == id then none else rec
entry_after id rec (reports j cp now) = if j == id then seen_alive rec now else rec
entry_after id rec (kicks now) = rec
entry_after id rec (sets_callback cb) = rec
entry_after id rec (sets_action j action) = if j == id then with_action rec action else rec
entry_after id rec (starts now) = rec
entry_after id rec stops = rec

abbrev pub entry_of : String → Option EntityRecord → List Op → Option EntityRecord
entry_of id rec [] = rec
entry_of id rec (op ∷ ops) = entry_of id (entry_after id rec op) ops

set_action-entry :
    (p : PlatformHealthManagement) (id j : String) (action : PhmAction)
    → lookup id (set_phm_action p j action).entities
      ≡ (if j == id then with_action (lookup id p.entities) action else lookup id p.entities)
unfolding set_phm_action
set_action-entry p id j action = elim (Option-cases (lookup j p.entities)) [
  | inl e ↦ ground (arith, String_eq.same_iff j id)
  | inr (rec, e) ↦ ground (
    arith,
    String_eq.same_iff j id,
    lookup-insert j id (record rec { action = action }) p.entities,
  )
]

step-entry :
    (p : PlatformHealthManagement) (id : String) (op : Op)
    → lookup id (step p op).entities ≡ entry_after id (lookup id p.entities) op
unfolding step unregister_entity kick_watchdog set_recovery_callback start stop
step-entry p id (registers j conf now) =
    ground (arith, String_eq.same_iff j id, (register_entity_lem p j id conf now).1)
step-entry p id (unregisters j) = lookup-erase j id p.entities
step-entry p id (reports j cp now) =
    ground (arith, String_eq.same_iff j id, report_checkpoint_lem p j id cp now)
step-entry p id (kicks now) = refl
step-entry p id (sets_callback cb) = refl
step-entry p id (sets_action j action) = set_action-entry p id j action
step-entry p id (starts now) = refl
step-entry p id stops = refl

pub Runs-entry :
    {p q : PlatformHealthManagement} {ops : List Op} (id : String)
    → Runs p ops q
    → lookup id q.entities ≡ entry_of id (lookup id p.entities) ops
Runs-entry id done = refl
Runs-entry {p} id (calls {ops} op rest) =
    Runs-entry id rest ∙ ap (λ rec. entry_of id rec ops) (step-entry p id op)
Runs-entry id (rehashes {ops} same e rest) =
    Runs-entry id rest ∙ ap (λ rec. entry_of id rec ops) (sym (same.entries id))

-- After any calls, however the table's entries were rearranged between them, the manager knows of each
-- entity what the specification makes of what it knew before: a first registration holds, with its
-- configuration and time, until the entity is removed; each checkpoint sets the time and counts one more
-- modulo 2^32; the action is the one that was set last; and calls for other entities change nothing. A
-- further registration is accepted exactly if the entity is not known.
pub Runs-entry_of :
    (p q : PlatformHealthManagement) (ops : List Op) (id : String) (conf : AliveSupervisionConfig)
    (now : ℕ)
    → Runs p ops q
    → (lookup id q.entities ≡ entry_of id (lookup id p.entities) ops)
      × ((register_entity q id conf now).1 ≡ is_none (entry_of id (lookup id p.entities) ops))
Runs-entry_of p q ops id conf now moved =
    let entry = Runs-entry id moved in
    (entry, (register_entity_lem q id id conf now).0 ∙ ap is_none entry)
