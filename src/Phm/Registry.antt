-- ===== src/Phm/Registry.antt =====
-- The table of supervised entities (src/ara/phm/phm.cpp): what each call does to each entity.
use my_auto_sar_ap.Prelude.{
  ℕ, ◌≡◌, refl, arith, String, true, false, Option, some, none, if◌then◌else◌, ◌==◌, String_eq,
  Option-cases, inl, inr, Bool,
}
use my_auto_sar_ap.Prelude.Map.{lookup, lookup-insert, lookup-erase_self, map_option}
use my_auto_sar_ap.Phm.{
  PlatformHealthManagement, AliveSupervisionConfig, register_entity, unregister_entity,
  EntityRecord, SupervisionStatus, report_error, report_checkpoint, registered, reported,
  make_entity, destroy_entity, checkpoint_reached, default_conf,
}

abbrev or_else {ℓ} : {A : Type ℓ} → Option A → A → Option A
or_else none a = some a
or_else (some b) a = some b

abbrev pub is_none {ℓ} : {A : Type ℓ} → Option A → Bool
is_none none = true
is_none (some a) = false

-- `RegisterEntity` succeeds exactly for a name that is not registered; it then records the entity as
-- Ok, and it changes no entity that is registered already.
pub register_entity_lem :
    (phm : PlatformHealthManagement) (id k : String) (conf : AliveSupervisionConfig) (now : ℕ)
    → ((register_entity phm id conf now).1 ≡ is_none (lookup id phm.entities))
      × (lookup k (register_entity phm id conf now).0.entities ≡ (
          if id == k
          then or_else (lookup id phm.entities) (registered conf now)
          else lookup k phm.entities))
unfolding register_entity
register_entity_lem phm id k conf now = elim (Option-cases (lookup id phm.entities)) [
  | inl e ↦ ground (arith, lookup-insert id k (registered conf now) phm.entities)
  | inr (rec, e) ↦ ground (arith, String_eq.same_iff id k)
]

report_checkpoint-absent :
    (phm : PlatformHealthManagement) (id : String) (cp now : ℕ)
    → lookup id phm.entities ≡ none
    → report_checkpoint phm id cp now ≡ phm
unfolding report_checkpoint
report_checkpoint-absent phm id cp now free = ground arith

-- The entry of a supervised entity with its last time and its count.
abbrev pub shared : ℕ → ℕ → EntityRecord
shared time count = record {
  alive_conf = default_conf;
  status = SupervisionStatus.ok;
  last_checkpoint_time = time;
  alive_count_in_cycle = count;
  action = report_error;
}

-- `ReportCheckpoint` counts one more sign of life of a registered entity, at the time of the call,
-- and sets its status to Ok, whatever the checkpoint; every other entity, and a table without the
-- entity, stays as it was.
pub report_checkpoint_lem :
    (phm : PlatformHealthManagement) (id k : String) (cp now : ℕ)
    → lookup k (report_checkpoint phm id cp now).entities ≡ (
        if id == k
        then map_option (λ rec. reported rec now) (lookup k phm.entities)
        else lookup k phm.entities)
unfolding report_checkpoint
report_checkpoint_lem phm id k cp now = elim (Option-cases (lookup id phm.entities)) [
  | inl e ↦ ground (arith, String_eq.same_iff id k)
  | inr (rec, e) ↦
      ground (arith, String_eq.same_iff id k, lookup-insert id k (reported rec now) phm.entities)
]

-- Two supervised entities of a name that was not registered share the entry of the first: the second
-- constructor leaves it as it was, and a checkpoint of either one counts in it and sets its time. The
-- second one's destructor removes it, and the checkpoints of the first, which still exists, then
-- change nothing.
pub destroy-shared :
    (phm : PlatformHealthManagement) (id : String) (t u cp now : ℕ)
    → lookup id phm.entities ≡ none
    → let (with_first, first) = make_entity phm id t in
      let (with_both, second) = make_entity with_first id u in
      let left = destroy_entity with_both second in
      (lookup id with_both.entities ≡ some (shared t 0))
      × (lookup id (checkpoint_reached with_both first cp now).0.entities ≡ some (shared now 1))
      × (lookup id (checkpoint_reached with_both second cp now).0.entities ≡ some (shared now 1))
      × (lookup id left.entities ≡ none)
      × ((checkpoint_reached left first cp now).0 ≡ left)
unfolding make_entity destroy_entity checkpoint_reached unregister_entity
destroy-shared phm id t u cp now free =
    let with_first = (register_entity phm id default_conf t).0 in
    let with_both = (register_entity with_first id default_conf u).0 in
    let same = (String_eq.same_iff id id).1 refl in
    let once : lookup id with_first.entities ≡ some (shared t 0) =
      ground (arith, (register_entity_lem phm id id default_conf t).1) in
    let twice : lookup id with_both.entities ≡ some (shared t 0) =
      ground (arith, (register_entity_lem with_first id id default_conf u).1) in
    let counts : lookup id (report_checkpoint with_both id cp now).entities ≡ some (shared now 1) =
      ground (arith, report_checkpoint_lem with_both id id cp now) in
    let gone = lookup-erase_self id with_both.entities in
    (twice, counts, counts, gone, report_checkpoint-absent _ id cp now gone)
