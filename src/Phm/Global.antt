-- ===== src/Phm/Global.antt =====
-- The global supervision status (src/ara/phm/phm.cpp): which entity decides it, and what it can be.
use my_auto_sar_ap.Prelude.{
  ℕ, ◌≡◌, refl, arith, String, Bool, true, false, ◌||◌, Option, some, List, [], ◌∷◌, All, String_eq,
  Option-cases, inl, inr, ◌⊎◌, sym, subst,
}
use my_auto_sar_ap.Prelude.Map.{lookup, insert, erase}
use my_auto_sar_ap.Phm.{
  PlatformHealthManagement, EntityRecord, SupervisionStatus, GlobalSupervisionStatus,
  AliveSupervisionConfig, PhmAction, failed, stopped, normal, new, register_entity,
  unregister_entity, report_checkpoint, scan, get_global_status, kick_watchdog,
  set_recovery_callback, set_phm_action, start, stop, worsen, is_expired, registered, reported,
}

abbrev pub is_failed : SupervisionStatus → Bool
is_failed failed = true
is_failed _ = false

abbrev pub is_stopped : SupervisionStatus → Bool
is_stopped stopped = true
is_stopped _ = false

-- Whether some entity passes a test, whatever the order of the entries.
abbrev pub some_entity : (SupervisionStatus → Bool) → List (String × EntityRecord) → Bool
some_entity test [] = false
some_entity test ((id, rec) ∷ rest) = test rec.status || some_entity test rest

abbrev pub worst : Bool → Bool → Bool → GlobalSupervisionStatus
worst true f s = GlobalSupervisionStatus.expired
worst false true s = GlobalSupervisionStatus.failed
worst false false true = GlobalSupervisionStatus.stopped
worst false false false = normal

abbrev holds_failed : GlobalSupervisionStatus → Bool
holds_failed GlobalSupervisionStatus.failed = true
holds_failed _ = false

abbrev holds_stopped : GlobalSupervisionStatus → Bool
holds_stopped GlobalSupervisionStatus.stopped = true
holds_stopped _ = false

abbrev holds_expired : GlobalSupervisionStatus → Bool
holds_expired GlobalSupervisionStatus.expired = true
holds_expired _ = false

scan-worst :
    (acc : GlobalSupervisionStatus) (es : List (String × EntityRecord))
    → holds_expired acc ≡ false
    → scan acc es
      ≡ worst
          (some_entity is_expired es)
          (holds_failed acc || some_entity is_failed es)
          (holds_stopped acc || some_entity is_stopped es)
unfolding scan
scan-worst normal [] h = refl
scan-worst GlobalSupervisionStatus.failed [] h = refl
scan-worst GlobalSupervisionStatus.expired [] h = cc
scan-worst GlobalSupervisionStatus.stopped [] h = refl
scan-worst acc ((id, rec) ∷ es) h = ground (arith, scan-worst (worsen rec.status acc) es)

abbrev pub worst_of : PlatformHealthManagement → GlobalSupervisionStatus
worst_of phm =
    worst (some_entity is_expired phm.entities) (some_entity is_failed phm.entities)
      (some_entity is_stopped phm.entities)

pub get_global_status_lem : (phm : PlatformHealthManagement) → get_global_status phm ≡ worst_of phm
unfolding get_global_status
get_global_status_lem phm = scan-worst normal phm.entities refl

-- The global status is the worst status of the registered entities, whatever order the table is
-- read in: Expired if some entity has expired, else Failed if some entity has failed, else Stopped
-- if some entity is stopped, else Normal. Neither `Stop` nor `Start` of the manager changes it.
pub get_global_status-worst :
    (phm : PlatformHealthManagement) (now : ℕ)
    → (get_global_status phm ≡ worst_of phm)
      × (get_global_status (stop phm) ≡ worst_of phm)
      × (get_global_status (start phm now) ≡ worst_of phm)
unfolding stop start
get_global_status-worst phm now = (
  get_global_status_lem phm,
  get_global_status_lem (stop phm),
  get_global_status_lem (start phm now),
)

pub data Op : Type 0 where
  registers : String → AliveSupervisionConfig → ℕ → Op
  unregisters : String → Op
  reports : String → ℕ → ℕ → Op
  kicks : ℕ → Op
  sets_callback : Option ℕ → Op
  sets_action : String → PhmAction → Op
  starts : ℕ → Op
  stops : Op

unfoldable pub step : PlatformHealthManagement → Op → PlatformHealthManagement
step phm (registers id conf now) = (register_entity phm id conf now).0
step phm (unregisters id) = unregister_entity phm id
step phm (reports id cp now) = report_checkpoint phm id cp now
step phm (kicks now) = kick_watchdog phm now
step phm (sets_callback cb) = set_recovery_callback phm cb
step phm (sets_action id action) = set_phm_action phm id action
step phm (starts now) = start phm now
step phm stops = stop phm

unfoldable pub run : PlatformHealthManagement → List Op → PlatformHealthManagement
run phm [] = phm
run phm (op ∷ ops) = run (step phm op) ops

abbrev pub IsOk : String × EntityRecord → Type 0
IsOk (id, rec) = rec.status ≡ SupervisionStatus.ok

insert-IsOk :
    (id : String) (rec : EntityRecord) (es : List (String × EntityRecord))
    → rec.status ≡ SupervisionStatus.ok
    → All IsOk es
    → All IsOk (insert id rec es)
unfolding insert
insert-IsOk id rec [] h a = (h, tt)
insert-IsOk id rec ((j, r) ∷ es) h a = ground (arith, insert-IsOk id rec es h a.1)

erase-IsOk :
    (id : String) (es : List (String × EntityRecord)) → All IsOk es → All IsOk (erase id es)
unfolding erase
erase-IsOk id [] a = tt
erase-IsOk id ((j, r) ∷ es) a = ground (arith, erase-IsOk id es a.1)

lookup-IsOk :
    (id : String) (es : List (String × EntityRecord)) (rec : EntityRecord)
    → lookup id es ≡ some rec
    → All IsOk es
    → rec.status ≡ SupervisionStatus.ok
unfolding lookup
lookup-IsOk id [] rec h a = ground arith
lookup-IsOk id ((j, r) ∷ es) rec h a = ground (arith, lookup-IsOk id es rec)

-- What an operation on an entity leaves, from the entries that it writes or keeps.
by_entry :
    (es after : List (String × EntityRecord)) (id : String)
    → All IsOk es
    → (after ≡ es)
      ⊎ ((rec : EntityRecord) × (rec.status ≡ SupervisionStatus.ok) × (after ≡ insert id rec es))
    → All IsOk after
by_entry es after id a (inl e) = subst (All IsOk) (sym e) a
by_entry es after id a (inr (rec, fine, e)) =
    subst (All IsOk) (sym e) (insert-IsOk id rec es fine a)

register-IsOk :
    (phm : PlatformHealthManagement) (id : String) (conf : AliveSupervisionConfig) (now : ℕ)
    → All IsOk phm.entities
    → All IsOk (register_entity phm id conf now).0.entities
unfolding register_entity
register-IsOk phm id conf now a =
    by_entry phm.entities _ id a (elim (Option-cases (lookup id phm.entities)) [
      | inl e ↦ inr (registered conf now, refl, ground arith)
      | inr (rec, e) ↦ inl (ground arith)
    ])

report-IsOk :
    (phm : PlatformHealthManagement) (id : String) (cp now : ℕ)
    → All IsOk phm.entities
    → All IsOk (report_checkpoint phm id cp now).entities
unfolding report_checkpoint
report-IsOk phm id cp now a =
    by_entry phm.entities _ id a (elim (Option-cases (lookup id phm.entities)) [
      | inl e ↦ inl (ground arith)
      | inr (rec, e) ↦ inr (reported rec now, refl, ground arith)
    ])

set_action-IsOk :
    (phm : PlatformHealthManagement) (id : String) (action : PhmAction)
    → All IsOk phm.entities
    → All IsOk (set_phm_action phm id action).entities
unfolding set_phm_action
set_action-IsOk phm id action a =
    by_entry phm.entities _ id a (elim (Option-cases (lookup id phm.entities)) [
      | inl e ↦ inl (ground arith)
      | inr (rec, e) ↦
          inr (record rec { action = action }, lookup-IsOk id phm.entities rec e a, ground arith)
    ])

pub step-IsOk :
    (phm : PlatformHealthManagement) (op : Op)
    → All IsOk phm.entities
    → All IsOk (step phm op).entities
unfolding step unregister_entity kick_watchdog set_recovery_callback start stop
step-IsOk phm (registers id conf now) a = register-IsOk phm id conf now a
step-IsOk phm (unregisters id) a = erase-IsOk id phm.entities a
step-IsOk phm (reports id cp now) a = report-IsOk phm id cp now a
step-IsOk phm (kicks now) a = a
step-IsOk phm (sets_callback cb) a = a
step-IsOk phm (sets_action id action) a = set_action-IsOk phm id action a
step-IsOk phm (starts now) a = a
step-IsOk phm stops a = a

run-IsOk :
    (phm : PlatformHealthManagement) (ops : List Op)
    → All IsOk phm.entities
    → All IsOk (run phm ops).entities
unfolding run
run-IsOk phm [] a = a
run-IsOk phm (op ∷ ops) a = run-IsOk (step phm op) ops (step-IsOk phm op a)

pub scan-IsOk : (es : List (String × EntityRecord)) → All IsOk es → scan normal es ≡ normal
unfolding scan
scan-IsOk [] a = refl
scan-IsOk ((id, rec) ∷ es) a = ground (arith, scan-IsOk es a.1)

-- No sequence of calls, whatever their times and however long entities stay silent, takes the
-- global status away from Normal.
pub get_global_status-run : (ops : List Op) → get_global_status (run new ops) ≡ normal
unfolding get_global_status new
get_global_status-run ops = scan-IsOk (run new ops).entities (run-IsOk new ops tt)
