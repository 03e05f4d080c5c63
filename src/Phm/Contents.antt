-- ===== src/Phm/Contents.antt =====
-- The table of `PlatformHealthManagement` is an unordered map (src/ara/phm/phm.cpp): what a caller
-- sees does not depend on the order of its entries, which a rehash may change at any time.
pub mod Steps
use my_auto_sar_ap.Prelude.{
  ℕ, ◌≡◌, refl, sym, ◌∙◌, arith, String, Bool, true, some, none, List, [], ◌∷◌, String_eq,
  Option-cases, Bool-cases, inl, inr,
}
use my_auto_sar_ap.Prelude.Map.{
  lookup, insert, IsDistinct, insert-IsDistinct, erase-IsDistinct, lookup-insert, lookup-erase,
}
use my_auto_sar_ap.Phm.{
  PlatformHealthManagement, EntityRecord, SupervisionStatus, AliveSupervisionConfig, PhmAction,
  register_entity, unregister_entity, report_checkpoint, get_global_status, kick_watchdog,
  set_recovery_callback, set_phm_action, start, stop, registered, reported, is_expired,
}
use my_auto_sar_ap.Phm.Global.{
  Op, registers, unregisters, reports, kicks, sets_callback, sets_action, starts, stops, step,
  some_entity, get_global_status_lem, is_failed, is_stopped,
}

-- The same contents, whatever the order.
pub record Same (p q : PlatformHealthManagement) : Type 0 where
  pub entries : (id : String) → lookup id p.entities ≡ lookup id q.entities
  pub callback : p.recovery_callback ≡ q.recovery_callback
  pub running : p.running ≡ q.running
  pub kick : p.last_wdg_kick ≡ q.last_wdg_kick

pub some_entity-lookup :
    (test : SupervisionStatus → Bool) (es : List (String × EntityRecord))
    → IsDistinct es
    → some_entity test es ≡ true
    → (id : String) × (rec : EntityRecord) × (lookup id es ≡ some rec) × (test rec.status ≡ true)
unfolding lookup
some_entity-lookup test [] h found = ground arith
some_entity-lookup test ((id, rec) ∷ es) h found = elim (Bool-cases (test rec.status)) [
  | inl here ↦ (id, rec, ground (arith, String_eq.same_iff id id), here)
  | inr elsewhere ↦
      let (j, r, at, passes) = some_entity-lookup test es h.1 (ground arith) in
      (j, r, ground (arith, String_eq.same_iff id j), passes)
]

pub lookup-some_entity :
    (test : SupervisionStatus → Bool) (id : String) (rec : EntityRecord)
    (es : List (String × EntityRecord))
    → lookup id es ≡ some rec
    → test rec.status ≡ true
    → some_entity test es ≡ true
unfolding lookup
lookup-some_entity test id rec [] at passes = ground arith
lookup-some_entity test id rec ((j, r) ∷ es) at passes =
    ground (arith, lookup-some_entity test id rec es)

pub some_entity-over :
    (test : SupervisionStatus → Bool) (es fs : List (String × EntityRecord))
    → IsDistinct es
    → ((id : String) → lookup id es ≡ lookup id fs)
    → some_entity test es ≡ true
    → some_entity test fs ≡ true
some_entity-over test es fs d same found =
    let (id, rec, at, passes) = some_entity-lookup test es d found in
    lookup-some_entity test id rec fs (sym (same id) ∙ at) passes

pub some_entity-same :
    (test : SupervisionStatus → Bool) (es fs : List (String × EntityRecord))
    → IsDistinct es
    → IsDistinct fs
    → ((id : String) → lookup id es ≡ lookup id fs)
    → some_entity test es ≡ some_entity test fs
some_entity-same test es fs d e same =
    ground (
      arith,
      some_entity-over test es fs d same,
      some_entity-over test fs es e (λ id. sym (same id)),
    )

-- The status is a function of the contents.
pub get_global_status-same :
    (p q : PlatformHealthManagement)
    → IsDistinct p.entities
    → IsDistinct q.entities
    → Same p q
    → get_global_status p ≡ get_global_status q
get_global_status-same p q d e same =
    let eq = λ (test : SupervisionStatus → Bool).
      some_entity-same test p.entities q.entities d e same.entries in
    rw
      (get_global_status_lem p, get_global_status_lem q, eq is_expired, eq is_failed, eq is_stopped)

pub lookup-insert_same :
    (id : String) (rec : EntityRecord) (es fs : List (String × EntityRecord))
    → ((k : String) → lookup k es ≡ lookup k fs)
    → (k : String) → lookup k (insert id rec es) ≡ lookup k (insert id rec fs)
lookup-insert_same id rec es fs same k =
    rw (lookup-insert id k rec es, lookup-insert id k rec fs, same k)
