-- ===== src/Examples/Rehash.antt =====
-- A table of supervised entities that is rehashed between two calls (src/ara/phm/phm.cpp).
use my_auto_sar_ap.Prelude.{◌≡◌, refl, arith, String, none, List, [], ◌∷◌, String_eq, ◌==◌, false}
use my_auto_sar_ap.Prelude.Map.{lookup}
use my_auto_sar_ap.Phm.{
  PlatformHealthManagement, EntityRecord, SupervisionStatus, GlobalSupervisionStatus,
  register_entity, get_global_status, default_conf, report_error, scan, stop,
}
use my_auto_sar_ap.Phm.Global.{reports, stops, step}
use my_auto_sar_ap.Phm.Contents.{Same}
use my_auto_sar_ap.Phm.Abstract.{Runs, done, calls, rehashes}
use my_auto_sar_ap.Phm.Entries.{entry_of, Runs-entry_of}
use my_auto_sar_ap.Phm.Registry.{is_none}

abbrev entity : SupervisionStatus → EntityRecord
entity status = record {
  alive_conf = default_conf;
  status = status;
  last_checkpoint_time = 0;
  alive_count_in_cycle = 0;
  action = report_error;
}

abbrev table : List (String × EntityRecord) → PlatformHealthManagement
table entities = record {
  entities = entities;
  recovery_callback = none;
  running = false;
  last_wdg_kick = 0;
}

abbrev before : PlatformHealthManagement
before =
    table (("a", entity SupervisionStatus.failed) ∷ ("b", entity SupervisionStatus.expired) ∷ [])

abbrev after : PlatformHealthManagement
after =
    table (("b", entity SupervisionStatus.expired) ∷ ("a", entity SupervisionStatus.failed) ∷ [])

lookup-swap :
    (k j id : String) (v w : EntityRecord)
    → (k == j) ≡ false
    → lookup id ((k, v) ∷ (j, w) ∷ []) ≡ lookup id ((j, w) ∷ (k, v) ∷ [])
unfolding lookup
lookup-swap k j id v w differ =
    ground (arith, String_eq.same_iff k id, String_eq.same_iff j id, String_eq.same_iff k j)

moved : Same before after
unfolding lookup
moved = record {
  entries = λ id.
      lookup-swap "a" "b" id (entity SupervisionStatus.failed) (entity SupervisionStatus.expired)
        refl;
  callback = refl;
  running = refl;
  kick = refl;
}

moved_run : Runs before (reports "a" 1 7 ∷ []) (step after (reports "a" 1 7))
unfolding lookup
moved_run = rehashes moved (refl, (refl, tt)) (calls (reports "a" 1 7) done)

Runs-entry_of_example :
    (lookup "a" (step after (reports "a" 1 7)).entities
      ≡ entry_of "a" (lookup "a" before.entities) (reports "a" 1 7 ∷ []))
    × ((register_entity (step after (reports "a" 1 7)) "a" default_conf 8).1
        ≡ is_none (entry_of "a" (lookup "a" before.entities) (reports "a" 1 7 ∷ [])))
Runs-entry_of_example =
    Runs-entry_of before (step after (reports "a" 1 7)) (reports "a" 1 7 ∷ []) "a" default_conf 8
      moved_run

expired_first : get_global_status (step after stops) ≡ GlobalSupervisionStatus.expired
unfolding get_global_status step scan stop
expired_first = refl
