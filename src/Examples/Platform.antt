-- ===== src/Examples/Platform.antt =====
-- Concrete runs of the state, network, health and access managers (src/ara/sm, nm, phm and iam).
use my_auto_sar_ap.Prelude.{
  none, ◌≡◌, ◌≢◌, ◌⊎◌, ◌↔◌, inl, refl, arith, false, some, [], ◌∷◌, ℕ_eq, String_eq,
}
use my_auto_sar_ap.Prelude.Int.{pos}
use my_auto_sar_ap.Prelude.Map.{lookup}
use my_auto_sar_ap.Sm
use my_auto_sar_ap.Sm.{
  StateManagement, FunctionGroup, startup, driving, parked, charging, shutdown, success, rejected,
  request_machine_state_change, get_function_group, request_group,
}
use my_auto_sar_ap.Sm.Machine.{◌⟶◌, request_iff}
use my_auto_sar_ap.Sm.Runs.{run-IsHalted, run-route, run-Linked, IsHalted, Linked, route}
use my_auto_sar_ap.Nm
use my_auto_sar_ap.Nm.{
  eth_ipc, NetworkManagement, bus_sleep, open_handle, close_handle, get_network_state,
}
use my_auto_sar_ap.Nm.RefCount.{run-state, requests, releases, state_for, outstanding}
use my_auto_sar_ap.Phm
use my_auto_sar_ap.Phm.{
  PlatformHealthManagement, get_global_status, registered, default_conf, make_entity,
  destroy_entity, checkpoint_reached,
}
use my_auto_sar_ap.Phm.Global.{
  get_global_status-worst, get_global_status-run, registers, reports, worst, some_entity, is_failed,
  is_stopped,
}
use my_auto_sar_ap.Phm.Registry.{destroy-shared, shared}
use my_auto_sar_ap.Iam
use my_auto_sar_ap.Iam.{
  IdentityAccessManagement, IdentityToken, check_access, granted, denied, invalid_token, read,
  revoke_token, issue_runtime_token,
}
use my_auto_sar_ap.Iam.Access.{check_access_iff, MayAccess, IsCurrent}
use my_auto_sar_ap.Iam.Revocation.{revoked-not-granted, issue-revoke, checks}

abbrev driven : StateManagement
driven = record Sm.new { current_state = driving; machine_state_callback = some 7 }

request_iff_example :
    let (t, result) = request_machine_state_change driven charging in
    ((result ≡ success)
      × (t.current_state ≡ charging)
      × ((driving ≡ charging) ⊎ (driving ⟶ charging)))
    ⊎ ((result ≡ rejected) × (t ≡ driven) × (driving ≢ charging) × ¬ (driving ⟶ charging))
request_iff_example = request_iff driven charging

run-Linked_example :
    Linked driving
      (Sm.Runs.run driven (parked ∷ startup ∷ charging ∷ [])).trace
      (Sm.Runs.run driven (parked ∷ startup ∷ charging ∷ [])).current_state
unfolding Sm.new
run-Linked_example = run-Linked driving driven (parked ∷ startup ∷ charging ∷ []) 7 refl refl

run-state_example :
    get_network_state
      (Nm.RefCount.run
        (Nm.initialize Nm.new).0
        (requests eth_ipc ∷ requests eth_ipc ∷ releases eth_ipc ∷ releases eth_ipc ∷ []))
      eth_ipc
    ≡ bus_sleep
run-state_example =
    run-state eth_ipc
      (requests eth_ipc ∷ requests eth_ipc ∷ releases eth_ipc ∷ releases eth_ipc ∷ []) (inl refl)
      (omega arith)

abbrev watched : PlatformHealthManagement
watched = record Phm.new {
  entities =
      ("a", record (registered default_conf 5) { status = Phm.SupervisionStatus.stopped })
      ∷ ("b", record (registered default_conf 5) { status = Phm.SupervisionStatus.failed })
      ∷ [];
}

get_global_status-worst_example :
    (get_global_status watched ≡ Phm.GlobalSupervisionStatus.failed)
    × (get_global_status (Phm.stop watched) ≡ Phm.GlobalSupervisionStatus.failed)
    × (get_global_status (Phm.start watched 9) ≡ Phm.GlobalSupervisionStatus.failed)
get_global_status-worst_example = get_global_status-worst watched 9

get_global_status-run_example :
    get_global_status
      (Phm.Global.run Phm.new (registers "a" default_conf 0 ∷ reports "a" 255 90000 ∷ []))
    ≡ Phm.normal
get_global_status-run_example =
    get_global_status-run (registers "a" default_conf 0 ∷ reports "a" 255 90000 ∷ [])

destroy-shared_example :
    let (with_first, first) = make_entity Phm.new "a" 1 in
    let (with_both, second) = make_entity with_first "a" 2 in
    let left = destroy_entity with_both second in
    (lookup "a" with_both.entities ≡ some (shared 1 0))
    × (lookup "a" (checkpoint_reached with_both first 0 3).0.entities ≡ some (shared 3 1))
    × (lookup "a" (checkpoint_reached with_both second 0 3).0.entities ≡ some (shared 3 1))
    × (lookup "a" left.entities ≡ none)
    × ((checkpoint_reached left first 0 3).0 ≡ left)
unfolding Phm.new lookup
destroy-shared_example = destroy-shared Phm.new "a" 1 2 0 3 refl

abbrev signal_token : IdentityToken
signal_token = record {
  subject_id = "drive";
  issuer = "OEM-CA";
  not_before = pos 100;
  not_after = pos 3700;
  roles = "DriveAssist" ∷ [];
  signature = [];
}

abbrev iam_with_subject : IdentityAccessManagement
iam_with_subject = record ((Iam.initialize Iam.new).0) {
  subjects =
      ("drive", record { roles = "DriveAssist" ∷ []; token_expiry = pos 3700; revoked = false })
      ∷ [];
}

check_access_iff_example :
    (((check_access iam_with_subject signal_token "VehicleSignalService" read (pos 200)).1
        ≡ granted)
      ↔ MayAccess iam_with_subject signal_token "VehicleSignalService" read (pos 200))
    × (((check_access iam_with_subject signal_token "VehicleSignalService" read (pos 200)).1
          ≡ invalid_token)
        ↔ ¬ IsCurrent signal_token (pos 200))
check_access_iff_example =
    check_access_iff iam_with_subject signal_token "VehicleSignalService" read (pos 200)

revoked-not-granted_example :
    (check_access
      (Iam.Revocation.run
        (revoke_token iam_with_subject "drive")
        (checks signal_token "VehicleSignalService" read (pos 150) ∷ []))
      signal_token
      "VehicleSignalService"
      read
      (pos 200)).1
    ≢ granted
unfolding lookup
revoked-not-granted_example =
    revoked-not-granted iam_with_subject
      (record { roles = "DriveAssist" ∷ []; token_expiry = pos 3700; revoked = false })
      (checks signal_token "VehicleSignalService" read (pos 150) ∷ []) signal_token
      "VehicleSignalService" read (pos 200) refl tt

issue-revoke_example :
    (check_access
      (issue_runtime_token (revoke_token iam_with_subject "drive") "drive" [] (pos 150)).0
      signal_token
      "VehicleSignalService"
      read
      (pos 200)).1
    ≡ (check_access iam_with_subject signal_token "VehicleSignalService" read (pos 200)).1
unfolding lookup
issue-revoke_example =
    issue-revoke iam_with_subject signal_token [] (pos 150) "VehicleSignalService" read (pos 200)
      refl
