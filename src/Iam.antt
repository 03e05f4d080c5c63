-- ===== src/Iam.antt =====
-- ara::iam: include/ara/iam/identity_access_management.h and src/ara/iam/iam.cpp. The system clock,
-- in Unix seconds, is the argument `now`; `int64_t` times are integers, with no overflow of
-- `now + 3600`. A call of the audit callback is an entry of `trace`, newest first.
pub mod Access
pub mod Revocation
use my_auto_sar_ap.Prelude.{
  ℕ, String, Bool, true, false, ◌&&◌, ◌||◌, Option, none, some, List, [], ◌∷◌, ◌++◌, leb,
  if◌then◌else◌, ◌==◌, String_eq,
}
use my_auto_sar_ap.Prelude.Int.{ℤ, pos, ◌+ℤ◌, leb_ℤ}
use my_auto_sar_ap.Prelude.Map.{lookup, insert}

pub data IamResult : Type 0 where
  granted denied invalid_token unknown_entity error : IamResult

pub data AccessLevel : Type 0 where
  no_access read write admin security : AccessLevel

abbrev pub level_code : AccessLevel → ℕ
level_code no_access = 0
level_code read = 1
level_code write = 2
level_code admin = 3
level_code security = 4

pub record IdentityToken : Type 0 where
  pub subject_id : String
  pub issuer : String
  pub not_before : ℤ
  pub not_after : ℤ
  pub roles : List String
  pub signature : List ℕ

pub record AccessPolicy : Type 0 where
  pub resource_id : String
  pub role : String
  pub level : AccessLevel
  pub allow_remote : Bool

pub record SubjectRecord : Type 0 where
  pub roles : List String
  pub token_expiry : ℤ
  pub revoked : Bool

pub data Event : Type 0 where
  audited : ℕ → String → String → IamResult → Event

pub record IdentityAccessManagement : Type 0 where
  pub subjects : List (String × SubjectRecord)
  pub policies : List AccessPolicy
  pub audit_callback : Option ℕ
  pub trace : List Event

unfoldable pub new : IdentityAccessManagement
new = record { subjects = []; policies = []; audit_callback = none; trace = [] }

unfoldable pub is_valid : IdentityToken → ℤ → Bool
is_valid token now =
    if token.subject_id == ""
    then false
    else leb_ℤ token.not_before now && leb_ℤ now token.not_after

unfoldable pub register_policy : IdentityAccessManagement → AccessPolicy → IdentityAccessManagement
register_policy iam policy = record iam { policies = iam.policies ++ policy ∷ [] }

abbrev pub default_policies : List AccessPolicy
default_policies =
    record {
      resource_id = "VehicleSignalService";
      role = "DriveAssist";
      level = read;
      allow_remote = false;
    }
    ∷ record {
      resource_id = "VehicleSignalService";
      role = "SafetyMonitor";
      level = read;
      allow_remote = false;
    }
    ∷ record {
      resource_id = "SafetyStatusService";
      role = "SafetyMonitor";
      level = read;
      allow_remote = false;
    }
    ∷ record {
      resource_id = "DiagnosticProxyService";
      role = "Diagnostic";
      level = write;
      allow_remote = true;
    }
    ∷ record {
      resource_id = "OTATransferService";
      role = "OTAClient";
      level = write;
      allow_remote = true;
    }
    ∷ record {
      resource_id = "HMICommandService";
      role = "HMIController";
      level = write;
      allow_remote = false;
    }
    ∷ []

abbrev pub register_policies :
    IdentityAccessManagement → List AccessPolicy → IdentityAccessManagement
register_policies iam [] = iam
register_policies iam (p ∷ ps) = register_policies (register_policy iam p) ps

unfoldable pub initialize : IdentityAccessManagement → IdentityAccessManagement × Bool
unfolding register_policy
initialize iam = (register_policies iam default_policies, true)

-- The certificate chain is not looked at.
unfoldable pub verify_identity : IdentityToken → List (List ℕ) → ℤ → IamResult
verify_identity token cert_chain now =
    if token.subject_id == ""
    then invalid_token
    else if is_valid token now
    then granted
    else invalid_token

abbrev pub is_revoked : Option SubjectRecord → Bool
is_revoked none = false
is_revoked (some rec) = rec.revoked

unfoldable pub policy_matches : AccessPolicy → String → String → AccessLevel → Bool
policy_matches policy role resource level =
    policy.resource_id == resource
    && policy.role == role
    && leb (level_code level) (level_code policy.level)

-- The inner and the outer loop of `CheckAccess`: whether one of them returns `kGranted`.
unfoldable pub any_policy : List AccessPolicy → String → String → AccessLevel → Bool
any_policy [] role resource level = false
any_policy (p ∷ ps) role resource level =
    policy_matches p role resource level || any_policy ps role resource level

unfoldable pub any_role : List String → List AccessPolicy → String → AccessLevel → Bool
any_role [] policies resource level = false
any_role (r ∷ rs) policies resource level =
    any_policy policies r resource level || any_role rs policies resource level

abbrev pub audit : Option ℕ → String → String → IamResult → List Event → List Event
audit none subject resource result t = t
audit (some cb) subject resource result t = audited cb subject resource result ∷ t

-- The audit of an answer, before each `return` behind the lock.
abbrev pub answer :
    IdentityAccessManagement → String → String → IamResult → IdentityAccessManagement × IamResult
answer iam subject resource result =
    (record iam { trace = audit iam.audit_callback subject resource result iam.trace }, result)

unfoldable pub check_access :
    IdentityAccessManagement
    → IdentityToken
    → String
    → AccessLevel
    → ℤ
    → IdentityAccessManagement × IamResult
check_access iam token resource level now =
    if is_valid token now
    then if is_revoked (lookup token.subject_id iam.subjects)
      then answer iam token.subject_id resource denied
      else if any_role token.roles iam.policies resource level
      then answer iam token.subject_id resource granted
      else answer iam token.subject_id resource denied
    else (iam, invalid_token)

unfoldable pub issue_runtime_token :
    IdentityAccessManagement → String → List String → ℤ → IdentityAccessManagement × IdentityToken
issue_runtime_token iam app_id roles now =
    let expiry = now +ℤ pos 3600 in
    (
      record iam {
        subjects =
            insert app_id (record { roles = roles; token_expiry = expiry; revoked = false })
              iam.subjects;
      },
      record {
        subject_id = app_id;
        issuer = "OEM-CA";
        not_before = now;
        not_after = expiry;
        roles = roles;
        signature = [];
      },
    )

unfoldable pub revoke_token : IdentityAccessManagement → String → IdentityAccessManagement
revoke_token iam subject = elim (lookup subject iam.subjects) [
  | none ↦ iam
  | some rec ↦ record iam { subjects = insert subject (record rec { revoked = true }) iam.subjects }
]

unfoldable pub set_audit_callback : IdentityAccessManagement → Option ℕ → IdentityAccessManagement
set_audit_callback iam cb = record iam { audit_callback = cb }

unfoldable pub get_roles : IdentityAccessManagement → String → List String
get_roles iam subject = elim (lookup subject iam.subjects) [ none ↦ [] | some rec ↦ rec.roles ]
