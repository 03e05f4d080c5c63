-- ===== src/Iam/Access.antt =====
-- The access decision (src/ara/iam/iam.cpp) against the policy that it stands for.
use my_auto_sar_ap.Prelude.{
  ◌≤◌, ◌≡◌, ◌≢◌, ◌⊎◌, ◌↔◌, inl, inr, refl, arith, String, Bool, true, false, ◌||◌, List, [], ◌∷◌,
  Exists, if◌then◌else◌, String_eq, Bool-cases, sym, ◌∙◌,
}
use mathlib.Core.Bool.{false≢true}
use my_auto_sar_ap.Prelude.Int.{ℤ, ◌≤ℤ◌}
use my_auto_sar_ap.Prelude.Map.{lookup}
use my_auto_sar_ap.Iam.{
  IdentityAccessManagement, IdentityToken, AccessPolicy, AccessLevel, granted, invalid_token,
  level_code, is_valid, is_revoked, policy_matches, any_policy, any_role, audit, check_access,
}

-- A policy that lets a role use a resource at a level.
abbrev pub Permits : String → AccessLevel → String → AccessPolicy → Type 0
Permits resource level role p =
    (p.resource_id ≡ resource) × (p.role ≡ role) × (level_code level ≤ level_code p.level)

policy_matches_iff :
    (p : AccessPolicy) (role resource : String) (level : AccessLevel)
    → (policy_matches p role resource level ≡ true) ↔ Permits resource level role p
unfolding policy_matches
policy_matches_iff p role resource level =
    ground (arith, String_eq.same_iff p.resource_id resource, String_eq.same_iff p.role role)

or_iff : {P Q : Type 0} (b c : Bool) → (b ≡ true) ↔ P → (c ≡ true) ↔ Q → ((b || c) ≡ true) ↔ (P ⊎ Q)
or_iff true c p q = ((λ h. inl (p.0 refl)), (λ h. refl))
or_iff false c p q =
    ((λ h. inr (q.0 h)), λ h. elim h [ inl a ↦ absurd (false≢true (p.1 a)) | inr a ↦ q.1 a ])

never_iff : {P : Type 0} → (P → ⊥) → (false ≡ true) ↔ P
never_iff n = ((λ h. cc), λ p. absurd (n p))

any_policy_iff :
    (ps : List AccessPolicy) (role resource : String) (level : AccessLevel)
    → (any_policy ps role resource level ≡ true) ↔ Exists (Permits resource level role) ps
unfolding any_policy
any_policy_iff [] role resource level = never_iff (λ h. h)
any_policy_iff (p ∷ ps) role resource level =
    or_iff _ _ (policy_matches_iff p role resource level) (any_policy_iff ps role resource level)

any_role_iff :
    (rs : List String) (ps : List AccessPolicy) (resource : String) (level : AccessLevel)
    → (any_role rs ps resource level ≡ true)
      ↔ Exists (λ role. Exists (Permits resource level role) ps) rs
unfolding any_role
any_role_iff [] ps resource level = never_iff (λ h. h)
any_role_iff (r ∷ rs) ps resource level =
    or_iff _ _ (any_policy_iff ps r resource level) (any_role_iff rs ps resource level)

abbrev pub IsCurrent : IdentityToken → ℤ → Type 0
IsCurrent token now = (token.subject_id ≢ "") × (token.not_before ≤ℤ now) × (now ≤ℤ token.not_after)

pub is_valid_iff :
    (token : IdentityToken) (now : ℤ) → (is_valid token now ≡ true) ↔ IsCurrent token now
unfolding is_valid
is_valid_iff token now = ground (arith, String_eq.same_iff token.subject_id "")

-- What a token must satisfy for a resource and a level: it is current, its subject is not revoked,
-- and one of its roles has a policy for the resource at that level or above.
pub record MayAccess (iam : IdentityAccessManagement) (token : IdentityToken) (resource : String)
    (level : AccessLevel) (now : ℤ) : Type 0 where
  pub current : IsCurrent token now
  pub in_force : is_revoked (lookup token.subject_id iam.subjects) ≡ false
  pub permitted : Exists (λ role. Exists (Permits resource level role) iam.policies) token.roles

-- `CheckAccess` grants exactly what the policies allow, and reports an invalid token exactly for a
-- token that is not current.
pub check_access_iff :
    (iam : IdentityAccessManagement) (token : IdentityToken) (resource : String)
    (level : AccessLevel) (now : ℤ)
    → (((check_access iam token resource level now).1 ≡ granted)
        ↔ MayAccess iam token resource level now)
      × (((check_access iam token resource level now).1 ≡ invalid_token) ↔ ¬ IsCurrent token now)
unfolding check_access
check_access_iff iam token resource level now =
    let valid = is_valid_iff token now in
    let permits = any_role_iff token.roles iam.policies resource level in
    elim (Bool-cases (is_valid token now)) [
      | inr stale ↦ (
        ((λ h. ground arith), (λ may. absurd (false≢true (sym stale ∙ valid.1 may.current)))),
        ((λ h c. absurd (false≢true (sym stale ∙ valid.1 c))), (λ h. ground arith)),
      )
      | inl fresh ↦ elim (Bool-cases (is_revoked (lookup token.subject_id iam.subjects))) [
        | inl gone ↦ (
          ((λ h. ground arith), (λ may. absurd (false≢true (sym may.in_force ∙ gone)))),
          ((λ h. ground arith), (λ n. absurd (n (valid.0 fresh)))),
        )
        | inr kept ↦ elim (Bool-cases (any_role token.roles iam.policies resource level)) [
          | inl found ↦ (
            (
              (λ h. record {
                current = valid.0 fresh;
                in_force = kept;
                permitted = permits.0 found;
              }),
              (λ may. ground arith),
            ),
            ((λ h. ground arith), (λ n. absurd (n (valid.0 fresh)))),
          )
          | inr missing ↦ (
            (
              (λ h. ground arith),
              (λ may. absurd (false≢true (sym missing ∙ permits.1 may.permitted))),
            ),
            ((λ h. ground arith), (λ n. absurd (n (valid.0 fresh)))),
          )
        ]
      ]
    ]

-- With a callback registered, each check of a current token adds one audit entry, with the subject,
-- the resource and the answer given; a check of a token that is not current adds none. Nothing else
-- of the state changes.
pub check_access_audited :
    (iam : IdentityAccessManagement) (token : IdentityToken) (resource : String)
    (level : AccessLevel) (now : ℤ)
    → (check_access iam token resource level now).0 ≡ (
        if is_valid token now
        then record iam {
          trace =
              audit iam.audit_callback token.subject_id resource
                (check_access iam token resource level now).1
                iam.trace;
        }
        else iam)
unfolding check_access
check_access_audited iam token resource level now = ground arith
