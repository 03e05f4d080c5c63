-- ===== src/Iam/Revocation.antt =====
-- Revocation (src/ara/iam/iam.cpp): how long it lasts, and whom it reaches.
use my_auto_sar_ap.Prelude.{
  ℕ, ◌≡◌, ◌≢◌, inl, inr, arith, String, true, false, Option, none, some, List, [], ◌∷◌, ◌==◌,
  String_eq, Option-cases,
}
use my_auto_sar_ap.Prelude.Int.{ℤ, pos, ◌+ℤ◌}
use my_auto_sar_ap.Prelude.Map.{lookup, insert, lookup-insert, lookup-insert_self}
use my_auto_sar_ap.Iam.{
  IdentityAccessManagement, IdentityToken, AccessPolicy, AccessLevel, SubjectRecord, granted,
  is_revoked, register_policy, check_access, issue_runtime_token, revoke_token, set_audit_callback,
}

pub data Op : Type 0 where
  registers : AccessPolicy → Op
  checks : IdentityToken → String → AccessLevel → ℤ → Op
  issues : String → List String → ℤ → Op
  revokes : String → Op
  sets_callback : Option ℕ → Op

unfoldable pub step : IdentityAccessManagement → Op → IdentityAccessManagement
step iam (registers p) = register_policy iam p
step iam (checks token resource level now) = (check_access iam token resource level now).0
step iam (issues app_id roles now) = (issue_runtime_token iam app_id roles now).0
step iam (revokes subject) = revoke_token iam subject
step iam (sets_callback cb) = set_audit_callback iam cb

unfoldable pub run : IdentityAccessManagement → List Op → IdentityAccessManagement
run iam [] = iam
run iam (op ∷ ops) = run (step iam op) ops

-- No call of the list issues a new token to the subject.
abbrev pub NoIssue : String → List Op → Type 0
NoIssue subject [] = Unit
NoIssue subject (issues app_id roles now ∷ ops) =
    ((app_id == subject) ≡ false) × NoIssue subject ops
NoIssue subject (_ ∷ ops) = NoIssue subject ops

abbrev IsRevoked : String → IdentityAccessManagement → Type 0
IsRevoked subject iam = is_revoked (lookup subject iam.subjects) ≡ true

revoke-IsRevoked :
    (iam : IdentityAccessManagement) (subject other : String)
    → IsRevoked subject iam
    → IsRevoked subject (revoke_token iam other)
unfolding revoke_token
revoke-IsRevoked iam subject other h = elim (Option-cases (lookup other iam.subjects)) [
  | inl e ↦ ground arith
  | inr (rec, e) ↦
      ground (arith, lookup-insert other subject (record rec { revoked = true }) iam.subjects)
]

issue-IsRevoked :
    (iam : IdentityAccessManagement) (subject app_id : String) (roles : List String) (now : ℤ)
    → (app_id == subject) ≡ false
    → IsRevoked subject iam
    → IsRevoked subject (issue_runtime_token iam app_id roles now).0
unfolding issue_runtime_token
issue-IsRevoked iam subject app_id roles now other h = rw (lookup-insert, other) h

run-IsRevoked :
    (iam : IdentityAccessManagement) (subject : String) (ops : List Op)
    → NoIssue subject ops
    → IsRevoked subject iam
    → IsRevoked subject (run iam ops)
unfolding run step register_policy check_access set_audit_callback
run-IsRevoked iam subject [] n h = h
run-IsRevoked iam subject (registers p ∷ ops) n h =
    run-IsRevoked (register_policy iam p) subject ops n h
run-IsRevoked iam subject (checks token resource level now ∷ ops) n h =
    run-IsRevoked (check_access iam token resource level now).0 subject ops n (ground arith)
run-IsRevoked iam subject (issues app_id roles now ∷ ops) n h =
    run-IsRevoked (issue_runtime_token iam app_id roles now).0 subject ops n.1
      (issue-IsRevoked iam subject app_id roles now n.0 h)
run-IsRevoked iam subject (revokes other ∷ ops) n h =
    run-IsRevoked (revoke_token iam other) subject ops n (revoke-IsRevoked iam subject other h)
run-IsRevoked iam subject (sets_callback cb ∷ ops) n h =
    run-IsRevoked (set_audit_callback iam cb) subject ops n h

revoke_known :
    (iam : IdentityAccessManagement) (subject : String) (rec : SubjectRecord)
    → lookup subject iam.subjects ≡ some rec
    → IsRevoked subject (revoke_token iam subject)
unfolding revoke_token
revoke_known iam subject rec e = ground (
  arith,
  lookup-insert subject subject (record rec { revoked = true }) iam.subjects,
  String_eq.same_iff subject subject,
)

-- After the token of a known subject is revoked, no token of that subject is granted anything, at
-- any time and over any calls, until a new token is issued to the subject.
pub revoked-not-granted :
    (iam : IdentityAccessManagement) (rec : SubjectRecord) (ops : List Op) (token : IdentityToken)
    (resource : String) (level : AccessLevel) (now : ℤ)
    → lookup token.subject_id iam.subjects ≡ some rec
    → NoIssue token.subject_id ops
    → (check_access (run (revoke_token iam token.subject_id) ops) token resource level now).1
      ≢ granted
unfolding check_access
revoked-not-granted iam rec ops token resource level now e n h =
    let gone =
      run-IsRevoked (revoke_token iam token.subject_id) token.subject_id ops n
        (revoke_known iam token.subject_id rec e) in
    ground arith

-- Revoking a subject that no runtime token was issued to changes nothing: a token of that subject
-- from elsewhere is answered as before.
pub revoke-unknown :
    (iam : IdentityAccessManagement) (token : IdentityToken) (resource : String)
    (level : AccessLevel) (now : ℤ)
    → lookup token.subject_id iam.subjects ≡ none
    → check_access (revoke_token iam token.subject_id) token resource level now
      ≡ check_access iam token resource level now
unfolding revoke_token
revoke-unknown iam token resource level now e = ground arith

-- If a subject that is not revoked is revoked and then issued a new token, a check of one of its
-- old tokens is answered as before the revocation.
pub issue-revoke :
    (iam : IdentityAccessManagement) (old : IdentityToken) (roles : List String) (start : ℤ)
    (resource : String) (level : AccessLevel) (now : ℤ)
    → is_revoked (lookup old.subject_id iam.subjects) ≡ false
    → (check_access
        (issue_runtime_token (revoke_token iam old.subject_id) old.subject_id roles start).0
        old
        resource
        level
        now).1
      ≡ (check_access iam old resource level now).1
unfolding check_access issue_runtime_token revoke_token
issue-revoke iam old roles start resource level now h =
    let subject = old.subject_id in
    let renewed : SubjectRecord = record {
      roles = roles;
      token_expiry = start +ℤ pos 3600;
      revoked = false;
    } in
    elim (Option-cases (lookup subject iam.subjects)) [
      | inl e ↦ ground (arith, lookup-insert_self subject renewed iam.subjects)
      | inr (rec, e) ↦ ground (
        arith,
        lookup-insert_self subject renewed
            (insert subject (record rec { revoked = true }) iam.subjects),
      )
    ]
