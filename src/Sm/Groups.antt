-- ===== src/Sm/Groups.antt =====
-- The registry of function groups and the shared group objects behind it (src/ara/sm/sm.cpp).
use my_auto_sar_ap.Prelude.{
  ℕ, ◌+◌, List, [], ◌∷◌, ◌++◌, ◌≡◌, refl, arith, String, some, none, length, get_elem?,
  get_elem?-set, if◌then◌else◌, ◌==◌, String_eq, ℕ_eq, nat_eq,
}
use my_auto_sar_ap.Prelude.Map.{insert, lookup-insert}
use my_auto_sar_ap.Sm.{
  StateManagement, FunctionGroup, FunctionGroupState, off, success, request_group,
  register_function_group, get_function_group, initialize,
}

abbrev fresh : String → FunctionGroup
fresh name = record { name = name; current_state = off; state_change_callback = none }

-- A registered group is found under its name, and no other name is affected.
pub register-get :
    (s : StateManagement) (p : ℕ) (g : FunctionGroup) (name : String)
    → get_elem? s.groups p ≡ some g
    → get_function_group (register_function_group s (some p)) name
      ≡ (if g.name == name then some p else get_function_group s name)
unfolding register_function_group get_function_group
register-get s p g name h = ground (arith, lookup-insert g.name name p s.function_groups)

-- A request through any pointer to a group always succeeds and is seen through every other pointer
-- to that group; the other groups, the registry and the machine state stay as they were.
pub request_group_lem :
    (s : StateManagement) (p q : ℕ) (g : FunctionGroup) (target : FunctionGroupState)
    → get_elem? s.groups p ≡ some g
    → let (t, result) = request_group s p target in
      (result ≡ success)
      × (get_elem? t.groups q ≡ (
          if nat_eq p q then some (record g { current_state = target }) else get_elem? s.groups q))
      × (t.function_groups ≡ s.function_groups)
      × (t.current_state ≡ s.current_state)
unfolding request_group
request_group_lem s p q g target h = ground (
  arith,
  get_elem?-set s.groups p q g g h,
  get_elem?-set s.groups p q (record g { current_state = target }) g h,
)

four_appended {ℓ} :
    {A : Type ℓ} (xs : List A) (a b c d : A)
    → let one = xs ++ a ∷ [] in
      let two = one ++ b ∷ [] in
      let three = two ++ c ∷ [] in
      let four = three ++ d ∷ [] in
      (get_elem? four (length xs) ≡ some a)
      × (get_elem? four (length one) ≡ some b)
      × (get_elem? four (length two) ≡ some c)
      × (get_elem? four (length three) ≡ some d)
      × (length one ≡ length xs + 1)
      × (length two ≡ length xs + 2)
      × (length three ≡ length xs + 3)
four_appended [] a b c d = (refl, refl, refl, refl, refl, refl, refl)
four_appended (x ∷ xs) a b c d = ground (arith, four_appended xs a b c d)

initialize-entries :
    (s : StateManagement)
    → let n = length s.groups in
      (initialize s).0.function_groups
      ≡ insert "OTA" (n + 3) (
          insert "Diagnostic"
            (n + 2)
            (insert "Infotainment" (n + 1) (insert "DriveAssist" n s.function_groups)))
unfolding initialize
initialize-entries s = ground (
  arith,
  four_appended s.groups (fresh "DriveAssist") (fresh "Infotainment") (fresh "Diagnostic")
      (fresh "OTA"),
)

-- `Initialize` registers four new groups, on top of what was registered before: a name of the four
-- finds a group of its own, behind all earlier ones, and every other name finds what it found.
pub initialize-get :
    (s : StateManagement) (name : String)
    → let n = length s.groups in
      get_function_group (initialize s).0 name ≡ (
        if "OTA" == name
        then some (n + 3)
        else if "Diagnostic" == name
        then some (n + 2)
        else if "Infotainment" == name
        then some (n + 1)
        else if "DriveAssist" == name
        then some n
        else get_function_group s name)
unfolding get_function_group
initialize-get s name = rw (initialize-entries s) (simp lookup-insert)
