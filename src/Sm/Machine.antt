-- ===== src/Sm/Machine.antt =====
-- The transition matrix of `RequestMachineStateChange` against the documented diagram
-- (src/ara/sm/sm.cpp).
use my_auto_sar_ap.Prelude.{
  ◌≡◌, ◌≢◌, ◌⊎◌, inl, inr, refl, true, arith, Bool-cases, nat_eq_iff, ◌==◌, ℕ_eq,
}
use my_auto_sar_ap.Sm.{
  MachineState, startup, driving, parked, charging, shutdown, error, StateManagement, success,
  rejected, request_machine_state_change, is_valid_transition, machine_code,
}

-- The diagram of the header: the edges that a request may take.
infix 40 ◌⟶◌
pub data ◌⟶◌ : MachineState → MachineState → Type 0 where
  start_driving : startup ⟶ driving
  start_parked : startup ⟶ parked
  park : driving ⟶ parked
  drive : parked ⟶ driving
  charge : parked ⟶ charging
  unplug : charging ⟶ parked
  halt : (from : MachineState) → from ⟶ shutdown
  fail : (from : MachineState) → from ⟶ error

pub ruleset edges = (start_driving, start_parked, park, drive, charge, unplug, halt, fail)

pub is_valid_transition-⟶ :
    (from to : MachineState) → is_valid_transition from to ≡ true → from ⟶ to
unfolding is_valid_transition
is_valid_transition-⟶ from to h = grind (arith, edges)

⟶-is_valid_transition : {from to : MachineState} → from ⟶ to → is_valid_transition from to ≡ true
unfolding is_valid_transition
⟶-is_valid_transition start_driving = refl
⟶-is_valid_transition start_parked = refl
⟶-is_valid_transition park = refl
⟶-is_valid_transition drive = refl
⟶-is_valid_transition charge = refl
⟶-is_valid_transition unplug = refl
⟶-is_valid_transition (halt from) = refl
⟶-is_valid_transition (fail from) = refl

machine_code-injective : (a b : MachineState) → machine_code a ≡ machine_code b → a ≡ b
machine_code-injective a b h = ground arith

-- Each request either lands on the target, which is then the current state or an edge away in the
-- diagram, or is rejected with nothing changed, and then the target is another state and no edge
-- leads there.
pub request_iff :
    (s : StateManagement) (target : MachineState)
    → let (t, result) = request_machine_state_change s target in
      ((result ≡ success)
        × (t.current_state ≡ target)
        × ((s.current_state ≡ target) ⊎ (s.current_state ⟶ target)))
      ⊎ ((result ≡ rejected) × (t ≡ s) × (s.current_state ≢ target) × ¬ (s.current_state ⟶ target))
unfolding request_machine_state_change
request_iff s target = elim (Bool-cases (machine_code s.current_state == machine_code target)) [
  | inl same ↦
      let e : s.current_state ≡ target = machine_code-injective _ _ ((nat_eq_iff _ _).0 same) in
      inl (ground arith, ground arith, inl e)
  | inr differs ↦ elim (Bool-cases (is_valid_transition s.current_state target)) [
    | inl valid ↦ inl (ground arith, ground arith, inr (is_valid_transition-⟶ _ _ valid))
    | inr refused ↦ inr (
      ground arith,
      ground arith,
      (λ e. ground arith),
      (λ edge. ground (arith, ⟶-is_valid_transition edge)),
    )
  ]
]
