-- ===== src/SomeIp/Caller.antt =====
-- The result of a method call: `MethodResult` of include/ara/com/someip_binding.h. The default value of
-- the response type, which the default constructor stores, is an argument.
use my_auto_sar_ap.SomeIp.{ReturnCode}
use my_auto_sar_ap.Prelude.{Bool, true, false, ◌≡◌, refl}

pub record MethodResult {ℓ} (A : Type ℓ) : Type ℓ where
  pub value : A
  pub return_code : ReturnCode
  pub ready : Bool

unfoldable pub default_result {ℓ} : {A : Type ℓ} → A → MethodResult A
default_result initial = record { value = initial; return_code = 0; ready = false }

unfoldable pub make_result {ℓ} : {A : Type ℓ} → A → MethodResult A
make_result val = record { value = val; return_code = 0; ready = true }

unfoldable pub set_value {ℓ} : {A : Type ℓ} → A → ReturnCode → MethodResult A → MethodResult A
set_value val rc r = record r { value = val; return_code = rc; ready = true }

-- Storing a value in any result is constructing it, when the code is kOk.
pub set_value-make {ℓ} :
    {A : Type ℓ} → (val : A) (r : MethodResult A) → set_value val 0 r ≡ make_result val
unfolding set_value make_result
set_value-make val r = refl

-- The last value stored is the one that is kept.
pub set_value-set_value {ℓ} :
    {A : Type ℓ}
    → (v w : A) (c d : ReturnCode) (r : MethodResult A)
    → set_value w d (set_value v c r) ≡ set_value w d r
unfolding set_value
set_value-set_value v w c d r = refl
