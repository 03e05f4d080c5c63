-- ===== src/VehicleSignal/Threads/Stragglers.antt =====
-- What the receive thread may still do after `Unsubscribe` and `UnsetReceiveHandler` have returned
-- (src/ara/com/vehicle_signal_proxy.cpp).
use my_auto_sar_ap.Prelude.{
  ℕ, ◌+◌, ◌≤◌, none, some, Bool, true, false, List, All, length, ◌≡◌, arith,
}
use my_auto_sar_ap.VehicleSignal.{is_subscribed, set_receive_handler, get_new_samples}
use my_auto_sar_ap.VehicleSignal.Threads.{
  Steps-keep, Threads, Pc, passed, calling, Act, marks_subscribed, sets_handler, Step, Steps, store,
  run_handler, pull_samples, locks, refuses, passes, stores, calls, max_set, marked, unsubscribed,
  handler_set, pulled,
}

abbrev pub is_subscription : Act → Bool
is_subscription marks_subscribed = true
is_subscription _ = false

abbrev pub sets_some_handler : Act → Bool
sets_some_handler (sets_handler (some h)) = true
sets_some_handler _ = false

-- The samples that are past the test of the state, and the calls that are due.
abbrev past_test : Pc → ℕ
past_test (passed s) = 1
past_test _ = 0

abbrev due_calls : Pc → ℕ
due_calls (calling (some h) s) = 1
due_calls _ = 0

abbrev IsSilent : Threads → ℕ → Type 0
IsSilent t n = (is_subscribed t.event.state ≡ false) × (length t.accepted + past_test t.pc ≤ n)

abbrev IsUnset : Threads → ℕ → Type 0
IsUnset t n = (t.event.receive_handler ≡ none) × (length t.event.delivered + due_calls t.pc ≤ n)

Step-IsSilent :
    {a : Act} {t u : Threads} (n : ℕ)
    → is_subscription a ≡ false
    → IsSilent t n
    → Step t a u
    → IsSilent u n
unfolding store run_handler pull_samples set_receive_handler get_new_samples
Step-IsSilent {t} n quiet h (locks s e) = ground arith
Step-IsSilent {t} n quiet h (refuses e fails) = ground arith
Step-IsSilent {t} n quiet h (passes e holds) = ground arith
Step-IsSilent {t} n quiet h (stores e room) = ground arith
Step-IsSilent {t} n quiet h (calls e) = ground arith
Step-IsSilent n quiet h (max_set k) = h
Step-IsSilent n quiet h marked = ground arith
Step-IsSilent n quiet h unsubscribed = ground arith
Step-IsSilent n quiet h (handler_set g free) = h
Step-IsSilent n quiet h (pulled k free) = h

Step-IsUnset :
    {a : Act} {t u : Threads} (n : ℕ)
    → sets_some_handler a ≡ false
    → IsUnset t n
    → Step t a u
    → IsUnset u n
unfolding store run_handler pull_samples set_receive_handler get_new_samples
Step-IsUnset {t} n quiet h (locks s e) = ground arith
Step-IsUnset {t} n quiet h (refuses e fails) = ground arith
Step-IsUnset {t} n quiet h (passes e holds) = ground arith
Step-IsUnset {t} n quiet h (stores e room) = ground arith
Step-IsUnset {t} n quiet h (calls {h = none} e) = ground arith
Step-IsUnset {t} n quiet h (calls {h = some g} e) = ground arith
Step-IsUnset n quiet h (max_set k) = h
Step-IsUnset n quiet h marked = h
Step-IsUnset n quiet h unsubscribed = h
Step-IsUnset n quiet h (handler_set none free) = ground arith
Step-IsUnset n quiet h (handler_set (some g) free) = ground arith
Step-IsUnset n quiet h (pulled k free) = h

-- Once the event is not subscribed, and until it is subscribed again, at most one more sample is
-- accepted, whatever the other thread calls.
pub unsubscribed-one_more :
    {t u : Threads} (acts : List Act)
    → is_subscribed t.event.state ≡ false
    → All (λ a. is_subscription a ≡ false) acts
    → Steps t acts u
    → length u.accepted ≤ length t.accepted + 1
unsubscribed-one_more {t} {u} acts off quiet run =
    let n = length t.accepted + 1 in
    let kept =
      Steps-keep (λ v. IsSilent v n) (λ a. is_subscription a ≡ false)
        (λ a v w q h st. Step-IsSilent n q h st) quiet (off, ground arith) run in
    omega (arith, kept.1)

-- Once no handler is set, and until one is set again, at most one more call of a handler is made,
-- whatever the other thread calls.
pub unset-one_more :
    {t u : Threads} (acts : List Act)
    → t.event.receive_handler ≡ none
    → All (λ a. sets_some_handler a ≡ false) acts
    → Steps t acts u
    → length u.event.delivered ≤ length t.event.delivered + 1
unset-one_more {t} {u} acts off quiet run =
    let n = length t.event.delivered + 1 in
    let kept =
      Steps-keep (λ v. IsUnset v n) (λ a. sets_some_handler a ≡ false)
        (λ a v w q h st. Step-IsUnset n q h st) quiet (off, ground arith) run in
    omega (arith, kept.1)
