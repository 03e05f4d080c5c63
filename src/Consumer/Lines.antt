-- ===== src/Consumer/Lines.antt =====
-- The lines that the callback prints (src/ara/app/vehicle_signal_swc.cpp).
use my_auto_sar_ap.Prelude.{
  ℕ, ◌+◌, ◌%◌, ◌<◌, ◌≡◌, refl, ap, ◌∙◌, arith, inl, inr, nat_eq, Bool-cases, if◌then◌else◌,
}
use my_auto_sar_ap.Log.{Logger}
use my_auto_sar_ap.Process.{Sockets, Process, write}
use my_auto_sar_ap.Process.Tally.{Tally, tally, expected, tenth, hundredth}
use my_auto_sar_ap.VehicleSignal.{VehicleSignalSample}
use my_auto_sar_ap.Consumer.{VehicleSignalSwc, print_sample, handle_sample, keep_sample}

-- One more JSON line, and the other lines if the number of the sample asks for them.
abbrev with_sample : Tally → ℕ → Tally
with_sample t n = record t {
  dispatch = if nat_eq (n % 10) 1 then t.dispatch + 1 else t.dispatch;
  json = t.json + 1;
  hmi = if nat_eq (n % 10) 1 then t.hmi + 1 else t.hmi;
  someip = if nat_eq (n % 100) 1 then t.someip + 1 else t.someip;
}

expected-with_sample : (n m : ℕ) → with_sample (expected n m) (n + 1) ≡ expected (n + 1) m
expected-with_sample n m = rw (tenth n, hundredth n)

module _ {S : Sockets} where
  print_sample-lines :
      (w : Process S) (logger : Logger) (sample : VehicleSignalSample) (n : ℕ)
      → (tally (print_sample w logger sample n).output ≡ with_sample (tally w.output) n)
        × ((print_sample w logger sample n).os ≡ w.os)
  unfolding print_sample write
  print_sample-lines w logger sample n = elim (Bool-cases (nat_eq (n % 10) 1)) [
    | inl first ↦ elim (Bool-cases (nat_eq (n % 100) 1)) [
      | inl rare ↦ rw (first, rare) (refl, refl)
      | inr often ↦ rw (first, often) (refl, refl)
    ]
    | inr later ↦ elim (Bool-cases (nat_eq (n % 100) 1)) [
      | inl rare ↦ rw (later, rare) (refl, refl)
      | inr often ↦ rw (later, often) (refl, refl)
    ]
  ]

  pub handle_sample-os :
      (w : Process S) (c : VehicleSignalSwc) (sample : VehicleSignalSample)
      → (handle_sample w c sample).0.os ≡ w.os
  unfolding handle_sample
  handle_sample-os w c sample = (print_sample-lines w _ sample _).1

  -- If the lines printed are those of the samples so far, one more sample keeps it so.
  pub handle_sample-expected :
      (w : Process S) (c : VehicleSignalSwc) (sample : VehicleSignalSample) (m : ℕ)
      → c.samples_received + 1 < 18446744073709551616
      → tally w.output ≡ expected c.samples_received m
      → tally (handle_sample w c sample).0.output ≡ expected (c.samples_received + 1) m
  unfolding handle_sample keep_sample
  handle_sample-expected w c sample m small h =
      let next : (c.samples_received + 1) % 18446744073709551616 ≡ c.samples_received + 1 =
        omega arith in
      (print_sample-lines w c.logger sample _).0
      ∙ ap (λ n. with_sample (tally w.output) n) next
      ∙ ap (λ t. with_sample t (c.samples_received + 1)) h
      ∙ expected-with_sample c.samples_received m
