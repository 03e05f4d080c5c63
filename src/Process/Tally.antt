-- ===== src/Process/Tally.antt =====
-- Counts of the lines that src/ara/com/vehicle_signal_proxy.cpp and src/ara/app/vehicle_signal_swc.cpp
-- print.
use my_auto_sar_ap.Prelude.{ℕ, ◌+◌, ◌/◌, ◌%◌, ◌≡◌, arith, List, [], ◌∷◌, nat_eq, if◌then◌else◌}
use my_auto_sar_ap.Process.{Line, raw_rx, signal_dispatch, ap_signal_json, ap_hmi_send, someip_rx}

-- How many lines of each of five formats.
pub record Tally : Type 0 where
  pub raw : ℕ
  pub dispatch : ℕ
  pub json : ℕ
  pub hmi : ℕ
  pub someip : ℕ

abbrev pub note : Line → Tally → Tally
note (raw_rx n total) t = record t { raw = t.raw + 1 }
note (signal_dispatch sample n) t = record t { dispatch = t.dispatch + 1 }
note (ap_signal_json sample) t = record t { json = t.json + 1 }
note (ap_hmi_send sample n) t = record t { hmi = t.hmi + 1 }
note (someip_rx sample n) t = record t { someip = t.someip + 1 }
note _ t = t

abbrev pub tally : List Line → Tally
tally [] = record { raw = 0; dispatch = 0; json = 0; hmi = 0; someip = 0 }
tally (line ∷ lines) = note line (tally lines)

-- The counts for n samples and m packets.
abbrev pub expected : ℕ → ℕ → Tally
expected n m = record {
  raw = (m + 9) / 10;
  dispatch = (n + 9) / 10;
  json = n;
  hmi = (n + 9) / 10;
  someip = (n + 99) / 100;
}

pub tenth :
    (n : ℕ)
    → (n + 1 + 9) / 10 ≡ (if nat_eq ((n + 1) % 10) 1 then (n + 9) / 10 + 1 else (n + 9) / 10)
tenth n = ground arith

pub hundredth :
    (n : ℕ)
    → (n + 1 + 99) / 100 ≡ (if nat_eq ((n + 1) % 100) 1 then (n + 99) / 100 + 1 else (n + 99) / 100)
hundredth n = ground arith
