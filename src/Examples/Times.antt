-- ===== src/Examples/Times.antt =====
-- Times at the limits of 64 bits (src/ara/tsync/tsync.cpp).
use my_auto_sar_ap.Prelude.{◌<◌, ◌≡◌, refl, arith, none, some, List, [], ◌∷◌}
use my_auto_sar_ap.Prelude.Int.{ℤ, pos, negsuc, ◌-ℤ◌, ◌+ℤ◌, scale, tdiv, trem, to_u32}
use my_auto_sar_ap.Tsync.{TimeBaseState, init_time_bases, get_current_time, time_base}
use my_auto_sar_ap.Tsync.Corrections.{base_ns}
use my_auto_sar_ap.Tsync.Range.{
  checked, checked_ns, checked_time_diff, checked_corrections, sum_from, time_diff-readings,
  corrections-sum,
}

abbrev start_bases : List TimeBaseState
unfolding init_time_bases
start_bases = init_time_bases (pos 1700000000123456789)

-- The last nanosecond of 64 bits, and the epoch.
time_diff-readings_example :
    checked_time_diff
      (get_current_time start_bases 0 (pos 9223372036854775807))
      (get_current_time start_bases 1 (pos 0))
    ≡ some (pos 0 -ℤ pos 9223372036854775807)
time_diff-readings_example =
    time_diff-readings start_bases 0 1 (pos 9223372036854775807) (pos 0) (refl, omega arith)
      (refl, omega arith)

-- A second more than 64 bits count overflows.
overflows : checked_ns (pos 9223372037) 0 ≡ none
unfolding checked_ns checked scale
overflows = refl

abbrev two_corrections : List ℤ
two_corrections = pos 1000000000 ∷ negsuc 499999999 ∷ []

corrections-sum_example :
    (after : List TimeBaseState) × (checked_corrections start_bases 2 two_corrections ≡ some after)
    × (base_ns after 2 ≡ sum_from (base_ns start_bases 2) two_corrections)
    × ((time_base after 2).nano_seconds < 1000000000)
unfolding init_time_bases scale tdiv trem to_u32 ◌+ℤ◌
corrections-sum_example =
    corrections-sum start_bases 2 two_corrections refl (omega arith)
      ((refl, omega arith), ((refl, omega arith), (refl, omega arith)))
