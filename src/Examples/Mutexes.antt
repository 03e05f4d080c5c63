-- ===== src/Examples/Mutexes.antt =====
-- Two threads that take mutexes (src/application).
use my_auto_sar_ap.Prelude.{◌+◌, ◌≡◌, ◌⊎◌, refl, true, some, List, [], ◌∷◌, map}
use my_auto_sar_ap.SafetyMonitor.{level4_emergency}
use my_auto_sar_ap.Platform.Locks.{
  Thread, Schedule, done, next, here, there, work, any_moves, acquire, release,
}
use my_auto_sar_ap.Platform.Mutexes.{
  Call, checks, rises, passes, offers, reports, sends_frame, thread,
}
use my_auto_sar_ap.Platform.Mutexes.Order.{threads-end}

abbrev two_threads : List (List Call)
two_threads =
    (checks true (rises level4_emergency true true) ∷ sends_frame ∷ [])
    ∷ (passes (offers ((some reports ∷ []) ∷ [])) ∷ [])
    ∷ []

-- The check holds the mutex of the supervised entity, and the other thread that of the health
-- management, for which the check waits.
abbrev halfway : List Thread
halfway =
    record {
      held = 4 ∷ [];
      todo =
          acquire 5
          ∷ release
          ∷ release
          ∷ acquire 5
          ∷ release
          ∷ acquire 3
          ∷ release
          ∷ acquire 6
          ∷ release
          ∷ acquire 6
          ∷ release
          ∷ acquire 9
          ∷ release
          ∷ [];
    }
    ∷ record {
      held = 5 ∷ [];
      todo = release ∷ acquire 0 ∷ acquire 1 ∷ acquire 5 ∷ release ∷ release ∷ release ∷ [];
    }
    ∷ []

to_halfway : Schedule (map thread two_threads) 2 halfway
to_halfway = next (next done (here _ refl)) (there _ (here _ refl))

threads-end_example :
    (2 + work halfway ≡ work (map thread two_threads))
    × ((work halfway ≡ 0) ⊎ (any_moves halfway halfway ≡ true))
threads-end_example = threads-end two_threads 2 ((refl, (refl, tt)), ((refl, tt), tt)) to_halfway
