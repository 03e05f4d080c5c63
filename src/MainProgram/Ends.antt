-- ===== src/MainProgram/Ends.antt =====
-- How `main` ends (src/application/main.cpp).
use my_auto_sar_ap.Prelude.{
  ℕ, ◌≡◌, refl, ap, ◌∙◌, arith, Bool, true, false, not, ◌&&◌, ◌||◌, Option, some, List, [], ◌∷◌,
  if◌then◌else◌,
}
use my_auto_sar_ap.Prelude.Int.{pos}
use my_auto_sar_ap.Exec.{report_execution_state}
use my_auto_sar_ap.Log
use my_auto_sar_ap.Process.{Sockets, IsLawful, Process, write, shutdown_requested, app_stopped}
use my_auto_sar_ap.Consumer.{make_swc, stop, main_function_100ms}
use my_auto_sar_ap.Consumer.Descriptors.{
  Owns, receive_pass-Continues, main_function_100ms-Owns, start-Owns, stop-Owns, stop_idle,
}
use my_auto_sar_ap.MainProgram.{
  Happening, passes, signals, Running, Outcome, returned, finish, happen, happen_all, main_loop,
  set_up, main,
}

abbrev pub ends_sleep : List Happening → Bool
ends_sleep [] = false
ends_sleep (passes ∷ hs) = ends_sleep hs
ends_sleep (signals ∷ hs) = true

-- Whether a SIGINT or SIGTERM comes in one of the sleeps.
abbrev pub signalled : List (List Happening) → Bool
signalled [] = false
signalled (sleep ∷ sleeps) = ends_sleep sleep || signalled sleeps

module _ (S : Sockets) (lawful : IsLawful S) (k : ℕ) where
  abbrev pub Alive : Bool → Running S → Type 0
  Alive before r = Owns S lawful k before r.process r.swc

  -- What happens in a sleep is not undefined and clears the flag if a signal comes.
  pub record Slept (before : Bool) (flag : Bool) (r : Option (Running S)) : Type 0 where
    pub running : Running S
    pub result : r ≡ some running
    pub alive : Alive before running
    pub flagged : running.g_running ≡ flag

  still :
      (hs : List Happening) (before flag : Bool) (r : Running S)
      → Alive before r
      → r.g_running ≡ flag
      → Slept before (flag && not (ends_sleep hs)) (happen_all r hs)
  unfolding happen_all happen
  still [] before flag r a e = record {
    running = r;
    result = refl;
    alive = a;
    flagged = ground arith;
  }
  still (passes ∷ hs) before flag r a e =
      let c = receive_pass-Continues S lawful k before r.process r.swc a in
      rw (happen_all, c.result)
        (still hs before flag (record r { process = c.process; swc = c.swc }) c.owns e)
  still (signals ∷ hs) before flag r a e =
      let s =
        still hs before false (record r { g_running = false })
          (record { adds = a.adds; room = a.room }) refl in
      record {
        running = s.running;
        result = s.result;
        alive = s.alive;
        flagged = ground (arith, s.flagged);
      }

  abbrev pub Returns : Bool → Outcome S → Type 0
  Returns before o = (w : Process S) × (o ≡ returned (pos 0) w) × (S.is_open w.os k ≡ before)

  finish-Returns : (before : Bool) (r : Running S) → Alive before r → Returns before (finish r)
  unfolding finish write
  finish-Returns before r a =
      let w = write r.process r.logger Log.info shutdown_requested in
      let (adds, gone) =
        stop-Owns S lawful k before w r.swc (record { adds = a.adds; room = a.room }) in
      let (w1, c1) = stop w r.swc in
      let w2 = write w1 r.logger Log.info app_stopped in
      (w2, ap (λ q. returned (pos 0) q.0) (stop_idle w2 c1 gone), adds.table ∙ ground arith)

  if-Returns :
      (before b : Bool) (x y : Outcome S)
      → (b ≡ true → Returns before x)
      → (b ≡ false → Returns before y)
      → Returns before (if b then x else y)
  if-Returns before true x y hx hy = hx refl
  if-Returns before false x y hx hy = hy refl

  main_loop-Returns :
      (before : Bool) (r : Running S) (sleeps : List (List Happening))
      → Alive before r
      → (r.g_running && not (signalled sleeps)) ≡ false
      → Returns before (main_loop r sleeps)
  unfolding main_loop
  main_loop-Returns before r [] a ends =
      if-Returns before r.g_running _ _ (λ on. absurd (ground arith))
        (λ _. finish-Returns before r a)
  main_loop-Returns before r (sleep ∷ sleeps) a ends =
      let w = main_function_100ms r.process r.swc in
      let ticked : Alive before (record r { process = w }) =
        main_function_100ms-Owns S lawful k before r.process r.swc a in
      let s = still sleep before r.g_running (record r { process = w }) ticked refl in
      if-Returns before r.g_running _ _
        (λ _.
          rw s.result
            (main_loop-Returns before s.running sleeps s.alive (ground (arith, s.flagged))))
        (λ _. finish-Returns before r a)

  set_up-Alive : (w : Process S) → Alive (S.is_open w.os k) (set_up w)
  unfolding set_up make_swc write
  set_up-Alive w = start-Owns S lawful k _ _ refl

  -- When a SIGINT or SIGTERM comes, `main` returns 0, whether or not its consumer could start, and each
  -- descriptor is open or closed as it was before.
  pub main-returns :
      (w : Process S) (sleeps : List (List Happening))
      → signalled sleeps ≡ true
      → (after : Process S) × (main w sleeps ≡ returned (pos 0) after)
        × (S.is_open after.os k ≡ S.is_open w.os k)
  unfolding main report_execution_state write
  main-returns w sleeps h =
      let a = set_up-Alive w in
      main_loop-Returns (S.is_open w.os k) _ sleeps (record { adds = a.adds; room = a.room })
        (ground (arith, h))
