-- ===== src/MainProgram.antt =====
-- The program: src/application/main.cpp. The signal and the passes of the receive thread come while
-- `main` sleeps: the argument lists, for each sleep, what comes in it. A signal during the rest of
-- a round of the loop sets the flag that only the test of the next round reads: it has the effect of one in
-- the sleep of that round. A signal before the loop is not modelled.
pub mod Ends
pub mod Books
use my_auto_sar_ap.Prelude.{Bool, true, false, Option, none, some, List, [], ◌∷◌, if◌then◌else◌}
use my_auto_sar_ap.Prelude.Int.{ℤ, pos, negsuc}
use my_auto_sar_ap.Exec
use my_auto_sar_ap.Exec.{ExecErrc, success, report_execution_state}
use my_auto_sar_ap.Log
use my_auto_sar_ap.Log.{Logger, create_logger, init_logging, verbose, debug, console}
use my_auto_sar_ap.Process.{
  Sockets, Process, banner, log_initialized, execution_reported, app_starting, report_failed,
  app_running, shutdown_requested, app_stopped, print, write, logger_at,
}
use my_auto_sar_ap.Consumer.{
  VehicleSignalSwc, make_swc, start, stop, main_function_100ms, receive_pass,
}

-- A pass of the receive thread, or a SIGINT or SIGTERM.
pub data Happening : Type 0 where
  passes signals : Happening

pub record Running (S : Sockets) : Type 0 where
  pub process : Process S
  pub logger : Logger
  pub swc : VehicleSignalSwc
  pub g_running : Bool

-- `main` returns, or is still in its loop when the argument ends, or has done what C++ leaves
-- undefined.
pub data Outcome (S : Sockets) : Type 0 where
  returned : ℤ → Process S → Outcome S
  looping : Running S → Outcome S
  undefined : Outcome S

module _ {S : Sockets} where
  -- The rest of `main` from Step 6, with the destructor of the consumer.
  unfoldable pub finish : Running S → Outcome S
  finish r =
      let (w1, swc) = stop (write r.process r.logger Log.info shutdown_requested) r.swc in
      let (w2, _) = stop (write w1 r.logger Log.info app_stopped) swc in returned (pos 0) w2

  abbrev pub received : Running S → Option (Process S × VehicleSignalSwc) → Option (Running S)
  received r none = none
  received r (some (w, swc)) = some (record r { process = w; swc = swc })

  unfoldable pub happen : Running S → Happening → Option (Running S)
  happen r passes = received r (receive_pass r.process r.swc)
  happen r signals = some (record r { g_running = false })

  unfoldable pub happen_all : Running S → List Happening → Option (Running S)
  happen_all r [] = some r
  happen_all r (h ∷ hs) = elim (happen r h) [ none ↦ none | some r' ↦ happen_all r' hs ]

  unfoldable pub main_loop : Running S → List (List Happening) → Outcome S
  main_loop r [] = if r.g_running then looping r else finish r
  main_loop r (sleep ∷ sleeps) =
      let ticked : Running S = record r { process = main_function_100ms r.process r.swc } in
      let rest : Outcome S = elim (happen_all ticked sleep) [
        | none ↦ undefined
        | some r' ↦ main_loop r' sleeps
      ] in
      if r.g_running then rest else finish r

  -- Step 4, with the return of -1, and what follows.
  abbrev pub report : Running S → List (List Happening) → Process S × ExecErrc → Outcome S
  report r sleeps (w, success) =
      main_loop (record r { process = write w r.logger Log.info app_running }) sleeps
  report r sleeps (w, _) =
      returned (negsuc 0) (stop (write w r.logger Log.error report_failed) r.swc).0

  -- Steps 1 to 3.
  unfoldable pub set_up : Process S → Running S
  set_up w =
      let log =
        init_logging w.logging "MSAP" "MyAutoSarAp — AUTOSAR AP R25-11 (SOME/IP Consumer)" debug
          console in
      let (log', p) = create_logger log "MAIN" "Main context" verbose in
      let logger = logger_at log' p in
      let w1 : Process S = print (record w { logging = log' }) (log_initialized "MSAP") in
      let (w2, swc) = make_swc (write (print w1 banner) logger Log.info app_starting) in
      let (w3, swc') = start w2 swc in
      record { process = w3; logger = logger; swc = swc'; g_running = true }

  unfoldable pub main : Process S → List (List Happening) → Outcome S
  main w sleeps =
      let r = set_up w in
      let (text, result) = report_execution_state Exec.running in
      report r sleeps (print r.process (execution_reported text), result)
