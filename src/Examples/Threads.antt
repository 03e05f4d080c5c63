-- ===== src/Examples/Threads.antt =====
-- Concrete interleavings of the receive thread (src/ara/com/vehicle_signal_proxy.cpp).
use my_auto_sar_ap.Prelude.{◌+◌, ◌≤◌, ◌≡◌, refl, true, none, some, List, [], ◌∷◌, ◌++◌, length}
use my_auto_sar_ap.VehicleSignal.{
  VehicleSignalSample, new_event, subscribe, unsubscribe, set_receive_handler,
}
use my_auto_sar_ap.VehicleSignal.Threads.{
  Threads, passed, new_threads, Act, receives, marks_subscribed, unsubscribes, sets_handler, Steps,
  done, next, make_room, store, run_handler, locks, passes, stores, calls, marked, unsubscribed,
  handler_set,
}
use my_auto_sar_ap.VehicleSignal.Threads.Order.{
  IsWithin, newest, Steps-InOrder, samples_of, calls_of, made_and_due,
}
use my_auto_sar_ap.VehicleSignal.Threads.Stragglers.{unset-one_more}

abbrev sample : VehicleSignalSample
sample = record {
  vehicle_speed_kmh = 0;
  engine_rpm = 0;
  brake_pedal = true;
  steering_angle_deg = 0;
  door_status = 1;
  fuel_level_pct = 0;
  e2e_crc = 7;
  e2e_counter = 1;
  session_id = 9;
}

-- A subscribed event with a handler, of which the receive thread is past the test of the state.
abbrev ready : Threads
unfolding new_event subscribe set_receive_handler
ready = record {
  event = subscribe (set_receive_handler new_event (some 3)) 16;
  pc = passed sample;
  accepted = [];
  left = [];
  handled = [];
}

-- The other thread unsubscribes, and the thread stores the sample all the same.
abbrev silenced : Threads
unfolding unsubscribe
silenced = record ready { event = unsubscribe ready.event }

abbrev stored : Threads
unfolding store
stored = store silenced sample [] []

-- It takes the handler away as well, and the thread makes the call all the same.
abbrev unset : Threads
unfolding set_receive_handler
unset = record stored { event = set_receive_handler stored.event none }

abbrev called : Threads
unfolding run_handler
called = run_handler unset (some 3) sample

abbrev first_acts : List Act
first_acts = receives ∷ receives ∷ marks_subscribed ∷ sets_handler (some 3) ∷ []

to_ready : Steps new_threads first_acts ready
unfolding new_event subscribe set_receive_handler
to_ready =
    next (next (next (next done (handler_set (some 3) refl)) marked) (locks sample refl))
      (passes refl refl)

to_called : Steps unset (receives ∷ []) called
unfolding store run_handler set_receive_handler silenced ready
to_called = next done (calls refl)

to_end :
    Steps new_threads (receives ∷ sets_handler none ∷ receives ∷ unsubscribes ∷ first_acts) called
unfolding store run_handler set_receive_handler make_room unsubscribe ready
to_end =
    next (next (next (next to_ready unsubscribed) (stores refl refl)) (handler_set none refl))
      (calls refl)

Steps-InOrder_example :
    (called.left ++ called.event.sample_queue ≡ samples_of called.accepted)
    × (made_and_due called.pc called.event.delivered ≡ calls_of called.accepted)
    × (length called.event.sample_queue ≤ 16)
    × IsWithin (newest called.accepted) called.handled
Steps-InOrder_example =
    Steps-InOrder (receives ∷ sets_handler none ∷ receives ∷ unsubscribes ∷ first_acts) to_end

unset-one_more_example : length called.event.delivered ≤ length unset.event.delivered + 1
unfolding set_receive_handler
unset-one_more_example = unset-one_more (receives ∷ []) refl (refl, tt) to_called

-- The sample is accepted and the call is made, after both were taken back.
straggler : (called.event.delivered ≡ (3, sample) ∷ []) × (called.event.receive_handler ≡ none)
unfolding store run_handler set_receive_handler unsubscribe new_event subscribe
straggler = (refl, refl)
