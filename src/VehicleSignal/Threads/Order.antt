-- ===== src/VehicleSignal/Threads/Order.antt =====
-- The order in which samples enter, leave and reach the handlers, over any interleaving with the receive
-- thread (src/ara/com/vehicle_signal_proxy.cpp).
use my_auto_sar_ap.Prelude.{
  ℕ, ◌+◌, ◌≤◌, max, Option, some, List, [], ◌∷◌, ◌++◌, length, length-append, ◌≡◌, refl, sym, ap,
  ◌∙◌, arith,
}
use mathlib.Core.List.{append_assoc}
use my_auto_sar_ap.VehicleSignal.{
  VehicleSignalEvent, VehicleSignalSample, call, new_event, set_receive_handler, get_new_samples,
}
use my_auto_sar_ap.VehicleSignal.Queue.{get_new_samples_lem}
use my_auto_sar_ap.VehicleSignal.Threads.{
  Threads, Pc, calling, new_threads, Act, sets_max, Step, Steps, done, next, make_room, pop_front,
  store, run_handler, pull_samples, locks, refuses, passes, stores, calls, max_set, marked,
  unsubscribed, handler_set, pulled,
}

-- The accepted samples, oldest first, and the calls that they stand for, newest first.
abbrev pub samples_of : List (Option ℕ × VehicleSignalSample) → List VehicleSignalSample
samples_of [] = []
samples_of ((h, s) ∷ past) = samples_of past ++ s ∷ []

abbrev pub calls_of : List (Option ℕ × VehicleSignalSample) → List (ℕ × VehicleSignalSample)
calls_of [] = []
calls_of ((h, s) ∷ past) = call h s (calls_of past)

-- The calls made, with the one that the receive thread is about to make.
abbrev pub made_and_due : Pc → List (ℕ × VehicleSignalSample) → List (ℕ × VehicleSignalSample)
made_and_due (calling h s) made = call h s made
made_and_due _ made = made

-- The largest limit that was ever set; the event starts with 16.
abbrev pub largest : List Act → ℕ
largest [] = 16
largest (sets_max n ∷ past) = max n (largest past)
largest (a ∷ past) = largest past

-- A list with some of its entries left out.
pub data IsWithin {ℓ} {A : Type ℓ} : List A → List A → Type ℓ where
  empty : IsWithin [] []
  keeps : {xs ys : List A} (x : A) → IsWithin xs ys → IsWithin (x ∷ xs) (x ∷ ys)
  skips : {xs ys : List A} (y : A) → IsWithin xs ys → IsWithin xs (y ∷ ys)

abbrev pub newest : List (Option ℕ × VehicleSignalSample) → List VehicleSignalSample
newest [] = []
newest ((h, s) ∷ past) = s ∷ newest past

pub record IsOrdered (past : List Act) (t : Threads) : Type 0 where
  pub fifo : t.left ++ t.event.sample_queue ≡ samples_of t.accepted
  pub handed : made_and_due t.pc t.event.delivered ≡ calls_of t.accepted
  pub limit : t.event.max_samples ≤ largest past
  pub bounded : length t.event.sample_queue ≤ largest past
  pub within : IsWithin (newest t.accepted) t.handled

pop_front-keeps :
    (queue gone q : List VehicleSignalSample)
    → pop_front queue ≡ some (gone, q)
    → (gone ++ q ≡ queue) × (length q + 1 ≡ length queue)
pop_front-keeps [] gone q h = ground arith
pop_front-keeps (s ∷ queue) gone q h = ground arith

make_room-keeps :
    (ev : VehicleSignalEvent) (gone q : List VehicleSignalSample)
    → make_room ev ≡ some (gone, q)
    → (gone ++ q ≡ ev.sample_queue) × (length q + 1 ≤ max (length ev.sample_queue) ev.max_samples)
unfolding make_room
make_room-keeps ev gone q h = ground (arith, pop_front-keeps ev.sample_queue gone q)

-- What leaves a queue from the front goes behind what has left before.
split_again {ℓ} :
    {A : Type ℓ} (left gone q queue all : List A)
    → left ++ queue ≡ all
    → gone ++ q ≡ queue
    → (left ++ gone) ++ q ≡ all
split_again left gone q queue all h e = append_assoc left gone q ∙ ap (λ r. left ++ r) e ∙ h

Step-IsOrdered :
    {past : List Act} {a : Act} {t u : Threads}
    → IsOrdered past t
    → Step t a u
    → IsOrdered (a ∷ past) u
unfolding store run_handler pull_samples set_receive_handler get_new_samples
Step-IsOrdered {t} inv (locks s e) = record {
  fifo = inv.fifo;
  handed = ground arith;
  limit = inv.limit;
  bounded = inv.bounded;
  within = inv.within;
}
Step-IsOrdered {t} inv (refuses e fails) = record {
  fifo = inv.fifo;
  handed = ground arith;
  limit = inv.limit;
  bounded = inv.bounded;
  within = skips _ inv.within;
}
Step-IsOrdered {t} inv (passes e holds) = record {
  fifo = inv.fifo;
  handed = ground arith;
  limit = inv.limit;
  bounded = inv.bounded;
  within = inv.within;
}
Step-IsOrdered {t} inv (stores {s} {gone} {q} e room) =
    let kept = make_room-keeps t.event gone q room in
    record {
      fifo =
          sym (append_assoc (t.left ++ gone) q (s ∷ []))
          ∙ ap (λ r. r ++ s ∷ []) (split_again t.left gone q _ _ inv.fifo kept.0);
      handed = ground arith;
      limit = inv.limit;
      bounded = omega (arith, kept.1, length-append q (s ∷ []));
      within = keeps s inv.within;
    }
Step-IsOrdered {t} inv (calls {h} {s} e) = record {
  fifo = inv.fifo;
  handed = ground arith;
  limit = inv.limit;
  bounded = inv.bounded;
  within = inv.within;
}
Step-IsOrdered {t} inv (max_set n) = record {
  fifo = inv.fifo;
  handed = inv.handed;
  limit = omega arith;
  bounded = omega arith;
  within = inv.within;
}
Step-IsOrdered inv marked = record {
  fifo = inv.fifo;
  handed = inv.handed;
  limit = inv.limit;
  bounded = inv.bounded;
  within = inv.within;
}
Step-IsOrdered inv unsubscribed = record {
  fifo = inv.fifo;
  handed = inv.handed;
  limit = inv.limit;
  bounded = inv.bounded;
  within = inv.within;
}
Step-IsOrdered inv (handler_set h free) = record {
  fifo = inv.fifo;
  handed = inv.handed;
  limit = inv.limit;
  bounded = inv.bounded;
  within = inv.within;
}
Step-IsOrdered {t} inv (pulled n free) =
    let kept = get_new_samples_lem t.event n in
    let (ev, handed, count) = get_new_samples t.event n in
    let size = length-append handed ev.sample_queue in
    let same : length (handed ++ ev.sample_queue) ≡ length t.event.sample_queue =
      ap length kept.0 in
    record {
      fifo = split_again t.left handed ev.sample_queue _ _ inv.fifo kept.0;
      handed = inv.handed;
      limit = inv.limit;
      bounded = omega (arith, size, same);
      within = inv.within;
    }

Steps-IsOrdered :
    {t u : Threads} {acts : List Act} → IsOrdered [] t → Steps t acts u → IsOrdered acts u
Steps-IsOrdered inv done = inv
Steps-IsOrdered inv (next run st) = Step-IsOrdered (Steps-IsOrdered inv run) st

-- However the calls of another thread fall between the steps of the receive thread: the samples that are
-- accepted are among those that were pushed, in their order; they leave the queue in this order, none
-- is lost and none comes twice; each one is handed, in this order, to the handler that was set when it was accepted, if there was one; and the
-- queue never holds more than the largest limit that was ever set, which is 16 at first.
pub Steps-InOrder :
    {t : Threads} (acts : List Act)
    → Steps new_threads acts t
    → (t.left ++ t.event.sample_queue ≡ samples_of t.accepted)
      × (made_and_due t.pc t.event.delivered ≡ calls_of t.accepted)
      × (length t.event.sample_queue ≤ largest acts)
      × IsWithin (newest t.accepted) t.handled
unfolding new_event
Steps-InOrder acts run =
    let inv =
      Steps-IsOrdered
        (record {
          fifo = refl;
          handed = refl;
          limit = omega arith;
          bounded = omega arith;
          within = empty;
        })
        run in
    (inv.fifo, inv.handed, inv.bounded, inv.within)
