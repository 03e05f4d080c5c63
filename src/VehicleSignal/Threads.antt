-- ===== src/VehicleSignal/Threads.antt =====
-- `VehicleSignalEvent` between two threads (src/ara/com/vehicle_signal_proxy.cpp): the receive thread is
-- inside `PushSample`, which takes the mutex, reads the state, stores the sample and calls the handler
-- after it has let the mutex go; another thread makes its own calls in between. `Subscribe` and
-- `Unsubscribe` do not take the mutex, and `Subscribe` writes twice; the others wait for it.

pub mod Order
pub mod Stragglers
pub mod Complete
use my_auto_sar_ap.Prelude.{
  ℕ, Bool, true, false, Option, none, some, List, [], ◌∷◌, All, ◌++◌, length, leb, if◌then◌else◌,
  ◌≡◌, refl, arith,
}
use my_auto_sar_ap.VehicleSignal.{
  VehicleSignalEvent, VehicleSignalSample, subscribed, not_subscribed, is_subscribed, call,
  new_event, set_receive_handler, get_new_samples, push_sample, subscribe, pull, pop, enqueue,
}

-- Where the receive thread stands in `PushSample`: outside, behind the lock, behind the test of the
-- state, and behind the lock's scope with the handler that it copied.
pub data Pc : Type 0 where
  outside : Pc
  locked : VehicleSignalSample → Pc
  passed : VehicleSignalSample → Pc
  calling : Option ℕ → VehicleSignalSample → Pc

abbrev pub is_free : Pc → Bool
is_free (locked s) = false
is_free (passed s) = false
is_free _ = true

-- Three fields record the past: `handled` has the samples whose push has been decided, and `accepted`
-- those of them that were stored, with the handler that was copied, both newest first; `left` has the
-- samples that were popped, oldest first.
pub record Threads : Type 0 where
  pub event : VehicleSignalEvent
  pub pc : Pc
  pub accepted : List (Option ℕ × VehicleSignalSample)
  pub left : List VehicleSignalSample
  pub handled : List VehicleSignalSample

abbrev pub new_threads : Threads
unfolding new_event
new_threads = record { event = new_event; pc = outside; accepted = []; left = []; handled = [] }

abbrev pub pop_front :
    List VehicleSignalSample → Option (List VehicleSignalSample × List VehicleSignalSample)
pop_front [] = none
pop_front (s ∷ q) = some (s ∷ [], q)

-- What is dropped and what stays, in front of a push. `none` is a pop of an empty queue.
unfoldable pub make_room :
    VehicleSignalEvent → Option (List VehicleSignalSample × List VehicleSignalSample)
make_room ev =
    if leb ev.max_samples (length ev.sample_queue)
    then pop_front ev.sample_queue
    else some ([], ev.sample_queue)

-- The rest of the scope of the lock.
unfoldable pub store :
    Threads → VehicleSignalSample → List VehicleSignalSample → List VehicleSignalSample → Threads
store t s gone q = record t {
  event = record (t.event) { sample_queue = q ++ s ∷ [] };
  pc = calling t.event.receive_handler s;
  accepted = (t.event.receive_handler, s) ∷ t.accepted;
  left = t.left ++ gone;
  handled = s ∷ t.handled;
}

unfoldable pub run_handler : Threads → Option ℕ → VehicleSignalSample → Threads
run_handler t h s = record t {
  event = record (t.event) { delivered = call h s t.event.delivered };
  pc = outside;
}

unfoldable pub pull_samples : Threads → ℕ → Threads
unfolding get_new_samples
pull_samples t n =
    let (ev, handed, count) = get_new_samples t.event n in
    record t { event = ev; left = t.left ++ handed }

-- What a step does. The steps of the receive thread have one label. `Subscribe` has two, as it writes
-- the bound and then the state. A push that would pop the empty queue, which `Subscribe(0)` can lead to and
-- C++ leaves undefined, has no step: the receive thread goes no further.
pub data Act : Type 0 where
  receives : Act
  sets_max : ℕ → Act
  marks_subscribed : Act
  unsubscribes : Act
  sets_handler : Option ℕ → Act
  pulls : ℕ → Act

pub data Step (t : Threads) : Act → Threads → Type 0 where
  locks : (s : VehicleSignalSample) → t.pc ≡ outside → Step t receives (record t { pc = locked s })
  refuses :
      {s : VehicleSignalSample}
      → t.pc ≡ locked s
      → is_subscribed t.event.state ≡ false
      → Step t receives (record t { pc = outside; handled = s ∷ t.handled })
  passes :
      {s : VehicleSignalSample}
      → t.pc ≡ locked s
      → is_subscribed t.event.state ≡ true
      → Step t receives (record t { pc = passed s })
  stores :
      {s : VehicleSignalSample} {gone q : List VehicleSignalSample}
      → t.pc ≡ passed s
      → make_room t.event ≡ some (gone, q)
      → Step t receives (store t s gone q)
  calls :
      {h : Option ℕ} {s : VehicleSignalSample}
      → t.pc ≡ calling h s
      → Step t receives (run_handler t h s)
  max_set :
      (n : ℕ) → Step t (sets_max n) (record t { event = record (t.event) { max_samples = n } })
  marked : Step t marks_subscribed (record t { event = record (t.event) { state = subscribed } })
  unsubscribed :
      Step t unsubscribes (record t { event = record (t.event) { state = not_subscribed } })
  handler_set :
      (h : Option ℕ)
      → is_free t.pc ≡ true
      → Step t (sets_handler h) (record t { event = set_receive_handler t.event h })
  pulled : (n : ℕ) → is_free t.pc ≡ true → Step t (pulls n) (pull_samples t n)

-- Any interleaving; the labels are newest first.
pub data Steps (t : Threads) : List Act → Threads → Type 0 where
  done : Steps t [] t
  next :
      {as' : List Act} {a : Act} {u v : Threads} → Steps t as' u → Step u a v → Steps t (a ∷ as') v

make_room-pop :
    (full : Bool) (queue gone q : List VehicleSignalSample)
    → (if full then pop_front queue else some ([], queue)) ≡ some (gone, q)
    → (if full then pop queue else some queue) ≡ some q
make_room-pop true [] gone q room = ground arith
make_room-pop true (s ∷ queue) gone q room = ground arith
make_room-pop false queue gone q room = ground arith

-- With no other thread in between, the steps of a subscribed event's push are `PushSample`.
pub push_sample-alone :
    (t : Threads) (s : VehicleSignalSample) (gone q : List VehicleSignalSample)
    → is_subscribed t.event.state ≡ true
    → make_room t.event ≡ some (gone, q)
    → push_sample t.event s ≡ some (run_handler (store t s gone q) t.event.receive_handler s).event
unfolding push_sample make_room store run_handler
push_sample-alone t s gone q sub room =
    let rest =
      make_room-pop (leb t.event.max_samples (length t.event.sample_queue)) t.event.sample_queue
        gone q room in
    rw (sub, rest)

module _ (P : Threads → Type 0) (Quiet : Act → Type 0)
    (step : (a : Act) (t u : Threads) → Quiet a → P t → Step t a u → P u) where
  -- What the quiet steps keep, runs of them keep.
  pub Steps-keep : {t u : Threads} {acts : List Act} → All Quiet acts → P t → Steps t acts u → P u
  Steps-keep q h done = h
  Steps-keep q h (next run st) = step _ _ _ q.0 (Steps-keep q.1 h run) st
