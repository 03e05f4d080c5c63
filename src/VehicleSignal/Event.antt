-- ===== src/VehicleSignal/Event.antt =====
-- The samples and the event of the vehicle signal proxy (include/ara/com/vehicle_signal_proxy.h,
-- src/ara/com/vehicle_signal_proxy.cpp).
use my_auto_sar_ap.Prelude.{
  ℕ, zero, suc, Bool, true, false, not, Option, none, some, List, [], ◌∷◌, ◌++◌, length, leb,
  if◌then◌else◌,
}

pub data SubscriptionState : Type 0 where
  not_subscribed subscribed subscription_pending : SubscriptionState

pub record VehicleSignalSample : Type 0 where
  pub vehicle_speed_kmh : ℕ
  pub engine_rpm : ℕ
  pub brake_pedal : Bool
  pub steering_angle_deg : ℕ
  pub door_status : ℕ
  pub fuel_level_pct : ℕ
  pub e2e_crc : ℕ
  pub e2e_counter : ℕ
  pub session_id : ℕ

-- The queue's front is the head of the list; `delivered` holds the calls of the handlers, newest
-- first.
pub record VehicleSignalEvent : Type 0 where
  pub state : SubscriptionState
  pub max_samples : ℕ
  pub sample_queue : List VehicleSignalSample
  pub receive_handler : Option ℕ
  pub delivered : List (ℕ × VehicleSignalSample)

unfoldable pub new_event : VehicleSignalEvent
new_event = record {
  state = not_subscribed;
  max_samples = 16;
  sample_queue = [];
  receive_handler = none;
  delivered = [];
}

unfoldable pub subscribe : VehicleSignalEvent → ℕ → VehicleSignalEvent
subscribe ev max_samples = record ev { max_samples = max_samples; state = subscribed }

unfoldable pub unsubscribe : VehicleSignalEvent → VehicleSignalEvent
unsubscribe ev = record ev { state = not_subscribed }

unfoldable pub get_subscription_state : VehicleSignalEvent → SubscriptionState
get_subscription_state ev = ev.state

unfoldable pub set_receive_handler : VehicleSignalEvent → Option ℕ → VehicleSignalEvent
set_receive_handler ev handler = record ev { receive_handler = handler }

-- The loop of `GetNewSamples`: the samples handed to `f`, in order, and the queue that is left.
unfoldable pub pull :
    ℕ → List VehicleSignalSample → List VehicleSignalSample × List VehicleSignalSample
pull zero q = ([], q)
pull (suc n) [] = ([], [])
pull (suc n) (s ∷ q) = let (handed, left) = pull n q in (s ∷ handed, left)

-- The result is the event, the samples handed over and their number.
unfoldable pub get_new_samples :
    VehicleSignalEvent → ℕ → VehicleSignalEvent × List VehicleSignalSample × ℕ
unfolding pull
get_new_samples ev max_count =
    let (handed, left) = pull max_count ev.sample_queue in
    (record ev { sample_queue = left }, handed, length handed)

-- `std::queue::pop`, which is undefined on an empty queue.
abbrev pub pop : List VehicleSignalSample → Option (List VehicleSignalSample)
pop [] = none
pop (s ∷ q) = some q

abbrev pub is_subscribed : SubscriptionState → Bool
is_subscribed subscribed = true
is_subscribed _ = false

abbrev pub call :
    Option ℕ → VehicleSignalSample → List (ℕ × VehicleSignalSample) → List (ℕ × VehicleSignalSample)
call none sample t = t
call (some cb) sample t = (cb, sample) ∷ t

abbrev pub enqueue :
    VehicleSignalEvent
    → VehicleSignalSample
    → Option (List VehicleSignalSample)
    → Option VehicleSignalEvent
enqueue ev sample none = none
enqueue ev sample (some q) = some (record ev {
  sample_queue = q ++ sample ∷ [];
  delivered = call ev.receive_handler sample ev.delivered;
})

unfoldable pub push_sample : VehicleSignalEvent → VehicleSignalSample → Option VehicleSignalEvent
push_sample ev sample =
    if not (is_subscribed ev.state)
    then some ev
    else enqueue ev sample (
        if leb ev.max_samples (length ev.sample_queue)
        then pop ev.sample_queue
        else some ev.sample_queue)
