-- ===== src/VehicleSignal/Queue.antt =====
-- The sample queue keeps the newest samples (src/ara/com/vehicle_signal_proxy.cpp).
use my_auto_sar_ap.Prelude.{
  ℕ, zero, suc, ◌-◌, ◌<◌, ◌≤◌, ◌≡◌, refl, sym, ◌∙◌, ap, dec_le, arith, true, false, Option, none,
  some, List, [], ◌∷◌, ◌++◌, length, length-append, take, drop, length-drop, length-take, min,
  take-append-drop, leb,
}
use mathlib.Core.List.{append-nil, append_assoc}
use my_auto_sar_ap.VehicleSignal.{
  VehicleSignalEvent, VehicleSignalSample, subscribed, subscribe, push_sample, pop, pull,
  get_new_samples, call,
}

-- The last n of a list.
abbrev pub last_of {ℓ} : {A : Type ℓ} → ℕ → List A → List A
last_of n xs = drop (length xs - n) xs

-- Samples pushed one after the other, the first of the list first.
unfoldable pub push_all : VehicleSignalEvent → List VehicleSignalSample → Option VehicleSignalEvent
push_all ev [] = some ev
push_all ev (s ∷ ss) = elim (push_sample ev s) [ none ↦ none | some ev' ↦ push_all ev' ss ]

abbrev handed_over :
    Option ℕ
    → List VehicleSignalSample
    → List (ℕ × VehicleSignalSample)
    → List (ℕ × VehicleSignalSample)
handed_over h [] t = t
handed_over h (s ∷ ss) t = handed_over h ss (call h s t)

drop-append_end {ℓ} :
    {A : Type ℓ} (k : ℕ) (xs ys : List A) → k ≤ length xs → drop k (xs ++ ys) ≡ drop k xs ++ ys
drop-append_end zero xs ys h = refl
drop-append_end (suc k) [] ys h = absurd (omega arith)
drop-append_end (suc k) (x ∷ xs) ys h = drop-append_end k xs ys (omega arith)

drop-drop_one {ℓ} : {A : Type ℓ} (k : ℕ) (xs : List A) → drop (suc k) xs ≡ drop 1 (drop k xs)
drop-drop_one zero [] = refl
drop-drop_one zero (x ∷ xs) = refl
drop-drop_one (suc k) [] = refl
drop-drop_one (suc k) (x ∷ xs) = drop-drop_one k xs

last_of-short {ℓ} : {A : Type ℓ} (n : ℕ) (xs : List A) → length xs ≤ n → last_of n xs ≡ xs
last_of-short n xs h = let none_dropped : length xs - n ≡ 0 = omega arith in rw none_dropped

-- One more element behind a list that is full pushes the oldest of the last ones out.
last_of-full {ℓ} :
    {A : Type ℓ} (n : ℕ) (xs : List A) (a : A)
    → 0 < n
    → n ≤ length xs
    → last_of n (xs ++ a ∷ []) ≡ drop 1 (last_of n xs) ++ a ∷ []
last_of-full n xs a pos h =
    let one_more : length (xs ++ a ∷ []) - n ≡ suc (length xs - n) =
      omega (arith, length-append xs (a ∷ [])) in
    rw (one_more, drop-append_end (suc (length xs - n)) xs (a ∷ []) (omega arith))
      (ap (λ t. t ++ a ∷ []) (drop-drop_one (length xs - n) xs))

pop-drop : (q : List VehicleSignalSample) → 0 < length q → pop q ≡ some (drop 1 q)
pop-drop [] h = elim h [ ]
pop-drop (s ∷ q) h = refl

push-last :
    (ev : VehicleSignalEvent) (seen : List VehicleSignalSample) (s : VehicleSignalSample)
    → ev.state ≡ subscribed
    → 0 < ev.max_samples
    → ev.sample_queue ≡ last_of ev.max_samples seen
    → push_sample ev s
      ≡ some (record ev {
        sample_queue = last_of ev.max_samples (seen ++ s ∷ []);
        delivered = call ev.receive_handler s ev.delivered;
      })
unfolding push_sample
push-last ev seen s sub pos q =
    let size = length-drop (length seen - ev.max_samples) seen in
    let same : length ev.sample_queue ≡ length (last_of ev.max_samples seen) = ap length q in
    let grown = length-append seen (s ∷ []) in
    elim (dec_le ev.max_samples (length seen)) [
      | yes full ↦
          let popped = pop-drop ev.sample_queue (omega (arith, same, size)) in
          let longer = last_of-full ev.max_samples seen s pos full in
          let reached : leb ev.max_samples (length ev.sample_queue) ≡ true =
            ground (arith, same, size) in
          rw (sub, reached, popped, longer, q)
      | no room ↦
          let all_kept = last_of-short ev.max_samples seen (omega arith) in
          let all_kept' = last_of-short ev.max_samples (seen ++ s ∷ []) (omega (arith, grown)) in
          let below : leb ev.max_samples (length ev.sample_queue) ≡ false =
            ground (arith, same, size) in
          rw (sub, below, q, all_kept, all_kept')
    ]

push_all-last :
    (ev : VehicleSignalEvent) (seen ss : List VehicleSignalSample)
    → ev.state ≡ subscribed
    → 0 < ev.max_samples
    → ev.sample_queue ≡ last_of ev.max_samples seen
    → push_all ev ss
      ≡ some (record ev {
        sample_queue = last_of ev.max_samples (seen ++ ss);
        delivered = handed_over ev.receive_handler ss ev.delivered;
      })
unfolding push_all
push_all-last ev seen [] sub pos q = ground (arith, append-nil seen)
push_all-last ev seen (s ∷ ss) sub pos q =
    let ev' = record ev {
      sample_queue = last_of ev.max_samples (seen ++ s ∷ []);
      delivered = call ev.receive_handler s ev.delivered;
    } in
    let rest = push_all-last ev' (seen ++ s ∷ []) ss sub pos refl in
    rw (push-last ev seen s sub pos q, push_all) (rw (append_assoc seen (s ∷ []) ss) at rest)

-- A subscription of at least one sample, from an empty queue: after any samples pushed, and none of
-- them pulled, the queue holds the last `max_samples` of them, oldest first, and the handler got
-- every one. No push is undefined.
pub push_all-subscribe :
    (ev : VehicleSignalEvent) (n : ℕ) (ss : List VehicleSignalSample)
    → ev.sample_queue ≡ []
    → 0 < n
    → push_all (subscribe ev n) ss
      ≡ some (record ev {
        state = subscribed;
        max_samples = n;
        sample_queue = last_of n ss;
        delivered = handed_over ev.receive_handler ss ev.delivered;
      })
unfolding subscribe
push_all-subscribe ev n ss e pos =
    push_all-last (subscribe ev n) [] ss refl pos (e ∙ sym (last_of-short n [] (omega arith)))

-- A subscription of no samples makes the first push on an empty queue undefined: it pops an empty
-- `std::queue`.
pub push-subscribe_zero :
    (ev : VehicleSignalEvent) (s : VehicleSignalSample)
    → ev.sample_queue ≡ []
    → push_sample (subscribe ev 0) s ≡ none
unfolding subscribe push_sample
push-subscribe_zero ev s e = ground arith

pull_lem : (n : ℕ) (q : List VehicleSignalSample) → pull n q ≡ (take n q, drop n q)
unfolding pull
pull_lem zero q = refl
pull_lem (suc n) [] = refl
pull_lem (suc n) (s ∷ q) = rw (pull_lem n q)

-- `GetNewSamples` hands over the oldest samples in order, as many as asked for and there are, gives
-- their number and leaves the others in the queue.
pub get_new_samples_lem :
    (ev : VehicleSignalEvent) (n : ℕ)
    → let (after, handed, count) = get_new_samples ev n in
      (handed ++ after.sample_queue ≡ ev.sample_queue)
      × (length handed ≡ min n (length ev.sample_queue))
      × (count ≡ length handed)
unfolding get_new_samples
get_new_samples_lem ev n =
    rw (pull_lem n ev.sample_queue)
      (take-append-drop n ev.sample_queue, length-take n ev.sample_queue, refl)
