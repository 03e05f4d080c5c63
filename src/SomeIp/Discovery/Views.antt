-- ===== src/SomeIp/Discovery/Views.antt =====
-- What a subscriber knows from its notifications is what the discovery offers
-- (src/ara/com/someip_binding.cpp).
use my_auto_sar_ap.Prelude.{
  ℕ, ◌≡◌, ◌≢◌, inl, inr, refl, ◌∙◌, arith, Bool, true, false, ◌||◌, ◌&&◌, Option, none, some, List,
  [], ◌∷◌, ◌++◌, nat_eq, if◌then◌else◌, ℕ_eq, Option-cases,
}
use my_auto_sar_ap.Prelude.Map.{lookup, lookup-insert, lookup-erase}
use my_auto_sar_ap.SomeIp.Discovery.{
  ServiceDescriptor, ServiceDiscovery, Event, availability, new, callbacks, notify_all,
  offer_service, stop_offer_service, subscribe_service_availability, find_services, to_list,
}

pub data Op : Type 0 where
  offers : ServiceDescriptor → Op
  stops : ℕ → Op
  subscribes : ℕ → ℕ → Op

unfoldable pub step : ServiceDiscovery → Op → ServiceDiscovery
step sd (offers svc) = offer_service sd svc
step sd (stops id) = stop_offer_service sd id
step sd (subscribes id cb) = subscribe_service_availability sd id cb

unfoldable pub run : ServiceDiscovery → List Op → ServiceDiscovery
run sd [] = sd
run sd (op ∷ ops) = run (step sd op) ops

-- The specification: which service of an id is offered after a list of calls.
abbrev pub offered : ℕ → Option ServiceDescriptor → List Op → Option ServiceDescriptor
offered id o [] = o
offered id o (offers svc ∷ ops) = offered id (if nat_eq svc.service_id id then some svc else o) ops
offered id o (stops j ∷ ops) = offered id (if nat_eq j id then none else o) ops
offered id o (subscribes j cb ∷ ops) = offered id o ops

step-offered :
    (sd : ServiceDiscovery) (id : ℕ) (op : Op)
    → lookup id (step sd op).offered_services ≡ offered id (lookup id sd.offered_services) (op ∷ [])
unfolding step offer_service stop_offer_service subscribe_service_availability
step-offered sd id (offers svc) = lookup-insert svc.service_id id svc sd.offered_services
step-offered sd id (stops j) = elim (Option-cases (lookup j sd.offered_services)) [
  | inl e ↦ ground arith
  | inr (svc, e) ↦ ground (arith, lookup-erase j id sd.offered_services)
]
step-offered sd id (subscribes j cb) = refl

offered_step :
    (id : ℕ) (o : Option ServiceDescriptor) (op : Op) (ops : List Op)
    → offered id (offered id o (op ∷ [])) ops ≡ offered id o (op ∷ ops)
offered_step id o (offers svc) ops = refl
offered_step id o (stops j) ops = refl
offered_step id o (subscribes j cb) ops = refl

run-offered :
    (sd : ServiceDiscovery) (id : ℕ) (ops : List Op)
    → lookup id (run sd ops).offered_services ≡ offered id (lookup id sd.offered_services) ops
unfolding run
run-offered sd id [] = refl
run-offered sd id (op ∷ ops) =
    rw (run-offered (step sd op) id ops, step-offered sd id op) (offered_step id _ op ops)

-- `FindServices` of one id, other than the 0xFFFF that asks for all, gives the service that was last
-- offered under it and not stopped since, and nothing if there is none.
pub find_services-run :
    (id : ℕ) (ops : List Op)
    → id ≢ 0xffff
    → find_services (run new ops) id ≡ to_list (offered id none ops)
unfolding find_services new lookup
find_services-run id ops h = ground (arith, run-offered new id ops)

-- What the newest notification of a callback about an id says of the service.
abbrev pub last_seen : ℕ → ℕ → List Event → Option ServiceDescriptor
last_seen cb id [] = none
last_seen cb id (availability c svc up ∷ t) =
    if nat_eq c cb && nat_eq svc.service_id id
    then (if up then some svc else none)
    else last_seen cb id t

abbrev pub member : ℕ → List ℕ → Bool
member c [] = false
member c (d ∷ ds) = nat_eq d c || member c ds

last_seen-notify_all :
    (cb id : ℕ) (cbs : List ℕ) (svc : ServiceDescriptor) (up : Bool) (t : List Event)
    → last_seen cb id (notify_all cbs svc up t) ≡ (
        if member cb cbs && nat_eq svc.service_id id
        then (if up then some svc else none)
        else last_seen cb id t)
unfolding notify_all
last_seen-notify_all cb id [] svc up t = refl
last_seen-notify_all cb id (c ∷ cbs) svc up t =
    ground (arith, last_seen-notify_all cb id cbs svc up (availability c svc up ∷ t))

-- Offered services stand under their own id, and each subscriber of an id has seen what is offered.
pub record Inv (sd : ServiceDiscovery) : Type 0 where
  pub own_id :
      (id : ℕ) (svc : ServiceDescriptor)
      → lookup id sd.offered_services ≡ some svc
      → svc.service_id ≡ id
  pub seen :
      (id cb : ℕ)
      → member cb (callbacks (lookup id sd.subscribers)) ≡ true
      → last_seen cb id sd.trace ≡ lookup id sd.offered_services
  pub silent :
      (id cb : ℕ)
      → member cb (callbacks (lookup id sd.subscribers)) ≡ false
      → last_seen cb id sd.trace ≡ none

offer-Inv : (sd : ServiceDiscovery) (svc : ServiceDescriptor) → Inv sd → Inv (offer_service sd svc)
unfolding offer_service
offer-Inv sd svc v = record {
  own_id = λ id s e.
      ground (arith, lookup-insert svc.service_id id svc sd.offered_services, v.own_id id s);
  seen = λ id cb m. ground (
    arith,
    lookup-insert svc.service_id id svc sd.offered_services,
    last_seen-notify_all cb id (callbacks (lookup svc.service_id sd.subscribers)) svc true sd.trace,
    v.seen id cb,
  );
  silent = λ id cb m. ground (
    arith,
    last_seen-notify_all cb id (callbacks (lookup svc.service_id sd.subscribers)) svc true sd.trace,
    v.silent id cb,
  );
}

stop-Inv : (sd : ServiceDiscovery) (j : ℕ) → Inv sd → Inv (stop_offer_service sd j)
unfolding stop_offer_service
stop-Inv sd j v = record {
  own_id = λ id s e. elim (Option-cases (lookup j sd.offered_services)) [
    | inl n ↦ ground (arith, v.own_id id s)
    | inr (svc, o) ↦ ground (arith, lookup-erase j id sd.offered_services, v.own_id id s)
  ];
  seen = λ id cb m. elim (Option-cases (lookup j sd.offered_services)) [
    | inl n ↦ ground (arith, v.seen id cb)
    | inr (svc, o) ↦ ground (
      arith,
      lookup-erase j id sd.offered_services,
      last_seen-notify_all cb id (callbacks (lookup j sd.subscribers)) svc false sd.trace,
      v.own_id j svc,
      v.seen id cb,
    )
  ];
  silent = λ id cb m. elim (Option-cases (lookup j sd.offered_services)) [
    | inl n ↦ ground (arith, v.silent id cb)
    | inr (svc, o) ↦ ground (
      arith,
      last_seen-notify_all cb id (callbacks (lookup j sd.subscribers)) svc false sd.trace,
      v.own_id j svc,
      v.silent id cb,
    )
  ];
}

member-append : (c d : ℕ) (cbs : List ℕ) → member c (cbs ++ d ∷ []) ≡ (member c cbs || nat_eq d c)
member-append c d [] = ground arith
member-append c d (b ∷ cbs) = ground (arith, member-append c d cbs)

subscribe-Inv :
    (sd : ServiceDiscovery) (j c : ℕ) → Inv sd → Inv (subscribe_service_availability sd j c)
unfolding subscribe_service_availability
subscribe-Inv sd j c v =
    let old = callbacks (lookup j sd.subscribers) in
    record {
      own_id = v.own_id;
      seen = λ id cb m. elim (Option-cases (lookup j sd.offered_services)) [
        | inl n ↦ ground (
          arith,
          lookup-insert j id (old ++ c ∷ []) sd.subscribers,
          member-append cb c old,
          v.seen id cb,
          v.silent id cb,
        )
        | inr (svc, o) ↦ ground (
          arith,
          lookup-insert j id (old ++ c ∷ []) sd.subscribers,
          member-append cb c old,
          v.own_id j svc,
          v.seen id cb,
          v.silent id cb,
        )
      ];
      silent = λ id cb m. elim (Option-cases (lookup j sd.offered_services)) [
        | inl n ↦ ground (
          arith,
          lookup-insert j id (old ++ c ∷ []) sd.subscribers,
          member-append cb c old,
          v.silent id cb,
        )
        | inr (svc, o) ↦ ground (
          arith,
          lookup-insert j id (old ++ c ∷ []) sd.subscribers,
          member-append cb c old,
          v.own_id j svc,
          v.silent id cb,
        )
      ];
    }

run-Inv : (sd : ServiceDiscovery) (ops : List Op) → Inv sd → Inv (run sd ops)
unfolding run step
run-Inv sd [] v = v
run-Inv sd (offers svc ∷ ops) v = run-Inv (offer_service sd svc) ops (offer-Inv sd svc v)
run-Inv sd (stops j ∷ ops) v = run-Inv (stop_offer_service sd j) ops (stop-Inv sd j v)
run-Inv sd (subscribes j c ∷ ops) v =
    run-Inv (subscribe_service_availability sd j c) ops (subscribe-Inv sd j c v)

new-Inv : Inv new
unfolding new lookup
new-Inv = record {
  own_id = λ id svc e. ground arith;
  seen = λ id cb m. ground arith;
  silent = λ id cb m. refl;
}

-- After any calls of offer, stop and subscribe, the newest notification that a subscriber of an id got
-- about it says what the discovery offers under that id: the service, or nothing.
pub last_seen-run :
    (ops : List Op) (id cb : ℕ)
    → member cb (callbacks (lookup id (run new ops).subscribers)) ≡ true
    → last_seen cb id (run new ops).trace ≡ offered id none ops
unfolding new lookup
last_seen-run ops id cb m = (run-Inv new ops new-Inv).seen id cb m ∙ run-offered new id ops
