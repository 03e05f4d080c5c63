-- ===== src/SomeIp/Discovery.antt =====
-- The service discovery: include/ara/com/someip_binding.h and the second half of
-- src/ara/com/someip_binding.cpp. A callback is a number; a call of one is an entry of `trace`,
-- newest first.
pub mod Views
pub mod All
use my_auto_sar_ap.Prelude.{
  ℕ, String, Bool, true, false, Option, none, some, List, [], ◌∷◌, ◌++◌, nat_eq, if◌then◌else◌,
  ℕ_eq,
}
use my_auto_sar_ap.Prelude.Map.{lookup, insert, erase}

pub record ServiceDescriptor : Type 0 where
  pub service_id : ℕ
  pub instance_id : ℕ
  pub major_version : ℕ
  pub minor_version : ℕ
  pub service_name : String
  pub eventgroup_id : ℕ
  pub tcp_binding : Bool
  pub port : ℕ

abbrev descriptor : ℕ → String → ℕ → Bool → ℕ → ServiceDescriptor
descriptor id name group tcp port = record {
  service_id = id;
  instance_id = 0x01;
  major_version = 1;
  minor_version = 0;
  service_name = name;
  eventgroup_id = group;
  tcp_binding = tcp;
  port = port;
}

abbrev pub service_catalog : List ServiceDescriptor
service_catalog =
    descriptor 0x1001 "VehicleSignalService" 0x01 false 30501
    ∷ descriptor 0x1002 "SafetyStatusService" 0x02 false 30502
    ∷ descriptor 0x1003 "PowerModeService" 0x03 true 30601
    ∷ descriptor 0x1004 "DiagnosticProxyService" 0x04 true 30602
    ∷ descriptor 0x1005 "OTATransferService" 0x05 true 30701
    ∷ descriptor 0x1006 "HMICommandService" 0x06 true 30603
    ∷ descriptor 0x1007 "NetworkStatusService" 0x07 false 30503
    ∷ []

pub data Event : Type 0 where
  availability : ℕ → ServiceDescriptor → Bool → Event

pub record ServiceDiscovery : Type 0 where
  pub offered_services : List (ℕ × ServiceDescriptor)
  pub subscribers : List (ℕ × List ℕ)
  pub trace : List Event

unfoldable pub new : ServiceDiscovery
new = record { offered_services = []; subscribers = []; trace = [] }

abbrev pub callbacks : Option (List ℕ) → List ℕ
callbacks none = []
callbacks (some cbs) = cbs

-- The loop over the callbacks of a service, in the order of subscription.
unfoldable pub notify_all : List ℕ → ServiceDescriptor → Bool → List Event → List Event
notify_all [] svc available t = t
notify_all (cb ∷ cbs) svc available t =
    notify_all cbs svc available (availability cb svc available ∷ t)

unfoldable pub offer_service : ServiceDiscovery → ServiceDescriptor → ServiceDiscovery
offer_service sd svc = record sd {
  offered_services = insert svc.service_id svc sd.offered_services;
  trace = notify_all (callbacks (lookup svc.service_id sd.subscribers)) svc true sd.trace;
}

unfoldable pub stop_offer_service : ServiceDiscovery → ℕ → ServiceDiscovery
stop_offer_service sd id = elim (lookup id sd.offered_services) [
  | none ↦ sd
  | some svc ↦ record sd {
    offered_services = erase id sd.offered_services;
    trace = notify_all (callbacks (lookup id sd.subscribers)) svc false sd.trace;
  }
]

abbrev pub values : List (ℕ × ServiceDescriptor) → List ServiceDescriptor
values [] = []
values ((id, svc) ∷ rest) = svc ∷ values rest

abbrev pub to_list : Option ServiceDescriptor → List ServiceDescriptor
to_list none = []
to_list (some svc) = svc ∷ []

unfoldable pub find_services : ServiceDiscovery → ℕ → List ServiceDescriptor
find_services sd id =
    if nat_eq id 0xffff then values sd.offered_services else to_list (lookup id sd.offered_services)

abbrev pub notify_if_offered : Option ServiceDescriptor → ℕ → List Event → List Event
notify_if_offered none cb t = t
notify_if_offered (some svc) cb t = availability cb svc true ∷ t

unfoldable pub subscribe_service_availability : ServiceDiscovery → ℕ → ℕ → ServiceDiscovery
subscribe_service_availability sd id cb = record sd {
  subscribers = insert id (callbacks (lookup id sd.subscribers) ++ cb ∷ []) sd.subscribers;
  trace = notify_if_offered (lookup id sd.offered_services) cb sd.trace;
}
