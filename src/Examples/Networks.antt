-- ===== src/Examples/Networks.antt =====
-- The active networks of a table in another order (src/ara/nm/nm.cpp).
use mathlib.Core.List.{Perm}
use my_auto_sar_ap.Prelude.{ℕ, ◌≡◌, refl, arith, none, List, [], ◌∷◌, ℕ_eq}
use my_auto_sar_ap.Prelude.Map.{lookup, insert}
use my_auto_sar_ap.Nm.{
  NetworkManagement, NetworkRecord, NetworkState, NetworkId, normal, bus_sleep, initialize, new,
  eth_ipc, eth_external, eth_doip, loopback, get_active_networks, request_network, active,
}
use my_auto_sar_ap.Nm.RefCount.{Op, requests, run, step}
use my_auto_sar_ap.Nm.Active.{get_active_networks-held, held_networks}

abbrev two_requests : List Op
two_requests = requests eth_doip ∷ requests eth_ipc ∷ []

abbrev row : NetworkId → NetworkState → ℕ → ℕ × NetworkRecord
row id state count = (id, record { id = id; state = state; ref_count = count })

abbrev shuffled : NetworkManagement
shuffled = record {
  networks =
      row loopback bus_sleep 0
      ∷ row eth_doip normal 1
      ∷ row eth_external bus_sleep 0
      ∷ row eth_ipc normal 1
      ∷ [];
  state_callback = none;
  trace = [];
}

same_rows :
    (k : ℕ) → lookup k shuffled.networks ≡ lookup k (run (initialize new).0 two_requests).networks
unfolding lookup run step initialize new insert request_network
same_rows k = ground arith

get_active_networks-held_example : Perm (get_active_networks shuffled) (held_networks two_requests)
unfolding lookup
get_active_networks-held_example =
    get_active_networks-held shuffled two_requests (omega arith) (refl, (refl, (refl, (refl, tt))))
      same_rows

active_now : get_active_networks shuffled ≡ eth_doip ∷ eth_ipc ∷ []
unfolding get_active_networks active
active_now = refl
