-- ===== src/Nm/RefCount.antt =====
-- The reference count of a network refines the number of outstanding requests (src/ara/nm/nm.cpp).
use my_auto_sar_ap.Prelude.{
  ℕ, suc, ◌+◌, ◌-◌, ◌<◌, ◌≡◌, ◌⊎◌, inl, inr, refl, arith, true, false, some, List, [], ◌∷◌, length,
  nat_eq, if◌then◌else◌, ℕ_eq, Option-cases,
}
use my_auto_sar_ap.Prelude.Map.{lookup, insert, lookup-insert, lookup-map_values}
use my_auto_sar_ap.Nm.{
  NetworkManagement, NetworkState, NetworkId, normal, bus_sleep, request_network, release_network,
  shut_down, initialize, get_network_state, new, eth_ipc, eth_external, eth_doip, loopback, u32,
  asleep, is_granted,
}

pub data Op : Type 0 where
  requests releases : NetworkId → Op
  shuts_down : Op

unfoldable pub step : NetworkManagement → Op → NetworkManagement
step nm (requests id) = (request_network nm id).0
step nm (releases id) = (release_network nm id).0
step nm shuts_down = shut_down nm

unfoldable pub run : NetworkManagement → List Op → NetworkManagement
run nm [] = nm
run nm (op ∷ ops) = run (step nm op) ops

-- The specification: how many requests of network `k` are not yet released, `n` of them at first.
-- A release of a network that nobody holds counts for nothing, and a shutdown drops all.
abbrev pub after : NetworkId → ℕ → Op → ℕ
after k n (requests id) = if nat_eq id k then n + 1 else n
after k n (releases id) = if nat_eq id k then n - 1 else n
after k n shuts_down = 0

abbrev pub outstanding : NetworkId → ℕ → List Op → ℕ
outstanding k n [] = n
outstanding k n (op ∷ ops) = outstanding k (after k n op) ops

abbrev pub state_for : ℕ → NetworkState
state_for n = if nat_eq n 0 then bus_sleep else normal

abbrev pub Tracks : NetworkId → ℕ → NetworkManagement → Type 0
Tracks k n nm = lookup k nm.networks ≡ some (record { id = k; state = state_for n; ref_count = n })

pub request-Tracks :
    (nm : NetworkManagement) (k n id : ℕ)
    → n + 1 < 4294967296
    → Tracks k n nm
    → Tracks k (after k n (requests id)) (request_network nm id).0
unfolding request_network
request-Tracks nm k n id small t = elim (Option-cases (lookup id nm.networks)) [
  | inl e ↦ ground arith
  | inr (rec, e) ↦ ground (
    arith,
    lookup-insert id k (record rec { state = normal; ref_count = u32 (rec.ref_count + 1) })
        nm.networks,
    lookup-insert id k (record rec { ref_count = u32 (rec.ref_count + 1) }) nm.networks,
  )
]

pub release-Tracks :
    (nm : NetworkManagement) (k n id : ℕ)
    → Tracks k n nm
    → Tracks k (after k n (releases id)) (release_network nm id).0
unfolding release_network
release-Tracks nm k n id t = elim (Option-cases (lookup id nm.networks)) [
  | inl e ↦ ground arith
  | inr (rec, e) ↦ ground (
    arith,
    lookup-insert id k (record rec { state = bus_sleep; ref_count = rec.ref_count - 1 })
        nm.networks,
    lookup-insert id k (record rec { ref_count = rec.ref_count - 1 }) nm.networks,
  )
]

-- A request or a release of another network leaves the record of `k` alone.
pub request-other :
    (nm : NetworkManagement) (id k : ℕ)
    → nat_eq id k ≡ false
    → lookup k (request_network nm id).0.networks ≡ lookup k nm.networks
unfolding request_network
request-other nm id k h = elim (Option-cases (lookup id nm.networks)) [
  | inl e ↦ ground arith
  | inr (rec, e) ↦ ground (
    arith,
    lookup-insert id k (record rec { state = normal; ref_count = u32 (rec.ref_count + 1) })
        nm.networks,
    lookup-insert id k (record rec { ref_count = u32 (rec.ref_count + 1) }) nm.networks,
  )
]

pub release-other :
    (nm : NetworkManagement) (id k : ℕ)
    → nat_eq id k ≡ false
    → lookup k (release_network nm id).0.networks ≡ lookup k nm.networks
unfolding release_network
release-other nm id k h = elim (Option-cases (lookup id nm.networks)) [
  | inl e ↦ ground arith
  | inr (rec, e) ↦ ground (
    arith,
    lookup-insert id k (record rec { state = bus_sleep; ref_count = rec.ref_count - 1 })
        nm.networks,
    lookup-insert id k (record rec { ref_count = rec.ref_count - 1 }) nm.networks,
  )
]

pub request-granted :
    (nm : NetworkManagement) (id n : ℕ)
    → Tracks id n nm
    → is_granted (request_network nm id).1 ≡ true
unfolding request_network
request-granted nm id n t = ground arith

step-Tracks :
    (nm : NetworkManagement) (k n : ℕ) (op : Op)
    → n + 1 < 4294967296
    → Tracks k n nm
    → Tracks k (after k n op) (step nm op)
unfolding step shut_down
step-Tracks nm k n (requests id) small t = request-Tracks nm k n id small t
step-Tracks nm k n (releases id) small t = release-Tracks nm k n id t
step-Tracks nm k n shuts_down small t = ground (arith, lookup-map_values asleep k nm.networks)

after-le : (k n : ℕ) (op : Op) → after k n op < suc (suc n)
after-le k n (requests id) = ground arith
after-le k n (releases id) = ground arith
after-le k n shuts_down = omega arith

pub run-Tracks :
    (nm : NetworkManagement) (k n : ℕ) (ops : List Op)
    → n + length ops < 4294967296
    → Tracks k n nm
    → Tracks k (outstanding k n ops) (run nm ops)
unfolding run
run-Tracks nm k n [] small t = t
run-Tracks nm k n (op ∷ ops) small t =
    run-Tracks (step nm op) k (after k n op) ops (omega (arith, after-le k n op))
      (step-Tracks nm k n op (omega arith) t)

abbrev pub IsConfigured : NetworkId → Type 0
IsConfigured k = (k ≡ eth_ipc) ⊎ (k ≡ eth_external) ⊎ (k ≡ eth_doip) ⊎ (k ≡ loopback)

pub initialize-Tracks : (k : ℕ) → IsConfigured k → Tracks k 0 (initialize new).0
unfolding initialize new lookup insert
initialize-Tracks k h = ground arith

-- After `Initialize` and any sequence of fewer than 2^32 requests, releases and shutdowns, a
-- configured network is in Normal if some request of it is outstanding, and in BusSleep otherwise.
pub run-state :
    (k : NetworkId) (ops : List Op)
    → IsConfigured k
    → length ops < 4294967296
    → get_network_state (run (initialize new).0 ops) k ≡ state_for (outstanding k 0 ops)
unfolding get_network_state
run-state k ops h small =
    rw
      (
        run-Tracks (initialize new).0 k 0 ops (omega arith) (initialize-Tracks k h),
        get_network_state,
      )
      refl
