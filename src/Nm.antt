-- ===== src/Nm.antt =====
-- ara::nm: include/ara/nm/network_management.h and src/ara/nm/nm.cpp. A network id is its
-- `uint16_t` value. A call of the registered callback is an entry of `trace`, newest first.
pub mod RefCount
pub mod Active
pub mod Handles
use my_auto_sar_ap.Prelude.{
  ℕ, zero, suc, ◌+◌, ◌-◌, ◌%◌, Bool, true, false, Option, none, some, List, [], ◌∷◌, nat_eq,
  if◌then◌else◌, ℕ_eq,
}
use my_auto_sar_ap.Prelude.Map.{lookup, insert, map_values}

pub data NetworkState : Type 0 where
  bus_sleep prepare_bus_sleep ready normal repeat error : NetworkState

pub data NmRequestResult : Type 0 where
  success already_requested network_unknown error : NmRequestResult

abbrev pub NetworkId : Type 0
NetworkId = ℕ

abbrev pub eth_ipc : NetworkId
eth_ipc = 0x0001

abbrev pub eth_external : NetworkId
eth_external = 0x0002

abbrev pub eth_doip : NetworkId
eth_doip = 0x0003

abbrev pub loopback : NetworkId
loopback = 0x00ff

pub data Event : Type 0 where
  network_changed : ℕ → NetworkId → NetworkState → NetworkState → Event

pub record NetworkRecord : Type 0 where
  pub id : NetworkId
  pub state : NetworkState
  pub ref_count : ℕ  -- uint32_t

pub record NetworkManagement : Type 0 where
  pub networks : List (ℕ × NetworkRecord)
  pub state_callback : Option ℕ
  pub trace : List Event

unfoldable pub new : NetworkManagement
new = record { networks = []; state_callback = none; trace = [] }

abbrev pub u32 : ℕ → ℕ
u32 n = n % 4294967296

abbrev pub notify : Option ℕ → NetworkId → NetworkState → NetworkState → List Event → List Event
notify none id old target t = t
notify (some cb) id old target t = network_changed cb id old target ∷ t

-- `fetch_add` wraps.
unfoldable pub request_network : NetworkManagement → NetworkId → NetworkManagement × NmRequestResult
request_network nm id = elim (lookup id nm.networks) [
  | none ↦ (nm, network_unknown)
  | some rec ↦
      if nat_eq rec.ref_count 0
      then (
        record nm {
          networks =
              insert id (record rec { state = normal; ref_count = u32 (rec.ref_count + 1) })
                nm.networks;
          trace = notify nm.state_callback id rec.state normal nm.trace;
        },
        success,
      )
      else (
        record nm {
          networks = insert id (record rec { ref_count = u32 (rec.ref_count + 1) }) nm.networks;
        },
        already_requested,
      )
]

-- `fetch_sub` runs on a positive count only.
unfoldable pub release_network : NetworkManagement → NetworkId → NetworkManagement × NmRequestResult
release_network nm id = elim (lookup id nm.networks) [
  | none ↦ (nm, network_unknown)
  | some rec ↦
      if nat_eq rec.ref_count 0
      then (nm, NmRequestResult.error)
      else if nat_eq rec.ref_count 1
      then (
        record nm {
          networks =
              insert id (record rec { state = bus_sleep; ref_count = rec.ref_count - 1 })
                nm.networks;
          trace = notify nm.state_callback id rec.state bus_sleep nm.trace;
        },
        success,
      )
      else (
        record nm {
          networks = insert id (record rec { ref_count = rec.ref_count - 1 }) nm.networks;
        },
        success,
      )
]

unfoldable pub get_network_state : NetworkManagement → NetworkId → NetworkState
get_network_state nm id = elim (lookup id nm.networks) [
  | none ↦ NetworkState.error
  | some rec ↦ rec.state
]

unfoldable pub register_network_state_callback : NetworkManagement → Option ℕ → NetworkManagement
register_network_state_callback nm cb = record nm { state_callback = cb }

-- The lambda of `Initialize`: a network that is there already is left alone.
unfoldable pub add_network : NetworkId → NetworkManagement → NetworkManagement
add_network id nm = elim (lookup id nm.networks) [
  | none ↦ record nm {
    networks = insert id (record { id = id; state = bus_sleep; ref_count = 0 }) nm.networks;
  }
  | some rec ↦ nm
]

unfoldable pub initialize : NetworkManagement → NetworkManagement × Bool
unfolding add_network
initialize nm = (
  add_network loopback (add_network eth_doip (add_network eth_external (add_network eth_ipc nm))),
  true,
)

abbrev pub asleep : NetworkRecord → NetworkRecord
asleep rec = record rec { ref_count = 0; state = bus_sleep }

unfoldable pub shut_down : NetworkManagement → NetworkManagement
shut_down nm = record nm { networks = map_values asleep nm.networks }

abbrev pub is_normal : NetworkState → Bool
is_normal normal = true
is_normal _ = false

unfoldable pub active : List (ℕ × NetworkRecord) → List NetworkId
active [] = []
active ((k, rec) ∷ rest) =
    let tail = active rest in if is_normal rec.state then rec.id ∷ tail else tail

unfoldable pub get_active_networks : NetworkManagement → List NetworkId
unfolding active
get_active_networks nm = active nm.networks

pub record NetworkHandle : Type 0 where
  pub network_id : NetworkId
  pub valid : Bool

abbrev pub is_granted : NmRequestResult → Bool
is_granted success = true
is_granted already_requested = true
is_granted _ = false

-- The constructor, the destructor and the move constructor of the handle; the last returns the new
-- handle and the one that was moved from.
unfoldable pub open_handle : NetworkManagement → NetworkId → NetworkManagement × NetworkHandle
open_handle nm id =
    let (nm', result) = request_network nm id in
    (nm', record { network_id = id; valid = is_granted result })

unfoldable pub close_handle : NetworkManagement → NetworkHandle → NetworkManagement × NetworkHandle
close_handle nm h =
    if h.valid then ((release_network nm h.network_id).0, record h { valid = false }) else (nm, h)

unfoldable pub move_handle : NetworkHandle → NetworkHandle × NetworkHandle
move_handle other =
    (record { network_id = other.network_id; valid = other.valid }, record other { valid = false })
