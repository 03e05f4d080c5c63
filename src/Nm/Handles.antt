-- ===== src/Nm/Handles.antt =====
-- `NetworkHandle` holds one request of its network (src/ara/nm/nm.cpp).
use my_auto_sar_ap.Prelude.{ℕ, ◌+◌, ◌<◌, ◌≡◌, arith, ℕ_eq, inl, inr, Bool-cases, nat_eq}
use my_auto_sar_ap.Prelude.Map.{lookup}
use my_auto_sar_ap.Nm.{
  NetworkManagement, NetworkHandle, request_network, open_handle, close_handle, move_handle,
}
use my_auto_sar_ap.Nm.RefCount.{
  Tracks, request-Tracks, release-Tracks, request-other, release-other, request-granted,
}

-- Opening a handle and closing it leaves the record of every network as it was, if the network was
-- in the state that its count of requests calls for and one more request does not wrap the count.
pub close-open :
    (nm : NetworkManagement) (id n k : ℕ)
    → Tracks id n nm
    → n + 1 < 4294967296
    → let (opened, h) = open_handle nm id in
      lookup k (close_handle opened h).0.networks ≡ lookup k nm.networks
unfolding open_handle close_handle
close-open nm id n k t small =
    let (opened, result) = request_network nm id in
    let held = request-Tracks nm id n id small t in
    elim (Bool-cases (nat_eq id k)) [
      | inl same ↦
          ground (arith, held, release-Tracks opened id (n + 1) id, request-granted nm id n t)
      | inr other ↦ ground (
        arith,
        request-other nm id k other,
        release-other opened id k other,
        request-granted nm id n t,
      )
    ]

-- A moved handle releases its network once: closing the new handle and then the one that was moved
-- from does what closing the original does.
pub close-move :
    (nm : NetworkManagement) (h : NetworkHandle)
    → let (moved, from) = move_handle h in
      (close_handle (close_handle nm moved).0 from).0 ≡ (close_handle nm h).0
unfolding move_handle close_handle
close-move nm h = ground arith
