-- ===== src/VehicleSignal/Fresh.antt =====
-- The proxy that `FindService` gives (src/ara/com/vehicle_signal_proxy.cpp).
use my_auto_sar_ap.Prelude.{
  ℕ, ◌≡◌, ◌⊎◌, refl, Bool, true, false, Option, none, some, inl, inr, if◌then◌else◌,
}
use my_auto_sar_ap.Process.{Sockets, Process, write, create_and_write}
use my_auto_sar_ap.Process.Tally.{tally}
use my_auto_sar_ap.VehicleSignal.{VehicleSignalProxy}
use my_auto_sar_ap.VehicleSignal.Proxy.{
  idle_proxy, make_proxy, destroy_proxy, find_service, with_socket, unless_failed,
}

abbrev pub listening_proxy : ℕ → VehicleSignalProxy
listening_proxy fd = record idle_proxy { sock_fd = some fd; running = true; rx_thread = true }

module _ {S : Sockets} where
  -- A proxy that listens, or the one that failed, and no line that is counted.
  abbrev Made : Process S → Process S × VehicleSignalProxy → Type 0
  Made w r =
      (tally r.0.output ≡ tally w.output)
      × ((r.1 ≡ idle_proxy) ⊎ ((fd : ℕ) × (r.1 ≡ listening_proxy fd)))

  if-Made :
      (b : Bool) (w : Process S) (x y : Process S × VehicleSignalProxy)
      → Made w x
      → Made w y
      → Made w (if b then x else y)
  if-Made true w x y hx hy = hx
  if-Made false w x y hx hy = hy

  with_socket-Made : (w : Process S) (o : Option ℕ) (port : ℕ) → Made w (with_socket w o port)
  unfolding create_and_write write
  with_socket-Made w none port = (refl, inl refl)
  with_socket-Made w (some fd) port = if-Made _ w _ _ (refl, inl refl) (refl, inr (fd, refl))

  abbrev pub Found : Process S → Process S × Option VehicleSignalProxy → Type 0
  Found w r =
      (tally r.0.output ≡ tally w.output)
      × ((r.1 ≡ none) ⊎ ((fd : ℕ) × (r.1 ≡ some (listening_proxy fd))))

  unless-Found :
      (v w : Process S) (p : VehicleSignalProxy)
      → Made v (w, p)
      → Found v (unless_failed w p p.sock_fd)
  unfolding destroy_proxy
  unless-Found v w p (out, inl failed) = rw failed (out, inl refl)
  unless-Found v w p (out, inr (fd, e)) = rw e (out, inr (fd, refl))

  -- `FindService` gives the null pointer or a proxy that listens and has received nothing.
  pub find_service-Found : (w : Process S) (port : ℕ) → Found w (find_service w port)
  unfolding find_service make_proxy
  find_service-Found w port =
      unless-Found w _ _ (with_socket-Made (record w { os = (S.socket w.os).0 }) _ port)
