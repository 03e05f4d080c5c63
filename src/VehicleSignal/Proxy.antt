-- ===== src/VehicleSignal/Proxy.antt =====
-- The proxy's socket and receive thread (include/ara/com/vehicle_signal_proxy.h,
-- src/ara/com/vehicle_signal_proxy.cpp). A pass of the thread and a method of the proxy do not overlap
-- here; the thread that a proxy starts is `rx_thread`.
use my_auto_sar_ap.Prelude.{
  ℕ, ◌+◌, ◌*◌, ◌/◌, ◌%◌, Bool, true, false, not, ◌&&◌, Option, none, some, List, length, get_or,
  take, nat_eq, if◌then◌else◌,
}
use my_auto_sar_ap.E2e.{e2e_crc8}
use my_auto_sar_ap.Log
use my_auto_sar_ap.Process.{
  Sockets, Process, socket_failed, bind_failed, listening, crc_mismatch, raw_rx, print,
  create_and_write,
}
use my_auto_sar_ap.VehicleSignal.{
  VehicleSignalProxy, Stats, new_event, new_stats, parse_and_dispatch, count_packet,
  count_parse_error, early_return, crc_matches, raw_payload,
}

abbrev pub idle_proxy : VehicleSignalProxy
idle_proxy = record {
  instance = "VehicleSignalService.0x01";
  vehicle_signal = new_event;
  sock_fd = none;
  rx_thread = false;
  running = false;
  stats = new_stats;
}

-- The two bytes of the port, swapped.
unfoldable pub network_port : ℕ → ℕ
network_port port = (port % 256 * 256 + port / 256 % 256) % 65536

unfoldable pub get_stats : VehicleSignalProxy → Stats
get_stats p = p.stats

abbrev pub buf_size : ℕ
buf_size = 1024

module _ {S : Sockets} where
  -- The rest of the constructor, for a socket that was made.
  abbrev pub bind_and_listen : Process S → ℕ → ℕ → Process S × VehicleSignalProxy
  bind_and_listen w fd port =
      let (os, bound) = S.bind (S.set_reuse (S.set_reuse w.os fd) fd) fd (network_port port) in
      if not bound
      then (let w' : Process S =
            create_and_write (record w { os = os }) "COM" "ara.com" Log.error (bind_failed port) in
          (record w' { os = S.close w'.os fd }, idle_proxy))
      else (
        create_and_write (record w { os = os }) "COM" "ara.com" Log.info (listening port),
        record idle_proxy { sock_fd = some fd; running = true; rx_thread = true },
      )

  abbrev pub with_socket : Process S → Option ℕ → ℕ → Process S × VehicleSignalProxy
  with_socket w none port = (create_and_write w "COM" "ara.com" Log.error socket_failed, idle_proxy)
  with_socket w (some fd) port = bind_and_listen w fd port

  -- The constructor.
  unfoldable pub make_proxy : Process S → ℕ → Process S × VehicleSignalProxy
  make_proxy w port = let (os, fd) = S.socket w.os in with_socket (record w { os = os }) fd port

  abbrev pub close_socket : Process S → Option ℕ → Process S
  close_socket w none = w
  close_socket w (some fd) = record w { os = S.close (S.shut_down w.os fd) fd }

  -- The destructor, which waits for the thread to end.
  unfoldable pub destroy_proxy : Process S → VehicleSignalProxy → Process S
  destroy_proxy w p = close_socket w p.sock_fd

  abbrev pub unless_failed :
      Process S → VehicleSignalProxy → Option ℕ → Process S × Option VehicleSignalProxy
  unless_failed w p none = (destroy_proxy w p, none)
  unless_failed w p (some fd) = (w, some p)

  -- `none` is the null pointer.
  unfoldable pub find_service : Process S → ℕ → Process S × Option VehicleSignalProxy
  find_service w port = let (w', p) = make_proxy w port in unless_failed w' p p.sock_fd

  -- The line that is printed for the first of every ten packets.
  abbrev pub print_raw : Process S → ℕ → ℕ → Process S
  print_raw w n total = if nat_eq (total % 10) 1 then print w (raw_rx n total) else w

  -- The line that `ParseAndDispatch` logs for a wrong checksum.
  abbrev pub log_mismatch : Process S → List ℕ → Option Bool → Process S
  log_mismatch w buf (some accepted) = w
  log_mismatch w buf none =
      let raw = raw_payload buf in
      if crc_matches raw
      then w
      else create_and_write w "COM" "ara.com" Log.warn
          (crc_mismatch (e2e_crc8 (take 18 raw)) (get_or raw 18 0) (get_or raw 19 0))

  abbrev pub with_process :
      Process S → Option VehicleSignalProxy → Option (Process S × VehicleSignalProxy)
  with_process w none = none
  with_process w (some p) = some (w, p)

  -- A pass with the result of `recv`.
  unfoldable pub take_datagram :
      Process S → VehicleSignalProxy → Option (List ℕ) → Option (Process S × VehicleSignalProxy)
  take_datagram w p none = some (w, p)
  take_datagram w p (some buf) =
      let counted = count_packet p (length buf) in
      let w' = print_raw w (length buf) counted.stats.rx_packets in
      with_process (log_mismatch w' buf (early_return buf))
        (count_parse_error (parse_and_dispatch counted buf))

  abbrev pub when_ready :
      Process S → VehicleSignalProxy → ℕ → Bool → Option (Process S × VehicleSignalProxy)
  when_ready w p fd false = some (w, p)
  when_ready w p fd true =
      let (os, datagram) = S.receive w.os fd buf_size in
      take_datagram (record w { os = os }) p datagram

  abbrev pub wait_for :
      Process S → VehicleSignalProxy → Option ℕ → Option (Process S × VehicleSignalProxy)
  wait_for w p none = some (w, p)
  wait_for w p (some fd) =
      let (os, ready) = S.select w.os fd in when_ready (record w { os = os }) p fd ready

  -- One pass of `RxThreadFunc`, of a thread that runs; `none` is undefined.
  unfoldable pub rx_pass : Process S → VehicleSignalProxy → Option (Process S × VehicleSignalProxy)
  rx_pass w p = if p.running && p.rx_thread then wait_for w p p.sock_fd else some (w, p)
