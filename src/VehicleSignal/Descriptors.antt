-- ===== src/VehicleSignal/Descriptors.antt =====
-- The descriptors of a process that makes and destroys proxies (src/ara/com/vehicle_signal_proxy.cpp).
use my_auto_sar_ap.Prelude.{
  ℕ, ◌≡◌, refl, sym, ap, ◌∙◌, arith, Bool, true, false, ◌&&◌, ◌||◌, Option, none, some, inl, inr,
  nat_eq, nat_eq_iff, Bool-cases, if◌then◌else◌,
}
use my_auto_sar_ap.Process.{Sockets, IsLawful, Process, opened, is_new, write, create_and_write}
use my_auto_sar_ap.VehicleSignal.{VehicleSignalProxy}
use my_auto_sar_ap.VehicleSignal.Proxy.{
  make_proxy, destroy_proxy, find_service, network_port, with_socket, bind_and_listen, close_socket,
  unless_failed,
}

-- Whether the descriptor k is that of a proxy, if there is one.
abbrev pub held : Option VehicleSignalProxy → ℕ → Bool
held none k = false
held (some p) k = opened p.sock_fd k

module _ (S : Sockets) (lawful : IsLawful S) (k : ℕ) where
  -- The descriptor k is open if it was at first, `before`, or if it is one that was opened since.
  pub record Adds (before : Bool) (s : S.State) (since : Bool) : Type 0 where
    pub table : S.is_open s k ≡ (before || since)
    pub apart : (before && since) ≡ false

  pub same_table :
      (before since : Bool) (s s' : S.State)
      → S.is_open s' k ≡ S.is_open s k
      → Adds before s since
      → Adds before s' since
  same_table before since s s' e a = record { table = e ∙ a.table; apart = a.apart }

  pub close-Adds :
      (before : Bool) (s : S.State) (fd : ℕ)
      → Adds before s (nat_eq fd k)
      → Adds before (S.close s fd) false
  close-Adds before s fd a = record {
    table = ground (arith, lawful.open-close s fd k, a.table, a.apart);
    apart = ground arith;
  }

  open-bind_steps :
      (s : S.State) (fd port : ℕ)
      → S.is_open (S.bind (S.set_reuse (S.set_reuse s fd) fd) fd port).0 k ≡ S.is_open s k
  open-bind_steps s fd port =
      lawful.open-bind _ fd port k ∙ lawful.open-set_reuse _ fd k ∙ lawful.open-set_reuse s fd k

  abbrev Made : Bool → Process S × VehicleSignalProxy → Type 0
  Made before r = Adds before r.0.os (opened r.1.sock_fd k)

  if-Made :
      (b before : Bool) (x y : Process S × VehicleSignalProxy)
      → Made before x
      → Made before y
      → Made before (if b then x else y)
  if-Made true before x y hx hy = hx
  if-Made false before x y hx hy = hy

  bind-Made :
      (w : Process S) (before : Bool) (fd port : ℕ)
      → Adds before w.os (nat_eq fd k)
      → Made before (bind_and_listen w fd port)
  unfolding create_and_write write
  bind-Made w before fd port a =
      let bound =
        same_table before (nat_eq fd k) w.os _ (open-bind_steps w.os fd (network_port port)) a in
      if-Made _ before _ _ (close-Adds before _ fd bound) bound

  socket-Made :
      (w : Process S) (before : Bool) (o : Option ℕ) (port : ℕ)
      → Adds before w.os (opened o k)
      → Made before (with_socket w o port)
  unfolding create_and_write write
  socket-Made w before none port a = a
  socket-Made w before (some fd) port a = bind-Made w before fd port a

  new-apart :
      (table : ℕ → Bool) (o : Option ℕ) → is_new table o ≡ true → (table k && opened o k) ≡ false
  new-apart table none h = ground arith
  new-apart table (some fd) h = elim (Bool-cases (nat_eq fd k)) [
    | inr other ↦ rw other (ground arith)
    | inl same ↦
        let closed : table k ≡ false = ap table (sym ((nat_eq_iff fd k).0 same)) ∙ ground arith in
        rw closed refl
  ]

  make_proxy-Made : (w : Process S) (port : ℕ) → Made (S.is_open w.os k) (make_proxy w port)
  unfolding make_proxy
  make_proxy-Made w port = socket-Made _ (S.is_open w.os k) _ port (record {
    table = lawful.open-socket w.os k;
    apart = new-apart (S.is_open w.os) _ (lawful.socket-new w.os);
  })

  unless-Adds :
      (w : Process S) (p : VehicleSignalProxy) (o : Option ℕ) (before : Bool)
      → p.sock_fd ≡ o
      → Adds before w.os (opened o k)
      → Adds before (unless_failed w p o).0.os (held (unless_failed w p o).1 k)
  unfolding destroy_proxy
  unless-Adds w p none before e a = rw e a
  unless-Adds w p (some fd) before e a = rw e a

  -- `FindService` opens the descriptor of the proxy that it gives and no other.
  pub find_service-Adds :
      (w : Process S) (port : ℕ)
      → Adds (S.is_open w.os k) (find_service w port).0.os (held (find_service w port).1 k)
  unfolding find_service
  find_service-Adds w port = unless-Adds _ _ _ (S.is_open w.os k) refl (make_proxy-Made w port)

  close_socket-Adds :
      (w : Process S) (before : Bool) (o : Option ℕ)
      → Adds before w.os (opened o k)
      → Adds before (close_socket w o).os false
  close_socket-Adds w before none a = a
  close_socket-Adds w before (some fd) a =
      close-Adds before _ fd (same_table before _ w.os _ (lawful.open-shut_down w.os fd k) a)

  -- The destructor closes the descriptor of the proxy.
  pub destroy_proxy-Adds :
      (w : Process S) (p : VehicleSignalProxy) (before : Bool)
      → Adds before w.os (opened p.sock_fd k)
      → Adds before (destroy_proxy w p).os false
  unfolding destroy_proxy
  destroy_proxy-Adds w p before a = close_socket-Adds w before p.sock_fd a
