-- ===== src/Process/Loopback.antt =====
-- Sockets with the descriptor 3 alone and an inbox of datagrams, for concrete runs.
use my_auto_sar_ap.Prelude.{
  ℕ, ◌≡◌, refl, arith, Bool, true, false, ◌&&◌, Option, none, some, List, [], ◌∷◌, nat_eq, take,
  length, length-take, ◌≤◌, if◌then◌else◌,
}
use my_auto_sar_ap.Process.{Sockets, IsLawful, Sized}

-- Whether 3 is open, whether a bind succeeds, and the datagrams to come.
pub record Loop : Type 0 where
  pub in_use : Bool
  pub port_free : Bool
  pub inbox : List (List ℕ)

abbrev waiting : List (List ℕ) → Bool
waiting [] = false
waiting (buf ∷ bufs) = true

-- An empty datagram makes `recv` return 0.
abbrev whole : List ℕ → Option (List ℕ)
whole [] = none
whole (b ∷ buf) = some (b ∷ buf)

abbrev first : Loop → List (List ℕ) → ℕ → Loop × Option (List ℕ)
first s [] room = (s, none)
first s (buf ∷ bufs) room = (record s { inbox = bufs }, whole (take room buf))

abbrev pub loopback : Sockets
loopback = record {
  State = Loop;
  is_open = λ s k. s.in_use && nat_eq 3 k;
  socket = λ s. if s.in_use then (s, none) else (record s { in_use = true }, some 3);
  set_reuse = λ s fd. s;
  bind = λ s fd port. (s, s.port_free);
  shut_down = λ s fd. s;
  close = λ s fd. if nat_eq 3 fd then record s { in_use = false } else s;
  select = λ s fd. (s, waiting s.inbox);
  receive = λ s fd room. first s s.inbox room;
}

receive_keeps :
    (s : Loop) (bufs : List (List ℕ)) (room : ℕ) → (first s bufs room).0.in_use ≡ s.in_use
receive_keeps s [] room = refl
receive_keeps s (buf ∷ bufs) room = refl

whole-Sized : (buf : List ℕ) (room : ℕ) → length buf ≤ room → Sized (whole buf) room
whole-Sized [] room h = tt
whole-Sized (b ∷ buf) room h = (omega arith, h)

receive-Sized : (s : Loop) (bufs : List (List ℕ)) (room : ℕ) → Sized (first s bufs room).1 room
receive-Sized s [] room = tt
receive-Sized s (buf ∷ bufs) room =
    whole-Sized (take room buf) room (ground (arith, length-take room buf))

pub loopback-IsLawful : IsLawful loopback
loopback-IsLawful = record {
  open-socket = λ s k. ground arith;
  socket-new = λ s. ground arith;
  open-close = λ s fd k. ground arith;
  open-set_reuse = λ s fd k. refl;
  open-bind = λ s fd port k. refl;
  open-shut_down = λ s fd k. refl;
  open-select = λ s fd k. refl;
  open-receive = λ s fd room k. rw (receive_keeps s s.inbox room);
  receive-Sized = λ s fd room. receive-Sized s s.inbox room;
}
