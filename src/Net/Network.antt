-- ===== src/Net/Network.antt =====
-- What network_stack.c is for its callers: a list of devices and a table of sockets, with no pointers
-- to follow and no packets to free.
pub mod Reference
pub mod Devices
pub mod Adding
pub mod Drivers
pub mod Slots
pub mod Sockets
pub mod Attaching
pub mod Opening
pub mod Transmit
pub mod Sending
pub mod Length
pub mod Session
mod Examples
use nova.Base.{
  ℕ, ◌≡◌, ◌⊎◌, Bool, true, false, not, ◌&&◌, ◌||◌, Option, none, some, List, [], ◌∷◌, ◌==◌,
  if◌then◌else◌,
}
use nova.Net.State.{Ptr, null, NetDevice, Socket, World, Cmd, pure, ◌>>=◌}
use nova.Net.Devices.{find, register, unregister, network_shutdown, loopback_init, nic_stub_init}
use nova.Net.Devices.Chain.{Chain, has}
use nova.Net.Devices.Unlink.{unlinked}
use nova.Net.Sockets.{
  network_init, socket, bind, accept, getsockopt, setsockopt, connect, listen, shutdown, close,
  send, recv,
}
use nova.Net.Sockets.Inv.{IsValid, at_slot}
use nova.Net.Network.Reference.{
  Call, start, halt, add_device, drop_device, load_loopback, load_nic, find_device, open_socket,
  bind_to, accept_on, get_option, set_option, connect_to, listen_on, shut, close_socket, send_on,
  receive_on, Answer, code, address, received, Network, started, lo_in, expect_add, upto, reset,
  with_new, expect_open, socket_in, put_socket, attached, expect_check, expect_change, expect_over,
  expect_transmit, expect_send, expect_receive, expect, replies,
}

abbrev pub answered : {A : Type 0} → (A → Answer) → Cmd A → Cmd Answer
answered f m = m >>= λ x. pure (f x)

abbrev pub invoke : ℕ → Call → Cmd Answer
invoke fuel start = answered code network_init
invoke fuel halt = answered code (network_shutdown fuel)
invoke fuel (add_device dev) = answered code (register fuel dev)
invoke fuel (drop_device dev) = answered code (unregister fuel dev)
invoke fuel (load_loopback lo) = answered code (loopback_init fuel lo)
invoke fuel (load_nic nic) = answered code (nic_stub_init fuel nic)
invoke fuel (find_device name) = answered address (find fuel name)
invoke fuel (open_socket fresh domain type protocol) =
    answered code (socket fuel fresh domain type protocol)
invoke fuel (bind_to fd) = answered code (bind fd)
invoke fuel (accept_on fd) = answered code (accept fd)
invoke fuel (get_option fd) = answered code (getsockopt fd)
invoke fuel (set_option fd) = answered code (setsockopt fd)
invoke fuel (connect_to fd) = answered code (connect fuel fd)
invoke fuel (listen_on fd) = answered code (listen fd)
invoke fuel (shut fd) = answered code (shutdown fd)
invoke fuel (close_socket fd) = answered code (close fd)
invoke fuel (send_on fresh data_ok fd buf len) = answered code (send fuel fresh data_ok fd buf len)
invoke fuel (receive_on fd given len) = answered received (recv fd given len)

unfoldable pub run : ℕ → List Call → Cmd (List Answer)
run fuel [] = pure []
run fuel (c ∷ cs) = do a ← invoke fuel c; rest ← run fuel cs; pure (a ∷ rest)

-- the socket that a slot's pointer leads to
abbrev pub socket_at : World → ℕ → Option Socket
socket_at w i = if at_slot w i == null then none else w.sockets (at_slot w i)

-- The device of a socket, if it has one, is there.
abbrev pub HasDevice : (Ptr → Option NetDevice) → Ptr → Type 0
HasDevice h p = (p ≡ null) ⊎ ((d : NetDevice) × (h p ≡ some d))

pub record Shows (w : World) (n : Network) : Type 0 where
  pub chain : Chain w.devices w.registry n.listed
  pub devices : (p : Ptr) → unlinked (w.devices p) ≡ n.infos p
  pub valid : IsValid w
  pub sockets : (i : ℕ) → socket_at w i ≡ n.sockets i
  pub reach : (i : ℕ) (s : Socket) → n.sockets i ≡ some s → HasDevice n.infos s.dev
  pub next : w.next_fd ≡ n.next_fd
  pub up : w.initialized ≡ n.up

-- The command gives the value, in a state that shows the network.
abbrev pub Gives : {A : Type 0} → Cmd A → World → A → Network → Type 0
Gives m w a n = (v : World) × (m w ≡ some (a, v)) × Shows v n

abbrev pub Meets : Cmd Answer → World → Answer × Network → Type 0
Meets m w e = Gives m w e.0 e.1

abbrev pub is_some : {A : Type 0} → Option A → Bool
is_some none = false
is_some (some d) = true

-- What a call needs of the state: a device that is added is there, that of a driver is not NULL, and
-- an allocation of a socket gives NULL or an address that holds none.
abbrev pub fits : Call → World → Bool
fits (add_device dev) w = (dev == null) || is_some (w.devices dev)
fits (load_loopback lo) w = not (lo == null)
fits (load_nic nic) w = not (nic == null)
fits (open_socket fresh domain type protocol) w = (fresh == null) || not (is_some (w.sockets fresh))
fits c w = true

-- so at each call, in the state that the calls before it leave
abbrev pub all_fit : ℕ → List Call → World → Bool
all_fit fuel [] w = true
all_fit fuel (c ∷ cs) w =
    fits c w && elim (invoke fuel c w) [ none ↦ true | some x ↦ all_fit fuel cs x.1 ]
