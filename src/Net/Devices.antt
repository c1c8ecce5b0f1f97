-- ===== src/Net/Devices.antt =====
-- The list of network devices (network_stack.c), and the two devices that register themselves
-- (loopback.c, nic_stub.c). Each walk along `next` takes fuel: a list of `n` devices needs `n + 1`.
pub mod Chain
pub mod Find
pub mod Edit
pub mod Unlink
pub mod Unregister
use nova.Base.{
  ℕ, zero, suc, Bool, true, false, Option, none, some, List, [], ◌∷◌, ◌==◌, if◌then◌else◌, get_or,
  replicate,
}
use nova.Base.Words.{ℤ, pos, negsuc}
use nova.Base.CString.{codes, str_eq, strncpy}
use nova.Net.State.{
  Ptr, null, Stats, lo_open, nic_open, lo_start_xmit, nic_start_xmit, OpenFn, DeviceOps, NetDevice,
  World, Cmd, pure, ◌>>=◌, ◌>>◌, get, put, load_dev, store_dev,
}
use nova.Net.Packets.{call_open, iff_up, iff_loopback, iff_running}

-- the loop of `nova_netdev_find`, and of the search in `nova_netdev_register`
unfoldable pub find_from : (Ptr → Option NetDevice) → ℕ → Ptr → List ℕ → Option Ptr
find_from h zero p name = none
find_from h (suc fuel) p name = if p == null then some null else elim (h p) [
  | none ↦ none
  | some d ↦ if str_eq d.name name then some p else find_from h fuel d.next name
]

abbrev pub search : ℕ → List ℕ → Cmd Ptr
search fuel name w = elim (find_from w.devices fuel w.registry name) [
  | none ↦ none
  | some p ↦ some (p, w)
]

unfoldable pub find : ℕ → Option (List ℕ) → Cmd Ptr
unfolding find_from
find fuel none = pure null
find fuel (some name) = search fuel name

abbrev pub open_of : NetDevice → Option OpenFn
open_of d = elim d.ops [ none ↦ none | some o ↦ o.on_open ]

abbrev pub try_open : Option OpenFn → Ptr → Cmd (Unit {0})
try_open none dev = pure tt
try_open (some f) dev = call_open f dev >>= λ _. pure tt

-- The device is linked in front of the list, and then opened.
unfoldable pub insert : Ptr → Cmd (Unit {0})
unfolding call_open
insert dev = do
  d ← load_dev dev
  w ← get
  store_dev dev (record d { next = w.registry })
  v ← get
  put (record v { registry = dev })
  try_open (open_of d) dev

unfoldable pub register : ℕ → Ptr → Cmd ℤ
unfolding find_from insert
register fuel dev = if dev == null then pure (negsuc 0) else do
  d ← load_dev dev
  if get_or d.name 0 0 == 0 then pure (negsuc 0) else do
    found ← search fuel d.name
    if found == null then (do insert dev; pure (pos 0)) else pure (negsuc 0)

-- `prev->next = next`, or the registry where there is no `prev`
abbrev pub relink : Ptr → Ptr → Cmd (Unit {0})
relink prev next =
    if prev == null
    then (do w ← get; put (record w { registry = next }))
    else do d ← load_dev prev; store_dev prev (record d { next = next })

-- Taking `curr` out: its successor is read before and after the predecessor is written.
unfoldable pub remove : Ptr → Ptr → Cmd (Unit {0})
remove prev curr = do
  c ← load_dev curr
  relink prev c.next
  d ← load_dev curr
  store_dev curr (record d { next = null })

unfoldable pub unregister_from : ℕ → Ptr → Ptr → Ptr → Cmd ℤ
unfolding remove
unregister_from zero dev prev curr = λ w. none
unregister_from (suc fuel) dev prev curr =
    if curr == null
    then pure (negsuc 0)
    else if curr == dev
    then (do remove prev curr; pure (pos 0))
    else do c ← load_dev curr; unregister_from fuel dev curr c.next

unfoldable pub unregister : ℕ → Ptr → Cmd ℤ
unfolding unregister_from
unregister fuel dev =
    if dev == null then pure (negsuc 0) else do w ← get; unregister_from fuel dev null w.registry

unfoldable pub unlink_all : ℕ → Ptr → Cmd (Unit {0})
unlink_all zero dev = λ w. none
unlink_all (suc fuel) dev =
    if dev == null
    then pure tt
    else do d ← load_dev dev; store_dev dev (record d { next = null }); unlink_all fuel d.next

unfoldable pub network_shutdown : ℕ → Cmd ℤ
unfolding unlink_all
network_shutdown fuel = do
  w ← get
  unlink_all fuel w.registry
  v ← get
  put (record v { registry = null; initialized = false })
  pure (pos 0)

abbrev pub no_stats : Stats
no_stats = record {
  rx_bytes = 0;
  rx_packets = 0;
  rx_errors = 0;
  rx_dropped = 0;
  tx_bytes = 0;
  tx_packets = 0;
  tx_errors = 0;
  tx_dropped = 0;
}

-- `strncpy` into the zeroed array of 16 bytes
abbrev pub device_name : List ℕ → List ℕ
device_name name = strncpy (replicate 16 0) name 15

-- `lo_dev` after the assignments of `nova_loopback_init`
abbrev pub fresh_lo : NetDevice
fresh_lo = record {
  name = device_name (codes "lo");
  mac = replicate 6 0;
  mtu = 65536;
  flags = 0x9;
  family = 0;
  ops = some (record { on_open = some lo_open; start_xmit = some lo_start_xmit });
  stats = no_stats;
  next = null;
}

-- `nic_dev` after the assignments of `nova_nic_stub_init`
abbrev pub fresh_nic : NetDevice
fresh_nic = record {
  name = device_name (codes "nic0");
  mac = 0x02 ∷ 0 ∷ 0 ∷ 0 ∷ 0 ∷ 0x01 ∷ [];
  mtu = 1500;
  flags = 0x41;
  family = 0;
  ops = some (record { on_open = some nic_open; start_xmit = some nic_start_xmit });
  stats = no_stats;
  next = null;
}

-- `lo` and `nic` are the addresses of the static objects `lo_dev` and `nic_dev`.
unfoldable pub loopback_init : ℕ → Ptr → Cmd ℤ
unfolding register
loopback_init fuel lo = do store_dev lo fresh_lo; register fuel lo

unfoldable pub nic_stub_init : ℕ → Ptr → Cmd ℤ
unfolding register
nic_stub_init fuel nic = do store_dev nic fresh_nic; register fuel nic
