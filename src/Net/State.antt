-- ===== src/Net/State.antt =====
-- The objects of kernel/network/network_stack.h at their addresses, the globals of network_stack.c,
-- and commands that read and write them.
use nova.Base.{ℕ, Bool, Option, none, some, List, ◌==◌, if◌then◌else◌}
use nova.Base.Words.{ℤ, pos}
pub use nova.Base.Heap.{Ptr, null, update}

pub record Stats : Type 0 where
  pub rx_bytes : ℕ
  pub rx_packets : ℕ
  pub rx_errors : ℕ
  pub rx_dropped : ℕ
  pub tx_bytes : ℕ
  pub tx_packets : ℕ
  pub tx_errors : ℕ
  pub tx_dropped : ℕ

-- The functions that an entry of a `nova_net_device_ops` can point to. The entries `stop`,
-- `set_mac` and `get_stats` are never called through it, and are left out.
pub data OpenFn : Type 0 where
  lo_open nic_open : OpenFn

pub data XmitFn : Type 0 where
  lo_start_xmit nic_start_xmit : XmitFn

pub record DeviceOps : Type 0 where
  pub on_open : Option OpenFn
  pub start_xmit : Option XmitFn

-- `name` is the array of 16 bytes, `mac` that of 6. `private_data` is never used.
pub record NetDevice : Type 0 where
  pub name : List ℕ
  pub mac : List ℕ
  pub mtu : ℕ
  pub flags : ℕ
  pub family : ℕ
  pub ops : Option DeviceOps
  pub stats : Stats
  pub next : Ptr

-- `data` is the buffer behind the pointer, which lives as long as the packet.
pub record Skb : Type 0 where
  pub bytes : List ℕ
  pub len : ℕ
  pub headroom : ℕ
  pub tailroom : ℕ
  pub dev : Ptr
  pub hash : ℕ
  pub protocol : ℕ
  pub priority : ℕ
  pub error : ℕ

-- `ops` and `private_data` are NULL in every socket, and are left out.
pub record Socket : Type 0 where
  pub family : ℤ
  pub type : ℤ
  pub protocol : ℤ
  pub state : ℕ
  pub flags : ℕ
  pub dev : Ptr

-- The objects at each address, and the four globals: the registry's first device, the socket table,
-- the next descriptor and the flag.
pub record World : Type 0 where
  pub devices : Ptr → Option NetDevice
  pub skbs : Ptr → Option Skb
  pub sockets : Ptr → Option Socket
  pub registry : Ptr
  pub table : List Ptr
  pub next_fd : ℕ
  pub initialized : Bool

-- `none` is a use of an address that holds no such object, NULL among them, or a loop that has used
-- up its fuel.
abbrev pub Cmd : Type 0 → Type 0
Cmd A = World → Option (A × World)

abbrev pub pure : {A : Type 0} → A → Cmd A
pure a w = some (a, w)

infixl 5 ◌>>=◌ ◌>>◌
abbrev pub ◌>>=◌ : {A B : Type 0} → Cmd A → (A → Cmd B) → Cmd B
◌>>=◌ m k w = elim (m w) [ none ↦ none | some (a, v) ↦ k a v ]

abbrev pub ◌>>◌ : {B : Type 0} → Cmd (Unit {0}) → Cmd B → Cmd B
m >> n = m >>= λ _. n

abbrev pub get : Cmd World
get w = some (w, w)

abbrev pub put : World → Cmd (Unit {0})
put v w = some (tt, v)

abbrev pub load_dev : Ptr → Cmd NetDevice
load_dev p w = if p == null then none else elim (w.devices p) [ none ↦ none | some d ↦ some (d, w) ]

abbrev pub store_dev : Ptr → NetDevice → Cmd (Unit {0})
store_dev p d w = some (tt, record w { devices = update w.devices p (some d) })

abbrev pub load_skb : Ptr → Cmd Skb
load_skb p w = if p == null then none else elim (w.skbs p) [ none ↦ none | some s ↦ some (s, w) ]

abbrev pub store_skb : Ptr → Option Skb → Cmd (Unit {0})
store_skb p s w = some (tt, record w { skbs = update w.skbs p s })

abbrev pub load_socket : Ptr → Cmd Socket
load_socket p w =
    if p == null then none else elim (w.sockets p) [ none ↦ none | some s ↦ some (s, w) ]

abbrev pub store_socket : Ptr → Option Socket → Cmd (Unit {0})
store_socket p s w = some (tt, record w { sockets = update w.sockets p s })

-- `return 0` behind a command
abbrev pub answer : Option (Unit {0} × World) → Option (ℤ × World)
answer o = elim o [ none ↦ none | some x ↦ some (pos 0, x.1) ]
