-- ===== src/Io/State.antt =====
-- The objects of kernel/io/io_stack.h at their addresses, the globals of io_stack.c, and commands that
-- read and write them.
use nova.Base.{ℕ, Bool, Option, none, some, List, ◌==◌, if◌then◌else◌}
use nova.Base.Words.{ℤ}
use nova.Base.Heap.{update}
pub use nova.Base.Heap.{Ptr, null}

pub data IoType : Type 0 where
  read write ioctl flush discard : IoType

pub data Status : Type 0 where
  pending success error cancelled : Status

pub data DeviceType : Type 0 where
  block char network framebuffer input audio : DeviceType

-- The function that `submit_io` points to is the driver's; it is given by its address. The other
-- entries are never called.
pub record BlockOps : Type 0 where
  pub submit_io : Option Ptr

-- `block_ops` is the one member of the union that the code reads, and is NULL or the operations.
-- `private_data` and `parent` are never used. The code writes a link `prev`, which the structure of
-- the header does not declare; it is a field here.
pub record Device : Type 0 where
  pub name : List ℕ
  pub path : List ℕ
  pub type : DeviceType
  pub major : ℕ
  pub minor : ℕ
  pub ref_count : ℤ
  pub flags : ℤ
  pub block_ops : Option BlockOps
  pub next : Ptr
  pub prev : Ptr

-- `callback`, `callback_ctx` and `completion` stay NULL and are never read.
pub record Request : Type 0 where
  pub type : Option IoType
  pub status : Status
  pub device : Ptr
  pub offset : ℕ
  pub buffer : Ptr
  pub length : ℕ
  pub flags : ℕ
  pub timeout_ms : ℕ
  pub error_code : ℤ

-- `queue` stays NULL and is never read.
pub record Port : Type 0 where
  pub max_events : ℕ
  pub timeout_ms : ℕ

pub record World : Type 0 where
  pub devices : Ptr → Option Device
  pub requests : Ptr → Option Request
  pub ports : Ptr → Option Port
  pub registry : Ptr
  pub next_major : ℕ
  pub initialized : Bool
  pub locked : Bool

-- `none` is a use of an address that holds no such object, a loop that has used up its fuel, or a
-- wait for the lock that nobody will release.
abbrev pub Cmd : Type 0 → Type 0
Cmd A = World → Option (A × World)

abbrev pub pure : {A : Type 0} → A → Cmd A
pure a w = some (a, w)

infixl 5 ◌>>=◌ ◌>>◌
abbrev pub ◌>>=◌ : {A B : Type 0} → Cmd A → (A → Cmd B) → Cmd B
◌>>=◌ m k w = elim (m w) [ none ↦ none | some (a, v) ↦ k a v ]

abbrev pub ◌>>◌ : {B : Type 0} → Cmd (Unit {0}) → Cmd B → Cmd B
m >> n = m >>= λ _. n

abbrev pub get : Cmd World
get w = some (w, w)

abbrev pub put : World → Cmd (Unit {0})
put v w = some (tt, v)

abbrev pub load_dev : Ptr → Cmd Device
load_dev p w = if p == null then none else elim (w.devices p) [ none ↦ none | some d ↦ some (d, w) ]

abbrev pub store_dev : Ptr → Option Device → Cmd (Unit {0})
store_dev p d w = some (tt, record w { devices = update w.devices p d })

abbrev pub load_req : Ptr → Cmd Request
load_req p w =
    if p == null then none else elim (w.requests p) [ none ↦ none | some r ↦ some (r, w) ]

abbrev pub store_req : Ptr → Option Request → Cmd (Unit {0})
store_req p r w = some (tt, record w { requests = update w.requests p r })
