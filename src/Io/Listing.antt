-- ===== src/Io/Listing.antt =====
-- What the registry of io_stack.c is for its callers: a list of devices, with no links and no lock.
pub mod Lookups
pub mod Register
pub mod Steps
pub mod Session
use nova.Base.{
  ℕ, zero, suc, ◌+◌, ◌≡◌, Bool, true, false, not, ◌&&◌, ◌||◌, Option, none, some, List, [], ◌∷◌,
  ◌==◌, if◌then◌else◌, get_or,
}
use nova.Base.Words.{u32, ℤ, pos, negsuc}
use nova.Base.CString.{str_eq}
use nova.Base.Heap.{update, has, without}
use nova.Io.State.{Ptr, null, Device, World, Cmd, pure, ◌>>=◌}
use nova.Io.Registry.{
  io_init, io_shutdown, device_register, device_unregister, device_find, device_get_by_major_minor,
}
use nova.Io.Registry.Shutdown.{freed}
use nova.Io.Registry.Unlink.{unlinked}
use nova.Io.Chain.{Chain, first_where}

pub data Call : Type 0 where
  init shutdown : Call
  register unregister : Ptr → Call
  find : Option (List ℕ) → Call
  get_by_number : ℕ → ℕ → Call

pub data Answer : Type 0 where
  code : ℤ → Answer
  address : Ptr → Answer

abbrev pub invoke : ℕ → Call → Cmd Answer
invoke fuel init = do c ← io_init; pure (code c)
invoke fuel shutdown = do c ← io_shutdown fuel; pure (code c)
invoke fuel (register dev) = do c ← device_register dev; pure (code c)
invoke fuel (unregister dev) = do c ← device_unregister fuel dev; pure (code c)
invoke fuel (find path) = do p ← device_find fuel path; pure (address p)
invoke fuel (get_by_number major minor) = do
  p ← device_get_by_major_minor fuel major minor
  pure (address p)

unfoldable pub run : ℕ → List Call → Cmd (List Answer)
run fuel [] = pure []
run fuel (c ∷ cs) = do a ← invoke fuel c; rest ← run fuel cs; pure (a ∷ rest)

-- The devices, without links, and the addresses of the registered ones, the last one first.
pub record Listing : Type 0 where
  pub infos : Ptr → Option Device
  pub listed : List Ptr
  pub next_major : ℕ
  pub initialized : Bool

-- the device is listed, with a number
abbrev pub enlist : Ptr → Device → Listing → Listing
enlist dev d l = record l {
  infos =
      update l.infos dev
        (some (record d { major = if d.major == 0 then l.next_major else d.major }));
  listed = dev ∷ l.listed;
  next_major = if d.major == 0 then u32 (l.next_major + 1) else l.next_major;
}

abbrev pub expect_register : Ptr → Option Device → Listing → Answer × Listing
expect_register dev none l = (code (negsuc 0), l)
expect_register dev (some d) l =
    if get_or d.name 0 0 == 0 then (code (negsuc 0), l) else (code (pos 0), enlist dev d l)

abbrev pub expect_init : Bool → Listing → Listing
expect_init true l = l
expect_init false l = record l { listed = []; next_major = 1; initialized = true }

abbrev pub expect_shutdown : Bool → Listing → Listing
expect_shutdown false l = l
expect_shutdown true l = record l {
  infos = freed l.infos l.listed;
  listed = [];
  initialized = false;
}

-- a device at a path, and one with a pair of numbers
abbrev pub stands_at : List ℕ → Device → Bool
stands_at path d = str_eq d.path path

abbrev pub is_numbered : ℕ → ℕ → Device → Bool
is_numbered major minor d = (d.major == major) && (d.minor == minor)

-- what a call answers, and what it leaves
abbrev pub expect : Call → Listing → Answer × Listing
expect init l = (code (pos 0), expect_init l.initialized l)
expect shutdown l = (code (pos 0), expect_shutdown l.initialized l)
expect (register dev) l =
    if dev == null then (code (negsuc 0), l) else expect_register dev (l.infos dev) l
expect (unregister dev) l =
    if has l.listed dev
    then (code (pos 0), record l { listed = without l.listed dev })
    else (code (negsuc 0), l)
expect (find none) l = (address null, l)
expect (find (some path)) l = (address (first_where l.infos (stands_at path) l.listed), l)
expect (get_by_number major minor) l =
    (address (first_where l.infos (is_numbered major minor) l.listed), l)

abbrev pub replies : List Call → Listing → (List Answer) × Listing
replies [] l = ([], l)
replies (c ∷ cs) l =
    let (a, l') = expect c l in let (rest, last) = replies cs l' in (a ∷ rest, last)

-- Only an address of a device that is not listed may be registered, or NULL.
abbrev pub is_some : Option Device → Bool
is_some none = false
is_some (some d) = true

abbrev pub fits : Call → Listing → Bool
fits (register dev) l = (dev == null) || (not (has l.listed dev) && is_some (l.infos dev))
fits (unregister dev) l = true
fits init l = true
fits shutdown l = true
fits (find path) l = true
fits (get_by_number major minor) l = true

abbrev pub all_fit : List Call → Listing → Bool
all_fit [] l = true
all_fit (c ∷ cs) l = fits c l && all_fit cs (expect c l).1

-- The state has the devices of the listing and the list as its chain, and the lock is free.
pub record Shows (w : World) (l : Listing) : Type 0 where
  pub chain : Chain w.devices w.registry l.listed
  pub free : w.locked ≡ false
  pub kept : (r : Ptr) → unlinked (w.devices r) ≡ l.infos r
  pub numbers : w.next_major ≡ l.next_major
  pub started : w.initialized ≡ l.initialized

-- The command gives what is expected, in a state that shows what is expected.
abbrev pub Meets : {A : Type 0} → Cmd A → World → A × Listing → Type 0
Meets m w e = (v : World) × (m w ≡ some (e.0, v)) × Shows v e.1
