-- ===== src/Io/Registry.antt =====
-- The device registry of io_stack.c: a list under a lock. Each walk along `next` takes fuel: a list of
-- `n` devices needs `n + 1`. One thread is modelled, so a lock that is held is waited for in vain.
pub mod Backlink
pub mod Find
pub mod Register
pub mod Shutdown
pub mod Unlink
pub mod Unregister
use nova.Base.{
  ℕ, zero, suc, ◌+◌, Bool, true, false, not, ◌&&◌, Option, none, some, List, ◌==◌, if◌then◌else◌,
  get_or,
}
use nova.Base.Words.{u32, ℤ, pos, negsuc}
use nova.Base.CString.{str_eq}
use nova.Io.State.{Ptr, null, Device, World, Cmd, pure, ◌>>=◌, ◌>>◌, get, put, load_dev, store_dev}

unfoldable pub lock_registry : Cmd (Unit {0})
lock_registry w = elim w.locked [ true ↦ none | false ↦ some (tt, record w { locked = true }) ]

unfoldable pub unlock_registry : Cmd (Unit {0})
unlock_registry w = some (tt, record w { locked = false })

abbrev pub init_new : Bool → Cmd ℤ
init_new true = pure (pos 0)
init_new false = do
  w ← get
  put (record w { registry = null; next_major = 1; initialized = true })
  pure (pos 0)

unfoldable pub io_init : Cmd ℤ
io_init = do w ← get; init_new w.initialized

unfoldable pub free_all : ℕ → Ptr → Cmd (Unit {0})
free_all zero dev = λ w. none
free_all (suc fuel) dev =
    if dev == null then pure tt else do d ← load_dev dev; store_dev dev none; free_all fuel d.next

abbrev pub shut_down : ℕ → Bool → Cmd ℤ
shut_down fuel false = pure (pos 0)
shut_down fuel true = do
  lock_registry
  w ← get
  free_all fuel w.registry
  v ← get
  put (record v { registry = null })
  unlock_registry
  x ← get
  put (record x { initialized = false })
  pure (pos 0)

unfoldable pub io_shutdown : ℕ → Cmd ℤ
unfolding lock_registry unlock_registry free_all
io_shutdown fuel = do w ← get; shut_down fuel w.initialized

-- `if (dev->major == 0) dev->major = g_next_major++`
abbrev pub assign_major : Ptr → Cmd (Unit {0})
assign_major dev = do
  d ← load_dev dev
  if not (d.major == 0) then pure tt else do
    w ← get
    store_dev dev (some (record d { major = w.next_major }))
    v ← get
    put (record v { next_major = u32 (w.next_major + 1) })

-- `p->prev = prev`, unless `p` is NULL
abbrev pub set_prev : Ptr → Ptr → Cmd (Unit {0})
set_prev p prev =
    if p == null then pure tt else do d ← load_dev p; store_dev p (some (record d { prev = prev }))

-- the device becomes the first of the list
abbrev pub link_first : Ptr → Cmd (Unit {0})
link_first dev = do
  d ← load_dev dev
  w ← get
  store_dev dev (some (record d { next = w.registry }))
  set_prev w.registry dev
  v ← get
  put (record v { registry = dev })

unfoldable pub device_register : Ptr → Cmd ℤ
unfolding lock_registry unlock_registry
device_register dev = if dev == null then pure (negsuc 0) else do
  d ← load_dev dev
  if get_or d.name 0 0 == 0
      then pure (negsuc 0)
      else do lock_registry; assign_major dev; link_first dev; unlock_registry; pure (pos 0)

-- `prev->next = next`, or the registry where there is no `prev`
abbrev pub relink : Ptr → Ptr → Cmd (Unit {0})
relink prev next =
    if prev == null
    then (do w ← get; put (record w { registry = next }))
    else do d ← load_dev prev; store_dev prev (some (record d { next = next }))

-- `curr` is taken out; its own links stay.
unfoldable pub take_out : Ptr → Ptr → Cmd (Unit {0})
take_out prev curr = do
  c ← load_dev curr
  relink prev c.next
  c' ← load_dev curr
  set_prev c'.next prev

unfoldable pub unregister_from : ℕ → Ptr → Ptr → Ptr → Cmd ℤ
unfolding take_out unlock_registry
unregister_from zero dev prev curr = λ w. none
unregister_from (suc fuel) dev prev curr =
    if curr == null
    then (do unlock_registry; pure (negsuc 0))
    else if curr == dev
    then (do take_out prev curr; unlock_registry; pure (pos 0))
    else do c ← load_dev curr; unregister_from fuel dev curr c.next

unfoldable pub device_unregister : ℕ → Ptr → Cmd ℤ
unfolding lock_registry unregister_from
device_unregister fuel dev =
    if dev == null
    then pure (negsuc 0)
    else do lock_registry; w ← get; unregister_from fuel dev null w.registry

-- the loops of `nova_device_find` and `nova_device_get_by_major_minor`, with their tests
unfoldable pub find_where : (Ptr → Option Device) → (Device → Bool) → ℕ → Ptr → Option Ptr
find_where h test zero p = none
find_where h test (suc fuel) p = if p == null then some null else elim (h p) [
  | none ↦ none
  | some d ↦ if test d then some p else find_where h test fuel d.next
]

abbrev pub search : (Device → Bool) → ℕ → Cmd Ptr
search test fuel w = elim (find_where w.devices test fuel w.registry) [
  | none ↦ none
  | some p ↦ some (p, w)
]

abbrev pub locked_search : (Device → Bool) → ℕ → Cmd Ptr
locked_search test fuel = do lock_registry; p ← search test fuel; unlock_registry; pure p

abbrev pub has_path : List ℕ → Device → Bool
has_path path d = str_eq d.path path

abbrev pub has_number : ℕ → ℕ → Device → Bool
has_number major minor d = (d.major == major) && (d.minor == minor)

unfoldable pub device_find : ℕ → Option (List ℕ) → Cmd Ptr
unfolding lock_registry unlock_registry find_where
device_find fuel none = pure null
device_find fuel (some path) = locked_search (has_path path) fuel

unfoldable pub device_get_by_major_minor : ℕ → ℕ → ℕ → Cmd Ptr
unfolding lock_registry unlock_registry find_where
device_get_by_major_minor fuel major minor = locked_search (has_number major minor) fuel
