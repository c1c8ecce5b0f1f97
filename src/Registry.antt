-- ===== src/Registry.antt =====
-- kernel/novakit/registry.c: the NovaKit device registry.
pub mod Inv
pub mod Laws
pub mod Listing
mod Examples
use nova.Base.{
  ℕ, ◌+◌, ◌-◌, Bool, ◌||◌, Option, none, some, List, ltb, ◌==◌, if◌then◌else◌, get_elem?, set,
  replicate,
}
use nova.Base.Words.{u32, u64, ℤ, pos, negsuc}
use nova.Base.CString.{strncpy}

abbrev pub max_devices : ℕ
max_devices = 64

abbrev pub name_length : ℕ
name_length = 48

pub data DeviceClass : Type 0 where
  storage network gpu input audio bus : DeviceClass

pub data DeviceState : Type 0 where
  detached attached : DeviceState

-- `name` is the whole array of 48 bytes.
pub record Device : Type 0 where
  pub id : ℕ
  pub vendor_id : ℕ
  pub device_id : ℕ
  pub class : DeviceClass
  pub state : DeviceState
  pub name : List ℕ

pub record Registry : Type 0 where
  pub devices : List Device
  pub count : ℕ

-- a device of zero bytes
abbrev pub zeroed : Device
zeroed = record {
  id = 0;
  vendor_id = 0;
  device_id = 0;
  class = storage;
  state = detached;
  name = replicate name_length 0;
}

-- `memset` over the whole registry
pub init : Registry
init = record { devices = replicate max_devices zeroed; count = 0 }

abbrev pub filled : Device → ℕ → ℕ → ℕ → DeviceClass → List ℕ → Device
filled old count vendor_id device_id class name = record {
  id = u32 (u32 count + 1);
  vendor_id = vendor_id;
  device_id = device_id;
  class = class;
  state = detached;
  name = set (strncpy old.name name (name_length - 1)) (name_length - 1) 0;
}

-- A slot outside the table holds no device; `Inv.IsValid` rules it out. The option is what goes
-- through `device_id_out`.
pub register_device : Registry → ℕ → ℕ → DeviceClass → List ℕ → ℤ × Option ℕ × Registry
register_device r vendor_id device_id class name =
    if r.count == max_devices then (negsuc 0, none, r) else elim (get_elem? r.devices r.count) [
      | none ↦ (negsuc 0, none, r)
      | some old ↦
          let device = filled old r.count vendor_id device_id class name in
          (
            pos 0,
            some device.id,
            record { devices = set r.devices r.count device; count = u64 (r.count + 1) },
          )
    ]

-- `device_id == 0 || device_id > registry->count`
abbrev pub bad_id : Registry → ℕ → Bool
bad_id r id = (id == 0) || ltb r.count id

-- What the pointer that `novakit_find` returns leads to; `none` for NULL.
pub find : Registry → ℕ → Option Device
find r id = if bad_id r id then none else get_elem? r.devices (id - 1)

pub set_state : Registry → ℕ → DeviceState → ℤ × Registry
set_state r id state = if bad_id r id then (negsuc 0, r) else elim (get_elem? r.devices (id - 1)) [
  | none ↦ (negsuc 0, r)
  | some d ↦ (pos 0, record r { devices = set r.devices (id - 1) (record d { state = state }) })
]
