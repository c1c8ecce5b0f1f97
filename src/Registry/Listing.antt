-- ===== src/Registry/Listing.antt =====
-- The list of devices that the registry promises to be.
pub mod Positions
pub mod Session
use nova.Base.{
  ℕ, zero, suc, ◌+◌, ◌-◌, ◌≡◌, Option, none, some, List, [], ◌∷◌, ◌++◌, length, take, get_elem?,
  set, ◌==◌, if◌then◌else◌,
}
use nova.Base.Words.{ℤ, pos, negsuc}
use nova.Base.CString.{until_nul}
use nova.Registry.{
  DeviceClass, DeviceState, detached, Registry, max_devices, register_device, set_state,
}
use nova.Registry.Inv.{IsValid}
use nova.Registry.Laws.{Info, lookup, with_info}

pub data Call : Type 0 where
  registers : ℕ → ℕ → DeviceClass → List ℕ → Call
  finds : ℕ → Call
  sets : ℕ → DeviceState → Call

pub data Answer : Type 0 where
  numbered : ℤ × Option ℕ → Answer
  device : Option Info → Answer
  status : ℤ → Answer

-- The calls, with what they return and give through pointers.
unfoldable pub step : Registry → Call → Answer × Registry
step r (registers vendor_id device_id class name) =
    let (c, out, r') = register_device r vendor_id device_id class name in (numbered (c, out), r')
step r (finds id) = (device (lookup r id), r)
step r (sets id state) = let (c, r') = set_state r id state in (status c, r')

unfoldable pub run : Registry → List Call → (List Answer) × Registry
unfolding step
run r [] = ([], r)
run r (c ∷ cs) = let (a, r') = step r c in let (rest, last) = run r' cs in (a ∷ rest, last)

-- The device of an id: ids count from 1, in the order of registration.
abbrev pub nth : List Info → ℕ → Option Info
nth items zero = none
nth items (suc i) = get_elem? items i

abbrev pub expect_state : List Info → Option Info → ℕ → DeviceState → Answer × List Info
expect_state items none id state = (status (negsuc 0), items)
expect_state items (some d) id state = (status (pos 0), set items (id - 1) (with_info state d))

-- Up to 64 devices are listed, each with the next id, detached and with its name cut to 47 bytes.
abbrev pub expect : List Info → Call → Answer × List Info
expect items (registers vendor_id device_id class name) =
    if length items == max_devices
    then (numbered (negsuc 0, none), items)
    else let id = length items + 1 in
      (
        numbered (pos 0, some id),
        items ++ ((id, vendor_id, device_id, class, detached, take 47 (until_nul name)) ∷ []),
      )
expect items (finds id) = (device (nth items id), items)
expect items (sets id state) = expect_state items (nth items id) id state

abbrev pub replies : List Info → List Call → (List Answer) × List Info
replies items [] = ([], items)
replies items (c ∷ cs) =
    let (a, items') = expect items c in let (rest, last) = replies items' cs in (a ∷ rest, last)

pub record Shows (r : Registry) (items : List Info) : Type 0 where
  pub valid : IsValid r
  pub number : r.count ≡ length items
  pub same : (id : ℕ) → lookup r id ≡ nth items id
