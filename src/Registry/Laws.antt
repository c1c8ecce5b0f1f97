-- ===== src/Registry/Laws.antt =====
-- What a client sees of the registry through `novakit_find`.
use mathlib.Core.Option
use nova.Base.{
  ℕ, ◌+◌, ◌-◌, ◌<◌, ◌≡◌, refl, ◌↔◌, ◌≢◌, ◌⊎◌, inl, inr, Option, none, some, List, arith, length,
  take, ◌==◌, if◌then◌else◌, get_elem?-set_self, get_elem?-set_ne, Bool-cases,
}
use nova.Base.Words.{pos, negsuc}
use nova.Base.CString.{until_nul, until_nul-strncpy}
use nova.Registry.{
  Device, DeviceClass, DeviceState, detached, Registry, max_devices, name_length, filled,
  register_device, find,
}
use nova.Registry.Inv.{At, IsValid, registered, register_device-cases, find-cases, with_state}

-- What a client reads of a device: its name is the string in the array.
abbrev pub Info : Type 0
Info = ℕ × ℕ × ℕ × DeviceClass × DeviceState × List ℕ

abbrev pub info : Device → Info
info d = (d.id, d.vendor_id, d.device_id, d.class, d.state, until_nul d.name)

abbrev pub lookup : Registry → ℕ → Option Info
lookup r id = Option.map info (find r id)

name-filled :
    (old : Device) (count vendor_id device_id : ℕ) (class : DeviceClass) (name : List ℕ)
    → length old.name ≡ name_length
    → until_nul (filled old count vendor_id device_id class name).name ≡ take 47 (until_nul name)
name-filled old count vendor_id device_id class name h = until_nul-strncpy old.name name 47 h

pub find-registered :
    (r : Registry) (old : Device) (vendor_id device_id : ℕ) (class : DeviceClass) (name : List ℕ)
    (id : ℕ)
    → IsValid r
    → At r r.count old
    → r.count < max_devices
    → lookup (registered r old vendor_id device_id class name) id ≡ (
        if id == r.count + 1
        then some (r.count + 1, vendor_id, device_id, class, detached, take 47 (until_nul name))
        else lookup r id)
unfolding find
find-registered r old vendor_id device_id class name id v a room =
    let d = filled old r.count vendor_id device_id class name in
    let inside : r.count < length r.devices = omega (arith, v.slots) in
    let number : d.id ≡ r.count + 1 = omega arith in
    elim (Bool-cases (id == r.count + 1)) [
      | inl e ↦
          let slot : id - 1 ≡ r.count = ground arith in
          ground (
            arith,
            slot,
            number,
            get_elem?-set_self r.devices r.count d inside,
            name-filled old r.count vendor_id device_id class name (v.whole r.count old a),
          )
      | inr e ↦ ground (arith, get_elem?-set_ne r.devices r.count (id - 1) d)
    ]

-- A registry with room gives the device the next id; a look-up of that id then gives the device,
-- detached, with its name cut to 47 bytes, and a look-up of any other id gives what it gave before.
-- A full registry refuses and stays as it is.
pub register_device_lem :
    (r : Registry) (vendor_id device_id : ℕ) (class : DeviceClass) (name : List ℕ)
    → IsValid r
    → ((r.count ≡ max_devices)
        × (register_device r vendor_id device_id class name ≡ (negsuc 0, none, r)))
      ⊎ (let (code, out, r') = register_device r vendor_id device_id class name in
          (r.count < max_devices)
          × (code ≡ pos 0)
          × (out ≡ some (r.count + 1))
          × ((id : ℕ)
              → lookup r' id ≡ (
                  if id == r.count + 1
                  then some
                      (r.count + 1, vendor_id, device_id, class, detached, take 47 (until_nul name))
                  else lookup r id)))
register_device_lem r vendor_id device_id class name v =
    elim (register_device-cases r vendor_id device_id class name v) [
      | inl full ↦ inl full
      | inr (old, a, room, e) ↦ rw e (
          inr (
            room,
            refl,
            refl,
            λ id. find-registered r old vendor_id device_id class name id v a room,
          ))
    ]

abbrev pub with_info : DeviceState → Info → Info
with_info state (id, vendor_id, device_id, class, old, name) =
    (id, vendor_id, device_id, class, state, name)

pub find-with_state :
    (r : Registry) (id j : ℕ) (d : Device) (state : DeviceState)
    → IsValid r
    → find r id ≡ some d
    → At r (id - 1) d
    → id - 1 < r.count
    → 0 < id
    → lookup (with_state r id d state) j
      ≡ (if j == id then Option.map (with_info state) (lookup r j) else lookup r j)
unfolding find
find-with_state r id j d state v f a low p =
    let u = record d { state = state } in
    let inside : id - 1 < length r.devices = omega (arith, v.slots, v.count_in) in
    elim (Bool-cases (j == id)) [
      | inl e ↦
          let same : j - 1 ≡ id - 1 = ground arith in
          ground (arith, same, f, a, get_elem?-set_self r.devices (id - 1) u inside)
      | inr e ↦ ground (arith, get_elem?-set_ne r.devices (id - 1) (j - 1) u)
    ]

-- On a valid registry `novakit_find` answers exactly for the ids from 1 to the number of registered
-- devices, with the device of that id.
pub find_lem :
    (r : Registry) (id : ℕ)
    → IsValid r
    → ((find r id ≢ none) ↔ ((0 < id) × (id < r.count + 1)))
      × ((d : Device) → find r id ≡ some d → d.id ≡ id)
find_lem r id v = elim (find-cases r id v) [
  | inl (n, bad) ↦ ((λ x. absurd (x n), λ x y. ground arith), λ d e. cc)
  | inr (d, f, good, a, e, low, p) ↦ ((λ x. (p, omega arith), λ x y. cc), λ u g. ground arith)
]
