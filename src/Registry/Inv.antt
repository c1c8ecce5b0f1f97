-- ===== src/Registry/Inv.antt =====
-- The registry's invariant: 64 slots, whole names, and the id of a registered device is the number
-- of its slot, counted from 1.
use nova.Base.{
  ℕ, zero, suc, ◌+◌, ◌-◌, ◌<◌, ◌≤◌, ◌≡◌, refl, ◌∙◌, ◌⊎◌, inl, inr, true, false, none, some, List,
  arith, length, get_elem?, set, replicate, length-set, get_elem?-in, get_elem?-set-cases,
  Bool-cases, ◌==◌,
}
use nova.Base.Words.{pos, negsuc, u64}
use nova.Base.CString.{strncpy, length-strncpy}
use nova.Registry.{
  Device, DeviceClass, DeviceState, Registry, max_devices, name_length, zeroed, init, filled,
  register_device, bad_id, find, set_state,
}

abbrev pub At : Registry → ℕ → Device → Type 0
At r i d = get_elem? r.devices i ≡ some d

pub record IsValid (r : Registry) : Type 0 where
  pub slots : length r.devices ≡ max_devices
  pub count_in : r.count ≤ max_devices
  pub numbered : (i : ℕ) (d : Device) → i < r.count → At r i d → d.id ≡ i + 1
  pub whole : (i : ℕ) (d : Device) → At r i d → length d.name ≡ name_length

get_elem?-replicate :
    (n i : ℕ) (x : Device) {d : Device} → get_elem? (replicate n x) i ≡ some d → d ≡ x
get_elem?-replicate zero i x h = ground arith
get_elem?-replicate (suc n) zero x h = ground arith
get_elem?-replicate (suc n) (suc i) x h = get_elem?-replicate n i x h

-- `novakit_registry_init` makes a valid, empty registry.
pub init-IsValid : IsValid init × (init.count ≡ 0)
unfolding init
init-IsValid = (
  record {
    slots = refl;
    count_in = omega arith;
    numbered = λ i d h a. absurd (omega arith);
    whole = λ i d a. ground (arith, get_elem?-replicate max_devices i zeroed {d = d} a);
  },
  refl,
)

abbrev pub registered : Registry → Device → ℕ → ℕ → DeviceClass → List ℕ → Registry
registered r old vendor_id device_id class name = record {
  devices = set r.devices r.count (filled old r.count vendor_id device_id class name);
  count = suc r.count;
}

-- `novakit_register_device` refuses a full registry, and else fills the next slot.
pub register_device-cases :
    (r : Registry) (vendor_id device_id : ℕ) (class : DeviceClass) (name : List ℕ)
    → IsValid r
    → ((r.count ≡ max_devices)
        × (register_device r vendor_id device_id class name ≡ (negsuc 0, none, r)))
      ⊎ ((old : Device) × At r r.count old
          × (r.count < max_devices)
          × (register_device r vendor_id device_id class name
              ≡ (pos 0, some (r.count + 1), registered r old vendor_id device_id class name)))
unfolding register_device
register_device-cases r vendor_id device_id class name v =
    elim (Bool-cases (r.count == max_devices)) [
      | inl e ↦ inl (ground arith, ground arith)
      | inr e ↦
          let room : r.count < length r.devices = ground (arith, v.slots, v.count_in) in
          let (old, a) = get_elem?-in r.devices r.count room in
          let next : u64 (r.count + 1) ≡ suc r.count = omega (arith, v.count_in) in
          let id : (filled old r.count vendor_id device_id class name).id ≡ r.count + 1 =
            omega (arith, v.count_in) in
          inr (old, a, omega (arith, v.slots), ground (arith, a, next, id))
    ]

-- `novakit_register_device` keeps the invariant.
pub register_device-IsValid :
    (r : Registry) (vendor_id device_id : ℕ) (class : DeviceClass) (name : List ℕ)
    → IsValid r
    → IsValid (register_device r vendor_id device_id class name).2
register_device-IsValid r vendor_id device_id class name v =
    elim (register_device-cases r vendor_id device_id class name v) [
      | inl (full, e) ↦ rw e v
      | inr (old, a, room, e) ↦ rw e (go old a room)
    ]
  where
    new : Device → Device
    new old = filled old r.count vendor_id device_id class name

    go :
        (old : Device)
        → At r r.count old
        → r.count < max_devices
        → IsValid (registered r old vendor_id device_id class name)
    go old a room = record {
      slots = length-set r.devices r.count (new old) ∙ v.slots;
      count_in = room;
      numbered = λ i d h b. elim (get_elem?-set-cases r.devices r.count i (new old) b) [
        | inl (here, e) ↦ ground arith
        | inr (ne, b') ↦ v.numbered i d (omega arith) b'
      ];
      whole = λ i d b. elim (get_elem?-set-cases r.devices r.count i (new old) b) [
        | inl (here, e) ↦ ground (
          arith,
          v.whole r.count old a,
          length-strncpy old.name name 47,
          length-set (strncpy old.name name 47) 47 0,
        )
        | inr (ne, b') ↦ v.whole i d b'
      ];
    }

-- A look-up fails exactly for an id that was never handed out; else it gives the device of that id,
-- in its slot.
pub find-cases :
    (r : Registry) (id : ℕ)
    → IsValid r
    → ((find r id ≡ none) × (bad_id r id ≡ true))
      ⊎ ((d : Device) × (find r id ≡ some d)
          × (bad_id r id ≡ false)
          × At r (id - 1) d
          × (d.id ≡ id)
          × (id - 1 < r.count)
          × (0 < id))
unfolding find
find-cases r id v = elim (Bool-cases (bad_id r id)) [
  | inl e ↦ inl (ground arith, e)
  | inr e ↦
      let low : id - 1 < r.count = ground arith in
      let pos_id : 0 < id = ground arith in
      let (d, a) = get_elem?-in r.devices (id - 1) (omega (arith, v.slots, v.count_in)) in
      let named : d.id ≡ id = omega (arith, v.numbered (id - 1) d low a) in
      inr (d, ground (arith, a), e, a, named, low, pos_id)
]

abbrev pub with_state : Registry → ℕ → Device → DeviceState → Registry
with_state r id d state = record r { devices = set r.devices (id - 1) (record d { state = state }) }

-- `novakit_set_state` changes the device that `novakit_find` gives, or refuses where that fails.
pub set_state-cases :
    (r : Registry) (id : ℕ) (state : DeviceState)
    → IsValid r
    → ((find r id ≡ none) × (set_state r id state ≡ (negsuc 0, r)))
      ⊎ ((d : Device) × (find r id ≡ some d)
          × At r (id - 1) d
          × (id - 1 < r.count)
          × (0 < id)
          × (set_state r id state ≡ (pos 0, with_state r id d state)))
unfolding set_state
set_state-cases r id state v = elim (find-cases r id v) [
  | inl (n, bad) ↦ inl (n, ground arith)
  | inr (d, f, good, a, e, low, p) ↦ inr (d, f, a, low, p, ground (arith, a))
]

-- `novakit_set_state` keeps the invariant.
pub set_state-IsValid :
    (r : Registry) (id : ℕ) (state : DeviceState) → IsValid r → IsValid (set_state r id state).1
set_state-IsValid r id state v = elim (set_state-cases r id state v) [
  | inl (n, e) ↦ rw e v
  | inr (d, f, a, low, p, e) ↦ rw e (record {
    slots = length-set r.devices (id - 1) (record d { state = state }) ∙ v.slots;
    count_in = v.count_in;
    numbered = λ i u h b.
        elim (get_elem?-set-cases r.devices (id - 1) i (record d { state = state }) b) [
          | inl (here, x) ↦ ground (arith, v.numbered (id - 1) d low a)
          | inr (ne, b') ↦ v.numbered i u h b'
        ];
    whole = λ i u b.
        elim (get_elem?-set-cases r.devices (id - 1) i (record d { state = state }) b) [
          | inl (here, x) ↦ ground (arith, v.whole (id - 1) d a)
          | inr (ne, b') ↦ v.whole i u b'
        ];
  })
]
