-- ===== src/Registry/Examples.antt =====
-- Tests of the device registry, and its theorems at concrete devices.
use nova.Base.{
  ℕ, ◌+◌, ◌<◌, ◌≡◌, ◌≢◌, refl, ◌↔◌, ◌⊎◌, some, none, List, [], ◌∷◌, take, if◌then◌else◌, ◌==◌,
}
use nova.Base.Words.{pos, negsuc}
use nova.Base.CString.{codes, until_nul}
use nova.Registry.{
  Device, network, bus, detached, attached, Registry, max_devices, init, register_device, find,
  set_state,
}
use nova.Registry.Inv.{IsValid, init-IsValid, register_device-IsValid}
use nova.Registry.Listing.{
  Call, registers, finds, sets, numbered, device, status, step, run, replies, Shows,
}
use nova.Registry.Listing.Session.{run-lists}
use nova.Registry.Laws.{lookup, register_device_lem, find_lem}

abbrev virtio : List ℕ
virtio = codes "virtio-net"

abbrev one_device : Registry
one_device = (register_device init 0x1AF4 0x1000 network virtio).2

one_device-IsValid : IsValid one_device
one_device-IsValid = register_device-IsValid init 0x1AF4 0x1000 network virtio init-IsValid.0

-- host_test.c
registers_and_attaches :
    lookup (set_state one_device 1 attached).1 1
    ≡ some (1, 0x1AF4, 0x1000, network, attached, virtio)
unfolding find set_state register_device init
registers_and_attaches = refl

register_device_lem_example :
    ((one_device.count ≡ max_devices)
      × (register_device one_device 2 3 bus virtio ≡ (negsuc 0, none, one_device)))
    ⊎ (let (code, out, r) = register_device one_device 2 3 bus virtio in
        (one_device.count < max_devices)
        × (code ≡ pos 0)
        × (out ≡ some (one_device.count + 1))
        × ((id : ℕ)
            → lookup r id ≡ (
                if id == one_device.count + 1
                then some (one_device.count + 1, 2, 3, bus, detached, take 47 (until_nul virtio))
                else lookup one_device id)))
register_device_lem_example = register_device_lem one_device 2 3 bus virtio one_device-IsValid

find_lem_example :
    ((find one_device 1 ≢ none) ↔ ((0 < 1) × (1 < one_device.count + 1)))
    × ((d : Device) → find one_device 1 ≡ some d → d.id ≡ 1)
find_lem_example = find_lem one_device 1 one_device-IsValid

abbrev calls : List Call
calls = registers 0x1AF4 0x1000 network virtio ∷ sets 1 attached ∷ finds 1 ∷ sets 2 attached ∷ []

answers_calls : (run init calls).0 ≡ (
    numbered (pos 0, some 1)
    ∷ status (pos 0)
    ∷ device (some (1, 0x1AF4, 0x1000, network, attached, virtio))
    ∷ status (negsuc 0)
    ∷ [])
unfolding run step find set_state register_device init
answers_calls = refl

run-lists_example :
    ((run init calls).0 ≡ (replies [] calls).0) × Shows (run init calls).1 (replies [] calls).1
run-lists_example = run-lists calls
