-- ===== src/Net/Devices/Edit.antt =====
-- `nova_netdev_register` on a chain.
use nova.Base.{
  ℕ, ◌<◌, ◌≡◌, refl, ap, ◌≢◌, ◌⊎◌, inl, inr, true, false, Option, none, some, List, ◌∷◌, arith,
  length, ◌==◌, Bool-cases, ne→==, eq→==, ==→eq, get_or,
}
use nova.Base.Words.{pos, negsuc}
use nova.Base.CString.{until_nul, same_bytes_refl}
use Prim.Native.Nat.{bit_or}
use nova.Net.State.{
  ◌>>=◌, load_dev, answer, Ptr, null, OpenFn, lo_open, nic_open, NetDevice, World, update,
}
use nova.Net.Packets.{call_open, iff_running, iff_loopback}
use nova.Net.Devices.{search, register, insert, open_of, try_open}
use nova.Net.Devices.Chain.{
  Devices, Chain, link, has, Chain-agree, named, first_named, first_named-ne,
}
use nova.Net.Devices.Find.{find_from-first_named}

-- the flags that the device's `open` sets
abbrev pub opened_flags : Option OpenFn → ℕ → ℕ
opened_flags none flags = flags
opened_flags (some lo_open) flags = bit_or flags (bit_or iff_running iff_loopback)
opened_flags (some nic_open) flags = bit_or flags iff_running

-- the device as `nova_netdev_register` leaves it
abbrev pub linked : NetDevice → Ptr → NetDevice
linked d next = record d { flags = opened_flags (open_of d) d.flags; next = next }

-- the devices after the call of `open`
abbrev opened : Option OpenFn → Devices → Ptr → NetDevice → Devices
opened none h dev d = h
opened (some f) h dev d = update h dev (some (record d { flags = opened_flags (some f) d.flags }))

try_open_lem :
    (v : World) (dev : Ptr) (d : NetDevice) (o : Option OpenFn)
    → dev ≢ null
    → v.devices dev ≡ some d
    → try_open o dev v ≡ some (tt, record v { devices = opened o v.devices dev d })
unfolding call_open
try_open_lem v dev d none n a = refl
try_open_lem v dev d (some lo_open) n a = rw (ne→== dev null n, a, ◌>>=◌, load_dev)
try_open_lem v dev d (some nic_open) n a = rw (ne→== dev null n, a, ◌>>=◌, load_dev)

opened_at :
    (o : Option OpenFn) (h : Devices) (dev : Ptr) (d : NetDevice)
    → opened o (update h dev (some d)) dev d dev
      ≡ some (record d { flags = opened_flags o d.flags })
opened_at none h dev d = rw (eq→== dev dev refl)
opened_at (some f) h dev d = rw (eq→== dev dev refl)

opened_ne :
    (o : Option OpenFn) (h : Devices) (dev : Ptr) (d : NetDevice) (q : Ptr)
    → q ≢ dev
    → opened o (update h dev (some d)) dev d q ≡ h q
opened_ne none h dev d q m = rw (ne→== q dev m)
opened_ne (some f) h dev d q m = rw (ne→== q dev m)

-- The new head of the list has the old one behind it and its flags set; no other device changes.
insert_lem :
    (w : World) (dev : Ptr) (d : NetDevice)
    → dev ≢ null
    → w.devices dev ≡ some d
    → (h : Devices) × (insert dev w ≡ some (tt, record w { devices = h; registry = dev }))
      × (h dev ≡ some (linked d w.registry))
      × ((q : Ptr) → q ≢ dev → h q ≡ w.devices q)
unfolding insert
insert_lem w dev d n a =
    let d' = record d { next = w.registry } in
    let g = update w.devices dev (some d') in
    let v = record w { devices = g; registry = dev } in
    let at : g dev ≡ some d' = rw (eq→== dev dev refl) in
    (
      opened (open_of d) g dev d',
      rw (ne→== dev null n, a, insert, ◌>>=◌, load_dev) (try_open_lem v dev d' (open_of d) n at),
      opened_at (open_of d) w.devices dev d',
      opened_ne (open_of d) w.devices dev d',
    )

not-has_of_null :
    (h : Devices) (p : Ptr) (ps : List Ptr) (dev : Ptr) (d : NetDevice)
    → Chain h p ps
    → h dev ≡ some d
    → first_named h ps d.name ≡ null
    → has ps dev ≡ false
not-has_of_null h p ps dev d c a e = elim (Bool-cases (has ps dev)) [
  | inl i ↦
      let own : named h dev d.name ≡ true = rw (a, named) (same_bytes_refl (until_nul d.name)) in
      absurd (first_named-ne dev d.name c i own e)
  | inr o ↦ o
]

-- A device has no name: its first byte is NUL.
abbrev pub Nameless : NetDevice → Type 0
Nameless d = get_or d.name 0 0 ≡ 0

-- On a chain, with more fuel than devices, `nova_netdev_register`, called with a device, refuses
-- one without a name or with the name of one that is there, itself included, and then changes
-- nothing. Else the device becomes the head of the chain, opened, and no other device changes.
pub register-cases :
    (w : World) (ps : List Ptr) (fuel : ℕ) (dev : Ptr) (d : NetDevice)
    → Chain w.devices w.registry ps
    → length ps < fuel
    → dev ≢ null
    → w.devices dev ≡ some d
    → ((Nameless d ⊎ (first_named w.devices ps d.name ≢ null))
        × (register fuel dev w ≡ some (negsuc 0, w)))
      ⊎ ((h : Devices) × (first_named w.devices ps d.name ≡ null)
          × (register fuel dev w ≡ some (pos 0, record w { devices = h; registry = dev }))
          × Chain h dev (dev ∷ ps)
          × (h dev ≡ some (linked d w.registry))
          × ((q : Ptr) → q ≢ dev → h q ≡ w.devices q))
unfolding register
register-cases w ps fuel dev d c f n a =
    let found = find_from-first_named fuel d.name c f in
    elim (Bool-cases (get_or d.name 0 0 == 0)) [
      | inl e ↦ inl (
        inl (==→eq (get_or d.name 0 0) 0 e),
        rw (ne→== dev null n, register) (rw (ne→== dev null n, a, ◌>>=◌, load_dev) (rw e)),
      )
      | inr e ↦ elim (Bool-cases (first_named w.devices ps d.name == null)) [
        | inl z ↦
            let (h, run, at, same) = insert_lem w dev d n a in
            let none_found = ==→eq (first_named w.devices ps d.name) null z in
            let out = not-has_of_null w.devices w.registry ps dev d c a none_found in
            inr (
              h,
              none_found,
              rw (ne→== dev null n, register)
                  (rw (ne→== dev null n, a, ◌>>=◌, load_dev)
                    (rw e (rw (found, z, search, ◌>>=◌) (ap answer run)))),
              link n at refl out (Chain-agree c λ q i. same q (λ x. ground arith)),
              at,
              same,
            )
        | inr z ↦ inl (
          inr (λ x. ground arith),
          rw (ne→== dev null n, register)
              (rw (ne→== dev null n, a, ◌>>=◌, load_dev) (rw e (rw (found, z, search, ◌>>=◌)))),
        )
      ]
    ]
