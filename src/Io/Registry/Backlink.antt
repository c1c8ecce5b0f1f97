-- ===== src/Io/Registry/Backlink.antt =====
-- What the code writes to `prev` links leaves as it was.
use nova.Base.{
  ◌≡◌, ◌≢◌, ◌⊎◌, inl, inr, refl, sym, ap, ◌∙◌, true, false, Option, none, some, List, arith, ◌==◌,
  Bool-cases, ==→eq, ne→==,
}
use nova.Base.Heap.{has, update}
use nova.Io.State.{Ptr, null, Device, World, ◌>>=◌, load_dev}
use nova.Io.Registry.{set_prev}
use nova.Io.Chain.{Devices, Chain, stop, link, next_of, next_of-some}

-- a device without its back link
abbrev pub unbacked : Option Device → Option Device
unbacked none = none
unbacked (some d) = some (record d { prev = null })

next_of-unbacked : (o : Option Device) → next_of (unbacked o) ≡ next_of o
next_of-unbacked none = refl
next_of-unbacked (some d) = refl

pub next_of_eq : (o o' : Option Device) → unbacked o ≡ unbacked o' → next_of o ≡ next_of o'
next_of_eq o o' e = sym (next_of-unbacked o) ∙ ap next_of e ∙ next_of-unbacked o'

pub unbacked-update :
    (h : Devices) (p : Ptr) (v : Option Device)
    → unbacked v ≡ unbacked (h p)
    → (r : Ptr) → unbacked (update h p v r) ≡ unbacked (h r)
unbacked-update h p v e r = elim (Bool-cases (r == p)) [
  | inl t ↦ rw t (rw (==→eq r p t) e)
  | inr t ↦ rw t
]

-- a device, or NULL
abbrev pub DeviceOrNull : Devices → Ptr → Type 0
DeviceOrNull h p = (p ≡ null) ⊎ ((p ≢ null) × ((d : Device) × (h p ≡ some d)))

pub Chain-DeviceOrNull : {h : Devices} {p : Ptr} {ps : List Ptr} → Chain h p ps → DeviceOrNull h p
Chain-DeviceOrNull stop = inl refl
Chain-DeviceOrNull {h} (link {p} n a o c) =
    let (d, e, l) = next_of-some (h p) _ a in inr (n, (d, e))

pub set_prev_lem :
    (w : World) (p prev : Ptr)
    → DeviceOrNull w.devices p
    → (h : Devices) × (set_prev p prev w ≡ some (tt, record w { devices = h }))
      × ((r : Ptr) → unbacked (h r) ≡ unbacked (w.devices r))
set_prev_lem w p prev (inl e) = (w.devices, rw e, λ r. refl)
set_prev_lem w p prev (inr (n, (d, a))) = (
  update w.devices p (some (record d { prev = prev })),
  rw (ne→== p null n) (rw (ne→== p null n, a, ◌>>=◌, load_dev)),
  unbacked-update w.devices p (some (record d { prev = prev })) (rw a),
)

pub has-apart : (ps : List Ptr) (dev q : Ptr) → has ps dev ≡ false → has ps q ≡ true → q ≢ dev
has-apart ps dev q o i e = ground (arith, ap (has ps) e, o, i)
