-- ===== src/Io/Registry/Register.antt =====
-- `nova_device_register` on a chain.
use nova.Base.{
  ℕ, ◌+◌, ◌≡◌, ◌≢◌, ◌⊎◌, inl, inr, refl, sym, ap, ◌∙◌, true, false, some, List, ◌∷◌, get_or, arith,
  ◌==◌, if◌then◌else◌, Bool-cases, ==→eq, eq→==, ne→==,
}
use nova.Base.Words.{u32, ℤ, pos, negsuc}
use nova.Base.Heap.{has, update}
use nova.Io.State.{Cmd, pure, Ptr, null, Device, World, ◌>>=◌, ◌>>◌, load_dev}
use nova.Io.Calls.{bind-some, load_dev_lem}
use nova.Io.Registry.{
  lock_registry, unlock_registry, assign_major, set_prev, link_first, device_register,
}
use nova.Io.Registry.Backlink.{unbacked, next_of_eq, has-apart, Chain-DeviceOrNull, set_prev_lem}
use nova.Io.Registry.Find.{lock_lem}
use nova.Io.Chain.{Devices, Chain, link, next_of, Chain-agree}

-- the number that a device gets, and the next one to give
abbrev pub major_of : World → Device → ℕ
major_of w d = if d.major == 0 then w.next_major else d.major

abbrev pub next_major_of : World → Device → ℕ
next_major_of w d = if d.major == 0 then u32 (w.next_major + 1) else w.next_major

assign_major_lem :
    (w : World) (dev : Ptr) (d : Device)
    → dev ≢ null
    → w.devices dev ≡ some d
    → (h : Devices) × (assign_major dev w
        ≡ some (tt, record w { devices = h; next_major = next_major_of w d }))
      × (h dev ≡ some (record d { major = major_of w d }))
      × ((r : Ptr) → r ≢ dev → h r ≡ w.devices r)
assign_major_lem w dev d n a = elim (Bool-cases (d.major == 0)) [
  | inl z ↦ (
    update w.devices dev (some (record d { major = w.next_major })),
    rw (ne→== dev null n, a, z, ◌>>=◌, load_dev),
    rw (eq→== dev dev refl, z),
    λ r m. rw (ne→== r dev m),
  )
  | inr z ↦ (w.devices, rw (ne→== dev null n, a, z, ◌>>=◌, load_dev), rw z a, λ r m. refl)
]

link_first_lem :
    (w : World) (ps : List Ptr) (dev : Ptr) (d : Device)
    → Chain w.devices w.registry ps
    → dev ≢ null
    → w.devices dev ≡ some d
    → has ps dev ≡ false
    → (h : Devices) × (link_first dev w ≡ some (tt, record w { devices = h; registry = dev }))
      × Chain h dev (dev ∷ ps)
      × (unbacked (h dev) ≡ unbacked (some (record d { next = w.registry })))
      × ((r : Ptr) → r ≢ dev → unbacked (h r) ≡ unbacked (w.devices r))
link_first_lem w ps dev d c n a o =
    let g = update w.devices dev (some (record d { next = w.registry })) in
    let at : g dev ≡ some (record d { next = w.registry }) = rw (eq→== dev dev refl) in
    let off : (r : Ptr) → r ≢ dev → g r ≡ w.devices r = λ r m. rw (ne→== r dev m) in
    let c' : Chain g w.registry ps =
      Chain-agree c λ r i. ap next_of (off r (has-apart ps dev r o i)) in
    let (h, e, same) =
      set_prev_lem (record w { devices = g }) w.registry dev (Chain-DeviceOrNull c') in
    (
      h,
      rw (ne→== dev null n, a, ◌>>=◌, load_dev)
          (bind-some (set_prev w.registry dev) (λ _ v. some (tt, record v { registry = dev }))
            (record w { devices = g }) e),
      link n (next_of_eq (h dev) (g dev) (same dev) ∙ ap next_of at) o
          (Chain-agree c' λ r i. next_of_eq (h r) (g r) (same r)),
      same dev ∙ ap unbacked at,
      λ r m. same r ∙ ap unbacked (off r m),
    )

locked_steps :
    (dev : Ptr) (w v v1 v2 : World)
    → lock_registry w ≡ some (tt, v)
    → assign_major dev v ≡ some (tt, v1)
    → link_first dev v1 ≡ some (tt, v2)
    → (do lock_registry; assign_major dev; link_first dev; unlock_registry; pure (pos 0)) w
      ≡ some (pos 0, record v2 { locked = false })
unfolding unlock_registry
locked_steps dev w v v1 v2 l a k =
    let last : Cmd ℤ = unlock_registry >> pure (pos 0) in
    bind-some lock_registry (λ _. do assign_major dev; link_first dev; last) w l
    ∙ (bind-some (assign_major dev) (λ _. do link_first dev; last) v a
        ∙ bind-some (link_first dev) (λ _. last) v1 k)

-- On a chain whose lock is free, `nova_device_register` of a device that is not on it and has no name
-- returns -1 and changes nothing. With a name it returns 0: the device, with a number of its own or
-- the next one, is the first of the chain, no other device changes but for its back link, and the
-- lock is free again.
pub device_register-cases :
    (w : World) (ps : List Ptr) (dev : Ptr) (d : Device)
    → Chain w.devices w.registry ps
    → w.locked ≡ false
    → dev ≢ null
    → w.devices dev ≡ some d
    → has ps dev ≡ false
    → ((get_or d.name 0 0 ≡ 0) × (device_register dev w ≡ some (negsuc 0, w)))
      ⊎ ((h : Devices) × (get_or d.name 0 0 ≢ 0)
          × (device_register dev w
              ≡ some
                  (pos 0, record w { devices = h; registry = dev; next_major = next_major_of w d }))
          × Chain h dev (dev ∷ ps)
          × ((r : Ptr)
              → unbacked (h r)
                ≡ unbacked (
                    update w.devices dev
                      (some (record d { major = major_of w d; next = w.registry }))
                      r)))
unfolding device_register unlock_registry
device_register-cases w ps dev d c e n a o = elim (Bool-cases (get_or d.name 0 0 == 0)) [
  | inl z ↦ inl (
    ==→eq (get_or d.name 0 0) 0 z,
    rw (ne→== dev null n) (rw (◌>>=◌, load_dev_lem w dev d n a) (rw z)),
  )
  | inr z ↦
      let v = record w { locked = true } in
      let (g, e1, at, off) = assign_major_lem v dev d n a in
      let w1 = record v { devices = g; next_major = next_major_of w d } in
      let c1 : Chain g w.registry ps =
        Chain-agree c λ r i. ap next_of (off r (has-apart ps dev r o i)) in
      let (h, e2, c2, at2, off2) =
        link_first_lem w1 ps dev (record d { major = major_of w d }) c1 n at o in
      let w2 = record w1 { devices = h; registry = dev } in
      inr (
        h,
        λ t. ground (arith, eq→== (get_or d.name 0 0) 0 t, z),
        rw (ne→== dev null n) (
            rw (◌>>=◌, load_dev_lem w dev d n a)
              (rw z (
                locked_steps dev w v w1 w2 (lock_lem w e) e1 e2
                ∙ ap (λ b. some (pos 0, record w2 { locked = b })) (sym e)))),
        c2,
        λ r. elim (Bool-cases (r == dev)) [
          | inl t ↦ rw (t, ==→eq r dev t) at2
          | inr t ↦
              let m : r ≢ dev = λ x. ground (arith, eq→== r dev x, t) in
              rw t (off2 r m ∙ ap unbacked (off r m))
        ],
      )
]
