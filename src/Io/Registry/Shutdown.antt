-- ===== src/Io/Registry/Shutdown.antt =====
-- What `nova_io_shutdown` frees.
use nova.Base.{
  ℕ, zero, suc, ◌<◌, ◌≡◌, refl, sym, ap, ◌∙◌, true, false, Option, none, some, List, length, arith,
  ◌==◌, if◌then◌else◌, ne→==, Bool-cases, inl, inr, ==→eq,
}
use nova.Base.Words.{pos}
use nova.Base.Heap.{update, has}
use nova.Io.State.{Ptr, null, World, ◌>>=◌, ◌>>◌}
use nova.Io.Calls.{load_dev_lem}
use nova.Io.Registry.{unlock_registry, free_all, shut_down, io_shutdown}
use nova.Io.Registry.Backlink.{has-apart}
use nova.Io.Registry.Find.{lock_lem}
use nova.Io.Chain.{Devices, Chain, stop, link, next_of-some, Chain-agree}

-- the memory without the devices of a list
abbrev pub freed : {A : Type 0} → (Ptr → Option A) → List Ptr → Ptr → Option A
freed h ps r = if has ps r then none else h r

free_all_lem :
    (w : World) (p : Ptr) (ps : List Ptr) (fuel : ℕ)
    → Chain w.devices p ps
    → length ps < fuel
    → (g : Devices) × (free_all fuel p w ≡ some (tt, record w { devices = g }))
      × ((r : Ptr) → g r ≡ freed w.devices ps r)
unfolding free_all
free_all_lem w _ _ zero c f = absurd (omega arith)
free_all_lem w _ _ (suc fuel) stop f = (w.devices, refl, λ r. refl)
free_all_lem w _ _ (suc fuel) (link {p} {q} {ps} n b o rest) f =
    let (d, at, l) = next_of-some (w.devices p) q b in
    let v = record w { devices = update w.devices p none } in
    let c : Chain v.devices d.next ps =
      rw l (Chain-agree rest λ r i. rw (ne→== r p (has-apart ps p r o i))) in
    let (g, run, same) = free_all_lem v d.next ps fuel c (omega arith) in
    (
      g,
      rw (ne→== p null n) (rw (◌>>=◌, load_dev_lem w p d n at) run),
      λ r. same r ∙ elim (Bool-cases (r == p)) [ inl t ↦ rw (t, ==→eq r p t, o) | inr t ↦ rw t ],
    )

-- On a chain whose lock is free, with more fuel than devices, `nova_io_shutdown` of the initialised
-- stack returns 0 and frees the registered devices and no others; the registry is empty, the lock is
-- free, and the stack is no longer initialised.
pub io_shutdown_lem :
    (w : World) (ps : List Ptr) (fuel : ℕ)
    → Chain w.devices w.registry ps
    → length ps < fuel
    → w.locked ≡ false
    → w.initialized ≡ true
    → (g : Devices) × (io_shutdown fuel w
        ≡ some (pos 0, record w { devices = g; registry = null; initialized = false }))
      × ((r : Ptr) → g r ≡ freed w.devices ps r)
unfolding io_shutdown unlock_registry
io_shutdown_lem w ps fuel c f e i =
    let v = record w { locked = true } in
    let (g, run, same) = free_all_lem v w.registry ps fuel c f in
    (
      g,
      ap (λ b. shut_down fuel b w) i
          ∙ rw (lock_lem w e, shut_down, ◌>>◌, ◌>>=◌)
              (rw (◌>>=◌, ◌>>◌, run)
                (ap
                  (λ b. some (
                    pos 0,
                    record w { devices = g; registry = null; initialized = false; locked = b },
                  ))
                  (sym e))),
      same,
    )
