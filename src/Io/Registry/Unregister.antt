-- ===== src/Io/Registry/Unregister.antt =====
-- `nova_device_unregister` on a chain.
use nova.Base.{
  ℕ, zero, suc, ◌<◌, ◌≡◌, refl, sym, ap, ◌∙◌, ◌≢◌, ◌⊎◌, inl, inr, true, false, some, List, arith,
  length, ◌==◌, Bool-cases, ne→==, eq→==, ==→eq,
}
use nova.Base.Words.{pos, negsuc}
use nova.Base.Heap.{update, has, without, has-without}
use nova.Io.State.{Ptr, null, Device, World, ◌>>=◌, ◌>>◌}
use nova.Io.Calls.{load_dev_lem}
use nova.Io.Registry.{unlock_registry, take_out, unregister_from, device_unregister}
use nova.Io.Registry.Backlink.{unbacked, next_of_eq, has-apart, Chain-DeviceOrNull}
use nova.Io.Registry.Find.{lock_lem}
use nova.Io.Registry.Unlink.{
  unlinked, unlinked_eq, take_out_lem, take_out_head, Unlinked, first-Unlinked, later-Unlinked,
}
use nova.Io.Chain.{Devices, Chain, stop, link, next_of-some, Chain-agree}

-- the state in which the lock is free
abbrev pub unlock : World → World
unlock w = record w { locked = false }

step :
    (w : World) (fuel : ℕ) (dev prev p : Ptr) (d : Device)
    → p ≢ null
    → p ≢ dev
    → w.devices p ≡ some d
    → unregister_from (suc fuel) dev prev p w ≡ unregister_from fuel dev p d.next w
unfolding unregister_from
step w fuel dev prev p d m e b =
    rw (ne→== p null m, ne→== p dev e) (rw (◌>>=◌, load_dev_lem w p d m b))

found :
    (w v : World) (fuel : ℕ) (prev p : Ptr)
    → p ≢ null
    → take_out prev p w ≡ some (tt, v)
    → unregister_from (suc fuel) p prev p w ≡ some (pos 0, unlock v)
unfolding unregister_from unlock_registry
found w v fuel prev p m e = rw (ne→== p null m, eq→== p p refl) (rw (◌>>◌, ◌>>=◌, e))

at_end :
    (w : World) (fuel : ℕ) (dev prev : Ptr)
    → unregister_from (suc fuel) dev prev null w ≡ some (negsuc 0, unlock w)
unfolding unregister_from unlock_registry
at_end w fuel dev prev = refl

-- The walk from `curr`, which is behind `prev`.
unregister_from_later :
    (w : World) (fuel : ℕ) (dev prev curr : Ptr) (ps : List Ptr) (d : Device)
    → prev ≢ null
    → w.devices prev ≡ some d
    → d.next ≡ curr
    → has ps prev ≡ false
    → Chain w.devices curr ps
    → length ps < fuel
    → ((has ps dev ≡ false) × (unregister_from fuel dev prev curr w ≡ some (negsuc 0, unlock w)))
      ⊎ ((g : Devices) × (q : Ptr) × (has ps dev ≡ true)
          × (unregister_from fuel dev prev curr w ≡ some (pos 0, unlock (record w { devices = g })))
          × Unlinked w.devices g ps dev prev q d)
unregister_from_later w zero dev prev curr ps d n a e out c f = absurd (omega arith)
unregister_from_later w (suc fuel) dev prev _ _ d n a e out stop f =
    inl (refl, at_end w fuel dev prev)
unregister_from_later w (suc fuel) dev prev _ _ before n a e out (link {p} {q} {ps} m b o rest) f =
    let (d, at, l) = next_of-some (w.devices p) q b in
    let apart : p ≢ prev = λ x. ground (arith, x, out) in
    let out_prev : has ps prev ≡ false = ground (arith, out) in
    elim (Bool-cases (dev == p)) [
      | inl t ↦
          let h = update w.devices prev (some (record before { next = d.next })) in
          let rest' : Chain h d.next ps =
            rw l (Chain-agree rest λ r i. rw (ne→== r prev (has-apart ps prev r out_prev i))) in
          let (g, run, same) =
            take_out_lem w prev p before d n m apart a at (Chain-DeviceOrNull rest') in
          rw (==→eq dev p t) (
            inr (
              g,
              d.next,
              rw (eq→== p p refl),
              found w (record w { devices = g }) fuel prev p m run,
              first-Unlinked w.devices g prev p ps before d a apart out_prev (rw l rest) same,
            ))
      | inr t ↦
          let other : p ≢ dev = λ x. ground (arith, x, t) in
          elim (unregister_from_later w fuel dev p q ps d m at l o rest (omega arith)) [
            | inl (none_there, run) ↦
                inl (rw (t, none_there), step w fuel dev prev p d m other at ∙ rw l run)
            | inr (g, r, there, run, u) ↦ inr (
              g,
              p,
              rw (t, there),
              step w fuel dev prev p d m other at ∙ rw l run,
              later-Unlinked a e (λ x. apart (sym x)) m out_prev o (λ x. other (sym x)) u,
            )
          ]
    ]

unregister_from_head :
    (w : World) (p : Ptr) (ps : List Ptr) (fuel : ℕ) (dev : Ptr)
    → Chain w.devices p ps
    → length ps < fuel
    → w.registry ≡ p
    → ((has ps dev ≡ false) × (unregister_from fuel dev null p w ≡ some (negsuc 0, unlock w)))
      ⊎ ((g : Devices) × (q : Ptr) × (has ps dev ≡ true)
          × (unregister_from fuel dev null p w
              ≡ some (pos 0, unlock (record w { devices = g; registry = q })))
          × Chain g q (without ps dev)
          × (unbacked (g dev) ≡ unbacked (w.devices dev))
          × ((r : Ptr) → unlinked (g r) ≡ unlinked (w.devices r)))
unregister_from_head w _ _ zero dev c f h = absurd (omega arith)
unregister_from_head w _ _ (suc fuel) dev stop f h = inl (refl, at_end w fuel dev null)
unregister_from_head w _ _ (suc fuel) dev (link {p} {q} {ps} m b o rest) f h =
    let (d, at, l) = next_of-some (w.devices p) q b in
    elim (Bool-cases (dev == p)) [
      | inl t ↦
          let rest' : Chain w.devices d.next ps = rw l rest in
          let (g, run, same) = take_out_head w p d m at (Chain-DeviceOrNull rest') in
          rw (==→eq dev p t) (
            inr (
              g,
              d.next,
              rw (eq→== p p refl),
              found w (record w { devices = g; registry = d.next }) fuel null p m run,
              rw (eq→== p p refl)
                  (Chain-agree rest' λ r i. next_of_eq (g r) (w.devices r) (same r)),
              same p,
              λ r. unlinked_eq (g r) (w.devices r) (same r),
            ))
      | inr t ↦
          let other : p ≢ dev = λ x. ground (arith, x, t) in
          let one = step w fuel dev null p d m other at in
          elim (unregister_from_later w fuel dev p q ps d m at l o rest (omega arith)) [
            | inl (none_there, run) ↦ inl (rw (t, none_there), one ∙ rw l run)
            | inr (g, r, there, run, u) ↦ inr (
              g,
              p,
              rw (t, there),
              one
                  ∙ rw l (
                      run
                      ∙ ap (λ x. some (pos 0, unlock (record w { devices = g; registry = x }))) h),
              rw (ne→== p dev other) (
                  link m (next_of_eq (g p) (some (record d { next = r })) u.before)
                    (has-without ps dev p o) u.others),
              u.alone,
              u.kept,
            )
          ]
    ]

-- On a chain whose lock is free, with more fuel than devices, `nova_device_unregister` returns -1 and
-- changes nothing for an address other than NULL that is not registered. Else it returns 0: the list
-- leads through the other devices in their order, and no device has changed but for its links; the
-- device that was taken out still has its `next`. The lock is free again.
pub device_unregister-cases :
    (w : World) (ps : List Ptr) (fuel : ℕ) (dev : Ptr)
    → Chain w.devices w.registry ps
    → length ps < fuel
    → w.locked ≡ false
    → dev ≢ null
    → ((has ps dev ≡ false) × (device_unregister fuel dev w ≡ some (negsuc 0, w)))
      ⊎ ((g : Devices) × (q : Ptr) × (has ps dev ≡ true)
          × (device_unregister fuel dev w ≡ some (pos 0, record w { devices = g; registry = q }))
          × Chain g q (without ps dev)
          × (unbacked (g dev) ≡ unbacked (w.devices dev))
          × ((r : Ptr) → unlinked (g r) ≡ unlinked (w.devices r)))
unfolding device_unregister
device_unregister-cases w ps fuel dev c f e n =
    let v = record w { locked = true } in
    rw (ne→== dev null n) (
      rw (◌>>◌, ◌>>=◌, lock_lem w e)
        (elim (unregister_from_head v w.registry ps fuel dev c f refl) [
          | inl (there, run) ↦
              inl (there, run ∙ ap (λ b. some (negsuc 0, record w { locked = b })) (sym e))
          | inr (g, q, there, run, c', alone, kept) ↦ inr (
            g,
            q,
            there,
            run
                ∙ ap (λ b. some (pos 0, record w { devices = g; registry = q; locked = b }))
                    (sym e),
            c',
            alone,
            kept,
          )
        ]))
