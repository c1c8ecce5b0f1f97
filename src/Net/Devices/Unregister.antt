-- ===== src/Net/Devices/Unregister.antt =====
-- `nova_netdev_unregister` on a chain.
use nova.Base.{
  ℕ, zero, suc, ◌<◌, ◌≡◌, refl, sym, ap, ◌∙◌, ◌≢◌, ◌⊎◌, inl, inr, true, false, some, List, arith,
  length, ◌==◌, Bool-cases, ne→==, eq→==, ==→eq,
}
use nova.Base.Words.{pos, negsuc}
use nova.Net.State.{Ptr, null, NetDevice, World, update, ◌>>=◌, load_dev, answer}
use nova.Net.Devices.{unregister, unregister_from}
use nova.Net.Devices.Chain.{Devices, Chain, stop, link, has, Chain-update}
use nova.Net.Devices.Unlink.{
  without, has-without, unlinked, remove_lem, remove_head, Unlinked, unlinked-update,
  first-Unlinked, later-Unlinked,
}

step :
    (w : World) (fuel : ℕ) (dev prev p : Ptr) (d : NetDevice)
    → p ≢ null
    → p ≢ dev
    → w.devices p ≡ some d
    → unregister_from (suc fuel) dev prev p w ≡ unregister_from fuel dev p d.next w
unfolding unregister_from
step w fuel dev prev p d m e b =
    rw (ne→== p null m, ne→== p dev e) (rw (ne→== p null m, b, ◌>>=◌, load_dev))

-- The walk from `curr`, which is behind `prev`.
unregister_from-cases :
    (w : World) (fuel : ℕ) (dev prev curr : Ptr) (ps : List Ptr) (d : NetDevice)
    → prev ≢ null
    → w.devices prev ≡ some d
    → d.next ≡ curr
    → has ps prev ≡ false
    → Chain w.devices curr ps
    → length ps < fuel
    → ((has ps dev ≡ false) × (unregister_from fuel dev prev curr w ≡ some (negsuc 0, w)))
      ⊎ ((g : Devices) × (q : Ptr) × (has ps dev ≡ true)
          × (unregister_from fuel dev prev curr w ≡ some (pos 0, record w { devices = g }))
          × Unlinked w.devices g ps dev prev q d)
unfolding unregister_from
unregister_from-cases w zero dev prev curr ps d n a e out c f = absurd (omega arith)
unregister_from-cases w (suc fuel) dev prev _ _ d n a e out stop f = inl (refl, refl)
unregister_from-cases w (suc fuel) dev prev _ _ before n a e out
      (link {p} {q} {d} {ps} m b l o rest) f =
    let apart : p ≢ prev = λ x. ground arith in
    let out_prev : has ps prev ≡ false = ground arith in
    elim (Bool-cases (dev == p)) [
      | inl t ↦ rw (==→eq dev p t) (
          inr (
            _,
            d.next,
            rw (eq→== p p refl),
            rw (ne→== p null m, eq→== p p refl)
                (ap answer (remove_lem w prev p before d n m apart a b)),
            first-Unlinked w.devices prev p ps before d a b apart out_prev o (rw l rest),
          ))
      | inr t ↦
          let other : dev ≢ p = λ x. ground arith in
          elim (unregister_from-cases w fuel dev p q ps d m b l o rest (omega arith)) [
            | inl (none_there, run) ↦
                inl
                  (rw (t, none_there), step w fuel dev prev p d m (λ x. other (sym x)) b ∙ rw l run)
            | inr (g, r, there, run, u) ↦ inr (
              g,
              p,
              rw (t, there),
              step w fuel dev prev p d m (λ x. other (sym x)) b ∙ rw l run,
              later-Unlinked a e (λ x. apart (sym x)) m out_prev o other u,
            )
          ]
    ]

head_cases :
    (w : World) (p : Ptr) (ps : List Ptr) (fuel : ℕ) (dev : Ptr)
    → Chain w.devices p ps
    → length ps < fuel
    → w.registry ≡ p
    → ((has ps dev ≡ false) × (unregister_from fuel dev null p w ≡ some (negsuc 0, w)))
      ⊎ ((g : Devices) × (q : Ptr) × (has ps dev ≡ true)
          × (unregister_from fuel dev null p w
              ≡ some (pos 0, record w { devices = g; registry = q }))
          × Chain g q (without ps dev)
          × (g dev ≡ unlinked (w.devices dev))
          × ((r : Ptr) → unlinked (g r) ≡ unlinked (w.devices r)))
unfolding unregister_from
head_cases w _ _ zero dev c f h = absurd (omega arith)
head_cases w _ _ (suc fuel) dev stop f h = inl (refl, refl)
head_cases w _ _ (suc fuel) dev (link {p} {q} {d} {ps} m b l o rest) f h =
    elim (Bool-cases (dev == p)) [
      | inl t ↦ rw (==→eq dev p t) (
          inr (
            update w.devices p (some (record d { next = null })),
            d.next,
            rw (eq→== p p refl),
            rw (ne→== p null m, eq→== p p refl) (ap answer (remove_head w p d m b)),
            rw (eq→== p p refl) (Chain-update p _ (rw l rest) o),
            rw (eq→== p p refl, b),
            unlinked-update w.devices p _ (rw b),
          ))
      | inr t ↦
          let other : dev ≢ p = λ x. ground arith in
          let one = step w fuel dev null p d m (λ x. other (sym x)) b in
          elim (unregister_from-cases w fuel dev p q ps d m b l o rest (omega arith)) [
            | inl (none_there, run) ↦ inl (rw (t, none_there), one ∙ rw l run)
            | inr (g, r, there, run, u) ↦ inr (
              g,
              p,
              rw (t, there),
              one ∙ rw l (run ∙ ap (λ x. some (pos 0, record w { devices = g; registry = x })) h),
              rw (ne→== p dev (λ x. other (sym x)))
                  (link m u.before refl (has-without ps dev p o) u.others),
              u.alone,
              u.kept,
            )
          ]
    ]

-- On a chain, with more fuel than devices, `nova_netdev_unregister` returns -1 and changes nothing
-- for an address other than NULL that is not registered. Else it returns 0: the list leads through
-- the other devices in their order, the device's link is NULL, and no device has changed but for
-- its link.
pub unregister-cases :
    (w : World) (ps : List Ptr) (fuel : ℕ) (dev : Ptr)
    → Chain w.devices w.registry ps
    → length ps < fuel
    → dev ≢ null
    → ((has ps dev ≡ false) × (unregister fuel dev w ≡ some (negsuc 0, w)))
      ⊎ ((g : Devices) × (q : Ptr) × (has ps dev ≡ true)
          × (unregister fuel dev w ≡ some (pos 0, record w { devices = g; registry = q }))
          × Chain g q (without ps dev)
          × (g dev ≡ unlinked (w.devices dev))
          × ((r : Ptr) → unlinked (g r) ≡ unlinked (w.devices r)))
unfolding unregister
unregister-cases w ps fuel dev c f n =
    rw (ne→== dev null n, unregister) (head_cases w w.registry ps fuel dev c f refl)
