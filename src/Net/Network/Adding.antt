-- ===== src/Net/Network/Adding.antt =====
-- `nova_netdev_register` on a state that shows a network.
use nova.Base.{
  ℕ, ◌<◌, ◌≡◌, ◌≢◌, inl, inr, refl, sym, ap, ◌∙◌, subst, true, false, Option, none, some, ◌∷◌,
  length, ◌==◌, get_or, arith, Bool-cases, ne→==, eq→==, ==→eq,
}
use nova.Base.Words.{pos, negsuc}
use nova.Net.State.{Ptr, null, NetDevice, World, ◌>>=◌, update}
use nova.Net.Devices.{register}
use nova.Net.Devices.Chain.{Devices, first_named}
use nova.Net.Devices.Edit.{linked, register-cases}
use nova.Net.Devices.Unlink.{unlinked}
use nova.Net.Network.{answered, invoke, Shows, Meets, is_some, fits}
use nova.Net.Network.Reference.{add_device, code, Network, expect_add, expect}
use nova.Net.Network.Devices.{
  load_dev_lem, answers, first_named-listed, change-devices, HasDevice-update,
}

register_nameless :
    (w : World) (fuel : ℕ) (dev : Ptr) (d : NetDevice)
    → dev ≢ null
    → w.devices dev ≡ some d
    → (get_or d.name 0 0 == 0) ≡ true
    → register fuel dev w ≡ some (negsuc 0, w)
unfolding register
register_nameless w fuel dev d m a z =
    rw (ne→== dev null m) (rw (◌>>=◌, load_dev_lem w dev d m a) (rw z))

enlisted :
    (w : World) (n : Network) (h : Devices) (dev : Ptr) (d : NetDevice)
    → Shows w n
    → h dev ≡ some (linked d w.registry)
    → ((q : Ptr) → q ≢ dev → h q ≡ w.devices q)
    → (q : Ptr)
    → unlinked (h q) ≡ update n.infos dev (some (linked (record d { next = null }) null)) q
enlisted w n h dev d s at same q = elim (Bool-cases (q == dev)) [
  | inl e ↦ rw e (rw (==→eq q dev e) (ap unlinked at))
  | inr e ↦ rw e (ap unlinked (same q (λ x. ground (arith, eq→== q dev x, e))) ∙ s.devices q)
]

-- A device that is added is the first of the list, opened.
pub add_new :
    (w : World) (n : Network) (fuel : ℕ) (dev : Ptr) (d : NetDevice)
    → Shows w n
    → length n.listed < fuel
    → dev ≢ null
    → w.devices dev ≡ some d
    → Meets
        (answered code (register fuel dev))
        w
        (expect_add dev (some (record d { next = null })) n)
add_new w n fuel dev d s f m a = elim (Bool-cases (get_or d.name 0 0 == 0)) [
  | inl t ↦
      rw t
        (answers (register fuel dev) code w (negsuc 0) w n (register_nameless w fuel dev d m a t) s)
  | inr t ↦
      let name_of = first_named-listed w n d.name n.listed s in
      elim (register-cases w n.listed fuel dev d s.chain f m a) [
        | inl (inl z, run) ↦ absurd (ground (arith, eq→== (get_or d.name 0 0) 0 z, t))
        | inl (inr z, run) ↦
            let there : (first_named n.infos n.listed d.name == null) ≡ false =
              ne→== _ null (λ x. z (name_of ∙ x)) in
            rw (t, there) (answers (register fuel dev) code w (negsuc 0) w n run s)
        | inr (h, z, run, c, at, same) ↦
            let gone : (first_named n.infos n.listed d.name == null) ≡ true =
              eq→== _ null (sym name_of ∙ z) in
            let new = linked (record d { next = null }) null in
            rw (t, gone)
              (answers (register fuel dev) code w (pos 0) (record w { devices = h; registry = dev })
                (record n { infos = update n.infos dev (some new); listed = dev ∷ n.listed }) run
                (change-devices w n h w.skbs dev w.initialized n.up (update n.infos dev (some new))
                  (dev ∷ n.listed) s c (enlisted w n h dev d s at same)
                  (HasDevice-update n.infos dev new) s.up))
      ]
]

register-null : (w : World) (fuel : ℕ) → register fuel null w ≡ some (negsuc 0, w)
unfolding register
register-null w fuel = refl

add_at :
    (w : World) (n : Network) (fuel : ℕ) (dev : Ptr) (o : Option NetDevice)
    → Shows w n
    → length n.listed < fuel
    → dev ≢ null
    → w.devices dev ≡ o
    → is_some o ≡ true
    → Meets (answered code (register fuel dev)) w (expect_add dev (n.infos dev) n)
add_at w n fuel dev none s f m a e = cc
add_at w n fuel dev (some d) s f m a e =
    subst (λ o. Meets (answered code (register fuel dev)) w (expect_add dev o n))
      (ap unlinked (sym a) ∙ s.devices dev) (add_new w n fuel dev d s f m a)

pub add-Gives :
    (w : World) (n : Network) (fuel : ℕ) (dev : Ptr)
    → Shows w n
    → length n.listed < fuel
    → fits (add_device dev) w ≡ true
    → Meets (invoke fuel (add_device dev)) w (expect (add_device dev) n)
add-Gives w n fuel dev s f a = elim (Bool-cases (dev == null)) [
  | inl t ↦
      rw (==→eq dev null t)
        (answers (register fuel null) code w (negsuc 0) w n (register-null w fuel) s)
  | inr t ↦ rw t (
      add_at w n fuel dev (w.devices dev) s f (λ e. ground (arith, eq→== dev null e, t)) refl
        (ground (arith, t, a)))
]
