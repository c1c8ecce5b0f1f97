-- ===== src/Net/Network/Drivers.antt =====
-- The drivers' initialisation, on a state that shows a network.
use nova.Base.{
  ℕ, ◌<◌, ◌≤◌, ◌≡◌, inl, inr, refl, true, false, not, some, List, [], ◌∷◌, length, ◌==◌, arith,
  Bool-cases, eq→==,
}
use nova.Net.State.{Ptr, null, NetDevice, World, update}
use nova.Net.Devices.{register, loopback_init, nic_stub_init, fresh_lo, fresh_nic}
use nova.Net.Devices.Chain.{Devices, Chain, stop, link, has}
use nova.Net.Devices.Unlink.{unlinked}
use nova.Net.Network.{answered, invoke, Shows, Meets}
use nova.Net.Network.Reference.{
  load_loopback, load_nic, code, Network, upto, reset, expect_add, expect,
}
use nova.Net.Network.Devices.{change-devices, HasDevice-update}
use nova.Net.Network.Adding.{add_new}

has-upto : (ps : List Ptr) (q r : Ptr) → has ps r ≡ false → has (upto ps q) r ≡ false
has-upto [] q r e = refl
has-upto (p ∷ ps) q r e = elim (Bool-cases (p == q)) [
  | inl t ↦ rw t (ground (arith, e))
  | inr t ↦ rw t (ground (arith, e, has-upto ps q r))
]

pub length-upto : (ps : List Ptr) (q : Ptr) → length (upto ps q) ≤ length ps
length-upto [] q = omega arith
length-upto (p ∷ ps) q = elim (Bool-cases (p == q)) [
  | inl t ↦ rw t (omega arith)
  | inr t ↦ rw t (omega (arith, length-upto ps q))
]

-- A device whose link is cut is the last of the chain.
Chain-upto :
    {h : Devices} {p : Ptr} {ps : List Ptr} (dev : Ptr) (d : NetDevice)
    → Chain h p ps
    → d.next ≡ null
    → Chain (update h dev (some d)) p (upto ps dev)
Chain-upto dev d stop e = stop
Chain-upto dev d (link {p} {q} {d = c} {ps} n a l out rest) e = elim (Bool-cases (p == dev)) [
  | inl t ↦ rw t (link {d = d} n (rw t) e refl stop)
  | inr t ↦ rw t (link {d = c} n (rw t a) l (has-upto ps dev p out) (Chain-upto dev d rest e))
]

reset_infos :
    (w : World) (n : Network) (dev : Ptr) (d : NetDevice)
    → Shows w n
    → unlinked (some d) ≡ some d
    → (q : Ptr) → unlinked (update w.devices dev (some d) q) ≡ update n.infos dev (some d) q
reset_infos w n dev d s e q = elim (Bool-cases (q == dev)) [
  | inl t ↦ rw t e
  | inr t ↦ rw t (s.devices q)
]

reset-Shows :
    (w : World) (n : Network) (dev : Ptr) (d : NetDevice)
    → Shows w n
    → d.next ≡ null
    → unlinked (some d) ≡ some d
    → Shows (record w { devices = update w.devices dev (some d) }) (reset dev d n)
reset-Shows w n dev d s e u =
    change-devices w n (update w.devices dev (some d)) w.skbs w.registry w.initialized n.up
      (update n.infos dev (some d)) (upto n.listed dev) s (Chain-upto dev d s.chain e)
      (reset_infos w n dev d s u) (HasDevice-update n.infos dev d) s.up

added :
    (w : World) (n : Network) (fuel : ℕ) (dev : Ptr) (d : NetDevice)
    → Shows w n
    → length n.listed < fuel
    → not (dev == null) ≡ true
    → d.next ≡ null
    → unlinked (some d) ≡ some d
    → Meets
        (answered code (register fuel dev))
        (record w { devices = update w.devices dev (some d) })
        (expect_add dev (some (record d { next = null })) (reset dev d n))
added w n fuel dev d s f a e u =
    add_new (record w { devices = update w.devices dev (some d) }) (reset dev d n) fuel dev d
      (reset-Shows w n dev d s e u) (omega (arith, length-upto n.listed dev))
      (λ x. ground (arith, eq→== dev null x, a)) (rw (eq→== dev dev refl))

pub load-Meets :
    (w : World) (n : Network) (fuel : ℕ) (dev : Ptr)
    → Shows w n
    → length n.listed < fuel
    → not (dev == null) ≡ true
    → Meets (invoke fuel (load_loopback dev)) w (expect (load_loopback dev) n)
      × Meets (invoke fuel (load_nic dev)) w (expect (load_nic dev) n)
unfolding loopback_init nic_stub_init
load-Meets w n fuel dev s f a =
    (added w n fuel dev fresh_lo s f a refl refl, added w n fuel dev fresh_nic s f a refl refl)
