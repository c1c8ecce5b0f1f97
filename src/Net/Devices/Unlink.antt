-- ===== src/Net/Devices/Unlink.antt =====
-- What taking a device out of a chain does to the others.
use nova.Base.{
  ◌≡◌, refl, sym, ap, ◌∙◌, ◌≢◌, inl, inr, true, false, Option, none, some, List, ◌∷◌, arith, ◌==◌,
  Bool-cases, ne→==, eq→==, ==→eq,
}
use nova.Net.State.{Ptr, null, NetDevice, World, update, ◌>>=◌, load_dev}
use nova.Net.Devices.{remove, relink}
use nova.Net.Devices.Chain.{Devices, Chain, link, has, Chain-update}
pub use nova.Base.Heap.{without, has-without}

-- the device apart from its link
abbrev pub unlinked : Option NetDevice → Option NetDevice
unlinked none = none
unlinked (some d) = some (record d { next = null })

pub remove_lem :
    (w : World) (prev curr : Ptr) (d c : NetDevice)
    → prev ≢ null
    → curr ≢ null
    → curr ≢ prev
    → w.devices prev ≡ some d
    → w.devices curr ≡ some c
    → remove prev curr w
      ≡ some (
        tt,
        record w {
          devices =
              update
                (update w.devices prev (some (record d { next = c.next })))
                curr
                (some (record c { next = null }));
        },
      )
unfolding remove
remove_lem w prev curr d c n m e a b =
    rw (ne→== curr null m, b, remove, ◌>>=◌, load_dev)
      (rw (ne→== prev null n, a, relink, ◌>>=◌, load_dev)
        (rw (ne→== curr null m, ne→== curr prev e, b, ◌>>=◌, load_dev)))

pub remove_head :
    (w : World) (curr : Ptr) (c : NetDevice)
    → curr ≢ null
    → w.devices curr ≡ some c
    → remove null curr w
      ≡ some (
        tt,
        record w {
          devices = update w.devices curr (some (record c { next = null }));
          registry = c.next;
        },
      )
unfolding remove
remove_head w curr c m b =
    rw (ne→== curr null m, b, remove, ◌>>=◌, load_dev)
      (rw (ne→== curr null m, b, relink, ◌>>=◌, load_dev))

-- What taking `dev` out from behind `prev` leaves: `prev` leads to `q`, which leads through the others.
pub record Unlinked (h g : Devices) (ps : List Ptr) (dev prev q : Ptr) (d : NetDevice)
    : Type 0 where
  pub before : g prev ≡ some (record d { next = q })
  pub others : Chain g q (without ps dev)
  pub outside : (r : Ptr) → r ≢ prev → has ps r ≡ false → g r ≡ h r
  pub alone : g dev ≡ unlinked (h dev)
  pub kept : (r : Ptr) → unlinked (g r) ≡ unlinked (h r)

ne_of_has : (ps : List Ptr) (p q : Ptr) → has ps p ≡ false → has ps q ≡ true → q ≢ p
ne_of_has ps p q out in_ps e = ground arith

pub unlinked-update :
    (h : Devices) (p : Ptr) (v : Option NetDevice)
    → unlinked v ≡ unlinked (h p)
    → (r : Ptr) → unlinked (update h p v r) ≡ unlinked (h r)
unlinked-update h p v e r = elim (Bool-cases (r == p)) [
  | inl t ↦ rw t (rw (==→eq r p t) e)
  | inr t ↦ rw t
]

-- Taking the first device out from behind `prev`.
pub first-Unlinked :
    (h : Devices) (prev curr : Ptr) (ps : List Ptr) (d c : NetDevice)
    → h prev ≡ some d
    → h curr ≡ some c
    → curr ≢ prev
    → has ps prev ≡ false
    → has ps curr ≡ false
    → Chain h c.next ps
    → Unlinked h
        (update
          (update h prev (some (record d { next = c.next })))
          curr
          (some (record c { next = null })))
        (curr ∷ ps)
        curr
        prev
        c.next
        d
first-Unlinked h prev curr ps d c a b e out_prev out_curr l = record {
  before = rw (ne→== prev curr (λ x. e (sym x)), eq→== prev prev refl);
  others =
      rw (eq→== curr curr refl) (Chain-update curr _ (Chain-update prev _ l out_prev) out_curr);
  outside = λ r n m. ground arith;
  alone = rw (eq→== curr curr refl, b);
  kept = λ r.
      unlinked-update (update h prev (some (record d { next = c.next }))) curr
        (some (record c { next = null })) (rw (ne→== curr prev e, b)) r
      ∙ unlinked-update h prev (some (record d { next = c.next })) (rw a) r;
}

-- Taking out one that is further on: the device `curr` before it stays, behind `prev`.
pub later-Unlinked :
    {h g : Devices} {prev curr q : Ptr} {ps : List Ptr} {dev : Ptr} {d c : NetDevice}
    → h prev ≡ some d
    → d.next ≡ curr
    → prev ≢ curr
    → curr ≢ null
    → has ps prev ≡ false
    → has ps curr ≡ false
    → dev ≢ curr
    → Unlinked h g ps dev curr q c
    → Unlinked h g (curr ∷ ps) dev prev curr d
later-Unlinked {h} {g} {prev} {curr} {q} {ps} {dev} {d} {c} a next m n out_prev out_curr e u =
    record {
      before = u.outside prev m out_prev ∙ a ∙ ap (λ p. some (record d { next = p })) next;
      others =
          let kept_first : (curr == dev) ≡ false = ne→== curr dev (λ x. e (sym x)) in
          rw kept_first (link n u.before refl (has-without ps dev curr out_curr) u.others);
      outside = λ r n m. u.outside r (λ x. ground arith) (ground arith);
      alone = u.alone;
      kept = u.kept;
    }
