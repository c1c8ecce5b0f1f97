-- ===== src/Io/Registry/Unlink.antt =====
-- What taking a device out of a chain does to the others.
use nova.Base.{
  ◌≡◌, refl, sym, ap, ◌∙◌, ◌≢◌, inl, inr, false, Option, none, some, List, ◌∷◌, arith, ◌==◌,
  Bool-cases, ne→==, eq→==, ==→eq,
}
use nova.Base.Heap.{update, has, without, has-without}
use nova.Io.State.{Ptr, null, Device, World, ◌>>=◌}
use nova.Io.Calls.{load_dev_lem}
use nova.Io.Registry.{take_out}
use nova.Io.Registry.Backlink.{unbacked, next_of_eq, has-apart, DeviceOrNull, set_prev_lem}
use nova.Io.Chain.{Devices, Chain, link, Chain-agree}

-- a device without its links
abbrev pub unlinked : Option Device → Option Device
unlinked none = none
unlinked (some d) = some (record d { next = null; prev = null })

unlinked-unbacked : (o : Option Device) → unlinked (unbacked o) ≡ unlinked o
unlinked-unbacked none = refl
unlinked-unbacked (some d) = refl

pub unlinked_eq : (o o' : Option Device) → unbacked o ≡ unbacked o' → unlinked o ≡ unlinked o'
unlinked_eq o o' e = sym (unlinked-unbacked o) ∙ ap unlinked e ∙ unlinked-unbacked o'

unlinked-update :
    (h : Devices) (p : Ptr) (v : Option Device)
    → unlinked v ≡ unlinked (h p)
    → (r : Ptr) → unlinked (update h p v r) ≡ unlinked (h r)
unlinked-update h p v e r = elim (Bool-cases (r == p)) [
  | inl t ↦ rw t (rw (==→eq r p t) e)
  | inr t ↦ rw t
]

pub take_out_lem :
    (w : World) (prev curr : Ptr) (d c : Device)
    → prev ≢ null
    → curr ≢ null
    → curr ≢ prev
    → w.devices prev ≡ some d
    → w.devices curr ≡ some c
    → DeviceOrNull (update w.devices prev (some (record d { next = c.next }))) c.next
    → (g : Devices) × (take_out prev curr w ≡ some (tt, record w { devices = g }))
      × ((r : Ptr)
          → unbacked (g r) ≡ unbacked (update w.devices prev (some (record d { next = c.next })) r))
unfolding take_out
take_out_lem w prev curr d c n m a e b o =
    let v = record w { devices = update w.devices prev (some (record d { next = c.next })) } in
    let at : v.devices curr ≡ some c = rw (ne→== curr prev a, b) in
    let (g, run, same) = set_prev_lem v c.next prev o in
    (
      g,
      rw (◌>>=◌, load_dev_lem w curr c m b)
          (rw (ne→== prev null n)
            (rw (◌>>=◌, load_dev_lem w prev d n e) (rw (◌>>=◌, load_dev_lem v curr c m at) run))),
      same,
    )

pub take_out_head :
    (w : World) (curr : Ptr) (c : Device)
    → curr ≢ null
    → w.devices curr ≡ some c
    → DeviceOrNull w.devices c.next
    → (g : Devices) × (take_out null curr w
        ≡ some (tt, record w { devices = g; registry = c.next }))
      × ((r : Ptr) → unbacked (g r) ≡ unbacked (w.devices r))
unfolding take_out
take_out_head w curr c m b o =
    let v = record w { registry = c.next } in
    let (g, run, same) = set_prev_lem v c.next null o in
    (g, rw (◌>>=◌, load_dev_lem w curr c m b) (rw (◌>>=◌, load_dev_lem v curr c m b) run), same)

-- What taking `dev` out from behind `prev` leaves: `prev` leads to `q`, which leads through the others.
pub record Unlinked (h g : Devices) (ps : List Ptr) (dev prev q : Ptr) (d : Device) : Type 0 where
  pub before : unbacked (g prev) ≡ unbacked (some (record d { next = q }))
  pub others : Chain g q (without ps dev)
  pub outside : (r : Ptr) → r ≢ prev → has ps r ≡ false → unbacked (g r) ≡ unbacked (h r)
  pub alone : unbacked (g dev) ≡ unbacked (h dev)
  pub kept : (r : Ptr) → unlinked (g r) ≡ unlinked (h r)

-- Taking the first device out from behind `prev`.
pub first-Unlinked :
    (h g : Devices) (prev curr : Ptr) (ps : List Ptr) (d c : Device)
    → h prev ≡ some d
    → curr ≢ prev
    → has ps prev ≡ false
    → Chain h c.next ps
    → ((r : Ptr) → unbacked (g r) ≡ unbacked (update h prev (some (record d { next = c.next })) r))
    → Unlinked h g (curr ∷ ps) curr prev c.next d
first-Unlinked h g prev curr ps d c a e out l same =
    let off : (r : Ptr) → r ≢ prev → unbacked (g r) ≡ unbacked (h r) =
      λ r n. same r ∙ ap unbacked (rw (ne→== r prev n)) in
    record {
      before = same prev ∙ rw (eq→== prev prev refl);
      others =
          rw (eq→== curr curr refl)
            (Chain-agree l λ r i. next_of_eq (g r) (h r) (off r (has-apart ps prev r out i)));
      outside = λ r n m. off r n;
      alone = off curr e;
      kept = λ r.
          unlinked_eq (g r) (update h prev (some (record d { next = c.next })) r) (same r)
          ∙ unlinked-update h prev (some (record d { next = c.next })) (rw a) r;
    }

-- Taking out one that is further on: the device `curr` before it stays, behind `prev`.
pub later-Unlinked :
    {h g : Devices} {prev curr q : Ptr} {ps : List Ptr} {dev : Ptr} {d c : Device}
    → h prev ≡ some d
    → d.next ≡ curr
    → prev ≢ curr
    → curr ≢ null
    → has ps prev ≡ false
    → has ps curr ≡ false
    → dev ≢ curr
    → Unlinked h g ps dev curr q c
    → Unlinked h g (curr ∷ ps) dev prev curr d
later-Unlinked {h} {g} {prev} {curr} {q} {ps} {dev} {d} {c} a next m n out_prev out_curr e u =
    record {
      before =
          u.outside prev m out_prev
          ∙ ap unbacked a
          ∙ ap (λ p. unbacked (some (record d { next = p }))) next;
      others =
          let stays : (curr == dev) ≡ false = ne→== curr dev (λ x. e (sym x)) in
          rw stays (
            link n (next_of_eq (g curr) (some (record c { next = q })) u.before)
              (has-without ps dev curr out_curr) u.others);
      outside = λ r n m. u.outside r (λ x. ground (arith, x, m)) (ground (arith, m));
      alone = u.alone;
      kept = u.kept;
    }
