-- ===== src/Net/Network/Devices.antt =====
-- The calls on devices, on a state that shows a network.
use nova.Base.{
  ℕ, zero, suc, ◌<◌, ◌≡◌, ◌≢◌, inl, inr, refl, sym, ap, ◌∙◌, Bool, true, false, Option, none, some,
  List, [], ◌∷◌, length, ◌==◌, replicate, arith, Bool-cases, ne→==, eq→==, ==→eq,
}
use nova.Base.Words.{pos, negsuc}
use nova.Net.State.{Ptr, null, NetDevice, Skb, World, Cmd, pure, ◌>>=◌, ◌>>◌, update, load_dev}
use nova.Net.Devices.{find, unregister, unlink_all, network_shutdown}
use nova.Net.Devices.Chain.{Devices, Chain, stop, link, has, named, first_named, Chain-update}
use nova.Net.Devices.Find.{find-first_named}
use nova.Net.Devices.Unlink.{unlinked, unlinked-update, without}
use nova.Net.Devices.Unregister.{unregister-cases}
use nova.Net.Sockets.{table_size, network_init}
use nova.Net.Sockets.Inv.{empty-IsValid, get_or-replicate}
use nova.Net.Network.{answered, invoke, HasDevice, Shows, Gives, Meets}
use nova.Net.Network.Reference.{drop_device, Answer, code, Network, started, expect}

pub bind-some :
    {A B : Type 0} (m : Cmd A) (k : A → Cmd B) (w : World) {v : World} {a : A}
    → m w ≡ some (a, v)
    → (m >>= k) w ≡ k a v
bind-some m k w e = rw (◌>>=◌, e)

pub load_dev_lem :
    (w : World) (p : Ptr) (d : NetDevice)
    → p ≢ null
    → w.devices p ≡ some d
    → load_dev p w ≡ some (d, w)
load_dev_lem w p d n a = rw (ne→== p null n) (rw a)

-- A command and its answer, from the state that it leaves.
pub answers :
    {A : Type 0} (m : Cmd A) (f : A → Answer) (w : World) (a : A) (v : World) (n : Network)
    → m w ≡ some (a, v)
    → Shows v n
    → Gives (answered f m) w (f a) n
answers m f w a v n e s = (v, bind-some m (λ x. pure (f x)) w e, s)

-- The devices of the network have the names of those in memory.
named-unlinked :
    (o : Option NetDevice) (p : Ptr) (name : List ℕ)
    → named (λ q. unlinked o) p name ≡ named (λ q. o) p name
named-unlinked none p name = refl
named-unlinked (some d) p name = refl

pub first_named-listed :
    (w : World) (n : Network) (name : List ℕ) (ps : List Ptr)
    → Shows w n
    → first_named w.devices ps name ≡ first_named n.infos ps name
first_named-listed w n name [] s = refl
first_named-listed w n name (p ∷ ps) s =
    let one : named n.infos p name ≡ named w.devices p name =
      ap (λ o. named (λ q. o) p name) (sym (s.devices p)) ∙ named-unlinked (w.devices p) p name in
    rw (one, first_named-listed w n name ps s)

-- A state with other devices and packets, and the same sockets.
pub change-devices :
    (w : World) (n : Network) (h : Devices) (k : Ptr → Option Skb) (p : Ptr) (b b' : Bool)
    (infos : Ptr → Option NetDevice) (ps : List Ptr)
    → Shows w n
    → Chain h p ps
    → ((q : Ptr) → unlinked (h q) ≡ infos q)
    → ((q : Ptr) → HasDevice n.infos q → HasDevice infos q)
    → b ≡ b'
    → Shows
        (record w { devices = h; skbs = k; registry = p; initialized = b })
        (record n { infos = infos; listed = ps; up = b' })
change-devices w n h k p b b' infos ps s c same more e = record {
  chain = c;
  devices = same;
  valid = record {
    slots = s.valid.slots;
    next_in = s.valid.next_in;
    next_pos = s.valid.next_pos;
    beyond = s.valid.beyond;
    live = s.valid.live;
    distinct = s.valid.distinct;
  };
  sockets = s.sockets;
  reach = λ i t r. more t.dev (s.reach i t r);
  next = s.next;
  up = e;
}

pub HasDevice-update :
    (h : Ptr → Option NetDevice) (p : Ptr) (d : NetDevice) (q : Ptr)
    → HasDevice h q
    → HasDevice (update h p (some d)) q
HasDevice-update h p d q (inl e) = inl e
HasDevice-update h p d q (inr (t, a)) =
    inr (elim (Bool-cases (q == p)) [ inl e ↦ (d, rw e) | inr e ↦ (t, rw e a) ])

-- the state that `nova_network_init` leaves
abbrev pub inited : World → World
inited w = record w {
  table = replicate table_size null;
  next_fd = 1;
  initialized = true;
  registry = null;
}

pub inited-Shows : (w : World) (n : Network) → Shows w n → Shows (inited w) (started n)
inited-Shows w n s = record {
  chain = stop;
  devices = s.devices;
  valid = empty-IsValid (inited w) refl refl;
  sockets = λ i. rw (get_or-replicate table_size i);
  reach = λ i t e. cc;
  next = refl;
  up = refl;
}

pub init-Gives : (w : World) (n : Network) → Shows w n → Gives network_init w (pos 0) (started n)
unfolding network_init
init-Gives w n s = (inited w, refl, inited-Shows w n s)

unlink_all_lem :
    (w : World) (p : Ptr) (ps : List Ptr) (fuel : ℕ)
    → Chain w.devices p ps
    → length ps < fuel
    → (g : Devices) × (unlink_all fuel p w ≡ some (tt, record w { devices = g }))
      × ((r : Ptr) → unlinked (g r) ≡ unlinked (w.devices r))
unfolding unlink_all
unlink_all_lem w _ _ zero c f = absurd (omega arith)
unlink_all_lem w _ _ (suc fuel) stop f = (w.devices, refl, λ r. refl)
unlink_all_lem w _ _ (suc fuel) (link {p} {q} {d} {ps} n a e o c) f =
    let cut = some (record d { next = null }) in
    let v = record w { devices = update w.devices p cut } in
    let c' : Chain v.devices d.next ps = rw e (Chain-update p cut c o) in
    let (g, run, same) = unlink_all_lem v d.next ps fuel c' (omega arith) in
    (
      g,
      rw (ne→== p null n) (rw (◌>>=◌, load_dev_lem w p d n a) run),
      λ r. same r ∙ unlinked-update w.devices p cut (rw a) r,
    )

pub halt-Gives :
    (w : World) (n : Network) (fuel : ℕ)
    → Shows w n
    → length n.listed < fuel
    → Gives (network_shutdown fuel) w (pos 0) (record n { listed = []; up = false })
unfolding network_shutdown
halt-Gives w n fuel s f =
    let (g, run, same) = unlink_all_lem w w.registry n.listed fuel s.chain f in
    (
      record w { devices = g; registry = null; initialized = false },
      rw (◌>>◌, ◌>>=◌, run),
      change-devices w n g w.skbs null false false n.infos [] s stop (λ q. same q ∙ s.devices q)
          (λ q h. h) refl,
    )

-- A search changes nothing, and gives what the network gives.
pub find_run :
    (w : World) (n : Network) (fuel : ℕ) (name : List ℕ)
    → Shows w n
    → length n.listed < fuel
    → find fuel (some name) w ≡ some (first_named n.infos n.listed name, w)
find_run w n fuel name s f =
    find-first_named w n.listed fuel name s.chain f
    ∙ ap (λ p. some (p, w)) (first_named-listed w n name n.listed s)

has-null : {h : Devices} {p : Ptr} {ps : List Ptr} → Chain h p ps → has ps null ≡ false
has-null stop = refl
has-null (link {p} n a e o c) = rw (ne→== null p λ x. n (sym x)) (has-null c)

unregister-null : (w : World) (fuel : ℕ) → unregister fuel null w ≡ some (negsuc 0, w)
unfolding unregister
unregister-null w fuel = refl

pub drop-Gives :
    (w : World) (n : Network) (fuel : ℕ) (dev : Ptr)
    → Shows w n
    → length n.listed < fuel
    → Meets (invoke fuel (drop_device dev)) w (expect (drop_device dev) n)
drop-Gives w n fuel dev s f = elim (Bool-cases (dev == null)) [
  | inl t ↦ rw (==→eq dev null t) (
      rw (has-null s.chain)
        (answers (unregister fuel null) code w (negsuc 0) w n (unregister-null w fuel) s))
  | inr t ↦
      elim (unregister-cases w n.listed fuel dev s.chain f
        (λ e. ground (arith, eq→== dev null e, t))) [
          | inl (out, run) ↦ rw out (answers (unregister fuel dev) code w (negsuc 0) w n run s)
          | inr (g, q, there, run, c, alone, kept) ↦ rw there (
              answers (unregister fuel dev) code w (pos 0) (record w { devices = g; registry = q })
                (record n { listed = without n.listed dev }) run
                (change-devices w n g w.skbs q w.initialized n.up n.infos (without n.listed dev) s c
                  (λ r. kept r ∙ s.devices r) (λ r h. h) s.up))
        ]
]
