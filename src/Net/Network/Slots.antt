-- ===== src/Net/Network/Slots.antt =====
-- The table of sockets, on a state that shows a network.
use nova.Base.{
  ℕ, ◌≡◌, ◌≢◌, ◌⊎◌, inl, inr, refl, sym, ap, ◌∙◌, Option, none, some, ◌==◌, arith, Bool-cases,
  Option-cases, ne→==, eq→==, ==→eq, subst,
}
use nova.Base.Words.{ℤ}
use nova.Net.State.{Ptr, null, NetDevice, Socket, World, update}
use nova.Net.Sockets.{slot_of, entry}
use nova.Net.Sockets.Inv.{IsValid, at_slot}
use nova.Net.Sockets.Close.{without_slot, without_slot-IsValid, cleared_cases}
use nova.Net.Network.{socket_at, HasDevice, Shows}
use nova.Net.Network.Reference.{Network, socket_in}

-- Slot `i` of the descriptor leads to the socket `s`.
pub record Open (w : World) (n : Network) (fd : ℤ) (i : ℕ) (s : Socket) : Type 0 where
  pub slot : slot_of fd ≡ some i
  pub listed : n.sockets i ≡ some s
  pub pointer : at_slot w i ≢ null
  pub there : w.sockets (at_slot w i) ≡ some s

-- A descriptor leads to no socket, or to one.
pub Open-cases :
    (w : World) (n : Network) (fd : ℤ)
    → Shows w n
    → ((socket_in n (slot_of fd) ≡ none) × (entry w fd ≡ null))
      ⊎ ((i : ℕ) × (s : Socket) × Open w n fd i s)
Open-cases w n fd s = elim (Option-cases (slot_of fd)) [
  | inl e ↦ inl (rw e, rw e)
  | inr (i, e) ↦ elim (Bool-cases (at_slot w i == null)) [
    | inl z ↦
        let gone : n.sockets i ≡ none = sym (s.sockets i) ∙ rw z in
        inl (rw e gone, rw e (==→eq (at_slot w i) null z))
    | inr z ↦
        let m : at_slot w i ≢ null = λ x. ground (arith, eq→== (at_slot w i) null x, z) in
        let (t, a) = s.valid.live i m in
        inr (i, t, record { slot = e; listed = sym (s.sockets i) ∙ rw z a; pointer = m; there = a })
  ]
]

socket_at-live : (w : World) (i : ℕ) → at_slot w i ≢ null → socket_at w i ≡ w.sockets (at_slot w i)
socket_at-live w i m = rw (ne→== (at_slot w i) null m)

socket_at-null : (w : World) (i : ℕ) → at_slot w i ≡ null → socket_at w i ≡ none
socket_at-null w i e = rw (eq→== (at_slot w i) null e)

pub reach-update :
    (h : Ptr → Option NetDevice) (f : ℕ → Option Socket) (i : ℕ) (o : Option Socket)
    → ((j : ℕ) (r : Socket) → f j ≡ some r → HasDevice h r.dev)
    → ((r : Socket) → o ≡ some r → HasDevice h r.dev)
    → (j : ℕ) (r : Socket) → update f i o j ≡ some r
    → HasDevice h r.dev
reach-update h f i o old new j r e = elim (Bool-cases (j == i)) [
  | inl t ↦ new r (rw t at e)
  | inr t ↦ old j r (rw t at e)
]

-- The slots of the new state are those of the old one, but for one.
pub sockets-update :
    (w v : World) (n : Network) (i : ℕ) (o : Option Socket)
    → Shows w n
    → socket_at v i ≡ o
    → ((j : ℕ) → j ≢ i → socket_at v j ≡ socket_at w j)
    → (j : ℕ) → socket_at v j ≡ update n.sockets i o j
sockets-update w v n i o s at off j = elim (Bool-cases (j == i)) [
  | inl t ↦ rw t (ap (socket_at v) (==→eq j i t) ∙ at)
  | inr t ↦ rw t (off j (λ x. ground (arith, eq→== j i x, t)) ∙ s.sockets j)
]

abbrev pub dev_of : Option Socket → Ptr
dev_of none = null
dev_of (some t) = t.dev

write-IsValid :
    (w : World) (i : ℕ) (t : Socket)
    → IsValid w
    → IsValid (record w { sockets = update w.sockets (at_slot w i) (some t) })
write-IsValid w i t v = record {
  slots = v.slots;
  next_in = v.next_in;
  next_pos = v.next_pos;
  beyond = v.beyond;
  live = λ j m. elim (Bool-cases (at_slot w j == at_slot w i)) [
    | inl e ↦ (t, rw e)
    | inr e ↦ let (s, a) = v.live j m in (s, rw e a)
  ];
  distinct = v.distinct;
}

-- A write to a slot's socket leaves the other slots.
write_off :
    (w : World) (i : ℕ) (t : Socket)
    → IsValid w
    → at_slot w i ≢ null
    → (j : ℕ) → j ≢ i
    → socket_at (record w { sockets = update w.sockets (at_slot w i) (some t) }) j ≡ socket_at w j
write_off w i t v m j d = elim (Bool-cases (at_slot w j == null)) [
  | inl z ↦ rw z
  | inr z ↦
      let live : at_slot w j ≢ null = λ x. ground (arith, eq→== (at_slot w j) null x, z) in
      rw (z, ne→== (at_slot w j) (at_slot w i) (λ e. d (v.distinct j i live e)))
]

-- A socket is written to its slot.
pub write-Shows :
    (w : World) (n : Network) (i : ℕ) (t : Socket)
    → Shows w n
    → at_slot w i ≢ null
    → HasDevice n.infos t.dev
    → Shows
        (record w { sockets = update w.sockets (at_slot w i) (some t) })
        (record n { sockets = update n.sockets i (some t) })
write-Shows w n i t s m h =
    let v = record w { sockets = update w.sockets (at_slot w i) (some t) } in
    record {
      chain = s.chain;
      devices = s.devices;
      valid = write-IsValid w i t s.valid;
      sockets =
          sockets-update w v n i (some t) s
            (socket_at-live v i m ∙ rw (eq→== (at_slot w i) (at_slot w i) refl))
            (write_off w i t s.valid m);
      reach =
          reach-update n.infos n.sockets i (some t) s.reach
            (λ r e. subst (HasDevice n.infos) (ap dev_of e) h);
      next = s.next;
      up = s.up;
    }

erase_off :
    (w : World) (i : ℕ)
    → IsValid w
    → at_slot w i ≢ null
    → (j : ℕ) → j ≢ i
    → socket_at (without_slot w i) j ≡ socket_at w j
erase_off w i v m j d = elim (cleared_cases w i j v m) [
  | inl (e, a) ↦ absurd (d e)
  | inr (e, a) ↦ elim (Bool-cases (at_slot w j == null)) [
    | inl z ↦ rw (a, z)
    | inr z ↦
        let live : at_slot w j ≢ null = λ x. ground (arith, eq→== (at_slot w j) null x, z) in
        rw (a, z, ne→== (at_slot w j) (at_slot w i) (λ x. d (v.distinct j i live x)))
  ]
]

pub erase-Shows :
    (w : World) (n : Network) (i : ℕ)
    → Shows w n
    → at_slot w i ≢ null
    → Shows (without_slot w i) (record n { sockets = update n.sockets i none })
erase-Shows w n i s m = record {
  chain = s.chain;
  devices = s.devices;
  valid = without_slot-IsValid w i s.valid m;
  sockets =
      sockets-update w (without_slot w i) n i none s
        (elim (cleared_cases w i i s.valid m) [
          | inl (e, a) ↦ socket_at-null (without_slot w i) i a
          | inr (e, a) ↦ absurd (e refl)
        ])
        (erase_off w i s.valid m);
  reach = reach-update n.infos n.sockets i none s.reach (λ r e. cc);
  next = s.next;
  up = s.up;
}

-- Only the values of a network's table matter.
pub agree-Shows :
    (w : World) (n : Network) (f : ℕ → Option Socket)
    → Shows w n
    → ((i : ℕ) → n.sockets i ≡ f i)
    → Shows w (record n { sockets = f })
agree-Shows w n f s same = record {
  chain = s.chain;
  devices = s.devices;
  valid = s.valid;
  sockets = λ i. s.sockets i ∙ same i;
  reach = λ i t e. s.reach i t (same i ∙ e);
  next = s.next;
  up = s.up;
}

pub Open-write :
    (w : World) (n : Network) (fd : ℤ) (i : ℕ) (t u : Socket)
    → Open w n fd i t
    → Open
        (record w { sockets = update w.sockets (at_slot w i) (some u) })
        (record n { sockets = update n.sockets i (some u) })
        fd
        i
        u
Open-write w n fd i t u o = record {
  slot = o.slot;
  listed = rw (eq→== i i refl);
  pointer = o.pointer;
  there = rw (eq→== (at_slot w i) (at_slot w i) refl);
}

pub update_same :
    (f : ℕ → Option Socket) (i : ℕ) (o : Option Socket) → f i ≡ o → (j : ℕ) → f j ≡ update f i o j
update_same f i o e j = elim (Bool-cases (j == i)) [
  | inl t ↦ rw t (ap f (==→eq j i t) ∙ e)
  | inr t ↦ rw t
]
