-- ===== src/Net/Network/Transmit.antt =====
-- The transmission of a packet on a state that shows a network.
use nova.Base.{
  ℕ, ◌≡◌, ◌≢◌, inl, inr, refl, sym, ap, ◌∙◌, Bool, true, false, not, ◌&&◌, Option, none, some, List,
  ◌==◌, if◌then◌else◌, arith, Bool-cases, Option-cases, ne→==, eq→==, ==→eq, subst,
}
use nova.Base.Words.{ℤ, pos, negsuc}
use nova.Net.State.{Ptr, null, NetDevice, XmitFn, World, update, Cmd, pure, ◌>>=◌, load_dev}
use nova.Net.Packets.{xmit_of, alloc_skb}
use nova.Net.Devices.Chain.{Devices, Chain, stop, link}
use nova.Net.Devices.Unlink.{unlinked}
use nova.Net.Sockets.{send_packet}
use nova.Net.Sockets.Send.{counted, kept, packet, send_packet_lem}
use nova.Net.Network.{answered, HasDevice, Shows, Meets}
use nova.Net.Network.Reference.{Answer, code, Network, expect_over, expect_transmit}
use nova.Net.Network.Devices.{load_dev_lem, answers, change-devices, HasDevice-update}

abbrev link_of : Option NetDevice → Ptr
link_of none = null
link_of (some d) = d.next

-- A device keeps its place when its link stays.
Chain-next :
    {h : Devices} {p : Ptr} {ps : List Ptr} (dev : Ptr) (d d' : NetDevice)
    → Chain h p ps
    → h dev ≡ some d
    → d'.next ≡ d.next
    → Chain (update h dev (some d')) p ps
Chain-next dev d d' stop a e = stop
Chain-next {h} dev d d' (link {p} {q} {d = d0} n b l out c) a e = elim (Bool-cases (p == dev)) [
  | inl t ↦
      let same : d.next ≡ q = ap link_of (sym a ∙ ap h (sym (==→eq p dev t)) ∙ b) ∙ l in
      link {d = d'} n (rw t) (e ∙ same) out (Chain-next dev d d' c a e)
  | inr t ↦ link {d = d0} n (rw t b) l out (Chain-next dev d d' c a e)
]

-- what `nova_send` does when it has the device
abbrev pub transmit_on : Ptr → Bool → List ℕ → ℕ → Ptr → Cmd ℤ
transmit_on fresh data_ok bytes len dev = if dev == null then pure (negsuc 0) else do
  d ← load_dev dev
  elim (xmit_of d) [ none ↦ pure (negsuc 0) | some f ↦ send_packet fresh data_ok dev bytes len ]

no_skb :
    (w : World) (fresh : Ptr) (data_ok : Bool) (len : ℕ)
    → (not (fresh == null) && data_ok) ≡ false
    → alloc_skb fresh data_ok len w ≡ some (null, w)
unfolding alloc_skb
no_skb w fresh true len e = let z : (fresh == null) ≡ true = ground (arith, e) in rw z
no_skb w fresh false len e = elim (Bool-cases (fresh == null)) [ inl z ↦ rw z | inr z ↦ rw z ]

no_room :
    (w : World) (fresh dev : Ptr) (data_ok : Bool) (bytes : List ℕ) (len : ℕ)
    → (not (fresh == null) && data_ok) ≡ false
    → send_packet fresh data_ok dev bytes len w ≡ some (negsuc 0, w)
unfolding send_packet
no_room w fresh dev data_ok bytes len e = rw (◌>>=◌, no_skb w fresh data_ok len e)

sent_infos :
    (w : World) (n : Network) (dev : Ptr) (d : NetDevice) (f : XmitFn) (len : ℕ)
    → Shows w n
    → (q : Ptr)
    → unlinked (update w.devices dev (some (record d { stats = counted f d.stats len })) q)
      ≡ update n.infos dev (some (record d { next = null; stats = counted f d.stats len })) q
sent_infos w n dev d f len s q = elim (Bool-cases (q == dev)) [
  | inl t ↦ rw t
  | inr t ↦ rw t (s.devices q)
]

-- What follows when the device's function is known.
abbrev over : Option XmitFn → Ptr → Bool → List ℕ → ℕ → Ptr → Cmd ℤ
over none fresh data_ok bytes len dev = pure (negsuc 0)
over (some f) fresh data_ok bytes len dev = send_packet fresh data_ok dev bytes len

abbrev pub as_code : Option (ℤ × World) → Option (Answer × World)
as_code o = elim o [ none ↦ none | some x ↦ some (code x.0, x.1) ]

transmit_run :
    (w : World) (fresh : Ptr) (data_ok : Bool) (bytes : List ℕ) (len : ℕ) (dev : Ptr)
    (d : NetDevice) (o : Option XmitFn)
    → dev ≢ null
    → w.devices dev ≡ some d
    → xmit_of d ≡ o
    → transmit_on fresh data_ok bytes len dev w ≡ over o fresh data_ok bytes len dev w
transmit_run w fresh data_ok bytes len dev d none m a e =
    rw (ne→== dev null m) (rw (◌>>=◌, load_dev_lem w dev d m a) (rw e))
transmit_run w fresh data_ok bytes len dev d (some f) m a e =
    rw (ne→== dev null m) (rw (◌>>=◌, load_dev_lem w dev d m a) (rw e))

room_parts :
    (fresh : Ptr) (data_ok : Bool)
    → (not (fresh == null) && data_ok) ≡ true
    → (fresh ≢ null) × (data_ok ≡ true)
room_parts fresh true e = (λ x. ground (arith, eq→== fresh null x, e), refl)
room_parts fresh false e = ground (arith, e)

over-Meets :
    (w : World) (n : Network) (fresh : Ptr) (data_ok : Bool) (bytes : List ℕ) (len : ℕ) (dev : Ptr)
    (d : NetDevice) (o : Option XmitFn)
    → Shows w n
    → dev ≢ null
    → len ≢ 0
    → w.devices dev ≡ some d
    → xmit_of d ≡ o
    → Meets
        (answered code (over o fresh data_ok bytes len dev))
        w
        (expect_over o (not (fresh == null) && data_ok) len dev (record d { next = null }) n)
over-Meets w n fresh data_ok bytes len dev d none s m z a e =
    answers (over none fresh data_ok bytes len dev) code w (negsuc 0) w n refl s
over-Meets w n fresh data_ok bytes len dev d (some f) s m z a e =
    let it = over (some f) fresh data_ok bytes len dev in
    elim (Bool-cases (not (fresh == null) && data_ok)) [
      | inl b ↦
          let (live, ok) = room_parts fresh data_ok b in
          let new = some (record d { stats = counted f d.stats len }) in
          let g = update w.devices dev new in
          let k = update w.skbs fresh (kept f (packet dev bytes len)) in
          let seen = some (record d { next = null; stats = counted f d.stats len }) in
          rw b (
            answers it code w (pos len) (record w { devices = g; skbs = k })
              (record n { infos = update n.infos dev seen })
              (rw ok (send_packet_lem w fresh dev bytes len d f live z m a e))
              (change-devices w n g k w.registry w.initialized n.up (update n.infos dev seen)
                n.listed s
                (Chain-next dev d (record d { stats = counted f d.stats len }) s.chain a refl)
                (sent_infos w n dev d f len s)
                (HasDevice-update n.infos dev
                  (record d { next = null; stats = counted f d.stats len }))
                s.up))
      | inr b ↦ rw b (answers it code w (negsuc 0) w n (no_room w fresh dev data_ok bytes len b) s)
    ]

-- The device that a socket stands on transmits.
pub transmit-Meets :
    (w : World) (n : Network) (fresh : Ptr) (data_ok : Bool) (bytes : List ℕ) (len : ℕ) (dev : Ptr)
    → Shows w n
    → HasDevice n.infos dev
    → dev ≢ null
    → len ≢ 0
    → Meets
        (answered code (transmit_on fresh data_ok bytes len dev))
        w
        (expect_transmit (not (fresh == null) && data_ok) len dev (n.infos dev) n)
transmit-Meets w n fresh data_ok bytes len dev s (inl e) m z = absurd (m e)
transmit-Meets w n fresh data_ok bytes len dev s (inr (t, b)) m z =
    elim (Option-cases (w.devices dev)) [
      | inl a ↦ let gone : some t ≡ none = sym b ∙ sym (s.devices dev) ∙ ap unlinked a in cc
      | inr (d, a) ↦
          let seen : some (record d { next = null }) ≡ n.infos dev =
            ap unlinked (sym a) ∙ s.devices dev in
          let (v, run, s') =
            over-Meets w n fresh data_ok bytes len dev d (xmit_of d) s m z a refl in
          subst
            (λ o.
              Meets (answered code (transmit_on fresh data_ok bytes len dev)) w
                (expect_transmit (not (fresh == null) && data_ok) len dev o n))
            seen
            (
              v,
              ap as_code (transmit_run w fresh data_ok bytes len dev d (xmit_of d) m a refl) ∙ run,
              s',
            )
    ]
