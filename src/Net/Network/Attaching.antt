-- ===== src/Net/Network/Attaching.antt =====
-- The device that a socket stands on, and `nova_connect`, which looks for one.
use nova.Base.{
  ℕ, ◌<◌, ◌≡◌, inl, inr, refl, ap, true, Option, none, some, List, [], ◌∷◌, length, ◌==◌,
  Bool-cases,
}
use nova.Base.Words.{ℤ, pos, negsuc}
use nova.Base.CString.{codes}
use nova.Net.State.{Ptr, null, NetDevice, Socket, World, update, pure, ◌>>=◌, ◌>>◌}
use nova.Net.Devices.Chain.{named, first_named}
use nova.Net.Packets.Laws.{update_twice}
use nova.Net.Sockets.{slot_of, lookup, set_socket_state, device_of, connect}
use nova.Net.Sockets.Inv.{at_slot}
use nova.Net.Network.{invoke, HasDevice, Shows, Gives, Meets}
use nova.Net.Network.Reference.{
  connect_to, code, Network, lo_in, attached, put_socket, expect_change, expect,
}
use nova.Net.Network.Devices.{find_run}
use nova.Net.Network.Slots.{Open, write-Shows, agree-Shows, Open-write, update_same}
use nova.Net.Network.Sockets.{on_socket, from_entry, load_socket_lem, looked}

-- The device that a name finds is there.
named-some :
    (o : Option NetDevice) (p : Ptr) (name : List ℕ)
    → named (λ q. o) p name ≡ true
    → (d : NetDevice) × (o ≡ some d)
named-some none p name e = cc
named-some (some d) p name e = (d, refl)

pub first_named-HasDevice :
    (h : Ptr → Option NetDevice) (ps : List Ptr) (name : List ℕ)
    → HasDevice h (first_named h ps name)
first_named-HasDevice h [] name = inl refl
first_named-HasDevice h (p ∷ ps) name = elim (Bool-cases (named h p name)) [
  | inl e ↦ rw e (inr (named-some (h p) p name e))
  | inr e ↦ rw e (first_named-HasDevice h ps name)
]

pub attached-HasDevice :
    (n : Network) (t : Socket) → HasDevice n.infos t.dev → HasDevice n.infos (attached n t).dev
attached-HasDevice n t h = elim (Bool-cases (t.dev == null)) [
  | inl e ↦ rw e (first_named-HasDevice n.infos n.listed (codes "lo"))
  | inr e ↦ rw e h
]

-- The device that a socket stands on, or is put on.
pub device_of-Gives :
    (w : World) (n : Network) (fuel : ℕ) (fd : ℤ) (i : ℕ) (t : Socket)
    → Shows w n
    → Open w n fd i t
    → length n.listed < fuel
    → Gives
        (device_of fuel (at_slot w i))
        w
        (attached n t).dev
        (put_socket (some i) (some (attached n t)) n)
device_of-Gives w n fuel fd i t s o f = elim (Bool-cases (t.dev == null)) [
  | inl e ↦
      let lo = lo_in n in
      rw e (
        record w { sockets = update w.sockets (at_slot w i) (some (record t { dev = lo })) },
        rw (◌>>=◌, load_socket_lem w (at_slot w i) t o.pointer o.there)
            (rw e (rw (◌>>=◌, find_run w n fuel (codes "lo") s f))),
        write-Shows w n i (record t { dev = lo }) s o.pointer
            (first_named-HasDevice n.infos n.listed (codes "lo")),
      )
  | inr e ↦ rw e (
    w,
    rw (◌>>=◌, load_socket_lem w (at_slot w i) t o.pointer o.there) (rw e),
    agree-Shows w n (update n.sockets i (some t)) s (update_same n.sockets i (some t) o.listed),
  )
]

pub connect-Meets :
    (w : World) (n : Network) (fuel : ℕ) (fd : ℤ)
    → Shows w n
    → length n.listed < fuel
    → Meets (invoke fuel (connect_to fd)) w (expect (connect_to fd) n)
unfolding connect lookup
connect-Meets w n fuel fd s f =
    from_entry w fd
      (on_socket (negsuc 0) (λ q. do set_socket_state 1 q; _ ← device_of fuel q; pure (pos 0))) code
      _
      (looked w n fd (negsuc 0) (λ q. do set_socket_state 1 q; _ ← device_of fuel q; pure (pos 0))
        code (λ o. expect_change (λ t. some (attached n (record t { state = 1 }))) (slot_of fd) o n)
        s refl
        (λ i t o.
          let u = record t { state = 1 } in
          let v = record w { sockets = update w.sockets (at_slot w i) (some u) } in
          let m = record n { sockets = update n.sockets i (some u) } in
          let s' = write-Shows w n i u s o.pointer (s.reach i t o.listed) in
          let (x, run, s'') = device_of-Gives v m fuel fd i u s' (Open-write w n fd i t u o) f in
          (
            pos 0,
            put_socket (some i) (some (attached n u)) n,
            rw (o.slot),
            (
              x,
              rw (◌>>◌, ◌>>=◌, load_socket_lem w (at_slot w i) t o.pointer o.there)
                  (rw (◌>>=◌, run)),
              agree-Shows x (put_socket (some i) (some (attached n u)) m)
                  (update n.sockets i (some (attached n u))) s''
                  (λ j. ap (λ h. h j) (update_twice n.sockets i (some u) (some (attached n u)))),
            ),
          )))
