-- ===== src/Net/Network/Sending.antt =====
-- `nova_send` on a state that shows a network.
use nova.Base.{
  ℕ, ◌<◌, ◌≡◌, ◌≢◌, inl, inr, ap, ◌∙◌, Bool, true, false, not, ◌||◌, ◌&&◌, Option, none, some, List,
  length, ◌==◌, if◌then◌else◌, arith, Bool-cases, eq→==,
}
use nova.Base.Words.{ℤ, negsuc}
use nova.Net.State.{Ptr, null, World, Cmd, ◌>>=◌}
use nova.Net.Sockets.{entry, lookup, device_of, no_data, bytes_of, send}
use nova.Net.Sockets.Inv.{at_slot, lookup_then}
use nova.Net.Network.{answered, invoke, HasDevice, Shows, Meets}
use nova.Net.Network.Reference.{
  send_on, code, Network, attached, put_socket, expect_transmit, expect,
}
use nova.Net.Network.Devices.{bind-some, answers}
use nova.Net.Network.Slots.{Open-cases}
use nova.Net.Network.Sockets.{entry-Open, entry-ne}
use nova.Net.Network.Attaching.{device_of-Gives, attached-HasDevice}
use nova.Net.Network.Transmit.{transmit_on, as_code, transmit-Meets}

-- `nova_send` with a socket and something to send
send_open :
    (w : World) (fuel : ℕ) (fresh : Ptr) (data_ok : Bool) (fd : ℤ) (buf : Option (List ℕ)) (len : ℕ)
    → (entry w fd == null) ≡ false
    → no_data buf len ≡ false
    → send fuel fresh data_ok fd buf len w
      ≡ (device_of fuel (entry w fd) >>= λ dev. transmit_on fresh data_ok (bytes_of buf) len dev) w
unfolding send lookup
send_open w fuel fresh data_ok fd buf len e b = lookup_then w fd _ ∙ rw (e, b)

send_refused :
    (w : World) (fuel : ℕ) (fresh : Ptr) (data_ok : Bool) (fd : ℤ) (buf : Option (List ℕ)) (len : ℕ)
    → ((entry w fd == null) || no_data buf len) ≡ true
    → send fuel fresh data_ok fd buf len w ≡ some (negsuc 0, w)
unfolding send lookup
send_refused w fuel fresh data_ok fd buf len e = lookup_then w fd _ ∙ rw e

some_data : (buf : Option (List ℕ)) (len : ℕ) → no_data buf len ≡ false → len ≢ 0
some_data none len e = cc
some_data (some b) len e = λ x. ground (arith, eq→== len 0 x, e)

-- What the call comes to, on the device that the socket stands on.
sent_on :
    (m : Cmd ℤ) (w v : World) (n : Network) (fresh : Ptr) (data_ok : Bool) (bytes : List ℕ)
    (len : ℕ) (dev : Ptr)
    → Shows v n
    → HasDevice n.infos dev
    → len ≢ 0
    → m w ≡ transmit_on fresh data_ok bytes len dev v
    → Meets (answered code m) w (
        if dev == null
        then (code (negsuc 0), n)
        else expect_transmit (not (fresh == null) && data_ok) len dev (n.infos dev) n)
sent_on m w v n fresh data_ok bytes len dev s h z e = elim (Bool-cases (dev == null)) [
  | inl c ↦ rw c (answers m code w (negsuc 0) v n (e ∙ rw c) s)
  | inr c ↦
      let (x, run, s') =
        transmit-Meets v n fresh data_ok bytes len dev s h
          (λ y. ground (arith, eq→== dev null y, c)) z in
      rw c (x, ap as_code e ∙ run, s')
]

pub send-Meets :
    (w : World) (n : Network) (fuel : ℕ) (fresh : Ptr) (data_ok : Bool) (fd : ℤ)
    (buf : Option (List ℕ)) (len : ℕ)
    → Shows w n
    → length n.listed < fuel
    → Meets
        (invoke fuel (send_on fresh data_ok fd buf len))
        w
        (expect (send_on fresh data_ok fd buf len) n)
send-Meets w n fuel fresh data_ok fd buf len s f =
    let it = send fuel fresh data_ok fd buf len in
    elim (Open-cases w n fd s) [
      | inl (gone, z) ↦ rw gone (
          answers it code w (negsuc 0) w n
            (send_refused w fuel fresh data_ok fd buf len (rw (eq→== (entry w fd) null z))) s)
      | inr (i, t, o) ↦
          let there = entry-ne w fd i o in
          rw (o.slot) (
            rw (o.listed) (elim (Bool-cases (no_data buf len)) [
              | inl b ↦ rw b (
                  answers it code w (negsuc 0) w n
                    (send_refused w fuel fresh data_ok fd buf len (rw (there, b))) s)
              | inr b ↦
                  let u = attached n t in
                  let (v, run, s') = device_of-Gives w n fuel fd i t s o f in
                  rw b (
                    sent_on it w v (put_socket (some i) (some u) n) fresh data_ok (bytes_of buf) len
                      u.dev s' (attached-HasDevice n t (s.reach i t o.listed)) (some_data buf len b)
                      (send_open w fuel fresh data_ok fd buf len there b
                        ∙ ap
                            (λ p.
                              (device_of fuel p >>= λ dev.
                              transmit_on fresh data_ok (bytes_of buf) len dev)
                                w)
                            (entry-Open w fd i o)
                        ∙ bind-some (device_of fuel (at_slot w i))
                            (λ dev. transmit_on fresh data_ok (bytes_of buf) len dev) w run))
            ]))
    ]
