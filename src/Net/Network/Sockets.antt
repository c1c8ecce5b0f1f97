-- ===== src/Net/Network/Sockets.antt =====
-- The calls on an open socket, on a state that shows a network.
use nova.Base.{
  ℕ, ◌≡◌, ◌≢◌, inl, inr, refl, sym, ap, ◌∙◌, Bool, false, not, ◌||◌, Option, none, some, replicate,
  ◌==◌, if◌then◌else◌, Bool-cases, ne→==, eq→==,
}
use nova.Base.Words.{ℤ, pos, negsuc}
use nova.Net.State.{Ptr, null, Socket, World, update, Cmd, pure, ◌>>=◌, ◌>>◌, load_socket}
use nova.Net.Sockets.{
  slot_of, entry, lookup, only_check, bind, accept, getsockopt, setsockopt, set_socket_state,
  listen, shutdown, close, recv,
}
use nova.Net.Sockets.Inv.{at_slot, lookup_then}
use nova.Net.Sockets.Close.{without_slot, close_at}
use nova.Net.Network.{answered, invoke, Shows, Gives, Meets}
use nova.Net.Network.Reference.{
  bind_to, accept_on, get_option, set_option, listen_on, shut, close_socket, receive_on, Answer,
  code, received, Network, socket_in, put_socket, expect_check, expect_change, expect,
}
use nova.Net.Network.Devices.{answers}
use nova.Net.Network.Slots.{Open, Open-cases, write-Shows, erase-Shows}

pub load_socket_lem :
    (w : World) (p : Ptr) (t : Socket)
    → p ≢ null
    → w.sockets p ≡ some t
    → load_socket p w ≡ some (t, w)
load_socket_lem w p t n a = rw (ne→== p null n) (rw a)

-- The pointer that `nova_socket_lookup` gives.
pub entry-Open :
    {n : Network} {t : Socket} (w : World) (fd : ℤ) (i : ℕ)
    → Open w n fd i t
    → entry w fd ≡ at_slot w i
entry-Open w fd i o = rw (o.slot)

pub entry-ne :
    {n : Network} {t : Socket} (w : World) (fd : ℤ) (i : ℕ)
    → Open w n fd i t
    → (entry w fd == null) ≡ false
entry-ne w fd i o = ne→== (entry w fd) null (λ e. o.pointer (sym (entry-Open w fd i o) ∙ e))

-- `if (sock == NULL) return fail;` and what follows
abbrev pub on_socket : {A : Type 0} → A → (Ptr → Cmd A) → Ptr → Cmd A
on_socket fail k p = if p == null then pure fail else k p

pub closed_run :
    {A : Type 0} (w : World) (fail : A) (k : Ptr → Cmd A) (p : Ptr)
    → p ≡ null
    → on_socket fail k p w ≡ some (fail, w)
closed_run w fail k p e = rw (eq→== p null e)

pub open_run :
    {A : Type 0} (w : World) (fail : A) (k : Ptr → Cmd A) (p : Ptr)
    → p ≢ null
    → on_socket fail k p w ≡ k p w
open_run w fail k p m = rw (ne→== p null m)

-- What a command does after the look-up is what it does.
pub from_entry :
    {A : Type 0} (w : World) (fd : ℤ) (k : Ptr → Cmd A) (f : A → Answer) (e : Answer × Network)
    → Meets (answered f (k (entry w fd))) w e
    → Meets (answered f (lookup fd >>= k)) w e
from_entry w fd k f e (v, run, s) =
    (v, ap (λ x. elim x [ none ↦ none | some (a, m) ↦ pure (f a) m ]) (lookup_then w fd k) ∙ run, s)

-- A command that begins with the look-up.
pub looked :
    {A : Type 0} (w : World) (n : Network) (fd : ℤ) (fail : A) (k : Ptr → Cmd A) (f : A → Answer)
    (e : Option Socket → Answer × Network)
    → Shows w n
    → e none ≡ (f fail, n)
    → ((i : ℕ) (t : Socket)
        → Open w n fd i t
        → (a : A) × (m : Network) × (e (some t) ≡ (f a, m)) × Gives (k (at_slot w i)) w a m)
    → Meets (answered f (on_socket fail k (entry w fd))) w (e (socket_in n (slot_of fd)))
looked w n fd fail k f e s refused opened = elim (Open-cases w n fd s) [
  | inl (gone, z) ↦
      rw (gone, refused)
        (answers (on_socket fail k (entry w fd)) f w fail w n (closed_run w fail k (entry w fd) z)
          s)
  | inr (i, t, o) ↦
      let (a, m, there, (v, run, s')) = opened i t o in
      let p = entry-Open w fd i o in
      let found : socket_in n (slot_of fd) ≡ some t = rw (o.slot) (o.listed) in
      rw (found, there)
        (answers (on_socket fail k (entry w fd)) f w a v m
          (ap (λ q. on_socket fail k q w) p ∙ (open_run w fail k (at_slot w i) o.pointer ∙ run)) s')
]

check-Meets :
    (w : World) (n : Network) (fd : ℤ) (c : ℤ)
    → Shows w n
    → Meets (answered code (only_check c fd)) w (expect_check c (socket_in n (slot_of fd)) n)
unfolding lookup
check-Meets w n fd c s = from_entry w fd (on_socket (negsuc 0) (λ p. pure c)) code _ (
    looked w n fd (negsuc 0) (λ p. pure c) code (λ o. expect_check c o n) s refl
      (λ i t o. (c, n, refl, (w, refl, s))))

pub bind-Meets :
    (w : World) (n : Network) (fuel : ℕ) (fd : ℤ)
    → Shows w n
    → Meets (invoke fuel (bind_to fd)) w (expect (bind_to fd) n)
      × Meets (invoke fuel (accept_on fd)) w (expect (accept_on fd) n)
      × Meets (invoke fuel (get_option fd)) w (expect (get_option fd) n)
      × Meets (invoke fuel (set_option fd)) w (expect (set_option fd) n)
unfolding bind accept getsockopt setsockopt
bind-Meets w n fuel fd s = (
  check-Meets w n fd (pos 0) s,
  check-Meets w n fd (negsuc 0) s,
  check-Meets w n fd (pos 0) s,
  check-Meets w n fd (pos 0) s,
)

recv_closed :
    (w : World) (fd : ℤ) (given : Bool) (len : ℕ)
    → entry w fd ≡ null
    → recv fd given len w ≡ some ((negsuc 0, none), w)
unfolding recv lookup
recv_closed w fd given len z = lookup_then w fd _ ∙ rw (eq→== (entry w fd) null z)

recv_open :
    (w : World) (fd : ℤ) (given : Bool) (len : ℕ)
    → (entry w fd == null) ≡ false
    → recv fd given len w
      ≡ some (
        if not given || (len == 0) then (negsuc 0, none) else (pos len, some (replicate len 0)),
        w,
      )
unfolding recv lookup
recv_open w fd given len m =
    lookup_then w fd _
    ∙ rw m (elim (Bool-cases (not given || (len == 0))) [ inl b ↦ rw b | inr b ↦ rw b ])

pub receive-Meets :
    (w : World) (n : Network) (fuel : ℕ) (fd : ℤ) (given : Bool) (len : ℕ)
    → Shows w n
    → Meets (invoke fuel (receive_on fd given len)) w (expect (receive_on fd given len) n)
receive-Meets w n fuel fd given len s = elim (Open-cases w n fd s) [
  | inl (gone, z) ↦
      rw gone (answers (recv fd given len) received w _ w n (recv_closed w fd given len z) s)
  | inr (i, t, o) ↦
      let run = recv_open w fd given len (entry-ne w fd i o) in
      rw (o.slot) (
        rw (o.listed) (elim (Bool-cases (not given || (len == 0))) [
          | inl b ↦ rw b (answers (recv fd given len) received w _ w n (rw b at run) s)
          | inr b ↦ rw b (answers (recv fd given len) received w _ w n (rw b at run) s)
        ]))
]

-- A socket is changed, and stands on the device that it stood on.
change-Meets :
    (w : World) (n : Network) (fd : ℤ) (k : ℕ)
    → Shows w n
    → Meets
        (answered code
          (do p ← lookup fd; on_socket (negsuc 0) (λ q. do set_socket_state k q; pure (pos 0)) p))
        w
        (expect_change
          (λ t. some (record t { state = k }))
          (slot_of fd)
          (socket_in n (slot_of fd))
          n)
unfolding lookup
change-Meets w n fd k s =
    from_entry w fd (on_socket (negsuc 0) (λ q. do set_socket_state k q; pure (pos 0))) code _ (
      looked w n fd (negsuc 0) (λ q. do set_socket_state k q; pure (pos 0)) code
        (λ o. expect_change (λ t. some (record t { state = k })) (slot_of fd) o n) s refl
        (λ i t o.
          let t' = record t { state = k } in
          (
            pos 0,
            put_socket (some i) (some t') n,
            rw (o.slot),
            (
              record w { sockets = update w.sockets (at_slot w i) (some t') },
              rw (◌>>◌, ◌>>=◌, load_socket_lem w (at_slot w i) t o.pointer o.there),
              write-Shows w n i t' s o.pointer (s.reach i t o.listed),
            ),
          )))

pub listen-Meets :
    (w : World) (n : Network) (fuel : ℕ) (fd : ℤ)
    → Shows w n
    → Meets (invoke fuel (listen_on fd)) w (expect (listen_on fd) n)
      × Meets (invoke fuel (shut fd)) w (expect (shut fd) n)
unfolding listen shutdown
listen-Meets w n fuel fd s = (change-Meets w n fd 2 s, change-Meets w n fd 0 s)

close_closed : (w : World) (fd : ℤ) → entry w fd ≡ null → close fd w ≡ some (negsuc 0, w)
unfolding close lookup
close_closed w fd z = lookup_then w fd _ ∙ rw (eq→== (entry w fd) null z)

pub close-Meets :
    (w : World) (n : Network) (fuel : ℕ) (fd : ℤ)
    → Shows w n
    → Meets (invoke fuel (close_socket fd)) w (expect (close_socket fd) n)
close-Meets w n fuel fd s = elim (Open-cases w n fd s) [
  | inl (gone, z) ↦ rw gone (answers (close fd) code w (negsuc 0) w n (close_closed w fd z) s)
  | inr (i, t, o) ↦ rw (o.slot) (
      rw (o.listed) (
        answers (close fd) code w (pos 0) (without_slot w i)
          (record n { sockets = update n.sockets i none })
          (close_at w fd i t o.slot o.pointer o.there) (erase-Shows w n i s o.pointer)))
]
