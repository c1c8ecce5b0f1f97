-- ===== src/Net/Network/Session.antt =====
-- Sequences of calls on the network stack.
use nova.Base.{
  ℕ, ◌+◌, ◌<◌, ◌≡◌, ◌∙◌, refl, true, false, Option, none, some, List, [], ◌∷◌, length, arith,
}
use nova.Net.State.{World}
use nova.Net.Sockets.{network_init}
use nova.Net.Devices.{network_shutdown, find}
use nova.Net.Network.{invoke, run, Shows, Meets, fits, all_fit}
use nova.Net.Network.Reference.{
  Call, Answer, start, halt, add_device, drop_device, load_loopback, load_nic, find_device,
  open_socket, bind_to, accept_on, get_option, set_option, connect_to, listen_on, shut,
  close_socket, send_on, receive_on, code, address, Network, started, expect, replies,
}
use nova.Net.Network.Devices.{bind-some, answers, init-Gives, halt-Gives, find_run, drop-Gives}
use nova.Net.Network.Adding.{add-Gives}
use nova.Net.Network.Drivers.{load-Meets}
use nova.Net.Network.Sockets.{bind-Meets, receive-Meets, listen-Meets, close-Meets}
use nova.Net.Network.Attaching.{connect-Meets}
use nova.Net.Network.Opening.{open-Meets}
use nova.Net.Network.Sending.{send-Meets}
use nova.Net.Network.Length.{length-expect}

find-Meets :
    (w : World) (n : Network) (fuel : ℕ) (name : Option (List ℕ))
    → Shows w n
    → length n.listed < fuel
    → Meets (invoke fuel (find_device name)) w (expect (find_device name) n)
unfolding find
find-Meets w n fuel none s f = (w, refl, s)
find-Meets w n fuel (some name) s f =
    answers (find fuel (some name)) address w _ w n (find_run w n fuel name s f) s

invoke-Meets :
    (w : World) (n : Network) (fuel : ℕ) (c : Call)
    → Shows w n
    → length n.listed < fuel
    → fits c w ≡ true
    → Meets (invoke fuel c) w (expect c n)
invoke-Meets w n fuel start s f a =
    let (v, run, s') = init-Gives w n s in answers network_init code w _ v (started n) run s'
invoke-Meets w n fuel halt s f a =
    let (v, run, s') = halt-Gives w n fuel s f in
    answers (network_shutdown fuel) code w _ v (record n { listed = []; up = false }) run s'
invoke-Meets w n fuel (add_device dev) s f a = add-Gives w n fuel dev s f a
invoke-Meets w n fuel (drop_device dev) s f a = drop-Gives w n fuel dev s f
invoke-Meets w n fuel (load_loopback lo) s f a = (load-Meets w n fuel lo s f a).0
invoke-Meets w n fuel (load_nic nic) s f a = (load-Meets w n fuel nic s f a).1
invoke-Meets w n fuel (find_device name) s f a = find-Meets w n fuel name s f
invoke-Meets w n fuel (open_socket fresh domain type protocol) s f a =
    open-Meets w n fuel fresh domain type protocol s f a
invoke-Meets w n fuel (bind_to fd) s f a = (bind-Meets w n fuel fd s).0
invoke-Meets w n fuel (accept_on fd) s f a = (bind-Meets w n fuel fd s).1
invoke-Meets w n fuel (get_option fd) s f a = (bind-Meets w n fuel fd s).2
invoke-Meets w n fuel (set_option fd) s f a = (bind-Meets w n fuel fd s).3
invoke-Meets w n fuel (connect_to fd) s f a = connect-Meets w n fuel fd s f
invoke-Meets w n fuel (listen_on fd) s f a = (listen-Meets w n fuel fd s).0
invoke-Meets w n fuel (shut fd) s f a = (listen-Meets w n fuel fd s).1
invoke-Meets w n fuel (close_socket fd) s f a = close-Meets w n fuel fd s
invoke-Meets w n fuel (send_on fresh data_ok fd buf len) s f a =
    send-Meets w n fuel fresh data_ok fd buf len s f
invoke-Meets w n fuel (receive_on fd given len) s f a = receive-Meets w n fuel fd given len s

rest_fits :
    (w v : World) (fuel : ℕ) (c : Call) (cs : List Call) (a : Answer)
    → all_fit fuel (c ∷ cs) w ≡ true
    → invoke fuel c w ≡ some (a, v)
    → all_fit fuel cs v ≡ true
rest_fits w v fuel c cs a h e = ground (arith, rw e at h)

-- Let the state show a network, and let each call fit the state that it is made in: a device that is
-- added is there, that of a driver is not NULL, and a socket that is allocated stands at an address
-- that holds none. With more fuel than there are devices listed and calls to make, the calls of
-- network_stack.c end and never use NULL or freed memory; they give the answers that the network
-- gives, and leave a state that shows the network that they make of it.
pub run-replies :
    (w : World) (n : Network) (calls : List Call) (fuel : ℕ)
    → Shows w n
    → all_fit fuel calls w ≡ true
    → length n.listed + length calls < fuel
    → (v : World) × (run fuel calls w ≡ some ((replies calls n).0, v)) × Shows v (replies calls n).1
unfolding run
run-replies w n [] fuel s a f = (w, refl, s)
run-replies w n (c ∷ cs) fuel s a f =
    let (v, e, t) = invoke-Meets w n fuel c s (omega arith) (ground (arith, a)) in
    let more = length-expect c n in
    let (x, e', t') =
      run-replies v (expect c n).1 cs fuel t (rest_fits w v fuel c cs (expect c n).0 a e)
        (omega (arith, more)) in
    (x, bind-some (invoke fuel c) _ w e ∙ bind-some (run fuel cs) _ v e', t')
