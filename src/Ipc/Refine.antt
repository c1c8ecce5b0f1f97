-- ===== src/Ipc/Refine.antt =====
-- A valid endpoint behaves as the queue of the packets in its ring.
use nova.Base.{
  ℕ, zero, suc, ◌+◌, ◌%◌, ◌^◌, ◌≤◌, ◌<◌, ◌≡◌, refl, ◌∙◌, ap, none, List, [], ◌∷◌, ◌++◌, arith,
  length, get_or, set, take, drop, take-append, take-take, length-take, get_or-set_self,
  get_or-set_ne, get_elem?-eq-get_or,
}
use mathlib.Core.Option
use nova.Base.Words.{u64}
use nova.Ipc.{Message, Endpoint, queue_length, payload_size, send, receive, filled, write_slot}
use nova.Ipc.Inv.{IsValid, send-IsValid, receive-IsValid, write_slot-eq-set}
use nova.Ipc.Queue
use nova.Ipc.Queue.{Packet, Queue, Op, sends, receives, Reply, enqueue, dequeue}

-- the packet that a message stands for: the bytes behind its length are not part of it
abbrev pub view : Message → Packet
view m = (m.sender, take m.length m.payload)

abbrev pub blank : Message
blank = record { sender = 0; length = 0; payload = [] }

-- the `n` packets from position `h` on, the ring's slots taken in turn
abbrev pub window : List Message → ℕ → ℕ → Queue
window ms h zero = []
window ms h (suc n) = view (get_or ms (h % queue_length) blank) ∷ window ms (h + 1) n

abbrev pub contents : Endpoint → Queue
contents e = window e.messages e.head e.count

length-window : (ms : List Message) (h n : ℕ) → length (window ms h n) ≡ n
length-window ms h zero = refl
length-window ms h (suc n) = ap suc (length-window ms (h + 1) n)

-- Only the slot that a position stands for counts.
window-mod :
    (ms : List Message) (h k n : ℕ)
    → h % queue_length ≡ k % queue_length
    → window ms h n ≡ window ms k n
window-mod ms h k zero e = refl
window-mod ms h k (suc n) e = ground (arith, window-mod ms (h + 1) (k + 1) n (omega arith))

-- The slot just past a window joins it as its last packet.
window-snoc :
    (ms : List Message) (h n : ℕ)
    → window ms h (suc n) ≡ window ms h n ++ (view (get_or ms ((h + n) % queue_length) blank) ∷ [])
window-snoc ms h zero = ground arith
window-snoc ms h (suc n) =
    let e : h + 1 + n ≡ h + suc n = omega arith in
    ap (λ q. view (get_or ms (h % queue_length) blank) ∷ q)
      (window-snoc ms (h + 1) n
        ∙ ap (λ k. window ms (h + 1) n ++ (view (get_or ms (k % queue_length) blank) ∷ [])) e)

-- A write to the slot past a window that does not fill the ring leaves the window alone.
window-set :
    (ms : List Message) (h n i : ℕ) (m : Message)
    → n < queue_length
    → i ≡ (h + n) % queue_length
    → window (set ms i m) h n ≡ window ms h n
window-set ms h zero i m hn e = refl
window-set ms h (suc n) i m hn e =
    ground (arith, get_or-set_ne ms i (h % queue_length) m blank, window-set ms (h + 1) n i m)

view-filled :
    (old : Message) (sender : ℕ) (payload : List ℕ) (n : ℕ)
    → n ≤ payload_size
    → n ≤ length payload
    → view (filled old sender payload n) ≡ (sender, take n payload)
view-filled old sender payload n h k =
    let small : n % 2 ^ 16 ≡ n = omega arith in
    let fits : n ≤ length (take n payload) = omega (arith, length-take n payload) in
    ground
      (arith, small, take-append n (take n payload) (drop n old.payload) fits, take-take n payload)

-- A write to the slot past a window joins the packet written.
window-set-snoc :
    (ms : List Message) (h n i : ℕ) (m : Message)
    → length ms ≡ queue_length
    → n < queue_length
    → i ≡ (h + n) % queue_length
    → window (set ms i m) h (suc n) ≡ window ms h n ++ (view m ∷ [])
window-set-snoc ms h n i m size hn e =
    window-snoc (set ms i m) h n
    ∙ ground (arith, window-set ms h n i m hn e, get_or-set_self ms i m blank)

-- A send with room appends its packet.
contents-send :
    (e : Endpoint) (sender : ℕ) (payload : List ℕ) (n : ℕ)
    → n ≤ length payload
    → n ≤ payload_size
    → e.count < queue_length
    → IsValid e
    → window (write_slot e.messages e.tail sender payload n) e.head (suc e.count)
      ≡ contents e ++ ((sender, take n payload) ∷ [])
contents-send e sender payload n h k room v =
    let inside : e.tail < length e.messages = omega (arith, v.slots) in
    let old = get_or e.messages e.tail blank in
    let m = filled old sender payload n in
    let slot = get_elem?-eq-get_or e.messages e.tail blank inside in
    ap (λ ms. window ms e.head (suc e.count))
      (write_slot-eq-set e.messages e.tail sender payload n slot)
    ∙ window-set-snoc e.messages e.head e.count e.tail m v.slots room v.tail_at
    ∙ ap (λ p. contents e ++ (p ∷ [])) (view-filled old sender payload n k h)

-- `nova_ipc_send` returns the status of `enqueue` and leaves the endpoint holding its queue, if the
-- caller's buffer holds the bytes that it announces.
pub send_refines :
    (e : Endpoint) (sender : ℕ) (payload : List ℕ) (n : ℕ)
    → n ≤ length payload
    → IsValid e
    → let (s, e') = send e sender payload n in
      (s, contents e') ≡ enqueue (contents e) sender payload n
unfolding send enqueue
send_refines e sender payload n h v =
    let size = length-window e.messages e.head e.count in
    let next : u64 (e.count + 1) ≡ suc e.count = omega (arith, v.count_in) in
    ground (arith, size, next, contents-send e sender payload n h)

-- `nova_ipc_receive` returns the status and the packet of `dequeue`, and leaves the endpoint holding
-- the rest.
pub receive_refines :
    (e : Endpoint)
    → IsValid e
    → let (s, out, e') = receive e in (s, Option.map view out, contents e') ≡ dequeue (contents e)
unfolding receive dequeue
receive_refines e v = go e.count refl
  where
    go :
        (n : ℕ)
        → e.count ≡ n
        → let (s, out, e') = receive e in
          (s, Option.map view out, contents e') ≡ dequeue (window e.messages e.head n)
    go zero c = ground arith
    go (suc n) c =
        let here : e.head % queue_length ≡ e.head = omega (arith, v.head_in) in
        let inside : e.head < length e.messages = omega (arith, v.head_in, v.slots) in
        ground (
          arith,
          here,
          get_elem?-eq-get_or e.messages e.head blank inside,
          window-mod e.messages (u64 (e.head + 1) % queue_length) (e.head + 1) n (omega arith),
        )

-- The buffers of all sends hold the bytes that the sends announce.
abbrev pub AllFit : List Op → Type 0
AllFit [] = Unit {0}
AllFit (sends sender payload n ∷ ops) = (n ≤ length payload) × AllFit ops
AllFit (receives ∷ ops) = AllFit ops

-- a client's calls in order, with what it sees of each
unfoldable pub run : Endpoint → List Op → List Reply
run e [] = []
run e (sends sender payload n ∷ ops) =
    let (s, e') = send e sender payload n in (s, none) ∷ run e' ops
run e (receives ∷ ops) = let (s, out, e') = receive e in (s, Option.map view out) ∷ run e' ops

-- No sequence of sends and receives, each send from a buffer that holds the bytes that it announces,
-- tells a valid endpoint from the queue of its packets.
pub run_refines :
    (e : Endpoint) (ops : List Op) → AllFit ops → IsValid e → run e ops ≡ Queue.run (contents e) ops
unfolding run Queue.run
run_refines e [] f v = refl
run_refines e (sends sender payload n ∷ ops) f v = rw (
  run_refines (send e sender payload n).1 ops f.1 (send-IsValid e sender payload n f.0 v),
  ← send_refines e sender payload n f.0 v,
)
run_refines e (receives ∷ ops) f v =
    rw (run_refines (receive e).2 ops f (receive-IsValid e v), ← receive_refines e v)
