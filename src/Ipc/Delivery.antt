-- ===== src/Ipc/Delivery.antt =====
-- Every packet that an endpoint takes comes out once, in order.
use mathlib.Core.Option
use nova.Base.{
  ℕ, ◌≤◌, ◌≡◌, refl, sym, ap, ◌∙◌, inl, inr, Option, none, some, List, [], ◌∷◌, ◌++◌, length, take,
  ltb, ◌==◌, append-nil, append_assoc, Bool-cases,
}
use nova.Base.Results.{Status, ok, err, full, empty, not_found}
use nova.Ipc.{Endpoint, queue_length, payload_size, send, receive}
use nova.Ipc.Inv.{IsValid, send-IsValid, receive-IsValid}
use nova.Ipc.Queue.{Packet, Queue, Op, sends, receives, Reply, enqueue, dequeue}
use nova.Ipc.Refine.{view, contents, send_refines, receive_refines, AllFit, run}

abbrev pub taken : Status → Packet → List Packet
taken ok p = p ∷ []
taken err p = []
taken full p = []
taken empty p = []
taken not_found p = []

abbrev pub given : Option Packet → List Packet
given none = []
given (some p) = p ∷ []

-- the packets of the sends that were answered with NOVA_OK
abbrev pub accepted : List Op → List Reply → List Packet
accepted [] rs = []
accepted (o ∷ ops) [] = []
accepted (sends sender payload n ∷ ops) ((s, out) ∷ rs) =
    taken s (sender, take n payload) ++ accepted ops rs
accepted (receives ∷ ops) (r ∷ rs) = accepted ops rs

-- the packets that came out
abbrev pub delivered : List Reply → List Packet
delivered [] = []
delivered ((s, out) ∷ rs) = given out ++ delivered rs

-- the endpoint after the calls
unfoldable pub left : Endpoint → List Op → Endpoint
left e [] = e
left e (sends sender payload n ∷ ops) = left (send e sender payload n).1 ops
left e (receives ∷ ops) = left (receive e).2 ops

enqueue-taken :
    (q : Queue) (sender : ℕ) (payload : List ℕ) (n : ℕ)
    → (enqueue q sender payload n).1
      ≡ q ++ taken (enqueue q sender payload n).0 (sender, take n payload)
unfolding enqueue
enqueue-taken q sender payload n = elim (Bool-cases (ltb payload_size n)) [
  | inl e ↦ rw e (sym (append-nil q))
  | inr e ↦ rw e (elim (Bool-cases (length q == queue_length)) [
    | inl f ↦ rw f (sym (append-nil q))
    | inr f ↦ rw f refl
  ])
]

dequeue-given : (q : Queue) → q ≡ given (dequeue q).1 ++ (dequeue q).2
unfolding dequeue
dequeue-given [] = refl
dequeue-given (p ∷ q) = refl

send-taken :
    (e : Endpoint) (sender : ℕ) (payload : List ℕ) (n : ℕ)
    → n ≤ length payload
    → IsValid e
    → contents (send e sender payload n).1
      ≡ contents e ++ taken (send e sender payload n).0 (sender, take n payload)
send-taken e sender payload n h v =
    let same = send_refines e sender payload n h v in
    ap (λ x. x.1) same
    ∙ enqueue-taken (contents e) sender payload n
    ∙ ap (λ x. contents e ++ taken x.0 (sender, take n payload)) (sym same)

receive-given :
    (e : Endpoint)
    → IsValid e
    → contents e ≡ given (Option.map view (receive e).1) ++ contents (receive e).2
receive-given e v =
    dequeue-given (contents e) ∙ ap (λ x. given x.1 ++ x.2) (sym (receive_refines e v))

-- In every sequence of sends and receives on a valid endpoint, each send from a buffer that holds
-- the bytes that it announces, the packets that were in the endpoint and then those of the sends that
-- returned NOVA_OK are those that the receives gave and then those that are left in it, in that order:
-- none is lost, doubled, altered or overtaken. The endpoint stays valid.
pub run-delivers :
    (e : Endpoint) (ops : List Op)
    → AllFit ops
    → IsValid e
    → (contents e ++ accepted ops (run e ops) ≡ delivered (run e ops) ++ contents (left e ops))
      × IsValid (left e ops)
unfolding run left
run-delivers e [] f v = (append-nil (contents e), v)
run-delivers e (sends sender payload n ∷ ops) f v =
    let e' = (send e sender payload n).1 in
    let (same, valid) = run-delivers e' ops f.1 (send-IsValid e sender payload n f.0 v) in
    (
      sym (append_assoc (contents e) _ (accepted ops (run e' ops)))
          ∙ ap (λ q. q ++ accepted ops (run e' ops)) (sym (send-taken e sender payload n f.0 v))
          ∙ same,
      valid,
    )
run-delivers e (receives ∷ ops) f v =
    let e' = (receive e).2 in
    let (same, valid) = run-delivers e' ops f (receive-IsValid e v) in
    (
      ap (λ q. q ++ accepted ops (run e' ops)) (receive-given e v)
          ∙ append_assoc (given (Option.map view (receive e).1)) (contents e')
              (accepted ops (run e' ops))
          ∙ ap (λ q. given (Option.map view (receive e).1) ++ q) same
          ∙ sym (
              append_assoc (given (Option.map view (receive e).1)) (delivered (run e' ops))
                (contents (left e' ops))),
      valid,
    )
