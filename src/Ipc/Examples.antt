-- ===== src/Ipc/Examples.antt =====
-- Tests of the endpoint, and its theorems at concrete messages.
use nova.Base.{
  ℕ, zero, suc, ◌≡◌, refl, some, none, List, [], ◌∷◌, ◌++◌, arith, replicate, length, get_elem?,
}
use nova.Base.Results.{ok, err, empty}
use nova.Ipc.{Message, Endpoint, init, send, receive, payload_size}
use nova.Ipc.Inv.{IsValid, init-IsValid}
use nova.Ipc.Queue
use nova.Ipc.Queue.{sends, receives, enqueue, dequeue, Op}
use nova.Ipc.Delivery.{accepted, delivered, left, run-delivers}
use nova.Ipc.Refine.{contents, run, run_refines}

abbrev stale : Message
stale = record { sender = 9; length = 3; payload = replicate 64 7 }

abbrev raw : Endpoint
raw = record { messages = replicate 16 stale; head = 5; tail = 6; count = 1 }

stale-whole :
    (n i : ℕ) (m : Message)
    → get_elem? (replicate n stale) i ≡ some m
    → length m.payload ≡ payload_size
stale-whole zero i m a = ground arith
stale-whole (suc n) zero m a = ground arith
stale-whole (suc n) (suc i) m a = stale-whole n i m a

fresh-IsValid : IsValid (init raw)
fresh-IsValid = init-IsValid raw refl (stale-whole 16)

abbrev greeting : List ℕ
greeting = 104 ∷ 105 ∷ 0 ∷ []

abbrev script : List Op
script =
    receives
    ∷ sends 7 greeting 3
    ∷ sends 8 greeting 2
    ∷ sends 8 (replicate 65 1) 65
    ∷ receives
    ∷ receives
    ∷ receives
    ∷ []

-- `test_ipc` of host_test.c, with two senders and a message that is too long
script_replies :
    run (init raw) script
    ≡ (empty, none)
      ∷ (ok, none)
      ∷ (ok, none)
      ∷ (err, none)
      ∷ (ok, some (7, greeting))
      ∷ (ok, some (8, 104 ∷ 105 ∷ []))
      ∷ (empty, none)
      ∷ []
unfolding run send receive init
script_replies = refl

run_refines_example : run (init raw) script ≡ Queue.run (contents (init raw)) script
run_refines_example = run_refines (init raw) script (omega arith) fresh-IsValid

run-delivers_example :
    (contents (init raw) ++ accepted script (run (init raw) script)
      ≡ delivered (run (init raw) script) ++ contents (left (init raw) script))
    × IsValid (left (init raw) script)
run-delivers_example = run-delivers (init raw) script (omega arith) fresh-IsValid
