-- ===== src/Ipc/Queue.antt =====
-- What an endpoint promises: a queue of at most 16 packets, each a sender and up to 64 bytes.
use nova.Base.{ℕ, Option, none, some, List, [], ◌∷◌, ◌++◌, length, take, ltb, ◌==◌, if◌then◌else◌}
use nova.Base.Results.{Status, ok, err, full, empty}
use nova.Ipc.{queue_length, payload_size}

-- the sender and the bytes sent
abbrev pub Packet : Type 0
Packet = ℕ × List ℕ

abbrev pub Queue : Type 0
Queue = List Packet

unfoldable pub enqueue : Queue → ℕ → List ℕ → ℕ → Status × Queue
enqueue q sender payload n =
    if ltb payload_size n
    then (err, q)
    else if length q == queue_length
    then (full, q)
    else (ok, q ++ ((sender, take n payload) ∷ []))

unfoldable pub dequeue : Queue → Status × Option Packet × Queue
dequeue [] = (empty, none, [])
dequeue (p ∷ q) = (ok, some p, q)

-- `sends` has the bytes that the caller's pointer leads to, and the length that it gives.
pub data Op : Type 0 where
  sends : ℕ → List ℕ → ℕ → Op
  receives : Op

abbrev pub Reply : Type 0
Reply = Status × Option Packet

unfoldable pub run : Queue → List Op → List Reply
run q [] = []
run q (sends sender payload n ∷ ops) =
    let (s, q') = enqueue q sender payload n in (s, none) ∷ run q' ops
run q (receives ∷ ops) = let (s, out, q') = dequeue q in (s, out) ∷ run q' ops
