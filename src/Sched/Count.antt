-- ===== src/Sched/Count.antt =====
-- Sequences of calls on a scheduler, and what `count` counts.
use nova.Base.{
  ℕ, zero, suc, ◌+◌, ◌^◌, ◌≤◌, ◌<◌, ◌≡◌, refl, inl, inr, List, [], ◌∷◌, arith, if◌then◌else◌,
  length, set,
}
use nova.Base.Words.{u64}
use nova.Base.Results.{Status, ok}
use nova.Sched.{
  Scheduler, Thread, ThreadState, dead, is_dead, max_threads, mark_dead, init, add, set_state,
  account, new_thread,
}
use nova.Sched.Slots.{At}
use nova.Sched.Cases.{add-cases, set_state-cases, account-cases}
use nova.Sched.Inv.{IsValid, init-IsValid, add-IsValid, set_state-IsValid, account-IsValid}

pub data Call : Type 0 where
  adds : ℕ → Call
  sets : ℕ → ThreadState → Call
  accounts : ℕ → Call

unfoldable pub step : Scheduler → Call → Scheduler
step s (adds priority) = (add s priority).2
step s (sets id state) = (set_state s id state).1
step s (accounts id) = account s id

unfoldable pub run : Scheduler → List Call → Scheduler
unfolding step
run s [] = s
run s (c ∷ cs) = run (step s c) cs

pub step-IsValid : (s : Scheduler) (c : Call) → IsValid s → IsValid (step s c)
unfolding step
step-IsValid s (adds priority) v = add-IsValid s priority v
step-IsValid s (sets id state) v = set_state-IsValid s id state v
step-IsValid s (accounts id) v = account-IsValid s id v

run_keeps : (s : Scheduler) (cs : List Call) → IsValid s → IsValid (run s cs)
unfolding run
run_keeps s [] v = v
run_keeps s (c ∷ cs) v = run_keeps (step s c) cs (step-IsValid s c v)

-- After `nova_sched_init` on a table of 32 slots, every sequence of calls leaves a valid table.
pub run-IsValid :
    (s : Scheduler) (cs : List Call) → length s.threads ≡ max_threads → IsValid (run (init s) cs)
run-IsValid s cs h = run_keeps (init s) cs (init-IsValid s h)

abbrev pub live : Thread → ℕ
live t = if is_dead t.state then 0 else 1

-- the number of live threads
abbrev pub population : List Thread → ℕ
population [] = 0
population (t ∷ ts) = live t + population ts

population-set :
    (ts : List Thread) (i : ℕ) (t v : Thread)
    → At ts i t
    → population (set ts i v) + live t ≡ population ts + live v
population-set [] i t v a = ground arith
population-set (u ∷ ts) zero t v a = ground arith
population-set (u ∷ ts) (suc i) t v a = omega (arith, population-set ts i t v a)

population-mark_dead : (ts : List Thread) → population (mark_dead ts) ≡ 0
population-mark_dead [] = refl
population-mark_dead (t ∷ ts) = omega (arith, population-mark_dead ts)

abbrev kills_by : Status → ThreadState → ℕ
kills_by ok dead = 1
kills_by _ _ = 0

-- 1 if the call is a `nova_sched_set_state` to NOVA_THREAD_DEAD that succeeds
unfoldable pub kills : Scheduler → Call → ℕ
kills s (sets id state) = kills_by (set_state s id state).0 state
kills s _ = 0

unfoldable pub all_kills : Scheduler → List Call → ℕ
unfolding kills
all_kills s [] = 0
all_kills s (c ∷ cs) = kills s c + all_kills (step s c) cs

-- `count` exceeds the number of live threads by `killed`.
abbrev Exceeds : Scheduler → ℕ → Type 0
Exceeds s killed = s.count ≡ population s.threads + killed

abbrev charged : Thread → Thread
charged t = record t { quanta = u64 (t.quanta + 1) }

step-Exceeds :
    (s : Scheduler) (c : Call) (killed : ℕ)
    → s.count + 1 < 2 ^ 64
    → Exceeds s killed
    → Exceeds (step s c) (killed + kills s c) × ((step s c).count ≤ s.count + 1)
unfolding step kills
step-Exceeds s (adds priority) killed h x = elim (add-cases s priority) [
  | inl (e, all) ↦ ground arith
  | inr (i, r, e) ↦
      ground (arith, population-set s.threads i r.held (new_thread i priority) r.at, r.is_free)
]
step-Exceeds s (sets id state) killed h x = elim (set_state-cases s id state) [
  | inl (n, e) ↦ ground arith
  | inr (i, t, n, e) ↦
      ground (arith, population-set s.threads i t (record t { state = state }) n.at, n.live)
]
step-Exceeds s (accounts id) killed h x = elim (account-cases s id) [
  | inl (n, e) ↦ ground arith
  | inr (i, t, n, e) ↦ ground (arith, population-set s.threads i t (charged t) n.at, n.live)
]

run-Exceeds :
    (s : Scheduler) (cs : List Call) (killed : ℕ)
    → s.count + length cs < 2 ^ 64
    → Exceeds s killed
    → Exceeds (run s cs) (killed + all_kills s cs)
unfolding run all_kills
run-Exceeds s [] killed h x = omega arith
run-Exceeds s (c ∷ cs) killed h x =
    let one = step-Exceeds s c killed (omega arith) x in
    omega (arith, run-Exceeds (step s c) cs (killed + kills s c) (omega (arith, one.1)) one.0)

-- After `nova_sched_init` and fewer than 2^64 calls, `count` is the number of live threads and, on
-- top of it, the number of threads that a call has set to dead: no call takes a thread off it.
pub run-count :
    (s : Scheduler) (cs : List Call)
    → length cs < 2 ^ 64
    → (run (init s) cs).count ≡ population (run (init s) cs).threads + all_kills (init s) cs
unfolding init
run-count s cs h = omega (arith, run-Exceeds (init s) cs 0 (omega arith) start)
  where
    start : Exceeds (init s) 0
    start = omega (arith, population-mark_dead s.threads)
