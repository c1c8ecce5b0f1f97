-- ===== src/Sched/Examples.antt =====
-- Tests of the scheduler, and its theorems at concrete tables.
use nova.Base.{
  ℕ, zero, suc, ◌+◌, ◌*◌, ◌≡◌, ◌≢◌, refl, ◌⊎◌, ◌<◌, true, false, some, none, List, [], ◌∷◌, arith,
  replicate,
}
use nova.Base.Words.{pos, negsuc}
use nova.Base.Results.{ok, full, not_found}
use nova.Sched.{
  Scheduler, Thread, dead, runnable, blocked, is_runnable, is_dead, max_threads, init, add,
  set_state, pick_next, account,
}
use nova.Sched.Slots.{At}
use nova.Sched.Cases.{Names, Unused, with_state, set_state-cases}
use nova.Sched.Inv.{IsValid, with_new, add_lem}
use nova.Sched.Pick.{IsPick, pick_next-cases}
use nova.Sched.Fair.{turn, IsBalanced, HasRoom, turn-IsBalanced}
use nova.Sched.Turns.{turns, turns-reach}
use nova.Sched.Turns
use nova.Sched.Count.{
  Call, adds, sets, accounts, run, run-IsValid, population, all_kills, run-count,
}

abbrev garbage : Thread
garbage = record { id = 99; priority = 7; quanta = 5; state = blocked }

-- a scheduler that has not been initialised
abbrev raw : Scheduler
raw = record { threads = replicate 32 garbage; count = 3; tick = 4 }

-- the first calls of `test_scheduler` in host_test.c
abbrev two_adds : List Call
two_adds = adds 10 ∷ adds 50 ∷ []

abbrev two_threads : Scheduler
two_threads = run (init raw) two_adds

picks_high : pick_next two_threads ≡ pos 2
unfolding pick_next init add run
picks_high = refl

picks_low_when_blocked : pick_next (set_state (account two_threads 2) 2 blocked).1 ≡ pos 1
unfolding pick_next init add set_state account run
picks_low_when_blocked = refl

picks_none : pick_next (init raw) ≡ negsuc 0
unfolding pick_next init
picks_none = refl

two_threads-IsValid : IsValid two_threads
two_threads-IsValid = run-IsValid raw two_adds refl

run-IsValid_example : IsValid (run (init raw) (adds 1 ∷ sets 1 blocked ∷ accounts 1 ∷ []))
run-IsValid_example = run-IsValid raw (adds 1 ∷ sets 1 blocked ∷ accounts 1 ∷ []) refl

-- A thread is added and set to dead, and `count` stays 1.
abbrev killed : List Call
killed = adds 1 ∷ sets 1 dead ∷ []

count_drifts :
    ((run (init raw) killed).count ≡ 1) × (population (run (init raw) killed).threads ≡ 0)
unfolding run init add set_state
count_drifts = (refl, refl)

run-count_example :
    (run (init raw) killed).count
    ≡ population (run (init raw) killed).threads + all_kills (init raw) killed
run-count_example = run-count raw killed (omega arith)

pick_next-cases_example :
    ((pick_next two_threads ≡ negsuc 0)
      × ((j : ℕ) (u : Thread) → At two_threads.threads j u → u.state ≢ runnable))
    ⊎ ((i : ℕ) × (t : Thread) × IsPick two_threads.threads i t
        × (t.id ≡ i + 1)
        × (i < max_threads)
        × (pick_next two_threads ≡ pos (i + 1)))
pick_next-cases_example = pick_next-cases two_threads two_threads-IsValid

abbrev gone : Thread
gone = record { id = 0; priority = 0; quanta = 0; state = dead }

abbrev peer : ℕ → Thread
peer id = record { id = id; priority = 5; quanta = 0; state = runnable }

abbrev peers : List Thread
peers = peer 1 ∷ peer 2 ∷ replicate 30 gone

abbrev level : Scheduler
level = record { threads = peers; count = 2; tick = 0 }

gone-not_runnable :
    (n i : ℕ) (t : Thread) → At (replicate n gone) i t → is_runnable t.state ≡ true → ⊥
gone-not_runnable zero i t a r = ground arith
gone-not_runnable (suc n) zero t a r = ground arith
gone-not_runnable (suc n) (suc i) t a r = gone-not_runnable n i t a r

peers_alike :
    (i : ℕ) (t : Thread)
    → At peers i t
    → is_runnable t.state ≡ true
    → (t.priority ≡ 5) × (t.quanta ≡ 0)
peers_alike zero t a r = ground arith
peers_alike (suc zero) t a r = ground arith
peers_alike (suc (suc i)) t a r = absurd (gone-not_runnable 30 i t a r)

gone-numbered : (n i : ℕ) (t : Thread) → At (replicate n gone) i t → is_dead t.state ≡ false → ⊥
gone-numbered zero i t a r = ground arith
gone-numbered (suc n) zero t a r = ground arith
gone-numbered (suc n) (suc i) t a r = gone-numbered n i t a r

peers-numbered : (i : ℕ) (t : Thread) → At peers i t → is_dead t.state ≡ false → t.id ≡ i + 1
peers-numbered zero t a r = ground arith
peers-numbered (suc zero) t a r = ground arith
peers-numbered (suc (suc i)) t a r = absurd (gone-numbered 30 i t a r)

level-IsValid : IsValid level
level-IsValid = record { size = refl; numbered = peers-numbered }

level-HasRoom : HasRoom level
level-HasRoom i t a r = omega (arith, peers_alike i t a r)

level-IsBalanced : IsBalanced 5 level
level-IsBalanced = record {
  level = λ i t a r. (peers_alike i t a r).0;
  close = λ i j t u a b r q. omega (arith, peers_alike i t a r);
}

turn-IsBalanced_example : IsBalanced 5 (turn level)
turn-IsBalanced_example = turn-IsBalanced 5 level level-IsValid level-HasRoom level-IsBalanced

-- The second thread has its turn after the first.
turns-reach_example :
    (n : ℕ) × (n < 2 * Turns.population level.threads) × (pick_next (turns n level) ≡ pos 2)
turns-reach_example =
    turns-reach 5 level 1 (peer 2) level-IsValid level-IsBalanced refl refl (omega arith)

add_lem_example :
    ((add level 9 ≡ (full, none, level))
      × ((j : ℕ) (u : Thread) → At level.threads j u → u.state ≢ dead))
    ⊎ ((i : ℕ) × (held : Thread) × At level.threads i held
        × (held.state ≡ dead)
        × ((j : ℕ) (u : Thread) → j < i → At level.threads j u → u.state ≢ dead)
        × (i < max_threads)
        × (add level 9 ≡ (ok, some (i + 1), with_new level i 9)))
add_lem_example = add_lem level 9 level-IsValid

set_state-cases_example :
    (Unused level 2 × (set_state level 2 blocked ≡ (not_found, level)))
    ⊎ ((i : ℕ) × (t : Thread) × Names level 2 i t
        × (set_state level 2 blocked ≡ (ok, with_state level i t blocked)))
set_state-cases_example = set_state-cases level 2 blocked
