-- ===== src/Sched.antt =====
-- kernel/core/scheduler.c: a table of threads, and the choice of the next one to run.
-- `threads[32]` is a list, a loop over the table a recursion on that list, and a function that
-- writes through its pointer returns the new scheduler.
pub mod Inv
pub mod Slots
pub mod Cases
pub mod Pick
pub mod Fair
pub mod Turns
pub mod Count
mod Examples
use nova.Base.{
  ℕ, suc, ◌+◌, ◌-◌, Bool, true, false, ◌&&◌, ◌||◌, Option, none, some, List, [], ◌∷◌, ltb, ◌==◌,
  if◌then◌else◌, get_elem?, set,
}
use nova.Base.Words.{u32, u64, ℤ, negsuc, to_i32}
use nova.Base.Results.{Status, ok, full, not_found}

abbrev pub max_threads : ℕ
max_threads = 32

pub data ThreadState : Type 0 where
  dead runnable blocked : ThreadState

pub record Thread : Type 0 where
  pub id : ℕ
  pub priority : ℕ
  pub quanta : ℕ
  pub state : ThreadState

pub record Scheduler : Type 0 where
  pub threads : List Thread
  pub count : ℕ
  pub tick : ℕ

abbrev pub is_dead : ThreadState → Bool
is_dead dead = true
is_dead _ = false

abbrev pub is_runnable : ThreadState → Bool
is_runnable runnable = true
is_runnable _ = false

abbrev pub mark_dead : List Thread → List Thread
mark_dead [] = []
mark_dead (t ∷ ts) = record t { state = dead } ∷ mark_dead ts

-- `nova_sched_init` leaves the other fields of each thread as it finds them.
pub init : Scheduler → Scheduler
init s = record s { threads = mark_dead s.threads; count = 0; tick = 0 }

-- the first slot, from `index` on, that the loop of `nova_sched_add` does not pass over
abbrev pub first_dead : ℕ → List Thread → Option ℕ
first_dead index [] = none
first_dead index (t ∷ ts) = if is_dead t.state then some index else first_dead (suc index) ts

abbrev pub new_thread : ℕ → ℕ → Thread
new_thread index priority = record {
  id = u32 (u32 index + 1);
  priority = priority;
  quanta = 0;
  state = runnable;
}

-- The option is what goes through `id`.
pub add : Scheduler → ℕ → Status × Option ℕ × Scheduler
add s priority = elim (first_dead 0 s.threads) [
  | none ↦ (full, none, s)
  | some index ↦ (
    ok,
    some (new_thread index priority).id,
    record s {
      threads = set s.threads index (new_thread index priority);
      count = u64 (s.count + 1);
    },
  )
]

-- `id == 0 || id > NOVA_MAX_THREADS`
abbrev pub bad_id : ℕ → Bool
bad_id id = (id == 0) || ltb max_threads id

-- A slot outside the table holds no thread; `Inv` rules it out.
abbrev pub live_thread : Scheduler → ℕ → Option Thread
live_thread s index = elim (get_elem? s.threads index) [
  | none ↦ none
  | some t ↦ if is_dead t.state then none else some t
]

pub set_state : Scheduler → ℕ → ThreadState → Status × Scheduler
set_state s id state = if bad_id id then (not_found, s) else elim (live_thread s (id - 1)) [
  | none ↦ (not_found, s)
  | some t ↦ (ok, record s { threads = set s.threads (id - 1) (record t { state = state }) })
]

-- the test by which `candidate` takes the place of `current`
abbrev pub beats : Thread → Thread → Bool
beats candidate current =
    ltb current.priority candidate.priority
    || ((candidate.priority == current.priority) && ltb candidate.quanta current.quanta)

-- `selected`, with the thread that it names; `none` is the -1 that it starts with.
abbrev pub Selected : Type 0
Selected = Option (ℕ × Thread)

-- one round of the loop of `nova_sched_pick_next`
abbrev pub consider : ℕ → Thread → Selected → Selected
consider index candidate none =
    if is_runnable candidate.state then some (index, candidate) else none
consider index candidate (some (i, current)) =
    if is_runnable candidate.state && beats candidate current
    then some (index, candidate)
    else some (i, current)

abbrev pub pick_from : ℕ → List Thread → Selected → Selected
pick_from index [] selected = selected
pick_from index (t ∷ ts) selected = pick_from (suc index) ts (consider index t selected)

pub pick_next : Scheduler → ℤ
pick_next s = elim (pick_from 0 s.threads none) [ none ↦ negsuc 0 | some (index, t) ↦ to_i32 t.id ]

pub account : Scheduler → ℕ → Scheduler
account s id = if bad_id id then s else elim (live_thread s (id - 1)) [
  | none ↦ s
  | some t ↦ record s {
    threads = set s.threads (id - 1) (record t { quanta = u64 (t.quanta + 1) });
    tick = u64 (s.tick + 1);
  }
]
