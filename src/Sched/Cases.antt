-- ===== src/Sched/Cases.antt =====
-- The branches of the operations on the table, each with what its guard says of the table.
use nova.Base.{
  ℕ, ◌+◌, ◌-◌, ◌<◌, ◌≡◌, ◌⊎◌, inl, inr, true, false, none, some, arith, set, Bool-cases,
  Option-cases,
}
use nova.Base.Words.{u64}
use nova.Base.Results.{ok, full, not_found}
use nova.Sched.{
  Scheduler, Thread, ThreadState, is_dead, max_threads, add, set_state, account, new_thread, bad_id,
  live_thread,
}
use nova.Sched.Slots.{At, AllLive, IsLowestDead, first_dead-cases}

abbrev pub added : Scheduler → ℕ → ℕ → Scheduler
added s i priority = record s {
  threads = set s.threads i (new_thread i priority);
  count = u64 (s.count + 1);
}

-- `nova_sched_add` refuses a table with no dead slot, and else fills the lowest.
pub add-cases :
    (s : Scheduler) (priority : ℕ)
    → ((add s priority ≡ (full, none, s)) × AllLive s.threads)
      ⊎ ((i : ℕ) × IsLowestDead s.threads i
          × (add s priority ≡ (ok, some (new_thread i priority).id, added s i priority)))
unfolding add
add-cases s priority = elim (first_dead-cases 0 s.threads) [
  | inl (e, all) ↦ inl (ground arith, all)
  | inr (i, e, r) ↦ inr (i, r, ground arith)
]

-- A live thread stands in slot `i`, whose id is `id`.
pub record Names (s : Scheduler) (id i : ℕ) (t : Thread) : Type 0 where
  pub slot : id ≡ i + 1
  pub small : i < max_threads
  pub at : At s.threads i t
  pub live : is_dead t.state ≡ false

-- No live thread has the id.
abbrev pub Unused : Scheduler → ℕ → Type 0
Unused s id = (i : ℕ) (t : Thread) → ¬ Names s id i t

Unused-of_bad : (s : Scheduler) (id : ℕ) → bad_id id ≡ true → Unused s id
Unused-of_bad s id e i t n = ground arith

Unused-of_none : (s : Scheduler) (id : ℕ) → live_thread s (id - 1) ≡ none → Unused s id
Unused-of_none s id f i t n = let e : id - 1 ≡ i = ground arith in ground arith

Names-of_some :
    (s : Scheduler) (id : ℕ) (t : Thread)
    → bad_id id ≡ false
    → live_thread s (id - 1) ≡ some t
    → Names s id (id - 1) t
Names-of_some s id t e f = record {
  slot = ground arith;
  small = ground arith;
  at = ground arith;
  live = ground arith;
}

abbrev pub with_state : Scheduler → ℕ → Thread → ThreadState → Scheduler
with_state s i t state = record s { threads = set s.threads i (record t { state = state }) }

abbrev pub accounted : Scheduler → ℕ → Thread → Scheduler
accounted s i t = record s {
  threads = set s.threads i (record t { quanta = u64 (t.quanta + 1) });
  tick = u64 (s.tick + 1);
}

module _ (s : Scheduler) (id : ℕ) where
  -- `nova_sched_set_state` changes the state of the live thread with the id, or refuses.
  pub set_state-cases :
      (state : ThreadState)
      → (Unused s id × (set_state s id state ≡ (not_found, s)))
        ⊎ ((i : ℕ) × (t : Thread) × Names s id i t
            × (set_state s id state ≡ (ok, with_state s i t state)))
  unfolding set_state
  set_state-cases state = elim (Bool-cases (bad_id id)) [
    | inl e ↦ inl (Unused-of_bad s id e, rw e)
    | inr e ↦ elim (Option-cases (live_thread s (id - 1))) [
      | inl f ↦ inl (Unused-of_none s id f, ground arith)
      | inr (t, f) ↦ inr (id - 1, t, Names-of_some s id t e f, ground arith)
    ]
  ]

  -- `nova_sched_account` charges the live thread with the id, or does nothing.
  pub account-cases :
      (Unused s id × (account s id ≡ s))
      ⊎ ((i : ℕ) × (t : Thread) × Names s id i t × (account s id ≡ accounted s i t))
  unfolding account
  account-cases = elim (Bool-cases (bad_id id)) [
    | inl e ↦ inl (Unused-of_bad s id e, rw e)
    | inr e ↦ elim (Option-cases (live_thread s (id - 1))) [
      | inl f ↦ inl (Unused-of_none s id f, ground arith)
      | inr (t, f) ↦ inr (id - 1, t, Names-of_some s id t e f, ground arith)
    ]
  ]

pub account_at :
    (s : Scheduler) (id i : ℕ) (t : Thread) → Names s id i t → account s id ≡ accounted s i t
unfolding account
account_at s id i t n = let e : id - 1 ≡ i = ground arith in ground arith
