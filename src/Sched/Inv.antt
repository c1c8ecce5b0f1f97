-- ===== src/Sched/Inv.antt =====
-- The table's invariant, kept by every operation: it has its 32 slots, and a thread's id is the
-- number of its slot, counted from 1.
use nova.Base.{
  ℕ, ◌+◌, ◌<◌, ◌≡◌, ◌≢◌, ◌⊎◌, refl, ◌∙◌, ap, inl, inr, true, false, none, some, List, arith, length,
  set, length-set, get_elem?-lt, get_elem?-set-cases,
}
use nova.Sched.{
  Scheduler, Thread, ThreadState, dead, runnable, blocked, is_dead, max_threads, init, add,
  set_state, account, new_thread,
}
use nova.Base.Words.{u64}
use nova.Base.Results.{ok, full}
use nova.Sched.Cases.{added, add-cases, set_state-cases, account-cases}
use nova.Sched.Slots.{At, length-mark_dead, mark_dead-dead}

abbrev pub Numbered : List Thread → Type 0
Numbered ts = (i : ℕ) (t : Thread) → At ts i t → is_dead t.state ≡ false → t.id ≡ i + 1

pub record IsValid (s : Scheduler) : Type 0 where
  pub size : length s.threads ≡ max_threads
  pub numbered : Numbered s.threads

-- Writing a thread with the id of its slot keeps the table numbered.
Numbered-set :
    (ts : List Thread) (i : ℕ) (v : Thread)
    → Numbered ts
    → (is_dead v.state ≡ false → v.id ≡ i + 1)
    → Numbered (set ts i v)
Numbered-set ts i v n h j t a live = elim (get_elem?-set-cases ts i j v a) [
  | inl (e, e') ↦ ground (arith, h)
  | inr (ne, a') ↦ n j t a' live
]

pub init-IsValid : (s : Scheduler) → length s.threads ≡ max_threads → IsValid (init s)
unfolding init
init-IsValid s h = record {
  size = omega (arith, length-mark_dead s.threads);
  numbered = λ i t a live. ground (arith, mark_dead-dead s.threads i t a);
}

new_thread-id : (i priority : ℕ) → i < max_threads → (new_thread i priority).id ≡ i + 1
new_thread-id i priority h = omega arith

IsValid-set :
    (s u : Scheduler) (i : ℕ) (w : Thread)
    → IsValid s
    → u.threads ≡ set s.threads i w
    → (is_dead w.state ≡ false → w.id ≡ i + 1)
    → IsValid u
IsValid-set s u i w v e h = record {
  size = rw e (length-set s.threads i w ∙ v.size);
  numbered = rw e (Numbered-set s.threads i w v.numbered h);
}

lt_max : (s : Scheduler) (i : ℕ) {t : Thread} → IsValid s → At s.threads i t → i < max_threads
lt_max s i v a = omega (arith, get_elem?-lt s.threads i a, v.size)

-- `nova_sched_add` keeps the invariant.
pub add-IsValid : (s : Scheduler) (priority : ℕ) → IsValid s → IsValid (add s priority).2
add-IsValid s priority v = elim (add-cases s priority) [
  | inl (e, all) ↦ rw e v
  | inr (i, r, e) ↦
      rw e (IsValid-set s _ i _ v refl (λ _. new_thread-id i priority (lt_max s i v r.at)))
]

dead_state : (x : ThreadState) → is_dead x ≡ true → x ≡ dead
dead_state dead h = refl
dead_state runnable h = cc
dead_state blocked h = cc

live_state : (x : ThreadState) → is_dead x ≡ false → x ≢ dead
live_state x h e = ground (arith, ap is_dead e)

-- The scheduler with a runnable thread in slot `i` that has had no quanta.
abbrev pub with_new : Scheduler → ℕ → ℕ → Scheduler
with_new s i priority = record {
  threads =
      set s.threads i (record { id = i + 1; priority = priority; quanta = 0; state = runnable });
  count = u64 (s.count + 1);
  tick = s.tick;
}

added-with_new :
    (s : Scheduler) (i priority : ℕ) → i < max_threads → added s i priority ≡ with_new s i priority
added-with_new s i priority h =
    ap
      (λ n. record {
        threads =
            set s.threads i (record { id = n; priority = priority; quanta = 0; state = runnable });
        count = u64 (s.count + 1);
        tick = s.tick;
      })
      (new_thread-id i priority h)

-- On a valid table `nova_sched_add` refuses where no slot is dead, and changes nothing. Else it fills
-- the lowest dead slot with a runnable thread of the given priority that has had no quanta, whose id,
-- the number of the slot counted from 1, it hands out; it adds one to `count` and changes nothing
-- else.
pub add_lem :
    (s : Scheduler) (priority : ℕ)
    → IsValid s
    → ((add s priority ≡ (full, none, s))
        × ((j : ℕ) (u : Thread) → At s.threads j u → u.state ≢ dead))
      ⊎ ((i : ℕ) × (held : Thread) × At s.threads i held
          × (held.state ≡ dead)
          × ((j : ℕ) (u : Thread) → j < i → At s.threads j u → u.state ≢ dead)
          × (i < max_threads)
          × (add s priority ≡ (ok, some (i + 1), with_new s i priority)))
add_lem s priority v = elim (add-cases s priority) [
  | inl (e, all) ↦ inl (e, λ j u a. live_state u.state (all j u a))
  | inr (i, r, e) ↦
      let h = lt_max s i v r.at in
      inr (
        i,
        r.held,
        r.at,
        dead_state r.held.state r.is_free,
        λ j u k a. live_state u.state (r.lowest j u k a),
        h,
        e
            ∙ ap (λ n. (ok, some n, added s i priority)) (new_thread-id i priority h)
            ∙ ap (λ x. (ok, some (i + 1), x)) (added-with_new s i priority h),
      )
]

-- `nova_sched_set_state` keeps the invariant.
pub set_state-IsValid :
    (s : Scheduler) (id : ℕ) (state : ThreadState) → IsValid s → IsValid (set_state s id state).1
set_state-IsValid s id state v = elim (set_state-cases s id state) [
  | inl (n, e) ↦ rw e v
  | inr (i, t, n, e) ↦ rw e (IsValid-set s _ i _ v refl (λ _. v.numbered i t n.at n.live))
]

-- `nova_sched_account` keeps the invariant.
pub account-IsValid : (s : Scheduler) (id : ℕ) → IsValid s → IsValid (account s id)
account-IsValid s id v = elim (account-cases s id) [
  | inl (n, e) ↦ rw e v
  | inr (i, t, n, e) ↦ rw e (IsValid-set s _ i _ v refl (λ _. v.numbered i t n.at n.live))
]
