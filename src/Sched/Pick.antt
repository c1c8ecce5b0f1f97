-- ===== src/Sched/Pick.antt =====
-- What `nova_sched_pick_next` selects.
use nova.Base.{
  ℕ, zero, suc, ◌+◌, ◌<◌, ◌≡◌, refl, ◌⊎◌, inl, inr, true, false, ◌&&◌, none, some, List, [], ◌∷◌,
  arith, Bool-cases, get_elem?-lt, ap, ltb, ◌≤◌, ◌≢◌,
}
use nova.Base.Words.{pos, negsuc}
use nova.Sched.{
  Scheduler, Thread, ThreadState, dead, runnable, blocked, is_runnable, is_dead, max_threads, beats,
  pick_from, pick_next,
}
use nova.Sched.Slots.{At}
use nova.Sched.Inv.{IsValid}

-- Slot `i` holds a runnable thread `t` that no runnable thread beats, and that beats each one in a
-- lower slot.
pub record IsWinner (ts : List Thread) (i : ℕ) (t : Thread) : Type 0 where
  pub at : At ts i t
  pub can_run : is_runnable t.state ≡ true
  pub best : (j : ℕ) (u : Thread) → At ts j u → is_runnable u.state ≡ true → beats u t ≡ false
  pub first :
      (j : ℕ) (u : Thread) → j < i → At ts j u → is_runnable u.state ≡ true → beats t u ≡ true

abbrev pub NoneRunnable : List Thread → Type 0
NoneRunnable ts = (j : ℕ) (u : Thread) → At ts j u → is_runnable u.state ≡ false

-- The loop keeps the thread `b` that it holds, for no runnable thread of `ts` beats it; or it
-- selects one of `ts`, which beats `b`.
abbrev Keeps : List Thread → Thread → Type 0
Keeps ts b = (j : ℕ) (u : Thread) → At ts j u → is_runnable u.state ≡ true → beats u b ≡ false

keep :
    (t : Thread) (ts : List Thread) (b : Thread)
    → (is_runnable t.state && beats t b) ≡ false
    → Keeps ts b
    → Keeps (t ∷ ts) b
keep t ts b e k zero u a r = ground arith
keep t ts b e k (suc j) u a r = k j u a r

IsWinner-here :
    (t : Thread) (ts : List Thread)
    → is_runnable t.state ≡ true
    → Keeps ts t
    → IsWinner (t ∷ ts) 0 t
IsWinner-here t ts e k = record {
  at = refl;
  can_run = e;
  best = keep t ts t (ground arith) k;
  first = λ j u h a r. absurd (omega arith);
}

IsWinner-there :
    (t : Thread) (ts : List Thread) (i : ℕ) (u : Thread)
    → (is_runnable t.state ≡ true → beats u t ≡ true)
    → IsWinner ts i u
    → IsWinner (t ∷ ts) (suc i) u
IsWinner-there t ts i u over p = record {
  at = p.at;
  can_run = p.can_run;
  best = best;
  first = first;
}
  where
    best : (j : ℕ) (w : Thread) → At (t ∷ ts) j w → is_runnable w.state ≡ true → beats w u ≡ false
    best zero w a r = ground arith
    best (suc j) w a r = p.best j w a r

    first :
        (j : ℕ) (w : Thread)
        → j < suc i
        → At (t ∷ ts) j w
        → is_runnable w.state ≡ true
        → beats u w ≡ true
    first zero w h a r = ground arith
    first (suc j) w h a r = p.first j w (omega arith) a r

beats_trans : (a b c : Thread) → beats a b ≡ true → beats b c ≡ true → beats a c ≡ true
beats_trans a b c h k = ground arith

-- A thread that beats `b` beats each one that does not beat `b`.
beats_weaken :
    (u b t : Thread)
    → beats u b ≡ true
    → (is_runnable t.state && beats t b) ≡ false
    → is_runnable t.state ≡ true
    → beats u t ≡ true
beats_weaken u b t h k r = ground arith

-- What the rest of the loop does with a thread that it holds.
abbrev HoldingCases : ℕ → ℕ → List Thread → Thread → Type 0
HoldingCases index k ts b =
    ((pick_from index ts (some (k, b)) ≡ some (k, b)) × Keeps ts b)
    ⊎ ((i : ℕ) × (u : Thread) × (pick_from index ts (some (k, b)) ≡ some (index + i, u))
        × IsWinner ts i u
        × (beats u b ≡ true))

pick_holding : (index k : ℕ) (ts : List Thread) (b : Thread) → HoldingCases index k ts b
pick_holding index k [] b = inl (refl, λ j u a r. ground arith)
pick_holding index k (t ∷ ts) b = elim (Bool-cases (is_runnable t.state && beats t b)) [
  | inl e ↦ elim (pick_holding (suc index) index ts t) [
    | inl (q, ks) ↦ inr (0, t, ground arith, IsWinner-here t ts (ground arith) ks, ground arith)
    | inr (i, u, q, p, o) ↦ inr (
      suc i,
      u,
      ground arith,
      IsWinner-there t ts i u (λ _. o) p,
      beats_trans u t b o (ground arith),
    )
  ]
  | inr e ↦ elim (pick_holding (suc index) k ts b) [
    | inl (q, ks) ↦ inl (ground arith, keep t ts b e ks)
    | inr (i, u, q, p, o) ↦
        inr (suc i, u, ground arith, IsWinner-there t ts i u (beats_weaken u b t o e) p, o)
  ]
]

NoneRunnable-cons :
    (t : Thread) (ts : List Thread)
    → is_runnable t.state ≡ false
    → NoneRunnable ts
    → NoneRunnable (t ∷ ts)
NoneRunnable-cons t ts e n zero u a = ground arith
NoneRunnable-cons t ts e n (suc j) u a = n j u a

pick_from-cases :
    (index : ℕ) (ts : List Thread)
    → ((pick_from index ts none ≡ none) × NoneRunnable ts)
      ⊎ ((i : ℕ) × (u : Thread) × (pick_from index ts none ≡ some (index + i, u)) × IsWinner ts i u)
pick_from-cases index [] = inl (refl, λ j u a. ground arith)
pick_from-cases index (t ∷ ts) = elim (Bool-cases (is_runnable t.state)) [
  | inl e ↦ elim (pick_holding (suc index) index ts t) [
    | inl (q, ks) ↦ inr (0, t, ground arith, IsWinner-here t ts e ks)
    | inr (i, u, q, p, o) ↦ inr (suc i, u, ground arith, IsWinner-there t ts i u (λ _. o) p)
  ]
  | inr e ↦ elim (pick_from-cases (suc index) ts) [
    | inl (q, n) ↦ inl (ground arith, NoneRunnable-cons t ts e n)
    | inr (i, u, q, p) ↦ inr (suc i, u, ground arith, IsWinner-there t ts i u (λ r. cc) p)
  ]
]

pub live_of_runnable : (t : Thread) → is_runnable t.state ≡ true → is_dead t.state ≡ false
live_of_runnable t h = ground arith

-- `nova_sched_pick_next` in the terms of its own comparison.
pub pick_next-IsWinner :
    (s : Scheduler)
    → IsValid s
    → ((pick_next s ≡ negsuc 0) × NoneRunnable s.threads)
      ⊎ ((i : ℕ) × (t : Thread) × IsWinner s.threads i t
          × (t.id ≡ i + 1)
          × (i < max_threads)
          × (pick_next s ≡ pos (i + 1)))
unfolding pick_next
pick_next-IsWinner s v = elim (pick_from-cases 0 s.threads) [
  | inl (q, n) ↦ inl (rw (q, pick_next), n)
  | inr (i, t, q, p) ↦
      let e : t.id ≡ i + 1 = v.numbered i t p.at (live_of_runnable t p.can_run) in
      let h : i < max_threads = omega (arith, get_elem?-lt s.threads i p.at, v.size) in
      inr (i, t, p, e, h, ground arith)
]

-- Slot `i` holds a runnable thread `t`. No runnable thread has a higher priority, none of the same
-- priority has had fewer quanta, and one with as many of them stands in a higher slot.
pub record IsPick (ts : List Thread) (i : ℕ) (t : Thread) : Type 0 where
  pub at : At ts i t
  pub runs : t.state ≡ runnable
  pub highest : (j : ℕ) (u : Thread) → At ts j u → u.state ≡ runnable → u.priority ≤ t.priority
  pub fewest :
      (j : ℕ) (u : Thread)
      → At ts j u
      → u.state ≡ runnable
      → u.priority ≡ t.priority
      → t.quanta ≤ u.quanta
  pub lowest :
      (j : ℕ) (u : Thread)
      → At ts j u
      → u.state ≡ runnable
      → u.priority ≡ t.priority
      → u.quanta ≡ t.quanta
      → i ≤ j

runnable_state : (x : ThreadState) → is_runnable x ≡ true → x ≡ runnable
runnable_state dead h = cc
runnable_state runnable h = refl
runnable_state blocked h = cc

can_run_state : (x : ThreadState) → x ≡ runnable → is_runnable x ≡ true
can_run_state x e = ap is_runnable e

IsWinner-IsPick : (ts : List Thread) (i : ℕ) (t : Thread) → IsWinner ts i t → IsPick ts i t
IsWinner-IsPick ts i t p = record {
  at = p.at;
  runs = runnable_state t.state p.can_run;
  highest = λ j u a r. ground (arith, p.best j u a (can_run_state u.state r));
  fewest = λ j u a r e. ground (arith, p.best j u a (can_run_state u.state r));
  lowest = λ j u a r e q. elim (Bool-cases (ltb j i)) [
    | inl h ↦ absurd (ground (arith, p.first j u (ground (arith, h)) a (can_run_state u.state r)))
    | inr h ↦ ground (arith, h)
  ];
}

-- On a valid table `nova_sched_pick_next` returns -1 exactly when no thread is runnable, and else
-- the id of the runnable thread of highest priority, among those of the one with the fewest quanta,
-- and among those of the one in the lowest slot.
pub pick_next-cases :
    (s : Scheduler)
    → IsValid s
    → ((pick_next s ≡ negsuc 0) × ((j : ℕ) (u : Thread) → At s.threads j u → u.state ≢ runnable))
      ⊎ ((i : ℕ) × (t : Thread) × IsPick s.threads i t
          × (t.id ≡ i + 1)
          × (i < max_threads)
          × (pick_next s ≡ pos (i + 1)))
pick_next-cases s v = elim (pick_next-IsWinner s v) [
  | inl (e, n) ↦ inl (e, λ j u a r. ground (arith, n j u a, can_run_state u.state r))
  | inr (i, t, p, e, h, q) ↦ inr (i, t, IsWinner-IsPick s.threads i t p, e, h, q)
]
