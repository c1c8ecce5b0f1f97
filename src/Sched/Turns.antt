-- ===== src/Sched/Turns.antt =====
-- Every runnable thread gets its turn: how many turns of a dispatcher pass before that.
use nova.Base.{
  ℕ, zero, suc, ◌+◌, ◌-◌, ◌*◌, ◌^◌, ◌≤◌, ◌<◌, ◌≡◌, refl, ap, ◌∙◌, inl, inr, true, List, [], ◌∷◌,
  arith, set, if◌then◌else◌, ◌==◌, Bool-cases, get_elem?-set-cases, get_elem?-set_ne, subst,
}
use nova.Base.Words.{pos}
use nova.Sched.{Scheduler, Thread, max_threads, is_runnable, pick_next}
use nova.Sched.Slots.{At}
use nova.Sched.Inv.{IsValid, account-IsValid}
use nova.Sched.Cases.{account_at, accounted}
use nova.Sched.Pick.{IsWinner, pick_next-IsWinner}
use nova.Sched.Fair.{turn, charged, named, IsBalanced}

unfoldable pub turns : ℕ → Scheduler → Scheduler
turns zero s = s
turns (suc n) s = turns n (turn s)

abbrev pub population : List Thread → ℕ
population [] = 0
population (t ∷ ts) = (if is_runnable t.state then 1 else 0) + population ts

-- How often a runnable thread can be picked while one with `q` quanta waits.
abbrev ahead : ℕ → Thread → ℕ
ahead q t = if is_runnable t.state then q + 1 - t.quanta else 0

abbrev work : ℕ → List Thread → ℕ
work q [] = 0
work q (t ∷ ts) = ahead q t + work q ts

work-At :
    (q i : ℕ) (ts : List Thread) (t : Thread)
    → At ts i t
    → is_runnable t.state ≡ true
    → t.quanta ≤ q
    → 1 ≤ work q ts
work-At q i [] t a r h = ground arith
work-At q zero (u ∷ us) t a r h = ground arith
work-At q (suc i) (u ∷ us) t a r h = omega (arith, work-At q i us t a r h)

-- A turn of a thread that is not behind takes one off the work.
work-charged :
    (q i : ℕ) (ts : List Thread) (t : Thread)
    → At ts i t
    → is_runnable t.state ≡ true
    → t.quanta ≤ q
    → q + 1 < 2 ^ 64
    → work q (set ts i (charged t)) + 1 ≡ work q ts
work-charged q i [] t a r h k = ground arith
work-charged q zero (u ∷ us) t a r h k = ground arith
work-charged q (suc i) (u ∷ us) t a r h k = omega (arith, work-charged q i us t a r h k)

work-population :
    (q : ℕ) (ts : List Thread)
    → ((j : ℕ) (u : Thread) → At ts j u → is_runnable u.state ≡ true → q ≤ u.quanta + 1)
    → work q ts ≤ 2 * population ts
work-population q [] h = omega arith
work-population q (u ∷ us) h =
    let rest = work-population q us (λ j t a r. h (suc j) t a r) in
    elim (Bool-cases (is_runnable u.state)) [
      | inl e ↦ ground (arith, rest, h 0 u refl e)
      | inr e ↦ ground (arith, rest)
    ]

abbrev IsLevel : ℕ → List Thread → Type 0
IsLevel p ts = (j : ℕ) (u : Thread) → At ts j u → is_runnable u.state ≡ true → u.priority ≡ p

IsLevel-charged :
    (p i : ℕ) (ts : List Thread) (t : Thread)
    → At ts i t
    → is_runnable t.state ≡ true
    → IsLevel p ts
    → IsLevel p (set ts i (charged t))
IsLevel-charged p i ts t a r l j u b e = elim (get_elem?-set-cases ts i j (charged t) b) [
  | inl (here, same) ↦ ground (arith, l i t a r)
  | inr (ne, b') ↦ l j u b' e
]

turn_picked :
    (s : Scheduler) (i : ℕ) (t : Thread)
    → IsWinner s.threads i t
    → i < max_threads
    → pick_next s ≡ pos (i + 1)
    → turn s ≡ accounted s i t
unfolding turn
turn_picked s i t q h pick = rw (pick, turn, account_at s (i + 1) i t (named s i t q h)) refl

-- While a thread waits, each turn takes one off the work.
waits :
    (w p : ℕ) (s : Scheduler) (i : ℕ) (t : Thread)
    → IsValid s
    → IsLevel p s.threads
    → At s.threads i t
    → is_runnable t.state ≡ true
    → t.quanta + 1 < 2 ^ 64
    → work t.quanta s.threads ≤ w
    → (n : ℕ) × (n < w) × (pick_next (turns n s) ≡ pos (i + 1))
unfolding turns
waits zero p s i t v l a r k h = absurd (omega (arith, work-At t.quanta i s.threads t a r))
waits (suc w) p s i t v l a r k h = elim (pick_next-IsWinner s v) [
  | inl (e, none_runs) ↦ absurd (ground (arith, none_runs i t a))
  | inr (j, u, q, e, small, pick) ↦ elim (Bool-cases (j == i)) [
    | inl here ↦ (0, omega arith, pick ∙ ground arith)
    | inr ne ↦
        let behind : u.quanta ≤ t.quanta =
          ground (arith, q.best i t a r, l i t a r, l j u q.at q.can_run) in
        let less = work-charged t.quanta j s.threads u q.at q.can_run behind k in
        let next = turn_picked s j u q small pick in
        let there = get_elem?-set_ne s.threads j i (charged u) (ground arith) ∙ a in
        let v' =
          subst IsValid (account_at s (j + 1) j u (named s j u q small))
            (account-IsValid s (j + 1) v) in
        let (n, m, done) =
          waits w p (accounted s j u) i t v' (IsLevel-charged p j s.threads u q.at q.can_run l)
            there r k (omega arith) in
        (suc n, omega arith, ap (λ x. pick_next (turns n x)) next ∙ done)
  ]
]

-- On a valid table whose runnable threads have one priority and quanta that differ by at most one,
-- let each turn charge the thread that is picked. A runnable thread whose counter is not about to
-- wrap is picked before twice as many turns have passed as there are runnable threads.
pub turns-reach :
    (p : ℕ) (s : Scheduler) (i : ℕ) (t : Thread)
    → IsValid s
    → IsBalanced p s
    → At s.threads i t
    → is_runnable t.state ≡ true
    → t.quanta + 1 < 2 ^ 64
    → (n : ℕ) × (n < 2 * population s.threads) × (pick_next (turns n s) ≡ pos (i + 1))
turns-reach p s i t v b a r k =
    waits (2 * population s.threads) p s i t v b.level a r k
      (work-population t.quanta s.threads (λ j u c e. b.close i j t u a c r e))
