-- ===== src/Sched/Fair.antt =====
-- Round robin: repeated picks among runnable threads of one priority share the quanta out evenly.
use nova.Base.{ℕ, ◌+◌, ◌^◌, ◌≤◌, ◌<◌, ◌≡◌, refl, inl, inr, true, arith, set, get_elem?-set-cases}
use nova.Base.Words.{u64, pos, negsuc}
use nova.Sched.{Scheduler, Thread, max_threads, is_runnable, pick_next, account}
use nova.Sched.Slots.{At}
use nova.Sched.Inv.{IsValid}
use nova.Sched.Cases.{Names, account_at, accounted}
use nova.Sched.Pick.{IsWinner, pick_next-IsWinner, live_of_runnable}

-- One turn of a dispatcher: the thread that is picked is charged for a quantum.
unfoldable pub turn : Scheduler → Scheduler
turn s = elim (pick_next s) [ pos id ↦ account s id | negsuc n ↦ s ]

-- The runnable threads have the priority `p`, and no two differ by more than one quantum.
pub record IsBalanced (p : ℕ) (s : Scheduler) : Type 0 where
  pub level : (i : ℕ) (t : Thread) → At s.threads i t → is_runnable t.state ≡ true → t.priority ≡ p
  pub close :
      (i j : ℕ) (t u : Thread)
      → At s.threads i t
      → At s.threads j u
      → is_runnable t.state ≡ true
      → is_runnable u.state ≡ true
      → t.quanta ≤ u.quanta + 1

-- No runnable thread is about to exhaust its 64-bit counter.
abbrev pub HasRoom : Scheduler → Type 0
HasRoom s =
    (i : ℕ) (t : Thread) → At s.threads i t → is_runnable t.state ≡ true → t.quanta + 1 < 2 ^ 64

abbrev pub charged : Thread → Thread
charged t = record t { quanta = u64 (t.quanta + 1) }

charged-IsBalanced :
    (p : ℕ) (s : Scheduler) (i : ℕ) (t : Thread)
    → IsBalanced p s
    → HasRoom s
    → IsWinner s.threads i t
    → IsBalanced p (accounted s i t)
charged-IsBalanced p s i t b room q = record { level = level; close = close }
  where
    level :
        (j : ℕ) (u : Thread)
        → At (set s.threads i (charged t)) j u
        → is_runnable u.state ≡ true
        → u.priority ≡ p
    level j u a r = elim (get_elem?-set-cases s.threads i j (charged t) a) [
      | inl (e, e') ↦ ground (arith, b.level i t q.at q.can_run)
      | inr (ne, a') ↦ b.level j u a' r
    ]

    least :
        (j : ℕ) (u : Thread) → At s.threads j u → is_runnable u.state ≡ true → t.quanta ≤ u.quanta
    least j u a r = ground (arith, q.best j u a r, b.level j u a r, b.level i t q.at q.can_run)

    close :
        (j k : ℕ) (u w : Thread)
        → At (set s.threads i (charged t)) j u
        → At (set s.threads i (charged t)) k w
        → is_runnable u.state ≡ true
        → is_runnable w.state ≡ true
        → u.quanta ≤ w.quanta + 1
    close j k u w a c r o = elim (get_elem?-set-cases s.threads i j (charged t) a) [
      | inl (e, e') ↦ elim (get_elem?-set-cases s.threads i k (charged t) c) [
        | inl (f, f') ↦ ground arith
        | inr (nf, c') ↦ ground (arith, least k w c' o, room i t q.at q.can_run)
      ]
      | inr (ne, a') ↦ elim (get_elem?-set-cases s.threads i k (charged t) c) [
        | inl (f, f') ↦ ground (arith, b.close j i u t a' q.at r q.can_run, room i t q.at q.can_run)
        | inr (nf, c') ↦ b.close j k u w a' c' r o
      ]
    ]

pub named :
    (s : Scheduler) (i : ℕ) (t : Thread)
    → IsWinner s.threads i t
    → i < max_threads
    → Names s (i + 1) i t
named s i t q h = record { slot = refl; small = h; at = q.at; live = live_of_runnable t q.can_run }

-- A turn keeps the quanta of equally important runnable threads within one of each other, as long
-- as no counter is about to wrap.
pub turn-IsBalanced :
    (p : ℕ) (s : Scheduler) → IsValid s → HasRoom s → IsBalanced p s → IsBalanced p (turn s)
unfolding turn
turn-IsBalanced p s v room b = elim (pick_next-IsWinner s v) [
  | inl (e, n) ↦ rw (e, turn) b
  | inr (i, t, q, e, h, pick) ↦
      rw (pick, turn, account_at s (i + 1) i t (named s i t q h))
        (charged-IsBalanced p s i t b room q)
]
