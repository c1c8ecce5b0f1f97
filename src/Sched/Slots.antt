-- ===== src/Sched/Slots.antt =====
-- The slot that `nova_sched_add` takes, and what a write to one slot does to the table.
use nova.Base.{
  ℕ, zero, suc, ◌+◌, ◌<◌, ◌≡◌, refl, ◌≢◌, ◌⊎◌, inl, inr, true, false, none, some, List, [], ◌∷◌,
  arith, length, get_elem?, set, Bool-cases, get_elem?-set_self, get_elem?-set_ne,
}
use nova.Sched.{dead, Thread, is_dead, first_dead, mark_dead}

-- Slot `i` holds the thread `t`.
abbrev pub At : List Thread → ℕ → Thread → Type 0
At ts i t = get_elem? ts i ≡ some t

-- `i` is the lowest dead slot.
pub record IsLowestDead (ts : List Thread) (i : ℕ) : Type 0 where
  pub held : Thread
  pub at : At ts i held
  pub is_free : is_dead held.state ≡ true
  pub lowest : (j : ℕ) (t : Thread) → j < i → At ts j t → is_dead t.state ≡ false

abbrev pub AllLive : List Thread → Type 0
AllLive ts = (j : ℕ) (t : Thread) → At ts j t → is_dead t.state ≡ false

IsLowestDead-here :
    (t : Thread) (ts : List Thread) → is_dead t.state ≡ true → IsLowestDead (t ∷ ts) 0
IsLowestDead-here t ts e = record {
  held = t;
  at = refl;
  is_free = e;
  lowest = λ j u h a. absurd (omega arith);
}

IsLowestDead-there :
    (t : Thread) (ts : List Thread) (i : ℕ)
    → is_dead t.state ≡ false
    → IsLowestDead ts i
    → IsLowestDead (t ∷ ts) (suc i)
IsLowestDead-there t ts i e r = record {
  held = r.held;
  at = r.at;
  is_free = r.is_free;
  lowest = below;
}
  where
    below : (j : ℕ) (u : Thread) → j < suc i → At (t ∷ ts) j u → is_dead u.state ≡ false
    below zero u h a = ground arith
    below (suc j) u h a = r.lowest j u (omega arith) a

AllLive-cons :
    (t : Thread) (ts : List Thread) → is_dead t.state ≡ false → AllLive ts → AllLive (t ∷ ts)
AllLive-cons t ts e all zero u a = ground arith
AllLive-cons t ts e all (suc j) u a = all j u a

-- The search finds the lowest dead slot, or there is none.
pub first_dead-cases :
    (index : ℕ) (ts : List Thread)
    → ((first_dead index ts ≡ none) × AllLive ts)
      ⊎ ((i : ℕ) × (first_dead index ts ≡ some (index + i)) × IsLowestDead ts i)
first_dead-cases index [] = inl (refl, λ j t a. ground arith)
first_dead-cases index (t ∷ ts) = elim (Bool-cases (is_dead t.state)) [
  | inl e ↦ inr (0, ground arith, IsLowestDead-here t ts e)
  | inr e ↦ elim (first_dead-cases (suc index) ts) [
    | inl (n, all) ↦ inl (ground arith, AllLive-cons t ts e all)
    | inr (i, n, r) ↦ inr (suc i, ground arith, IsLowestDead-there t ts i e r)
  ]
]

-- The table differs at most at slot `i`, and holds `v` there.
pub record Wrote (ts us : List Thread) (i : ℕ) (v : Thread) : Type 0 where
  pub written : At us i v
  pub same : (j : ℕ) → j ≢ i → get_elem? us j ≡ get_elem? ts j

pub Wrote-set : (ts : List Thread) (i : ℕ) (v : Thread) → i < length ts → Wrote ts (set ts i v) i v
Wrote-set ts i v h = record {
  written = get_elem?-set_self ts i v h;
  same = λ j ne. get_elem?-set_ne ts i j v (λ e. ground arith);
}

pub length-mark_dead : (ts : List Thread) → length (mark_dead ts) ≡ length ts
length-mark_dead [] = refl
length-mark_dead (t ∷ ts) = omega (arith, length-mark_dead ts)

pub mark_dead-dead :
    (ts : List Thread) (i : ℕ) (t : Thread) → At (mark_dead ts) i t → t.state ≡ dead
mark_dead-dead [] i t a = ground arith
mark_dead-dead (u ∷ ts) zero t a = ground arith
mark_dead-dead (u ∷ ts) (suc i) t a = mark_dead-dead ts i t a
