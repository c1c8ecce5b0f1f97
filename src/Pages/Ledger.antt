-- ===== src/Pages/Ledger.antt =====
-- Sequences of calls on the page allocator against a client's list of the pages that it holds.
use nova.Base.{
  ℕ, ◌+◌, ◌<◌, ◌≡◌, ◌∙◌, ◌⊎◌, inl, inr, Bool, true, false, ◌||◌, Option, none, some, List, [], ◌∷◌,
  arith, length, set, ◌==◌, if◌then◌else◌, length-set,
}
use nova.Base.Results.{Status, ok, full}
use nova.Pages.{Allocator, max_pages, init, alloc_page, free_page}
use nova.Pages.Search.{
  IsValid, is_taken, used, used-le, used-set, used-clear_flags, get_or-clear_flags,
  length-clear_flags, is_taken-set, alloc_page-cases, free_page-cases,
}

abbrev pub contains : List ℕ → ℕ → Bool
contains [] p = false
contains (q ∷ qs) p = (p == q) || contains qs p

-- the list without its first `p`
abbrev pub drop_page : List ℕ → ℕ → List ℕ
drop_page [] p = []
drop_page (q ∷ qs) p = if p == q then qs else q ∷ drop_page qs p

abbrev pub AllDistinct : List ℕ → Type 0
AllDistinct [] = Unit {0}
AllDistinct (q ∷ qs) = (contains qs q ≡ false) × AllDistinct qs

contains-drop_page :
    (qs : List ℕ) (p r : ℕ)
    → AllDistinct qs
    → contains (drop_page qs p) r ≡ (if r == p then false else contains qs r)
contains-drop_page [] p r d = ground arith
contains-drop_page (q ∷ qs) p r d = ground (arith, contains-drop_page qs p r d.1)

AllDistinct-drop_page : (qs : List ℕ) (p : ℕ) → AllDistinct qs → AllDistinct (drop_page qs p)
AllDistinct-drop_page [] p d = tt
AllDistinct-drop_page (q ∷ qs) p d =
    ground (arith, AllDistinct-drop_page qs p d.1, contains-drop_page qs p q d.1)

length-drop_page :
    (qs : List ℕ) (p : ℕ) → contains qs p ≡ true → length (drop_page qs p) + 1 ≡ length qs
length-drop_page [] p h = ground arith
length-drop_page (q ∷ qs) p h = ground (arith, length-drop_page qs p)

pub data Call : Type 0 where
  allocs : Call
  frees : ℕ → Call

abbrev pub note_alloc : Option ℕ → List ℕ → List ℕ
note_alloc none held = held
note_alloc (some p) held = p ∷ held

abbrev pub note_free : Status → ℕ → List ℕ → List ℕ
note_free ok p held = drop_page held p
note_free _ p held = held

-- The client notes each page that it gets, and strikes out each one that it frees.
unfoldable pub step : Allocator × List ℕ → Call → Allocator × List ℕ
step (a, held) allocs = let (s, out, a') = alloc_page a in (a', note_alloc out held)
step (a, held) (frees p) = let (s, a') = free_page a p in (a', note_free s p held)

unfoldable pub run : Allocator × List ℕ → List Call → Allocator × List ℕ
unfolding step
run s [] = s
run s (c ∷ cs) = run (step s c) cs

-- The pages that the client holds are the pages taken, each one once.
pub record Tracks (a : Allocator) (held : List ℕ) : Type 0 where
  pub valid : IsValid a
  pub distinct : AllDistinct held
  pub same : (p : ℕ) → contains held p ≡ is_taken a p
  pub number : length held ≡ used a.allocated

pub init-Tracks : (a : Allocator) → IsValid a → Tracks (init a) []
unfolding init
init-Tracks a v = record {
  valid = omega (arith, length-clear_flags a.allocated);
  distinct = tt;
  same = λ p. ground (arith, get_or-clear_flags a.allocated p);
  number = omega (arith, used-clear_flags a.allocated);
}

taken-Tracks :
    (a : Allocator) (held : List ℕ) (p : ℕ)
    → p < max_pages
    → is_taken a p ≡ false
    → Tracks a held
    → Tracks (record { allocated = set a.allocated p 1 }) (p ∷ held)
taken-Tracks a held p h f t = record {
  valid = omega (arith, length-set a.allocated p 1, t.valid);
  distinct = (ground (arith, t.same p), t.distinct);
  same = λ q. ground (arith, is_taken-set a p 1 q, t.same q, t.valid);
  number = ground (arith, used-set a.allocated p 1, t.number, t.valid);
}

freed-Tracks :
    (a : Allocator) (held : List ℕ) (p : ℕ)
    → p < max_pages
    → is_taken a p ≡ true
    → Tracks a held
    → Tracks (record { allocated = set a.allocated p 0 }) (drop_page held p)
freed-Tracks a held p h f t = record {
  valid = omega (arith, length-set a.allocated p 0, t.valid);
  distinct = AllDistinct-drop_page held p t.distinct;
  same = λ q.
      ground
        (arith, is_taken-set a p 0 q, t.same q, t.valid, contains-drop_page held p q t.distinct);
  number =
      ground
        (arith, used-set a.allocated p 0, t.number, t.valid, length-drop_page held p, t.same p);
}

step-Tracks :
    (a : Allocator) (held : List ℕ) (c : Call)
    → Tracks a held
    → let (a', held') = step (a, held) c in Tracks a' held'
unfolding step
step-Tracks a held allocs t = elim (alloc_page-cases a t.valid) [
  | inl (e, u) ↦ rw e t
  | inr (p, e, h, f, low) ↦ rw e (taken-Tracks a held p h f t)
]
step-Tracks a held (frees p) t = elim (free_page-cases a p t.valid) [
  | inl (e, f) ↦ rw e t
  | inr (e, h, f) ↦ rw e (freed-Tracks a held p h f t)
]

run_keeps :
    (a : Allocator) (held : List ℕ) (cs : List Call)
    → Tracks a held
    → let (a', held') = run (a, held) cs in Tracks a' held'
unfolding run
run_keeps a held [] t = t
run_keeps a held (c ∷ cs) t =
    run_keeps (step (a, held) c).0 (step (a, held) c).1 cs (step-Tracks a held c t)

-- After `nova_vm_init` and any sequence of calls, the pages that the client has got and not freed
-- are exactly the pages taken, and none of them was handed out twice.
pub run-Tracks :
    (a : Allocator) (cs : List Call)
    → IsValid a
    → let (a', held) = run (init a, []) cs in Tracks a' held
run-Tracks a cs v = run_keeps (init a) [] cs (init-Tracks a v)

-- While a valid allocator and the client's list agree, `nova_vm_alloc_page` is full, and changes
-- nothing, exactly when the client holds all 128 pages. Else it succeeds and hands out the lowest page
-- that the client does not hold; with that page on the client's list the two still agree.
pub alloc_page_lem :
    (a : Allocator) (held : List ℕ)
    → Tracks a held
    → ((length held ≡ max_pages) × (alloc_page a ≡ (full, none, a)))
      ⊎ ((p : ℕ) × (a' : Allocator) × (length held < max_pages)
          × (alloc_page a ≡ (ok, some p, a'))
          × (p < max_pages)
          × (contains held p ≡ false)
          × ((q : ℕ) → q < p → contains held q ≡ true)
          × Tracks a' (p ∷ held))
alloc_page_lem a held t = elim (alloc_page-cases a t.valid) [
  | inl (e, u) ↦ inl (omega (arith, t.number), e)
  | inr (p, e, h, f, low) ↦ inr (
    p,
    record { allocated = set a.allocated p 1 },
    room p h f,
    e,
    h,
    t.same p ∙ f,
    λ q k. t.same q ∙ low q k,
    taken-Tracks a held p h f t,
  )
]
  where
    room : (p : ℕ) → p < max_pages → is_taken a p ≡ false → length held < max_pages
    room p h f =
        let le = used-le (set a.allocated p 1) in
        ground (arith, used-set a.allocated p 1, le, length-set a.allocated p 1, t.number, t.valid)
