-- ===== src/Space/Table.antt =====
-- The finite map that an address space promises to be, and the proof that it is.
use nova.Base.{
  ℕ, ◌+◌, ◌≡◌, ◌≢◌, refl, sym, ap, ◌∙◌, inl, inr, Option, none, some, List, [], ◌∷◌, arith, ◌==◌,
  if◌then◌else◌, Option-cases, Bool-cases, ne→==, eq→==, subst,
}
use nova.Base.Results.{Status, ok, full, not_found}
use nova.Space.{AddressSpace, max_mappings, init, map, translate}
use nova.Space.Laws.{IsValid, map-cases, map-IsValid, translate-map, translate-none, translate-Hit}

pub data Call : Type 0 where
  maps : ℕ → ℕ → ℕ → Call
  translates : ℕ → Call

abbrev pub Answer : Type 0
Answer = Status × Option (ℕ × ℕ)

unfoldable pub step : AddressSpace → Call → Answer × AddressSpace
step s (maps page physical writable) =
    let (status, s') = map s page physical writable in ((status, none), s')
step s (translates page) = (translate s page, s)

unfoldable pub run : AddressSpace → List Call → (List Answer) × AddressSpace
unfolding step
run s [] = ([], s)
run s (c ∷ cs) = let (a, s') = step s c in let (rest, last) = run s' cs in (a ∷ rest, last)

-- the page and the flag of each virtual page that is mapped, and how many are
pub record Table : Type 0 where
  pub entry : ℕ → Option (ℕ × ℕ)
  pub size : ℕ

abbrev pub no_pages : Table
no_pages = record { entry = λ u. none; size = 0 }

abbrev pub enter : (ℕ → Option (ℕ × ℕ)) → ℕ → ℕ × ℕ → ℕ → Option (ℕ × ℕ)
enter entry page t u = if u == page then some t else entry u

-- A page that is mapped is mapped anew; another one takes one of 128 places.
abbrev pub expect_map : ℕ → ℕ × ℕ → Option (ℕ × ℕ) → Table → Status × Table
expect_map page t (some old) m = (ok, record m { entry = enter m.entry page t })
expect_map page t none m =
    if m.size == max_mappings
    then (full, m)
    else (ok, record { entry = enter m.entry page t; size = m.size + 1 })

abbrev pub answer_of : Option (ℕ × ℕ) → Answer
answer_of none = (not_found, none)
answer_of (some t) = (ok, some t)

abbrev pub expect : Table → Call → Answer × Table
expect m (maps page physical writable) =
    let (status, m') = expect_map page (physical, writable) (m.entry page) m in ((status, none), m')
expect m (translates page) = (answer_of (m.entry page), m)

abbrev pub replies : Table → List Call → (List Answer) × Table
replies m [] = ([], m)
replies m (c ∷ cs) =
    let (a, m') = expect m c in let (rest, last) = replies m' cs in (a ∷ rest, last)

pub record Shows (s : AddressSpace) (m : Table) : Type 0 where
  pub valid : IsValid s
  pub entries : (u : ℕ) → translate s u ≡ answer_of (m.entry u)
  pub number : s.count ≡ m.size

ok_not_found : ok ≢ not_found
ok_not_found e = cc

pub init-Shows : (s : AddressSpace) → IsValid s → Shows (init s) no_pages
unfolding init translate
init-Shows s v = record {
  valid = record { slots = v.slots; count_in = omega arith };
  entries = λ u. refl;
  number = refl;
}

answer_of-enter :
    (m : Table) (page u : ℕ) (t : ℕ × ℕ)
    → answer_of (enter m.entry page t u)
      ≡ (if u == page then (ok, some t) else answer_of (m.entry u))
answer_of-enter m page u t = elim (Bool-cases (u == page)) [ inl e ↦ rw e | inr e ↦ rw e ]

-- a table after a call that has mapped the page
mapped-Shows :
    (s s' : AddressSpace) (m : Table) (page physical writable k : ℕ)
    → Shows s m
    → map s page physical writable ≡ (ok, s')
    → s'.count ≡ k
    → Shows s' (record { entry = enter m.entry page (physical, writable); size = k })
mapped-Shows s s' m page physical writable k h e c =
    let done : (map s page physical writable).0 ≡ ok = ap (λ x. x.0) e in
    let there : (map s page physical writable).1 ≡ s' = ap (λ x. x.1) e in
    record {
      valid = subst IsValid there (map-IsValid s page physical writable h.valid);
      entries = λ u.
          ap (λ x. translate x u) (sym there)
          ∙ translate-map s page physical writable u h.valid done
          ∙ ap (λ a. if u == page then (ok, some (physical, writable)) else a) (h.entries u)
          ∙ sym (answer_of-enter m page u (physical, writable));
      number = c;
    }

-- The call maps what the table maps, and refuses what it refuses.
map-Shows :
    (s : AddressSpace) (m : Table) (page physical writable : ℕ)
    → Shows s m
    → let (status, m') = expect_map page (physical, writable) (m.entry page) m in
      (s' : AddressSpace) × (map s page physical writable ≡ (status, s')) × Shows s' m'
map-Shows s m page physical writable h = elim (Option-cases (m.entry page)) [
  | inl e ↦ elim (map-cases s page physical writable h.valid) [
    | inl (i, hit, run) ↦ absurd (
        ok_not_found
          (sym (translate-Hit s page i hit) ∙ ap (λ a. a.0) (h.entries page ∙ ap answer_of e)))
    | inr (inl (n, c, run)) ↦ rw (e, eq→== m.size max_mappings (sym h.number ∙ c)) (s, run, h)
    | inr (inr (n, c, run)) ↦
        rw (e, ne→== m.size max_mappings (λ x. omega (arith, h.number)))
          (
            _,
            run,
            mapped-Shows s _ m page physical writable (m.size + 1) h run (omega (arith, h.number)),
          )
  ]
  | inr (old, e) ↦ elim (map-cases s page physical writable h.valid) [
    | inl (i, hit, run) ↦
        rw e (_, run, mapped-Shows s _ m page physical writable m.size h run h.number)
    | inr (inl (n, c, run)) ↦ absurd (
        ok_not_found
          (ap (λ a. a.0) (sym (ap answer_of e) ∙ sym (h.entries page) ∙ translate-none s page n)))
    | inr (inr (n, c, run)) ↦ absurd (
        ok_not_found
          (ap (λ a. a.0) (sym (ap answer_of e) ∙ sym (h.entries page) ∙ translate-none s page n)))
  ]
]

step-Shows :
    (s : AddressSpace) (m : Table) (c : Call)
    → Shows s m
    → ((step s c).0 ≡ (expect m c).0) × Shows (step s c).1 (expect m c).1
unfolding step
step-Shows s m (maps page physical writable) h =
    let (s', run, h') = map-Shows s m page physical writable h in rw run (refl, h')
step-Shows s m (translates page) h = (h.entries page, h)

run_shown :
    (s : AddressSpace) (m : Table) (cs : List Call)
    → Shows s m
    → ((run s cs).0 ≡ (replies m cs).0) × Shows (run s cs).1 (replies m cs).1
unfolding run
run_shown s m [] h = (refl, h)
run_shown s m (c ∷ cs) h =
    let (a, h') = step-Shows s m c h in
    let (rest, last) = run_shown (step s c).1 (expect m c).1 cs h' in
    (ap (λ x. x ∷ (run (step s c).1 cs).0) a ∙ ap (λ r. (expect m c).0 ∷ r) rest, last)

-- After `nova_vm_address_space_init` on a table of 128 slots, every sequence of calls gives the
-- answers of a finite map with room for 128 pages: a page that is mapped can be mapped anew at any
-- time, a new one only while there is room, and a translation gives what the page was last mapped
-- to. The table that is left translates every page as that map does.
pub run-Shows :
    (s : AddressSpace) (cs : List Call)
    → IsValid s
    → ((run (init s) cs).0 ≡ (replies no_pages cs).0)
      × Shows (run (init s) cs).1 (replies no_pages cs).1
run-Shows s cs v = run_shown (init s) no_pages cs (init-Shows s v)
