-- ===== src/Space/Search.antt =====
-- The search for a page, and how the two writes of `nova_vm_map` change it.
use nova.Base.{
  ℕ, zero, suc, ◌+◌, ◌<◌, ◌≡◌, refl, inl, inr, none, some, List, [], ◌∷◌, arith, length, get_elem?,
  set, Bool-cases, ◌==◌, if◌then◌else◌,
}
use nova.Space.{Mapping, find_from}

-- A hit lies among the first `rounds` slots and has the page.
pub find_from-some :
    (index rounds : ℕ) (ms : List Mapping) (page : ℕ) {k : ℕ}
    → find_from index rounds ms page ≡ some k
    → (i : ℕ) × (m : Mapping) × (k ≡ index + i)
      × (i < rounds)
      × (get_elem? ms i ≡ some m)
      × (m.virtual_page ≡ page)
find_from-some index zero ms page h = ground arith
find_from-some index (suc rounds) [] page h = ground arith
find_from-some index (suc rounds) (m ∷ ms) page {k} h = elim (Bool-cases (m.virtual_page == page)) [
  | inl e ↦ (0, m, ground arith, omega arith, refl, ground arith)
  | inr e ↦
      let (i, n, a, b, c, d) = find_from-some (suc index) rounds ms page {k = k} (ground arith) in
      (suc i, n, omega arith, omega arith, c, d)
]

-- Writing over a mapping without changing its page changes no search.
pub find_from-set_same :
    (index rounds : ℕ) (ms : List Mapping) (i : ℕ) (m n : Mapping) (page : ℕ)
    → get_elem? ms i ≡ some m
    → n.virtual_page ≡ m.virtual_page
    → find_from index rounds (set ms i n) page ≡ find_from index rounds ms page
find_from-set_same index zero ms i m n page a e = refl
find_from-set_same index (suc rounds) [] i m n page a e = refl
find_from-set_same index (suc rounds) (o ∷ ms) zero m n page a e = ground arith
find_from-set_same index (suc rounds) (o ∷ ms) (suc i) m n page a e =
    ground (arith, find_from-set_same (suc index) rounds ms i m n page a e)

-- Writing past the slots that a search looks at changes no search; with that slot looked at too, it
-- finds the new mapping where it found nothing.
pub find_from-set_end :
    (index rounds : ℕ) (ms : List Mapping) (n : Mapping) (page : ℕ)
    → rounds < length ms
    → find_from index (suc rounds) (set ms rounds n) page ≡ elim (find_from index rounds ms page) [
      | some k ↦ some k
      | none ↦ if n.virtual_page == page then some (index + rounds) else none
    ]
find_from-set_end index zero [] n page h = absurd (omega arith)
find_from-set_end index zero (o ∷ ms) n page h = ground arith
find_from-set_end index (suc rounds) [] n page h = absurd (omega arith)
find_from-set_end index (suc rounds) (o ∷ ms) n page h =
    let e : index + suc rounds ≡ suc index + rounds = omega arith in
    ground (arith, find_from-set_end (suc index) rounds ms n page (omega arith), e)
