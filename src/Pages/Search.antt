-- ===== src/Pages/Search.antt =====
-- The branches of the page allocator, over the set of the pages that are taken.
use nova.Base.{
  ℕ, zero, suc, ◌+◌, ◌<◌, ◌≤◌, ◌≡◌, refl, ◌≢◌, ◌⊎◌, inl, inr, Bool, true, false, not, none, some,
  List, [], ◌∷◌, arith, length, get_or, set, Bool-cases, leb, ◌==◌, if◌then◌else◌, get_or-set_self,
  get_or-set_ne,
}
use nova.Base.Words.{u32}
use nova.Base.Results.{ok, full, not_found}
use nova.Pages.{Allocator, max_pages, clear_flags, first_free, alloc_page, free_page}

-- an allocator over its 128 bytes
abbrev pub IsValid : Allocator → Type 0
IsValid a = length a.allocated ≡ max_pages

abbrev pub flag : Allocator → ℕ → ℕ
flag a p = get_or a.allocated p 0

abbrev pub is_taken : Allocator → ℕ → Bool
is_taken a p = not (flag a p == 0)

-- the number of pages taken
abbrev pub used : List ℕ → ℕ
used [] = 0
used (f ∷ fs) = (if f == 0 then 0 else 1) + used fs

pub used-le : (fs : List ℕ) → used fs ≤ length fs
used-le [] = omega arith
used-le (f ∷ fs) = ground (arith, used-le fs)

-- The search finds the lowest free index, or every byte is set.
pub first_free-cases :
    (index : ℕ) (fs : List ℕ)
    → ((first_free index fs ≡ none) × (used fs ≡ length fs))
      ⊎ ((i : ℕ) × (first_free index fs ≡ some (index + i))
          × (i < length fs)
          × (get_or fs i 0 ≡ 0)
          × ((j : ℕ) → j < i → get_or fs j 0 ≢ 0))
first_free-cases index [] = inl (refl, refl)
first_free-cases index (f ∷ fs) = elim (Bool-cases (f == 0)) [
  | inl e ↦ inr (0, ground arith, omega arith, ground arith, λ j h. absurd (omega arith))
  | inr e ↦ elim (first_free-cases (suc index) fs) [
    | inl (n, u) ↦ inl (ground arith, ground arith)
    | inr (i, n, h, z, low) ↦ inr (suc i, ground arith, omega arith, z, below e i low)
  ]
]
  where
    below :
        (f == 0) ≡ false
        → (i : ℕ) → ((j : ℕ) → j < i → get_or fs j 0 ≢ 0)
        → (j : ℕ) → j < suc i
        → get_or (f ∷ fs) j 0 ≢ 0
    below e i low zero h = ground arith
    below e i low (suc j) h = low j (omega arith)

pub used-set :
    (fs : List ℕ) (i v : ℕ)
    → i < length fs
    → used (set fs i v) + (if get_or fs i 0 == 0 then 0 else 1)
      ≡ used fs + (if v == 0 then 0 else 1)
used-set [] i v h = absurd (omega arith)
used-set (f ∷ fs) zero v h = ground arith
used-set (f ∷ fs) (suc i) v h = omega (arith, used-set fs i v (omega arith))

pub used-clear_flags : (fs : List ℕ) → used (clear_flags fs) ≡ 0
used-clear_flags [] = refl
used-clear_flags (f ∷ fs) = ground (arith, used-clear_flags fs)

pub get_or-clear_flags : (fs : List ℕ) (p : ℕ) → get_or (clear_flags fs) p 0 ≡ 0
get_or-clear_flags [] p = refl
get_or-clear_flags (f ∷ fs) zero = refl
get_or-clear_flags (f ∷ fs) (suc p) = get_or-clear_flags fs p

pub length-clear_flags : (fs : List ℕ) → length (clear_flags fs) ≡ length fs
length-clear_flags [] = refl
length-clear_flags (f ∷ fs) = omega (arith, length-clear_flags fs)

pub is_taken-set :
    (a : Allocator) (p v q : ℕ)
    → p < length a.allocated
    → is_taken (record { allocated = set a.allocated p v }) q
      ≡ (if q == p then not (v == 0) else is_taken a q)
is_taken-set a p v q h = elim (Bool-cases (q == p)) [
  | inl e ↦ ground (arith, get_or-set_self a.allocated p v 0)
  | inr e ↦ ground (arith, get_or-set_ne a.allocated p q v 0)
]

get_or_beyond : (fs : List ℕ) (p : ℕ) → length fs ≤ p → get_or fs p 0 ≡ 0
get_or_beyond [] p h = refl
get_or_beyond (f ∷ fs) zero h = absurd (omega arith)
get_or_beyond (f ∷ fs) (suc p) h = get_or_beyond fs p (omega arith)

-- `nova_vm_alloc_page` takes the lowest free page and no other, or reports that all are taken.
pub alloc_page-cases :
    (a : Allocator)
    → IsValid a
    → ((alloc_page a ≡ (full, none, a)) × (used a.allocated ≡ max_pages))
      ⊎ ((p : ℕ) × (alloc_page a ≡ (ok, some p, record { allocated = set a.allocated p 1 }))
          × (p < max_pages)
          × (is_taken a p ≡ false)
          × ((j : ℕ) → j < p → is_taken a j ≡ true))
unfolding alloc_page
alloc_page-cases a v = elim (first_free-cases 0 a.allocated) [
  | inl (e, u) ↦ inl (ground arith, omega arith)
  | inr (i, e, h, z, low) ↦
      inr
        (i, ground (arith, mod_small i), omega arith, ground arith, λ j k. ground (arith, low j k))
]
  where
    mod_small : (i : ℕ) → i < length a.allocated → u32 i ≡ i
    mod_small i h = omega arith

-- A freed page is one that was taken, and no other page changes.
pub free_page-cases :
    (a : Allocator) (p : ℕ)
    → IsValid a
    → ((free_page a p ≡ (not_found, a)) × (is_taken a p ≡ false))
      ⊎ ((free_page a p ≡ (ok, record { allocated = set a.allocated p 0 }))
          × (p < max_pages)
          × (is_taken a p ≡ true))
unfolding free_page
free_page-cases a p v = elim (Bool-cases (leb max_pages p)) [
  | inl e ↦ inl (ground arith, ground (arith, get_or_beyond a.allocated p))
  | inr e ↦ elim (Bool-cases (flag a p == 0)) [
    | inl f ↦ inl (ground arith, ground arith)
    | inr f ↦ inr (ground arith, ground arith, ground arith)
  ]
]
