-- ===== src/Space/Isolation.antt =====
-- The allocator and an address space together: pages that are backed with allocated ones.
use nova.Base.{
  ℕ, ◌<◌, ◌≡◌, ◌≢◌, ◌⊎◌, refl, sym, ap, ◌∙◌, inl, inr, true, false, Option, none, some, List, [],
  ◌∷◌, arith, set, ◌==◌, if◌then◌else◌, Bool-cases, length-set, subst, ==→eq, eq→==, ne→==,
}
use nova.Base.Results.{Status, ok, err, full, empty, not_found}
use nova.Pages.{Allocator, max_pages, init as start, alloc_page, free_page}
use nova.Pages.Search.{
  IsValid as HasFlags, is_taken, is_taken-set, alloc_page-cases, free_page-cases,
}
use nova.Pages.Ledger.{init-Tracks}
use nova.Space.{AddressSpace, init, map, translate}
use nova.Space.Laws.{IsValid, map-cases, map-IsValid, translate-map}

-- What a user of vm.c does to back a virtual page: it allocates a page and maps it, and frees the
-- page again where there is no room for the mapping.
abbrev pub settle : Status → ℕ → Allocator → Allocator
settle ok p a = a
settle err p a = (free_page a p).1
settle full p a = (free_page a p).1
settle empty p a = (free_page a p).1
settle not_found p a = (free_page a p).1

abbrev pub back_with : Option ℕ → ℕ → ℕ → Allocator → AddressSpace → Allocator × AddressSpace
back_with none page writable a s = (a, s)
back_with (some p) page writable a s =
    let (status, s') = map s page p writable in (settle status p a, s')

abbrev pub back : Allocator → AddressSpace → ℕ × ℕ → Allocator × AddressSpace
back a s (page, writable) = let (status, out, a') = alloc_page a in back_with out page writable a' s

unfoldable pub run : Allocator → AddressSpace → List (ℕ × ℕ) → Allocator × AddressSpace
run a s [] = (a, s)
run a s (c ∷ cs) = let (a', s') = back a s c in run a' s' cs

-- A page that a virtual page translates to is taken, and no other virtual page translates to it.
pub record Isolated (a : Allocator) (s : AddressSpace) : Type 0 where
  pub flags : HasFlags a
  pub table : IsValid s
  pub taken : (u p x : ℕ) → translate s u ≡ (ok, some (p, x)) → is_taken a p ≡ true
  pub apart :
      (u v p x y : ℕ)
      → translate s u ≡ (ok, some (p, x))
      → translate s v ≡ (ok, some (p, y))
      → u ≡ v

abbrev physical_of : Status × Option (ℕ × ℕ) → ℕ
physical_of (status, none) = 0
physical_of (status, some t) = t.0

-- After a mapping, a page is the one mapped or translates as before.
seen-cases :
    (t t' : ℕ → Status × Option (ℕ × ℕ)) (page p writable : ℕ)
    → ((u : ℕ) → t' u ≡ (if u == page then (ok, some (p, writable)) else t u))
    → (u q x : ℕ) → t' u ≡ (ok, some (q, x))
    → ((u ≡ page) × (q ≡ p)) ⊎ (t u ≡ (ok, some (q, x)))
seen-cases t t' page p writable seen u q x h = elim (Bool-cases (u == page)) [
  | inl e ↦ inl (==→eq u page e, sym (ap physical_of (rw e at (sym (seen u) ∙ h))))
  | inr e ↦ inr (rw e at (sym (seen u) ∙ h))
]

free_ne : (a : Allocator) (p q : ℕ) → is_taken a p ≡ false → is_taken a q ≡ true → q ≢ p
free_ne a p q f t e = ground (arith, ap (is_taken a) e, f, t)

taken_new :
    (a : Allocator) (p q : ℕ)
    → HasFlags a
    → p < max_pages
    → (q ≡ p) ⊎ (is_taken a q ≡ true)
    → is_taken (record { allocated = set a.allocated p 1 }) q ≡ true
taken_new a p q v k (inl e) = is_taken-set a p 1 q (omega (arith, v)) ∙ rw (eq→== q p e)
taken_new a p q v k (inr t) = is_taken-set a p 1 q (omega (arith, v)) ∙ ground (arith, t)

-- A new page is mapped.
mapped-Isolated :
    (a : Allocator) (s s' : AddressSpace) (page p writable : ℕ)
    → Isolated a s
    → p < max_pages
    → is_taken a p ≡ false
    → map s page p writable ≡ (ok, s')
    → Isolated (record { allocated = set a.allocated p 1 }) s'
mapped-Isolated a s s' page p writable i k free e =
    let done : (map s page p writable).0 ≡ ok = ap (λ x. x.0) e in
    let there : (map s page p writable).1 ≡ s' = ap (λ x. x.1) e in
    let seen : (u : ℕ)
        → translate s' u ≡ (if u == page then (ok, some (p, writable)) else translate s u) =
      λ u. ap (λ x. translate x u) (sym there) ∙ translate-map s page p writable u i.table done in
    let old = seen-cases (translate s) (translate s') page p writable seen in
    record {
      flags = length-set a.allocated p 1 ∙ i.flags;
      table = subst IsValid there (map-IsValid s page p writable i.table);
      taken = λ u q x h.
          taken_new a p q i.flags k
            (elim (old u q x h) [ inl (eu, eq) ↦ inl eq | inr g ↦ inr (i.taken u q x g) ]);
      apart = λ u v q x y h g. elim (old u q x h) [
        | inl (eu, eq) ↦ elim (old v q y g) [
          | inl (ev, eq') ↦ eu ∙ sym ev
          | inr g' ↦ absurd (free_ne a p q free (i.taken v q y g') eq)
        ]
        | inr h' ↦ elim (old v q y g) [
          | inl (ev, eq') ↦ absurd (free_ne a p q free (i.taken u q x h') eq')
          | inr g' ↦ i.apart u v q x y h' g'
        ]
      ];
    }

-- A page that could not be mapped is freed again.
freed-Isolated :
    (a : Allocator) (s : AddressSpace) (p : ℕ)
    → Isolated a s
    → p < max_pages
    → is_taken a p ≡ false
    → Isolated (free_page (record { allocated = set a.allocated p 1 }) p).1 s
freed-Isolated a s p i k free =
    let b : Allocator = record { allocated = set a.allocated p 1 } in
    let v : HasFlags b = length-set a.allocated p 1 ∙ i.flags in
    elim (free_page-cases b p v) [
      | inl (e, out) ↦ absurd (free_ne b p p out (taken_new a p p i.flags k (inl refl)) refl)
      | inr (e, h, t) ↦ rw e (record {
        flags = length-set b.allocated p 0 ∙ v;
        table = i.table;
        taken = λ u q x g.
            let was = i.taken u q x g in
            is_taken-set b p 0 q (omega (arith, v))
            ∙ rw (ne→== q p (free_ne a p q free was)) (taken_new a p q i.flags k (inr was));
        apart = i.apart;
      })
    ]

back-Isolated :
    (a : Allocator) (s : AddressSpace) (c : ℕ × ℕ)
    → Isolated a s
    → let (a', s') = back a s c in Isolated a' s'
back-Isolated a s (page, writable) i = elim (alloc_page-cases a i.flags) [
  | inl (e, u) ↦ rw e i
  | inr (p, e, k, free, low) ↦ rw e (elim (map-cases s page p writable i.table) [
    | inl (j, h, run) ↦ rw run (mapped-Isolated a s _ page p writable i k free run)
    | inr (inl (n, c, run)) ↦ rw run (freed-Isolated a s p i k free)
    | inr (inr (n, c, run)) ↦ rw run (mapped-Isolated a s _ page p writable i k free run)
  ])
]

run-Isolated :
    (a : Allocator) (s : AddressSpace) (cs : List (ℕ × ℕ))
    → Isolated a s
    → Isolated (run a s cs).0 (run a s cs).1
unfolding run
run-Isolated a s [] i = i
run-Isolated a s (c ∷ cs) i = run-Isolated (back a s c).0 (back a s c).1 cs (back-Isolated a s c i)

start-Isolated :
    (a : Allocator) (s : AddressSpace) → HasFlags a → IsValid s → Isolated (start a) (init s)
unfolding init translate
start-Isolated a s v t = record {
  flags = (init-Tracks a v).valid;
  table = record { slots = t.slots; count_in = omega arith };
  taken = λ u p x h. cc;
  apart = λ u v p x y h g. cc;
}

-- Starting from `nova_vm_init` and `nova_vm_address_space_init`, let any virtual pages be backed, one
-- after the other and some of them again, each by a page from `nova_vm_alloc_page` that `nova_vm_map`
-- maps it to and that is freed where that fails. Then no two virtual pages translate to the same
-- physical page, and a page that one translates to is taken in the allocator.
pub run-apart :
    (a : Allocator) (s : AddressSpace) (cs : List (ℕ × ℕ)) (u v p x y : ℕ)
    → HasFlags a
    → IsValid s
    → translate (run (start a) (init s) cs).1 u ≡ (ok, some (p, x))
    → translate (run (start a) (init s) cs).1 v ≡ (ok, some (p, y))
    → (u ≡ v) × (is_taken (run (start a) (init s) cs).0 p ≡ true)
run-apart a s cs u v p x y h t e e' =
    let i = run-Isolated (start a) (init s) cs (start-Isolated a s h t) in
    (i.apart u v p x y e e', i.taken u p x e)
