-- ===== src/Space/Laws.antt =====
-- `nova_vm_map` and `nova_vm_translate` as a finite map from pages to page and flag.
use nova.Base.{
  ℕ, suc, ◌+◌, ◌<◌, ◌≤◌, ◌≡◌, refl, ◌∙◌, ◌↔◌, ◌⊎◌, inl, inr, Option, none, some, arith, length,
  get_elem?, set, ◌==◌, if◌then◌else◌, Option-cases, Bool-cases, length-set, get_elem?-set_self,
  get_elem?-set_ne,
}
use nova.Base.Words.{u64}
use nova.Base.Results.{ok, full, not_found}
use nova.Space.{Mapping, AddressSpace, max_mappings, map, translate, find_from, new_mapping}
use nova.Space.Search.{find_from-some, find_from-set_same, find_from-set_end}

-- The table has its 128 slots, of which the first `count` are in use.
pub record IsValid (s : AddressSpace) : Type 0 where
  pub slots : length s.mappings ≡ max_mappings
  pub count_in : s.count ≤ max_mappings

abbrev pub found : AddressSpace → ℕ → Option ℕ
found s page = find_from 0 s.count s.mappings page

-- The page is mapped: a search for it hits.
pub record Hit (s : AddressSpace) (page i : ℕ) : Type 0 where
  pub held : Mapping
  pub hits : found s page ≡ some i
  pub inside : i < s.count
  pub at : get_elem? s.mappings i ≡ some held
  pub page_of : held.virtual_page ≡ page

Hit-of_found : (s : AddressSpace) (page i : ℕ) → found s page ≡ some i → Hit s page i
Hit-of_found s page i h =
    let (j, m, a, b, c, d) = find_from-some 0 s.count s.mappings page {k = i} h in
    let e : j ≡ i = omega arith in
    record { held = m; hits = h; inside = omega arith; at = rw e at c; page_of = d }

abbrev retargeted : Mapping → ℕ → ℕ → Mapping
retargeted m physical writable = record m { physical_page = physical; writable = writable }

abbrev remapped : AddressSpace → ℕ → Mapping → ℕ → ℕ → AddressSpace
remapped s i m physical writable = record s {
  mappings = set s.mappings i (retargeted m physical writable);
}

abbrev extended : AddressSpace → ℕ → ℕ → ℕ → AddressSpace
extended s page physical writable = record s {
  mappings = set s.mappings s.count (new_mapping page physical writable);
  count = suc s.count;
}

-- `nova_vm_map` writes over the mapping of the page, or adds one, or has no room for it.
pub map-cases :
    (s : AddressSpace) (page physical writable : ℕ)
    → IsValid s
    → ((i : ℕ) × (h : Hit s page i) × (map s page physical writable
          ≡ (ok, remapped s i h.held physical writable)))
      ⊎ (found s page ≡ none)
        × (s.count ≡ max_mappings)
        × (map s page physical writable ≡ (full, s))
      ⊎ (found s page ≡ none)
        × (s.count < max_mappings)
        × (map s page physical writable ≡ (ok, extended s page physical writable))
unfolding map
map-cases s page physical writable v = elim (Option-cases (found s page)) [
  | inr (i, e) ↦ let h = Hit-of_found s page i e in inl (i, h, ground (arith, h.at))
  | inl e ↦ elim (Bool-cases (s.count == max_mappings)) [
    | inl f ↦ inr (inl (e, ground arith, ground arith))
    | inr f ↦
        let next : u64 (s.count + 1) ≡ suc s.count = omega (arith, v.count_in) in
        inr (inr (e, ground (arith, v.count_in), ground (arith, next)))
  ]
]

-- `nova_vm_map` keeps the invariant.
pub map-IsValid :
    (s : AddressSpace) (page physical writable : ℕ)
    → IsValid s
    → IsValid (map s page physical writable).1
map-IsValid s page physical writable v = elim (map-cases s page physical writable v) [
  | inl (i, h, e) ↦ rw e (record {
    slots = length-set s.mappings i (retargeted h.held physical writable) ∙ v.slots;
    count_in = v.count_in;
  })
  | inr (inl (n, c, e)) ↦ rw e v
  | inr (inr (n, c, e)) ↦ rw e (record {
    slots = length-set s.mappings s.count (new_mapping page physical writable) ∙ v.slots;
    count_in = c;
  })
]

translate-remapped :
    (s : AddressSpace) (page physical writable i : ℕ) (h : Hit s page i) (u : ℕ)
    → IsValid s
    → translate (remapped s i h.held physical writable) u
      ≡ (if u == page then (ok, some (physical, writable)) else translate s u)
unfolding translate
translate-remapped s page physical writable i h u v =
    let n = retargeted h.held physical writable in
    let same = find_from-set_same 0 s.count s.mappings i h.held n u h.at refl in
    let inside : i < length s.mappings = omega (arith, h.inside, v.slots, v.count_in) in
    let self = get_elem?-set_self s.mappings i n inside in
    elim (Option-cases (found s u)) [
      | inl e ↦ ground (arith, same, e, h.hits)
      | inr (k, e) ↦
          let g = Hit-of_found s u k e in
          ground (
            arith,
            same,
            e,
            self,
            h.hits,
            h.at,
            h.page_of,
            g.at,
            g.page_of,
            get_elem?-set_ne s.mappings i k n,
          )
    ]

translate-extended :
    (s : AddressSpace) (page physical writable u : ℕ)
    → found s page ≡ none
    → s.count < max_mappings
    → IsValid s
    → translate (extended s page physical writable) u
      ≡ (if u == page then (ok, some (physical, writable)) else translate s u)
unfolding translate
translate-extended s page physical writable u none_found c v =
    let n = new_mapping page physical writable in
    let inside : s.count < length s.mappings = omega (arith, v.slots) in
    let more = find_from-set_end 0 s.count s.mappings n u inside in
    let self = get_elem?-set_self s.mappings s.count n inside in
    elim (Option-cases (found s u)) [
      | inl e ↦ ground (arith, more, e, self)
      | inr (k, e) ↦
          let g = Hit-of_found s u k e in
          ground (arith, more, e, g.inside, none_found, get_elem?-set_ne s.mappings s.count k n)
    ]

-- After a successful `nova_vm_map` its page translates to what was mapped, and every other page to
-- what it translated to before.
pub translate-map :
    (s : AddressSpace) (page physical writable u : ℕ)
    → IsValid s
    → (map s page physical writable).0 ≡ ok
    → translate (map s page physical writable).1 u
      ≡ (if u == page then (ok, some (physical, writable)) else translate s u)
translate-map s page physical writable u v k = elim (map-cases s page physical writable v) [
  | inl (i, h, e) ↦ rw e (translate-remapped s page physical writable i h u v)
  | inr (inl (n, c, e)) ↦ ground arith
  | inr (inr (n, c, e)) ↦ rw e (translate-extended s page physical writable u n c v)
]

pub translate-none :
    (s : AddressSpace) (page : ℕ) → found s page ≡ none → translate s page ≡ (not_found, none)
unfolding translate
translate-none s page e = rw (e, translate)

pub translate-Hit : (s : AddressSpace) (page i : ℕ) → Hit s page i → (translate s page).0 ≡ ok
unfolding translate
translate-Hit s page i h = ground (arith, h.hits)

-- `nova_vm_map` succeeds or is full. It is full exactly when all 128 slots are in use and the page
-- is in none of them, and then changes nothing.
pub map-full :
    (s : AddressSpace) (page physical writable : ℕ)
    → IsValid s
    → (((map s page physical writable).0 ≡ ok) ⊎ (map s page physical writable ≡ (full, s)))
      × (((map s page physical writable).0 ≡ full)
          ↔ ((s.count ≡ max_mappings) × (translate s page ≡ (not_found, none))))
map-full s page physical writable v = elim (map-cases s page physical writable v) [
  | inl (i, h, e) ↦ let t = translate-Hit s page i h in rw e (inl refl, (λ x. cc, λ x. cc (t, x.1)))
  | inr (inl (n, c, e)) ↦ rw e (inr refl, (λ x. (c, translate-none s page n), λ x. refl))
  | inr (inr (n, c, e)) ↦ rw e (inl refl, (λ x. cc, λ x. absurd (omega (arith, x.0))))
]
