-- ===== src/Io/Chain.antt =====
-- The devices that `next` leads through.
use nova.Base.{
  ℕ, zero, suc, ◌<◌, ◌≡◌, ◌≢◌, refl, Bool, true, false, Option, none, some, List, [], ◌∷◌, arith,
  length, if◌then◌else◌,
}
use nova.Base.Heap.{has}
use nova.Io.State.{Ptr, null, Device}
use nova.Io.Registry.{find_where}

abbrev pub Devices : Type 0
Devices = Ptr → Option Device

abbrev pub next_of : Option Device → Option Ptr
next_of none = none
next_of (some d) = some d.next

-- From `p`, `next` leads through the distinct devices `ps` and ends at NULL.
pub data Chain (h : Devices) : Ptr → List Ptr → Type 0 where
  stop : Chain h null []
  link :
      {p q : Ptr} {ps : List Ptr}
      → p ≢ null
      → next_of (h p) ≡ some q
      → has ps p ≡ false
      → Chain h q ps
      → Chain h p (p ∷ ps)

-- Only the links of its own devices matter to a chain.
pub Chain-agree :
    {h g : Devices} {p : Ptr} {ps : List Ptr}
    → Chain h p ps
    → ((q : Ptr) → has ps q ≡ true → next_of (g q) ≡ next_of (h q))
    → Chain g p ps
Chain-agree stop same = stop
Chain-agree (link {p} n a out c) same =
    link n (ground (arith, same p, a)) out (Chain-agree c λ q i. same q (ground arith))

-- The first device of the list that passes the test, or NULL.
abbrev pub passes : Devices → (Device → Bool) → Ptr → Bool
passes h test p = elim (h p) [ none ↦ false | some d ↦ test d ]

abbrev pub first_where : Devices → (Device → Bool) → List Ptr → Ptr
first_where h test [] = null
first_where h test (p ∷ ps) = if passes h test p then p else first_where h test ps

pub next_of-some :
    (o : Option Device) (q : Ptr) → next_of o ≡ some q → (d : Device) × (o ≡ some d) × (d.next ≡ q)
next_of-some none q e = cc
next_of-some (some d) q e = (d, refl, ground arith)

-- With more fuel than devices, a walk ends at the first device that passes the test.
pub find_where-first_where :
    {h : Devices} {p : Ptr} {ps : List Ptr} (test : Device → Bool) (fuel : ℕ)
    → Chain h p ps
    → length ps < fuel
    → find_where h test fuel p ≡ some (first_where h test ps)
unfolding find_where
find_where-first_where test zero c f = absurd (omega arith)
find_where-first_where test (suc fuel) stop f = refl
find_where-first_where {h} test (suc fuel) (link {p} n a out c) f =
    let (d, e, l) = next_of-some (h p) _ a in
    ground (arith, e, l, find_where-first_where test fuel c (omega arith))
