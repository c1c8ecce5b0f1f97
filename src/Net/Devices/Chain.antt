-- ===== src/Net/Devices/Chain.antt =====
-- The devices that `next` leads through, and what a write to one of them changes.
use nova.Base.{
  ℕ, ◌≡◌, ◌≢◌, inl, inr, Bool, true, false, Option, none, some, List, [], ◌∷◌, arith, if◌then◌else◌,
  Bool-cases,
}
use nova.Base.CString.{str_eq}
use nova.Net.State.{Ptr, null, NetDevice, update}
pub use nova.Base.Heap.{has}

abbrev pub Devices : Type 0
Devices = Ptr → Option NetDevice

-- From `p`, `next` leads through the distinct devices `ps` and ends at NULL.
pub data Chain (h : Devices) : Ptr → List Ptr → Type 0 where
  stop : Chain h null []
  link :
      {p q : Ptr} {d : NetDevice} {ps : List Ptr}
      → p ≢ null
      → h p ≡ some d
      → d.next ≡ q
      → has ps p ≡ false
      → Chain h q ps
      → Chain h p (p ∷ ps)

-- Devices outside a chain do not matter to it.
pub Chain-agree :
    {h g : Devices} {p : Ptr} {ps : List Ptr}
    → Chain h p ps
    → ((q : Ptr) → has ps q ≡ true → g q ≡ h q)
    → Chain g p ps
Chain-agree stop same = stop
Chain-agree (link {p} {d} n a e out c) same =
    link {d = d} n (ground (arith, same p)) e out (Chain-agree c λ q i. same q (ground arith))

pub Chain-update :
    {h : Devices} {p : Ptr} {ps : List Ptr} (r : Ptr) (v : Option NetDevice)
    → Chain h p ps
    → has ps r ≡ false
    → Chain (update h r v) p ps
Chain-update r v c out = Chain-agree c (λ q i. ground arith)

-- The device has the name.
abbrev pub named : Devices → Ptr → List ℕ → Bool
named h p name = elim (h p) [ none ↦ false | some d ↦ str_eq d.name name ]

-- The first device of the list that has the name, or NULL.
abbrev pub first_named : Devices → List Ptr → List ℕ → Ptr
first_named h [] name = null
first_named h (p ∷ ps) name = if named h p name then p else first_named h ps name

-- A member of a chain is found by its own name, or another device of that name is.
pub first_named-ne :
    {h : Devices} {p : Ptr} {ps : List Ptr} (r : Ptr) (name : List ℕ)
    → Chain h p ps
    → has ps r ≡ true
    → named h r name ≡ true
    → first_named h ps name ≢ null
first_named-ne r name stop i e = cc
first_named-ne {h} r name (link {p} n a e out c) i x = elim (Bool-cases (named h p name)) [
  | inl y ↦ rw y n
  | inr y ↦ rw y (first_named-ne r name c (ground arith) x)
]
