-- ===== src/Base/Heap.antt =====
-- Addresses, and maps from them to the objects that stand there.
use mathlib.Core.Option.{Option}
use Prim.Native.Nat.{ℕ}
use mathlib.Core.Path.{◌≡◌, refl}
use mathlib.Core.Bool.{Bool, false, ◌||◌}
use mathlib.Core.List.{List, [], ◌∷◌}
use native.Mathlib.Omega.{arith}
use nova.Base.Tests.{◌==◌, if◌then◌else◌}

abbrev pub Ptr : Type 0
Ptr = ℕ

abbrev pub null : Ptr
null = 0

abbrev pub update : {A : Type 0} → (Ptr → Option A) → Ptr → Option A → Ptr → Option A
update h p v q = if q == p then v else h q

abbrev pub has : List Ptr → Ptr → Bool
has [] q = false
has (p ∷ ps) q = (q == p) || has ps q

-- the list without the first occurrence of an address
abbrev pub without : List Ptr → Ptr → List Ptr
without [] q = []
without (p ∷ ps) q = if p == q then ps else p ∷ without ps q

pub has-without : (ps : List Ptr) (q r : Ptr) → has ps r ≡ false → has (without ps q) r ≡ false
has-without [] q r h = refl
has-without (p ∷ ps) q r h = ground (arith, has-without ps q r)
