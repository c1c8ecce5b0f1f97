-- ===== src/Registry/Listing/Positions.antt =====
-- Positions in a list of devices.
use mathlib.Core.Option
use nova.Base.{
  ℕ, zero, suc, ◌+◌, ◌-◌, ◌≡◌, refl, ap, ◌∙◌, inl, inr, some, List, [], ◌∷◌, ◌++◌, arith, length,
  get_elem?, set, ◌==◌, if◌then◌else◌, Bool-cases, ==→eq,
}
use nova.Registry.{DeviceState}
use nova.Registry.Laws.{Info, with_info}
use nova.Registry.Listing.{nth}

pub nth-append :
    (items : List Info) (x : Info) (id : ℕ)
    → nth (items ++ (x ∷ [])) id ≡ (if id == length items + 1 then some x else nth items id)
nth-append items x zero = ground arith
nth-append [] x (suc zero) = refl
nth-append [] x (suc (suc i)) = ground arith
nth-append (y ∷ ys) x (suc zero) = ground arith
nth-append (y ∷ ys) x (suc (suc i)) = ground (arith, nth-append ys x (suc i))

nth-set :
    (items : List Info) (i j : ℕ) (x y : Info)
    → get_elem? items i ≡ some x
    → get_elem? (set items i y) j ≡ (if j == i then some y else get_elem? items j)
nth-set [] i j x y e = cc
nth-set (z ∷ zs) zero zero x y e = refl
nth-set (z ∷ zs) zero (suc j) x y e = ground arith
nth-set (z ∷ zs) (suc i) zero x y e = ground arith
nth-set (z ∷ zs) (suc i) (suc j) x y e = ground (arith, nth-set zs i j x y e)

pub length-append_one :
    (items : List Info) (x : Info) → length (items ++ (x ∷ [])) ≡ length items + 1
length-append_one [] x = refl
length-append_one (y ∷ ys) x = omega (arith, length-append_one ys x)

pub nth-set_state :
    (items : List Info) (id j : ℕ) (x : Info) (state : DeviceState)
    → nth items id ≡ some x
    → nth (set items (id - 1) (with_info state x)) j
      ≡ (if j == id then Option.map (with_info state) (nth items j) else nth items j)
nth-set_state items zero j x state e = cc
nth-set_state items (suc i) zero x state e = ground arith
nth-set_state items (suc i) (suc j) x state e =
    let at_slot : get_elem? (set items (suc i - 1) (with_info state x)) j
        ≡ get_elem? (set items i (with_info state x)) j =
      ap (λ k. get_elem? (set items k (with_info state x)) j) (omega arith) in
    elim (Bool-cases (j == i)) [
      | inl h ↦
          let here : get_elem? items j ≡ some x = ap (get_elem? items) (==→eq j i h) ∙ e in
          at_slot ∙ nth-set items i j x (with_info state x) e ∙ ground (arith, h, here)
      | inr h ↦ at_slot ∙ nth-set items i j x (with_info state x) e ∙ ground (arith, h)
    ]
