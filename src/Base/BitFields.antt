-- ===== src/Base/BitFields.antt =====
-- `bit_and` and `bit_or` on fields of bits, as arithmetic.
use Prim.Native.Nat.{
  ℕ, zero, suc, ◌+◌, ◌*◌, ◌/◌, ◌%◌, ◌^◌, ◌≤◌, ◌<◌, min, max, bit_and, bit_or, digits,
  bit_and-bitwise, bit_or-bitwise,
}
use mathlib.Core.Path.{◌≡◌, refl, ap}
use native.Mathlib.Nat.{pow-suc}
use native.Mathlib.Omega.{arith}

-- The recursion that both operations stand for does not look at its fuel, if there is enough.
module _ (rest : ℕ → ℕ) (digit : ℕ → ℕ → ℕ) where
  same_digits : (a n m b : ℕ) → a ≤ n → a ≤ m → digits rest digit n a b ≡ digits rest digit m a b
  same_digits zero zero zero b p q = refl
  same_digits zero zero (suc m) b p q = refl
  same_digits zero (suc n) zero b p q = refl
  same_digits zero (suc n) (suc m) b p q = refl
  same_digits (suc a) zero m b p q = absurd (omega arith)
  same_digits (suc a) (suc n) zero b p q = absurd (omega arith)
  same_digits (suc a) (suc n) (suc m) b p q =
      rw (same_digits (suc a / 2) n m (b / 2) (omega arith) (omega arith))

and_digit : (a b : ℕ) → bit_and a b ≡ bit_and (a / 2) (b / 2) * 2 + min (a % 2) (b % 2)
and_digit zero b = omega (arith, bit_and-bitwise 0 b, bit_and-bitwise 0 (b / 2))
and_digit (suc a) b = omega (
  arith,
  bit_and-bitwise (suc a) b,
  bit_and-bitwise (suc a / 2) (b / 2),
  same_digits (λ x. 0) min (suc a / 2) a (suc a / 2) (b / 2) (omega arith) (omega arith),
)

or_digit : (a b : ℕ) → bit_or a b ≡ bit_or (a / 2) (b / 2) * 2 + max (a % 2) (b % 2)
or_digit zero b = omega (arith, bit_or-bitwise 0 b, bit_or-bitwise 0 (b / 2))
or_digit (suc a) b = omega (
  arith,
  bit_or-bitwise (suc a) b,
  bit_or-bitwise (suc a / 2) (b / 2),
  same_digits (λ x. x) max (suc a / 2) a (suc a / 2) (b / 2) (omega arith) (omega arith),
)

twice_power : (k q : ℕ) → q * 2 ^ suc k ≡ 2 * (q * 2 ^ k)
twice_power k q = omega (arith, ap (λ (t : ℕ). q * t) (pow-suc 2 k))

and_nothing : (k a : ℕ) → a < 2 ^ k → bit_and a 0 ≡ 0
and_nothing zero a f = ground (arith, bit_and-bitwise 0 0)
and_nothing (suc k) a f =
    omega (arith, and_digit a 0, pow-suc 2 k, and_nothing k (a / 2) (omega (arith, pow-suc 2 k)))

or_nothing : (k a : ℕ) → a < 2 ^ k → bit_or a 0 ≡ a
or_nothing zero a f = ground (arith, bit_or-bitwise 0 0)
or_nothing (suc k) a f =
    omega (arith, or_digit a 0, pow-suc 2 k, or_nothing k (a / 2) (omega (arith, pow-suc 2 k)))

-- the low field
pub and_low :
    (k j q r m : ℕ) → r < 2 ^ k → q < 2 ^ j → m + 1 ≡ 2 ^ k → bit_and (q * 2 ^ k + r) m ≡ r
and_low zero j q r m f g e = ground (arith, and_nothing j q g)
and_low (suc k) j q r m f g e = ground (
  arith,
  and_digit (q * 2 ^ suc k + r) m,
  twice_power k q,
  pow-suc 2 k,
  and_low k j q (r / 2) (m / 2) (omega (arith, pow-suc 2 k)) g (omega (arith, pow-suc 2 k)),
)

-- a field further up
pub and_high : (s q r m : ℕ) → r < 2 ^ s → bit_and (q * 2 ^ s + r) (m * 2 ^ s) ≡ bit_and q m * 2 ^ s
and_high zero q r m f = ground arith
and_high (suc s) q r m f = ground (
  arith,
  and_digit (q * 2 ^ suc s + r) (m * 2 ^ suc s),
  twice_power s q,
  twice_power s m,
  twice_power s (bit_and q m),
  and_high s q (r / 2) m (omega (arith, pow-suc 2 s)),
)

-- two fields that do not meet
pub or_fields : (k j q r : ℕ) → r < 2 ^ k → q < 2 ^ j → bit_or (q * 2 ^ k) r ≡ q * 2 ^ k + r
or_fields zero j q r f g = ground (arith, or_nothing j q g)
or_fields (suc k) j q r f g = ground (
  arith,
  or_digit (q * 2 ^ suc k) r,
  twice_power k q,
  or_fields k j q (r / 2) (omega (arith, pow-suc 2 k)) g,
)
