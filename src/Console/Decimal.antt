-- ===== src/Console/Decimal.antt =====
-- What `write_unsigned` prints is the number's decimal numeral.
use native.Mathlib.Nat.{pow-suc}
use nova.Base.{
  ℕ, zero, suc, ◌+◌, ◌-◌, ◌*◌, ◌/◌, ◌%◌, ◌^◌, ◌<◌, ◌≡◌, ◌≢◌, refl, ap, ◌∙◌, inl, inr, ◌⊎◌, Bool,
  true, ◌&&◌, List, [], ◌∷◌, arith, get_or, ◌==◌, leb, ==→eq, ne→==, Bool-cases, some,
}
use nova.Console.Port.{Uart, Machine}
use nova.Console.Port.Ready.{Patient, after, wire}
use nova.Console.Calls.{digits, write_unsigned}
use nova.Console.Calls.Texts.{decimal, write_unsigned-Writes}

-- the number that digits spell behind `acc`
abbrev pub value : ℕ → List ℕ → ℕ
value acc [] = acc
value acc (c ∷ cs) = value (acc * 10 + (c - b'0')) cs

abbrev pub all_digits : List ℕ → Bool
all_digits [] = true
all_digits (c ∷ cs) = (leb b'0' c && leb c b'9') && all_digits cs

-- The numeral of `n`: digits that spell it, with no zero in front but that of 0 itself.
pub record IsNumeral (n : ℕ) (text : List ℕ) : Type 0 where
  pub spelled : all_digits text ≡ true
  pub exact : value 0 text ≡ n
  pub canonical : (text ≡ b'0' ∷ []) ⊎ (get_or text 0 b'0' ≢ b'0')

value-digits :
    (room n : ℕ) (out : List ℕ) → n < 10 ^ room → value 0 (digits room n out) ≡ value n out
unfolding digits
value-digits zero n out h = let e : n ≡ 0 = omega arith in rw e
value-digits (suc room) n out h = elim (Bool-cases (n == 0)) [
  | inl z ↦ let e : n ≡ 0 = ground arith in rw (z, digits) (rw e)
  | inr z ↦
      rw (z, digits)
        (value-digits room (n / 10) ((b'0' + n % 10) ∷ out) (omega (arith, pow-suc 10 room))
          ∙ ap (λ a. value a out) (omega arith))
]

digits_spelled :
    (room n : ℕ) (out : List ℕ) → all_digits out ≡ true → all_digits (digits room n out) ≡ true
unfolding digits
digits_spelled zero n out h = h
digits_spelled (suc room) n out h = elim (Bool-cases (n == 0)) [
  | inl z ↦ rw (z, digits) h
  | inr z ↦ rw (z, digits) (digits_spelled room (n / 10) ((b'0' + n % 10) ∷ out) (ground arith))
]

digits_zero : (room : ℕ) (out : List ℕ) → digits room 0 out ≡ out
unfolding digits
digits_zero zero out = refl
digits_zero (suc room) out = refl

digits_first :
    (room n : ℕ) (out : List ℕ) → n < 10 ^ room → n ≢ 0 → get_or (digits room n out) 0 b'0' ≢ b'0'
unfolding digits
digits_first zero n out h z = absurd (omega arith)
digits_first (suc room) n out h z =
    rw (ne→== n 0 z, digits)
      (elim (Bool-cases (n / 10 == 0)) [
        | inl small ↦
            let e : n / 10 ≡ 0 = ==→eq (n / 10) 0 small in
            rw (e, digits_zero room ((b'0' + n % 10) ∷ out)) (λ x. omega arith)
        | inr more ↦
            digits_first room (n / 10) ((b'0' + n % 10) ∷ out) (omega (arith, pow-suc 10 room))
              (λ x. ground arith)
      ])

decimal-IsNumeral : (n : ℕ) → n < 10 ^ 20 → IsNumeral n (decimal n)
unfolding decimal
decimal-IsNumeral n h = elim (Bool-cases (n == 0)) [
  | inl z ↦
      let e : n ≡ 0 = ==→eq n 0 z in
      rw e (record { spelled = refl; exact = refl; canonical = inl refl })
  | inr z ↦
      rw (z, decimal)
        (record {
          spelled = digits_spelled 20 n [] refl;
          exact = value-digits 20 n [] h;
          canonical = inr (digits_first 20 n [] h (λ x. ground arith));
        })
]

wire_digits : (a : List ℕ) → all_digits a ≡ true → wire a ≡ a
wire_digits [] h = refl
wire_digits (c ∷ cs) h = ground (arith, wire_digits cs)

-- If the transmitter is never busy for `fuel` readings in a row, `write_unsigned` writes the numeral
-- of any 32-bit value to the port, and changes nothing else.
pub write_unsigned_lem :
    (u : Uart) (fuel n : ℕ) (m : Machine)
    → Patient u fuel
    → n < 2 ^ 32
    → (reads : ℕ) × (text : List ℕ) × (write_unsigned u fuel n m ≡ some (tt, after m reads text))
      × IsNumeral n text
write_unsigned_lem u fuel n m p h =
    let d = decimal-IsNumeral n (omega arith) in
    let (r, f) = write_unsigned-Writes u fuel p n m in
    (r, decimal n, f ∙ ap (λ t. some (tt, after m r t)) (wire_digits (decimal n) d.spelled), d)
