-- ===== src/Net/ByteOrder/Bytes.antt =====
-- What the byte order functions of network_stack.c do to the bytes of a word.
use Prim.Native.Nat.{bit_and, bit_or}
use nova.Base.{ℕ, ◌+◌, ◌*◌, ◌/◌, ◌%◌, ◌^◌, ◌<◌, ◌≡◌, refl, sym, ap, ◌∙◌, arith}
use nova.Base.Words.{u16, u32}
use nova.Base.BitFields.{and_low, and_high, or_fields}
use nova.Net.ByteOrder.{htonl, htons, ntohl, ntohs}

-- the words with the given bytes, the lowest first
abbrev pub short : ℕ → ℕ → ℕ
short a b = b * 256 + a

abbrev pub long : ℕ → ℕ → ℕ → ℕ → ℕ
long a b c d = short a (short b (short c d))

low_byte : (q a : ℕ) → a < 256 → q < 2 ^ 24 → bit_and (short a q) 0xFF ≡ a
low_byte q a f g = and_low 8 24 q a 255 f g refl

lone_byte : (b : ℕ) → b < 256 → bit_and b 0xFF ≡ b
lone_byte b g = ap (λ x. bit_and x 0xFF) (omega arith) ∙ low_byte 0 b g (omega arith)

next_byte :
    (q b a : ℕ) → a < 256 → b < 256 → q < 2 ^ 24 → bit_and (short a (short b q)) 0xFF00 ≡ b * 256
next_byte q b a f g e = and_high 8 (short b q) a 255 f ∙ ap (λ (x : ℕ). x * 256) (low_byte q b g e)

third_byte :
    (d c b a : ℕ)
    → a < 256
    → b < 256
    → c < 256
    → d < 256
    → bit_and (long a b c d) 0xFF0000 ≡ c * 65536
third_byte d c b a f g h i =
    ap (λ x. bit_and x 0xFF0000) (omega arith)
    ∙ and_high 16 (short c d) (short a b) 255 (omega arith)
    ∙ ap (λ (x : ℕ). x * 65536) (low_byte d c h (omega arith))

fourth_byte :
    (d c b a : ℕ)
    → a < 256
    → b < 256
    → c < 256
    → d < 256
    → bit_and (long a b c d) 0xFF000000 ≡ d * 16777216
fourth_byte d c b a f g h i =
    ap (λ x. bit_and x 0xFF000000) (omega arith)
    ∙ and_high 24 d (short a (short b c)) 255 (omega arith)
    ∙ ap (λ (x : ℕ). x * 16777216) (lone_byte d i)

join :
    (a b c d : ℕ)
    → a < 256
    → b < 256
    → c < 256
    → d < 256
    → bit_or (bit_or (bit_or (a * 16777216) (b * 65536)) (c * 256)) d ≡ long d c b a
join a b c d f g h i =
    let two : bit_or (a * 16777216) (b * 65536) ≡ short b a * 65536 =
      or_fields 24 8 a (b * 65536) (omega arith) f ∙ omega arith in
    let three : bit_or (short b a * 65536) (c * 256) ≡ short c (short b a) * 256 =
      or_fields 16 16 (short b a) (c * 256) (omega arith) (omega arith) ∙ omega arith in
    ap (λ x. bit_or (bit_or x (c * 256)) d) two
    ∙ ap (λ x. bit_or x d) three
    ∙ or_fields 8 24 (short c (short b a)) d i (omega arith)

-- `nova_htonl` reverses the four bytes of a word.
pub htonl-long :
    (a b c d : ℕ) → a < 256 → b < 256 → c < 256 → d < 256 → htonl (long a b c d) ≡ long d c b a
unfolding htonl
htonl-long a b c d f g h i =
    let first : u32 (bit_and (long a b c d) 0xFF * 2 ^ 24) ≡ a * 16777216 =
      omega (arith, low_byte (short b (short c d)) a f (omega arith)) in
    let second : u32 (bit_and (long a b c d) 0xFF00 * 2 ^ 8) ≡ b * 65536 =
      omega (arith, next_byte (short c d) b a f g (omega arith)) in
    let third : bit_and (long a b c d) 0xFF0000 / 2 ^ 8 ≡ c * 256 =
      omega (arith, third_byte d c b a f g h i) in
    let fourth : bit_and (long a b c d) 0xFF000000 / 2 ^ 24 ≡ d =
      omega (arith, fourth_byte d c b a f g h i) in
    rw (first, second, third, fourth) (join a b c d f g h i)

-- `nova_htons` swaps the two bytes of a short.
pub htons-short : (a b : ℕ) → a < 256 → b < 256 → htons (short a b) ≡ short b a
unfolding htons
htons-short a b f g =
    let first : bit_and (short a b) 0xFF * 2 ^ 8 ≡ a * 256 =
      omega (arith, low_byte b a f (omega arith)) in
    let second : bit_and (short a b) 0xFF00 / 2 ^ 8 ≡ b =
      omega (arith, and_high 8 b a 255 f, lone_byte b g) in
    rw (first, second) (ap u16 (or_fields 8 8 a b g f) ∙ omega arith)

-- A word of 32 bits comes back from network order as it was, and so does a short of 16 bits; in
-- network order, the word has its four bytes, and the short its two, in the reverse order.
pub ntohl-htonl :
    (n s : ℕ)
    → n < 2 ^ 32
    → s < 2 ^ 16
    → (ntohl (htonl n) ≡ n)
      × (ntohs (htons s) ≡ s)
      × (htonl n ≡ long (n / 2 ^ 24) (n / 2 ^ 16 % 256) (n / 2 ^ 8 % 256) (n % 256))
      × (htons s ≡ short (s / 2 ^ 8) (s % 256))
unfolding ntohl ntohs
ntohl-htonl n s f g =
    let bytes : n ≡ long (n % 256) (n / 256 % 256) (n / 65536 % 256) (n / 16777216) = omega arith in
    let there : htonl n ≡ long (n / 16777216) (n / 65536 % 256) (n / 256 % 256) (n % 256) =
      ap htonl bytes
      ∙ htonl-long (n % 256) (n / 256 % 256) (n / 65536 % 256) (n / 16777216) (omega arith)
          (omega arith) (omega arith) (omega arith) in
    let there' : htons s ≡ short (s / 256) (s % 256) =
      ap htons (omega arith) ∙ htons-short (s % 256) (s / 256) (omega arith) (omega arith) in
    (
      ap htonl there
          ∙ htonl-long (n / 16777216) (n / 65536 % 256) (n / 256 % 256) (n % 256) (omega arith)
              (omega arith) (omega arith) (omega arith)
          ∙ sym bytes,
      ap htons there' ∙ htons-short (s / 256) (s % 256) (omega arith) (omega arith) ∙ omega arith,
      there,
      there',
    )
