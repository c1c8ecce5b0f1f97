-- ===== src/Net/ByteOrder.antt =====
-- The byte order functions of network_stack.c. A shift by `n` is written with `2 ^ n`.
pub mod Bytes
use Prim.Native.Nat.{bit_and, bit_or, ◌*◌, ◌/◌, ◌^◌}
use nova.Base.{ℕ}
use nova.Base.Words.{u16, u32}

unfoldable pub htonl : ℕ → ℕ
htonl host =
    bit_or
      (bit_or
        (bit_or (u32 (bit_and host 0x000000FF * 2 ^ 24)) (u32 (bit_and host 0x0000FF00 * 2 ^ 8)))
        (bit_and host 0x00FF0000 / 2 ^ 8))
      (bit_and host 0xFF000000 / 2 ^ 24)

unfoldable pub htons : ℕ → ℕ
htons host = u16 (bit_or (bit_and host 0x00FF * 2 ^ 8) (bit_and host 0xFF00 / 2 ^ 8))

unfoldable pub ntohl : ℕ → ℕ
unfolding htonl
ntohl net = htonl net

unfoldable pub ntohs : ℕ → ℕ
unfolding htons
ntohs net = htons net
