-- ===== src/Connection/Framing/BigEndian.antt =====
-- boost::endian::big_uint32_t, as connection.cpp uses it: four bytes, the highest first.
use libchromecast.Prelude.{
  ℕ, ◌+◌, ◌*◌, ◌/◌, ◌%◌, ◌^◌, ◌<◌, ◌≡◌, refl, [], ◌∷◌, Bytes, length, arith,
}

unfoldable pub big_endian : ℕ → Bytes
big_endian n = n / 2 ^ 24 ∷ n / 2 ^ 16 % 256 ∷ n / 2 ^ 8 % 256 ∷ n % 256 ∷ []

from_big_endian_loop : ℕ → Bytes → ℕ
from_big_endian_loop acc [] = acc
from_big_endian_loop acc (b ∷ rest) = from_big_endian_loop (acc * 256 + b) rest

unfoldable pub from_big_endian : Bytes → ℕ
unfolding from_big_endian_loop
from_big_endian bytes = from_big_endian_loop 0 bytes

pub from_big_endian-big_endian : (n : ℕ) → n < 2 ^ 32 → from_big_endian (big_endian n) ≡ n
unfolding from_big_endian big_endian
from_big_endian-big_endian n h = omega arith

pub length-big_endian : (n : ℕ) → length (big_endian n) ≡ 4
unfolding big_endian
length-big_endian n = refl
