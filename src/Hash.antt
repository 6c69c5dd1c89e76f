-- ===== src/Hash.antt =====
-- The two hash functions of Go's standard library that the packages call, and the word operations
-- that both are made of.
pub mod Crc32c
pub mod Sha256
use event_analysis.Prelude.{ℕ, ◌+◌, ◌-◌, ◌*◌, ◌/◌, ◌%◌, ◌^◌}
use Prim.Native.Nat.{bit_xor}

abbrev pub word32 : ℕ → ℕ
word32 x = x % 2 ^ 32

-- Rotation to the right, and the complement.
abbrev pub rotr : ℕ → ℕ → ℕ
rotr k x = x / 2 ^ k + x % 2 ^ k * 2 ^ (32 - k)

abbrev pub not32 : ℕ → ℕ
not32 x = bit_xor x 0xffffffff
