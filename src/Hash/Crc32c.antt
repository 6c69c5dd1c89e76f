-- ===== src/Hash/Crc32c.antt =====
-- hash/crc32 with the Castagnoli polynomial, bit by bit.
use event_analysis.Prelude.{ℕ, zero, suc, ◌/◌, ◌%◌, ◌<◌, ◌^◌, ◌≡◌, refl, List, [], ◌∷◌, arith}
use event_analysis.Prelude.{◌==◌, if◌then◌else◌}
use event_analysis.Hash.{word32, not32}
use Prim.Native.Nat.{bit_xor}

-- One bit, in reversed order.
unfoldable pub shift_bit : ℕ → ℕ
shift_bit c = if c % 2 == 1 then bit_xor (c / 2) 0x82f63b78 else c / 2

unfoldable pub shift_byte : ℕ → ℕ → ℕ
unfolding shift_bit
shift_byte zero c = c
shift_byte (suc k) c = shift_byte k (shift_bit c)

unfoldable pub update : ℕ → List ℕ → ℕ
unfolding shift_byte
update c [] = c
update c (b ∷ bs) = update (shift_byte 8 (bit_xor c b)) bs

-- `crc32.Checksum(b, crc32.MakeTable(crc32.Castagnoli))`
unfoldable pub checksum : List ℕ → ℕ
unfolding update
checksum bs = word32 (not32 (update 0xffffffff bs))

pub checksum-lt : (bs : List ℕ) → checksum bs < 2 ^ 32
unfolding checksum
checksum-lt bs = omega arith

-- The check value of the polynomial: the digits 1 to 9.
check_value :
    checksum (0x31 ∷ 0x32 ∷ 0x33 ∷ 0x34 ∷ 0x35 ∷ 0x36 ∷ 0x37 ∷ 0x38 ∷ 0x39 ∷ []) ≡ 0xe3069283
unfolding checksum
check_value = refl
