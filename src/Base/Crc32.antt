-- ===== src/Base/Crc32.antt =====
-- crc32.ChecksumIEEE, bit by bit.
use Prim.Native.Nat.{ℕ, zero, suc, ◌/◌, ◌%◌, bit_xor}
use mathlib.Core.List.{[], ◌∷◌}
use gcp.Base.Tests.{◌==◌, if◌then◌else◌}
use gcp.Base.Text.{Bytes}

unfoldable pub shift_bits : ℕ → ℕ → ℕ
shift_bits zero crc = crc
shift_bits (suc n) crc =
    shift_bits n (if crc % 2 == 1 then bit_xor (crc / 2) 0xEDB8_8320 else crc / 2)

unfoldable pub crc_update : ℕ → Bytes → ℕ
unfolding shift_bits
crc_update crc [] = crc
crc_update crc (b ∷ bs) = crc_update (shift_bits 8 (bit_xor crc b)) bs

unfoldable pub checksum_ieee : Bytes → ℕ
unfolding crc_update
checksum_ieee bs = bit_xor (crc_update 0xFFFF_FFFF bs) 0xFFFF_FFFF
