-- ===== src/E2e.antt =====
-- The checksums: `e2e_crc8` of include/ara/com/someip_proto.h and `SpiIpcFrame::ComputeCRC16` of
-- src/application/SwcIPCBridge/IPCBridgeService.cpp. Words are numbers, cut by `%`.
pub mod Detect
use my_auto_sar_ap.Prelude.{
  ℕ, zero, suc, ◌*◌, ◌/◌, ◌%◌, bit_xor, Bool, true, false, List, [], ◌∷◌, nat_eq, if◌then◌else◌,
}

-- One round of the inner loop: `crc & 0x80` tests the top bit, and `crc << 1` is cut to a byte.
unfoldable pub shift8 : ℕ → ℕ
shift8 crc = if nat_eq (crc / 128 % 2) 1 then bit_xor (crc * 2) 0x1d % 256 else crc * 2 % 256

unfoldable pub times : ℕ → (ℕ → ℕ) → ℕ → ℕ
times zero f x = x
times (suc n) f x = times n f (f x)

-- The outer loop, from a value of `crc`.
unfoldable pub crc8_loop : ℕ → List ℕ → ℕ
unfolding shift8 times
crc8_loop crc [] = crc
crc8_loop crc (b ∷ bytes) = crc8_loop (times 8 shift8 (bit_xor crc b)) bytes

unfoldable pub e2e_crc8 : List ℕ → ℕ
unfolding crc8_loop
e2e_crc8 bytes = bit_xor (crc8_loop 0xff bytes) 0xff

unfoldable pub shift16 : ℕ → ℕ
shift16 crc =
    if nat_eq (crc / 32768 % 2) 1 then bit_xor (crc * 2) 0x1021 % 65536 else crc * 2 % 65536

-- `byte << 8` fits 16 bits.
unfoldable pub crc16_loop : ℕ → List ℕ → ℕ
unfolding shift16 times
crc16_loop crc [] = crc
crc16_loop crc (b ∷ bytes) = crc16_loop (times 8 shift16 (bit_xor crc (b * 256))) bytes

unfoldable pub compute_crc16 : List ℕ → ℕ
unfolding crc16_loop
compute_crc16 bytes = crc16_loop 0xffff bytes
