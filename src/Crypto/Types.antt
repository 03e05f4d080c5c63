-- ===== src/Crypto/Types.antt =====
-- Keys, results and the key store (include/ara/crypto/crypto_provider.h, src/ara/crypto/crypto.cpp).
use Prim.Native.Nat.{bit_or}
use my_auto_sar_ap.Prelude.{ℕ, Bool, true, false, List, [], ℕ_eq}

abbrev pub ByteVector : Type 0
ByteVector = List ℕ

pub data AlgorithmId : Type 0 where
  aes128_cbc aes256_cbc aes128_gcm aes256_gcm rsa2048_oaep ecdsa_p256 ecdh_p256 : AlgorithmId
  sha256 sha384 hmac_sha256 ctr_drbg : AlgorithmId

-- The bits of a `KeyUsage`, which no operation reads.
abbrev pub KeyUsage : Type 0
KeyUsage = ℕ

unfoldable pub usage_or : KeyUsage → KeyUsage → KeyUsage
usage_or a b = bit_or a b

pub data KeySlotType : Type 0 where
  hsm protected_ram volatile : KeySlotType

pub data CryptoResult : Type 0 where
  success invalid_key invalid_algorithm invalid_input buffer_too_small : CryptoResult
  auth_failed key_not_found hsm_error error : CryptoResult

pub record CryptoKey : Type 0 where
  pub id : ℕ
  pub alg_id : AlgorithmId
  pub usage : KeyUsage
  pub slot : KeySlotType
  pub valid : Bool

abbrev pub default_key : CryptoKey
default_key = record { id = 0; alg_id = aes256_gcm; usage = 1; slot = volatile; valid = false }

abbrev pub make_key : ℕ → AlgorithmId → KeyUsage → KeySlotType → CryptoKey
make_key id alg usage slot = record {
  id = id;
  alg_id = alg;
  usage = usage;
  slot = slot;
  valid = true;
}

pub record KeyRecord : Type 0 where
  pub id : ℕ
  pub alg_id : AlgorithmId
  pub usage : KeyUsage
  pub slot : KeySlotType
  pub material : ByteVector

pub record KeyStore : Type 0 where
  pub key_store : List (ℕ × KeyRecord)
  pub next_key_id : ℕ  -- uint32_t

unfoldable pub new : KeyStore
new = record { key_store = []; next_key_id = 1 }
