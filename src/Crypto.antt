-- ===== src/Crypto.antt =====
-- ara::crypto: include/ara/crypto/crypto_provider.h and src/ara/crypto/crypto.cpp. `size_t` has 64
-- bits, and numbers are cut by `%`. The random generator is a parameter: `draw i` is the i-th byte
-- that a call takes from it. An out parameter stands beside the result.
mod Types
pub mod Cipher
pub mod Keys
pub mod Mac
pub mod Interfaces
use Prim.Native.Nat.{bit_or}
use my_auto_sar_ap.Prelude.{
  ℕ, zero, suc, ◌+◌, ◌-◌, ◌*◌, ◌/◌, ◌%◌, bit_xor, Bool, true, false, not, ◌||◌, ◌&&◌, Option, none,
  some, List, [], ◌∷◌, ◌++◌, length, get_or, take, drop, replicate, nat_eq, ltb, if◌then◌else◌,
  ℕ_eq,
}
use my_auto_sar_ap.Prelude.Map.{lookup, insert}
pub use my_auto_sar_ap.Crypto.Types.{
  ByteVector, AlgorithmId, KeyUsage, KeySlotType, CryptoResult, CryptoKey, default_key, make_key,
  KeyRecord, KeyStore, aes128_cbc, aes256_cbc, aes128_gcm, aes256_gcm, rsa2048_oaep, ecdsa_p256,
  ecdh_p256, sha256, sha384, hmac_sha256, ctr_drbg, hsm, protected_ram, volatile, success,
  invalid_key, invalid_algorithm, invalid_input, buffer_too_small, auth_failed, key_not_found,
  hsm_error, error,
}
unfoldable pub use my_auto_sar_ap.Crypto.Types.{usage_or, new}

abbrev pub is_empty : ByteVector → Bool
is_empty [] = true
is_empty (b ∷ bytes) = false

-- The loop of both directions, from index i: `x ^ keyMat[i % keyMat.size()] ^ iv[i % iv.size()]`.
-- No key that `GenerateKey` stores has empty material.
unfoldable pub mask : ByteVector → ByteVector → ℕ → ByteVector → ByteVector
mask key iv i [] = []
mask key iv i (x ∷ xs) =
    bit_xor (bit_xor x (get_or key (i % length key) 0)) (get_or iv (i % length iv) 0)
    ∷ mask key iv (suc i) xs

abbrev pub tag : ByteVector
tag = replicate 16 0xab

abbrev pub encrypt_with :
    Option KeyRecord → ByteVector → ByteVector → ByteVector → CryptoResult × ByteVector
encrypt_with none iv plaintext old = (key_not_found, old)
encrypt_with (some rec) iv plaintext old = (success, mask rec.material iv 0 plaintext ++ tag)

unfoldable pub encrypt :
    KeyStore
    → CryptoKey
    → ByteVector
    → ByteVector
    → ByteVector
    → ByteVector
    → CryptoResult × ByteVector
encrypt ks key iv plaintext aad old =
    if not key.valid
    then (invalid_key, old)
    else if is_empty iv || is_empty plaintext
    then (invalid_input, old)
    else encrypt_with (lookup key.id ks.key_store) iv plaintext old

-- Whether all bytes are 0xAB.
unfoldable pub all_tag : ByteVector → Bool
all_tag [] = true
all_tag (b ∷ bytes) = nat_eq b 0xab && all_tag bytes

abbrev pub decrypt_with :
    Option KeyRecord → ByteVector → ByteVector → ByteVector → CryptoResult × ByteVector
decrypt_with none iv body old = (key_not_found, old)
decrypt_with (some rec) iv body old = (success, mask rec.material iv 0 body)

unfoldable pub decrypt :
    KeyStore
    → CryptoKey
    → ByteVector
    → ByteVector
    → ByteVector
    → ByteVector
    → CryptoResult × ByteVector
decrypt ks key iv ciphertext aad old =
    let data_len = length ciphertext - 16 in
    if not key.valid
    then (invalid_key, old)
    else if is_empty iv || ltb (length ciphertext) 16
    then (invalid_input, old)
    else if not (all_tag (drop data_len ciphertext))
    then (auth_failed, old)
    else decrypt_with (lookup key.id ks.key_store) iv (take data_len ciphertext) old

abbrev pub u64 : ℕ → ℕ
u64 n = n % 18446744073709551616

-- `h = h * k + b` over the bytes.
unfoldable pub absorb : ℕ → ℕ → ByteVector → ℕ
absorb k h [] = h
absorb k h (b ∷ bytes) = absorb k (u64 (h * k + b)) bytes

abbrev pub lcg : ℕ → ℕ
lcg h = u64 (h * 6364136223846793005 + 1442695040888963407)

abbrev pub high_bytes : ℕ → ByteVector
high_bytes h =
    h / 72057594037927936 % 256
    ∷ h / 281474976710656 % 256
    ∷ h / 1099511627776 % 256
    ∷ h / 4294967296 % 256
    ∷ []

abbrev pub low_bytes : ℕ → ByteVector
low_bytes h = h / 16777216 % 256 ∷ h / 65536 % 256 ∷ h / 256 % 256 ∷ h % 256 ∷ []

-- The output loops: `n` words of four or eight bytes.
unfoldable pub squeeze : (ℕ → ByteVector) → ℕ → ℕ → ByteVector
squeeze word zero h = []
squeeze word (suc n) h = word h ++ squeeze word n (lcg h)

abbrev pub generate_with : Option KeyRecord → ByteVector → ByteVector → CryptoResult × ByteVector
generate_with none bytes old = (key_not_found, old)
generate_with (some rec) bytes old =
    (success, squeeze high_bytes 8 (absorb 37 (absorb 31 0x12345678 bytes) rec.material))

unfoldable pub generate : KeyStore → CryptoKey → ByteVector → ByteVector → CryptoResult × ByteVector
unfolding squeeze absorb
generate ks key bytes old =
    if not key.valid
    then (invalid_key, old)
    else generate_with (lookup key.id ks.key_store) bytes old

abbrev pub bytes_eq : ByteVector → ByteVector → Bool
bytes_eq [] [] = true
bytes_eq [] (b ∷ bs) = false
bytes_eq (a ∷ as') [] = false
bytes_eq (a ∷ as') (b ∷ bs) = nat_eq a b && bytes_eq as' bs

abbrev pub compare_mac : CryptoResult × ByteVector → ByteVector → CryptoResult
compare_mac (success, computed) expected =
    if bytes_eq computed expected then success else auth_failed
compare_mac (other, computed) expected = other

unfoldable pub verify : KeyStore → CryptoKey → ByteVector → ByteVector → CryptoResult
verify ks key bytes expected = compare_mac (generate ks key bytes []) expected

unfoldable pub load_key : KeyStore → ℕ → AlgorithmId → KeyUsage → CryptoKey
load_key ks id alg usage = elim (lookup id ks.key_store) [
  | none ↦ default_key
  | some rec ↦ make_key id alg usage rec.slot
]

abbrev pub key_len : AlgorithmId → ℕ
key_len aes128_cbc = 16
key_len aes128_gcm = 16
key_len _ = 32

-- The loop that fills a vector: bytes i, i + 1, … of the generator.
unfoldable pub fill : (ℕ → ℕ) → ℕ → ℕ → ByteVector
fill draw i zero = []
fill draw i (suc n) = draw i % 256 ∷ fill draw (suc i) n

-- `emplace` leaves an entry that is there as it is.
abbrev pub emplace : ℕ → KeyRecord → List (ℕ × KeyRecord) → List (ℕ × KeyRecord)
emplace id rec m = elim (lookup id m) [ none ↦ insert id rec m | some old ↦ m ]

unfoldable pub generate_key :
    KeyStore → (ℕ → ℕ) → AlgorithmId → KeyUsage → KeySlotType → KeyStore × CryptoKey
unfolding fill
generate_key ks draw alg usage slot =
    let id = ks.next_key_id in
    (
      record {
        key_store =
            emplace id
              (record {
                id = id;
                alg_id = alg;
                usage = usage;
                slot = slot;
                material = fill draw 0 (key_len alg);
              })
              ks.key_store;
        next_key_id = (id + 1) % 4294967296;
      },
      make_key id alg usage slot,
    )

unfoldable pub generate_random : (ℕ → ℕ) → ℕ → CryptoResult × ByteVector
unfolding fill
generate_random draw n = (success, fill draw 0 n)

unfoldable pub verify_signature : CryptoKey → ByteVector → ByteVector → CryptoResult
verify_signature public_key bytes signature = if not public_key.valid then invalid_key else success

abbrev pub all_bytes : ℕ → ByteVector
all_bytes h = high_bytes h ++ low_bytes h

unfoldable pub hash : AlgorithmId → ByteVector → CryptoResult × ByteVector
unfolding squeeze absorb
hash alg bytes = (success, squeeze all_bytes 4 (absorb 31 0xdeadbeef bytes))
