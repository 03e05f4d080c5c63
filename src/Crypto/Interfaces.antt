-- ===== src/Crypto/Interfaces.antt =====
-- The abstract classes of include/ara/crypto/crypto_provider.h, which an application calls, with what
-- they promise, and the objects that `CreateSymmetricCipher` and `CreateMessageAuthCode` make
-- (src/ara/crypto/crypto.cpp). The key store is the provider's, and an argument of each call.
use my_auto_sar_ap.Prelude.{◌≡◌, ◌≢◌, ◌↔◌, refl, sym, ap, ◌∙◌, true, false, some, [], ℕ_eq}
use my_auto_sar_ap.Prelude.Map.{lookup}
use my_auto_sar_ap.Crypto.{
  ByteVector, KeyStore, KeyRecord, CryptoKey, CryptoResult, AlgorithmId, success, invalid_key,
  encrypt, decrypt, generate, verify,
}
use my_auto_sar_ap.Crypto.Cipher.{decrypt-encrypt}
use my_auto_sar_ap.Crypto.Mac.{verify_iff}

-- The key, the initialization vector, the text, the associated data, and the out parameter.
abbrev pub Transform : Type 0
Transform =
    KeyStore
    → CryptoKey
    → ByteVector
    → ByteVector
    → ByteVector
    → ByteVector
    → CryptoResult × ByteVector

pub record SymmetricCipher : Type 0 where
  pub encrypt_data : Transform
  pub decrypt_data : Transform

pub record MessageAuthCode : Type 0 where
  pub generate_mac : KeyStore → CryptoKey → ByteVector → ByteVector → CryptoResult × ByteVector
  pub verify_mac : KeyStore → CryptoKey → ByteVector → ByteVector → CryptoResult

-- `algId_` is kept and not read.
unfoldable pub create_symmetric_cipher : AlgorithmId → SymmetricCipher
create_symmetric_cipher alg = record { encrypt_data = encrypt; decrypt_data = decrypt }

unfoldable pub create_message_auth_code : AlgorithmId → MessageAuthCode
create_message_auth_code alg = record { generate_mac = generate; verify_mac = verify }

-- A handle that stands for a key of the store.
pub record Opens (ks : KeyStore) (key : CryptoKey) (rec : KeyRecord) : Type 0 where
  pub valid : key.valid ≡ true
  pub stored : lookup key.id ks.key_store ≡ some rec

-- What a cipher promises: a handle that is not valid is refused and the out parameter left alone; a
-- nonempty text under a nonempty vector is encrypted, and read back with the same vector.
pub record IsCipher (c : SymmetricCipher) : Type 0 where
  pub refuses :
      (ks : KeyStore) (key : CryptoKey) (iv text aad old : ByteVector)
      → key.valid ≡ false
      → (c.encrypt_data ks key iv text aad old ≡ (invalid_key, old))
        × (c.decrypt_data ks key iv text aad old ≡ (invalid_key, old))
  pub encrypts :
      (ks : KeyStore) (key : CryptoKey) (rec : KeyRecord) (iv text aad old : ByteVector)
      → Opens ks key rec
      → iv ≢ []
      → text ≢ []
      → (c.encrypt_data ks key iv text aad old).0 ≡ success
  pub decrypts :
      (ks : KeyStore) (key : CryptoKey) (rec : KeyRecord) (iv text aad old old' : ByteVector)
      → Opens ks key rec
      → iv ≢ []
      → text ≢ []
      → c.decrypt_data ks key iv (c.encrypt_data ks key iv text aad old).1 aad old'
        ≡ (success, text)

-- What a message authentication code promises: exactly what it makes is accepted.
pub record IsMac (m : MessageAuthCode) : Type 0 where
  pub accepts :
      (ks : KeyStore) (key : CryptoKey) (bytes mac : ByteVector)
      → (m.verify_mac ks key bytes mac ≡ success)
        ↔ (m.generate_mac ks key bytes [] ≡ (success, mac))

module _ (alg : AlgorithmId) where
  pub create_symmetric_cipher-IsCipher : IsCipher (create_symmetric_cipher alg)
  unfolding create_symmetric_cipher encrypt decrypt
  create_symmetric_cipher-IsCipher = record {
    refuses = λ ks key iv text aad old invalid. rw invalid (refl, refl);
    encrypts = λ ks key rec iv text aad old opens vector some_text.
        (decrypt-encrypt ks key rec iv text aad aad old old opens.valid opens.stored vector
          some_text).0;
    decrypts = λ ks key rec iv text aad old old' opens vector some_text.
        (decrypt-encrypt ks key rec iv text aad aad old old' opens.valid opens.stored vector
          some_text).2;
  }

  pub create_message_auth_code-IsMac : IsMac (create_message_auth_code alg)
  unfolding create_message_auth_code
  create_message_auth_code-IsMac = record { accepts = verify_iff }

-- A client of a cipher.
module _ (c : SymmetricCipher) (law : IsCipher c) (ks : KeyStore) (key : CryptoKey)
    (rec : KeyRecord) (iv aad : ByteVector) (opens : Opens ks key rec) (vector : iv ≢ []) where
  -- Different texts have different ciphertexts.
  pub encrypt-injective :
      (text other old : ByteVector)
      → text ≢ []
      → other ≢ []
      → c.encrypt_data ks key iv text aad old ≡ c.encrypt_data ks key iv other aad old
      → text ≡ other
  encrypt-injective text other old some_text some_other same =
      let back = law.decrypts ks key rec iv text aad old old opens vector some_text in
      let back' = law.decrypts ks key rec iv other aad old old opens vector some_other in
      ap (λ (r : CryptoResult × ByteVector). r.1)
        (sym back
          ∙ ap (λ (r : CryptoResult × ByteVector). c.decrypt_data ks key iv r.1 aad old) same
          ∙ back')
