-- ===== src/Crypto/Cipher.antt =====
-- Encryption and decryption (src/ara/crypto/crypto.cpp).
use my_auto_sar_ap.Prelude.{
  ℕ, suc, ◌+◌, ◌-◌, ◌≡◌, ◌≢◌, refl, sym, ap, ◌∙◌, arith, bit_xor, true, false, some, [], ◌∷◌, ◌++◌,
  length, length-append, take-length-append, drop-length-append, ℕ_eq,
}
use my_auto_sar_ap.Prelude.Bits.{bit_xor_comm, bit_xor_assoc, bit_xor_cancel}
use my_auto_sar_ap.Prelude.Map.{lookup}
use my_auto_sar_ap.Crypto.{
  ByteVector, KeyStore, KeyRecord, CryptoKey, success, mask, tag, encrypt, decrypt, all_tag,
  is_empty,
}

mask_back : (x k v : ℕ) → bit_xor (bit_xor (bit_xor (bit_xor x k) v) k) v ≡ x
mask_back x k v =
    ap (λ t. bit_xor t v)
      (bit_xor_assoc (bit_xor x k) v k
        ∙ ap (bit_xor (bit_xor x k)) (bit_xor_comm v k)
        ∙ sym (bit_xor_assoc (bit_xor x k) k v)
        ∙ ap (λ t. bit_xor t v) (bit_xor_cancel x k))
    ∙ bit_xor_cancel x v

-- The loop undoes itself.
mask_twice : (key iv xs : ByteVector) (i : ℕ) → mask key iv i (mask key iv i xs) ≡ xs
unfolding mask
mask_twice key iv [] i = refl
mask_twice key iv (x ∷ xs) i = rw (mask_back, mask_twice key iv xs (suc i))

length-mask : (key iv xs : ByteVector) (i : ℕ) → length (mask key iv i xs) ≡ length xs
unfolding mask
length-mask key iv [] i = refl
length-mask key iv (x ∷ xs) i = ap suc (length-mask key iv xs (suc i))

not_empty : (xs : ByteVector) → xs ≢ [] → is_empty xs ≡ false
not_empty [] h = absurd (h refl)
not_empty (x ∷ xs) h = refl

all_tag-tag : all_tag tag ≡ true
unfolding all_tag
all_tag-tag = refl

-- With a valid key that is stored and a nonempty IV, `Decrypt` accepts every body in front of the
-- tag, whatever the associated data, and gives the masked body.
pub decrypt-any_body :
    (ks : KeyStore) (key : CryptoKey) (rec : KeyRecord) (iv body aad old : ByteVector)
    → key.valid ≡ true
    → lookup key.id ks.key_store ≡ some rec
    → iv ≢ []
    → decrypt ks key iv (body ++ tag) aad old ≡ (success, mask rec.material iv 0 body)
unfolding decrypt
decrypt-any_body ks key rec iv body aad old valid stored nonempty =
    let size : length (body ++ tag) - 16 ≡ length body = omega (arith, length-append body tag) in
    rw
      (
        valid,
        not_empty iv nonempty,
        size,
        drop-length-append body tag,
        take-length-append body tag,
        all_tag-tag,
        stored,
      )
      (ground (arith, length-append body tag))

encrypt_valid :
    (ks : KeyStore) (key : CryptoKey) (rec : KeyRecord) (iv plaintext aad old : ByteVector)
    → key.valid ≡ true
    → lookup key.id ks.key_store ≡ some rec
    → iv ≢ []
    → plaintext ≢ []
    → encrypt ks key iv plaintext aad old ≡ (success, mask rec.material iv 0 plaintext ++ tag)
unfolding encrypt
encrypt_valid ks key rec iv plaintext aad old valid stored nonempty some_text =
    rw (valid, not_empty iv nonempty, not_empty plaintext some_text, stored)

-- What `Encrypt` makes with a valid key that is stored, from a nonempty IV and plaintext, `Decrypt`
-- turns back into the plaintext, with any associated data; the ciphertext is 16 bytes longer.
pub decrypt-encrypt :
    (ks : KeyStore) (key : CryptoKey) (rec : KeyRecord)
    (iv plaintext aad other_aad old_c old_p : ByteVector)
    → key.valid ≡ true
    → lookup key.id ks.key_store ≡ some rec
    → iv ≢ []
    → plaintext ≢ []
    → let (result, ciphertext) = encrypt ks key iv plaintext aad old_c in
      (result ≡ success)
      × (length ciphertext ≡ length plaintext + 16)
      × (decrypt ks key iv ciphertext other_aad old_p ≡ (success, plaintext))
decrypt-encrypt ks key rec iv plaintext aad other_aad old_c old_p valid stored nonempty some_text =
    rw (encrypt_valid ks key rec iv plaintext aad old_c valid stored nonempty some_text) (
      refl,
      omega (
        arith,
        length-append (mask rec.material iv 0 plaintext) tag,
        length-mask rec.material iv plaintext 0,
      ),
      decrypt-any_body ks key rec iv (mask rec.material iv 0 plaintext) other_aad old_p valid stored
            nonempty
          ∙ ap (λ t. (success, t)) (mask_twice rec.material iv plaintext 0),
    )
