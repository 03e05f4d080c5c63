-- ===== src/Crypto/Mac.antt =====
-- Message authentication codes (src/ara/crypto/crypto.cpp).
use my_auto_sar_ap.Prelude.{◌≡◌, ◌↔◌, refl, arith, true, [], ◌∷◌, nat_eq_iff}
use my_auto_sar_ap.Crypto.{
  ByteVector, KeyStore, CryptoKey, CryptoResult, success, bytes_eq, compare_mac, generate, verify,
}

bytes_eq_iff : (a b : ByteVector) → (bytes_eq a b ≡ true) ↔ (a ≡ b)
bytes_eq_iff [] [] = ((λ h. refl), (λ h. refl))
bytes_eq_iff [] (b ∷ bs) = ((λ h. ground arith), (λ h. ground arith))
bytes_eq_iff (a ∷ as') [] = ((λ h. ground arith), (λ h. ground arith))
bytes_eq_iff (a ∷ as') (b ∷ bs) = let rest = bytes_eq_iff as' bs in ground (arith, nat_eq_iff a b)

compare_mac_iff :
    (made : CryptoResult × ByteVector) (mac : ByteVector)
    → (compare_mac made mac ≡ success) ↔ (made ≡ (success, mac))
compare_mac_iff (success, computed) mac = let same = bytes_eq_iff computed mac in ground arith
compare_mac_iff (other, computed) mac = ground arith

-- `Verify` succeeds for exactly the bytes that `Generate` makes with the same key and data, where
-- that succeeds.
pub verify_iff :
    (ks : KeyStore) (key : CryptoKey) (bytes mac : ByteVector)
    → (verify ks key bytes mac ≡ success) ↔ (generate ks key bytes [] ≡ (success, mac))
unfolding verify
verify_iff ks key bytes mac = compare_mac_iff (generate ks key bytes []) mac
