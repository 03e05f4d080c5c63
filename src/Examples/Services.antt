-- ===== src/Examples/Services.antt =====
-- Concrete runs of the log and the crypto provider (src/ara/log, crypto).
use my_auto_sar_ap.Prelude.{◌≡◌, length, ℕ_eq, refl, arith, some, [], ◌∷◌, ◌++◌, String_eq}
use my_auto_sar_ap.Prelude.Map.{lookup}
use my_auto_sar_ap.Crypto.{
  KeyStore, KeyRecord, CryptoKey, make_key, aes128_cbc, volatile, success, encrypt, decrypt,
}
use my_auto_sar_ap.Crypto.Cipher.{decrypt-encrypt}
use my_auto_sar_ap.Log.{escape, c_str, quote}
use my_auto_sar_ap.Log.Escape.{read_string, read_string-escape}

read_string-escape_example :
    read_string (c_str (escape (65 ∷ quote ∷ 92 ∷ [])) ++ quote ∷ 44 ∷ [])
    ≡ some (65 ∷ quote ∷ 92 ∷ [], 44 ∷ [])
read_string-escape_example = read_string-escape (65 ∷ quote ∷ 92 ∷ []) (44 ∷ []) (ground arith)

abbrev stored_key : KeyRecord
stored_key = record {
  id = 1;
  alg_id = aes128_cbc;
  usage = 1;
  slot = volatile;
  material = 9 ∷ 200 ∷ 17 ∷ [];
}

abbrev one_key : KeyStore
one_key = record { key_store = (1, stored_key) ∷ []; next_key_id = 2 }

abbrev first_key : CryptoKey
first_key = make_key 1 aes128_cbc 1 volatile

decrypt-encrypt_example :
    let (result, ciphertext) = encrypt one_key first_key (3 ∷ []) (65 ∷ 66 ∷ []) [] [] in
    (result ≡ success)
    × (length ciphertext ≡ 18)
    × (decrypt one_key first_key (3 ∷ []) ciphertext (1 ∷ []) [] ≡ (success, 65 ∷ 66 ∷ []))
unfolding lookup
decrypt-encrypt_example =
    decrypt-encrypt one_key first_key stored_key (3 ∷ []) (65 ∷ 66 ∷ []) [] (1 ∷ []) [] [] refl refl
      (ground arith) (ground arith)
