-- ===== src/Log/Escape.antt =====
-- The escaped message can be read back from the quoted text (src/ara/log/logger.cpp).
use my_auto_sar_ap.Prelude.{
  ℕ, ◌≡◌, ◌≢◌, refl, arith, Option, none, some, List, [], ◌∷◌, ◌++◌, nat_eq, if◌then◌else◌, All,
}
use my_auto_sar_ap.Log.{quote, backslash, escape, c_str}

abbrev with_head : ℕ → Option (List ℕ × List ℕ) → Option (List ℕ × List ℕ)
with_head c none = none
with_head c (some (text, rest)) = some (c ∷ text, rest)

-- A reader of a JSON string from behind its opening quote: the text, with `\"` and `\\` taken as one
-- character each, and what follows the closing quote. Another character behind a backslash is
-- refused.
unfoldable mutual
  pub read_string : List ℕ → Option (List ℕ × List ℕ)
  read_string [] = none
  read_string (c ∷ text) =
      let rest = read_string text in
      let escaped = read_escaped text in
      if nat_eq c quote
      then some ([], text)
      else if nat_eq c backslash
      then escaped
      else with_head c rest

  pub read_escaped : List ℕ → Option (List ℕ × List ℕ)
  read_escaped [] = none
  read_escaped (c ∷ text) =
      let rest = read_string text in
      if nat_eq c quote
      then with_head c rest
      else if nat_eq c backslash
      then with_head c rest
      else none

c_str-escape : (msg : List ℕ) → All (λ c. c ≢ 0) msg → c_str (escape msg) ≡ escape msg
unfolding escape c_str
c_str-escape [] h = refl
c_str-escape (c ∷ msg) h = ground (arith, c_str-escape msg h.1)

read-escape : (msg rest : List ℕ) → read_string (escape msg ++ quote ∷ rest) ≡ some (msg, rest)
unfolding escape read_string read_escaped
read-escape [] rest = refl
read-escape (c ∷ msg) rest = ground (arith, read-escape msg rest)

-- A message without NUL bytes that is printed between quotes is read back unchanged up to the closing
-- quote, with what follows it left over, whatever quotes and backslashes it holds.
pub read_string-escape :
    (msg rest : List ℕ)
    → All (λ c. c ≢ 0) msg
    → read_string (c_str (escape msg) ++ quote ∷ rest) ≡ some (msg, rest)
read_string-escape msg rest h = rw (c_str-escape msg h) (read-escape msg rest)
