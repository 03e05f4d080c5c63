-- ===== src/E2e/Detect.antt =====
-- Both checksums tell apart any two buffers that differ in one byte.
use my_auto_sar_ap.Prelude.{
  ℕ, zero, suc, ◌+◌, ◌*◌, ◌/◌, ◌%◌, ◌<◌, ◌≡◌, ◌≢◌, refl, sym, ap, ◌∙◌, arith, bit_xor, true, List,
  [], ◌∷◌, ◌++◌, nat_eq, nat_eq_iff, if◌then◌else◌, All, Below,
}
use my_auto_sar_ap.Prelude.Bits.{
  holds_up_to, holds_up_to-lt, bit_xor_injective, bit_xor-lt, bit_xor_comm,
}
use my_auto_sar_ap.E2e.{shift8, shift16, times, crc8_loop, e2e_crc8, crc16_loop, compute_crc16}

-- What undoes a round: the polynomial is odd, so the lowest bit tells whether it was added.
unshift8 : ℕ → ℕ
unshift8 c = if nat_eq (c % 2) 1 then bit_xor c 0x1d / 2 + 128 else c / 2

shift8-lt : (c : ℕ) → shift8 c < 256
unfolding shift8
shift8-lt c = ground arith

-- Rounds that keep the width and can be undone, taken n times.
module _ (w : ℕ) (f g : ℕ → ℕ) (keeps : (c : ℕ) → f c < w)
    (undo : (c : ℕ) → c < w → g (f c) ≡ c) where
  times-lt : (n c : ℕ) → c < w → times n f c < w
  unfolding times
  times-lt zero c h = h
  times-lt (suc n) c h = times-lt n (f c) (keeps c)

  times_injective : (n a b : ℕ) → a < w → b < w → times n f a ≡ times n f b → a ≡ b
  unfolding times
  times_injective zero a b h k e = e
  times_injective (suc n) a b h k e =
      sym (undo a h) ∙ ap g (times_injective n (f a) (f b) (keeps a) (keeps b) e) ∙ undo b k

unshift16 : ℕ → ℕ
unshift16 c = if nat_eq (c % 2) 1 then bit_xor c 0x1021 / 2 + 32768 else c / 2

table8 : holds_up_to (λ x. nat_eq (unshift8 (shift8 x)) x) 256 ≡ true
unfolding holds_up_to unshift8 shift8
table8 = refl

table16 : holds_up_to (λ x. nat_eq (unshift16 (shift16 x)) x) 65536 ≡ true
unfolding holds_up_to unshift16 shift16
table16 = refl

unshift8-shift8 : (c : ℕ) → c < 256 → unshift8 (shift8 c) ≡ c
unshift8-shift8 c h = (nat_eq_iff _ c).0 (holds_up_to-lt _ c 256 h table8)

unshift16-shift16 : (c : ℕ) → c < 65536 → unshift16 (shift16 c) ≡ c
unshift16-shift16 c h = (nat_eq_iff _ c).0 (holds_up_to-lt _ c 65536 h table16)

shift16-lt : (c : ℕ) → shift16 c < 65536
unfolding shift16
shift16-lt c = ground arith

round8 : ℕ → ℕ → ℕ
round8 crc b = times 8 shift8 (bit_xor crc b)

round16 : ℕ → ℕ → ℕ
round16 crc b = times 8 shift16 (bit_xor crc (b * 256))

round8-lt : (crc b : ℕ) → crc < 256 → b < 256 → round8 crc b < 256
unfolding round8
round8-lt crc b h k =
    times-lt 256 shift8 unshift8 shift8-lt unshift8-shift8 8 _ (bit_xor-lt 8 crc b h k)

round16-lt : (crc b : ℕ) → crc < 65536 → b < 256 → round16 crc b < 65536
unfolding round16
round16-lt crc b h k =
    times-lt 65536 shift16 unshift16 shift16-lt unshift16-shift16 8 _
      (bit_xor-lt 16 crc (b * 256) h (omega arith))

-- A round is injective in the checksum so far, and in the byte.
round8_injective :
    (c d a b : ℕ)
    → c < 256
    → d < 256
    → a < 256
    → b < 256
    → round8 c a ≡ round8 d b
    → bit_xor c a ≡ bit_xor d b
unfolding round8
round8_injective c d a b hc hd ha hb e =
    times_injective 256 shift8 unshift8 shift8-lt unshift8-shift8 8 _ _ (bit_xor-lt 8 c a hc ha)
      (bit_xor-lt 8 d b hd hb) e

round16_injective :
    (c d a b : ℕ)
    → c < 65536
    → d < 65536
    → a < 256
    → b < 256
    → round16 c a ≡ round16 d b
    → bit_xor c (a * 256) ≡ bit_xor d (b * 256)
unfolding round16
round16_injective c d a b hc hd ha hb e =
    times_injective 65536 shift16 unshift16 shift16-lt unshift16-shift16 8 _ _
      (bit_xor-lt 16 c (a * 256) hc (omega arith)) (bit_xor-lt 16 d (b * 256) hd (omega arith)) e

loop8_injective :
    (c d : ℕ) (bytes : List ℕ)
    → c < 256
    → d < 256
    → All (Below 256) bytes
    → crc8_loop c bytes ≡ crc8_loop d bytes
    → c ≡ d
unfolding crc8_loop round8
loop8_injective c d [] hc hd h e = e
loop8_injective c d (b ∷ bytes) hc hd h e = bit_xor_injective c d b (
    round8_injective c d b b hc hd h.0 h.0 (
      loop8_injective (round8 c b) (round8 d b) bytes (round8-lt c b hc h.0) (round8-lt d b hd h.0)
        h.1 e))

loop16_injective :
    (c d : ℕ) (bytes : List ℕ)
    → c < 65536
    → d < 65536
    → All (Below 256) bytes
    → crc16_loop c bytes ≡ crc16_loop d bytes
    → c ≡ d
unfolding crc16_loop round16
loop16_injective c d [] hc hd h e = e
loop16_injective c d (b ∷ bytes) hc hd h e = bit_xor_injective c d (b * 256) (
    round16_injective c d b b hc hd h.0 h.0 (
      loop16_injective (round16 c b) (round16 d b) bytes (round16-lt c b hc h.0)
        (round16-lt d b hd h.0) h.1 e))

xor_right_injective : (c a b : ℕ) → bit_xor c a ≡ bit_xor c b → a ≡ b
xor_right_injective c a b e = bit_xor_injective a b c (bit_xor_comm a c ∙ e ∙ bit_xor_comm c b)

differ8 :
    (c a b : ℕ) (before after : List ℕ)
    → c < 256
    → a < 256
    → b < 256
    → All (Below 256) before
    → All (Below 256) after
    → crc8_loop c (before ++ a ∷ after) ≡ crc8_loop c (before ++ b ∷ after)
    → a ≡ b
unfolding crc8_loop round8
differ8 c a b [] after hc ha hb hs ht e = xor_right_injective c a b (
    round8_injective c c a b hc hc ha hb (
      loop8_injective (round8 c a) (round8 c b) after (round8-lt c a hc ha) (round8-lt c b hc hb) ht
        e))
differ8 c a b (x ∷ before) after hc ha hb hs ht e =
    differ8 (round8 c x) a b before after (round8-lt c x hc hs.0) ha hb hs.1 ht e

differ16 :
    (c a b : ℕ) (before after : List ℕ)
    → c < 65536
    → a < 256
    → b < 256
    → All (Below 256) before
    → All (Below 256) after
    → crc16_loop c (before ++ a ∷ after) ≡ crc16_loop c (before ++ b ∷ after)
    → a ≡ b
unfolding crc16_loop round16
differ16 c a b [] after hc ha hb hs ht e = omega (
  arith,
  xor_right_injective c (a * 256) (b * 256) (
      round16_injective c c a b hc hc ha hb (
        loop16_injective (round16 c a) (round16 c b) after (round16-lt c a hc ha)
          (round16-lt c b hc hb) ht e)),
)
differ16 c a b (x ∷ before) after hc ha hb hs ht e =
    differ16 (round16 c x) a b before after (round16-lt c x hc hs.0) ha hb hs.1 ht e

pub e2e_crc8-injective :
    (a b : ℕ) (before after : List ℕ)
    → a < 256
    → b < 256
    → All (Below 256) before
    → All (Below 256) after
    → e2e_crc8 (before ++ a ∷ after) ≡ e2e_crc8 (before ++ b ∷ after)
    → a ≡ b
unfolding e2e_crc8
e2e_crc8-injective a b before after ha hb hs ht e =
    differ8 0xff a b before after (omega arith) ha hb hs ht (bit_xor_injective _ _ 0xff e)

compute_crc16-injective :
    (a b : ℕ) (before after : List ℕ)
    → a < 256
    → b < 256
    → All (Below 256) before
    → All (Below 256) after
    → compute_crc16 (before ++ a ∷ after) ≡ compute_crc16 (before ++ b ∷ after)
    → a ≡ b
unfolding compute_crc16
compute_crc16-injective a b before after ha hb hs ht e =
    differ16 0xffff a b before after (omega arith) ha hb hs ht e

-- Two buffers of bytes that differ in exactly one byte have different `e2e_crc8` checksums.
pub e2e_crc8-differ :
    (a b : ℕ) (before after : List ℕ)
    → a < 256
    → b < 256
    → All (Below 256) before
    → All (Below 256) after
    → a ≢ b
    → e2e_crc8 (before ++ a ∷ after) ≢ e2e_crc8 (before ++ b ∷ after)
e2e_crc8-differ a b before after ha hb hs ht ne e =
    ne (e2e_crc8-injective a b before after ha hb hs ht e)

-- Two buffers of bytes that differ in exactly one byte have different `ComputeCRC16` checksums.
pub compute_crc16-differ :
    (a b : ℕ) (before after : List ℕ)
    → a < 256
    → b < 256
    → All (Below 256) before
    → All (Below 256) after
    → a ≢ b
    → compute_crc16 (before ++ a ∷ after) ≢ compute_crc16 (before ++ b ∷ after)
compute_crc16-differ a b before after ha hb hs ht ne e =
    ne (compute_crc16-injective a b before after ha hb hs ht e)
