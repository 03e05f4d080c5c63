-- ===== src/SomeIp/Overrun.antt =====
-- When `Deserialize` reads past its buffer (src/ara/com/someip_binding.cpp).
use my_auto_sar_ap.Prelude.{ℕ, ◌<◌, ◌≤◌, ◌≡◌, ◌↔◌, arith, List, length}
use my_auto_sar_ap.SomeIp.{SomeIpMessage, overrun, deserialize, rd4}

-- A buffer of at least 16 and fewer than 2^32 bytes, whose declared length has 32 bits, is read past
-- its end exactly when that length is 2^32 - 8 or more: the bounds check wraps there.
pub deserialize-overrun_iff :
    (bytes : List ℕ) (old : SomeIpMessage)
    → 16 ≤ length bytes
    → length bytes < 4294967296
    → rd4 bytes 4 < 4294967296
    → (deserialize bytes old ≡ overrun) ↔ (4294967288 ≤ rd4 bytes 4)
unfolding deserialize
deserialize-overrun_iff bytes old h k r = ground arith
