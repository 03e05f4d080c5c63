-- ===== src/VehicleSignal/Dispatch.antt =====
-- Which datagrams are refused (src/ara/com/vehicle_signal_proxy.cpp).
use my_auto_sar_ap.Prelude.{
  ℕ, zero, suc, ◌+◌, ◌<◌, ◌≤◌, ◌≡◌, ◌≢◌, ◌↔◌, ◌%◌, inl, inr, refl, sym, ap, ◌∙◌, arith, Bool, true,
  false, none, some, List, [], ◌∷◌, ◌++◌, length, length-append, get_or, take, drop,
  take-length-append, drop-length-append, All, Below, nat_eq, nat_eq_iff, Option-cases,
}
use my_auto_sar_ap.SomeIp.{rd2, rd4}
use my_auto_sar_ap.E2e.{e2e_crc8}
use my_auto_sar_ap.E2e.Detect.{e2e_crc8-injective}
use my_auto_sar_ap.VehicleSignal.{
  VehicleSignalProxy, parse_and_dispatch, raw_payload, crc_matches, count_e2e_error, early_return,
  check_and_push,
}

-- A notification of the VehicleSignal event whose declared payload is there, by the 32-bit comparison of
-- the code: the sum wraps, so that `complete` says it of declared lengths below 2^32 - 8 only.
pub record IsNotification (buf : List ℕ) : Type 0 where
  pub long_enough : 36 ≤ length buf
  pub service : rd2 buf 0 ≡ 0x1001
  pub method : rd2 buf 2 ≡ 0x8001
  pub kind : get_or buf 14 0 ≡ 0x02
  pub declared : 28 ≤ rd4 buf 4
  pub complete : (8 + rd4 buf 4) % 4294967296 ≤ length buf

early_return_iff : (buf : List ℕ) → (early_return buf ≡ none) ↔ IsNotification buf
unfolding early_return
early_return_iff buf = (
  (λ h. record {
    long_enough = ground arith;
    service = ground arith;
    method = ground arith;
    kind = ground arith;
    declared = ground arith;
    complete = ground arith;
  }),
  (λ n. ground arith),
)

-- A datagram that is no such notification leaves the proxy as it was.
pub dispatch_other :
    (p : VehicleSignalProxy) (buf : List ℕ)
    → ¬ IsNotification buf
    → (accepted : Bool) × (parse_and_dispatch p buf ≡ some (p, accepted))
unfolding parse_and_dispatch
dispatch_other p buf n = elim (Option-cases (early_return buf)) [
  | inl e ↦ absurd (n ((early_return_iff buf).0 e))
  | inr (accepted, e) ↦ (accepted, rw (e, parse_and_dispatch))
]

take-append_at {ℓ} : {A : Type ℓ} (n : ℕ) (xs ys : List A) → length xs ≡ n → take n (xs ++ ys) ≡ xs
take-append_at n xs ys h = rw (← h) (take-length-append xs ys)

drop-append_at {ℓ} : {A : Type ℓ} (n : ℕ) (xs ys : List A) → length xs ≡ n → drop n (xs ++ ys) ≡ ys
drop-append_at n xs ys h = rw (← h) (drop-length-append xs ys)

get_or-append_left {ℓ} :
    {A : Type ℓ} (xs ys : List A) (i : ℕ) (d : A)
    → i < length xs
    → get_or (xs ++ ys) i d ≡ get_or xs i d
get_or-append_left [] ys i d h = elim h [ ]
get_or-append_left (x ∷ xs) ys zero d h = refl
get_or-append_left (x ∷ xs) ys (suc i) d h = get_or-append_left xs ys i d (omega arith)

get_or-append_at {ℓ} :
    {A : Type ℓ} (n : ℕ) (xs : List A) (y : A) (ys : List A) (d : A)
    → length xs ≡ n
    → get_or (xs ++ y ∷ ys) n d ≡ y
get_or-append_at n [] y ys d h = rw (← h)
get_or-append_at zero (x ∷ xs) y ys d h = absurd (omega arith)
get_or-append_at (suc n) (x ∷ xs) y ys d h = get_or-append_at n xs y ys d (omega arith)

take_two {ℓ} :
    {A : Type ℓ} (n : ℕ) (xs : List A) (y z : A) (ys : List A)
    → length xs ≡ n
    → take (suc (suc n)) (xs ++ y ∷ z ∷ ys) ≡ xs ++ y ∷ z ∷ []
take_two n [] y z ys h = rw (← h)
take_two zero (x ∷ xs) y z ys h = absurd (omega arith)
take_two (suc n) (x ∷ xs) y z ys h = ap (◌∷◌ x) (take_two n xs y z ys (omega arith))

-- A datagram: the header, the 18 bytes that the checksum covers, the checksum, the counter, and
-- whatever follows.
abbrev pub frame : List ℕ → List ℕ → ℕ → ℕ → List ℕ → List ℕ
frame header covered crc counter rest = header ++ (covered ++ crc ∷ counter ∷ rest)

raw-frame :
    (header covered rest : List ℕ) (crc counter : ℕ)
    → length header ≡ 16
    → length covered ≡ 18
    → raw_payload (frame header covered crc counter rest) ≡ covered ++ crc ∷ counter ∷ []
raw-frame header covered rest crc counter h k =
    rw (drop-append_at 16 header (covered ++ crc ∷ counter ∷ rest) h)
      (take_two 18 covered crc counter rest k)

crc-frame :
    (covered : List ℕ) (crc counter : ℕ)
    → length covered ≡ 18
    → crc_matches (covered ++ crc ∷ counter ∷ []) ≡ nat_eq crc (e2e_crc8 covered)
unfolding crc_matches
crc-frame covered crc counter k = rw (
  get_or-append_at 18 covered crc (counter ∷ []) 0 k,
  take-append_at 18 covered (crc ∷ counter ∷ []) k,
)

-- The header decides, with the size of the datagram.
frame-IsNotification :
    (header covered other rest : List ℕ) (crc counter : ℕ)
    → length header ≡ 16
    → length covered ≡ length other
    → IsNotification (frame header covered crc counter rest)
    → IsNotification (frame header other crc counter rest)
frame-IsNotification
      (h0 ∷ h1 ∷ h2 ∷ h3 ∷ h4 ∷ h5 ∷ h6 ∷ h7 ∷ h8 ∷ h9 ∷ h10 ∷ h11 ∷ h12 ∷ h13 ∷ h14 ∷ h15 ∷ more)
      covered other rest crc counter h same n =
    let sizes : length (more ++ (covered ++ crc ∷ counter ∷ rest))
        ≡ length (more ++ (other ++ crc ∷ counter ∷ rest)) =
      omega (
        arith,
        length-append more (covered ++ crc ∷ counter ∷ rest),
        length-append more (other ++ crc ∷ counter ∷ rest),
        length-append covered (crc ∷ counter ∷ rest),
        length-append other (crc ∷ counter ∷ rest),
      ) in
    record {
      long_enough = omega (arith, sizes, n.long_enough);
      service = n.service;
      method = n.method;
      kind = n.kind;
      declared = n.declared;
      complete = omega (arith, sizes, n.complete);
    }
frame-IsNotification _ covered other rest crc counter h same n = absurd (omega arith)

-- If a notification with the right checksum has one of the 18 bytes that the checksum covers changed
-- in transit, it is refused and counted as an E2E error, and no sample is pushed.
pub dispatch_corrupted :
    (p : VehicleSignalProxy) (header before after rest : List ℕ) (a b crc counter : ℕ)
    → length header ≡ 16
    → length (before ++ a ∷ after) ≡ 18
    → a < 256
    → b < 256
    → All (Below 256) before
    → All (Below 256) after
    → a ≢ b
    → IsNotification (frame header (before ++ a ∷ after) crc counter rest)
    → crc_matches (raw_payload (frame header (before ++ a ∷ after) crc counter rest)) ≡ true
    → parse_and_dispatch p (frame header (before ++ b ∷ after) crc counter rest)
      ≡ some (count_e2e_error p, false)
unfolding parse_and_dispatch check_and_push
dispatch_corrupted p header before after rest a b crc counter h k ha hb hs ht ne n sent =
    let sizes : length (before ++ a ∷ after) ≡ length (before ++ b ∷ after) =
      omega (arith, length-append before (a ∷ after), length-append before (b ∷ after)) in
    let k' : length (before ++ b ∷ after) ≡ 18 = omega (arith, sizes) in
    let arrived =
      frame-IsNotification header (before ++ a ∷ after) (before ++ b ∷ after) rest crc counter h
        sizes n in
    let passed =
      (early_return_iff (frame header (before ++ b ∷ after) crc counter rest)).1 arrived in
    let right : crc ≡ e2e_crc8 (before ++ a ∷ after) = (nat_eq_iff _ _).0 (
      sym (crc-frame (before ++ a ∷ after) crc counter k)
      ∙ rw (raw-frame header (before ++ a ∷ after) rest crc counter h k) at sent) in
    let wrong : crc ≢ e2e_crc8 (before ++ b ∷ after) =
      (λ e. ne (e2e_crc8-injective a b before after ha hb hs ht (sym right ∙ e))) in
    let refused : crc_matches (raw_payload (frame header (before ++ b ∷ after) crc counter rest))
        ≡ false =
      rw (raw-frame header (before ++ b ∷ after) rest crc counter h k')
        (rw (crc-frame (before ++ b ∷ after) crc counter k') (ground arith)) in
    rw (passed, parse_and_dispatch, refused)
