-- ===== src/Tsync/Range.antt =====
-- The 64-bit signed sums and products of src/ara/tsync/tsync.cpp, with `none` where one overflows, which
-- C++ leaves undefined.
use my_auto_sar_ap.Prelude.{
  ℕ, ◌<◌, ◌≡◌, refl, sym, subst, ◌∙◌, ap, arith, Bool, ◌&&◌, Option, none, some, List, [], ◌∷◌,
  length, length-set, ltb, leb, if◌then◌else◌,
}
use my_auto_sar_ap.Prelude.Int.{ℤ, pos, pos_part, neg_part, ◌+ℤ◌, ◌-ℤ◌, scale, tdiv, trem, to_u32}
use my_auto_sar_ap.Tsync.{
  TimePoint, TimeBaseState, TimeBaseId, billion, total_ns, time_base, write, get_current_time,
  apply_correction,
}
use my_auto_sar_ap.Tsync.Corrections.{base_ns, apply_correction_lem}

abbrev pub fits : ℤ → Bool
fits z = ltb (pos_part z) 9223372036854775808 && leb (neg_part z) 9223372036854775808

unfoldable pub checked : ℤ → Option ℤ
checked z = if fits z then some z else none

infixl 5 ◌>>=◌
abbrev pub ◌>>=◌ {ℓ κ} : {A : Type ℓ} {B : Type κ} → Option A → (A → Option B) → Option B
none >>= f = none
some a >>= f = f a

-- `seconds * 1000000000LL + nanoseconds`.
unfoldable pub checked_ns : ℤ → ℕ → Option ℤ
unfolding checked
checked_ns seconds nanoseconds = do
  s ← checked (scale seconds billion)
  checked (s +ℤ pos nanoseconds)

unfoldable pub checked_time_diff : TimePoint → TimePoint → Option ℤ
unfolding checked checked_ns
checked_time_diff t1 t2 = do
  ns1 ← checked_ns t1.seconds t1.nanoseconds
  ns2 ← checked_ns t2.seconds t2.nanoseconds
  checked (ns2 -ℤ ns1)

unfoldable pub checked_correction :
    List TimeBaseState → TimeBaseId → ℤ → Option (List TimeBaseState)
unfolding checked checked_ns
checked_correction bases id correction = do
  let tb = time_base bases id
  ns ← checked_ns tb.epoch_seconds tb.nano_seconds
  cur ← checked (ns +ℤ correction)
  some (
      write bases id
        (record tb { epoch_seconds = tdiv cur billion; nano_seconds = to_u32 (trem cur billion) }))

-- Corrections one after the other, the first of the list first.
unfoldable pub checked_corrections :
    List TimeBaseState → TimeBaseId → List ℤ → Option (List TimeBaseState)
checked_corrections bases id [] = some bases
checked_corrections bases id (c ∷ cs) = do
  after ← checked_correction bases id c
  checked_corrections after id cs

-- From the epoch to the last nanosecond that 64 bits count, in the year 2262.
abbrev pub InEra : ℤ → Type 0
InEra total = (neg_part total ≡ 0) × (pos_part total < 9223372036854775808)

-- A time and those that corrections take it to, one after the other.
abbrev pub StaysInEra : ℤ → List ℤ → Type 0
StaysInEra total [] = InEra total
StaysInEra total (c ∷ cs) = InEra total × StaysInEra (total +ℤ c) cs

abbrev pub sum_from : ℤ → List ℤ → ℤ
sum_from total [] = total
sum_from total (c ∷ cs) = sum_from (total +ℤ c) cs

checked_ns-InEra :
    (seconds : ℤ) (nanoseconds : ℕ)
    → InEra (total_ns seconds nanoseconds)
    → nanoseconds < 1000000000
    → checked_ns seconds nanoseconds ≡ some (total_ns seconds nanoseconds)
unfolding checked_ns checked scale ◌+ℤ◌
checked_ns-InEra seconds nanoseconds era small = ground arith

checked_diff-InEra : (a b : ℤ) → InEra a → InEra b → checked (b -ℤ a) ≡ some (b -ℤ a)
unfolding checked ◌-ℤ◌
checked_diff-InEra a b ha hb = ground arith

point_total :
    (now : ℤ)
    → InEra now
    → (total_ns (tdiv now billion) (to_u32 (trem now billion)) ≡ now)
      × (to_u32 (trem now billion) < 1000000000)
unfolding scale tdiv trem to_u32 ◌+ℤ◌
point_total now era = ground arith

reading_ns :
    (now : ℤ) → InEra now → checked_ns (tdiv now billion) (to_u32 (trem now billion)) ≡ some now
reading_ns now era =
    let (total, small) = point_total now era in
    checked_ns-InEra _ _ (subst InEra (sym total) era) small ∙ ap some total

-- The difference of two times that were read off the clock, from the epoch to the last nanosecond that
-- 64 bits count, is computed without overflow, and is the time between the two readings.
pub time_diff-readings :
    (bases : List TimeBaseState) (id j : TimeBaseId) (now later : ℤ)
    → InEra now
    → InEra later
    → checked_time_diff (get_current_time bases id now) (get_current_time bases j later)
      ≡ some (later -ℤ now)
unfolding checked_time_diff get_current_time
time_diff-readings bases id j now later era era' =
    rw (reading_ns now era, reading_ns later era') (checked_diff-InEra now later era era')

checked-InEra : (z : ℤ) → InEra z → checked z ≡ some z
unfolding checked
checked-InEra z era = ground arith

StaysInEra-now : (total : ℤ) (cs : List ℤ) → StaysInEra total cs → InEra total
StaysInEra-now total [] h = h
StaysInEra-now total (c ∷ cs) h = h.0

apply-length :
    (bases : List TimeBaseState) (id : TimeBaseId) (c : ℤ)
    → length (apply_correction bases id c) ≡ length bases
unfolding apply_correction
apply-length bases id c = length-set bases _ _

correction-InEra :
    (bases : List TimeBaseState) (id : TimeBaseId) (c : ℤ)
    → InEra (base_ns bases id)
    → (time_base bases id).nano_seconds < 1000000000
    → InEra (base_ns bases id +ℤ c)
    → checked_correction bases id c ≡ some (apply_correction bases id c)
unfolding checked_correction apply_correction
correction-InEra bases id c era small era' =
    let tb = time_base bases id in
    let ns = checked_ns-InEra tb.epoch_seconds tb.nano_seconds era small in
    rw (ns, checked-InEra (base_ns bases id +ℤ c) era') refl

-- Corrections that keep a time base between the epoch and the last nanosecond that 64 bits count are
-- all applied without overflow: the time base moves by exactly their sum, and its nanoseconds stay in
-- their range.
pub corrections-sum :
    (bases : List TimeBaseState) (id : TimeBaseId) (cs : List ℤ)
    → length bases ≡ 4
    → (time_base bases id).nano_seconds < 1000000000
    → StaysInEra (base_ns bases id) cs
    → (after : List TimeBaseState) × (checked_corrections bases id cs ≡ some after)
      × (base_ns after id ≡ sum_from (base_ns bases id) cs)
      × ((time_base after id).nano_seconds < 1000000000)
unfolding checked_corrections
corrections-sum bases id [] four small stays = (bases, refl, refl, small)
corrections-sum bases id (c ∷ cs) four small stays =
    let next = apply_correction bases id c in
    let era' = StaysInEra-now _ cs stays.1 in
    let moved = apply_correction_lem bases id id c four era'.0 in
    let rest =
      corrections-sum next id cs (apply-length bases id c ∙ four) moved.1
        (subst (λ total. StaysInEra total cs) (sym moved.0) stays.1) in
    rw (correction-InEra bases id c stays.0 small era', sym moved.0) rest
