-- ===== src/Platform/Locks.antt =====
-- Threads that take mutexes by scopes, as `std::lock_guard` does: a thread gives back first what it took
-- last. A mutex is its rank in the order of Platform.Threads. A mutex that is taken makes its next taker
-- wait, the owner itself included.
use my_auto_sar_ap.Prelude.{
  ℕ, zero, suc, ◌+◌, ◌<◌, ◌≤◌, ◌≡◌, ◌⊎◌, inl, inr, refl, arith, Bool, true, false, not, ◌&&◌, ◌||◌,
  List, [], ◌∷◌, All, length, nat_eq, nat_eq_iff, Bool-cases, dec_lt,
}

pub data LockAct : Type 0 where
  acquire : ℕ → LockAct
  release : LockAct

-- What a thread holds, the newest first, and what it has still to do.
pub record Thread : Type 0 where
  pub held : List ℕ
  pub todo : List LockAct

abbrev pub holds : ℕ → List ℕ → Bool
holds m [] = false
holds m (k ∷ ks) = nat_eq k m || holds m ks

abbrev pub is_free : ℕ → List Thread → Bool
is_free m [] = true
is_free m (t ∷ ts) = not (holds m t.held) && is_free m ts

abbrev pub drop_one : List ℕ → List ℕ
drop_one [] = []
drop_one (k ∷ ks) = ks

-- Whether the next action of a thread can be taken now.
abbrev pub may_go : List Thread → List LockAct → Bool
may_go all [] = false
may_go all (acquire m ∷ p) = is_free m all
may_go all (release ∷ p) = true

abbrev pub advance : List ℕ → List LockAct → Thread
advance held [] = record { held = held; todo = [] }
advance held (acquire m ∷ p) = record { held = m ∷ held; todo = p }
advance held (release ∷ p) = record { held = drop_one held; todo = p }

-- One thread of the list goes on.
pub data Turn (all : List Thread) : List Thread → List Thread → Type 0 where
  here :
      {ts : List Thread} (t : Thread)
      → may_go all t.todo ≡ true
      → Turn all (t ∷ ts) (advance t.held t.todo ∷ ts)
  there : {ts us : List Thread} (t : Thread) → Turn all ts us → Turn all (t ∷ ts) (t ∷ us)

-- Any schedule, with its length.
pub data Schedule (start : List Thread) : ℕ → List Thread → Type 0 where
  done : Schedule start 0 start
  next :
      {n : ℕ} {ts us : List Thread}
      → Schedule start n ts
      → Turn ts ts us
      → Schedule start (suc n) us

abbrev pub any_moves : List Thread → List Thread → Bool
any_moves all [] = false
any_moves all (t ∷ ts) = may_go all t.todo || any_moves all ts

-- The actions that are left.
abbrev pub work : List Thread → ℕ
work [] = 0
work (t ∷ ts) = length t.todo + work ts

-- Mutexes are taken in the order of their ranks, which lie below 10, and are all given back.
abbrev pub IsRanked : List ℕ → List LockAct → Type 0
IsRanked held [] = held ≡ []
IsRanked held (acquire m ∷ p) = All (λ k. k < m) held × (m < 10) × IsRanked (m ∷ held) p
IsRanked [] (release ∷ p) = true ≡ false
IsRanked (k ∷ held) (release ∷ p) = IsRanked held p

abbrev pub IsSafe : Thread → Type 0
IsSafe t = IsRanked t.held t.todo

data In (t : Thread) : List Thread → Type 0 where
  first : {ts : List Thread} → In t (t ∷ ts)
  later : {ts : List Thread} (u : Thread) → In t ts → In t (u ∷ ts)

All-In : {t : Thread} {ts : List Thread} → All IsSafe ts → In t ts → IsSafe t
All-In safe first = safe.0
All-In safe (later u at) = All-In safe.1 at

in-moves :
    {t : Thread} {ts : List Thread} (all : List Thread)
    → In t ts
    → may_go all t.todo ≡ true
    → any_moves all ts ≡ true
in-moves all first go = ground arith
in-moves all (later u at) go = ground (arith, in-moves all at go)

-- A mutex that is not free has an owner.
owner :
    (m : ℕ) (ts : List Thread)
    → is_free m ts ≡ false
    → (t : Thread) × In t ts × (holds m t.held ≡ true)
owner m [] taken = ground arith
owner m (t ∷ ts) taken = elim (Bool-cases (holds m t.held)) [
  | inl held ↦ (t, first, held)
  | inr other ↦ let (u, at, held) = owner m ts (ground arith) in (u, later t at, held)
]

holds-lt : (m k : ℕ) (held : List ℕ) → All (λ j. j < k) held → holds m held ≡ true → m < k
holds-lt m k [] below h = ground arith
holds-lt m k (j ∷ held) below h = ground (arith, holds-lt m k held below.1, nat_eq_iff j m)

abbrev wants : List LockAct → ℕ
wants [] = 10
wants (acquire m ∷ p) = m
wants (release ∷ p) = 10

-- An owner is not finished, and what it wants comes behind what it holds.
owner-wants :
    (m : ℕ) (held : List ℕ) (todo : List LockAct)
    → IsRanked held todo
    → holds m held ≡ true
    → m < 10
    → (m < wants todo) × (0 < length todo)
owner-wants m held [] safe has small = ground arith
owner-wants m held (acquire k ∷ p) safe has small = (holds-lt m k held safe.0 has, omega arith)
owner-wants m held (release ∷ p) safe has small = (small, omega arith)

-- From a thread that is not finished, the owners of what is waited for lead to a thread that can go on.
progress :
    (fuel : ℕ) (all : List Thread) (held : List ℕ) (todo : List LockAct)
    → All IsSafe all
    → In (record { held = held; todo = todo }) all
    → 0 < length todo
    → 10 ≤ wants todo + fuel
    → any_moves all all ≡ true
progress fuel all held [] safe at busy enough = ground arith
progress fuel all held (release ∷ p) safe at busy enough = in-moves all at refl
progress zero all held (acquire m ∷ p) safe at busy enough =
    absurd (omega (arith, (All-In safe at).1))
progress (suc fuel) all held (acquire m ∷ p) safe at busy enough =
    elim (Bool-cases (is_free m all)) [
      | inl free ↦ in-moves all at free
      | inr taken ↦
          let (t, there', has) = owner m all taken in
          let further = owner-wants m t.held t.todo (All-In safe there') has (All-In safe at).1 in
          progress fuel all t.held t.todo safe there' further.1 (omega (arith, further.0))
    ]

some_busy : (ts : List Thread) → 0 < work ts → (t : Thread) × In t ts × (0 < length t.todo)
some_busy [] h = ground arith
some_busy (t ∷ ts) h = elim (dec_lt 0 (length t.todo)) [
  | yes busy ↦ (t, first, busy)
  | no finished ↦ let (u, at, busy) = some_busy ts (omega arith) in (u, later t at, busy)
]

-- Threads of which each takes mutexes in the order of their ranks are never stuck.
pub safe-moves : (ts : List Thread) → All IsSafe ts → 0 < work ts → any_moves ts ts ≡ true
safe-moves ts safe h =
    let (t, at, busy) = some_busy ts h in progress 10 ts t.held t.todo safe at busy (omega arith)

advance-IsRanked :
    (held : List ℕ) (todo : List LockAct) → IsRanked held todo → IsSafe (advance held todo)
advance-IsRanked held [] h = h
advance-IsRanked held (acquire m ∷ p) h = h.2
advance-IsRanked [] (release ∷ p) h = ground arith
advance-IsRanked (k ∷ held) (release ∷ p) h = h

Turn-All : {all ts us : List Thread} → Turn all ts us → All IsSafe ts → All IsSafe us
Turn-All (here t go) safe = (advance-IsRanked t.held t.todo safe.0, safe.1)
Turn-All (there t turn) safe = (safe.0, Turn-All turn safe.1)

advance-work :
    (all : List Thread) (held : List ℕ) (todo : List LockAct)
    → may_go all todo ≡ true
    → length (advance held todo).todo + 1 ≡ length todo
advance-work all held [] go = ground arith
advance-work all held (acquire m ∷ p) go = omega arith
advance-work all held (release ∷ p) go = omega arith

Turn-work : {all ts us : List Thread} → Turn all ts us → work us + 1 ≡ work ts
Turn-work {all} (here t go) = omega (arith, advance-work all t.held t.todo go)
Turn-work (there t turn) = omega (arith, Turn-work turn)

Schedule-All :
    {start ts : List Thread} {n : ℕ} → All IsSafe start → Schedule start n ts → All IsSafe ts
Schedule-All safe done = safe
Schedule-All safe (next run turn) = Turn-All turn (Schedule-All safe run)

Schedule-work : {start ts : List Thread} {n : ℕ} → Schedule start n ts → n + work ts ≡ work start
Schedule-work done = omega arith
Schedule-work (next run turn) = omega (arith, Schedule-work run, Turn-work turn)

-- Any schedule of threads that take mutexes in the order of their ranks ends after as many steps as the
-- threads have actions, and until then some thread can go on.
pub Schedule-ends :
    {start ts : List Thread} (n : ℕ)
    → All IsSafe start
    → Schedule start n ts
    → (n + work ts ≡ work start) × ((work ts ≡ 0) ⊎ (any_moves ts ts ≡ true))
Schedule-ends {ts} n safe run = (
  Schedule-work run,
  elim (dec_lt 0 (work ts)) [
    | yes left ↦ inr (safe-moves ts (Schedule-All safe run) left)
    | no ended ↦ inl (omega arith)
  ],
)
