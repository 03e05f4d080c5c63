-- ===== src/Log/Registry.antt =====
-- One logger for each context (src/ara/log/logger.cpp).
use my_auto_sar_ap.Prelude.{
  ℕ, zero, suc, ◌≡◌, refl, arith, String, some, List, [], ◌∷◌, length, get_elem?,
  get_elem?-append_end, inl, inr, Option-cases, Bool-cases, String_eq, ◌==◌, ◌<◌,
}
use my_auto_sar_ap.Prelude.Map.{lookup, lookup-insert, lookup-insert_self}
use my_auto_sar_ap.Log.{Logging, Logger, LogLevel, create_logger}

-- Every registered address is that of a logger of the context.
abbrev pub IsRegistry : Logging → Type 0
IsRegistry log =
    (ctx : String) (p : ℕ)
    → lookup ctx log.logger_registry ≡ some p
    → (logger : Logger) × (get_elem? log.loggers p ≡ some logger) × (logger.ctx_id ≡ ctx)

-- The first call for a context decides its description and level: a later call, with any others, gives
-- the same logger and changes nothing.
pub create_logger_twice :
    (log : Logging) (ctx desc other_desc : String) (level other_level : LogLevel)
    → let (after, p) = create_logger log ctx desc level in
      create_logger after ctx other_desc other_level ≡ (after, p)
unfolding create_logger
create_logger_twice log ctx desc other_desc level other_level =
    elim (Option-cases (lookup ctx log.logger_registry)) [
      | inl e ↦ ground (arith, lookup-insert_self ctx (length log.loggers) log.logger_registry)
      | inr (p, e) ↦ ground arith
    ]

get_elem?-lt {ℓ} :
    {A : Type ℓ} (xs : List A) (i : ℕ) (a : A) → get_elem? xs i ≡ some a → i < length xs
get_elem?-lt [] i a h = ground arith
get_elem?-lt (x ∷ xs) zero a h = omega arith
get_elem?-lt (x ∷ xs) (suc i) a h = omega (arith, get_elem?-lt xs i a h)

-- The logger that is returned is one of the context that was asked for, and the registry stays sound.
pub create_logger-IsRegistry :
    (log : Logging) (ctx desc : String) (level : LogLevel)
    → IsRegistry log
    → let (after, p) = create_logger log ctx desc level in
      IsRegistry after
      × ((logger : Logger) × (get_elem? after.loggers p ≡ some logger) × (logger.ctx_id ≡ ctx))
unfolding create_logger
create_logger-IsRegistry log ctx desc level reg =
    let fresh : Logger = record { ctx_id = ctx; ctx_desc = desc; level = level } in
    elim (Option-cases (lookup ctx log.logger_registry)) [
      | inr (p, e) ↦
          let (logger, found, right) = reg ctx p e in
          (
            (λ c q h. let (l, f, r) = reg c q (ground arith) in (l, ground arith, r)),
            (logger, ground arith, right),
          )
      | inl e ↦
          let n = length log.loggers in
          (
            (λ c q h. elim (Bool-cases (ctx == c)) [
              | inl same ↦ (
                fresh,
                ground (
                  arith,
                  lookup-insert ctx c n log.logger_registry,
                  get_elem?-append_end log.loggers fresh q,
                ),
                (String_eq.same_iff ctx c).0 same,
              )
              | inr other ↦
                  let (l, f, r) =
                    reg c q (ground (arith, lookup-insert ctx c n log.logger_registry)) in
                  (
                    l,
                    ground (
                      arith,
                      get_elem?-append_end log.loggers fresh q,
                      get_elem?-lt log.loggers q l f,
                    ),
                    r,
                  )
            ]),
            (fresh, ground (arith, get_elem?-append_end log.loggers fresh n), refl),
          )
    ]
