-- ===== src/Log.antt =====
-- ara::log: include/ara/log/logger.h and src/ara/log/logger.cpp. A text that is only printed is the
-- list of its bytes. The loggers that `new` makes stand in `loggers`, and a pointer is an index into
-- it; the lines printed are `output`, newest first.
pub mod Escape
pub mod Registry
use my_auto_sar_ap.Prelude.{
  ℕ, ◌+◌, String, Bool, true, false, Option, none, some, List, [], ◌∷◌, ◌++◌, length, nat_eq, leb,
  if◌then◌else◌, String_eq,
}
use my_auto_sar_ap.Prelude.Map.{lookup, insert}

pub data LogLevel : Type 0 where
  off fatal error warn info debug verbose : LogLevel

pub data LogMode : Type 0 where
  remote file console : LogMode

abbrev pub level_code : LogLevel → ℕ
level_code off = 0
level_code fatal = 1
level_code error = 2
level_code warn = 3
level_code info = 4
level_code debug = 5
level_code verbose = 6

pub record Logger : Type 0 where
  pub ctx_id : String
  pub ctx_desc : String
  pub level : LogLevel

pub record LogStream : Type 0 where
  pub level : LogLevel
  pub ctx_id : String
  pub stream : List ℕ

-- The fields of a line that is printed.
pub data Line : Type 0 where
  entry : String → String → List ℕ → Line
  initialized : String → Line

pub record Logging : Type 0 where
  pub loggers : List Logger
  pub logger_registry : List (String × ℕ)
  pub app_id : String
  pub output : List Line

unfoldable pub new : Logging
new = record { loggers = []; logger_registry = []; app_id = ""; output = [] }

abbrev pub level_str : LogLevel → String
level_str fatal = "FATAL"
level_str error = "ERROR"
level_str warn = "WARN"
level_str info = "INFO"
level_str debug = "DEBUG"
level_str verbose = "VERBOSE"
level_str off = "INFO"

abbrev pub quote : ℕ
quote = b'"'

abbrev pub backslash : ℕ
backslash = 92

-- The loop that escapes the message.
unfoldable pub escape : List ℕ → List ℕ
escape [] = []
escape (c ∷ msg) =
    let rest = escape msg in
    if nat_eq c quote
    then backslash ∷ quote ∷ rest
    else if nat_eq c backslash
    then backslash ∷ backslash ∷ rest
    else c ∷ rest

-- What `%s` prints of `c_str()`: the bytes before the first NUL.
unfoldable pub c_str : List ℕ → List ℕ
c_str [] = []
c_str (c ∷ text) = let rest = c_str text in if nat_eq c 0 then [] else c ∷ rest

-- `operator<<`, for a value that prints as the given bytes.
unfoldable pub append : LogStream → List ℕ → LogStream
append s text = record s { stream = s.stream ++ text }

-- The destructor of the stream, which prints the line.
unfoldable pub flush : Logging → LogStream → Logging
unfolding escape c_str
flush log s = record log {
  output = entry (level_str s.level) s.ctx_id (c_str (escape s.stream)) ∷ log.output;
}

-- `LogFatal` to `LogVerbose`: a stream at the given level, whatever the logger's own.
unfoldable pub log_at : Logger → LogLevel → LogStream
log_at logger level = record { level = level; ctx_id = logger.ctx_id; stream = [] }

unfoldable pub is_enabled : Logger → LogLevel → Bool
is_enabled logger level = leb (level_code level) (level_code logger.level)

unfoldable pub init_logging : Logging → String → String → LogLevel → LogMode → Logging
init_logging log app_id app_desc level mode = record log {
  app_id = app_id;
  output = initialized app_id ∷ log.output;
}

abbrev pub make_logger : String → String → LogLevel → Logger
make_logger ctx_id ctx_desc level = record { ctx_id = ctx_id; ctx_desc = ctx_desc; level = level }

-- The result is the address of the logger.
unfoldable pub create_logger : Logging → String → String → LogLevel → Logging × ℕ
create_logger log ctx_id ctx_desc level = elim (lookup ctx_id log.logger_registry) [
  | some p ↦ (log, p)
  | none ↦ (
    record log {
      loggers = log.loggers ++ make_logger ctx_id ctx_desc level ∷ [];
      logger_registry = insert ctx_id (length log.loggers) log.logger_registry;
    },
    length log.loggers,
  )
]
