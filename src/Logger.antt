-- ===== src/Logger.antt =====
-- include/agora/base/logger.h, log_level.h, log_message.h, current_thread.h, and src/base/logger.cpp,
-- log_level.cpp, log_message.cpp, current_thread.cpp: what is logged, and when the process aborts.
--
-- The state of the one logger holds the lines that stand on the standard output. The clock, the
-- texts of a date and of a thread id, and the place of a call are arguments.
pub mod Printed
mod Examples
use agora_im.Shared.{
  ℕ, ◌≡◌, Bool, true, false, Option, none, some, List, [], ◌∷◌, ◌++◌, leb, ◌==◌, if◌then◌else◌,
  Bytes, codes, decimal,
}
use agora_im.Timestamp.{Timestamp, now, to_formatted_string}

pub data LogLevel : Type 0 where
  info warn error fatal : LogLevel

-- The enumerators' values.
abbrev pub rank : LogLevel → ℕ
rank info = 0
rank warn = 1
rank error = 2
rank fatal = 3

unfoldable pub log_level_to_string : LogLevel → Bytes
log_level_to_string info = codes "INFO"
log_level_to_string warn = codes "WARN"
log_level_to_string error = codes "ERROR"
log_level_to_string fatal = codes "FATAL"

-- The id that a thread keeps once it has asked for it.
pub record CachedTid : Type 0 where
  pub cached : ℕ
  pub valid : Bool

abbrev pub no_tid : CachedTid
no_tid = record { cached = 0; valid = false }

-- `CurrentThread::tid`, in the thread with this id.
unfoldable pub tid : (get_id : ℕ) → CachedTid → ℕ × CachedTid
tid get_id c =
    let c' : CachedTid = if c.valid then c else record { cached = get_id; valid = true } in
    (c'.cached, c')

pub record LogMessage : Type 0 where
  pub level : LogLevel
  pub file : Bytes
  pub line : ℕ
  pub content : Bytes
  pub timestamp : Timestamp

-- What a call of the logger finds: the clock, the id of the thread and the place in the source.
pub record Place : Type 0 where
  pub clock : ℕ
  pub thread : ℕ
  pub file : Bytes
  pub line : ℕ

unfoldable pub new_message : Place → LogLevel → Bytes → LogMessage
new_message at level content = record {
  level = level;
  file = at.file;
  line = at.line;
  content = content;
  timestamp = now at.clock;
}

pub record Logger : Type 0 where
  pub level : LogLevel
  pub printed : List Bytes

-- `std::abort` ends the process.
pub data Outcome (A : Type 0) : Type 0 where
  goes_on : A → Logger → Outcome A
  aborts : Logger → Outcome A

abbrev pub new : Logger
new = record { level = info; printed = [] }

unfoldable pub set_log_level : LogLevel → Logger → Logger
set_log_level level l = record l { level = level }

module _ (put_time tid_text : ℕ → Bytes) where
  unfoldable pub format : ℕ → LogMessage → Bytes
  format thread m =
      to_formatted_string put_time false m.timestamp
      ++ codes " "
      ++ codes "["
      ++ log_level_to_string m.level
      ++ codes "] "
      ++ codes "["
      ++ tid_text thread
      ++ codes "] "
      ++ m.file
      ++ codes ":"
      ++ decimal m.line
      ++ codes " - "
      ++ m.content

  -- The line that a call prints.
  abbrev pub line_of : Place → LogLevel → Bytes → Bytes
  line_of at level msg = format at.thread (new_message at level msg)

  -- What follows the line.
  abbrev pub then_abort : LogLevel → Logger → Outcome Unit
  then_abort info l = goes_on tt l
  then_abort warn l = goes_on tt l
  then_abort error l = goes_on tt l
  then_abort fatal l = aborts l

  unfoldable pub log : Place → LogLevel → Bytes → Logger → Outcome Unit
  log at level msg l =
      if leb (rank l.level) (rank level)
      then then_abort level (record l { printed = l.printed ++ line_of at level msg ∷ [] })
      else goes_on tt l
