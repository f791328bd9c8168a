-- ===== src/Logger.antt =====
-- Logger and its LogBuilder (observability/logger.cpp): the filter by level and the lines.
pub mod Lines
mod Tests
use cloud_storage_system.Base.{
  ℕ, ◌≡◌, refl, Bool, true, false, List, [], ◌∷◌, ◌++◌, ltb, if◌then◌else◌,
}
use cloud_storage_system.Base.Int.{ℤ}
use cloud_storage_system.Base.Text.{Text, text, to_string}
use cloud_storage_system.Base.Dict.{Dict, insert}

-- enum class LogLevel
pub data LogLevel : Type 0 where
  debug_level : LogLevel
  info_level : LogLevel
  warn_level : LogLevel
  error_level : LogLevel
  fatal_level : LogLevel

-- The value of the enumerator.
unfoldable pub level_value : LogLevel → ℕ
level_value debug_level = 0
level_value info_level = 1
level_value warn_level = 2
level_value error_level = 3
level_value fatal_level = 4

unfoldable pub level_to_string : LogLevel → Text
level_to_string debug_level = text "DEBUG"
level_to_string info_level = text "INFO"
level_to_string warn_level = text "WARN"
level_to_string error_level = text "ERROR"
level_to_string fatal_level = text "FATAL"

-- The members, with a number for the stream that output_stream_ points to, and every line that was
-- written, with its stream.
pub record Logger : Type 0 where
  pub min_level : LogLevel
  pub output_stream : ℕ
  pub written : List (ℕ × Text)

-- The logger writes to stream 0, std::cout, at first.
abbrev pub new_logger : Logger
new_logger = record { min_level = info_level; output_stream = 0; written = [] }

unfoldable pub set_log_level : LogLevel → Logger → Logger
set_log_level level l = record l { min_level = level }

unfoldable pub set_output_stream : ℕ → Logger → Logger
set_output_stream stream l = record l { output_stream = stream }

-- What log is called with. The time and the thread are what getCurrentTimestamp and getThreadId
-- answer; the fields hold JSON.
pub record Entry : Type 0 where
  pub timestamp : Text
  pub level : LogLevel
  pub thread : Text
  pub message : Text
  pub component : Text
  pub correlation_id : Text
  pub fields : Dict Text

-- A member of the object that is left out where its value is empty, before the rest of the line.
unfoldable pub optional_member : Text → Text → Text → Text
optional_member start [] rest = rest
optional_member start (c ∷ cs) rest = start ++ ((c ∷ cs) ++ b'"' ∷ rest)

unfoldable pub fields_text : Dict Text → Text
fields_text [] = []
fields_text ((key, value) ∷ fields) =
    text ",\"" ++ (key ++ (text "\":" ++ (value ++ fields_text fields)))

abbrev pub component_start : Text
component_start = text ",\"component\":\""

abbrev pub correlation_start : Text
correlation_start = text ",\"correlation_id\":\""

-- What follows the message.
unfoldable pub line_end : Entry → Text
line_end e =
    optional_member component_start e.component
      (optional_member correlation_start e.correlation_id (fields_text e.fields ++ text "}\n"))

unfoldable pub log_line : Entry → Text
log_line e =
    text "{\"timestamp\":\""
    ++ (e.timestamp
        ++ (text "\",\"level\":\""
            ++ (level_to_string e.level
                ++ (text "\",\"thread\":\""
                    ++ (e.thread
                        ++ (text "\",\"message\":\"" ++ (e.message ++ b'"' ∷ line_end e)))))))

unfoldable pub log : Entry → Logger → Logger
log e l =
    if ltb (level_value e.level) (level_value l.min_level)
    then l
    else record l { written = l.written ++ (l.output_stream, log_line e) ∷ [] }

-- debug, info, warn, error and fatal, at a time and in a thread.
unfoldable pub log_at : LogLevel → Text → Text → Text → Text → Text → Logger → Logger
log_at level timestamp thread message component correlation_id l =
    log
      (record {
        timestamp = timestamp;
        level = level;
        thread = thread;
        message = message;
        component = component;
        correlation_id = correlation_id;
        fields = [];
      })
      l

-- A LogBuilder
pub record LogBuilder : Type 0 where
  pub level : LogLevel
  pub message : Text
  pub component : Text
  pub correlation_id : Text
  pub fields : Dict Text

unfoldable pub field_string : Text → Text → LogBuilder → LogBuilder
field_string key value b = record b { fields = insert key (b'"' ∷ value ++ b'"' ∷ []) b.fields }

unfoldable pub field_int : Text → ℤ → LogBuilder → LogBuilder
field_int key value b = record b { fields = insert key (to_string value) b.fields }

-- `shown` is how the stream prints the double, with six digits.
unfoldable pub field_double : Text → Text → LogBuilder → LogBuilder
field_double key shown b = record b { fields = insert key shown b.fields }

unfoldable pub field_bool : Text → Bool → LogBuilder → LogBuilder
field_bool key value b = record b {
  fields = insert key (if value then text "true" else text "false") b.fields;
}

-- ~LogBuilder, at a time and in a thread.
unfoldable pub close_builder : Text → Text → LogBuilder → Logger → Logger
close_builder timestamp thread b l =
    log
      (record {
        timestamp = timestamp;
        level = b.level;
        thread = thread;
        message = b.message;
        component = b.component;
        correlation_id = b.correlation_id;
        fields = b.fields;
      })
      l
