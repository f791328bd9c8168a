-- ===== src/Logger/Tests.antt =====
-- Calls of the logger, and the theorems of this component applied to lines.
use cloud_storage_system.Base.{◌≡◌, refl, [], ◌∷◌, true}
use cloud_storage_system.Base.Text.{text, text_eq}
use cloud_storage_system.Base.Dict.{insert}
use cloud_storage_system.Logger.{
  new_logger, set_log_level, set_output_stream, warn_level, info_level, debug_level, level_value,
  level_to_string, log, log_at, log_line, line_end, optional_member, fields_text, Entry,
  field_string, field_bool, close_builder,
}
use cloud_storage_system.Logger.Lines.{quote_free, IsPlain, log_line-injective}

abbrev entry : Entry
entry = record {
  timestamp = text "T";
  level = info_level;
  thread = text "7";
  message = text "started";
  component = text "main";
  correlation_id = [];
  fields = [];
}

line :
    log_line entry
    ≡ text
        "{\"timestamp\":\"T\",\"level\":\"INFO\",\"thread\":\"7\",\"message\":\"started\",\"component\":\"main\"}\n"
unfolding log_line line_end optional_member fields_text level_to_string
line = refl

filtered :
    (log_at debug_level
      (text "T")
      (text "7")
      (text "no")
      []
      []
      (set_output_stream 2 (log entry (set_log_level warn_level new_logger)))).written
    ≡ []
unfolding log log_at level_value set_log_level set_output_stream
filtered = refl

built :
    (close_builder
      (text "T")
      (text "7")
      (field_bool (text "ok") true (
        field_string (text "user") (text "ann") (record {
          level = warn_level;
          message = text "m";
          component = [];
          correlation_id = [];
          fields = [];
        })))
      new_logger).written
    ≡ (
      0,
      text
          "{\"timestamp\":\"T\",\"level\":\"WARN\",\"thread\":\"7\",\"message\":\"m\",\"user\":\"ann\",\"ok\":true}\n",
    )
      ∷ []
unfolding log log_line line_end optional_member fields_text level_value level_to_string
    close_builder field_bool field_string insert text_eq
built = refl

entry-IsPlain : IsPlain entry
unfolding quote_free
entry-IsPlain = record {
  timestamp_plain = refl;
  thread_plain = refl;
  message_plain = refl;
  component_plain = refl;
  correlation_plain = refl;
}

log_line-injective_example : entry ≡ entry
log_line-injective_example =
    log_line-injective entry entry entry-IsPlain entry-IsPlain refl refl refl
