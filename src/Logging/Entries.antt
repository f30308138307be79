-- ===== src/Logging/Entries.antt =====
-- `format_event` of sv2-core/src/logging.rs, up to the entry that it prints, and its visitor. The
-- time, and the correlation id of the span, are arguments.
use stratum_v2_tools.Common.{List, Option, String, [], foldl, get_or, nat_eq, some, string_eq}
use stratum_v2_tools.Common.Map.{Map, get, insert}
use stratum_v2_tools.Logging.Redaction.{redact_fields}
use stratum_v2_tools.Logging.Types.{
  Cases, JsonFormatter, Metadata, Recorded, StructuredLogEntry, Value, as_bool, as_debug, as_i64,
  as_str, as_u64, boolean, number, pos, string,
}

-- What the visitor inserts for a field.
unfoldable pub value_of : Recorded → Value
value_of (as_debug s) = string s
value_of (as_str s) = string s
value_of (as_i64 n) = number n
value_of (as_u64 n) = number (pos n)
value_of (as_bool b) = boolean b

unfoldable pub record_field : Map String Value → String × Recorded → Map String Value
record_field m (name, r) = insert name (value_of r) m

-- `Value::as_str`, with `unwrap_or("")`.
unfoldable pub text_or_empty : Option Value → String
text_or_empty (some (string s)) = s
text_or_empty _ = ""

unfoldable pub entry_of :
    Cases → Metadata → String → Option String → Map String Value → StructuredLogEntry
entry_of cs meta now correlation m = record {
  timestamp = now;
  level = cs.to_uppercase meta.level;
  component = meta.target;
  message = text_or_empty (get "message" m);
  correlation_id = correlation;
  fields = m;
  location = some (record {
    file = get_or meta.file "unknown";
    line = get_or meta.line 0;
    module_path = get_or meta.module_path "unknown";
  });
}

unfoldable pub format_event :
    Cases
    → JsonFormatter
    → Metadata
    → String
    → Option String
    → List (String × Recorded)
    → StructuredLogEntry
unfolding entry_of
format_event cs f meta now correlation event =
    entry_of cs meta now correlation (redact_fields cs f (foldl record_field [] event))
