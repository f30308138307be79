-- ===== src/Tests/Logging.antt =====
-- The tests of sv2-core/src/logging.rs, and its theorem at a small event.
use stratum_v2_tools.Common.{
  List, String, [], any, false, nat_eq, none, refl, some, string_eq, true, ◌∷◌, ◌≡◌, ◌≢◌,
}
use stratum_v2_tools.Common.Map.{get, insert}
use stratum_v2_tools.Common.Text.{starts_with}
use stratum_v2_tools.Logging.Entries.{entry_of, format_event, record_field, value_of}
use stratum_v2_tools.Logging.Redaction.{
  all_hex, byte_len, contains_word, is_sensitive, looks_like_bitcoin_address,
  looks_like_private_key, redact_all, redact_fields, redact_string, redact_value, redacted,
}
use stratum_v2_tools.Logging.Types.{Cases, Metadata, Recorded, as_debug, as_str, as_u64, string}
use stratum_v2_tools.Logging.Withheld.{format_event-withheld, last_recorded}

abbrev as_is : Cases
as_is = record { to_lowercase = λ s. s; to_uppercase = λ s. s }

address_is_found : looks_like_bitcoin_address "1A1zP1eP5QGefi2DMPTfTL5SLmv7DivfNa" ≡ true
unfolding looks_like_bitcoin_address byte_len starts_with
address_is_found = refl

-- An address of the test network is not found.
test_address_is_missed :
    looks_like_bitcoin_address "tb1qw508d6qejxtdg4y5r3zarvary0c5xw7kxpjzsx" ≡ false
unfolding looks_like_bitcoin_address byte_len starts_with
test_address_is_missed = refl

private_key_is_found :
    looks_like_private_key "a0b1c2d3e4f5061728394a5b6c7d8e9f0a1b2c3d4e5f607182938495061728ab" ≡ true
unfolding looks_like_private_key byte_len starts_with all_hex
private_key_is_found = refl

-- The key of an API call, and the number of its attempts.
abbrev an_event : List (String × Recorded)
an_event = ("api_key", as_str "k-17") ∷ ("attempts", as_u64 2) ∷ ("message", as_debug "denied") ∷ []

abbrev some_metadata : Metadata
some_metadata = record {
  level = "INFO";
  target = "sv2_core";
  file = none;
  line = none;
  module_path = none;
}

-- The message of an event is shown as it was recorded.
format_event-withheld_example :
    (is_sensitive as_is "message" ≡ true → string "denied" ≡ redacted)
    × ((s : String)
        → string "denied" ≡ string s
        → (looks_like_bitcoin_address s ≡ false) × (looks_like_private_key s ≡ false))
    × (string "denied" ≢ redacted → last_recorded "message" none an_event ≡ some (string "denied"))
unfolding format_event entry_of redact_fields redact_all redact_value redact_string is_sensitive
    contains_word starts_with any record_field value_of insert get looks_like_bitcoin_address
    looks_like_private_key byte_len all_hex
format_event-withheld_example =
    format_event-withheld as_is (record { redact_sensitive = true }) some_metadata "now" none
      an_event "message" (string "denied") refl refl
