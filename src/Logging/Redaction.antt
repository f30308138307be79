-- ===== src/Logging/Redaction.antt =====
-- The redaction of JsonFormatter in sv2-core/src/logging.rs.
use Prim.Native.Char.{code}
use stratum_v2_tools.Common.{
  Bool, List, String, [], any, if◌then◌else◌, leb, ltb, nat_beq, nat_eq, string_eq, true, ℕ, ◌&&◌,
  ◌+◌, ◌||◌, ◌∷◌,
}
use stratum_v2_tools.Common.Map.{Map}
use stratum_v2_tools.Common.Text.{starts_with}
use stratum_v2_tools.Logging.Types.{Cases, JsonFormatter, Value, string}

-- `len_utf8` of a character.
abbrev pub char_len : ℕ → ℕ
char_len c = if ltb c 128 then 1 else if ltb c 2048 then 2 else if ltb c 65536 then 3 else 4

-- `s.len()`, which counts bytes.
unfoldable pub byte_len : String → ℕ
byte_len String.[] = 0
byte_len (String.◌∷◌ c s) = char_len (code c) + byte_len s

-- `s.contains(word)`.
unfoldable pub contains_word : String → String → Bool
contains_word String.[] word = starts_with String.[] word
contains_word (String.◌∷◌ c s) word = starts_with (String.◌∷◌ c s) word || contains_word s word

abbrev pub is_ascii_hexdigit : ℕ → Bool
is_ascii_hexdigit c =
    (leb b'0' c && leb c b'9') || (leb b'a' c && leb c b'f') || (leb b'A' c && leb c b'F')

unfoldable pub all_hex : String → Bool
all_hex String.[] = true
all_hex (String.◌∷◌ c s) = is_ascii_hexdigit (code c) && all_hex s

abbrev pub sensitive_keys : List String
sensitive_keys =
    "password" ∷ "secret" ∷ "key" ∷ "token" ∷ "auth" ∷ "credential" ∷ "private_key" ∷ "wallet"
    ∷ "seed" ∷ "mnemonic" ∷ "passphrase" ∷ []

abbrev pub redacted : Value
redacted = string "[REDACTED]"

unfoldable pub looks_like_bitcoin_address : String → Bool
looks_like_bitcoin_address s =
    (leb 26 (byte_len s) && leb (byte_len s) 62)
    && (starts_with s "1" || starts_with s "3" || starts_with s "bc1")

unfoldable pub looks_like_private_key : String → Bool
looks_like_private_key s =
    ((nat_beq (byte_len s) 51 || nat_beq (byte_len s) 52)
      && (starts_with s "5" || starts_with s "K" || starts_with s "L"))
    || (nat_beq (byte_len s) 64 && all_hex s)

-- A value whose key tells nothing.
unfoldable pub redact_string : Value → Value
redact_string (string s) =
    if looks_like_bitcoin_address s || looks_like_private_key s then redacted else string s
redact_string v = v

module _ (cs : Cases) where
  unfoldable pub is_sensitive : String → Bool
  is_sensitive key = any (contains_word (cs.to_lowercase key)) sensitive_keys

  unfoldable pub redact_value : String → Value → Value
  redact_value key v = if is_sensitive key then redacted else redact_string v

  unfoldable pub redact_all : Map String Value → Map String Value
  redact_all [] = []
  redact_all ((key, v) ∷ m) = (key, redact_value key v) ∷ redact_all m

  unfoldable pub redact_fields : JsonFormatter → Map String Value → Map String Value
  redact_fields f m = if f.redact_sensitive then redact_all m else m
