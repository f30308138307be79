-- ===== src/Logging/Withheld.antt =====
-- What a log entry shows of the fields of its event.
use mathlib.Core.Option
use stratum_v2_tools.Common.{
  ==_iff, Bool-cases, List, Option, String, [], ap, arith, false, foldl, if◌then◌else◌, inl, inr,
  nat_eq, none, refl, some, string_eq, sym, true, ◌==◌, ◌||◌, ◌∙◌, ◌∷◌, ◌≡◌, ◌≢◌,
}
use stratum_v2_tools.Common.Map.{Map, get, get-insert, insert}
use stratum_v2_tools.Common.Text.{starts_with}
use stratum_v2_tools.Logging.Entries.{entry_of, format_event, record_field, value_of}
use stratum_v2_tools.Logging.Redaction.{
  all_hex, byte_len, is_sensitive, looks_like_bitcoin_address, looks_like_private_key, redact_all,
  redact_fields, redact_string, redact_value, redacted,
}
use stratum_v2_tools.Logging.Types.{
  Cases, JsonFormatter, Metadata, Recorded, Value, boolean, number, string,
}

-- The value of a field: the last one that was recorded under its name.
unfoldable pub last_recorded : String → Option Value → List (String × Recorded) → Option Value
last_recorded k v [] = v
last_recorded k v ((name, r) ∷ event) =
    last_recorded k (if name == k then some (value_of r) else v) event

pub foldl-record_field :
    (k : String) (m : Map String Value) (event : List (String × Recorded))
    → get k (foldl record_field m event) ≡ last_recorded k (get k m) event
unfolding last_recorded record_field
foldl-record_field k m [] = refl
foldl-record_field k m ((name, r) ∷ event) =
    foldl-record_field k (insert name (value_of r) m) event
    ∙ ap (λ o. last_recorded k o event) (get-insert name k (value_of r) m)

-- The text "[REDACTED]" is itself shown as it is.
redacted_plain :
    (looks_like_bitcoin_address "[REDACTED]" ≡ false)
    × (looks_like_private_key "[REDACTED]" ≡ false)
unfolding looks_like_bitcoin_address looks_like_private_key byte_len starts_with all_hex
redacted_plain = (refl, refl)

-- A text that is shown does not look like an address or a private key.
pub redact_string-plain :
    (v : Value) (s : String)
    → redact_string v ≡ string s
    → (looks_like_bitcoin_address s ≡ false) × (looks_like_private_key s ≡ false)
unfolding redact_string
redact_string-plain (string t) s e =
    elim (Bool-cases (looks_like_bitcoin_address t || looks_like_private_key t)) [
      | inl hit ↦ ground (arith, redacted_plain)
      | inr miss ↦ ground arith
    ]
redact_string-plain (number n) s e = ground arith
redact_string-plain (boolean b) s e = ground arith

-- A value that is not replaced is the one that was there.
pub redact_string-kept : (v : Value) → redact_string v ≢ redacted → redact_string v ≡ v
unfolding redact_string
redact_string-kept (string t) h =
    elim (Bool-cases (looks_like_bitcoin_address t || looks_like_private_key t)) [
      | inl hit ↦ ground arith
      | inr miss ↦ ground arith
    ]
redact_string-kept (number n) h = refl
redact_string-kept (boolean b) h = refl

map-some {ℓ κ} :
    {A : Type ℓ} {B : Type κ} (f : A → B) (o : Option A) (b : B)
    → Option.map f o ≡ some b
    → (a : A) × (o ≡ some a) × (f a ≡ b)
map-some f none b e = ground arith
map-some f (some a) b e = (a, refl, ground arith)

module _ (cs : Cases) where
  pub get-redact_all :
      (k : String) (m : Map String Value)
      → get k (redact_all cs m) ≡ Option.map (redact_value cs k) (get k m)
  unfolding get redact_all
  get-redact_all k [] = refl
  get-redact_all k ((j, v) ∷ m) = elim (Bool-cases (j == k)) [
    | inl hit ↦ let e = (==_iff j k).0 hit in ground (arith, e)
    | inr miss ↦ ground (arith, get-redact_all k m)
  ]

  pub redact_value-withheld :
      (k : String) (v w : Value)
      → redact_value cs k v ≡ w
      → (is_sensitive cs k ≡ true → w ≡ redacted)
        × ((s : String)
            → w ≡ string s
            → (looks_like_bitcoin_address s ≡ false) × (looks_like_private_key s ≡ false))
        × (w ≢ redacted → v ≡ w)
  unfolding redact_value
  redact_value-withheld k v w e = elim (Bool-cases (is_sensitive cs k)) [
    | inl hit ↦ ground (arith, redacted_plain)
    | inr miss ↦ ground (arith, redact_string-plain v, redact_string-kept v)
  ]

  -- With redaction on, each field of the entry is the redacted last value of its name.
  pub format_event-fields :
      (f : JsonFormatter) (meta : Metadata) (now : String) (correlation : Option String)
      (event : List (String × Recorded)) (k : String)
      → f.redact_sensitive ≡ true
      → get k (format_event cs f meta now correlation event).fields
        ≡ Option.map (redact_value cs k) (last_recorded k none event)
  unfolding format_event entry_of redact_fields get
  format_event-fields f meta now correlation event k on =
      let m = foldl record_field [] event in
      ap (λ b. get k (if b then redact_all cs m else m)) on
      ∙ get-redact_all k m
      ∙ ap (Option.map (redact_value cs k)) (foldl-record_field k [] event)

  -- With redaction on, a field of the entry under a name that contains a sensitive word is
  -- "[REDACTED]"; the text of a field does not look like a Bitcoin address or a private key; and
  -- a field that is not "[REDACTED]" is the last value that the event recorded under its name.
  pub format_event-withheld :
      (f : JsonFormatter) (meta : Metadata) (now : String) (correlation : Option String)
      (event : List (String × Recorded)) (k : String) (v : Value)
      → f.redact_sensitive ≡ true
      → get k (format_event cs f meta now correlation event).fields ≡ some v
      → (is_sensitive cs k ≡ true → v ≡ redacted)
        × ((s : String)
            → v ≡ string s
            → (looks_like_bitcoin_address s ≡ false) × (looks_like_private_key s ≡ false))
        × (v ≢ redacted → last_recorded k none event ≡ some v)
  unfolding format_event entry_of redact_fields
  format_event-withheld f meta now correlation event k v on shown =
      let (u, found, w) =
        map-some (redact_value cs k) (last_recorded k none event) v
          (sym (format_event-fields f meta now correlation event k on) ∙ shown) in
      let (hidden, plain, kept) = redact_value-withheld k u v w in
      (hidden, plain, λ h. found ∙ ap some (kept h))
