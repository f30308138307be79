-- ===== src/Upstream/Url.antt =====
-- `parse_stratum_url` of sv2-core/src/modes/client.rs.
use Prim.Native.Char.{code}
use stratum_v2_tools.Common.{
  Option, String, get_or, if◌then◌else◌, inl, inr, nat_beq, nat_eq, none, some, string_eq, ℕ,
}
use stratum_v2_tools.Common.Text.{is_empty, parse_unsigned, ◌<>◌}
use stratum_v2_tools.Error.{Error, Foreign, Result, err, ok}

-- `str::strip_prefix`.
unfoldable pub strip_prefix : String → String → Option String
strip_prefix String.[] s = some s
strip_prefix (String.◌∷◌ d t) String.[] = none
strip_prefix (String.◌∷◌ d t) (String.◌∷◌ c s) =
    if nat_beq (code c) (code d) then strip_prefix t s else none

-- `or_else`.
unfoldable pub or_else {ℓ} : {A : Type ℓ} → Option A → Option A → Option A
or_else none o = o
or_else (some a) o = some a

-- `rfind`: the texts before and behind the last separator.
unfoldable pub split_last : ℕ → String → Option (String × String)
split_last b String.[] = none
split_last b (String.◌∷◌ c s) = elim (split_last b s) [
  | some (t, u) ↦ some (String.◌∷◌ c t, u)
  | none ↦ if nat_beq (code c) b then some (String.[], s) else none
]

unfoldable pub without_scheme : String → String
unfolding strip_prefix or_else
without_scheme url =
    get_or
      (or_else (strip_prefix "stratum+tcp://" url)
        (or_else (strip_prefix "stratum://" url) (strip_prefix "tcp://" url)))
      url

module _ {F : Foreign} where
  -- The host and the port of an address that has a colon.
  unfoldable pub host_and_port : String → String → Result F (String × ℕ)
  host_and_port host port =
      if is_empty host
      then err (Error.config "Empty host in upstream URL")
      else elim (parse_unsigned 65536 port) [
        | inl _ ↦ err (Error.config ("Invalid port in upstream URL: " <> port))
        | inr n ↦ ok (host, n)
      ]

  unfoldable pub parse_address : String → Result F (String × ℕ)
  unfolding split_last host_and_port
  parse_address url = elim (split_last b':' url) [
    | some (host, port) ↦ host_and_port host port
    | none ↦ if is_empty url then err (Error.config "Empty upstream URL") else ok (url, 4444)
  ]

  unfoldable pub parse_stratum_url : String → Result F (String × ℕ)
  unfolding without_scheme parse_address
  parse_stratum_url url = parse_address (without_scheme url)
