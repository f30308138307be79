-- ===== src/Upstream/Messages.antt =====
-- The messages of sv2-core/src/modes/client.rs. A byte is a number below 256.
use stratum_v2_tools.Common.{
  Bool, List, Option, String, [], false, if◌then◌else◌, leb, length, ltb, nat_eq, none, not, some,
  string_eq, suc, zero, ℕ, ◌%◌, ◌&&◌, ◌*◌, ◌++◌, ◌+◌, ◌/◌, ◌==◌, ◌∷◌,
}
use stratum_v2_tools.Common.Floats.{Floats}
use stratum_v2_tools.Common.Text.{◌<>◌}
use stratum_v2_tools.Config.Types.{ClientConfig}
use stratum_v2_tools.Error.{Error, Foreign, Result, err, ok}
use stratum_v2_tools.Mining.Chain.{Chain}
use stratum_v2_tools.Mining.Headers.{take}
use stratum_v2_tools.Mining.Types.{
  Share, ShareResult, WorkTemplate, share_block, share_invalid, share_valid,
}

-- Texts as bytes, and back with what `from_utf8_lossy` puts for other bytes: a parameter.
pub record Encoding : Type 0 where
  pub as_bytes : String → List ℕ
  pub from_utf8_lossy : List ℕ → String

unfoldable pub drop {ℓ} : {A : Type ℓ} → ℕ → List A → List A
drop zero xs = xs
drop (suc n) [] = []
drop (suc n) (x ∷ xs) = drop n xs

-- `u16::to_le_bytes` and `u32::to_le_bytes`.
abbrev pub le16 : ℕ → List ℕ
le16 n = n % 256 ∷ n / 256 % 256 ∷ []

abbrev pub le32 : ℕ → List ℕ
le32 n = n % 256 ∷ n / 256 % 256 ∷ n / 65536 % 256 ∷ n / 16777216 % 256 ∷ []

-- `u16::from_le_bytes` and `u32::from_le_bytes`.
abbrev pub u16_of : ℕ → ℕ → ℕ
u16_of a b = a + 256 * b

abbrev pub u32_of : List ℕ → ℕ
u32_of (a ∷ b ∷ c ∷ d ∷ _) = a + 256 * b + 65536 * c + 16777216 * d
u32_of _ = 0

-- `while message.len() < n { message.push(0) }`; `n` rounds are enough.
unfoldable pub push_zeros : ℕ → ℕ → List ℕ → List ℕ
push_zeros zero n m = m
push_zeros (suc fuel) n m =
    let rest = push_zeros fuel n (m ++ (0 ∷ [])) in if ltb (length m) n then rest else m

abbrev pub pad_to : ℕ → List ℕ → List ℕ
pad_to n m = push_zeros n n m

-- The length as a `u16`, and the bytes.
abbrev pub sized : List ℕ → List ℕ
sized b = le16 (length b % 65536) ++ b

module _ (en : Encoding) where
  unfoldable pub create_setup_connection_message : List ℕ
  unfolding push_zeros
  create_setup_connection_message =
      pad_to 36
        (0x01 ∷ 0x00 ∷ 0x00 ∷ 0x20 ∷ 0x02 ∷ 0x00 ∷ 0x00 ∷ 0x00 ∷ sized (en.as_bytes "sv2-client"))

  unfoldable pub create_allocate_mining_job_token_message : ClientConfig → List ℕ
  unfolding push_zeros
  create_allocate_mining_job_token_message c =
      pad_to 20 (0x50 ∷ 0x00 ∷ 0x00 ∷ 0x10 ∷ sized (en.as_bytes c.upstream_pool.username))

-- The type of a message, which its first two bytes are.
abbrev pub message_type : List ℕ → ℕ
message_type (a ∷ b ∷ _) = u16_of a b
message_type _ = 0

unfoldable pub validate_setup_response : List ℕ → Bool
validate_setup_response response =
    if ltb (length response) 4 then false else message_type response == 0x02

unfoldable pub validate_allocate_response : List ℕ → Bool
validate_allocate_response response =
    if ltb (length response) 4 then false else message_type response == 0x51

unfoldable pub create_share_submission_message : {fl : Floats} {ch : Chain} → Share fl ch → List ℕ
unfolding push_zeros
create_share_submission_message s = pad_to 36 (
    (0x06 ∷ 0x00 ∷ 0x00 ∷ 0x20 ∷ 0x01 ∷ 0x00 ∷ 0x00 ∷ 0x00 ∷ 0x01 ∷ 0x00 ∷ 0x00 ∷ 0x00 ∷ 0x01 ∷ 0x00
      ∷ 0x00 ∷ 0x00 ∷ [])
    ++ (le32 s.nonce ++ (le32 s.timestamp ++ (0x20 ∷ 0x00 ∷ 0x00 ∷ 0x00 ∷ []))))

-- The text of an error in a response.
unfoldable pub error_text : Encoding → List ℕ → String
unfolding drop
error_text en response =
    if ltb 8 (length response) then en.from_utf8_lossy (drop 8 response) else "Unknown error"

-- `BlockHash::all_zeros` is an argument.
unfoldable pub parse_share_response :
    {ch : Chain} → Encoding → ch.BlockHash → List ℕ → ShareResult ch
unfolding error_text
parse_share_response en zeros response =
    if ltb (length response) 4
    then share_invalid "Invalid response format"
    else if message_type response == 0x07
    then share_valid
    else if message_type response == 0x08
    then share_invalid (error_text en response)
    else if message_type response == 0x09
    then share_block zeros
    else share_invalid "Unknown response type"

-- `parse_work_message`: the template that a message stands for, which is an argument, or the refusal.
unfoldable pub parse_work_message :
    {F : Foreign} {fl : Floats} {ch : Chain}
    → WorkTemplate fl ch
    → List ℕ
    → Result F (WorkTemplate fl ch)
parse_work_message t message =
    if ltb (length message) 16
    then err (Error.protocol "Invalid work message format")
    else if not (message_type message == 0x71)
    then err (Error.protocol "Not a work template message")
    else ok t

-- `receive_work_from_upstream` reads the message that it makes up itself.
unfoldable pub receive_work_from_upstream :
    (F : Foreign) {fl : Floats} {ch : Chain}
    → Bool
    → WorkTemplate fl ch
    → Option (WorkTemplate fl ch)
unfolding parse_work_message
receive_work_from_upstream F connected t =
    if connected
    then elim (parse_work_message {F = F} t (0x71 ∷ 0x00 ∷ 0x00 ∷ 0x40 ∷ [])) [
      | ok template ↦ some template
      | err _ ↦ none
    ]
    else none

-- The identifier in an acceptance.
unfoldable pub accepted_job : Encoding → List ℕ → Option String
unfolding take drop
accepted_job en response =
    let size = message_type (drop 4 response) in
    if leb 8 (length response) && leb (6 + size) (length response)
    then some (en.from_utf8_lossy (take size (drop 6 response)))
    else none

unfoldable pub handle_declare_job_response :
    {F : Foreign} → Encoding → List ℕ → Result F (Option String)
unfolding accepted_job error_text
handle_declare_job_response en response =
    if ltb (length response) 4
    then ok none
    else if message_type response == 0x53
    then ok (accepted_job en response)
    else if message_type response == 0x54
    then err (Error.protocol ("Job negotiation failed: " <> error_text en response))
    else ok none
