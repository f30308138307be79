-- ===== src/Upstream/Decoded.antt =====
-- What a reader finds in the messages of sv2-core/src/modes/client.rs.
use stratum_v2_tools.Common.{
  List, [], ap, arith, length, length-append, nat_eq, refl, some, string_eq, suc, zero, ℕ, ◌%◌, ◌*◌,
  ◌++◌, ◌+◌, ◌/◌, ◌<◌, ◌∙◌, ◌∷◌, ◌≡◌, ◌≤◌,
}
use stratum_v2_tools.Common.Floats.{Floats}
use stratum_v2_tools.Common.Words.{u32_mod}
use stratum_v2_tools.Error.{Foreign, ok}
use stratum_v2_tools.Mining.Chain.{Chain}
use stratum_v2_tools.Mining.Headers.{take}
use stratum_v2_tools.Mining.Types.{Share}
use stratum_v2_tools.Upstream.Messages.{
  Encoding, accepted_job, create_share_submission_message, drop, handle_declare_job_response, le32,
  message_type, push_zeros, sized, u16_of, u32_of,
}

-- The length that a header declares: two bytes, the higher one first.
unfoldable pub declared_length : List ℕ → ℕ
declared_length (_ ∷ _ ∷ high ∷ low ∷ _) = high * 256 + low
declared_length _ = 0

-- The first `n` numbers of four bytes.
unfoldable pub words : ℕ → List ℕ → List ℕ
unfolding drop
words zero bytes = []
words (suc n) bytes = u32_of bytes ∷ words n (drop 4 bytes)

take-append : (xs ys : List ℕ) → take (length xs) (xs ++ ys) ≡ xs
unfolding take
take-append [] ys = refl
take-append (x ∷ xs) ys = ap (λ l. x ∷ l) (take-append xs ys)

u16-le16 : (n : ℕ) → n < 65536 → u16_of (n % 65536 % 256) (n % 65536 / 256 % 256) ≡ n
u16-le16 n h = omega (arith, h)

u32-le32 : (n : ℕ) (rest : List ℕ) → n < u32_mod → u32_of (le32 n ++ rest) ≡ n
u32-le32 n rest h = omega (arith, h)

-- The message of a share has the type 0x06 in its first two bytes, the lower one first, and behind its
-- header of four bytes as many as the other two say, the higher one first. Behind the header stand
-- six numbers of four bytes, the lowest byte first: the channel, the sequence number and the job, all
-- 1, the nonce and the timestamp of the share, and the version 32.
pub create_share_submission_message-decoded :
    {fl : Floats} {ch : Chain} (s : Share fl ch)
    → s.nonce < u32_mod
    → s.timestamp < u32_mod
    → let message = create_share_submission_message s in
      (message_type message ≡ 0x06)
      × (length message ≡ 4 + declared_length message)
      × (words 6 (drop 4 message) ≡ 1 ∷ 1 ∷ 1 ∷ s.nonce ∷ s.timestamp ∷ 32 ∷ [])
unfolding create_share_submission_message push_zeros drop words declared_length
create_share_submission_message-decoded s h k =
    (refl, refl, λ i. 1 ∷ 1 ∷ 1 ∷ u32-le32 s.nonce [] h i ∷ u32-le32 s.timestamp [] k i ∷ 32 ∷ [])

-- A job that the pool accepts under an identifier of two to 65535 bytes is reported under the text of
-- just these bytes, whatever follows them in the response.
pub handle_declare_job_response-accepted :
    (F : Foreign) (en : Encoding) (bytes : List ℕ) (a b : ℕ) (rest : List ℕ)
    → 2 ≤ length bytes
    → length bytes < 65536
    → handle_declare_job_response {F = F} en (0x53 ∷ 0x00 ∷ a ∷ b ∷ (sized bytes ++ rest))
      ≡ ok (some (en.from_utf8_lossy bytes))
unfolding handle_declare_job_response accepted_job drop
handle_declare_job_response-accepted F en bytes a b rest h k =
    let size = u16-le16 (length bytes) k in
    let taken = ap (λ n. take n (bytes ++ rest)) size ∙ take-append bytes rest in
    ground (arith, h, k, size, ap en.from_utf8_lossy taken, length-append bytes rest)
