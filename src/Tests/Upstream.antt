-- ===== src/Tests/Upstream.antt =====
-- The theorems on sv2-core/src/modes/client.rs at small messages.
use stratum_v2_tools.Common.{
  [], arith, false, length, nat_eq, none, refl, some, string_eq, true, ◌++◌, ◌+◌, ◌∷◌, ◌≡◌,
}
use stratum_v2_tools.Common.Floats.{whole_floats}
use stratum_v2_tools.Common.Text.{digit, is_empty, lacks, show, show_onto, ◌<>◌}
use stratum_v2_tools.Config.Defaults.{default_upstream}
use stratum_v2_tools.Config.Modes.{host_port}
use stratum_v2_tools.Config.Types.{UpstreamPool}
use stratum_v2_tools.Error.{ok}
use stratum_v2_tools.Mining.Chain.{toy_chain}
use stratum_v2_tools.Mining.Types.{Share, WorkTemplate}
use stratum_v2_tools.Tests.Systems.{no_foreign}
use stratum_v2_tools.Upstream.Addresses.{parse_stratum_url-pool_url}
use stratum_v2_tools.Upstream.Decoded.{
  create_share_submission_message-decoded, declared_length, handle_declare_job_response-accepted,
  words,
}
use stratum_v2_tools.Upstream.Messages.{
  Encoding, create_share_submission_message, drop, handle_declare_job_response, message_type,
  parse_work_message, receive_work_from_upstream, sized,
}
use stratum_v2_tools.Upstream.Url.{parse_stratum_url}

abbrev a_tls_pool : UpstreamPool
a_tls_pool = record default_upstream { url = "stratum+ssl://pool.example.com:3334" }

-- The host that validation reads and the host that the client connects to differ.
parse_stratum_url-pool_url_example :
    (host_port {F = no_foreign} a_tls_pool ≡ ok ("pool.example.com", 3334))
    × (parse_stratum_url {F = no_foreign} a_tls_pool.url
        ≡ ok ("stratum+ssl://pool.example.com", 3334))
unfolding show show_onto digit ◌<>◌ lacks is_empty
parse_stratum_url-pool_url_example =
    parse_stratum_url-pool_url no_foreign a_tls_pool "pool.example.com" 3334 true refl refl refl
      (omega arith)

abbrev a_sent_share : Share whole_floats toy_chain
a_sent_share = record {
  connection_id = 1;
  nonce = 4_000_000_000;
  timestamp = 1_700_000_000;
  difficulty = some 1;
  is_valid = false;
  block_hash = none;
  submitted_at = 0;
}

create_share_submission_message-decoded_example :
    let message = create_share_submission_message a_sent_share in
    (message_type message ≡ 0x06)
    × (length message ≡ 4 + declared_length message)
    × (words 6 (drop 4 message) ≡ 1 ∷ 1 ∷ 1 ∷ 4_000_000_000 ∷ 1_700_000_000 ∷ 32 ∷ [])
create_share_submission_message-decoded_example =
    create_share_submission_message-decoded a_sent_share (omega arith) (omega arith)

-- Every text is a single byte, and any bytes are the text "job".
abbrev one_text : Encoding
one_text = record { as_bytes = λ _. 106 ∷ []; from_utf8_lossy = λ _. "job" }

handle_declare_job_response-accepted_example :
    handle_declare_job_response {F = no_foreign} one_text
      (0x53 ∷ 0x00 ∷ 0 ∷ 0 ∷ (sized (106 ∷ 111 ∷ 98 ∷ []) ++ (9 ∷ [])))
    ≡ ok (some "job")
handle_declare_job_response-accepted_example =
    handle_declare_job_response-accepted no_foreign one_text (106 ∷ 111 ∷ 98 ∷ []) 0 0 (9 ∷ [])
      (omega arith) (omega arith)

-- The message that the client makes up is too short to be read, so no work ever arrives.
no_work :
    (t : WorkTemplate whole_floats toy_chain) → receive_work_from_upstream no_foreign true t ≡ none
unfolding receive_work_from_upstream parse_work_message
no_work t = refl
