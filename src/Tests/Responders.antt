-- ===== src/Tests/Responders.antt =====
-- The theorems on the test responder at a concrete request.
use rl_c_client.Prelude.{replicate, ℕ, ◌≡◌, refl, true, none, some, List, [], ◌∷◌, ◌++◌, arith}
use rl_c_client.Prelude.Results.{Result, ok, err, fault}
use rl_c_client.Bytes.{
  read_u8, read_le16, read_le32, read_le64, read_bytes, write_le16, write_le32, write_le64,
}
use rl_c_client.Protocol.{
  tlv_tenant, tlv_auth_cookie, pdu_rate_request, ResourceRequest, LatencyGuard,
}
use rl_c_client.Protocol.Header.{
  tenant_header_bytes, tenant_header_read, parse_tenant_header, parse_auth_tlv_header,
}
use rl_c_client.Protocol.Body.{
  strlen, append_metrics_label_tlv, guard_block_bytes, resource_block_bytes, guard_blocks,
  resource_blocks, rate_request_blocks, append_label, build_rate_request_body, build_pdu,
  build_rate_request_pdu,
}
use rl_c_client.Client.Machine.{auth_cookie}
use rl_c_client.Responder.{
  parse_metrics_label, parse_rate_body, parse_request_pdu, open_secret, extract_authenticated_pdu,
}
use rl_c_client.Responder.Quota.{QuotaEntry, quota_allows}
use rl_c_client.Responder.Quota.Counters.{IsQuotaStep, quota_allows-IsQuotaStep}
use rl_c_client.Responder.RoundTrip.{understood, parse_request_pdu-built}
use rl_c_client.Responder.RoundTrip.Label.{label_text}
use rl_c_client.Responder.Reply.{
  deny, reply_counts, reply_guards, reply_resources, finish_reply, reply_of_counts,
  build_response_pdu,
}
use rl_c_client.Responder.Process.{
  ResponderState, malform, seal_reply, build_authenticated_response, answer, request_event,
  finish_answer, process_request, process_parsed, process_opened, process,
}
use rl_c_client.Responder.Answered.{IsDue, process-IsDue}
use rl_c_client.Tests.Workflow.{toy}

abbrev wanted : List ResourceRequest
wanted =
    record {
      bucket_id = replicate 16 3;
      window_size_ms = 1000;
      rate_limit = 10;
      tokens_requested = 2;
    }
    ∷ []

abbrev watched : List LatencyGuard
watched =
    record {
      latency_tracker_id = replicate 16 2;
      threshold_ms = 5;
      ttl_ms = 100;
      max_samples = 9;
      min_sample_threshold = 1;
    }
    ∷ []

-- The label `hi` with its NUL.
abbrev greeting : List ℕ
greeting = 104 ∷ 105 ∷ 0 ∷ []

-- The value of a result that has one.
abbrev bytes_of : Result (List ℕ) → List ℕ
bytes_of (ok xs) = xs
bytes_of (err e) = []
bytes_of fault = []

abbrev asked_body : List ℕ
asked_body = bytes_of (build_rate_request_body wanted watched (some greeting) 0 1200)

abbrev asked_pdu : List ℕ
asked_pdu = bytes_of (build_rate_request_pdu 60 asked_body 1200)

built_body : build_rate_request_body wanted watched (some greeting) 0 1200 ≡ ok asked_body
unfolding build_rate_request_body append_label append_metrics_label_tlv strlen read_u8 read_bytes
    rate_request_blocks guard_blocks resource_blocks guard_block_bytes resource_block_bytes
    write_le16 write_le32
built_body = refl

built_pdu : build_rate_request_pdu 60 asked_body 1200 ≡ ok asked_pdu
unfolding build_rate_request_pdu build_rate_request_body append_label append_metrics_label_tlv
    strlen read_u8 read_bytes rate_request_blocks guard_blocks resource_blocks guard_block_bytes
    resource_block_bytes write_le16 write_le32
built_pdu = refl

label_of_greeting : label_text (some greeting) 0 ≡ ok (104 ∷ 105 ∷ [])
unfolding label_text read_u8 read_bytes strlen
label_of_greeting = refl

parse_request_pdu-built_example :
    (suffix : List ℕ) × (parse_request_pdu asked_pdu
      ≡ ok (understood wanted watched (104 ∷ 105 ∷ []) asked_body suffix))
parse_request_pdu-built_example =
    parse_request_pdu-built wanted watched (some greeting) 0 60 asked_body asked_pdu
      (104 ∷ 105 ∷ []) (refl, tt) (refl, tt) built_body built_pdu label_of_greeting (omega arith)

abbrev counted_once : List QuotaEntry
counted_once = record { bucket_id = replicate 16 3; requests = 1 } ∷ []

quota_allows-IsQuotaStep_example :
    IsQuotaStep 2 (replicate 16 3) counted_once (quota_allows 2 (replicate 16 3) counted_once)
quota_allows-IsQuotaStep_example = quota_allows-IsQuotaStep 2 (replicate 16 3) counted_once

abbrev denied_pdu : List ℕ
denied_pdu =
    bytes_of (build_response_pdu deny 2 (understood wanted watched [] asked_body []) 1200 []).0

abbrev server : ResponderState
server = record {
  key = record { auth_type = auth_cookie; tenant_key_id = 77; secret = replicate 32 1 };
  scenario = deny;
  server_id = 3;
  steering_keep_port = true;
  allow_count = 2;
  sequence = 0;
  last_guard = none;
  quota = [];
}

-- A request without guards and resources.
abbrev short_input : List ℕ
short_input =
    write_le16 tlv_tenant
    ++ (write_le16 40
        ++ (write_le64 77
            ++ (replicate 16 5
                ++ (write_le64 9
                    ++ (replicate 4 0
                        ++ (write_le16 tlv_auth_cookie
                            ++ (write_le16 36
                                ++ (replicate 32 1
                                    ++ (write_le16 pdu_rate_request
                                        ++ (write_le16 12
                                            ++ (write_le32 60 ++ replicate 4 0)))))))))))

abbrev short_output : List ℕ
short_output = elim (process toy server none short_input 1200).output [ none ↦ [] | some o ↦ o ]

short_answer : (process toy server none short_input 1200).output ≡ some short_output
unfolding process process_opened process_parsed process_request request_event
    extract_authenticated_pdu parse_tenant_header tenant_header_read parse_auth_tlv_header
    open_secret parse_request_pdu parse_rate_body parse_metrics_label build_response_pdu
    reply_counts reply_of_counts finish_reply reply_guards reply_resources finish_answer answer
    build_authenticated_response seal_reply malform build_pdu read_bytes read_le32 read_u8 read_le16
    read_le64 write_le16 write_le32 write_le64 tenant_header_bytes
short_answer = refl

process-IsDue_example : IsDue toy server short_input
process-IsDue_example = process-IsDue toy server none short_input short_output 1200 short_answer
