-- ===== src/Responder/Verdict/Success.antt =====
-- When the responder's answer is a success (tools/r_test_responder_protocol.c, build_response_pdu).
use rl_c_client.Prelude.{
  ltb, ◌==◌, ℕ, ◌≡◌, refl, Bool, true, false, not, ◌&&◌, ◌||◌, List, [], ◌∷◌, map, arith,
}
use rl_c_client.Protocol.{ResourceRequest, LatencyGuard}
use rl_c_client.Protocol.Response.Verdict.{all_passed, all_granted}
use rl_c_client.Protocol.Response.RoundTrip.{guard_result, resource_result}
use rl_c_client.Client.Complete.{is_nil}
use rl_c_client.Responder.Reply.{
  Scenario, allow, deny, guard_pass, guard_deny, quota, drop_reply, malformed_auth,
  malformed_truncated, malformed_request_id, count_empty, count_short, count_extra, reply_current,
}
use rl_c_client.Responder.Verdict.Blocks.{answered_guard, deficit_of, answered_resource}

-- A guard of threshold 0 fails whatever the scenario: no latency is below it.
abbrev pub passes : Scenario → ℕ → Bool
passes guard_deny threshold = false
passes _ threshold = ltb 0 threshold

abbrev pub all_pass : Scenario → List LatencyGuard → Bool
all_pass scenario [] = true
all_pass scenario (g ∷ gs) = passes scenario g.threshold_ms && all_pass scenario gs

abbrev pub is_deny : Scenario → Bool
is_deny deny = true
is_deny _ = false

-- Whether a plain scenario grants a request.
abbrev pub is_success : Scenario → List ResourceRequest → List LatencyGuard → Bool
is_success scenario resources guards =
    all_pass scenario guards && (is_nil resources || not (is_deny scenario))

reply_current-passes :
    (scenario : Scenario) (threshold : ℕ)
    → ltb (reply_current scenario threshold) threshold ≡ passes scenario threshold
reply_current-passes allow threshold = ground arith
reply_current-passes deny threshold = ground arith
reply_current-passes guard_pass threshold = ground arith
reply_current-passes guard_deny threshold = ground arith
reply_current-passes quota threshold = ground arith
reply_current-passes drop_reply threshold = ground arith
reply_current-passes malformed_auth threshold = ground arith
reply_current-passes malformed_truncated threshold = ground arith
reply_current-passes malformed_request_id threshold = ground arith
reply_current-passes count_empty threshold = ground arith
reply_current-passes count_short threshold = ground arith
reply_current-passes count_extra threshold = ground arith

deficit_of-none :
    (scenario : Scenario) (tokens : ℕ) → (deficit_of scenario tokens == 0) ≡ not (is_deny scenario)
deficit_of-none allow tokens = ground arith
deficit_of-none deny tokens = ground arith
deficit_of-none guard_pass tokens = ground arith
deficit_of-none guard_deny tokens = ground arith
deficit_of-none quota tokens = ground arith
deficit_of-none drop_reply tokens = ground arith
deficit_of-none malformed_auth tokens = ground arith
deficit_of-none malformed_truncated tokens = ground arith
deficit_of-none malformed_request_id tokens = ground arith
deficit_of-none count_empty tokens = ground arith
deficit_of-none count_short tokens = ground arith
deficit_of-none count_extra tokens = ground arith

pub all_passed-answered :
    (scenario : Scenario) (gs : List LatencyGuard)
    → all_passed (map guard_result (map (answered_guard scenario) gs)) ≡ all_pass scenario gs
all_passed-answered scenario [] = refl
all_passed-answered scenario (g ∷ gs) =
    rw (reply_current-passes scenario g.threshold_ms, all_passed-answered scenario gs) refl

pub all_granted-answered :
    (scenario : Scenario) (rs : List ResourceRequest)
    → all_granted (map resource_result (map (answered_resource scenario) rs))
      ≡ (is_nil rs || not (is_deny scenario))
all_granted-answered scenario [] = refl
all_granted-answered scenario (r ∷ rs) =
    ground (arith, deficit_of-none scenario r.tokens_requested, all_granted-answered scenario rs)
