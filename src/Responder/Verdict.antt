-- ===== src/Responder/Verdict.antt =====
-- The client reads the responder's answers (tools/r_test_responder_protocol.c, build_response_pdu;
-- r_parse_rate_response_pdu).
pub mod Blocks
pub mod Success
use rl_c_client.Prelude.{◌≡◌, true, ◌&&◌, List, map}
use rl_c_client.Protocol.{ResourceRequest, LatencyGuard}
use rl_c_client.Protocol.Response.{RateResponse}
use rl_c_client.Protocol.Response.Verdict.{all_passed, all_granted}
use rl_c_client.Protocol.Response.RoundTrip.{WireGuard, WireResource, guard_result, resource_result}
use rl_c_client.Responder.Reply.{Scenario}
use rl_c_client.Responder.Verdict.Blocks.{
  answered_guard, answered_resource, FitGuards, FitResources, is_plain,
}

-- What the client is to read.
abbrev pub answered : Scenario → List ResourceRequest → List LatencyGuard → RateResponse
answered scenario resources guards =
    let gs = map guard_result (map (answered_guard scenario) guards) in
    let rs = map resource_result (map (answered_resource scenario) resources) in
    record { guards = gs; resources = rs; success = all_passed gs && all_granted rs }

module _ (scenario : Scenario) (resources : List ResourceRequest) (guards : List LatencyGuard)
    (plain : is_plain scenario ≡ true) (gs : FitGuards guards) (rs : FitResources resources) where
  abbrev answered_guards : List WireGuard
  answered_guards = map (answered_guard scenario) guards

  abbrev answered_resources : List WireResource
  answered_resources = map (answered_resource scenario) resources
