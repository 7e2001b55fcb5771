-- ===== src/Tests/Wire.antt =====
-- The protocol's theorems at concrete headers and responses.
use rl_c_client.Prelude.{
  length, drop, replicate, ℕ, ◌+◌, ◌^◌, ◌<◌, ◌≡◌, refl, false, List, [], ◌∷◌, arith,
}
use rl_c_client.Prelude.Results.{ok, NoFault, Ensures}
use rl_c_client.Bytes.{write_le16, write_le32}
use rl_c_client.Protocol.{tenant_tlv_len, pdu_header_len, TenantHeader}
use rl_c_client.Protocol.Header.{
  tenant_header_write, parse_tenant_header, peek_server_id, peek_request_id,
}
use rl_c_client.Protocol.Header.RoundTrip.{IsWireHeader, parse_tenant_header-tenant_header_write}
use rl_c_client.Protocol.Header.Peek.{PeeksAgree, peeks_agree}
use rl_c_client.Protocol.Response.{parse_rate_response_pdu}
use rl_c_client.Protocol.Response.Bounds.{parse_rate_response_pdu-NoFault}
use rl_c_client.Protocol.Response.Verdict.{IsVerdict, parse_rate_response_pdu-IsVerdict}
use rl_c_client.Protocol.Response.RoundTrip.{
  WireGuard, WireResource, IsWireGuard, IsWireResource, wire_body, guard_result, resource_result,
  wire_pdu, parse_rate_response_pdu-wire_pdu,
}

abbrev header : TenantHeader
header = record {
  tlv_type = 0x4C52;
  tlv_size = 40;
  key_id = 77;
  unique_id = replicate 16 9;
  time_stamp = 1700000000;
  steering_feedback = 1;
  tenant_mgmt_flag = 0;
  padding0 = 0;
  padding1 = 0;
}

header-IsWireHeader : IsWireHeader header
header-IsWireHeader = record {
  typed = refl;
  sized = refl;
  keyed = omega arith;
  identified = refl;
  stamped = omega arith;
}

parse_tenant_header-tenant_header_write_example :
    (parse_tenant_header (tenant_header_write header (replicate 50 7))
      ≡ ok (header, tenant_tlv_len))
    × (length (tenant_header_write header (replicate 50 7)) ≡ 50)
    × (drop tenant_tlv_len (tenant_header_write header (replicate 50 7)) ≡ replicate 10 7)
parse_tenant_header-tenant_header_write_example =
    parse_tenant_header-tenant_header_write header (replicate 50 7) header-IsWireHeader
      (omega arith)

peeks_agree_example :
    PeeksAgree
      (parse_tenant_header (replicate 50 7))
      (peek_server_id (replicate 50 7))
      (peek_request_id (replicate 50 7))
peeks_agree_example = peeks_agree (replicate 50 7)

-- A response with one guard that passes and one resource that lacks tokens.
abbrev fast : WireGuard
fast = record {
  tracker_id = replicate 16 1;
  settings = replicate 12 0;
  threshold = 100;
  current = 40;
}

abbrev short : WireResource
short = record {
  id = replicate 16 2;
  window = replicate 4 0;
  rate = 5;
  deficit = 3;
  padding = replicate 2 0;
}

abbrev body : List ℕ
body = wire_body (fast ∷ []) (short ∷ []) []

fast-IsWireGuard : IsWireGuard fast
fast-IsWireGuard = record {
  identified = refl;
  settled = refl;
  threshold_u32 = omega arith;
  current_u32 = omega arith;
}

short-IsWireResource : IsWireResource short
short-IsWireResource = record {
  identified = refl;
  windowed = refl;
  rate_u32 = omega arith;
  deficit_u16 = omega arith;
  padded = refl;
}

body_small : pdu_header_len + length body < 2 ^ 16
unfolding write_le16 write_le32
body_small = omega arith

parse_rate_response_pdu-wire_pdu_example :
    parse_rate_response_pdu (wire_pdu body (0 ∷ [])) 1 4
    ≡ ok (record {
      guards = guard_result fast ∷ [];
      resources = resource_result short ∷ [];
      success = false;
    })
parse_rate_response_pdu-wire_pdu_example =
    parse_rate_response_pdu-wire_pdu (fast ∷ []) (short ∷ []) [] (0 ∷ []) 1 4 (fast-IsWireGuard, tt)
      (short-IsWireResource, tt) body_small (omega arith) (omega arith)

parse_rate_response_pdu-NoFault_example :
    NoFault (parse_rate_response_pdu (wire_pdu body (0 ∷ [])) 1 4)
parse_rate_response_pdu-NoFault_example =
    parse_rate_response_pdu-NoFault (wire_pdu body (0 ∷ [])) 1 4

parse_rate_response_pdu-IsVerdict_example :
    Ensures (IsVerdict 1 4) (parse_rate_response_pdu (wire_pdu body (0 ∷ [])) 1 4)
parse_rate_response_pdu-IsVerdict_example =
    parse_rate_response_pdu-IsVerdict (wire_pdu body (0 ∷ [])) 1 4
