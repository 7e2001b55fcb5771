-- ===== src/Responder.antt =====
-- The responder that stands for a server in tests (tools/r_test_responder_protocol.c): how it opens
-- and reads a datagram of the client.
pub mod Quota
pub mod RoundTrip
pub mod Reply
pub mod Process
pub mod Verdict
pub mod Authentic
pub mod Answered
use rl_c_client.Prelude.{
  ltb, leb, ◌==◌, if◌then◌else◌, length, take, drop, ℕ, ◌+◌, ◌-◌, ◌*◌, ◌&&◌, none, some, List, [],
}
use rl_c_client.Prelude.Results.{err_protocol, err_auth, Result, ok, err, fault, guard, ◌>>=◌, ◌>>◌}
use rl_c_client.Bytes.{read_le16, read_bytes}
use rl_c_client.Protocol.{
  pdu_header_len, max_packet_size, guard_block_wire_len, resource_block_wire_len,
  service_latency_block_wire_len, tlv_auth_cookie, tlv_auth_aes, tlv_metrics_label,
  pdu_rate_request, pdu_latency_report, TenantHeader,
}
use rl_c_client.Protocol.Header.{parse_tenant_header, AuthTlv, parse_auth_tlv_header}
use rl_c_client.Client.Machine.{bytes_eq, AuthType, auth_unset, auth_cookie, auth_aes_gcm}
use rl_c_client.Packet.{Gcm, decrypt_pdu_aes_gcm}

-- `R_TEST_RESPONDER_LABEL_CAP`.
abbrev pub label_cap : ℕ
label_cap = 256

-- What the responder knows of its tenant: the fields of `r_test_responder_state_t` that it opens
-- datagrams with.
pub record ResponderKey : Type 0 where
  pub auth_type : AuthType
  pub tenant_key_id : ℕ
  pub secret : List ℕ

-- `r_test_parsed_request_t`, without the header. A pointer into the body is the bytes from there on,
-- and the label comes without its NUL.
pub record ParsedRequest : Type 0 where
  pub pdu_type : ℕ
  pub body : List ℕ
  pub guard_count : ℕ
  pub resource_count : ℕ
  pub report_count : ℕ
  pub guards : List ℕ
  pub resources : List ℕ
  pub reports : List ℕ
  pub label : List ℕ

unfoldable pub parse_metrics_label : List ℕ → ℕ → Result (List ℕ)
parse_metrics_label body pos = if pos == length body then ok [] else (do
  guard (leb 6 (length body - pos)) err_protocol
  tlv_type ← read_le16 body pos
  guard (tlv_type == tlv_metrics_label) err_protocol
  tlv_size ← read_le16 body (pos + 2)
  label_len ← read_le16 body (pos + 4)
  guard (leb 6 tlv_size && leb tlv_size (length body - pos)) err_protocol
  guard (pos + tlv_size == length body) err_protocol
  guard (leb label_len (tlv_size - 6) && leb label_len label_cap) err_protocol
  read_bytes body (pos + 6) label_len)

unfoldable pub parse_rate_body : List ℕ → Result ParsedRequest
parse_rate_body body = do
  guard_count ← read_le16 body 0
  resource_count ← read_le16 body 2
  let guard_bytes = guard_count * guard_block_wire_len
  let resource_bytes = resource_count * resource_block_wire_len
  guard (leb guard_bytes (length body - 4)) err_protocol
  guard (leb resource_bytes (length body - 4 - guard_bytes)) err_protocol
  label ← parse_metrics_label body (4 + guard_bytes + resource_bytes)
  ok (record {
    pdu_type = pdu_rate_request;
    body = body;
    guard_count = guard_count;
    resource_count = resource_count;
    report_count = 0;
    guards = drop 4 body;
    resources = drop guard_bytes (drop 4 body);
    reports = [];
    label = label;
  })

unfoldable pub parse_report_body : List ℕ → Result ParsedRequest
parse_report_body body = do
  report_count ← read_le16 body 0
  guard (report_count * service_latency_block_wire_len == length body - 4) err_protocol
  ok (record {
    pdu_type = pdu_latency_report;
    body = body;
    guard_count = 0;
    resource_count = 0;
    report_count = report_count;
    guards = [];
    resources = [];
    reports = drop 4 body;
    label = [];
  })

unfoldable pub parse_request_pdu : List ℕ → Result ParsedRequest
parse_request_pdu pdu = do
  guard (leb pdu_header_len (length pdu)) err_protocol
  declared_len ← read_le16 pdu 2
  guard ((declared_len == length pdu) && leb pdu_header_len declared_len) err_protocol
  pdu_type ← read_le16 pdu 0
  let body = drop pdu_header_len pdu
  guard (leb 4 (length body)) err_protocol
  if pdu_type == pdu_rate_request
      then parse_rate_body body
      else if pdu_type == pdu_latency_report
      then parse_report_body body
      else err err_protocol

-- The header as `r_parse_tenant_header` gives it; any error becomes an authentication error.
abbrev pub header_of : Result (TenantHeader × ℕ) → Result (TenantHeader × ℕ)
header_of (ok h) = ok h
header_of (err e) = err err_auth
header_of fault = fault

unfoldable pub open_secret : ResponderKey → AuthTlv → List ℕ → Result (List ℕ)
open_secret key auth input = do
  guard
      ((auth.auth_type == tlv_auth_cookie) && ((auth.auth_size == 36) && (length auth.body == 32)))
      err_auth
  guard (bytes_eq auth.body key.secret) err_auth
  ok (drop auth.pdu_pos input)

module _ (gcm : Gcm) where
  unfoldable pub open_sealed : ResponderKey → AuthTlv → List ℕ → ℕ → Result (List ℕ)
  open_sealed key auth input pos = do
    guard ((auth.auth_type == tlv_auth_aes) && ((auth.auth_size == 32) && (length auth.body == 28)))
        err_auth
    guard (ltb auth.pdu_pos (length input)) err_auth
    elim (decrypt_pdu_aes_gcm gcm (drop auth.pdu_pos input) key.secret (take 12 auth.body)
        (drop 12 auth.body) (take (pos + 4 + 12) input) max_packet_size) [
          | none ↦ err err_auth
          | some pdu ↦ ok pdu
        ]

  abbrev pub open_by : AuthType → ResponderKey → AuthTlv → List ℕ → ℕ → Result (List ℕ)
  open_by auth_cookie key auth input pos = open_secret key auth input
  open_by auth_aes_gcm key auth input pos = open_sealed key auth input pos
  open_by auth_unset key auth input pos = err err_auth

  -- The header and the PDU.
  unfoldable pub extract_authenticated_pdu : ResponderKey → List ℕ → Result (TenantHeader × List ℕ)
  extract_authenticated_pdu key input = do
    (tenant, pos) ← header_of (parse_tenant_header input)
    guard (tenant.key_id == key.tenant_key_id) err_auth
    auth ← parse_auth_tlv_header input pos
    pdu ← open_by key.auth_type key auth input pos
    ok (tenant, pdu)
