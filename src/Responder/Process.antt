-- ===== src/Responder/Process.antt =====
-- One datagram through the responder (tools/r_test_responder_protocol.c, observe_tracker,
-- build_authenticated_response, r_test_responder_process).
use rl_c_client.Prelude.{
  ltb, leb, ◌==◌, if◌then◌else◌, length, set, get_or, take, ℕ, ◌+◌, ◌-◌, ◌%◌, ◌^◌, Bool, true,
  false, not, Option, none, some, List, [], ◌++◌,
}
use rl_c_client.Prelude.Results.{err_protocol, err_auth, Result, ok, err, fault, guard, ◌>>=◌, ◌>>◌}
use rl_c_client.Bytes.{read_le32, read_bytes, write_le16}
use rl_c_client.Protocol.{
  tenant_tlv_len, max_packet_size, tlv_tenant, tlv_auth_cookie, tlv_auth_aes, pdu_latency_report,
  TenantHeader,
}
use rl_c_client.Protocol.Header.{tenant_header_bytes}
use rl_c_client.Client.Machine.{bytes_eq, AuthType, auth_unset, auth_cookie, auth_aes_gcm}
use rl_c_client.Packet.{Gcm, encrypt_pdu_aes_gcm}
use rl_c_client.Responder.{
  ResponderKey, ParsedRequest, parse_request_pdu, extract_authenticated_pdu,
}
use rl_c_client.Responder.Quota.{QuotaEntry}
use rl_c_client.Responder.Reply.{
  Scenario, drop_reply, malformed_auth, malformed_truncated, malformed_request_id,
  build_response_pdu,
}

-- `r_test_responder_state_t`; `last_guard` is `none` without `has_last_guard_latency_tracker_id`.
pub record ResponderState : Type 0 where
  pub key : ResponderKey
  pub scenario : Scenario
  pub server_id : ℕ
  pub steering_keep_port : Bool
  pub allow_count : ℕ
  pub sequence : ℕ
  pub last_guard : Option (List ℕ)
  pub quota : List QuotaEntry

pub data EventKind : Type 0 where
  input_rejected rate_request latency_reported : EventKind

-- `disposition`; `named` is the name of a scenario.
pub data Disposition : Type 0 where
  rejected observed dropped : Disposition
  named : Scenario → Disposition

-- `r_test_tracker_observation_t`.
pub record Tracker : Type 0 where
  pub latency_tracker_id : List ℕ
  pub ttl_ms : ℕ
  pub max_samples : ℕ
  pub min_sample_threshold : ℕ

-- `r_test_event_t`; `tracker` is `none` while it is not present.
pub record ResponderEvent : Type 0 where
  pub kind : EventKind
  pub sequence : ℕ
  pub guard_count : ℕ
  pub resource_count : ℕ
  pub report_count : ℕ
  pub tracker : Option Tracker
  pub tracker_matches_guard : Bool
  pub guard_threshold_ms : ℕ
  pub observed_latency_ms : ℕ
  pub label : List ℕ
  pub disposition : Disposition

abbrev pub rejected_event : ℕ → ResponderEvent
rejected_event sequence = record {
  kind = input_rejected;
  sequence = sequence;
  guard_count = 0;
  resource_count = 0;
  report_count = 0;
  tracker = none;
  tracker_matches_guard = false;
  guard_threshold_ms = 0;
  observed_latency_ms = 0;
  label = [];
  disposition = rejected;
}

unfoldable pub observe_tracker : List ℕ → Result Tracker
observe_tracker block = do
  id ← read_bytes block 0 16
  ttl_ms ← read_le32 block 16
  max_samples ← read_le32 block 20
  min_sample_threshold ← read_le32 block 24
  ok (record {
    latency_tracker_id = id;
    ttl_ms = ttl_ms;
    max_samples = max_samples;
    min_sample_threshold = min_sample_threshold;
  })

-- `tenant.unique_id[0] ^= 0x80u` and `output[corrupt_offset] ^= 0x01u`, on a byte.
abbrev pub flip_high : ℕ → ℕ
flip_high b = if ltb b 128 then b + 128 else b - 128

abbrev pub flip_low : ℕ → ℕ
flip_low b = if b % 2 == 0 then b + 1 else b - 1

abbrev pub reply_id : Bool → List ℕ → List ℕ
reply_id wrong id = if wrong then set id 0 (flip_high (get_or id 0 0)) else id

abbrev pub reply_header : ResponderState → TenantHeader → Bool → TenantHeader
reply_header state tenant wrong_request_id = record {
  tlv_type = tlv_tenant;
  tlv_size = tenant_tlv_len;
  key_id = state.server_id;
  unique_id = reply_id wrong_request_id tenant.unique_id;
  time_stamp = tenant.time_stamp;
  steering_feedback = if state.steering_keep_port then 1 else 0;
  tenant_mgmt_flag = 0;
  padding0 = 0;
  padding1 = 0;
}

abbrev pub is_wrong_id : Scenario → Bool
is_wrong_id malformed_request_id = true
is_wrong_id _ = false

-- The offset of the byte that a malformed answer flips.
abbrev pub corrupt_offset : AuthType → ℕ
corrupt_offset auth_aes_gcm = tenant_tlv_len + 4 + 12
corrupt_offset _ = tenant_tlv_len + 4

-- What a scenario does to a finished answer.
unfoldable pub malform : Scenario → AuthType → List ℕ → Result (List ℕ)
malform malformed_auth auth_type output =
    let at = corrupt_offset auth_type in
    guard (ltb at (length output)) err_protocol
    >> ok (set output at (flip_low (get_or output at 0)))
malform malformed_truncated auth_type output =
    guard (not (length output == 0)) err_protocol >> ok (take (length output - 1) output)
malform _ auth_type output = ok output

module _ (gcm : Gcm) where
  unfoldable pub seal_reply :
      AuthType → List ℕ → Option (List ℕ) → List ℕ → List ℕ → ℕ → Result (List ℕ)
  seal_reply auth_cookie secret drawn header pdu out_cap = do
    guard (leb (tenant_tlv_len + 36 + length pdu) out_cap) err_protocol
    ok (header ++ (write_le16 tlv_auth_cookie ++ (write_le16 36 ++ (secret ++ pdu))))
  seal_reply auth_aes_gcm secret drawn header pdu out_cap = do
    guard (leb (tenant_tlv_len + 32 + length pdu) out_cap) err_protocol
    let aad = header ++ (write_le16 tlv_auth_aes ++ write_le16 32)
    elim (encrypt_pdu_aes_gcm gcm drawn pdu secret aad max_packet_size) [
      | none ↦ err err_auth
      | some s ↦ ok (aad ++ (s.nonce ++ (s.tag ++ s.cipher)))
    ]
  seal_reply auth_unset secret drawn header pdu out_cap = err err_protocol

  unfoldable pub build_authenticated_response :
      ResponderState → TenantHeader → Option (List ℕ) → List ℕ → ℕ → Result (List ℕ)
  build_authenticated_response state tenant drawn pdu out_cap = do
    guard (leb tenant_tlv_len out_cap) err_protocol
    seal_reply state.key.auth_type state.key.secret drawn
        (tenant_header_bytes (reply_header state tenant (is_wrong_id state.scenario))) pdu out_cap

  -- The answer from the PDU on.
  unfoldable pub answer :
      ResponderState → TenantHeader → Option (List ℕ) → Result (List ℕ) → ℕ → Result (List ℕ)
  answer state tenant drawn response out_cap = do
    pdu ← response
    output ← build_authenticated_response state tenant drawn pdu out_cap
    malform state.scenario state.key.auth_type output

-- The outcome of a datagram: the status, the event, the answer that is to be sent, if any, and the
-- state.
pub record Processed : Type 0 where
  pub status : Result (Unit {0})
  pub event : ResponderEvent
  pub output : Option (List ℕ)
  pub state : ResponderState

abbrev pub processed_error : Result (Unit {0}) → ResponderEvent → ResponderState → Processed
processed_error status event state = record {
  status = status;
  event = event;
  output = none;
  state = state;
}

-- A report: the first block is observed, and compared with the last guard.
abbrev pub matches_guard : Option (List ℕ) → List ℕ → Bool
matches_guard none id = false
matches_guard (some last) id = bytes_eq id last

unfoldable pub report_event : ResponderState → ParsedRequest → Result ResponderEvent
report_event state request =
    let event = record (rejected_event state.sequence) {
      kind = latency_reported;
      report_count = request.report_count;
      disposition = observed;
    } in
    if ltb 0 request.report_count
    then (do
      tracker ← observe_tracker request.reports
      latency ← read_le32 request.reports 28
      ok (record event {
        tracker = some tracker;
        observed_latency_ms = latency;
        tracker_matches_guard = matches_guard state.last_guard tracker.latency_tracker_id;
      }))
    else ok event

-- A request: the first guard is observed.
unfoldable pub request_event : ResponderState → ParsedRequest → Result ResponderEvent
request_event state request =
    let event = record (rejected_event state.sequence) {
      kind = rate_request;
      guard_count = request.guard_count;
      resource_count = request.resource_count;
      label = request.label;
    } in
    if ltb 0 request.guard_count
    then (do
      tracker ← observe_tracker request.guards
      threshold ← read_le32 request.guards 28
      ok (record event { tracker = some tracker; guard_threshold_ms = threshold }))
    else ok event

abbrev pub observed_id : Option Tracker → Option (List ℕ)
observed_id none = none
observed_id (some t) = some t.latency_tracker_id

abbrev pub is_drop : Scenario → Bool
is_drop drop_reply = true
is_drop _ = false

unfoldable pub finish_answer : ResponderState → ResponderEvent → Result (List ℕ) → Processed
finish_answer state event (ok output) = record {
  status = ok tt;
  event = record event { disposition = named state.scenario };
  output = some output;
  state = state;
}
finish_answer state event (err e) = processed_error (err e) event state
finish_answer state event fault = processed_error fault event state

unfoldable pub process_report : ResponderState → Result ResponderEvent → Processed
process_report state (ok event) = processed_error (ok tt) event state
process_report state (err e) = processed_error (err e) (rejected_event state.sequence) state
process_report state fault = processed_error fault (rejected_event state.sequence) state

module _ (gcm : Gcm) where
  unfoldable pub process_request :
      ResponderState
      → TenantHeader
      → Option (List ℕ)
      → ParsedRequest
      → ℕ
      → Result ResponderEvent
      → Processed
  process_request state tenant drawn request out_cap (err e) =
      processed_error (err e) (rejected_event state.sequence) state
  process_request state tenant drawn request out_cap fault =
      processed_error fault (rejected_event state.sequence) state
  process_request state tenant drawn request out_cap (ok event) =
      let noted = record state { last_guard = observed_id event.tracker } in
      let (response, entries) =
        build_response_pdu noted.scenario noted.allow_count request max_packet_size noted.quota in
      let counted = record noted { quota = entries } in
      if is_drop noted.scenario
      then processed_error (ok tt) (record event { disposition = dropped }) noted
      else finish_answer counted event (answer gcm counted tenant drawn response out_cap)

  unfoldable pub process_parsed :
      ResponderState → TenantHeader → Option (List ℕ) → ℕ → Result ParsedRequest → Processed
  process_parsed state tenant drawn out_cap (err e) =
      processed_error (err e) (rejected_event state.sequence) state
  process_parsed state tenant drawn out_cap fault =
      processed_error fault (rejected_event state.sequence) state
  process_parsed state tenant drawn out_cap (ok request) =
      if request.pdu_type == pdu_latency_report
      then process_report state (report_event state request)
      else process_request state tenant drawn request out_cap (request_event state request)

  unfoldable pub process_opened :
      ResponderState → Option (List ℕ) → ℕ → Result (TenantHeader × List ℕ) → Processed
  process_opened state drawn out_cap (err e) =
      processed_error (err e) (rejected_event state.sequence) state
  process_opened state drawn out_cap fault =
      processed_error fault (rejected_event state.sequence) state
  process_opened state drawn out_cap (ok (tenant, pdu)) =
      process_parsed state tenant drawn out_cap (parse_request_pdu pdu)

  -- A datagram that is not empty; `drawn` is the nonce of its answer.
  unfoldable pub process : ResponderState → Option (List ℕ) → List ℕ → ℕ → Processed
  process state drawn input out_cap =
      let next = record state { sequence = (state.sequence + 1) % 2 ^ 64 } in
      process_opened next drawn out_cap (extract_authenticated_pdu gcm next.key input)
