-- ===== src/Protocol.antt =====
-- The wire protocol (src/r_protocol.h, src/r_protocol.c): constants and blocks. The children
-- hold the routines.
pub mod Header
pub mod Body
pub mod Response
use rl_c_client.Prelude.{ℕ, Bool, List}

-- `R_TENANT_TLV_LEN` to `R_PDU_LATENCY_REPORT`.
abbrev pub tenant_tlv_len : ℕ
tenant_tlv_len = 40

abbrev pub pdu_header_len : ℕ
pdu_header_len = 8

abbrev pub max_packet_size : ℕ
max_packet_size = 1200

abbrev pub guard_block_wire_len : ℕ
guard_block_wire_len = 36

abbrev pub resource_block_wire_len : ℕ
resource_block_wire_len = 28

abbrev pub service_latency_block_wire_len : ℕ
service_latency_block_wire_len = 32

abbrev pub tlv_tenant : ℕ
tlv_tenant = 0x4C52

abbrev pub tlv_auth_cookie : ℕ
tlv_auth_cookie = 0x4143

abbrev pub tlv_auth_aes : ℕ
tlv_auth_aes = 0x4541

abbrev pub tlv_metrics_label : ℕ
tlv_metrics_label = 0x4C4D

abbrev pub pdu_rate_request : ℕ
pdu_rate_request = 0x5452

abbrev pub pdu_rate_response : ℕ
pdu_rate_response = 0x5252

abbrev pub pdu_latency_report : ℕ
pdu_latency_report = 0x524C

-- `r_tenant_header_t`; `padding` is two bytes.
pub record TenantHeader : Type 0 where
  pub tlv_type : ℕ
  pub tlv_size : ℕ
  pub key_id : ℕ
  pub unique_id : List ℕ
  pub time_stamp : ℕ
  pub steering_feedback : ℕ
  pub tenant_mgmt_flag : ℕ
  pub padding0 : ℕ
  pub padding1 : ℕ

-- `r_resource_request_t`, `r_latency_guard_t` and `r_service_latency_report_t`.
pub record ResourceRequest : Type 0 where
  pub bucket_id : List ℕ
  pub window_size_ms : ℕ
  pub rate_limit : ℕ
  pub tokens_requested : ℕ

pub record LatencyGuard : Type 0 where
  pub latency_tracker_id : List ℕ
  pub threshold_ms : ℕ
  pub ttl_ms : ℕ
  pub max_samples : ℕ
  pub min_sample_threshold : ℕ

pub record ServiceLatencyReport : Type 0 where
  pub latency_tracker_id : List ℕ
  pub observed_latency : ℕ
  pub ttl_ms : ℕ
  pub max_samples : ℕ
  pub min_sample_threshold : ℕ

-- `r_guard_result_t` and `r_resource_result_t`.
pub record GuardResult : Type 0 where
  pub latency_tracker_id : List ℕ
  pub threshold_ms : ℕ
  pub current_latency_ms : ℕ
  pub passed : Bool

pub record ResourceResult : Type 0 where
  pub bucket_id : List ℕ
  pub tokens_deficit : ℕ
  pub actual_rate : ℕ
