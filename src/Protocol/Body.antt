-- ===== src/Protocol/Body.antt =====
-- The builders of request and report bodies and of PDUs (src/r_protocol.c,
-- r_append_metrics_label_tlv to r_build_rate_request_pdu). A builder returns the bytes that it
-- stores from the start of its buffer; on an error the source leaves the length unset, and what it
-- has stored by then is not part of the result.
use rl_c_client.Prelude.{
  leb, ◌==◌, if◌then◌else◌, length, replicate, ℕ, suc, ◌+◌, ◌-◌, ◌*◌, ◌%◌, ◌&&◌, Option, none, some,
  List, [], ◌∷◌, ◌++◌,
}
use rl_c_client.Prelude.Results.{err_protocol, Result, ok, fault, ◌>>=◌, ◌>>◌, guard}
use rl_c_client.Bytes.{read_u8, read_bytes, write_le16, write_le32}
use rl_c_client.Protocol.{
  pdu_header_len, guard_block_wire_len, resource_block_wire_len, service_latency_block_wire_len,
  tlv_metrics_label, pdu_rate_request, ResourceRequest, LatencyGuard, ServiceLatencyReport,
}

-- `strlen` over the readable bytes at a pointer: without a terminator it runs out of them.
unfoldable pub strlen : List ℕ → Result ℕ
strlen [] = fault
strlen (c ∷ cs) = let rest = strlen cs in if c == 0 then ok 0 else rest >>= λ n. ok (suc n)

-- A length argument of zero means a string that ends with a NUL.
abbrev pub effective_len : List ℕ → ℕ → Result ℕ
effective_len label label_len = if label_len == 0 then strlen label else ok label_len

abbrev pub label_padding : ℕ → ℕ
label_padding body_len = (4 - body_len % 4) % 4

-- `buf` holds the `*inout_len` bytes stored so far.
unfoldable pub append_metrics_label_tlv : List ℕ → ℕ → List ℕ → ℕ → Result (List ℕ)
append_metrics_label_tlv buf buf_cap label label_len_arg = do
  label_len ← effective_len label label_len_arg
  guard (leb label_len 0xffff) err_protocol
  let body_len = 2 + label_len
  let padding = label_padding body_len
  let tlv_size = 4 + body_len + padding
  guard (leb tlv_size 0xffff) err_protocol
  guard (leb (length buf + tlv_size) buf_cap) err_protocol
  text ← read_bytes label 0 label_len
  ok (
      buf
      ++ (write_le16 tlv_metrics_label
          ++ (write_le16 tlv_size ++ (write_le16 label_len ++ (text ++ replicate padding 0)))))

-- One pass of the guard loop: `current_latency` is zero in a request.
unfoldable pub guard_block_bytes : LatencyGuard → List ℕ
guard_block_bytes g =
    g.latency_tracker_id
    ++ (write_le32 g.ttl_ms
        ++ (write_le32 g.max_samples
            ++ (write_le32 g.min_sample_threshold ++ (write_le32 g.threshold_ms ++ write_le32 0))))

unfoldable pub resource_block_bytes : ResourceRequest → List ℕ
resource_block_bytes r =
    r.bucket_id
    ++ (write_le32 r.window_size_ms
        ++ (write_le32 r.rate_limit ++ (write_le16 r.tokens_requested ++ write_le16 0)))

unfoldable pub service_latency_block_bytes : ServiceLatencyReport → List ℕ
service_latency_block_bytes r =
    r.latency_tracker_id
    ++ (write_le32 r.ttl_ms
        ++ (write_le32 r.max_samples
            ++ (write_le32 r.min_sample_threshold ++ write_le32 r.observed_latency)))

unfoldable pub guard_blocks : List LatencyGuard → List ℕ
guard_blocks [] = []
guard_blocks (g ∷ gs) = guard_block_bytes g ++ guard_blocks gs

unfoldable pub resource_blocks : List ResourceRequest → List ℕ
resource_blocks [] = []
resource_blocks (r ∷ rs) = resource_block_bytes r ++ resource_blocks rs

unfoldable pub service_latency_blocks : List ServiceLatencyReport → List ℕ
service_latency_blocks [] = []
service_latency_blocks (r ∷ rs) = service_latency_block_bytes r ++ service_latency_blocks rs

-- The body before the label.
unfoldable pub rate_request_blocks : List ResourceRequest → List LatencyGuard → List ℕ
unfolding guard_blocks resource_blocks
rate_request_blocks resources guards =
    write_le16 (length guards)
    ++ (write_le16 (length resources) ++ (guard_blocks guards ++ resource_blocks resources))

-- `metrics_label` may be NULL; an empty string adds no TLV.
unfoldable pub append_label : List ℕ → ℕ → Option (List ℕ) → ℕ → Result (List ℕ)
append_label body out_cap none label_len = ok body
append_label body out_cap (some label) label_len = do
  first ← read_u8 label 0
  if first == 0 then ok body else append_metrics_label_tlv body out_cap label label_len

unfoldable pub build_rate_request_body :
    List ResourceRequest → List LatencyGuard → Option (List ℕ) → ℕ → ℕ → Result (List ℕ)
build_rate_request_body resources guards metrics_label metrics_label_len out_cap = do
  guard (leb (length resources) 0xffff && leb (length guards) 0xffff) err_protocol
  let needed = 4 + length guards * guard_block_wire_len + length resources * resource_block_wire_len
  guard (leb needed out_cap) err_protocol
  append_label (rate_request_blocks resources guards) out_cap metrics_label metrics_label_len

unfoldable pub build_latency_report_body : List ServiceLatencyReport → ℕ → Result (List ℕ)
build_latency_report_body reports out_cap = do
  guard (leb (length reports) 0xffff) err_protocol
  guard (leb (4 + length reports * service_latency_block_wire_len) out_cap) err_protocol
  ok (write_le16 (length reports) ++ (write_le16 0 ++ service_latency_blocks reports))

unfoldable pub build_pdu : ℕ → List ℕ → ℕ → Result (List ℕ)
build_pdu pdu_type body out_cap = do
  let pdu_size = pdu_header_len + length body
  guard (leb pdu_size 0xffff && leb pdu_size out_cap) err_protocol
  ok (write_le16 pdu_type ++ (write_le16 pdu_size ++ (write_le16 0 ++ (write_le16 0 ++ body))))

unfoldable pub build_rate_request_pdu : ℕ → List ℕ → ℕ → Result (List ℕ)
build_rate_request_pdu dedup_ttl_ms body out_cap = do
  let pdu_size = pdu_header_len + length body
  guard (leb pdu_size 0xffff && leb pdu_size out_cap) err_protocol
  ok (write_le16 pdu_rate_request ++ (write_le16 pdu_size ++ (write_le32 dedup_ttl_ms ++ body)))
