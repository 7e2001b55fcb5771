-- ===== src/Protocol/Response.antt =====
-- The response parser (src/r_protocol.c, r_parse_rate_response_pdu).
pub mod Bounds
pub mod Verdict
pub mod RoundTrip
use rl_c_client.Prelude.{
  ltb, leb, ◌==◌, if◌then◌else◌, length, ℕ, zero, suc, ◌+◌, ◌-◌, Bool, true, false, ◌&&◌, List, [],
  ◌∷◌,
}
use rl_c_client.Prelude.Results.{err_protocol, Result, ok, ◌>>=◌, ◌>>◌, guard}
use rl_c_client.Bytes.{read_le16, read_le32, read_bytes}
use rl_c_client.Protocol.{
  pdu_header_len, guard_block_wire_len, resource_block_wire_len, pdu_rate_response, GuardResult,
  ResourceResult,
}

-- What the two loops carry from round to round: the entries stored, the position and `success`.
pub record Parsed (A : Type 0) : Type 0 where
  pub entries : List A
  pub pos : ℕ
  pub success : Bool

-- One round of the guard loop: the entry at `pos` of the body.
unfoldable pub parse_guard_block : List ℕ → ℕ → Result GuardResult
parse_guard_block body pos = do
  guard (leb (pos + guard_block_wire_len) (length body)) err_protocol
  latency_tracker_id ← read_bytes body pos 16
  latency_threshold ← read_le32 body (pos + 28)
  current_latency ← read_le32 body (pos + 32)
  ok (record {
    latency_tracker_id = latency_tracker_id;
    threshold_ms = latency_threshold;
    current_latency_ms = current_latency;
    passed = ltb current_latency latency_threshold;
  })

unfoldable pub parse_guards : ℕ → List ℕ → ℕ → Bool → Result (Parsed GuardResult)
parse_guards zero body pos success = ok (record { entries = []; pos = pos; success = success })
parse_guards (suc n) body pos success =
    let next = λ (ok_so_far : Bool). parse_guards n body (pos + guard_block_wire_len) ok_so_far in
    (do
      g ← parse_guard_block body pos
      rest ← next (if g.passed then success else false)
      ok (record rest { entries = g ∷ rest.entries }))

unfoldable pub parse_resource_block : List ℕ → ℕ → Result ResourceResult
parse_resource_block body pos = do
  guard (leb (pos + resource_block_wire_len) (length body)) err_protocol
  bucket_id ← read_bytes body pos 16
  actual_rate ← read_le32 body (pos + 20)
  tokens_deficit ← read_le16 body (pos + 24)
  ok (record { bucket_id = bucket_id; tokens_deficit = tokens_deficit; actual_rate = actual_rate })

unfoldable pub parse_resources : ℕ → List ℕ → ℕ → Bool → Result (Parsed ResourceResult)
parse_resources zero body pos success = ok (record { entries = []; pos = pos; success = success })
parse_resources (suc n) body pos success =
    let next =
      λ (ok_so_far : Bool). parse_resources n body (pos + resource_block_wire_len) ok_so_far in
    (do
      r ← parse_resource_block body pos
      rest ← next (if r.tokens_deficit == 0 then success else false)
      ok (record rest { entries = r ∷ rest.entries }))

-- The arrays with their counts, and `*out_success`.
pub record RateResponse : Type 0 where
  pub guards : List GuardResult
  pub resources : List ResourceResult
  pub success : Bool

-- The two loops over a body whose counts have been accepted.
unfoldable pub parse_blocks : List ℕ → ℕ → ℕ → Result RateResponse
parse_blocks body guard_count resource_count = do
  guards ← parse_guards guard_count body 4 true
  resources ← parse_resources resource_count body guards.pos guards.success
  ok (record {
    guards = guards.entries;
    resources = resources.entries;
    success = resources.success;
  })

-- The bytes of the PDU behind its header, as far as the header says.
unfoldable pub response_body : List ℕ → Result (List ℕ)
response_body pdu = do
  guard (leb pdu_header_len (length pdu)) err_protocol
  pdu_type ← read_le16 pdu 0
  guard (pdu_type == pdu_rate_response) err_protocol
  pdu_size ← read_le16 pdu 2
  guard (leb pdu_header_len pdu_size && leb pdu_size (length pdu)) err_protocol
  body ← read_bytes pdu pdu_header_len (pdu_size - pdu_header_len)
  guard (leb 4 (length body)) err_protocol
  ok body

unfoldable pub parse_rate_response_pdu : List ℕ → ℕ → ℕ → Result RateResponse
parse_rate_response_pdu pdu guard_cap res_cap = do
  body ← response_body pdu
  guard_count ← read_le16 body 0
  resource_count ← read_le16 body 2
  guard (leb guard_count guard_cap && leb resource_count res_cap) err_protocol
  parse_blocks body guard_count resource_count
