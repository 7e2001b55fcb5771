-- ===== src/Datagram.antt =====
-- A datagram from a server (src/r_client.c, r_parse_rate_response_alloc, r_client_on_datagram).
pub mod Rejection
pub mod Answer
use rl_c_client.Prelude.{
  ltb, leb, ◌==◌, if◌then◌else◌, length, ℕ, ◌+◌, ◌-◌, Bool, true, not, ◌&&◌, ◌||◌, Option, none,
  some, List, [], ◌∷◌,
}
use rl_c_client.Prelude.Results.{
  ClientError, rclient_ok, err_protocol, err_nomem, Result, ok, err, fault, guard, ◌>>=◌, ◌>>◌,
}
use rl_c_client.Bytes.{read_le16, read_bytes}
use rl_c_client.Protocol.{pdu_header_len, max_packet_size, pdu_rate_response, TenantHeader}
use rl_c_client.Protocol.Header.{parse_tenant_header}
use rl_c_client.Protocol.Response.{RateResponse, parse_rate_response_pdu}
use rl_c_client.Client.Machine.{Addr, bytes_eq, RateLimitResult, Request, Machine, M, now_ms, alloc}
use rl_c_client.Client.Servers.{
  is_oldest_known_server, allowed_server_id, seen_addr_add, seen_server_add,
}
use rl_c_client.Client.Candidate.{candidate_try_update_best}
use rl_c_client.Client.Complete.{request_complete, store}
use rl_c_client.Packet.{Gcm, extract_pdu_data}

-- The counts of guards and resources, and the PDU without what follows it.
unfoldable pub response_counts : List ℕ → Result (ℕ × (ℕ × List ℕ))
response_counts pdu = do
  guard (leb pdu_header_len (length pdu)) err_protocol
  pdu_type ← read_le16 pdu 0
  guard (pdu_type == pdu_rate_response) err_protocol
  pdu_size ← read_le16 pdu 2
  guard (leb pdu_header_len pdu_size && leb pdu_size (length pdu)) err_protocol
  guard (leb 4 (pdu_size - pdu_header_len)) err_protocol
  guard_count ← read_le16 pdu pdu_header_len
  res_count ← read_le16 pdu (pdu_header_len + 2)
  whole ← read_bytes pdu 0 pdu_size
  ok (guard_count, (res_count, whole))

-- `calloc`, for an array that is not empty.
abbrev pub alloc_array : ℕ → M Bool
alloc_array count s = if ltb 0 count then alloc s else (true, s)

-- The arrays are as long as the counts.
unfoldable pub parse_counted : ℕ → ℕ → List ℕ → M (Result RateResponse)
parse_counted guard_count res_count whole s =
    let (guards_work, s1) = alloc_array guard_count s in
    let (resources_work, s2) = alloc_array res_count s1 in
    if not guards_work
    then (err err_nomem, s1)
    else if not resources_work
    then (err err_nomem, s2)
    else (parse_rate_response_pdu whole guard_count res_count, s2)

unfoldable pub parse_of_counts : Result (ℕ × (ℕ × List ℕ)) → M (Result RateResponse)
parse_of_counts (err e) s = (err e, s)
parse_of_counts fault s = (fault, s)
parse_of_counts (ok (guard_count, (res_count, whole))) s =
    parse_counted guard_count res_count whole s

unfoldable pub parse_rate_response_alloc : List ℕ → M (Result RateResponse)
parse_rate_response_alloc pdu = parse_of_counts (response_counts pdu)

-- The first request in flight with this id.
unfoldable pub find_request_id : List ℕ → List Request → Option Request
find_request_id id [] = none
find_request_id id (r ∷ rs) = if bytes_eq r.request_id id then some r else find_request_id id rs

-- From the test of the best answer on: the completion, or an earlier deadline.
unfoldable pub settle_by : Option RateLimitResult → Request → ℕ → Machine → Machine
settle_by none req now s = store req s
settle_by (some best) req now s =
    if is_oldest_known_server req best.server_id || leb req.ha_preference_deadline_ms now
    then request_complete req rclient_ok (some best) (store req s)
    else if ltb req.ha_preference_deadline_ms req.attempt_deadline_ms
    then store (record req { attempt_deadline_ms = req.ha_preference_deadline_ms }) s
    else store req s

-- The request with the answer noted.
unfoldable pub note_response : TenantHeader → RateResponse → Request → Request
note_response tenant response req = record req {
  best =
      (candidate_try_update_best req.best tenant.key_id (not (tenant.steering_feedback == 0))
        response).0;
}

-- A response that has been parsed.
unfoldable pub accept_response : TenantHeader → Addr → RateResponse → Request → Machine → Machine
accept_response tenant from response req s =
    let noted =
      if tenant.steering_feedback == 0 then record req { steering_rebind = true } else req in
    let (now, s1) = now_ms s in
    let (req2, s2) = seen_addr_add from noted s1 in
    let (req3, s3) = seen_server_add tenant.key_id req2 s2 in
    (let answered = note_response tenant response req3 in settle_by answered.best answered now s3)

unfoldable pub accept_parsed :
    TenantHeader → Addr → Request → Result RateResponse → M (Result ClientError)
accept_parsed tenant from req (err e) s = (ok e, s)
accept_parsed tenant from req fault s = (fault, s)
accept_parsed tenant from req (ok response) s =
    (ok rclient_ok, accept_response tenant from response req s)

-- What the opening of the datagram gave.
unfoldable pub accept_opened :
    TenantHeader → Addr → Request → Result (List ℕ) → M (Result ClientError)
accept_opened tenant from req (err e) s = (ok e, s)
accept_opened tenant from req fault s = (fault, s)
accept_opened tenant from req (ok pdu) s =
    let (parsed, s1) = parse_rate_response_alloc pdu s in accept_parsed tenant from req parsed s1

module _ (gcm : Gcm) where
  -- A datagram for a request in flight; one for none of them is dropped.
  unfoldable pub on_response :
      List ℕ → Addr → TenantHeader → ℕ → Option Request → M (Result ClientError)
  on_response buf from tenant pos none s = (ok rclient_ok, s)
  on_response buf from tenant pos (some req) s =
      let (now, s1) = now_ms s in
      if ltb req.dedup_deadline_ms now || not (allowed_server_id req tenant.key_id)
      then (ok rclient_ok, s1)
      else accept_opened tenant from req (extract_pdu_data gcm s.client buf pos max_packet_size) s1

  unfoldable pub on_header : List ℕ → Addr → Result (TenantHeader × ℕ) → M (Result ClientError)
  on_header buf from (err e) s = (ok e, s)
  on_header buf from fault s = (fault, s)
  on_header buf from (ok (tenant, pos)) s =
      on_response buf from tenant pos (find_request_id tenant.unique_id s.client.inflight) s

  -- An empty datagram has no header either, and the same status.
  unfoldable pub on_datagram : List ℕ → Addr → M (Result ClientError)
  on_datagram buf from = on_header buf from (parse_tenant_header buf)
