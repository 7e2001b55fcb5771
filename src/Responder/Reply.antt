-- ===== src/Responder/Reply.antt =====
-- The responder's answers (tools/r_test_responder_protocol.c, build_response_pdu,
-- build_authenticated_response).
use rl_c_client.Prelude.{
  ltb, ◌==◌, if◌then◌else◌, get_or, take, replicate, ℕ, zero, suc, ◌+◌, ◌-◌, ◌*◌, ◌^◌, Bool, true,
  false, ◌||◌, Option, none, some, List, [], ◌++◌,
}
use rl_c_client.Prelude.Results.{err_protocol, err_nomem, Result, ok, err, fault, ◌>>=◌}
use rl_c_client.Bytes.{read_le32, read_bytes, write_le16, write_le32}
use rl_c_client.Protocol.{
  pdu_header_len, max_packet_size, guard_block_wire_len, resource_block_wire_len, pdu_rate_response,
}
use rl_c_client.Protocol.Body.{build_pdu}
use rl_c_client.Responder.{ParsedRequest}
use rl_c_client.Responder.Quota.{QuotaEntry, quota_allows}

-- `r_test_scenario_t`.
pub data Scenario : Type 0 where
  allow deny guard_pass guard_deny quota drop_reply : Scenario
  malformed_auth malformed_truncated malformed_request_id : Scenario
  count_empty count_short count_extra : Scenario

-- The counts of guards and resources that the answer has.
unfoldable pub reply_counts : Scenario → ℕ → ℕ → Result (ℕ × ℕ)
reply_counts count_empty guard_count resource_count = ok (0, 0)
reply_counts count_short guard_count resource_count =
    if ltb 0 resource_count
    then ok (guard_count, resource_count - 1)
    else if ltb 0 guard_count
    then ok (guard_count - 1, resource_count)
    else ok (guard_count, resource_count)
reply_counts count_extra guard_count resource_count =
    if ltb resource_count 0xffff
    then ok (guard_count, resource_count + 1)
    else if ltb guard_count 0xffff
    then ok (guard_count + 1, resource_count)
    else err err_protocol
reply_counts _ guard_count resource_count = ok (guard_count, resource_count)

-- The block that a guard's answer starts from: the request's, or an empty one.
unfoldable pub guard_source : ParsedRequest → ℕ → Result (List ℕ)
guard_source request i =
    if ltb i request.guard_count
    then read_bytes request.guards (i * guard_block_wire_len) guard_block_wire_len
    else ok (replicate 28 0 ++ (write_le32 1 ++ replicate 4 0))

abbrev pub reply_current : Scenario → ℕ → ℕ
reply_current guard_deny threshold = threshold
reply_current _ threshold = threshold - 1

unfoldable pub reply_guard : Scenario → ParsedRequest → ℕ → Result (List ℕ)
reply_guard scenario request i = do
  block ← guard_source request i
  threshold ← read_le32 block 28
  ok (take 32 block ++ write_le32 (reply_current scenario threshold))

-- The loop over `n` guards from the i-th on.
unfoldable pub reply_guards : Scenario → ParsedRequest → (n : ℕ) → ℕ → Result (List ℕ)
reply_guards scenario request zero i = ok []
reply_guards scenario request (suc n) i = do
  block ← reply_guard scenario request i
  rest ← reply_guards scenario request n (i + 1)
  ok (block ++ rest)

-- A denial's deficit: the tokens of the request, or one.
abbrev pub denied_deficit : ℕ → ℕ
denied_deficit tokens = if tokens == 0 then 1 else tokens

-- The deficit by the quota's verdict, `none` for -1.
abbrev pub quota_deficit : ℕ → Option Bool × List QuotaEntry → Result ℕ × List QuotaEntry
quota_deficit tokens (none, entries) = (err err_nomem, entries)
quota_deficit tokens (some true, entries) = (ok 0, entries)
quota_deficit tokens (some false, entries) = (ok (denied_deficit tokens), entries)

unfoldable pub reply_deficit :
    Scenario → ℕ → List ℕ → ℕ → List QuotaEntry → Result ℕ × List QuotaEntry
reply_deficit deny allow_count bucket_id tokens entries = (ok (denied_deficit tokens), entries)
reply_deficit quota allow_count bucket_id tokens entries =
    quota_deficit tokens (quota_allows allow_count bucket_id entries)
reply_deficit _ allow_count bucket_id tokens entries = (ok 0, entries)

-- A block with its deficit.
unfoldable pub resource_block : List ℕ → Result ℕ → Result (List ℕ)
resource_block block deficit = do d ← deficit; ok (take 24 block ++ (write_le16 d ++ write_le16 0))

-- From the request's block, of 28 bytes, on.
unfoldable pub reply_of_block :
    Scenario → ℕ → Result (List ℕ) → List QuotaEntry → Result (List ℕ) × List QuotaEntry
reply_of_block scenario allow_count (err e) entries = (err e, entries)
reply_of_block scenario allow_count fault entries = (fault, entries)
reply_of_block scenario allow_count (ok block) entries =
    let tokens = get_or block 24 0 + get_or block 25 0 * 2 ^ 8 in
    let (deficit, entries') = reply_deficit scenario allow_count (take 16 block) tokens entries in
    (resource_block block deficit, entries')

unfoldable pub reply_resource :
    Scenario → ℕ → ParsedRequest → ℕ → List QuotaEntry → Result (List ℕ) × List QuotaEntry
reply_resource scenario allow_count request i entries =
    if ltb i request.resource_count
    then reply_of_block scenario allow_count
        (read_bytes request.resources (i * resource_block_wire_len) resource_block_wire_len) entries
    else (resource_block (replicate 28 0) (ok 1), entries)

-- A block in front of the others; an error ends the loop.
abbrev pub then_blocks :
    Result (List ℕ)
    → Result (List ℕ) × List QuotaEntry
    → List QuotaEntry
    → Result (List ℕ) × List QuotaEntry
then_blocks (ok block) (rest, entries') entries = (do bs ← rest; ok (block ++ bs), entries')
then_blocks (err e) after entries = (err e, entries)
then_blocks fault after entries = (fault, entries)

unfoldable pub reply_resources :
    Scenario → ℕ → ParsedRequest → (n : ℕ) → ℕ → List QuotaEntry → Result (List ℕ) × List QuotaEntry
reply_resources scenario allow_count request zero i entries = (ok [], entries)
reply_resources scenario allow_count request (suc n) i entries =
    let (block, entries') = reply_resource scenario allow_count request i entries in
    then_blocks block (reply_resources scenario allow_count request n (i + 1) entries') entries'

-- From the guards' blocks on.
unfoldable pub finish_reply :
    ℕ
    → ℕ
    → Result (List ℕ)
    → Result (List ℕ) × List QuotaEntry
    → ℕ
    → Result (List ℕ) × List QuotaEntry
finish_reply guard_count resource_count guards (resources, entries) out_cap = (
  (do
    gs ← guards
    rs ← resources
    build_pdu pdu_rate_response
        (write_le16 guard_count ++ (write_le16 resource_count ++ (gs ++ rs))) out_cap),
  entries,
)

abbrev pub reply_len : ℕ → ℕ → ℕ
reply_len guard_count resource_count =
    4 + guard_count * guard_block_wire_len + resource_count * resource_block_wire_len

-- The guards' loop reads only the request, so a fault there is as well before the quota.
unfoldable pub reply_of_counts :
    Scenario
    → ℕ
    → ParsedRequest
    → Result (ℕ × ℕ)
    → ℕ
    → List QuotaEntry
    → Result (List ℕ) × List QuotaEntry
reply_of_counts scenario allow_count request (err e) out_cap entries = (err e, entries)
reply_of_counts scenario allow_count request fault out_cap entries = (fault, entries)
reply_of_counts scenario allow_count request (ok (guard_count, resource_count)) out_cap entries =
    if ltb max_packet_size (reply_len guard_count resource_count)
      || ltb out_cap (reply_len guard_count resource_count + pdu_header_len)
    then (err err_protocol, entries)
    else finish_reply guard_count resource_count (reply_guards scenario request guard_count 0)
        (reply_resources scenario allow_count request resource_count 0 entries) out_cap

-- The PDU of the answer, and the quota after it.
unfoldable pub build_response_pdu :
    Scenario → ℕ → ParsedRequest → ℕ → List QuotaEntry → Result (List ℕ) × List QuotaEntry
build_response_pdu scenario allow_count request =
    reply_of_counts scenario allow_count request
      (reply_counts scenario request.guard_count request.resource_count)
