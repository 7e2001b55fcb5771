-- ===== src/Responder/Verdict/Blocks.antt =====
-- The blocks of an answer (tools/r_test_responder_protocol.c, build_response_pdu).
use rl_c_client.Prelude.{
  append_assoc, lt→ltb, length, length-append, get_or, take, drop, drop-add, drop_skip, ℕ, suc, ◌+◌,
  ◌*◌, ◌^◌, ◌<◌, ◌≡◌, refl, ap, ◌∙◌, Bool, true, false, List, [], ◌∷◌, ◌++◌, map, arith,
}
use rl_c_client.Prelude.Results.{ok}
use rl_c_client.Bytes.{read_le32, read_bytes, write_le16, write_le32}
use rl_c_client.Bytes.RoundTrip.{read_le32-eq, read_bytes-eq}
use rl_c_client.Protocol.{
  guard_block_wire_len, resource_block_wire_len, ResourceRequest, LatencyGuard,
}
use rl_c_client.Protocol.Body.{guard_block_bytes, resource_block_bytes, guard_blocks}
use rl_c_client.Protocol.Response.RoundTrip.{
  WireGuard, WireResource, wire_guard, wire_resource, wire_guards,
}
use rl_c_client.Responder.{ParsedRequest}
use rl_c_client.Responder.Quota.{QuotaEntry}
use rl_c_client.Responder.Reply.{
  Scenario, allow, deny, guard_pass, guard_deny, quota, drop_reply, malformed_auth,
  malformed_truncated, malformed_request_id, count_empty, count_short, count_extra, guard_source,
  reply_current, reply_guard, reply_guards, denied_deficit, reply_deficit, resource_block,
  reply_of_block, reply_resource,
}

-- The answer that the responder gives to a guard and to a resource, outside the quota.
abbrev pub answered_guard : Scenario → LatencyGuard → WireGuard
answered_guard scenario g = record {
  tracker_id = g.latency_tracker_id;
  settings = write_le32 g.ttl_ms ++ (write_le32 g.max_samples ++ write_le32 g.min_sample_threshold);
  threshold = g.threshold_ms;
  current = reply_current scenario g.threshold_ms;
}

abbrev pub deficit_of : Scenario → ℕ → ℕ
deficit_of deny tokens = denied_deficit tokens
deficit_of _ tokens = 0

abbrev pub answered_resource : Scenario → ResourceRequest → WireResource
answered_resource scenario r = record {
  id = r.bucket_id;
  window = write_le32 r.window_size_ms;
  rate = r.rate_limit;
  deficit = deficit_of scenario r.tokens_requested;
  padding = write_le16 0;
}

-- The fields have their widths.
pub record FitsGuard (g : LatencyGuard) : Type 0 where
  pub identified : length g.latency_tracker_id ≡ 16
  pub threshold_u32 : g.threshold_ms < 2 ^ 32

pub record FitsResource (r : ResourceRequest) : Type 0 where
  pub identified : length r.bucket_id ≡ 16
  pub rate_u32 : r.rate_limit < 2 ^ 32
  pub tokens_u16 : r.tokens_requested < 2 ^ 16

abbrev pub FitGuards : List LatencyGuard → Type 0
FitGuards [] = Unit
FitGuards (g ∷ gs) = FitsGuard g × FitGuards gs

abbrev pub FitResources : List ResourceRequest → Type 0
FitResources [] = Unit
FitResources (r ∷ rs) = FitsResource r × FitResources rs

take-append_more :
    (m n : ℕ) (xs ys : List ℕ) → length xs ≡ m → take (m + n) (xs ++ ys) ≡ xs ++ take n ys
take-append_more m n [] ys e = let z : m + n ≡ n = omega arith in rw z refl
take-append_more m n (x ∷ xs) ys e =
    let z : m + n ≡ suc (length xs + n) = omega arith in
    rw z (ap (◌∷◌ x) (take-append_more (length xs) n xs ys refl))

pub length-guard_block_bytes :
    (g : LatencyGuard) → FitsGuard g → length (guard_block_bytes g) ≡ guard_block_wire_len
unfolding guard_block_bytes write_le32
length-guard_block_bytes g fits = let id_16 = fits.identified in simp length-append (omega arith)

-- A block in front of more than it stands in front of.
pub wire_guard-append :
    (w : WireGuard) (rest more : List ℕ) → wire_guard w rest ++ more ≡ wire_guard w (rest ++ more)
unfolding write_le32
wire_guard-append w rest more =
    append_assoc w.tracker_id _ more ∙ ap (λ t. w.tracker_id ++ t) (append_assoc w.settings _ more)

module _ (scenario : Scenario) (request : ParsedRequest) where
  pub reply_guard-eq :
      (g : LatencyGuard) (i : ℕ) (rest : List ℕ)
      → FitsGuard g
      → drop (i * guard_block_wire_len) request.guards ≡ guard_block_bytes g ++ rest
      → i < request.guard_count
      → reply_guard scenario request i ≡ ok (wire_guard (answered_guard scenario g) [])
  unfolding reply_guard guard_source guard_block_bytes write_le32
  reply_guard-eq g i rest fits at inside =
      let block = guard_block_bytes g in
      let id = g.latency_tracker_id in
      let id_16 = fits.identified in
      let size : length block ≡ guard_block_wire_len = simp length-append (omega arith) in
      let tail = drop_skip block 0 16 16 id _ refl id_16 refl in
      let thr : drop 28 block ≡ write_le32 g.threshold_ms ++ write_le32 0 =
        drop-add 16 12 block ∙ ap (drop 12) tail in
      let settled = (answered_guard scenario g).settings in
      let kept : take 32 block ≡ id ++ (settled ++ write_le32 g.threshold_ms) =
        take-append_more 16 16 id _ id_16 in
      let current = write_le32 (reply_current scenario g.threshold_ms) in
      let first : read_bytes request.guards (i * guard_block_wire_len) guard_block_wire_len
          ≡ ok block =
        read_bytes-eq request.guards (i * guard_block_wire_len) rest guard_block_wire_len block at
          size in
      let second : read_le32 block 28 ≡ ok g.threshold_ms =
        read_le32-eq block 28 (write_le32 0) g.threshold_ms thr fits.threshold_u32 in
      let joined : take 32 block ++ current ≡ wire_guard (answered_guard scenario g) [] =
        ap (λ front. front ++ current) kept
        ∙ append_assoc id (settled ++ write_le32 g.threshold_ms) current in
      rw (lt→ltb i request.guard_count inside, first, second) (ap ok joined)

  pub reply_guards-eq :
      (gs : List LatencyGuard) (i : ℕ) (rest : List ℕ)
      → FitGuards gs
      → drop (i * guard_block_wire_len) request.guards ≡ guard_blocks gs ++ rest
      → i + length gs ≡ request.guard_count
      → reply_guards scenario request (length gs) i
        ≡ ok (wire_guards (map (answered_guard scenario) gs) [])
  unfolding reply_guards guard_blocks
  reply_guards-eq [] i rest fits at count = refl
  reply_guards-eq (g ∷ gs) i rest (fit, fits) at count =
      let block = guard_block_bytes g in
      let at' : drop (i * guard_block_wire_len) request.guards
          ≡ block ++ (guard_blocks gs ++ rest) =
        at ∙ append_assoc block (guard_blocks gs) rest in
      let next =
        drop_skip request.guards (i * guard_block_wire_len) guard_block_wire_len
          ((i + 1) * guard_block_wire_len) block (guard_blocks gs ++ rest) at'
          (length-guard_block_bytes g fit) (omega arith) in
      let here = reply_guard-eq g i (guard_blocks gs ++ rest) fit at' (omega arith) in
      let others = reply_guards-eq gs (i + 1) rest fits next (omega arith) in
      rw (here, others)
        (ap ok (
          wire_guard-append (answered_guard scenario g) []
            (wire_guards (map (answered_guard scenario) gs) [])))

-- Without the quota and with the request's counts.
abbrev pub is_plain : Scenario → Bool
is_plain quota = false
is_plain count_empty = false
is_plain count_short = false
is_plain count_extra = false
is_plain _ = true

reply_deficit-plain :
    (scenario : Scenario) (allow_count : ℕ) (id : List ℕ) (tokens : ℕ) (entries : List QuotaEntry)
    → is_plain scenario ≡ true
    → reply_deficit scenario allow_count id tokens entries
      ≡ (ok (deficit_of scenario tokens), entries)
unfolding reply_deficit
reply_deficit-plain allow allow_count id tokens entries p = refl
reply_deficit-plain deny allow_count id tokens entries p = refl
reply_deficit-plain guard_pass allow_count id tokens entries p = refl
reply_deficit-plain guard_deny allow_count id tokens entries p = refl
reply_deficit-plain quota allow_count id tokens entries p = ground arith
reply_deficit-plain drop_reply allow_count id tokens entries p = refl
reply_deficit-plain malformed_auth allow_count id tokens entries p = refl
reply_deficit-plain malformed_truncated allow_count id tokens entries p = refl
reply_deficit-plain malformed_request_id allow_count id tokens entries p = refl
reply_deficit-plain count_empty allow_count id tokens entries p = refl
reply_deficit-plain count_short allow_count id tokens entries p = refl
reply_deficit-plain count_extra allow_count id tokens entries p = refl

pub length-resource_block_bytes :
    (r : ResourceRequest)
    → FitsResource r
    → length (resource_block_bytes r) ≡ resource_block_wire_len
unfolding resource_block_bytes write_le32 write_le16
length-resource_block_bytes r fits = let id_16 = fits.identified in simp length-append (omega arith)

pub wire_resource-append :
    (w : WireResource) (more : List ℕ) → wire_resource w [] ++ more ≡ wire_resource w more
unfolding write_le32 write_le16
wire_resource-append w more =
    append_assoc w.id _ more
    ∙ ap (λ t. w.id ++ t)
        (append_assoc w.window _ more
          ∙ ap (λ t. w.window ++ (write_le32 w.rate ++ (write_le16 w.deficit ++ t)))
              (append_assoc w.padding [] more))

-- The widths of what the responder puts in.
pub reply_current-u32 :
    (scenario : Scenario) (threshold : ℕ)
    → threshold < 2 ^ 32
    → reply_current scenario threshold < 2 ^ 32
reply_current-u32 allow threshold h = omega arith
reply_current-u32 deny threshold h = omega arith
reply_current-u32 guard_pass threshold h = omega arith
reply_current-u32 guard_deny threshold h = omega arith
reply_current-u32 quota threshold h = omega arith
reply_current-u32 drop_reply threshold h = omega arith
reply_current-u32 malformed_auth threshold h = omega arith
reply_current-u32 malformed_truncated threshold h = omega arith
reply_current-u32 malformed_request_id threshold h = omega arith
reply_current-u32 count_empty threshold h = omega arith
reply_current-u32 count_short threshold h = omega arith
reply_current-u32 count_extra threshold h = omega arith

pub deficit_of-u16 :
    (scenario : Scenario) (tokens : ℕ) → tokens < 2 ^ 16 → deficit_of scenario tokens < 2 ^ 16
deficit_of-u16 allow tokens h = omega arith
deficit_of-u16 deny tokens h = ground arith
deficit_of-u16 guard_pass tokens h = omega arith
deficit_of-u16 guard_deny tokens h = omega arith
deficit_of-u16 quota tokens h = omega arith
deficit_of-u16 drop_reply tokens h = omega arith
deficit_of-u16 malformed_auth tokens h = omega arith
deficit_of-u16 malformed_truncated tokens h = omega arith
deficit_of-u16 malformed_request_id tokens h = omega arith
deficit_of-u16 count_empty tokens h = omega arith
deficit_of-u16 count_short tokens h = omega arith
deficit_of-u16 count_extra tokens h = omega arith

resource_joined :
    (scenario : Scenario) (r : ResourceRequest)
    → FitsResource r
    → take 24 (resource_block_bytes r)
        ++ (write_le16 (deficit_of scenario r.tokens_requested) ++ write_le16 0)
      ≡ wire_resource (answered_resource scenario r) []
unfolding resource_block_bytes write_le32 write_le16
resource_joined scenario r fits =
    let behind = write_le16 (deficit_of scenario r.tokens_requested) ++ write_le16 0 in
    let kept : take 24 (resource_block_bytes r)
        ≡ r.bucket_id ++ (write_le32 r.window_size_ms ++ write_le32 r.rate_limit) =
      take-append_more 16 8 r.bucket_id _ fits.identified in
    ap (λ front. front ++ behind) kept
    ∙ append_assoc r.bucket_id (write_le32 r.window_size_ms ++ write_le32 r.rate_limit) behind

get_or-append :
    (m n : ℕ) (xs ys : List ℕ) → length xs ≡ m → get_or (xs ++ ys) (m + n) 0 ≡ get_or ys n 0
get_or-append m n [] ys e = let z : m + n ≡ n = omega arith in rw z refl
get_or-append m n (x ∷ xs) ys e =
    let z : m + n ≡ suc (length xs + n) = omega arith in
    rw z (get_or-append (length xs) n xs ys refl)

-- The tokens of a block.
tokens_at :
    (r : ResourceRequest)
    → FitsResource r
    → get_or (resource_block_bytes r) 24 0 + get_or (resource_block_bytes r) 25 0 * 2 ^ 8
      ≡ r.tokens_requested
unfolding resource_block_bytes write_le32 write_le16
tokens_at r fits =
    let id_16 = fits.identified in
    let tokens_16 = fits.tokens_u16 in
    rw (get_or-append 16 8 r.bucket_id _ id_16, get_or-append 16 9 r.bucket_id _ id_16)
      (omega arith)

module _ (scenario : Scenario) (allow_count : ℕ) (request : ParsedRequest)
    (plain : is_plain scenario ≡ true) where
  pub reply_resource-eq :
      (r : ResourceRequest) (i : ℕ) (rest : List ℕ) (entries : List QuotaEntry)
      → FitsResource r
      → drop (i * resource_block_wire_len) request.resources ≡ resource_block_bytes r ++ rest
      → i < request.resource_count
      → reply_resource scenario allow_count request i entries
        ≡ (ok (wire_resource (answered_resource scenario r) []), entries)
  unfolding reply_resource reply_of_block resource_block
  reply_resource-eq r i rest entries fits at inside =
      let block = resource_block_bytes r in
      let first : read_bytes request.resources (i * resource_block_wire_len) resource_block_wire_len
          ≡ ok block =
        read_bytes-eq request.resources (i * resource_block_wire_len) rest resource_block_wire_len
          block at (length-resource_block_bytes r fits) in
      let deficit =
        reply_deficit-plain scenario allow_count (take 16 block) r.tokens_requested entries plain in
      rw (lt→ltb i request.resource_count inside, first, tokens_at r fits, deficit)
        (ap (λ b. (ok b, entries)) (resource_joined scenario r fits))
