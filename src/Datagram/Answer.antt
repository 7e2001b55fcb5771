-- ===== src/Datagram/Answer.antt =====
-- Datagrams and the request that they answer (r_client_on_datagram).
use rl_c_client.Prelude.{
  ltb, leb, ◌==◌, if◌then◌else◌, ℕ, suc, ◌≡◌, refl, ◌∙◌, ◌⊎◌, inl, inr, Bool, true, false, not,
  ◌||◌, Option, none, some, List, [], ◌∷◌, arith,
}
use rl_c_client.Prelude.Results.{ClientError, rclient_ok, Result, ok, err, fault}
use rl_c_client.Protocol.{max_packet_size, TenantHeader}
use rl_c_client.Protocol.Header.{parse_tenant_header}
use rl_c_client.Protocol.Response.{RateResponse}
use rl_c_client.Client.Machine.{Addr, RateLimitResult, Request, Machine, now_ms}
use rl_c_client.Client.Servers.{
  is_oldest_known_server, allowed_server_id, seen_addr_add, seen_server_add,
}
use rl_c_client.Client.Complete.{store, find_request}
use rl_c_client.Client.Complete.Inflight.{IsUnique}
use rl_c_client.Client.Complete.Effects.{IsQuiet, IsQuiet-refl, IsQuiet-trans, now_ms-IsQuiet}
use rl_c_client.Client.Complete.Progress.{
  timer_budget, IsTimerStep, store-IsTimerStep, complete_stored,
}
use rl_c_client.Packet.{Gcm, extract_pdu_data}
use rl_c_client.Datagram.{
  response_counts, parse_rate_response_alloc, find_request_id, settle_by, note_response,
  accept_response, accept_parsed, accept_opened, on_response, on_header, on_datagram,
}
use rl_c_client.Datagram.Rejection.{
  parse_of_counts-IsQuiet, seen_addr_add-same, seen_server_add-same,
}

find_request_id-handle :
    (id : List ℕ) (rs : List Request) (r : Request)
    → IsUnique rs
    → find_request_id id rs ≡ some r
    → find_request r.handle rs ≡ some r
unfolding find_request_id find_request
find_request_id-handle id [] r u e = ground arith
find_request_id-handle id (x ∷ rs) r u e = ground (arith, find_request_id-handle id rs r u.1)

-- At most one request has changed: it has completed with one callback and left the list, or it is
-- still there and nothing was called back. The budget only bounds what is left in the second case.
abbrev pub IsRequestStep : ℕ → Machine → Machine → Type 0
IsRequestStep handle s t = (budget : ℕ) × IsTimerStep handle budget s t

by_test :
    {handle : ℕ} {s t1 t2 t3 : Machine} (first second : Bool)
    → IsRequestStep handle s t1
    → IsRequestStep handle s t2
    → IsRequestStep handle s t3
    → IsRequestStep handle s (if first then t1 else if second then t2 else t3)
by_test true second a b c = a
by_test false true a b c = b
by_test false false a b c = c

module _ (req : Request) (s : Machine) (u : IsUnique s.client.inflight) where
  module _ (found : find_request req.handle s.client.inflight ≡ some req) where
    -- A write to the request, after quiet steps.
    stored :
        (req' : Request) (t : Machine)
        → IsQuiet s t
        → req'.handle ≡ req.handle
        → req'.user ≡ req.user
        → IsRequestStep req.handle s (store req' t)
    stored req' t q same own =
        let budget = suc (timer_budget s.client.policy.replay_count req') in
        (budget, store-IsTimerStep req.handle budget s u t req req' q found same own (omega arith))

    settle_by-step :
        (best : Option RateLimitResult) (req' : Request) (now : ℕ) (t : Machine)
        → IsQuiet s t
        → req'.handle ≡ req.handle
        → req'.user ≡ req.user
        → IsRequestStep req.handle s (settle_by best req' now t)
    unfolding settle_by
    settle_by-step none req' now t q same own = stored req' t q same own
    settle_by-step (some best) req' now t q same own =
        let done = complete_stored req s u found req' t rclient_ok (some best) q same own in
        let moved =
          stored (record req' { attempt_deadline_ms = req'.ha_preference_deadline_ms }) t q same
            own in
        by_test
          (is_oldest_known_server req' best.server_id || leb req'.ha_preference_deadline_ms now)
          (ltb req'.ha_preference_deadline_ms req'.attempt_deadline_ms)
          (timer_budget s.client.policy.replay_count req, done) moved (stored req' t q same own)

    accept_response-step :
        (tenant : TenantHeader) (from : Addr) (response : RateResponse) (t : Machine)
        → IsQuiet s t
        → IsRequestStep req.handle s (accept_response tenant from response req t)
    unfolding accept_response note_response
    accept_response-step tenant from response t q =
        let noted =
          if tenant.steering_feedback == 0 then record req { steering_rebind = true } else req in
        let same : noted.handle ≡ req.handle = ground arith in
        let own : noted.user ≡ req.user = ground arith in
        let (now, s1) = now_ms t in
        let (req2, s2) = seen_addr_add from noted s1 in
        let (req3, s3) = seen_server_add tenant.key_id req2 s2 in
        let (same2, own2, q2) = seen_addr_add-same from noted s1 in
        let (same3, own3, q3) = seen_server_add-same tenant.key_id req2 s2 in
        let answered = note_response tenant response req3 in
        settle_by-step answered.best answered now s3
          (IsQuiet-trans (IsQuiet-trans (IsQuiet-trans q (now_ms-IsQuiet t)) q2) q3)
          (same3 ∙ same2 ∙ same) (own3 ∙ own2 ∙ own)

-- Nothing has changed for the requests, or one of them has been answered.
abbrev pub IsDatagramStep : Machine → Machine → Type 0
IsDatagramStep s t = IsQuiet s t ⊎ ((handle : ℕ) × IsRequestStep handle s t)

module _ (req : Request) (s : Machine) (u : IsUnique s.client.inflight) where
  module _ (found : find_request req.handle s.client.inflight ≡ some req) where
    accept_parsed-step :
        (tenant : TenantHeader) (from : Addr) (parsed : Result RateResponse) (t : Machine)
        → IsQuiet s t
        → IsDatagramStep s (accept_parsed tenant from req parsed t).1
    unfolding accept_parsed
    accept_parsed-step tenant from (err e) t q = inl q
    accept_parsed-step tenant from fault t q = inl q
    accept_parsed-step tenant from (ok response) t q =
        inr (req.handle, accept_response-step req s u found tenant from response t q)

    accept_opened-step :
        (tenant : TenantHeader) (from : Addr) (opened : Result (List ℕ)) (t : Machine)
        → IsQuiet s t
        → IsDatagramStep s (accept_opened tenant from req opened t).1
    unfolding accept_opened parse_rate_response_alloc
    accept_opened-step tenant from (err e) t q = inl q
    accept_opened-step tenant from fault t q = inl q
    accept_opened-step tenant from (ok pdu) t q =
        let (parsed, t1) = parse_rate_response_alloc pdu t in
        accept_parsed-step tenant from parsed t1
          (IsQuiet-trans q (parse_of_counts-IsQuiet (response_counts pdu) t))

either_step :
    {s : Machine} (test : Bool) (a b : Result ClientError × Machine)
    → IsDatagramStep s a.1
    → IsDatagramStep s b.1
    → IsDatagramStep s (if test then a else b).1
either_step true a b p q = p
either_step false a b p q = q

module _ (gcm : Gcm) (buf : List ℕ) (from : Addr) (s : Machine)
    (u : IsUnique s.client.inflight) where
  on_response-step :
      (tenant : TenantHeader) (pos : ℕ) (found : Option Request)
      → ((req : Request) → found ≡ some req → find_request req.handle s.client.inflight ≡ some req)
      → IsDatagramStep s (on_response gcm buf from tenant pos found s).1
  unfolding on_response
  on_response-step tenant pos none there = inl (IsQuiet-refl s)
  on_response-step tenant pos (some req) there =
      let (now, s1) = now_ms s in
      let quiet = now_ms-IsQuiet s in
      let opened = extract_pdu_data gcm s.client buf pos max_packet_size in
      either_step (ltb req.dedup_deadline_ms now || not (allowed_server_id req tenant.key_id))
        (ok rclient_ok, s1) (accept_opened tenant from req opened s1) (inl quiet)
        (accept_opened-step req s u (there req refl) tenant from opened s1 quiet)

  on_header-step :
      (header : Result (TenantHeader × ℕ)) → IsDatagramStep s (on_header gcm buf from header s).1
  unfolding on_header
  on_header-step (err e) = inl (IsQuiet-refl s)
  on_header-step fault = inl (IsQuiet-refl s)
  on_header-step (ok (tenant, pos)) =
      on_response-step tenant pos (find_request_id tenant.unique_id s.client.inflight)
        (λ req e. find_request_id-handle tenant.unique_id s.client.inflight req u e)

-- Whatever arrives from the network, the client either leaves all requests in flight as they are
-- and calls nothing back, or changes one request: it completes with exactly one callback and
-- leaves the list, or it stays and nothing is called back; the others stay as they are, no two
-- have one handle, and the sum of completions and requests in flight stays, also that of each user.
-- Before the call no two requests in flight have one handle.
pub on_datagram-IsDatagramStep :
    (gcm : Gcm) (buf : List ℕ) (from : Addr) (s : Machine)
    → IsUnique s.client.inflight
    → IsDatagramStep s (on_datagram gcm buf from s).1
unfolding on_datagram
on_datagram-IsDatagramStep gcm buf from s u =
    on_header-step gcm buf from s u (parse_tenant_header buf)
