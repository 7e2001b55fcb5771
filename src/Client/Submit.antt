-- ===== src/Client/Submit.antt =====
-- Submission of a check (src/r_client.c, r_client_check_rate_limit_async and its borrowing sibling,
-- r_validate_resource_windows, r_generate_request_id).
pub mod Ready
pub mod Outcomes
use rl_c_client.Prelude.{
  leb, ◌==◌, if◌then◌else◌, set, get_or, ℕ, ◌+◌, ◌-◌, ◌%◌, Bool, true, false, not, ◌&&◌, Option,
  none, some, List, [], ◌∷◌, ◌++◌,
}
use rl_c_client.Prelude.Results.{
  ClientError, rclient_ok, err_protocol, err_auth, err_dns, err_config, err_nomem, Result, ok, err,
  fault, guard, ◌>>=◌, ◌>>◌,
}
use rl_c_client.Bytes.{read_u8, read_bytes}
use rl_c_client.Protocol.{max_packet_size, ResourceRequest, LatencyGuard}
use rl_c_client.Protocol.Body.{effective_len}
use rl_c_client.Policy.{u64_max, request_policy_ttl_ms}
use rl_c_client.Client.Machine.{
  Endpoint, RateLimitResult, phase_round, Request, Client, RequestProfile, completed, profiled,
  Machine, M, pure, emit, set_client, now_ms, alloc, rand_bytes,
}
use rl_c_client.Client.Servers.{request_snapshot_targets}
use rl_c_client.Client.Round.{add64, start_round}
use rl_c_client.Client.Complete.{is_nil}
use rl_c_client.Client.Discovery.Start.{dns_maybe_refresh}
use rl_c_client.Packet.{Gcm, build_rate_request_packet}

-- The arguments of a submission. `handle` is the address that the allocator gives the request, and
-- `borrowed` says whether the arrays stay the caller's.
pub record Submission : Type 0 where
  pub handle : ℕ
  pub resources : List ResourceRequest
  pub guards : List LatencyGuard
  pub metrics_label : Option (List ℕ)
  pub metrics_label_len : ℕ
  pub user : ℕ
  pub borrowed : Bool

-- The loop over the resources, under a limit.
abbrev pub windows_within : ℕ → List ResourceRequest → Bool
windows_within limit [] = true
windows_within limit (r ∷ rs) = leb r.window_size_ms limit && windows_within limit rs

unfoldable pub validate_resource_windows : Client → List ResourceRequest → ClientError
validate_resource_windows c resources = elim c.quotas [
  | none ↦ rclient_ok
  | some q ↦ if windows_within q.rate_window_size_ms_max resources then rclient_ok else err_protocol
]

-- Bytes 6 and 8 hold the version and the variant of a UUID.
unfoldable pub uuid_of_random : List ℕ → List ℕ
uuid_of_random bytes =
    set (set bytes 6 (get_or bytes 6 0 % 16 + 64)) 8 (get_or bytes 8 0 % 64 + 128)

unfoldable pub generate_request_id : M (Result (List ℕ))
generate_request_id s =
    let (bytes, s') = rand_bytes 16 s in
    (elim bytes [ none ↦ err err_auth | some bs ↦ ok (uuid_of_random bs) ], s')

abbrev pub empty_profile : RequestProfile
empty_profile = record {
  wait_ms = 0;
  round = 0;
  phase = phase_round;
  status = rclient_ok;
  response_selected = false;
}

abbrev pub empty_result : RateLimitResult
empty_result = record {
  success = true;
  server_id = 0;
  steering_feedback = false;
  guards = [];
  resources = [];
}

-- A check of nothing: the profile and the callback run at once, with success.
unfoldable pub submit_nothing : ℕ → Machine → Machine
submit_nothing user s =
    emit (completed user rclient_ok (some empty_result))
      (if s.client.has_profile_cb then emit (profiled empty_profile) s else s)

-- A fallible step after another: an error or a fault ends the chain, in the machine it left.
unfoldable pub continue : {A B : Type 0} → Result A → (A → M (Result B)) → M (Result B)
continue (ok a) next s = next a s
continue (err e) next s = (err e, s)
continue fault next s = (fault, s)

unfoldable pub chain : {A B : Type 0} → M (Result A) → (A → M (Result B)) → M (Result B)
chain first next s = let (r, s') = first s in continue r next s'

-- What follows a refresh, whose status the callers drop.
abbrev pub on_machine : {A : Type 0} → Result Machine → Machine → M (Result A) → Result A × Machine
on_machine (ok s') s next = next s'
on_machine (err e) s next = (err e, s)
on_machine fault s next = (fault, s)

-- `calloc`, where it is needed at all.
unfoldable pub alloc_if : Bool → M (Result (Unit {0}))
alloc_if needed s =
    let (works, s') = alloc s in
    if not needed then (ok tt, s) else (if works then ok tt else err err_nomem, s')

-- The label as the request keeps it: `none` for NULL and for an empty string, and a copy has its
-- own NUL.
unfoldable pub kept_label : Bool → Option (List ℕ) → ℕ → Result (Option (List ℕ) × ℕ)
kept_label borrowed none label_len = ok (none, 0)
kept_label borrowed (some label) label_len = do
  first ← read_u8 label 0
  if first == 0 then ok (none, 0) else (do
    len ← effective_len label label_len
    copy ← read_bytes label 0 len
    ok (some (if borrowed then label else copy ++ 0 ∷ []), len))

abbrev pub is_some {ℓ} : {A : Type ℓ} → Option A → Bool
is_some none = false
is_some (some a) = true

-- `req` after `calloc`, with its arrays and its label.
abbrev pub fresh_request : Submission → Option (List ℕ) × ℕ → Request
fresh_request a (label, label_len) = record {
  handle = a.handle;
  request_id = [];
  user = a.user;
  resources = a.resources;
  guards = a.guards;
  metrics_label = label;
  metrics_label_len = label_len;
  targets = [];
  allowed_ids = [];
  start_ms = 0;
  attempt_deadline_ms = 0;
  dedup_deadline_ms = 0;
  dedup_ttl_ms = 0;
  phase = phase_round;
  ha_round = 0;
  ha_round_start_ms = 0;
  ha_preference_deadline_ms = 0;
  ha_round_deadline_ms = 0;
  seen_addrs = [];
  seen_addr_cap = 0;
  seen_server_ids = [];
  seen_server_id_cap = 0;
  steering_rebind = false;
  packet = [];
  best = none;
}

-- The request object with its copies of the arguments.
unfoldable pub new_request : Submission → M (Result Request)
new_request a =
    let copies = not a.borrowed in
    chain (alloc_if true) λ _. chain (alloc_if (copies && not (is_nil a.resources))) λ _.
      chain (alloc_if (copies && not (is_nil a.guards))) λ _ s.
        chain (pure (kept_label a.borrowed a.metrics_label a.metrics_label_len))
          (λ label.
            chain (alloc_if (copies && is_some label.0)) λ _. pure (ok (fresh_request a label)))
          s

-- The times of a request that starts now.
unfoldable pub time_request : Result ℕ → ℕ → Request → Result Request
time_request ttl now req = do
  dedup_ttl_ms ← ttl
  guard (not (dedup_ttl_ms == 0)) err_config
  guard (leb now (u64_max - dedup_ttl_ms)) err_config
  ok (record req {
    start_ms = now;
    dedup_ttl_ms = dedup_ttl_ms;
    dedup_deadline_ms = add64 now dedup_ttl_ms;
  })

unfoldable pub stamp_request : Request → M (Result Request)
stamp_request req = chain generate_request_id λ id s.
    let (now, s') = now_ms s in
    let named = record req { request_id = id } in
    (time_request (request_policy_ttl_ms s.client.quotas s.client.policy) now named, s')

-- A status that is not RCLIENT_OK is an error.
abbrev pub checked : ClientError × Request → Result Request
checked (rclient_ok, req) = ok req
checked (rc, req) = err rc

module _ (gcm : Gcm) where
  -- OpenSSL draws the nonce only for AES-GCM; the draw is counted in every case.
  unfoldable pub pack_request : Request → M (Result Request)
  pack_request req s =
      let (nonce, s1) = rand_bytes 12 s in
      let (packet, s2) = build_rate_request_packet gcm req nonce max_packet_size s1 in
      (do p ← packet; ok (record req { packet = p }), s2)

  -- A request that is ready: its targets and its first round.
  unfoldable pub launch_request : Request → M (Result Request)
  launch_request req =
      chain (λ s. let (done, s') = request_snapshot_targets req s in (checked done, s'))
        λ aimed s. let (done, s') = start_round aimed 0 s in (checked done, s')

  unfoldable pub make_request : Submission → M (Result Request)
  make_request a = chain (new_request a) λ req.
      chain (stamp_request req)
        λ stamped. chain (pack_request stamped) λ packed. launch_request packed

  -- The request joins the others.
  unfoldable pub admit_request : Result Request → M (Result (Option ℕ))
  admit_request (ok req) s =
      (ok (some req.handle), set_client s (record s.client { inflight = req ∷ s.client.inflight }))
  admit_request (err e) s = (err e, s)
  admit_request fault s = (fault, s)

  -- With servers, or a forced refresh without.
  unfoldable pub submit_to_servers : List Endpoint → Submission → M (Result (Option ℕ))
  submit_to_servers [] a s = on_machine (dns_maybe_refresh true s) s (pure (err err_dns))
  submit_to_servers (e ∷ es) a s = let (made, s') = make_request a s in admit_request made s'

  unfoldable pub submit_checked : ClientError → Submission → M (Result (Option ℕ))
  submit_checked rclient_ok a s =
      on_machine (dns_maybe_refresh false s) s (λ s'. submit_to_servers s'.client.servers a s')
  submit_checked rc a s = (err rc, s)

  -- The handle of the request, or `none` if there was nothing to check.
  unfoldable pub check_rate_limit_async : Submission → M (Result (Option ℕ))
  check_rate_limit_async a s =
      if is_nil a.resources && is_nil a.guards
      then (ok none, submit_nothing a.user s)
      else submit_checked (validate_resource_windows s.client a.resources) a s
