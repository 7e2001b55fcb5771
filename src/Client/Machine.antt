-- ===== src/Client/Machine.antt =====
-- The state of a client and of the host around it (src/r_client.c, struct r_client_req and struct
-- r_client; include/r_client_io.h, r_io_ops_t). An operation takes the machine to a value and the
-- next machine. What the host answers to the n-th call of a hook is a function of n.
use rl_c_client.Prelude.{
  ◌==◌, if◌then◌else◌, ℕ, ◌+◌, Bool, true, false, ◌&&◌, Option, List, [], ◌∷◌,
}
use rl_c_client.Prelude.Results.{ClientError}
use rl_c_client.Protocol.{ResourceRequest, LatencyGuard, GuardResult, ResourceResult}
use rl_c_client.Credential.{Quotas}
use rl_c_client.Policy.{RequestPolicy}

-- The bytes of an `r_addr_t` as far as its length goes.
abbrev pub Addr : Type 0
Addr = List ℕ

-- `memcmp` of two blocks of one length, and `r_addr_equal`.
abbrev pub bytes_eq : List ℕ → List ℕ → Bool
bytes_eq [] [] = true
bytes_eq [] (y ∷ ys) = false
bytes_eq (x ∷ xs) [] = false
bytes_eq (x ∷ xs) (y ∷ ys) = (x == y) && bytes_eq xs ys

-- `r_server_endpoint_t`.
pub record Endpoint : Type 0 where
  pub addr : Addr
  pub server_id : ℕ
  pub has_server_id : Bool

-- `r_srv_record_t`, without the two fields that the client ignores.
pub record SrvRecord : Type 0 where
  pub target : List ℕ
  pub port : ℕ
  pub ttl_ms : ℕ

-- What a resolver does with a query: whether it returned zero, `*out_req_id`, and the status and
-- answer if it has called back before it returned. The status is whether it was zero.
pub record Reply (A : Type 0) : Type 0 where
  pub accepted : Bool
  pub req_id : ℕ
  pub answer : Option (Bool × List A)

-- `r_dns_lookup_ctx_t`; `id` stands for its address, and `req_id` is `none` without `has_req_id`.
pub record Lookup : Type 0 where
  pub id : ℕ
  pub req_id : Option ℕ
  pub completed : Bool
  pub in_resolver_call : Bool
  pub port : ℕ
  pub server_id : ℕ
  pub has_server_id : Bool

-- `r_dns_refresh_t` of a client that has not been destroyed.
pub record Refresh : Type 0 where
  pub pending : ℕ
  pub scheduling : ℕ
  pub lookups : List Lookup
  pub endpoints : List Endpoint
  pub endpoint_cap : ℕ
  pub min_ttl_ms : ℕ

-- The fields of `r_client_t` for service discovery, with its `r_dns_refresh_policy_t`. `refresh` is
-- `none` for NULL: the object lives exactly as long as the client points to it.
pub record Discovery : Type 0 where
  pub dns_name : List ℕ
  pub refresh_interval_ms : ℕ
  pub forced_refresh_min_interval_ms : ℕ
  pub forced_refresh_jitter_ms : ℕ
  pub last_dns_refresh_ms : ℕ
  pub dns_refresh_ttl_ms : ℕ
  pub dns_refresh_inflight : Bool
  pub refresh : Option Refresh

-- `r_rate_limit_result_t`, with its two arrays.
pub record RateLimitResult : Type 0 where
  pub success : Bool
  pub server_id : ℕ
  pub steering_feedback : Bool
  pub guards : List GuardResult
  pub resources : List ResourceResult

-- `r_request_phase_t`.
pub data Phase : Type 0 where
  phase_round phase_final : Phase

-- `r_client_req_t`. `handle` stands for the request's address and `best` is `none` while
-- `best.has` is false.
pub record Request : Type 0 where
  pub handle : ℕ
  pub request_id : List ℕ
  pub user : ℕ
  pub resources : List ResourceRequest
  pub guards : List LatencyGuard
  pub metrics_label : Option (List ℕ)
  pub metrics_label_len : ℕ
  pub targets : List Endpoint
  pub allowed_ids : List ℕ
  pub start_ms : ℕ
  pub attempt_deadline_ms : ℕ
  pub dedup_deadline_ms : ℕ
  pub dedup_ttl_ms : ℕ
  pub phase : Phase
  pub ha_round : ℕ
  pub ha_round_start_ms : ℕ
  pub ha_preference_deadline_ms : ℕ
  pub ha_round_deadline_ms : ℕ
  pub seen_addrs : List Addr
  pub seen_addr_cap : ℕ
  pub seen_server_ids : List ℕ
  pub seen_server_id_cap : ℕ
  pub steering_rebind : Bool
  pub packet : List ℕ
  pub best : Option RateLimitResult

-- `r_auth_type_t`; `auth_unset` is zero, or any other value.
pub data AuthType : Type 0 where
  auth_unset auth_cookie auth_aes_gcm : AuthType

-- `r_client_t`, as far as requests use it: `cookie` and `aes_key` are `none` while their flags are
-- off, and the three flags say which hooks the host has set.
pub record Client : Type 0 where
  pub policy : RequestPolicy
  pub key_id : ℕ
  pub auth_type : AuthType
  pub quotas : Option Quotas
  pub cookie : Option (List ℕ)
  pub aes_key : Option (List ℕ)
  pub has_udp_send : Bool
  pub has_now_ms : Bool
  pub has_steering_hook : Bool
  pub has_profile_cb : Bool
  pub servers : List Endpoint
  pub send_failure_count : ℕ
  pub inflight : List Request
  pub steering_rebind_pending : Bool
  pub discovery : Discovery

-- `r_request_profile_t`.
pub record RequestProfile : Type 0 where
  pub wait_ms : ℕ
  pub round : ℕ
  pub phase : Phase
  pub status : ClientError
  pub response_selected : Bool

-- What the host sees of the client: datagrams, completions, profiles, steering notices and names to
-- resolve.
pub data Event : Type 0 where
  sent : Addr → List ℕ → Event
  completed : ℕ → ClientError → Option RateLimitResult → Event
  profiled : RequestProfile → Event
  change_port : Event
  asked : List ℕ → Event

-- The host: what the clock, `udp_send`, the allocator, OpenSSL's random numbers (of some length) and
-- the resolver answer to the n-th call, the number of calls so far, and what has happened, the
-- latest first. `with_port` is a socket address with another port, in the system's layout.
pub record Host : Type 0 where
  pub clock : ℕ → ℕ
  pub send_works : ℕ → Bool
  pub alloc_works : ℕ → Bool
  pub random : ℕ → ℕ → Option (List ℕ)
  pub srv_replies : ℕ → Reply SrvRecord
  pub addr_replies : ℕ → Reply Addr
  pub with_port : Addr → ℕ → Addr
  pub calls : ℕ
  pub trace : List Event

pub record Machine : Type 0 where
  pub client : Client
  pub host : Host

abbrev pub M : Type 0 → Type 0
M A = Machine → A × Machine

abbrev pub pure : {A : Type 0} → A → M A
pure a s = (a, s)

-- The host counts a call.
abbrev pub tick : Host → Host
tick h = record h { calls = h.calls + 1 }

abbrev pub emit : Event → Machine → Machine
emit e s = record s { host = record s.host { trace = e ∷ s.host.trace } }

abbrev pub set_client : Machine → Client → Machine
set_client s c = record s { client = c }

-- `r_now_ms`: without a clock the time is zero.
unfoldable pub now_ms : M ℕ
now_ms s =
    if s.client.has_now_ms
    then (s.host.clock s.host.calls, record s { host = tick s.host })
    else (0, s)

-- One call of `udp_send`: whether it returned zero.
unfoldable pub udp_send : Addr → List ℕ → M Bool
udp_send addr packet s =
    (s.host.send_works s.host.calls, emit (sent addr packet) (record s { host = tick s.host }))

-- One call of the allocator.
unfoldable pub alloc : M Bool
alloc s = (s.host.alloc_works s.host.calls, record s { host = tick s.host })

-- `RAND_bytes` for `n` bytes: `none` if it failed.
unfoldable pub rand_bytes : ℕ → M (Option (List ℕ))
rand_bytes n s = (s.host.random s.host.calls n, record s { host = tick s.host })
