-- ===== src/Client/Discovery.antt =====
-- Service discovery (src/r_client.c, r_parse_server_id_from_target and r_dns_*) of a client that has
-- not been destroyed. A step takes the machine to the next one, and `fault` is an access to a
-- refresh or a lookup that has been freed. `Start` has the start of a refresh, over the lookups here.
pub mod Start
pub mod Quiet
pub mod QuietStart
pub mod Refreshes
pub mod Jitter
pub mod Lookups
pub mod Live
pub mod Scheduled
pub mod Safety
pub mod Steps
use rl_c_client.Prelude.{
  ltb, ◌==◌, if◌then◌else◌, length, ℕ, ◌+◌, ◌-◌, ◌*◌, ◌%◌, ◌^◌, Bool, true, false, not, ◌&&◌, ◌||◌,
  Option, none, some, List, [], ◌∷◌, ◌++◌,
}
use rl_c_client.Prelude.Results.{
  ClientError, rclient_ok, err_dns, err_nomem, Result, ok, fault, ◌>>=◌, ◌>>◌,
}
use rl_c_client.Client.Machine.{
  Addr, Endpoint, SrvRecord, Reply, Lookup, Refresh, Discovery, asked, Machine, M, tick, emit,
  set_client, now_ms, alloc,
}
use rl_c_client.Client.Servers.{make_room}
use rl_c_client.Client.Complete.{is_nil}

-- The characters before the first dot.
abbrev pub first_label : List ℕ → List ℕ
first_label [] = []
first_label (c ∷ cs) = if c == 46 then [] else c ∷ first_label cs

-- `value * 10 + (c - '0')` over decimal digits; `none` at another character.
unfoldable pub decimal : ℕ → List ℕ → Option ℕ
decimal value [] = some value
decimal value (c ∷ cs) =
    let rest = decimal ((value * 10 + (c - 48)) % 2 ^ 64) cs in
    if ltb c 48 || ltb 57 c then none else rest

-- The label behind `s-`; at least three characters with it.
unfoldable pub server_id_of_label : List ℕ → Option ℕ
server_id_of_label (p ∷ q ∷ d ∷ ds) = if (p == 115) && (q == 45) then decimal 0 (d ∷ ds) else none
server_id_of_label _ = none

-- `none` is `*ok == false`.
unfoldable pub parse_server_id_from_target : List ℕ → Option ℕ
parse_server_id_from_target target = server_id_of_label (first_label target)

abbrev pub D : Type 0
D = Machine → Result Machine

abbrev pub set_discovery : Discovery → Machine → Machine
set_discovery d s = set_client s (record s.client { discovery = d })

-- Reads and writes through a pointer to the refresh.
abbrev pub the_refresh : Machine → Result Refresh
the_refresh s = elim s.client.discovery.refresh [ none ↦ fault | some r ↦ ok r ]

abbrev pub put_refresh : Refresh → Machine → Machine
put_refresh r s = set_discovery (record s.client.discovery { refresh = some r }) s

-- The lookup at an address.
unfoldable pub find_lookup : ℕ → List Lookup → Option Lookup
find_lookup id [] = none
find_lookup id (l ∷ ls) = if l.id == id then some l else find_lookup id ls

unfoldable pub store_lookup : Lookup → List Lookup → List Lookup
store_lookup lookup [] = []
store_lookup lookup (l ∷ ls) = if l.id == lookup.id then lookup ∷ ls else l ∷ store_lookup lookup ls

unfoldable pub dns_lookup_unlink : ℕ → List Lookup → List Lookup
dns_lookup_unlink id [] = []
dns_lookup_unlink id (l ∷ ls) = if l.id == id then ls else l ∷ dns_lookup_unlink id ls

abbrev pub the_lookup : ℕ → Refresh → Result Lookup
the_lookup id r = elim (find_lookup id r.lookups) [ none ↦ fault | some l ↦ ok l ]

-- A full array is reallocated; without memory the endpoint is dropped.
unfoldable pub dns_refresh_add_endpoint : Endpoint → Refresh → M Refresh
dns_refresh_add_endpoint e r s =
    let (room, s') = make_room (length r.endpoints) r.endpoint_cap s in
    (
      elim room [
        | none ↦ r
        | some cap ↦ record r { endpoints = r.endpoints ++ e ∷ []; endpoint_cap = cap }
      ],
      s',
    )

-- The servers that were found, unless there are none, and the end of the refresh, which is freed.
unfoldable pub dns_refresh_finish : Refresh → Machine → Machine
dns_refresh_finish r s =
    let (now, s1) = now_ms s in
    let d = s.client.discovery in
    let ended = record d { dns_refresh_inflight = false; refresh = none } in
    if is_nil r.endpoints
    then set_discovery ended s
    else set_client s1 (record s1.client {
      servers = r.endpoints;
      discovery = record ended { last_dns_refresh_ms = now; dns_refresh_ttl_ms = r.min_ttl_ms };
    })

unfoldable pub dns_refresh_maybe_complete : D
dns_refresh_maybe_complete s = do
  r ← the_refresh s
  if (r.pending == 0) && (r.scheduling == 0) then ok (dns_refresh_finish r s) else ok s

-- `if (refresh->pending > 0) refresh->pending--;` is the subtraction that stops at zero.
abbrev pub complete_lookup : Lookup → Refresh → Refresh
complete_lookup lookup r = record r {
  pending = r.pending - 1;
  lookups =
      if lookup.in_resolver_call
      then store_lookup (record lookup { completed = true }) r.lookups
      else dns_lookup_unlink lookup.id r.lookups;
}

unfoldable pub dns_lookup_finish : ℕ → D
dns_lookup_finish id s = do
  r ← the_refresh s
  lookup ← the_lookup id r
  dns_refresh_maybe_complete (put_refresh (complete_lookup lookup r) s)

abbrev pub endpoint_of : Lookup → Addr → Endpoint
endpoint_of lookup addr = record {
  addr = addr;
  server_id = lookup.server_id;
  has_server_id = lookup.has_server_id;
}

-- The loop over the addresses.
unfoldable pub add_addrs : Lookup → List Addr → Refresh → M Refresh
add_addrs lookup [] r s = (r, s)
add_addrs lookup (a ∷ rest) r s =
    let (r', s') =
      dns_refresh_add_endpoint (endpoint_of lookup (s.host.with_port a lookup.port)) r s in
    add_addrs lookup rest r' s'

unfoldable pub dns_addr_cb : ℕ → Bool → List Addr → D
dns_addr_cb id status addrs s = do
  r ← the_refresh s
  lookup ← the_lookup id r
  let (r', s') = add_addrs lookup (if status then addrs else []) r s
  dns_lookup_finish id (put_refresh r' s')

-- A new lookup in front of the others, and the two counters.
abbrev pub begin_lookup : Lookup → Refresh → Refresh
begin_lookup lookup r = record r {
  pending = r.pending + 1;
  scheduling = r.scheduling + 1;
  lookups = lookup ∷ r.lookups;
}

-- What follows the resolver's call.
abbrev pub settle_lookup : Bool → ℕ → Lookup → Refresh → Refresh
settle_lookup accepted req_id lookup r = record r {
  pending = if not accepted && not lookup.completed then r.pending - 1 else r.pending;
  scheduling = r.scheduling - 1;
  lookups =
      if not accepted || lookup.completed
      then dns_lookup_unlink lookup.id r.lookups
      else store_lookup
          (record lookup {
            in_resolver_call = false;
            req_id = if req_id == 0 then none else some req_id;
          })
          r.lookups;
}

unfoldable pub end_schedule : Bool → ℕ → ℕ → D
end_schedule accepted req_id id s = do
  r ← the_refresh s
  lookup ← the_lookup id r
  dns_refresh_maybe_complete (put_refresh (settle_lookup accepted req_id lookup r) s)

abbrev pub new_lookup : ℕ → ℕ → ℕ → Bool → Lookup
new_lookup id port server_id has_server_id = record {
  id = id;
  req_id = none;
  completed = false;
  in_resolver_call = true;
  port = port;
  server_id = server_id;
  has_server_id = has_server_id;
}

-- A name goes to the resolver; the call is counted.
abbrev pub ask : List ℕ → Machine → Machine
ask name s = emit (asked name) (record s { host = tick s.host })

-- The call back before the resolver returns, if there is one.
abbrev pub early_call : {A : Type 0} → Option (Bool × List A) → (Bool → List A → D) → D
early_call none call_back s = ok s
early_call (some (status, found)) call_back s = call_back status found s

-- A lookup around a resolver's call, with the returned status. The number of the allocation stands
-- for the new lookup's address.
unfoldable pub schedule :
    {A : Type 0} (name : List ℕ) (lookup : ℕ → Lookup) (replies : ℕ → Reply A)
    → (ℕ → Bool → List A → D)
    → Machine
    → Result (ClientError × Machine)
schedule name lookup replies call_back s = do
  r ← the_refresh s
  let id = s.host.calls
  let (works, s1) = alloc s
  if not works then ok (err_nomem, s1) else (do
    let reply = replies s1.host.calls
    s2 ←
        early_call reply.answer (call_back id)
          (ask name (put_refresh (begin_lookup (lookup id) r) s1))
    s3 ← end_schedule reply.accepted reply.req_id id s2
    ok (if reply.accepted then rclient_ok else err_dns, s3))

-- The caller drops the status.
unfoldable pub dns_schedule_addr_lookup : List ℕ → ℕ → ℕ → Bool → D
dns_schedule_addr_lookup name port server_id has_server_id s = do
  (rc, s') ←
      schedule name (λ id. new_lookup id port server_id has_server_id) s.host.addr_replies
        dns_addr_cb s
  ok s'

abbrev pub lower_ttl : ℕ → ℕ → ℕ
lower_ttl ttl_ms min_ttl_ms =
    if ltb 0 ttl_ms && ((min_ttl_ms == 0) || ltb ttl_ms min_ttl_ms) then ttl_ms else min_ttl_ms

-- The least TTL of the records that name a server, zeros left out.
unfoldable pub min_ttl : ℕ → List SrvRecord → ℕ
min_ttl least [] = least
min_ttl least (rec ∷ recs) =
    min_ttl
      (elim (parse_server_id_from_target rec.target) [
        | none ↦ least
        | some id ↦ lower_ttl rec.ttl_ms least
      ])
      recs

-- The loop over the records: those that name a server are looked up.
unfoldable pub schedule_records : List SrvRecord → D
schedule_records [] s = ok s
schedule_records (rec ∷ recs) s = do
  s' ← elim (parse_server_id_from_target rec.target) [
    | none ↦ ok s
    | some id ↦ dns_schedule_addr_lookup rec.target rec.port id true s
  ]
  schedule_records recs s'

abbrev pub set_min_ttl : ℕ → D
set_min_ttl ttl s = do r ← the_refresh s; ok (put_refresh (record r { min_ttl_ms = ttl }) s)

unfoldable pub srv_records : Bool → List SrvRecord → D
srv_records false recs s = ok s
srv_records true [] s = ok s
srv_records true (rec ∷ recs) s = do
  s' ← schedule_records (rec ∷ recs) s
  set_min_ttl (min_ttl 0 (rec ∷ recs)) s'

unfoldable pub dns_srv_cb : ℕ → Bool → List SrvRecord → D
dns_srv_cb id status recs s = do
  r ← the_refresh s
  lookup ← the_lookup id r
  s' ← srv_records status recs s
  dns_lookup_finish id s'
