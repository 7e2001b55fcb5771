-- ===== src/Client/Servers.antt =====
-- Which servers a request knows, and which of them is the oldest (src/r_client.c,
-- r_server_start_s_from_id, r_server_is_older, r_is_oldest_known_server, r_allowed_server_id,
-- r_request_snapshot_targets, r_seen_addr_add, r_seen_server_add, r_request_target_responded).
use rl_c_client.Prelude.{
  ltb, ◌==◌, if◌then◌else◌, length, ℕ, ◌+◌, ◌*◌, ◌/◌, ◌%◌, ◌^◌, Bool, true, false, not, ◌&&◌, ◌||◌,
  Option, none, some, List, [], ◌∷◌, ◌++◌,
}
use rl_c_client.Prelude.Results.{ClientError, rclient_ok, err_dns, err_nomem}
use rl_c_client.Client.Machine.{Addr, bytes_eq, Endpoint, Request, M, alloc}

abbrev pub server_id_epoch_s_2025 : ℕ
server_id_epoch_s_2025 = 1735689600

unfoldable pub server_start_s_from_id : ℕ → ℕ
server_start_s_from_id server_id = (server_id_epoch_s_2025 + server_id / 2 ^ 23) % 2 ^ 64

unfoldable pub server_is_older : ℕ → ℕ → Bool
server_is_older candidate_id current_id =
    let candidate_start_s = server_start_s_from_id candidate_id in
    let current_start_s = server_start_s_from_id current_id in
    ltb candidate_start_s current_start_s
    || ((candidate_start_s == current_start_s) && ltb candidate_id current_id)

-- `for (i …) if (ids[i] == id) return true;`
abbrev pub contains_id : ℕ → List ℕ → Bool
contains_id id [] = false
contains_id id (x ∷ xs) = (x == id) || contains_id id xs

abbrev pub contains_addr : Addr → List Addr → Bool
contains_addr a [] = false
contains_addr a (x ∷ xs) = bytes_eq x a || contains_addr a xs

-- The loop of `r_is_oldest_known_server` over the allowed ids.
unfoldable pub is_oldest_of : List ℕ → ℕ → Bool
is_oldest_of [] server_id = true
is_oldest_of (candidate ∷ rest) server_id =
    if candidate == server_id
    then is_oldest_of rest server_id
    else if ltb (server_start_s_from_id candidate) (server_start_s_from_id server_id)
        || ((server_start_s_from_id candidate == server_start_s_from_id server_id)
            && ltb candidate server_id)
    then false
    else is_oldest_of rest server_id

unfoldable pub is_oldest_known_server : Request → ℕ → Bool
is_oldest_known_server req server_id = is_oldest_of req.allowed_ids server_id

-- With no allow-list every server may answer.
unfoldable pub allowed_server_id : Request → ℕ → Bool
allowed_server_id req server_id = elim req.allowed_ids [
  | [] ↦ true
  | x ∷ xs ↦ contains_id server_id (x ∷ xs)
]

abbrev pub next_cap : ℕ → ℕ
next_cap cap = if cap == 0 then 4 else cap * 2

-- Room for one more element: a full array is reallocated. The value is the new capacity, or `none`
-- if the allocator failed.
unfoldable pub make_room : ℕ → ℕ → M (Option ℕ)
make_room count cap s =
    if count == cap
    then (let (works, s') = alloc s in (if works then some (next_cap cap) else none, s'))
    else (some cap, s)

-- Both return the request; the callers drop the status.
unfoldable pub seen_addr_add : Addr → Request → M Request
seen_addr_add addr req s =
    if contains_addr addr req.seen_addrs
    then (req, s)
    else (let (room, s') = make_room (length req.seen_addrs) req.seen_addr_cap s in
        (
          elim room [
            | none ↦ req
            | some cap ↦ record req {
              seen_addrs = req.seen_addrs ++ addr ∷ [];
              seen_addr_cap = cap;
            }
          ],
          s',
        ))

unfoldable pub seen_server_add : ℕ → Request → M Request
seen_server_add server_id req s =
    if contains_id server_id req.seen_server_ids
    then (req, s)
    else (let (room, s') = make_room (length req.seen_server_ids) req.seen_server_id_cap s in
        (
          elim room [
            | none ↦ req
            | some cap ↦ record req {
              seen_server_ids = req.seen_server_ids ++ server_id ∷ [];
              seen_server_id_cap = cap;
            }
          ],
          s',
        ))

unfoldable pub request_target_responded : Request → Endpoint → Bool
request_target_responded req target =
    if target.has_server_id
    then contains_id target.server_id req.seen_server_ids
    else contains_addr target.addr req.seen_addrs

abbrev pub has_unknown : List Endpoint → Bool
has_unknown [] = false
has_unknown (e ∷ es) = not e.has_server_id || has_unknown es

-- The ids of the endpoints, each once, in the order of their first endpoint; `ids` are those
-- collected so far.
unfoldable pub collect_ids : List ℕ → List Endpoint → List ℕ
collect_ids ids [] = ids
collect_ids ids (e ∷ es) =
    collect_ids (if contains_id e.server_id ids then ids else ids ++ e.server_id ∷ []) es

-- With at least one server.
unfoldable pub snapshot : List Endpoint → Request → M (ClientError × Request)
snapshot servers req s =
    let (targets_work, s1) = alloc s in
    let (ids_work, s2) = alloc s1 in
    let with_targets = record req { targets = servers } in
    if not targets_work
    then ((err_nomem, req), s1)
    else if has_unknown servers
    then ((rclient_ok, record with_targets { allowed_ids = [] }), s1)
    else if not ids_work
    then ((err_nomem, with_targets), s2)
    else ((rclient_ok, record with_targets { allowed_ids = collect_ids [] servers }), s2)

unfoldable pub snapshot_of : List Endpoint → Request → M (ClientError × Request)
snapshot_of [] req s = ((err_dns, req), s)
snapshot_of (e ∷ es) req s = snapshot (e ∷ es) req s

-- `r_request_snapshot_targets`: the status, and the request with its targets and allow-list.
unfoldable pub request_snapshot_targets : Request → M (ClientError × Request)
request_snapshot_targets req s = snapshot_of s.client.servers req s
