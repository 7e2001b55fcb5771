-- ===== src/Datagram/Rejection.antt =====
-- Datagrams that do not open (r_client_on_datagram).
use rl_c_client.Prelude.{length, ℕ, ◌≡◌, refl, ◌≢◌, Option, none, some, List, arith}
use rl_c_client.Prelude.Results.{Result, ok, err, fault}
use rl_c_client.Protocol.{max_packet_size, TenantHeader}
use rl_c_client.Protocol.Header.{parse_tenant_header}
use rl_c_client.Client.Machine.{Addr, Request, Machine, now_ms, alloc}
use rl_c_client.Client.Servers.{seen_addr_add, seen_server_add}
use rl_c_client.Client.Complete.Effects.{
  IsQuiet, IsQuiet-refl, now_ms-IsQuiet, alloc-IsQuiet, make_room-IsQuiet,
}
use rl_c_client.Packet.{Gcm, extract_pdu_data}
use rl_c_client.Datagram.{
  parse_counted, parse_of_counts, find_request_id, accept_opened, on_response, on_header,
  on_datagram,
}

parse_counted-IsQuiet :
    (guard_count res_count : ℕ) (whole : List ℕ) (s : Machine)
    → IsQuiet s (parse_counted guard_count res_count whole s).1
unfolding parse_counted
parse_counted-IsQuiet guard_count res_count whole s =
    ground (arith, alloc-IsQuiet s, alloc-IsQuiet (alloc s).1)

pub parse_of_counts-IsQuiet :
    (counts : Result (ℕ × (ℕ × List ℕ))) (s : Machine) → IsQuiet s (parse_of_counts counts s).1
unfolding parse_of_counts
parse_of_counts-IsQuiet (err e) s = IsQuiet-refl s
parse_of_counts-IsQuiet fault s = IsQuiet-refl s
parse_of_counts-IsQuiet (ok (guard_count, (res_count, whole))) s =
    parse_counted-IsQuiet guard_count res_count whole s

-- What the two notes leave of the request and of the machine.
pub seen_addr_add-same :
    (a : Addr) (req : Request) (s : Machine)
    → ((seen_addr_add a req s).0.handle ≡ req.handle)
      × ((seen_addr_add a req s).0.user ≡ req.user)
      × IsQuiet s (seen_addr_add a req s).1
unfolding seen_addr_add
seen_addr_add-same a req s =
    ground (arith, make_room-IsQuiet (length req.seen_addrs) req.seen_addr_cap s)

pub seen_server_add-same :
    (id : ℕ) (req : Request) (s : Machine)
    → ((seen_server_add id req s).0.handle ≡ req.handle)
      × ((seen_server_add id req s).0.user ≡ req.user)
      × IsQuiet s (seen_server_add id req s).1
unfolding seen_server_add
seen_server_add-same id req s =
    ground (arith, make_room-IsQuiet (length req.seen_server_ids) req.seen_server_id_cap s)

accept_shut :
    (tenant : TenantHeader) (from : Addr) (req : Request) (opened : Result (List ℕ)) (s : Machine)
    → ((pdu : List ℕ) → opened ≢ ok pdu)
    → IsQuiet s (accept_opened tenant from req opened s).1
unfolding accept_opened
accept_shut tenant from req (ok pdu) s shut = absurd (shut pdu refl)
accept_shut tenant from req (err e) s shut = IsQuiet-refl s
accept_shut tenant from req fault s shut = IsQuiet-refl s

-- A datagram that does not open, for any request in flight, leaves all requests as they are and
-- calls nothing back.
on_response-IsQuiet :
    (gcm : Gcm) (buf : List ℕ) (from : Addr) (tenant : TenantHeader) (pos : ℕ)
    (found : Option Request) (s : Machine)
    → ((pdu : List ℕ) → extract_pdu_data gcm s.client buf pos max_packet_size ≢ ok pdu)
    → IsQuiet s (on_response gcm buf from tenant pos found s).1
unfolding on_response
on_response-IsQuiet gcm buf from tenant pos none s shut = IsQuiet-refl s
on_response-IsQuiet gcm buf from tenant pos (some req) s shut = ground (
  arith,
  now_ms-IsQuiet s,
  accept_shut tenant from req (extract_pdu_data gcm s.client buf pos max_packet_size) (now_ms s).1
      shut,
)

on_header-IsQuiet :
    (gcm : Gcm) (buf : List ℕ) (from : Addr) (header : Result (TenantHeader × ℕ)) (s : Machine)
    → ((tenant : TenantHeader) (pos : ℕ)
        → header ≡ ok (tenant, pos)
        → (pdu : List ℕ) → extract_pdu_data gcm s.client buf pos max_packet_size ≢ ok pdu)
    → IsQuiet s (on_header gcm buf from header s).1
unfolding on_header
on_header-IsQuiet gcm buf from (err e) s shut = IsQuiet-refl s
on_header-IsQuiet gcm buf from fault s shut = IsQuiet-refl s
on_header-IsQuiet gcm buf from (ok (tenant, pos)) s shut =
    on_response-IsQuiet gcm buf from tenant pos (find_request_id tenant.unique_id s.client.inflight)
      s (shut tenant pos refl)

-- A datagram that does not open behind its header, with the client's cookie or AES key, changes no
-- request in flight and completes none, whatever else it holds.
pub on_datagram-IsQuiet :
    (gcm : Gcm) (buf : List ℕ) (from : Addr) (s : Machine)
    → ((tenant : TenantHeader) (pos : ℕ)
        → parse_tenant_header buf ≡ ok (tenant, pos)
        → (pdu : List ℕ) → extract_pdu_data gcm s.client buf pos max_packet_size ≢ ok pdu)
    → IsQuiet s (on_datagram gcm buf from s).1
unfolding on_datagram
on_datagram-IsQuiet gcm buf from s shut =
    on_header-IsQuiet gcm buf from (parse_tenant_header buf) s shut
