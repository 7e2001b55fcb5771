-- ===== src/Client/Send.antt =====
-- Sending a packet to the targets of a request (src/r_client.c, r_record_send_failures,
-- r_send_packet_to_targets, r_send_rate_request, r_completion_delivery).
use rl_c_client.Prelude.{
  ltb, leb, ◌==◌, if◌then◌else◌, ℕ, ◌+◌, ◌-◌, Bool, true, not, ◌&&◌, List, [], ◌∷◌,
}
use rl_c_client.Prelude.Results.{ClientError, rclient_ok, err_io, err_protocol}
use rl_c_client.Policy.{u64_max}
use rl_c_client.Client.Machine.{Endpoint, Request, Client, Machine, M, set_client, now_ms, udp_send}
use rl_c_client.Client.Servers.{request_target_responded}

-- The counter stops at its maximum.
unfoldable pub record_send_failures : ℕ → Client → Client
record_send_failures failures c =
    if failures == 0
    then c
    else if ltb (u64_max - failures) c.send_failure_count
    then record c { send_failure_count = u64_max }
    else record c { send_failure_count = c.send_failure_count + failures }

-- One round of the loop, with the counts of attempted and delivered datagrams so far.
unfoldable pub send_one : Bool → Request → List ℕ → Endpoint → ℕ × ℕ → M (ℕ × ℕ)
send_one missing_only req packet t (attempted, delivered) s =
    if missing_only && request_target_responded req t
    then ((attempted, delivered), s)
    else (let (works, s') = udp_send t.addr packet s in
        ((attempted + 1, if works then delivered + 1 else delivered), s'))

unfoldable pub send_loop : Bool → Request → List ℕ → List Endpoint → ℕ × ℕ → M (ℕ × ℕ)
send_loop missing_only req packet [] counts s = (counts, s)
send_loop missing_only req packet (t ∷ ts) counts s =
    let (counts', s') = send_one missing_only req packet t counts s in
    send_loop missing_only req packet ts counts' s'

unfoldable pub send_packet_to_targets : Request → List ℕ → Bool → Bool → M ClientError
send_packet_to_targets req [] missing_only best_effort s = (err_protocol, s)
send_packet_to_targets req (b ∷ bs) missing_only best_effort s =
    if not s.client.has_udp_send
    then (err_io, s)
    else (let ((attempted, delivered), s') =
          send_loop missing_only req (b ∷ bs) req.targets (0, 0) s in
        if not best_effort && (ltb 0 attempted && (delivered == 0))
        then (err_io, s')
        else if not best_effort && (ltb 0 delivered && ltb delivered attempted)
        then (rclient_ok, set_client s' (record_send_failures (attempted - delivered) s'.client))
        else (rclient_ok, s'))

unfoldable pub send_rate_request : Request → Bool → Bool → M ClientError
send_rate_request req = send_packet_to_targets req req.packet

unfoldable pub completion_delivery : Request → Machine → Machine
completion_delivery req s =
    let (now, s') = now_ms s in
    if not s.client.policy.completion_delivery
    then s
    else if leb req.dedup_deadline_ms now
    then s'
    else (send_rate_request req true true s').1
