-- ===== src/Lib.antt =====
-- A verification library for the Ratelimitly C client, which asks a cluster of rate-limit servers
-- over UDP whether a request may pass.
--
-- The parts and their files:
--   Prelude    shared names: Boolean tests, lists over the native numbers, results
--              (`Result`: a value, an error code of include/r_client.h, or a fault)
--   Bytes      src/r_protocol.c: little-endian words (`r_le16` to `r_write_le64`)
--   Protocol   src/r_protocol.c and src/r_protocol.h: the tenant header and its peeks, the
--              authentication TLV, the builders of requests and reports (Protocol/Body), the
--              parser of responses (Protocol/Response)
--   Steering   src/r_client_steering.c: the search for a source port
--   Credential src/r_crypto.c: the quota word of a credential
--   Policy     src/r_policy.c and, from src/r_client.c, `r_ha_schedule_units` and
--              `r_request_policy_ttl_ms`
--   Client     src/r_client.c: requests in flight (Client/Machine), the servers that they know
--              (Client/Servers), the best answer (Client/Candidate), sending (Client/Send), rounds
--              (Client/Round), completion, timers and cancellation (Client/Complete), service
--              discovery (Client/Discovery), submission (Client/Submit), latency reports
--              (Client/Report)
--   Packet     src/r_client.c, `r_build_rate_request_packet` and `r_extract_pdu_data`, and
--              src/r_crypto.c, AES-GCM: packets, sealed and opened
--   Datagram   src/r_client.c, `r_parse_rate_response_alloc` and `r_client_on_datagram`
--   Content    src/r_crypto.c, `r_hash_content_id_blake2s_128`: identifiers of buckets and trackers
--   Calls      include/r_client.h and include/r_client_io.h: the calls of a host, in any order
--   Admission  src/r_client_workflow.c: the admission workflow over the client
--   Responder  tools/r_test_responder_protocol.c: the server that the tests stand up: what it opens
--              and reads (Responder), counts (Responder/Quota), answers (Responder/Reply) and logs
--              (Responder/Process)
--   Tests      the theorems at concrete inputs
--
-- How the code is read. A definition has the name of its C function without the prefix `r_` or
-- `r_client_`. Numbers are natural numbers, with `% 2 ^ w` where a w-bit result may wrap, except
-- that sums of sizes and offsets are exact, as they are for buffers far below the address space.
-- Shifted bytes that do not overlap are added where the source joins them by `|`. Byte strings are
-- lists; a read behind the end of one is the outcome `fault`, which no C code may reach. Pointers
-- that a caller passes are not null, except the arrays of an answer that is classified, values
-- returned through pointers are part of the result, and ownership flags are left out. The client
-- is a state that each operation takes and returns (`Machine`): its fields are those of
-- `r_client_t` that requests use; a request's address is its `handle`. The host's clock,
-- `udp_send`, allocator, resolver and random numbers answer their n-th call by a function of n, of
-- which nothing is assumed; a nonce is drawn, and counted, for every packet, though only AES-GCM
-- uses it. A resolver may call back before it returns, or later. What the host sees, datagrams,
-- completions, profiles, steering notices and names to resolve, is a trace of events; a call that
-- the host makes from inside a callback is a later step.
--
-- Loops are recursions on their counters. The loop over source ports has its 16384 rounds, the
-- exponential schedule its round number, the parsers the counts of the message; none has fuel
-- beyond the source's own bound. `serve_timer` is a host that calls one timer a given number of
-- times, and what it needs is part of its theorem.
--
-- Not modelled: set-up and destruction of the client, the runtimes over sockets, the performance
-- client, and of the test responder its set-up, names, command line and sockets. OpenSSL is
-- third-party code: AES-GCM, BLAKE2s and random bytes are parameters.
pub mod Prelude
pub mod Bytes
pub mod Protocol
pub mod Steering
pub mod Credential
pub mod Policy
pub mod Client
pub mod Content
pub mod Packet
pub mod Datagram
pub mod Admission
pub mod Calls
pub mod Responder
pub mod Tests
