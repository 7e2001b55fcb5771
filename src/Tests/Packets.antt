-- ===== src/Tests/Packets.antt =====
-- The theorem on built packets at a concrete request.
use rl_c_client.Prelude.{replicate, ℕ, suc, ◌≡◌, refl, some, List, [], ◌++◌, map}
use rl_c_client.Prelude.Results.{ok}
use rl_c_client.Bytes.{write_le16, write_le32, write_le64}
use rl_c_client.Protocol.{pdu_rate_request}
use rl_c_client.Protocol.Header.{tenant_header_bytes}
use rl_c_client.Protocol.Body.{
  guard_blocks, resource_blocks, rate_request_blocks, append_label, build_rate_request_body,
  build_rate_request_pdu,
}
use rl_c_client.Client.Machine.{Machine}
use rl_c_client.Packet.{
  encrypt_pdu_aes_gcm, seal_aes_gcm, seal_pdu, request_header, request_pdu, packet_at,
  packet_of_pdu, build_rate_request_packet,
}
use rl_c_client.Packet.RoundTrip.{aad_prefix}
use rl_c_client.Packet.Built.{IsBuilt, build_rate_request_packet-IsBuilt}
use rl_c_client.Tests.Timers.{waiting, machine}
use rl_c_client.Tests.Workflow.{toy, toy-IsGcm, sealed_by, sealed_by-IsKeyed}

abbrev sender : Machine
sender = record machine { client = sealed_by }

abbrev plain : List ℕ
plain =
    write_le16 pdu_rate_request
    ++ (write_le16 12 ++ (write_le32 60 ++ (write_le16 0 ++ (write_le16 0 ++ []))))

abbrev built : List ℕ
built =
    aad_prefix (tenant_header_bytes (request_header toy sealed_by waiting 100))
    ++ (replicate 12 5 ++ (replicate 16 0 ++ map suc plain))

built_eq : (build_rate_request_packet toy waiting (some (replicate 12 5)) 1200 sender).0 ≡ ok built
unfolding build_rate_request_packet packet_of_pdu request_pdu build_rate_request_body
    build_rate_request_pdu packet_at seal_pdu seal_aes_gcm encrypt_pdu_aes_gcm tenant_header_bytes
    rate_request_blocks append_label guard_blocks resource_blocks write_le16 write_le32 write_le64
built_eq = refl

build_rate_request_packet-IsBuilt_example : IsBuilt toy sealed_by waiting built
build_rate_request_packet-IsBuilt_example =
    build_rate_request_packet-IsBuilt toy waiting (some (replicate 12 5)) 1200 sender built
      toy-IsGcm sealed_by-IsKeyed refl built_eq
