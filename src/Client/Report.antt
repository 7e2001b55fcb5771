-- ===== src/Client/Report.antt =====
-- Latency reports (src/r_client.c, r_client_report_latency).
pub mod Delivery
use rl_c_client.Prelude.{
  ltb, leb, ◌==◌, if◌then◌else◌, length, ℕ, ◌+◌, ◌-◌, true, false, not, List, [], ◌∷◌,
}
use rl_c_client.Prelude.Results.{
  err_io, err_protocol, err_dns, err_config, Result, ok, err, guard, ◌>>=◌, ◌>>◌,
}
use rl_c_client.Protocol.{
  tenant_tlv_len, max_packet_size, tlv_tenant, pdu_latency_report, TenantHeader,
  ServiceLatencyReport,
}
use rl_c_client.Protocol.Header.{tenant_header_bytes}
use rl_c_client.Protocol.Body.{build_latency_report_body, build_pdu}
use rl_c_client.Client.Machine.{Endpoint, Client, M, pure, set_client, now_ms, udp_send, rand_bytes}
use rl_c_client.Client.Send.{record_send_failures}
use rl_c_client.Client.Complete.{is_nil}
use rl_c_client.Client.Discovery.Start.{dns_maybe_refresh}
use rl_c_client.Client.Submit.{generate_request_id, chain, on_machine}
use rl_c_client.Packet.{Gcm, seal_pdu}

-- The PDU of a report.
unfoldable pub report_pdu : List ServiceLatencyReport → Result (List ℕ)
report_pdu reports = do
  body ← build_latency_report_body reports max_packet_size
  build_pdu pdu_latency_report body max_packet_size

-- The header of a report that is sent at `time_stamp`.
abbrev pub report_header : Client → List ℕ → ℕ → TenantHeader
report_header c id time_stamp = record {
  tlv_type = tlv_tenant;
  tlv_size = tenant_tlv_len;
  key_id = c.key_id;
  unique_id = id;
  time_stamp = time_stamp;
  steering_feedback = 0;
  tenant_mgmt_flag = 0;
  padding0 = 0;
  padding1 = 0;
}

-- The loop over the servers, with the datagrams delivered so far.
unfoldable pub deliver : List Endpoint → List ℕ → ℕ → M ℕ
deliver [] packet delivered s = (delivered, s)
deliver (e ∷ es) packet delivered s =
    let (works, s') = udp_send e.addr packet s in
    deliver es packet (if works then delivered + 1 else delivered) s'

-- The status after the loop, with at least one server.
unfoldable pub end_delivery : ℕ → ℕ → M (Result (Unit {0}))
end_delivery count delivered s =
    if delivered == 0
    then (err err_io, s)
    else if ltb delivered count
    then (ok tt, set_client s (record_send_failures (count - delivered) s.client))
    else (ok tt, s)

unfoldable pub deliver_report : List Endpoint → List ℕ → M (Result (Unit {0}))
deliver_report servers packet s =
    let (delivered, s') = deliver servers packet 0 s in end_delivery (length servers) delivered s'

module _ (gcm : Gcm) where
  -- From the PDU on: the identifier, the time stamp, the nonce, which is drawn, and counted, for
  -- every packet, and the sealed packet.
  unfoldable pub seal_report : List ℕ → M (Result (List ℕ))
  seal_report pdu = chain generate_request_id λ id s.
      let (now, s1) = now_ms s in
      let (drawn, s2) = rand_bytes 12 s1 in
      let c = s.client in
      (
        (do
          packet ←
              seal_pdu gcm c.auth_type c drawn (tenant_header_bytes (report_header c id now)) pdu
                max_packet_size
          guard (leb (length packet) max_packet_size) err_protocol
          ok packet),
        s2,
      )

  -- With servers, or a forced refresh without.
  unfoldable pub report_to_servers :
      List Endpoint → List ServiceLatencyReport → M (Result (Unit {0}))
  report_to_servers [] reports s = on_machine (dns_maybe_refresh true s) s (pure (err err_dns))
  report_to_servers (e ∷ es) reports s =
      chain (pure (report_pdu reports))
        (λ pdu. chain (seal_report pdu) λ packet. deliver_report (e ∷ es) packet) s

  unfoldable pub report_latency : List ServiceLatencyReport → M (Result (Unit {0}))
  report_latency reports s =
      if is_nil reports
      then (err err_config, s)
      else if not s.client.has_udp_send
      then (err err_io, s)
      else on_machine (dns_maybe_refresh false s) s
          (λ s'. report_to_servers s'.client.servers reports s')
