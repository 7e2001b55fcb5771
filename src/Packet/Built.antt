-- ===== src/Packet/Built.antt =====
-- The packet of a request (r_build_rate_request_packet), from its fields to its opening.
use rl_c_client.Prelude.{
  leb, ◌==◌, if◌then◌else◌, Bool-cases, length, ℕ, ◌+◌, ◌≤◌, ◌<◌, ◌≡◌, refl, inl, inr, ◌&&◌, Option,
  List, ◌++◌, arith,
}
use rl_c_client.Prelude.Results.{err_protocol, Result, ok, err, fault, guard, ◌>>=◌, ◌>>◌}
use rl_c_client.Bytes.{write_le16, write_le32}
use rl_c_client.Protocol.{tenant_tlv_len, pdu_header_len, max_packet_size, pdu_rate_request}
use rl_c_client.Protocol.Header.{tenant_header_bytes}
use rl_c_client.Protocol.Header.RoundTrip.{length-tenant_header_bytes}
use rl_c_client.Protocol.Body.{build_rate_request_body, build_rate_request_pdu}
use rl_c_client.Client.Machine.{Request, Client, Machine, now_ms}
use rl_c_client.Packet.{
  Gcm, seal_pdu, request_header, request_pdu, packet_at, packet_of_pdu, build_rate_request_packet,
  extract_pdu_data,
}
use rl_c_client.Packet.RoundTrip.{IsGcm}
use rl_c_client.Packet.Opening.{IsKeyed, extract_pdu_data-seal_pdu}

build_rate_request_pdu-size :
    (ttl : ℕ) (body : List ℕ) (cap : ℕ) (pdu : List ℕ)
    → build_rate_request_pdu ttl body cap ≡ ok pdu
    → (0 < length pdu) × (length pdu ≤ cap)
unfolding build_rate_request_pdu write_le16 write_le32
build_rate_request_pdu-size ttl body cap pdu e =
    elim (Bool-cases
      (leb (pdu_header_len + length body) 0xffff && leb (pdu_header_len + length body) cap)) [
        | inr bad ↦ ground arith
        | inl good ↦
            let form : pdu
                ≡ write_le16 pdu_rate_request
                  ++ (write_le16 (pdu_header_len + length body) ++ (write_le32 ttl ++ body)) =
              ground arith in
            rw form (ground arith)
      ]

module _ (gcm : Gcm) (req : Request) where
  request_pdu-size :
      (pdu : List ℕ)
      → request_pdu gcm req ≡ ok pdu
      → (0 < length pdu) × (length pdu ≤ max_packet_size)
  unfolding request_pdu
  request_pdu-size pdu e =
      from_body
        (build_rate_request_body req.resources req.guards req.metrics_label req.metrics_label_len
          max_packet_size)
        e
    where
      from_body :
          (body : Result (List ℕ))
          → (body >>= λ b. build_rate_request_pdu req.dedup_ttl_ms b max_packet_size) ≡ ok pdu
          → (0 < length pdu) × (length pdu ≤ max_packet_size)
      from_body (ok b) k = build_rate_request_pdu-size req.dedup_ttl_ms b max_packet_size pdu k
      from_body (err x) k = ground arith
      from_body fault k = ground arith

  packet_at-sealed :
      (c : Client) (random : Option (List ℕ)) (stamp : ℕ) (pdu packet : List ℕ) (out_cap : ℕ)
      → packet_at gcm c req random stamp pdu out_cap ≡ ok packet
      → (seal_pdu gcm c.auth_type c random
            (tenant_header_bytes (request_header gcm c req stamp))
            pdu
            out_cap
          ≡ ok packet)
        × (length packet ≤ max_packet_size)
  unfolding packet_at
  packet_at-sealed c random stamp pdu packet out_cap e =
      elim (Bool-cases (leb tenant_tlv_len out_cap)) [
        | inr bad ↦ ground arith
        | inl good ↦
            from_sealed
              (seal_pdu gcm c.auth_type c random
                (tenant_header_bytes (request_header gcm c req stamp)) pdu out_cap)
              (ground arith)
      ]
    where
      from_sealed :
          (sealed : Result (List ℕ))
          → (sealed >>= λ p. guard (leb (length p) max_packet_size) err_protocol >> ok p)
            ≡ ok packet
          → (sealed ≡ ok packet) × (length packet ≤ max_packet_size)
      from_sealed (ok p) k = ground arith
      from_sealed (err x) k = ground arith
      from_sealed fault k = ground arith

-- What a built packet holds, and that it opens.
pub record IsBuilt (gcm : Gcm) (c : Client) (req : Request) (packet : List ℕ) : Type 0 where
  pub pdu : List ℕ
  pub built : request_pdu gcm req ≡ ok pdu
  pub small : length packet ≤ max_packet_size
  pub opens : extract_pdu_data gcm c packet tenant_tlv_len max_packet_size ≡ ok pdu

module _ (gcm : Gcm) (req : Request) (random : Option (List ℕ)) (out_cap : ℕ) (s : Machine)
    (packet : List ℕ) where
  packet_of_pdu-IsBuilt :
      (r : Result (List ℕ))
      → IsGcm gcm
      → IsKeyed s.client random
      → length req.request_id ≡ 16
      → request_pdu gcm req ≡ r
      → (packet_of_pdu gcm r req random out_cap s).0 ≡ ok packet
      → IsBuilt gcm s.client req packet
  unfolding packet_of_pdu
  packet_of_pdu-IsBuilt (ok pdu) law keyed identified built e =
      let stamp = (if req.start_ms == 0 then now_ms s else (req.start_ms, s)).0 in
      let header = tenant_header_bytes (request_header gcm s.client req stamp) in
      let (pos, fits) = request_pdu-size gcm req pdu built in
      let (sealed, small) = packet_at-sealed gcm req s.client random stamp pdu packet out_cap e in
      record {
        pdu = pdu;
        built = built;
        small = small;
        opens =
            extract_pdu_data-seal_pdu gcm s.client random header pdu packet out_cap max_packet_size
              law keyed
              (length-tenant_header_bytes (request_header gcm s.client req stamp) identified) pos
              fits sealed;
      }
  packet_of_pdu-IsBuilt (err x) law keyed identified built e = ground arith
  packet_of_pdu-IsBuilt fault law keyed identified built e = ground arith

-- A packet that the client builds for a request has at most 1200 bytes and opens, with the same
-- secrets, to the PDU of the request's fields. The request's id has 16 bytes, a cookie 32 and a
-- nonce 12, and AES-GCM decrypts what it has encrypted.
pub build_rate_request_packet-IsBuilt :
    (gcm : Gcm) (req : Request) (random : Option (List ℕ)) (out_cap : ℕ) (s : Machine)
    (packet : List ℕ)
    → IsGcm gcm
    → IsKeyed s.client random
    → length req.request_id ≡ 16
    → (build_rate_request_packet gcm req random out_cap s).0 ≡ ok packet
    → IsBuilt gcm s.client req packet
unfolding build_rate_request_packet
build_rate_request_packet-IsBuilt gcm req random out_cap s packet law keyed identified e =
    packet_of_pdu-IsBuilt gcm req random out_cap s packet (request_pdu gcm req) law keyed identified
      refl e
