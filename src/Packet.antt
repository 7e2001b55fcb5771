-- ===== src/Packet.antt =====
-- Packets: a request's PDU behind its tenant header and its authentication TLV (src/r_client.c,
-- r_build_rate_request_packet, r_extract_pdu_data; src/r_crypto.c, r_encrypt_pdu_aes_gcm,
-- r_decrypt_pdu_aes_gcm).
pub mod RoundTrip
pub mod Opening
pub mod Built
use rl_c_client.Prelude.{
  ltb, leb, ◌==◌, if◌then◌else◌, length, take, drop, ℕ, ◌+◌, ◌&&◌, Option, none, some, List, ◌++◌,
}
use rl_c_client.Prelude.Results.{
  err_protocol, err_auth, err_config, Result, ok, err, fault, guard, ◌>>=◌, ◌>>◌,
}
use rl_c_client.Bytes.{write_le16}
use rl_c_client.Protocol.{
  tenant_tlv_len, max_packet_size, tlv_tenant, tlv_auth_cookie, tlv_auth_aes, TenantHeader,
}
use rl_c_client.Protocol.Header.{tenant_header_bytes, AuthTlv, parse_auth_tlv_header}
use rl_c_client.Protocol.Body.{build_rate_request_body, build_rate_request_pdu}
use rl_c_client.Client.Machine.{
  bytes_eq, Request, AuthType, auth_unset, auth_cookie, auth_aes_gcm, Client, M, now_ms,
}

-- OpenSSL's AES-256-GCM: `encrypt key aad nonce plain` is the ciphertext and the tag, and
-- `decrypt key aad nonce tag cipher` the plaintext; `none` if a call fails.
pub record Gcm : Type 0 where
  pub encrypt : List ℕ → List ℕ → List ℕ → List ℕ → Option (List ℕ × List ℕ)
  pub decrypt : List ℕ → List ℕ → List ℕ → List ℕ → List ℕ → Option (List ℕ)

-- `*cipher`, `nonce` and `tag`.
pub record Sealed : Type 0 where
  pub cipher : List ℕ
  pub nonce : List ℕ
  pub tag : List ℕ

module _ (gcm : Gcm) where
  -- `random` is what `RAND_bytes` fills the nonce with; `none` is the return value -1.
  unfoldable pub encrypt_pdu_aes_gcm :
      Option (List ℕ) → List ℕ → List ℕ → List ℕ → ℕ → Option Sealed
  encrypt_pdu_aes_gcm random pdu key aad_prefix cipher_cap =
      if ltb cipher_cap (length pdu) then none else elim random [
        | none ↦ none
        | some nonce ↦ elim (gcm.encrypt key (aad_prefix ++ nonce) nonce pdu) [
          | none ↦ none
          | some (cipher, tag) ↦ some (record { cipher = cipher; nonce = nonce; tag = tag })
        ]
      ]

  unfoldable pub decrypt_pdu_aes_gcm :
      List ℕ → List ℕ → List ℕ → List ℕ → List ℕ → ℕ → Option (List ℕ)
  decrypt_pdu_aes_gcm cipher key nonce tag aad out_cap =
      if ltb out_cap (length cipher) then none else gcm.decrypt key aad nonce tag cipher

  -- The authentication TLV and the PDU behind `header`.
  unfoldable pub seal_cookie : Option (List ℕ) → List ℕ → List ℕ → ℕ → Result (List ℕ)
  seal_cookie none header pdu out_cap = err err_auth
  seal_cookie (some cookie) header pdu out_cap = do
    guard (leb (tenant_tlv_len + 4 + 32 + length pdu) out_cap) err_protocol
    ok (header ++ (write_le16 tlv_auth_cookie ++ (write_le16 36 ++ (cookie ++ pdu))))

  unfoldable pub seal_aes_gcm :
      Option (List ℕ) → Option (List ℕ) → List ℕ → List ℕ → ℕ → Result (List ℕ)
  seal_aes_gcm none random header pdu out_cap = err err_auth
  seal_aes_gcm (some key) random header pdu out_cap = do
    guard (leb (tenant_tlv_len + 4 + 12 + 16 + length pdu) out_cap) err_protocol
    let aad = header ++ (write_le16 tlv_auth_aes ++ write_le16 32)
    elim (encrypt_pdu_aes_gcm random pdu key aad max_packet_size) [
      | none ↦ err err_auth
      | some s ↦ do
        guard (leb (tenant_tlv_len + 4 + 12 + 16 + length s.cipher) out_cap) err_protocol
        ok (aad ++ (s.nonce ++ (s.tag ++ s.cipher)))
    ]

  unfoldable pub seal_pdu :
      AuthType → Client → Option (List ℕ) → List ℕ → List ℕ → ℕ → Result (List ℕ)
  seal_pdu auth_cookie c random header pdu out_cap = seal_cookie c.cookie header pdu out_cap
  seal_pdu auth_aes_gcm c random header pdu out_cap =
      seal_aes_gcm c.aes_key random header pdu out_cap
  seal_pdu auth_unset c random header pdu out_cap = err err_config

  -- The header of a request that was sent at `time_stamp`.
  abbrev pub request_header : Client → Request → ℕ → TenantHeader
  request_header c req time_stamp = record {
    tlv_type = tlv_tenant;
    tlv_size = tenant_tlv_len;
    key_id = c.key_id;
    unique_id = req.request_id;
    time_stamp = time_stamp;
    steering_feedback = 0;
    tenant_mgmt_flag = 0;
    padding0 = 0;
    padding1 = 0;
  }

  -- The PDU of a request.
  unfoldable pub request_pdu : Request → Result (List ℕ)
  request_pdu req = do
    body ←
        build_rate_request_body req.resources req.guards req.metrics_label req.metrics_label_len
          max_packet_size
    build_rate_request_pdu req.dedup_ttl_ms body max_packet_size

  -- From the header on.
  unfoldable pub packet_at : Client → Request → Option (List ℕ) → ℕ → List ℕ → ℕ → Result (List ℕ)
  packet_at c req random time_stamp pdu out_cap = do
    guard (leb tenant_tlv_len out_cap) err_protocol
    packet ←
        seal_pdu c.auth_type c random (tenant_header_bytes (request_header c req time_stamp)) pdu
          out_cap
    guard (leb (length packet) max_packet_size) err_protocol
    ok packet

  -- The clock is read only for a request that has no start.
  unfoldable pub packet_of_pdu :
      Result (List ℕ) → Request → Option (List ℕ) → ℕ → M (Result (List ℕ))
  packet_of_pdu (ok pdu) req random out_cap s =
      let stamped = if req.start_ms == 0 then now_ms s else (req.start_ms, s) in
      (packet_at s.client req random (stamped.0) pdu out_cap, stamped.1)
  packet_of_pdu (err e) req random out_cap s = (err e, s)
  packet_of_pdu fault req random out_cap s = (fault, s)

  unfoldable pub build_rate_request_packet : Request → Option (List ℕ) → ℕ → M (Result (List ℕ))
  build_rate_request_packet req = packet_of_pdu (request_pdu req) req

  -- `expected_type`.
  abbrev pub expected_auth_type : AuthType → Result ℕ
  expected_auth_type auth_cookie = ok tlv_auth_cookie
  expected_auth_type auth_aes_gcm = ok tlv_auth_aes
  expected_auth_type auth_unset = err err_config

  unfoldable pub open_cookie : Option (List ℕ) → AuthTlv → List ℕ → Result (List ℕ)
  open_cookie cookie auth buf = do
    guard ((auth.auth_size == 36) && (length auth.body == 32)) err_protocol
    elim cookie [
      | none ↦ err err_auth
      | some c ↦ do guard (bytes_eq auth.body c) err_auth; ok (drop auth.pdu_pos buf)
    ]

  unfoldable pub open_aes_gcm : Option (List ℕ) → AuthTlv → List ℕ → ℕ → ℕ → Result (List ℕ)
  open_aes_gcm key auth buf pos pdu_cap = do
    guard ((auth.auth_size == 32) && (length auth.body == 28)) err_protocol
    elim key [
      | none ↦ err err_auth
      | some k ↦ do
        guard (ltb 0 pdu_cap) err_protocol
        let cipher = drop auth.pdu_pos buf
        guard (ltb 0 (length cipher)) err_protocol
        elim (decrypt_pdu_aes_gcm cipher k (take 12 auth.body) (drop 12 auth.body)
            (take (pos + 4 + 12) buf) pdu_cap) [ none ↦ err err_protocol | some pdu ↦ ok pdu ]
    ]

  unfoldable pub extract_pdu_data : Client → List ℕ → ℕ → ℕ → Result (List ℕ)
  extract_pdu_data c buf pos pdu_cap = do
    auth ← parse_auth_tlv_header buf pos
    expected ← expected_auth_type c.auth_type
    guard (auth.auth_type == expected) err_auth
    if auth.auth_type == tlv_auth_cookie
        then open_cookie c.cookie auth buf
        else open_aes_gcm c.aes_key auth buf pos pdu_cap
