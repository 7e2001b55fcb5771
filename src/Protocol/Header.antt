-- ===== src/Protocol/Header.antt =====
-- The tenant header and the authentication TLV at the front of each datagram (src/r_protocol.c,
-- r_tenant_header_write to r_peek_request_id).
pub mod Bounds
pub mod RoundTrip
pub mod Peek
use rl_c_client.Prelude.{
  ltb, leb, ◌==◌, if◌then◌else◌, length, drop, ℕ, ◌+◌, ◌-◌, Bool, true, false, ◌&&◌, List, [], ◌∷◌,
  ◌++◌,
}
use rl_c_client.Prelude.Results.{err_protocol, Result, ok, ◌>>=◌, ◌>>◌, guard}
use rl_c_client.Bytes.{read_u8, read_le16, read_le64, read_bytes, write_le16, write_le64}
use rl_c_client.Protocol.{tenant_tlv_len, tlv_tenant, TenantHeader}

-- The forty bytes that `r_tenant_header_write` stores.
unfoldable pub tenant_header_bytes : TenantHeader → List ℕ
tenant_header_bytes header =
    write_le16 header.tlv_type
    ++ (write_le16 header.tlv_size
        ++ (write_le64 header.key_id
            ++ (header.unique_id
                ++ (write_le64 header.time_stamp
                    ++ (header.steering_feedback ∷ header.tenant_mgmt_flag ∷ header.padding0
                        ∷ header.padding1 ∷ [])))))

-- A buffer that is too small is left alone.
unfoldable pub tenant_header_write : TenantHeader → List ℕ → List ℕ
unfolding tenant_header_bytes
tenant_header_write header buf =
    if ltb (length buf) tenant_tlv_len
    then buf
    else tenant_header_bytes header ++ drop tenant_tlv_len buf

unfoldable pub tenant_header_read : List ℕ → Result TenantHeader
tenant_header_read buf = do
  guard (leb tenant_tlv_len (length buf)) err_protocol
  tlv_type ← read_le16 buf 0
  tlv_size ← read_le16 buf 2
  key_id ← read_le64 buf 4
  unique_id ← read_bytes buf 12 16
  time_stamp ← read_le64 buf 28
  steering_feedback ← read_u8 buf 36
  tenant_mgmt_flag ← read_u8 buf 37
  padding0 ← read_u8 buf 38
  padding1 ← read_u8 buf 39
  ok (record {
    tlv_type = tlv_type;
    tlv_size = tlv_size;
    key_id = key_id;
    unique_id = unique_id;
    time_stamp = time_stamp;
    steering_feedback = steering_feedback;
    tenant_mgmt_flag = tenant_mgmt_flag;
    padding0 = padding0;
    padding1 = padding1;
  })

-- The header and the position behind it. The source drops the status of the inner read, which
-- cannot fail once the size has been checked.
unfoldable pub parse_tenant_header : List ℕ → Result (TenantHeader × ℕ)
parse_tenant_header buf = do
  guard (leb 4 (length buf)) err_protocol
  tlv_type ← read_le16 buf 0
  guard (tlv_type == tlv_tenant) err_protocol
  tlv_size ← read_le16 buf 2
  guard (leb tenant_tlv_len tlv_size && leb tlv_size (length buf)) err_protocol
  header ← tenant_header_read buf
  ok (header, tlv_size)

-- The out parameters of `r_parse_auth_tlv_header`; `body` is `out_body` with `out_body_len`.
pub record AuthTlv : Type 0 where
  pub auth_type : ℕ
  pub auth_size : ℕ
  pub body : List ℕ
  pub pdu_pos : ℕ

unfoldable pub parse_auth_tlv_header : List ℕ → ℕ → Result AuthTlv
parse_auth_tlv_header buf pos = do
  guard (leb (pos + 4) (length buf)) err_protocol
  tlv_type ← read_le16 buf pos
  tlv_size ← read_le16 buf (pos + 2)
  guard (leb 4 tlv_size && leb (pos + tlv_size) (length buf)) err_protocol
  body ← read_bytes buf (pos + 4) (tlv_size - 4)
  ok (record { auth_type = tlv_type; auth_size = tlv_size; body = body; pdu_pos = pos + tlv_size })

-- The test that both peeks make on type and size.
unfoldable pub is_whole_tenant_tlv : List ℕ → ℕ → ℕ → Bool
is_whole_tenant_tlv buf tlv_type tlv_size =
    (tlv_type == tlv_tenant) && (leb tenant_tlv_len tlv_size && leb tlv_size (length buf))

-- The returned number and `*ok`.
unfoldable pub peek_server_id : List ℕ → Result (ℕ × Bool)
unfolding is_whole_tenant_tlv
peek_server_id buf = if ltb (length buf) 12 then ok (0, false) else (do
  tlv_type ← read_le16 buf 0
  tlv_size ← read_le16 buf 2
  if is_whole_tenant_tlv buf tlv_type tlv_size
      then (do server_id ← read_le64 buf 4; ok (server_id, true))
      else ok (0, false))

unfoldable pub peek_request_id : List ℕ → Result (List ℕ)
unfolding is_whole_tenant_tlv
peek_request_id buf = do
  guard (leb 28 (length buf)) err_protocol
  tlv_type ← read_le16 buf 0
  tlv_size ← read_le16 buf 2
  guard (is_whole_tenant_tlv buf tlv_type tlv_size) err_protocol
  read_bytes buf 12 16
