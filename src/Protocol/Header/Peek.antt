-- ===== src/Protocol/Header/Peek.antt =====
-- The peeks at a datagram (r_peek_server_id, r_peek_request_id) and the full parse.
use rl_c_client.Prelude.{le→leb, length, ℕ, ◌≤◌, ◌≡◌, Bool, true, false, List, arith}
use rl_c_client.Prelude.Results.{err_protocol, Result, ok, err, fault, IsOk-value}
use rl_c_client.Bytes.{read_le64, read_bytes}
use rl_c_client.Bytes.Bounds.{read_u8-IsOk, read_le16-IsOk, read_le64-IsOk, read_bytes-IsOk}
use rl_c_client.Protocol.{tenant_tlv_len, TenantHeader}
use rl_c_client.Protocol.Header.{
  tenant_header_read, parse_tenant_header, peek_server_id, peek_request_id,
}

-- What the peeks return for the outcome of the full parse.
abbrev pub PeeksAgree : Result (TenantHeader × ℕ) → Result (ℕ × Bool) → Result (List ℕ) → Type 0
PeeksAgree (ok (header, _)) server request =
    (server ≡ ok (header.key_id, true)) × (request ≡ ok header.unique_id)
PeeksAgree (err _) server request = (server ≡ ok (0, false)) × (request ≡ err err_protocol)
PeeksAgree fault server request = ⊥

module _ (buf : List ℕ) where
  -- Behind the size check the inner read succeeds, with the fields that the peeks read.
  tenant_header_read-ok :
      tenant_tlv_len ≤ length buf
      → (h : TenantHeader) × (tenant_header_read buf ≡ ok h)
        × (read_le64 buf 4 ≡ ok h.key_id)
        × (read_bytes buf 12 16 ≡ ok h.unique_id)
  unfolding tenant_header_read
  tenant_header_read-ok long =
      let (ty, ty_eq) = IsOk-value _ (read_le16-IsOk buf 0 (omega arith)) in
      let (size, size_eq) = IsOk-value _ (read_le16-IsOk buf 2 (omega arith)) in
      let (key, key_eq) = IsOk-value _ (read_le64-IsOk buf 4 (omega arith)) in
      let (id, id_eq) = IsOk-value _ (read_bytes-IsOk buf 12 16 (omega arith)) in
      let (stamp, stamp_eq) = IsOk-value _ (read_le64-IsOk buf 28 (omega arith)) in
      let (steer, steer_eq) = IsOk-value _ (read_u8-IsOk buf 36 (omega arith)) in
      let (mgmt, mgmt_eq) = IsOk-value _ (read_u8-IsOk buf 37 (omega arith)) in
      let (p0, p0_eq) = IsOk-value _ (read_u8-IsOk buf 38 (omega arith)) in
      let (p1, p1_eq) = IsOk-value _ (read_u8-IsOk buf 39 (omega arith)) in
      (
        record {
          tlv_type = ty;
          tlv_size = size;
          key_id = key;
          unique_id = id;
          time_stamp = stamp;
          steering_feedback = steer;
          tenant_mgmt_flag = mgmt;
          padding0 = p0;
          padding1 = p1;
        },
        simp (
          le→leb _ _ long,
          ty_eq,
          size_eq,
          key_eq,
          id_eq,
          stamp_eq,
          steer_eq,
          mgmt_eq,
          p0_eq,
          p1_eq,
        ),
        key_eq,
        id_eq,
      )

-- On every byte string: where the full parse accepts the header, the peeks return its key id and
-- its unique id, and where it refuses the header, both peeks report failure.
pub peeks_agree :
    (buf : List ℕ) → PeeksAgree (parse_tenant_header buf) (peek_server_id buf) (peek_request_id buf)
unfolding parse_tenant_header peek_server_id peek_request_id
peeks_agree buf =
    ground (arith, read_le16-IsOk buf 0, read_le16-IsOk buf 2, tenant_header_read-ok buf)
