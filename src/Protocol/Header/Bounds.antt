-- ===== src/Protocol/Header/Bounds.antt =====
-- The reads of the header routines and the size of the datagram.
use rl_c_client.Prelude.{ℕ, ◌+◌, List, arith}
use rl_c_client.Prelude.Results.{NoFault}
use rl_c_client.Bytes.Bounds.{read_u8-IsOk, read_le16-IsOk, read_le64-IsOk, read_bytes-IsOk}
use rl_c_client.Protocol.Header.{
  tenant_header_read, parse_tenant_header, parse_auth_tlv_header, peek_server_id, peek_request_id,
}

tenant_header_read-NoFault : (buf : List ℕ) → NoFault (tenant_header_read buf)
unfolding tenant_header_read
tenant_header_read-NoFault buf = ground (
  arith,
  read_le16-IsOk buf 0,
  read_le16-IsOk buf 2,
  read_le64-IsOk buf 4,
  read_bytes-IsOk buf 12 16,
  read_le64-IsOk buf 28,
  read_u8-IsOk buf 36,
  read_u8-IsOk buf 37,
  read_u8-IsOk buf 38,
  read_u8-IsOk buf 39,
)

parse_tenant_header-NoFault : (buf : List ℕ) → NoFault (parse_tenant_header buf)
unfolding parse_tenant_header
parse_tenant_header-NoFault buf =
    ground (arith, read_le16-IsOk buf 0, read_le16-IsOk buf 2, tenant_header_read-NoFault buf)

pub parse_auth_tlv_header-NoFault :
    (buf : List ℕ) (pos : ℕ) → NoFault (parse_auth_tlv_header buf pos)
unfolding parse_auth_tlv_header
parse_auth_tlv_header-NoFault buf pos =
    grind (arith, read_le16-IsOk buf pos, read_le16-IsOk buf (pos + 2), read_bytes-IsOk)

peek_server_id-NoFault : (buf : List ℕ) → NoFault (peek_server_id buf)
unfolding peek_server_id
peek_server_id-NoFault buf =
    ground (arith, read_le16-IsOk buf 0, read_le16-IsOk buf 2, read_le64-IsOk buf 4)

peek_request_id-NoFault : (buf : List ℕ) → NoFault (peek_request_id buf)
unfolding peek_request_id
peek_request_id-NoFault buf =
    ground (arith, read_le16-IsOk buf 0, read_le16-IsOk buf 2, read_bytes-IsOk buf 12 16)
