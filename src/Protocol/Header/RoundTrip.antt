-- ===== src/Protocol/Header/RoundTrip.antt =====
-- Writing and parsing the tenant header (r_tenant_header_write, r_parse_tenant_header).
use mathlib.Core.List.{append_assoc}
use rl_c_client.Prelude.{
  length-drop, le→leb, ◌≤◌, drop-add, length, length-append, drop, drop-append, ℕ, ◌+◌, ◌^◌, ◌<◌,
  ◌≡◌, refl, ap, ◌∙◌, List, ◌∷◌, ◌++◌, arith,
}
use rl_c_client.Prelude.Results.{ok}
use rl_c_client.Bytes.{read_le16, read_le64, read_bytes, write_le16, write_le64}
use rl_c_client.Bytes.RoundTrip.{read_u8-eq, read_le16-eq, read_le64-eq, read_bytes-eq}
use rl_c_client.Protocol.{tenant_tlv_len, tlv_tenant, TenantHeader}
use rl_c_client.Protocol.Header.{
  tenant_header_write, parse_tenant_header, tenant_header_read, tenant_header_bytes,
}

-- What the fields of a header that the client sends satisfy.
pub record IsWireHeader (h : TenantHeader) : Type 0 where
  pub typed : h.tlv_type ≡ tlv_tenant
  pub sized : h.tlv_size ≡ tenant_tlv_len
  pub keyed : h.key_id < 2 ^ 64
  pub identified : length h.unique_id ≡ 16
  pub stamped : h.time_stamp < 2 ^ 64

-- The header's bytes with what follows, bracketed to the right.
layout : TenantHeader → List ℕ → List ℕ
layout h rest =
    write_le16 h.tlv_type
    ++ (write_le16 h.tlv_size
        ++ (write_le64 h.key_id
            ++ (h.unique_id
                ++ (write_le64 h.time_stamp
                    ++ (h.steering_feedback ∷ h.tenant_mgmt_flag ∷ h.padding0 ∷ h.padding1
                        ∷ rest)))))

tenant_header_bytes-append :
    (h : TenantHeader) (rest : List ℕ) → tenant_header_bytes h ++ rest ≡ layout h rest
unfolding tenant_header_bytes layout write_le16 write_le64
tenant_header_bytes-append h rest = simp append_assoc

pub length-tenant_header_bytes :
    (h : TenantHeader) → length h.unique_id ≡ 16 → length (tenant_header_bytes h) ≡ tenant_tlv_len
unfolding tenant_header_bytes write_le16 write_le64
length-tenant_header_bytes h e = simp length-append (omega arith)

module _ (h : TenantHeader) (rest : List ℕ) (w : IsWireHeader h) where
  read_type : read_le16 (layout h rest) 0 ≡ ok h.tlv_type
  unfolding layout
  read_type = read_le16-eq _ 0 _ h.tlv_type refl (omega arith)

  read_size : read_le16 (layout h rest) 2 ≡ ok h.tlv_size
  unfolding layout write_le16
  read_size = read_le16-eq _ 2 _ h.tlv_size refl (omega arith)

  read_key : read_le64 (layout h rest) 4 ≡ ok h.key_id
  unfolding layout write_le16 write_le64
  read_key = read_le64-eq _ 4 _ h.key_id refl w.keyed

  read_id : read_bytes (layout h rest) 12 16 ≡ ok h.unique_id
  unfolding layout write_le16 write_le64
  read_id = read_bytes-eq _ 12 _ 16 h.unique_id refl w.identified

  flags : List ℕ
  flags = h.steering_feedback ∷ h.tenant_mgmt_flag ∷ h.padding0 ∷ h.padding1 ∷ rest

  drop_28 : drop 28 (layout h rest) ≡ write_le64 h.time_stamp ++ flags
  unfolding layout write_le16 write_le64 flags
  drop_28 = drop-append 16 h.unique_id _ w.identified

  drop_36 : drop 36 (layout h rest) ≡ flags
  unfolding write_le64
  drop_36 = drop-add 28 8 (layout h rest) ∙ rw drop_28

  read_stamp : read_le64 (layout h rest) 28 ≡ ok h.time_stamp
  read_stamp = read_le64-eq _ 28 flags h.time_stamp drop_28 w.stamped

  drop_flag : (k : ℕ) → drop (36 + k) (layout h rest) ≡ drop k flags
  drop_flag k = drop-add 36 k (layout h rest) ∙ ap (drop k) drop_36

  length-layout : length (layout h rest) ≡ 40 + length rest
  length-layout =
      rw
        (
          ← tenant_header_bytes-append h rest,
          length-append,
          length-tenant_header_bytes h w.identified,
        )
        refl

  tenant_header_read-layout : tenant_header_read (layout h rest) ≡ ok h
  unfolding tenant_header_read
  tenant_header_read-layout =
      unfold flags in
      simp (
        le→leb 40 (length (layout h rest)) (omega (arith, length-layout)),
        read_type,
        read_size,
        read_key,
        read_id,
        read_stamp,
        read_u8-eq (layout h rest) 36 (drop 1 flags) h.steering_feedback (drop_flag 0),
        read_u8-eq (layout h rest) 37 (drop 2 flags) h.tenant_mgmt_flag (drop_flag 1),
        read_u8-eq (layout h rest) 38 (drop 3 flags) h.padding0 (drop_flag 2),
        read_u8-eq (layout h rest) 39 rest h.padding1 (drop_flag 3),
      )

  pub parse_tenant_header_bytes :
      parse_tenant_header (tenant_header_bytes h ++ rest) ≡ ok (h, tenant_tlv_len)
  unfolding parse_tenant_header
  parse_tenant_header_bytes = rw tenant_header_bytes-append (
      simp (
        le→leb 4 (length (layout h rest)) (omega (arith, length-layout)),
        read_type,
        read_size,
        w.typed,
        w.sized,
        le→leb 40 (length (layout h rest)) (omega (arith, length-layout)),
        tenant_header_read-layout,
      ))

write-eq :
    (h : TenantHeader) (buf : List ℕ)
    → tenant_tlv_len ≤ length buf
    → tenant_header_write h buf ≡ tenant_header_bytes h ++ drop tenant_tlv_len buf
unfolding tenant_header_write
write-eq h buf long = ground arith

-- A header of the tenant TLV's type (0x4C52) and size (40), with an identifier of sixteen bytes and
-- a key and a time stamp below 2^64, written to a buffer of at least forty bytes, is parsed back
-- from it, whatever the buffer holds behind the header; the buffer keeps its length, and nothing
-- behind the header is touched.
pub parse_tenant_header-tenant_header_write :
    (h : TenantHeader) (buf : List ℕ)
    → IsWireHeader h
    → tenant_tlv_len ≤ length buf
    → (parse_tenant_header (tenant_header_write h buf) ≡ ok (h, tenant_tlv_len))
      × (length (tenant_header_write h buf) ≡ length buf)
      × (drop tenant_tlv_len (tenant_header_write h buf) ≡ drop tenant_tlv_len buf)
parse_tenant_header-tenant_header_write h buf w long = rw (write-eq h buf long) (
  parse_tenant_header_bytes h (drop 40 buf) w,
  simp (length-append, length-tenant_header_bytes h w.identified)
      (omega (arith, length-drop 40 buf)),
  drop-append 40 (tenant_header_bytes h) (drop 40 buf) (length-tenant_header_bytes h w.identified),
)
