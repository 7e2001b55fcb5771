-- ===== src/Responder/Authentic.antt =====
-- Which datagrams the responder opens (tools/r_test_responder_protocol.c,
-- extract_authenticated_pdu).
use rl_c_client.Prelude.{
  leb, ltb, ◌==◌, length, take, drop, ℕ, ◌+◌, ◌-◌, ◌≡◌, refl, sym, ap, subst, if◌then◌else◌, ◌∙◌,
  Bool, true, false, ◌&&◌, Option, none, some, List, arith,
}
use rl_c_client.Prelude.Results.{err_protocol, err_auth, Result, ok, err, fault, guard-ok, >>=-ok}
use rl_c_client.Bytes.{read_le16, read_bytes}
use rl_c_client.Protocol.{tlv_auth_cookie, tlv_auth_aes, TenantHeader}
use rl_c_client.Protocol.Header.{parse_tenant_header, AuthTlv, parse_auth_tlv_header}
use rl_c_client.Client.Machine.{bytes_eq, AuthType, auth_unset, auth_cookie, auth_aes_gcm}
use rl_c_client.Packet.{Gcm, decrypt_pdu_aes_gcm}
use rl_c_client.Responder.{
  ResponderKey, header_of, open_secret, open_sealed, open_by, extract_authenticated_pdu,
}
use rl_c_client.Responder.RoundTrip.Label.{ok-inj}
use rl_c_client.Responder.Quota.Counters.{bytes_eq-eq}

-- The bytes behind the tenant header: the type and the size of the authentication, the responder's
-- own secret and the PDU, or a nonce, a tag and a ciphertext that AES-GCM opens to the PDU with the
-- secret and all bytes before the tag.
abbrev pub IsSealedBy : Gcm → ResponderKey → AuthType → List ℕ → ℕ → List ℕ → Type 0
IsSealedBy gcm key auth_cookie input pos pdu =
    (read_le16 input pos ≡ ok tlv_auth_cookie)
    × ((read_le16 input (pos + 2) ≡ ok 36)
        × ((take 32 (drop (pos + 4) input) ≡ key.secret) × (drop (pos + 36) input ≡ pdu)))
IsSealedBy gcm key auth_aes_gcm input pos pdu =
    (read_le16 input pos ≡ ok tlv_auth_aes)
    × ((read_le16 input (pos + 2) ≡ ok 32)
        × (gcm.decrypt key.secret (take (pos + 4 + 12) input)
              (take 12 (take 28 (drop (pos + 4) input))) (drop 12 (take 28 (drop (pos + 4) input)))
              (drop (pos + 32) input)
            ≡ some pdu))
IsSealedBy gcm key auth_unset input pos pdu = ⊥

-- A header for the responder's tenant key, behind which the bytes are sealed with its secret.
pub record IsOpened (gcm : Gcm) (key : ResponderKey) (input : List ℕ) (tenant : TenantHeader)
    (pdu : List ℕ) : Type 0 where
  pub pos : ℕ
  pub header : parse_tenant_header input ≡ ok (tenant, pos)
  pub keyed : tenant.key_id ≡ key.tenant_key_id
  pub sealed : IsSealedBy gcm key key.auth_type input pos pdu

-- What the parser of the authentication has read.
record IsAuthTlv (input : List ℕ) (pos : ℕ) (auth : AuthTlv) : Type 0 where
  typed : read_le16 input pos ≡ ok auth.auth_type
  sized : read_le16 input (pos + 2) ≡ ok auth.auth_size
  body : auth.body ≡ take (auth.auth_size - 4) (drop (pos + 4) input)
  pdu_pos : auth.pdu_pos ≡ pos + auth.auth_size

read_bytes-taken :
    (buf : List ℕ) (pos n : ℕ) (bs : List ℕ)
    → read_bytes buf pos n ≡ ok bs
    → bs ≡ take n (drop pos buf)
unfolding read_bytes
read_bytes-taken buf pos n bs e = ground arith

parse_auth_tlv_header-IsAuthTlv :
    (input : List ℕ) (pos : ℕ) (auth : AuthTlv)
    → parse_auth_tlv_header input pos ≡ ok auth
    → IsAuthTlv input pos auth
unfolding parse_auth_tlv_header
parse_auth_tlv_header-IsAuthTlv input pos auth e =
    let (_, e1) = guard-ok (leb (pos + 4) (length input)) err_protocol _ auth e in
    let (tlv_type, (typed, e2)) = >>=-ok (read_le16 input pos) _ auth e1 in
    let (tlv_size, (sized, e3)) = >>=-ok (read_le16 input (pos + 2)) _ auth e2 in
    let (_, e4) =
      guard-ok (leb 4 tlv_size && leb (pos + tlv_size) (length input)) err_protocol _ auth e3 in
    let (body, (read, e5)) = >>=-ok (read_bytes input (pos + 4) (tlv_size - 4)) _ auth e4 in
    let same = ok-inj e5 in
    let taken = read_bytes-taken input (pos + 4) (tlv_size - 4) body read in
    subst (IsAuthTlv input pos) same
      (record { typed = typed; sized = sized; body = taken; pdu_pos = refl })

open_secret-IsSealedBy :
    (gcm : Gcm) (key : ResponderKey) (input : List ℕ) (pos : ℕ) (auth : AuthTlv) (pdu : List ℕ)
    → IsAuthTlv input pos auth
    → open_secret key auth input ≡ ok pdu
    → IsSealedBy gcm key auth_cookie input pos pdu
unfolding open_secret
open_secret-IsSealedBy gcm key input pos auth pdu a e =
    let (shape, e1) =
      guard-ok
        ((auth.auth_type == tlv_auth_cookie)
          && ((auth.auth_size == 36) && (length auth.body == 32)))
        err_auth _ pdu e in
    let (equal, e2) = guard-ok (bytes_eq auth.body key.secret) err_auth _ pdu e1 in
    let own = bytes_eq-eq auth.body key.secret equal in
    let kind : auth.auth_type ≡ tlv_auth_cookie = ground arith in
    let size : auth.auth_size ≡ 36 = ground arith in
    let body = a.body ∙ ap (λ n. take (n - 4) (drop (pos + 4) input)) size in
    let behind = a.pdu_pos ∙ ap (λ n. pos + n) size in
    (
      a.typed ∙ ap ok kind,
      (a.sized ∙ ap ok size, (sym body ∙ own, ap (λ n. drop n input) (sym behind) ∙ ok-inj e2)),
    )

opened_by :
    (found : Option (List ℕ)) (pdu : List ℕ)
    → (elim found [ none ↦ err err_auth | some p ↦ ok p ]) ≡ ok pdu
    → found ≡ some pdu
opened_by none pdu e = cc
opened_by (some p) pdu e = ap some (ok-inj e)

not_too_long :
    (long : Bool) (found : Option (List ℕ)) (pdu : List ℕ)
    → (if long then none else found) ≡ some pdu
    → found ≡ some pdu
not_too_long true found pdu e = cc
not_too_long false found pdu e = e

open_sealed-IsSealedBy :
    (gcm : Gcm) (key : ResponderKey) (input : List ℕ) (pos : ℕ) (auth : AuthTlv) (pdu : List ℕ)
    → IsAuthTlv input pos auth
    → open_sealed gcm key auth input pos ≡ ok pdu
    → IsSealedBy gcm key auth_aes_gcm input pos pdu
unfolding open_sealed decrypt_pdu_aes_gcm
open_sealed-IsSealedBy gcm key input pos auth pdu a e =
    let (shape, e1) =
      guard-ok
        ((auth.auth_type == tlv_auth_aes) && ((auth.auth_size == 32) && (length auth.body == 28)))
        err_auth _ pdu e in
    let (_, e2) = guard-ok (ltb auth.pdu_pos (length input)) err_auth _ pdu e1 in
    let kind : auth.auth_type ≡ tlv_auth_aes = ground arith in
    let size : auth.auth_size ≡ 32 = ground arith in
    let body = a.body ∙ ap (λ n. take (n - 4) (drop (pos + 4) input)) size in
    let behind = a.pdu_pos ∙ ap (λ n. pos + n) size in
    let found = not_too_long _ _ pdu (opened_by _ pdu e2) in
    let at : gcm.decrypt key.secret (take (pos + 4 + 12) input) (take 12 auth.body)
          (drop 12 auth.body) (drop (pos + 32) input)
        ≡ some pdu =
      subst
        (λ n.
          gcm.decrypt key.secret (take (pos + 4 + 12) input) (take 12 auth.body) (drop 12 auth.body)
            (drop n input)
          ≡ some pdu)
        behind found in
    (
      a.typed ∙ ap ok kind,
      (
        a.sized ∙ ap ok size,
        subst
            (λ b.
              gcm.decrypt key.secret (take (pos + 4 + 12) input) (take 12 b) (drop 12 b)
                (drop (pos + 32) input)
              ≡ some pdu)
            body at,
      ),
    )

open_by-IsSealedBy :
    (gcm : Gcm) (key : ResponderKey) (auth_type : AuthType) (input : List ℕ) (pos : ℕ)
    (auth : AuthTlv) (pdu : List ℕ)
    → IsAuthTlv input pos auth
    → open_by gcm auth_type key auth input pos ≡ ok pdu
    → IsSealedBy gcm key auth_type input pos pdu
open_by-IsSealedBy gcm key auth_cookie input pos auth pdu a e =
    open_secret-IsSealedBy gcm key input pos auth pdu a e
open_by-IsSealedBy gcm key auth_aes_gcm input pos auth pdu a e =
    open_sealed-IsSealedBy gcm key input pos auth pdu a e
open_by-IsSealedBy gcm key auth_unset input pos auth pdu a e = cc

header_of-ok :
    (header : Result (TenantHeader × ℕ)) (h : TenantHeader × ℕ)
    → header_of header ≡ ok h
    → header ≡ ok h
header_of-ok (ok h0) h e = e
header_of-ok (err x) h e = cc
header_of-ok fault h e = cc

pub extract_authenticated_pdu-IsOpened :
    (gcm : Gcm) (key : ResponderKey) (input : List ℕ) (tenant : TenantHeader) (pdu : List ℕ)
    → extract_authenticated_pdu gcm key input ≡ ok (tenant, pdu)
    → IsOpened gcm key input tenant pdu
unfolding extract_authenticated_pdu
extract_authenticated_pdu-IsOpened gcm key input tenant pdu e =
    let ((read, pos), (parsed, e1)) =
      >>=-ok (header_of (parse_tenant_header input)) _ (tenant, pdu) e in
    let (own, e2) = guard-ok (read.key_id == key.tenant_key_id) err_auth _ (tenant, pdu) e1 in
    let (auth, (tlv, e3)) = >>=-ok (parse_auth_tlv_header input pos) _ (tenant, pdu) e2 in
    let (opened, (by, e4)) =
      >>=-ok (open_by gcm key.auth_type key auth input pos) _ (tenant, pdu) e3 in
    let same = ok-inj e4 in
    let first : read ≡ tenant = ap (λ p. p.0) same in
    let second : opened ≡ pdu = ap (λ p. p.1) same in
    let sealed =
      open_by-IsSealedBy gcm key key.auth_type input pos auth opened
        (parse_auth_tlv_header-IsAuthTlv input pos auth tlv) by in
    let keyed : read.key_id ≡ key.tenant_key_id = ground arith in
    record {
      pos = pos;
      header =
          header_of-ok (parse_tenant_header input) (read, pos) parsed ∙ ap (λ h. ok (h, pos)) first;
      keyed = ap (λ (h : TenantHeader). h.key_id) (sym first) ∙ keyed;
      sealed = subst (IsSealedBy gcm key key.auth_type input pos) second sealed;
    }
