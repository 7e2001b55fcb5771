-- ===== src/Packet/Opening.antt =====
-- Sealing and opening over both kinds of authentication (r_build_rate_request_packet,
-- r_extract_pdu_data).
use rl_c_client.Prelude.{
  Option-cases, length, ℕ, ◌≤◌, ◌<◌, ◌≡◌, refl, inl, inr, Option, none, some, List, [], ◌++◌, arith,
}
use rl_c_client.Prelude.Results.{ok}
use rl_c_client.Protocol.{tenant_tlv_len, tlv_auth_cookie}
use rl_c_client.Client.Machine.{AuthType, auth_unset, auth_cookie, auth_aes_gcm, Client}
use rl_c_client.Packet.{
  Gcm, encrypt_pdu_aes_gcm, seal_cookie, seal_aes_gcm, seal_pdu, extract_pdu_data,
}
use rl_c_client.Packet.RoundTrip.{framed, IsGcm, extract-cookie, aad_prefix, extract-aes}

-- The sizes of the secrets and of the nonce.
pub record IsKeyed (c : Client) (random : Option (List ℕ)) : Type 0 where
  pub cookie_32 : (k : List ℕ) → c.cookie ≡ some k → length k ≡ 32
  pub nonce_12 : (n : List ℕ) → random ≡ some n → length n ≡ 12

module _ (gcm : Gcm) (c : Client) (header pdu packet : List ℕ) (out_cap pdu_cap : ℕ) where
  abbrev Opens : Type 0
  Opens = extract_pdu_data gcm c packet 40 pdu_cap ≡ ok pdu

  open-seal_cookie :
      (cookie : Option (List ℕ))
      → length header ≡ tenant_tlv_len
      → c.auth_type ≡ auth_cookie
      → c.cookie ≡ cookie
      → ((k : List ℕ) → cookie ≡ some k → length k ≡ 32)
      → seal_cookie gcm cookie header pdu out_cap ≡ ok packet
      → Opens
  unfolding seal_cookie
  open-seal_cookie none whole t k sized e = ground arith
  open-seal_cookie (some cookie) whole t k sized e =
      let form : packet ≡ framed header tlv_auth_cookie 32 cookie pdu = ground arith in
      rw form (extract-cookie gcm c header pdu whole cookie pdu_cap t k (sized cookie refl))

  -- From the ciphertext on.
  open-sealed :
      (key aad nonce cipher tag : List ℕ)
      → IsGcm gcm
      → length header ≡ tenant_tlv_len
      → c.auth_type ≡ auth_aes_gcm
      → c.aes_key ≡ some key
      → length nonce ≡ 12
      → 0 < length pdu
      → length pdu ≤ pdu_cap
      → gcm.encrypt key (aad_prefix header ++ nonce) nonce pdu ≡ some (cipher, tag)
      → packet ≡ aad_prefix header ++ (nonce ++ (tag ++ cipher))
      → Opens
  open-sealed key aad nonce cipher tag law whole t k n pos fits made form =
      let (same, tagged) = law.sized key (aad_prefix header ++ nonce) nonce pdu cipher tag made in
      extract-aes gcm c packet (aad_prefix header ++ nonce) key nonce tag cipher pdu pdu_cap header
        whole form refl t k n tagged (omega arith) (omega arith)
        (law.opened key (aad_prefix header ++ nonce) nonce pdu cipher tag made)

  open-seal_aes_gcm :
      (key random : Option (List ℕ))
      → IsGcm gcm
      → length header ≡ tenant_tlv_len
      → c.auth_type ≡ auth_aes_gcm
      → c.aes_key ≡ key
      → ((n : List ℕ) → random ≡ some n → length n ≡ 12)
      → 0 < length pdu
      → length pdu ≤ pdu_cap
      → seal_aes_gcm gcm key random header pdu out_cap ≡ ok packet
      → Opens
  unfolding seal_aes_gcm encrypt_pdu_aes_gcm
  open-seal_aes_gcm none random law whole t k n pos fits e = ground arith
  open-seal_aes_gcm (some key) none law whole t k n pos fits e = ground arith
  open-seal_aes_gcm (some key) (some nonce) law whole t k n pos fits e =
      elim (Option-cases (gcm.encrypt key (aad_prefix header ++ nonce) nonce pdu)) [
        | inl failed ↦ ground arith
        | inr ((cipher, tag), made) ↦
            let form : packet ≡ aad_prefix header ++ (nonce ++ (tag ++ cipher)) = ground arith in
            open-sealed key [] nonce cipher tag law whole t k (n nonce refl) pos fits made form
      ]

  open-seal :
      (auth_type : AuthType) (random : Option (List ℕ))
      → IsGcm gcm
      → IsKeyed c random
      → length header ≡ tenant_tlv_len
      → 0 < length pdu
      → length pdu ≤ pdu_cap
      → c.auth_type ≡ auth_type
      → seal_pdu gcm auth_type c random header pdu out_cap ≡ ok packet
      → Opens
  unfolding seal_pdu
  open-seal auth_unset random law keyed whole pos fits t e = ground arith
  open-seal auth_cookie random law keyed whole pos fits t e =
      open-seal_cookie c.cookie whole t refl keyed.cookie_32 e
  open-seal auth_aes_gcm random law keyed whole pos fits t e =
      open-seal_aes_gcm c.aes_key random law whole t refl keyed.nonce_12 pos fits e

-- What the client seals behind a tenant header, with a cookie or with AES-GCM, it opens again as
-- the same PDU. The header has its 40 bytes, the PDU is not empty and fits the buffer of the
-- opening, a cookie has 32 bytes and a nonce 12, and AES-GCM decrypts what it has encrypted.
pub extract_pdu_data-seal_pdu :
    (gcm : Gcm) (c : Client) (random : Option (List ℕ)) (header pdu packet : List ℕ)
    (out_cap pdu_cap : ℕ)
    → IsGcm gcm
    → IsKeyed c random
    → length header ≡ tenant_tlv_len
    → 0 < length pdu
    → length pdu ≤ pdu_cap
    → seal_pdu gcm c.auth_type c random header pdu out_cap ≡ ok packet
    → extract_pdu_data gcm c packet tenant_tlv_len pdu_cap ≡ ok pdu
extract_pdu_data-seal_pdu gcm c random header pdu packet out_cap pdu_cap law keyed whole pos fits
      e =
    open-seal gcm c header pdu packet out_cap pdu_cap c.auth_type random law keyed whole pos fits
      refl e
