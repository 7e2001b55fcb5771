-- ===== src/Packet/RoundTrip.antt =====
-- The layout of packets (r_build_rate_request_packet) and their opening (r_extract_pdu_data).
use mathlib.Core.List.{append_assoc}
use rl_c_client.Prelude.{
  lt→ltb, le→leb, le→ltb_false, length, length-append, take, drop, drop-append, take-append,
  drop_skip, ℕ, ◌+◌, ◌-◌, ◌^◌, ◌≤◌, ◌<◌, ◌≡◌, refl, sym, ap, ◌∙◌, true, some, List, [], ◌∷◌, ◌++◌,
  arith,
}
use rl_c_client.Prelude.Results.{ok}
use rl_c_client.Bytes.{write_le16}
use rl_c_client.Bytes.RoundTrip.{read_le16-eq, read_bytes-eq}
use rl_c_client.Protocol.{tenant_tlv_len, tlv_auth_cookie, tlv_auth_aes}
use rl_c_client.Protocol.Header.{parse_auth_tlv_header}
use rl_c_client.Client.Machine.{bytes_eq, auth_cookie, auth_aes_gcm, Client}
use rl_c_client.Packet.{Gcm, decrypt_pdu_aes_gcm, open_cookie, open_aes_gcm, extract_pdu_data}

-- An authentication TLV of `n` bytes behind a tenant header.
abbrev pub framed : List ℕ → ℕ → ℕ → List ℕ → List ℕ → List ℕ
framed header tlv_type n auth pdu =
    header ++ (write_le16 tlv_type ++ (write_le16 (4 + n) ++ (auth ++ pdu)))

module _ (header : List ℕ) (tlv_type n : ℕ) (auth pdu : List ℕ) where
  module _ (whole : length header ≡ tenant_tlv_len) (sized : length auth ≡ n) (small : n < 100)
      (typed : tlv_type < 2 ^ 16) where
    abbrev packet : List ℕ
    packet = framed header tlv_type n auth pdu

    at_40 : drop 40 packet ≡ write_le16 tlv_type ++ (write_le16 (4 + n) ++ (auth ++ pdu))
    at_40 = drop-append 40 header _ whole

    at_42 : drop 42 packet ≡ write_le16 (4 + n) ++ (auth ++ pdu)
    unfolding write_le16
    at_42 = drop_skip packet 40 2 42 (write_le16 tlv_type) _ at_40 refl refl

    at_44 : drop 44 packet ≡ auth ++ pdu
    unfolding write_le16
    at_44 = drop_skip packet 42 2 44 (write_le16 (4 + n)) _ at_42 refl refl

    at_pdu : drop (40 + (4 + n)) packet ≡ pdu
    at_pdu = drop_skip packet 44 n (40 + (4 + n)) auth pdu at_44 sized (omega arith)

    packet_long : length packet ≡ 44 + n + length pdu
    unfolding write_le16
    packet_long = simp length-append (omega (arith, whole, sized))

    parse_auth_tlv_header-framed :
        parse_auth_tlv_header packet 40
        ≡ ok (record {
          auth_type = tlv_type;
          auth_size = 4 + n;
          body = auth;
          pdu_pos = 40 + (4 + n);
        })
    unfolding parse_auth_tlv_header
    parse_auth_tlv_header-framed =
        let behind : 4 + n - 4 ≡ n = omega arith in
        simp (
          le→leb 44 (length packet) (omega (arith, packet_long)),
          read_le16-eq packet 40 _ tlv_type at_40 typed,
          read_le16-eq packet 42 _ (4 + n) at_42 (omega arith),
          le→leb 4 (4 + n) (omega arith),
          le→leb (40 + (4 + n)) (length packet) (omega (arith, packet_long)),
          behind,
          read_bytes-eq packet 44 pdu n auth at_44 sized,
        )

-- What AES-GCM guarantees: the ciphertext is as long as the plaintext, the tag has 16 bytes, and
-- what was encrypted is decrypted with the same key, associated data, nonce and tag.
pub record IsGcm (gcm : Gcm) : Type 0 where
  pub sized :
      (key aad nonce plain cipher tag : List ℕ)
      → gcm.encrypt key aad nonce plain ≡ some (cipher, tag)
      → (length cipher ≡ length plain) × (length tag ≡ 16)
  pub opened :
      (key aad nonce plain cipher tag : List ℕ)
      → gcm.encrypt key aad nonce plain ≡ some (cipher, tag)
      → gcm.decrypt key aad nonce tag cipher ≡ some plain

bytes_eq_refl : (xs : List ℕ) → bytes_eq xs xs ≡ true
bytes_eq_refl [] = refl
bytes_eq_refl (x ∷ xs) = ground (arith, bytes_eq_refl xs)

module _ (gcm : Gcm) (c : Client) (header pdu : List ℕ) where
  module _ (whole : length header ≡ tenant_tlv_len) where
    pub extract-cookie :
        (cookie : List ℕ) (pdu_cap : ℕ)
        → c.auth_type ≡ auth_cookie
        → c.cookie ≡ some cookie
        → length cookie ≡ 32
        → extract_pdu_data gcm c (framed header tlv_auth_cookie 32 cookie pdu) 40 pdu_cap ≡ ok pdu
    unfolding extract_pdu_data open_cookie
    extract-cookie cookie pdu_cap t k n = simp (
      parse_auth_tlv_header-framed header tlv_auth_cookie 32 cookie pdu whole n (omega arith)
          (omega arith),
      t,
      k,
      n,
      bytes_eq_refl cookie,
      at_pdu header tlv_auth_cookie 32 cookie pdu whole n (omega arith) (omega arith),
    )

abbrev pub aad_prefix : List ℕ → List ℕ
aad_prefix header = header ++ (write_le16 tlv_auth_aes ++ write_le16 32)

sealed-framed :
    (header nonce tag cipher : List ℕ)
    → aad_prefix header ++ (nonce ++ (tag ++ cipher))
      ≡ framed header tlv_auth_aes 28 (nonce ++ tag) cipher
sealed-framed header nonce tag cipher = simp append_assoc

take_aad :
    (header nonce tag cipher : List ℕ)
    → length header ≡ tenant_tlv_len
    → length nonce ≡ 12
    → take 56 (aad_prefix header ++ (nonce ++ (tag ++ cipher))) ≡ aad_prefix header ++ nonce
unfolding write_le16
take_aad header nonce tag cipher h n =
    let regroup : aad_prefix header ++ (nonce ++ (tag ++ cipher))
        ≡ (aad_prefix header ++ nonce) ++ (tag ++ cipher) =
      sym (append_assoc (aad_prefix header) nonce (tag ++ cipher)) in
    let size : length (aad_prefix header ++ nonce) ≡ 56 =
      simp length-append (omega (arith, h, n)) in
    ap (take 56) regroup ∙ take-append 56 (aad_prefix header ++ nonce) (tag ++ cipher) size

-- The opening of a packet, from where its parts stand.
module _ (gcm : Gcm) (c : Client) (buf aad key nonce tag cipher pdu : List ℕ) (pdu_cap : ℕ) where
  extract-aes_at :
      parse_auth_tlv_header buf 40
        ≡ ok
            (record { auth_type = tlv_auth_aes; auth_size = 32; body = nonce ++ tag; pdu_pos = 72 })
      → drop 72 buf ≡ cipher
      → take 56 buf ≡ aad
      → c.auth_type ≡ auth_aes_gcm
      → c.aes_key ≡ some key
      → length nonce ≡ 12
      → length tag ≡ 16
      → 0 < length cipher
      → length cipher ≤ pdu_cap
      → gcm.decrypt key aad nonce tag cipher ≡ some pdu
      → extract_pdu_data gcm c buf 40 pdu_cap ≡ ok pdu
  unfolding extract_pdu_data open_aes_gcm decrypt_pdu_aes_gcm
  extract-aes_at parsed rest first t k n g pos fits opened =
      let size : length (nonce ++ tag) ≡ 28 = simp length-append (omega (arith, n, g)) in
      simp (
        parsed,
        t,
        k,
        size,
        rest,
        first,
        take-append 12 nonce tag n,
        drop-append 12 nonce tag n,
        lt→ltb 0 (length cipher) pos,
        lt→ltb 0 pdu_cap (omega arith),
        le→ltb_false pdu_cap (length cipher) fits,
        opened,
      )

  pub extract-aes :
      (header : List ℕ)
      → length header ≡ tenant_tlv_len
      → buf ≡ aad_prefix header ++ (nonce ++ (tag ++ cipher))
      → aad ≡ aad_prefix header ++ nonce
      → c.auth_type ≡ auth_aes_gcm
      → c.aes_key ≡ some key
      → length nonce ≡ 12
      → length tag ≡ 16
      → 0 < length cipher
      → length cipher ≤ pdu_cap
      → gcm.decrypt key aad nonce tag cipher ≡ some pdu
      → extract_pdu_data gcm c buf 40 pdu_cap ≡ ok pdu
  extract-aes header whole is_buf is_aad t k n g pos fits opened =
      let size : length (nonce ++ tag) ≡ 28 = simp length-append (omega (arith, n, g)) in
      let form = is_buf ∙ sealed-framed header nonce tag cipher in
      let small : 28 < 100 = omega arith in
      let typed : tlv_auth_aes < 2 ^ 16 = omega arith in
      extract-aes_at
        (ap (λ b. parse_auth_tlv_header b 40) form
          ∙ parse_auth_tlv_header-framed header tlv_auth_aes 28 (nonce ++ tag) cipher whole size
              small typed)
        (ap (drop 72) form
          ∙ at_pdu header tlv_auth_aes 28 (nonce ++ tag) cipher whole size small typed)
        (ap (take 56) is_buf ∙ take_aad header nonce tag cipher whole n ∙ sym is_aad) t k n g pos
        fits opened
