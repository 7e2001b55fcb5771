-- ===== src/Content/Injective.antt =====
-- The bytes that identifiers are made from (r_hash_content_id_blake2s_128).
use rl_c_client.Prelude.{length, ℕ, ◌^◌, ◌<◌, ◌≡◌, refl, ◌≢◌, List, [], ◌∷◌, ◌++◌, arith}
use rl_c_client.Bytes.{write_le32}
use rl_c_client.Bytes.RoundTrip.{head_le32-write_le32}
use rl_c_client.Content.{field_bytes, content_id_bytes, resource_domain, latency_tracker_domain}

append-cancel_left {ℓ} : {A : Type ℓ} (xs ys zs : List A) → xs ++ ys ≡ xs ++ zs → ys ≡ zs
append-cancel_left [] ys zs e = e
append-cancel_left (x ∷ xs) ys zs e = append-cancel_left xs ys zs (ground arith)

head_le32-inj :
    (a b : ℕ) (xs ys : List ℕ)
    → a < 2 ^ 32
    → b < 2 ^ 32
    → write_le32 a ++ xs ≡ write_le32 b ++ ys
    → (a ≡ b) × (xs ≡ ys)
unfolding write_le32
head_le32-inj a b xs ys ha hb e =
    ground (arith, head_le32-write_le32 a xs ha, head_le32-write_le32 b ys hb)

append-inj :
    (xs ys us vs : List ℕ) → length xs ≡ length ys → xs ++ us ≡ ys ++ vs → (xs ≡ ys) × (us ≡ vs)
append-inj [] [] us vs n e = (refl, e)
append-inj [] (y ∷ ys) us vs n e = ground arith
append-inj (x ∷ xs) [] us vs n e = ground arith
append-inj (x ∷ xs) (y ∷ ys) us vs n e = ground (arith, append-inj xs ys us vs)

abbrev pub AreU32 : List ℕ → Type 0
AreU32 [] = Unit
AreU32 (f ∷ fs) = (f < 2 ^ 32) × AreU32 fs

field_bytes-inj :
    (xs ys : List ℕ)
    → AreU32 xs
    → AreU32 ys
    → length xs ≡ length ys
    → field_bytes xs ≡ field_bytes ys
    → xs ≡ ys
field_bytes-inj [] [] hx hy n e = refl
field_bytes-inj [] (y ∷ ys) hx hy n e = ground arith
field_bytes-inj (x ∷ xs) [] hx hy n e = ground arith
field_bytes-inj (x ∷ xs) (y ∷ ys) hx hy n e =
    let (head, tail) = head_le32-inj x y (field_bytes xs) (field_bytes ys) (hx.0) (hy.0) e in
    ground (arith, field_bytes-inj xs ys hx.1 hy.1)

abbrev pub IsName : List ℕ → Type 0
IsName name = length name < 2 ^ 32

-- Two descriptions in one domain, with as many fields each, that feed the digest the same bytes
-- are the same description. Names are shorter than 2^32 bytes and fields are 32-bit numbers.
pub content_id_bytes-inj :
    (domain name name' fields fields' : List ℕ)
    → IsName name
    → IsName name'
    → AreU32 fields
    → AreU32 fields'
    → length fields ≡ length fields'
    → content_id_bytes domain name fields ≡ content_id_bytes domain name' fields'
    → (name ≡ name') × (fields ≡ fields')
unfolding content_id_bytes
content_id_bytes-inj domain name name' fields fields' hn hn' hf hf' count e =
    let body = append-cancel_left domain _ _ e in
    let (sizes, rest) =
      head_le32-inj (length name) (length name') (name ++ field_bytes fields)
        (name' ++ field_bytes fields') hn hn' body in
    let (names, tails) =
      append-inj name name' (field_bytes fields) (field_bytes fields') sizes rest in
    (names, field_bytes-inj fields fields' hf hf' count tails)

-- A bucket and a tracker never feed the digest the same bytes.
pub content_domains_apart :
    (name name' fields fields' : List ℕ)
    → content_id_bytes resource_domain name fields
      ≢ content_id_bytes latency_tracker_domain name' fields'
unfolding content_id_bytes
content_domains_apart name name' fields fields' e = ground arith
