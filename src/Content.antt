-- ===== src/Content.antt =====
-- Content identifiers (src/r_crypto.c, r_hash_content_id_blake2s_128; src/r_client.c,
-- r_client_derive_bucket_id, r_client_derive_latency_tracker_id). `digest` stands for OpenSSL's
-- BLAKE2s-256 over all that it is updated with: its bytes, or `none` if a call fails.
pub mod Injective
use rl_c_client.Prelude.{
  ltb, ◌==◌, if◌then◌else◌, length, take, ℕ, ◌-◌, ◌^◌, ◌||◌, Option, none, some, List, [], ◌∷◌,
  ◌++◌,
}
use rl_c_client.Prelude.Results.{err_config, Result, ok, err}
use rl_c_client.Bytes.{write_le32}

abbrev pub field_bytes : List ℕ → List ℕ
field_bytes [] = []
field_bytes (field ∷ fields) = write_le32 field ++ field_bytes fields

-- All that the digest is updated with.
unfoldable pub content_id_bytes : List ℕ → List ℕ → List ℕ → List ℕ
content_id_bytes domain name fields =
    domain ++ (write_le32 (length name) ++ (name ++ field_bytes fields))

-- `ratelimitly.resource.v1` and `ratelimitly.latency-tracker.v2`, each with its final NUL.
abbrev pub resource_domain : List ℕ
resource_domain =
    114 ∷ 97 ∷ 116 ∷ 101 ∷ 108 ∷ 105 ∷ 109 ∷ 105 ∷ 116 ∷ 108 ∷ 121 ∷ 46 ∷ 114 ∷ 101 ∷ 115 ∷ 111
    ∷ 117 ∷ 114 ∷ 99 ∷ 101 ∷ 46 ∷ 118 ∷ 49 ∷ 0 ∷ []

abbrev pub latency_tracker_domain : List ℕ
latency_tracker_domain =
    114 ∷ 97 ∷ 116 ∷ 101 ∷ 108 ∷ 105 ∷ 109 ∷ 105 ∷ 116 ∷ 108 ∷ 121 ∷ 46 ∷ 108 ∷ 97 ∷ 116 ∷ 101 ∷ 110
    ∷ 99 ∷ 121 ∷ 45 ∷ 116 ∷ 114 ∷ 97 ∷ 99 ∷ 107 ∷ 101 ∷ 114 ∷ 46 ∷ 118 ∷ 50 ∷ 0 ∷ []

module _ (digest : List ℕ → Option (List ℕ)) where
  -- `none` is the return value -1.
  unfoldable pub hash_content_id : List ℕ → List ℕ → List ℕ → Option (List ℕ)
  hash_content_id domain name fields =
      if (length domain == 0) || ltb (2 ^ 32 - 1) (length name)
      then none
      else elim (digest (content_id_bytes domain name fields)) [
        | none ↦ none
        | some bytes ↦ if ltb (length bytes) 16 then none else some (take 16 bytes)
      ]

  unfoldable pub derive_bucket_id : List ℕ → ℕ → ℕ → Result (List ℕ)
  derive_bucket_id name window_size_ms rate_limit =
      elim (hash_content_id resource_domain name (window_size_ms ∷ rate_limit ∷ [])) [
        | none ↦ err err_config
        | some id ↦ ok id
      ]

  unfoldable pub derive_latency_tracker_id : List ℕ → ℕ → ℕ → ℕ → Result (List ℕ)
  derive_latency_tracker_id name ttl_ms max_samples min_sample_threshold =
      elim (hash_content_id latency_tracker_domain name
        (ttl_ms ∷ max_samples ∷ min_sample_threshold ∷ [])) [
          | none ↦ err err_config
          | some id ↦ ok id
        ]
