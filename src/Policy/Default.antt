-- ===== src/Policy/Default.antt =====
-- The default policy (r_client_default_request_policy) under the quotas of a credential.
use rl_c_client.Prelude.{leb, if◌then◌else◌, ℕ, ◌≤◌, ◌≡◌, refl, ◌∙◌, some, arith}
use rl_c_client.Prelude.Results.{err_config, ok, err}
use rl_c_client.Credential.{Quotas, decode_quota_word}
use rl_c_client.Policy.{default_request_policy, max_ttl_ms, request_policy_ttl_ms}
use rl_c_client.Policy.Lifetime.{unit_count, IsPolicy, request_policy_ttl_ms-eq}

-- The lifetime that a decoded quota word allows, in milliseconds.
decode_quota_word-dedup :
    (word : ℕ) (quotas : Quotas)
    → decode_quota_word word ≡ some quotas
    → (10 ≤ quotas.dedup_ttl_ms_max) × (quotas.dedup_ttl_ms_max ≤ 2000)
unfolding decode_quota_word
decode_quota_word-dedup word quotas e = ground arith

default-IsPolicy : IsPolicy default_request_policy
unfolding default_request_policy
default-IsPolicy = record { max_u32 = omega arith; final_u32 = omega arith; unit_u64 = omega arith }

limit_eq :
    (quotas : Quotas)
    → 10 ≤ quotas.dedup_ttl_ms_max
    → max_ttl_ms (some quotas) ≡ quotas.dedup_ttl_ms_max
unfolding max_ttl_ms
limit_eq quotas h = ground arith

-- Under a credential whose quota word decodes, the default policy gives a request 60 milliseconds
-- if the credential allows as much, and is refused with a configuration error otherwise.
pub request_policy_ttl_ms-default :
    (word : ℕ) (quotas : Quotas)
    → decode_quota_word word ≡ some quotas
    → request_policy_ttl_ms (some quotas) default_request_policy
      ≡ (if leb 60 quotas.dedup_ttl_ms_max then ok 60 else err err_config)
unfolding default_request_policy unit_count
request_policy_ttl_ms-default word quotas e =
    let (low, high) = decode_quota_word-dedup word quotas e in
    let limit = limit_eq quotas low in
    request_policy_ttl_ms-eq (some quotas) default_request_policy default-IsPolicy
      (omega (arith, limit))
    ∙ rw limit refl
