-- ===== src/Credential.antt =====
-- Credentials (src/r_crypto.c, src/r_crypto.h): the quota word.
use rl_c_client.Prelude.{
  ltb, ◌==◌, if◌then◌else◌, ℕ, ◌-◌, ◌*◌, ◌/◌, ◌%◌, ◌^◌, ◌||◌, Option, none, some,
}

-- `r_bech32_quotas_t`.
pub record Quotas : Type 0 where
  pub format_version : ℕ
  pub rate_buckets_max : ℕ
  pub latency_services_max : ℕ
  pub metrics_labels_max : ℕ
  pub latency_buffer_size_max : ℕ
  pub dedup_ttl_ms_max : ℕ
  pub rate_window_size_ms_max : ℕ

abbrev pub credential_format_version : ℕ
credential_format_version = 1

-- `(word >> shift) & (2 ^ width - 1)`.
abbrev pub quota_field : ℕ → ℕ → ℕ → ℕ
quota_field word shift width = word / 2 ^ shift % 2 ^ width

-- `none` is the return value -1.
unfoldable pub decode_quota_word : ℕ → Option Quotas
decode_quota_word word =
    let rate_exp = quota_field word 0 5 in
    let latency_exp = quota_field word 5 5 in
    let labels_exp = quota_field word 10 5 in
    let buffer_exp = quota_field word 15 4 in
    let dedup_units = quota_field word 19 8 in
    let window_exp = quota_field word 27 5 in
    if ltb 24 rate_exp || (ltb 24 latency_exp || (ltb dedup_units 1 || ltb 200 dedup_units))
    then none
    else some (record {
      format_version = credential_format_version;
      rate_buckets_max = 2 ^ rate_exp % 2 ^ 32;
      latency_services_max = 2 ^ latency_exp % 2 ^ 32;
      metrics_labels_max = 2 ^ labels_exp % 2 ^ 32;
      latency_buffer_size_max = 2 ^ buffer_exp % 2 ^ 32;
      dedup_ttl_ms_max = dedup_units * 10 % 2 ^ 32;
      rate_window_size_ms_max = if window_exp == 31 then 2 ^ 32 - 1 else 2 ^ window_exp % 2 ^ 32;
    })
