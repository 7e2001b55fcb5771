-- ===== src/Responder/Quota.antt =====
-- The responder's quota of requests per bucket (tools/r_test_responder_protocol.c, quota_allows).
pub mod Counters
use rl_c_client.Prelude.{
  ltb, leb, if◌then◌else◌, length, ℕ, ◌+◌, ◌%◌, ◌^◌, Bool, Option, none, some, List, [], ◌∷◌, ◌++◌,
}
use rl_c_client.Client.Machine.{bytes_eq}

-- `R_TEST_RESPONDER_QUOTA_CAP`.
abbrev pub quota_cap : ℕ
quota_cap = 256

-- `r_test_quota_entry_t`; the array is as long as `quota_count`.
pub record QuotaEntry : Type 0 where
  pub bucket_id : List ℕ
  pub requests : ℕ

-- An entry in front of what the loop makes of the others.
abbrev pub behind : QuotaEntry → Option (Bool × List QuotaEntry) → Option (Bool × List QuotaEntry)
behind q none = none
behind q (some (allowed, rest)) = some (allowed, q ∷ rest)

-- The loop: whether the bucket's entry allows the request, and the entries with it counted; `none`
-- without an entry.
unfoldable pub count_request : ℕ → List ℕ → List QuotaEntry → Option (Bool × List QuotaEntry)
count_request allow_count bucket_id [] = none
count_request allow_count bucket_id (q ∷ qs) =
    let rest = count_request allow_count bucket_id qs in
    if bytes_eq q.bucket_id bucket_id
    then some (ltb q.requests allow_count, record q { requests = (q.requests + 1) % 2 ^ 64 } ∷ qs)
    else behind q rest

-- From the loop's end on.
unfoldable pub new_quota :
    ℕ → List ℕ → List QuotaEntry → Option (Bool × List QuotaEntry) → Option Bool × List QuotaEntry
new_quota allow_count bucket_id entries (some (allowed, counted)) = (some allowed, counted)
new_quota allow_count bucket_id entries none =
    if leb quota_cap (length entries)
    then (none, entries)
    else (some (ltb 0 allow_count), entries ++ record { bucket_id = bucket_id; requests = 1 } ∷ [])

-- `none` is the returned -1.
unfoldable pub quota_allows : ℕ → List ℕ → List QuotaEntry → Option Bool × List QuotaEntry
quota_allows allow_count bucket_id entries =
    new_quota allow_count bucket_id entries (count_request allow_count bucket_id entries)
