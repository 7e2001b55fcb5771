-- ===== src/Policy.antt =====
-- Request policies: the default (src/r_policy.c), the schedule of replay gaps and the lifetime
-- that a policy gives a request (src/r_client.c, r_ha_schedule_units, r_request_policy_ttl_ms).
pub mod Gaps
pub mod Lifetime
pub mod Default
use rl_c_client.Prelude.{
  ltb, leb, ◌==◌, if◌then◌else◌, ℕ, zero, suc, ◌+◌, ◌-◌, ◌*◌, ◌/◌, ◌%◌, ◌^◌, Bool, true, false, not,
  ◌&&◌, ◌||◌, Option, none, some,
}
use rl_c_client.Prelude.Results.{err_config, Result, ok, err, ◌>>=◌, ◌>>◌, guard}
use rl_c_client.Credential.{Quotas}

-- `r_ha_schedule_kind_t`; `unknown_kind` is any other value that the field may hold.
pub data ScheduleKind : Type 0 where
  fixed linear exponential unknown_kind : ScheduleKind

-- `r_ha_schedule_t`; `growth` is the union of the linear step and the exponential factor.
pub record Schedule : Type 0 where
  pub kind : ScheduleKind
  pub initial_units : ℕ
  pub max_units : ℕ
  pub growth : ℕ

-- `r_request_policy_t`.
pub record RequestPolicy : Type 0 where
  pub unit_ms : ℕ
  pub replay_count : ℕ
  pub replay_gap : Schedule
  pub final_receive_units : ℕ
  pub completion_delivery : Bool

-- `r_client_default_request_policy`.
unfoldable pub default_request_policy : RequestPolicy
default_request_policy = record {
  unit_ms = 20;
  replay_count = 1;
  replay_gap = record { kind = fixed; initial_units = 1; max_units = 1; growth = 0 };
  final_receive_units = 1;
  completion_delivery = true;
}

abbrev pub u32_max : ℕ
u32_max = 2 ^ 32 - 1

abbrev pub u64_max : ℕ
u64_max = 2 ^ 64 - 1

abbrev pub ha_max_replay_count : ℕ
ha_max_replay_count = 65535

-- The linear case, with `step` not zero.
unfoldable pub linear_units : ℕ → ℕ → ℕ → ℕ → ℕ
linear_units initial max_units step round =
    if ltb ((max_units - initial) / step) round
    then max_units
    else (initial + round * step % 2 ^ 32) % 2 ^ 32

-- One pass of the exponential loop's body.
abbrev pub grow : ℕ → ℕ → ℕ → ℕ
grow max_units factor value =
    if ltb (max_units / factor) value then max_units else value * factor % 2 ^ 32

-- `while (round > 0 && value < max_units)`.
unfoldable pub exponential_units : ℕ → ℕ → ℕ → ℕ → ℕ
exponential_units value max_units factor zero = value
exponential_units value max_units factor (suc round) =
    let next = exponential_units (grow max_units factor value) max_units factor round in
    if ltb value max_units then next else value

unfoldable pub schedule_by_kind : ScheduleKind → Schedule → ℕ → Result ℕ
schedule_by_kind fixed s round = ok s.initial_units
schedule_by_kind linear s round =
    if s.growth == 0
    then err err_config
    else ok (linear_units s.initial_units s.max_units s.growth round)
schedule_by_kind exponential s round =
    if ltb s.growth 2
    then err err_config
    else ok (exponential_units s.initial_units s.max_units s.growth round)
schedule_by_kind unknown_kind s round = err err_config

unfoldable pub ha_schedule_units : Schedule → ℕ → Bool → Result ℕ
ha_schedule_units s round allow_zero =
    if (not allow_zero && (s.initial_units == 0)) || ltb s.max_units s.initial_units
    then err err_config
    else schedule_by_kind s.kind s round

-- The limit on a request's lifetime: that of the credential, if it sets one.
unfoldable pub max_ttl_ms : Option Quotas → ℕ
max_ttl_ms none = u32_max
max_ttl_ms (some quotas) =
    if ltb 0 quotas.dedup_ttl_ms_max then quotas.dedup_ttl_ms_max else u32_max

-- The loop over the rounds, with `left` of them left from `round`.
unfoldable pub sum_gap_units : Schedule → ℕ → ℕ → ℕ → ℕ → Result ℕ
sum_gap_units s limit zero round total = ok total
sum_gap_units s limit (suc left) round total = do
  gap_units ← ha_schedule_units s round false
  guard (leb total (u64_max - gap_units)) err_config
  let total' = (total + gap_units) % 2 ^ 64
  guard (leb total' limit) err_config
  sum_gap_units s limit left (round + 1) total'

unfoldable pub request_policy_ttl_ms : Option Quotas → RequestPolicy → Result ℕ
request_policy_ttl_ms quotas policy = do
  guard (ltb 0 policy.unit_ms && leb policy.replay_count ha_max_replay_count) err_config
  let limit = max_ttl_ms quotas
  guard (leb policy.unit_ms limit) err_config
  gaps ← sum_gap_units policy.replay_gap (limit / policy.unit_ms) (policy.replay_count + 1) 0 0
  guard (leb gaps (u64_max - policy.final_receive_units)) err_config
  let total_units = (gaps + policy.final_receive_units) % 2 ^ 64
  guard
      (ltb 0 total_units
        && (leb total_units (u32_max / policy.unit_ms) && leb total_units (limit / policy.unit_ms)))
      err_config
  ok (total_units * policy.unit_ms % 2 ^ 64 % 2 ^ 32)
