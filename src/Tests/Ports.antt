-- ===== src/Tests/Ports.antt =====
-- The theorems on policies and source ports at concrete inputs.
use rl_c_client.Prelude.{
  ◌==◌, if◌then◌else◌, ℕ, ◌≤◌, ◌<◌, ◌≡◌, refl, ◌≢◌, true, false, none, some, arith,
}
use rl_c_client.Prelude.Results.{err_io, ok, err}
use rl_c_client.Credential.{Quotas, decode_quota_word}
use rl_c_client.Policy.{
  exponential, Schedule, RequestPolicy, default_request_policy, ha_schedule_units, max_ttl_ms,
  request_policy_ttl_ms,
}
use rl_c_client.Policy.Gaps.{gap, ha_schedule_units-eq, gap_bounds}
use rl_c_client.Policy.Lifetime.{unit_count, IsPolicy, request_policy_ttl_ms-eq}
use rl_c_client.Policy.Default.{request_policy_ttl_ms-default}
use rl_c_client.Steering.{
  steering_port_count, BindResult, bind_error, bind_ok, bind_occupied, next_steering_port,
  select_steering_port,
}
use rl_c_client.Steering.Cycle.{IsSteeringPort, advance, distance, advance_cycle}
use rl_c_client.Steering.Selection.{
  start_port, try_fixed, AllOccupied, select_steering_port_exhausted, select_steering_port_finds,
}

abbrev doubling : Schedule
doubling = record { kind = exponential; initial_units = 1; max_units = 6; growth = 2 }

ha_schedule_units-eq_example : ha_schedule_units doubling 2 false ≡ ok 4
ha_schedule_units-eq_example = ha_schedule_units-eq doubling 2 false (omega arith)

gap_bounds_example : (1 ≤ gap doubling 3) × (gap doubling 3 ≤ 6) × (gap doubling 3 ≤ gap doubling 4)
gap_bounds_example = gap_bounds doubling 3 false refl

abbrev patient : RequestPolicy
patient = record {
  unit_ms = 20;
  replay_count = 2;
  replay_gap = doubling;
  final_receive_units = 3;
  completion_delivery = true;
}

patient-IsPolicy : IsPolicy patient
patient-IsPolicy = record { max_u32 = omega arith; final_u32 = omega arith; unit_u64 = omega arith }

request_policy_ttl_ms-eq_example : request_policy_ttl_ms none patient ≡ ok 200
unfolding unit_count max_ttl_ms
request_policy_ttl_ms-eq_example =
    request_policy_ttl_ms-eq none patient patient-IsPolicy (omega arith)

advance_cycle_example :
    (distance 65530 49160 < steering_port_count)
    × (advance (distance 65530 49160) 65530 ≡ 49160)
    × ((n : ℕ) → n < steering_port_count → advance n 65530 ≡ 49160 → n ≡ distance 65530 49160)
    × (advance steering_port_count 65530 ≡ 65530)
advance_cycle_example =
    advance_cycle 65530 49160 (omega arith, omega arith) (omega arith, omega arith)

abbrev all_busy : ℕ → BindResult
all_busy p = bind_occupied

select_steering_port_exhausted_example :
    select_steering_port (try_fixed all_busy) 50000 tt ≡ (err err_io, tt)
select_steering_port_exhausted_example =
    select_steering_port_exhausted all_busy 50000 (omega arith) (λ p h. refl)

-- Only port 50002 is free.
abbrev one_free : ℕ → BindResult
one_free p = if p == 50002 then bind_ok else bind_occupied

one_free_sound : (p : ℕ) → one_free p ≢ bind_error
one_free_sound p e = ground arith

-- The search from port 65535 wraps to the first steering port and goes on to the free one.
select_steering_port_finds_example :
    (i : ℕ) × (i ≤ distance (start_port 65535) 50002)
    × AllOccupied one_free i (start_port 65535)
    × (one_free (advance i (start_port 65535)) ≡ bind_ok)
    × IsSteeringPort (advance i (start_port 65535))
    × (select_steering_port (try_fixed one_free) 65535 tt ≡ (
      ok (record {
        selected_port = advance i (start_port 65535);
        next_port = next_steering_port (advance i (start_port 65535));
      }),
      tt,
    ))
select_steering_port_finds_example =
    select_steering_port_finds one_free 65535 (omega arith) 50002 (omega arith, omega arith) refl
      (λ p h. one_free_sound p)

-- The quota word 8 * 2^19 allows 80 milliseconds.
abbrev allowance : Quotas
allowance = record {
  format_version = 1;
  rate_buckets_max = 1;
  latency_services_max = 1;
  metrics_labels_max = 1;
  latency_buffer_size_max = 1;
  dedup_ttl_ms_max = 80;
  rate_window_size_ms_max = 1;
}

allowance-decoded : decode_quota_word 4194304 ≡ some allowance
unfolding decode_quota_word
allowance-decoded = refl

request_policy_ttl_ms-default_example :
    request_policy_ttl_ms (some allowance) default_request_policy ≡ ok 60
request_policy_ttl_ms-default_example =
    request_policy_ttl_ms-default 4194304 allowance allowance-decoded
