-- ===== src/Tests/Submissions.antt =====
-- The theorems on submissions at a concrete client.
use rl_c_client.Prelude.{
  replicate, ℕ, ◌+◌, ◌≡◌, refl, ap, true, false, none, some, List, [], ◌∷◌, ◌++◌,
}
use rl_c_client.Prelude.Results.{ok}
use rl_c_client.Bytes.{read_u8, read_bytes, write_le16, write_le32, write_le64}
use rl_c_client.Protocol.Body.{
  append_metrics_label_tlv, guard_block_bytes, resource_block_bytes, guard_blocks, resource_blocks,
  rate_request_blocks, append_label, build_rate_request_body, build_pdu, build_rate_request_pdu,
}
use rl_c_client.Policy.{
  default_request_policy, linear_units, exponential_units, schedule_by_kind, ha_schedule_units,
  max_ttl_ms, sum_gap_units, request_policy_ttl_ms,
}
use rl_c_client.Client.Machine.{auth_cookie, Machine, now_ms, udp_send, alloc, rand_bytes}
use rl_c_client.Client.Servers.{
  request_target_responded, snapshot, snapshot_of, request_snapshot_targets,
}
use rl_c_client.Client.Send.{
  record_send_failures, send_one, send_loop, send_packet_to_targets, send_rate_request,
}
use rl_c_client.Client.Round.{enter_round, send_round, start_round_at, start_round}
use rl_c_client.Client.Complete.{find_request, cancel_request}
use rl_c_client.Client.Complete.Effects.{completions}
use rl_c_client.Client.Complete.Lifetime.{serve_timer, IsServed}
use rl_c_client.Client.Discovery.Start.{dns_maybe_refresh}
use rl_c_client.Client.Submit.{
  Submission, validate_resource_windows, uuid_of_random, generate_request_id, continue, chain,
  alloc_if, kept_label, new_request, time_request, stamp_request, pack_request, launch_request,
  make_request, admit_request, submit_to_servers, submit_checked, check_rate_limit_async,
}
use rl_c_client.Client.Submit.Outcomes.{
  IsSubmission, check_rate_limit_async-IsSubmission, submitted-IsServed,
}
use rl_c_client.Packet.{
  seal_cookie, seal_pdu, request_pdu, packet_at, packet_of_pdu, build_rate_request_packet,
}
use rl_c_client.Tests.Workflow.{toy}
use rl_c_client.Tests.Timers.{client, machine}
use rl_c_client.Protocol.Header.{tenant_header_bytes, tenant_header_write}
use rl_c_client.Calls.{accepted, cancelled, submit, cancel, begin, next}
use rl_c_client.Calls.Balance.{IsAccounted, Calls-IsAccounted}

-- A client with one server and no request.
abbrev pub idle : Machine
idle = record {
  client = record client { inflight = []; auth_type = auth_cookie; cookie = some (replicate 32 1) };
  host = record machine.host { send_works = λ n. true };
}

abbrev pub one_guard : Submission
one_guard = record {
  handle = 9;
  resources = [];
  guards =
      record {
        latency_tracker_id = replicate 16 2;
        threshold_ms = 5;
        ttl_ms = 100;
        max_samples = 9;
        min_sample_threshold = 1;
      }
      ∷ [];
  metrics_label = none;
  metrics_label_len = 0;
  user = 4;
  borrowed = false;
}

abbrev pub started : Machine
started = (check_rate_limit_async toy one_guard idle).1

one_guard-started : (check_rate_limit_async toy one_guard idle).0 ≡ ok (some 9)
unfolding check_rate_limit_async validate_resource_windows dns_maybe_refresh submit_checked
    submit_to_servers make_request admit_request new_request stamp_request pack_request
    launch_request chain continue alloc_if kept_label generate_request_id uuid_of_random
    time_request now_ms alloc rand_bytes request_policy_ttl_ms default_request_policy max_ttl_ms
    sum_gap_units ha_schedule_units schedule_by_kind linear_units exponential_units
    build_rate_request_packet packet_of_pdu request_pdu packet_at build_rate_request_body
    append_label build_rate_request_pdu rate_request_blocks write_le16 write_le32 write_le64
    read_bytes read_u8 guard_block_bytes guard_blocks resource_block_bytes resource_blocks build_pdu
    seal_pdu seal_cookie tenant_header_bytes request_snapshot_targets snapshot_of snapshot
    start_round start_round_at send_round enter_round send_rate_request send_packet_to_targets
    send_loop send_one udp_send record_send_failures request_target_responded tenant_header_write
    append_metrics_label_tlv
one_guard-started = refl

check_rate_limit_async-IsSubmission_example :
    IsSubmission one_guard idle (check_rate_limit_async toy one_guard idle)
check_rate_limit_async-IsSubmission_example = check_rate_limit_async-IsSubmission toy one_guard idle

submitted-IsServed_example :
    (completions started.host.trace ≡ 0)
    × IsServed 9 started (serve_timer (started.client.policy.replay_count + 3) (λ n. n) 9 started)
unfolding find_request
submitted-IsServed_example =
    submitted-IsServed toy one_guard (λ n. n) 9 idle started tt refl
      (ap (λ r. (r, started)) one_guard-started)

abbrev checks : List ℕ
checks = [] ++ accepted 4 (check_rate_limit_async toy one_guard idle).0

-- The request is cancelled at once.
Calls-IsAccounted_example :
    IsAccounted (checks ++ []) ([] ++ cancelled 9 started) idle (cancel_request 9 started)
unfolding find_request
Calls-IsAccounted_example =
    Calls-IsAccounted toy idle (checks ++ []) ([] ++ cancelled 9 started) (cancel_request 9 started)
      tt
      (next checks [] [] (cancelled 9 started) started (cancel_request 9 started)
        (next [] [] (accepted 4 (check_rate_limit_async toy one_guard idle).0) [] idle started begin
          (submit one_guard refl))
        (cancel 9))
