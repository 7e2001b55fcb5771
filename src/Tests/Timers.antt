-- ===== src/Tests/Timers.antt =====
-- The theorems on requests at concrete clients.
use rl_c_client.Prelude.{◌==◌, replicate, ◌+◌, ◌≡◌, refl, true, false, none, some, [], ◌∷◌, arith}
use rl_c_client.Prelude.Results.{err_timeout}
use rl_c_client.Policy.{default_request_policy}
use rl_c_client.Client.Machine.{phase_round, Request, auth_aes_gcm, Client, Machine}
use rl_c_client.Client.Complete.{request_complete, find_request, on_timeout}
use rl_c_client.Client.Complete.Inflight.{IsUnique}
use rl_c_client.Client.Complete.Effects.{IsCompletion, request_complete-IsCompletion}
use rl_c_client.Client.Complete.Progress.{timer_budget, IsTimerStep}
use rl_c_client.Client.Complete.Timeout.{on_timeout-IsTimerStep}
use rl_c_client.Client.Complete.Lifetime.{serve_timer, IsServed, serve_timer-IsServed}

-- A request in its first round, with one target that has not answered.
abbrev pub waiting : Request
waiting = record {
  handle = 8;
  request_id = replicate 16 1;
  user = 5;
  resources = [];
  guards = [];
  metrics_label = none;
  metrics_label_len = 0;
  targets = record { addr = 10 ∷ []; server_id = 3; has_server_id = true } ∷ [];
  allowed_ids = 3 ∷ [];
  start_ms = 100;
  attempt_deadline_ms = 120;
  dedup_deadline_ms = 160;
  dedup_ttl_ms = 60;
  phase = phase_round;
  ha_round = 0;
  ha_round_start_ms = 100;
  ha_preference_deadline_ms = 120;
  ha_round_deadline_ms = 120;
  seen_addrs = [];
  seen_addr_cap = 0;
  seen_server_ids = [];
  seen_server_id_cap = 0;
  steering_rebind = false;
  packet = 1 ∷ 2 ∷ [];
  best = none;
}

abbrev pub client : Client
client = record {
  policy = default_request_policy;
  key_id = 77;
  auth_type = auth_aes_gcm;
  quotas = none;
  cookie = none;
  aes_key = none;
  has_udp_send = true;
  has_now_ms = true;
  has_steering_hook = false;
  has_profile_cb = true;
  servers = waiting.targets;
  send_failure_count = 0;
  inflight = waiting ∷ [];
  steering_rebind_pending = false;
  discovery = record {
    dns_name = 97 ∷ [];
    refresh_interval_ms = 0;
    forced_refresh_min_interval_ms = 0;
    forced_refresh_jitter_ms = 0;
    last_dns_refresh_ms = 50;
    dns_refresh_ttl_ms = 0;
    dns_refresh_inflight = false;
    refresh = none;
  };
}

-- The clock stands at 120 and the second datagram fails.
abbrev pub machine : Machine
machine = record {
  client = client;
  host = record {
    clock = λ n. 120;
    send_works = λ n. n == 0;
    alloc_works = λ n. true;
    random = λ n k. some (replicate k 7);
    srv_replies = λ n. record { accepted = false; req_id = 0; answer = none };
    addr_replies = λ n. record { accepted = false; req_id = 0; answer = none };
    with_port = λ a p. a;
    calls = 0;
    trace = [];
  };
}

waiting-found : find_request 8 machine.client.inflight ≡ some waiting
unfolding find_request
waiting-found = refl

pub waiting-IsUnique : IsUnique machine.client.inflight
unfolding find_request
waiting-IsUnique = (refl, tt)

on_timeout-IsTimerStep_example :
    IsTimerStep 8
      (timer_budget machine.client.policy.replay_count waiting)
      machine
      (on_timeout 8 125 machine).1
on_timeout-IsTimerStep_example =
    on_timeout-IsTimerStep 8 125 waiting machine waiting-IsUnique waiting-found (omega arith)

serve_timer-IsServed_example :
    IsServed 8 machine (serve_timer (machine.client.policy.replay_count + 3) (λ n. n) 8 machine)
serve_timer-IsServed_example =
    serve_timer-IsServed (λ n. n) 8 machine waiting waiting-IsUnique waiting-found

request_complete-IsCompletion_example :
    IsCompletion waiting err_timeout none machine
      (request_complete waiting err_timeout none machine)
request_complete-IsCompletion_example =
    request_complete-IsCompletion waiting err_timeout none machine waiting-IsUnique
