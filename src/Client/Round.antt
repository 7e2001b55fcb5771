-- ===== src/Client/Round.antt =====
-- The rounds of a request (src/r_client.c, r_start_round, r_enter_final).
use rl_c_client.Prelude.{ltb, leb, ◌==◌, if◌then◌else◌, ℕ, ◌+◌, ◌*◌, ◌%◌, ◌^◌, false}
use rl_c_client.Prelude.Results.{
  ClientError, rclient_ok, err_timeout, err_config, Result, ok, err, fault,
}
use rl_c_client.Policy.{RequestPolicy, ha_schedule_units}
use rl_c_client.Client.Machine.{phase_round, phase_final, Request, M, now_ms}
use rl_c_client.Client.Send.{send_rate_request}

-- `uint64_t` sums and products.
abbrev pub add64 : ℕ → ℕ → ℕ
add64 a b = (a + b) % 2 ^ 64

abbrev pub mul64 : ℕ → ℕ → ℕ
mul64 a b = a * b % 2 ^ 64

-- The request in round `round`, which lasts `gap_units`: what `r_start_round` stores.
unfoldable pub enter_round : ℕ → ℕ → ℕ → Request → Request
enter_round unit_ms round gap_units req =
    let start = if round == 0 then req.start_ms else req.ha_round_deadline_ms in
    let deadline = add64 start (mul64 unit_ms gap_units) in
    record req {
      phase = phase_round;
      ha_round = round;
      ha_round_start_ms = start;
      ha_round_deadline_ms = deadline;
      ha_preference_deadline_ms = if round == 0 then deadline else start;
      attempt_deadline_ms = deadline;
    }

-- The send that ends `r_start_round`.
unfoldable pub send_round : ℕ → Request → M (ClientError × Request)
send_round round req s =
    let (rc, s') = send_rate_request req (ltb 0 round) false s in ((rc, req), s')

-- From the schedule on.
unfoldable pub start_round_at : Result ℕ → ℕ → Request → M (ClientError × Request)
start_round_at (ok gap_units) round req s =
    send_round round (enter_round s.client.policy.unit_ms round gap_units req) s
start_round_at (err rc) round req s = ((rc, req), s)
start_round_at fault round req s = ((err_config, req), s)

unfoldable pub start_round : Request → ℕ → M (ClientError × Request)
start_round req round s =
    let (now, s') = now_ms s in
    let policy = s.client.policy in
    if ltb policy.replay_count round
    then ((err_timeout, req), s)
    else if leb req.dedup_deadline_ms now
    then ((err_timeout, req), s')
    else start_round_at (ha_schedule_units policy.replay_gap round false) round req s'

unfoldable pub enter_final : RequestPolicy → Request → ClientError × Request
enter_final policy req =
    let start = req.ha_round_deadline_ms in
    let deadline = add64 start (mul64 policy.unit_ms policy.final_receive_units) in
    if policy.final_receive_units == 0 then (err_timeout, req) else (
      rclient_ok,
      record req {
        phase = phase_final;
        ha_round_start_ms = start;
        ha_preference_deadline_ms = start;
        ha_round_deadline_ms = deadline;
        attempt_deadline_ms = deadline;
      },
    )
