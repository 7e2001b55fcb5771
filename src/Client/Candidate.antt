-- ===== src/Client/Candidate.antt =====
-- The best answer so far (src/r_client.c, r_candidate_clear, r_candidate_set,
-- r_candidate_try_update_best).
pub mod Oldest
use rl_c_client.Prelude.{if◌then◌else◌, ℕ, Bool, true, false, Option, none, some}
use rl_c_client.Protocol.Response.{RateResponse}
use rl_c_client.Client.Machine.{RateLimitResult}
use rl_c_client.Client.Servers.{server_is_older}

-- `r_candidate_set` over a cleared candidate: the answer's fields and the two arrays.
unfoldable pub candidate_set : ℕ → Bool → RateResponse → RateLimitResult
candidate_set server_id steering_feedback response = record {
  success = response.success;
  server_id = server_id;
  steering_feedback = steering_feedback;
  guards = response.guards;
  resources = response.resources;
}

-- The new candidate, and whether the answer was kept.
unfoldable pub candidate_try_update_best :
    Option RateLimitResult → ℕ → Bool → RateResponse → Option RateLimitResult × Bool
candidate_try_update_best none server_id steering_feedback response =
    (some (candidate_set server_id steering_feedback response), true)
candidate_try_update_best (some best) server_id steering_feedback response =
    if server_is_older server_id best.server_id
    then (some (candidate_set server_id steering_feedback response), true)
    else (some best, false)
