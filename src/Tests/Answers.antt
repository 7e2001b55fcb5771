-- ===== src/Tests/Answers.antt =====
-- The theorems on servers, answers and cancellation at concrete inputs.
use rl_c_client.Prelude.{ℕ, ◌≡◌, true, false, none, some, [], ◌∷◌, arith}
use rl_c_client.Client.Servers.{is_oldest_known_server}
use rl_c_client.Client.Candidate.Oldest.{
  is_least, Answer, candidate_of, best_after, best_after-oldest, is_oldest_known_server-eq,
}
use rl_c_client.Client.Complete.{cancel_request}
use rl_c_client.Client.Complete.Cancel.{IsCancellation, cancel_request-IsCancellation}
use rl_c_client.Tests.Timers.{waiting, machine, waiting-IsUnique}

abbrev from_server : ℕ → Answer
from_server id = record {
  server_id = id;
  steering_feedback = true;
  response = record { guards = []; resources = []; success = true };
}

best_after-oldest_example :
    (best_after none (from_server 7 ∷ from_server 3 ∷ from_server 5 ∷ [])
      ≡ some (candidate_of (from_server 3)))
    × (is_least 3 (7 ∷ 3 ∷ 5 ∷ []) ≡ true)
best_after-oldest_example =
    best_after-oldest (from_server 7) (from_server 3 ∷ from_server 5 ∷ [])
      (omega arith, (omega arith, (omega arith, tt)))

is_oldest_known_server-eq_example : is_oldest_known_server waiting 4 ≡ false
is_oldest_known_server-eq_example =
    is_oldest_known_server-eq waiting 4 (omega arith, tt) (omega arith)

cancel_request-IsCancellation_example : IsCancellation 8 machine (cancel_request 8 machine)
cancel_request-IsCancellation_example = cancel_request-IsCancellation 8 machine waiting-IsUnique
