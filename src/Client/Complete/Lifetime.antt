-- ===== src/Client/Complete/Lifetime.antt =====
-- A host that serves the timer of one request (r_client_on_timeout).
use rl_c_client.Prelude.{ℕ, zero, suc, ◌+◌, ◌≤◌, ◌<◌, ◌≡◌, refl, none, some, arith}
use rl_c_client.Client.Machine.{Phase, phase_round, phase_final, Request, Machine}
use rl_c_client.Client.Complete.{find_request, on_timeout}
use rl_c_client.Client.Complete.Inflight.{IsUnique}
use rl_c_client.Client.Complete.Effects.{completions}
use rl_c_client.Client.Complete.Progress.{rounds_left, timer_budget, HasProgress, gone, nearer}
use rl_c_client.Client.Complete.Timeout.{on_timeout-IsTimerStep}

-- At most `calls` timer calls, the n-th from the end `late n` milliseconds after the deadline.
unfoldable pub serve_timer : (calls : ℕ) → (late : ℕ → ℕ) → ℕ → Machine → Machine
serve_timer zero late handle s = s
serve_timer (suc n) late handle s = elim (find_request handle s.client.inflight) [
  | none ↦ s
  | some req ↦ serve_timer n late handle (on_timeout handle (req.attempt_deadline_ms + late n) s).1
]

-- The request of `handle` is gone and has been called back once.
abbrev pub IsServed : ℕ → Machine → Machine → Type 0
IsServed handle s t =
    (find_request handle t.client.inflight ≡ none)
    × (completions t.host.trace ≡ suc (completions s.host.trace))

rounds_left-le :
    (phase : Phase) (replay_count round : ℕ)
    → rounds_left phase replay_count round ≤ replay_count + 2
rounds_left-le phase_round replay_count round = ground arith
rounds_left-le phase_final replay_count round = ground arith

rounds_left-pos :
    (phase : Phase) (replay_count round : ℕ) → 0 < rounds_left phase replay_count round
rounds_left-pos phase_round replay_count round = ground arith
rounds_left-pos phase_final replay_count round = ground arith

timer_budget-le :
    (replay_count : ℕ) (req : Request) → timer_budget replay_count req ≤ replay_count + 3
timer_budget-le replay_count req =
    ground (arith, rounds_left-le req.phase replay_count req.ha_round)

timer_budget-pos : (replay_count : ℕ) (req : Request) → 0 < timer_budget replay_count req
timer_budget-pos replay_count req =
    ground (arith, rounds_left-pos req.phase replay_count req.ha_round)

serve_gone :
    (n : ℕ) (late : ℕ → ℕ) (handle : ℕ) (s : Machine)
    → find_request handle s.client.inflight ≡ none
    → serve_timer n late handle s ≡ s
unfolding serve_timer
serve_gone zero late handle s none_left = refl
serve_gone (suc n) late handle s none_left = rw (serve_timer, none_left) refl

after_step :
    (n budget : ℕ) (late : ℕ → ℕ) (handle : ℕ) (s t : Machine)
    → budget ≤ suc n
    → ((req : Request)
        → find_request handle t.client.inflight ≡ some req
        → timer_budget t.client.policy.replay_count req ≤ n
        → IsServed handle t (serve_timer n late handle t))
    → HasProgress handle budget s t
    → IsServed handle s (serve_timer n late handle t)
after_step n budget late handle s t enough again (gone none_left once) =
    rw (serve_gone n late handle t none_left) (none_left, once)
after_step n budget late handle s t enough again (nearer req found less same) =
    rw⁻¹ same (again req found (ground arith))

serve_timer-enough :
    (n : ℕ) (late : ℕ → ℕ) (handle : ℕ) (s : Machine) (req : Request)
    → IsUnique s.client.inflight
    → find_request handle s.client.inflight ≡ some req
    → timer_budget s.client.policy.replay_count req ≤ n
    → IsServed handle s (serve_timer n late handle s)
unfolding serve_timer
serve_timer-enough zero late handle s req u found enough =
    ground (arith, timer_budget-pos s.client.policy.replay_count req)
serve_timer-enough (suc n) late handle s req u found enough =
    let now = req.attempt_deadline_ms + late n in
    let t = (on_timeout handle now s).1 in
    let step = on_timeout-IsTimerStep handle now req s u found (ground arith) in
    rw (serve_timer, found)
      (after_step n (timer_budget s.client.policy.replay_count req) late handle s t enough
        (λ req' found' less. serve_timer-enough n late handle t req' step.unique found' less)
        step.progress)

-- A host that keeps calling the timer of a request in flight, each time at its deadline or however
-- late after it, sees it complete with exactly one callback and leave the list within
-- `replay_count` + 3 calls, whatever the clock, the sockets and the policy do. No two requests in
-- flight have one handle.
pub serve_timer-IsServed :
    (late : ℕ → ℕ) (handle : ℕ) (s : Machine) (req : Request)
    → IsUnique s.client.inflight
    → find_request handle s.client.inflight ≡ some req
    → IsServed handle s (serve_timer (s.client.policy.replay_count + 3) late handle s)
serve_timer-IsServed late handle s req u found =
    serve_timer-enough (s.client.policy.replay_count + 3) late handle s req u found
      (timer_budget-le s.client.policy.replay_count req)
