-- ===== src/Client/Complete/Timeout.antt =====
-- The timer call of a request, branch by branch (r_request_policy_on_timeout, r_client_on_timeout).
use rl_c_client.Prelude.{
  ltb, leb, ◌==◌, ltb→lt, le→ltb_false, Bool-cases, ℕ, ◌+◌, ◌≤◌, ◌<◌, ◌≡◌, refl, sym, ◌∙◌, subst,
  ◌⊎◌, inl, inr, false, Option, none, some, arith,
}
use rl_c_client.Prelude.Results.{
  ClientError, rclient_ok, err_io, err_timeout, err_protocol, err_auth, err_dns, err_config,
  err_nomem,
}
use rl_c_client.Client.Machine.{RateLimitResult, Phase, phase_round, phase_final, Request, Machine}
use rl_c_client.Client.Round.{add64, mul64, start_round, enter_final}
use rl_c_client.Client.Complete.{
  is_rclient_ok, find_request, timeout_with_best, next_round, final_wait, timeout_in_phase,
  timeout_by_best, request_policy_on_timeout, on_timeout,
}
use rl_c_client.Client.Complete.Inflight.{IsUnique, find_request-handle}
use rl_c_client.Client.Complete.Effects.{IsQuiet-refl}
use rl_c_client.Client.Complete.Progress.{
  timer_budget, IsTimerStep, store-IsTimerStep, start_round-IsStarted, complete_stored,
  complete_here,
}

ClientError-ok : (rc : ClientError) → (rc ≡ rclient_ok) ⊎ (is_rclient_ok rc ≡ false)
ClientError-ok rclient_ok = inl refl
ClientError-ok err_io = inr refl
ClientError-ok err_timeout = inr refl
ClientError-ok err_protocol = inr refl
ClientError-ok err_auth = inr refl
ClientError-ok err_dns = inr refl
ClientError-ok err_config = inr refl
ClientError-ok err_nomem = inr refl

-- The next round has a timer call less than this one.
round_less :
    (replay_count : ℕ) (req req' : Request)
    → req.best ≡ none
    → req'.best ≡ none
    → req.phase ≡ phase_round
    → req'.phase ≡ phase_round
    → req'.ha_round ≡ req.ha_round + 1
    → req.ha_round < replay_count
    → req'.attempt_deadline_ms ≡ req'.ha_round_deadline_ms
    → timer_budget replay_count req' < timer_budget replay_count req
round_less replay_count req req' b b' p p' r more d = rw (b, b', p, p', r, d) (ground arith)

module _ (req : Request) (now : ℕ) (s : Machine) (u : IsUnique s.client.inflight) where
  module _ (found : find_request req.handle s.client.inflight ≡ some req)
      (due : req.attempt_deadline_ms ≤ now) where
    abbrev Due : Machine → Type 0
    Due t = IsTimerStep req.handle (timer_budget s.client.policy.replay_count req) s t

    -- With an answer in hand: the completion, or one more wait.
    timeout_with_best-step :
        (best : RateLimitResult) → req.best ≡ some best → Due (timeout_with_best best req now s)
    unfolding timeout_with_best
    timeout_with_best-step best has =
        let waits = record req { attempt_deadline_ms = req.ha_preference_deadline_ms } in
        elim (Bool-cases (leb req.ha_preference_deadline_ms now)) [
          | inl e ↦ rw e (complete_here req s u found rclient_ok (some best))
          | inr e ↦ rw e (
              store-IsTimerStep req.handle (timer_budget s.client.policy.replay_count req) s u s req
                waits (IsQuiet-refl s) found refl refl (rw has (ground arith)))
        ]

    -- A round that is over, without an answer.
    module _ (none_yet : req.best ≡ none) where
      next_round-step :
          req.ha_round < s.client.policy.replay_count
          → req.phase ≡ phase_round
          → Due (next_round req s)
      unfolding next_round
      next_round-step more in_round =
          let ((rc, req'), s') = start_round req (req.ha_round + 1) s in
          let (started, quiet) = start_round-IsStarted (req.ha_round + 1) req s in
          elim (ClientError-ok rc) [
            | inl e ↦ rw e (
                store-IsTimerStep req.handle (timer_budget s.client.policy.replay_count req) s u s'
                  req req' quiet found started.handle started.user
                  (round_less s.client.policy.replay_count req req' none_yet
                    (started.best ∙ none_yet) in_round (started.phase e) (started.round e) more
                    (started.deadline e)))
            | inr e ↦
                rw e
                  (complete_stored req s u found req' s' rc none quiet started.handle started.user)
          ]

      final_wait-step : req.phase ≡ phase_round → Due (final_wait req s)
      unfolding final_wait enter_final
      final_wait-step in_round =
          let final = (enter_final s.client.policy req).1 in
          elim (Bool-cases (s.client.policy.final_receive_units == 0)) [
            | inl e ↦ rw e (complete_here req s u found err_timeout none)
            | inr e ↦ rw e (
                store-IsTimerStep req.handle (timer_budget s.client.policy.replay_count req) s u s
                  req
                  (record req {
                    phase = phase_final;
                    ha_round_start_ms = req.ha_round_deadline_ms;
                    ha_preference_deadline_ms = req.ha_round_deadline_ms;
                    ha_round_deadline_ms =
                        add64 req.ha_round_deadline_ms
                          (mul64 s.client.policy.unit_ms s.client.policy.final_receive_units);
                    attempt_deadline_ms =
                        add64 req.ha_round_deadline_ms
                          (mul64 s.client.policy.unit_ms s.client.policy.final_receive_units);
                  })
                  (IsQuiet-refl s) found refl refl (rw (none_yet, in_round) (ground arith)))
          ]

      timeout_in_phase-step :
          (phase : Phase) → req.phase ≡ phase → Due (timeout_in_phase phase req s)
      unfolding timeout_in_phase
      timeout_in_phase-step phase_round e =
          elim (Bool-cases (ltb req.ha_round s.client.policy.replay_count)) [
            | inl more ↦
                rw more (next_round-step (ltb→lt req.ha_round s.client.policy.replay_count more) e)
            | inr last ↦ rw last (final_wait-step e)
          ]
      timeout_in_phase-step phase_final e = complete_here req s u found err_timeout none

    timeout_by_best-step :
        (best : Option RateLimitResult) → req.best ≡ best → Due (timeout_by_best best req now s)
    unfolding timeout_by_best
    timeout_by_best-step (some best) e = timeout_with_best-step best e
    timeout_by_best-step none e = elim (Bool-cases (ltb now req.ha_round_deadline_ms)) [
      | inl early ↦ rw early (
          store-IsTimerStep req.handle (timer_budget s.client.policy.replay_count req) s u s req
            (record req { attempt_deadline_ms = req.ha_round_deadline_ms }) (IsQuiet-refl s) found
            refl refl (rw e (ground arith)))
      | inr over ↦ rw over (timeout_in_phase-step e req.phase refl)
    ]

-- A timer call at or after the deadline of a request in flight, where no two requests in flight
-- have one handle, either completes the request with one callback and takes it out of the list, or
-- keeps it, calls nothing back and leaves it strictly fewer timer calls to make (`timer_budget`).
-- The other requests stay as they are, no two have one handle, and the sum of completions and
-- requests in flight stays, also that of each user.
pub on_timeout-IsTimerStep :
    (handle now : ℕ) (req : Request) (s : Machine)
    → IsUnique s.client.inflight
    → find_request handle s.client.inflight ≡ some req
    → req.attempt_deadline_ms ≤ now
    → IsTimerStep handle
        (timer_budget s.client.policy.replay_count req)
        s
        (on_timeout handle now s).1
unfolding on_timeout request_policy_on_timeout
on_timeout-IsTimerStep handle now req s u found due =
    let same = find_request-handle handle s.client.inflight req found in
    let found' = subst (λ h. find_request h s.client.inflight ≡ some req) (sym same) found in
    let step = timeout_by_best-step req now s u found' due req.best refl in
    let budget = timer_budget s.client.policy.replay_count req in
    let after = request_policy_on_timeout req now s in
    let step' = subst (λ h. IsTimerStep h budget s after) same step in
    rw (on_timeout, found, le→ltb_false now req.attempt_deadline_ms due) step'
