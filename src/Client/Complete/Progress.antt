-- ===== src/Client/Complete/Progress.antt =====
-- The timer calls that a request has left (r_request_policy_on_timeout).
use rl_c_client.Prelude.{
  length, subst, ltb, ◌==◌, if◌then◌else◌, ℕ, suc, List, [], ◌∷◌, sym, ◌+◌, ◌-◌, ◌<◌, ◌≡◌, refl, ap,
  ◌∙◌, ◌≢◌, Bool, false, Option, none, some, arith,
}
use rl_c_client.Prelude.Results.{ClientError, rclient_ok, Result, ok, err, fault}
use rl_c_client.Policy.{
  ScheduleKind, fixed, linear, exponential, unknown_kind, Schedule, schedule_by_kind,
  ha_schedule_units,
}
use rl_c_client.Client.Machine.{
  RateLimitResult, Phase, phase_round, phase_final, Request, Machine, now_ms,
}
use rl_c_client.Client.Send.{send_rate_request}
use rl_c_client.Client.Round.{enter_round, send_round, start_round_at, start_round}
use rl_c_client.Client.Complete.{request_complete, store, find_request}
use rl_c_client.Client.Complete.Inflight.{
  request_remove-found, length-store_request, length-request_remove, IsUnique,
  find_request-store_request, store_request-IsUnique, find_request-remove, request_remove-IsUnique,
  waiting_for, waiting_for-store_request, waiting_for-request_remove,
}
use rl_c_client.Client.Complete.Effects.{
  completions, IsQuiet, IsQuiet-refl, now_ms-IsQuiet, send_packet_to_targets-IsQuiet, IsRetired,
  Callback, callbacks, request_complete-IsRetired,
}

-- The timer calls that a request without an answer has left, its current wait included.
abbrev pub rounds_left : Phase → ℕ → ℕ → ℕ
rounds_left phase_round replay_count round = replay_count - round + 2
rounds_left phase_final replay_count round = 1

-- An upper bound on the timer calls, each at or after the request's deadline, until it completes.
abbrev pub timer_budget_by : Option RateLimitResult → ℕ → Request → ℕ
timer_budget_by (some best) replay_count req =
    if ltb req.attempt_deadline_ms req.ha_preference_deadline_ms then 2 else 1
timer_budget_by none replay_count req =
    (if ltb req.attempt_deadline_ms req.ha_round_deadline_ms then 1 else 0)
    + rounds_left req.phase replay_count req.ha_round

abbrev pub timer_budget : ℕ → Request → ℕ
timer_budget replay_count req = timer_budget_by req.best replay_count req

-- The request of `handle` has completed, with one callback, or is in flight with less than
-- `budget`; the other requests are as before and handles are still distinct.
pub data HasProgress (handle budget : ℕ) (s t : Machine) : Type 0 where
  gone :
      find_request handle t.client.inflight ≡ none
      → completions t.host.trace ≡ suc (completions s.host.trace)
      → HasProgress handle budget s t
  nearer :
      (req : Request)
      → find_request handle t.client.inflight ≡ some req
      → timer_budget t.client.policy.replay_count req < budget
      → completions t.host.trace ≡ completions s.host.trace
      → HasProgress handle budget s t

-- The requests in flight and those that have been called back are as many as before.
abbrev pub IsBalanced : Machine → Machine → Type 0
IsBalanced s t =
    completions t.host.trace + length t.client.inflight
    ≡ completions s.host.trace + length s.client.inflight

-- The callbacks for one user.
abbrev pub called_for : ℕ → List Callback → ℕ
called_for user [] = 0
called_for user ((u, _) ∷ cs) = (if u == user then 1 else 0) + called_for user cs

-- For each user, the callbacks and the requests in flight are as many as before.
abbrev pub IsConserved : Machine → Machine → Type 0
IsConserved s t =
    (user : ℕ)
    → called_for user (callbacks t.host.trace) + waiting_for user t.client.inflight
      ≡ called_for user (callbacks s.host.trace) + waiting_for user s.client.inflight

pub record IsTimerStep (handle budget : ℕ) (s t : Machine) : Type 0 where
  pub progress : HasProgress handle budget s t
  pub unique : IsUnique t.client.inflight
  pub others :
      (k : ℕ) → k ≢ handle → find_request k t.client.inflight ≡ find_request k s.client.inflight
  pub balanced : IsBalanced s t
  pub conserved : IsConserved s t

stored-IsConserved :
    (s t : Machine) (req req' : Request)
    → IsQuiet s t
    → find_request req'.handle s.client.inflight ≡ some req
    → req'.user ≡ req.user
    → IsConserved s (store req' t)
stored-IsConserved s t req req' q found own user =
    let there : find_request req'.handle t.client.inflight ≡ some req = rw (q.inflight) found in
    let kept = waiting_for-store_request user req' req t.client.inflight there own in
    rw (kept, q.inflight, q.called) refl

removed_balance :
    (req : Request) (status : ClientError) (selected : Option RateLimitResult) (s t : Machine)
    (old : Request)
    → IsRetired req status selected s t
    → find_request req.handle s.client.inflight ≡ some old
    → IsBalanced s t
removed_balance req status selected s t old c found =
    let count = length-request_remove req.handle s.client.inflight in
    let lost = request_remove-found req.handle s.client.inflight in
    rw (c.inflight, c.completions) (ground arith)

removed-IsConserved :
    (req : Request) (status : ClientError) (selected : Option RateLimitResult) (s t : Machine)
    → IsRetired req status selected s t
    → find_request req.handle s.client.inflight ≡ some req
    → IsConserved s t
removed-IsConserved req status selected s t c found user =
    let count = waiting_for-request_remove user req.handle req s.client.inflight found in
    rw (c.inflight, c.called) (omega arith)

module _ (budget : ℕ) (s : Machine) (u : IsUnique s.client.inflight) where
  completion-IsTimerStep :
      (req : Request) (status : ClientError) (selected : Option RateLimitResult) (t : Machine)
      → IsRetired req status selected s t
      → find_request req.handle s.client.inflight ≡ some req
      → IsTimerStep req.handle budget s t
  completion-IsTimerStep req status selected t c found =
      let handle = req.handle in
      record {
        progress =
            gone
              (rw (c.inflight)
                (ground (arith, find_request-remove handle handle s.client.inflight u)))
              c.completions;
        unique = rw (c.inflight) (request_remove-IsUnique handle s.client.inflight u);
        others = λ k ne.
            rw (c.inflight) (ground (arith, find_request-remove k handle s.client.inflight u));
        balanced = removed_balance req status selected s t req c found;
        conserved = removed-IsConserved req status selected s t c found;
      }

module _ (handle budget : ℕ) (s : Machine) (u : IsUnique s.client.inflight) where
  -- A write that lowers the budget, after quiet steps.
  pub store-IsTimerStep :
      (t : Machine) (req req' : Request)
      → IsQuiet s t
      → find_request handle s.client.inflight ≡ some req
      → req'.handle ≡ handle
      → req'.user ≡ req.user
      → timer_budget s.client.policy.replay_count req' < budget
      → IsTimerStep handle budget s (store req' t)
  store-IsTimerStep t req req' q found same own less = record {
    progress =
        nearer req'
          (rw (find_request-store_request handle req' t.client.inflight, q.inflight, found, same)
            (ground arith))
          (rw (q.policy) less) q.completions;
    unique = store_request-IsUnique req' t.client.inflight (rw (q.inflight) u);
    others = λ k ne.
        rw (find_request-store_request k req' t.client.inflight, q.inflight, same) (ground arith);
    balanced = rw (length-store_request req' t.client.inflight, q.inflight, q.completions) refl;
    conserved = stored-IsConserved s t req req' q (rw same found) own;
  }

-- What the start of round `n` does to the request.
pub record IsStarted (n : ℕ) (req : Request) (rc : ClientError) (req' : Request) : Type 0 where
  pub handle : req'.handle ≡ req.handle
  pub user : req'.user ≡ req.user
  pub best : req'.best ≡ req.best
  pub phase : rc ≡ rclient_ok → req'.phase ≡ phase_round
  pub round : rc ≡ rclient_ok → req'.ha_round ≡ n
  pub deadline : rc ≡ rclient_ok → req'.attempt_deadline_ms ≡ req'.ha_round_deadline_ms

module _ (n : ℕ) (req : Request) (s : Machine) where
  start_round_at-IsStarted :
      (gap : Result ℕ)
      → gap ≢ err rclient_ok
      → let ((rc, req'), t) = start_round_at gap n req s in IsStarted n req rc req' × IsQuiet s t
  unfolding start_round_at send_round enter_round send_rate_request
  start_round_at-IsStarted (ok gap) h =
      let sent = enter_round s.client.policy.unit_ms n gap req in
      (
        record {
          handle = refl;
          user = refl;
          best = refl;
          phase = λ _. refl;
          round = λ _. refl;
          deadline = λ _. refl;
        },
        send_packet_to_targets-IsQuiet sent req.packet (ltb 0 n) false s,
      )
  start_round_at-IsStarted (err e) h = (
    record {
      handle = refl;
      user = refl;
      best = refl;
      phase = λ (k : e ≡ rclient_ok). absurd (h (ap err k));
      round = λ (k : e ≡ rclient_ok). absurd (h (ap err k));
      deadline = λ (k : e ≡ rclient_ok). absurd (h (ap err k));
    },
    IsQuiet-refl s,
  )
  start_round_at-IsStarted fault h = (ground arith, IsQuiet-refl s)

schedule_by_kind-ne :
    (kind : ScheduleKind) (s : Schedule) (n : ℕ) → schedule_by_kind kind s n ≢ err rclient_ok
unfolding schedule_by_kind
schedule_by_kind-ne fixed s n e = ground arith
schedule_by_kind-ne linear s n e = ground arith
schedule_by_kind-ne exponential s n e = ground arith
schedule_by_kind-ne unknown_kind s n e = ground arith

-- A schedule's error is never RCLIENT_OK.
ha_schedule_units-ne :
    (s : Schedule) (n : ℕ) (allow_zero : Bool) → ha_schedule_units s n allow_zero ≢ err rclient_ok
unfolding ha_schedule_units
ha_schedule_units-ne s n allow_zero e = ground (arith, schedule_by_kind-ne s.kind s n)

pub start_round-IsStarted :
    (n : ℕ) (req : Request) (s : Machine)
    → let ((rc, req'), t) = start_round req n s in IsStarted n req rc req' × IsQuiet s t
unfolding start_round
start_round-IsStarted n req s =
    let units = ha_schedule_units s.client.policy.replay_gap n false in
    let at =
      start_round_at-IsStarted n req (now_ms s).1 units
        (ha_schedule_units-ne s.client.policy.replay_gap n false) in
    ground (arith, at, now_ms-IsQuiet s)

-- A step that begins after a change to the one request counts from before that change.
HasProgress-from :
    {handle budget : ℕ} {s s1 t : Machine}
    → completions s1.host.trace ≡ completions s.host.trace
    → HasProgress handle budget s1 t
    → HasProgress handle budget s t
HasProgress-from e (gone none_left once) = gone none_left (once ∙ ap suc e)
HasProgress-from e (nearer req found less same) = nearer req found less (same ∙ e)

module _ (req : Request) (s : Machine) (u : IsUnique s.client.inflight) where
  module _ (found : find_request req.handle s.client.inflight ≡ some req) where
    abbrev pub Steps : Machine → Type 0
    Steps t = IsTimerStep req.handle (timer_budget s.client.policy.replay_count req) s t

    -- A completion after a write to the request.
    pub complete_stored :
        (req' : Request) (t : Machine) (status : ClientError) (selected : Option RateLimitResult)
        → IsQuiet s t
        → req'.handle ≡ req.handle
        → req'.user ≡ req.user
        → Steps (request_complete req' status selected (store req' t))
    complete_stored req' t status selected q same own =
        let stored = store req' t in
        let final = request_complete req' status selected stored in
        let there : find_request req.handle stored.client.inflight ≡ some req' =
          rw (find_request-store_request req.handle req' t.client.inflight, q.inflight, found, same)
            (ground arith) in
        let unique = store_request-IsUnique req' t.client.inflight (rw (q.inflight) u) in
        let budget = timer_budget s.client.policy.replay_count req in
        let step =
          subst (λ h. IsTimerStep h budget stored final) same
            (completion-IsTimerStep budget stored unique req' status selected final
              (request_complete-IsRetired req' status selected stored)
              (subst (λ h. find_request h stored.client.inflight ≡ some req') (sym same) there)) in
        record {
          progress = HasProgress-from q.completions step.progress;
          unique = step.unique;
          others = λ k ne.
              step.others k ne
              ∙ rw (find_request-store_request k req' t.client.inflight, q.inflight, same)
                  (ground arith);
          balanced =
              step.balanced
              ∙ rw (length-store_request req' t.client.inflight, q.inflight, q.completions) refl;
          conserved = λ user.
              step.conserved user
              ∙ stored-IsConserved s t req req' q
                  (subst (λ h. find_request h s.client.inflight ≡ some req) (sym same) found) own
                  user;
        }

    pub complete_here :
        (status : ClientError) (selected : Option RateLimitResult)
        → Steps (request_complete req status selected s)
    complete_here status selected =
        completion-IsTimerStep (timer_budget s.client.policy.replay_count req) s u req status
          selected (request_complete req status selected s)
          (request_complete-IsRetired req status selected s) found
