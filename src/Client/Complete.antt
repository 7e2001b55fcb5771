-- ===== src/Client/Complete.antt =====
-- Completion, cancellation and timers (src/r_client.c, r_request_remove,
-- r_notify_steering_when_drained, r_request_complete, r_client_request_deadline_ms,
-- r_request_policy_on_timeout, r_client_on_timeout, r_client_cancel_request). A callback is an
-- event of the trace: what the host calls from inside it is a later call here.
pub mod Inflight
pub mod Effects
pub mod Progress
pub mod Timeout
pub mod Lifetime
pub mod Cancel
use rl_c_client.Prelude.{
  ltb, leb, ◌==◌, if◌then◌else◌, ℕ, ◌+◌, ◌-◌, Bool, true, false, ◌&&◌, ◌||◌, Option, none, some,
  List, [], ◌∷◌,
}
use rl_c_client.Prelude.Results.{ClientError, rclient_ok, err_timeout, Result, ok, fault}
use rl_c_client.Client.Machine.{
  RateLimitResult, Phase, phase_round, phase_final, Request, RequestProfile, completed, profiled,
  change_port, Machine, M, emit, set_client, now_ms,
}
use rl_c_client.Client.Send.{completion_delivery}
use rl_c_client.Client.Round.{start_round, enter_final}

-- `r_request_remove`: the list without the request, and whether it was there.
unfoldable pub request_remove : ℕ → List Request → List Request × Bool
request_remove handle [] = ([], false)
request_remove handle (r ∷ rs) =
    let (rest, found) = request_remove handle rs in
    if r.handle == handle then (rs, true) else (r ∷ rest, found)

abbrev pub is_nil {ℓ} : {A : Type ℓ} → List A → Bool
is_nil [] = true
is_nil (x ∷ xs) = false

unfoldable pub notify_steering_when_drained : Machine → Machine
notify_steering_when_drained s =
    if s.client.steering_rebind_pending && (is_nil s.client.inflight && s.client.has_steering_hook)
    then emit change_port (set_client s (record s.client { steering_rebind_pending = false }))
    else s

abbrev pub is_some {ℓ} : {A : Type ℓ} → Option A → Bool
is_some none = false
is_some (some a) = true

-- The profile of a completion at `completed_ms`.
abbrev pub completion_profile : Request → ℕ → ClientError → Option RateLimitResult → RequestProfile
completion_profile req completed_ms status selected = record {
  wait_ms = if leb req.start_ms completed_ms then completed_ms - req.start_ms else 0;
  round = req.ha_round;
  phase = req.phase;
  status = status;
  response_selected = is_some selected;
}

unfoldable pub report_profile : Request → ClientError → Option RateLimitResult → Machine → Machine
report_profile req status selected s =
    let (completed_ms, s') = now_ms s in
    if s.client.has_profile_cb
    then emit (profiled (completion_profile req completed_ms status selected)) s'
    else s

abbrev pub is_rclient_ok : ClientError → Bool
is_rclient_ok rclient_ok = true
is_rclient_ok _ = false

-- The request leaves the list, its wish for another port is noted, the callback runs, and a drained
-- client passes the wish on. `selected` is `none` for a NULL candidate and for one that is empty.
unfoldable pub retire_request : Request → ClientError → Option RateLimitResult → Machine → Machine
retire_request req status selected s =
    let c = s.client in
    notify_steering_when_drained (
      emit (completed req.user status selected) (
        set_client s (record c {
          inflight = (request_remove req.handle c.inflight).0;
          steering_rebind_pending = c.steering_rebind_pending || req.steering_rebind;
        })))

unfoldable pub request_complete : Request → ClientError → Option RateLimitResult → Machine → Machine
request_complete req status selected s =
    let profiled_state = report_profile req status selected s in
    retire_request req status selected (
      if is_rclient_ok status && is_some selected
      then completion_delivery req profiled_state
      else profiled_state)

-- A write through the request's pointer.
unfoldable pub store_request : Request → List Request → List Request
store_request req [] = []
store_request req (r ∷ rs) = if r.handle == req.handle then req ∷ rs else r ∷ store_request req rs

abbrev pub store : Request → Machine → Machine
store req s = set_client s (record s.client { inflight = store_request req s.client.inflight })

-- The request behind a handle; `none` is a dangling pointer.
unfoldable pub find_request : ℕ → List Request → Option Request
find_request handle [] = none
find_request handle (r ∷ rs) = if r.handle == handle then some r else find_request handle rs

unfoldable pub request_deadline_ms : ℕ → Machine → Result ℕ
request_deadline_ms handle s = elim (find_request handle s.client.inflight) [
  | none ↦ fault
  | some req ↦ ok req.attempt_deadline_ms
]

-- What a timer does to a request with an answer in hand.
unfoldable pub timeout_with_best : RateLimitResult → Request → ℕ → Machine → Machine
timeout_with_best best req now s =
    if leb req.ha_preference_deadline_ms now
    then request_complete req rclient_ok (some best) s
    else store (record req { attempt_deadline_ms = req.ha_preference_deadline_ms }) s

-- The end of a round without an answer: the next round, or the final wait.
unfoldable pub next_round : Request → Machine → Machine
next_round req s =
    let ((rc, req'), s') = start_round req (req.ha_round + 1) s in
    if is_rclient_ok rc then store req' s' else request_complete req' rc none (store req' s')

unfoldable pub final_wait : Request → Machine → Machine
final_wait req s =
    let (rc, req') = enter_final s.client.policy req in
    if is_rclient_ok rc then store req' s else request_complete req' rc none s

unfoldable pub timeout_in_phase : Phase → Request → Machine → Machine
timeout_in_phase phase_round req s =
    if ltb req.ha_round s.client.policy.replay_count then next_round req s else final_wait req s
timeout_in_phase phase_final req s = request_complete req err_timeout none s

unfoldable pub timeout_by_best : Option RateLimitResult → Request → ℕ → Machine → Machine
timeout_by_best (some best) req now s = timeout_with_best best req now s
timeout_by_best none req now s =
    if ltb now req.ha_round_deadline_ms
    then store (record req { attempt_deadline_ms = req.ha_round_deadline_ms }) s
    else timeout_in_phase req.phase req s

-- `r_request_policy_on_timeout`, which always returns RCLIENT_OK here: the phase is one of two.
unfoldable pub request_policy_on_timeout : Request → ℕ → Machine → Machine
request_policy_on_timeout req = timeout_by_best req.best req

unfoldable pub on_timeout : ℕ → ℕ → M (Result ClientError)
on_timeout handle now s = elim (find_request handle s.client.inflight) [
  | none ↦ (fault, s)
  | some req ↦ (
    ok rclient_ok,
    if ltb now req.attempt_deadline_ms then s else request_policy_on_timeout req now s,
  )
]

-- A request that is not in the list is left alone.
unfoldable pub cancel_request : ℕ → Machine → Machine
cancel_request handle s =
    let (rest, found) = request_remove handle s.client.inflight in
    if found
    then notify_steering_when_drained (set_client s (record s.client { inflight = rest }))
    else s
