-- ===== src/Calls/Balance.antt =====
-- Checks and completions over any number of calls (r_client_check_rate_limit_async,
-- r_client_on_timeout, r_client_on_datagram, r_client_cancel_request).
use rl_c_client.Prelude.{
  ltb, ◌==◌, if◌then◌else◌, Bool-cases, Option-cases, ℕ, ◌+◌, ◌≡◌, refl, inl, inr, true, false,
  Option, none, some, List, [], ◌∷◌, ◌++◌, arith,
}
use rl_c_client.Prelude.Results.{Result, ok, err, fault, Ensures-at}
use rl_c_client.Client.Machine.{Request, Machine, set_client}
use rl_c_client.Client.Complete.{request_remove, find_request, on_timeout, cancel_request}
use rl_c_client.Client.Complete.Inflight.{
  IsUnique, request_remove-found, waiting_for, waiting_for-request_remove,
}
use rl_c_client.Client.Complete.Effects.{callbacks, IsQuiet, IsQuiet-refl, notify_steering-IsQuiet}
use rl_c_client.Client.Complete.Progress.{called_for, IsTimerStep}
use rl_c_client.Client.Complete.Timeout.{on_timeout-IsTimerStep}
use rl_c_client.Client.Complete.Cancel.{cancel_request-IsCancellation}
use rl_c_client.Client.Discovery.{dns_addr_cb, dns_srv_cb}
use rl_c_client.Client.Discovery.Quiet.{Stays, dns_addr_cb-Stays, dns_srv_cb-Stays}
use rl_c_client.Client.Report.{report_latency}
use rl_c_client.Client.Report.Delivery.{IsReport-IsQuiet, report_latency-IsReport}
use rl_c_client.Client.Submit.{Submission, check_rate_limit_async}
use rl_c_client.Client.Submit.Outcomes.{IsSubmission, check_rate_limit_async-IsSubmission}
use rl_c_client.Packet.{Gcm}
use rl_c_client.Datagram.{on_datagram}
use rl_c_client.Datagram.Answer.{IsDatagramStep, on_datagram-IsDatagramStep}
use rl_c_client.Calls.{
  accepted, cancelled, Call, submit, timeout, datagram, report, cancel, addresses, services, Calls,
  begin, next,
}

-- How often a user is in a list.
abbrev pub count_of : ℕ → List ℕ → ℕ
count_of user [] = 0
count_of user (u ∷ us) = (if u == user then 1 else 0) + count_of user us

count_of-append :
    (user : ℕ) (us vs : List ℕ) → count_of user (us ++ vs) ≡ count_of user us + count_of user vs
count_of-append user [] vs = omega arith
count_of-append user (u ∷ us) vs = ground (arith, count_of-append user us vs)

-- Handles are distinct, and each user's checks are in flight, called back or cancelled.
pub record IsAccounted (accepted cancelled : List ℕ) (s t : Machine) : Type 0 where
  pub unique : IsUnique t.client.inflight
  pub sum :
      (user : ℕ)
      → called_for user (callbacks t.host.trace)
          + waiting_for user t.client.inflight
          + count_of user cancelled
        ≡ called_for user (callbacks s.host.trace)
          + waiting_for user s.client.inflight
          + count_of user accepted

quiet-IsAccounted :
    (s t : Machine) → IsUnique s.client.inflight → IsQuiet s t → IsAccounted [] [] s t
quiet-IsAccounted s t u q = record {
  unique = rw (q.inflight) u;
  sum = λ user. rw (q.inflight, q.called) refl;
}

submit-IsAccounted :
    (a : Submission) (s t : Machine) (r : Result (Option ℕ))
    → IsUnique s.client.inflight
    → find_request a.handle s.client.inflight ≡ none
    → IsSubmission a s (r, t)
    → IsAccounted (accepted a.user r) [] s t
submit-IsAccounted a s t (ok (some h)) u fresh (_, x) = record {
  unique = rw (x.inflight) (rw (x.ready.handle_eq) fresh, u);
  sum = λ user. rw (x.inflight, x.called, x.ready.user_eq) (omega arith);
}
submit-IsAccounted a s t (ok none) u fresh (_, x) = record {
  unique = rw (x.inflight) u;
  sum = λ user. rw (x.inflight, x.called) (omega arith);
}
submit-IsAccounted a s t (err e) u fresh q = quiet-IsAccounted s t u q
submit-IsAccounted a s t fault u fresh q = quiet-IsAccounted s t u q

step-IsAccounted :
    (handle budget : ℕ) (s t : Machine) → IsTimerStep handle budget s t → IsAccounted [] [] s t
step-IsAccounted handle budget s t step = record {
  unique = step.unique;
  sum = λ user. rw (step.conserved user) refl;
}

on_timeout-IsAccounted :
    (handle now : ℕ) (req : Request) (s : Machine)
    → IsUnique s.client.inflight
    → find_request handle s.client.inflight ≡ some req
    → IsAccounted [] [] s (on_timeout handle now s).1
unfolding on_timeout
on_timeout-IsAccounted handle now req s u found =
    elim (Bool-cases (ltb now req.attempt_deadline_ms)) [
      | inl early ↦ rw (on_timeout, found, early) (quiet-IsAccounted s s u (IsQuiet-refl s))
      | inr due ↦
          step-IsAccounted handle _ s (on_timeout handle now s).1
            (on_timeout-IsTimerStep handle now req s u found (ground arith))
    ]

on_datagram-IsAccounted :
    (s t : Machine) → IsUnique s.client.inflight → IsDatagramStep s t → IsAccounted [] [] s t
on_datagram-IsAccounted s t u (inl q) = quiet-IsAccounted s t u q
on_datagram-IsAccounted s t u (inr (handle, (budget, step))) =
    step-IsAccounted handle budget s t step

cancel_request-sum :
    (user handle : ℕ) (s : Machine)
    → called_for user (callbacks (cancel_request handle s).host.trace)
        + waiting_for user (cancel_request handle s).client.inflight
        + count_of user (cancelled handle s)
      ≡ called_for user (callbacks s.host.trace) + waiting_for user s.client.inflight + 0
unfolding cancel_request
cancel_request-sum user handle s =
    let rest = (request_remove handle s.client.inflight).0 in
    let quiet = notify_steering-IsQuiet (set_client s (record s.client { inflight = rest })) in
    let lost = request_remove-found handle s.client.inflight in
    elim (Option-cases (find_request handle s.client.inflight)) [
      | inl gone ↦
          let nothing : cancelled handle s ≡ [] = rw (cancelled, gone) refl in
          let kept : (request_remove handle s.client.inflight).1 ≡ false = rw (lost, gone) refl in
          rw (kept, nothing) refl
      | inr (req, there) ↦
          let count = waiting_for-request_remove user handle req s.client.inflight there in
          let one : cancelled handle s ≡ req.user ∷ [] = rw (cancelled, there) refl in
          let gone : (request_remove handle s.client.inflight).1 ≡ true = rw (lost, there) refl in
          rw (gone, one, quiet.inflight, quiet.called) (omega arith)
    ]

cancel_request-IsAccounted :
    (handle : ℕ) (s : Machine)
    → IsUnique s.client.inflight
    → IsAccounted [] (cancelled handle s) s (cancel_request handle s)
cancel_request-IsAccounted handle s u = record {
  unique = (cancel_request-IsCancellation handle s u).unique;
  sum = λ user. cancel_request-sum user handle s;
}

quiet_result-IsAccounted :
    (s t : Machine) (r : Result Machine)
    → IsUnique s.client.inflight
    → Stays s r
    → r ≡ ok t
    → IsAccounted [] [] s t
quiet_result-IsAccounted s t r u stays e =
    quiet-IsAccounted s t u (Ensures-at (IsQuiet s) r t stays e)

Call-IsAccounted :
    (gcm : Gcm) (s : Machine) (n c : List ℕ) (t : Machine)
    → IsUnique s.client.inflight
    → Call gcm s n c t
    → IsAccounted n c s t
Call-IsAccounted gcm s n c t u (submit a fresh) =
    let (r, t) = check_rate_limit_async gcm a s in
    submit-IsAccounted a s t r u fresh (check_rate_limit_async-IsSubmission gcm a s)
Call-IsAccounted gcm s n c t u (timeout handle now req found) =
    on_timeout-IsAccounted handle now req s u found
Call-IsAccounted gcm s n c t u (datagram buf from) =
    on_datagram-IsAccounted s (on_datagram gcm buf from s).1 u
      (on_datagram-IsDatagramStep gcm buf from s u)
Call-IsAccounted gcm s n c t u (report reports) =
    let (done, t) = report_latency gcm reports s in
    quiet-IsAccounted s t u (IsReport-IsQuiet s (done, t) (report_latency-IsReport gcm reports s))
Call-IsAccounted gcm s n c t u (cancel handle) = cancel_request-IsAccounted handle s u
Call-IsAccounted gcm s n c _ u (addresses id status addrs t e) =
    quiet_result-IsAccounted s t (dns_addr_cb id status addrs s) u
      (dns_addr_cb-Stays id status addrs s) e
Call-IsAccounted gcm s n c _ u (services id status recs t e) =
    quiet_result-IsAccounted s t (dns_srv_cb id status recs s) u (dns_srv_cb-Stays id status recs s)
      e

-- After any number of checks, timers, datagrams, latency reports, cancellations and resolver's callbacks, in any
-- order, from a client whose requests in flight have distinct handles: the handles are distinct,
-- and for every user (the pointer that a check is called back with), the callbacks with it, the
-- requests in flight with it and the cancelled requests with it are together as many as the
-- callbacks and the requests with it before and the checks accepted with it since. A new request
-- has a handle that none in flight has, a timer is that of a request in flight, and the resolver's
-- callbacks are those that return.
pub Calls-IsAccounted :
    (gcm : Gcm) (s : Machine) (n c : List ℕ) (t : Machine)
    → IsUnique s.client.inflight
    → Calls gcm s n c t
    → IsAccounted n c s t
Calls-IsAccounted gcm s n c t u begin = quiet-IsAccounted s s u (IsQuiet-refl s)
Calls-IsAccounted gcm s _ _ _ u (next n1 c1 n2 c2 m t calls call) =
    let before = Calls-IsAccounted gcm s n1 c1 m u calls in
    let after = Call-IsAccounted gcm m n2 c2 t before.unique call in
    record {
      unique = after.unique;
      sum = λ user.
          rw (count_of-append user n1 n2, count_of-append user c1 c2)
            (omega (arith, before.sum user, after.sum user));
    }
