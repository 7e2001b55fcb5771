-- ===== src/Client/Submit/Outcomes.antt =====
-- What a submission leaves behind (r_client_check_rate_limit_async).
use rl_c_client.Prelude.{
  Bool-cases, ℕ, suc, ◌+◌, ◌≡◌, refl, sym, ap, ◌∙◌, subst, inl, inr, true, false, ◌&&◌, Option,
  none, some, List, [], ◌∷◌, arith,
}
use rl_c_client.Prelude.Results.{
  ClientError, rclient_ok, err_io, err_timeout, err_protocol, err_auth, err_dns, err_config,
  err_nomem, Result, ok, err, fault,
}
use rl_c_client.Client.Machine.{Endpoint, Request, Event, completed, Machine, M, pure}
use rl_c_client.Client.Complete.{is_nil, find_request}
use rl_c_client.Client.Complete.Inflight.{IsUnique}
use rl_c_client.Client.Complete.Effects.{
  callbacks, completions, IsQuiet, IsQuiet-refl, IsQuiet-trans,
}
use rl_c_client.Client.Complete.Lifetime.{serve_timer, IsServed, serve_timer-IsServed}
use rl_c_client.Client.Discovery.Start.{dns_maybe_refresh}
use rl_c_client.Client.Discovery.Quiet.{Stays}
use rl_c_client.Client.Discovery.QuietStart.{dns_maybe_refresh-Stays}
use rl_c_client.Client.Submit.{
  Submission, validate_resource_windows, empty_result, submit_nothing, make_request, admit_request,
  on_machine, submit_to_servers, submit_checked, check_rate_limit_async,
}
use rl_c_client.Client.Submit.Ready.{Yields, IsReady, make_request-Yields}
use rl_c_client.Packet.{Gcm}

-- The client after a check of nothing.
pub record IsNothing (user : ℕ) (s t : Machine) : Type 0 where
  pub inflight : t.client.inflight ≡ s.client.inflight
  pub policy : t.client.policy ≡ s.client.policy
  pub completions : completions t.host.trace ≡ suc (completions s.host.trace)
  pub called :
      callbacks t.host.trace ≡ (user, (rclient_ok, some empty_result)) ∷ callbacks s.host.trace
  pub latest :
      (es : List Event) × (t.host.trace ≡ completed user rclient_ok (some empty_result) ∷ es)

-- The client after a submission that started a request.
pub record IsAdmitted (handle user : ℕ) (s t : Machine) : Type 0 where
  pub req : Request
  pub ready : IsReady handle user req
  pub inflight : t.client.inflight ≡ req ∷ s.client.inflight
  pub policy : t.client.policy ≡ s.client.policy
  pub completions : completions t.host.trace ≡ completions s.host.trace
  pub called : callbacks t.host.trace ≡ callbacks s.host.trace

abbrev pub IsSubmission : Submission → Machine → Result (Option ℕ) × Machine → Type 0
IsSubmission a s (ok (some handle), t) = (handle ≡ a.handle) × IsAdmitted a.handle a.user s t
IsSubmission a s (ok none, t) =
    ((is_nil a.resources && is_nil a.guards) ≡ true) × IsNothing a.user s t
IsSubmission a s (err e, t) = IsQuiet s t
IsSubmission a s (fault, t) = IsQuiet s t

submit_nothing-IsNothing : (user : ℕ) (s : Machine) → IsNothing user s (submit_nothing user s)
unfolding submit_nothing
submit_nothing-IsNothing user s = elim (Bool-cases s.client.has_profile_cb) [
  | inl e ↦ rw e (record {
    inflight = refl;
    policy = refl;
    completions = refl;
    called = refl;
    latest = (_, refl);
  })
  | inr e ↦ rw e (record {
    inflight = refl;
    policy = refl;
    completions = refl;
    called = refl;
    latest = (_, refl);
  })
]

module _ (gcm : Gcm) (a : Submission) where
  admit_request-IsSubmission :
      (s t : Machine) (made : Result Request)
      → Yields (IsReady a.handle a.user) s (made, t)
      → IsSubmission a s (admit_request gcm made t)
  unfolding admit_request
  admit_request-IsSubmission s t (ok req) (quiet, ready) = (
    ready.handle_eq,
    record {
      req = req;
      ready = ready;
      inflight = ap (λ rs. req ∷ rs) quiet.inflight;
      policy = quiet.policy;
      completions = quiet.completions;
      called = quiet.called;
    },
  )
  admit_request-IsSubmission s t (err e) (quiet, _) = quiet
  admit_request-IsSubmission s t fault (quiet, _) = quiet

  -- A submission after quiet steps.
  IsSubmission-after :
      (s t : Machine) (done : Result (Option ℕ) × Machine)
      → IsQuiet s t
      → ((is_nil a.resources && is_nil a.guards) ≡ false)
      → IsSubmission a t done
      → IsSubmission a s done
  IsSubmission-after s t (ok (some h), u) q some_checks (e, x) = (
    e,
    record {
      req = x.req;
      ready = x.ready;
      inflight = x.inflight ∙ ap (λ rs. x.req ∷ rs) q.inflight;
      policy = x.policy ∙ q.policy;
      completions = x.completions ∙ q.completions;
      called = x.called ∙ q.called;
    },
  )
  IsSubmission-after s t (ok none, u) q some_checks (e, x) = ground arith
  IsSubmission-after s t (err e, u) q some_checks x = IsQuiet-trans q x
  IsSubmission-after s t (fault, u) q some_checks x = IsQuiet-trans q x

  on_machine-IsSubmission :
      (s : Machine) (refreshed : Result Machine) (next : M (Result (Option ℕ)))
      → ((is_nil a.resources && is_nil a.guards) ≡ false)
      → Stays s refreshed
      → ((t : Machine) → IsSubmission a t (next t))
      → IsSubmission a s (on_machine refreshed s next)
  on_machine-IsSubmission s (ok t) next some_checks q h =
      IsSubmission-after s t (next t) q some_checks (h t)
  on_machine-IsSubmission s (err e) next some_checks q h = IsQuiet-refl s
  on_machine-IsSubmission s fault next some_checks q h = IsQuiet-refl s

  module _ (some_checks : (is_nil a.resources && is_nil a.guards) ≡ false) where
    submit_to_servers-IsSubmission :
        (servers : List Endpoint) (s : Machine)
        → IsSubmission a s (submit_to_servers gcm servers a s)
    unfolding submit_to_servers
    submit_to_servers-IsSubmission [] s =
        on_machine-IsSubmission s (dns_maybe_refresh true s) (pure (err err_dns)) some_checks
          (dns_maybe_refresh-Stays true s) (λ t. IsQuiet-refl t)
    submit_to_servers-IsSubmission (e ∷ es) s =
        admit_request-IsSubmission s (make_request gcm a s).1 (make_request gcm a s).0
          (make_request-Yields gcm a s)

    submit_checked-IsSubmission :
        (rc : ClientError) (s : Machine) → IsSubmission a s (submit_checked gcm rc a s)
    unfolding submit_checked
    submit_checked-IsSubmission rclient_ok s =
        on_machine-IsSubmission s (dns_maybe_refresh false s)
          (λ t. submit_to_servers gcm t.client.servers a t) some_checks
          (dns_maybe_refresh-Stays false s) (λ t. submit_to_servers-IsSubmission t.client.servers t)
    submit_checked-IsSubmission err_io s = IsQuiet-refl s
    submit_checked-IsSubmission err_timeout s = IsQuiet-refl s
    submit_checked-IsSubmission err_protocol s = IsQuiet-refl s
    submit_checked-IsSubmission err_auth s = IsQuiet-refl s
    submit_checked-IsSubmission err_dns s = IsQuiet-refl s
    submit_checked-IsSubmission err_config s = IsQuiet-refl s
    submit_checked-IsSubmission err_nomem s = IsQuiet-refl s

-- A submission, whatever the allocator, the clock, OpenSSL, the resolver and the sockets do: with
-- an error, the requests in flight and the policy stay and nothing is called back; if it checks
-- nothing, the requests stay and exactly one success is called back, at once; otherwise exactly one
-- request has joined those in flight, with the allocator's address, the caller's user, in its first
-- round and without an answer, and nothing is called back.
pub check_rate_limit_async-IsSubmission :
    (gcm : Gcm) (a : Submission) (s : Machine) → IsSubmission a s (check_rate_limit_async gcm a s)
unfolding check_rate_limit_async
check_rate_limit_async-IsSubmission gcm a s =
    elim (Bool-cases (is_nil a.resources && is_nil a.guards)) [
      | inl e ↦ rw e (e, submit_nothing-IsNothing a.user s)
      | inr e ↦
          let rest =
            submit_checked-IsSubmission gcm a e (validate_resource_windows s.client a.resources)
              s in
          rw e rest
    ]

find_first :
    (handle : ℕ) (req : Request) (rs : List Request)
    → req.handle ≡ handle
    → find_request handle (req ∷ rs) ≡ some req
unfolding find_request
find_first handle req rs e = ground arith

-- A submission that starts a request, with an address that no request in flight has, and its
-- timers served from then on, each at its deadline or however late: the submission calls nothing
-- back, and within `replay_count` + 3 timer calls the request has been called back exactly once and
-- is gone. No two requests in flight have one handle before.
pub submitted-IsServed :
    (gcm : Gcm) (a : Submission) (late : ℕ → ℕ) (handle : ℕ) (s t : Machine)
    → IsUnique s.client.inflight
    → find_request a.handle s.client.inflight ≡ none
    → check_rate_limit_async gcm a s ≡ (ok (some handle), t)
    → (completions t.host.trace ≡ completions s.host.trace)
      × IsServed handle t (serve_timer (t.client.policy.replay_count + 3) late handle t)
unfolding find_request
submitted-IsServed gcm a late handle s t u fresh made =
    let (same, x) : IsSubmission a s (ok (some handle), t) =
      subst (IsSubmission a s) made (check_rate_limit_async-IsSubmission gcm a s) in
    let first : x.req.handle ≡ handle = x.ready.handle_eq ∙ sym same in
    let alone : find_request x.req.handle s.client.inflight ≡ none = rw (x.ready.handle_eq) fresh in
    (
      x.completions,
      serve_timer-IsServed late handle t x.req (rw (x.inflight) (alone, u))
          (rw (x.inflight) (find_first handle x.req s.client.inflight first)),
    )
