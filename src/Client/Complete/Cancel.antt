-- ===== src/Client/Complete/Cancel.antt =====
-- Cancellation (r_client_cancel_request).
use rl_c_client.Prelude.{
  ◌==◌, if◌then◌else◌, Option-cases, ℕ, ◌≡◌, refl, ◌∙◌, inl, inr, none, arith,
}
use rl_c_client.Client.Machine.{Machine, set_client}
use rl_c_client.Client.Complete.{request_remove, find_request, cancel_request}
use rl_c_client.Client.Complete.Inflight.{
  IsUnique, find_request-remove, request_remove-IsUnique, request_remove-found,
}
use rl_c_client.Client.Complete.Effects.{completions, IsQuiet, notify_steering-IsQuiet}

-- What a cancellation leaves.
pub record IsCancellation (handle : ℕ) (s t : Machine) : Type 0 where
  pub inflight :
      (k : ℕ)
      → find_request k t.client.inflight
        ≡ (if k == handle then none else find_request k s.client.inflight)
  pub unique : IsUnique t.client.inflight
  pub silent : completions t.host.trace ≡ completions s.host.trace

cancelled :
    (handle : ℕ) (s : Machine)
    → IsUnique s.client.inflight
    → IsCancellation handle s
        (set_client s (record s.client { inflight = (request_remove handle s.client.inflight).0 }))
cancelled handle s u = record {
  inflight = λ k. find_request-remove k handle s.client.inflight u;
  unique = request_remove-IsUnique handle s.client.inflight u;
  silent = refl;
}

-- A quiet step after a cancellation.
then_quiet :
    {handle : ℕ} {s s' t : Machine}
    → IsCancellation handle s s'
    → IsQuiet s' t
    → IsCancellation handle s t
then_quiet {handle} {s} {s'} {t} c q = record {
  inflight = λ k. rw (q.inflight) (c.inflight k);
  unique = rw (q.inflight) c.unique;
  silent = q.completions ∙ c.silent;
}

absent :
    (handle : ℕ) (s : Machine)
    → IsUnique s.client.inflight
    → find_request handle s.client.inflight ≡ none
    → IsCancellation handle s s
absent handle s u gone = record { inflight = λ k. ground arith; unique = u; silent = refl }

-- Cancelling a handle, of a request in flight or not: afterwards no request has it, all others are
-- found as before, no two have one handle, and nothing is called back. Before the call no two
-- requests in flight have one handle.
pub cancel_request-IsCancellation :
    (handle : ℕ) (s : Machine)
    → IsUnique s.client.inflight
    → IsCancellation handle s (cancel_request handle s)
unfolding cancel_request
cancel_request-IsCancellation handle s u =
    elim (Option-cases (find_request handle s.client.inflight)) [
      | inl gone ↦
          let lost = request_remove-found handle s.client.inflight in
          rw (lost, gone) (absent handle s u gone)
      | inr (req, there) ↦
          let lost = request_remove-found handle s.client.inflight in
          rw (lost, there) (then_quiet (cancelled handle s u) (notify_steering-IsQuiet _))
    ]
