-- ===== src/Client/Submit/Ready.antt =====
-- The request that a submission makes (r_client_check_rate_limit_async_impl up to the list).
use rl_c_client.Prelude.{ℕ, ◌≡◌, refl, ◌∙◌, Bool, true, false, Option, none, List, [], ◌∷◌, arith}
use rl_c_client.Prelude.Results.{
  ClientError, rclient_ok, err_io, err_timeout, err_protocol, err_auth, err_dns, err_config,
  err_nomem, Result, ok, err, fault, Ensures, >>=-Ensures_any,
}
use rl_c_client.Protocol.{max_packet_size}
use rl_c_client.Client.Machine.{
  Endpoint, phase_round, Request, Machine, M, now_ms, alloc, rand_bytes,
}
use rl_c_client.Client.Servers.{snapshot, snapshot_of, request_snapshot_targets}
use rl_c_client.Client.Round.{start_round}
use rl_c_client.Client.Complete.Effects.{
  IsQuiet, IsQuiet-refl, IsQuiet-trans, now_ms-IsQuiet, alloc-IsQuiet, rand_bytes-IsQuiet,
}
use rl_c_client.Client.Complete.Progress.{start_round-IsStarted}
use rl_c_client.Client.Submit.{
  Submission, generate_request_id, continue, chain, alloc_if, kept_label, fresh_request,
  new_request, time_request, stamp_request, checked, pack_request, launch_request, make_request,
}
use rl_c_client.Packet.{Gcm, request_pdu, packet_of_pdu, build_rate_request_packet}

-- A step that leaves the requests in flight alone, completes nothing, and whose value, if it has
-- one, is as `P` says.
abbrev pub Yields : {A : Type 0} → (A → Type 0) → Machine → Result A × Machine → Type 0
Yields P s (r, t) = IsQuiet s t × Ensures P r

Yields-continue :
    {A B : Type 0} (P : A → Type 0) (Q : B → Type 0) (s t : Machine) (r : Result A)
    (next : A → M (Result B))
    → Yields P s (r, t)
    → ((a : A) (u : Machine) → P a → Yields Q u (next a u))
    → Yields Q s (continue r next t)
unfolding continue
Yields-continue P Q s t (ok a) next (q, p) h = let (q', p') = h a t p in (IsQuiet-trans q q', p')
Yields-continue P Q s t (err e) next (q, p) h = (q, tt)
Yields-continue P Q s t fault next (q, p) h = (q, tt)

Yields-chain :
    {A B : Type 0} (P : A → Type 0) (Q : B → Type 0) (first : M (Result A))
    (next : A → M (Result B)) (s : Machine)
    → Yields P s (first s)
    → ((a : A) (t : Machine) → P a → Yields Q t (next a t))
    → Yields Q s (chain first next s)
unfolding chain
Yields-chain P Q first next s p h = Yields-continue P Q s (first s).1 (first s).0 next p h

-- Of a request that has been made, and of one whose first round has begun.
record IsMade (handle user : ℕ) (req : Request) : Type 0 where
  handle_eq : req.handle ≡ handle
  user_eq : req.user ≡ user
  unanswered : req.best ≡ none

pub record IsReady (handle user : ℕ) (req : Request) : Type 0 where
  pub handle_eq : req.handle ≡ handle
  pub user_eq : req.user ≡ user
  pub unanswered : req.best ≡ none
  pub in_round : req.phase ≡ phase_round
  pub first : req.ha_round ≡ 0
  pub deadline : req.attempt_deadline_ms ≡ req.ha_round_deadline_ms

abbrev pub Any : {A : Type 0} → A → Type 0
Any a = Unit

alloc_if-Yields : (needed : Bool) (s : Machine) → Yields Any s (alloc_if needed s)
unfolding alloc_if
alloc_if-Yields false s = (IsQuiet-refl s, tt)
alloc_if-Yields true s = (alloc-IsQuiet s, ground arith)

pure-Yields :
    {A : Type 0} (P : A → Type 0) (r : Result A) (s : Machine) → Ensures P r → Yields P s (r, s)
pure-Yields P r s p = (IsQuiet-refl s, p)

pub Ensures-Any : {A : Type 0} (r : Result A) → Ensures Any r
Ensures-Any (ok a) = tt
Ensures-Any (err e) = tt
Ensures-Any fault = tt

fresh_request-IsMade :
    (a : Submission) (label : Option (List ℕ) × ℕ) → IsMade a.handle a.user (fresh_request a label)
fresh_request-IsMade a label = record { handle_eq = refl; user_eq = refl; unanswered = refl }

new_request-Yields :
    (a : Submission) (s : Machine) → Yields (IsMade a.handle a.user) s (new_request a s)
unfolding new_request
new_request-Yields a s =
    Yields-chain Any (IsMade a.handle a.user) _ _ s (alloc_if-Yields true s) λ _ s1 _.
      Yields-chain Any (IsMade a.handle a.user) _ _ s1 (alloc_if-Yields _ s1) λ _ s2 _.
        Yields-chain Any (IsMade a.handle a.user) _ _ s2 (alloc_if-Yields _ s2) λ _ s3 _.
          Yields-chain Any (IsMade a.handle a.user) _ _ s3
            (pure-Yields Any _ s3
              (Ensures-Any (kept_label a.borrowed a.metrics_label a.metrics_label_len)))
            λ label s4 _.
              Yields-chain Any (IsMade a.handle a.user) _ _ s4 (alloc_if-Yields _ s4) λ _ s5 _.
                (IsQuiet-refl s5, record { handle_eq = refl; user_eq = refl; unanswered = refl })

generate_request_id-Yields : (s : Machine) → Yields Any s (generate_request_id s)
unfolding generate_request_id
generate_request_id-Yields s = (rand_bytes-IsQuiet 16 s, Ensures-Any _)

time_request-Ensures :
    (handle user : ℕ) (ttl : Result ℕ) (now : ℕ) (req : Request)
    → IsMade handle user req
    → Ensures (IsMade handle user) (time_request ttl now req)
unfolding time_request
time_request-Ensures handle user (ok ttl) now req made = ground arith
time_request-Ensures handle user (err e) now req made = tt
time_request-Ensures handle user fault now req made = tt

stamp_request-Yields :
    (handle user : ℕ) (req : Request) (s : Machine)
    → IsMade handle user req
    → Yields (IsMade handle user) s (stamp_request req s)
unfolding stamp_request
stamp_request-Yields handle user req s made =
    Yields-chain Any (IsMade handle user) _ _ s (generate_request_id-Yields s) λ id t _. (
      now_ms-IsQuiet t,
      time_request-Ensures handle user _ (now_ms t).0 (record req { request_id = id })
          (record {
            handle_eq = made.handle_eq;
            user_eq = made.user_eq;
            unanswered = made.unanswered;
          }),
    )

module _ (gcm : Gcm) where
  build-IsQuiet :
      (pdu : Result (List ℕ)) (req : Request) (drawn : Option (List ℕ)) (cap : ℕ) (s : Machine)
      → IsQuiet s (packet_of_pdu gcm pdu req drawn cap s).1
  unfolding packet_of_pdu
  build-IsQuiet (ok pdu) req drawn cap s = ground (arith, now_ms-IsQuiet s, IsQuiet-refl s)
  build-IsQuiet (err e) req drawn cap s = IsQuiet-refl s
  build-IsQuiet fault req drawn cap s = IsQuiet-refl s

  pack_request-Yields :
      (handle user : ℕ) (req : Request) (s : Machine)
      → IsMade handle user req
      → Yields (IsMade handle user) s (pack_request gcm req s)
  unfolding pack_request build_rate_request_packet
  pack_request-Yields handle user req s made =
      let (drawn, s1) = rand_bytes 12 s in
      (
        IsQuiet-trans (rand_bytes-IsQuiet 12 s)
            (build-IsQuiet (request_pdu gcm req) req drawn max_packet_size s1),
        >>=-Ensures_any (IsMade handle user)
            (build_rate_request_packet gcm req drawn max_packet_size s1).0 _
            (λ p _. record {
              handle_eq = made.handle_eq;
              user_eq = made.user_eq;
              unanswered = made.unanswered;
            }),
      )

checked-Ensures :
    (P : Request → Type 0) (rc : ClientError) (req : Request)
    → (rc ≡ rclient_ok → P req)
    → Ensures P (checked (rc, req))
checked-Ensures P rclient_ok req h = h refl
checked-Ensures P err_io req h = tt
checked-Ensures P err_timeout req h = tt
checked-Ensures P err_protocol req h = tt
checked-Ensures P err_auth req h = tt
checked-Ensures P err_dns req h = tt
checked-Ensures P err_config req h = tt
checked-Ensures P err_nomem req h = tt

-- The snapshot of the servers only adds the targets and the allow-list.
snapshot-IsMade :
    (handle user : ℕ) (servers : List Endpoint) (req : Request) (s : Machine)
    → IsMade handle user req
    → let ((rc, req'), t) = snapshot servers req s in IsMade handle user req' × IsQuiet s t
unfolding snapshot
snapshot-IsMade handle user servers req s made =
    ground (arith, alloc-IsQuiet s, alloc-IsQuiet (alloc s).1)

snapshot_of-IsMade :
    (handle user : ℕ) (servers : List Endpoint) (req : Request) (s : Machine)
    → IsMade handle user req
    → let ((rc, req'), t) = snapshot_of servers req s in IsMade handle user req' × IsQuiet s t
unfolding snapshot_of
snapshot_of-IsMade handle user [] req s made = (made, IsQuiet-refl s)
snapshot_of-IsMade handle user (e ∷ es) req s made = snapshot-IsMade handle user (e ∷ es) req s made

-- The first round of a request that has been made.
first_round-Yields :
    (handle user : ℕ) (req : Request) (s : Machine)
    → IsMade handle user req
    → Yields (IsReady handle user) s (let (done, t) = start_round req 0 s in (checked done, t))
first_round-Yields handle user req s made =
    let ((rc, req'), t) = start_round req 0 s in
    let (started, quiet) = start_round-IsStarted 0 req s in
    (
      quiet,
      checked-Ensures (IsReady handle user) rc req' (λ e. record {
        handle_eq = started.handle ∙ made.handle_eq;
        user_eq = started.user ∙ made.user_eq;
        unanswered = started.best ∙ made.unanswered;
        in_round = started.phase e;
        first = started.round e;
        deadline = started.deadline e;
      }),
    )

launch_request-Yields :
    (gcm : Gcm) (handle user : ℕ) (req : Request) (s : Machine)
    → IsMade handle user req
    → Yields (IsReady handle user) s (launch_request gcm req s)
unfolding launch_request request_snapshot_targets
launch_request-Yields gcm handle user req s made =
    let ((rc, req'), t) = snapshot_of s.client.servers req s in
    let (same, quiet) = snapshot_of-IsMade handle user s.client.servers req s made in
    Yields-chain (IsMade handle user) (IsReady handle user) _ _ s
      (quiet, checked-Ensures (IsMade handle user) rc req' (λ _. same))
      λ aimed u still. first_round-Yields handle user aimed u still

pub make_request-Yields :
    (gcm : Gcm) (a : Submission) (s : Machine)
    → Yields (IsReady a.handle a.user) s (make_request gcm a s)
unfolding make_request
make_request-Yields gcm a s =
    Yields-chain (IsMade a.handle a.user) (IsReady a.handle a.user) _ _ s (new_request-Yields a s)
      λ req s1 m1.
        Yields-chain (IsMade a.handle a.user) (IsReady a.handle a.user) _ _ s1
          (stamp_request-Yields a.handle a.user req s1 m1)
          λ stamped s2 m2.
            Yields-chain (IsMade a.handle a.user) (IsReady a.handle a.user) _ _ s2
              (pack_request-Yields gcm a.handle a.user stamped s2 m2)
              λ packed s3 m3. launch_request-Yields gcm a.handle a.user packed s3 m3
