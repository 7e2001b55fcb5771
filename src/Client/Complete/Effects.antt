-- ===== src/Client/Complete/Effects.antt =====
-- Steps of the client and the requests in flight: sends, clock readings and completions.
use rl_c_client.Prelude.{
  ◌==◌, if◌then◌else◌, if_both, ℕ, suc, ◌-◌, ◌≡◌, refl, ap, ◌∙◌, Bool, true, ◌&&◌, ◌||◌, Option,
  none, List, [], ◌∷◌, arith,
}
use rl_c_client.Prelude.Results.{ClientError}
use rl_c_client.Client.Machine.{
  Addr, Endpoint, RateLimitResult, Request, Client, Event, sent, completed, profiled, change_port,
  asked, Machine, emit, set_client, now_ms, udp_send, alloc, rand_bytes,
}
use rl_c_client.Client.Servers.{make_room}
use rl_c_client.Client.Send.{
  record_send_failures, send_one, send_loop, send_packet_to_targets, send_rate_request,
  completion_delivery,
}
use rl_c_client.Client.Complete.{
  is_rclient_ok, is_some, request_remove, notify_steering_when_drained, report_profile,
  retire_request, request_complete, find_request,
}
use rl_c_client.Client.Complete.Inflight.{IsUnique, find_request-remove, request_remove-IsUnique}

-- The completions that the host has seen.
abbrev pub completions : List Event → ℕ
completions [] = 0
completions (sent a p ∷ es) = completions es
completions (completed u st r ∷ es) = suc (completions es)
completions (profiled p ∷ es) = completions es
completions (change_port ∷ es) = completions es
completions (asked n ∷ es) = completions es

-- A callback: the user's pointer, the status and the answer.
abbrev pub Callback : Type 0
Callback = ℕ × (ClientError × Option RateLimitResult)

-- The callbacks that the host has seen, the latest first.
abbrev pub callbacks : List Event → List Callback
callbacks [] = []
callbacks (sent a p ∷ es) = callbacks es
callbacks (completed u st r ∷ es) = (u, (st, r)) ∷ callbacks es
callbacks (profiled p ∷ es) = callbacks es
callbacks (change_port ∷ es) = callbacks es
callbacks (asked n ∷ es) = callbacks es

-- The step completes nothing and leaves the requests and the policy alone.
pub record IsQuiet (s t : Machine) : Type 0 where
  pub called : callbacks t.host.trace ≡ callbacks s.host.trace
  pub inflight : t.client.inflight ≡ s.client.inflight
  pub policy : t.client.policy ≡ s.client.policy
  pub completions : completions t.host.trace ≡ completions s.host.trace

pub IsQuiet-refl : (s : Machine) → IsQuiet s s
IsQuiet-refl s = record { called = refl; inflight = refl; policy = refl; completions = refl }

pub IsQuiet-trans : {s t u : Machine} → IsQuiet s t → IsQuiet t u → IsQuiet s u
IsQuiet-trans p q = record {
  called = q.called ∙ p.called;
  inflight = q.inflight ∙ p.inflight;
  policy = q.policy ∙ p.policy;
  completions = q.completions ∙ p.completions;
}

pub now_ms-IsQuiet : (s : Machine) → IsQuiet s (now_ms s).1
unfolding now_ms
now_ms-IsQuiet s = ground arith

pub alloc-IsQuiet : (s : Machine) → IsQuiet s (alloc s).1
unfolding alloc
alloc-IsQuiet s = ground arith

pub rand_bytes-IsQuiet : (n : ℕ) (s : Machine) → IsQuiet s (rand_bytes n s).1
unfolding rand_bytes
rand_bytes-IsQuiet n s = ground arith

pub make_room-IsQuiet : (count cap : ℕ) (s : Machine) → IsQuiet s (make_room count cap s).1
unfolding make_room
make_room-IsQuiet count cap s = ground (arith, alloc-IsQuiet s)

pub udp_send-IsQuiet :
    (a : Addr) (packet : List ℕ) (s : Machine) → IsQuiet s (udp_send a packet s).1
unfolding udp_send
udp_send-IsQuiet a packet s = ground arith

send_one-IsQuiet :
    (missing_only : Bool) (req : Request) (packet : List ℕ) (t : Endpoint) (counts : ℕ × ℕ)
    (s : Machine)
    → IsQuiet s (send_one missing_only req packet t counts s).1
unfolding send_one
send_one-IsQuiet missing_only req packet t (attempted, delivered) s =
    ground (arith, udp_send-IsQuiet t.addr packet s)

send_loop-IsQuiet :
    (missing_only : Bool) (req : Request) (packet : List ℕ) (ts : List Endpoint) (counts : ℕ × ℕ)
    (s : Machine)
    → IsQuiet s (send_loop missing_only req packet ts counts s).1
unfolding send_loop
send_loop-IsQuiet missing_only req packet [] counts s = IsQuiet-refl s
send_loop-IsQuiet missing_only req packet (t ∷ ts) counts s =
    let (counts', s') = send_one missing_only req packet t counts s in
    IsQuiet-trans (send_one-IsQuiet missing_only req packet t counts s)
      (send_loop-IsQuiet missing_only req packet ts counts' s')

pub record_send_failures-same :
    (n : ℕ) (c : Client)
    → ((record_send_failures n c).inflight ≡ c.inflight)
      × ((record_send_failures n c).policy ≡ c.policy)
unfolding record_send_failures
record_send_failures-same n c = ground arith

pub send_packet_to_targets-IsQuiet :
    (req : Request) (packet : List ℕ) (missing_only best_effort : Bool) (s : Machine)
    → IsQuiet s (send_packet_to_targets req packet missing_only best_effort s).1
unfolding send_packet_to_targets
send_packet_to_targets-IsQuiet req [] missing_only best_effort s = IsQuiet-refl s
send_packet_to_targets-IsQuiet req (b ∷ bs) missing_only best_effort s =
    let ((attempted, delivered), s') = send_loop missing_only req (b ∷ bs) req.targets (0, 0) s in
    ground (
      arith,
      send_loop-IsQuiet missing_only req (b ∷ bs) req.targets (0, 0) s,
      record_send_failures-same (attempted - delivered) s'.client,
    )

pub completion_delivery-IsQuiet :
    (req : Request) (s : Machine) → IsQuiet s (completion_delivery req s)
unfolding completion_delivery send_rate_request
completion_delivery-IsQuiet req s =
    ground (
      arith,
      now_ms-IsQuiet s,
      send_packet_to_targets-IsQuiet req req.packet true true (now_ms s).1,
    )

report_profile-IsQuiet :
    (req : Request) (status : ClientError) (selected : Option RateLimitResult) (s : Machine)
    → IsQuiet s (report_profile req status selected s)
unfolding report_profile
report_profile-IsQuiet req status selected s = ground (arith, now_ms-IsQuiet s)

pub notify_steering-IsQuiet : (s : Machine) → IsQuiet s (notify_steering_when_drained s)
unfolding notify_steering_when_drained
notify_steering-IsQuiet s = ground arith

-- The list without the request, one more callback, with the request's user, the status and the
-- answer, and the same policy.
pub record IsRetired (req : Request) (status : ClientError) (selected : Option RateLimitResult)
    (s t : Machine) : Type 0 where
  pub inflight : t.client.inflight ≡ (request_remove req.handle s.client.inflight).0
  pub policy : t.client.policy ≡ s.client.policy
  pub completions : completions t.host.trace ≡ suc (completions s.host.trace)
  pub called : callbacks t.host.trace ≡ (req.user, (status, selected)) ∷ callbacks s.host.trace

module _ (req : Request) (status : ClientError) (selected : Option RateLimitResult)
    (s : Machine) where
  retire_request-IsRetired : IsRetired req status selected s (retire_request req status selected s)
  unfolding retire_request
  retire_request-IsRetired =
      let c = s.client in
      let retired = emit (completed req.user status selected) (
        set_client s (record c {
          inflight = (request_remove req.handle c.inflight).0;
          steering_rebind_pending = c.steering_rebind_pending || req.steering_rebind;
        })) in
      let q = notify_steering-IsQuiet retired in
      record {
        inflight = q.inflight;
        policy = q.policy;
        completions = q.completions;
        called = q.called;
      }

-- A request is retired after quiet steps.
IsRetired-after :
    (req : Request) (status : ClientError) (selected : Option RateLimitResult) (s t u : Machine)
    → IsQuiet s t
    → IsRetired req status selected t u
    → IsRetired req status selected s u
IsRetired-after req status selected s t u q r = record {
  inflight = r.inflight ∙ ap (λ rs. (request_remove req.handle rs).0) q.inflight;
  policy = r.policy ∙ q.policy;
  completions = r.completions ∙ ap suc q.completions;
  called = r.called ∙ ap (λ cs. (req.user, (status, selected)) ∷ cs) q.called;
}

module _ (req : Request) (status : ClientError) (selected : Option RateLimitResult)
    (s : Machine) where
  pub request_complete-IsRetired :
      IsRetired req status selected s (request_complete req status selected s)
  unfolding request_complete
  request_complete-IsRetired =
      let before = report_profile req status selected s in
      let quiet = report_profile-IsQuiet req status selected s in
      let delivered = completion_delivery req before in
      let last =
        if_both (IsQuiet s) (is_rclient_ok status && is_some selected) delivered before
          (IsQuiet-trans quiet (completion_delivery-IsQuiet req before)) quiet in
      IsRetired-after req status selected s _ _ last
        (retire_request-IsRetired req status selected _)

-- What a completion does, by what is found in flight and what the host sees.
pub record IsCompletion (req : Request) (status : ClientError) (selected : Option RateLimitResult)
    (s t : Machine) : Type 0 where
  pub inflight :
      (k : ℕ)
      → find_request k t.client.inflight
        ≡ (if k == req.handle then none else find_request k s.client.inflight)
  pub unique : IsUnique t.client.inflight
  pub policy : t.client.policy ≡ s.client.policy
  pub completions : completions t.host.trace ≡ suc (completions s.host.trace)
  pub called : callbacks t.host.trace ≡ (req.user, (status, selected)) ∷ callbacks s.host.trace

-- Completing a request, whatever the status, the answer, the clock and the sockets: afterwards no
-- request in flight has its handle, all others are found as before, no two have one handle, the
-- host sees exactly one more callback, the latest, which has the request's user, the status and
-- the answer, and the policy stays. Before the call no two requests in flight have one handle.
pub request_complete-IsCompletion :
    (req : Request) (status : ClientError) (selected : Option RateLimitResult) (s : Machine)
    → IsUnique s.client.inflight
    → IsCompletion req status selected s (request_complete req status selected s)
request_complete-IsCompletion req status selected s u =
    let done = request_complete-IsRetired req status selected s in
    record {
      inflight = λ k. rw (done.inflight) (find_request-remove k req.handle s.client.inflight u);
      unique = rw (done.inflight) (request_remove-IsUnique req.handle s.client.inflight u);
      policy = done.policy;
      completions = done.completions;
      called = done.called;
    }
