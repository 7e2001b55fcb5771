-- ===== src/Calls.antt =====
-- What a host may call on a client, one call after another (include/r_client_io.h and
-- include/r_client.h): r_client_check_rate_limit_async, r_client_on_timeout, r_client_on_datagram,
-- r_client_report_latency, r_client_cancel_request and the resolver's callbacks. A call from inside
-- a callback is a later call here.
pub mod Balance
use rl_c_client.Prelude.{ℕ, ◌≡◌, Bool, Option, none, some, List, [], ◌∷◌, ◌++◌}
use rl_c_client.Prelude.Results.{Result, ok, err, fault}
use rl_c_client.Client.Machine.{Addr, SrvRecord, Request, Machine}
use rl_c_client.Client.Complete.{find_request, on_timeout, cancel_request}
use rl_c_client.Client.Discovery.{dns_addr_cb, dns_srv_cb}
use rl_c_client.Protocol.{ServiceLatencyReport}
use rl_c_client.Client.Report.{report_latency}
use rl_c_client.Client.Submit.{Submission, check_rate_limit_async}
use rl_c_client.Packet.{Gcm}
use rl_c_client.Datagram.{on_datagram}

-- The user of a check that was accepted, and that of a request that was cancelled.
abbrev pub accepted : ℕ → Result (Option ℕ) → List ℕ
accepted user (ok handle) = user ∷ []
accepted user (err e) = []
accepted user fault = []

abbrev pub cancelled : ℕ → Machine → List ℕ
cancelled handle s = elim (find_request handle s.client.inflight) [
  | none ↦ []
  | some req ↦ req.user ∷ []
]

-- One call, with the users of what it accepts and of what it cancels. The allocator gives a new
-- request an address that none in flight has, a timer is that of a request in flight, and a
-- resolver's callback is one that returns.
pub data Call (gcm : Gcm) (s : Machine) : List ℕ → List ℕ → Machine → Type 0 where
  submit :
      (a : Submission)
      → find_request a.handle s.client.inflight ≡ none
      → Call gcm s
          (accepted a.user (check_rate_limit_async gcm a s).0)
          []
          (check_rate_limit_async gcm a s).1
  timeout :
      (handle now : ℕ) (req : Request)
      → find_request handle s.client.inflight ≡ some req
      → Call gcm s [] [] (on_timeout handle now s).1
  datagram : (buf : List ℕ) (from : Addr) → Call gcm s [] [] (on_datagram gcm buf from s).1
  report : (reports : List ServiceLatencyReport) → Call gcm s [] [] (report_latency gcm reports s).1
  cancel : (handle : ℕ) → Call gcm s [] (cancelled handle s) (cancel_request handle s)
  addresses :
      (id : ℕ) (status : Bool) (addrs : List Addr) (t : Machine)
      → dns_addr_cb id status addrs s ≡ ok t
      → Call gcm s [] [] t
  services :
      (id : ℕ) (status : Bool) (recs : List SrvRecord) (t : Machine)
      → dns_srv_cb id status recs s ≡ ok t
      → Call gcm s [] [] t

-- Any number of calls, with the users of the checks accepted and of the requests cancelled, in
-- order.
pub data Calls (gcm : Gcm) (s : Machine) : List ℕ → List ℕ → Machine → Type 0 where
  begin : Calls gcm s [] [] s
  next :
      (n c n' c' : List ℕ) (t u : Machine)
      → Calls gcm s n c t
      → Call gcm t n' c' u
      → Calls gcm s (n ++ n') (c ++ c') u
