-- ===== src/Client/Discovery/Refreshes.antt =====
-- Refreshes and their callbacks, in any order (r_dns_maybe_refresh, r_dns_srv_cb_fn,
-- r_dns_addr_cb_fn).
use rl_c_client.Prelude.{
  if_both, Bool-cases, ℕ, ◌-◌, ◌^◌, ◌<◌, ◌≤◌, ◌≡◌, inl, inr, true, false, arith,
}
use rl_c_client.Prelude.Results.{Result, ok, err, fault, ◌>>=◌}
use rl_c_client.Client.Machine.{Machine, now_ms, rand_bytes}
use rl_c_client.Client.Round.{add64}
use rl_c_client.Client.Complete.Effects.{IsQuiet, IsQuiet-refl, IsQuiet-trans}
use rl_c_client.Client.Discovery.Start.{
  rand_range, forced_interval, is_due, is_early, dns_start_refresh, dns_maybe_refresh,
}
use rl_c_client.Client.Discovery.Lookups.{Descends-mono}
use rl_c_client.Client.Discovery.Live.{Safely, Safely-map}
use rl_c_client.Client.Discovery.Jitter.{Fills, IsAtMost, rand_range-IsAtMost}
use rl_c_client.Client.Discovery.Steps.{
  IsSettled, no_refresh, running, DiscoveryCall, starts, addresses, services,
  dns_start_refresh-Safely, DiscoveryCall-IsSettled,
}
use rl_c_client.Client.Discovery.Quiet.{Stays, dns_addr_cb-Stays, dns_srv_cb-Stays}
use rl_c_client.Client.Discovery.QuietStart.{dns_start_refresh-Stays, dns_maybe_refresh-Stays}

-- A call of service discovery, and what it results in: a refresh that the client asks for, forced
-- or not, the start of one, or a callback for a lookup that is pending. Before it forces a refresh
-- the jitter is below 2^64 - 1, and OpenSSL fills its buffers where it does not fail.
pub data RefreshCall (s : Machine) : Result Machine → Type 0 where
  on_interval : RefreshCall s (dns_maybe_refresh false s)
  forced :
      s.client.discovery.forced_refresh_jitter_ms < 2 ^ 64 - 1
      → Fills s.host
      → RefreshCall s (dns_maybe_refresh true s)
  resolver : (result : Result Machine) → DiscoveryCall s result → RefreshCall s result

-- Any number of calls, each of which has returned.
pub data RefreshCalls (s : Machine) : Machine → Type 0 where
  first : RefreshCalls s s
  later :
      (t u : Machine) (result : Result Machine)
      → RefreshCalls s t
      → RefreshCall t result
      → result ≡ ok u
      → RefreshCalls s u

-- A step that only the host sees.
abbrev IsHostStep : Machine → Machine → Type 0
IsHostStep s t = (t.client ≡ s.client) × (s.host.calls ≤ t.host.calls)

host_step-IsSettled : (s t : Machine) → IsHostStep s t → IsSettled s → IsSettled t
host_step-IsSettled s t (same, more) (no_refresh e) = no_refresh (rw same e)
host_step-IsSettled s t (same, more) (running r live calm waiting) =
    running r
      (record {
        refresh = rw same live.refresh;
        sorted = Descends-mono s.host.calls t.host.calls r.lookups more live.sorted;
        counted = live.counted;
      })
      calm waiting

now_ms-IsHostStep : (s : Machine) → IsHostStep s (now_ms s).1
unfolding now_ms
now_ms-IsHostStep s = ground arith

now_ms-Fills : (s : Machine) → Fills s.host → Fills (now_ms s).1.host
unfolding now_ms
now_ms-Fills s fills = elim (Bool-cases s.client.has_now_ms) [
  | inl e ↦ rw e fills
  | inr e ↦ rw e fills
]

forced_interval-IsHostStep : (s : Machine) → IsHostStep s (forced_interval s).1
unfolding forced_interval rand_range rand_bytes
forced_interval-IsHostStep s = ground arith

module _ (P : Machine → Type 0) where
  drawn-Safely :
      (max least : ℕ) (jitter : Result ℕ) (next : ℕ → Result Machine)
      → IsAtMost max jitter
      → ((n : ℕ) → Safely P (next n))
      → Safely P ((do j ← jitter; ok (add64 least j)) >>= next)
  drawn-Safely max least (ok j) next h k = k (add64 least j)
  drawn-Safely max least (err e) next h k = absurd h
  drawn-Safely max least fault next h k = absurd h

  Safely-returns : (result : Result Machine) (t : Machine) → Safely P result → result ≡ ok t → P t
  Safely-returns result t h e = rw e at h

on_interval-Safely : (s : Machine) → IsSettled s → Safely IsSettled (dns_maybe_refresh false s)
unfolding dns_maybe_refresh
on_interval-Safely s settled =
    let (now, s1) = now_ms s in
    let still = host_step-IsSettled s s1 (now_ms-IsHostStep s) settled in
    if_both (Safely IsSettled) (is_due s.client.discovery now) (dns_start_refresh s1) (ok s1)
      (dns_start_refresh-Safely s1 still) still

forced-Safely :
    (s : Machine)
    → s.client.discovery.forced_refresh_jitter_ms < 2 ^ 64 - 1
    → Fills s.host
    → IsSettled s
    → Safely IsSettled (dns_maybe_refresh true s)
unfolding dns_maybe_refresh forced_interval
forced-Safely s bound fills settled =
    let (now, s1) = now_ms s in
    let step = now_ms-IsHostStep s in
    let same : s1.client ≡ s.client = step.0 in
    let max = s1.client.discovery.forced_refresh_jitter_ms in
    let (interval, s2) = forced_interval s1 in
    let still =
      host_step-IsSettled s1 s2 (forced_interval-IsHostStep s1)
        (host_step-IsSettled s s1 step settled) in
    drawn-Safely IsSettled max _ (rand_range max s1).0 _
      (rand_range-IsAtMost max s1 (rw same bound) (now_ms-Fills s fills))
      λ least.
        if_both (Safely IsSettled) (is_early s.client.discovery now least) (ok s2)
          (dns_start_refresh s2) still (dns_start_refresh-Safely s2 still)

-- What a call keeps: the requests in flight, the policy and what the host was called back with.
abbrev pub IsKept : Machine → Machine → Type 0
IsKept s t = IsSettled t × IsQuiet s t

kept :
    (s : Machine) (result : Result Machine)
    → Safely IsSettled result
    → Stays s result
    → Safely (IsKept s) result
kept s (ok t) settled quiet = (settled, quiet)
kept s (err e) settled quiet = settled
kept s fault settled quiet = settled

DiscoveryCall-Stays :
    (s : Machine) (result : Result Machine) → DiscoveryCall s result → Stays s result
DiscoveryCall-Stays s _ starts = dns_start_refresh-Stays s
DiscoveryCall-Stays s _ (addresses l r status addrs e linked open_yet) =
    dns_addr_cb-Stays l.id status addrs s
DiscoveryCall-Stays s _ (services l r status recs e linked open_yet) =
    dns_srv_cb-Stays l.id status recs s

RefreshCall-IsKept :
    (s : Machine) (result : Result Machine)
    → IsSettled s
    → RefreshCall s result
    → Safely (IsKept s) result
RefreshCall-IsKept s _ settled on_interval =
    kept s (dns_maybe_refresh false s) (on_interval-Safely s settled)
      (dns_maybe_refresh-Stays false s)
RefreshCall-IsKept s _ settled (forced bound fills) =
    kept s (dns_maybe_refresh true s) (forced-Safely s bound fills settled)
      (dns_maybe_refresh-Stays true s)
RefreshCall-IsKept s _ settled (resolver result call) =
    kept s result (DiscoveryCall-IsSettled s result settled call)
      (DiscoveryCall-Stays s result call)

RefreshCalls-IsKept : (s t : Machine) → IsSettled s → RefreshCalls s t → IsKept s t
RefreshCalls-IsKept s t settled first = (settled, IsQuiet-refl s)
RefreshCalls-IsKept s u settled (later t _ result calls call returned) =
    let (before, quiet) = RefreshCalls-IsKept s t settled calls in
    let (after, still) =
      Safely-returns (IsKept t) result u (RefreshCall-IsKept t result before call) returned in
    (after, IsQuiet-trans quiet still)

-- After any number of refreshes, forced or not, and of callbacks of their lookups, also before the
-- resolver's call has returned, in any order and with any answers, one more such call returns; it
-- leaves the requests in flight and the policy as they were before the first, the host has been
-- called back with nothing, and discovery is settled again, as it was before the first. A callback
-- is for a lookup that is pending; a refresh is forced with a jitter below 2^64 - 1 and with OpenSSL
-- filling its buffers where it does not fail.
pub RefreshCalls-IsSafe :
    (s t : Machine) (result : Result Machine)
    → IsSettled s
    → RefreshCalls s t
    → RefreshCall t result
    → Safely (IsKept s) result
RefreshCalls-IsSafe s t result settled calls call =
    let (before, quiet) = RefreshCalls-IsKept s t settled calls in
    Safely-map (IsKept t) (IsKept s) result (λ u (after, still). (after, IsQuiet-trans quiet still))
      (RefreshCall-IsKept t result before call)
