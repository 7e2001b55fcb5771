-- ===== src/Tests/Resolvers.antt =====
-- The theorem on service discovery at a concrete resolver.
use rl_c_client.Prelude.{replicate, length-replicate, ◌≡◌, arith, refl, true, none, some, [], ◌∷◌}
use rl_c_client.Prelude.Results.{ok, err, fault}
use rl_c_client.Client.Machine.{Machine, alloc}
use rl_c_client.Client.Discovery.{
  parse_server_id_from_target, dns_refresh_add_endpoint, find_lookup, store_lookup,
  dns_lookup_unlink, dns_refresh_finish, dns_refresh_maybe_complete, dns_lookup_finish, add_addrs,
  dns_addr_cb, schedule, end_schedule, dns_schedule_addr_lookup, schedule_records, srv_records,
  dns_srv_cb, server_id_of_label, decimal,
}
use rl_c_client.Client.Discovery.Start.{
  drop_idle, dns_schedule_srv_lookup, dns_start_refresh, dns_maybe_refresh,
}
use rl_c_client.Client.Discovery.Live.{Safely}
use rl_c_client.Client.Discovery.Steps.{IsSettled, no_refresh, starts, DiscoveryCall-IsSettled}
use rl_c_client.Client.Discovery.Jitter.{Fills}
use rl_c_client.Client.Discovery.Refreshes.{
  forced, resolver, first, later, IsKept, RefreshCalls-IsSafe,
}
use rl_c_client.Tests.Submissions.{idle}

-- The resolver answers the first query before it returns, with one server, whose addresses are to
-- come later.
abbrev resolving : Machine
resolving = record idle {
  host = record idle.host {
    srv_replies = λ n. record {
      accepted = true;
      req_id = 0;
      answer = some (true, record { target = 115 ∷ 45 ∷ 55 ∷ 46 ∷ []; port = 7; ttl_ms = 50 } ∷ []);
    };
    addr_replies = λ n. record { accepted = true; req_id = 4; answer = none };
  };
}

resolving-Fills : Fills resolving.host
resolving-Fills n k bytes e =
    let same : bytes ≡ replicate k 7 = ground arith in rw same (length-replicate k 7)

-- A refresh, and then a forced one.
abbrev asked_once : Machine
asked_once = elim (dns_start_refresh resolving) [ ok t ↦ t | err e ↦ resolving | fault ↦ resolving ]

asked_once-returned : dns_start_refresh resolving ≡ ok asked_once
unfolding dns_start_refresh dns_schedule_srv_lookup schedule alloc parse_server_id_from_target
    dns_refresh_add_endpoint find_lookup store_lookup dns_lookup_unlink dns_refresh_finish
    dns_refresh_maybe_complete dns_lookup_finish add_addrs dns_addr_cb end_schedule
    dns_schedule_addr_lookup schedule_records srv_records dns_srv_cb drop_idle server_id_of_label
    decimal
asked_once-returned = refl

asked_once-unjittered : asked_once.client.discovery.forced_refresh_jitter_ms ≡ 0
unfolding dns_start_refresh dns_schedule_srv_lookup schedule alloc parse_server_id_from_target
    dns_refresh_add_endpoint find_lookup store_lookup dns_lookup_unlink dns_refresh_finish
    dns_refresh_maybe_complete dns_lookup_finish add_addrs dns_addr_cb end_schedule
    dns_schedule_addr_lookup schedule_records srv_records dns_srv_cb drop_idle server_id_of_label
    decimal
asked_once-unjittered = refl

asked_once-Fills : Fills asked_once.host
unfolding dns_start_refresh dns_schedule_srv_lookup schedule alloc parse_server_id_from_target
    dns_refresh_add_endpoint find_lookup store_lookup dns_lookup_unlink dns_refresh_finish
    dns_refresh_maybe_complete dns_lookup_finish add_addrs dns_addr_cb end_schedule
    dns_schedule_addr_lookup schedule_records srv_records dns_srv_cb drop_idle server_id_of_label
    decimal
asked_once-Fills = resolving-Fills

RefreshCalls-IsSafe_example : Safely (IsKept resolving) (dns_maybe_refresh true asked_once)
RefreshCalls-IsSafe_example =
    RefreshCalls-IsSafe resolving asked_once (dns_maybe_refresh true asked_once) (no_refresh refl)
      (later resolving asked_once (dns_start_refresh resolving) first
        (resolver (dns_start_refresh resolving) starts) asked_once-returned)
      (forced (omega (arith, asked_once-unjittered)) asked_once-Fills)

DiscoveryCall-IsSettled_example : Safely IsSettled (dns_start_refresh resolving)
DiscoveryCall-IsSettled_example =
    DiscoveryCall-IsSettled resolving (dns_start_refresh resolving) (no_refresh refl) starts
