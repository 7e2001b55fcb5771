-- ===== src/Client/Discovery/QuietStart.antt =====
-- The start of a refresh and the requests in flight (r_dns_start_refresh, r_dns_maybe_refresh).
use rl_c_client.Prelude.{if_both, leb, length, ℕ, Bool, true, false, not, some, ◌++◌, arith}
use rl_c_client.Prelude.Results.{
  ClientError, rclient_ok, err_io, err_timeout, err_protocol, err_auth, err_dns, err_config,
  err_nomem, ok, >>=-Ensures, >>=-Ensures_any,
}
use rl_c_client.Client.Machine.{Discovery, Machine, now_ms, alloc}
use rl_c_client.Client.Complete.Effects.{
  IsQuiet, IsQuiet-refl, IsQuiet-trans, now_ms-IsQuiet, alloc-IsQuiet, rand_bytes-IsQuiet,
}
use rl_c_client.Client.Discovery.{set_discovery, new_lookup, dns_srv_cb}
use rl_c_client.Client.Discovery.Start.{
  dns_schedule_srv_lookup, new_refresh, srv_prefix, drop_idle, dns_start_refresh, rand_range,
  forced_interval, is_due, is_early, dns_maybe_refresh,
}
use rl_c_client.Client.Discovery.Quiet.{Stays, Stays-after, schedule-Stays, dns_srv_cb-Stays}

drop_idle-IsQuiet : (done : ClientError × Machine) → IsQuiet done.1 (drop_idle done)
unfolding drop_idle
drop_idle-IsQuiet (rclient_ok, s) = IsQuiet-refl s
drop_idle-IsQuiet (err_io, s) = ground arith
drop_idle-IsQuiet (err_timeout, s) = ground arith
drop_idle-IsQuiet (err_protocol, s) = ground arith
drop_idle-IsQuiet (err_auth, s) = ground arith
drop_idle-IsQuiet (err_dns, s) = ground arith
drop_idle-IsQuiet (err_config, s) = ground arith
drop_idle-IsQuiet (err_nomem, s) = ground arith

set_discovery-IsQuiet :
    (s t : Machine) (d : Discovery) → IsQuiet s t → IsQuiet s (set_discovery d t)
set_discovery-IsQuiet s t d q = record {
  inflight = q.inflight;
  policy = q.policy;
  completions = q.completions;
  called = q.called;
}

pub dns_start_refresh-Stays : (s : Machine) → Stays s (dns_start_refresh s)
unfolding dns_start_refresh dns_schedule_srv_lookup
dns_start_refresh-Stays s =
    let s1 = (alloc s).1 in
    let quiet = alloc-IsQuiet s in
    let d = s.client.discovery in
    let s2 =
      set_discovery (record d { dns_refresh_inflight = true; refresh = some new_refresh }) s1 in
    let name = srv_prefix ++ d.dns_name in
    let begun =
      set_discovery-IsQuiet s s1
        (record d { dns_refresh_inflight = true; refresh = some new_refresh }) quiet in
    let run =
      >>=-Ensures (λ (done : ClientError × Machine). IsQuiet s2 done.1) (IsQuiet s)
        (dns_schedule_srv_lookup name s2) (λ done. ok (drop_idle done))
        (schedule-Stays name (λ id. new_lookup id 0 0 false) s2.host.srv_replies dns_srv_cb s2
          dns_srv_cb-Stays)
        (λ done _ q. IsQuiet-trans begun (IsQuiet-trans q (drop_idle-IsQuiet done))) in
    if_both (Stays s) d.dns_refresh_inflight _ _ (IsQuiet-refl s) (
      if_both (Stays s) (not (alloc s).0) _ _ quiet
        (if_both (Stays s) (leb 512 (length name)) _ _ quiet run))

rand_range-IsQuiet : (max : ℕ) (s : Machine) → IsQuiet s (rand_range max s).1
unfolding rand_range
rand_range-IsQuiet max s = ground (arith, rand_bytes-IsQuiet 8 s)

forced_interval-IsQuiet : (s : Machine) → IsQuiet s (forced_interval s).1
unfolding forced_interval
forced_interval-IsQuiet s = rand_range-IsQuiet s.client.discovery.forced_refresh_jitter_ms s

-- A refresh, forced or not, whatever the resolver answers before it returns: if it returns, the
-- requests in flight and the policy are as they were and nothing is completed.
pub dns_maybe_refresh-Stays : (force : Bool) (s : Machine) → Stays s (dns_maybe_refresh force s)
unfolding dns_maybe_refresh
dns_maybe_refresh-Stays false s =
    let (now, s1) = now_ms s in
    let quiet = now_ms-IsQuiet s in
    if_both (Stays s) (is_due s.client.discovery now) (dns_start_refresh s1) (ok s1)
      (Stays-after (dns_start_refresh s1) quiet (dns_start_refresh-Stays s1)) quiet
dns_maybe_refresh-Stays true s =
    let (now, s1) = now_ms s in
    let (interval, s2) = forced_interval s1 in
    let quiet = IsQuiet-trans (now_ms-IsQuiet s) (forced_interval-IsQuiet s1) in
    >>=-Ensures_any (IsQuiet s) interval _ λ least _.
      if_both (Stays s) (is_early s.client.discovery now least) (ok s2) (dns_start_refresh s2) quiet
        (Stays-after (dns_start_refresh s2) quiet (dns_start_refresh-Stays s2))
