-- ===== src/Client/Discovery/Steps.antt =====
-- Service discovery between the calls of the host (r_dns_start_refresh, r_dns_srv_cb_fn,
-- r_dns_addr_cb_fn).
use rl_c_client.Prelude.{
  leb, ◌==◌, if◌then◌else◌, if_both, if_cases, length, ◌+◌, ◌<◌, ◌≡◌, refl, sym, ◌∙◌, subst, ◌≢◌,
  inl, inr, Bool, true, false, not, ◌&&◌, Option, none, some, List, ◌++◌, arith,
}
use rl_c_client.Prelude.Results.{
  ClientError, rclient_ok, err_io, err_timeout, err_protocol, err_auth, err_dns, err_config,
  err_nomem, Result, ok,
}
use rl_c_client.Client.Machine.{Addr, SrvRecord, Lookup, Refresh, Machine, alloc}
use rl_c_client.Client.Discovery.{set_discovery, find_lookup, dns_addr_cb, new_lookup, dns_srv_cb}
use rl_c_client.Client.Discovery.Start.{
  dns_schedule_srv_lookup, new_refresh, srv_prefix, drop_idle, dns_start_refresh,
}
use rl_c_client.Client.Discovery.Lookups.{Descends-mono}
use rl_c_client.Client.Discovery.Live.{
  IsLive, Safely, Finished, ended, going, Safely-map, dns_addr_cb-Finished,
}
use rl_c_client.Client.Discovery.Scheduled.{
  Busy, Scheduled, over, on, IsCallback, Safely-bind, schedule-Scheduled,
}
use rl_c_client.Client.Discovery.Safety.{new_lookup-IsNew, dns_srv_cb-Finished}

-- Between calls: no refresh, or one that counts its pending lookups, of which there is at least
-- one, outside any resolver's call.
pub data IsSettled (s : Machine) : Type 0 where
  no_refresh : s.client.discovery.refresh ≡ none → IsSettled s
  running : (r : Refresh) → IsLive s r → r.scheduling ≡ 0 → 0 < r.pending → IsSettled s

-- A call, and what it results in: the start of a refresh, forced or not, or a callback for a lookup
-- that is pending.
pub data DiscoveryCall (s : Machine) : Result Machine → Type 0 where
  starts : DiscoveryCall s (dns_start_refresh s)
  addresses :
      (l : Lookup) (r : Refresh) (status : Bool) (addrs : List Addr)
      → s.client.discovery.refresh ≡ some r
      → find_lookup l.id r.lookups ≡ some l
      → l.completed ≡ false
      → DiscoveryCall s (dns_addr_cb l.id status addrs s)
  services :
      (l : Lookup) (r : Refresh) (status : Bool) (recs : List SrvRecord)
      → s.client.discovery.refresh ≡ some r
      → find_lookup l.id r.lookups ≡ some l
      → l.completed ≡ false
      → DiscoveryCall s (dns_srv_cb l.id status recs s)

some-inj : {A : Type 0} {a b : A} → some a ≡ some b → a ≡ b
some-inj e = cc

none_not_some : {A : Type 0} {a : A} → none ≢ some a
none_not_some e = cc

Busy-pending : (r : Refresh) → r.scheduling ≡ 0 → Busy r → 0 < r.pending
Busy-pending r calm (inl some_left) = some_left
Busy-pending r calm (inr calling) = absurd (omega arith)

alloc-IsSettled : (s : Machine) → IsSettled s → IsSettled (alloc s).1
unfolding alloc
alloc-IsSettled s (no_refresh e) = no_refresh e
alloc-IsSettled s (running r live calm waiting) =
    running r
      (record {
        refresh = live.refresh;
        sorted = Descends-mono s.host.calls (s.host.calls + 1) r.lookups (omega arith) live.sorted;
        counted = live.counted;
      })
      calm waiting

-- The end of `r_dns_start_refresh` after an error.
abbrev dropped : Machine → Machine
dropped s = elim s.client.discovery.refresh [
  | none ↦ s
  | some r ↦
      if (r.pending == 0) && (r.scheduling == 0)
      then set_discovery
          (record s.client.discovery { dns_refresh_inflight = false; refresh = none }) s
      else s
]

dropped_by :
    (s : Machine) (o : Option Refresh)
    → s.client.discovery.refresh ≡ o
    → ((r : Refresh) → o ≡ some r → IsLive s r × (r.scheduling ≡ 0))
    → IsSettled (elim o [
      | none ↦ s
      | some r ↦
          if (r.pending == 0) && (r.scheduling == 0)
          then set_discovery
              (record s.client.discovery { dns_refresh_inflight = false; refresh = none })
              s
          else s
    ])
dropped_by s none e h = no_refresh e
dropped_by s (some r) e h =
    let (live, calm) = h r refl in
    if_cases IsSettled ((r.pending == 0) && (r.scheduling == 0)) _ s (λ idle. no_refresh refl)
      (λ busy. running r live calm (ground arith))

-- What the scheduled lookup leaves, with the idle refresh dropped.
Scheduled-IsSettled :
    (begun : Machine) (rc : ClientError) (t : Machine)
    → Scheduled begun new_refresh (rc, t)
    → (rc ≡ rclient_ok → IsSettled t) × IsSettled (dropped t)
Scheduled-IsSettled begun _ _ (over rc t gone idle none_left calm) = (
  λ e. no_refresh gone,
  dropped_by t t.client.discovery.refresh refl (λ r e. absurd (none_not_some (sym gone ∙ e))),
)
Scheduled-IsSettled begun _ _ (on rc t r' longer busy) = (
  λ e. running r' longer.live longer.scheduling (Busy-pending r' longer.scheduling (busy e)),
  dropped_by t t.client.discovery.refresh refl (λ r e.
      let same : r' ≡ r = some-inj (sym longer.live.refresh ∙ e) in
      (subst (IsLive t) same longer.live, subst (λ x. x.scheduling ≡ 0) same longer.scheduling)),
)

drop_idle-IsSettled :
    (begun : Machine) (done : ClientError × Machine)
    → Scheduled begun new_refresh done
    → IsSettled (drop_idle done)
unfolding drop_idle
drop_idle-IsSettled begun (rclient_ok, t) h = (Scheduled-IsSettled begun rclient_ok t h).0 refl
drop_idle-IsSettled begun (err_io, t) h = (Scheduled-IsSettled begun err_io t h).1
drop_idle-IsSettled begun (err_timeout, t) h = (Scheduled-IsSettled begun err_timeout t h).1
drop_idle-IsSettled begun (err_protocol, t) h = (Scheduled-IsSettled begun err_protocol t h).1
drop_idle-IsSettled begun (err_auth, t) h = (Scheduled-IsSettled begun err_auth t h).1
drop_idle-IsSettled begun (err_dns, t) h = (Scheduled-IsSettled begun err_dns t h).1
drop_idle-IsSettled begun (err_config, t) h = (Scheduled-IsSettled begun err_config t h).1
drop_idle-IsSettled begun (err_nomem, t) h = (Scheduled-IsSettled begun err_nomem t h).1

srv-IsCallback : IsCallback dns_srv_cb
srv-IsCallback l status found s r live linked open_yet in_call =
    dns_srv_cb-Finished l status found s r live linked open_yet

pub dns_start_refresh-Safely : (s : Machine) → IsSettled s → Safely IsSettled (dns_start_refresh s)
unfolding dns_start_refresh dns_schedule_srv_lookup
dns_start_refresh-Safely s settled =
    let s1 = (alloc s).1 in
    let kept = alloc-IsSettled s settled in
    let d = s.client.discovery in
    let begun =
      set_discovery (record d { dns_refresh_inflight = true; refresh = some new_refresh }) s1 in
    let live : IsLive begun new_refresh = record { refresh = refl; sorted = tt; counted = refl } in
    let name = srv_prefix ++ d.dns_name in
    let run =
      Safely-bind (Scheduled begun new_refresh) IsSettled (dns_schedule_srv_lookup name begun)
        (λ done. ok (drop_idle done))
        (schedule-Scheduled name (λ id. new_lookup id 0 0 false) begun.host.srv_replies dns_srv_cb
          (new_lookup-IsNew 0 0 false) srv-IsCallback begun new_refresh live)
        (λ done h. drop_idle-IsSettled begun done h) in
    if_both (Safely IsSettled) d.dns_refresh_inflight _ _ settled (
      if_both (Safely IsSettled) (not (alloc s).0) _ _ kept
        (if_both (Safely IsSettled) (leb 512 (length name)) _ _ kept run))

Finished-IsSettled :
    (l : Lookup) (s : Machine) (r : Refresh) (t : Machine)
    → r.scheduling ≡ 0
    → Finished l s r t
    → IsSettled t
Finished-IsSettled l s r t calm (ended gone idle few none_running) = no_refresh gone
Finished-IsSettled l s r t calm (going r' kept more busy itself) =
    let still = kept.scheduling ∙ calm in running r' kept.live still (Busy-pending r' still busy)

-- A pending lookup is one of the refresh that runs.
with_running :
    (s : Machine) (r : Refresh) (B : Type 0)
    → IsSettled s
    → s.client.discovery.refresh ≡ some r
    → (IsLive s r → r.scheduling ≡ 0 → B)
    → B
with_running s r B (no_refresh gone) e k = absurd (none_not_some (sym gone ∙ e))
with_running s r B (running r0 live calm waiting) e k =
    let same : r0 ≡ r = some-inj (sym live.refresh ∙ e) in
    k (subst (IsLive s) same live) (subst (λ x. x.scheduling ≡ 0) same calm)

-- The start of a refresh and the callbacks of its lookups, each as often as the resolver likes for
-- a lookup that is pending, and also before the resolver's call has returned, never touch a refresh
-- or a lookup that has been freed. After each of them there is no refresh, or one that counts its
-- pending lookups exactly and waits for at least one; so a refresh never stays behind with nothing
-- to wait for. This holds before the call too.
pub DiscoveryCall-IsSettled :
    (s : Machine) (result : Result Machine)
    → IsSettled s
    → DiscoveryCall s result
    → Safely IsSettled result
DiscoveryCall-IsSettled s _ settled starts = dns_start_refresh-Safely s settled
DiscoveryCall-IsSettled s _ settled (addresses l r status addrs e linked open_yet) =
    with_running s r (Safely IsSettled (dns_addr_cb l.id status addrs s)) settled e λ live calm.
      Safely-map (Finished l s r) IsSettled (dns_addr_cb l.id status addrs s)
        (λ t f. Finished-IsSettled l s r t calm f)
        (dns_addr_cb-Finished l status addrs s r live linked open_yet)
DiscoveryCall-IsSettled s _ settled (services l r status recs e linked open_yet) =
    with_running s r (Safely IsSettled (dns_srv_cb l.id status recs s)) settled e λ live calm.
      Safely-map (Finished l s r) IsSettled (dns_srv_cb l.id status recs s)
        (λ t f. Finished-IsSettled l s r t calm f)
        (dns_srv_cb-Finished l status recs s r live linked open_yet)
