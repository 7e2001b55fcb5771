-- ===== src/Client/Discovery/Safety.antt =====
-- The refresh over the calls of service discovery (r_dns_start_refresh, r_dns_srv_cb_fn,
-- r_dns_addr_cb_fn).
use rl_c_client.Prelude.{
  ℕ, ◌<◌, ◌≡◌, refl, sym, ◌∙◌, Bool, true, false, Option, none, some, List, [], ◌∷◌, arith,
}
use rl_c_client.Prelude.Results.{ClientError, ok}
use rl_c_client.Client.Machine.{SrvRecord, Lookup, Refresh, Machine}
use rl_c_client.Client.Discovery.{
  parse_server_id_from_target, find_lookup, dns_lookup_finish, dns_addr_cb, new_lookup,
  dns_schedule_addr_lookup, min_ttl, schedule_records, set_min_ttl, srv_records, dns_srv_cb,
}
use rl_c_client.Client.Discovery.Lookups.{find_lookup-below, open_count-unlink}
use rl_c_client.Client.Discovery.Live.{
  IsLive, Safely, Finished, ended, going, with_refresh, with_lookup, dns_lookup_finish-Finished,
  Safely-map, dns_addr_cb-Finished,
}
use rl_c_client.Client.Discovery.Scheduled.{
  Extends, Scheduled, over, on, IsCallback, Safely-bind, IsNew, schedule-Scheduled,
}

pub new_lookup-IsNew :
    (port server_id : ℕ) (has_server_id : Bool) (id : ℕ)
    → IsNew id (new_lookup id port server_id has_server_id)
new_lookup-IsNew port server_id has_server_id id = record {
  address = refl;
  open_yet = refl;
  in_call = refl;
}

addr-IsCallback : IsCallback dns_addr_cb
addr-IsCallback l status found s r live linked open_yet in_call =
    dns_addr_cb-Finished l status found s r live linked open_yet

-- Some step in a refresh that cannot end.
abbrev Extended : Machine → Refresh → Machine → Type 0
Extended s r t = (r' : Refresh) × Extends s r t r'

unchanged : (s : Machine) (r : Refresh) → IsLive s r → Extended s r s
unchanged s r live = (
  r,
  record {
    live = live;
    scheduling = refl;
    later = omega arith;
    others = λ k below. refl;
    more = omega arith;
  },
)

Extends-trans :
    {s : Machine} {r : Refresh} {t : Machine} {r' : Refresh} {u : Machine} {r2 : Refresh}
    → Extends s r t r'
    → Extends t r' u r2
    → Extends s r u r2
Extends-trans p q = record {
  live = q.live;
  scheduling = q.scheduling ∙ p.scheduling;
  later = omega (arith, p.later, q.later);
  others = λ k below. q.others k (omega (arith, p.later, below)) ∙ p.others k below;
  more = omega (arith, p.more, q.more);
}

Scheduled-Extended :
    (s : Machine) (r : Refresh) (done : ClientError × Machine)
    → 0 < r.pending
    → Scheduled s r done
    → Extended s r done.1
Scheduled-Extended s r _ waiting (over rc t gone idle none_left calm) =
    absurd (omega (arith, waiting, none_left))
Scheduled-Extended s r _ waiting (on rc t r' longer busy) = (r', longer)

dns_schedule_addr_lookup-Extended :
    (name : List ℕ) (port server_id : ℕ) (has_server_id : Bool) (s : Machine) (r : Refresh)
    → IsLive s r
    → 0 < r.pending
    → Safely (Extended s r) (dns_schedule_addr_lookup name port server_id has_server_id s)
unfolding dns_schedule_addr_lookup
dns_schedule_addr_lookup-Extended name port server_id has_server_id s r live waiting =
    Safely-bind (Scheduled s r) (Extended s r) _ _
      (schedule-Scheduled name (λ id. new_lookup id port server_id has_server_id)
        s.host.addr_replies dns_addr_cb (new_lookup-IsNew port server_id has_server_id)
        addr-IsCallback s r live)
      λ done sched. Scheduled-Extended s r done waiting sched

by_target-Extended :
    (target : List ℕ) (port : ℕ) (named : Option ℕ) (s : Machine) (r : Refresh)
    → IsLive s r
    → 0 < r.pending
    → Safely
        (Extended s r)
        (elim named [ none ↦ ok s | some id ↦ dns_schedule_addr_lookup target port id true s ])
by_target-Extended target port none s r live waiting = unchanged s r live
by_target-Extended target port (some id) s r live waiting =
    dns_schedule_addr_lookup-Extended target port id true s r live waiting

schedule_records-Extended :
    (recs : List SrvRecord) (s : Machine) (r : Refresh)
    → IsLive s r
    → 0 < r.pending
    → Safely (Extended s r) (schedule_records recs s)
unfolding schedule_records
schedule_records-Extended [] s r live waiting = unchanged s r live
schedule_records-Extended (rec ∷ recs) s r live waiting =
    Safely-bind (Extended s r) (Extended s r) _ (schedule_records recs)
      (by_target-Extended rec.target rec.port (parse_server_id_from_target rec.target) s r live
        waiting)
      λ t (r', first).
        Safely-map (Extended t r') (Extended s r) (schedule_records recs t)
          (λ u (r2, others). (r2, Extends-trans first others))
          (schedule_records-Extended recs t r' first.live (omega (arith, waiting, first.more)))

set_min_ttl-Extended :
    (ttl : ℕ) (s : Machine) (r : Refresh) → IsLive s r → Safely (Extended s r) (set_min_ttl ttl s)
set_min_ttl-Extended ttl s r live = with_refresh (Extended s r) s r _ live.refresh (
  record r { min_ttl_ms = ttl },
  record {
    live = record { refresh = refl; sorted = live.sorted; counted = live.counted };
    scheduling = refl;
    later = omega arith;
    others = λ k below. refl;
    more = omega arith;
  },
)

srv_records-Extended :
    (status : Bool) (recs : List SrvRecord) (s : Machine) (r : Refresh)
    → IsLive s r
    → 0 < r.pending
    → Safely (Extended s r) (srv_records status recs s)
unfolding srv_records
srv_records-Extended false recs s r live waiting = unchanged s r live
srv_records-Extended true [] s r live waiting = unchanged s r live
srv_records-Extended true (rec ∷ recs) s r live waiting =
    let ttl = min_ttl 0 (rec ∷ recs) in
    Safely-bind (Extended s r) (Extended s r) (schedule_records (rec ∷ recs) s) (set_min_ttl ttl)
      (schedule_records-Extended (rec ∷ recs) s r live waiting)
      λ t (r', first).
        Safely-map (Extended t r') (Extended s r) (set_min_ttl ttl t)
          (λ u (r2, last). (r2, Extends-trans first last))
          (set_min_ttl-Extended ttl t r' first.live)

-- A lookup's end, seen from before the lookups that it has started.
Finished-Extended :
    (l : Lookup) (s : Machine) (r : Refresh) (t : Machine) (r' : Refresh) (u : Machine)
    → l.id < s.host.calls
    → Extends s r t r'
    → Finished l t r' u
    → Finished l s r u
Finished-Extended l s r t r' u below first (ended gone idle few calm) =
    ended gone idle (omega (arith, few, first.more)) (sym first.scheduling ∙ calm)
Finished-Extended l s r t r' u below first (going r2 kept more busy itself) =
    going r2
      (record {
        live = kept.live;
        scheduling = kept.scheduling ∙ first.scheduling;
        later = omega (arith, first.later, kept.later);
        others = λ k ne under.
            kept.others k ne (omega (arith, first.later, under)) ∙ first.others k under;
      })
      (omega (arith, first.more, more)) busy itself

waiting_for :
    (l : Lookup) (s : Machine) (r : Refresh)
    → IsLive s r
    → find_lookup l.id r.lookups ≡ some l
    → l.completed ≡ false
    → 0 < r.pending
waiting_for l s r live linked open_yet =
    ground (arith, live.counted, open_count-unlink l.id l r.lookups linked)

pub dns_srv_cb-Finished :
    (l : Lookup) (status : Bool) (recs : List SrvRecord) (s : Machine) (r : Refresh)
    → IsLive s r
    → find_lookup l.id r.lookups ≡ some l
    → l.completed ≡ false
    → Safely (Finished l s r) (dns_srv_cb l.id status recs s)
unfolding dns_srv_cb
dns_srv_cb-Finished l status recs s r live linked open_yet =
    let below = find_lookup-below l.id s.host.calls r.lookups l live.sorted linked in
    with_refresh (Finished l s r) s r _ live.refresh (
      with_lookup (Finished l s r) l.id r l _ linked (
        Safely-bind (Extended s r) (Finished l s r) (srv_records status recs s) _
          (srv_records-Extended status recs s r live (waiting_for l s r live linked open_yet))
          λ t (r', first).
            Safely-map (Finished l t r') (Finished l s r) (dns_lookup_finish l.id t)
              (λ u f. Finished-Extended l s r t r' u below first f)
              (dns_lookup_finish-Finished l t r' first.live (first.others l.id below ∙ linked)
                open_yet)))
