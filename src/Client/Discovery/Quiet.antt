-- ===== src/Client/Discovery/Quiet.antt =====
-- Service discovery and the requests in flight (r_dns_maybe_refresh).
use rl_c_client.Prelude.{
  if◌then◌else◌, Bool-cases, length, ℕ, refl, inl, inr, Bool, true, false, Option, none, some, List,
  [], ◌∷◌, arith,
}
use rl_c_client.Prelude.Results.{
  ClientError, Result, ok, err, fault, ◌>>=◌, Ensures, >>=-Ensures, >>=-Ensures_any,
}
use rl_c_client.Client.Machine.{Addr, SrvRecord, Reply, Lookup, Refresh, Machine, alloc}
use rl_c_client.Client.Complete.Effects.{
  IsQuiet, IsQuiet-refl, IsQuiet-trans, now_ms-IsQuiet, alloc-IsQuiet, make_room-IsQuiet,
}
use rl_c_client.Client.Discovery.{
  parse_server_id_from_target, D, the_refresh, put_refresh, the_lookup, dns_refresh_add_endpoint,
  dns_refresh_finish, dns_refresh_maybe_complete, complete_lookup, dns_lookup_finish, endpoint_of,
  add_addrs, dns_addr_cb, begin_lookup, settle_lookup, end_schedule, new_lookup, ask, early_call,
  schedule, dns_schedule_addr_lookup, min_ttl, schedule_records, set_min_ttl, srv_records,
  dns_srv_cb,
}

-- A step of discovery completes nothing and leaves the requests alone.
abbrev pub Stays : Machine → Result Machine → Type 0
Stays s = Ensures (IsQuiet s)

pub Stays-after : {s t : Machine} (m : Result Machine) → IsQuiet s t → Stays t m → Stays s m
Stays-after (ok u) q h = IsQuiet-trans q h
Stays-after (err e) q h = tt
Stays-after fault q h = tt

Stays-bind :
    {s : Machine} (m : Result Machine) (f : Machine → Result Machine)
    → Stays s m
    → ((t : Machine) → IsQuiet s t → Stays s (f t))
    → Stays s (m >>= f)
Stays-bind (ok t) f h k = k t h
Stays-bind (err e) f h k = tt
Stays-bind fault f h k = tt

-- With the refresh, or the lookup, that a step reads.
Stays-refresh :
    (s t : Machine) (f : Refresh → Result Machine)
    → ((r : Refresh) → Stays s (f r))
    → Stays s (the_refresh t >>= f)
Stays-refresh s t f k = >>=-Ensures_any (IsQuiet s) (the_refresh t) f (λ r e. k r)

Stays-lookup :
    (s : Machine) (id : ℕ) (r : Refresh) (f : Lookup → Result Machine)
    → ((l : Lookup) → Stays s (f l))
    → Stays s (the_lookup id r >>= f)
Stays-lookup s id r f k = >>=-Ensures_any (IsQuiet s) (the_lookup id r) f (λ l e. k l)

pub put_refresh-IsQuiet : (r : Refresh) (s : Machine) → IsQuiet s (put_refresh r s)
put_refresh-IsQuiet r s = record {
  inflight = refl;
  policy = refl;
  completions = refl;
  called = refl;
}

dns_refresh_finish-IsQuiet : (r : Refresh) (s : Machine) → IsQuiet s (dns_refresh_finish r s)
unfolding dns_refresh_finish
dns_refresh_finish-IsQuiet r s = ground (arith, now_ms-IsQuiet s)

dns_refresh_maybe_complete-Stays : (s : Machine) → Stays s (dns_refresh_maybe_complete s)
unfolding dns_refresh_maybe_complete
dns_refresh_maybe_complete-Stays s =
    Stays-refresh s s _ λ r. ground (arith, dns_refresh_finish-IsQuiet r s, IsQuiet-refl s)

dns_lookup_finish-Stays : (id : ℕ) (s : Machine) → Stays s (dns_lookup_finish id s)
unfolding dns_lookup_finish
dns_lookup_finish-Stays id s = Stays-refresh s s _ λ r. Stays-lookup s id r _ λ l.
    let t = put_refresh (complete_lookup l r) s in
    Stays-after (dns_refresh_maybe_complete t) (put_refresh-IsQuiet (complete_lookup l r) s)
      (dns_refresh_maybe_complete-Stays t)

add_addrs-IsQuiet :
    (l : Lookup) (addrs : List Addr) (r : Refresh) (s : Machine)
    → IsQuiet s (add_addrs l addrs r s).1
unfolding add_addrs dns_refresh_add_endpoint
add_addrs-IsQuiet l [] r s = IsQuiet-refl s
add_addrs-IsQuiet l (a ∷ rest) r s =
    let (r', s') = dns_refresh_add_endpoint (endpoint_of l (s.host.with_port a l.port)) r s in
    IsQuiet-trans (make_room-IsQuiet (length r.endpoints) r.endpoint_cap s)
      (add_addrs-IsQuiet l rest r' s')

pub dns_addr_cb-Stays :
    (id : ℕ) (status : Bool) (addrs : List Addr) (s : Machine)
    → Stays s (dns_addr_cb id status addrs s)
unfolding dns_addr_cb
dns_addr_cb-Stays id status addrs s = Stays-refresh s s _ λ r. Stays-lookup s id r _ λ l.
    let (r', s') = add_addrs l (if status then addrs else []) r s in
    let t = put_refresh r' s' in
    Stays-after (dns_lookup_finish id t)
      (IsQuiet-trans (add_addrs-IsQuiet l (if status then addrs else []) r s)
        (put_refresh-IsQuiet r' s'))
      (dns_lookup_finish-Stays id t)

end_schedule-Stays :
    (accepted : Bool) (req_id id : ℕ) (s : Machine) → Stays s (end_schedule accepted req_id id s)
unfolding end_schedule
end_schedule-Stays accepted req_id id s = Stays-refresh s s _ λ r. Stays-lookup s id r _ λ l.
    let r' = settle_lookup accepted req_id l r in
    Stays-after (dns_refresh_maybe_complete (put_refresh r' s)) (put_refresh-IsQuiet r' s)
      (dns_refresh_maybe_complete-Stays (put_refresh r' s))

ask-IsQuiet : (name : List ℕ) (s : Machine) → IsQuiet s (ask name s)
ask-IsQuiet name s = record { inflight = refl; policy = refl; completions = refl; called = refl }

-- The machine behind a status.
abbrev StaysWith : Machine → Result (ClientError × Machine) → Type 0
StaysWith s = Ensures (λ done. IsQuiet s done.1)

early_call-Stays :
    {A : Type 0} (answer : Option (Bool × List A)) (call_back : Bool → List A → D) (s : Machine)
    → ((status : Bool) (found : List A) (t : Machine) → Stays t (call_back status found t))
    → Stays s (early_call answer call_back s)
early_call-Stays none call_back s h = IsQuiet-refl s
early_call-Stays (some (status, found)) call_back s h = h status found s

pub schedule-Stays :
    {A : Type 0} (name : List ℕ) (lookup : ℕ → Lookup) (replies : ℕ → Reply A)
    (call_back : ℕ → Bool → List A → D) (s : Machine)
    → ((id : ℕ) (status : Bool) (found : List A) (t : Machine)
        → Stays t (call_back id status found t))
    → StaysWith s (schedule name lookup replies call_back s)
unfolding schedule
schedule-Stays name lookup replies call_back s h =
    let Q = λ (done : ClientError × Machine). IsQuiet s done.1 in
    let s1 = (alloc s).1 in
    let quiet = alloc-IsQuiet s in
    >>=-Ensures_any Q (the_refresh s) _ λ r _.
      let s2 = ask name (put_refresh (begin_lookup (lookup s.host.calls) r) s1) in
      let begun = IsQuiet-trans quiet (
        IsQuiet-trans (put_refresh-IsQuiet (begin_lookup (lookup s.host.calls) r) s1)
          (ask-IsQuiet name (put_refresh (begin_lookup (lookup s.host.calls) r) s1))) in
      elim (Bool-cases (alloc s).0) [
        | inr failed ↦ rw failed quiet
        | inl works ↦ rw works (
            >>=-Ensures (IsQuiet s2) Q
              (early_call (replies s1.host.calls).answer (call_back s.host.calls) s2) _
              (early_call-Stays (replies s1.host.calls).answer (call_back s.host.calls) s2
                (h s.host.calls))
              λ t _ q.
                >>=-Ensures (IsQuiet t) Q
                  (end_schedule (replies s1.host.calls).accepted (replies s1.host.calls).req_id
                    s.host.calls t)
                  _
                  (end_schedule-Stays (replies s1.host.calls).accepted
                    (replies s1.host.calls).req_id s.host.calls t)
                  λ u _ q'. IsQuiet-trans begun (IsQuiet-trans q q'))
      ]

dns_schedule_addr_lookup-Stays :
    (name : List ℕ) (port server_id : ℕ) (has_server_id : Bool) (s : Machine)
    → Stays s (dns_schedule_addr_lookup name port server_id has_server_id s)
unfolding dns_schedule_addr_lookup
dns_schedule_addr_lookup-Stays name port server_id has_server_id s =
    >>=-Ensures (λ (done : ClientError × Machine). IsQuiet s done.1) (IsQuiet s)
      (schedule name (λ id. new_lookup id port server_id has_server_id) s.host.addr_replies
        dns_addr_cb s)
      _
      (schedule-Stays name (λ id. new_lookup id port server_id has_server_id) s.host.addr_replies
        dns_addr_cb s dns_addr_cb-Stays)
      λ done _ q. q

by_target :
    (target : List ℕ) (port : ℕ) (named : Option ℕ) (s : Machine)
    → Stays s
        (elim named [ none ↦ ok s | some id ↦ dns_schedule_addr_lookup target port id true s ])
by_target target port none s = IsQuiet-refl s
by_target target port (some id) s = dns_schedule_addr_lookup-Stays target port id true s

schedule_records-Stays : (recs : List SrvRecord) (s : Machine) → Stays s (schedule_records recs s)
unfolding schedule_records
schedule_records-Stays [] s = IsQuiet-refl s
schedule_records-Stays (rec ∷ recs) s =
    Stays-bind _ (schedule_records recs)
      (by_target rec.target rec.port (parse_server_id_from_target rec.target) s)
      λ t q. Stays-after (schedule_records recs t) q (schedule_records-Stays recs t)

srv_records-Stays :
    (status : Bool) (recs : List SrvRecord) (s : Machine) → Stays s (srv_records status recs s)
unfolding srv_records
srv_records-Stays false recs s = IsQuiet-refl s
srv_records-Stays true [] s = IsQuiet-refl s
srv_records-Stays true (rec ∷ recs) s =
    let ttl = min_ttl 0 (rec ∷ recs) in
    Stays-bind (schedule_records (rec ∷ recs) s) (set_min_ttl ttl)
      (schedule_records-Stays (rec ∷ recs) s)
      λ t q.
        Stays-refresh s t _
          λ r. IsQuiet-trans q (put_refresh-IsQuiet (record r { min_ttl_ms = ttl }) t)

pub dns_srv_cb-Stays :
    (id : ℕ) (status : Bool) (recs : List SrvRecord) (s : Machine)
    → Stays s (dns_srv_cb id status recs s)
unfolding dns_srv_cb
dns_srv_cb-Stays id status recs s = Stays-refresh s s _ λ r. Stays-lookup s id r _ λ l.
    Stays-bind (srv_records status recs s) (dns_lookup_finish id) (srv_records-Stays status recs s)
      λ t q. Stays-after (dns_lookup_finish id t) q (dns_lookup_finish-Stays id t)
