-- ===== src/Client/Discovery/Scheduled.antt =====
-- A lookup around its resolver's call (r_dns_schedule_addr_lookup, r_dns_schedule_srv_lookup).
use rl_c_client.Prelude.{
  ◌==◌, if◌then◌else◌, if_both, ℕ, ◌+◌, ◌≤◌, ◌<◌, ◌≡◌, refl, sym, ◌∙◌, subst, ◌≢◌, ◌⊎◌, Bool, true,
  false, not, Option, none, some, List, arith,
}
use rl_c_client.Prelude.Results.{
  ClientError, rclient_ok, err_dns, err_nomem, Result, ok, err, fault, ◌>>=◌,
}
use rl_c_client.Client.Machine.{Reply, Lookup, Refresh, Machine, alloc}
use rl_c_client.Client.Discovery.{
  D, put_refresh, find_lookup, dns_refresh_finish, begin_lookup, settle_lookup, end_schedule, ask,
  early_call, schedule,
}
use rl_c_client.Client.Discovery.Lookups.{
  Descends, open_count, Descends-mono, find_lookup-id, find_lookup-store, find_lookup-unlink,
  Descends-store, Descends-unlink, open_count-store, open_count-unlink,
}
use rl_c_client.Client.Discovery.Live.{
  IsLive, Safely, GoesOn, Finished, ended, going, dns_refresh_finish-ended, with_refresh,
  with_lookup, maybe_complete-Safely, Safely-map,
}

abbrev pub Busy : Refresh → Type 0
Busy r = (0 < r.pending) ⊎ (0 < r.scheduling)

-- The refresh with all the lookups that it had, and newer ones.
pub record Extends (s : Machine) (r : Refresh) (t : Machine) (r' : Refresh) : Type 0 where
  pub live : IsLive t r'
  pub scheduling : r'.scheduling ≡ r.scheduling
  pub later : s.host.calls ≤ t.host.calls
  pub others : (k : ℕ) → k < s.host.calls → find_lookup k r'.lookups ≡ find_lookup k r.lookups
  pub more : r.pending ≤ r'.pending

-- What a new lookup does: the refresh extends, or it has ended, which it does only if nothing was
-- pending. It is idle then only if the lookup was refused.
pub data Scheduled (s : Machine) (r : Refresh) : ClientError × Machine → Type 0 where
  over :
      (rc : ClientError) (t : Machine)
      → t.client.discovery.refresh ≡ none
      → t.client.discovery.dns_refresh_inflight ≡ false
      → r.pending ≡ 0
      → r.scheduling ≡ 0
      → Scheduled s r (rc, t)
  on :
      (rc : ClientError) (t : Machine) (r' : Refresh)
      → Extends s r t r'
      → (rc ≡ rclient_ok → Busy r')
      → Scheduled s r (rc, t)

-- The callbacks that a lookup may have.
abbrev pub IsCallback : {A : Type 0} → (ℕ → Bool → List A → D) → Type 0
IsCallback {A} call_back =
    (l : Lookup) (status : Bool) (found : List A) (s : Machine) (r : Refresh)
    → IsLive s r
    → find_lookup l.id r.lookups ≡ some l
    → l.completed ≡ false
    → l.in_resolver_call ≡ true
    → Safely (Finished l s r) (call_back l.id status found s)

-- The lookup after its resolver's call, which may have called back: it is still linked.
record Returned (id : ℕ) (s : Machine) (r : Refresh) (t : Machine) : Type 0 where
  r' : Refresh
  goes_on : GoesOn id s r t r'
  l : Lookup
  found : find_lookup id r'.lookups ≡ some l
  more : r.pending ≤ r'.pending + (if l.completed then 1 else 0)

module _ (l : Lookup) (s : Machine) (r : Refresh) (live : IsLive s r)
    (linked : find_lookup l.id r.lookups ≡ some l) (in_call : l.in_resolver_call ≡ true)
    (calling : 0 < r.scheduling) where
  untouched-Returned : l.completed ≡ false → Returned l.id s r s
  untouched-Returned open_yet = record {
    r' = r;
    goes_on = record {
      live = live;
      scheduling = refl;
      later = omega arith;
      others = λ k ne below. refl;
    };
    l = l;
    found = linked;
    more = omega arith;
  }

  Finished-Returned : (t : Machine) → Finished l s r t → Returned l.id s r t
  Finished-Returned t (ended gone idle few calm) = absurd (omega (arith, calm, calling))
  Finished-Returned t (going r' kept more busy itself) = record {
    r' = r';
    goes_on = kept;
    l = record l { completed = true };
    found = itself ∙ rw in_call refl;
    more = more;
  }

  early_call-Returned :
      {A : Type 0} (answer : Option (Bool × List A)) (call_back : ℕ → Bool → List A → D)
      → IsCallback call_back
      → l.completed ≡ false
      → Safely (Returned l.id s r) (early_call answer (call_back l.id) s)
  early_call-Returned none call_back safe open_yet = untouched-Returned open_yet
  early_call-Returned (some (status, found)) call_back safe open_yet =
      Safely-map (Finished l s r) (Returned l.id s r) (call_back l.id status found s)
        Finished-Returned (safe l status found s r live linked open_yet in_call)

-- What follows the resolver's call, in a refresh with that call running.
module _ (accepted : Bool) (req_id : ℕ) (l : Lookup) (s : Machine) (r : Refresh) (live : IsLive s r)
    (linked : find_lookup l.id r.lookups ≡ some l) where
  abbrev settled : Refresh
  settled = settle_lookup accepted req_id l r

  abbrev left : Lookup
  left = record l { in_resolver_call = false; req_id = if req_id == 0 then none else some req_id }

  settled-counted : settled.pending ≡ open_count settled.lookups
  settled-counted = ground (
    arith,
    live.counted,
    open_count-store left l r.lookups linked,
    open_count-unlink l.id l r.lookups linked,
  )

  settled-sorted : Descends s.host.calls settled.lookups
  settled-sorted = ground (
    arith,
    Descends-store s.host.calls left r.lookups live.sorted,
    Descends-unlink l.id s.host.calls r.lookups live.sorted,
  )

  settled-others : (k : ℕ) → k ≢ l.id → find_lookup k settled.lookups ≡ find_lookup k r.lookups
  settled-others k ne = ground (
    arith,
    find_lookup-store k left r.lookups,
    find_lookup-unlink k l.id s.host.calls r.lookups live.sorted,
  )

  settled-more : r.pending ≤ settled.pending + (if l.completed then 0 else 1)
  settled-more = ground arith

grows_by :
    {p p1 p2 p3 : ℕ} (done : Bool)
    → p1 ≤ p2 + (if done then 1 else 0)
    → p2 ≤ p3 + (if done then 0 else 1)
    → p1 ≡ p + 1
    → p ≤ p3
grows_by true a b c = omega arith
grows_by false a b c = omega arith

-- The end of a resolver's call for a lookup that was new in `r`, which was linked at `s`.
end_schedule-Scheduled :
    (accepted : Bool) (req_id : ℕ) (id : ℕ) (rc : ClientError) (s : Machine) (r : Refresh)
    (begun : Machine) (r1 : Refresh) (t : Machine)
    → s.host.calls ≤ id
    → s.host.calls ≤ begun.host.calls
    → ((k : ℕ) → k ≢ id → find_lookup k r1.lookups ≡ find_lookup k r.lookups)
    → r1.pending ≡ r.pending + 1
    → r1.scheduling ≡ r.scheduling + 1
    → Returned id begun r1 t
    → Safely (λ u. Scheduled s r (rc, u)) (end_schedule accepted req_id id t)
unfolding end_schedule
end_schedule-Scheduled accepted req_id id rc s r begun r1 t fresh later kept one_more one_call
      back =
    let r2 = back.r' in
    let l = back.l in
    let live = back.goes_on.live in
    let same : l.id ≡ id = find_lookup-id id r2.lookups l back.found in
    let linked : find_lookup l.id r2.lookups ≡ some l =
      subst (λ k. find_lookup k r2.lookups ≡ some l) (sym same) back.found in
    let r3 = settled accepted req_id l t r2 live linked in
    let u = put_refresh r3 t in
    let calls = back.goes_on.scheduling in
    let counted = settled-more accepted req_id l t r2 live linked in
    let back_more = back.more in
    let grows : r.pending ≤ r3.pending = grows_by l.completed back_more counted one_more in
    let level : r3.scheduling ≡ r.scheduling = omega arith in
    with_refresh (λ u. Scheduled s r (rc, u)) t r2 _ live.refresh
      (with_lookup (λ u. Scheduled s r (rc, u)) id r2 l _ back.found
        (maybe_complete-Safely (λ u. Scheduled s r (rc, u)) u r3 refl
          (λ p c.
            over rc (dns_refresh_finish r3 u) (dns_refresh_finish-ended r3 u).0
              (dns_refresh_finish-ended r3 u).1 (omega arith) (omega arith))
          (λ busy.
            on rc u r3
              (record {
                live = record {
                  refresh = refl;
                  sorted = settled-sorted accepted req_id l t r2 live linked;
                  counted = settled-counted accepted req_id l t r2 live linked;
                };
                scheduling = level;
                later = omega (arith, later, back.goes_on.later);
                others = λ k below.
                    let ne : k ≢ id = λ e. ground arith in
                    let ne' : k ≢ l.id = λ e. ne (e ∙ same) in
                    settled-others accepted req_id l t r2 live linked k ne'
                    ∙ back.goes_on.others k ne (omega (arith, later, below))
                    ∙ kept k ne;
                more = grows;
              })
              (λ _. busy))))

pub Safely-bind :
    {A B : Type 0} (P : A → Type 0) (Q : B → Type 0) (m : Result A) (f : A → Result B)
    → Safely P m
    → ((a : A) → P a → Safely Q (f a))
    → Safely Q (m >>= f)
Safely-bind P Q (ok a) f h k = k a h
Safely-bind P Q (err e) f h k = absurd h
Safely-bind P Q fault f h k = absurd h

-- A refused allocation only counts a call.
refused : (s : Machine) (r : Refresh) → IsLive s r → Scheduled s r (err_nomem, (alloc s).1)
unfolding alloc
refused s r live =
    on err_nomem (alloc s).1 r
      (record {
        live = record {
          refresh = live.refresh;
          sorted =
              Descends-mono s.host.calls (s.host.calls + 1) r.lookups (omega arith) live.sorted;
          counted = live.counted;
        };
        scheduling = refl;
        later = omega arith;
        others = λ k below. refl;
        more = omega arith;
      })
      (λ e. absurd cc)

-- A new lookup in the resolver's call, with the number of its allocation.
pub record IsNew (id : ℕ) (l : Lookup) : Type 0 where
  pub address : l.id ≡ id
  pub open_yet : l.completed ≡ false
  pub in_call : l.in_resolver_call ≡ true

module _ {A : Type 0} (name : List ℕ) (lookup : ℕ → Lookup) (replies : ℕ → Reply A)
    (call_back : ℕ → Bool → List A → D) (new : (id : ℕ) → IsNew id (lookup id))
    (safe : IsCallback call_back) (s : Machine) (r : Refresh) (live : IsLive s r) where
  abbrev fresh : Lookup
  fresh = lookup s.host.calls

  abbrev with_fresh : Refresh
  with_fresh = begin_lookup fresh r

  abbrev asking : Machine
  asking = ask name (put_refresh with_fresh (alloc s).1)

  asking-IsLive : IsLive asking with_fresh
  unfolding alloc
  asking-IsLive =
      let at = (new s.host.calls).address in
      let open_yet = (new s.host.calls).open_yet in
      record {
        refresh = refl;
        sorted = (omega arith, subst (λ n. Descends n r.lookups) (sym at) live.sorted);
        counted = rw open_yet (ground (arith, live.counted));
      }

  fresh_linked : find_lookup fresh.id with_fresh.lookups ≡ some fresh
  unfolding find_lookup
  fresh_linked = ground arith

  fresh_others :
      (k : ℕ) → k ≢ s.host.calls → find_lookup k with_fresh.lookups ≡ find_lookup k r.lookups
  unfolding find_lookup
  fresh_others k ne = let at = (new s.host.calls).address in ground arith

  later_asking : s.host.calls ≤ asking.host.calls
  unfolding alloc
  later_asking = omega arith

  asked-Scheduled : Safely (Scheduled s r) (do
    let reply = replies (alloc s).1.host.calls
    s2 ← early_call reply.answer (call_back s.host.calls) asking
    s3 ← end_schedule reply.accepted reply.req_id s.host.calls s2
    ok (if reply.accepted then rclient_ok else err_dns, s3))
  asked-Scheduled =
      let reply = replies (alloc s).1.host.calls in
      let at = (new s.host.calls).address in
      let rc = if reply.accepted then rclient_ok else err_dns in
      let called : Safely (Returned fresh.id asking with_fresh)
          (early_call reply.answer (call_back fresh.id) asking) =
        early_call-Returned fresh asking with_fresh asking-IsLive fresh_linked
          (new s.host.calls).in_call (omega arith) reply.answer call_back safe
          (new s.host.calls).open_yet in
      let called' : Safely (Returned s.host.calls asking with_fresh)
          (early_call reply.answer (call_back s.host.calls) asking) =
        subst
          (λ n.
            Safely (Returned n asking with_fresh) (early_call reply.answer (call_back n) asking))
          at called in
      Safely-bind (Returned s.host.calls asking with_fresh) (Scheduled s r)
        (early_call reply.answer (call_back s.host.calls) asking) _ called'
        λ t back.
          Safely-bind (λ u. Scheduled s r (rc, u)) (Scheduled s r)
            (end_schedule reply.accepted reply.req_id s.host.calls t) _
            (end_schedule-Scheduled reply.accepted reply.req_id s.host.calls rc s r asking
              with_fresh t (omega arith) later_asking fresh_others refl refl back)
            λ u done. done

  pub schedule-Scheduled : Safely (Scheduled s r) (schedule name lookup replies call_back s)
  unfolding schedule
  schedule-Scheduled =
      with_refresh (Scheduled s r) s r _ live.refresh
        (if_both (Safely (Scheduled s r)) (not (alloc s).0) _ _ (refused s r live) asked-Scheduled)
