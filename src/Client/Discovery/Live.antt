-- ===== src/Client/Discovery/Live.antt =====
-- The refresh and its lookups over a callback of the resolver (r_dns_refresh_maybe_complete,
-- r_dns_lookup_finish, r_dns_addr_cb_fn).
use rl_c_client.Prelude.{
  ◌==◌, if◌then◌else◌, Bool-cases, if_cases, ℕ, ◌+◌, ◌≤◌, ◌<◌, ◌≡◌, refl, ap, ◌∙◌, subst, ◌≢◌, ◌⊎◌,
  inl, inr, Bool, true, false, ◌&&◌, Option, none, some, List, [], ◌∷◌, arith,
}
use rl_c_client.Prelude.Results.{Result, ok, err, fault, ◌>>=◌}
use rl_c_client.Client.Machine.{Addr, Endpoint, Lookup, Refresh, Machine, now_ms, alloc}
use rl_c_client.Client.Servers.{make_room}
use rl_c_client.Client.Discovery.{
  the_refresh, put_refresh, find_lookup, the_lookup, dns_refresh_add_endpoint, dns_refresh_finish,
  dns_refresh_maybe_complete, complete_lookup, dns_lookup_finish, endpoint_of, add_addrs,
  dns_addr_cb,
}
use rl_c_client.Client.Discovery.Lookups.{
  Descends, open_count, Descends-mono, find_lookup-store, find_lookup-unlink, Descends-store,
  Descends-unlink, open_count-store, open_count-unlink,
}

-- The client points to the refresh, whose `pending` counts its lookups that are not completed.
pub record IsLive (s : Machine) (r : Refresh) : Type 0 where
  pub refresh : s.client.discovery.refresh ≡ some r
  pub sorted : Descends s.host.calls r.lookups
  pub counted : r.pending ≡ open_count r.lookups

-- A step that succeeds, with what holds after it.
abbrev pub Safely {ℓ} : {A : Type ℓ} → (A → Type 0) → Result A → Type 0
Safely P (ok a) = P a
Safely P (err e) = ⊥
Safely P fault = ⊥

-- The refresh goes on: it has the lookups it had, except that of `id`, and newer ones.
pub record GoesOn (id : ℕ) (s : Machine) (r : Refresh) (t : Machine) (r' : Refresh) : Type 0 where
  pub live : IsLive t r'
  pub scheduling : r'.scheduling ≡ r.scheduling
  pub later : s.host.calls ≤ t.host.calls
  pub others :
      (k : ℕ) → k ≢ id → k < s.host.calls → find_lookup k r'.lookups ≡ find_lookup k r.lookups

-- The end of a lookup: the refresh has ended, which it does with nothing pending and outside any
-- resolver's call, or it goes on without the lookup, which stays linked during a resolver's call.
pub data Finished (l : Lookup) (s : Machine) (r : Refresh) (t : Machine) : Type 0 where
  ended :
      t.client.discovery.refresh ≡ none
      → t.client.discovery.dns_refresh_inflight ≡ false
      → r.pending ≤ 1
      → r.scheduling ≡ 0
      → Finished l s r t
  going :
      (r' : Refresh)
      → GoesOn l.id s r t r'
      → r.pending ≤ r'.pending + 1
      → (0 < r'.pending) ⊎ (0 < r'.scheduling)
      → find_lookup l.id r'.lookups
        ≡ (if l.in_resolver_call then some (record l { completed = true }) else none)
      → Finished l s r t

pub dns_refresh_finish-ended :
    (r : Refresh) (s : Machine)
    → ((dns_refresh_finish r s).client.discovery.refresh ≡ none)
      × ((dns_refresh_finish r s).client.discovery.dns_refresh_inflight ≡ false)
unfolding dns_refresh_finish now_ms
dns_refresh_finish-ended r s = ground arith

busy_refresh :
    (r : Refresh)
    → ((r.pending == 0) && (r.scheduling == 0)) ≡ false
    → (0 < r.pending) ⊎ (0 < r.scheduling)
busy_refresh r h = elim (Bool-cases (r.pending == 0)) [
  | inl e ↦ inr (ground arith)
  | inr e ↦ inl (ground arith)
]

-- With the refresh, or the lookup, that a step reads.
with_some :
    {A B : Type 0} (P : B → Type 0) (o : Option A) (a : A) (f : A → Result B)
    → o ≡ some a
    → Safely P (f a)
    → Safely P ((elim o [ none ↦ fault | some x ↦ ok x ]) >>= f)
with_some P none a f e h = absurd cc
with_some P (some x) a f e h = let same : a ≡ x = cc in subst (λ y. Safely P (f y)) same h

pub with_refresh :
    {B : Type 0} (P : B → Type 0) (s : Machine) (r : Refresh) (f : Refresh → Result B)
    → s.client.discovery.refresh ≡ some r
    → Safely P (f r)
    → Safely P (the_refresh s >>= f)
with_refresh P s r f e h = with_some P s.client.discovery.refresh r f e h

pub with_lookup :
    {B : Type 0} (P : B → Type 0) (id : ℕ) (r : Refresh) (l : Lookup) (f : Lookup → Result B)
    → find_lookup id r.lookups ≡ some l
    → Safely P (f l)
    → Safely P (the_lookup id r >>= f)
with_lookup P id r l f e h = with_some P (find_lookup id r.lookups) l f e h

-- The refresh in a given state: it ends, or nothing happens.
pub maybe_complete-Safely :
    (P : Machine → Type 0) (s : Machine) (r : Refresh)
    → s.client.discovery.refresh ≡ some r
    → (r.pending ≡ 0 → r.scheduling ≡ 0 → P (dns_refresh_finish r s))
    → ((0 < r.pending) ⊎ (0 < r.scheduling) → P s)
    → Safely P (dns_refresh_maybe_complete s)
unfolding dns_refresh_maybe_complete
maybe_complete-Safely P s r e over on = with_refresh P s r _ e (
    if_cases (Safely P) ((r.pending == 0) && (r.scheduling == 0)) (ok (dns_refresh_finish r s))
      (ok s) (λ idle. over (ground arith) (ground arith)) (λ busy. on (busy_refresh r busy)))

-- A lookup that is completed, linked or not.
complete_lookup-counted :
    (l : Lookup) (r : Refresh)
    → find_lookup l.id r.lookups ≡ some l
    → l.completed ≡ false
    → r.pending ≡ open_count r.lookups
    → ((complete_lookup l r).pending ≡ open_count (complete_lookup l r).lookups)
      × (r.pending ≡ (complete_lookup l r).pending + 1)
complete_lookup-counted l r found open_yet counted = ground (
  arith,
  open_count-store (record l { completed = true }) l r.lookups found,
  open_count-unlink l.id l r.lookups found,
)

complete_lookup-sorted :
    (n : ℕ) (l : Lookup) (r : Refresh)
    → Descends n r.lookups
    → Descends n (complete_lookup l r).lookups
complete_lookup-sorted n l r h = ground (
  arith,
  Descends-store n (record l { completed = true }) r.lookups h,
  Descends-unlink l.id n r.lookups h,
)

complete_lookup-others :
    (n k : ℕ) (l : Lookup) (r : Refresh)
    → Descends n r.lookups
    → k ≢ l.id
    → find_lookup k (complete_lookup l r).lookups ≡ find_lookup k r.lookups
complete_lookup-others n k l r h ne = ground (
  arith,
  find_lookup-store k (record l { completed = true }) r.lookups,
  find_lookup-unlink k l.id n r.lookups h,
)

complete_lookup-itself :
    (n : ℕ) (l : Lookup) (r : Refresh)
    → Descends n r.lookups
    → find_lookup l.id r.lookups ≡ some l
    → find_lookup l.id (complete_lookup l r).lookups
      ≡ (if l.in_resolver_call then some (record l { completed = true }) else none)
complete_lookup-itself n l r h found = ground (
  arith,
  find_lookup-store l.id (record l { completed = true }) r.lookups,
  find_lookup-unlink l.id l.id n r.lookups h,
)

pub dns_lookup_finish-Finished :
    (l : Lookup) (s : Machine) (r : Refresh)
    → IsLive s r
    → find_lookup l.id r.lookups ≡ some l
    → l.completed ≡ false
    → Safely (Finished l s r) (dns_lookup_finish l.id s)
unfolding dns_lookup_finish
dns_lookup_finish-Finished l s r live found open_yet =
    let r' = complete_lookup l r in
    let (counted, one_less) = complete_lookup-counted l r found open_yet live.counted in
    let done =
      maybe_complete-Safely (Finished l s r) (put_refresh r' s) r' refl
        (λ p c.
          ended (dns_refresh_finish-ended r' (put_refresh r' s)).0
            (dns_refresh_finish-ended r' (put_refresh r' s)).1 (omega arith) c)
        (λ busy.
          going r'
            (record {
              live = record {
                refresh = refl;
                sorted = complete_lookup-sorted s.host.calls l r live.sorted;
                counted = counted;
              };
              scheduling = refl;
              later = omega arith;
              others = λ k ne below. complete_lookup-others s.host.calls k l r live.sorted ne;
            })
            (omega arith) busy (complete_lookup-itself s.host.calls l r live.sorted found)) in
    with_refresh (Finished l s r) s r _ live.refresh
      (with_lookup (Finished l s r) l.id r l _ found done)

-- The addresses change neither the lookups nor the counters.
record SameLookups (s : Machine) (r : Refresh) (t : Machine) (r' : Refresh) : Type 0 where
  lookups : r'.lookups ≡ r.lookups
  pending : r'.pending ≡ r.pending
  scheduling : r'.scheduling ≡ r.scheduling
  later : s.host.calls ≤ t.host.calls

dns_refresh_add_endpoint-SameLookups :
    (e : Endpoint) (r : Refresh) (s : Machine)
    → let (r', t) = dns_refresh_add_endpoint e r s in SameLookups s r t r'
unfolding dns_refresh_add_endpoint make_room alloc
dns_refresh_add_endpoint-SameLookups e r s = ground arith

add_addrs-SameLookups :
    (l : Lookup) (addrs : List Addr) (r : Refresh) (s : Machine)
    → let (r', t) = add_addrs l addrs r s in SameLookups s r t r'
unfolding add_addrs
add_addrs-SameLookups l [] r s = record {
  lookups = refl;
  pending = refl;
  scheduling = refl;
  later = omega arith;
}
add_addrs-SameLookups l (a ∷ rest) r s =
    let e = endpoint_of l (s.host.with_port a l.port) in
    let (r1, s1) = dns_refresh_add_endpoint e r s in
    let first = dns_refresh_add_endpoint-SameLookups e r s in
    let others = add_addrs-SameLookups l rest r1 s1 in
    record {
      lookups = others.lookups ∙ first.lookups;
      pending = others.pending ∙ first.pending;
      scheduling = others.scheduling ∙ first.scheduling;
      later = omega (arith, first.later, others.later);
    }

pub Safely-map :
    {A : Type 0} (P Q : A → Type 0) (m : Result A) → ((a : A) → P a → Q a) → Safely P m → Safely Q m
Safely-map P Q (ok a) f h = f a h
Safely-map P Q (err e) f h = h
Safely-map P Q fault f h = h

-- A lookup's end, seen from before the addresses.
Finished-from :
    (l : Lookup) (s : Machine) (r : Refresh) (t : Machine) (r' : Refresh) (u : Machine)
    → SameLookups s r t r'
    → Finished l t r' u
    → Finished l s r u
Finished-from l s r t r' u same (ended gone idle few calm) =
    ended gone idle (rw (← same.pending) few) (rw (← same.scheduling) calm)
Finished-from l s r t r' u same (going r2 on more busy itself) =
    going r2
      (record {
        live = on.live;
        scheduling = on.scheduling ∙ same.scheduling;
        later = omega (arith, same.later, on.later);
        others = λ k ne below.
            on.others k ne (omega (arith, same.later, below)) ∙ ap (find_lookup k) same.lookups;
      })
      (rw (← same.pending) more) busy itself

-- A callback with the addresses of a lookup that is pending, in the resolver's call or later, with
-- any status: it never touches a refresh or a lookup that has been freed. The refresh ends if
-- nothing else is pending and no resolver's call is running; otherwise it goes on, it counts its
-- pending lookups exactly, the others are as before, and the lookup is gone, or completed and
-- still linked during its resolver's call.
pub dns_addr_cb-Finished :
    (l : Lookup) (status : Bool) (addrs : List Addr) (s : Machine) (r : Refresh)
    → IsLive s r
    → find_lookup l.id r.lookups ≡ some l
    → l.completed ≡ false
    → Safely (Finished l s r) (dns_addr_cb l.id status addrs s)
unfolding dns_addr_cb
dns_addr_cb-Finished l status addrs s r live found open_yet =
    let given = if status then addrs else [] in
    let (r', s') = add_addrs l given r s in
    let same = add_addrs-SameLookups l given r s in
    let t = put_refresh r' s' in
    let still : IsLive t r' = record {
      refresh = refl;
      sorted =
          rw (same.lookups)
            (Descends-mono s.host.calls s'.host.calls r.lookups same.later live.sorted);
      counted = rw (same.lookups, same.pending) live.counted;
    } in
    let there : find_lookup l.id r'.lookups ≡ some l = rw (same.lookups) found in
    let moved : SameLookups s r t r' = record {
      lookups = same.lookups;
      pending = same.pending;
      scheduling = same.scheduling;
      later = same.later;
    } in
    let done = dns_lookup_finish-Finished l t r' still there open_yet in
    with_refresh (Finished l s r) s r _ live.refresh (
      with_lookup (Finished l s r) l.id r l _ found (
        Safely-map (Finished l t r') (Finished l s r) (dns_lookup_finish l.id t)
          (λ u f. Finished-from l s r t r' u moved f) done))
