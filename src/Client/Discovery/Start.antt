-- ===== src/Client/Discovery/Start.antt =====
-- The start of a refresh of the servers (src/r_client.c, r_dns_schedule_srv_lookup,
-- r_dns_start_refresh, r_dns_maybe_refresh, r_rand_range).
use rl_c_client.Prelude.{
  ltb, leb, ◌==◌, if◌then◌else◌, length, ℕ, ◌+◌, ◌-◌, ◌%◌, ◌^◌, Bool, true, false, not, ◌&&◌, ◌||◌,
  none, some, List, [], ◌∷◌, ◌++◌,
}
use rl_c_client.Prelude.Results.{ClientError, rclient_ok, Result, ok, fault, ◌>>=◌}
use rl_c_client.Bytes.{head_le64}
use rl_c_client.Client.Machine.{Refresh, Discovery, Machine, M, now_ms, alloc, rand_bytes}
use rl_c_client.Client.Round.{add64}
use rl_c_client.Client.Discovery.{D, set_discovery, new_lookup, schedule, dns_srv_cb}

unfoldable pub dns_schedule_srv_lookup : List ℕ → Machine → Result (ClientError × Machine)
dns_schedule_srv_lookup name s =
    schedule name (λ id. new_lookup id 0 0 false) s.host.srv_replies dns_srv_cb s

abbrev pub new_refresh : Refresh
new_refresh = record {
  pending = 0;
  scheduling = 0;
  lookups = [];
  endpoints = [];
  endpoint_cap = 0;
  min_ttl_ms = 0;
}

-- `_ratelimitly._udp.`
abbrev pub srv_prefix : List ℕ
srv_prefix =
    95 ∷ 114 ∷ 97 ∷ 116 ∷ 101 ∷ 108 ∷ 105 ∷ 109 ∷ 105 ∷ 116 ∷ 108 ∷ 121 ∷ 46 ∷ 95 ∷ 117 ∷ 100 ∷ 112
    ∷ 46 ∷ []

-- The refresh is given up if nothing keeps it.
unfoldable pub drop_idle : ClientError × Machine → Machine
drop_idle (rclient_ok, s) = s
drop_idle (rc, s) = elim s.client.discovery.refresh [
  | none ↦ s
  | some r ↦
      if (r.pending == 0) && (r.scheduling == 0)
      then set_discovery
          (record s.client.discovery { dns_refresh_inflight = false; refresh = none }) s
      else s
]

-- `client->dns_name` with its prefix has to fit 511 characters. The callers drop the status.
unfoldable pub dns_start_refresh : D
dns_start_refresh s =
    let (works, s1) = alloc s in
    let d = s.client.discovery in
    let started = record d { dns_refresh_inflight = true; refresh = some new_refresh } in
    let name = srv_prefix ++ d.dns_name in
    if d.dns_refresh_inflight
    then ok s
    else if not works
    then ok s1
    else if leb 512 (length name)
    then ok s1
    else (do done ← dns_schedule_srv_lookup name (set_discovery started s1); ok (drop_idle done))

-- `value % (max + 1)`, which divides by zero at the largest `max`.
unfoldable pub rand_range : ℕ → M (Result ℕ)
rand_range max s =
    let (bytes, s') = rand_bytes 8 s in
    if max == 0 then (ok 0, s) else (
      elim bytes [
        | none ↦ ok 0
        | some bs ↦ do
          value ← head_le64 bs
          if (max + 1) % 2 ^ 64 == 0 then fault else ok (value % ((max + 1) % 2 ^ 64))
      ],
      s',
    )

-- `a - b` on `uint64_t`.
abbrev pub sub64 : ℕ → ℕ → ℕ
sub64 a b = (a + 2 ^ 64 - b) % 2 ^ 64

abbrev pub or_default : ℕ → ℕ → ℕ
or_default value default = if value == 0 then default else value

abbrev pub refresh_interval : Discovery → ℕ
refresh_interval d =
    let interval = or_default d.refresh_interval_ms 300000 in
    if ltb 0 d.dns_refresh_ttl_ms && ltb d.dns_refresh_ttl_ms interval
    then d.dns_refresh_ttl_ms
    else interval

-- `*min_interval` with the jitter; no random number is drawn without a jitter.
unfoldable pub forced_interval : M (Result ℕ)
forced_interval s =
    let d = s.client.discovery in
    let least = or_default d.forced_refresh_min_interval_ms 1000 in
    let (jitter, s') = rand_range d.forced_refresh_jitter_ms s in
    (do j ← jitter; ok (add64 least j), s')

-- The two tests on the time since the last refresh.
abbrev pub is_due : Discovery → ℕ → Bool
is_due d now =
    (d.last_dns_refresh_ms == 0) || leb (refresh_interval d) (sub64 now d.last_dns_refresh_ms)

abbrev pub is_early : Discovery → ℕ → ℕ → Bool
is_early d now least =
    not (d.last_dns_refresh_ms == 0) && ltb (sub64 now d.last_dns_refresh_ms) least

unfoldable pub dns_maybe_refresh : Bool → D
dns_maybe_refresh false s =
    let (now, s1) = now_ms s in
    if is_due s.client.discovery now then dns_start_refresh s1 else ok s1
dns_maybe_refresh true s =
    let (now, s1) = now_ms s in
    let (interval, s2) = forced_interval s1 in
    (do
      least ← interval
      if is_early s.client.discovery now least then ok s2 else dns_start_refresh s2)
