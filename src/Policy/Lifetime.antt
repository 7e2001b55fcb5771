-- ===== src/Policy/Lifetime.antt =====
-- The lifetime that a policy gives a request (r_request_policy_ttl_ms).
use native.Mathlib.Decide.{dec_le}
use native.Mathlib.Nat.{le-div_iff_mul-le, div-le_self}
use rl_c_client.Prelude.{
  ltb, leb, if◌then◌else◌, lt→ltb, le→leb, lt→leb_false, Bool-cases, ℕ, zero, suc, ◌+◌, ◌-◌, ◌*◌,
  ◌/◌, ◌%◌, ◌^◌, ◌≤◌, ◌<◌, ◌≡◌, refl, ◌∙◌, inl, inr, Bool, true, false, ◌&&◌, Option, arith,
}
use rl_c_client.Prelude.Results.{err_config, Result, ok, err, ◌>>=◌, ◌>>◌, guard}
use rl_c_client.Credential.{Quotas}
use rl_c_client.Policy.{
  Schedule, RequestPolicy, u32_max, u64_max, ha_max_replay_count, max_ttl_ms, sum_gap_units,
  request_policy_ttl_ms,
}
use rl_c_client.Policy.Gaps.{gap, is_schedule, ha_schedule_units-eq, gap_bounds}

-- The lengths of `left` rounds from `round`, in units.
abbrev pub sum_gaps : Schedule → ℕ → ℕ → ℕ
sum_gaps s zero round = 0
sum_gaps s (suc left) round = gap s round + sum_gaps s left (round + 1)

unfoldable pub unit_count : RequestPolicy → ℕ
unit_count policy =
    sum_gaps policy.replay_gap (policy.replay_count + 1) 0 + policy.final_receive_units

sum_gap_units-eq :
    (s : Schedule) (limit left round total : ℕ)
    → s.max_units < 2 ^ 32
    → limit < 2 ^ 32
    → total ≤ limit
    → is_schedule s false ≡ true
    → sum_gap_units s limit left round total ≡ (
        if leb (total + sum_gaps s left round) limit
        then ok (total + sum_gaps s left round)
        else err err_config)
unfolding sum_gap_units
sum_gap_units-eq s limit zero round total u32 lim h v = ground arith
sum_gap_units-eq s limit (suc left) round total u32 lim h v =
    let bound = (gap_bounds s round false v).1 in
    let wrap : (total + gap s round) % 2 ^ 64 ≡ total + gap s round = omega arith in
    let assoc : total + (gap s round + sum_gaps s left (round + 1))
        ≡ total + gap s round + sum_gaps s left (round + 1) =
      omega arith in
    rw
      (
        ha_schedule_units-eq s round false u32,
        v,
        le→leb total (u64_max - gap s round) (omega arith),
        wrap,
        assoc,
      )
      (elim (dec_le (total + gap s round) limit) [
        | yes fits ↦
            rw (le→leb (total + gap s round) limit fits)
              (sum_gap_units-eq s limit left (round + 1) (total + gap s round) u32 lim fits v)
        | no over ↦
            rw
              (
                lt→leb_false (total + gap s round) limit (omega arith),
                lt→leb_false (total + gap s round + sum_gaps s left (round + 1)) limit
                    (omega arith),
              )
              refl
      ])

-- The values that the policy's C types hold.
pub record IsPolicy (policy : RequestPolicy) : Type 0 where
  pub max_u32 : policy.replay_gap.max_units < 2 ^ 32
  pub final_u32 : policy.final_receive_units < 2 ^ 32
  pub unit_u64 : policy.unit_ms < 2 ^ 64

-- The condition under which a policy is accepted.
abbrev pub is_accepted : Option Quotas → RequestPolicy → Bool
is_accepted quotas policy =
    (ltb 0 policy.unit_ms && leb policy.replay_count ha_max_replay_count)
    && (is_schedule policy.replay_gap false
        && leb (unit_count policy * policy.unit_ms) (max_ttl_ms quotas))

-- What follows the loop, for the sum of the rounds.
finish : ℕ → ℕ → ℕ → ℕ → Result ℕ
finish unit limit final gaps = do
  guard (leb gaps (u64_max - final)) err_config
  let total_units = (gaps + final) % 2 ^ 64
  guard (ltb 0 total_units && (leb total_units (u32_max / unit) && leb total_units (limit / unit)))
      err_config
  ok (total_units * unit % 2 ^ 64 % 2 ^ 32)

module _ (unit limit final gaps : ℕ) (pos : 0 < unit) (lim : limit < 2 ^ 32) where
  finish-eq :
      final < 2 ^ 32
      → 0 < gaps
      → gaps ≤ limit / unit
      → finish unit limit final gaps
        ≡ (if leb ((gaps + final) * unit) limit then ok ((gaps + final) * unit) else err err_config)
  unfolding finish
  finish-eq u32 some_gap below =
      let wrap : (gaps + final) % 2 ^ 64 ≡ gaps + final = omega (arith, div-le_self limit unit) in
      rw (le→leb gaps (u64_max - final) (omega (arith, div-le_self limit unit)), wrap)
        (elim (dec_le ((gaps + final) * unit) limit) [
          | yes fits ↦
              let value : (gaps + final) * unit % 2 ^ 64 % 2 ^ 32 ≡ (gaps + final) * unit =
                omega arith in
              rw
                (
                  lt→ltb 0 (gaps + final) (omega arith),
                  le→leb (gaps + final) (u32_max / unit) ((le-div_iff_mul-le pos).1 (omega arith)),
                  le→leb (gaps + final) (limit / unit) ((le-div_iff_mul-le pos).1 fits),
                  le→leb ((gaps + final) * unit) limit fits,
                  value,
                )
                refl
          | no over ↦
              let large = λ (h : gaps + final ≤ limit / unit). over ((le-div_iff_mul-le pos).0 h) in
              rw
                (
                  lt→leb_false ((gaps + final) * unit) limit (omega arith),
                  lt→leb_false (gaps + final) (limit / unit) (omega (arith, large)),
                )
                (ground arith)
        ])

le-mul_right : (a b : ℕ) → 0 < a → b ≤ a * b
le-mul_right a b h = grind arith

initial_gap : (s : Schedule) (n : ℕ) → is_schedule s false ≡ true → 0 < sum_gaps s (suc n) 0
initial_gap s n v = omega (arith, gap_bounds s 0 false v, initial_pos s v)
  where
    initial_pos : (s : Schedule) → is_schedule s false ≡ true → 0 < s.initial_units
    initial_pos s v = ground arith

-- Both outcomes of the loop over all rounds.
sum_gap_units_bad :
    (s : Schedule) (limit n : ℕ)
    → s.max_units < 2 ^ 32
    → is_schedule s false ≡ false
    → sum_gap_units s limit (n + 1) 0 0 ≡ err err_config
unfolding sum_gap_units
sum_gap_units_bad s limit n u32 bad =
    let e : n + 1 ≡ suc n = omega arith in rw (e, ha_schedule_units-eq s 0 false u32, bad) refl

gaps_of : RequestPolicy → ℕ
gaps_of policy = sum_gaps policy.replay_gap (policy.replay_count + 1) 0

sum_gap_units_all :
    (policy : RequestPolicy) (limit : ℕ)
    → policy.replay_gap.max_units < 2 ^ 32
    → limit < 2 ^ 32
    → is_schedule policy.replay_gap false ≡ true
    → sum_gap_units policy.replay_gap limit (policy.replay_count + 1) 0 0
      ≡ (if leb (gaps_of policy) limit then ok (gaps_of policy) else err err_config)
unfolding gaps_of
sum_gap_units_all policy limit u32 lim v =
    let z : 0 + gaps_of policy ≡ gaps_of policy = omega arith in
    sum_gap_units-eq policy.replay_gap limit (policy.replay_count + 1) 0 0 u32 lim (omega arith) v
    ∙ rw z refl

gaps_pos :
    (policy : RequestPolicy) → is_schedule policy.replay_gap false ≡ true → 0 < gaps_of policy
unfolding gaps_of
gaps_pos policy v =
    let e : policy.replay_count + 1 ≡ suc policy.replay_count = omega arith in
    rw e (initial_gap policy.replay_gap policy.replay_count v)

-- From the check of the unit on, for an acceptable schedule.
loop_and_finish :
    (unit limit final gaps : ℕ)
    → 0 < unit
    → limit < 2 ^ 32
    → final < 2 ^ 32
    → 0 < gaps
    → (guard (leb unit limit) err_config
        >> ((if leb gaps (limit / unit) then ok gaps else err err_config)
            >>= finish unit limit final))
      ≡ (if leb ((gaps + final) * unit) limit then ok ((gaps + final) * unit) else err err_config)
loop_and_finish unit limit final gaps pos lim u32 some_gap = elim (dec_le gaps (limit / unit)) [
  | yes below ↦
      let product : gaps * unit ≤ limit = (le-div_iff_mul-le pos).0 below in
      rw
        (
          le→leb unit limit (omega (arith, le-mul_right gaps unit some_gap)),
          le→leb gaps (limit / unit) below,
        )
        (finish-eq unit limit final gaps pos lim u32 some_gap below)
  | no above ↦
      let over =
        λ (h : (gaps + final) * unit ≤ limit). above ((le-div_iff_mul-le pos).1 (omega arith)) in
      rw
        (
          lt→leb_false gaps (limit / unit) (omega arith),
          lt→leb_false ((gaps + final) * unit) limit (omega (arith, over)),
        )
        (elim (Bool-cases (leb unit limit)) [ inl e ↦ rw e refl | inr e ↦ rw e refl ])
]

-- The lifetime is the number of units times their length, with no overflow, and a policy is
-- refused with a configuration error exactly if it is malformed or lives longer than the limit.
-- The policy's fields are within their C types, and the limit is below 2^32.
pub request_policy_ttl_ms-eq :
    (quotas : Option Quotas) (policy : RequestPolicy)
    → IsPolicy policy
    → max_ttl_ms quotas < 2 ^ 32
    → request_policy_ttl_ms quotas policy ≡ (
        if is_accepted quotas policy
        then ok (unit_count policy * policy.unit_ms)
        else err err_config)
unfolding request_policy_ttl_ms finish unit_count gaps_of
request_policy_ttl_ms-eq quotas policy p lim =
    elim (Bool-cases (ltb 0 policy.unit_ms && leb policy.replay_count ha_max_replay_count)) [
      | inr bad ↦ rw bad refl
      | inl good ↦ rw good (elim (Bool-cases (is_schedule policy.replay_gap false)) [
        | inr bad ↦
            rw
              (
                sum_gap_units_bad policy.replay_gap (limit / policy.unit_ms) policy.replay_count
                    p.max_u32 bad,
                bad,
              )
              (elim (Bool-cases (leb policy.unit_ms limit)) [
                | inl e ↦ rw e refl
                | inr e ↦ rw e refl
              ])
        | inl valid ↦
            rw
              (
                sum_gap_units_all policy (limit / policy.unit_ms) p.max_u32
                    (omega (arith, div-le_self limit policy.unit_ms)) valid,
                valid,
              )
              (loop_and_finish policy.unit_ms limit policy.final_receive_units (gaps_of policy)
                (unit_pos good) lim p.final_u32 (gaps_pos policy valid))
      ])
    ]
  where
    limit : ℕ
    limit = max_ttl_ms quotas

    unit_pos :
        (ltb 0 policy.unit_ms && leb policy.replay_count ha_max_replay_count) ≡ true
        → 0 < policy.unit_ms
    unit_pos h = ground arith
