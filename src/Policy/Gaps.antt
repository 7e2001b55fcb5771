-- ===== src/Policy/Gaps.antt =====
-- The replay gaps (r_ha_schedule_units) in closed form, and their bounds.
use native.Mathlib.Decide.{dec_le, dec_lt}
use native.Mathlib.Nat.{one-le-pow, pow-suc, pow-zero}
use rl_c_client.Prelude.{
  ltb, leb, if◌then◌else◌, lt→ltb, leb→le, le→ltb_false, ℕ, zero, suc, ◌+◌, ◌*◌, ◌^◌, ◌≤◌, ◌<◌, min,
  ◌≡◌, refl, Bool, true, false, ◌&&◌, ◌||◌, arith,
}
use rl_c_client.Prelude.Results.{err_config, ok, err}
use rl_c_client.Policy.{
  ScheduleKind, fixed, linear, exponential, unknown_kind, Schedule, linear_units, grow,
  exponential_units, schedule_by_kind, ha_schedule_units,
}

module _ (initial max_units : ℕ) (ordered : initial ≤ max_units) (u32 : max_units < 2 ^ 32) where
  -- The linear gap grows by `step` a round up to the maximum, and no product wraps.
  linear_units-eq :
      (step round : ℕ)
      → 0 < step
      → linear_units initial max_units step round ≡ min max_units (initial + round * step)
  unfolding linear_units
  linear_units-eq step round pos = grind arith

-- The value after a pass, in the numbers of the source.
grow-eq :
    (max_units factor value : ℕ)
    → max_units < 2 ^ 32
    → 2 ≤ factor
    → grow max_units factor value ≡ min max_units (value * factor)
grow-eq max_units factor value u32 pos = grind arith

le-mul_pos : (x p : ℕ) → 1 ≤ p → x ≤ x * p
le-mul_pos x p h = grind arith

-- The step of the induction: `p` stands for the power that is left.
min_grow :
    (max_units value p factor : ℕ)
    → value < max_units
    → 1 ≤ p
    → min max_units (min max_units (value * factor) * p) ≡ min max_units (value * factor * p)
min_grow max_units value p factor below pos = elim (dec_le (value * factor) max_units) [
  | yes small ↦ let e : min max_units (value * factor) ≡ value * factor = omega arith in rw e
  | no large ↦
      let e : min max_units (value * factor) ≡ max_units = omega arith in
      rw e (omega (arith, le-mul_pos max_units p pos, le-mul_pos (value * factor) p pos))
]

mul-pow-suc : (v f n : ℕ) → v * f ^ suc n ≡ v * f * f ^ n
mul-pow-suc v f n = grind (arith, pow-suc f n)

-- The exponential gap is multiplied by `factor` each round up to the maximum, and no product wraps.
exponential_units-eq :
    (value max_units factor round : ℕ)
    → value ≤ max_units
    → max_units < 2 ^ 32
    → 2 ≤ factor
    → exponential_units value max_units factor round ≡ min max_units (value * factor ^ round)
unfolding exponential_units
exponential_units-eq value max_units factor zero h u32 pos = rw (pow-zero factor) (omega arith)
exponential_units-eq value max_units factor (suc round) h u32 pos = elim (dec_lt value max_units) [
  | yes below ↦
      let grown = grow-eq max_units factor value u32 pos in
      let ih =
        exponential_units-eq (grow max_units factor value) max_units factor round
          (omega (arith, grown)) u32 pos in
      rw (lt→ltb value max_units below, ih, grown, mul-pow-suc value factor round)
        (min_grow max_units value (factor ^ round) factor below
          (one-le-pow round factor (omega arith)))
  | no full ↦ rw (le→ltb_false value max_units (omega arith)) (
      omega (
        arith,
        le-mul_pos value (factor ^ suc round) (one-le-pow (suc round) factor (omega arith)),
      ))
]

abbrev gap_by_kind : ScheduleKind → ℕ → ℕ → ℕ → ℕ → ℕ
gap_by_kind fixed initial max_units growth round = initial
gap_by_kind linear initial max_units growth round = min max_units (initial + round * growth)
gap_by_kind exponential initial max_units growth round = min max_units (initial * growth ^ round)
gap_by_kind unknown_kind initial max_units growth round = 0

mul_right_comm : (a b c : ℕ) → a * b * c ≡ a * c * b
mul_right_comm a b c = omega arith

-- The length of round `round` in units, as the policy means it: constant, growing by a step, or
-- growing by a factor, up to the maximum.
abbrev pub gap : Schedule → ℕ → ℕ
gap s round = gap_by_kind s.kind s.initial_units s.max_units s.growth round

-- Whether the source accepts the schedule.
abbrev is_kind : ScheduleKind → ℕ → Bool
is_kind fixed growth = true
is_kind linear growth = ltb 0 growth
is_kind exponential growth = leb 2 growth
is_kind unknown_kind growth = false

abbrev pub is_schedule : Schedule → Bool → Bool
is_schedule s allow_zero =
    (allow_zero || ltb 0 s.initial_units)
    && (leb s.initial_units s.max_units && is_kind s.kind s.growth)

schedule_by_kind-eq :
    (kind : ScheduleKind) (s : Schedule) (round : ℕ)
    → s.initial_units ≤ s.max_units
    → s.max_units < 2 ^ 32
    → schedule_by_kind kind s round ≡ (
        if is_kind kind s.growth
        then ok (gap_by_kind kind s.initial_units s.max_units s.growth round)
        else err err_config)
unfolding schedule_by_kind
schedule_by_kind-eq fixed s round h u32 = refl
schedule_by_kind-eq linear s round h u32 =
    ground (arith, linear_units-eq s.initial_units s.max_units h u32 s.growth round)
schedule_by_kind-eq exponential s round h u32 =
    ground (arith, exponential_units-eq s.initial_units s.max_units s.growth round h u32)
schedule_by_kind-eq unknown_kind s round h u32 = refl

-- For every schedule with a 32-bit maximum and every round, the units are those of the closed
-- form, and the call fails with a configuration error exactly if the schedule is not acceptable.
pub ha_schedule_units-eq :
    (s : Schedule) (round : ℕ) (allow_zero : Bool)
    → s.max_units < 2 ^ 32
    → ha_schedule_units s round allow_zero
      ≡ (if is_schedule s allow_zero then ok (gap s round) else err err_config)
unfolding ha_schedule_units
ha_schedule_units-eq s round allow_zero u32 = ground (arith, schedule_by_kind-eq s.kind s round)

gap_by_kind_bounds :
    (kind : ScheduleKind) (initial max_units growth round : ℕ)
    → initial ≤ max_units
    → is_kind kind growth ≡ true
    → (initial ≤ gap_by_kind kind initial max_units growth round)
      × (gap_by_kind kind initial max_units growth round ≤ max_units)
      × (gap_by_kind kind initial max_units growth round
          ≤ gap_by_kind kind initial max_units growth (suc round))
gap_by_kind_bounds fixed initial max_units growth round h k = omega arith
gap_by_kind_bounds linear initial max_units growth round h k = grind arith
gap_by_kind_bounds exponential initial max_units growth round h k =
    let pos : 2 ≤ growth = leb→le 2 growth k in
    omega (
      arith,
      le-mul_pos initial (growth ^ round) (one-le-pow round growth (omega arith)),
      le-mul_pos (initial * growth ^ round) growth (omega arith),
      mul-pow-suc initial growth round,
      mul_right_comm initial growth (growth ^ round),
    )
gap_by_kind_bounds unknown_kind initial max_units growth round h k = cc

-- The gaps of an accepted schedule never fall below the initial one, never exceed the maximum and
-- never shrink from one round to the next.
pub gap_bounds :
    (s : Schedule) (round : ℕ) (allow_zero : Bool)
    → is_schedule s allow_zero ≡ true
    → (s.initial_units ≤ gap s round)
      × (gap s round ≤ s.max_units)
      × (gap s round ≤ gap s (suc round))
gap_bounds s round allow_zero h =
    gap_by_kind_bounds s.kind s.initial_units s.max_units s.growth round (ground arith)
      (ground arith)
