-- ===== src/Steering/Cycle.antt =====
-- The order of the source ports (r_client_next_steering_port).
use rl_c_client.Prelude.{ℕ, zero, suc, ◌+◌, ◌-◌, ◌%◌, ◌^◌, ◌≤◌, ◌<◌, ◌≡◌, arith}
use rl_c_client.Steering.{steering_port_min, steering_port_count, next_steering_port}

abbrev pub IsSteeringPort : ℕ → Type 0
IsSteeringPort p = (steering_port_min ≤ p) × (p < 2 ^ 16)

pub next_steering_port-IsSteeringPort : (p : ℕ) → p < 2 ^ 16 → IsSteeringPort (next_steering_port p)
unfolding next_steering_port
next_steering_port-IsSteeringPort p h = ground arith

-- The port that is `n` steps on.
unfoldable pub advance : ℕ → ℕ → ℕ
advance zero p = p
advance (suc n) p = advance n (next_steering_port p)

next_steering_port-eq :
    (p : ℕ)
    → IsSteeringPort p
    → next_steering_port p ≡ steering_port_min + (p - steering_port_min + 1) % steering_port_count
unfolding next_steering_port
next_steering_port-eq p h = ground arith

-- In closed form.
pub advance-eq :
    (n p : ℕ)
    → IsSteeringPort p
    → advance n p ≡ steering_port_min + (p - steering_port_min + n) % steering_port_count
unfolding advance
advance-eq zero p h = omega arith
advance-eq (suc n) p h = omega (
  arith,
  advance-eq n (next_steering_port p) (next_steering_port-IsSteeringPort p (omega arith)),
  next_steering_port-eq p h,
)

-- The number of steps from one steering port to another.
unfoldable pub distance : ℕ → ℕ → ℕ
distance p q = (q + steering_port_count - p) % steering_port_count

-- From any steering port every steering port is reached in fewer than 16384 steps, in exactly
-- one number of steps, and after 16384 steps the first port comes again.
pub advance_cycle :
    (p q : ℕ)
    → IsSteeringPort p
    → IsSteeringPort q
    → (distance p q < steering_port_count)
      × (advance (distance p q) p ≡ q)
      × ((n : ℕ) → n < steering_port_count → advance n p ≡ q → n ≡ distance p q)
      × (advance steering_port_count p ≡ p)
unfolding distance
advance_cycle p q hp hq = (
  omega arith,
  omega (arith, advance-eq ((q + steering_port_count - p) % steering_port_count) p hp),
  (λ n hn e. omega (arith, advance-eq n p hp)),
  omega (arith, advance-eq steering_port_count p hp),
)
