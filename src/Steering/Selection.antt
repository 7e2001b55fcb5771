-- ===== src/Steering/Selection.antt =====
-- The search for a source port (r_client_select_steering_port) over a fixed set of free ports.
use native.Mathlib.Decide.{dec_le}
use rl_c_client.Prelude.{
  ltb, if◌then◌else◌, ℕ, zero, suc, ◌^◌, ◌≤◌, ◌<◌, ◌≡◌, refl, ◌≢◌, ◌⊎◌, inl, inr, arith,
}
use rl_c_client.Prelude.Results.{err_io, ok, err}
use rl_c_client.Steering.{
  steering_port_min, steering_port_count, BindResult, bind_error, bind_ok, bind_occupied,
  next_steering_port, try_ports, select_steering_port,
}
use rl_c_client.Steering.Cycle.{
  IsSteeringPort, next_steering_port-IsSteeringPort, advance, advance-eq, distance, advance_cycle,
}

BindResult-cases : (r : BindResult) → (r ≡ bind_occupied) ⊎ ((r ≡ bind_ok) ⊎ (r ≡ bind_error))
BindResult-cases bind_error = inr (inr refl)
BindResult-cases bind_ok = inr (inl refl)
BindResult-cases bind_occupied = inl refl

not_occupied : (r : BindResult) → (r ≡ bind_ok) ⊎ (r ≡ bind_error) → r ≢ bind_occupied
not_occupied r (inl e) busy = cc
not_occupied r (inr e) busy = cc

is_ok : (r : BindResult) → r ≢ bind_occupied → r ≢ bind_error → r ≡ bind_ok
is_ok bind_error a b = absurd (b refl)
is_ok bind_ok a b = refl
is_ok bind_occupied a b = absurd (a refl)

absurd_le : {m n : ℕ} → m ≤ n → n < m → ⊥
absurd_le h k = omega arith

-- The port at which the search begins.
abbrev pub start_port : ℕ → ℕ
start_port first_port = if ltb first_port steering_port_min then steering_port_min else first_port

module _ (port_state : ℕ → BindResult) where
  -- The callback of a host whose ports do not change during the search.
  abbrev pub try_fixed : Unit {0} → ℕ → BindResult × Unit {0}
  try_fixed user port = (port_state port, user)

  -- `n` ports from `p` on are occupied.
  abbrev pub AllOccupied : ℕ → ℕ → Type 0
  AllOccupied zero p = Unit
  AllOccupied (suc n) p = (port_state p ≡ bind_occupied) × AllOccupied n (next_steering_port p)

  occupied_at : (n p j : ℕ) → AllOccupied n p → j < n → port_state (advance j p) ≡ bind_occupied
  unfolding advance
  occupied_at zero p j a h = absurd (omega arith)
  occupied_at (suc n) p zero a h = a.0
  occupied_at (suc n) p (suc j) a h = occupied_at n (next_steering_port p) j a.1 (omega arith)

  try_ports-AllOccupied :
      (n p : ℕ) → AllOccupied n p → try_ports try_fixed n p tt ≡ (err err_io, tt)
  unfolding try_ports
  try_ports-AllOccupied zero p a = refl
  try_ports-AllOccupied (suc n) p a = rw (a.0) (try_ports-AllOccupied n (next_steering_port p) a.1)

  -- The first `i` ports are occupied, and the search stops at the next by its state.
  try_ports_ok :
      (i n p : ℕ)
      → i < n
      → AllOccupied i p
      → port_state (advance i p) ≡ bind_ok
      → try_ports try_fixed n p tt ≡ (
        ok (record { selected_port = advance i p; next_port = next_steering_port (advance i p) }),
        tt,
      )
  unfolding try_ports advance
  try_ports_ok zero zero p h a e = absurd (omega arith)
  try_ports_ok (suc i) zero p h a e = absurd (omega arith)
  try_ports_ok zero (suc n) p h a e = rw e
  try_ports_ok (suc i) (suc n) p h a e =
      rw (a.0) (try_ports_ok i n (next_steering_port p) (omega arith) a.1 e)

  -- Among `n` ports either all are occupied, or there is a first that is not.
  first_free :
      (n p : ℕ)
      → AllOccupied n p
        ⊎ ((i : ℕ) × (i < n) × AllOccupied i p × (port_state (advance i p) ≢ bind_occupied))
  unfolding advance
  first_free zero p = inl tt
  first_free (suc n) p = elim (BindResult-cases (port_state p)) [
    | inl busy ↦ elim (first_free n (next_steering_port p)) [
      | inl all ↦ inl (busy, all)
      | inr (i, h, before, free) ↦ inr (suc i, omega arith, (busy, before), free)
    ]
    | inr other ↦ inr (0, omega arith, tt, not_occupied (port_state p) other)
  ]

start_port-IsSteeringPort : (p : ℕ) → p < 2 ^ 16 → IsSteeringPort (start_port p)
start_port-IsSteeringPort p h = ground arith

advance-IsSteeringPort : (n p : ℕ) → IsSteeringPort p → IsSteeringPort (advance n p)
advance-IsSteeringPort n p h = omega (arith, advance-eq n p h)

module _ (port_state : ℕ → BindResult) (first_port : ℕ) (u16 : first_port < 2 ^ 16) where
  -- If every steering port is occupied, the search from any 16-bit port ends with an I/O error.
  pub select_steering_port_exhausted :
      ((p : ℕ) → IsSteeringPort p → port_state p ≡ bind_occupied)
      → select_steering_port (try_fixed port_state) first_port tt ≡ (err err_io, tt)
  unfolding select_steering_port
  select_steering_port_exhausted busy =
      try_ports-AllOccupied port_state steering_port_count (start_port first_port) (
        all_busy steering_port_count (start_port first_port)
          (start_port-IsSteeringPort first_port u16))
    where
      all_busy : (n p : ℕ) → IsSteeringPort p → AllOccupied port_state n p
      all_busy zero p h = tt
      all_busy (suc n) p h = (
        busy p h,
        all_busy n (next_steering_port p) (next_steering_port-IsSteeringPort p (omega arith)),
      )

  -- `q` is not among the ports found occupied, so the search has stopped by then.
  within :
      (q i : ℕ)
      → IsSteeringPort q
      → port_state q ≡ bind_ok
      → AllOccupied port_state i (start_port first_port)
      → i ≤ distance (start_port first_port) q
  within q i hq free before = elim (dec_le i (distance (start_port first_port) q)) [
    | yes le ↦ le
    | no gt ↦
        let there =
          advance_cycle (start_port first_port) q (start_port-IsSteeringPort first_port u16) hq in
        let busy =
          occupied_at port_state i (start_port first_port) (distance (start_port first_port) q)
            before (omega arith) in
        absurd (not_occupied (port_state q) (inl free) (rw (there.1) at busy))
  ]

  -- If some steering port `q` can be bound and none reports an error, the search from any 16-bit
  -- port returns a steering port that can be bound, at most as far from the start as `q`, all
  -- ports before it occupied, with the port behind it as the next.
  pub select_steering_port_finds :
      (q : ℕ)
      → IsSteeringPort q
      → port_state q ≡ bind_ok
      → ((p : ℕ) → IsSteeringPort p → port_state p ≢ bind_error)
      → (i : ℕ) × (i ≤ distance (start_port first_port) q)
        × AllOccupied port_state i (start_port first_port)
        × (port_state (advance i (start_port first_port)) ≡ bind_ok)
        × IsSteeringPort (advance i (start_port first_port))
        × (select_steering_port (try_fixed port_state) first_port tt ≡ (
          ok (record {
            selected_port = advance i (start_port first_port);
            next_port = next_steering_port (advance i (start_port first_port));
          }),
          tt,
        ))
  unfolding select_steering_port
  select_steering_port_finds q hq free sound =
      let start = start_port first_port in
      let started = start_port-IsSteeringPort first_port u16 in
      elim (first_free port_state steering_port_count start) [
        | inl all ↦
            let there = advance_cycle start q started hq in
            absurd (absurd_le (within q steering_port_count hq free all) (there.0))
        | inr (i, h, before, open_port) ↦
            let port = advance-IsSteeringPort i start started in
            let bound =
              is_ok (port_state (advance i start)) open_port (sound (advance i start) port) in
            (
              i,
              within q i hq free before,
              before,
              bound,
              port,
              try_ports_ok port_state i steering_port_count start h before bound,
            )
      ]
