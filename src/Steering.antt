-- ===== src/Steering.antt =====
-- Source-port steering (src/r_client_steering.c, include/r_client_steering.h).
pub mod Cycle
pub mod Selection
use rl_c_client.Prelude.{ltb, ◌==◌, if◌then◌else◌, ℕ, zero, suc, ◌+◌, ◌%◌, ◌^◌, ◌||◌}
use rl_c_client.Prelude.Results.{err_io, Result, ok, err}

abbrev pub steering_port_min : ℕ
steering_port_min = 49152

abbrev pub steering_port_count : ℕ
steering_port_count = 16384

-- `r_steering_bind_result_t`.
pub data BindResult : Type 0 where
  bind_error bind_ok bind_occupied : BindResult

unfoldable pub next_steering_port : ℕ → ℕ
next_steering_port port =
    if ltb port steering_port_min || (port == 65535) then steering_port_min else (port + 1) % 2 ^ 16

-- `*out_selected_port` and `*out_next_port`.
pub record Selected : Type 0 where
  pub selected_port : ℕ
  pub next_port : ℕ

module _ {S : Type 0} (try_bind : S → ℕ → BindResult × S) where
  -- The loop with `rounds` rounds left, at `candidate`; `user` is the state behind the callback.
  unfoldable pub try_ports : ℕ → ℕ → S → Result Selected × S
  try_ports zero candidate user = (err err_io, user)
  try_ports (suc rounds) candidate user =
      let (result, user') = try_bind user candidate in
      elim result [
        | bind_ok ↦ (
          ok (record { selected_port = candidate; next_port = next_steering_port candidate }),
          user',
        )
        | bind_occupied ↦ try_ports rounds (next_steering_port candidate) user'
        | bind_error ↦ (err err_io, user')
      ]

  unfoldable pub select_steering_port : ℕ → S → Result Selected × S
  select_steering_port first_port user =
      let candidate = if ltb first_port steering_port_min then steering_port_min else first_port in
      try_ports steering_port_count candidate user
