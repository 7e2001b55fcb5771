-- ===== src/Client/Discovery/Jitter.antt =====
-- The random numbers of a forced refresh (r_rand_range).
use rl_c_client.Prelude.{
  ltb, ◌==◌, if◌then◌else◌, ltb→lt, Bool-cases, length, ℕ, ◌+◌, ◌-◌, ◌%◌, ◌^◌, ◌≤◌, ◌<◌, ◌≡◌, refl,
  ◌≢◌, ◌↔◌, inl, inr, false, Option, none, some, List, arith,
}
use rl_c_client.Prelude.Results.{Result, ok, err, fault, ◌>>=◌, IsOk-value}
use rl_c_client.Bytes.{head_le64}
use rl_c_client.Bytes.Bounds.{head_le64-IsOk}
use rl_c_client.Client.Machine.{Host, Machine, rand_bytes}
use rl_c_client.Client.Discovery.Start.{rand_range}

-- OpenSSL fills the buffer that it is given.
abbrev pub Fills : Host → Type 0
Fills host = (n k : ℕ) (bytes : List ℕ) → host.random n k ≡ some bytes → length bytes ≡ k

-- A number is there, and it is at most `max`.
abbrev pub IsAtMost : ℕ → Result ℕ → Type 0
IsAtMost max (ok n) = n ≤ max
IsAtMost max (err e) = ⊥
IsAtMost max fault = ⊥

module _ (max : ℕ) (bound : max < 2 ^ 64 - 1) where
  reduced : (value : ℕ) → value % ((max + 1) % 2 ^ 64) ≤ max
  reduced value = omega arith

  -- What `rand_range` makes of the eight bytes.
  drawn-IsAtMost :
      (bytes : Option (List ℕ))
      → ((bs : List ℕ) → bytes ≡ some bs → length bs ≡ 8)
      → IsAtMost max (elim bytes [
        | none ↦ ok 0
        | some bs ↦ do
          value ← head_le64 bs
          if (max + 1) % 2 ^ 64 == 0 then fault else ok (value % ((max + 1) % 2 ^ 64))
      ])
  drawn-IsAtMost none sized = omega arith
  drawn-IsAtMost (some bs) sized =
      let eight = sized bs refl in
      let (value, e) = IsOk-value (head_le64 bs) (head_le64-IsOk bs (omega arith)) in
      let there : (((max + 1) % 2 ^ 64) == 0) ≡ false = ground arith in
      rw (e, there) (reduced value)

-- A random number of at most `max`, for a `max` below 2^64 - 1 and with OpenSSL filling its buffers
-- where it does not fail: there is one, and it is at most `max`, also if OpenSSL fails.
pub rand_range-IsAtMost :
    (max : ℕ) (s : Machine) → max < 2 ^ 64 - 1 → Fills s.host → IsAtMost max (rand_range max s).0
unfolding rand_range rand_bytes
rand_range-IsAtMost max s bound fills = elim (Bool-cases (max == 0)) [
  | inl e ↦ rw e (omega arith)
  | inr e ↦
      let drawn = drawn-IsAtMost max bound (s.host.random s.host.calls 8) (fills s.host.calls 8) in
      rw e drawn
]

-- At the largest `max`, a random number that OpenSSL can draw is reduced modulo zero.
rand_range-largest :
    (s : Machine) (bs : List ℕ)
    → s.host.random s.host.calls 8 ≡ some bs
    → length bs ≡ 8
    → (rand_range (2 ^ 64 - 1) s).0 ≡ fault
unfolding rand_range rand_bytes
rand_range-largest s bs drawn eight =
    let (value, e) = IsOk-value (head_le64 bs) (head_le64-IsOk bs (omega arith)) in
    rw (drawn, e) refl

not_fault : (max : ℕ) (r : Result ℕ) → IsAtMost max r → r ≢ fault
not_fault max (ok n) h e = ground arith
not_fault max (err e') h e = absurd h
not_fault max fault h e = absurd h

at_most_largest :
    (max : ℕ) (s : Machine)
    → max < 2 ^ 64
    → Fills s.host
    → (rand_range max s).0 ≡ fault
    → max ≡ 2 ^ 64 - 1
at_most_largest max s small fills e = elim (Bool-cases (ltb max (2 ^ 64 - 1))) [
  | inl below ↦ absurd (
      not_fault max (rand_range max s).0
        (rand_range-IsAtMost max s (ltb→lt max (2 ^ 64 - 1) below) fills) e)
  | inr top ↦ ground arith
]

-- With a random number that OpenSSL can draw, filling its buffers, and a 64-bit `max`: the random
-- number of at most `max` is undefined, by a division by zero, exactly if `max` is 2^64 - 1.
pub rand_range-fault_iff :
    (max : ℕ) (s : Machine) (bs : List ℕ)
    → max < 2 ^ 64
    → Fills s.host
    → s.host.random s.host.calls 8 ≡ some bs
    → ((rand_range max s).0 ≡ fault) ↔ (max ≡ 2 ^ 64 - 1)
rand_range-fault_iff max s bs small fills drawn = (
  at_most_largest max s small fills,
  λ top. rw top (rand_range-largest s bs drawn (fills s.host.calls 8 bs drawn)),
)
