-- ===== src/Prelude/Results.antt =====
-- Status codes (include/r_client.h, r_client_error_t) and the result of a fallible routine.
use mathlib.Core.Path.{◌≡◌, refl}
use mathlib.Core.Bool.{Bool, true, false}

-- `r_client_error_t`.
pub data ClientError : Type 0 where
  rclient_ok err_io err_timeout err_protocol err_auth err_dns err_config err_nomem : ClientError

-- `fault` is an access outside an object, which C leaves undefined.
pub data Result {ℓ} (A : Type ℓ) : Type ℓ where
  ok : A → Result A
  err : ClientError → Result A
  fault : Result A

-- An early return with a status, unless the test passes.
abbrev pub guard : Bool → ClientError → Result (Unit {0})
guard false status = err status
guard true status = ok tt

infixl 5 ◌>>=◌ ◌>>◌
abbrev pub ◌>>=◌ {ℓ κ} : {A : Type ℓ} {B : Type κ} → Result A → (A → Result B) → Result B
fault >>= next = fault
err status >>= next = err status
ok value >>= next = next value

abbrev pub ◌>>◌ {ℓ} : {B : Type ℓ} → Result (Unit {0}) → Result B → Result B
first >> second = first >>= λ _. second

-- The routine stays within its objects.
abbrev pub NoFault {ℓ} : {A : Type ℓ} → Result A → Type 0
NoFault (ok a) = Unit
NoFault (err e) = Unit
NoFault fault = ⊥

abbrev pub IsOk {ℓ} : {A : Type ℓ} → Result A → Type 0
IsOk (ok a) = Unit
IsOk (err e) = ⊥
IsOk fault = ⊥

pub IsOk-NoFault {ℓ} : {A : Type ℓ} (r : Result A) → IsOk r → NoFault r
IsOk-NoFault (ok a) h = tt
IsOk-NoFault (err e) h = absurd h
IsOk-NoFault fault h = absurd h

pub IsOk-value {ℓ} : {A : Type ℓ} (r : Result A) → IsOk r → (a : A) × (r ≡ ok a)
IsOk-value (ok a) h = (a, refl)
IsOk-value (err e) h = absurd h
IsOk-value fault h = absurd h

-- What holds of the value, if there is one.
abbrev pub Ensures {ℓ} : {A : Type ℓ} → (A → Type 0) → Result A → Type 0
Ensures P (ok a) = P a
Ensures P (err e) = Unit
Ensures P fault = Unit

-- Reading a postcondition at a result.
pub Ensures-at {ℓ} :
    {A : Type ℓ} (P : A → Type 0) (m : Result A) (a : A) → Ensures P m → m ≡ ok a → P a
Ensures-at P m a h e = rw e at h

module _ {ℓ κ} {A : Type ℓ} {B : Type κ} where
  pub >>=-Ensures :
      (P : A → Type 0) (Q : B → Type 0) (m : Result A) (f : A → Result B)
      → Ensures P m
      → ((a : A) → m ≡ ok a → P a → Ensures Q (f a))
      → Ensures Q (m >>= f)
  >>=-Ensures P Q (ok a) f h k = k a refl h
  >>=-Ensures P Q (err e) f h k = tt
  >>=-Ensures P Q fault f h k = tt

  pub >>=-Ensures_any :
      (Q : B → Type 0) (m : Result A) (f : A → Result B)
      → ((a : A) → m ≡ ok a → Ensures Q (f a))
      → Ensures Q (m >>= f)
  >>=-Ensures_any Q (ok a) f k = k a refl
  >>=-Ensures_any Q (err e) f k = tt
  >>=-Ensures_any Q fault f k = tt

pub guard-Ensures {ℓ} :
    {B : Type ℓ} (Q : B → Type 0) (b : Bool) (e : ClientError) (k : Result B)
    → (b ≡ true → Ensures Q k)
    → Ensures Q (guard b e >> k)
guard-Ensures Q true e k h = h refl
guard-Ensures Q false e k h = tt

module _ {ℓ κ} {A : Type ℓ} {B : Type κ} where
  pub >>=-NoFault :
      (m : Result A) (f : A → Result B)
      → NoFault m
      → ((a : A) → m ≡ ok a → NoFault (f a))
      → NoFault (m >>= f)
  >>=-NoFault (ok a) f h k = k a refl
  >>=-NoFault (err e) f h k = tt
  >>=-NoFault fault f h k = h

pub guard-NoFault {ℓ} :
    {B : Type ℓ} (b : Bool) (e : ClientError) (k : Result B)
    → (b ≡ true → NoFault k)
    → NoFault (guard b e >> k)
guard-NoFault true e k h = h refl
guard-NoFault false e k h = tt

-- What a result says of the steps before it.
pub guard-ok {ℓ} :
    {B : Type ℓ} (b : Bool) (e : ClientError) (k : Result B) (x : B)
    → (guard b e >> k) ≡ ok x
    → (b ≡ true) × (k ≡ ok x)
guard-ok true e k x h = (refl, h)
guard-ok false e k x h = absurd cc

module _ {ℓ κ} {A : Type ℓ} {B : Type κ} where
  pub >>=-ok :
      (m : Result A) (f : A → Result B) (x : B)
      → (m >>= f) ≡ ok x
      → (a : A) × ((m ≡ ok a) × (f a ≡ ok x))
  >>=-ok (ok a) f x h = (a, (refl, h))
  >>=-ok (err e) f x h = absurd cc
  >>=-ok fault f x h = absurd cc
