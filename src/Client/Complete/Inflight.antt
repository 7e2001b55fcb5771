-- ===== src/Client/Complete/Inflight.antt =====
-- The list of requests in flight under a write, a removal and a search.
use rl_c_client.Prelude.{
  ◌==◌, if◌then◌else◌, length, ℕ, ◌+◌, ◌≡◌, refl, true, false, none, some, List, [], ◌∷◌, arith,
}
use rl_c_client.Client.Machine.{Request}
use rl_c_client.Client.Complete.{request_remove, store_request, find_request}

-- No handle is in the list twice.
abbrev pub IsUnique : List Request → Type 0
IsUnique [] = Unit
IsUnique (r ∷ rs) = (find_request r.handle rs ≡ none) × IsUnique rs

pub find_request-store_request :
    (h : ℕ) (req : Request) (rs : List Request)
    → find_request h (store_request req rs) ≡ (
        if h == req.handle
        then (elim (find_request h rs) [ none ↦ none | some r ↦ some req ])
        else find_request h rs)
unfolding find_request store_request
find_request-store_request h req [] = ground arith
find_request-store_request h req (r ∷ rs) = ground (arith, find_request-store_request h req rs)

pub store_request-IsUnique :
    (req : Request) (rs : List Request) → IsUnique rs → IsUnique (store_request req rs)
unfolding find_request store_request
store_request-IsUnique req [] u = tt
store_request-IsUnique req (r ∷ rs) u =
    ground (arith, store_request-IsUnique req rs u.1, find_request-store_request r.handle req rs)

pub find_request-handle :
    (h : ℕ) (rs : List Request) (r : Request) → find_request h rs ≡ some r → r.handle ≡ h
unfolding find_request
find_request-handle h [] r e = cc
find_request-handle h (x ∷ rs) r e = ground (arith, find_request-handle h rs r)

-- A removal takes one handle out and leaves the others.
pub find_request-remove :
    (k h : ℕ) (rs : List Request)
    → IsUnique rs
    → find_request k (request_remove h rs).0 ≡ (if k == h then none else find_request k rs)
unfolding find_request request_remove
find_request-remove k h [] u = ground arith
find_request-remove k h (r ∷ rs) u = ground (arith, find_request-remove k h rs u.1)

pub request_remove-IsUnique :
    (h : ℕ) (rs : List Request) → IsUnique rs → IsUnique (request_remove h rs).0
unfolding find_request request_remove
request_remove-IsUnique h [] u = tt
request_remove-IsUnique h (r ∷ rs) u =
    ground (arith, request_remove-IsUnique h rs u.1, find_request-remove r.handle h rs u.1)

-- Whether the request was there.
pub request_remove-found :
    (h : ℕ) (rs : List Request)
    → (request_remove h rs).1 ≡ (elim (find_request h rs) [ none ↦ false | some r ↦ true ])
unfolding find_request request_remove
request_remove-found h [] = refl
request_remove-found h (r ∷ rs) = ground (arith, request_remove-found h rs)

-- A write keeps the number of requests, and a removal takes one away where it finds one.
pub length-store_request :
    (req : Request) (rs : List Request) → length (store_request req rs) ≡ length rs
unfolding store_request
length-store_request req [] = refl
length-store_request req (r ∷ rs) = ground (arith, length-store_request req rs)

pub length-request_remove :
    (h : ℕ) (rs : List Request)
    → length (request_remove h rs).0 + (if (request_remove h rs).1 then 1 else 0) ≡ length rs
unfolding request_remove
length-request_remove h [] = refl
length-request_remove h (r ∷ rs) = ground (arith, length-request_remove h rs)

-- The requests in flight of one user.
abbrev pub waiting_for : ℕ → List Request → ℕ
waiting_for user [] = 0
waiting_for user (r ∷ rs) = (if r.user == user then 1 else 0) + waiting_for user rs

-- A write that keeps the user keeps the count, and a removal takes the one that it finds away.
pub waiting_for-store_request :
    (user : ℕ) (req old : Request) (rs : List Request)
    → find_request req.handle rs ≡ some old
    → req.user ≡ old.user
    → waiting_for user (store_request req rs) ≡ waiting_for user rs
unfolding find_request store_request
waiting_for-store_request user req old [] found same = cc
waiting_for-store_request user req old (r ∷ rs) found same =
    ground (arith, waiting_for-store_request user req old rs)

pub waiting_for-request_remove :
    (user h : ℕ) (req : Request) (rs : List Request)
    → find_request h rs ≡ some req
    → (if req.user == user then 1 else 0) + waiting_for user (request_remove h rs).0
      ≡ waiting_for user rs
unfolding find_request request_remove
waiting_for-request_remove user h req [] found = cc
waiting_for-request_remove user h req (r ∷ rs) found =
    ground (arith, waiting_for-request_remove user h req rs)
