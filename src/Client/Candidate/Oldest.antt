-- ===== src/Client/Candidate/Oldest.antt =====
-- The age of servers and the choice between answers (r_server_is_older,
-- r_candidate_try_update_best, r_is_oldest_known_server).
use rl_c_client.Prelude.{
  ltb, leb, if◌then◌else◌, Bool-cases, ℕ, ◌+◌, ◌/◌, ◌^◌, ◌≤◌, ◌<◌, ◌≡◌, refl, inl, inr, Bool, true,
  ◌&&◌, Option, none, some, List, [], ◌∷◌, map, arith,
}
use rl_c_client.Protocol.Response.{RateResponse}
use rl_c_client.Client.Machine.{RateLimitResult, Request}
use rl_c_client.Client.Servers.{
  server_id_epoch_s_2025, server_start_s_from_id, server_is_older, is_oldest_of,
  is_oldest_known_server,
}
use rl_c_client.Client.Candidate.{candidate_set, candidate_try_update_best}

abbrev pub AreU64 : List ℕ → Type 0
AreU64 [] = Unit
AreU64 (id ∷ ids) = (id < 2 ^ 64) × AreU64 ids

start_s_eq :
    (id : ℕ) → id < 2 ^ 64 → server_start_s_from_id id ≡ server_id_epoch_s_2025 + id / 2 ^ 23
unfolding server_start_s_from_id
start_s_eq id h = omega arith

-- The age of 64-bit ids: the start times order them, and the ids break ties.
server_is_older-eq : (a b : ℕ) → a < 2 ^ 64 → b < 2 ^ 64 → server_is_older a b ≡ ltb a b
unfolding server_is_older
server_is_older-eq a b ha hb = grind (arith, start_s_eq a ha, start_s_eq b hb)

-- The test of one id in `is_oldest_of`.
abbrev pub is_least : ℕ → List ℕ → Bool
is_least id [] = true
is_least id (x ∷ xs) = leb id x && is_least id xs

is_oldest_of-eq :
    (ids : List ℕ) (id : ℕ) → AreU64 ids → id < 2 ^ 64 → is_oldest_of ids id ≡ is_least id ids
unfolding is_oldest_of
is_oldest_of-eq [] id hs h = refl
is_oldest_of-eq (x ∷ xs) id hs h =
    grind (arith, start_s_eq x hs.0, start_s_eq id h, is_oldest_of-eq xs id hs.1 h)

-- An answer as the datagram handler gets it.
pub record Answer : Type 0 where
  pub server_id : ℕ
  pub steering_feedback : Bool
  pub response : RateResponse

abbrev pub candidate_of : Answer → RateLimitResult
candidate_of a = candidate_set a.server_id a.steering_feedback a.response

-- The candidate after the answers, in the order of their arrival.
abbrev pub best_after : Option RateLimitResult → List Answer → Option RateLimitResult
best_after best [] = best
best_after best (b ∷ bs) =
    best_after (candidate_try_update_best best b.server_id b.steering_feedback b.response).0 bs

abbrev pub ids_of : List Answer → List ℕ
ids_of bs = map (λ a. a.server_id) bs

-- The first of the answers with the least id.
abbrev pub oldest : Answer → List Answer → Answer
oldest a [] = a
oldest a (b ∷ bs) = oldest (if ltb b.server_id a.server_id then b else a) bs

kept_first :
    (a b : Answer)
    → a.server_id < 2 ^ 64
    → b.server_id < 2 ^ 64
    → (candidate_try_update_best
        (some (candidate_of a))
        b.server_id
        b.steering_feedback
        b.response).0
      ≡ some (candidate_of (if ltb b.server_id a.server_id then b else a))
unfolding candidate_try_update_best candidate_set
kept_first a b ha hb = elim (Bool-cases (ltb b.server_id a.server_id)) [
  | inl e ↦ rw (server_is_older-eq b.server_id a.server_id hb ha, e) refl
  | inr e ↦ rw (server_is_older-eq b.server_id a.server_id hb ha, e) refl
]

best_after-eq :
    (a : Answer) (bs : List Answer)
    → AreU64 (ids_of (a ∷ bs))
    → best_after (some (candidate_of a)) bs ≡ some (candidate_of (oldest a bs))
best_after-eq a [] h = refl
best_after-eq a (b ∷ bs) h =
    let next = if ltb b.server_id a.server_id then b else a in
    rw (kept_first a b (h.0) (h.1.0)) (best_after-eq next bs (ground arith))

oldest_le : (a : Answer) (bs : List Answer) → (oldest a bs).server_id ≤ a.server_id
oldest_le a [] = omega arith
oldest_le a (b ∷ bs) =
    let rest = oldest_le (if ltb b.server_id a.server_id then b else a) bs in ground arith

oldest-is_least :
    (a : Answer) (bs : List Answer) → is_least (oldest a bs).server_id (ids_of (a ∷ bs)) ≡ true
oldest-is_least a [] = ground arith
oldest-is_least a (b ∷ bs) =
    let next = if ltb b.server_id a.server_id then b else a in
    let rest = oldest-is_least next bs in ground (arith, oldest_le next bs)

-- After any non-empty sequence of answers with 64-bit server ids the kept candidate is that of the
-- first answer with the least id, and its id is at most every other, whatever the order of arrival.
pub best_after-oldest :
    (a : Answer) (bs : List Answer)
    → AreU64 (ids_of (a ∷ bs))
    → (best_after none (a ∷ bs) ≡ some (candidate_of (oldest a bs)))
      × (is_least (oldest a bs).server_id (ids_of (a ∷ bs)) ≡ true)
unfolding candidate_try_update_best
best_after-oldest a bs h = (best_after-eq a bs h, oldest-is_least a bs)

-- The test that ends the wait for a better answer: a server is the oldest known exactly if its id
-- is at most every id in the request's allow-list. All ids are 64-bit numbers.
pub is_oldest_known_server-eq :
    (req : Request) (id : ℕ)
    → AreU64 req.allowed_ids
    → id < 2 ^ 64
    → is_oldest_known_server req id ≡ is_least id req.allowed_ids
unfolding is_oldest_known_server
is_oldest_known_server-eq req id hs h = is_oldest_of-eq req.allowed_ids id hs h
