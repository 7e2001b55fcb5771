-- ===== src/Responder/Quota/Counters.antt =====
-- The quota as one counter for each bucket (quota_allows).
use rl_c_client.Prelude.{
  ltb, leb, if◌then◌else◌, leb→le, Bool-cases, length, ℕ, ◌+◌, ◌%◌, ◌^◌, ◌≤◌, ◌≡◌, refl, sym, ap₂,
  ◌∙◌, subst, inl, inr, Bool, true, false, Option, none, some, List, [], ◌∷◌, ◌++◌, arith,
}
use rl_c_client.Client.Machine.{bytes_eq}
use rl_c_client.Responder.Quota.{
  quota_cap, QuotaEntry, behind, count_request, new_quota, quota_allows,
}

-- How often a bucket has been asked for.
abbrev pub requests_of : List QuotaEntry → List ℕ → ℕ
requests_of [] id = 0
requests_of (q ∷ qs) id = if bytes_eq q.bucket_id id then q.requests else requests_of qs id

-- The counters after one more request for a bucket.
abbrev pub counted : (List ℕ → ℕ) → List ℕ → List ℕ → ℕ
counted counters id k = if bytes_eq id k then (counters id + 1) % 2 ^ 64 else counters k

-- What the entries do, as far as the counters tell.
abbrev pub IsQuotaStep : ℕ → List ℕ → List QuotaEntry → Option Bool × List QuotaEntry → Type 0
IsQuotaStep allow_count id entries (some allowed, entries') =
    (allowed ≡ ltb (requests_of entries id) allow_count)
    × ((k : List ℕ) → requests_of entries' k ≡ counted (requests_of entries) id k)
IsQuotaStep allow_count id entries (none, entries') =
    (entries' ≡ entries) × ((requests_of entries id ≡ 0) × (quota_cap ≤ length entries))

pub bytes_eq-eq : (xs ys : List ℕ) → bytes_eq xs ys ≡ true → xs ≡ ys
bytes_eq-eq [] [] e = refl
bytes_eq-eq [] (y ∷ ys) e = ground arith
bytes_eq-eq (x ∷ xs) [] e = ground arith
bytes_eq-eq (x ∷ xs) (y ∷ ys) e =
    let first : x ≡ y = ground arith in
    let rest : bytes_eq xs ys ≡ true = ground arith in ap₂ ◌∷◌ first (bytes_eq-eq xs ys rest)

bytes_eq_refl : (xs : List ℕ) → bytes_eq xs xs ≡ true
bytes_eq_refl [] = refl
bytes_eq_refl (x ∷ xs) = ground (arith, bytes_eq_refl xs)

-- No entry is the bucket's.
abbrev pub Absent : List ℕ → List QuotaEntry → Type 0
Absent id [] = Unit
Absent id (q ∷ qs) = (bytes_eq q.bucket_id id ≡ false) × Absent id qs

requests_of-Absent : (id : List ℕ) (es : List QuotaEntry) → Absent id es → requests_of es id ≡ 0
requests_of-Absent id [] h = refl
requests_of-Absent id (q ∷ qs) (other, h) = rw other (requests_of-Absent id qs h)

-- The loop, with an entry for the bucket and without.
abbrev IsCount : ℕ → List ℕ → List QuotaEntry → Option (Bool × List QuotaEntry) → Type 0
IsCount allow_count id entries (some (allowed, entries')) =
    (allowed ≡ ltb (requests_of entries id) allow_count)
    × ((k : List ℕ) → requests_of entries' k ≡ counted (requests_of entries) id k)
IsCount allow_count id entries none = Absent id entries

-- A third block equals one of two different blocks at most.
apart : (b id k : List ℕ) → bytes_eq b id ≡ false → bytes_eq b k ≡ true → bytes_eq id k ≡ false
apart b id k other same = elim (Bool-cases (bytes_eq id k)) [
  | inr e ↦ e
  | inl e ↦
      let to_k = bytes_eq-eq b k same in
      let from_k = bytes_eq-eq id k e in
      let self : bytes_eq b id ≡ true =
        subst (λ x. bytes_eq b x ≡ true) (to_k ∙ sym from_k) (bytes_eq_refl b) in
      ground arith
]

module _ (allow_count : ℕ) (id : List ℕ) where
  -- An entry of another bucket in front.
  behind-IsCount :
      (q : QuotaEntry) (qs : List QuotaEntry) (rest : Option (Bool × List QuotaEntry))
      → bytes_eq q.bucket_id id ≡ false
      → IsCount allow_count id qs rest
      → IsCount allow_count id (q ∷ qs) (behind q rest)
  behind-IsCount q qs (some (allowed, es)) other (a, c) = (
    rw other a,
    λ k. elim (Bool-cases (bytes_eq q.bucket_id k)) [
      | inl e ↦ rw (other, e, apart q.bucket_id id k other e) refl
      | inr e ↦ rw (other, e) (c k)
    ],
  )
  behind-IsCount q qs none other h = (other, h)

  -- The entry of the bucket.
  here-IsCount :
      (q : QuotaEntry) (qs : List QuotaEntry)
      → bytes_eq q.bucket_id id ≡ true
      → IsCount allow_count id (q ∷ qs) (
          some (ltb q.requests allow_count, record q { requests = (q.requests + 1) % 2 ^ 64 } ∷ qs))
  here-IsCount q qs same =
      let at : q.bucket_id ≡ id = bytes_eq-eq q.bucket_id id same in
      (
        rw same refl,
        λ k. elim (Bool-cases (bytes_eq q.bucket_id k)) [
          | inl e ↦
              let too : bytes_eq id k ≡ true = subst (λ b. bytes_eq b k ≡ true) at e in
              rw (same, e, too) refl
          | inr e ↦
              let not_it : bytes_eq id k ≡ false = subst (λ b. bytes_eq b k ≡ false) at e in
              rw (e, not_it) refl
        ],
      )

  count_request-IsCount :
      (entries : List QuotaEntry)
      → IsCount allow_count id entries (count_request allow_count id entries)
  unfolding count_request
  count_request-IsCount [] = tt
  count_request-IsCount (q ∷ qs) = elim (Bool-cases (bytes_eq q.bucket_id id)) [
    | inl e ↦ let here = here-IsCount q qs e in rw e here
    | inr e ↦
        let there =
          behind-IsCount q qs (count_request allow_count id qs) e (count_request-IsCount qs) in
        rw e there
  ]

  -- A new entry behind the others.
  requests_of-new :
      (entries : List QuotaEntry) (k : List ℕ)
      → Absent id entries
      → requests_of (entries ++ record { bucket_id = id; requests = 1 } ∷ []) k
        ≡ (if bytes_eq id k then 1 else requests_of entries k)
  requests_of-new [] k h = refl
  requests_of-new (q ∷ qs) k (other, h) = elim (Bool-cases (bytes_eq q.bucket_id k)) [
    | inl e ↦ rw (e, apart q.bucket_id id k other e) refl
    | inr e ↦ rw e (requests_of-new qs k h)
  ]

  new_quota-IsQuotaStep :
      (entries : List QuotaEntry) (count : Option (Bool × List QuotaEntry))
      → IsCount allow_count id entries count
      → IsQuotaStep allow_count id entries (new_quota allow_count id entries count)
  unfolding new_quota
  new_quota-IsQuotaStep entries (some (allowed, es)) h = h
  new_quota-IsQuotaStep entries none h =
      let zero_yet = requests_of-Absent id entries h in
      elim (Bool-cases (leb quota_cap (length entries))) [
        | inl full ↦ rw full (refl, (zero_yet, leb→le quota_cap (length entries) full))
        | inr room ↦ rw room (rw zero_yet refl, λ k. requests_of-new entries k h ∙ rw zero_yet refl)
      ]

-- The quota's array implements one counter for each bucket: a request is allowed exactly if the
-- bucket has been asked for less often than the limit, it adds one, modulo 2^64, to its bucket's
-- counter and to no other. Only for a bucket that has never been counted, with all 256 entries
-- taken, it is refused with an error, and then nothing changes.
pub quota_allows-IsQuotaStep :
    (allow_count : ℕ) (id : List ℕ) (entries : List QuotaEntry)
    → IsQuotaStep allow_count id entries (quota_allows allow_count id entries)
unfolding quota_allows
quota_allows-IsQuotaStep allow_count id entries =
    new_quota-IsQuotaStep allow_count id entries (count_request allow_count id entries)
      (count_request-IsCount allow_count id entries)
