-- ===== src/Admission/Classify.antt =====
-- Outcomes and the answers that they are made from (r_client_admission_classify).
use rl_c_client.Prelude.{
  Bool-cases, inl, inr, if◌then◌else◌, ◌≡◌, refl, ap, ◌∙◌, Bool, true, false, not, ◌&&◌, ◌||◌,
  Option, none, some, List, [], ◌∷◌, arith,
}
use rl_c_client.Prelude.Results.{
  ClientError, rclient_ok, err_io, err_timeout, err_protocol, err_auth, err_dns, err_config,
  err_nomem,
}
use rl_c_client.Protocol.{GuardResult, ResourceResult}
use rl_c_client.Protocol.Response.Verdict.{all_passed, all_granted}
use rl_c_client.Client.Machine.{RateLimitResult}
use rl_c_client.Admission.{
  Decision, allowed, rate_limited, latency_limited, rate_and_latency_limited, admission_error,
  is_missing, listed, Answer, answer_of, Outcome, no_outcome, classify_allowed, note_deficit,
  note_failure, decide, admission_classify,
}

-- The three flags of a decision: allowed, rate limited, latency limited.
abbrev pub decision_flags : Decision → Bool × (Bool × Bool)
decision_flags allowed = (true, (false, false))
decision_flags rate_limited = (false, (true, false))
decision_flags latency_limited = (false, (false, true))
decision_flags rate_and_latency_limited = (false, (true, true))
decision_flags admission_error = (false, (false, false))

abbrev pub flags : Outcome → Bool × (Bool × Bool)
flags o = (o.is_allowed, (o.is_rate_limited, o.is_latency_limited))

-- What `decide` reads, and what it leaves.
note_deficit-eq :
    (rs : List ResourceResult) (o : Outcome)
    → o.is_rate_limited ≡ false
    → ((note_deficit rs o).is_rate_limited ≡ not (all_granted rs))
      × ((note_deficit rs o).is_latency_limited ≡ o.is_latency_limited)
      × ((note_deficit rs o).is_allowed ≡ o.is_allowed)
unfolding note_deficit
note_deficit-eq [] o h = ground arith
note_deficit-eq (r ∷ rs) o h = ground (arith, note_deficit-eq rs o h)

note_failure-eq :
    (gs : List GuardResult) (o : Outcome)
    → o.is_latency_limited ≡ false
    → ((note_failure gs o).is_latency_limited ≡ not (all_passed gs))
      × ((note_failure gs o).is_rate_limited ≡ o.is_rate_limited)
      × ((note_failure gs o).is_allowed ≡ o.is_allowed)
unfolding note_failure
note_failure-eq [] o h = ground arith
note_failure-eq (g ∷ gs) o h = ground (arith, note_failure-eq gs o h)

decide-eq :
    (o : Outcome)
    → o.is_allowed ≡ false
    → ((decide o).is_allowed ≡ false)
      × ((decide o).is_rate_limited ≡ (o.is_rate_limited || not o.is_latency_limited))
      × ((decide o).is_latency_limited ≡ o.is_latency_limited)
      × (flags (decide o) ≡ decision_flags (decide o).decision)
unfolding decide
decide-eq o h = ground arith

classify_allowed-eq : (gs : List GuardResult) → flags (classify_allowed gs) ≡ (true, (false, false))
unfolding classify_allowed
classify_allowed-eq [] = refl
classify_allowed-eq (g ∷ gs) = refl

abbrev pub is_admission_error : Decision → Bool
is_admission_error admission_error = true
is_admission_error _ = false

-- Whether the server has answered, with every array whose count is not zero, and whether it grants
-- the request.
abbrev pub is_answered : ClientError → Option Answer → Bool
is_answered rclient_ok (some r) = not (is_missing r.resources) && not (is_missing r.guards)
is_answered _ _ = false

abbrev pub is_granted : ClientError → Option Answer → Bool
is_granted rclient_ok (some r) = is_answered rclient_ok (some r) && r.success
is_granted _ _ = false

pub record IsClassified (status : ClientError) (result : Option Answer) (o : Outcome) : Type 0 where
  pub granted : o.is_allowed ≡ is_granted status result
  pub consistent : flags o ≡ decision_flags o.decision
  pub failed : is_admission_error o.decision ≡ not (is_answered status result)

-- The outcome of a denial, up to its decision.
denied : Answer → Outcome
denied r = note_failure (listed r.guards) (note_deficit (listed r.resources) no_outcome)

denied-eq :
    (r : Answer)
    → flags (denied r)
      ≡ (false, (not (all_granted (listed r.resources)), not (all_passed (listed r.guards))))
unfolding denied
denied-eq r =
    let o = note_deficit (listed r.resources) no_outcome in
    let rates = note_deficit-eq (listed r.resources) no_outcome refl in
    ground (arith, rates, note_failure-eq (listed r.guards) o (rates.1))

allowed_decision : (gs : List GuardResult) → (classify_allowed gs).decision ≡ allowed
unfolding classify_allowed
allowed_decision [] = refl
allowed_decision (g ∷ gs) = refl

decided : (o : Outcome) → is_admission_error (decide o).decision ≡ false
unfolding decide
decided o = ground arith

classify_by_success :
    (r : Answer) (o : Outcome) (success : Bool)
    → is_answered rclient_ok (some r) ≡ true
    → r.success ≡ success
    → o ≡ (if success then classify_allowed (listed r.guards) else decide (denied r))
    → IsClassified rclient_ok (some r) o
classify_by_success r o true there h e = rw e (record {
  granted = ground (arith, h, classify_allowed-eq (listed r.guards));
  consistent = rw (allowed_decision (listed r.guards)) (classify_allowed-eq (listed r.guards));
  failed = rw (allowed_decision (listed r.guards)) (ground arith);
})
classify_by_success r o false there h e =
    let reasons = denied-eq r in
    let (refused, _, _, agrees) = decide-eq (denied r) (ap (λ t. t.0) reasons) in
    rw e (record {
      granted = refused ∙ ground arith;
      consistent = agrees;
      failed = decided (denied r) ∙ ground arith;
    })

-- Every outcome, whatever the status and the answer: the work is allowed exactly if the status is
-- OK, the answer is there with its arrays, and it says so; the three flags are those that the
-- decision names; and the decision is an error exactly if the status is not OK, there is no answer,
-- or one of its arrays is NULL with a count that is not zero.
pub admission_classify-IsClassified :
    (status : ClientError) (result : Option Answer)
    → IsClassified status result (admission_classify status result)
unfolding admission_classify denied
admission_classify-IsClassified rclient_ok (some r) =
    elim (Bool-cases (is_missing r.resources || is_missing r.guards)) [
      | inl gone ↦
          rw gone (record { granted = ground arith; consistent = refl; failed = ground arith })
      | inr there ↦ rw there (classify_by_success r _ r.success (ground arith) refl refl)
    ]
admission_classify-IsClassified rclient_ok none = record {
  granted = refl;
  consistent = refl;
  failed = refl;
}
admission_classify-IsClassified err_io result = record {
  granted = refl;
  consistent = refl;
  failed = refl;
}
admission_classify-IsClassified err_timeout result = record {
  granted = refl;
  consistent = refl;
  failed = refl;
}
admission_classify-IsClassified err_protocol result = record {
  granted = refl;
  consistent = refl;
  failed = refl;
}
admission_classify-IsClassified err_auth result = record {
  granted = refl;
  consistent = refl;
  failed = refl;
}
admission_classify-IsClassified err_dns result = record {
  granted = refl;
  consistent = refl;
  failed = refl;
}
admission_classify-IsClassified err_config result = record {
  granted = refl;
  consistent = refl;
  failed = refl;
}
admission_classify-IsClassified err_nomem result = record {
  granted = refl;
  consistent = refl;
  failed = refl;
}

-- For an answer whose success is that of its entries, as the parser of responses gives it, the
-- flags are the exact reasons: allowed if it succeeds, rate limited if a deficit is left, latency
-- limited if a guard failed.
pub admission_classify-flags :
    (r : RateLimitResult)
    → r.success ≡ (all_passed r.guards && all_granted r.resources)
    → flags (admission_classify rclient_ok (some (answer_of r)))
      ≡ (r.success, (not (all_granted r.resources), not (all_passed r.guards)))
unfolding admission_classify denied
admission_classify-flags r h =
    grind (
      arith,
      denied-eq (answer_of r),
      decide-eq (denied (answer_of r)),
      classify_allowed-eq r.guards,
    )
