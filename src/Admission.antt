-- ===== src/Admission.antt =====
-- The admission workflow (src/r_client_workflow.c, include/r_client_workflow.h): one rate limit and
-- one latency guard, from the configuration to the decision.
pub mod Classify
pub mod Start
pub mod Started
use rl_c_client.Prelude.{
  replicate, ltb, if◌then◌else◌, ℕ, Bool, true, false, not, ◌&&◌, ◌||◌, Option, none, some, List,
  [], ◌∷◌,
}
use rl_c_client.Prelude.Results.{ClientError, rclient_ok, err_config, Result, ok, err, fault}
use rl_c_client.Protocol.{ResourceRequest, LatencyGuard, GuardResult, ResourceResult}
use rl_c_client.Content.{derive_bucket_id, derive_latency_tracker_id}
use rl_c_client.Client.Machine.{RateLimitResult, Machine, M}
use rl_c_client.Client.Complete.{request_deadline_ms, on_timeout, cancel_request}

-- `r_admission_decision_t`.
pub data Decision : Type 0 where
  allowed rate_limited latency_limited rate_and_latency_limited admission_error : Decision

-- `r_admission_outcome_t`.
pub record Outcome : Type 0 where
  pub decision : Decision
  pub is_allowed : Bool
  pub is_rate_limited : Bool
  pub is_latency_limited : Bool
  pub tokens_deficit : ℕ
  pub current_latency_ms : ℕ
  pub latency_threshold_ms : ℕ

-- `r_admission_config_t`; a string is its bytes, and `none` is NULL.
pub record Config : Type 0 where
  pub bucket_name : Option (List ℕ)
  pub window_size_ms : ℕ
  pub rate_limit : ℕ
  pub tokens_requested : ℕ
  pub latency_tracker_name : Option (List ℕ)
  pub latency_threshold_ms : ℕ
  pub latency_ttl_ms : ℕ
  pub latency_max_samples : ℕ
  pub latency_min_sample_threshold : ℕ
  pub metrics_label : Option (List ℕ)

-- `rl-c-client-example`.
abbrev pub default_metrics_label : List ℕ
default_metrics_label =
    114 ∷ 108 ∷ 45 ∷ 99 ∷ 45 ∷ 99 ∷ 108 ∷ 105 ∷ 101 ∷ 110 ∷ 116 ∷ 45 ∷ 101 ∷ 120 ∷ 97 ∷ 109 ∷ 112
    ∷ 108 ∷ 101 ∷ []

unfoldable pub admission_config_defaults : Config
admission_config_defaults = record {
  bucket_name = none;
  window_size_ms = 1000;
  rate_limit = 100;
  tokens_requested = 1;
  latency_tracker_name = none;
  latency_threshold_ms = 100;
  latency_ttl_ms = 10000;
  latency_max_samples = 100;
  latency_min_sample_threshold = 5;
  metrics_label = some default_metrics_label;
}

abbrev pub is_name : Option (List ℕ) → Bool
is_name none = false
is_name (some []) = false
is_name (some (c ∷ cs)) = true

unfoldable pub admission_config_valid : Config → Bool
admission_config_valid config =
    is_name config.bucket_name
    && (is_name config.latency_tracker_name
        && (ltb 0 config.window_size_ms
            && (ltb 0 config.rate_limit
                && (ltb 0 config.tokens_requested
                    && (ltb 0 config.latency_threshold_ms
                        && (ltb 0 config.latency_ttl_ms
                            && (ltb 0 config.latency_max_samples
                                && ltb 0 config.latency_min_sample_threshold)))))))

abbrev pub no_outcome : Outcome
no_outcome = record {
  decision = admission_error;
  is_allowed = false;
  is_rate_limited = false;
  is_latency_limited = false;
  tokens_deficit = 0;
  current_latency_ms = 0;
  latency_threshold_ms = 0;
}

-- An answer that lets the work pass: the outcome names the first guard.
unfoldable pub classify_allowed : List GuardResult → Outcome
classify_allowed [] = record no_outcome { decision = allowed; is_allowed = true }
classify_allowed (g ∷ gs) = record no_outcome {
  current_latency_ms = g.current_latency_ms;
  latency_threshold_ms = g.threshold_ms;
  decision = allowed;
  is_allowed = true;
}

-- The two loops, each up to its `break`.
unfoldable pub note_deficit : List ResourceResult → Outcome → Outcome
note_deficit [] o = o
note_deficit (r ∷ rs) o =
    if ltb 0 r.tokens_deficit
    then record o { is_rate_limited = true; tokens_deficit = r.tokens_deficit }
    else note_deficit rs o

unfoldable pub note_failure : List GuardResult → Outcome → Outcome
note_failure [] o = o
note_failure (g ∷ gs) o =
    if not g.passed
    then record o {
      is_latency_limited = true;
      current_latency_ms = g.current_latency_ms;
      latency_threshold_ms = g.threshold_ms;
    }
    else note_failure gs o

-- From the comment on a denial without a failed guard.
unfoldable pub decide : Outcome → Outcome
decide o =
    let rate =
      if not o.is_rate_limited && not o.is_latency_limited then true else o.is_rate_limited in
    record o {
      is_rate_limited = rate;
      decision =
          if rate && o.is_latency_limited
          then rate_and_latency_limited
          else if o.is_latency_limited
          then latency_limited
          else rate_limited;
    }

-- An array with its count: `null` is NULL, with a count all the same.
pub data Entries (A : Type 0) : Type 0 where
  null : ℕ → Entries A
  items : List A → Entries A

abbrev pub is_missing : {A : Type 0} → Entries A → Bool
is_missing (null count) = ltb 0 count
is_missing (items xs) = false

abbrev pub listed : {A : Type 0} → Entries A → List A
listed (null count) = []
listed (items xs) = xs

-- What an outcome reads of a `r_rate_limit_result_t`.
pub record Answer : Type 0 where
  pub success : Bool
  pub resources : Entries ResourceResult
  pub guards : Entries GuardResult

-- The answer as the client hands it out.
abbrev pub answer_of : RateLimitResult → Answer
answer_of r = record { success = r.success; resources = items r.resources; guards = items r.guards }

unfoldable pub admission_classify : ClientError → Option Answer → Outcome
admission_classify rclient_ok (some answer) =
    if is_missing answer.resources || is_missing answer.guards
    then no_outcome
    else if answer.success
    then classify_allowed (listed answer.guards)
    else decide
        (note_failure (listed answer.guards) (note_deficit (listed answer.resources) no_outcome))
admission_classify _ _ = no_outcome

-- `r_admission_request_t`; `none` is NULL.
pub record AdmissionRequest : Type 0 where
  pub handle : Option ℕ
  pub resource : ResourceRequest
  pub guard : LatencyGuard
  pub metrics_label : Option (List ℕ)
  pub user : ℕ
  pub outcome : Outcome
  pub active : Bool
  pub admitted : Bool
  pub work_executed : Bool
  pub latency_reported : Bool

abbrev pub name_bytes : Option (List ℕ) → List ℕ
name_bytes none = []
name_bytes (some cs) = cs

-- The storage after the `memset`.
abbrev pub cleared : AdmissionRequest
cleared = record {
  handle = none;
  resource = record {
    bucket_id = replicate 16 0;
    window_size_ms = 0;
    rate_limit = 0;
    tokens_requested = 0;
  };
  guard = record {
    latency_tracker_id = replicate 16 0;
    threshold_ms = 0;
    ttl_ms = 0;
    max_samples = 0;
    min_sample_threshold = 0;
  };
  metrics_label = none;
  user = 0;
  outcome = record no_outcome { decision = allowed };
  active = false;
  admitted = false;
  work_executed = false;
  latency_reported = false;
}

-- The storage from the bucket's identifier on, and from the tracker's on.
abbrev pub with_bucket : Config → List ℕ → AdmissionRequest
with_bucket config bucket_id = record cleared {
  resource = record {
    bucket_id = bucket_id;
    window_size_ms = config.window_size_ms;
    rate_limit = config.rate_limit;
    tokens_requested = config.tokens_requested;
  };
}

unfoldable pub prepare_guard :
    Config → ℕ → AdmissionRequest → Result (List ℕ) → Result (Unit {0}) × AdmissionRequest
prepare_guard config user request (err e) = (err err_config, request)
prepare_guard config user request fault = (fault, request)
prepare_guard config user request (ok tracker_id) = (
  ok tt,
  record request {
    guard = record {
      latency_tracker_id = tracker_id;
      threshold_ms = config.latency_threshold_ms;
      ttl_ms = config.latency_ttl_ms;
      max_samples = config.latency_max_samples;
      min_sample_threshold = config.latency_min_sample_threshold;
    };
    metrics_label = elim config.metrics_label [
      | none ↦ some default_metrics_label
      | some label ↦ some label
    ];
    user = user;
    outcome = no_outcome;
  },
)

unfoldable pub prepare_resource :
    Config → ℕ → Result (List ℕ) → Result (List ℕ) → Result (Unit {0}) × AdmissionRequest
prepare_resource config user (err e) tracker = (err err_config, cleared)
prepare_resource config user fault tracker = (fault, cleared)
prepare_resource config user (ok bucket_id) tracker =
    prepare_guard config user (with_bucket config bucket_id) tracker

-- With the digest that both identifiers are taken from, and the caller's storage for the request.
unfoldable pub admission_prepare :
    (List ℕ → Option (List ℕ))
    → Config
    → ℕ
    → AdmissionRequest
    → Result (Unit {0}) × AdmissionRequest
admission_prepare digest config user request =
    let bucket =
      derive_bucket_id digest (name_bytes config.bucket_name) config.window_size_ms
        config.rate_limit in
    let tracker =
      derive_latency_tracker_id digest (name_bytes config.latency_tracker_name)
        config.latency_ttl_ms config.latency_max_samples config.latency_min_sample_threshold in
    if admission_config_valid config
    then prepare_resource config user bucket tracker
    else (err err_config, request)

-- The client's callback: the request, which is handed to the caller's callback with the status.
unfoldable pub admission_complete :
    AdmissionRequest → ClientError → Option Answer → AdmissionRequest
admission_complete request status result =
    let outcome = admission_classify status result in
    record request {
      handle = none;
      active = false;
      outcome = outcome;
      admitted = outcome.is_allowed;
    }

-- The handle of an active request.
abbrev pub active_handle : AdmissionRequest → Option ℕ
active_handle request = if request.active then request.handle else none

unfoldable pub admission_deadline_ms : AdmissionRequest → Machine → Result ℕ
admission_deadline_ms request s = elim (active_handle request) [
  | none ↦ err err_config
  | some handle ↦ request_deadline_ms handle s
]

unfoldable pub admission_on_timeout : AdmissionRequest → ℕ → M (Result ClientError)
admission_on_timeout request now s = elim (active_handle request) [
  | none ↦ (err err_config, s)
  | some handle ↦ on_timeout handle now s
]

unfoldable pub admission_cancel : AdmissionRequest → M AdmissionRequest
admission_cancel request s = elim (active_handle request) [
  | none ↦ (request, s)
  | some handle ↦
      (record request { handle = none; active = false; admitted = false }, cancel_request handle s)
]
