-- ===== src/Tests/Reports.antt =====
-- The theorems on reports, admissions and random numbers at a concrete client.
use rl_c_client.Prelude.{
  replicate, length-replicate, ℕ, ◌-◌, ◌^◌, ◌≡◌, refl, ◌↔◌, true, false, Option, none, some, List,
  [], ◌∷◌, arith,
}
use rl_c_client.Prelude.Results.{rclient_ok, fault}
use rl_c_client.Protocol.{ServiceLatencyReport}
use rl_c_client.Client.Machine.{RateLimitResult}
use rl_c_client.Client.Discovery.Start.{rand_range}
use rl_c_client.Client.Discovery.Jitter.{Fills, IsAtMost, rand_range-IsAtMost, rand_range-fault_iff}
use rl_c_client.Client.Report.{report_latency}
use rl_c_client.Client.Report.Delivery.{IsReport, report_latency-IsReport}
use rl_c_client.Admission.{
  answer_of, Config, default_metrics_label, no_outcome, AdmissionRequest, admission_complete,
}
use rl_c_client.Admission.Start.{admission_report_latency}
use rl_c_client.Admission.Started.{IsReportedOnce, report_completed-IsReportedOnce}
use rl_c_client.Tests.Workflow.{toy}
use rl_c_client.Tests.Submissions.{idle}

-- What a passed work reports.
abbrev observed : ServiceLatencyReport
observed = record {
  latency_tracker_id = replicate 16 2;
  observed_latency = 30;
  ttl_ms = 100;
  max_samples = 9;
  min_sample_threshold = 1;
}

report_latency-IsReport_example : IsReport idle (report_latency toy (observed ∷ []) idle)
report_latency-IsReport_example = report_latency-IsReport toy (observed ∷ []) idle

-- The default configuration with two names.
abbrev named : Config
named = record {
  bucket_name = some (98 ∷ []);
  window_size_ms = 1000;
  rate_limit = 100;
  tokens_requested = 1;
  latency_tracker_name = some (116 ∷ []);
  latency_threshold_ms = 100;
  latency_ttl_ms = 10000;
  latency_max_samples = 100;
  latency_min_sample_threshold = 5;
  metrics_label = none;
}

abbrev toy_digest : List ℕ → Option (List ℕ)
toy_digest bytes = some (replicate 16 3)

-- An admission in flight.
abbrev pending : AdmissionRequest
pending = record {
  handle = some 9;
  resource = record {
    bucket_id = replicate 16 3;
    window_size_ms = 1000;
    rate_limit = 100;
    tokens_requested = 1;
  };
  guard = record {
    latency_tracker_id = replicate 16 3;
    threshold_ms = 100;
    ttl_ms = 10000;
    max_samples = 100;
    min_sample_threshold = 5;
  };
  metrics_label = some default_metrics_label;
  user = 4;
  outcome = no_outcome;
  active = true;
  admitted = false;
  work_executed = false;
  latency_reported = false;
}

abbrev grant : RateLimitResult
grant = record {
  success = true;
  server_id = 3;
  steering_feedback = false;
  guards = [];
  resources = [];
}

report_completed-IsReportedOnce_example :
    IsReportedOnce toy rclient_ok (some (answer_of grant)) idle (
      admission_report_latency toy
        (admission_complete pending rclient_ok (some (answer_of grant)))
        30
        idle)
report_completed-IsReportedOnce_example =
    report_completed-IsReportedOnce toy rclient_ok (some (answer_of grant)) pending 30 idle

idle-Fills : Fills idle.host
idle-Fills n k bytes e =
    let same : bytes ≡ replicate k 7 = ground arith in rw same (length-replicate k 7)

rand_range-IsAtMost_example : IsAtMost 500 (rand_range 500 idle).0
rand_range-IsAtMost_example = rand_range-IsAtMost 500 idle (omega arith) idle-Fills

rand_range-fault_iff_example :
    ((rand_range (2 ^ 64 - 1) idle).0 ≡ fault) ↔ (2 ^ 64 - 1 ≡ 2 ^ 64 - 1)
rand_range-fault_iff_example =
    rand_range-fault_iff (2 ^ 64 - 1) idle (replicate 8 7) (omega arith) idle-Fills refl
