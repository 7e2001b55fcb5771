-- ===== src/Admission/Start.antt =====
-- The start and the latency report of an admission (src/r_client_workflow.c,
-- r_client_admission_start, r_client_admission_report_latency).
use rl_c_client.Prelude.{
  if◌then◌else◌, ℕ, Bool, true, false, not, ◌&&◌, Option, none, List, [], ◌∷◌,
}
use rl_c_client.Prelude.Results.{err_config, Result, ok, err, fault}
use rl_c_client.Protocol.{ServiceLatencyReport}
use rl_c_client.Client.Machine.{M}
use rl_c_client.Client.Submit.{Submission, checked, check_rate_limit_async}
use rl_c_client.Client.Report.{report_latency}
use rl_c_client.Packet.{Gcm}
use rl_c_client.Admission.{Config, AdmissionRequest, admission_prepare}

-- The request as the client's check gets it: its arrays and its label stay the workflow's.
abbrev pub admission_submission : ℕ → AdmissionRequest → Submission
admission_submission handle request = record {
  handle = handle;
  resources = request.resource ∷ [];
  guards = request.guard ∷ [];
  metrics_label = request.metrics_label;
  metrics_label_len = 0;
  user = request.user;
  borrowed = true;
}

-- The request after the check, whose handle the client has written.
unfoldable pub note_start : AdmissionRequest → Result (Option ℕ) → AdmissionRequest
note_start request (ok handle) = record request { handle = handle; active = true }
note_start request (err e) = record request { handle = none; active = false }
note_start request fault = record request { handle = none; active = false }

abbrev pub status_of {ℓ} : {A : Type ℓ} → Result A → Result (Unit {0})
status_of (ok a) = ok tt
status_of (err e) = err e
status_of fault = fault

-- The report of a request that was admitted.
abbrev pub latency_report : AdmissionRequest → ℕ → ServiceLatencyReport
latency_report request observed_latency_ms = record {
  latency_tracker_id = request.guard.latency_tracker_id;
  observed_latency = observed_latency_ms;
  ttl_ms = request.guard.ttl_ms;
  max_samples = request.guard.max_samples;
  min_sample_threshold = request.guard.min_sample_threshold;
}

unfoldable pub note_report : AdmissionRequest → Result (Unit {0}) → AdmissionRequest
note_report request (ok done) = record request { latency_reported = true }
note_report request (err e) = request
note_report request fault = request

-- Not while it is active, nor unless it was admitted, nor twice.
abbrev pub may_report : AdmissionRequest → Bool
may_report request = not request.active && (request.admitted && not request.latency_reported)

module _ (gcm : Gcm) where
  unfoldable pub start_prepared :
      ℕ → Result (Unit {0}) × AdmissionRequest → M (Result (Unit {0}) × AdmissionRequest)
  start_prepared handle (err e, request) s = ((err e, request), s)
  start_prepared handle (fault, request) s = ((fault, request), s)
  start_prepared handle (ok done, request) s =
      let (checked, s') = check_rate_limit_async gcm (admission_submission handle request) s in
      ((status_of checked, note_start request checked), s')

  -- The status and the request, from the caller's storage for it. `handle` is the address that the
  -- allocator gives the client's request.
  unfoldable pub admission_start :
      (List ℕ → Option (List ℕ))
      → ℕ
      → Config
      → ℕ
      → AdmissionRequest
      → M (Result (Unit {0}) × AdmissionRequest)
  admission_start digest handle config user request =
      start_prepared handle (admission_prepare digest config user request)

  unfoldable pub admission_report_latency :
      AdmissionRequest → ℕ → M (Result (Unit {0}) × AdmissionRequest)
  admission_report_latency request observed_latency_ms s =
      let (status, s') = report_latency gcm (latency_report request observed_latency_ms ∷ []) s in
      if may_report request
      then ((status, note_report request status), s')
      else ((err err_config, request), s)
