-- ===== src/Admission/Started.antt =====
-- What the start and the report of an admission leave behind (r_client_admission_start,
-- r_client_admission_complete, r_client_admission_report_latency).
use rl_c_client.Prelude.{
  Bool-cases, ℕ, ◌≡◌, refl, ◌⊎◌, inl, inr, true, false, Option, none, some, [], ◌∷◌, arith,
}
use rl_c_client.Prelude.Results.{ClientError, err_config, Result, ok, err, fault}
use rl_c_client.Client.Machine.{Machine}
use rl_c_client.Client.Complete.Effects.{IsQuiet, IsQuiet-refl}
use rl_c_client.Client.Submit.Outcomes.{IsAdmitted}
use rl_c_client.Client.Report.{report_latency}
use rl_c_client.Client.Report.Delivery.{IsReport-IsQuiet, report_latency-IsReport}
use rl_c_client.Packet.{Gcm}
use rl_c_client.Admission.{
  Answer, Config, AdmissionRequest, admission_config_valid, admission_complete, active_handle,
}
use rl_c_client.Admission.Classify.{is_granted, admission_classify-IsClassified}
use rl_c_client.Admission.Start.{latency_report, note_report, may_report, admission_report_latency}

-- An invalid configuration leaves everything as it is.
abbrev pub IsUntouched : Config → AdmissionRequest → Machine → AdmissionRequest → Machine → Type 0
IsUntouched config before s request t =
    (admission_config_valid config ≡ false) × ((request ≡ before) × (t ≡ s))

-- Without a check: no handle, and nothing happens to the requests in flight.
abbrev pub IsInactive : Machine → AdmissionRequest → Machine → Type 0
IsInactive s request t = (active_handle request ≡ none) × IsQuiet s t

-- An admission that is started has its check in flight.
abbrev pub IsStart :
    ℕ
    → ℕ
    → Config
    → AdmissionRequest
    → Machine
    → (Result (Unit {0}) × AdmissionRequest) × Machine
    → Type 0
IsStart handle user config before s ((ok done, request), t) =
    (active_handle request ≡ some handle)
    × ((request.admitted ≡ false)
        × ((request.latency_reported ≡ false)
            × ((request.user ≡ user) × IsAdmitted handle user s t)))
IsStart handle user config before s ((err e, request), t) =
    IsUntouched config before s request t
    ⊎ ((admission_config_valid config ≡ true) × IsInactive s request t)
IsStart handle user config before s ((fault, request), t) = IsInactive s request t

-- What the preparation leaves in the storage.
abbrev IsPrepared : ℕ → Config → AdmissionRequest → Result (Unit {0}) × AdmissionRequest → Type 0
IsPrepared user config before (ok done, request) =
    (admission_config_valid config ≡ true)
    × ((request.admitted ≡ false) × ((request.latency_reported ≡ false) × (request.user ≡ user)))
IsPrepared user config before (err e, request) =
    ((admission_config_valid config ≡ false) × (request ≡ before))
    ⊎ ((admission_config_valid config ≡ true) × (request.active ≡ false))
IsPrepared user config before (fault, request) = request.active ≡ false

-- A report for a completed admission.
pub record IsReportedOnce (gcm : Gcm) (status : ClientError) (result : Option Answer) (s : Machine)
    (out : (Result (Unit {0}) × AdmissionRequest) × Machine) : Type 0 where
  pub quiet : IsQuiet s out.1
  pub allowed : out.0.0 ≡ ok tt → is_granted status result ≡ true
  pub once :
      out.0.0 ≡ ok tt
      → (latency : ℕ) (t : Machine)
      → admission_report_latency gcm out.0.1 latency t ≡ ((err err_config, out.0.1), t)

-- A report that was made is refused from then on.
refused_again :
    (gcm : Gcm) (request : AdmissionRequest) (latency : ℕ) (t : Machine)
    → request.latency_reported ≡ true
    → admission_report_latency gcm request latency t ≡ ((err err_config, request), t)
unfolding admission_report_latency
refused_again gcm request latency t reported = ground arith

module _ (gcm : Gcm) (status : ClientError) (result : Option Answer) where
  reported-once :
      (request : AdmissionRequest) (done : Result (Unit {0})) (s t : Machine)
      → IsQuiet s t
      → is_granted status result ≡ true
      → IsReportedOnce gcm status result s ((done, note_report request done), t)
  unfolding note_report
  reported-once request (ok d) s t q granted = record {
    quiet = q;
    allowed = λ _. granted;
    once = λ _ latency u. refused_again gcm (note_report request (ok d)) latency u refl;
  }
  reported-once request (err e) s t q granted = record {
    quiet = q;
    allowed = λ _. granted;
    once = λ h. ground arith;
  }
  reported-once request fault s t q granted = record {
    quiet = q;
    allowed = λ _. granted;
    once = λ h. ground arith;
  }

  may-granted :
      (request : AdmissionRequest)
      → may_report (admission_complete request status result) ≡ true
      → is_granted status result ≡ true
  unfolding admission_complete
  may-granted request e = ground (arith, admission_classify-IsClassified status result)

  -- A latency report for an admission whose check has completed with any status and any answer:
  -- the requests in flight stay and nothing is called back. If it succeeds, the check has completed
  -- with success and an answer that grants it, and any later report for the same admission is
  -- refused with RCLIENT_ERR_CONFIG and changes nothing.
  pub report_completed-IsReportedOnce :
      (request : AdmissionRequest) (latency : ℕ) (s : Machine)
      → IsReportedOnce gcm status result s
          (admission_report_latency gcm (admission_complete request status result) latency s)
  unfolding admission_report_latency
  report_completed-IsReportedOnce request latency s =
      let completed = admission_complete request status result in
      let granted = admission_classify-IsClassified status result in
      let (done, t) = report_latency gcm (latency_report completed latency ∷ []) s in
      let quiet =
        IsReport-IsQuiet s (done, t)
          (report_latency-IsReport gcm (latency_report completed latency ∷ []) s) in
      elim (Bool-cases (may_report completed)) [
        | inl e ↦ rw e (reported-once completed done s t quiet (may-granted request e))
        | inr e ↦ rw e (record {
          quiet = IsQuiet-refl s;
          allowed = λ h. ground arith;
          once = λ h. ground arith;
        })
      ]
