-- ===== src/Responder/Answered.antt =====
-- To what the responder answers (tools/r_test_responder_protocol.c, r_test_responder_process).
use rl_c_client.Prelude.{
  ◌==◌, Bool-cases, leb, if◌then◌else◌, ◌&&◌, length, drop, sym, ap, ◌∙◌, arith, ℕ, ◌+◌, ◌%◌, ◌^◌,
  ◌≡◌, refl, inl, inr, false, Option, none, some, List,
}
use rl_c_client.Prelude.Results.{err_protocol, Result, ok, err, fault, guard-ok, >>=-ok}
use rl_c_client.Bytes.{read_le16}
use rl_c_client.Protocol.{pdu_header_len, pdu_rate_request, pdu_latency_report, TenantHeader}
use rl_c_client.Packet.{Gcm}
use rl_c_client.Responder.{
  ParsedRequest, parse_rate_body, parse_report_body, parse_request_pdu, extract_authenticated_pdu,
}
use rl_c_client.Responder.Authentic.{IsOpened, extract_authenticated_pdu-IsOpened}
use rl_c_client.Responder.RoundTrip.Label.{ok-inj}
use rl_c_client.Responder.Process.{
  ResponderState, ResponderEvent, report_event, request_event, is_drop, process_report,
  process_request, process_parsed, process_opened, process,
}

-- The PDU says that it is a rate-limit request, and how long it is.
pub record IsRequestPdu (pdu : List ℕ) : Type 0 where
  pub typed : read_le16 pdu 0 ≡ ok pdu_rate_request
  pub sized : read_le16 pdu 2 ≡ ok (length pdu)

by_type :
    (kind : ℕ) (rate report : Result ParsedRequest) (request : ParsedRequest)
    → ((r : ParsedRequest) → report ≡ ok r → r.pdu_type ≡ pdu_latency_report)
    → (if kind == pdu_rate_request
        then rate
        else if kind == pdu_latency_report
        then report
        else err err_protocol)
      ≡ ok request
    → (request.pdu_type == pdu_latency_report) ≡ false
    → kind ≡ pdu_rate_request
by_type kind rate report request h e asked = elim (Bool-cases (kind == pdu_rate_request)) [
  | inl is_rate ↦ ground arith
  | inr other ↦ elim (Bool-cases (kind == pdu_latency_report)) [
    | inl is_report ↦
        let reported = rw (other, is_report) at e in
        let told = h request reported in absurd (ground arith)
    | inr neither ↦ let refused = rw (other, neither) at e in absurd cc
  ]
]

parse_report_body-type :
    (body : List ℕ) (request : ParsedRequest)
    → parse_report_body body ≡ ok request
    → request.pdu_type ≡ pdu_latency_report
unfolding parse_report_body
parse_report_body-type body request e =
    let (count, (_, e1)) = >>=-ok (read_le16 body 0) _ request e in
    let (_, e2) = guard-ok _ err_protocol _ request e1 in
    ap (λ (r : ParsedRequest). r.pdu_type) (sym (ok-inj e2))

parse_request_pdu-IsRequestPdu :
    (pdu : List ℕ) (request : ParsedRequest)
    → parse_request_pdu pdu ≡ ok request
    → (request.pdu_type == pdu_latency_report) ≡ false
    → IsRequestPdu pdu
unfolding parse_request_pdu
parse_request_pdu-IsRequestPdu pdu request e asked =
    let (_, e1) = guard-ok (leb pdu_header_len (length pdu)) err_protocol _ request e in
    let (declared_len, (sized, e2)) = >>=-ok (read_le16 pdu 2) _ request e1 in
    let (whole, e3) =
      guard-ok ((declared_len == length pdu) && leb pdu_header_len declared_len) err_protocol _
        request e2 in
    let (kind, (typed, e4)) = >>=-ok (read_le16 pdu 0) _ request e3 in
    let body = drop pdu_header_len pdu in
    let (_, e5) = guard-ok (leb 4 (length body)) err_protocol _ request e4 in
    let is_rate =
      by_type kind (parse_rate_body body) (parse_report_body body) request
        (parse_report_body-type body) e5 asked in
    let all : declared_len ≡ length pdu = ground arith in
    record { typed = typed ∙ ap ok is_rate; sized = sized ∙ ap ok all }

-- An answer was due: the datagram opened with the responder's secret to a request, which no
-- scenario drops.
pub record IsDue (gcm : Gcm) (state : ResponderState) (input : List ℕ) : Type 0 where
  pub tenant : TenantHeader
  pub pdu : List ℕ
  pub request : ParsedRequest
  pub opened : IsOpened gcm state.key input tenant pdu
  pub whole : IsRequestPdu pdu
  pub parsed : parse_request_pdu pdu ≡ ok request
  pub asked : (request.pdu_type == pdu_latency_report) ≡ false
  pub kept : is_drop state.scenario ≡ false

module _ (gcm : Gcm) (out_cap : ℕ) (drawn : Option (List ℕ)) (output : List ℕ) where
  process_report-silent :
      (state : ResponderState) (event : Result ResponderEvent)
      → (process_report state event).output ≡ none
  unfolding process_report
  process_report-silent state (ok event) = refl
  process_report-silent state (err e) = refl
  process_report-silent state fault = refl

  process_request-kept :
      (state : ResponderState) (tenant : TenantHeader) (request : ParsedRequest)
      (event : Result ResponderEvent)
      → (process_request gcm state tenant drawn request out_cap event).output ≡ some output
      → is_drop state.scenario ≡ false
  unfolding process_request
  process_request-kept state tenant request (ok event) e =
      elim (Bool-cases (is_drop state.scenario)) [
        | inl d ↦ let silent = rw d at e in absurd cc
        | inr d ↦ d
      ]
  process_request-kept state tenant request (err x) e = absurd cc
  process_request-kept state tenant request fault e = absurd cc

  process_parsed-IsDue :
      (state : ResponderState) (tenant : TenantHeader) (parsed : Result ParsedRequest)
      → (process_parsed gcm state tenant drawn out_cap parsed).output ≡ some output
      → (request : ParsedRequest) × ((parsed ≡ ok request)
          × (((request.pdu_type == pdu_latency_report) ≡ false) × (is_drop state.scenario ≡ false)))
  unfolding process_parsed
  process_parsed-IsDue state tenant (err x) e = absurd cc
  process_parsed-IsDue state tenant fault e = absurd cc
  process_parsed-IsDue state tenant (ok request) e =
      let event = request_event state request in
      elim (Bool-cases (request.pdu_type == pdu_latency_report)) [
        | inl r ↦
            let reported = rw r at e in
            let silent = process_report-silent state (report_event state request) in absurd cc
        | inr r ↦
            let answered = rw r at e in
            (request, (refl, (r, process_request-kept state tenant request event answered)))
      ]

  process_opened-IsDue :
      (state : ResponderState) (input : List ℕ) (opened : Result (TenantHeader × List ℕ))
      → extract_authenticated_pdu gcm state.key input ≡ opened
      → (process_opened gcm state drawn out_cap opened).output ≡ some output
      → IsDue gcm state input
  unfolding process_opened
  process_opened-IsDue state input (err x) o e = absurd cc
  process_opened-IsDue state input fault o e = absurd cc
  process_opened-IsDue state input (ok (tenant, pdu)) o e =
      let (request, (parsed, (asked, kept))) =
        process_parsed-IsDue state tenant (parse_request_pdu pdu) e in
      record {
        tenant = tenant;
        pdu = pdu;
        request = request;
        opened = extract_authenticated_pdu-IsOpened gcm state.key input tenant pdu o;
        whole = parse_request_pdu-IsRequestPdu pdu request parsed asked;
        parsed = parsed;
        asked = asked;
        kept = kept;
      }

-- The responder sends an answer only to a datagram whose tenant header names its own tenant key and
-- whose bytes behind it are authentic: an authentication of the responder's kind with its 32-byte
-- secret in front of the PDU, or with a nonce and a tag with which AES-GCM opens the rest to the PDU
-- under its secret. That PDU names the type of a rate-limit request and its own length, and parses
-- as one; so a latency report is never answered, and in the scenario that drops nothing is.
pub process-IsDue :
    (gcm : Gcm) (state : ResponderState) (drawn : Option (List ℕ)) (input output : List ℕ)
    (out_cap : ℕ)
    → (process gcm state drawn input out_cap).output ≡ some output
    → IsDue gcm state input
unfolding process
process-IsDue gcm state drawn input output out_cap e =
    let next = record state { sequence = (state.sequence + 1) % 2 ^ 64 } in
    let due =
      process_opened-IsDue gcm out_cap drawn output next input
        (extract_authenticated_pdu gcm next.key input) refl e in
    record {
      tenant = due.tenant;
      pdu = due.pdu;
      request = due.request;
      opened = due.opened;
      whole = due.whole;
      parsed = due.parsed;
      asked = due.asked;
      kept = due.kept;
    }
