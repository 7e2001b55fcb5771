-- ===== src/Tests/Workflow.antt =====
-- The theorems on identifiers, packets and admission at concrete inputs.
use rl_c_client.Prelude.{
  replicate, length-map, ℕ, suc, ◌-◌, ◌≡◌, refl, ap, ap₂, ◌≢◌, true, false, none, some, List, [],
  ◌∷◌, ◌++◌, map, arith,
}
use rl_c_client.Prelude.Results.{rclient_ok, ok}
use rl_c_client.Bytes.{write_le16}
use rl_c_client.Protocol.{tenant_tlv_len}
use rl_c_client.Policy.{default_request_policy}
use rl_c_client.Content.{content_id_bytes, resource_domain, latency_tracker_domain}
use rl_c_client.Content.Injective.{content_id_bytes-inj, content_domains_apart}
use rl_c_client.Client.Machine.{RateLimitResult, auth_aes_gcm, Client}
use rl_c_client.Packet.{Gcm, encrypt_pdu_aes_gcm, seal_aes_gcm, seal_pdu, extract_pdu_data}
use rl_c_client.Packet.RoundTrip.{IsGcm, aad_prefix}
use rl_c_client.Packet.Opening.{IsKeyed, extract_pdu_data-seal_pdu}
use rl_c_client.Admission.{null, Answer, answer_of, admission_classify}
use rl_c_client.Admission.Classify.{
  flags, IsClassified, admission_classify-IsClassified, admission_classify-flags,
}

-- A cipher that adds 1 to every number, with a tag of zeros.
abbrev pub toy : Gcm
toy = record {
  encrypt = λ key aad nonce plain. some (map suc plain, replicate 16 0);
  decrypt = λ key aad nonce tag cipher. some (map (λ n. n - 1) cipher);
}

toy-back : (xs : List ℕ) → map (λ n. n - 1) (map suc xs) ≡ xs
toy-back [] = refl
toy-back (x ∷ xs) = ap₂ ◌∷◌ (omega arith) (toy-back xs)

pub toy-IsGcm : IsGcm toy
toy-IsGcm = record {
  sized = λ key aad nonce plain cipher tag e.
      let cipher_eq : cipher ≡ map suc plain = ground arith in
      let tag_eq : tag ≡ replicate 16 0 = ground arith in
      (rw cipher_eq (length-map plain suc), rw tag_eq refl);
  opened = λ key aad nonce plain cipher tag e.
      let cipher_eq : cipher ≡ map suc plain = ground arith in
      ap some (rw cipher_eq (toy-back plain));
}

abbrev pub sealed_by : Client
sealed_by = record {
  policy = default_request_policy;
  key_id = 77;
  auth_type = auth_aes_gcm;
  quotas = none;
  cookie = none;
  aes_key = some (replicate 32 4);
  has_udp_send = true;
  has_now_ms = true;
  has_steering_hook = false;
  has_profile_cb = false;
  servers = [];
  send_failure_count = 0;
  inflight = [];
  steering_rebind_pending = false;
  discovery = record {
    dns_name = 97 ∷ [];
    refresh_interval_ms = 0;
    forced_refresh_min_interval_ms = 0;
    forced_refresh_jitter_ms = 0;
    last_dns_refresh_ms = 50;
    dns_refresh_ttl_ms = 0;
    dns_refresh_inflight = false;
    refresh = none;
  };
}

pub sealed_by-IsKeyed : IsKeyed sealed_by (some (replicate 12 5))
sealed_by-IsKeyed = record {
  cookie_32 = λ k e. ground arith;
  nonce_12 = λ n e. (let n_eq : n ≡ replicate 12 5 = ground arith in rw n_eq refl);
}

sealed_eq :
    seal_pdu toy auth_aes_gcm sealed_by (some (replicate 12 5)) (replicate 40 1) (9 ∷ 8 ∷ []) 1200
    ≡ ok (aad_prefix (replicate 40 1) ++ (replicate 12 5 ++ (replicate 16 0 ++ (10 ∷ 9 ∷ []))))
unfolding seal_pdu seal_aes_gcm encrypt_pdu_aes_gcm write_le16
sealed_eq = refl

extract_pdu_data-seal_pdu_example :
    extract_pdu_data toy sealed_by
      (aad_prefix (replicate 40 1) ++ (replicate 12 5 ++ (replicate 16 0 ++ (10 ∷ 9 ∷ []))))
      tenant_tlv_len
      1200
    ≡ ok (9 ∷ 8 ∷ [])
extract_pdu_data-seal_pdu_example =
    extract_pdu_data-seal_pdu toy sealed_by (some (replicate 12 5)) (replicate 40 1) (9 ∷ 8 ∷ [])
      (aad_prefix (replicate 40 1) ++ (replicate 12 5 ++ (replicate 16 0 ++ (10 ∷ 9 ∷ [])))) 1200
      1200 toy-IsGcm sealed_by-IsKeyed refl (omega arith) (omega arith) sealed_eq

abbrev name : List ℕ
name = 5 ∷ []

abbrev limits : List ℕ
limits = 1000 ∷ 100 ∷ []

content_id_bytes-inj_example : (name ≡ name) × (limits ≡ limits)
content_id_bytes-inj_example =
    content_id_bytes-inj resource_domain (5 ∷ []) (5 ∷ []) (1000 ∷ 100 ∷ []) (1000 ∷ 100 ∷ [])
      (omega arith) (omega arith) (omega arith, (omega arith, tt)) (omega arith, (omega arith, tt))
      refl refl

content_domains_apart_example :
    content_id_bytes resource_domain (5 ∷ []) (1000 ∷ 100 ∷ [])
    ≢ content_id_bytes latency_tracker_domain (5 ∷ []) (1000 ∷ 100 ∷ 5 ∷ [])
content_domains_apart_example =
    content_domains_apart (5 ∷ []) (5 ∷ []) (1000 ∷ 100 ∷ []) (1000 ∷ 100 ∷ 5 ∷ [])

-- A denial for a deficit of three tokens, its guard passed.
abbrev denial : RateLimitResult
denial = record {
  success = false;
  server_id = 3;
  steering_feedback = false;
  guards =
      record {
        latency_tracker_id = replicate 16 1;
        threshold_ms = 100;
        current_latency_ms = 40;
        passed = true;
      }
      ∷ [];
  resources = record { bucket_id = replicate 16 2; tokens_deficit = 3; actual_rate = 5 } ∷ [];
}

-- A success that promises a guard and has none.
abbrev null_guards : Answer
null_guards = record { success = true; resources = null 0; guards = null 1 }

admission_classify-IsClassified_example :
    IsClassified rclient_ok (some null_guards) (admission_classify rclient_ok (some null_guards))
admission_classify-IsClassified_example =
    admission_classify-IsClassified rclient_ok (some null_guards)

admission_classify-flags_example :
    flags (admission_classify rclient_ok (some (answer_of denial))) ≡ (false, (true, false))
admission_classify-flags_example = admission_classify-flags denial refl
