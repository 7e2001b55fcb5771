-- ===== src/Responder/RoundTrip.antt =====
-- Requests that the client builds, read by the responder (r_build_rate_request_body,
-- r_build_rate_request_pdu; tools/r_test_responder_protocol.c, parse_request_pdu).
pub mod Label
use rl_c_client.Responder.RoundTrip.Label.{label_text}
use Label.{IsSuffix, ok-inj, append_label-suffix, parse_metrics_label-suffix}
use rl_c_client.Prelude.{
  append_assoc, leb, ◌==◌, le→leb, length, length-append, drop, drop-append, ℕ, ◌+◌, ◌-◌, ◌*◌, ◌≤◌,
  ◌≡◌, refl, sym, ap, ◌∙◌, subst, true, ◌&&◌, Option, List, [], ◌∷◌, ◌++◌, arith,
}
use rl_c_client.Prelude.Results.{err_protocol, ok, guard-ok}
use rl_c_client.Bytes.{read_le16, write_le16, write_le32}
use rl_c_client.Bytes.RoundTrip.{read_le16-eq}
use rl_c_client.Protocol.{
  pdu_header_len, max_packet_size, guard_block_wire_len, resource_block_wire_len, pdu_rate_request,
  ResourceRequest, LatencyGuard,
}
use rl_c_client.Protocol.Body.{
  guard_block_bytes, resource_block_bytes, guard_blocks, resource_blocks, rate_request_blocks,
  build_rate_request_body, build_rate_request_pdu,
}
use rl_c_client.Responder.{
  label_cap, ParsedRequest, parse_metrics_label, parse_rate_body, parse_request_pdu,
}

-- Identifiers have sixteen bytes.
abbrev pub AreGuards : List LatencyGuard → Type 0
AreGuards [] = Unit
AreGuards (g ∷ gs) = (length g.latency_tracker_id ≡ 16) × AreGuards gs

abbrev pub AreResources : List ResourceRequest → Type 0
AreResources [] = Unit
AreResources (r ∷ rs) = (length r.bucket_id ≡ 16) × AreResources rs

length-guard_blocks :
    (gs : List LatencyGuard)
    → AreGuards gs
    → length (guard_blocks gs) ≡ length gs * guard_block_wire_len
unfolding guard_blocks guard_block_bytes write_le32
length-guard_blocks [] h = refl
length-guard_blocks (g ∷ gs) (sized, h) =
    simp length-append (omega (arith, sized, length-guard_blocks gs h))

length-resource_blocks :
    (rs : List ResourceRequest)
    → AreResources rs
    → length (resource_blocks rs) ≡ length rs * resource_block_wire_len
unfolding resource_blocks resource_block_bytes write_le32 write_le16
length-resource_blocks [] h = refl
length-resource_blocks (r ∷ rs) (sized, h) =
    simp length-append (omega (arith, sized, length-resource_blocks rs h))

-- What the responder reads of a request with these fields and this end of its body.
abbrev pub understood :
    List ResourceRequest → List LatencyGuard → List ℕ → List ℕ → List ℕ → ParsedRequest
understood resources guards text body suffix = record {
  pdu_type = pdu_rate_request;
  body = body;
  guard_count = length guards;
  resource_count = length resources;
  report_count = 0;
  guards = guard_blocks guards ++ (resource_blocks resources ++ suffix);
  resources = resource_blocks resources ++ suffix;
  reports = [];
  label = text;
}

module _ (resources : List ResourceRequest) (guards : List LatencyGuard) (text suffix : List ℕ)
    (gs : AreGuards guards) (rs : AreResources resources) (ends : IsSuffix text suffix)
    (few_guards : length guards ≤ 0xffff) (few_resources : length resources ≤ 0xffff)
    (short : length text ≤ label_cap) where
  abbrev blocks : List ℕ
  blocks = rate_request_blocks resources guards

  length-blocks :
      length blocks
      ≡ 4 + length guards * guard_block_wire_len + length resources * resource_block_wire_len
  unfolding rate_request_blocks write_le16
  length-blocks =
      simp length-append
        (omega (arith, length-guard_blocks guards gs, length-resource_blocks resources rs))

  blocks_at :
      drop 4 (blocks ++ suffix) ≡ guard_blocks guards ++ (resource_blocks resources ++ suffix)
  unfolding rate_request_blocks write_le16
  blocks_at = append_assoc (guard_blocks guards) (resource_blocks resources) suffix

  guard_count_at : read_le16 (blocks ++ suffix) 0 ≡ ok (length guards)
  unfolding rate_request_blocks write_le16
  guard_count_at = read_le16-eq (blocks ++ suffix) 0 _ (length guards) refl (omega arith)

  resource_count_at : read_le16 (blocks ++ suffix) 2 ≡ ok (length resources)
  unfolding rate_request_blocks write_le16
  resource_count_at = read_le16-eq (blocks ++ suffix) 2 _ (length resources) refl (omega arith)

  resources_at :
      drop
        (length guards * guard_block_wire_len)
        (guard_blocks guards ++ (resource_blocks resources ++ suffix))
      ≡ resource_blocks resources ++ suffix
  resources_at =
      drop-append (length guards * guard_block_wire_len) (guard_blocks guards) _
        (length-guard_blocks guards gs)

  label_at :
      parse_metrics_label
        (blocks ++ suffix)
        (4 + length guards * guard_block_wire_len + length resources * resource_block_wire_len)
      ≡ ok text
  label_at =
      subst (λ k. parse_metrics_label (blocks ++ suffix) k ≡ ok text) length-blocks
        (parse_metrics_label-suffix blocks text suffix ends short)

  parse_rate_body-eq :
      parse_rate_body (blocks ++ suffix)
      ≡ ok (understood resources guards text (blocks ++ suffix) suffix)
  unfolding parse_rate_body
  parse_rate_body-eq =
      let guard_bytes = length guards * guard_block_wire_len in
      let resource_bytes = length resources * resource_block_wire_len in
      let total : length (blocks ++ suffix) ≡ 4 + guard_bytes + resource_bytes + length suffix =
        length-append blocks suffix ∙ ap (λ k. k + length suffix) length-blocks in
      simp (
        guard_count_at,
        resource_count_at,
        le→leb guard_bytes (length (blocks ++ suffix) - 4) (omega arith),
        le→leb resource_bytes (length (blocks ++ suffix) - 4 - guard_bytes) (omega arith),
        label_at,
        blocks_at,
        resources_at,
      )

-- The PDU header in front of a body.
abbrev framed : ℕ → List ℕ → List ℕ
framed ttl body =
    write_le16 pdu_rate_request
    ++ (write_le16 (pdu_header_len + length body) ++ (write_le32 ttl ++ body))

build_rate_request_pdu-framed :
    (ttl : ℕ) (body pdu : List ℕ)
    → build_rate_request_pdu ttl body max_packet_size ≡ ok pdu
    → (framed ttl body ≡ pdu) × (pdu_header_len + length body ≤ max_packet_size)
unfolding build_rate_request_pdu
build_rate_request_pdu-framed ttl body pdu built =
    let size = pdu_header_len + length body in
    let (fits, rest) =
      guard-ok (leb size 0xffff && leb size max_packet_size) err_protocol _ pdu built in
    (ok-inj rest, ground arith)

parse_request_pdu-framed :
    (ttl : ℕ) (body : List ℕ)
    → 4 ≤ length body
    → pdu_header_len + length body ≤ max_packet_size
    → parse_request_pdu (framed ttl body) ≡ parse_rate_body body
unfolding parse_request_pdu write_le16 write_le32
parse_request_pdu-framed ttl body long fits =
    let size = pdu_header_len + length body in
    let type_at : read_le16 (framed ttl body) 0 ≡ ok pdu_rate_request =
      read_le16-eq (framed ttl body) 0 _ pdu_rate_request refl (omega arith) in
    let size_at : read_le16 (framed ttl body) 2 ≡ ok size =
      read_le16-eq (framed ttl body) 2 _ size refl (omega arith) in
    let whole : (size == length (framed ttl body)) ≡ true = ground arith in
    simp (
      le→leb pdu_header_len (length (framed ttl body)) (omega arith),
      size_at,
      whole,
      le→leb pdu_header_len size (omega arith),
      type_at,
      le→leb 4 (length body) long,
    )

-- What the client's builders make of a request, the responder reads back: the type, both counts,
-- the blocks of the guards and of the resources, where they stand, and the text of the label. The
-- identifiers have sixteen bytes and the text at most 256.
pub parse_request_pdu-built :
    (resources : List ResourceRequest) (guards : List LatencyGuard) (label : Option (List ℕ))
    (label_len ttl : ℕ) (body pdu text : List ℕ)
    → AreGuards guards
    → AreResources resources
    → build_rate_request_body resources guards label label_len max_packet_size ≡ ok body
    → build_rate_request_pdu ttl body max_packet_size ≡ ok pdu
    → label_text label label_len ≡ ok text
    → length text ≤ label_cap
    → (suffix : List ℕ) × (parse_request_pdu pdu
        ≡ ok (understood resources guards text body suffix))
unfolding build_rate_request_body
parse_request_pdu-built resources guards label label_len ttl body pdu text gs rs built framed_ok t
      short =
    let counts = leb (length resources) 0xffff && leb (length guards) 0xffff in
    let (few, rest) = guard-ok counts err_protocol _ body built in
    let needed =
      4 + length guards * guard_block_wire_len + length resources * resource_block_wire_len in
    let (fits, appended) = guard-ok (leb needed max_packet_size) err_protocol _ body rest in
    let blocks = rate_request_blocks resources guards in
    let (suffix, (ends, whole)) =
      append_label-suffix blocks max_packet_size label label_len body text t appended in
    let few_guards : length guards ≤ 0xffff = ground arith in
    let few_resources : length resources ≤ 0xffff = ground arith in
    let read =
      parse_rate_body-eq resources guards text suffix gs rs ends few_guards few_resources short in
    let (frame, small) = build_rate_request_pdu-framed ttl body pdu framed_ok in
    let size =
      length-blocks resources guards text suffix gs rs ends few_guards few_resources short in
    let long : 4 ≤ length body = rw whole (omega (arith, length-append blocks suffix, size)) in
    let parsed : parse_request_pdu pdu ≡ parse_rate_body body =
      subst (λ p. parse_request_pdu p ≡ parse_rate_body body) frame
        (parse_request_pdu-framed ttl body long small) in
    (
      suffix,
      parsed
          ∙ subst (λ b. parse_rate_body b ≡ ok (understood resources guards text b suffix))
              (sym whole) read,
    )
