-- ===== src/Protocol/Response/RoundTrip.antt =====
-- Responses laid out by the protocol, and the parser (r_parse_rate_response_pdu) on them.
use rl_c_client.Prelude.{
  ltb, ◌==◌, if◌then◌else◌, le→leb, length, length-append, drop, drop_skip, length_at, ℕ, suc, ◌+◌,
  ◌-◌, ◌*◌, ◌^◌, ◌≤◌, ◌<◌, ◌≡◌, refl, Bool, true, false, ◌&&◌, List, [], ◌∷◌, ◌++◌, map, arith,
}
use rl_c_client.Prelude.Results.{ok}
use rl_c_client.Bytes.{read_le16, read_bytes, write_le16, write_le32}
use rl_c_client.Bytes.RoundTrip.{read_le16-eq, read_le32-eq, read_bytes-eq}
use rl_c_client.Protocol.{
  pdu_header_len, guard_block_wire_len, resource_block_wire_len, pdu_rate_response, GuardResult,
  ResourceResult,
}
use rl_c_client.Protocol.Response.{
  parse_guard_block, parse_guards, parse_resource_block, parse_resources, parse_blocks,
  response_body, parse_rate_response_pdu,
}
use rl_c_client.Protocol.Response.Verdict.{all_passed, all_granted}

-- A guard block and a resource block of a response, with the bytes that the client ignores.
pub record WireGuard : Type 0 where
  pub tracker_id : List ℕ
  pub settings : List ℕ
  pub threshold : ℕ
  pub current : ℕ

pub record WireResource : Type 0 where
  pub id : List ℕ
  pub window : List ℕ
  pub rate : ℕ
  pub deficit : ℕ
  pub padding : List ℕ

pub record IsWireGuard (g : WireGuard) : Type 0 where
  pub identified : length g.tracker_id ≡ 16
  pub settled : length g.settings ≡ 12
  pub threshold_u32 : g.threshold < 2 ^ 32
  pub current_u32 : g.current < 2 ^ 32

pub record IsWireResource (r : WireResource) : Type 0 where
  pub identified : length r.id ≡ 16
  pub windowed : length r.window ≡ 4
  pub rate_u32 : r.rate < 2 ^ 32
  pub deficit_u16 : r.deficit < 2 ^ 16
  pub padded : length r.padding ≡ 2

abbrev pub AreWireGuards : List WireGuard → Type 0
AreWireGuards [] = Unit
AreWireGuards (g ∷ gs) = IsWireGuard g × AreWireGuards gs

abbrev pub AreWireResources : List WireResource → Type 0
AreWireResources [] = Unit
AreWireResources (r ∷ rs) = IsWireResource r × AreWireResources rs

-- The blocks, in front of what follows them.
abbrev pub wire_guard : WireGuard → List ℕ → List ℕ
wire_guard g rest =
    g.tracker_id ++ (g.settings ++ (write_le32 g.threshold ++ (write_le32 g.current ++ rest)))

abbrev pub wire_resource : WireResource → List ℕ → List ℕ
wire_resource r rest =
    r.id ++ (r.window ++ (write_le32 r.rate ++ (write_le16 r.deficit ++ (r.padding ++ rest))))

abbrev pub wire_guards : List WireGuard → List ℕ → List ℕ
wire_guards [] rest = rest
wire_guards (g ∷ gs) rest = wire_guard g (wire_guards gs rest)

abbrev pub wire_resources : List WireResource → List ℕ → List ℕ
wire_resources [] rest = rest
wire_resources (r ∷ rs) rest = wire_resource r (wire_resources rs rest)

abbrev pub wire_body : List WireGuard → List WireResource → List ℕ → List ℕ
wire_body gs rs rest =
    write_le16 (length gs) ++ (write_le16 (length rs) ++ wire_guards gs (wire_resources rs rest))

-- What the client is to report of a block.
abbrev pub guard_result : WireGuard → GuardResult
guard_result g = record {
  latency_tracker_id = g.tracker_id;
  threshold_ms = g.threshold;
  current_latency_ms = g.current;
  passed = ltb g.current g.threshold;
}

abbrev pub resource_result : WireResource → ResourceResult
resource_result r = record { bucket_id = r.id; tokens_deficit = r.deficit; actual_rate = r.rate }

module _ (body : List ℕ) (pos : ℕ) (g : WireGuard) (rest : List ℕ) (w : IsWireGuard g) where
  module _ (e : drop pos body ≡ wire_guard g rest) where
    guard_16 :
        drop (pos + 16) body
        ≡ g.settings ++ (write_le32 g.threshold ++ (write_le32 g.current ++ rest))
    guard_16 = drop_skip body pos 16 _ g.tracker_id _ e w.identified (omega arith)

    guard_28 : drop (pos + 28) body ≡ write_le32 g.threshold ++ (write_le32 g.current ++ rest)
    guard_28 = drop_skip body (pos + 16) 12 _ g.settings _ guard_16 w.settled (omega arith)

    guard_32 : drop (pos + 32) body ≡ write_le32 g.current ++ rest
    unfolding write_le32
    guard_32 = drop_skip body (pos + 28) 4 _ (write_le32 g.threshold) _ guard_28 refl (omega arith)

    guard_36 : drop (pos + 36) body ≡ rest
    unfolding write_le32
    guard_36 = drop_skip body (pos + 32) 4 _ (write_le32 g.current) _ guard_32 refl (omega arith)

    guard_fits : pos + 36 ≤ length body
    unfolding write_le32
    guard_fits = omega (arith, length_at body (pos + 32) _ guard_32)

    parse_guard_block-eq : parse_guard_block body pos ≡ ok (guard_result g)
    unfolding parse_guard_block
    parse_guard_block-eq = simp (
      le→leb (pos + 36) (length body) guard_fits,
      read_bytes-eq body pos _ 16 g.tracker_id e w.identified,
      read_le32-eq body (pos + 28) _ g.threshold guard_28 w.threshold_u32,
      read_le32-eq body (pos + 32) rest g.current guard_32 w.current_u32,
    )

module _ (body : List ℕ) (pos : ℕ) (r : WireResource) (rest : List ℕ) (w : IsWireResource r) where
  module _ (e : drop pos body ≡ wire_resource r rest) where
    resource_16 :
        drop (pos + 16) body
        ≡ r.window ++ (write_le32 r.rate ++ (write_le16 r.deficit ++ (r.padding ++ rest)))
    resource_16 = drop_skip body pos 16 _ r.id _ e w.identified (omega arith)

    resource_20 :
        drop (pos + 20) body ≡ write_le32 r.rate ++ (write_le16 r.deficit ++ (r.padding ++ rest))
    resource_20 = drop_skip body (pos + 16) 4 _ r.window _ resource_16 w.windowed (omega arith)

    resource_24 : drop (pos + 24) body ≡ write_le16 r.deficit ++ (r.padding ++ rest)
    unfolding write_le32
    resource_24 = drop_skip body (pos + 20) 4 _ (write_le32 r.rate) _ resource_20 refl (omega arith)

    resource_26 : drop (pos + 26) body ≡ r.padding ++ rest
    unfolding write_le16
    resource_26 =
        drop_skip body (pos + 24) 2 _ (write_le16 r.deficit) _ resource_24 refl (omega arith)

    resource_28 : drop (pos + 28) body ≡ rest
    resource_28 = drop_skip body (pos + 26) 2 _ r.padding _ resource_26 w.padded (omega arith)

    resource_fits : pos + 28 ≤ length body
    resource_fits =
        omega
          (arith, length_at body (pos + 26) _ resource_26, length-append r.padding rest, w.padded)

    parse_resource_block-eq : parse_resource_block body pos ≡ ok (resource_result r)
    unfolding parse_resource_block
    parse_resource_block-eq = simp (
      le→leb (pos + 28) (length body) resource_fits,
      read_bytes-eq body pos _ 16 r.id e w.identified,
      read_le32-eq body (pos + 20) _ r.rate resource_20 w.rate_u32,
      read_le16-eq body (pos + 24) _ r.deficit resource_24 w.deficit_u16,
    )

-- The loops read the blocks in order, and `success` falls with the first that fails.
parse_guards-eq :
    (body : List ℕ) (pos : ℕ) (gs : List WireGuard) (rest : List ℕ) (success : Bool)
    → AreWireGuards gs
    → drop pos body ≡ wire_guards gs rest
    → (parse_guards (length gs) body pos success
        ≡ ok (record {
          entries = map guard_result gs;
          pos = pos + length gs * guard_block_wire_len;
          success = success && all_passed (map guard_result gs);
        }))
      × (drop (pos + length gs * guard_block_wire_len) body ≡ rest)
unfolding parse_guards
parse_guards-eq body pos [] rest success w e =
    (ground arith, let z : pos + 0 ≡ pos = omega arith in rw z e)
parse_guards-eq body pos (g ∷ gs) rest success w e =
    let next = if ltb g.current g.threshold then success else false in
    let tail = guard_36 body pos g (wire_guards gs rest) w.0 e in
    let ih = parse_guards-eq body (pos + guard_block_wire_len) gs rest next w.1 tail in
    let here = parse_guard_block-eq body pos g (wire_guards gs rest) w.0 e in
    let shift : pos + guard_block_wire_len + length gs * guard_block_wire_len
        ≡ pos + suc (length gs) * guard_block_wire_len =
      omega arith in
    (rw (here, ih.0, shift) (ground arith), rw (← shift) (ih.1))

parse_resources-eq :
    (body : List ℕ) (pos : ℕ) (rs : List WireResource) (rest : List ℕ) (success : Bool)
    → AreWireResources rs
    → drop pos body ≡ wire_resources rs rest
    → parse_resources (length rs) body pos success
      ≡ ok (record {
        entries = map resource_result rs;
        pos = pos + length rs * resource_block_wire_len;
        success = success && all_granted (map resource_result rs);
      })
unfolding parse_resources
parse_resources-eq body pos [] rest success w e = ground arith
parse_resources-eq body pos (r ∷ rs) rest success w e =
    let next = if r.deficit == 0 then success else false in
    let tail = resource_28 body pos r (wire_resources rs rest) w.0 e in
    let ih = parse_resources-eq body (pos + resource_block_wire_len) rs rest next w.1 tail in
    let here = parse_resource_block-eq body pos r (wire_resources rs rest) w.0 e in
    let shift : pos + resource_block_wire_len + length rs * resource_block_wire_len
        ≡ pos + suc (length rs) * resource_block_wire_len =
      omega arith in
    rw (here, ih, shift) (ground arith)

-- The PDU with `body`, and the bytes behind it in its buffer.
abbrev pub wire_pdu : List ℕ → List ℕ → List ℕ
wire_pdu body behind =
    write_le16 pdu_rate_response
    ++ (write_le16 (pdu_header_len + length body)
        ++ (write_le16 0 ++ (write_le16 0 ++ (body ++ behind))))

module _ (body behind : List ℕ) (small : pdu_header_len + length body < 2 ^ 16) where
  length-wire_pdu : length (wire_pdu body behind) ≡ 8 + (length body + length behind)
  unfolding write_le16
  length-wire_pdu = omega (arith, length-append body behind)

  pdu_type_at : read_le16 (wire_pdu body behind) 0 ≡ ok pdu_rate_response
  pdu_type_at = read_le16-eq _ 0 _ pdu_rate_response refl (omega arith)

  pdu_size_at : read_le16 (wire_pdu body behind) 2 ≡ ok (pdu_header_len + length body)
  unfolding write_le16
  pdu_size_at = read_le16-eq _ 2 _ (pdu_header_len + length body) refl small

  pdu_body_at :
      read_bytes (wire_pdu body behind) 8 (pdu_header_len + length body - pdu_header_len) ≡ ok body
  unfolding write_le16
  pdu_body_at = read_bytes-eq _ 8 behind _ body refl (omega arith)

response_body-eq :
    (body behind : List ℕ)
    → 4 ≤ length body
    → pdu_header_len + length body < 2 ^ 16
    → response_body (wire_pdu body behind) ≡ ok body
unfolding response_body
response_body-eq body behind long small =
    let total = length-wire_pdu body behind small in
    simp (
      le→leb 8 (length (wire_pdu body behind)) (omega (arith, total)),
      pdu_type_at body behind small,
      pdu_size_at body behind small,
      le→leb 8 (pdu_header_len + length body) (omega arith),
      le→leb (pdu_header_len + length body) (length (wire_pdu body behind)) (omega (arith, total)),
      pdu_body_at body behind small,
      le→leb 4 (length body) long,
    )

module _ (gs : List WireGuard) (rs : List WireResource) (rest : List ℕ) where
  blocks_at : drop 4 (wire_body gs rs rest) ≡ wire_guards gs (wire_resources rs rest)
  unfolding write_le16
  blocks_at = refl

  counts_fit : 4 ≤ length (wire_body gs rs rest)
  unfolding write_le16
  counts_fit = omega arith

  guard_count_at : length gs < 2 ^ 16 → read_le16 (wire_body gs rs rest) 0 ≡ ok (length gs)
  guard_count_at h = read_le16-eq _ 0 _ (length gs) refl h

  resource_count_at : length rs < 2 ^ 16 → read_le16 (wire_body gs rs rest) 2 ≡ ok (length rs)
  unfolding write_le16
  resource_count_at h = read_le16-eq _ 2 _ (length rs) refl h

length-wire_resources :
    (rs : List WireResource) (rest : List ℕ) → length rs ≤ length (wire_resources rs rest)
unfolding write_le16
length-wire_resources [] rest = omega arith
length-wire_resources (r ∷ rs) rest =
    simp length-append (omega (arith, length-wire_resources rs rest))

length-wire_guards :
    (gs : List WireGuard) (rest : List ℕ) → length gs + length rest ≤ length (wire_guards gs rest)
unfolding write_le32
length-wire_guards [] rest = omega arith
length-wire_guards (g ∷ gs) rest = simp length-append (omega (arith, length-wire_guards gs rest))

counts_small :
    (gs : List WireGuard) (rs : List WireResource) (rest : List ℕ)
    → length (wire_body gs rs rest) < 2 ^ 16
    → (length gs < 2 ^ 16) × (length rs < 2 ^ 16)
unfolding write_le16
counts_small gs rs rest h =
    omega (arith, length-wire_guards gs (wire_resources rs rest), length-wire_resources rs rest)

parse_blocks-eq :
    (gs : List WireGuard) (rs : List WireResource) (rest : List ℕ)
    → AreWireGuards gs
    → AreWireResources rs
    → parse_blocks (wire_body gs rs rest) (length gs) (length rs)
      ≡ ok (record {
        guards = map guard_result gs;
        resources = map resource_result rs;
        success = all_passed (map guard_result gs) && all_granted (map resource_result rs);
      })
unfolding parse_blocks
parse_blocks-eq gs rs rest wg wr =
    let whole = wire_body gs rs rest in
    let tail = blocks_at gs rs rest in
    let first = parse_guards-eq whole 4 gs (wire_resources rs rest) true wg tail in
    rw (first.0) (
      rw
        (parse_resources-eq whole (4 + length gs * guard_block_wire_len) rs rest
          (all_passed (map guard_result gs)) wr (first.1))
        refl)

-- A response PDU that lays out the blocks as the protocol does, with bytes behind the blocks and
-- behind the PDU, at most 65535 bytes long and within the capacities, is parsed into exactly the
-- results of its blocks, in order, and succeeds exactly if every guard passed and no deficit is
-- left. The ids have 16 bytes, the other fields the widths of the protocol.
pub parse_rate_response_pdu-wire_pdu :
    (gs : List WireGuard) (rs : List WireResource) (rest behind : List ℕ) (guard_cap res_cap : ℕ)
    → AreWireGuards gs
    → AreWireResources rs
    → pdu_header_len + length (wire_body gs rs rest) < 2 ^ 16
    → length gs ≤ guard_cap
    → length rs ≤ res_cap
    → parse_rate_response_pdu (wire_pdu (wire_body gs rs rest) behind) guard_cap res_cap
      ≡ ok (record {
        guards = map guard_result gs;
        resources = map resource_result rs;
        success = all_passed (map guard_result gs) && all_granted (map resource_result rs);
      })
unfolding parse_rate_response_pdu
parse_rate_response_pdu-wire_pdu gs rs rest behind guard_cap res_cap wg wr small hg hr =
    let long = counts_fit gs rs rest in
    let counts = counts_small gs rs rest (omega arith) in
    simp (
      response_body-eq (wire_body gs rs rest) behind long small,
      guard_count_at gs rs rest (counts.0),
      resource_count_at gs rs rest (counts.1),
      le→leb (length gs) guard_cap hg,
      le→leb (length rs) res_cap hr,
      parse_blocks-eq gs rs rest wg wr,
    )
