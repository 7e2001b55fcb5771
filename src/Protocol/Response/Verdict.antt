-- ===== src/Protocol/Response/Verdict.antt =====
-- The success flag and the entries of an accepted response (r_parse_rate_response_pdu).
use rl_c_client.Prelude.{
  ltb, leb, ◌==◌, if◌then◌else◌, length, ℕ, zero, suc, ◌+◌, ◌*◌, ◌≤◌, ◌≡◌, Bool, true, false, ◌&&◌,
  List, [], ◌∷◌, arith,
}
use rl_c_client.Prelude.Results.{err_protocol, Ensures, >>=-Ensures, >>=-Ensures_any, guard-Ensures}
use rl_c_client.Bytes.{read_le16}
use rl_c_client.Protocol.{
  guard_block_wire_len, resource_block_wire_len, GuardResult, ResourceResult,
}
use rl_c_client.Protocol.Response.{
  Parsed, parse_guard_block, parse_guards, parse_resource_block, parse_resources, RateResponse,
  parse_blocks, response_body, parse_rate_response_pdu,
}

abbrev pub all_passed : List GuardResult → Bool
all_passed [] = true
all_passed (g ∷ gs) = g.passed && all_passed gs

abbrev pub all_granted : List ResourceResult → Bool
all_granted [] = true
all_granted (r ∷ rs) = (r.tokens_deficit == 0) && all_granted rs

-- Each guard is marked as passed exactly if its latency is below its threshold.
abbrev pub AreMarked : List GuardResult → Type 0
AreMarked [] = Unit
AreMarked (g ∷ gs) = (g.passed ≡ ltb g.current_latency_ms g.threshold_ms) × AreMarked gs

-- What the guard loop returns after `n` rounds from `pos`.
record GuardsParsed (n pos : ℕ) (success : Bool) (p : Parsed GuardResult) : Type 0 where
  counted : length p.entries ≡ n
  verdict : p.success ≡ (success && all_passed p.entries)
  marked : AreMarked p.entries
  advanced : p.pos ≡ pos + n * guard_block_wire_len

parse_guard_block-marked :
    (body : List ℕ) (pos : ℕ)
    → Ensures (λ g. g.passed ≡ ltb g.current_latency_ms g.threshold_ms) (parse_guard_block body pos)
unfolding parse_guard_block
parse_guard_block-marked body pos = ground arith

guards_step :
    {n pos : ℕ} {success : Bool} {rest : Parsed GuardResult} (g : GuardResult)
    → g.passed ≡ ltb g.current_latency_ms g.threshold_ms
    → GuardsParsed n (pos + guard_block_wire_len) (if g.passed then success else false) rest
    → GuardsParsed (suc n) pos success (record rest { entries = g ∷ rest.entries })
guards_step g marked p = ground arith

parse_guards-GuardsParsed :
    (n : ℕ) (body : List ℕ) (pos : ℕ) (success : Bool)
    → Ensures (GuardsParsed n pos success) (parse_guards n body pos success)
unfolding parse_guards
parse_guards-GuardsParsed zero body pos success = ground arith
parse_guards-GuardsParsed (suc n) body pos success =
    >>=-Ensures _ (GuardsParsed (suc n) pos success) _ _ (parse_guard_block-marked body pos)
      λ g _ marked.
        let next = if g.passed then success else false in
        >>=-Ensures (GuardsParsed n (pos + guard_block_wire_len) next)
          (GuardsParsed (suc n) pos success) (parse_guards n body (pos + guard_block_wire_len) next)
          _ (parse_guards-GuardsParsed n body (pos + guard_block_wire_len) next)
          λ rest _ p. guards_step g marked p

record ResourcesParsed (n : ℕ) (success : Bool) (p : Parsed ResourceResult) : Type 0 where
  counted : length p.entries ≡ n
  verdict : p.success ≡ (success && all_granted p.entries)

resources_step :
    {n : ℕ} {success : Bool} {rest : Parsed ResourceResult} (r : ResourceResult)
    → ResourcesParsed n (if r.tokens_deficit == 0 then success else false) rest
    → ResourcesParsed (suc n) success (record rest { entries = r ∷ rest.entries })
resources_step r p = ground arith

parse_resources-ResourcesParsed :
    (n : ℕ) (body : List ℕ) (pos : ℕ) (success : Bool)
    → Ensures (ResourcesParsed n success) (parse_resources n body pos success)
unfolding parse_resources
parse_resources-ResourcesParsed zero body pos success = ground arith
parse_resources-ResourcesParsed (suc n) body pos success =
    >>=-Ensures_any (ResourcesParsed (suc n) success) (parse_resource_block body pos) _ λ r _.
      let next = if r.tokens_deficit == 0 then success else false in
      >>=-Ensures (ResourcesParsed n next) (ResourcesParsed (suc n) success)
        (parse_resources n body (pos + resource_block_wire_len) next) _
        (parse_resources-ResourcesParsed n body (pos + resource_block_wire_len) next)
        λ rest _ p. resources_step r p

-- What an accepted response satisfies.
pub record IsVerdict (guard_cap res_cap : ℕ) (r : RateResponse) : Type 0 where
  pub decided : r.success ≡ (all_passed r.guards && all_granted r.resources)
  pub marked : AreMarked r.guards
  pub guards_fit : length r.guards ≤ guard_cap
  pub resources_fit : length r.resources ≤ res_cap

blocks_IsVerdict :
    (guard_cap res_cap m n : ℕ) {gs : Parsed GuardResult} {rs : Parsed ResourceResult}
    → (leb m guard_cap && leb n res_cap) ≡ true
    → GuardsParsed m 4 true gs
    → ResourcesParsed n gs.success rs
    → IsVerdict guard_cap res_cap
        (record { guards = gs.entries; resources = rs.entries; success = rs.success })
blocks_IsVerdict guard_cap res_cap m n fits gp rp = ground arith

-- Whatever the server sends, an accepted response reports success exactly if every guard in it
-- passed and every deficit in it is zero, a guard passed exactly if its latency is below its
-- threshold, and the entries fit the arrays of the caller.
pub parse_rate_response_pdu-IsVerdict :
    (pdu : List ℕ) (guard_cap res_cap : ℕ)
    → Ensures (IsVerdict guard_cap res_cap) (parse_rate_response_pdu pdu guard_cap res_cap)
unfolding parse_rate_response_pdu parse_blocks
parse_rate_response_pdu-IsVerdict pdu guard_cap res_cap =
    let Q = IsVerdict guard_cap res_cap in
    >>=-Ensures_any Q (response_body pdu) _ λ body _. >>=-Ensures_any Q (read_le16 body 0) _ λ m _.
      >>=-Ensures_any Q (read_le16 body 2) _ λ n _.
        guard-Ensures Q (leb m guard_cap && leb n res_cap) err_protocol _ λ fits.
          >>=-Ensures (GuardsParsed m 4 true) Q (parse_guards m body 4 true) _
            (parse_guards-GuardsParsed m body 4 true)
            λ gs _ gp.
              >>=-Ensures (ResourcesParsed n gs.success) Q
                (parse_resources n body gs.pos gs.success) _
                (parse_resources-ResourcesParsed n body gs.pos gs.success)
                λ rs _ rp. blocks_IsVerdict guard_cap res_cap m n fits gp rp
