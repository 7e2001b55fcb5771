-- ===== src/Protocol/Response/Bounds.antt =====
-- The reads of the response parser (r_parse_rate_response_pdu) and the size of the PDU.
use rl_c_client.Prelude.{length, ℕ, zero, suc, ◌+◌, ◌≤◌, ◌≡◌, Bool, true, List, arith}
use rl_c_client.Prelude.Results.{guard-NoFault, IsOk-NoFault, ok, NoFault, >>=-NoFault}
use rl_c_client.Bytes.Bounds.{read_le16-IsOk, read_le32-IsOk, read_bytes-IsOk}
use rl_c_client.Protocol.{guard_block_wire_len, resource_block_wire_len}
use rl_c_client.Protocol.Response.{
  parse_guard_block, parse_guards, parse_resource_block, parse_resources, parse_blocks,
  response_body, parse_rate_response_pdu,
}

parse_guard_block-NoFault : (body : List ℕ) (pos : ℕ) → NoFault (parse_guard_block body pos)
unfolding parse_guard_block
parse_guard_block-NoFault body pos = ground (
  arith,
  read_bytes-IsOk body pos 16,
  read_le32-IsOk body (pos + 28),
  read_le32-IsOk body (pos + 32),
)

parse_guards-NoFault :
    (n : ℕ) (body : List ℕ) (pos : ℕ) (success : Bool) → NoFault (parse_guards n body pos success)
unfolding parse_guards
parse_guards-NoFault zero body pos success = tt
parse_guards-NoFault (suc n) body pos success =
    >>=-NoFault _ _ (parse_guard_block-NoFault body pos) λ g _.
      >>=-NoFault _ _ (parse_guards-NoFault n body (pos + guard_block_wire_len) _) λ rest _. tt

parse_resource_block-NoFault : (body : List ℕ) (pos : ℕ) → NoFault (parse_resource_block body pos)
unfolding parse_resource_block
parse_resource_block-NoFault body pos = ground (
  arith,
  read_bytes-IsOk body pos 16,
  read_le32-IsOk body (pos + 20),
  read_le16-IsOk body (pos + 24),
)

parse_resources-NoFault :
    (n : ℕ) (body : List ℕ) (pos : ℕ) (success : Bool)
    → NoFault (parse_resources n body pos success)
unfolding parse_resources
parse_resources-NoFault zero body pos success = tt
parse_resources-NoFault (suc n) body pos success =
    >>=-NoFault _ _ (parse_resource_block-NoFault body pos) λ r _.
      >>=-NoFault _ _ (parse_resources-NoFault n body (pos + resource_block_wire_len) _)
        λ rest _. tt

parse_blocks-NoFault : (body : List ℕ) (m n : ℕ) → NoFault (parse_blocks body m n)
unfolding parse_blocks
parse_blocks-NoFault body m n =
    >>=-NoFault _ _ (parse_guards-NoFault m body 4 true)
      λ gs _. >>=-NoFault _ _ (parse_resources-NoFault n body gs.pos gs.success) λ rs _. tt

response_body-NoFault : (pdu : List ℕ) → NoFault (response_body pdu)
unfolding response_body
response_body-NoFault pdu =
    grind (arith, read_le16-IsOk pdu 0, read_le16-IsOk pdu 2, read_bytes-IsOk)

-- An accepted body holds its two counts.
pub response_body_long : (pdu body : List ℕ) → response_body pdu ≡ ok body → 4 ≤ length body
unfolding response_body
response_body_long pdu body e = ground arith

-- On every byte string and for all capacities the parser reads only bytes of the PDU: it returns a
-- result or an error code.
pub parse_rate_response_pdu-NoFault :
    (pdu : List ℕ) (guard_cap res_cap : ℕ) → NoFault (parse_rate_response_pdu pdu guard_cap res_cap)
unfolding parse_rate_response_pdu
parse_rate_response_pdu-NoFault pdu guard_cap res_cap =
    >>=-NoFault _ _ (response_body-NoFault pdu) λ body e.
      let long = response_body_long pdu body e in
      >>=-NoFault _ _ (IsOk-NoFault _ (read_le16-IsOk body 0 (omega arith))) λ m _.
        >>=-NoFault _ _ (IsOk-NoFault _ (read_le16-IsOk body 2 (omega arith)))
          λ n _. guard-NoFault _ _ _ λ _. parse_blocks-NoFault body m n
