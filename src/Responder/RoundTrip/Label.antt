-- ===== src/Responder/RoundTrip/Label.antt =====
-- The metrics label at the end of a request's body (r_append_metrics_label_tlv;
-- tools/r_test_responder_protocol.c, parse_metrics_label).
use rl_c_client.Prelude.{
  append_nil, leb, ◌==◌, if◌then◌else◌, leb→le, le→leb, Bool-cases, length, length-append, take,
  drop, replicate, length-take, length-replicate, drop-append, drop_skip, ℕ, ◌+◌, ◌-◌, ◌≤◌, ◌≡◌,
  refl, sym, ◌∙◌, subst, inl, inr, true, false, Option, none, some, List, [], ◌∷◌, ◌++◌, arith,
}
use rl_c_client.Prelude.Results.{err_protocol, Result, ok, guard, ◌>>=◌, ◌>>◌, guard-ok, >>=-ok}
use rl_c_client.Bytes.{read_u8, read_bytes, write_le16}
use rl_c_client.Bytes.RoundTrip.{read_le16-eq, read_bytes-eq}
use rl_c_client.Protocol.{tlv_metrics_label}
use rl_c_client.Protocol.Body.{effective_len, label_padding, append_metrics_label_tlv, append_label}
use rl_c_client.Responder.{label_cap, parse_metrics_label}

-- The text of a label argument; none for NULL and for an empty string.
unfoldable pub label_text : Option (List ℕ) → ℕ → Result (List ℕ)
label_text none label_len = ok []
label_text (some label) label_len = do
  first ← read_u8 label 0
  if first == 0 then ok [] else (do n ← effective_len label label_len; read_bytes label 0 n)

-- The TLV of a text.
abbrev pub tlv_size_of : List ℕ → ℕ
tlv_size_of text = 4 + (2 + length text) + label_padding (2 + length text)

abbrev pub label_tlv : List ℕ → List ℕ
label_tlv text =
    write_le16 tlv_metrics_label
    ++ (write_le16 (tlv_size_of text)
        ++ (write_le16 (length text) ++ (text ++ replicate (label_padding (2 + length text)) 0)))

-- What the builder adds for a text.
pub data IsSuffix : List ℕ → List ℕ → Type 0 where
  no_label : IsSuffix [] []
  labelled : (text : List ℕ) → tlv_size_of text ≤ 0xffff → IsSuffix text (label_tlv text)

length-read_bytes :
    (buf : List ℕ) (pos n : ℕ) (text : List ℕ) → read_bytes buf pos n ≡ ok text → length text ≡ n
unfolding read_bytes
length-read_bytes buf pos n text e = elim (Bool-cases (leb n (length (drop pos buf)))) [
  | inl fits ↦
      let form : text ≡ take n (drop pos buf) = ground arith in
      rw form (omega (arith, length-take n (drop pos buf), leb→le n (length (drop pos buf)) fits))
  | inr short ↦ ground arith
]

pub ok-inj : {A : Type 0} {x y : A} → ok x ≡ ok y → x ≡ y
ok-inj e = cc

length-label_tlv : (text : List ℕ) → length (label_tlv text) ≡ tlv_size_of text
unfolding write_le16
length-label_tlv text =
    let pad = label_padding (2 + length text) in
    omega (arith, length-append text (replicate pad 0), length-replicate {A = ℕ} pad 0)

-- `r_append_metrics_label_tlv` from the length of the text on.
abbrev tlv_of_length : List ℕ → ℕ → List ℕ → ℕ → Result (List ℕ)
tlv_of_length buf cap label n = do
  guard (leb n 0xffff) err_protocol
  guard (leb (4 + (2 + n) + label_padding (2 + n)) 0xffff) err_protocol
  guard (leb (length buf + (4 + (2 + n) + label_padding (2 + n))) cap) err_protocol
  text ← read_bytes label 0 n
  ok (
      buf
      ++ (write_le16 tlv_metrics_label
          ++ (write_le16 (4 + (2 + n) + label_padding (2 + n))
              ++ (write_le16 n ++ (text ++ replicate (label_padding (2 + n)) 0)))))

tlv_of_length-eq :
    (buf : List ℕ) (cap : ℕ) (label body text : List ℕ)
    → read_bytes label 0 (length text) ≡ ok text
    → tlv_of_length buf cap label (length text) ≡ ok body
    → (body ≡ buf ++ label_tlv text) × (tlv_size_of text ≤ 0xffff)
tlv_of_length-eq buf cap label body text read built =
    let (short, rest1) = guard-ok (leb (length text) 0xffff) err_protocol _ body built in
    let (small, rest2) = guard-ok (leb (tlv_size_of text) 0xffff) err_protocol _ body rest1 in
    let (fits, rest3) =
      guard-ok (leb (length buf + tlv_size_of text) cap) err_protocol _ body rest2 in
    let whole : ok (buf ++ label_tlv text) ≡ ok body = rw read at rest3 in
    (ground arith, leb→le (tlv_size_of text) 0xffff small)

append_metrics_label_tlv-suffix :
    (buf : List ℕ) (cap : ℕ) (label : List ℕ) (label_len : ℕ) (body text : List ℕ)
    → (effective_len label label_len >>= λ n. read_bytes label 0 n) ≡ ok text
    → append_metrics_label_tlv buf cap label label_len ≡ ok body
    → (body ≡ buf ++ label_tlv text) × (tlv_size_of text ≤ 0xffff)
unfolding append_metrics_label_tlv
append_metrics_label_tlv-suffix buf cap label label_len body text reads built =
    let (n, (len, read)) = >>=-ok (effective_len label label_len) (read_bytes label 0) text reads in
    let (m, (len', rest)) =
      >>=-ok (effective_len label label_len) (tlv_of_length buf cap label) body built in
    let size : length text ≡ n = length-read_bytes label 0 n text read in
    let n_eq : n ≡ length text = sym size in
    let m_eq : m ≡ length text = ok-inj (sym len' ∙ len) ∙ n_eq in
    tlv_of_length-eq buf cap label body text (subst (λ k. read_bytes label 0 k ≡ ok text) n_eq read)
      (subst (λ k. tlv_of_length buf cap label k ≡ ok body) m_eq rest)

unlabelled :
    (pre body text : List ℕ)
    → ok [] ≡ ok text
    → ok pre ≡ ok body
    → (suffix : List ℕ) × (IsSuffix text suffix × (body ≡ pre ++ suffix))
unlabelled pre body text t b =
    ([], (subst (λ x. IsSuffix x []) (ok-inj t) no_label, sym (ok-inj b) ∙ append_nil pre))

pub append_label-suffix :
    (pre : List ℕ) (cap : ℕ) (label : Option (List ℕ)) (label_len : ℕ) (body text : List ℕ)
    → label_text label label_len ≡ ok text
    → append_label pre cap label label_len ≡ ok body
    → (suffix : List ℕ) × (IsSuffix text suffix × (body ≡ pre ++ suffix))
unfolding append_label label_text read_u8
append_label-suffix pre cap none label_len body text t b = unlabelled pre body text t b
append_label-suffix pre cap (some []) label_len body text t b = ground arith
append_label-suffix pre cap (some (c ∷ cs)) label_len body text t b = elim (Bool-cases (c == 0)) [
  | inl e ↦
      let none_read = rw e at t in
      let none_added = rw e at b in unlabelled pre body text none_read none_added
  | inr e ↦
      let reads = rw e at t in
      let built = rw e at b in
      let (whole, small) =
        append_metrics_label_tlv-suffix pre cap (c ∷ cs) label_len body text reads built in
      (label_tlv text, (labelled text small, whole))
]

-- The TLV read back behind what stands in front of it.
module _ (pre text : List ℕ) where
  abbrev with_tlv : List ℕ
  with_tlv = pre ++ label_tlv text

  tlv_at : drop (length pre) with_tlv ≡ label_tlv text
  tlv_at = drop-append (length pre) pre (label_tlv text) refl

  size_at :
      drop (length pre + 2) with_tlv
      ≡ write_le16 (tlv_size_of text)
        ++ (write_le16 (length text) ++ (text ++ replicate (label_padding (2 + length text)) 0))
  unfolding write_le16
  size_at =
      drop_skip with_tlv (length pre) 2 (length pre + 2) (write_le16 tlv_metrics_label) _ tlv_at
        refl refl

  length_at_4 :
      drop (length pre + 4) with_tlv
      ≡ write_le16 (length text) ++ (text ++ replicate (label_padding (2 + length text)) 0)
  unfolding write_le16
  length_at_4 =
      drop_skip with_tlv (length pre + 2) 2 (length pre + 4) (write_le16 (tlv_size_of text)) _
        size_at refl (omega arith)

  text_at : drop (length pre + 6) with_tlv ≡ text ++ replicate (label_padding (2 + length text)) 0
  unfolding write_le16
  text_at =
      drop_skip with_tlv (length pre + 4) 2 (length pre + 6) (write_le16 (length text)) _
        length_at_4 refl (omega arith)

  length-with_tlv : length with_tlv ≡ length pre + tlv_size_of text
  length-with_tlv = rw (length-append pre (label_tlv text), length-label_tlv text) refl

  parse_label_tlv :
      tlv_size_of text ≤ 0xffff
      → length text ≤ label_cap
      → parse_metrics_label with_tlv (length pre) ≡ ok text
  unfolding parse_metrics_label
  parse_label_tlv small short =
      let size = tlv_size_of text in
      let total = length-with_tlv in
      let some_left : (length pre == length with_tlv) ≡ false = ground arith in
      let whole_tlv : (length pre + size == length with_tlv) ≡ true = ground arith in
      simp (
        some_left,
        le→leb 6 (length with_tlv - length pre) (omega arith),
        read_le16-eq with_tlv (length pre) _ tlv_metrics_label tlv_at (omega arith),
        read_le16-eq with_tlv (length pre + 2) _ size size_at (omega arith),
        read_le16-eq with_tlv (length pre + 4) _ (length text) length_at_4 (omega arith),
        le→leb 6 size (omega arith),
        le→leb size (length with_tlv - length pre) (omega arith),
        whole_tlv,
        le→leb (length text) (size - 6) (omega arith),
        le→leb (length text) label_cap short,
        read_bytes-eq with_tlv (length pre + 6) _ (length text) text text_at refl,
      )

pub parse_metrics_label-suffix :
    (pre text suffix : List ℕ)
    → IsSuffix text suffix
    → length text ≤ label_cap
    → parse_metrics_label (pre ++ suffix) (length pre) ≡ ok text
unfolding parse_metrics_label
parse_metrics_label-suffix pre _ _ no_label short =
    let all : (length pre == length (pre ++ [])) ≡ true = ground (arith, length-append pre []) in
    rw all refl
parse_metrics_label-suffix pre _ _ (labelled text small) short =
    parse_label_tlv pre text small short
