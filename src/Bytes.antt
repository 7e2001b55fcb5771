-- ===== src/Bytes.antt =====
-- Little-endian words in byte buffers: the static helpers at the top of src/r_protocol.c. A byte
-- buffer is the list of its bytes; `|` of shifted bytes does not carry, so it is a sum, and a read
-- outside the buffer is a `fault`.
pub mod RoundTrip
pub mod Bounds
use rl_c_client.Prelude.{
  ℕ, zero, suc, ◌+◌, ◌*◌, ◌/◌, ◌%◌, ◌^◌, ◌<◌, List, [], ◌∷◌, length, take, drop, leb, if◌then◌else◌,
}
use rl_c_client.Prelude.Results.{Result, ok, fault}

-- Every element is a byte.
abbrev pub AreBytes : List ℕ → Type 0
AreBytes [] = Unit
AreBytes (b ∷ bs) = (b < 256) × AreBytes bs

-- The words at the head of what is left of a buffer.
abbrev pub head_u8 : List ℕ → Result ℕ
head_u8 (a ∷ _) = ok a
head_u8 _ = fault

abbrev pub head_le16 : List ℕ → Result ℕ
head_le16 (a ∷ b ∷ _) = ok (a + b * 2 ^ 8)
head_le16 _ = fault

abbrev pub head_le32 : List ℕ → Result ℕ
head_le32 (a ∷ b ∷ c ∷ d ∷ _) = ok (a + b * 2 ^ 8 + c * 2 ^ 16 + d * 2 ^ 24)
head_le32 _ = fault

abbrev pub head_le64 : List ℕ → Result ℕ
head_le64 (a ∷ b ∷ c ∷ d ∷ e ∷ f ∷ g ∷ h ∷ _) =
    ok (a + b * 2 ^ 8 + c * 2 ^ 16 + d * 2 ^ 24 + e * 2 ^ 32 + f * 2 ^ 40 + g * 2 ^ 48 + h * 2 ^ 56)
head_le64 _ = fault

-- `buf[pos]`, `r_le16(buf + pos)` and its sisters.
unfoldable pub read_u8 : List ℕ → ℕ → Result ℕ
read_u8 buf pos = head_u8 (drop pos buf)

unfoldable pub read_le16 : List ℕ → ℕ → Result ℕ
read_le16 buf pos = head_le16 (drop pos buf)

unfoldable pub read_le32 : List ℕ → ℕ → Result ℕ
read_le32 buf pos = head_le32 (drop pos buf)

unfoldable pub read_le64 : List ℕ → ℕ → Result ℕ
read_le64 buf pos = head_le64 (drop pos buf)

-- `memcpy(out, buf + pos, n)`.
unfoldable pub read_bytes : List ℕ → ℕ → ℕ → Result (List ℕ)
read_bytes buf pos n = if leb n (length (drop pos buf)) then ok (take n (drop pos buf)) else fault

-- `(uint8_t)((v >> k) & 0xff)`.
abbrev pub byte_of : ℕ → ℕ → ℕ
byte_of v k = v / 2 ^ k % 256

unfoldable pub write_le16 : ℕ → List ℕ
write_le16 v = byte_of v 0 ∷ byte_of v 8 ∷ []

unfoldable pub write_le32 : ℕ → List ℕ
write_le32 v = byte_of v 0 ∷ byte_of v 8 ∷ byte_of v 16 ∷ byte_of v 24 ∷ []

unfoldable pub write_le64 : ℕ → List ℕ
write_le64 v =
    byte_of v 0
    ∷ byte_of v 8
    ∷ byte_of v 16
    ∷ byte_of v 24
    ∷ byte_of v 32
    ∷ byte_of v 40
    ∷ byte_of v 48
    ∷ byte_of v 56
    ∷ []
