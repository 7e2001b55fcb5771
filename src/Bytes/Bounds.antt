-- ===== src/Bytes/Bounds.antt =====
-- The reads of words and the size of the buffer.
use rl_c_client.Prelude.{ℕ, ◌+◌, ◌≤◌, List, [], ◌∷◌, length, drop, arith, length-drop}
use rl_c_client.Prelude.Results.{IsOk}
use rl_c_client.Bytes.{
  head_u8, head_le16, head_le32, head_le64, read_u8, read_le16, read_le32, read_le64, read_bytes,
}

head_u8-IsOk : (xs : List ℕ) → 1 ≤ length xs → IsOk (head_u8 xs)
head_u8-IsOk [] h = absurd (omega arith)
head_u8-IsOk (a ∷ xs) h = tt

head_le16-IsOk : (xs : List ℕ) → 2 ≤ length xs → IsOk (head_le16 xs)
head_le16-IsOk [] h = absurd (omega arith)
head_le16-IsOk (a ∷ []) h = absurd (omega arith)
head_le16-IsOk (a ∷ b ∷ xs) h = tt

head_le32-IsOk : (xs : List ℕ) → 4 ≤ length xs → IsOk (head_le32 xs)
head_le32-IsOk [] h = absurd (omega arith)
head_le32-IsOk (a ∷ []) h = absurd (omega arith)
head_le32-IsOk (a ∷ b ∷ []) h = absurd (omega arith)
head_le32-IsOk (a ∷ b ∷ c ∷ []) h = absurd (omega arith)
head_le32-IsOk (a ∷ b ∷ c ∷ d ∷ xs) h = tt

pub head_le64-IsOk : (xs : List ℕ) → 8 ≤ length xs → IsOk (head_le64 xs)
head_le64-IsOk (a ∷ b ∷ c ∷ d ∷ e ∷ f ∷ g ∷ k ∷ xs) h = tt
head_le64-IsOk [] h = absurd (omega arith)
head_le64-IsOk (a ∷ []) h = absurd (omega arith)
head_le64-IsOk (a ∷ b ∷ []) h = absurd (omega arith)
head_le64-IsOk (a ∷ b ∷ c ∷ []) h = absurd (omega arith)
head_le64-IsOk (a ∷ b ∷ c ∷ d ∷ []) h = absurd (omega arith)
head_le64-IsOk (a ∷ b ∷ c ∷ d ∷ e ∷ []) h = absurd (omega arith)
head_le64-IsOk (a ∷ b ∷ c ∷ d ∷ e ∷ f ∷ []) h = absurd (omega arith)
head_le64-IsOk (a ∷ b ∷ c ∷ d ∷ e ∷ f ∷ g ∷ []) h = absurd (omega arith)

module _ (buf : List ℕ) (pos : ℕ) where
  pub read_u8-IsOk : pos + 1 ≤ length buf → IsOk (read_u8 buf pos)
  unfolding read_u8
  read_u8-IsOk h = head_u8-IsOk (drop pos buf) (omega (arith, length-drop pos buf))

  pub read_le16-IsOk : pos + 2 ≤ length buf → IsOk (read_le16 buf pos)
  unfolding read_le16
  read_le16-IsOk h = head_le16-IsOk (drop pos buf) (omega (arith, length-drop pos buf))

  pub read_le32-IsOk : pos + 4 ≤ length buf → IsOk (read_le32 buf pos)
  unfolding read_le32
  read_le32-IsOk h = head_le32-IsOk (drop pos buf) (omega (arith, length-drop pos buf))

  pub read_le64-IsOk : pos + 8 ≤ length buf → IsOk (read_le64 buf pos)
  unfolding read_le64
  read_le64-IsOk h = head_le64-IsOk (drop pos buf) (omega (arith, length-drop pos buf))

  pub read_bytes-IsOk : (n : ℕ) → pos + n ≤ length buf → IsOk (read_bytes buf pos n)
  unfolding read_bytes
  read_bytes-IsOk n h = ground (arith, length-drop pos buf)
