-- ===== src/Bytes/RoundTrip.antt =====
-- Words written and read (r_write_le16 to r_le64).
use rl_c_client.Prelude.{
  length, length-append, drop, take-append, ℕ, ◌^◌, ◌<◌, ◌≡◌, refl, ap, List, ◌∷◌, ◌++◌, arith,
}
use rl_c_client.Prelude.Results.{ok}
use rl_c_client.Bytes.{
  head_le16, head_le32, head_le64, read_u8, read_le16, read_le32, read_le64, read_bytes, write_le16,
  write_le32, write_le64,
}

pub head_le16-write_le16 :
    (v : ℕ) (rest : List ℕ) → v < 2 ^ 16 → head_le16 (write_le16 v ++ rest) ≡ ok v
unfolding write_le16
head_le16-write_le16 v rest h = ap ok (omega arith)

pub head_le32-write_le32 :
    (v : ℕ) (rest : List ℕ) → v < 2 ^ 32 → head_le32 (write_le32 v ++ rest) ≡ ok v
unfolding write_le32
head_le32-write_le32 v rest h = ap ok (omega arith)

pub head_le64-write_le64 :
    (v : ℕ) (rest : List ℕ) → v < 2 ^ 64 → head_le64 (write_le64 v ++ rest) ≡ ok v
unfolding write_le64
head_le64-write_le64 v rest h = ap ok (omega arith)

module _ (buf : List ℕ) (pos : ℕ) (rest : List ℕ) where
  pub read_le16-eq :
      (v : ℕ) → drop pos buf ≡ write_le16 v ++ rest → v < 2 ^ 16 → read_le16 buf pos ≡ ok v
  unfolding read_le16
  read_le16-eq v e h = rw e (head_le16-write_le16 v rest h)

  pub read_le32-eq :
      (v : ℕ) → drop pos buf ≡ write_le32 v ++ rest → v < 2 ^ 32 → read_le32 buf pos ≡ ok v
  unfolding read_le32
  read_le32-eq v e h = rw e (head_le32-write_le32 v rest h)

  pub read_le64-eq :
      (v : ℕ) → drop pos buf ≡ write_le64 v ++ rest → v < 2 ^ 64 → read_le64 buf pos ≡ ok v
  unfolding read_le64
  read_le64-eq v e h = rw e (head_le64-write_le64 v rest h)

  pub read_u8-eq : (v : ℕ) → drop pos buf ≡ v ∷ rest → read_u8 buf pos ≡ ok v
  unfolding read_u8
  read_u8-eq v e = rw e refl

  -- A block of known length is copied out whole.
  pub read_bytes-eq :
      (n : ℕ) (block : List ℕ)
      → drop pos buf ≡ block ++ rest
      → length block ≡ n
      → read_bytes buf pos n ≡ ok block
  unfolding read_bytes
  read_bytes-eq n block e h =
      rw (e, take-append n block rest h) (ground (arith, length-append block rest))
