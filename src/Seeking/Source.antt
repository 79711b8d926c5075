-- ===== src/Seeking/Source.antt =====
-- The readers that internal/seeker/seeker.go opens, which its callers supply: readers of one content
-- from an offset on.
use open_cidn.Base.{ℕ, ◌+◌, ◌≤◌, ◌≡◌, Bytes, Option, some, length, take, drop}

-- The error beside the number of bytes of a `Read`.
pub data ReadError : Type 0 where
  fine eof failed : ReadError

pub record Chunk (Reader : Type 0) : Type 0 where
  pub data_read : Bytes
  pub error : ReadError
  pub next : Reader

pub record Source : Type 1 where
  pub Reader : Type 0
  pub content : Bytes
  pub open_at : ℕ → Option Reader
  pub read : ℕ → Reader → Chunk Reader
  pub position : Reader → ℕ
  pub position-open_at : (n : ℕ) (r : Reader) → open_at n ≡ some r → position r ≡ n
  pub read-within : (n : ℕ) (r : Reader) → length ((read n r).data_read) ≤ n
  pub read-data :
      (n : ℕ) (r : Reader)
      → (read n r).data_read ≡ take (length ((read n r).data_read)) (drop (position r) content)
  pub position-read :
      (n : ℕ) (r : Reader) → position ((read n r).next) ≡ position r + length ((read n r).data_read)
