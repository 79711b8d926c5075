-- ===== src/Storage/Blobs.antt =====
-- pkg/cache/cache.go, cache_blob.go and blob_writer.go: blobs by their digest. `none` is an error;
-- `sum` is the sum of SHA-256 in hexadecimal digits.
use open_cidn.Base.{
  ℕ, Bool, ◌&&◌, not, ltb, ◌==◌, if◌then◌else◌, Bytes, str_eq, length, drop, Option, none, some, [],
  ◌++◌,
}
use open_cidn.Storage.Paths.{blob_cache_path, clean_digest}
use open_cidn.Storage.Driver.{Driver}

-- The state after a write, with what is told of it.
abbrev pub told {ℓ} : {A S : Type ℓ} → A → S → Option S → Option A × S
told a s none = (none, s)
told a s (some s') = (some a, s')

-- The next step, unless there was an error; what was done before stays.
abbrev pub after {ℓ} : {A B S : Type ℓ} → Option A × S → (A → S → Option B × S) → Option B × S
after (none, s) next = (none, s)
after (some a, s) next = next a s

module _ (d : Driver) (sum : Bytes → Bytes) where
  -- What is read is written, checked and then committed; `none` is a reader that fails.
  unfoldable pub put : Bytes → Option Bytes → (Bytes → Bool) → d.State → Option ℕ × d.State
  put path none check s = (none, s)
  put path (some content) check s =
      if check content then told (length content) s (d.put_content path content s) else (none, s)

  unfoldable pub put_with_hash : Bytes → Option Bytes → Bytes → ℕ → d.State → Option ℕ × d.State
  put_with_hash path r cache_hash cache_size s =
      put path r
        (λ (content : Bytes).
          not (ltb 0 cache_size && not (length content == cache_size))
          && str_eq cache_hash (sum content))
        s

  unfoldable pub put_blob : Bytes → Option Bytes → d.State → Option ℕ × d.State
  put_blob blob r s = put_with_hash (blob_cache_path blob) r (clean_digest blob) 0 s

  unfoldable pub put_blob_content : Bytes → Bytes → d.State → Option ℕ × d.State
  put_blob_content blob content s =
      put_with_hash (blob_cache_path blob) (some content) (clean_digest blob) (length content) s

  unfoldable pub get_blob_content : Bytes → d.State → Option Bytes
  get_blob_content blob s = d.read (blob_cache_path blob) s

  unfoldable pub get_blob_with_offset : Bytes → ℕ → d.State → Option Bytes
  get_blob_with_offset blob offset s = elim (d.read (blob_cache_path blob) s) [
    | none ↦ none
    | some content ↦ some (drop offset content)
  ]

  -- The size that `Stat` tells.
  unfoldable pub stat_blob : Bytes → d.State → Option ℕ
  stat_blob blob s = elim (d.read (blob_cache_path blob) s) [
    | none ↦ none
    | some content ↦ some (length content)
  ]

  unfoldable pub delete_blob : Bytes → d.State → Option d.State
  delete_blob blob s = d.delete (blob_cache_path blob) s

  -- A writer of a blob in pieces; one that appends to what is there has no hash to compare.
  pub record BlobWriter : Type 0 where
    pub path : Bytes
    pub written : Bytes
    pub cache_hash : Option Bytes

  unfoldable pub blob_writer : Bytes → Bool → d.State → BlobWriter
  blob_writer blob append s =
      let path = blob_cache_path blob in
      if append
      then record {
        path = path;
        written = elim (d.read path s) [ none ↦ [] | some content ↦ content ];
        cache_hash = none;
      }
      else record { path = path; written = []; cache_hash = some (clean_digest blob) }

  unfoldable pub write : Bytes → BlobWriter → BlobWriter
  write p bw = record bw { written = bw.written ++ p }

  unfoldable pub commit : BlobWriter → d.State → Option d.State
  commit bw s = elim bw.cache_hash [
    | none ↦ d.put_content bw.path bw.written s
    | some cache_hash ↦
        if str_eq cache_hash (sum bw.written) then d.put_content bw.path bw.written s else none
  ]
