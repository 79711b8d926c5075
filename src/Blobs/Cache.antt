-- ===== src/Blobs/Cache.antt =====
-- pkg/blobs/blobs_cache.go: what is known of a blob, by its digest. Times of modification are left
-- out; an error is named by its text.
use open_cidn.Base.{ℕ, ℤ, pos, Bool, false, Bytes, Option, none, some, text_eq}
use open_cidn.Manifests.Imc.{Imc}

pub record BlobValue : Type 0 where
  pub size : ℤ
  pub big_cache : Bool
  pub error : Option Bytes
  pub status_code : ℕ

module _ (blobs : Imc text_eq BlobValue) where
  pub record BlobsCache : Type 0 where
    pub digest : blobs.State
    pub duration : ℕ

  unfoldable pub new_blobs_cache : ℕ → BlobsCache
  new_blobs_cache duration = record { digest = blobs.new; duration = duration }

  unfoldable pub get : Bytes → BlobsCache → Option BlobValue
  get key c = blobs.get key c.digest

  unfoldable pub remove : Bytes → BlobsCache → BlobsCache
  remove key c = record c { digest = blobs.remove key c.digest }

  unfoldable pub put_error : Bytes → Bytes → ℕ → BlobsCache → BlobsCache
  put_error key e sc c = record c {
    digest =
        blobs.set_with_ttl key
          (record { size = pos 0; big_cache = false; error = some e; status_code = sc }) c.duration
          c.digest;
  }

  unfoldable pub put : Bytes → ℤ → Bool → BlobsCache → BlobsCache
  put key size big_cache c = record c {
    digest =
        blobs.set_with_ttl key
          (record { size = size; big_cache = big_cache; error = none; status_code = 0 }) c.duration
          c.digest;
  }

  unfoldable pub put_no_ttl : Bytes → ℤ → Bool → BlobsCache → BlobsCache
  put_no_ttl key size big_cache c = record c {
    digest =
        blobs.set key (record { size = size; big_cache = big_cache; error = none; status_code = 0 })
          c.digest;
  }
