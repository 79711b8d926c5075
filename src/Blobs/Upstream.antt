-- ===== src/Blobs/Upstream.antt =====
-- `cacheBlob`, `worker` and `downloadBlobWorker` of pkg/blobs/blobs.go: a blob is fetched from its
-- registry and stored.
use open_cidn.Base.{
  ℕ, ℤ, pos, ◌-◌, ◌*◌, Bool, true, false, ◌&&◌, not, leb, ◌==◌, int_lt, int_add, if◌then◌else◌,
  Bytes, bytes, take, Option, none, some, ◌++◌, Result, ok, err, text_eq,
}
use open_cidn.Manifests.Imc.{Imc}
use open_cidn.Manifests.Upstream.{denied, unknown, storage_error, refused_by}
use open_cidn.Storage.Driver.{Driver}
use open_cidn.Storage.Blobs.{put_blob, stat_blob}
use open_cidn.Blobs.Sizes.{size_to_group_and_weight}
use open_cidn.Blobs.Cache.{BlobValue, BlobsCache, put_error, put, put_no_ttl}

pub record BlobInfo : Type 0 where
  pub host : Bytes
  pub image : Bytes
  pub blobs : Bytes

-- A response: the content length is -1 if it is not known, `body` is `none` if reading it fails.
pub record Response : Type 0 where
  pub status_code : ℕ
  pub content_length : ℤ
  pub body : Option Bytes

pub data Fetched : Type 0 where
  malformed : Bytes → Fetched
  refused : Fetched
  failed : Fetched
  answered : Response → Fetched

-- The HTTP client by host and path, SHA-256, and the reading of JSON and of a list of errors; and of
-- the settings whether there is a cache for big blobs, and from which size on.
pub record World : Type 0 where
  pub http_client : Bytes → Bytes → Fetched
  pub sum : Bytes → Bytes
  pub valid : Bytes → Bool
  pub unmarshal_errors : Bytes → Option Bytes
  pub has_big_cache : Bool
  pub big_cache_size : ℤ

unfoldable pub blob_path : BlobInfo → Bytes
blob_path info = bytes "/v2/" ++ info.image ++ bytes "/blobs/" ++ info.blobs

-- A body that tells errors, as status and error.
unfoldable pub told_errors : World → Response → ℕ × Bytes
told_errors w resp = elim resp.body [
  | none ↦ (0, unknown)
  | some whole ↦
      let body = take (1024 * 1024) whole in
      if not (w.valid body)
      then (0, denied)
      else elim (w.unmarshal_errors body) [ none ↦ (0, unknown) | some e ↦ (resp.status_code, e) ]
]

-- Status and error, or the response whose body is still to be read.
unfoldable pub answer : World → Fetched → Result (ℕ × Bytes) Response
answer w (malformed e) = err (0, e)
answer w refused = err (403, denied)
answer w failed = err (0, unknown)
answer w (answered resp) = elim (refused_by resp.status_code) [
  | some e ↦ err (0, e)
  | none ↦ if leb 400 resp.status_code then err (told_errors w resp) else ok resp
]

unfoldable pub cache_blob : World → BlobInfo → Result (ℕ × Bytes) Response
cache_blob w info = answer w (w.http_client info.host (blob_path info))

-- The place in the array of four queues, and the weight there.
unfoldable pub place : ℤ → ℤ → ℕ × ℤ
place weight size =
    let (group, ew) = size_to_group_and_weight size in
    (if leb 4 group then 4 - 1 else group, int_add weight (pos ew))

module _ (blobs : Imc text_eq BlobValue) (d : Driver) (w : World) where
  -- `big` is the storage of big blobs.
  pub record Store : Type 0 where
    pub blob_cache : BlobsCache blobs
    pub storage : d.State
    pub big : d.State

  -- The size in the storage must be the one that was written.
  unfoldable pub same_size : Option ℕ → ℕ → Option Bytes
  same_size none size = some storage_error
  same_size (some stat) size = if stat == size then none else some (bytes "size mismatch")

  unfoldable pub is_big : Response → Bool
  is_big resp =
      w.has_big_cache
      && (int_lt (pos 0) w.big_cache_size && int_lt w.big_cache_size resp.content_length)

  abbrev with_cache : (BlobsCache blobs → BlobsCache blobs) → Store → Store
  with_cache f st = record st { blob_cache = f st.blob_cache }

  -- After the blob is put among the big ones, its size is looked up among the others.
  unfoldable pub after_big : BlobInfo → Option ℕ × d.State → Store → Option Bytes × Store
  after_big info (none, s) st = (some (bytes "Put to big cache"), record st { big = s })
  after_big info (some size, s) st =
      elim (same_size (stat_blob d w.sum info.blobs st.storage) size) [
        | some e ↦ (some e, record st { big = s })
        | none ↦
            (none, with_cache (put_no_ttl blobs info.blobs (pos size) true) (record st { big = s }))
      ]

  unfoldable pub after_small : BlobInfo → Option ℕ × d.State → Store → Option Bytes × Store
  after_small info (none, s) st = (some storage_error, record st { storage = s })
  after_small info (some size, s) st = elim (same_size (stat_blob d w.sum info.blobs s) size) [
    | some e ↦ (some e, record st { storage = s })
    | none ↦ (none, with_cache (put blobs info.blobs (pos size) false) (record st { storage = s }))
  ]

  unfoldable pub continue_func : BlobInfo → Response → Store → Option Bytes × Store
  continue_func info resp st =
      if is_big resp
      then after_big info (put_blob d w.sum info.blobs resp.body st.big) st
      else after_small info (put_blob d w.sum info.blobs resp.body st.storage) st

  -- One turn of a download worker.
  unfoldable pub downloaded : BlobInfo → Option Bytes × Store → Store
  downloaded info (none, st) = st
  downloaded info (some e, st) = with_cache (put_error blobs info.blobs e 0) st

  -- One turn of a worker, and for a blob that can be fetched the one of the download worker that
  -- its place in the queues leads to.
  unfoldable pub worked : BlobInfo → Result (ℕ × Bytes) Response → Store → Store
  worked info (err e) st = with_cache (put_error blobs info.blobs e.1 e.0) st
  worked info (ok resp) st = downloaded info (continue_func info resp st)

  unfoldable pub work : BlobInfo → Store → Store
  work info st = worked info (cache_blob w info) st
