-- ===== src/Manifests/Upstream.antt =====
-- `cacheManifest` of pkg/manifests/manifest.go: a manifest is fetched from its registry and stored.
-- An error is named by its text, or by the one for its code.
use open_cidn.Base.{
  ℕ, ◌*◌, Bool, ◌&&◌, ◌||◌, not, ltb, leb, ◌==◌, if◌then◌else◌, Bytes, bytes, str_eq, take, Option,
  none, some, [], ◌++◌, Result, ok, err, decimal,
}
use open_cidn.Manifests.Imc.{Imc}
use open_cidn.Manifests.Cache.{PathInfo, TagValue, DigestValue, key_eq, ManifestCache, put}
use open_cidn.Storage.Driver.{Driver}
use open_cidn.Storage.Manifests.{relink_manifest, put_manifest_content}

abbrev pub denied : Bytes
denied = bytes "DENIED"

abbrev pub unknown : Bytes
unknown = bytes "UNKNOWN"

abbrev pub storage_error : Bytes
storage_error = bytes "storage"

-- A response: `body` is `none` if reading it fails.
pub record Response : Type 0 where
  pub status_code : ℕ
  pub content_digest : Bytes
  pub body : Option Bytes

-- A request that cannot be made, one that the registry's authorization refuses, one that fails, or
-- an answer.
pub data Fetched : Type 0 where
  malformed : Bytes → Fetched
  refused : Fetched
  failed : Fetched
  answered : Response → Fetched

-- The parts that are not in this repository: the HTTP client by method, host and path; SHA-256; the
-- reading of JSON, of a manifest's type, and of a list of errors.
pub record World : Type 0 where
  pub http_client : Bytes → Bytes → Bytes → Fetched
  pub sum : Bytes → Bytes
  pub unmarshal : Bytes → Option (Bytes × Bool)
  pub valid : Bytes → Bool
  pub unmarshal_errors : Bytes → Option Bytes

-- The codes that end the work before the body is looked at.
unfoldable pub refused_by : ℕ → Option Bytes
refused_by code =
    if code == 401 || code == 403
    then some denied
    else if ltb code 200 || leb 300 code && ltb code 400
    then some unknown
    else none

-- What the answer to the request for the digest says: the digest, or status and error.
unfoldable pub head_answer : Fetched → Result (ℕ × Bytes) Bytes
head_answer (malformed e) = err (0, e)
head_answer refused = err (403, denied)
head_answer failed = err (0, unknown)
head_answer (answered resp) = elim (refused_by resp.status_code) [
  | some e ↦ err (0, e)
  | none ↦ if str_eq resp.content_digest [] then err (0, denied) else ok resp.content_digest
]

-- What the answer to the request for the manifest says: the body, or status and error.
unfoldable pub get_answer : World → Fetched → Result (ℕ × Bytes) Bytes
get_answer w (malformed e) = err (0, e)
get_answer w refused = err (403, denied)
get_answer w failed = err (0, unknown)
get_answer w (answered resp) = elim (refused_by resp.status_code) [
  | some e ↦ err (0, e)
  | none ↦ elim resp.body [
    | none ↦ err (0, unknown)
    | some whole ↦
        let body = take (1024 * 1024) whole in
        if not (w.valid body)
        then err (0, denied)
        else if leb 400 resp.status_code
        then elim (w.unmarshal_errors body) [
          | none ↦ err (0, unknown)
          | some e ↦ err (resp.status_code, e)
        ]
        else ok body
  ]
]

unfoldable pub manifest_path : PathInfo → Bytes → Bytes
manifest_path info reference = bytes "/v2/" ++ info.image ++ bytes "/manifests/" ++ reference

module _ (tags : Imc key_eq TagValue) (digests : Imc key_eq DigestValue) (d : Driver)
    (w : World) where
  pub record Store : Type 0 where
    pub manifest_cache : ManifestCache tags digests
    pub storage : d.State

  abbrev pub noted : PathInfo → Bytes → Bytes → Bytes → Store → Store
  noted info digest media_type length st = record st {
    manifest_cache =
        put tags digests info
          (record {
            digest = digest;
            media_type = media_type;
            length = length;
            body = [];
            error = none;
            status_code = 0;
          })
          st.manifest_cache;
  }

  unfoldable pub body_put :
      PathInfo → Option (ℕ × Bytes × Bytes) × d.State → Store → Option (ℕ × Bytes) × Store
  body_put info (none, s) st = (some (0, storage_error), record st { storage = s })
  body_put info (some (size, digest, media_type), s) st =
      (none, noted info digest media_type (decimal size) (record st { storage = s }))

  unfoldable pub put_body : PathInfo → Result (ℕ × Bytes) Bytes → Store → Option (ℕ × Bytes) × Store
  put_body info (err e) st = (some e, st)
  put_body info (ok body) st =
      body_put info
        (put_manifest_content d w.sum w.unmarshal info.host info.image info.manifests body
          st.storage)
        st

  unfoldable pub fetch_body : PathInfo → Bytes → Store → Option (ℕ × Bytes) × Store
  fetch_body info reference st =
      put_body info
        (get_answer w (w.http_client (bytes "GET") info.host (manifest_path info reference))) st

  unfoldable pub relinked :
      PathInfo → Bytes → Option ℕ × d.State → Store → Option (ℕ × Bytes) × Store
  relinked info digest (some n, s) st = (none, noted info digest [] [] (record st { storage = s }))
  relinked info digest (none, s) st = fetch_body info digest (record st { storage = s })

  unfoldable pub after_head :
      PathInfo → Result (ℕ × Bytes) Bytes → Store → Option (ℕ × Bytes) × Store
  after_head info (err e) st = (some e, st)
  after_head info (ok digest) st =
      relinked info digest
        (relink_manifest d w.sum w.unmarshal info.host info.image info.manifests digest st.storage)
        st

  -- A tag is asked for its digest first; `none` is success.
  unfoldable pub cache_manifest : PathInfo → Store → Option (ℕ × Bytes) × Store
  cache_manifest info st =
      if not info.is_digest_manifests && not (str_eq info.host (bytes "ollama.com"))
      then after_head info
          (head_answer (w.http_client (bytes "HEAD") info.host (manifest_path info info.manifests)))
          st
      else fetch_body info info.manifests st
