-- ===== src/Blobs/Proxy.antt =====
-- `ServeHTTP`, `Serve` and what they call in pkg/blobs/blobs.go.
use open_cidn.Base.{
  ℕ, ℤ, pos, ◌-◌, Bool, true, false, ◌&&◌, ◌||◌, not, ltb, int_lt, int_eq, int_add, if◌then◌else◌,
  Bytes, bytes, str_eq, has_prefix, trim_prefix, split, join, contains_text, length, drop, take,
  Option, none, some, text_eq,
}
use open_cidn.Manifests.Imc.{Imc}
use open_cidn.Manifests.Upstream.{denied, unknown}
use open_cidn.Messages.Model.{MessageAttr, zero_attr}
use open_cidn.Storage.Driver.{Driver}
use open_cidn.Storage.Blobs.{stat_blob}
use open_cidn.Storage.Links.{Links, redirect_blob}
use open_cidn.Tokens.Token.{Token, no_token}
use open_cidn.Tokens.Authenticator.{Request, Authenticator, authorization}
use open_cidn.Gateway.Paths.{prefix, part_at}
use open_cidn.Waiting.{QueueClient, waiting_queue}
use open_cidn.Blobs.Cache.{BlobValue, get, remove, put, put_no_ttl}
use open_cidn.Blobs.Upstream.{BlobInfo, World, Store, work}

-- What is written. `content` is the blob from the storage, `nothing` an answer that breaks off.
pub data Answer : Type 0 where
  head : ℤ → Answer
  redirected : Bytes → Answer
  content : Bytes → ℤ → Answer
  error : Bytes → ℕ → Answer
  nothing : Answer
  not_found : Answer
  unsupported : Answer
  api_base : Answer
  refused : Bytes → Answer

-- Source, image and digest of `/v2/{source}/{path...}/blobs/sha256:{digest}`.
unfoldable pub parse_path : Bytes → Option (Bytes × Bytes × Bytes)
parse_path path =
    let parts = split 47 (trim_prefix path prefix) in
    let digest = part_at (length parts - 1) parts in
    if ltb (length parts) 4
    then none
    else if not (str_eq (part_at (length parts - 2) parts) (bytes "blobs"))
    then none
    else if not (has_prefix digest (bytes "sha256:"))
    then none
    else some (part_at 0 parts, join 47 (drop 1 (take (length parts - 2) parts)), digest)

-- The settings. `allow` and `wait` are what the limiter says to this request: whether a blob may be
-- sent now, and whether it may after a wait.
pub record Settings : Type 0 where
  pub links : Links
  pub big_links : Links
  pub force_blob_no_redirect : Bool
  pub blob_no_redirect_size : ℤ
  pub has_limit : Bool
  pub allow : Bool
  pub wait : Bool

pub record Asked : Type 0 where
  pub is_head : Bool
  pub remote_addr : Bytes
  pub always_redirect : Bool
  pub weight : ℤ

unfoldable pub job_attr : BlobInfo → MessageAttr
job_attr info = record zero_attr { kind = bytes "blob"; host = info.host; image = info.image }

unfoldable pub queue_error : Bytes → Answer
queue_error e =
    if contains_text e (bytes "status code 404")
      || (contains_text e (bytes "status code 403") || contains_text e (bytes "status code 401"))
    then error denied 0
    else error unknown 0

-- A HEAD is answered by the size, unless that is 0.
unfoldable pub serve_cached_blob_head : Asked → ℤ → Option Answer
serve_cached_blob_head r size =
    if not (int_eq size (pos 0)) && r.is_head then some (head size) else none

module _ (blobs : Imc text_eq BlobValue) (d : Driver) (w : World) (c : Settings) where
  abbrev Stores : Type 0
  Stores = Store blobs d w

  -- Of the referer, which `Redirect` does not use, only the address is passed.
  unfoldable pub serve_big_cached_blob_redirect :
      Asked → BlobInfo → ℤ → Store blobs d w → Answer × Store blobs d w
  serve_big_cached_blob_redirect r info size st =
      elim (redirect_blob c.big_links info.blobs r.remote_addr) [
        | none ↦ (error unknown 0, record st { blob_cache = remove blobs info.blobs st.blob_cache })
        | some u ↦ (
          redirected u,
          record st { blob_cache = put_no_ttl blobs info.blobs size true st.blob_cache },
        )
      ]

  unfoldable pub serve_cached_blob_redirect :
      Asked → BlobInfo → ℤ → Store blobs d w → Answer × Store blobs d w
  serve_cached_blob_redirect r info size st =
      elim (redirect_blob c.links info.blobs r.remote_addr) [
        | none ↦ (error unknown 0, record st { blob_cache = remove blobs info.blobs st.blob_cache })
        | some u ↦
            (redirected u, record st { blob_cache = put blobs info.blobs size false st.blob_cache })
      ]

  unfoldable pub serve_cached_blob_direct :
      BlobInfo → ℤ → Store blobs d w → Answer × Store blobs d w
  serve_cached_blob_direct info size st = (
    content info.blobs size,
    record st { blob_cache = put blobs info.blobs size false st.blob_cache },
  )

  unfoldable pub serve_cached_blob :
      Asked → BlobInfo → ℤ → Store blobs d w → Answer × Store blobs d w
  serve_cached_blob r info size st =
      if r.always_redirect
      then serve_cached_blob_redirect r info size st
      else if c.force_blob_no_redirect
      then if c.has_limit && not c.wait
        then (nothing, st)
        else serve_cached_blob_direct info size st
      else if int_lt size c.blob_no_redirect_size && (c.has_limit && c.allow)
      then serve_cached_blob_direct info size st
      else serve_cached_blob_redirect r info size st

  abbrev answered : Answer × Store blobs d w → Option Answer × Store blobs d w
  answered (a, st) = (some a, st)

  -- A blob of a size among the big ones, or among the others.
  unfoldable pub serve_sized :
      Bool → Asked → BlobInfo → ℤ → Store blobs d w → Option Answer × Store blobs d w
  serve_sized is_big r info size st = elim (serve_cached_blob_head r size) [
    | some a ↦ (some a, st)
    | none ↦
        if is_big
        then answered (serve_big_cached_blob_redirect r info size st)
        else answered (serve_cached_blob r info size st)
  ]

  unfoldable pub serve_value :
      Asked → BlobInfo → BlobValue → Store blobs d w → Option Answer × Store blobs d w
  serve_value r info value st = elim value.error [
    | some e ↦ (some (error e 0), st)
    | none ↦ serve_sized value.big_cache r info value.size st
  ]

  unfoldable pub serve_big_stat :
      Asked → BlobInfo → Store blobs d w → Option Answer × Store blobs d w
  serve_big_stat r info st = elim (stat_blob d w.sum info.blobs st.big) [
    | none ↦ (none, st)
    | some size ↦ serve_sized true r info (pos size) st
  ]

  unfoldable pub serve_stat : Asked → BlobInfo → Store blobs d w → Option Answer × Store blobs d w
  serve_stat r info st = elim (stat_blob d w.sum info.blobs st.storage) [
    | none ↦ if w.has_big_cache then serve_big_stat r info st else (none, st)
    | some size ↦
        if w.has_big_cache && not (int_lt (pos size) w.big_cache_size)
        then serve_big_stat r info st
        else serve_sized false r info (pos size) st
  ]

  unfoldable pub serve_cache : Asked → BlobInfo → Store blobs d w → Option Answer × Store blobs d w
  serve_cache r info st = elim (get blobs info.blobs st.blob_cache) [
    | some value ↦ serve_value r info value st
    | none ↦ serve_stat r info st
  ]

  abbrev pub or_else :
      Option Answer × Store blobs d w
      → (Store blobs d w → Option Answer × Store blobs d w)
      → Option Answer × Store blobs d w
  or_else (some a, st) next = (some a, st)
  or_else (none, st) next = next st

  -- The end of `Serve`.
  unfoldable pub at_last : Asked → BlobInfo → Store blobs d w → Option Answer × Store blobs d w
  at_last r info st = or_else (serve_cache r info st) (λ st1. (some (error unknown 0), st1))

  -- The blob is waited for; `none` as long as the request waits. `ended` is whether the request ends
  -- before the worker is done.
  unfoldable pub serve_missing :
      Option QueueClient
      → Bool
      → Asked
      → BlobInfo
      → Store blobs d w
      → Option Answer × Store blobs d w
  serve_missing none true r info st = (some nothing, st)
  serve_missing none false r info st = at_last r info (work blobs d w info st)
  serve_missing (some q) ended r info st =
      elim (waiting_queue q info.blobs (int_add r.weight (pos 1)) (job_attr info)) [
        | none ↦ (none, st)
        | some answer ↦ elim answer [
          | some e ↦ (some (queue_error e), st)
          | none ↦ at_last r info st
        ]
      ]

  unfoldable pub serve :
      Option QueueClient
      → Bool
      → Asked
      → BlobInfo
      → Store blobs d w
      → Option Answer × Store blobs d w
  serve q ended r info st = or_else (serve_cache r info st) (serve_missing q ended r info)

  unfoldable pub serve_admitted :
      Option QueueClient
      → Bool
      → Request
      → Token
      → Bytes × Bytes × Bytes
      → Store blobs d w
      → Option Answer × Store blobs d w
  serve_admitted q ended r t (source, image, digest) st =
      if t.attribute.block
      then (some (refused t.attribute.block_message), st)
      else serve q ended
          (record {
            is_head = str_eq r.method (bytes "HEAD");
            remote_addr = r.remote_addr;
            always_redirect = t.attribute.always_redirect;
            weight = t.attribute.weight;
          })
          (record { host = source; image = image; blobs = digest }) st

  unfoldable pub serve_parsed :
      Option QueueClient
      → Bool
      → Option Authenticator
      → ℕ
      → Request
      → Bytes × Bytes × Bytes
      → Store blobs d w
      → Option Answer × Store blobs d w
  serve_parsed q ended none now r parts st = serve_admitted q ended r no_token parts st
  serve_parsed q ended (some a) now r parts st = elim (authorization a now r) [
    | none ↦ (some (refused (bytes "unauthorized")), st)
    | some known ↦ serve_admitted q ended known.1 known.0 parts st
  ]

  unfoldable pub serve_http :
      Option QueueClient
      → Bool
      → Option Authenticator
      → ℕ
      → Request
      → Store blobs d w
      → Option Answer × Store blobs d w
  serve_http q ended a now r st =
      if not (has_prefix r.path prefix)
      then (some not_found, st)
      else if not (str_eq r.method (bytes "GET")) && not (str_eq r.method (bytes "HEAD"))
      then (some unsupported, st)
      else if str_eq r.path prefix
      then (some api_base, st)
      else elim (parse_path r.path) [
        | none ↦ (some not_found, st)
        | some parts ↦ serve_parsed q ended a now r parts st
      ]
