-- ===== src/Manifests/Proxy.antt =====
-- `Serve` and what it calls in pkg/manifests/manifest.go: a manifest is served from the caches, or
-- after the queue has brought it.
use open_cidn.Base.{
  ℕ, ℤ, pos, Bool, true, false, ◌||◌, not, if◌then◌else◌, Bytes, bytes, str_eq, has_prefix,
  contains_text, length, Option, none, some, [], ◌++◌, ok, err, decimal, int_add,
}
use open_cidn.Manifests.Imc.{Imc}
use open_cidn.Manifests.Cache.{
  PathInfo, TagValue, DigestValue, CacheValue, key_eq, get, put_error, remove,
}
use open_cidn.Messages.Model.{MessageAttr, zero_attr}
use open_cidn.Storage.Driver.{Driver}
use open_cidn.Storage.Manifests.{get_manifest_content, stat_manifest}
use open_cidn.Manifests.Upstream.{denied, unknown, World, Store, noted, cache_manifest}
use open_cidn.Waiting.{QueueClient, waiting_queue}

-- What is written: the headers of a manifest with its body, or an error with its status code.
pub data Answer : Type 0 where
  manifest : Bytes → Bytes → Bytes → Option Bytes → Answer
  error : Bytes → ℕ → Answer

-- What `Serve` reads of the request and of its token.
pub record Asked : Type 0 where
  pub is_head : Bool
  pub weight : ℤ
  pub cache_first : Bool

unfoldable pub format_path_info : PathInfo → Bytes
format_path_info info =
    if has_prefix info.manifests (bytes "sha256:")
    then info.host ++ bytes "/" ++ info.image ++ bytes "@" ++ info.manifests
    else info.host ++ bytes "/" ++ info.image ++ bytes ":" ++ info.manifests

unfoldable pub job_attr : PathInfo → Bool → MessageAttr
job_attr info deep = record zero_attr {
  kind = bytes "manifest";
  host = info.host;
  image = info.image;
  deep = deep;
}

-- The errors of the queue that are told as a denial.
unfoldable pub queue_error : Bytes → Answer
queue_error e =
    if contains_text e (bytes "status code 404")
      || (contains_text e (bytes "status code 403")
          || (contains_text e (bytes "status code 401")
              || (contains_text e (bytes "unsupported target response") || contains_text e denied)))
    then error denied 0
    else error unknown 0

abbrev pub written : Bool → Bytes → Option Bytes
written is_head content = if is_head then none else some content

-- What an entry of the cache has to say by itself; the rest is in the storage.
pub data Said : Type 0 where
  says : Answer → Said
  marks : Said
  lacks_body : Said

unfoldable pub entry_says : Asked → CacheValue → Said
entry_says r val = elim val.error [
  | some e ↦ says (error e val.status_code)
  | none ↦
      if str_eq val.media_type [] || str_eq val.length []
      then marks
      else if r.is_head
      then says (manifest val.digest val.media_type val.length none)
      else if not (str_eq val.body [])
      then says (manifest val.digest val.media_type val.length (some val.body))
      else lacks_body
]

module _ (tags : Imc key_eq TagValue) (digests : Imc key_eq DigestValue) (d : Driver)
    (w : World) where
  -- An error is kept for those who wait.
  unfoldable pub worked :
      PathInfo → Option (ℕ × Bytes) × Store tags digests d w → Store tags digests d w
  worked info (none, st) = st
  worked info (some (sc, text), st) = record st {
    manifest_cache = put_error tags digests info text sc st.manifest_cache;
  }

  -- One turn of a worker with an item of the queue.
  unfoldable pub work : PathInfo → Store tags digests d w → Store tags digests d w
  work info st = worked info (cache_manifest tags digests d w info st)

  unfoldable pub serve_cached_manifest :
      Asked → PathInfo → Bool → Store tags digests d w → Option Answer × Store tags digests d w
  serve_cached_manifest r info recache st =
      let got =
        get_manifest_content d w.sum w.unmarshal info.host info.image info.manifests st.storage in
      let st1 : Store tags digests d w = record st { storage = got.1 } in
      elim got.0 [
        | none ↦ (none, st1)
        | some found ↦
            let length = decimal (length found.content) in
            (
              some
                  (manifest found.digest found.media_type length (written r.is_head found.content)),
              if recache
                  then noted tags digests d w info found.digest found.media_type length st1
                  else st1,
            )
      ]

  unfoldable pub or_removed :
      PathInfo → Option Answer × Store tags digests d w → Option Answer × Store tags digests d w
  or_removed info (some a, st) = (some a, st)
  or_removed info (none, st) =
      (none, record st { manifest_cache = remove tags digests info st.manifest_cache })

  unfoldable pub try_entry :
      Asked → PathInfo → Said → Store tags digests d w → Option Answer × Store tags digests d w
  try_entry r info (says a) st = (some a, st)
  try_entry r info marks st = or_removed info (serve_cached_manifest r info true st)
  try_entry r info lacks_body st = or_removed info (serve_cached_manifest r info false st)

  unfoldable pub try_first_serve_cached_manifest :
      Asked → PathInfo → Store tags digests d w → Option Answer × Store tags digests d w
  try_first_serve_cached_manifest r info st = elim (get tags digests info st.manifest_cache) [
    | some val ↦ try_entry r info (entry_says r val) st
    | none ↦
        if info.is_digest_manifests
        then serve_cached_manifest r info true st
        else if r.cache_first
        then serve_cached_manifest r info true st
        else (none, st)
  ]

  unfoldable pub miss_entry :
      Asked → PathInfo → Said → Store tags digests d w → Option Answer × Store tags digests d w
  miss_entry r info (says a) st = (some a, st)
  miss_entry r info marks st = serve_cached_manifest r info true st
  miss_entry r info lacks_body st = serve_cached_manifest r info true st

  unfoldable pub miss_serve_cached_manifest :
      Asked → PathInfo → Store tags digests d w → Option Answer × Store tags digests d w
  miss_serve_cached_manifest r info st = elim (get tags digests info st.manifest_cache) [
    | some val ↦ miss_entry r info (entry_says r val) st
    | none ↦ (none, st)
  ]

  abbrev pub or_else :
      Option Answer × Store tags digests d w
      → (Store tags digests d w → Option Answer × Store tags digests d w)
      → Option Answer × Store tags digests d w
  or_else (some a, st) next = (some a, st)
  or_else (none, st) next = next st

  -- The end of `Serve`.
  unfoldable pub at_last :
      Asked → PathInfo → Store tags digests d w → Option Answer × Store tags digests d w
  at_last r info st =
      or_else (miss_serve_cached_manifest r info st) (λ st1. (some (error unknown 0), st1))

  -- The manifest is there: it is asked for again in the background, by a job or by a worker, and
  -- served. `later` is what the worker has done by now, if it is a worker.
  unfoldable pub serve_known :
      Option QueueClient
      → (Store tags digests d w → Store tags digests d w)
      → Asked
      → PathInfo
      → Store tags digests d w
      → Option Answer × Store tags digests d w
  serve_known none later r info st =
      or_else (serve_cached_manifest r info true (later st)) (at_last r info)
  serve_known (some c) later r info st =
      elim (c.create (format_path_info info) (pos 0) (job_attr info true)) [
        | err e ↦ (some (error unknown 0), st)
        | ok mr ↦ or_else (serve_cached_manifest r info true st) (at_last r info)
      ]

  -- The manifest is not there: it is waited for; `ended` is whether the request ends first, with its
  -- error. `none` as long as the request waits.
  unfoldable pub serve_unknown :
      Option QueueClient
      → Option Bytes
      → Asked
      → PathInfo
      → Store tags digests d w
      → Option Answer × Store tags digests d w
  serve_unknown none (some e) r info st = (some (error e 0), st)
  serve_unknown none none r info st = at_last r info (work info st)
  serve_unknown (some c) ended r info st =
      elim (waiting_queue c (format_path_info info) (int_add r.weight (pos 1))
        (job_attr info false)) [
          | none ↦ (none, st)
          | some answer ↦ elim answer [
            | some e ↦ (some (queue_error e), st)
            | none ↦ or_else (serve_cached_manifest r info true st) (at_last r info)
          ]
        ]

  unfoldable pub serve :
      Option QueueClient
      → (Store tags digests d w → Store tags digests d w)
      → Option Bytes
      → Asked
      → PathInfo
      → Store tags digests d w
      → Option Answer × Store tags digests d w
  serve c later ended r info st = or_else (try_first_serve_cached_manifest r info st) (λ st1.
      elim (stat_manifest d w.sum w.unmarshal info.host info.image info.manifests st1.storage) [
        | none ↦ serve_unknown c ended r info st1
        | some there ↦
            if there then serve_known c later r info st1 else serve_unknown c ended r info st1
      ])
