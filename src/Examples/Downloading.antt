-- ===== src/Examples/Downloading.antt =====
-- The theorems on the proxy of blobs, on its workers and on the waiting for jobs.
use open_cidn.Base.{
  ℕ, ◌≡◌, refl, true, false, ◌==◌, pos, int_lt, Bytes, bytes, has_prefix, contains_byte, length,
  count, Option, some, none, List, [], ◌∷◌, ◌++◌, ok, text_eq, All,
}
use open_cidn.Maps.{get_key}
use open_cidn.Base.{join}
use open_cidn.Base.{split}
use open_cidn.Base.{str_eq}
use open_cidn.Maps.{set_key}
use open_cidn.Base.{trim_prefix}
use open_cidn.Storage.Blobs.{put}
use open_cidn.Storage.Paths.{resolve}
use open_cidn.Storage.Blobs.{put_blob}
use open_cidn.Storage.Paths.{path_join}
use open_cidn.Storage.Paths.{all_parts}
use open_cidn.Blobs.Upstream.{same_size}
use open_cidn.Storage.Paths.{resolve_all}
use open_cidn.Storage.Paths.{clean_digest}
use open_cidn.Blobs.Upstream.{after_small}
use open_cidn.Storage.Blobs.{put_with_hash}
use open_cidn.Blobs.Upstream.{continue_func}
use open_cidn.Storage.Paths.{blob_cache_path}
use open_cidn.Manifests.Imc.{Imc, list_imc}
use open_cidn.Manifests.Upstream.{refused_by}
use open_cidn.Messages.Model.{zero_attr, status_pending, status_failed}
use open_cidn.Messages.Watch.{MessageResponse}
use open_cidn.Storage.Driver.{list_driver}
use open_cidn.Storage.Blobs.{stat_blob}
use open_cidn.Storage.Links.{Links}
use open_cidn.Tokens.Token.{Token, no_token, no_attribute}
use open_cidn.Tokens.Authenticator.{Request}
use open_cidn.Gateway.Paths.{PathInfo}
use open_cidn.Gateway.Location.{url_path}
use open_cidn.Gateway.Serve
use open_cidn.Gateway.Serve.{Gateway, redirected}
use open_cidn.Blobs.Cache.{BlobValue, new_blobs_cache}
use open_cidn.Blobs.Upstream.{
  BlobInfo, Response, answered, World, answer, cache_blob, Store, is_big, work,
}
use open_cidn.Blobs.Proxy.{error, Settings, Asked, parse_path, serve_missing}
use open_cidn.Blobs.Served.{outcome, Settles, serve_missing-Settles, serve_missing_big}
use open_cidn.Blobs.Workers.{new_blobs, new_blobs_lem}
use open_cidn.Blobs.Agent.{blob-parse_path}
use open_cidn.Waiting.{
  Notice, message, closed, QueueClient, Tells, waiting_queue, waiting_queue_ends,
}

abbrev job : ℕ → MessageResponse
job status = record {
  message_id = pos 7;
  content = bytes "sha256:x";
  priority = pos 1;
  status = status;
  attr = record zero_attr { error = bytes "status code 404" };
  last_heartbeat = 0;
}

abbrev idle : List Notice
idle = message (job status_pending) ∷ closed none ∷ []

abbrev client : QueueClient
client = record {
  create = λ content priority attr. ok (job status_pending);
  watch = λ id. none;
  notices = idle ++ message (job status_failed) ∷ [];
  quote = λ s. s;
}

waiting_queue_ends_example :
    (answer : Option Bytes) × ((waiting_queue client (bytes "sha256:x") (pos 1) zero_attr
        ≡ some answer)
      × Tells client (bytes "sha256:x") (job status_failed) answer)
waiting_queue_ends_example =
    waiting_queue_ends client (bytes "sha256:x") (pos 1) zero_attr (job status_pending)
      (job status_failed) idle [] refl refl refl refl (refl, (refl, tt)) refl

new_blobs_lem_example :
    All (λ (q : ℕ). count (λ (x : ℕ). x == q) (new_blobs 10).workers ≡ 1) (new_blobs 10).group_queue
    × (length (new_blobs 10).workers ≡ 15)
new_blobs_lem_example = new_blobs_lem 10

abbrev layer : BlobInfo
layer = record { host = bytes "gcr.io"; image = bytes "a"; blobs = bytes "sha256:xab" }

abbrev five_bytes : Response
five_bytes = record { status_code = 200; content_length = pos 5; body = some (bytes "ab") }

-- Blobs of more than four bytes are big ones.
abbrev registry : World
registry = record {
  http_client = λ host path. answered five_bytes;
  sum = λ content. 120 ∷ content;
  valid = λ content. true;
  unmarshal_errors = λ content. none;
  has_big_cache = true;
  big_cache_size = pos 4;
}

abbrev blobs : Imc text_eq BlobValue
blobs = list_imc text_eq BlobValue

abbrev empty : Store blobs list_driver registry
empty = record { blob_cache = new_blobs_cache blobs 5; storage = []; big = [] }

abbrev links : Links
links = record { sign_link = true; redirect_links = none; sign_get = λ path. some path }

abbrev settings : Settings
settings = record {
  links = links;
  big_links = links;
  force_blob_no_redirect = false;
  blob_no_redirect_size = pos 0;
  has_limit = false;
  allow = false;
  wait = false;
}

abbrev by_get : Asked
by_get = record {
  is_head = false;
  remote_addr = bytes "10.0.0.1";
  always_redirect = false;
  weight = pos 0;
}

-- A blob of two bytes is not a big one.
abbrev small_registry : World
small_registry = record registry {
  http_client = λ host path. answered (record five_bytes { content_length = pos 2 });
}

abbrev none_yet : Store blobs list_driver small_registry
none_yet = record { blob_cache = new_blobs_cache blobs 5; storage = []; big = [] }

serve_missing-Settles_example :
    Settles blobs list_driver small_registry settings by_get layer
      (
        (outcome blobs list_driver small_registry settings by_get layer
            (cache_blob small_registry layer)
            none_yet).0,
        work blobs list_driver small_registry layer none_yet,
      )
      (serve_missing blobs list_driver small_registry settings none false by_get layer none_yet).0
serve_missing-Settles_example =
    serve_missing-Settles blobs list_driver small_registry settings by_get layer none_yet

-- The outcome is a blob.
downloaded_well :
    (outcome blobs list_driver small_registry settings by_get layer
      (cache_blob small_registry layer)
      none_yet).0
    ≡ none
unfolding cache_blob answer refused_by continue_func is_big int_lt after_small put_blob
    put_with_hash put str_eq clean_digest trim_prefix has_prefix same_size stat_blob get_key set_key
    blob_cache_path path_join join split all_parts resolve resolve_all
downloaded_well = refl

fetched : cache_blob registry layer ≡ ok five_bytes
unfolding cache_blob answer refused_by
fetched = refl

big : is_big blobs list_driver registry five_bytes ≡ true
unfolding is_big int_lt
big = refl

missing : stat_blob list_driver registry.sum layer.blobs empty.storage ≡ none
unfolding stat_blob get_key
missing = refl

serve_missing_big_example :
    (e : Bytes) × ((serve_missing blobs list_driver registry settings none false by_get layer
        empty).0
      ≡ some (error e 0))
serve_missing_big_example =
    serve_missing_big blobs list_driver registry settings by_get layer five_bytes empty fetched big
      missing

abbrev gateway : Gateway
gateway = record {
  http_client = λ request. none;
  modify = none;
  disable_tags_list = false;
  authenticator = none;
  default_registry = [];
  override_default_registry = none;
  has_blobs = true;
  has_manifests = true;
  get_ip = λ s. s;
  encode = λ referer auth. referer;
}

abbrev pull : Request
pull = record {
  method = bytes "GET";
  path = bytes "/v2/gcr.io/a/b/blobs/sha256:x";
  host = bytes "m.io";
  remote_addr = bytes "10.0.0.1";
  authorization = [];
  raw_query = [];
  query = λ key. [];
  tls = true;
}

abbrev wanted : PathInfo
wanted = record {
  host = bytes "gcr.io";
  image = bytes "a/b";
  tags_list = false;
  manifests = [];
  is_digest_manifests = false;
  blobs = bytes "sha256:x";
}

abbrev with_agent : Token
with_agent = record no_token {
  attribute = record no_attribute { blobs_agent_url = bytes "https://b.io" };
}

in_part :
    (contains_byte 47 (bytes "b.io") ≡ false)
    × (contains_byte 47 wanted.host ≡ false)
    × (contains_byte 47 wanted.blobs ≡ false)
    × (contains_byte 58 (bytes "https") ≡ false)
unfolding contains_byte
in_part = (refl, refl, refl, refl)

by_sum : has_prefix wanted.blobs (bytes "sha256:") ≡ true
unfolding has_prefix
by_sum = refl

blob-parse_path_example :
    (url : Bytes) × ((path : Bytes) × ((Serve.blob gateway pull wanted with_agent (bytes "Bearer x")
          ≡ redirected wanted url)
        × (url_path url ≡ some path)
        × (parse_path path ≡ some (bytes "gcr.io", bytes "a/b", bytes "sha256:x"))))
blob-parse_path_example =
    blob-parse_path gateway pull wanted with_agent (bytes "Bearer x") (bytes "https") (bytes "b.io")
      refl refl (in_part.3, refl) (in_part.0, refl) (in_part.1, refl) refl (in_part.2, refl, by_sum)
