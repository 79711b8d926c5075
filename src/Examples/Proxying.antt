-- ===== src/Examples/Proxying.antt =====
-- The theorems on the storage and on the proxy of manifests, with one small manifest.
use open_cidn.Base.{
  ℕ, ◌≡◌, ◌≢◌, refl, Bool, true, false, pos, Bytes, bytes, str_eq, has_prefix, trim_prefix, length,
  Option, some, none, List, [], ◌∷◌, ◌++◌, text_eq, ◌⊎◌,
}
use open_cidn.Maps.{get_key}
use open_cidn.Manifests.Imc.{Imc, list_imc}
use open_cidn.Manifests.Cache.{PathInfo, TagValue, DigestValue, key_eq, new_manifest_cache}
use open_cidn.Storage.Driver.{list_driver}
use open_cidn.Storage.Paths.{clean_digest, blob_cache_path}
use open_cidn.Storage.Blobs.{
  put, put_with_hash, put_blob, put_blob_content, get_blob_content, stat_blob,
}
use open_cidn.Storage.Manifests.{
  get_media_type, relink_manifest, put_link, put_revision, put_manifest_content,
  get_manifest_content,
}
use open_cidn.Storage.Contents.{put_blob_lem, get_manifest_content-put}
use open_cidn.Manifests.Upstream
use open_cidn.Manifests.Upstream.{Store, head_answer, cache_manifest}
use open_cidn.Manifests.Proxy
use open_cidn.Manifests.Worker

-- A sum whose values start with `x`.
abbrev sum : Bytes → Bytes
sum content = 120 ∷ content

abbrev unmarshal : Bytes → Option (Bytes × Bool)
unmarshal content = some (bytes "json", false)

digits : (c : Bytes) → has_prefix (sum c) (bytes "sha256:") ≡ false
unfolding has_prefix
digits c = refl

abbrev put_busybox : Option (ℕ × Bytes × Bytes) × List (Bytes × Bytes)
put_busybox =
    put_manifest_content list_driver sum unmarshal (bytes "docker.io") (bytes "busybox")
      (bytes "latest") (bytes "{}") []

put_busybox_lem : put_busybox ≡ (some (2, bytes "sha256:x{}", bytes "json"), put_busybox.1)
unfolding put_manifest_content put_link put_revision put_blob_content put_with_hash put
    get_media_type clean_digest trim_prefix has_prefix str_eq
put_busybox_lem = refl

get_manifest_content-put_example :
    (bytes "sha256:x{}" ≡ bytes "sha256:" ++ sum (bytes "{}"))
    × (2 ≡ length (bytes "{}"))
    × (get_manifest_content list_driver sum unmarshal
          (bytes "docker.io")
          (bytes "busybox")
          (bytes "latest")
          put_busybox.1
        ≡ (
          some (record {
            content = bytes "{}";
            digest = bytes "sha256:x{}";
            media_type = bytes "json";
          }),
          put_busybox.1,
        ))
get_manifest_content-put_example =
    get_manifest_content-put list_driver sum unmarshal (bytes "docker.io") (bytes "busybox")
      (bytes "latest") (bytes "{}") 2 (bytes "sha256:x{}") (bytes "json") [] put_busybox.1 digits
      put_busybox_lem

put_blob_lem_example :
    ((clean_digest (bytes "sha256:xy") ≢ sum (bytes "y"))
      × (put_blob list_driver sum (bytes "sha256:xy") (some (bytes "y")) [] ≡ (none, [])))
    ⊎ ((clean_digest (bytes "sha256:xy") ≡ sum (bytes "y"))
        × (list_driver.put_content (blob_cache_path (bytes "sha256:xy")) (bytes "y") [] ≡ none)
        × (put_blob list_driver sum (bytes "sha256:xy") (some (bytes "y")) [] ≡ (none, [])))
    ⊎ ((s' : List (Bytes × Bytes)) × ((put_blob list_driver sum
              (bytes "sha256:xy")
              (some (bytes "y"))
              []
            ≡ (some 1, s'))
          × (clean_digest (bytes "sha256:xy") ≡ sum (bytes "y"))
          × (get_blob_content list_driver sum (bytes "sha256:xy") s' ≡ some (bytes "y"))
          × ((q : Bytes)
              → str_eq (blob_cache_path (bytes "sha256:xy")) q ≡ false
              → get_key text_eq q s' ≡ get_key text_eq q [])))
put_blob_lem_example = put_blob_lem list_driver sum (bytes "sha256:xy") (bytes "y") []

abbrev tags : Imc key_eq TagValue
tags = list_imc key_eq TagValue

abbrev digests : Imc key_eq DigestValue
digests = list_imc key_eq DigestValue

abbrev registry : Upstream.World
registry = record {
  http_client = λ method host path.
      Upstream.answered (record {
        status_code = 200;
        content_digest = bytes "sha256:x{}";
        body = some (bytes "{}");
      });
  sum = sum;
  unmarshal = unmarshal;
  valid = λ content. true;
  unmarshal_errors = λ content. none;
}

abbrev empty : Store tags digests list_driver registry
empty = record { manifest_cache = new_manifest_cache tags digests 5; storage = [] }

abbrev busybox : PathInfo
busybox = record {
  host = bytes "docker.io";
  image = bytes "busybox";
  manifests = bytes "latest";
  is_digest_manifests = false;
}

abbrev by_get : Proxy.Asked
by_get = record { is_head = false; weight = pos 0; cache_first = false }

-- The outcome is a manifest.
fetched : (cache_manifest tags digests list_driver registry busybox empty).0 ≡ none
unfolding cache_manifest Upstream.after_head Upstream.relinked Upstream.fetch_body Upstream.put_body
    Upstream.body_put Upstream.head_answer Upstream.get_answer Upstream.refused_by relink_manifest
    stat_blob get_key str_eq put_manifest_content put_link put_revision put_blob_content
    put_with_hash put get_media_type clean_digest trim_prefix has_prefix
fetched = refl
