-- ===== src/Storage/Manifests.antt =====
-- pkg/cache/cache_manifest.go: manifests as blobs, with links to them by tag and by digest.
use open_cidn.Base.{
  ℕ, Bool, true, false, not, ◌==◌, if◌then◌else◌, Bytes, bytes, str_eq, has_prefix, drop, Option,
  none, some, [], ◌++◌,
}
use open_cidn.Storage.Paths.{
  ensure_digest_prefix, manifest_revisions_cache_path, manifest_tag_cache_path,
}
use open_cidn.Storage.Driver.{Driver}
use open_cidn.Storage.Blobs.{
  told, after, put_blob_content, get_blob_content, stat_blob, delete_blob,
}

-- The reader of JSON gives the field `mediaType` and whether there is a field `manifests`.
unfoldable pub get_media_type : (Bytes → Option (Bytes × Bool)) → Bytes → Option Bytes
get_media_type unmarshal content = elim (unmarshal content) [
  | none ↦ none
  | some mt ↦
      if not (str_eq mt.0 [])
      then some mt.0
      else if mt.1
      then some (bytes "application/vnd.oci.image.index.v1+json")
      else some (bytes "application/vnd.oci.image.manifest.v1+json")
]

abbrev pub is_hash : Bytes → Bool
is_hash tag_or_blob = has_prefix tag_or_blob (bytes "sha256:")

unfoldable pub link_path : Bytes → Bytes → Bytes → Bytes
link_path host image tag_or_blob =
    if is_hash tag_or_blob
    then manifest_revisions_cache_path host image (drop 7 tag_or_blob)
    else manifest_tag_cache_path host image tag_or_blob

pub record Content : Type 0 where
  pub content : Bytes
  pub digest : Bytes
  pub media_type : Bytes

module _ (d : Driver) (sum : Bytes → Bytes) (unmarshal : Bytes → Option (Bytes × Bool)) where
  unfoldable pub put_link : Bytes → Bytes → d.State → Option ℕ × d.State
  put_link path blob s = told 0 s (d.put_content path blob s)

  -- The link of the tag, then that of the digest, if the blob is there.
  unfoldable pub relink_manifest : Bytes → Bytes → Bytes → Bytes → d.State → Option ℕ × d.State
  relink_manifest host image tag blob s =
      let digest = ensure_digest_prefix blob in
      elim (stat_blob d sum digest s) [
        | none ↦ (none, s)
        | some size ↦
            after (put_link (manifest_tag_cache_path host image tag) digest s)
              (λ _ s1. put_link (manifest_revisions_cache_path host image digest) digest s1)
      ]

  -- The link of the digest, then the blob.
  unfoldable pub put_revision :
      Bytes → Bytes → Bytes → Bytes → Bytes → d.State → Option (ℕ × Bytes × Bytes) × d.State
  put_revision host image hash media_type content s =
      after (put_link (manifest_revisions_cache_path host image hash) hash s) (λ _ s1.
        after (put_blob_content d sum hash content s1) (λ n s2. (some (n, hash, media_type), s2)))

  unfoldable pub put_manifest_content :
      Bytes → Bytes → Bytes → Bytes → d.State → Option (ℕ × Bytes × Bytes) × d.State
  put_manifest_content host image tag_or_blob content s = elim (get_media_type unmarshal content) [
    | none ↦ (none, s)
    | some media_type ↦
        let hash = bytes "sha256:" ++ sum content in
        if is_hash tag_or_blob
        then if not (str_eq tag_or_blob hash)
          then (none, s)
          else put_revision host image hash media_type content s
        else after (put_link (manifest_tag_cache_path host image tag_or_blob) hash s)
            (λ _ s1. put_revision host image hash media_type content s1)
  ]

  -- A deletion whose error only joins another one.
  unfoldable pub cleaned : d.State → Option d.State → d.State
  cleaned s none = s
  cleaned s (some s') = s'

  unfoldable pub remove_invalid : Bytes → Bytes → d.State → d.State
  remove_invalid digest path s =
      let s1 = cleaned s (delete_blob d sum digest s) in cleaned s1 (d.delete path s1)

  -- Content that is no manifest is taken away with its link.
  unfoldable pub checked : Bytes → Bytes → Bytes → Option Bytes → d.State → Option Content × d.State
  checked digest path content none s = (none, remove_invalid digest path s)
  checked digest path content (some media_type) s =
      (some (record { content = content; digest = digest; media_type = media_type }), s)

  unfoldable pub get_manifest_content : Bytes → Bytes → Bytes → d.State → Option Content × d.State
  get_manifest_content host image tag_or_blob s =
      let path = link_path host image tag_or_blob in
      elim (d.read path s) [
        | none ↦ (none, s)
        | some digest ↦ elim (get_blob_content d sum digest s) [
          | none ↦ (none, s)
          | some content ↦ checked digest path content (get_media_type unmarshal content) s
        ]
      ]

  unfoldable pub digest_manifest : Bytes → Bytes → Bytes → d.State → Option Bytes
  digest_manifest host image tag s = d.read (manifest_tag_cache_path host image tag) s

  unfoldable pub stat_manifest : Bytes → Bytes → Bytes → d.State → Option Bool
  stat_manifest host image tag_or_blob s = elim (d.read (link_path host image tag_or_blob) s) [
    | none ↦ none
    | some digest ↦ elim (stat_blob d sum digest s) [
      | none ↦ none
      | some size ↦ some (not (size == 0))
    ]
  ]

  unfoldable pub stat_or_relink_manifest :
      Bytes → Bytes → Bytes → Bytes → d.State → Option Bool × d.State
  stat_or_relink_manifest host image tag blob s =
      let path = manifest_tag_cache_path host image tag in
      elim (d.read path s) [
        | none ↦ (none, s)
        | some digest ↦ elim (stat_blob d sum digest s) [
          | none ↦ (none, s)
          | some size ↦
              let wanted = ensure_digest_prefix blob in
              if size == 0
              then (some false, s)
              else if str_eq digest wanted
              then (some true, s)
              else after (put_link path wanted s) (λ _ s1.
                after (put_link (manifest_revisions_cache_path host image wanted) wanted s1)
                  (λ _ s2. (some true, s2)))
        ]
      ]
