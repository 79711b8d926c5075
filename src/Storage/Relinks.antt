-- ===== src/Storage/Relinks.antt =====
-- pkg/cache: what RelinkManifest leaves in the storage.
use open_cidn.Base.{
  ℕ, ◌≡◌, refl, ◌∙◌, inl, inr, Bool, false, Bool-cases, Option-cases, Bytes, str_eq, str_eq_refl,
  Option, some, text_eq,
}
use open_cidn.Maps.{beq_comm}
use open_cidn.Storage.Paths.{
  ensure_digest_prefix, blob_cache_path, manifest_revisions_cache_path, manifest_tag_cache_path,
  blob-revisions, blob-tag,
}
use open_cidn.Storage.Driver.{Driver}
use open_cidn.Storage.Blobs.{after, stat_blob}
use open_cidn.Storage.Manifests.{is_hash, link_path, put_link, relink_manifest}
use open_cidn.Storage.Steps.{after_lem, put_link_lem, link_path-tag}

module _ (d : Driver) (sum : Bytes → Bytes) (unmarshal : Bytes → Option (Bytes × Bool)) where
  -- After a tag is linked again its link is the digest, and the blob of that is there as before.
  pub relink_manifest_lem :
      (host image tag blob : Bytes) (n : ℕ) (s s' : d.State)
      → is_hash tag ≡ false
      → relink_manifest d sum unmarshal host image tag blob s ≡ (some n, s')
      → (c : Bytes) × ((d.read (link_path host image tag) s' ≡ some (ensure_digest_prefix blob))
          × (d.read (blob_cache_path (ensure_digest_prefix blob)) s' ≡ some c)
          × (d.read (blob_cache_path (ensure_digest_prefix blob)) s ≡ some c))
  unfolding stat_blob relink_manifest
  relink_manifest_lem host image tag blob n s s' given e =
      let digest = ensure_digest_prefix blob in
      let tag_path = manifest_tag_cache_path host image tag in
      let revision_path = manifest_revisions_cache_path host image digest in
      elim (Option-cases (d.read (blob_cache_path digest) s)) [
        | inl missing ↦ cc (rw (relink_manifest, stat_blob, missing) at e)
        | inr there ↦
            let steps : after (put_link d sum unmarshal tag_path digest s)
                  (λ _ s1. put_link d sum unmarshal revision_path digest s1)
                ≡ (some n, s') =
              rw (relink_manifest, stat_blob, there.1) at e in
            let (k, (s1, (first, second))) = after_lem _ _ _ _ steps in
            let by_tag_link = put_link_lem d sum unmarshal tag_path digest k s s1 first in
            let by_revision = put_link_lem d sum unmarshal revision_path digest n s1 s' second in
            let linked : d.read tag_path s1 ≡ some digest =
              rw (str_eq_refl tag_path) at (by_tag_link tag_path) in
            let kept : d.read (blob_cache_path digest) s1 ≡ some there.0 =
              rw
                (beq_comm text_eq tag_path (blob_cache_path digest)
                  ∙ blob-tag digest host image tag)
                at (by_tag_link (blob_cache_path digest))
              ∙ there.1 in
            (
              there.0,
              (
                rw (link_path-tag d sum unmarshal host image tag given) (
                    by_revision tag_path ∙ (elim (Bool-cases (str_eq revision_path tag_path)) [
                      | inl x ↦ rw x refl
                      | inr x ↦ rw x linked
                    ])),
                (rw
                      (beq_comm text_eq revision_path (blob_cache_path digest)
                        ∙ blob-revisions digest host image digest)
                      at (by_revision (blob_cache_path digest)))
                    ∙ kept,
                there.1,
              ),
            )
      ]
