-- ===== src/Storage/Contents.antt =====
-- pkg/cache: what is found of what was stored.
use open_cidn.Base.{
  ℕ, ◌≡◌, ◌≢◌, refl, sym, ◌∙◌, inl, inr, ◌⊎◌, Bool, true, false, not, if◌then◌else◌, Bool-cases,
  Option-cases, Bytes, bytes, str_eq, str_eq_iff, str_eq_refl, has_prefix, length, Option, none,
  some, ◌++◌,
}
use open_cidn.Storage.Paths.{
  clean_digest, blob_cache_path, manifest_revisions_cache_path, manifest_tag_cache_path,
  blob-revisions, blob-tag,
}
use open_cidn.Storage.Driver.{Driver}
use open_cidn.Storage.Blobs.{after, put, put_with_hash, put_blob, get_blob_content}
use open_cidn.Storage.Manifests.{
  get_media_type, is_hash, link_path, put_link, put_revision, put_manifest_content,
  get_manifest_content,
}
use open_cidn.Storage.Steps.{
  after_lem, put_link_lem, put_revision_lem, found_lem, link_path-digest, link_path-tag,
}

told_size {ℓ} :
    {S : Type ℓ} {n k : ℕ} {s s' : S} → ◌≡◌ {A = Option ℕ × S} (some n, s) (some k, s') → n ≡ k
told_size e = cc

module _ (d : Driver) (sum : Bytes → Bytes) where
  -- What `PutBlob` does with a content that can be read. If its sum is not the digest, or if the
  -- driver does not write, that is an error and nothing is stored; otherwise its size is told, the
  -- content is read back, and the other paths are as they were.
  pub put_blob_lem :
      (blob content : Bytes) (s : d.State)
      → ((clean_digest blob ≢ sum content) × (put_blob d sum blob (some content) s ≡ (none, s)))
        ⊎ ((clean_digest blob ≡ sum content)
            × (d.put_content (blob_cache_path blob) content s ≡ none)
            × (put_blob d sum blob (some content) s ≡ (none, s)))
        ⊎ ((s' : d.State) × ((put_blob d sum blob (some content) s ≡ (some (length content), s'))
              × (clean_digest blob ≡ sum content)
              × (get_blob_content d sum blob s' ≡ some content)
              × ((q : Bytes) → str_eq (blob_cache_path blob) q ≡ false → d.read q s' ≡ d.read q s)))
  unfolding put_blob put_with_hash put get_blob_content
  put_blob_lem blob content s = elim (Bool-cases (str_eq (clean_digest blob) (sum content))) [
    | inr e ↦
        inl (λ same. cc (sym e ∙ (str_eq_iff (clean_digest blob) (sum content)).1 same), rw e refl)
    | inl e ↦ elim (Option-cases (d.put_content (blob_cache_path blob) content s)) [
      | inl failed ↦
          inr (
            inl ((str_eq_iff (clean_digest blob) (sum content)).0 e, failed, rw e (rw failed refl)))
      | inr done ↦
          let back =
            d.read-put_content (blob_cache_path blob) (blob_cache_path blob) content s done.0
              done.1 in
          inr (
            inr (
              done.0,
              (
                rw e (rw done.1 refl),
                (str_eq_iff (clean_digest blob) (sum content)).0 e,
                rw (str_eq_refl (blob_cache_path blob)) at back,
                λ q far.
                    rw far at (d.read-put_content (blob_cache_path blob) q content s done.0 done.1),
              ),
            ))
    ]
  ]

  -- A put that succeeds tells the size of what could be read.
  pub put_blob-size :
      (blob : Bytes) (r : Option Bytes) (n : ℕ) (s s' : d.State)
      → put_blob d sum blob r s ≡ (some n, s')
      → (content : Bytes) × ((r ≡ some content) × (n ≡ length content))
  unfolding put_blob put_with_hash put
  put_blob-size blob none n s s' h = cc
  put_blob-size blob (some content) n s s' h = elim (put_blob_lem blob content s) [
    | inl other ↦ cc (sym h ∙ other.1)
    | inr good ↦ elim good [
      | inl failed ↦ cc (sym h ∙ failed.2)
      | inr done ↦
          let same : n ≡ length content = told_size (sym h ∙ done.1.0) in (content, (refl, same))
    ]
  ]

module _ (d : Driver) (sum : Bytes → Bytes) (unmarshal : Bytes → Option (Bytes × Bool)) where
  put_by_digest :
      (host image tag_or_blob content mt : Bytes) (s : d.State)
      → get_media_type unmarshal content ≡ some mt
      → is_hash tag_or_blob ≡ true
      → put_manifest_content d sum unmarshal host image tag_or_blob content s ≡ (
          if not (str_eq tag_or_blob (bytes "sha256:" ++ sum content))
          then (none, s)
          else put_revision d sum unmarshal host image
              (bytes "sha256:" ++ sum content)
              mt
              content
              s)
  unfolding put_manifest_content
  put_by_digest host image tag_or_blob content mt s g h = rw (put_manifest_content, g, h) refl

  put_by_tag :
      (host image tag_or_blob content mt : Bytes) (s : d.State)
      → get_media_type unmarshal content ≡ some mt
      → is_hash tag_or_blob ≡ false
      → put_manifest_content d sum unmarshal host image tag_or_blob content s
        ≡ after
            (put_link d sum unmarshal
              (manifest_tag_cache_path host image tag_or_blob)
              (bytes "sha256:" ++ sum content)
              s)
            (λ _ s1.
              put_revision d sum unmarshal host image
                (bytes "sha256:" ++ sum content)
                mt
                content
                s1)
  unfolding put_manifest_content
  put_by_tag host image tag_or_blob content mt s g h = rw (put_manifest_content, g, h) refl

  put_untyped :
      (host image tag_or_blob content : Bytes) (s : d.State)
      → get_media_type unmarshal content ≡ none
      → put_manifest_content d sum unmarshal host image tag_or_blob content s ≡ (none, s)
  unfolding put_manifest_content
  put_untyped host image tag_or_blob content s g = rw (put_manifest_content, g) refl

  -- After the link of the digest and the blob are put.
  abbrev IsGot : Bytes → Bytes → Bytes → Bytes → ℕ → Bytes → Bytes → d.State → Type 0
  IsGot host image tag_or_blob content n h m s' =
      (h ≡ bytes "sha256:" ++ sum content)
      × (n ≡ length content)
      × (get_manifest_content d sum unmarshal host image tag_or_blob s'
          ≡ (some (record { content = content; digest = h; media_type = m }), s'))

  got_lem :
      (host image tag_or_blob content mt : Bytes) (n : ℕ) (h m : Bytes) (s s' : d.State)
      → get_media_type unmarshal content ≡ some mt
      → put_revision d sum unmarshal host image (bytes "sha256:" ++ sum content) mt content s
        ≡ (some (n, h, m), s')
      → str_eq (blob_cache_path (bytes "sha256:" ++ sum content)) (link_path host image tag_or_blob)
        ≡ false
      → (if str_eq
            (manifest_revisions_cache_path host image (bytes "sha256:" ++ sum content))
            (link_path host image tag_or_blob)
          then some (bytes "sha256:" ++ sum content)
          else d.read (link_path host image tag_or_blob) s)
        ≡ some (bytes "sha256:" ++ sum content)
      → IsGot host image tag_or_blob content n h m s'
  got_lem host image tag_or_blob content mt n h m s s' g e far linked =
      let hash = bytes "sha256:" ++ sum content in
      let (same_n, same_h, same_m, here, others) =
        put_revision_lem d sum unmarshal host image hash mt content n h m s s' e in
      let link : d.read (link_path host image tag_or_blob) s' ≡ some hash =
        others (link_path host image tag_or_blob) far ∙ linked in
      (
        same_h,
        same_n,
        rw (same_h, same_m)
            (found_lem d sum unmarshal host image tag_or_blob hash content mt s' link here g),
      )

  by_digest :
      (host image content mt : Bytes) (n : ℕ) (h m : Bytes) (s s' : d.State)
      → has_prefix (sum content) (bytes "sha256:") ≡ false
      → get_media_type unmarshal content ≡ some mt
      → put_revision d sum unmarshal host image (bytes "sha256:" ++ sum content) mt content s
        ≡ (some (n, h, m), s')
      → IsGot host image (bytes "sha256:" ++ sum content) content n h m s'
  by_digest host image content mt n h m s s' digits g e =
      let hash = bytes "sha256:" ++ sum content in
      let at = link_path-digest d sum unmarshal host image (sum content) digits in
      got_lem host image hash content mt n h m s s' g e
        (rw at (blob-revisions hash host image hash))
        (rw at (rw (str_eq_refl (manifest_revisions_cache_path host image hash)) refl))

  by_tag :
      (host image tag content mt : Bytes) (k n : ℕ) (h m : Bytes) (s s1 s' : d.State)
      → is_hash tag ≡ false
      → get_media_type unmarshal content ≡ some mt
      → put_link d sum unmarshal
          (manifest_tag_cache_path host image tag)
          (bytes "sha256:" ++ sum content)
          s
        ≡ (some k, s1)
      → put_revision d sum unmarshal host image (bytes "sha256:" ++ sum content) mt content s1
        ≡ (some (n, h, m), s')
      → IsGot host image tag content n h m s'
  by_tag host image tag content mt k n h m s s1 s' given g l e =
      let hash = bytes "sha256:" ++ sum content in
      let at = link_path-tag d sum unmarshal host image tag given in
      let path = manifest_tag_cache_path host image tag in
      let linked : d.read path s1 ≡ some hash =
        rw (str_eq_refl path) at (put_link_lem d sum unmarshal path hash k s s1 l path) in
      got_lem host image tag content mt n h m s1 s' g e (rw at (blob-tag hash host image tag)) (
        rw at (elim (Bool-cases (str_eq (manifest_revisions_cache_path host image hash) path)) [
          | inl x ↦ rw x refl
          | inr x ↦ rw x linked
        ]))

  -- A manifest that is put is got under the same name, with its digest and its type, and is the
  -- content that was put; the sums are digits, so that none starts as a digest does.
  pub get_manifest_content-put :
      (host image tag_or_blob content : Bytes) (n : ℕ) (h m : Bytes) (s s' : d.State)
      → ((c : Bytes) → has_prefix (sum c) (bytes "sha256:") ≡ false)
      → put_manifest_content d sum unmarshal host image tag_or_blob content s ≡ (some (n, h, m), s')
      → (h ≡ bytes "sha256:" ++ sum content)
        × (n ≡ length content)
        × (get_manifest_content d sum unmarshal host image tag_or_blob s'
            ≡ (some (record { content = content; digest = h; media_type = m }), s'))
  get_manifest_content-put host image tag_or_blob content n h m s s' digits e =
      elim (Option-cases (get_media_type unmarshal content)) [
        | inl none_left ↦ cc (sym (put_untyped host image tag_or_blob content s none_left) ∙ e)
        | inr got ↦ elim (Bool-cases (is_hash tag_or_blob)) [
          | inl hash_given ↦
              elim (Bool-cases (str_eq tag_or_blob (bytes "sha256:" ++ sum content))) [
                | inr other ↦ cc (
                    rw other at (
                      sym (put_by_digest host image tag_or_blob content got.0 s got.1 hash_given)
                      ∙ e))
                | inl same ↦ rw ((str_eq_iff tag_or_blob (bytes "sha256:" ++ sum content)).0 same) (
                    by_digest host image content got.0 n h m s s' (digits content) got.1 (
                      rw same at (
                        sym (put_by_digest host image tag_or_blob content got.0 s got.1 hash_given)
                        ∙ e)))
              ]
          | inr tag_given ↦
              let (k, (s1, (linked, rest))) =
                after_lem _ _ _ _
                  (sym (put_by_tag host image tag_or_blob content got.0 s got.1 tag_given) ∙ e) in
              by_tag host image tag_or_blob content got.0 k n h m s s1 s' tag_given got.1 linked
                rest
        ]
      ]

  -- A manifest that is put by a digest is put by its own.
  pub put_manifest_content-digest :
      (host image tag_or_blob content : Bytes) (n : ℕ) (h m : Bytes) (s s' : d.State)
      → is_hash tag_or_blob ≡ true
      → put_manifest_content d sum unmarshal host image tag_or_blob content s ≡ (some (n, h, m), s')
      → tag_or_blob ≡ bytes "sha256:" ++ sum content
  put_manifest_content-digest host image tag_or_blob content n h m s s' given e =
      elim (Option-cases (get_media_type unmarshal content)) [
        | inl none_left ↦ cc (sym (put_untyped host image tag_or_blob content s none_left) ∙ e)
        | inr got ↦ elim (Bool-cases (str_eq tag_or_blob (bytes "sha256:" ++ sum content))) [
          | inl same ↦ (str_eq_iff tag_or_blob (bytes "sha256:" ++ sum content)).0 same
          | inr other ↦ cc (
              rw other at
                (sym (put_by_digest host image tag_or_blob content got.0 s got.1 given) ∙ e))
        ]
      ]
