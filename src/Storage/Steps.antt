-- ===== src/Storage/Steps.antt =====
-- pkg/cache: what a step of storing leaves in the storage.
use open_cidn.Base.{
  ℕ, ◌≡◌, refl, sym, ◌∙◌, subst, inl, inr, Bool, true, false, ◌&&◌, not, ltb, ◌==◌, if◌then◌else◌,
  Bool-cases, Bytes, bytes, str_eq, str_eq_iff, str_eq_refl, has_prefix, trim_prefix,
  trim_prefix-append, length, Option, none, some, ◌++◌, arith,
}
use open_cidn.Storage.Paths.{
  clean_digest, blob_cache_path, manifest_revisions_cache_path, manifest_tag_cache_path,
}
use open_cidn.Storage.Driver.{Driver}
use open_cidn.Storage.Blobs.{told, after, put, put_with_hash, put_blob_content, get_blob_content}
use open_cidn.Storage.Manifests.{
  get_media_type, is_hash, link_path, put_link, put_revision, checked, get_manifest_content,
}

-- A step that succeeds has a first part that succeeds.
pub after_lem {ℓ} :
    {A B S : Type ℓ} (o : Option A × S) (next : A → S → Option B × S) (b : B) (s' : S)
    → after o next ≡ (some b, s')
    → (a : A) × ((s : S) × ((o ≡ (some a, s)) × (next a s ≡ (some b, s'))))
after_lem (none, s) next b s' h = cc
after_lem (some a, s) next b s' h = (a, (s, (refl, h)))

told_lem {ℓ} :
    {A S : Type ℓ} (a b : A) (s s' : S) (o : Option S)
    → told a s o ≡ (some b, s')
    → (o ≡ some s') × (a ≡ b)
told_lem a b s s' none h = cc
told_lem a b s s' (some s1) h = (cc, cc)

module _ (d : Driver) (sum : Bytes → Bytes) where
  -- A blob that is put is one whose sum is its digest, and then it is read back.
  put_with_hash_lem :
      (path content hash : Bytes) (size : ℕ) (n : ℕ) (s s' : d.State)
      → put_with_hash d sum path (some content) hash size s ≡ (some n, s')
      → (d.put_content path content s ≡ some s') × (hash ≡ sum content) × (n ≡ length content)
  unfolding put_with_hash put
  put_with_hash_lem path content hash size n s s' h =
      elim (Bool-cases
        (not (ltb 0 size && not (length content == size)) && str_eq hash (sum content))) [
          | inr e ↦ cc (rw e at h)
          | inl e ↦
              let (done, same) =
                told_lem (length content) n s s' (d.put_content path content s) (rw e at h) in
              let good : str_eq hash (sum content) ≡ true = ground (arith, e) in
              (done, (str_eq_iff hash (sum content)).0 good, sym same)
        ]

revision_inj {ℓ} :
    {S : Type ℓ} {k n : ℕ} {hash h mt m : Bytes} {s s' : S}
    → ◌≡◌ {A = Option (ℕ × Bytes × Bytes) × S} (some (k, hash, mt), s) (some (n, h, m), s')
    → (k ≡ n) × (hash ≡ h) × (mt ≡ m) × (s ≡ s')
revision_inj e = (cc, cc, cc, cc)

module _ (d : Driver) (sum : Bytes → Bytes) (unmarshal : Bytes → Option (Bytes × Bool)) where
  pub put_link_lem :
      (path blob : Bytes) (n : ℕ) (s s' : d.State)
      → put_link d sum unmarshal path blob s ≡ (some n, s')
      → (q : Bytes) → d.read q s' ≡ (if str_eq path q then some blob else d.read q s)
  unfolding put_link
  put_link_lem path blob n s s' h q =
      d.read-put_content path q blob s s' (told_lem 0 n s s' (d.put_content path blob s) h).0

  pub put_revision_lem :
      (host image hash mt content : Bytes) (n : ℕ) (h m : Bytes) (s s' : d.State)
      → put_revision d sum unmarshal host image hash mt content s ≡ (some (n, h, m), s')
      → (n ≡ length content)
        × (h ≡ hash)
        × (m ≡ mt)
        × (d.read (blob_cache_path hash) s' ≡ some content)
        × ((q : Bytes)
            → str_eq (blob_cache_path hash) q ≡ false
            → d.read q s' ≡ (
                if str_eq (manifest_revisions_cache_path host image hash) q
                then some hash
                else d.read q s))
  unfolding put_revision put_blob_content
  put_revision_lem host image hash mt content n h m s s' e =
      let (a, (s1, (linked, rest))) = after_lem _ _ _ _ e in
      let (k, (s2, (stored, last))) = after_lem _ _ _ _ rest in
      let (done, good, same) =
        put_with_hash_lem d sum (blob_cache_path hash) content (clean_digest hash) (length content)
          k s1 s2 stored in
      let (same_n, same_h, same_m, same_s) = revision_inj last in
      let here =
        d.read-put_content (blob_cache_path hash) (blob_cache_path hash) content s1 s2 done in
      (
        sym same_n ∙ same,
        sym same_h,
        sym same_m,
        subst (λ (x : d.State). d.read (blob_cache_path hash) x ≡ some content) same_s
            (rw (str_eq_refl (blob_cache_path hash)) at here),
        λ q far.
            subst
              (λ (x : d.State). d.read q x ≡ (
                if str_eq (manifest_revisions_cache_path host image hash) q
                then some hash
                else d.read q s))
              same_s
              ((rw far at (d.read-put_content (blob_cache_path hash) q content s1 s2 done))
                ∙ put_link_lem (manifest_revisions_cache_path host image hash) hash a s s1 linked
                    q),
      )

  clean_lem :
      (x : Bytes)
      → has_prefix x (bytes "sha256:") ≡ false
      → clean_digest x ≡ clean_digest (bytes "sha256:" ++ x)
  unfolding clean_digest trim_prefix
  clean_lem x h = rw h refl ∙ sym (trim_prefix-append (bytes "sha256:") x)

  revisions_lem :
      (host image x : Bytes)
      → has_prefix x (bytes "sha256:") ≡ false
      → manifest_revisions_cache_path host image x
        ≡ manifest_revisions_cache_path host image (bytes "sha256:" ++ x)
  unfolding manifest_revisions_cache_path
  revisions_lem host image x h = rw (manifest_revisions_cache_path, clean_lem x h) refl

  -- What is got when the link, the blob and its type are there.
  pub found_lem :
      (host image tag_or_blob digest content mt : Bytes) (s : d.State)
      → d.read (link_path host image tag_or_blob) s ≡ some digest
      → d.read (blob_cache_path digest) s ≡ some content
      → get_media_type unmarshal content ≡ some mt
      → get_manifest_content d sum unmarshal host image tag_or_blob s
        ≡ (some (record { content = content; digest = digest; media_type = mt }), s)
  unfolding get_manifest_content get_blob_content checked
  found_lem host image tag_or_blob digest content mt s a b c =
      rw (get_manifest_content, a) (rw (get_blob_content, b) (rw c refl))

  pub link_path-digest :
      (host image x : Bytes)
      → has_prefix x (bytes "sha256:") ≡ false
      → link_path host image (bytes "sha256:" ++ x)
        ≡ manifest_revisions_cache_path host image (bytes "sha256:" ++ x)
  unfolding link_path has_prefix
  link_path-digest host image x h = revisions_lem host image x h

  pub link_path-tag :
      (host image tag : Bytes)
      → is_hash tag ≡ false
      → link_path host image tag ≡ manifest_tag_cache_path host image tag
  unfolding link_path
  link_path-tag host image tag h = rw h refl
