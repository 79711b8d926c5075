-- ===== src/Manifests/Brought.antt =====
-- `cacheManifest` of pkg/manifests/manifest.go: what it brings can be served.
use open_cidn.Base.{
  ℕ, ◌≡◌, ◌≢◌, ◌⊎◌, refl, sym, ◌∙◌, ap, inl, inr, true, ◌++◌, false, ◌&&◌, not, Bool-cases,
  Option-cases, Bytes, bytes, str_eq, str_eq_iff, has_prefix, Option, none, some, [], Result, ok,
  err, decimal, arith,
}
use open_cidn.Manifests.Imc.{Imc}
use open_cidn.Manifests.Cache.{PathInfo, TagValue, DigestValue, key_eq, ManifestCache, get, put}
use open_cidn.Manifests.Lookup.{get-put}
use open_cidn.Storage.Driver.{Driver}
use open_cidn.Storage.Paths.{blob_cache_path, ensure_digest_prefix}
use open_cidn.Storage.Manifests.{
  Content, get_media_type, is_hash, get_manifest_content, put_manifest_content, relink_manifest,
}
use open_cidn.Storage.Steps.{found_lem}
use open_cidn.Storage.Contents.{get_manifest_content-put, put_manifest_content-digest}
use open_cidn.Storage.Relinks.{relink_manifest_lem}
use open_cidn.Manifests.Upstream.{
  World, Store, noted, Fetched, malformed, refused, failed, answered, refused_by, head_answer,
  get_answer, manifest_path, body_put, put_body, relinked, fetch_body, after_head, cache_manifest,
}
use open_cidn.Manifests.Proxy.{Asked, at_last}
use open_cidn.Manifests.Served.{answer_of, entry, held_lem}

ok_inj : {x y : Bytes} → ◌≡◌ {A = Result (ℕ × Bytes) Bytes} (ok x) (ok y) → x ≡ y
ok_inj h = cc

str_eq_nothing : str_eq [] [] ≡ true
unfolding str_eq
str_eq_nothing = refl

head_answer_there : (f : Fetched) (digest : Bytes) → head_answer f ≡ ok digest → digest ≢ []
unfolding head_answer
head_answer_there (malformed e) digest h = cc
head_answer_there refused digest h = cc
head_answer_there failed digest h = cc
head_answer_there (answered resp) digest h = elim (Option-cases (refused_by resp.status_code)) [
  | inr e ↦ cc (rw (head_answer, e.1) at h)
  | inl e ↦ elim (Bool-cases (str_eq resp.content_digest [])) [
    | inl f ↦ cc (rw (head_answer, e, f) at h)
    | inr f ↦
        let same : resp.content_digest ≡ digest = ok_inj (rw (head_answer, e, f) at h) in
        λ z. cc (sym f ∙ (str_eq_iff resp.content_digest []).1 (same ∙ z))
  ]
]

module _ (tags : Imc key_eq TagValue) (digests : Imc key_eq DigestValue) (d : Driver) (w : World)
    (r : Asked) (info : PathInfo) where
  abbrev pub Stores : Type 0
  Stores = Store tags digests d w

  abbrev asked_digest : Result (ℕ × Bytes) Bytes
  asked_digest =
      head_answer (w.http_client (bytes "HEAD") info.host (manifest_path info info.manifests))

  -- The content is the body that the registry gave, for the name that was asked for or for the
  -- digest that the registry told for it, and the digest is the sum of that body.
  abbrev pub IsFetched : Content → Type 0
  IsFetched found =
      (reference : Bytes) × (((reference ≡ info.manifests) ⊎ (asked_digest ≡ ok reference))
        × (get_answer w (w.http_client (bytes "GET") info.host (manifest_path info reference))
            ≡ ok found.content)
        × (found.digest ≡ bytes "sha256:" ++ w.sum found.content))

  -- The content was in the storage before, under the digest that the registry told.
  abbrev pub WasThere : d.State → Content → Type 0
  WasThere s found =
      (digest : Bytes) × ((asked_digest ≡ ok digest)
        × (found.digest ≡ ensure_digest_prefix digest)
        × (d.read (blob_cache_path found.digest) s ≡ some found.content))

  -- The storage has the manifest under its name, with its type and digest.
  abbrev pub IsHeld : d.State → Content → Type 0
  IsHeld s found =
      get_manifest_content d w.sum w.unmarshal info.host info.image info.manifests s
      ≡ (some found, s)

  -- What the request gets that waited for a worker with this outcome, which began with the storage
  -- `before`.
  abbrev pub Served : d.State → Option (ℕ × Bytes) × Stores → Type 0
  Served before (some (sc, e), st) = Unit
  Served before (none, st) =
      (found : Content) × (((at_last tags digests d w r info st).0 ≡ some (answer_of r found))
        × IsHeld st.storage found
        × (IsFetched found ⊎ WasThere before found))

  -- The entry of a manifest that was put.
  named_lem :
      (h media_type len : Bytes) (m : ManifestCache tags digests)
      → h ≢ []
      → (info.is_digest_manifests ≡ true → info.manifests ≡ h)
      → get tags digests info (put tags digests info (entry h media_type len) m)
        ≡ some (entry h media_type len)
  named_lem h media_type len m there own =
      get-put tags digests info (entry h media_type len) m (inr there)
      ∙ elim (Bool-cases info.is_digest_manifests) [
        | inl e ↦ ap (λ (x : Bytes). some (entry x media_type len)) (rw e (own e))
        | inr e ↦ rw e refl
      ]

  body_put-Served :
      (start : d.State) (reference body : Bytes) (st : Stores)
      (o : Option (ℕ × Bytes × Bytes) × d.State)
      → ((reference ≡ info.manifests) ⊎ (asked_digest ≡ ok reference))
      → get_answer w (w.http_client (bytes "GET") info.host (manifest_path info reference))
        ≡ ok body
      → ((c : Bytes) → has_prefix (w.sum c) (bytes "sha256:") ≡ false)
      → info.is_digest_manifests ≡ is_hash info.manifests
      → put_manifest_content d w.sum w.unmarshal info.host info.image info.manifests body st.storage
        ≡ o
      → Served start (body_put tags digests d w info o st)
  unfolding body_put
  body_put-Served start reference body st (none, s) by fetched digits named e = tt
  body_put-Served start reference body st (some (n, h, m), s) by fetched digits named e =
      let (same_h, same_n, got) =
        get_manifest_content-put d w.sum w.unmarshal info.host info.image info.manifests body n h m
          st.storage s digits e in
      let there : h ≢ [] = λ z. cc (sym same_h ∙ z) in
      let own : info.is_digest_manifests ≡ true → info.manifests ≡ h = λ by_digest.
        put_manifest_content-digest d w.sum w.unmarshal info.host info.image info.manifests body n h
          m st.storage s (sym named ∙ by_digest) e
        ∙ sym same_h in
      let found : Content = record { content = body; digest = h; media_type = m } in
      let st' = noted tags digests d w info h m (decimal n) (record st { storage = s }) in
      (
        found,
        (
          held_lem tags digests d w r info st' h m (decimal n) found
              (named_lem h m (decimal n) st.manifest_cache there own) got
              (inr (refl, refl, ap (λ (x : ℕ). decimal x) same_n)),
          got,
          inl (reference, (by, fetched, same_h)),
        ),
      )

  -- A body that is put can be served.
  put_body-Served :
      (start : d.State) (reference : Bytes) (answer : Result (ℕ × Bytes) Bytes) (st : Stores)
      → ((reference ≡ info.manifests) ⊎ (asked_digest ≡ ok reference))
      → get_answer w (w.http_client (bytes "GET") info.host (manifest_path info reference)) ≡ answer
      → ((c : Bytes) → has_prefix (w.sum c) (bytes "sha256:") ≡ false)
      → info.is_digest_manifests ≡ is_hash info.manifests
      → Served start (put_body tags digests d w info answer st)
  unfolding put_body
  put_body-Served start reference (err e) st by fetched digits named = tt
  put_body-Served start reference (ok body) st by fetched digits named =
      body_put-Served start reference body st _ by fetched digits named refl

  -- The blob that a digest names, if it is there, is a manifest.
  abbrev pub NamesManifest : d.State → Bytes → Type 0
  NamesManifest s digest =
      (c : Bytes)
      → d.read (blob_cache_path (ensure_digest_prefix digest)) s ≡ some c
      → (mt : Bytes) × (get_media_type w.unmarshal c ≡ some mt)

  relinked-Served :
      (digest : Bytes) (st : Stores) (o : Option ℕ × d.State)
      → ((c : Bytes) → has_prefix (w.sum c) (bytes "sha256:") ≡ false)
      → info.is_digest_manifests ≡ is_hash info.manifests
      → info.is_digest_manifests ≡ false
      → digest ≢ []
      → NamesManifest st.storage digest
      → asked_digest ≡ ok digest
      → relink_manifest d w.sum w.unmarshal info.host info.image info.manifests digest st.storage
        ≡ o
      → Served st.storage (relinked tags digests d w info digest o st)
  unfolding relinked fetch_body
  relinked-Served digest st (none, s) digits named by_tag there names told e =
      put_body-Served st.storage digest _ (record st { storage = s }) (inr told) refl digits named
  relinked-Served digest st (some n, s) digits named by_tag there names told e =
      let (c, (linked, kept, before)) =
        relink_manifest_lem d w.sum w.unmarshal info.host info.image info.manifests digest n
          st.storage s (sym named ∙ by_tag) e in
      let (mt, typed) = names c before in
      let found : Content = record {
        content = c;
        digest = ensure_digest_prefix digest;
        media_type = mt;
      } in
      let st' = noted tags digests d w info digest [] [] (record st { storage = s }) in
      let held : IsHeld s found =
        found_lem d w.sum w.unmarshal info.host info.image info.manifests
          (ensure_digest_prefix digest) c mt s linked kept typed in
      (
        found,
        (
          held_lem tags digests d w r info st' digest [] [] found
              (named_lem digest [] [] st.manifest_cache there (λ x. cc (sym by_tag ∙ x))) held
              (inl str_eq_nothing),
          held,
          inr (digest, (told, refl, before)),
        ),
      )

  after_head-Served :
      (answer : Result (ℕ × Bytes) Bytes) (st : Stores)
      → ((c : Bytes) → has_prefix (w.sum c) (bytes "sha256:") ≡ false)
      → info.is_digest_manifests ≡ is_hash info.manifests
      → info.is_digest_manifests ≡ false
      → asked_digest ≡ answer
      → ((digest : Bytes) → answer ≡ ok digest → (digest ≢ []) × NamesManifest st.storage digest)
      → Served st.storage (after_head tags digests d w info answer st)
  unfolding after_head
  after_head-Served (err e) st digits named by_tag told names = tt
  after_head-Served (ok digest) st digits named by_tag told names =
      let (there, is_manifest) = names digest refl in
      relinked-Served digest st _ digits named by_tag there is_manifest told refl

  pub cache_manifest-Served :
      (st : Stores)
      → ((c : Bytes) → has_prefix (w.sum c) (bytes "sha256:") ≡ false)
      → info.is_digest_manifests ≡ is_hash info.manifests
      → ((digest : Bytes)
          → head_answer (w.http_client (bytes "HEAD") info.host (manifest_path info info.manifests))
            ≡ ok digest
          → NamesManifest st.storage digest)
      → Served st.storage (cache_manifest tags digests d w info st)
  unfolding cache_manifest fetch_body
  cache_manifest-Served st digits named names =
      elim (Bool-cases
        (not info.is_digest_manifests && not (str_eq info.host (bytes "ollama.com")))) [
          | inr e ↦
              rw e (put_body-Served st.storage info.manifests _ st (inl refl) refl digits named)
          | inl e ↦
              let by_tag : info.is_digest_manifests ≡ false = ground (arith, e) in
              rw e (
                after_head-Served _ st digits named by_tag refl
                  (λ digest h. (head_answer_there _ digest h, names digest h)))
        ]
