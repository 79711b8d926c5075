-- ===== src/Manifests/Lookup.antt =====
-- What the cache of manifests finds after each operation (pkg/manifests/manifest_cache.go).
use open_cidn.Base.{
  ℕ, ◌≡◌, refl, ◌≢◌, ◌⊎◌, inl, inr, Bool, true, false, ◌&&◌, if◌then◌else◌, Bool-cases, Bytes,
  str_eq, Option, none, some, [], ◌∷◌, arith,
}
use open_cidn.Maps.{beq_refl}
use open_cidn.Manifests.Imc.{Imc}
use open_cidn.Manifests.Cache.{
  PathInfo, CacheKey, TagValue, DigestValue, CacheValue, key_beq, key_eq, manifest_cache_key,
  ManifestCache, from_tag, digest_key, get, put_error, put, remove,
}

-- The same image by a digest.
abbrev pub by_digest : Bytes → PathInfo → PathInfo
by_digest digest info = record info { manifests = digest; is_digest_manifests = true }

-- What `Get` gives for an error.
abbrev pub failure : Bytes → ℕ → CacheValue
failure e sc = record {
  digest = [];
  media_type = [];
  length = [];
  body = [];
  error = some e;
  status_code = sc;
}

-- What `Get` gives for a manifest that was put, under its digest.
abbrev pub stored : Bytes → CacheValue → CacheValue
stored digest val = record val { digest = digest; error = none; status_code = 0 }

-- Requests for different images.
abbrev pub same_image : PathInfo → PathInfo → Bool
same_image a b = str_eq a.host b.host && str_eq a.image b.image

abbrev image_key : PathInfo → Bytes → CacheKey
image_key info tag = record { host = info.host; image = info.image; tag = tag }

cons_of : (xs : Bytes) → xs ≢ [] → (c : ℕ) × ((cs : Bytes) × (xs ≡ c ∷ cs))
cons_of [] n = absurd (n refl)
cons_of (c ∷ cs) n = (c, (cs, refl))

by_tag : {A : Type 0} {b : Bool} → (b ≡ true) ⊎ A → b ≡ false → A
by_tag (inl t) f = cc
by_tag (inr a) f = a

key_apart :
    (a b : PathInfo) (s t : Bytes)
    → same_image a b ≡ false
    → key_beq
        (record { host = a.host; image = a.image; tag = s })
        (record { host = b.host; image = b.image; tag = t })
      ≡ false
unfolding key_beq
key_apart a b s t h = ground arith

no_tag :
    (info : PathInfo) (t : Bytes) → t ≢ [] → key_beq (image_key info t) (image_key info []) ≡ false
unfolding key_beq str_eq
no_tag info [] n = absurd (n refl)
no_tag info (c ∷ cs) n = ground arith

module _ (tags : Imc key_eq TagValue) (digests : Imc key_eq DigestValue) where
  found :
      {V : Type 0} (imc : Imc key_eq V) (k : CacheKey) (v : V) (ttl : ℕ) (s : imc.State)
      → imc.get k (imc.set_with_ttl k v ttl s) ≡ some v
  found imc k v ttl s = rw (beq_refl key_eq k) at (imc.get-set_with_ttl k k v ttl s)

  gone :
      {V : Type 0} (imc : Imc key_eq V) (k : CacheKey) (s : imc.State)
      → imc.get k (imc.remove k s) ≡ none
  gone imc k s = rw (beq_refl key_eq k) at (imc.get-remove k k s)

  untouched :
      {V : Type 0} (imc : Imc key_eq V) (a b : PathInfo) (s t : Bytes) (v : V) (ttl : ℕ)
      (st : imc.State)
      → same_image a b ≡ false
      → imc.get (image_key b t) (imc.set_with_ttl (image_key a s) v ttl st)
        ≡ imc.get (image_key b t) st
  untouched imc a b s t v ttl st h =
      rw (key_apart a b s t h) at (imc.get-set_with_ttl (image_key a s) (image_key b t) v ttl st)

  unremoved :
      {V : Type 0} (imc : Imc key_eq V) (a b : PathInfo) (s t : Bytes) (st : imc.State)
      → same_image a b ≡ false
      → imc.get (image_key b t) (imc.remove (image_key a s) st) ≡ imc.get (image_key b t) st
  unremoved imc a b s t st h =
      rw (key_apart a b s t h) at (imc.get-remove (image_key a s) (image_key b t) st)

  kept_if :
      {V : Type 0} (b : Bool) (imc : Imc key_eq V) (k : CacheKey) (s s' : imc.State)
      → imc.get k s' ≡ imc.get k s
      → imc.get k (if b then s else s') ≡ imc.get k s
  kept_if true imc k s s' e = refl
  kept_if false imc k s s' e = e

  -- What is found depends on nothing but the entries of the image.
  get_cong :
      (info : PathInfo) (m m' : ManifestCache tags digests)
      → tags.get (manifest_cache_key info) m'.tag ≡ tags.get (manifest_cache_key info) m.tag
      → ((t : Bytes)
          → digests.get (image_key info t) m'.digest ≡ digests.get (image_key info t) m.digest)
      → get tags digests info m' ≡ get tags digests info m
  unfolding get
  get_cong info m m' e f = elim (Bool-cases info.is_digest_manifests) [
    | inl d ↦ rw (d, f info.manifests)
    | inr d ↦ rw (d, e) (tagged (tags.get (manifest_cache_key info) m.tag))
  ]
    where
      tagged :
          (o : Option TagValue)
          → from_tag tags digests (manifest_cache_key info) o m'
            ≡ from_tag tags digests (manifest_cache_key info) o m
      tagged none = refl
      tagged (some val) = ap_error val val.error
        where
          ap_error :
              (val : TagValue) (o : Option Bytes)
              → from_tag tags digests (manifest_cache_key info) (some (record val { error = o })) m'
                ≡ from_tag tags digests
                    (manifest_cache_key info)
                    (some (record val { error = o }))
                    m
          ap_error val none = rw (f val.digest)
          ap_error val (some x) = refl

  digest_key_form :
      (info : PathInfo) (val : CacheValue)
      → (s : Bytes) × (digest_key tags digests info val ≡ image_key info s)
  digest_key_form info val = go info.is_digest_manifests val.digest
    where
      go :
          (b : Bool) (d : Bytes)
          → (s : Bytes) × (digest_key tags digests
                (record info { is_digest_manifests = b })
                (record val { digest = d })
              ≡ image_key info s)
      go true d = (info.manifests, refl)
      go false [] = (info.manifests, refl)
      go false (c ∷ cs) = (c ∷ cs, refl)

  put_error_elsewhere :
      (info other : PathInfo) (e : Bytes) (sc : ℕ) (m : ManifestCache tags digests)
      → same_image info other ≡ false
      → get tags digests other (put_error tags digests info e sc m) ≡ get tags digests other m
  unfolding put_error
  put_error_elsewhere info other e sc m h = elim (Bool-cases info.is_digest_manifests) [
    | inl d ↦ rw d (
        get_cong other m _ refl
          (λ t. untouched digests info other info.manifests t _ m.duration m.digest h))
    | inr d ↦ rw d (
        get_cong other m _
          (untouched tags info other info.manifests other.manifests _ m.duration m.tag h)
          (λ t. refl))
  ]

  -- A manifest that is put by its digest, or by a tag together with a digest that is not empty, is
  -- found under the same request, with its digest; a status and an error that came with it are
  -- dropped.
  pub get-put :
      (info : PathInfo) (val : CacheValue) (m : ManifestCache tags digests)
      → (info.is_digest_manifests ≡ true) ⊎ (val.digest ≢ [])
      → get tags digests info (put tags digests info val m)
        ≡ some (stored (if info.is_digest_manifests then info.manifests else val.digest) val)
  unfolding get put
  get-put info val m c = elim (Bool-cases info.is_digest_manifests) [
    | inl d ↦ rw (d, found digests)
    | inr d ↦
        let (x, (xs, e)) = cons_of val.digest (by_tag c d) in rw (d, e, found tags, found digests)
  ]

  -- An error is found under the same request until something else is put there.
  pub get-put_error :
      (info : PathInfo) (e : Bytes) (sc : ℕ) (m : ManifestCache tags digests)
      → get tags digests info (put_error tags digests info e sc m) ≡ some (failure e sc)
  unfolding get put_error
  get-put_error info e sc m = elim (Bool-cases info.is_digest_manifests) [
    | inl d ↦ rw (d, found digests)
    | inr d ↦ rw (d, found tags)
  ]

  -- Nothing is found after a removal.
  pub get-remove :
      (info : PathInfo) (m : ManifestCache tags digests)
      → get tags digests info (remove tags digests info m) ≡ none
  unfolding get remove
  get-remove info m = elim (Bool-cases info.is_digest_manifests) [
    | inl d ↦ rw (d, gone digests)
    | inr d ↦ rw (d, gone tags)
  ]

  -- No operation for one image changes what is found for another.
  pub get_elsewhere :
      (info other : PathInfo) (val : CacheValue) (e : Bytes) (sc : ℕ)
      (m : ManifestCache tags digests)
      → same_image info other ≡ false
      → (get tags digests other (put tags digests info val m) ≡ get tags digests other m)
        × (get tags digests other (put_error tags digests info e sc m) ≡ get tags digests other m)
        × (get tags digests other (remove tags digests info m) ≡ get tags digests other m)
  unfolding get put put_error remove
  get_elsewhere info other val e sc m h =
      let (s, k) = digest_key_form info val in
      (
        get_cong other m (put tags digests info val m)
            (kept_if info.is_digest_manifests tags (manifest_cache_key other) m.tag _
              (untouched tags info other info.manifests other.manifests _ m.duration m.tag h))
            (λ t. rw k (untouched digests info other s t _ m.duration m.digest h)),
        put_error_elsewhere info other e sc m h,
        get_cong other m (remove tags digests info m)
            (unremoved tags info other info.manifests other.manifests m.tag h)
            (λ t. unremoved digests info other info.manifests t m.digest h),
      )

  -- A manifest without a digest that is put by a tag is not found under that tag, unless something
  -- is stored under the empty digest.
  pub get-put_undigested :
      (info : PathInfo) (val : CacheValue) (m : ManifestCache tags digests)
      → info.is_digest_manifests ≡ false
      → info.manifests ≢ []
      → val.digest ≡ []
      → get tags digests (by_digest [] info) m ≡ none
      → get tags digests info (put tags digests info val m) ≡ none
  unfolding get put
  get-put_undigested info val m d t v h =
      let other = rw (no_tag info info.manifests t) at (
        digests.get-set_with_ttl (image_key info info.manifests) (image_key info [])
          (record {
            media_type = val.media_type;
            length = val.length;
            body = val.body;
            error = none;
            status_code = 0;
          })
          m.duration m.digest) in
      rw (d, v, found tags, other) h
