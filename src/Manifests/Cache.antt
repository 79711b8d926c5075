-- ===== src/Manifests/Cache.antt =====
-- pkg/manifests/manifest_cache.go: tags and digests in two caches. An error is named by its text.
use open_cidn.Base.{
  ℕ, ◌≡◌, ap, Bool, true, ◌&&◌, if◌then◌else◌, Bytes, str_eq, str_eq_iff, str_eq_refl, ◌∙◌, arith,
  Option, none, some, [], ◌∷◌, Eq,
}
use mathlib.Core.Logic.{◌↔◌}
use open_cidn.Manifests.Imc.{Imc}

pub record PathInfo : Type 0 where
  pub host : Bytes
  pub image : Bytes
  pub manifests : Bytes
  pub is_digest_manifests : Bool

pub record CacheKey : Type 0 where
  pub host : Bytes
  pub image : Bytes
  pub tag : Bytes

pub record TagValue : Type 0 where
  pub digest : Bytes
  pub error : Option Bytes
  pub status_code : ℕ

pub record DigestValue : Type 0 where
  pub media_type : Bytes
  pub length : Bytes
  pub body : Bytes
  pub error : Option Bytes
  pub status_code : ℕ

pub record CacheValue : Type 0 where
  pub digest : Bytes
  pub media_type : Bytes
  pub length : Bytes
  pub body : Bytes
  pub error : Option Bytes
  pub status_code : ℕ

-- `==` on keys.
unfoldable pub key_beq : CacheKey → CacheKey → Bool
key_beq a b = str_eq a.host b.host && (str_eq a.image b.image && str_eq a.tag b.tag)

same_fields : (a b : CacheKey) → a.host ≡ b.host → a.image ≡ b.image → a.tag ≡ b.tag → a ≡ b
same_fields a b p q r =
    ap (λ (x : Bytes). record { host = x; image = a.image; tag = a.tag }) p
    ∙ ap (λ (x : Bytes). record { host = b.host; image = x; tag = a.tag }) q
    ∙ ap (λ (x : Bytes). record { host = b.host; image = b.image; tag = x }) r

pub key_beq_iff : (a b : CacheKey) → (key_beq a b ≡ true) ↔ (a ≡ b)
unfolding key_beq
key_beq_iff a b = (
  λ h.
      let same_host : str_eq a.host b.host ≡ true = ground arith in
      let same_image : str_eq a.image b.image ≡ true = ground arith in
      let same_tag : str_eq a.tag b.tag ≡ true = ground arith in
      same_fields a b ((str_eq_iff a.host b.host).0 same_host)
        ((str_eq_iff a.image b.image).0 same_image) ((str_eq_iff a.tag b.tag).0 same_tag),
  λ e. rw (e, str_eq_refl b.host, str_eq_refl b.image, str_eq_refl b.tag),
)

abbrev pub key_eq : Eq CacheKey
key_eq = record { beq = key_beq; beq_iff = key_beq_iff }

abbrev pub manifest_cache_key : PathInfo → CacheKey
manifest_cache_key info = record { host = info.host; image = info.image; tag = info.manifests }

module _ (tags : Imc key_eq TagValue) (digests : Imc key_eq DigestValue) where
  pub record ManifestCache : Type 0 where
    pub tag : tags.State
    pub digest : digests.State
    pub duration : ℕ

  unfoldable pub new_manifest_cache : ℕ → ManifestCache
  new_manifest_cache duration = record { tag = tags.new; digest = digests.new; duration = duration }

  -- What `Get` returns for an entry of the cache of digests.
  abbrev pub from_digest : CacheKey → Option DigestValue → Option CacheValue
  from_digest key none = none
  from_digest key (some val) = elim val.error [
    | some e ↦ some (record {
      digest = [];
      media_type = [];
      length = [];
      body = [];
      error = some e;
      status_code = val.status_code;
    })
    | none ↦ some (record {
      digest = key.tag;
      media_type = val.media_type;
      length = val.length;
      body = val.body;
      error = none;
      status_code = 0;
    })
  ]

  -- The look-up of a tag: an error is the result, a digest is looked up in turn.
  abbrev pub from_tag : CacheKey → Option TagValue → ManifestCache → Option CacheValue
  from_tag key none m = none
  from_tag key (some val) m = elim val.error [
    | some e ↦ some (record {
      digest = [];
      media_type = [];
      length = [];
      body = [];
      error = some e;
      status_code = val.status_code;
    })
    | none ↦
        let key' = record key { tag = val.digest } in from_digest key' (digests.get key' m.digest)
  ]

  unfoldable pub get : PathInfo → ManifestCache → Option CacheValue
  get info m =
      let key = manifest_cache_key info in
      if info.is_digest_manifests
      then from_digest key (digests.get key m.digest)
      else from_tag key (tags.get key m.tag) m

  unfoldable pub put_error : PathInfo → Bytes → ℕ → ManifestCache → ManifestCache
  put_error info e sc m =
      let key = manifest_cache_key info in
      if info.is_digest_manifests
      then record m {
        digest =
            digests.set_with_ttl key
              (record { media_type = []; length = []; body = []; error = some e; status_code = sc })
              m.duration m.digest;
      }
      else record m {
        tag =
            tags.set_with_ttl key (record { digest = []; error = some e; status_code = sc })
              m.duration m.tag;
      }

  -- The key under which the manifest itself is put.
  abbrev pub digest_key : PathInfo → CacheValue → CacheKey
  digest_key info val =
      let key = manifest_cache_key info in
      if info.is_digest_manifests
      then key
      else elim val.digest [ [] ↦ key | c ∷ cs ↦ record key { tag = c ∷ cs } ]

  unfoldable pub put : PathInfo → CacheValue → ManifestCache → ManifestCache
  put info val m = record m {
    tag =
        if info.is_digest_manifests
        then m.tag
        else tags.set_with_ttl (manifest_cache_key info)
            (record { digest = val.digest; error = none; status_code = 0 }) m.duration m.tag;
    digest =
        digests.set_with_ttl (digest_key info val)
          (record {
            media_type = val.media_type;
            length = val.length;
            body = val.body;
            error = none;
            status_code = 0;
          })
          m.duration m.digest;
  }

  unfoldable pub remove : PathInfo → ManifestCache → ManifestCache
  remove info m = record m {
    tag = tags.remove (manifest_cache_key info) m.tag;
    digest = digests.remove (manifest_cache_key info) m.digest;
  }
