-- ===== src/Manifests/Served.antt =====
-- `missServeCachedManifest` of pkg/manifests/manifest.go: what is answered for an entry of the cache.
use open_cidn.Base.{
  ◌≡◌, refl, ◌∙◌, ap, ◌⊎◌, inl, inr, Bool, true, false, Bool-cases, Bytes, str_eq, length, Option,
  none, some, [], decimal, decimal_there,
}
use open_cidn.Manifests.Imc.{Imc}
use open_cidn.Manifests.Cache.{PathInfo, TagValue, DigestValue, CacheValue, key_eq, get}
use open_cidn.Storage.Driver.{Driver}
use open_cidn.Storage.Manifests.{Content, get_manifest_content}
use open_cidn.Manifests.Upstream.{unknown, World, Store}
use open_cidn.Manifests.Proxy.{
  Answer, manifest, error, Asked, says, marks, lacks_body, written, entry_says,
  serve_cached_manifest, miss_entry, miss_serve_cached_manifest, at_last, or_else,
}

-- The answer that a manifest in the storage gives.
abbrev pub answer_of : Asked → Content → Answer
answer_of r found =
    manifest found.digest found.media_type (decimal (length found.content))
      (written r.is_head found.content)

abbrev pub entry : Bytes → Bytes → Bytes → CacheValue
entry digest media_type len = record {
  digest = digest;
  media_type = media_type;
  length = len;
  body = [];
  error = none;
  status_code = 0;
}

entry_marks :
    (r : Asked) (digest media_type len : Bytes)
    → str_eq media_type [] ≡ true
    → entry_says r (entry digest media_type len) ≡ marks
unfolding entry_says
entry_marks r digest media_type len h = rw h refl

entry_head :
    (r : Asked) (digest media_type len : Bytes)
    → str_eq media_type [] ≡ false
    → str_eq len [] ≡ false
    → r.is_head ≡ true
    → entry_says r (entry digest media_type len) ≡ says (manifest digest media_type len none)
unfolding entry_says
entry_head r digest media_type len h k e = rw (h, k) (rw e refl)

entry_get :
    (r : Asked) (digest media_type len : Bytes)
    → str_eq media_type [] ≡ false
    → str_eq len [] ≡ false
    → r.is_head ≡ false
    → entry_says r (entry digest media_type len) ≡ lacks_body
unfolding entry_says str_eq
entry_get r digest media_type len h k e = rw (h, k) (rw e refl)

head_answer_of :
    (r : Asked) (found : Content)
    → r.is_head ≡ true
    → manifest found.digest found.media_type (decimal (length found.content)) none
      ≡ answer_of r found
head_answer_of r found e = rw e refl

module _ (tags : Imc key_eq TagValue) (digests : Imc key_eq DigestValue) (d : Driver) (w : World)
    (r : Asked) (info : PathInfo) (st : Store tags digests d w) where
  -- The manifest is in the storage.
  abbrev IsHeld : Content → Type 0
  IsHeld found =
      get_manifest_content d w.sum w.unmarshal info.host info.image info.manifests st.storage
      ≡ (some found, st.storage)

  abbrev last_answer : Option Answer
  last_answer = (at_last tags digests d w r info st).0

  looked_up :
      (found : Content) (recache : Bool)
      → IsHeld found
      → (serve_cached_manifest tags digests d w r info recache st).0 ≡ some (answer_of r found)
  unfolding serve_cached_manifest
  looked_up found recache h = rw (serve_cached_manifest, h) refl

  at_last_lem :
      (val : CacheValue)
      → get tags digests info st.manifest_cache ≡ some val
      → at_last tags digests d w r info st
        ≡ or_else tags digests d w
            (miss_entry tags digests d w r info (entry_says r val) st)
            (λ st1. (some (error unknown 0), st1))
  unfolding at_last miss_serve_cached_manifest
  at_last_lem val g = rw (at_last, miss_serve_cached_manifest, g) refl

  at_last_answer :
      (val : CacheValue)
      → get tags digests info st.manifest_cache ≡ some val
      → last_answer
        ≡ (or_else tags digests d w
            (miss_entry tags digests d w r info (entry_says r val) st)
            (λ st1. (some (error unknown 0), st1))).0
  at_last_answer val g =
      ap (λ (x : Option Answer × Store tags digests d w). x.0) (at_last_lem val g)

  pub said :
      (val : CacheValue) (a : Answer)
      → get tags digests info st.manifest_cache ≡ some val
      → entry_says r val ≡ says a
      → last_answer ≡ some a
  unfolding miss_entry
  said val a g e = at_last_answer val g ∙ (rw e refl)

  or_else_lem :
      (o : Option Answer × Store tags digests d w) (a : Answer)
      → o.0 ≡ some a
      → (or_else tags digests d w o (λ st1. (some (error unknown 0), st1))).0 ≡ some a
  or_else_lem (some b, s) a h = h
  or_else_lem (none, s) a h = cc

  marked :
      (val : CacheValue) (found : Content)
      → get tags digests info st.manifest_cache ≡ some val
      → (entry_says r val ≡ marks) ⊎ (entry_says r val ≡ lacks_body)
      → IsHeld found
      → last_answer ≡ some (answer_of r found)
  unfolding miss_entry
  marked val found g (inl e) h =
      at_last_answer val g ∙ (rw e (or_else_lem _ _ (looked_up found true h)))
  marked val found g (inr e) h =
      at_last_answer val g ∙ (rw e (or_else_lem _ _ (looked_up found true h)))

  pub held_lem :
      (digest media_type len : Bytes) (found : Content)
      → get tags digests info st.manifest_cache ≡ some (entry digest media_type len)
      → IsHeld found
      → (str_eq media_type [] ≡ true)
        ⊎ ((digest ≡ found.digest)
            × (media_type ≡ found.media_type)
            × (len ≡ decimal (length found.content)))
      → last_answer ≡ some (answer_of r found)
  held_lem digest media_type len found g h (inl e) =
      marked (entry digest media_type len) found g (inl (entry_marks r digest media_type len e)) h
  held_lem digest media_type len found g h (inr (a, b, c)) =
      elim (Bool-cases (str_eq media_type [])) [
        | inl e ↦
            marked (entry digest media_type len) found g
              (inl (entry_marks r digest media_type len e)) h
        | inr e ↦
            let there : str_eq len [] ≡ false = rw c (decimal_there (length found.content)) in
            elim (Bool-cases r.is_head) [
              | inl head ↦
                  said (entry digest media_type len) (manifest digest media_type len none) g
                    (entry_head r digest media_type len e there head)
                  ∙ rw (a, b, c) (ap (λ (x : Answer). some x) (head_answer_of r found head))
              | inr get_method ↦
                  marked (entry digest media_type len) found g
                    (inr (entry_get r digest media_type len e there get_method)) h
            ]
      ]
