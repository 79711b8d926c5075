-- ===== src/Runner/Jobs.antt =====
-- pkg/runner/runner_manifest.go: which manifest a job of the queue asks for.
use mathlib.Core.List.{append_assoc}
use open_cidn.Base.{
  ◌≡◌, ◌≢◌, ◌⊎◌, refl, sym, ◌∙◌, ap, inl, inr, true, false, ◌||◌, if◌then◌else◌, Bool-cases, Bytes,
  bytes, str_eq, has_prefix, contains_byte, cut, cut-append, Option, none, some, [], ◌∷◌, ◌++◌, ℕ,
  ◌==◌, arith,
}
use open_cidn.Tokens.Allowed.{str_eq_nil}
use open_cidn.Manifests.Cache.{PathInfo}
use open_cidn.Manifests.Proxy.{format_path_info}

abbrev not_first : Option (Bytes × Bytes) → Option (Bytes × Bytes) → Option (Bytes × Bytes)
not_first none otherwise = otherwise
not_first (some parts) otherwise = if str_eq parts.0 [] then otherwise else some parts

-- Image and name, which `@` or `:` separates.
unfoldable pub named_in : Bytes → Option (Bytes × Bytes)
named_in content = not_first (cut 64 content) (not_first (cut 58 content) none)

abbrev host_and_image : Option (Bytes × Bytes) → Bytes → Option (Bytes × Bytes × Bytes)
host_and_image none tag_or_blob = none
host_and_image (some parts) tag_or_blob = some (parts.0, parts.1, tag_or_blob)

abbrev hosted : Option (Bytes × Bytes) → Option (Bytes × Bytes × Bytes)
hosted none = none
hosted (some parts) = host_and_image (cut 47 parts.0) parts.1

-- Host, image and name; without them the job fails as one of an invalid content.
unfoldable pub job_of : Bytes → Option (Bytes × Bytes × Bytes)
job_of content = hosted (named_in content)

contains_byte-append :
    (c : ℕ) (s t : Bytes) → contains_byte c (s ++ t) ≡ (contains_byte c s || contains_byte c t)
unfolding contains_byte
contains_byte-append c [] t = ground arith
contains_byte-append c (b ∷ s) t = ground (arith, contains_byte-append c s t)

cut-none : (c : ℕ) (s : Bytes) → contains_byte c s ≡ false → cut c s ≡ none
unfolding contains_byte cut
cut-none c [] h = refl
cut-none c (b ∷ s) h =
    let apart : (b == c) ≡ false = ground arith in
    let rest : contains_byte c s ≡ false = ground arith in rw apart (rw (cut-none c s rest) refl)

not_empty : (host image : Bytes) → host ++ 47 ∷ image ≢ []
not_empty [] image e = cc
not_empty (b ∷ host) image e = cc

-- The image of a job is the host and what follows the first slash.
hosted_lem :
    (host image name : Bytes)
    → contains_byte 47 host ≡ false
    → hosted (some (host ++ 47 ∷ image, name)) ≡ some (host, image, name)
hosted_lem host image name h = ap (λ o. host_and_image o name) (cut-append 47 host image h)

apart_lem :
    (c : ℕ) (host image : Bytes)
    → (47 == c) ≡ false
    → contains_byte c host ≡ false
    → contains_byte c image ≡ false
    → contains_byte c (host ++ 47 ∷ image) ≡ false
unfolding contains_byte
apart_lem c host image n h k = rw (contains_byte-append c host (47 ∷ image)) (rw (h, n, k) refl)

at_lem :
    (host image name : Bytes)
    → contains_byte 64 host ≡ false
    → contains_byte 64 image ≡ false
    → named_in (host ++ 47 ∷ (image ++ 64 ∷ name)) ≡ some (host ++ 47 ∷ image, name)
unfolding named_in
at_lem host image name h k = rw (sym (append_assoc host (47 ∷ image) (64 ∷ name))) (
    rw (cut-append 64 (host ++ 47 ∷ image) name (apart_lem 64 host image refl h k))
      (rw (str_eq_nil (host ++ 47 ∷ image) (not_empty host image)) refl))

colon_lem :
    (host image name : Bytes)
    → contains_byte 64 host ≡ false
    → contains_byte 64 image ≡ false
    → contains_byte 64 name ≡ false
    → contains_byte 58 host ≡ false
    → contains_byte 58 image ≡ false
    → named_in (host ++ 47 ∷ (image ++ 58 ∷ name)) ≡ some (host ++ 47 ∷ image, name)
unfolding named_in contains_byte
colon_lem host image name h k n ch ck =
    let no_at : contains_byte 64 ((host ++ 47 ∷ image) ++ 58 ∷ name) ≡ false =
      rw (contains_byte-append 64 (host ++ 47 ∷ image) (58 ∷ name))
        (rw (apart_lem 64 host image refl h k, n) refl) in
    rw (sym (append_assoc host (47 ∷ image) (58 ∷ name))) (
      rw (cut-none 64 ((host ++ 47 ∷ image) ++ 58 ∷ name) no_at) (
        rw (cut-append 58 (host ++ 47 ∷ image) name (apart_lem 58 host image refl ch ck))
          (rw (str_eq_nil (host ++ 47 ∷ image) (not_empty host image)) refl)))

-- The parts that `Sprintf` puts together.
spelled :
    (c : ℕ) (host image name : Bytes)
    → host ++ 47 ∷ [] ++ image ++ c ∷ [] ++ name ≡ host ++ 47 ∷ (image ++ c ∷ name)
spelled c host image name = simp append_assoc

-- The runner reads the content of the job that the proxy makes for a manifest as the host, the image
-- and the tag or digest of that manifest, if there is no `@` or `:` before the separator, no slash in
-- the host, and no `@` in a tag.
pub job_of-format_path_info :
    (info : PathInfo)
    → contains_byte 47 info.host ≡ false
    → contains_byte 64 info.host ≡ false
    → contains_byte 58 info.host ≡ false
    → contains_byte 64 info.image ≡ false
    → contains_byte 58 info.image ≡ false
    → (has_prefix info.manifests (bytes "sha256:") ≡ true)
      ⊎ (contains_byte 64 info.manifests ≡ false)
    → job_of (format_path_info info) ≡ some (info.host, info.image, info.manifests)
unfolding format_path_info job_of named_in
job_of-format_path_info info slash_h at_h colon_h at_i colon_i name =
    elim (Bool-cases (has_prefix info.manifests (bytes "sha256:"))) [
      | inl digest ↦ rw digest (
          ap (λ (x : Bytes). job_of x) (spelled 64 info.host info.image info.manifests)
          ∙ ap hosted (at_lem info.host info.image info.manifests at_h at_i)
          ∙ hosted_lem info.host info.image info.manifests slash_h)
      | inr tag ↦
          let plain : contains_byte 64 info.manifests ≡ false = elim name [
            | inl digest ↦ cc (sym digest ∙ tag)
            | inr n ↦ n
          ] in
          rw tag (
            ap (λ (x : Bytes). job_of x) (spelled 58 info.host info.image info.manifests)
            ∙ ap hosted
                (colon_lem info.host info.image info.manifests at_h at_i plain colon_h colon_i)
            ∙ hosted_lem info.host info.image info.manifests slash_h)
    ]
