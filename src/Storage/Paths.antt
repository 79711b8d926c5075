-- ===== src/Storage/Paths.antt =====
-- pkg/cache: the paths under which blobs and links are stored, with what they use of Go's package
-- `path`.
use mathlib.Core.List.{append_assoc, append-nil, reverse-cons}
use open_cidn.Base.{
  ℕ, ◌≡◌, refl, sym, ◌∙◌, ap, false, ◌||◌, if◌then◌else◌, Bytes, bytes, str_eq, str_eq_iff,
  has_prefix, trim_prefix, split, join, take, List, [], ◌∷◌, ◌++◌, reverse, arith, inl, inr,
  Bool-cases,
}

-- One part of a path on the parts before it, the last of them first.
unfoldable pub resolve : List Bytes → Bytes → List Bytes
resolve done part =
    if str_eq part [] || str_eq part (bytes ".")
    then done
    else if str_eq part (bytes "..")
    then elim done [ [] ↦ [] | last ∷ before ↦ before ]
    else part ∷ done

unfoldable pub resolve_all : List Bytes → List Bytes → List Bytes
resolve_all done [] = done
resolve_all done (part ∷ parts) = resolve_all (resolve done part) parts

unfoldable pub all_parts : List Bytes → List Bytes
all_parts [] = []
all_parts (element ∷ elements) = split 47 element ++ all_parts elements

-- `path.Join` of elements of which the first starts with a slash.
unfoldable pub path_join : List Bytes → Bytes
path_join elements = 47 ∷ join 47 (reverse (resolve_all [] (all_parts elements)))

unfoldable pub clean_digest : Bytes → Bytes
clean_digest blob = trim_prefix blob (bytes "sha256:")

unfoldable pub ensure_digest_prefix : Bytes → Bytes
ensure_digest_prefix blob =
    if has_prefix blob (bytes "sha256:") then blob else bytes "sha256:" ++ blob

-- Go panics for a digest of less than two bytes; here its folder is then what there is.
unfoldable pub blob_cache_path : Bytes → Bytes
blob_cache_path blob =
    let digest = clean_digest blob in
    path_join
      (bytes "/docker/registry/v2/blobs/sha256" ∷ take 2 digest ∷ digest ∷ bytes "data" ∷ [])

unfoldable pub manifest_revisions_cache_path : Bytes → Bytes → Bytes → Bytes
manifest_revisions_cache_path host image blob = path_join (
    bytes "/docker/registry/v2/repositories"
    ∷ host
    ∷ image
    ∷ bytes "_manifests/revisions/sha256"
    ∷ clean_digest blob
    ∷ bytes "link"
    ∷ [])

unfoldable pub manifest_tag_cache_path : Bytes → Bytes → Bytes → Bytes
manifest_tag_cache_path host image tag = path_join (
    bytes "/docker/registry/v2/repositories"
    ∷ host
    ∷ image
    ∷ bytes "_manifests/tags"
    ∷ tag
    ∷ bytes "current/link"
    ∷ [])

unfoldable pub manifest_tag_list_cache_path : Bytes → Bytes → Bytes
manifest_tag_list_cache_path host image =
    path_join
      (bytes "/docker/registry/v2/repositories" ∷ host ∷ image ∷ bytes "_manifests/tags" ∷ [])

-- The last byte, or `d` for a text without one.
unfoldable pub final_byte : ℕ → Bytes → ℕ
final_byte d [] = d
final_byte d (b ∷ s) = final_byte b s

final_byte-append : (d b : ℕ) (s t : Bytes) → final_byte d (s ++ b ∷ t) ≡ final_byte b t
unfolding final_byte
final_byte-append d b [] t = refl
final_byte-append d b (c ∷ s) t = final_byte-append c b s t

final_byte-join :
    (d b : ℕ) (s : Bytes) (parts : List Bytes)
    → final_byte d (join 47 (parts ++ (b ∷ s) ∷ [])) ≡ final_byte b s
unfolding final_byte join
final_byte-join d b s [] = refl
final_byte-join d b s (part ∷ []) = final_byte-append d 47 part (b ∷ s)
final_byte-join d b s (part ∷ next ∷ parts) =
    final_byte-append d 47 part (join 47 (next ∷ parts ++ (b ∷ s) ∷ []))
    ∙ final_byte-join 47 b s (next ∷ parts)

resolve_all-append :
    (done xs ys : List Bytes) → resolve_all done (xs ++ ys) ≡ resolve_all (resolve_all done xs) ys
unfolding resolve_all
resolve_all-append done [] ys = refl
resolve_all-append done (x ∷ xs) ys = resolve_all-append (resolve done x) xs ys

all_parts-append :
    (es : List Bytes) (e : Bytes) → all_parts (es ++ e ∷ []) ≡ all_parts es ++ split 47 e
unfolding all_parts
all_parts-append [] e = append-nil (split 47 e)
all_parts-append (d ∷ es) e =
    ap (λ (x : List Bytes). split 47 d ++ x) (all_parts-append es e)
    ∙ sym (append_assoc (split 47 d) (all_parts es) (split 47 e))

-- A path ends as its last part does.
final_byte-path_join :
    (d b : ℕ) (s : Bytes) (es stack : List Bytes)
    → resolve_all [] (all_parts es) ≡ (b ∷ s) ∷ stack
    → final_byte d (path_join es) ≡ final_byte b s
unfolding path_join final_byte
final_byte-path_join d b s es stack h =
    rw (path_join, h) (rw (reverse-cons (b ∷ s) stack) (final_byte-join 47 b s (reverse stack)))

parts_data :
    (es : List Bytes)
    → resolve_all [] (all_parts (es ++ bytes "data" ∷ []))
      ≡ bytes "data" ∷ resolve_all [] (all_parts es)
unfolding split resolve_all resolve str_eq
parts_data es =
    rw (all_parts-append es (bytes "data"))
      (rw (resolve_all-append [] (all_parts es) (bytes "data" ∷ [])) refl)

parts_link :
    (es : List Bytes)
    → resolve_all [] (all_parts (es ++ bytes "link" ∷ []))
      ≡ bytes "link" ∷ resolve_all [] (all_parts es)
unfolding split resolve_all resolve str_eq
parts_link es =
    rw (all_parts-append es (bytes "link"))
      (rw (resolve_all-append [] (all_parts es) (bytes "link" ∷ [])) refl)

parts_current_link :
    (es : List Bytes)
    → resolve_all [] (all_parts (es ++ bytes "current/link" ∷ []))
      ≡ bytes "link" ∷ bytes "current" ∷ resolve_all [] (all_parts es)
unfolding split resolve_all resolve str_eq
parts_current_link es =
    rw (all_parts-append es (bytes "current/link"))
      (rw (resolve_all-append [] (all_parts es) (bytes "current" ∷ bytes "link" ∷ [])) refl)

blob_end : (blob : Bytes) → final_byte 0 (blob_cache_path blob) ≡ 97
unfolding blob_cache_path final_byte
blob_end blob =
    let digest = clean_digest blob in
    final_byte-path_join 0 100 (bytes "ata") _ _
      (parts_data (bytes "/docker/registry/v2/blobs/sha256" ∷ take 2 digest ∷ digest ∷ []))

revisions_end :
    (host image blob : Bytes) → final_byte 0 (manifest_revisions_cache_path host image blob) ≡ 107
unfolding manifest_revisions_cache_path final_byte
revisions_end host image blob = final_byte-path_join 0 108 (bytes "ink") _ _ (
    parts_link (
      bytes "/docker/registry/v2/repositories"
      ∷ host
      ∷ image
      ∷ bytes "_manifests/revisions/sha256"
      ∷ clean_digest blob
      ∷ []))

tag_end : (host image tag : Bytes) → final_byte 0 (manifest_tag_cache_path host image tag) ≡ 107
unfolding manifest_tag_cache_path final_byte
tag_end host image tag = final_byte-path_join 0 108 (bytes "ink") _ _ (
    parts_current_link (
      bytes "/docker/registry/v2/repositories" ∷ host ∷ image ∷ bytes "_manifests/tags" ∷ tag ∷ []))

apart : (p q : Bytes) → final_byte 0 p ≡ 97 → final_byte 0 q ≡ 107 → str_eq p q ≡ false
apart p q h k = elim (Bool-cases (str_eq p q)) [
  | inl e ↦
      let clash : 97 ≡ 107 =
        sym h ∙ ap (λ (x : Bytes). final_byte 0 x) ((str_eq_iff p q).0 e) ∙ k in
      ground (arith, clash)
  | inr e ↦ e
]

-- No link is stored where a blob is, whatever the names are.
pub blob-revisions :
    (blob host image digest : Bytes)
    → str_eq (blob_cache_path blob) (manifest_revisions_cache_path host image digest) ≡ false
blob-revisions blob host image digest = apart _ _ (blob_end blob) (revisions_end host image digest)

pub blob-tag :
    (blob host image tag : Bytes)
    → str_eq (blob_cache_path blob) (manifest_tag_cache_path host image tag) ≡ false
blob-tag blob host image tag = apart _ _ (blob_end blob) (tag_end host image tag)
