-- ===== src/Gateway/Paths.antt =====
-- pkg/gateway/utils.go: from a request's path to what it asks for, and the path at the origin.
use open_cidn.Base.{
  ℕ, ◌+◌, ◌-◌, Bool, false, ◌||◌, not, ltb, ◌==◌, if◌then◌else◌, Bytes, bytes, str_eq, has_prefix,
  trim_prefix, contains_byte, cut, split, join, length, take, Option, none, some, List, [], ◌∷◌,
  ◌++◌, zero, suc, cut_text, trim_bytes,
}
use open_cidn.Gateway.Domain.{dot, is_domain_name}

abbrev pub slash : ℕ
slash = 47

abbrev pub prefix : Bytes
prefix = bytes "/v2/"

pub record PathInfo : Type 0 where
  pub host : Bytes
  pub image : Bytes
  pub tags_list : Bool
  pub manifests : Bytes
  pub is_digest_manifests : Bool
  pub blobs : Bytes

-- `none` is the error for an unknown kind.
unfoldable pub path : PathInfo → Option Bytes
path p =
    if p.tags_list
    then some (prefix ++ p.image ++ bytes "/tags/list")
    else if not (str_eq p.manifests [])
    then some (prefix ++ p.image ++ bytes "/manifests/" ++ p.manifests)
    else if not (str_eq p.blobs [])
    then some (prefix ++ p.image ++ bytes "/blobs/" ++ p.blobs)
    else none

-- The part at an index. Out of range Go panics; the lengths that are tested before keep it within.
abbrev pub part_at : ℕ → List Bytes → Bytes
part_at n [] = []
part_at zero (part ∷ parts) = part
part_at (suc n) (part ∷ parts) = part_at n parts

-- All parts but the last two.
abbrev pub image_of : List Bytes → Bytes
image_of tails = join slash (take (length tails - 2) tails)

-- The switch on the last part but one.
unfoldable pub with_kind : Bytes → Bytes → List Bytes → Option PathInfo
with_kind host image tails =
    let kind = part_at (length tails - 2) tails in
    let last = part_at (length tails - 1) tails in
    let info : PathInfo = record {
      host = host;
      image = image;
      tags_list = false;
      manifests = [];
      is_digest_manifests = false;
      blobs = [];
    } in
    if str_eq kind (bytes "tags")
    then some (record info { tags_list = str_eq last (bytes "list") })
    else if str_eq kind (bytes "manifests")
    then some
        (record info { manifests = last; is_digest_manifests = has_prefix last (bytes "sha256:") })
    else if str_eq kind (bytes "blobs")
    then if length last == 7 + 64 then some (record info { blobs = last }) else none
    else some info

-- The first part is no host: it belongs to the image.
unfoldable pub parse_unhosted : Bytes → List Bytes → Option PathInfo
parse_unhosted host tails =
    if ltb (length tails) 2
    then none
    else let image = image_of tails in
      with_kind [] (if str_eq image [] then host else host ++ slash ∷ image) tails

unfoldable pub parse_hosted : Bytes → List Bytes → Option PathInfo
parse_hosted host tails =
    if ltb (length tails) 3 || str_eq (image_of tails) []
    then none
    else with_kind host (image_of tails) tails

unfoldable pub parse_parts : Option (Bytes × Bytes) → Option PathInfo
parse_parts none = none
parse_parts (some (host, tail)) =
    if str_eq host []
    then none
    else if not (is_domain_name host) || not (contains_byte dot host)
    then parse_unhosted host (split slash tail)
    else parse_hosted host (split slash tail)

unfoldable pub parse_origin_path_info : Bytes → Option PathInfo
parse_origin_path_info text = parse_parts (cut slash (trim_prefix text prefix))

-- The link to the next page of a list, to be asked of this gateway.
unfoldable pub add_prefix_to_image_for_pagination : Bytes → Bytes → Bytes
add_prefix_to_image_for_pagination old_link host = elim (cut 59 old_link) [
  | none ↦ old_link
  | some link ↦ elim (cut_text prefix (trim_bytes (bytes "<>") link.0)) [
    | none ↦ old_link
    | some url ↦ bytes "<" ++ (prefix ++ host ++ slash ∷ url.1) ++ bytes ">;" ++ link.1
  ]
]
