-- ===== src/Gateway/RoundTrip.antt =====
-- pkg/gateway/utils.go: `PathInfo.Path` against `parseOriginPathInfo`.
use open_cidn.Base.{
  ℕ, ◌-◌, ◌≡◌, ◌≢◌, refl, sym, ◌∙◌, ap, subst, ==_iff, Option-cases, inl, inr, true, false, ltb,
  ◌==◌, Bool-cases, Bytes, bytes, str_eq, str_eq_iff, has_prefix, trim_prefix-append, contains_byte,
  cut-append, split, split-append, split-cons, split_plain, join, join-split, length, length-append,
  take, none, some, List, [], ◌∷◌, ◌++◌, suc, arith,
}
use mathlib.Core.List.{append_assoc}
use open_cidn.Gateway.Domain.{
  Scan, dot, scan_byte, scan, scanned, is_domain_name, is_name_letter, is_digit,
}
use open_cidn.Gateway.Paths.{
  slash, prefix, PathInfo, path, part_at, image_of, with_kind, parse_hosted, parse_parts,
  parse_origin_path_info,
}

-- What may be asked of an image.
pub data Asked : Type 0 where
  tags : Asked
  manifest : Bytes → Asked
  blob : Bytes → Asked

-- A reference is one part of a path; the digest of a blob has 71 bytes.
abbrev pub IsAskable : Asked → Type 0
IsAskable tags = Unit
IsAskable (manifest ref) = (ref ≢ []) × (contains_byte slash ref ≡ false)
IsAskable (blob digest) = (length digest ≡ 71) × (contains_byte slash digest ≡ false)

abbrev pub info_of : Bytes → Bytes → Asked → PathInfo
info_of host image tags = record {
  host = host;
  image = image;
  tags_list = true;
  manifests = [];
  is_digest_manifests = false;
  blobs = [];
}
info_of host image (manifest ref) = record {
  host = host;
  image = image;
  tags_list = false;
  manifests = ref;
  is_digest_manifests = has_prefix ref (bytes "sha256:");
  blobs = [];
}
info_of host image (blob digest) = record {
  host = host;
  image = image;
  tags_list = false;
  manifests = [];
  is_digest_manifests = false;
  blobs = digest;
}

byte_slash : (c : ℕ) (st : Scan) → (c == slash) ≡ true → scan_byte c st ≡ none
unfolding scan_byte is_name_letter is_digit
byte_slash c st h = subst (λ (x : ℕ). scan_byte x st ≡ none) (sym ((==_iff c slash).0 h)) refl

scan_slashless :
    (s : Bytes) (st : Scan) → scanned (scan s st) ≡ true → contains_byte slash s ≡ false
unfolding scan scanned contains_byte
scan_slashless [] st h = refl
scan_slashless (c ∷ s) st h = elim (Option-cases (scan_byte c st)) [
  | inl stop ↦ cc (rw (scan, stop) at h)
  | inr more ↦
      let rest = scan_slashless s more.0 (rw (scan, more.1) at h) in
      elim (Bool-cases (c == slash)) [
        | inl same ↦ cc (rw (byte_slash c st same) at more.1)
        | inr apart ↦ rw apart rest
      ]
]

-- A domain name is one part of a path.
pub is_domain_name_slashless : (s : Bytes) → is_domain_name s ≡ true → contains_byte slash s ≡ false
unfolding is_domain_name
is_domain_name_slashless s h =
    scan_slashless s (record { last = dot; non_numeric = false; partlen = 0 }) (ground (arith, h))

pub is_domain_name_there : (s : Bytes) → is_domain_name s ≡ true → str_eq s [] ≡ false
unfolding is_domain_name str_eq
is_domain_name_there [] h = cc
is_domain_name_there (c ∷ s) h = refl

pub take-append : (xs ys : List Bytes) → take (length xs) (xs ++ ys) ≡ xs
take-append [] ys = refl
take-append (x ∷ xs) ys = rw (take-append xs ys) refl

pub part_at-append : (xs ys : List Bytes) (y : Bytes) → part_at (length xs) (xs ++ y ∷ ys) ≡ y
part_at-append [] ys y = refl
part_at-append (x ∷ xs) ys y = part_at-append xs ys y

part_at-append_next :
    (xs : List Bytes) (y z : Bytes) → part_at (suc (length xs)) (xs ++ y ∷ z ∷ []) ≡ z
part_at-append_next [] y z = refl
part_at-append_next (x ∷ xs) y z = part_at-append_next xs y z

length_two : (xs : List Bytes) (y z : Bytes) → length (xs ++ y ∷ z ∷ []) ≡ suc (suc (length xs))
length_two xs y z = omega (arith, length-append xs (y ∷ z ∷ []))

module _ (xs : List Bytes) (kind last : Bytes) where
  abbrev pub tails : List Bytes
  tails = xs ++ kind ∷ last ∷ []

  pub but_two : length tails - 2 ≡ length xs
  but_two = omega (arith, length_two xs kind last)

  but_one : length tails - 1 ≡ suc (length xs)
  but_one = omega (arith, length_two xs kind last)

  image_of-append : image_of tails ≡ join slash xs
  image_of-append = rw but_two (rw (take-append xs (kind ∷ last ∷ [])) refl)

  pub kind_at : part_at (length tails - 2) tails ≡ kind
  kind_at = rw but_two (part_at-append xs (last ∷ []) kind)

  pub last_at : part_at (length tails - 1) tails ≡ last
  last_at = rw but_one (part_at-append_next xs kind last)

pub tails_lem :
    (image kind last : Bytes)
    → contains_byte slash kind ≡ false
    → contains_byte slash last ≡ false
    → split slash (image ++ slash ∷ (kind ++ slash ∷ last)) ≡ split slash image ++ kind ∷ last ∷ []
tails_lem image kind last h k = rw (split-append slash image (kind ++ slash ∷ last)) (
    rw (split-append slash kind last)
      (rw (split_plain slash kind h) (rw (split_plain slash last k) refl)))

-- The parts behind the host are the image's, the kind and what is asked.
with_kind-tags :
    (host image : Bytes) (xs : List Bytes)
    → with_kind host image (xs ++ bytes "tags" ∷ bytes "list" ∷ []) ≡ some (info_of host image tags)
unfolding with_kind str_eq
with_kind-tags host image xs =
    rw (kind_at xs (bytes "tags") (bytes "list"))
      (rw (last_at xs (bytes "tags") (bytes "list")) refl)

with_kind-manifest :
    (host image ref : Bytes) (xs : List Bytes)
    → with_kind host image (xs ++ bytes "manifests" ∷ ref ∷ [])
      ≡ some (info_of host image (manifest ref))
unfolding with_kind str_eq
with_kind-manifest host image ref xs =
    rw (kind_at xs (bytes "manifests") ref) (rw (last_at xs (bytes "manifests") ref) refl)

with_kind-blob :
    (host image digest : Bytes) (xs : List Bytes)
    → length digest ≡ 71
    → with_kind host image (xs ++ bytes "blobs" ∷ digest ∷ [])
      ≡ some (info_of host image (blob digest))
unfolding with_kind str_eq
with_kind-blob host image digest xs h =
    rw (kind_at xs (bytes "blobs") digest) (rw (last_at xs (bytes "blobs") digest) (rw h refl))

-- How a path tells what is asked.
abbrev kind_of : Asked → Bytes
kind_of tags = bytes "tags"
kind_of (manifest ref) = bytes "manifests"
kind_of (blob digest) = bytes "blobs"

abbrev last_of : Asked → Bytes
last_of tags = bytes "list"
last_of (manifest ref) = ref
last_of (blob digest) = digest

with_kind_lem :
    (host image : Bytes) (a : Asked) (xs : List Bytes)
    → IsAskable a
    → with_kind host image (xs ++ kind_of a ∷ last_of a ∷ []) ≡ some (info_of host image a)
with_kind_lem host image tags xs h = with_kind-tags host image xs
with_kind_lem host image (manifest ref) xs h = with_kind-manifest host image ref xs
with_kind_lem host image (blob digest) xs h = with_kind-blob host image digest xs h.0

slashless :
    (a : Asked)
    → IsAskable a
    → (contains_byte slash (kind_of a) ≡ false) × (contains_byte slash (last_of a) ≡ false)
unfolding contains_byte
slashless tags h = (refl, refl)
slashless (manifest ref) h = (refl, h.1)
slashless (blob digest) h = (refl, h.1)

abbrev tail_of : Bytes → Asked → Bytes
tail_of image a = image ++ slash ∷ (kind_of a ++ slash ∷ last_of a)

split-tail_of :
    (image : Bytes) (a : Asked)
    → IsAskable a
    → split slash (tail_of image a) ≡ split slash image ++ kind_of a ∷ last_of a ∷ []
split-tail_of image a h =
    tails_lem image (kind_of a) (last_of a) (slashless a h).0 (slashless a h).1

parse_hosted_lem :
    (host image : Bytes) (a : Asked)
    → image ≢ []
    → IsAskable a
    → parse_hosted host (split slash (tail_of image a)) ≡ some (info_of host image a)
unfolding parse_hosted
parse_hosted_lem host image a h k =
    let first = split-cons slash image in
    let enough : ltb (length (split slash image ++ kind_of a ∷ last_of a ∷ [])) 3 ≡ false =
      rw (length_two (split slash image) (kind_of a) (last_of a)) (rw first.1.1 (ground arith)) in
    let there : str_eq image [] ≡ false = elim (Bool-cases (str_eq image [])) [
      | inl e ↦ absurd (h ((str_eq_iff image []).0 e))
      | inr e ↦ e
    ] in
    rw (split-tail_of image a k) (
      rw (image_of-append (split slash image) (kind_of a) (last_of a)) (
        rw (join-split slash image)
          (rw enough (rw there (with_kind_lem host image a (split slash image) k)))))

path-info_of :
    (host image : Bytes) (a : Asked)
    → IsAskable a
    → path (info_of host image a) ≡ some (prefix ++ tail_of image a)
unfolding path str_eq
path-info_of host image tags h = refl
path-info_of host image (manifest ref) h = elim (Bool-cases (str_eq ref [])) [
  | inl e ↦ absurd (h.0 ((str_eq_iff ref []).0 e))
  | inr e ↦
      rw e (ap (λ (x : Bytes). some (prefix ++ x)) (append_assoc image (bytes "/manifests/") ref))
]
path-info_of host image (blob digest) h = elim (Bool-cases (str_eq digest [])) [
  | inl e ↦
      let none_left : digest ≡ [] = (str_eq_iff digest []).0 e in
      let clash : 0 ≡ 71 = subst (λ (d : Bytes). length d ≡ 71) none_left h.0 in
      ground (arith, clash)
  | inr e ↦
      rw e (ap (λ (x : Bytes). some (prefix ++ x)) (append_assoc image (bytes "/blobs/") digest))
]

some_inj : (x y : Bytes) → some (prefix ++ x) ≡ some (prefix ++ y) → x ≡ y
some_inj x y h = cc

-- What is asked of an image at a host with a dot: the path at the origin, with the host put behind
-- the prefix, is parsed to what was asked.
pub parse_origin_path_info-path :
    (host image rest : Bytes) (a : Asked)
    → is_domain_name host ≡ true
    → contains_byte dot host ≡ true
    → image ≢ []
    → IsAskable a
    → path (info_of host image a) ≡ some (prefix ++ rest)
    → parse_origin_path_info (prefix ++ host ++ slash ∷ rest) ≡ some (info_of host image a)
unfolding parse_origin_path_info parse_parts
parse_origin_path_info-path host image rest a h k i j e =
    let same : rest ≡ tail_of image a =
      some_inj rest (tail_of image a) (sym e ∙ path-info_of host image a j) in
    let there : str_eq host [] ≡ false = is_domain_name_there host h in
    rw same (
      rw (trim_prefix-append prefix (host ++ slash ∷ tail_of image a)) (
        rw (cut-append slash host (tail_of image a) (is_domain_name_slashless host h))
          (rw there (rw (h, k) (parse_hosted_lem host image a i j)))))
