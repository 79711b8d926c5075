-- ===== src/Tokens/Allowed.antt =====
-- pkg/auth/auth.go: the list of allowed images and the tokens that are given.
use open_cidn.Base.{
  ◌≡◌, ◌≢◌, refl, sym, ◌∙◌, ap, subst, inl, inr, Bool, true, false, if◌then◌else◌, Bool-cases,
  Bytes, str_eq, str_eq_iff, contains_byte, cut, Option, none, some, [], ◌∷◌, ◌++◌, Result, ok, err,
  arith,
}
use open_cidn.Gateway.Domain.{dot, is_domain_name}
use open_cidn.Gateway.RoundTrip.{is_domain_name_there}
use open_cidn.Tokens.Token.{Attribute, Token}
use open_cidn.Tokens.Registry.{StoredToken, RegistryAttr, Registry}
use open_cidn.Tokens.Manager.{
  RegistryCache, get_host_and_image, attribute_of, with_image, with_matcher, decide,
}

-- A text that is not empty, as the tests of the code have it.
pub str_eq_nil : (s : Bytes) → s ≢ [] → str_eq s [] ≡ false
str_eq_nil s h = elim (Bool-cases (str_eq s [])) [
  | inl e ↦ absurd (h ((str_eq_iff s []).0 e))
  | inr e ↦ e
]

-- A host that is found is not empty.
abbrev IsHosted : Result Bytes (Bytes × Bytes) → Type 0
IsHosted (err e) = Unit
IsHosted (ok found) = str_eq found.0 [] ≡ false

by_source-IsHosted :
    (repo source message : Bytes)
    → IsHosted (if str_eq source [] then err message else ok (source, repo))
unfolding str_eq
by_source-IsHosted repo [] message = tt
by_source-IsHosted repo (c ∷ source) message = refl

by_domain-IsHosted :
    (host image message : Bytes) (allow_prefix : Bool)
    → str_eq host [] ≡ false
    → IsHosted (if allow_prefix then ok (host, image) else err message)
by_domain-IsHosted host image message true h = h
by_domain-IsHosted host image message false h = tt

get_host_and_image-IsHosted :
    (repo : Bytes) (allow_prefix : Bool) (source : Bytes)
    → IsHosted (get_host_and_image repo allow_prefix source)
unfolding get_host_and_image
get_host_and_image-IsHosted repo allow_prefix source = by_cut (cut 47 repo) refl
  where
    by_cut :
        (o : Option (Bytes × Bytes))
        → cut 47 repo ≡ o
        → IsHosted (get_host_and_image repo allow_prefix source)
    by_cut none e = rw (get_host_and_image, e) (by_source-IsHosted repo source _)
    by_cut (some parts) e =
        rw (get_host_and_image, e)
          (elim (Bool-cases (is_domain_name parts.0)) [
            | inr f ↦ rw f (by_source-IsHosted repo source _)
            | inl f ↦ elim (Bool-cases (contains_byte dot parts.0)) [
              | inr g ↦ rw (f, g) (by_source-IsHosted repo source _)
              | inl g ↦
                  rw (f, g)
                    (by_domain-IsHosted parts.0 parts.1 _ allow_prefix
                      (is_domain_name_there parts.0 f))
            ]
          ])

-- An image comes with a host.
abbrev IsPaired : Attribute → Type 0
IsPaired attr = (str_eq attr.image [] ≡ false) → (str_eq attr.host [] ≡ false)

found-IsPaired :
    (attr : Attribute) (answer : Result Bytes (Bytes × Bytes))
    → IsPaired attr
    → IsHosted answer
    → IsPaired (elim answer [
      | err e ↦ record attr { block = true; block_message = e }
      | ok found ↦ record attr { host = found.0; image = found.1 }
    ])
found-IsPaired attr (err e) h k = h
found-IsPaired attr (ok found) h k = λ i. k

with_image-IsPaired :
    (repo : Bytes) (attrs : RegistryAttr) (attr : Attribute)
    → IsPaired attr
    → IsPaired (with_image repo attrs attr)
unfolding with_image
with_image-IsPaired repo attrs attr h = elim (Bool-cases (str_eq repo [])) [
  | inl e ↦ rw (with_image, e) h
  | inr e ↦
      rw (with_image, e)
        (found-IsPaired attr _ h (get_host_and_image-IsHosted repo attrs.allow_prefix attrs.source))
]

module _ (match : Bytes → Bool) (message : Bytes) (attr : Attribute) where
  with_matcher_kept :
      ((with_matcher (some match) message attr).host ≡ attr.host)
      × ((with_matcher (some match) message attr).image ≡ attr.image)
  unfolding with_matcher
  with_matcher_kept = (ground arith, ground arith)

  with_matcher_lem :
      IsPaired attr
      → attr.no_allowlist ≡ false
      → str_eq attr.image [] ≡ false
      → (with_matcher (some match) message attr).block ≡ false
      → match (attr.host ++ 47 ∷ attr.image) ≡ true
  unfolding with_matcher
  with_matcher_lem p a i h = let there = p i in ground (arith, there, a, i, h)

  matched_lem :
      IsPaired attr
      → attr.no_allowlist ≡ false
      → (with_matcher (some match) message attr).block ≡ false
      → (with_matcher (some match) message attr).image ≢ []
      → match (
          (with_matcher (some match) message attr).host
          ++ 47 ∷ (with_matcher (some match) message attr).image)
        ≡ true
  matched_lem p a b i =
      let (same_host, same_image) = with_matcher_kept in
      rw (same_host, same_image)
        (with_matcher_lem p a (str_eq_nil attr.image (subst (λ (x : Bytes). x ≢ []) same_image i))
          b)

unmatched :
    (m : Option (Bytes → Bool)) (message : Bytes) (attr : Attribute)
    → str_eq attr.host [] ≡ true
    → with_matcher m message attr ≡ attr
unfolding with_matcher
unmatched none message attr h = refl
unmatched (some match) message attr h = ground arith

attribute_of-IsPaired : (tok : StoredToken) (r : Registry) → IsPaired (attribute_of tok r)
unfolding attribute_of str_eq
attribute_of-IsPaired tok r h = cc

module _ (t : Token) (rc : RegistryCache) (tok : StoredToken) where
  -- The attributes before the list is looked at.
  abbrev imaged : Attribute
  imaged = with_image t.image rc.registry.attr (attribute_of tok rc.registry)

  imaged_open : imaged.no_allowlist ≡ tok.attr.no_allowlist
  unfolding with_image attribute_of
  imaged_open = elim (Bool-cases (str_eq t.image [])) [
    | inl e ↦ rw (with_image, e) refl
    | inr e ↦
        rw (with_image, e)
          (either_kept
            (get_host_and_image t.image rc.registry.attr.allow_prefix rc.registry.attr.source))
  ]
    where
      either_kept :
          (answer : Result Bytes (Bytes × Bytes))
          → (elim answer as (λ x. Attribute) [
            | err e ↦ record (attribute_of tok rc.registry) { block = true; block_message = e }
            | ok found ↦ record (attribute_of tok rc.registry) { host = found.0; image = found.1 }
          ]).no_allowlist
            ≡ tok.attr.no_allowlist
      either_kept (err e) = refl
      either_kept (ok found) = refl

  decide_open :
      (m : Option (Bytes → Bool))
      → rc.images_matcher ≡ m
      → tok.attr.block ≡ false
      → decide t rc tok ≡ with_matcher m rc.registry.attr.allowlist_block_message imaged
  unfolding decide attribute_of
  decide_open m e b = rw (decide, b) (rw e refl)

  decide_blocked : tok.attr.block ≡ true → decide t rc tok ≡ attribute_of tok rc.registry
  unfolding decide attribute_of
  decide_blocked b = rw (decide, b) refl

  attribute_of-block : (attribute_of tok rc.registry).block ≡ tok.attr.block
  unfolding attribute_of
  attribute_of-block = refl

  -- A token that is not blocked, and not freed of the list, names an image only if the registry's
  -- list has it, as long as that list is enabled.
  pub decide-IsAllowed :
      (match : Bytes → Bool)
      → rc.images_matcher ≡ some match
      → tok.attr.no_allowlist ≡ false
      → (decide t rc tok).block ≡ false
      → (decide t rc tok).image ≢ []
      → match ((decide t rc tok).host ++ 47 ∷ (decide t rc tok).image) ≡ true
  decide-IsAllowed match m a b i = elim (Bool-cases tok.attr.block) [
    | inl e ↦
        let same = ap (λ (x : Attribute). x.block) (decide_blocked e) in
        cc (sym b ∙ same ∙ attribute_of-block ∙ e)
    | inr e ↦
        let same = decide_open (some match) m e in
        let paired =
          with_image-IsPaired t.image rc.registry.attr (attribute_of tok rc.registry)
            (attribute_of-IsPaired tok rc.registry) in
        rw same (
          matched_lem match rc.registry.attr.allowlist_block_message imaged paired (imaged_open ∙ a)
            (rw same at b) (rw same at i))
  ]

  pub decide-IsPaired :
      (match : Bytes → Bool)
      → rc.images_matcher ≡ some match
      → (decide t rc tok).block ≡ false
      → str_eq (decide t rc tok).image [] ≡ false
      → str_eq (decide t rc tok).host [] ≡ false
  decide-IsPaired match m b i = elim (Bool-cases tok.attr.block) [
    | inl e ↦
        let same = ap (λ (x : Attribute). x.block) (decide_blocked e) in
        cc (sym b ∙ same ∙ attribute_of-block ∙ e)
    | inr e ↦
        let same = decide_open (some match) m e in
        let (same_host, same_image) =
          with_matcher_kept match rc.registry.attr.allowlist_block_message imaged in
        let paired =
          with_image-IsPaired t.image rc.registry.attr (attribute_of tok rc.registry)
            (attribute_of-IsPaired tok rc.registry) in
        rw same (rw same_host (paired (rw same_image at (rw same at i))))
  ]

  imageless : t.image ≡ [] → imaged ≡ attribute_of tok rc.registry
  unfolding with_image str_eq
  imageless e = rw e refl

  hostless : str_eq (attribute_of tok rc.registry).host [] ≡ true
  unfolding attribute_of str_eq
  hostless = refl

  -- Without an image nothing is compared with the list: the token is as the database has it.
  pub decide_imageless : t.image ≡ [] → decide t rc tok ≡ attribute_of tok rc.registry
  decide_imageless e = elim (Bool-cases tok.attr.block) [
    | inl b ↦ decide_blocked b
    | inr b ↦
        decide_open rc.images_matcher refl b
        ∙ (rw (imageless e) (
            unmatched rc.images_matcher rc.registry.attr.allowlist_block_message
              (attribute_of tok rc.registry) hostless))
  ]
