-- ===== src/Tokens/Manager.antt =====
-- pkg/auth/auth.go: which token a user gets, by the registry that is asked. An error is named by its
-- text.
use open_cidn.Base.{
  ℕ, ℤ, pos, ◌≡◌, Bool, true, ◌&&◌, not, ltb, int_eq, int_eq_iff, int_eq_refl, refl, if◌then◌else◌,
  Bytes, bytes, str_eq, str_eq_iff, str_eq_refl, contains_byte, cut, Option, none, some, List, [],
  ◌∷◌, ◌++◌, Result, ok, err, Eq, text_eq, ap, ◌∙◌, arith,
}
use mathlib.Core.Logic.{◌↔◌}
use open_cidn.Maps.{get_key}
use open_cidn.Manifests.Imc.{Imc}
use open_cidn.Gateway.Domain.{dot, is_domain_name}
use open_cidn.Tokens.Token.{Attribute, Token}
use open_cidn.Tokens.Registry.{StoredToken, RegistryAttr, Registry}

pub record UserKey : Type 0 where
  pub user_id : ℤ
  pub token_user : Bytes
  pub token_password : Bytes

-- `==` on keys.
unfoldable pub user_key_beq : UserKey → UserKey → Bool
user_key_beq a b =
    int_eq a.user_id b.user_id
    && (str_eq a.token_user b.token_user && str_eq a.token_password b.token_password)

same_fields :
    (a b : UserKey)
    → a.user_id ≡ b.user_id
    → a.token_user ≡ b.token_user
    → a.token_password ≡ b.token_password
    → a ≡ b
same_fields a b p q r =
    ap
      (λ (x : ℤ). record {
        user_id = x;
        token_user = a.token_user;
        token_password = a.token_password;
      })
      p
    ∙ ap
        (λ (x : Bytes). record {
          user_id = b.user_id;
          token_user = x;
          token_password = a.token_password;
        })
        q
    ∙ ap
        (λ (x : Bytes). record {
          user_id = b.user_id;
          token_user = b.token_user;
          token_password = x;
        })
        r

pub user_key_beq_iff : (a b : UserKey) → (user_key_beq a b ≡ true) ↔ (a ≡ b)
unfolding user_key_beq
user_key_beq_iff a b = (
  λ h.
      let same_id : int_eq a.user_id b.user_id ≡ true = ground arith in
      let same_user : str_eq a.token_user b.token_user ≡ true = ground arith in
      let same_password : str_eq a.token_password b.token_password ≡ true = ground arith in
      same_fields a b ((int_eq_iff a.user_id b.user_id).0 same_id)
        ((str_eq_iff a.token_user b.token_user).0 same_user)
        ((str_eq_iff a.token_password b.token_password).0 same_password),
  λ e.
      rw (e, str_eq_refl b.token_user, str_eq_refl b.token_password)
        (rw (int_eq_refl b.user_id) refl),
)

abbrev pub user_key_eq : Eq UserKey
user_key_eq = record { beq = user_key_beq; beq_iff = user_key_beq_iff }

-- `url.Userinfo`; a password that is not set reads as the empty one.
pub record Userinfo : Type 0 where
  pub username : Bytes
  pub password : Option Bytes

abbrev pub password_of : Userinfo → Bytes
password_of u = elim u.password [ none ↦ [] | some p ↦ p ]

-- A registry with the matcher of its list of allowed images, if that list is enabled.
pub record RegistryCache : Type 0 where
  pub registry : Registry
  pub images_matcher : Option (Bytes → Bool)

-- The statements of the database, and `hostmatcher.NewMatcher(list).Match`.
pub record Stored : Type 0 where
  pub get_by_domain : Bytes → Result Bytes Registry
  pub get_by_account : ℤ → Bytes → Bytes → Result Bytes StoredToken
  pub match : List Bytes → Bytes → Bool

unfoldable pub matcher_of : Stored → Registry → RegistryCache
matcher_of db r = record {
  registry = r;
  images_matcher = if r.attr.enable_allowlist then some (db.match r.attr.allowlist) else none;
}

-- How long an answer is kept.
unfoldable pub ttl_of : ℕ → Registry → ℕ
ttl_of cache_ttl r = if ltb 0 r.attr.ttl_second then r.attr.ttl_second else cache_ttl

unfoldable pub get_host_and_image : Bytes → Bool → Bytes → Result Bytes (Bytes × Bytes)
get_host_and_image repo allow_prefix source =
    let refused = err (bytes "invalid repository: " ++ repo) in
    let by_source = if str_eq source [] then refused else ok (source, repo) in
    elim (cut 47 repo) [
      | none ↦ by_source
      | some parts ↦
          if is_domain_name parts.0 && contains_byte dot parts.0
          then if allow_prefix then ok (parts.0, parts.1) else refused
          else by_source
    ]

-- The attributes of the database's token, before the image is looked at.
unfoldable pub attribute_of : StoredToken → Registry → Attribute
attribute_of tok r = record {
  user_id = tok.user_id;
  token_id = tok.token_id;
  registry_id = r.registry_id;
  no_rate_limit = tok.attr.no_rate_limit;
  rate_limit_per_second = tok.attr.rate_limit_per_second;
  weight = tok.attr.weight;
  cache_first = tok.attr.cache_first;
  no_allowlist = tok.attr.no_allowlist;
  no_block = tok.attr.no_block;
  allow_tags_list = tok.attr.allow_tags_list;
  blobs_agent_url = tok.attr.blobs_agent_url;
  no_blobs_agent = tok.attr.no_blobs_agent;
  always_redirect = tok.attr.always_redirect;
  host = [];
  image = [];
  block = tok.attr.block;
  block_message = tok.attr.block_message;
}

unfoldable pub with_image : Bytes → RegistryAttr → Attribute → Attribute
with_image repo attrs attr =
    if str_eq repo []
    then attr
    else elim (get_host_and_image repo attrs.allow_prefix attrs.source) [
      | err e ↦ record attr { block = true; block_message = e }
      | ok found ↦ record attr { host = found.0; image = found.1 }
    ]

unfoldable pub with_matcher : Option (Bytes → Bool) → Bytes → Attribute → Attribute
with_matcher none message attr = attr
with_matcher (some match) message attr =
    if not attr.block
      && (not attr.no_allowlist && (not (str_eq attr.host []) && not (str_eq attr.image [])))
    then if match (attr.host ++ 47 ∷ attr.image) then attr else record attr {
      block = true;
      block_message =
          if str_eq message []
          then bytes "image " ++ attr.host ++ 47 ∷ attr.image ++ bytes " on is not allowed"
          else message;
    }
    else attr

-- What follows the two look-ups of `GetTokenWithUser`.
unfoldable pub decide : Token → RegistryCache → StoredToken → Attribute
decide t rc tok =
    let attr = attribute_of tok rc.registry in
    if attr.block
    then attr
    else with_matcher rc.images_matcher rc.registry.attr.allowlist_block_message
        (with_image t.image rc.registry.attr attr)

-- Without a user, by the address or as anybody.
unfoldable pub anonymous_token : Token → Registry → Result Bytes StoredToken
anonymous_token t r = elim (get_key text_eq t.ip r.attr.special_ips) [
  | some tt ↦ ok (record { token_id = pos 0; user_id = r.user_id; attr = tt })
  | none ↦
      if r.attr.allow_anonymous
      then ok (record { token_id = pos 0; user_id = r.user_id; attr = r.attr.anonymous })
      else err (bytes "anonymous access is not allowed")
]

abbrev pub decided : Token → RegistryCache → Result Bytes StoredToken → Result Bytes Attribute
decided t rc (err e) = err e
decided t rc (ok tok) = ok (decide t rc tok)

module _ (tokens : Imc user_key_eq (Result Bytes StoredToken))
    (registries : Imc text_eq (Result Bytes RegistryCache)) where
  pub record Manager : Type 0 where
    pub token_cache : tokens.State
    pub registry_cache : registries.State
    pub cache_ttl : ℕ

  unfoldable pub registry_answer :
      Stored → Bytes → Result Bytes Registry → Manager → Result Bytes RegistryCache × Manager
  registry_answer db up (err e) m = (
    err e,
    record m { registry_cache = registries.set_with_ttl up (err e) m.cache_ttl m.registry_cache },
  )
  registry_answer db up (ok r) m =
      let rc = matcher_of db r in
      (
        ok rc,
        record m {
          registry_cache =
              registries.set_with_ttl up (ok rc) (ttl_of m.cache_ttl r) m.registry_cache;
        },
      )

  unfoldable pub get_registry : Stored → Token → Manager → Result Bytes RegistryCache × Manager
  get_registry db t m = elim (registries.get t.service m.registry_cache) [
    | some cached ↦ (cached, m)
    | none ↦ registry_answer db t.service (db.get_by_domain t.service) m
  ]

  unfoldable pub token_answer :
      UserKey → Registry → Result Bytes StoredToken → Manager → Result Bytes StoredToken × Manager
  token_answer up r answer m =
      let ttl : ℕ = elim answer [ err e ↦ m.cache_ttl | ok tok ↦ ttl_of m.cache_ttl r ] in
      (answer, record m { token_cache = tokens.set_with_ttl up answer ttl m.token_cache })

  unfoldable pub get_token :
      Stored
      → Option Userinfo
      → Token
      → RegistryCache
      → Manager
      → Result Bytes StoredToken × Manager
  get_token db none t rc m = (anonymous_token t rc.registry, m)
  get_token db (some u) t rc m =
      let up : UserKey = record {
        user_id = rc.registry.user_id;
        token_user = u.username;
        token_password = password_of u;
      } in
      elim (tokens.get up m.token_cache) [
        | some cached ↦ (cached, m)
        | none ↦
            token_answer up rc.registry
              (db.get_by_account up.user_id up.token_user up.token_password) m
      ]

  unfoldable pub with_registry :
      Stored
      → Option Userinfo
      → Token
      → Result Bytes RegistryCache
      → Manager
      → Result Bytes Attribute × Manager
  with_registry db u t (err e) m = (err e, m)
  with_registry db u t (ok rc) m =
      let found = get_token db u t rc m in (decided t rc found.0, found.1)

  unfoldable pub get_token_with_user :
      Stored → Option Userinfo → Token → Manager → Result Bytes Attribute × Manager
  get_token_with_user db u t m =
      let found = get_registry db t m in with_registry db u t found.0 found.1
