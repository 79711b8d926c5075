-- ===== src/Examples/Serving.antt =====
-- The theorems on the gateway and on tokens, for a registry that allows the images of
-- docker.io/library.
use open_cidn.Base.{
  ◌≡◌, ◌≢◌, refl, subst, Bool, true, false, if◌then◌else◌, pos, Bytes, bytes, str_eq, has_prefix,
  contains_byte, cut, trim_prefix, split, join, some, none, [], ◌∷◌, ◌++◌, Result, ok, err, text_eq,
}
use open_cidn.Maps.{get_key}
use open_cidn.Manifests.Imc.{Imc, list_imc}
use open_cidn.Tokens.Token.{Token, no_token}
use open_cidn.Tokens.Registry.{TokenAttr, StoredToken, Registry}
use open_cidn.Tokens.Authenticator.{Request, Authenticator, credentials, unexpired, authorization}
use open_cidn.Tokens.Manager.{
  user_key_eq, RegistryCache, Stored, get_host_and_image, attribute_of, with_image, with_matcher,
  decide, Manager, get_token_with_user,
}
use open_cidn.Tokens.Cached.{IsCurrent, registry_by, answer_by, get_token_with_user_lem}
use open_cidn.Tokens.Allowed.{decide_imageless}
use open_cidn.Tokens.Generator.{AuthFlags, with_agent}
use open_cidn.Gateway.Domain.{is_domain_name, scan, scan_byte, scanned, is_name_letter, is_digit}
use open_cidn.Gateway.Paths.{
  PathInfo, with_kind, parse_unhosted, parse_hosted, parse_parts, parse_origin_path_info,
}
use open_cidn.Gateway.Serve.{
  Gateway, Outcome, proxied_manifest, manifest, host_of, elsewhere, modified, resolved, dispatch,
  after_parse, admit, known,
}
use open_cidn.Gateway.Serve
use open_cidn.Gateway.Guard.{fetched, IsGranted, serve_http-IsGranted}
use open_cidn.Gateway.Listed.{IsListed, serve_http-IsAllowed}

abbrev plain : TokenAttr
plain = record {
  no_rate_limit = false;
  rate_limit_per_second = 0;
  weight = pos 0;
  cache_first = false;
  allow_tags_list = false;
  no_allowlist = false;
  no_block = false;
  no_blobs_agent = false;
  blobs_agent_url = [];
  always_redirect = false;
  block = false;
  block_message = [];
}

abbrev mirror : Registry
mirror = record {
  registry_id = pos 1;
  user_id = pos 1;
  domain = bytes "m.io";
  attr = record {
    ttl_second = 0;
    allow_anonymous = true;
    anonymous = plain;
    allow_prefix = true;
    source = bytes "docker.io";
    enable_allowlist = true;
    allowlist = bytes "docker.io/library/" ∷ [];
    allowlist_block_message = [];
    special_ips = [];
  };
}

abbrev in_library : Bytes → Bool
in_library name = has_prefix name (bytes "docker.io/library/")

abbrev cached_mirror : RegistryCache
cached_mirror = record { registry = mirror; images_matcher = some in_library }

abbrev anybody : StoredToken
anybody = record { token_id = pos 0; user_id = pos 1; attr = plain }

abbrev asks_for : Bytes → Token
asks_for image = record no_token {
  service = bytes "m.io";
  scope = bytes "repository:x:pull";
  image = image;
}

-- For no image there is nothing to compare, though nothing but the list is allowed.
decide_imageless_example : decide (asks_for []) cached_mirror anybody ≡ attribute_of anybody mirror
decide_imageless_example = decide_imageless (asks_for []) cached_mirror anybody refl

abbrev database : Stored
database = record {
  get_by_domain = λ domain. if str_eq domain (bytes "m.io") then ok mirror else err (bytes "none");
  get_by_account = λ id user password. err (bytes "none");
  match = λ list name. in_library name;
}

abbrev tokens : Imc user_key_eq (Result Bytes StoredToken)
tokens = list_imc user_key_eq (Result Bytes StoredToken)

abbrev registries : Imc text_eq (Result Bytes RegistryCache)
registries = list_imc text_eq (Result Bytes RegistryCache)

abbrev fresh : Manager tokens registries
fresh = record { token_cache = []; registry_cache = []; cache_ttl = 10 }

fresh-IsCurrent : IsCurrent tokens registries database fresh
unfolding IsCurrent get_key
fresh-IsCurrent = (λ k v h. cc, λ k v h. cc)

get_token_with_user_lem_example :
    ((get_token_with_user tokens registries database none
        (asks_for (bytes "library/busybox"))
        fresh).0
      ≡ answer_by database none
          (asks_for (bytes "library/busybox"))
          (registry_by database (bytes "m.io")))
    × IsCurrent tokens registries database
        (get_token_with_user tokens registries database none
          (asks_for (bytes "library/busybox"))
          fresh).1
get_token_with_user_lem_example =
    get_token_with_user_lem tokens registries database none (asks_for (bytes "library/busybox"))
      fresh fresh-IsCurrent

abbrev flags : AuthFlags
flags = record {
  simple_auth_userpass = [];
  allow_anonymous = true;
  anonymous_rate_limit_per_second = 0;
  get_hosts = [];
}

abbrev granted : Token
granted = record (asks_for (bytes "library/busybox")) {
  expires_at = 100;
  attribute = with_agent flags (decide (asks_for (bytes "library/busybox")) cached_mirror anybody);
}

abbrev door : Authenticator
door = record { decode = λ code. some granted; token_url = [] }

abbrev gateway : Gateway
gateway = record {
  http_client = λ request. none;
  modify = some (λ n. record n {
    host = if str_eq n.host (bytes "docker.io") then bytes "registry-1.docker.io" else n.host;
  });
  disable_tags_list = false;
  authenticator = some door;
  default_registry = [];
  override_default_registry = none;
  has_blobs = true;
  has_manifests = true;
  get_ip = λ s. s;
  encode = λ referer auth. referer;
}

abbrev pub pull : Request
pull = record {
  method = bytes "GET";
  path = bytes "/v2/library/busybox/manifests/latest";
  host = bytes "m.io";
  remote_addr = bytes "10.0.0.1";
  authorization = bytes "Bearer x";
  raw_query = [];
  query = λ key. [];
  tls = true;
}

abbrev busybox : PathInfo
busybox = record {
  host = bytes "registry-1.docker.io";
  image = bytes "library/busybox";
  tags_list = false;
  manifests = bytes "latest";
  is_digest_manifests = false;
  blobs = [];
}

pulled : fetched (Serve.serve_http gateway 50 pull) ≡ some busybox
unfolding Serve.serve_http known admit after_parse dispatch manifest resolved host_of elsewhere
    authorization credentials unexpired has_prefix str_eq with_agent decide attribute_of with_image
    with_matcher get_host_and_image cut is_domain_name scan scan_byte scanned is_name_letter
    is_digit contains_byte parse_origin_path_info parse_parts parse_unhosted with_kind trim_prefix
    split
pulled = refl

serve_http-IsGranted_example : (t : Token) × IsGranted gateway door 50 pull busybox t
serve_http-IsGranted_example = serve_http-IsGranted gateway door 50 pull busybox refl pulled

same_token : (t : Token) → some granted ≡ some t → granted ≡ t
same_token t e = cc

imaged : granted.attribute.image ≢ []
unfolding with_agent decide attribute_of with_image with_matcher get_host_and_image cut str_eq
    has_prefix is_domain_name scan scan_byte scanned is_name_letter is_digit contains_byte
imaged e = cc

granted-IsListed : (code : Bytes) (t : Token) → door.decode code ≡ some t → IsListed in_library t
granted-IsListed code t e =
    subst (λ (u : Token). IsListed in_library u) (same_token t e)
      (
        asks_for (bytes "library/busybox"),
        (cached_mirror, (anybody, (flags, (refl, refl, refl, imaged)))),
      )

serve_http-IsAllowed_example :
    (wanted : PathInfo) × ((busybox ≡ modified gateway.modify wanted)
      × (in_library (wanted.host ++ 47 ∷ wanted.image) ≡ true))
serve_http-IsAllowed_example =
    serve_http-IsAllowed in_library gateway door 50 pull busybox refl granted-IsListed pulled

-- A token for no image fetches an image that is not on the list.
abbrev blank : Token
blank = record (asks_for []) {
  expires_at = 100;
  attribute = with_agent flags (decide (asks_for []) cached_mirror anybody);
}

abbrev open_gateway : Gateway
open_gateway = record gateway {
  authenticator = some (record { decode = λ code. some blank; token_url = [] });
}

abbrev pull_other : Request
pull_other = record pull { path = bytes "/v2/gcr.io/other/manifests/latest" }

abbrev not_listed : PathInfo
not_listed = record busybox { host = bytes "gcr.io"; image = bytes "other" }

past_the_list : fetched (Serve.serve_http open_gateway 50 pull_other) ≡ some not_listed
unfolding Serve.serve_http known admit after_parse dispatch manifest resolved host_of elsewhere
    authorization credentials unexpired has_prefix str_eq with_agent decide attribute_of with_image
    with_matcher get_host_and_image cut is_domain_name scan scan_byte scanned is_name_letter
    is_digit contains_byte parse_origin_path_info parse_parts parse_hosted with_kind trim_prefix
    split join
past_the_list = refl

not_allowed : in_library (bytes "gcr.io/other") ≡ false
unfolding has_prefix
not_allowed = refl
