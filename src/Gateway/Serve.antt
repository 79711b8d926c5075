-- ===== src/Gateway/Serve.antt =====
-- pkg/gateway/gateway.go, blob.go and manifest.go: the handler, from a request to what is done with it.
use open_cidn.Base.{
  ℕ, Bool, ◌&&◌, ◌||◌, not, ltb, ◌==◌, if◌then◌else◌, Bytes, bytes, str_eq, has_prefix, Option,
  none, some, List, [], ◌∷◌, ◌++◌, text_eq,
}
use open_cidn.Maps.{get_key, set_key, delete_key}
use open_cidn.Tokens.Token.{Token, no_token}
use open_cidn.Tokens.Authenticator.{Request, Authenticator, authorization}
use open_cidn.Gateway.Location.{hex_escape_non_ascii}
use open_cidn.Gateway.Paths.{
  prefix, slash, PathInfo, path, parse_origin_path_info, add_prefix_to_image_for_pagination,
}

abbrev pub catalog : Bytes
catalog = prefix ++ bytes "_catalog"

pub record ImageInfo : Type 0 where
  pub host : Bytes
  pub name : Bytes

-- What is sent to an origin; `accept` is whether the header with the manifest types is set.
pub record OriginRequest : Type 0 where
  pub method : Bytes
  pub host : Bytes
  pub path : Bytes
  pub accept : Bool

pub record Response : Type 0 where
  pub status_code : ℕ
  pub header : List (Bytes × Bytes)
  pub body : Bytes

-- What is written for a forwarded request: a body with the limit on its rate, or none.
pub record Reply : Type 0 where
  pub status_code : ℕ
  pub header : List (Bytes × Bytes)
  pub body : Option (Bytes × Option ℕ)

-- `http_client` is its `Do`, `none` an error of it or of the request's URL. `encode` is
-- `url.Values.Encode` of the referer and the authorization. Of the two proxies only whether they
-- are there matters here.
pub record Gateway : Type 0 where
  pub http_client : OriginRequest → Option Response
  pub modify : Option (ImageInfo → ImageInfo)
  pub disable_tags_list : Bool
  pub authenticator : Option Authenticator
  pub default_registry : Bytes
  pub override_default_registry : Option (List (Bytes × Bytes))
  pub has_blobs : Bool
  pub has_manifests : Bool
  pub get_ip : Bytes → Bytes
  pub encode : Bytes → Bytes → Bytes

-- The ways in which a request ends. `denied` has the message that is given instead of the usual
-- one, `redirected` the location that is written, `proxied_blob` and `proxied_manifest` are handed to the proxies.
pub data Outcome : Type 0 where
  not_found : Outcome
  unsupported : Outcome
  challenged : Outcome
  api_base : Outcome
  denied : Bytes → Outcome
  unknown : Outcome
  empty_tags_list : Outcome
  redirected : PathInfo → Bytes → Outcome
  proxied_blob : PathInfo → Token → Outcome
  proxied_manifest : PathInfo → Token → Outcome
  forwarded : PathInfo → Reply → Outcome

-- The header of an origin's response, as it is passed on.
unfoldable pub passed_header : Bytes → Response → List (Bytes × Bytes)
passed_header host resp =
    let header = delete_key text_eq (bytes "Docker-Ratelimit-Source") resp.header in
    if resp.status_code == 200
    then elim (get_key text_eq (bytes "Link") header) [
      | none ↦ header
      | some old_link ↦
          if str_eq old_link []
          then header
          else set_key text_eq (bytes "Link") (add_prefix_to_image_for_pagination old_link host)
              header
    ]
    else header

unfoldable pub reply_to : Bytes → PathInfo → Token → Response → Reply
reply_to method info t resp = record {
  status_code = resp.status_code;
  header = passed_header info.host resp;
  body =
      if str_eq method (bytes "HEAD")
      then none
      else some (
        resp.body,
        if ltb 0 t.attribute.rate_limit_per_second
            then some t.attribute.rate_limit_per_second
            else none,
      );
}

unfoldable pub after_response : Bytes → PathInfo → Token → Option Response → Outcome
after_response method info t none = unknown
after_response method info t (some resp) =
    if resp.status_code == 401 || resp.status_code == 403
    then denied []
    else forwarded info (reply_to method info t resp)

unfoldable pub forward : Gateway → Request → PathInfo → Token → Outcome
forward c r info t = elim (path info) [
  | none ↦ unknown
  | some p ↦ after_response r.method info t (
      c.http_client (record {
        method = r.method;
        host = info.host;
        path = p;
        accept = not (str_eq info.manifests []);
      }))
]

-- The agent's URL has a scheme: without one `http.Redirect` would take it as a path.
unfoldable pub blob : Gateway → Request → PathInfo → Token → Bytes → Outcome
blob c r info t auth_data =
    if not (str_eq t.attribute.blobs_agent_url []) && not t.attribute.no_blobs_agent
    then redirected info (
        hex_escape_non_ascii (
          t.attribute.blobs_agent_url
          ++ bytes "/v2/"
          ++ info.host
          ++ slash ∷ info.image
          ++ bytes "/blobs/"
          ++ info.blobs
          ++ bytes "?"
          ++ c.encode r.remote_addr auth_data))
    else if c.has_blobs
    then proxied_blob info t
    else forward c r info t

unfoldable pub manifest : Gateway → Request → PathInfo → Token → Outcome
manifest c r info t = if c.has_manifests then proxied_manifest info t else forward c r info t

-- The registry that is asked when neither the token nor the path names one.
unfoldable pub default_host : Gateway → Request → Bytes
default_host c r = elim c.override_default_registry [
  | none ↦ c.default_registry
  | some m ↦ elim (get_key text_eq r.host m) [ none ↦ c.default_registry | some host ↦ host ]
]

unfoldable pub host_of : Gateway → Request → Token → PathInfo → Bytes
host_of c r t info =
    let host = if str_eq t.attribute.host [] then info.host else t.attribute.host in
    if str_eq host [] then default_host c r else host

-- The query names another registry.
unfoldable pub elsewhere : Request → Bytes → Bool
elsewhere r host =
    let ns = r.query (bytes "ns") in
    not (str_eq r.raw_query []) && (not (str_eq ns []) && not (str_eq ns host))

abbrev pub modified : Option (ImageInfo → ImageInfo) → PathInfo → PathInfo
modified none info = info
modified (some modify) info =
    let n = modify (record { host = info.host; name = info.image }) in
    record info { host = n.host; image = n.name }

-- What is asked for, in the terms of the token and of the gateway.
unfoldable pub resolved : Gateway → Request → Token → PathInfo → PathInfo
resolved c r t info = modified c.modify (record info {
  host = host_of c r t info;
  image = if str_eq t.attribute.image [] then info.image else t.attribute.image;
})

unfoldable pub dispatch : Gateway → Request → Token → Bytes → PathInfo → Outcome
dispatch c r t auth_data info =
    if c.disable_tags_list && (info.tags_list && not t.attribute.allow_tags_list)
    then empty_tags_list
    else if not (str_eq info.blobs [])
    then blob c r info t auth_data
    else if not (str_eq info.manifests [])
    then manifest c r info t
    else forward c r info t

unfoldable pub after_parse : Gateway → Request → Token → Bytes → Option PathInfo → Outcome
after_parse c r t auth_data none = denied []
after_parse c r t auth_data (some info) =
    let host = host_of c r t info in
    if str_eq host [] || elsewhere r host
    then denied []
    else dispatch c r t auth_data (resolved c r t info)

-- What is left when the caller is known.
unfoldable pub admit : Gateway → Request → Token → Bytes → Outcome
admit c r t auth_data = if str_eq r.path prefix then api_base else elim c.authenticator [
  | none ↦ after_parse c r t auth_data (parse_origin_path_info r.path)
  | some a ↦
      if str_eq t.scope []
      then challenged
      else if t.attribute.block
      then denied t.attribute.block_message
      else after_parse c r t auth_data (parse_origin_path_info r.path)
]

unfoldable pub known : Gateway → Bytes → Option (Token × Request) → Outcome
known c auth_data none = challenged
known c auth_data (some (t, r)) = admit c r t auth_data

unfoldable pub serve_http : Gateway → ℕ → Request → Outcome
serve_http c now r =
    if not (has_prefix r.path prefix)
    then not_found
    else if not (str_eq r.method (bytes "GET")) && not (str_eq r.method (bytes "HEAD"))
    then unsupported
    else if str_eq r.path catalog
    then unsupported
    else let r' : Request = record r { remote_addr = c.get_ip r.remote_addr } in
      elim c.authenticator [
        | none ↦ admit c r' no_token r.authorization
        | some a ↦ known c r.authorization (authorization a now r')
      ]
