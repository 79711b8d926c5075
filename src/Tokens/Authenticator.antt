-- ===== src/Tokens/Authenticator.antt =====
-- pkg/token/authenticator.go: whether a request has a token, and the challenge when it has none.
use open_cidn.Base.{
  ℕ, ◌-◌, Bool, not, ◌||◌, ltb, if◌then◌else◌, Bytes, bytes, str_eq, has_prefix, drop, take, length,
  trim_prefix, split, join, Option, none, some, [], ◌++◌,
}
use open_cidn.Tokens.Token.{Token}

-- What the handlers read of a request: `query` is `r.URL.Query().Get`, `remote_addr` the client's
-- address.
pub record Request : Type 0 where
  pub method : Bytes
  pub path : Bytes
  pub host : Bytes
  pub remote_addr : Bytes
  pub authorization : Bytes
  pub raw_query : Bytes
  pub query : Bytes → Bytes
  pub tls : Bool

-- `decode` is `Decoder.Decode`: the signature is verified and the JSON is read.
pub record Authenticator : Type 0 where
  pub decode : Bytes → Option Token
  pub token_url : Bytes

-- Where the token of a request stands: in the header, or else in the query.
unfoldable pub credentials : Request → Bytes
credentials r =
    if str_eq r.authorization [] then r.query (bytes "authorization") else r.authorization

unfoldable pub unexpired : ℕ → Option Token → Option Token
unexpired now none = none
unexpired now (some t) = if ltb t.expires_at now then none else some t

-- `none` is any of the errors; the token is taken off the request that goes on.
unfoldable pub authorization : Authenticator → ℕ → Request → Option (Token × Request)
authorization c now r =
    let auth = credentials r in
    if str_eq auth []
    then none
    else if not (has_prefix auth (bytes "Bearer "))
    then none
    else elim (unexpired now (c.decode (drop 7 auth))) [
      | none ↦ none
      | some t ↦ some (t, record r { authorization = [] })
    ]

unfoldable pub get_image : Bytes → Option Bytes
get_image path =
    let parts = split 47 (trim_prefix path (bytes "/v2/")) in
    if ltb (length parts) 3 then none else some (join 47 (take (length parts - 2) parts))

-- The header `WWW-Authenticate` of the answer 401. A text in quotes is written as it is, which is
-- what `%q` gives for the printable characters of a URL; `https` is whether the URL has that scheme.
unfoldable pub authenticate : Authenticator → Bool → Request → Bytes
authenticate c https r =
    let scheme = if r.tls || https then bytes "https" else bytes "http" in
    let token_url =
      if str_eq c.token_url []
      then scheme ++ bytes "://" ++ r.host ++ bytes "/auth/token"
      else c.token_url in
    let header =
      bytes "Bearer realm=\"" ++ token_url ++ bytes "\",service=\"" ++ r.host ++ bytes "\"" in
    elim (get_image r.path) [
      | none ↦ header
      | some image ↦ header ++ bytes ",scope=\"repository:" ++ image ++ bytes ":pull\""
    ]
