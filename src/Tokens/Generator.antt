-- ===== src/Tokens/Generator.antt =====
-- pkg/token/generator.go: the endpoint that issues tokens, with `authFunc` of cmd/auth/auth.go.
use open_cidn.Base.{
  ℕ, ◌+◌, Bool, true, false, ◌&&◌, ◌||◌, not, if◌then◌else◌, Bytes, bytes, str_eq, cut, split_n,
  Option, none, some, List, [], ◌∷◌, Result, ok, err, text_eq,
}
use open_cidn.Maps.{get_key}
use open_cidn.Tokens.Token.{Attribute, Token, no_attribute}
use open_cidn.Tokens.Authenticator.{Request}
use open_cidn.Tokens.Manager.{Userinfo}

-- Why no token is issued.
pub data Refusal : Type 0 where
  invalid_scope : Bytes → Refusal
  read_only : Refusal
  denied : Refusal

-- `auth_func` may write to the token that it is given; `none` is a failed login. `decode_base64`
-- and `encode` are functions of libraries, `none` an error.
pub record Generator : Type 0 where
  pub auth_func : Option (Option Userinfo → Token → Option Attribute)
  pub expires_second : ℕ
  pub encode : Token → Option Bytes
  pub decode_base64 : Bytes → Option Bytes
  pub get_ip : Bytes → Bytes

unfoldable pub parse_basic_auth : (Bytes → Option Bytes) → Bytes → Bytes × Bytes × Bool
parse_basic_auth decode_base64 auth = elim (decode_base64 auth) [
  | none ↦ ([], [], false)
  | some cs ↦ elim (cut 58 cs) [ none ↦ ([], [], false) | some parts ↦ (parts.0, parts.1, true) ]
]

-- The image of a scope `<type>:<image>:pull`.
unfoldable pub scope_image : Bytes → Result Refusal Bytes
scope_image scope = elim (split_n 58 3 scope) [
  | [] ↦ err (invalid_scope scope)
  | kind ∷ rest ↦ elim rest [
    | [] ↦ err (invalid_scope scope)
    | image ∷ rest' ↦ elim rest' [
      | [] ↦ err (invalid_scope scope)
      | access ∷ more ↦ elim more [
        | [] ↦ if str_eq access (bytes "pull") then ok image else err read_only
        | extra ∷ others ↦ err (invalid_scope scope)
      ]
    ]
  ]
]

abbrev pub logged_in : Token → Option Attribute → Result Refusal Token
logged_in t none = err denied
logged_in t (some attr) = ok (record t { attribute = attr })

unfoldable pub login_basic :
    Generator → (Option Userinfo → Token → Option Attribute) → Bytes → Token → Result Refusal Token
login_basic g auth_func code t =
    let (user, pass, found) = parse_basic_auth g.decode_base64 code in
    if str_eq user [] || str_eq pass []
    then err denied
    else if not (str_eq t.account []) && not (str_eq t.account user)
    then err denied
    else let u : Userinfo = record {
      username = user;
      password = if found then some pass else none;
    } in
      logged_in t (auth_func (some u) t)

-- How the caller shows who it is.
unfoldable pub login : Generator → Request → Token → Result Refusal Token
login g r t = elim g.auth_func [
  | none ↦ ok (record t { account = [] })
  | some auth_func ↦
      if str_eq r.authorization []
      then logged_in t (auth_func none t)
      else elim (cut 32 r.authorization) [
        | none ↦ err denied
        | some auth ↦
            if str_eq auth.0 (bytes "Basic") then login_basic g auth_func auth.1 t else err denied
      ]
]

unfoldable pub requested : Generator → Request → Token
requested g r = record {
  expires_at = 0;
  service = r.query (bytes "service");
  scope = r.query (bytes "scope");
  account = r.query (bytes "account");
  ip = g.get_ip r.remote_addr;
  image = [];
  attribute = no_attribute;
}

unfoldable pub get_token : Generator → Request → Result Refusal Token
get_token g r =
    let t = requested g r in
    if str_eq t.scope [] then login g r t else elim (scope_image t.scope) [
      | err e ↦ err e
      | ok image ↦ login g r (record t { image = image })
    ]

pub data Issue : Type 0 where
  unsupported : Issue
  refused : Refusal → Issue
  unknown : Issue
  issued : Bytes → ℕ → ℕ → Issue

unfoldable pub serve_http : Generator → ℕ → Request → Issue
serve_http g now r =
    if not (str_eq r.method (bytes "GET")) then unsupported else elim (get_token g r) [
      | err e ↦ refused e
      | ok t ↦ elim (g.encode (record t { expires_at = now + (g.expires_second + 10) })) [
        | none ↦ unknown
        | some code ↦ issued code g.expires_second now
      ]
    ]

-- The flags of cmd/auth that `authFunc` reads. `get_hosts` is the choice of an agent's URL.
pub record AuthFlags : Type 0 where
  pub simple_auth_userpass : List (Bytes × Bytes)
  pub allow_anonymous : Bool
  pub anonymous_rate_limit_per_second : ℕ
  pub get_hosts : Bytes

-- A user of the flags: `none` if the flags do not have it, else whether the password is right.
unfoldable pub simple_login : AuthFlags → Option Userinfo → Option Bool
simple_login flags none = none
simple_login flags (some u) = elim (get_key text_eq u.username flags.simple_auth_userpass) [
  | none ↦ none
  | some pass ↦ elim u.password [ none ↦ some false | some upass ↦ some (str_eq upass pass) ]
]

unfoldable pub with_agent : AuthFlags → Attribute → Attribute
with_agent flags attr =
    if not attr.block && not attr.no_blobs_agent
    then if str_eq attr.blobs_agent_url []
      then record attr { blobs_agent_url = flags.get_hosts }
      else attr
    else attr

unfoldable pub auth_without_manager : AuthFlags → Option Userinfo → Attribute → Option Attribute
auth_without_manager flags (some u) attr = none
auth_without_manager flags none attr =
    if not flags.allow_anonymous
    then none
    else let limited : Attribute = record attr {
      rate_limit_per_second = flags.anonymous_rate_limit_per_second;
    } in
      if not attr.block && not attr.no_blobs_agent
      then some (record limited { blobs_agent_url = flags.get_hosts })
      else some limited

-- `manager` is `GetTokenWithUser`, if there is a database.
unfoldable pub auth_func :
    AuthFlags
    → Option (Option Userinfo → Token → Result Bytes Attribute)
    → Option Userinfo
    → Token
    → Option Attribute
auth_func flags manager u t = elim (simple_login flags u) [
  | some right ↦
      if right
      then some (
          with_agent flags (record t.attribute {
            no_rate_limit = true;
            no_allowlist = true;
            no_block = true;
            allow_tags_list = true;
          }))
      else none
  | none ↦ elim manager [
    | none ↦ auth_without_manager flags u t.attribute
    | some get_token_with_user ↦ elim (get_token_with_user u t) [
      | err e ↦ none
      | ok attr ↦ some (with_agent flags attr)
    ]
  ]
]
