-- ===== src/Tokens/Token.antt =====
-- pkg/token/encoding.go: what a token says. Instants are seconds from the zero time; `sign` and `verify` of pkg/signing
-- with the JSON of the token are functions that the components are given.
use open_cidn.Base.{ℕ, ℤ, pos, Bool, false, Bytes, []}

pub record Attribute : Type 0 where
  pub user_id : ℤ
  pub registry_id : ℤ
  pub token_id : ℤ
  pub no_rate_limit : Bool
  pub rate_limit_per_second : ℕ
  pub no_allowlist : Bool
  pub no_block : Bool
  pub allow_tags_list : Bool
  pub cache_first : Bool
  pub weight : ℤ
  pub host : Bytes
  pub image : Bytes
  pub no_blobs_agent : Bool
  pub blobs_agent_url : Bytes
  pub always_redirect : Bool
  pub block : Bool
  pub block_message : Bytes

-- The image of the request stands beside the one of the attribute.
pub record Token : Type 0 where
  pub expires_at : ℕ
  pub scope : Bytes
  pub service : Bytes
  pub account : Bytes
  pub ip : Bytes
  pub image : Bytes
  pub attribute : Attribute

-- Go's zero values.
abbrev pub no_attribute : Attribute
no_attribute = record {
  user_id = pos 0;
  registry_id = pos 0;
  token_id = pos 0;
  no_rate_limit = false;
  rate_limit_per_second = 0;
  no_allowlist = false;
  no_block = false;
  allow_tags_list = false;
  cache_first = false;
  weight = pos 0;
  host = [];
  image = [];
  no_blobs_agent = false;
  blobs_agent_url = [];
  always_redirect = false;
  block = false;
  block_message = [];
}

abbrev pub no_token : Token
no_token = record {
  expires_at = 0;
  scope = [];
  service = [];
  account = [];
  ip = [];
  image = [];
  attribute = no_attribute;
}
