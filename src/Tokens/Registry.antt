-- ===== src/Tokens/Registry.antt =====
-- pkg/auth/model: the registries and tokens of the database.
use open_cidn.Base.{ℕ, ℤ, Bool, Bytes, List}

pub record TokenAttr : Type 0 where
  pub no_rate_limit : Bool
  pub rate_limit_per_second : ℕ
  pub weight : ℤ
  pub cache_first : Bool
  pub allow_tags_list : Bool
  pub no_allowlist : Bool
  pub no_block : Bool
  pub no_blobs_agent : Bool
  pub blobs_agent_url : Bytes
  pub always_redirect : Bool
  pub block : Bool
  pub block_message : Bytes

-- A row of `tokens`, without the account and the password that it is found by.
pub record StoredToken : Type 0 where
  pub token_id : ℤ
  pub user_id : ℤ
  pub attr : TokenAttr

pub record RegistryAttr : Type 0 where
  pub ttl_second : ℕ
  pub allow_anonymous : Bool
  pub anonymous : TokenAttr
  pub allow_prefix : Bool
  pub source : Bytes
  pub enable_allowlist : Bool
  pub allowlist : List Bytes
  pub allowlist_block_message : Bytes
  pub special_ips : List (Bytes × TokenAttr)

pub record Registry : Type 0 where
  pub registry_id : ℤ
  pub user_id : ℤ
  pub domain : Bytes
  pub attr : RegistryAttr
