-- ===== src/Storage/Links.antt =====
-- `Redirect` of pkg/cache/cache.go: the URL under which a client gets a stored blob by itself.
use open_cidn.Base.{Bool, not, if◌then◌else◌, Bytes, bytes, Option, none, some, trim_prefix}
use open_cidn.Storage.Paths.{blob_cache_path}

-- How the base of the redirect links, if there is one, resolves a path, and how a signed URL is moved
-- to its scheme and host.
pub record Base : Type 0 where
  pub parse : Bytes → Option Bytes
  pub move : Bytes → Option Bytes

-- `sign_get` is the storage's.
pub record Links : Type 0 where
  pub sign_link : Bool
  pub redirect_links : Option Base
  pub sign_get : Bytes → Option Bytes

unfoldable pub moved : Option Base → Bytes → Bytes
moved none u = u
moved (some base) u = elim (base.move u) [ none ↦ u | some uri ↦ uri ]

unfoldable pub signed : Links → Bytes → Option Bytes
signed c blob_path = elim (c.sign_get blob_path) [
  | none ↦ none
  | some u ↦ some (moved c.redirect_links u)
]

-- The referer is not used.
unfoldable pub redirect : Links → Bytes → Bytes → Option Bytes
redirect c blob_path referer = elim c.redirect_links [
  | none ↦ signed c blob_path
  | some base ↦
      if not c.sign_link then base.parse (trim_prefix blob_path (bytes "/")) else signed c blob_path
]

unfoldable pub redirect_blob : Links → Bytes → Bytes → Option Bytes
redirect_blob c blob referer = redirect c (blob_cache_path blob) referer
