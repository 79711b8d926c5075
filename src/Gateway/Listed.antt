-- ===== src/Gateway/Listed.antt =====
-- pkg/auth/auth.go and pkg/gateway/gateway.go together: what is fetched with the tokens of a
-- registry that has a list of allowed images.
use open_cidn.Base.{
  ℕ, ◌≡◌, ◌≢◌, refl, sym, ◌∙◌, ap, Bool, true, false, Bytes, str_eq, some, [], ◌∷◌, ◌++◌, arith,
  drop,
}
use open_cidn.Tokens.Token.{Attribute, Token}
use open_cidn.Tokens.Registry.{StoredToken}
use open_cidn.Tokens.Authenticator.{Request, Authenticator, credentials}
use open_cidn.Tokens.Manager.{RegistryCache, decide}
use open_cidn.Tokens.Allowed.{str_eq_nil, decide-IsAllowed, decide-IsPaired}
use open_cidn.Tokens.Generator.{AuthFlags, with_agent}
use open_cidn.Gateway.Paths.{PathInfo}
use open_cidn.Gateway.Serve.{Gateway, host_of, modified, resolved, serve_http}
use open_cidn.Gateway.Guard.{fetched, authorized, serve_http-IsGranted}

with_agent_kept :
    (flags : AuthFlags) (attr : Attribute)
    → ((with_agent flags attr).host ≡ attr.host)
      × ((with_agent flags attr).image ≡ attr.image)
      × ((with_agent flags attr).block ≡ attr.block)
unfolding with_agent
with_agent_kept flags attr = (ground arith, ground arith, ground arith)

-- The token is one that the registry with this matcher gave for an image, to somebody who is held to
-- the list.
abbrev pub IsListed : (Bytes → Bool) → Token → Type 0
IsListed match t =
    (t0 : Token) × ((rc : RegistryCache) × ((tok : StoredToken) × ((flags : AuthFlags)
          × ((t.attribute ≡ with_agent flags (decide t0 rc tok))
              × (rc.images_matcher ≡ some match)
              × (tok.attr.no_allowlist ≡ false)
              × (t.attribute.image ≢ [])))))

abbrev full_name : Bytes → Bytes → Bytes
full_name host image = host ++ 47 ∷ image

listed_lem :
    (match : Bytes → Bool) (t : Token)
    → IsListed match t
    → t.attribute.block ≡ false
    → (str_eq t.attribute.host [] ≡ false)
      × (str_eq t.attribute.image [] ≡ false)
      × (match (full_name t.attribute.host t.attribute.image) ≡ true)
listed_lem match t (t0, (rc, (tok, (flags, (e, m, a, i))))) b =
    let (h, g, k) = with_agent_kept flags (decide t0 rc tok) in
    let same_host : t.attribute.host ≡ (decide t0 rc tok).host =
      ap (λ (x : Attribute). x.host) e ∙ h in
    let same_image : t.attribute.image ≡ (decide t0 rc tok).image =
      ap (λ (x : Attribute). x.image) e ∙ g in
    let free : (decide t0 rc tok).block ≡ false = sym (ap (λ (x : Attribute). x.block) e ∙ k) ∙ b in
    let there : (decide t0 rc tok).image ≢ [] = λ n. i (same_image ∙ n) in
    rw (same_host, same_image)
      (
        decide-IsPaired t0 rc tok match m free (str_eq_nil (decide t0 rc tok).image there),
        str_eq_nil (decide t0 rc tok).image there,
        decide-IsAllowed t0 rc tok match m a free there,
      )

-- The token's host and image, before the gateway changes names.
abbrev named : Token → PathInfo → PathInfo
named t info = record info { host = t.attribute.host; image = t.attribute.image }

resolved_lem :
    (c : Gateway) (r : Request) (t : Token) (info : PathInfo)
    → str_eq t.attribute.host [] ≡ false
    → str_eq t.attribute.image [] ≡ false
    → resolved c r t info ≡ modified c.modify (named t info)
unfolding host_of resolved
resolved_lem c r t info h i = rw h (rw h (rw i refl))

-- A gateway whose tokens all come from one registry with an enabled list, for images and for users
-- who are held to the list, hands out only what it calls an image on that list: what is fetched is
-- such an image, under the name that the gateway's function for names, if there is one, makes of it.
pub serve_http-IsAllowed :
    (match : Bytes → Bool) (c : Gateway) (a : Authenticator) (now : ℕ) (r : Request) (i : PathInfo)
    → c.authenticator ≡ some a
    → ((code : Bytes) (t : Token) → a.decode code ≡ some t → IsListed match t)
    → fetched (serve_http c now r) ≡ some i
    → (asked : PathInfo) × ((i ≡ modified c.modify asked)
        × (match (asked.host ++ 47 ∷ asked.image) ≡ true))
serve_http-IsAllowed match c a now r i e listed h =
    let (t, (bearer, scoped, free, (info, (parsed, same, there, here)))) =
      serve_http-IsGranted c a now r i e h in
    let (hosted, imaged, allowed) =
      listed_lem match t (listed (drop 7 (credentials r)) t bearer.0) free in
    (named t info, (same ∙ resolved_lem c (authorized c r) t info hosted imaged, allowed))
