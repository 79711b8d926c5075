-- ===== src/Gateway/Guard.antt =====
-- pkg/gateway/gateway.go: what a request must have to be answered with content.
use open_cidn.Base.{
  some_inj, ℕ, ◌≡◌, ◌≢◌, refl, sym, ◌∙◌, ap, subst, inl, inr, Bool, true, false, ◌&&◌, not, ltb,
  if◌then◌else◌, Bool-cases, Option-cases, Bytes, bytes, str_eq, str_eq_iff, has_prefix, drop,
  Option, none, some, [], arith,
}
use open_cidn.Tokens.Token.{Token}
use open_cidn.Tokens.Authenticator.{Request, Authenticator, credentials, unexpired, authorization}
use open_cidn.Gateway.Paths.{PathInfo, path, parse_origin_path_info}
use open_cidn.Gateway.Serve.{
  Outcome, not_found, unsupported, challenged, api_base, denied, unknown, empty_tags_list,
  redirected, proxied_blob, proxied_manifest, forwarded, Gateway, Response, catalog, after_response,
  forward, blob, manifest, host_of, elsewhere, resolved, dispatch, after_parse, admit, known,
  serve_http,
}

-- What a request gets content of: it is handed to an agent or to a proxy, or the origin's answer is
-- passed on.
abbrev pub fetched : Outcome → Option PathInfo
fetched not_found = none
fetched unsupported = none
fetched challenged = none
fetched api_base = none
fetched (denied message) = none
fetched unknown = none
fetched empty_tags_list = none
fetched (redirected info url) = some info
fetched (proxied_blob info t) = some info
fetched (proxied_manifest info t) = some info
fetched (forwarded info reply) = some info

-- Under a guard that refuses, what gets content is behind it.
past :
    (b : Bool) (stop go : Outcome) (i : PathInfo)
    → fetched stop ≡ none
    → fetched (if b then stop else go) ≡ some i
    → (b ≡ false) × (fetched go ≡ some i)
past true stop go i s h = cc (sym s ∙ h)
past false stop go i s h = (refl, h)

module _ (c : Gateway) (r : Request) (t : Token) (i : PathInfo) where
  after_response_lem :
      (info : PathInfo) (answer : Option Response)
      → fetched (after_response r.method info t answer) ≡ some i
      → i ≡ info
  unfolding after_response
  after_response_lem info none h = cc
  after_response_lem info (some resp) h =
      sym (some_inj (past _ (denied []) (forwarded info _) i refl h).1)

  forward_lem : (info : PathInfo) → fetched (forward c r info t) ≡ some i → i ≡ info
  unfolding forward
  forward_lem info h = elim (Option-cases (path info)) [
    | inl e ↦ cc (rw (forward, e) at h)
    | inr e ↦ after_response_lem info _ (rw (forward, e.1) at h)
  ]

  blob_lem : (info : PathInfo) (d : Bytes) → fetched (blob c r info t d) ≡ some i → i ≡ info
  unfolding blob
  blob_lem info d h = ground (arith, h, forward_lem info)

  manifest_lem : (info : PathInfo) → fetched (manifest c r info t) ≡ some i → i ≡ info
  unfolding manifest
  manifest_lem info h = ground (arith, h, forward_lem info)

  dispatch_lem : (d : Bytes) (info : PathInfo) → fetched (dispatch c r t d info) ≡ some i → i ≡ info
  unfolding dispatch
  dispatch_lem d info h = ground (arith, h, blob_lem info d, manifest_lem info, forward_lem info)

  -- The path is understood, a registry is found, and the query does not name another one.
  abbrev pub IsResolved : Option PathInfo → Type 0
  IsResolved parsed =
      (info : PathInfo) × ((parsed ≡ some info)
        × (i ≡ resolved c r t info)
        × (host_of c r t info ≢ [])
        × (elsewhere r (host_of c r t info) ≡ false))

  after_parse_lem :
      (d : Bytes) (parsed : Option PathInfo)
      → fetched (after_parse c r t d parsed) ≡ some i
      → IsResolved parsed
  unfolding after_parse
  after_parse_lem d none h = cc
  after_parse_lem d (some info) h =
      let (guard, rest) = past _ (denied []) (dispatch c r t d (resolved c r t info)) i refl h in
      let there : str_eq (host_of c r t info) [] ≡ false = ground (arith, guard) in
      let here : elsewhere r (host_of c r t info) ≡ false = ground (arith, guard) in
      (
        info,
        (
          refl,
          dispatch_lem d (resolved c r t info) rest,
          (λ e. cc ((str_eq_iff (host_of c r t info) []).1 e)),
          here,
        ),
      )

  admit_lem :
      (d : Bytes) (a : Authenticator)
      → c.authenticator ≡ some a
      → fetched (admit c r t d) ≡ some i
      → (t.scope ≢ []) × (t.attribute.block ≡ false) × IsResolved (parse_origin_path_info r.path)
  unfolding admit
  admit_lem d a e h =
      let rest = after_parse c r t d (parse_origin_path_info r.path) in
      let unblocked = if t.attribute.block then denied t.attribute.block_message else rest in
      let scoped = if str_eq t.scope [] then challenged else unblocked in
      let (_, k) = past _ api_base scoped i refl (rw (admit, e) at h) in
      let (there, l) = past _ challenged unblocked i refl k in
      let (free, m) = past _ (denied t.attribute.block_message) rest i refl l in
      (
        (λ s. cc (sym there ∙ (str_eq_iff t.scope []).1 s)),
        free,
        after_parse_lem d (parse_origin_path_info r.path) m,
      )

-- The request carries the token: decoded, behind `Bearer `, and not expired.
abbrev pub IsBearer : Authenticator → ℕ → Request → Token → Type 0
IsBearer a now r t =
    (a.decode (drop 7 (credentials r)) ≡ some t)
    × (has_prefix (credentials r) (bytes "Bearer ") ≡ true)
    × (ltb t.expires_at now ≡ false)

unexpired_lem :
    (now : ℕ) (o : Option Token) (t : Token)
    → unexpired now o ≡ some t
    → (o ≡ some t) × (ltb t.expires_at now ≡ false)
unfolding unexpired
unexpired_lem now none t h = cc
unexpired_lem now (some u) t h = elim (Bool-cases (ltb u.expires_at now)) [
  | inl e ↦ cc (rw e at h)
  | inr e ↦
      let same : some u ≡ some t = rw e at h in
      (same, subst (λ (v : Token). ltb v.expires_at now ≡ false) (some_inj same) e)
]

authorization_lem :
    (a : Authenticator) (now : ℕ) (r r' : Request) (t : Token)
    → authorization a now r ≡ some (t, r')
    → IsBearer a now r t × (r' ≡ record r { authorization = [] })
unfolding authorization
authorization_lem a now r r' t h = elim (Bool-cases (str_eq (credentials r) [])) [
  | inl e ↦ cc (rw (authorization, e) at h)
  | inr e ↦ elim (Bool-cases (has_prefix (credentials r) (bytes "Bearer "))) [
    | inr f ↦ cc (rw (authorization, e, f) at h)
    | inl f ↦ elim (Option-cases (unexpired now (a.decode (drop 7 (credentials r))))) [
      | inl g ↦ cc (rw (authorization, e, f, g) at h)
      | inr g ↦
          let same = some_inj (rw (authorization, e, f, g.1) at h) in
          let (decoded, fresh) = unexpired_lem now _ g.0 g.1 in
          let same_token : g.0 ≡ t = ap (λ (p : Token × Request). p.0) same in
          (
            subst (λ (v : Token). IsBearer a now r v) same_token (decoded, f, fresh),
            sym (ap (λ (p : Token × Request). p.1) same),
          )
    ]
  ]
]

-- The request as it goes on behind the authorization.
abbrev pub authorized : Gateway → Request → Request
authorized c r = record r { remote_addr = c.get_ip r.remote_addr; authorization = [] }

abbrev pub IsGranted : Gateway → Authenticator → ℕ → Request → PathInfo → Token → Type 0
IsGranted c a now r i t =
    IsBearer a now r t
    × (t.scope ≢ [])
    × (t.attribute.block ≡ false)
    × IsResolved c (authorized c r) t i (parse_origin_path_info r.path)

known_lem :
    (c : Gateway) (a : Authenticator) (now : ℕ) (r : Request) (i : PathInfo)
    → c.authenticator ≡ some a
    → fetched (
        known c r.authorization
          (authorization a now (record r { remote_addr = c.get_ip r.remote_addr })))
      ≡ some i
    → (t : Token) × IsGranted c a now r i t
unfolding known credentials
known_lem c a now r i e h =
    let r' : Request = record r { remote_addr = c.get_ip r.remote_addr } in
    elim (Option-cases (authorization a now r')) [
      | inl none_left ↦ cc (rw (known, none_left) at h)
      | inr got ↦
          let t = got.0.0 in
          let (bearer, same) = authorization_lem a now r' got.0.1 t got.1 in
          let k : fetched (admit c (authorized c r) t r.authorization) ≡ some i =
            rw same at (rw (known, got.1) at h) in
          let (scoped, free, way) = admit_lem c (authorized c r) t i r.authorization a e k in
          (t, (bearer, scoped, free, way))
    ]

-- With an authenticator, whoever gets content has sent a token that is decoded, has not expired, has
-- a scope and is not blocked; the path is understood, some registry is found for it, the query names
-- no other registry, and the content is the one that token, path and gateway resolve to.
pub serve_http-IsGranted :
    (c : Gateway) (a : Authenticator) (now : ℕ) (r : Request) (i : PathInfo)
    → c.authenticator ≡ some a
    → fetched (serve_http c now r) ≡ some i
    → (t : Token) × IsGranted c a now r i t
unfolding serve_http
serve_http-IsGranted c a now r i e h =
    let r' : Request = record r { remote_addr = c.get_ip r.remote_addr } in
    let last = known c r.authorization (authorization a now r') in
    let third = if str_eq r.path catalog then unsupported else last in
    let wrong = not (str_eq r.method (bytes "GET")) && not (str_eq r.method (bytes "HEAD")) in
    let second = if wrong then unsupported else third in
    let (_, k) = past _ not_found second i refl (rw (serve_http, e) at h) in
    let (_, l) = past wrong unsupported third i refl k in
    let (_, m) = past _ unsupported last i refl l in known_lem c a now r i e m
