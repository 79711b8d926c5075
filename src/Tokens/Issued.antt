-- ===== src/Tokens/Issued.antt =====
-- pkg/token: the tokens that `Generator.ServeHTTP` issues against `Authenticator.Authorization`.
use open_cidn.Base.{
  ℕ, ◌+◌, ◌≡◌, refl, sym, ◌∙◌, ap, subst, inl, inr, false, ltb, Bool-cases, Option-cases, Bytes,
  bytes, str_eq, has_prefix, none, some, [], ◌++◌, Result, ok, err,
}
use open_cidn.Tokens.Token.{Token}
use open_cidn.Tokens.Authenticator.{Request, Authenticator, credentials, unexpired, authorization}
use open_cidn.Tokens.Generator.{
  Generator, Refusal, Issue, issued, refused, unknown, get_token, serve_http,
}

abbrev pub stamped : Generator → ℕ → Token → Token
stamped g now t = record t { expires_at = now + (g.expires_second + 10) }

issued_inj : {c d : Bytes} {e f m n : ℕ} → issued c e m ≡ issued d f n → (c ≡ d) × (e ≡ f)
issued_inj h = (cc, cc)

-- What is issued encodes the token of the request, with the time at which it expires.
serve_http_lem :
    (g : Generator) (now : ℕ) (r : Request) (code : Bytes) (e at : ℕ)
    → serve_http g now r ≡ issued code e at
    → (t : Token) × ((get_token g r ≡ ok t)
        × (g.encode (stamped g now t) ≡ some code)
        × (e ≡ g.expires_second))
unfolding serve_http
serve_http_lem g now r code e at h = elim (Bool-cases (str_eq r.method (bytes "GET"))) [
  | inr other ↦ cc (rw (serve_http, other) at h)
  | inl get ↦ by_token (get_token g r) refl (rw (serve_http, get) at h)
]
  where
    by_token :
        (answer : Result Refusal Token)
        → get_token g r ≡ answer
        → (elim answer as (λ x. Issue) [
          | err e ↦ refused e
          | ok t ↦ elim (g.encode (stamped g now t)) as (λ x. Issue) [
            | none ↦ unknown
            | some code ↦ issued code g.expires_second now
          ]
        ])
          ≡ issued code e at
        → (t : Token) × ((get_token g r ≡ ok t)
            × (g.encode (stamped g now t) ≡ some code)
            × (e ≡ g.expires_second))
    by_token (err x) same k = cc
    by_token (ok t) same k = elim (Option-cases (g.encode (stamped g now t))) [
      | inl e ↦ cc (rw e at k)
      | inr e ↦
          let (same_code, same_life) = issued_inj (rw e.1 at k) in
          (t, (same, e.1 ∙ ap (λ (x : Bytes). some x) same_code, sym same_life))
    ]

bearer_lem :
    (a : Authenticator) (now : ℕ) (r : Request) (code : Bytes) (t : Token)
    → credentials r ≡ bytes "Bearer " ++ code
    → a.decode code ≡ some t
    → ltb t.expires_at now ≡ false
    → authorization a now r ≡ some (t, record r { authorization = [] })
unfolding authorization unexpired has_prefix str_eq
bearer_lem a now r code t c d e = rw (authorization, c) (rw d (rw e refl))

-- A token that is issued at a time is accepted until ten seconds after the life that is told with
-- it, if the code of the request's token is decoded to it and the other request carries that code
-- behind `Bearer `; it is accepted as the token of the request that it was issued for.
pub authorization-serve_http :
    (g : Generator) (a : Authenticator) (now later : ℕ) (r r' : Request) (code : Bytes)
    (life at : ℕ)
    → ((t : Token)
        → get_token g r ≡ ok t
        → g.encode (stamped g now t) ≡ some code
        → a.decode code ≡ some (stamped g now t))
    → serve_http g now r ≡ issued code life at
    → credentials r' ≡ bytes "Bearer " ++ code
    → ltb (now + (life + 10)) later ≡ false
    → (t : Token) × ((get_token g r ≡ ok t)
        × (authorization a later r'
            ≡ some (record t { expires_at = now + (life + 10) }, record r' { authorization = [] })))
authorization-serve_http g a now later r r' code life at codec h c fresh =
    let (t, (got, coded, same)) = serve_http_lem g now r code life at h in
    let in_time : ltb (stamped g now t).expires_at later ≡ false =
      subst (λ (n : ℕ). ltb (now + (n + 10)) later ≡ false) same fresh in
    let accepted = bearer_lem a later r' code (stamped g now t) c (codec t got coded) in_time in
    (
      t,
      (
        got,
        subst
            (λ (n : ℕ).
              authorization a later r'
              ≡ some (record t { expires_at = now + (n + 10) }, record r' { authorization = [] }))
            (sym same) accepted,
      ),
    )
