-- ===== src/Examples/Issuing.antt =====
-- The theorem on the tokens that are issued, for a token of five minutes.
use open_cidn.Base.{
  ◌≡◌, refl, sym, ◌∙◌, subst, if◌then◌else◌, bytes, str_eq, split_n, some, none, [], ◌++◌, Result,
  ok,
}
use open_cidn.Tokens.Token.{Token, no_token}
use open_cidn.Tokens.Authenticator.{Request, Authenticator, credentials, authorization}
use open_cidn.Tokens.Generator.{
  Generator, issued, serve_http, get_token, requested, login, scope_image, Refusal,
}
use open_cidn.Tokens.Issued.{stamped, authorization-serve_http}
use open_cidn.Examples.Serving.{pull}

abbrev asked : Request
asked = record pull {
  path = bytes "/auth/token";
  authorization = [];
  query = λ key. if str_eq key (bytes "scope") then bytes "repository:a:pull" else [];
}

abbrev given : Token
given = record no_token {
  scope = bytes "repository:a:pull";
  ip = bytes "10.0.0.1";
  image = bytes "a";
}

abbrev issuer : Generator
issuer = record {
  auth_func = none;
  expires_second = 300;
  encode = λ t. some (bytes "x");
  decode_base64 = λ s. some s;
  get_ip = λ s. s;
}

abbrev reader : Authenticator
reader = record { decode = λ code. some (record given { expires_at = 360 }); token_url = [] }

given_lem : get_token issuer asked ≡ ok given
unfolding get_token requested login scope_image split_n str_eq
given_lem = refl

ok_inj : (t u : Token) → ◌≡◌ {A = Result Refusal Token} (ok t) (ok u) → t ≡ u
ok_inj t u e = cc

reads_back :
    (t : Token)
    → get_token issuer asked ≡ ok t
    → issuer.encode (stamped issuer 50 t) ≡ some (bytes "x")
    → reader.decode (bytes "x") ≡ some (stamped issuer 50 t)
reads_back t e h =
    let same : given ≡ t = ok_inj given t (sym given_lem ∙ e) in
    subst (λ (u : Token). some (record given { expires_at = 360 }) ≡ some (stamped issuer 50 u))
      same refl

was_issued : serve_http issuer 50 asked ≡ issued (bytes "x") 300 50
unfolding serve_http get_token requested login scope_image split_n str_eq
was_issued = refl

carried : credentials pull ≡ bytes "Bearer " ++ bytes "x"
unfolding credentials str_eq
carried = refl

authorization-serve_http_example :
    (t : Token) × ((get_token issuer asked ≡ ok t)
      × (authorization reader 359 pull
          ≡ some (record t { expires_at = 360 }, record pull { authorization = [] })))
authorization-serve_http_example =
    authorization-serve_http issuer reader 50 359 asked pull (bytes "x") 300 50 reads_back
      was_issued carried refl
