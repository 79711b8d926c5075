-- ===== src/Tokens/Cached.antt =====
-- pkg/auth/auth.go: the caches of `GetTokenWithUser` against the database.
use open_cidn.Base.{
  some_inj, ℕ, ◌≡◌, refl, sym, ◌∙◌, ap, inl, inr, Bool-cases, Option-cases, Bytes, Option, none,
  some, Result, ok, err, text_eq,
}
use open_cidn.Manifests.Imc.{Imc}
use open_cidn.Tokens.Token.{Attribute, Token}
use open_cidn.Tokens.Registry.{StoredToken, Registry}
use open_cidn.Tokens.Manager.{
  UserKey, user_key_eq, Userinfo, password_of, RegistryCache, Stored, matcher_of, ttl_of,
  anonymous_token, decided, Manager, registry_answer, get_registry, token_answer, get_token,
  with_registry, get_token_with_user,
}

-- What the database says, with no cache.
abbrev with_matcher_of : Stored → Result Bytes Registry → Result Bytes RegistryCache
with_matcher_of db (err e) = err e
with_matcher_of db (ok r) = ok (matcher_of db r)

unfoldable pub registry_by : Stored → Bytes → Result Bytes RegistryCache
registry_by db domain = with_matcher_of db (db.get_by_domain domain)

unfoldable pub token_by : Stored → UserKey → Result Bytes StoredToken
token_by db up = db.get_by_account up.user_id up.token_user up.token_password

abbrev key_of : Userinfo → RegistryCache → UserKey
key_of u rc = record {
  user_id = rc.registry.user_id;
  token_user = u.username;
  token_password = password_of u;
}

abbrev pub token_of : Stored → Option Userinfo → Token → RegistryCache → Result Bytes StoredToken
token_of db none t rc = anonymous_token t rc.registry
token_of db (some u) t rc = token_by db (key_of u rc)

abbrev pub answer_by :
    Stored → Option Userinfo → Token → Result Bytes RegistryCache → Result Bytes Attribute
answer_by db u t (err e) = err e
answer_by db u t (ok rc) = decided t rc (token_of db u t rc)

module _ (tokens : Imc user_key_eq (Result Bytes StoredToken))
    (registries : Imc text_eq (Result Bytes RegistryCache)) (db : Stored) where
  -- Every entry of the caches is what the database says.
  unfoldable pub IsCurrent : Manager tokens registries → Type 0
  IsCurrent m =
      ((k : Bytes) (v : Result Bytes RegistryCache)
        → registries.get k m.registry_cache ≡ some v
        → v ≡ registry_by db k)
      × ((k : UserKey) (v : Result Bytes StoredToken)
          → tokens.get k m.token_cache ≡ some v
          → v ≡ token_by db k)

  abbrev with_registry_kept :
      Manager tokens registries → Bytes → Result Bytes RegistryCache → ℕ → Manager tokens registries
  with_registry_kept m k v ttl = record m {
    registry_cache = registries.set_with_ttl k v ttl m.registry_cache;
  }

  abbrev with_token_kept :
      Manager tokens registries → UserKey → Result Bytes StoredToken → ℕ → Manager tokens registries
  with_token_kept m k v ttl = record m { token_cache = tokens.set_with_ttl k v ttl m.token_cache }

  registry_kept :
      (m : Manager tokens registries) (k : Bytes) (v : Result Bytes RegistryCache) (ttl : ℕ)
      → IsCurrent m
      → v ≡ registry_by db k
      → IsCurrent (with_registry_kept m k v ttl)
  unfolding IsCurrent
  registry_kept m k v ttl h e = (
    λ j w got.
        let now = sym (registries.get-set_with_ttl k j v ttl m.registry_cache) ∙ got in
        elim (Bool-cases (text_eq.beq k j)) [
          | inl same ↦
              sym (some_inj (rw same at now))
              ∙ e
              ∙ ap (λ (x : Bytes). registry_by db x) ((text_eq.beq_iff k j).0 same)
          | inr apart ↦ h.0 j w (rw apart at now)
        ],
    h.1,
  )

  token_kept :
      (m : Manager tokens registries) (k : UserKey) (v : Result Bytes StoredToken) (ttl : ℕ)
      → IsCurrent m
      → v ≡ token_by db k
      → IsCurrent (with_token_kept m k v ttl)
  unfolding IsCurrent
  token_kept m k v ttl h e = (
    h.0,
    λ j w got.
        let now = sym (tokens.get-set_with_ttl k j v ttl m.token_cache) ∙ got in
        elim (Bool-cases (user_key_eq.beq k j)) [
          | inl same ↦
              sym (some_inj (rw same at now))
              ∙ e
              ∙ ap (λ (x : UserKey). token_by db x) ((user_key_eq.beq_iff k j).0 same)
          | inr apart ↦ h.1 j w (rw apart at now)
        ],
  )

  current_registry :
      (m : Manager tokens registries) (k : Bytes) (v : Result Bytes RegistryCache)
      → IsCurrent m
      → registries.get k m.registry_cache ≡ some v
      → v ≡ registry_by db k
  unfolding IsCurrent
  current_registry m k v h = h.0 k v

  current_token :
      (m : Manager tokens registries) (k : UserKey) (v : Result Bytes StoredToken)
      → IsCurrent m
      → tokens.get k m.token_cache ≡ some v
      → v ≡ token_by db k
  unfolding IsCurrent
  current_token m k v h = h.1 k v

  registry_answer_lem :
      (up : Bytes) (answer : Result Bytes Registry) (m : Manager tokens registries)
      → IsCurrent m
      → with_matcher_of db answer ≡ registry_by db up
      → ((registry_answer tokens registries db up answer m).0 ≡ registry_by db up)
        × IsCurrent (registry_answer tokens registries db up answer m).1
  unfolding registry_answer
  registry_answer_lem up (err e) m h same = (same, registry_kept m up (err e) m.cache_ttl h same)
  registry_answer_lem up (ok r) m h same =
      (same, registry_kept m up (ok (matcher_of db r)) (ttl_of m.cache_ttl r) h same)

  registry_by_lem : (k : Bytes) → registry_by db k ≡ with_matcher_of db (db.get_by_domain k)
  unfolding registry_by
  registry_by_lem k = refl

  get_registry_lem :
      (t : Token) (m : Manager tokens registries)
      → IsCurrent m
      → ((get_registry tokens registries db t m).0 ≡ registry_by db t.service)
        × IsCurrent (get_registry tokens registries db t m).1
  unfolding get_registry
  get_registry_lem t m h = elim (Option-cases (registries.get t.service m.registry_cache)) [
    | inl miss ↦
        rw (get_registry, miss)
          (registry_answer_lem t.service (db.get_by_domain t.service) m h
            (sym (registry_by_lem t.service)))
    | inr hit ↦ rw (get_registry, hit.1) (current_registry m t.service hit.0 h hit.1, h)
  ]

  get_token_lem :
      (u : Option Userinfo) (t : Token) (rc : RegistryCache) (m : Manager tokens registries)
      → IsCurrent m
      → ((get_token tokens registries db u t rc m).0 ≡ token_of db u t rc)
        × IsCurrent (get_token tokens registries db u t rc m).1
  unfolding get_token token_answer token_by
  get_token_lem none t rc m h = (refl, h)
  get_token_lem (some u) t rc m h = elim (Option-cases (tokens.get (key_of u rc) m.token_cache)) [
    | inl miss ↦
        let answer = token_by db (key_of u rc) in
        rw (get_token, miss) (refl, token_kept m (key_of u rc) answer _ h refl)
    | inr hit ↦ rw (get_token, hit.1) (current_token m (key_of u rc) hit.0 h hit.1, h)
  ]

  with_registry_lem :
      (u : Option Userinfo) (t : Token) (answer : Result Bytes RegistryCache)
      (m : Manager tokens registries)
      → IsCurrent m
      → ((with_registry tokens registries db u t answer m).0 ≡ answer_by db u t answer)
        × IsCurrent (with_registry tokens registries db u t answer m).1
  unfolding with_registry
  with_registry_lem u t (err e) m h = (refl, h)
  with_registry_lem u t (ok rc) m h =
      let found = get_token_lem u t rc m h in
      (ap (λ (x : Result Bytes StoredToken). decided t rc x) found.0, found.1)

  -- As long as the caches hold what the database says, `GetTokenWithUser` answers as without them,
  -- and they still do so afterwards.
  pub get_token_with_user_lem :
      (u : Option Userinfo) (t : Token) (m : Manager tokens registries)
      → IsCurrent m
      → ((get_token_with_user tokens registries db u t m).0
          ≡ answer_by db u t (registry_by db t.service))
        × IsCurrent (get_token_with_user tokens registries db u t m).1
  unfolding get_token_with_user
  get_token_with_user_lem u t m h =
      let found = get_registry_lem t m h in
      let answer = get_registry tokens registries db t m in
      let rest = with_registry_lem u t answer.0 answer.1 found.1 in
      (rest.0 ∙ ap (λ (x : Result Bytes RegistryCache). answer_by db u t x) found.0, rest.1)
