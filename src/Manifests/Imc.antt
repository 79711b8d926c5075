-- ===== src/Manifests/Imc.antt =====
-- github.com/wzshiming/imc, of which the caches of manifests, blobs, registries and tokens use
-- `Get`, `Set`, `SetWithTTL` and `Remove`: a map whose entries go away after a time. The laws are those of a moment in which no
-- entry goes away.
use open_cidn.Base.{ℕ, ◌≡◌, if◌then◌else◌, Option, none, some, List, [], Eq}
use open_cidn.Maps.{get_key, set_key, delete_key, get_key-nil, get_key-set_key, get_key-delete_key}

pub record Imc {K : Type 0} (eq : Eq K) (V : Type 0) : Type 1 where
  pub State : Type 0
  pub new : State
  pub get : K → State → Option V
  pub set_with_ttl : K → V → ℕ → State → State
  pub set : K → V → State → State
  pub remove : K → State → State
  pub get-new : (k : K) → get k new ≡ none
  pub get-set_with_ttl :
      (k j : K) (v : V) (ttl : ℕ) (s : State)
      → get j (set_with_ttl k v ttl s) ≡ (if eq.beq k j then some v else get j s)
  pub get-set :
      (k j : K) (v : V) (s : State) → get j (set k v s) ≡ (if eq.beq k j then some v else get j s)
  pub get-remove :
      (k j : K) (s : State) → get j (remove k s) ≡ (if eq.beq k j then none else get j s)

-- An association list is one.
abbrev pub list_imc : {K : Type 0} (eq : Eq K) (V : Type 0) → Imc eq V
list_imc {K} eq V = record {
  State = List (K × V);
  new = [];
  get = get_key eq;
  set_with_ttl = λ k v ttl m. set_key eq k v m;
  set = set_key eq;
  remove = delete_key eq;
  get-new = λ k. get_key-nil eq V k;
  get-set_with_ttl = λ k j v ttl m. get_key-set_key eq k j v m;
  get-set = get_key-set_key eq;
  get-remove = λ k j m. get_key-delete_key eq k j m;
}
