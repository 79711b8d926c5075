-- ===== src/Gateway/Location.antt =====
-- What Go's net/http and net/url do with a URL on its way: the location of a redirection is written,
-- and the server that is sent to reads the path of it.
use open_cidn.Base.{
  ℕ, ◌+◌, ◌-◌, ◌*◌, ◌/◌, ◌%◌, ◌≡◌, refl, ◌∙◌, ap, inl, inr, Bool-cases, Bool, true, false, ◌&&◌,
  ◌||◌, not, ltb, leb, ◌==◌, if◌then◌else◌, Bytes, bytes, has_prefix, contains_byte, cut,
  cut-append, cut_text, Option, none, some, [], ◌∷◌, ◌++◌, arith,
}

hex_digit : ℕ → ℕ
hex_digit n = if ltb n 10 then 48 + n else 87 + n

-- `hexEscapeNonASCII`, which `http.Redirect` applies to a location that has a scheme.
unfoldable pub hex_escape_non_ascii : Bytes → Bytes
unfolding hex_digit
hex_escape_non_ascii [] = []
hex_escape_non_ascii (b ∷ s) =
    let rest = hex_escape_non_ascii s in
    if leb 128 b then 37 ∷ hex_digit (b / 16) ∷ hex_digit (b % 16) ∷ rest else b ∷ rest

hex_value : ℕ → Option ℕ
hex_value c =
    if leb 48 c && ltb c 58
    then some (c - 48)
    else if leb 97 c && ltb c 103
    then some (c - 87)
    else if leb 65 c && ltb c 71
    then some (c - 55)
    else none

abbrev joined : Option ℕ → Option ℕ → Option Bytes → Option Bytes
joined (some h) (some l) (some rest) = some ((h * 16 + l) ∷ rest)
joined h l rest = none

abbrev onto : ℕ → Option Bytes → Option Bytes
onto b none = none
onto b (some rest) = some (b ∷ rest)

-- `url.PathUnescape`; `none` is an error.
unfoldable pub unescape : Bytes → Option Bytes
unfolding hex_value
unescape [] = some []
unescape (b ∷ []) = if b == 37 then none else some (b ∷ [])
unescape (b ∷ h ∷ []) = if b == 37 then none else onto b (unescape (h ∷ []))
unescape (b ∷ h ∷ l ∷ s) =
    let short = unescape s in
    let long = unescape (h ∷ l ∷ s) in
    if b == 37 then joined (hex_value h) (hex_value l) short else onto b long

-- What is before the query and the fragment.
unfoldable pub before_query : Bytes → Bytes
before_query [] = []
before_query (b ∷ s) = let rest = before_query s in if b == 63 || b == 35 then [] else b ∷ rest

abbrev path_after : Option (Bytes × Bytes) → Option Bytes
path_after none = some []
path_after (some parts) = unescape (before_query (47 ∷ parts.1))

abbrev path_behind : Option (Bytes × Bytes) → Option Bytes
path_behind none = none
path_behind (some parts) = path_after (cut 47 parts.1)

-- The path of a URL with a scheme, as the server that it names reads it.
unfoldable pub url_path : Bytes → Option Bytes
url_path url = path_behind (cut_text (bytes "://") url)

-- A byte that none of this changes or reads.
abbrev pub plain_byte : ℕ → Bool
plain_byte b = ltb b 128 && (not (b == 37) && (not (b == 63) && not (b == 35)))

abbrev pub is_plain : Bytes → Bool
is_plain [] = true
is_plain (b ∷ s) = plain_byte b && is_plain s

pub is_plain-append :
    (s t : Bytes) → is_plain s ≡ true → is_plain t ≡ true → is_plain (s ++ t) ≡ true
is_plain-append [] t h k = k
is_plain-append (b ∷ s) t h k =
    let rest = is_plain-append s t (ground (arith, h)) k in ground (arith, h, rest)

pub hex_escape_non_ascii-append :
    (s t : Bytes) → hex_escape_non_ascii (s ++ t) ≡ hex_escape_non_ascii s ++ hex_escape_non_ascii t
unfolding hex_escape_non_ascii
hex_escape_non_ascii-append [] t = refl
hex_escape_non_ascii-append (b ∷ s) t = elim (Bool-cases (leb 128 b)) [
  | inl far ↦ rw far (rw (hex_escape_non_ascii-append s t) refl)
  | inr near ↦ rw near (rw (hex_escape_non_ascii-append s t) refl)
]

pub hex_escape_non_ascii_lem : (s : Bytes) → is_plain s ≡ true → hex_escape_non_ascii s ≡ s
unfolding hex_escape_non_ascii
hex_escape_non_ascii_lem [] h = refl
hex_escape_non_ascii_lem (b ∷ s) h =
    let near : leb 128 b ≡ false = ground (arith, h) in
    rw near (ap (λ (l : Bytes). b ∷ l) (hex_escape_non_ascii_lem s (ground (arith, h))))

unescape_lem : (s : Bytes) → is_plain s ≡ true → unescape s ≡ some s
unfolding unescape
unescape_lem [] h = refl
unescape_lem (b ∷ []) h = let plain : (b == 37) ≡ false = ground (arith, h) in rw plain refl
unescape_lem (b ∷ c ∷ []) h =
    let plain : (b == 37) ≡ false = ground (arith, h) in
    rw plain (ap (onto b) (unescape_lem (c ∷ []) (ground (arith, h))))
unescape_lem (b ∷ c ∷ e ∷ s) h =
    let plain : (b == 37) ≡ false = ground (arith, h) in
    rw plain (ap (onto b) (unescape_lem (c ∷ e ∷ s) (ground (arith, h))))

before_query_lem : (s t : Bytes) → is_plain s ≡ true → before_query (s ++ 63 ∷ t) ≡ s
unfolding before_query
before_query_lem [] t h = refl
before_query_lem (b ∷ s) t h =
    let inside : (b == 63 || b == 35) ≡ false = ground (arith, h) in
    rw inside (ap (λ (l : Bytes). b ∷ l) (before_query_lem s t (ground (arith, h))))

cut_text_lem :
    (s t : Bytes)
    → contains_byte 58 s ≡ false
    → cut_text (bytes "://") (s ++ 58 ∷ 47 ∷ 47 ∷ t) ≡ some (s, t)
unfolding cut_text has_prefix contains_byte
cut_text_lem [] t h = refl
cut_text_lem (b ∷ s) t h =
    let other : (b == 58) ≡ false = ground (arith, h) in
    rw other (rw (cut_text_lem s t (ground (arith, h))) refl)

-- The path of a URL is what stands between the host and the query, if nothing in it is escaped.
pub url_path_lem :
    (scheme authority path query : Bytes)
    → contains_byte 58 scheme ≡ false
    → contains_byte 47 authority ≡ false
    → is_plain (47 ∷ path) ≡ true
    → url_path (scheme ++ 58 ∷ 47 ∷ 47 ∷ (authority ++ 47 ∷ (path ++ 63 ∷ query)))
      ≡ some (47 ∷ path)
unfolding url_path
url_path_lem scheme authority path query h k plain =
    ap path_behind (cut_text_lem scheme (authority ++ 47 ∷ (path ++ 63 ∷ query)) h)
    ∙ ap path_after (cut-append 47 authority (path ++ 63 ∷ query) k)
    ∙ ap unescape (before_query_lem (47 ∷ path) query plain)
    ∙ unescape_lem (47 ∷ path) plain
