-- ===== src/Base/Strings.antt =====
-- Functions of Go's package `strings` on lists of bytes.
use Prim.Native.Nat.{ℕ, zero, suc}
use mathlib.Core.Path.{◌≡◌, refl, ap}
use mathlib.Core.Logic.{inl, inr}
use mathlib.Core.Bool.{Bool, true, false, ◌&&◌, ◌||◌}
use mathlib.Core.List.{List, [], ◌∷◌, ◌++◌, reverse}
use mathlib.Core.Option.{Option, none, some}
use native.Mathlib.Omega.{arith}
use open_cidn.Base.Tests.{◌==◌, if◌then◌else◌, Bool-cases}
use open_cidn.Base.Text.{Bytes}

-- `strings.HasPrefix(s, p)`.
unfoldable pub has_prefix : Bytes → Bytes → Bool
has_prefix s [] = true
has_prefix [] (c ∷ p) = false
has_prefix (b ∷ s) (c ∷ p) = b == c && has_prefix s p

abbrev strip : Bytes → Bytes → Bytes
strip s [] = s
strip [] (c ∷ p) = []
strip (b ∷ s) (c ∷ p) = strip s p

-- `strings.TrimPrefix(s, p)`.
unfoldable pub trim_prefix : Bytes → Bytes → Bytes
trim_prefix s p = if has_prefix s p then strip s p else s

-- `strings.IndexByte(s, c) >= 0`, as `strings.Contains` of a text of one byte.
unfoldable pub contains_byte : ℕ → Bytes → Bool
contains_byte c [] = false
contains_byte c (b ∷ s) = b == c || contains_byte c s

-- What is before the first `c` and behind it: `strings.Cut`, and `strings.SplitN` with the limit 2.
unfoldable pub cut : ℕ → Bytes → Option (Bytes × Bytes)
cut c [] = none
cut c (b ∷ s) =
    if b == c
    then some ([], s)
    else elim (cut c s) [ none ↦ none | some parts ↦ some (b ∷ parts.0, parts.1) ]

abbrev pub onto_first : ℕ → List Bytes → List Bytes
onto_first b [] = (b ∷ []) ∷ []
onto_first b (part ∷ parts) = (b ∷ part) ∷ parts

-- `strings.Split(s, c)` for a separator of one byte.
unfoldable pub split : ℕ → Bytes → List Bytes
split c [] = [] ∷ []
split c (b ∷ s) = if b == c then [] ∷ split c s else onto_first b (split c s)

-- `strings.SplitN(s, c, n)`; `more` is how many separators may still be cut at, n - 1.
unfoldable pub split_n : ℕ → ℕ → Bytes → List Bytes
split_n c zero s = s ∷ []
split_n c (suc more) [] = [] ∷ []
split_n c (suc more) (b ∷ s) =
    if b == c then [] ∷ split_n c more s else onto_first b (split_n c (suc more) s)

-- `strings.Join(parts, c)` for a separator of one byte.
unfoldable pub join : ℕ → List Bytes → Bytes
join c [] = []
join c (part ∷ []) = part
join c (part ∷ next ∷ parts) = part ++ c ∷ join c (next ∷ parts)

has_prefix-append : (p s : Bytes) → has_prefix (p ++ s) p ≡ true
unfolding has_prefix
has_prefix-append [] s = refl
has_prefix-append (c ∷ p) s = ground (arith, has_prefix-append p s)

strip-append : (p s : Bytes) → strip (p ++ s) p ≡ s
strip-append [] s = refl
strip-append (c ∷ p) s = strip-append p s

pub trim_prefix-append : (p s : Bytes) → trim_prefix (p ++ s) p ≡ s
unfolding trim_prefix
trim_prefix-append p s = rw (has_prefix-append p s) (strip-append p s)

-- The first separator is where a text without one ends.
pub cut-append :
    (c : ℕ) (s t : Bytes) → contains_byte c s ≡ false → cut c (s ++ c ∷ t) ≡ some (s, t)
unfolding cut contains_byte
cut-append c [] t h = ground arith
cut-append c (b ∷ s) t h =
    let apart : (b == c) ≡ false = ground arith in
    let rest : contains_byte c s ≡ false = ground arith in
    rw apart (rw (cut-append c s t rest) refl)

pub split_plain : (c : ℕ) (s : Bytes) → contains_byte c s ≡ false → split c s ≡ s ∷ []
unfolding split contains_byte
split_plain c [] h = refl
split_plain c (b ∷ s) h =
    let apart : (b == c) ≡ false = ground arith in
    let rest : contains_byte c s ≡ false = ground arith in rw apart (rw (split_plain c s rest) refl)

onto_first-append :
    (b : ℕ) (first : Bytes) (parts more : List Bytes)
    → onto_first b ((first ∷ parts) ++ more) ≡ onto_first b (first ∷ parts) ++ more
onto_first-append b first parts more = refl

pub split-cons :
    (c : ℕ) (s : Bytes) → (first : Bytes) × ((parts : List Bytes) × (split c s ≡ first ∷ parts))
unfolding split
split-cons c [] = ([], ([], refl))
split-cons c (b ∷ s) = elim (Bool-cases (b == c)) [
  | inl same ↦ rw same ([], (split c s, refl))
  | inr apart ↦ let rest = split-cons c s in rw apart (rw rest.1.1 (b ∷ rest.0, (rest.1.0, refl)))
]

-- Behind a separator the parts of the rest follow.
pub split-append : (c : ℕ) (s t : Bytes) → split c (s ++ c ∷ t) ≡ split c s ++ split c t
unfolding split
split-append c [] t = ground arith
split-append c (b ∷ s) t = elim (Bool-cases (b == c)) [
  | inl same ↦ rw same (rw (split-append c s t) refl)
  | inr apart ↦ let rest = split-cons c s in rw apart (rw (split-append c s t) (rw rest.1.1 refl))
]

pub join-onto_first :
    (c b : ℕ) (first : Bytes) (parts : List Bytes)
    → join c (onto_first b (first ∷ parts)) ≡ b ∷ join c (first ∷ parts)
unfolding join
join-onto_first c b first [] = refl
join-onto_first c b first (next ∷ parts) = refl

-- Joining the parts gives the text.
pub join-split : (c : ℕ) (s : Bytes) → join c (split c s) ≡ s
unfolding split join
join-split c [] = refl
join-split c (b ∷ s) = elim (Bool-cases (b == c)) [
  | inl same ↦
      let at : b ≡ c = ground arith in
      let rest = split-cons c s in
      let again : join c (split c s) ≡ s = join-split c s in
      rw same (rw rest.1.1 (cc (rw rest.1.1 at again)))
  | inr apart ↦
      let rest = split-cons c s in
      let again : join c (split c s) ≡ s = join-split c s in
      rw apart (
        rw rest.1.1 (
          rw (join-onto_first c b rest.0 rest.1.0)
            (ap (λ (x : Bytes). b ∷ x) (rw rest.1.1 at again))))
]

-- `strings.SplitN(s, sep, 2)` for a separator of several bytes.
unfoldable pub cut_text : Bytes → Bytes → Option (Bytes × Bytes)
cut_text sep [] = if has_prefix [] sep then some ([], []) else none
cut_text sep (b ∷ s) =
    if has_prefix (b ∷ s) sep
    then some ([], strip (b ∷ s) sep)
    else elim (cut_text sep s) [ none ↦ none | some parts ↦ some (b ∷ parts.0, parts.1) ]

unfoldable pub trim_left : Bytes → Bytes → Bytes
trim_left cutset [] = []
trim_left cutset (b ∷ s) = if contains_byte b cutset then trim_left cutset s else b ∷ s

-- `strings.Trim(s, cutset)` on bytes.
unfoldable pub trim_bytes : Bytes → Bytes → Bytes
trim_bytes cutset s = reverse (trim_left cutset (reverse (trim_left cutset s)))

-- `strings.Contains(s, sub)`.
unfoldable pub contains_text : Bytes → Bytes → Bool
contains_text [] sub = has_prefix [] sub
contains_text (b ∷ s) sub = has_prefix (b ∷ s) sub || contains_text s sub
