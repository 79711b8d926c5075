-- ===== src/Gateway/Domain.antt =====
-- internal/format/domain.go: which texts are domain names.
use open_cidn.Base.{
  ℕ, suc, Bool, true, false, ◌&&◌, ◌||◌, not, ltb, leb, ◌==◌, if◌then◌else◌, Bytes, length, Option,
  none, some, [], ◌∷◌,
}

-- The variables of the loop.
pub record Scan : Type 0 where
  pub last : ℕ
  pub non_numeric : Bool
  pub partlen : ℕ

abbrev pub dot : ℕ
dot = 46

abbrev pub dash : ℕ
dash = 45

-- A letter or an underscore.
unfoldable pub is_name_letter : ℕ → Bool
is_name_letter c = leb 97 c && leb c 122 || leb 65 c && leb c 90 || c == 95

unfoldable pub is_digit : ℕ → Bool
is_digit c = leb 48 c && leb c 57

-- One round of the loop; `none` is `return false`.
unfoldable pub scan_byte : ℕ → Scan → Option Scan
scan_byte c s =
    if is_name_letter c
    then some (record { last = c; non_numeric = true; partlen = suc s.partlen })
    else if is_digit c
    then some (record s { last = c; partlen = suc s.partlen })
    else if c == dash
    then if s.last == dot
      then none
      else some (record { last = c; non_numeric = true; partlen = suc s.partlen })
    else if c == dot
    then if s.last == dot || s.last == dash
      then none
      else if ltb 63 s.partlen || s.partlen == 0
      then none
      else some (record s { last = c; partlen = 0 })
    else none

unfoldable pub scan : Bytes → Scan → Option Scan
scan [] s = some s
scan (c ∷ cs) s = elim (scan_byte c s) [ none ↦ none | some s' ↦ scan cs s' ]

-- What follows the loop.
unfoldable pub scanned : Option Scan → Bool
scanned none = false
scanned (some s) = if s.last == dash || ltb 63 s.partlen then false else s.non_numeric

-- Whether the last byte is `c`.
unfoldable pub ends_with : ℕ → Bytes → Bool
ends_with c [] = false
ends_with c (b ∷ []) = b == c
ends_with c (b ∷ d ∷ s) = ends_with c (d ∷ s)

unfoldable pub is_domain_name : Bytes → Bool
is_domain_name s =
    if length s == 0 || (ltb 254 (length s) || length s == 254 && not (ends_with dot s))
    then false
    else scanned (scan s (record { last = dot; non_numeric = false; partlen = 0 }))
