-- ===== src/Gateway/Labels.antt =====
-- internal/format/domain.go against the rules for domain names, told by their labels.
use open_cidn.Base.{
  ℕ, suc, ◌+◌, ◌≡◌, refl, inl, inr, Bool, true, false, ◌&&◌, ◌||◌, not, leb, ◌==◌, Bool-cases,
  subst, if◌then◌else◌, Bytes, length, none, some, List, [], ◌∷◌, split, split-cons, onto_first,
  arith,
}
use open_cidn.Gateway.Domain.{
  Scan, dot, dash, is_name_letter, is_digit, scan_byte, scan, scanned, ends_with, is_domain_name,
}

-- A letter, a digit, an underscore or a hyphen.
abbrev is_label_byte : ℕ → Bool
is_label_byte c = is_name_letter c || (is_digit c || c == dash)

abbrev all_bytes : (ℕ → Bool) → Bytes → Bool
all_bytes p [] = true
all_bytes p (c ∷ cs) = p c && all_bytes p cs

abbrev any_byte : (ℕ → Bool) → Bytes → Bool
any_byte p [] = false
any_byte p (c ∷ cs) = p c || any_byte p cs

abbrev starts_with : ℕ → Bytes → Bool
starts_with c [] = false
starts_with c (b ∷ s) = b == c

-- Bytes of labels, at most 63, no hyphen at either end.
unfoldable pub is_label : Bytes → Bool
is_label l =
    all_bytes is_label_byte l
    && (not (starts_with dash l) && (not (ends_with dash l) && leb (length l) 63))

-- Every part between dots is a label, and only the last one may be empty.
unfoldable pub are_labels : List Bytes → Bool
are_labels [] = true
are_labels (l ∷ []) = is_label l
are_labels (l ∷ m ∷ ls) = is_label l && (leb 1 (length l) && are_labels (m ∷ ls))

-- At most 253 bytes, or 254 with a dot at the end; not all digits and dots.
unfoldable pub is_name_by_labels : Bytes → Bool
is_name_by_labels s =
    leb 1 (length s)
    && ((leb (length s) 253 || length s == 254 && ends_with dot s)
        && (are_labels (split dot s) && any_byte (λ (c : ℕ). is_name_letter c || c == dash) s))

abbrev final : ℕ → Bytes → ℕ
final d [] = d
final d (b ∷ s) = final b s

-- The rest of a label of which `n` bytes are read, the last of them `d`.
abbrev rest_is_label : ℕ → ℕ → Bytes → Bool
rest_is_label d n l =
    all_bytes is_label_byte l
    && (not (d == dot && starts_with dash l) && (not (final d l == dash) && leb (n + length l) 63))

abbrev rest_are_labels : ℕ → ℕ → List Bytes → Bool
rest_are_labels d n [] = true
rest_are_labels d n (l ∷ []) = rest_is_label d n l
rest_are_labels d n (l ∷ m ∷ ls) =
    rest_is_label d n l && (leb 1 (n + length l) && rest_are_labels dot 0 (m ∷ ls))

abbrev is_non_numeric : ℕ → Bool
is_non_numeric c = is_name_letter c || c == dash

-- A byte of a label that is read goes from the rest of the label to the state of the loop.
rest_step :
    (c d n : ℕ) (first : Bytes) (parts : List Bytes)
    → (c == dot) ≡ false
    → rest_are_labels d n (onto_first c (first ∷ parts)) ≡ (
        is_label_byte c
        && (not (d == dot && c == dash) && rest_are_labels c (suc n) (first ∷ parts)))
rest_step c d n first [] h = ground arith
rest_step c d n first (next ∷ parts) h = ground arith

scan-dot :
    (s : Bytes) (d n : ℕ) (b : Bool)
    → (d == dot) ≡ (n == 0)
    → scanned (scan s (record { last = dot; non_numeric = b; partlen = 0 }))
      ≡ (rest_are_labels dot 0 (split dot s) && (b || any_byte is_non_numeric s))
    → scanned (scan (dot ∷ s) (record { last = d; non_numeric = b; partlen = n }))
      ≡ (rest_are_labels d n ([] ∷ split dot s) && (b || any_byte is_non_numeric s))
unfolding scan scanned scan_byte is_name_letter is_digit
scan-dot s d n b h again =
    let rest = split-cons dot s in rw rest.1.1 (ground (arith, rw rest.1.1 at again))

letter_lem : (c : ℕ) → is_name_letter c ≡ true → (c == dash) ≡ false
unfolding is_name_letter
letter_lem c h = ground arith

digit_lem : (c : ℕ) → is_digit c ≡ true → (c == dash) ≡ false
unfolding is_digit
digit_lem c h = ground arith

scan_to :
    (c : ℕ) (s : Bytes) (st st' : Scan) → scan_byte c st ≡ some st' → scan (c ∷ s) st ≡ scan s st'
unfolding scan
scan_to c s st st' h = rw (scan, h) refl

scan-none :
    (c : ℕ) (s : Bytes) (st : Scan) → scan_byte c st ≡ none → scanned (scan (c ∷ s) st) ≡ false
unfolding scan scanned
scan-none c s st h = rw (scan, h) refl

abbrev state : ℕ → Bool → ℕ → Scan
state d b n = record { last = d; non_numeric = b; partlen = n }

module _ (c d n : ℕ) (b : Bool) where
  byte_letter : is_name_letter c ≡ true → scan_byte c (state d b n) ≡ some (state c true (suc n))
  unfolding scan_byte
  byte_letter e = rw e refl

  byte_digit :
      is_name_letter c ≡ false
      → is_digit c ≡ true
      → scan_byte c (state d b n) ≡ some (state c b (suc n))
  unfolding scan_byte
  byte_digit e f = rw (e, f) refl

  byte_hyphen :
      is_name_letter c ≡ false
      → is_digit c ≡ false
      → (c == dash) ≡ true
      → scan_byte c (state d b n) ≡ (if d == dot then none else some (state c true (suc n)))
  unfolding scan_byte
  byte_hyphen e f g = rw (e, f) (rw g refl)

  byte_bad :
      is_name_letter c ≡ false
      → is_digit c ≡ false
      → (c == dash) ≡ false
      → (c == dot) ≡ false
      → scan_byte c (state d b n) ≡ none
  unfolding scan_byte
  byte_bad e f g h = rw (e, f) (rw g (rw h refl))

scan_other :
    (c : ℕ) (s : Bytes) (d n : ℕ) (b : Bool)
    → (c == dot) ≡ false
    → ((b' : Bool)
        → scanned (scan s (record { last = c; non_numeric = b'; partlen = suc n }))
          ≡ (rest_are_labels c (suc n) (split dot s) && (b' || any_byte is_non_numeric s)))
    → scanned (scan (c ∷ s) (record { last = d; non_numeric = b; partlen = n })) ≡ (
        is_label_byte c
        && (not (d == dot && c == dash) && rest_are_labels c (suc n) (split dot s))
        && (b || (is_non_numeric c || any_byte is_non_numeric s)))
scan_other c s d n b h again = elim (Bool-cases (is_name_letter c)) [
  | inl letter ↦
      rw (scan_to c s (state d b n) (state c true (suc n)) (byte_letter c d n b letter))
        (rw (again true) (rw letter (ground (arith, letter_lem c letter))))
  | inr other ↦ elim (Bool-cases (is_digit c)) [
    | inl digit ↦
        rw (scan_to c s (state d b n) (state c b (suc n)) (byte_digit c d n b other digit))
          (rw (again b) (rw (other, digit) (ground (arith, digit_lem c digit))))
    | inr strange ↦ elim (Bool-cases (c == dash)) [
      | inl hyphen ↦ elim (Bool-cases (d == dot)) [
        | inl first ↦
            rw
              (scan-none c s (state d b n) (rw first at (byte_hyphen c d n b other strange hyphen)))
              (ground arith)
        | inr inner ↦
            rw
              (scan_to c s (state d b n) (state c true (suc n))
                (rw inner at (byte_hyphen c d n b other strange hyphen)))
              (rw (again true) (ground arith))
      ]
      | inr bad ↦
          rw (scan-none c s (state d b n) (byte_bad c d n b other strange bad h))
            (rw (other, strange) (ground arith))
    ]
  ]
]

scan_lem :
    (s : Bytes) (d n : ℕ) (b : Bool)
    → (d == dot) ≡ (n == 0)
    → scanned (scan s (record { last = d; non_numeric = b; partlen = n }))
      ≡ (rest_are_labels d n (split dot s) && (b || any_byte is_non_numeric s))
unfolding scan scanned split is_name_letter is_digit
scan_lem [] d n true h = ground arith
scan_lem [] d n false h = ground arith
scan_lem (c ∷ s) d n b h = elim (Bool-cases (c == dot)) [
  | inl same ↦
      let at : dot ≡ c = ground arith in
      rw same (
        subst
          (λ (x : ℕ). scanned (scan (x ∷ s) (record { last = d; non_numeric = b; partlen = n })) ≡ (
            rest_are_labels d n ([] ∷ split dot s)
            && (b || (is_non_numeric x || any_byte is_non_numeric s))))
          at (scan-dot s d n b h (scan_lem s dot 0 b refl)))
  | inr apart ↦
      let rest = split-cons dot s in
      rw apart (
        rw rest.1.1 (
          rw (rest_step c d n rest.0 rest.1.0 apart) (
            rw rest.1.1 at (
              scan_other c s d n b apart
                (λ b'. scan_lem s c (suc n) b' (rw apart (ground arith)))))))
]

final-cons : (d b : ℕ) (l : Bytes) → (final d (b ∷ l) == dash) ≡ ends_with dash (b ∷ l)
unfolding ends_with
final-cons d b [] = refl
final-cons d b (c ∷ l) = final-cons b c l

rest_is_label_lem : (l : Bytes) → rest_is_label dot 0 l ≡ is_label l
unfolding is_label ends_with
rest_is_label_lem [] = refl
rest_is_label_lem (b ∷ l) = rw (final-cons dot b l) (ground arith)

rest_are_labels_lem : (ls : List Bytes) → rest_are_labels dot 0 ls ≡ are_labels ls
unfolding are_labels
rest_are_labels_lem [] = refl
rest_are_labels_lem (l ∷ []) = rest_is_label_lem l
rest_are_labels_lem (l ∷ m ∷ ls) =
    rw (rest_is_label_lem l) (rw (rest_are_labels_lem (m ∷ ls)) (ground arith))

-- The loop over the bytes accepts exactly the texts that the rules on lengths and labels accept.
pub is_domain_name_lem : (s : Bytes) → is_domain_name s ≡ is_name_by_labels s
unfolding is_domain_name is_name_by_labels
is_domain_name_lem s =
    rw (scan_lem s dot 0 false refl) (rw (rest_are_labels_lem (split dot s)) (ground arith))
