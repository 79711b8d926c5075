-- ===== src/Blobs/Classes.antt =====
-- Larger blobs come into later groups, and within a group they weigh less (pkg/blobs/utils.go).
use open_cidn.Base.{
  ℕ, zero, suc, ◌+◌, ◌-◌, ◌/◌, ◌%◌, ◌^◌, ◌≤◌, ◌<◌, ◌≡◌, refl, ◌⊎◌, inl, inr, ltb, ◌==◌, Bool-cases,
  ℤ, pos, arith, subst,
}
use open_cidn.Blobs.Sizes.{len_bits, len_64, class_of, size_to_group_and_weight}

len_bits_mono : (k n m : ℕ) → n ≤ m → len_bits k n ≤ len_bits k m
unfolding len_bits
len_bits_mono zero n m h = omega arith
len_bits_mono (suc k) n m h =
    let half : n / 2 ≤ m / 2 = omega arith in
    let ih = len_bits_mono k (n / 2) (m / 2) half in ground arith

-- The second class comes after the first, or is the same, or stands in its group with less weight.
abbrev pub Follows : ℕ × ℕ → ℕ × ℕ → Type 0
Follows a b = (a.0 < b.0) ⊎ ((a.0 ≡ b.0) × (b.1 ≤ a.1))

class_of_step : (l : ℕ) → Follows (class_of l) (class_of (suc l))
unfolding class_of
class_of_step l = ground arith

Follows-trans : (a b c : ℕ × ℕ) → Follows a b → Follows b c → Follows a c
Follows-trans a b c f g = ground arith

class_of_mono : (l d k : ℕ) → d + l ≡ k → Follows (class_of l) (class_of k)
class_of_mono l zero k e =
    let same : l ≡ k = omega arith in
    subst (λ (x : ℕ). Follows (class_of l) (class_of x)) same (inr (refl, omega arith))
class_of_mono l (suc d) k e =
    let last : suc (d + l) ≡ k = omega arith in
    subst (λ (x : ℕ). Follows (class_of l) (class_of x)) last
      (Follows-trans (class_of l) (class_of (d + l)) (class_of (suc (d + l)))
        (class_of_mono l d (d + l) refl) (class_of_step (d + l)))

pow_pos : (l : ℕ) → 1 ≤ 2 ^ l
pow_pos zero = omega arith
pow_pos (suc l) = let ih = pow_pos l in omega arith

-- For sizes that are not negative: a larger blob is in a later group, or in the same group with a
-- weight that is not higher.
pub size_to_group_and_weight_mono :
    (n m : ℕ)
    → n ≤ m
    → m < 2 ^ 63
    → Follows (size_to_group_and_weight (pos n)) (size_to_group_and_weight (pos m))
unfolding size_to_group_and_weight
size_to_group_and_weight_mono n m h b =
    let le : n % 2 ^ 64 ≤ m % 2 ^ 64 = omega arith in
    let longer = len_bits_mono 64 (n % 2 ^ 64) (m % 2 ^ 64) le in
    class_of_mono (len_64 (n % 2 ^ 64)) (len_64 (m % 2 ^ 64) - len_64 (n % 2 ^ 64))
      (len_64 (m % 2 ^ 64)) (omega arith)

-- Every size, negative ones included, gets one of the four groups and a weight from 1 to 100.
pub size_to_group_and_weight_bounds :
    (size : ℤ)
    → let (group, weight) = size_to_group_and_weight size in
      (group ≤ 3) × (1 ≤ weight) × (weight ≤ 100)
unfolding size_to_group_and_weight class_of
size_to_group_and_weight_bounds size = ground arith

len_bits_below : (k n l : ℕ) → n < 2 ^ l → len_bits k n ≤ l
unfolding len_bits
len_bits_below zero n l h = omega arith
len_bits_below (suc k) n zero h = ground arith
len_bits_below (suc k) n (suc l) h =
    let ih = len_bits_below k (n / 2) l (omega arith) in ground arith

len_bits_above : (k n l : ℕ) → l < k → 2 ^ l ≤ n → l < len_bits k n
unfolding len_bits
len_bits_above zero n l b h = absurd (omega arith)
len_bits_above (suc k) n zero b h = ground arith
len_bits_above (suc k) n (suc l) b h =
    let ih = len_bits_above k (n / 2) l (omega arith) (omega arith) in
    let some = pow_pos l in ground arith

-- The highest weight is for blobs below 2048 bytes.
pub lightest_lem : (n : ℕ) → n < 2 ^ 63 → ((size_to_group_and_weight (pos n)).1 == 100) ≡ ltb n 2048
unfolding size_to_group_and_weight class_of
lightest_lem n b =
    let same : n % 2 ^ 64 ≡ n = omega arith in
    rw same (elim (Bool-cases (ltb n 2048)) [
      | inl h ↦ let le : len_64 n ≤ 11 = len_bits_below 64 n 11 (ground arith) in ground arith
      | inr h ↦
          let gt : 11 < len_64 n = len_bits_above 64 n 11 (omega arith) (ground arith) in
          ground arith
    ])
