-- ===== src/Queues/Sorted.antt =====
-- Sorted weights are distinct, and the weights of a map of queues only grow.
use open_cidn.Base.{
  suc, ◌≡◌, refl, sym, ◌∙◌, ap, inl, inr, false, Bool-cases, ℤ, int_eq, int_lt, int_eq_comm, List,
  [], ◌∷◌, ◌++◌, map, reverse, length, All,
}
use mathlib.Core.List.{reverse_aux, append-nil, append_assoc}
use open_cidn.Maps.{set_key}
use open_cidn.Queues.Fifo.{Queue}
use open_cidn.Queues.Weighted.{int_key, insert_sorted, sort_ints}
use open_cidn.Queues.Moves.{Unlike, DistinctInts}

length-insert_sorted : (k : ℤ) (ks : List ℤ) → length (insert_sorted k ks) ≡ suc (length ks)
unfolding insert_sorted
length-insert_sorted k [] = refl
length-insert_sorted k (x ∷ xs) = elim (Bool-cases (int_lt x k)) [
  | inl h ↦ rw h (ap suc (length-insert_sorted k xs))
  | inr h ↦ rw h
]

pub length-sort_ints : (ks : List ℤ) → length (sort_ints ks) ≡ length ks
unfolding sort_ints
length-sort_ints [] = refl
length-sort_ints (k ∷ ks) = length-insert_sorted k (sort_ints ks) ∙ ap suc (length-sort_ints ks)

Unlike-insert_sorted :
    (w k : ℤ) (ks : List ℤ) → int_eq w k ≡ false → Unlike w ks → Unlike w (insert_sorted k ks)
unfolding insert_sorted
Unlike-insert_sorted w k [] n u = (n, tt)
Unlike-insert_sorted w k (x ∷ xs) n u = elim (Bool-cases (int_lt x k)) [
  | inl h ↦ rw h (u.0, Unlike-insert_sorted w k xs n u.1)
  | inr h ↦ rw h (n, u)
]

Unlike-sort_ints : (w : ℤ) (ks : List ℤ) → Unlike w ks → Unlike w (sort_ints ks)
unfolding sort_ints
Unlike-sort_ints w [] u = tt
Unlike-sort_ints w (k ∷ ks) u =
    Unlike-insert_sorted w k (sort_ints ks) u.0 (Unlike-sort_ints w ks u.1)

DistinctInts-insert_sorted :
    (k : ℤ) (ks : List ℤ) → Unlike k ks → DistinctInts ks → DistinctInts (insert_sorted k ks)
unfolding insert_sorted
DistinctInts-insert_sorted k [] u d = (tt, tt)
DistinctInts-insert_sorted k (x ∷ xs) u d = elim (Bool-cases (int_lt x k)) [
  | inl h ↦ rw h (
    Unlike-insert_sorted x k xs (int_eq_comm x k ∙ u.0) d.0,
    DistinctInts-insert_sorted k xs u.1 d.1,
  )
  | inr h ↦ rw h (u, d)
]

pub DistinctInts-sort_ints : (ks : List ℤ) → DistinctInts ks → DistinctInts (sort_ints ks)
unfolding sort_ints
DistinctInts-sort_ints [] d = tt
DistinctInts-sort_ints (k ∷ ks) d =
    DistinctInts-insert_sorted k (sort_ints ks) (Unlike-sort_ints k ks d.0)
      (DistinctInts-sort_ints ks d.1)

-- Both lists of a pair have nothing in common.
Apart : List ℤ → List ℤ → Type 0
Apart xs r = All (λ x. Unlike x r) xs

Apart-cons :
    (x : ℤ) (xs r : List ℤ)
    → Unlike x xs
    → All (λ y. Unlike y r) xs
    → All (λ y. Unlike y (x ∷ r)) xs
Apart-cons x [] r u a = tt
Apart-cons x (y ∷ ys) r u a = ((int_eq_comm y x ∙ u.0, a.0), Apart-cons x ys r u.1 a.1)

DistinctInts-reverse_aux :
    (xs r : List ℤ)
    → DistinctInts xs
    → DistinctInts r
    → All (λ y. Unlike y r) xs
    → DistinctInts (reverse_aux xs r)
DistinctInts-reverse_aux [] r d e a = e
DistinctInts-reverse_aux (x ∷ xs) r d e a =
    DistinctInts-reverse_aux xs (x ∷ r) d.1 (a.0, e) (Apart-cons x xs r d.0 a.1)

Unlike-nothing : (xs : List ℤ) → All (λ y. Unlike y []) xs
Unlike-nothing [] = tt
Unlike-nothing (x ∷ xs) = (tt, Unlike-nothing xs)

pub DistinctInts-reverse : (xs : List ℤ) → DistinctInts xs → DistinctInts (reverse xs)
DistinctInts-reverse xs d = DistinctInts-reverse_aux xs [] d tt (Unlike-nothing xs)

-- The second list is the first with nothing or more at its end.
abbrev pub Extends : List ℤ → List ℤ → Type 0
Extends xs ys = (extra : List ℤ) × (ys ≡ xs ++ extra)

pub Extends-refl : (xs : List ℤ) → Extends xs xs
Extends-refl xs = ([], sym (append-nil xs))

pub Extends-trans : (xs ys zs : List ℤ) → Extends xs ys → Extends ys zs → Extends xs zs
Extends-trans xs ys zs (a, e) (b, f) =
    (a ++ b, f ∙ ap (λ (l : List ℤ). l ++ b) e ∙ append_assoc xs a b)

module _ {ℓ} {A : Type ℓ} where
  -- The weights that have a queue.
  abbrev pub keys : List (ℤ × Queue A) → List ℤ
  keys m = map (λ (e : ℤ × Queue A). e.0) m

  Unlike-set_key :
      (v w : ℤ) (q : Queue A) (m : List (ℤ × Queue A))
      → int_eq v w ≡ false
      → Unlike v (keys m)
      → Unlike v (keys (set_key int_key w q m))
  unfolding set_key
  Unlike-set_key v w q [] n u = (n, tt)
  Unlike-set_key v w q ((k, x) ∷ m) n u = elim (Bool-cases (int_eq k w)) [
    | inl h ↦ rw h u
    | inr h ↦ rw h (u.0, Unlike-set_key v w q m n u.1)
  ]

  pub DistinctInts-set_key :
      (w : ℤ) (q : Queue A) (m : List (ℤ × Queue A))
      → DistinctInts (keys m)
      → DistinctInts (keys (set_key int_key w q m))
  unfolding set_key
  DistinctInts-set_key w q [] d = (tt, tt)
  DistinctInts-set_key w q ((k, x) ∷ m) d = elim (Bool-cases (int_eq k w)) [
    | inl h ↦ rw h d
    | inr h ↦ rw h (Unlike-set_key k w q m h d.0, DistinctInts-set_key w q m d.1)
  ]

  pub Extends-set_key :
      (w : ℤ) (q : Queue A) (m : List (ℤ × Queue A))
      → Extends (keys m) (keys (set_key int_key w q m))
  unfolding set_key
  Extends-set_key w q [] = (w ∷ [], refl)
  Extends-set_key w q ((k, x) ∷ m) = elim (Bool-cases (int_eq k w)) [
    | inl h ↦ rw h (Extends-refl (k ∷ keys m))
    | inr h ↦ rw h (let (extra, e) = Extends-set_key w q m in (extra, ap (◌∷◌ k) e))
  ]
