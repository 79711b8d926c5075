-- ===== src/Maps.antt =====
-- Go's maps as association lists: a later entry for a key is never read, and deleting a key deletes
-- all of them.
use open_cidn.Base.{
  true, false, if◌then◌else◌, Option, none, some, List, [], ◌∷◌, Eq, ◌≡◌, refl, sym, ap, subst, ◌∙◌,
  inl, inr, Bool-cases,
}

module _ {ℓ} {A : Type ℓ} (eq : Eq A) where
  unfoldable pub get_key {κ} : {V : Type κ} → A → List (A × V) → Option V
  get_key a [] = none
  get_key a ((k, v) ∷ m) = if eq.beq k a then some v else get_key a m

  unfoldable pub set_key {κ} : {V : Type κ} → A → V → List (A × V) → List (A × V)
  set_key a v [] = (a, v) ∷ []
  set_key a v ((k, w) ∷ m) = if eq.beq k a then (k, v) ∷ m else (k, w) ∷ set_key a v m

  unfoldable pub delete_key {κ} : {V : Type κ} → A → List (A × V) → List (A × V)
  delete_key a [] = []
  delete_key a ((k, w) ∷ m) = if eq.beq k a then delete_key a m else (k, w) ∷ delete_key a m

  -- Two keys of which one equals a third compare with it alike.
  beq_trans : (k a b : A) → eq.beq k a ≡ true → eq.beq k b ≡ eq.beq a b
  beq_trans k a b h = let e : k ≡ a = (eq.beq_iff k a).0 h in ap (λ (x : A). eq.beq x b) e

  pub beq_refl : (a : A) → eq.beq a a ≡ true
  beq_refl a = (eq.beq_iff a a).1 refl

  pub beq_comm : (a b : A) → eq.beq a b ≡ eq.beq b a
  beq_comm a b = elim (Bool-cases (eq.beq a b)) [
    | inl h ↦ h ∙ sym ((eq.beq_iff b a).1 (sym ((eq.beq_iff a b).0 h)))
    | inr h ↦ elim (Bool-cases (eq.beq b a)) [
      | inl k ↦ cc (sym h ∙ (eq.beq_iff a b).1 (sym ((eq.beq_iff b a).0 k)))
      | inr k ↦ h ∙ sym k
    ]
  ]

  pub beq_apart : (k a b : A) → eq.beq k a ≡ false → eq.beq k b ≡ true → eq.beq a b ≡ false
  beq_apart k a b n e =
      let same : k ≡ b = (eq.beq_iff k b).0 e in
      beq_comm a b ∙ subst (λ (x : A). eq.beq x a ≡ false) same n

  pub get_key-set_key {κ} :
      {V : Type κ} (a b : A) (v : V) (m : List (A × V))
      → get_key b (set_key a v m) ≡ (if eq.beq a b then some v else get_key b m)
  unfolding get_key set_key
  get_key-set_key a b v [] = refl
  get_key-set_key a b v ((k, w) ∷ m) = elim (Bool-cases (eq.beq k a)) [
    | inl hit ↦
        rw (hit, beq_trans k a b hit)
          (elim (Bool-cases (eq.beq a b)) [ inl e ↦ rw e | inr e ↦ rw e ])
    | inr miss ↦ rw miss (elim (Bool-cases (eq.beq k b)) [
      | inl e ↦ rw (e, beq_apart k a b miss e)
      | inr e ↦ rw e (get_key-set_key a b v m)
    ])
  ]

  pub get_key-delete_key {κ} :
      {V : Type κ} (a b : A) (m : List (A × V))
      → get_key b (delete_key a m) ≡ (if eq.beq a b then none else get_key b m)
  unfolding get_key delete_key
  get_key-delete_key a b [] = elim (Bool-cases (eq.beq a b)) [ inl e ↦ rw e | inr e ↦ rw e ]
  get_key-delete_key a b ((k, w) ∷ m) = elim (Bool-cases (eq.beq k a)) [
    | inl hit ↦
        rw (hit, beq_trans k a b hit)
          (get_key-delete_key a b m
            ∙ (elim (Bool-cases (eq.beq a b)) [ inl e ↦ rw e | inr e ↦ rw e ]))
    | inr miss ↦ rw miss (elim (Bool-cases (eq.beq k b)) [
      | inl e ↦ rw (e, beq_apart k a b miss e)
      | inr e ↦ rw e (get_key-delete_key a b m)
    ])
  ]

pub get_key-nil : {K : Type 0} (eq : Eq K) (V : Type 0) (k : K) → get_key eq {V = V} k [] ≡ none
unfolding get_key
get_key-nil eq V k = refl
