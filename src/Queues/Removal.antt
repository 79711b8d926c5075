-- ===== src/Queues/Removal.antt =====
-- Taking an item out of the middle of a queue, and every sequence of operations.
use open_cidn.Base.{
  ℕ, ◌<◌, ◌≡◌, refl, sym, ◌∙◌, ap, subst, ◌⊎◌, inl, inr, Bool, true, false, ◌==◌, ◌||◌,
  if◌then◌else◌, Bool-cases, Option, none, some, List, [], ◌∷◌, All, Eq, arith,
}
use open_cidn.Maps.{get_key-delete_key, beq_apart}
use open_cidn.Queues.Fifo.{Element, Queue, remove_mark, remove}
use open_cidn.Queues.Contents.{
  items_of, items, Unmarked, DistinctMarks, Absent, Nodup, mark_of, erase, IsIndexed,
  mark_of-Absent,
}

module _ {ℓ} {A : Type ℓ} (eq : Eq A) where
  marked_other :
      (a : A) (m k : ℕ) (es : List (Element A))
      → mark_of eq a es ≡ some m
      → Unmarked k es
      → (k == m) ≡ false
  marked_other a m k [] e u = cc
  marked_other a m k (x ∷ xs) e u = elim (Bool-cases (eq.beq x.item a)) [
    | inl hit ↦ let same : x.mark ≡ m = cc (rw hit at e) in let other = u.0 in ground arith
    | inr miss ↦ marked_other a m k xs (rw miss at e) u.1
  ]

  -- Removing the element that the index gives is erasing the item.
  items_of-remove_mark :
      (a : A) (m : ℕ) (es : List (Element A))
      → DistinctMarks es
      → mark_of eq a es ≡ some m
      → items_of (remove_mark m es) ≡ erase eq a (items_of es)
  unfolding remove_mark
  items_of-remove_mark a m [] d e = cc
  items_of-remove_mark a m (x ∷ xs) d e = elim (Bool-cases (eq.beq x.item a)) [
    | inl hit ↦
        let same : x.mark ≡ m = cc (rw hit at e) in
        let found : (x.mark == m) ≡ true = ground arith in rw (hit, found)
    | inr miss ↦
        let e' : mark_of eq a xs ≡ some m = rw miss at e in
        let other : (x.mark == m) ≡ false = marked_other a m x.mark xs e' d.0 in
        rw (miss, other, items_of-remove_mark a m xs d.1 e')
  ]

  Absent-erase : (x a : A) (xs : List A) → Absent eq x xs → Absent eq x (erase eq a xs)
  Absent-erase x a [] h = tt
  Absent-erase x a (y ∷ ys) h = elim (Bool-cases (eq.beq y a)) [
    | inl hit ↦ rw hit h.1
    | inr miss ↦ rw miss (h.0, Absent-erase x a ys h.1)
  ]

  Nodup-erase : (a : A) (xs : List A) → Nodup eq xs → Nodup eq (erase eq a xs)
  Nodup-erase a [] d = tt
  Nodup-erase a (x ∷ xs) d = elim (Bool-cases (eq.beq x a)) [
    | inl hit ↦ rw hit d.1
    | inr miss ↦ rw miss (Absent-erase x a xs d.0, Nodup-erase a xs d.1)
  ]

  All-remove_mark :
      (P : Element A → Type 0) (m : ℕ) (es : List (Element A)) → All P es → All P (remove_mark m es)
  unfolding remove_mark
  All-remove_mark P m [] h = tt
  All-remove_mark P m (x ∷ xs) h = elim (Bool-cases (x.mark == m)) [
    | inl hit ↦ rw hit h.1
    | inr miss ↦ rw miss (h.0, All-remove_mark P m xs h.1)
  ]

  DistinctMarks-remove_mark :
      (m : ℕ) (es : List (Element A)) → DistinctMarks es → DistinctMarks (remove_mark m es)
  unfolding remove_mark
  DistinctMarks-remove_mark m [] d = tt
  DistinctMarks-remove_mark m (x ∷ xs) d = elim (Bool-cases (x.mark == m)) [
    | inl hit ↦ rw hit d.1
    | inr miss ↦ rw miss (
      All-remove_mark (λ e. (e.mark == x.mark) ≡ false) m xs d.0,
      DistinctMarks-remove_mark m xs d.1,
    )
  ]

  mark_of-remove_mark :
      (a b : A) (m : ℕ) (es : List (Element A))
      → Nodup eq (items_of es)
      → DistinctMarks es
      → mark_of eq a es ≡ some m
      → mark_of eq b (remove_mark m es) ≡ (if eq.beq a b then none else mark_of eq b es)
  unfolding remove_mark
  mark_of-remove_mark a b m [] n d e = cc
  mark_of-remove_mark a b m (x ∷ xs) n d e = elim (Bool-cases (eq.beq x.item a)) [
    | inl hit ↦
        let same : x.mark ≡ m = cc (rw hit at e) in
        let found : (x.mark == m) ≡ true = ground arith in
        let item : x.item ≡ a = (eq.beq_iff x.item a).0 hit in
        rw (found, item)
          (elim (Bool-cases (eq.beq a b)) [
            | inl here ↦
                let named : a ≡ b = (eq.beq_iff a b).0 here in
                rw here (
                  mark_of-Absent eq b xs
                    (subst (λ (y : A). Absent eq y (items_of xs)) (item ∙ named) n.0))
            | inr there ↦ rw there
          ])
    | inr miss ↦
        let e' : mark_of eq a xs ≡ some m = rw miss at e in
        let other : (x.mark == m) ≡ false = marked_other a m x.mark xs e' d.0 in
        rw other (elim (Bool-cases (eq.beq x.item b)) [
          | inl here ↦ rw (here, beq_apart eq x.item a b miss here)
          | inr there ↦ rw there (mark_of-remove_mark a b m xs n.1 d.1 e')
        ])
  ]

  abbrev pub contains : A → List A → Bool
  contains a [] = false
  contains a (x ∷ xs) = eq.beq x a || contains a xs

  contains-mark_of :
      (a : A) (es : List (Element A))
      → ((mark_of eq a es ≡ none) × (contains a (items_of es) ≡ false))
        ⊎ ((m : ℕ) × (mark_of eq a es ≡ some m) × (contains a (items_of es) ≡ true))
  contains-mark_of a [] = inl (refl, refl)
  contains-mark_of a (x ∷ xs) = elim (Bool-cases (eq.beq x.item a)) [
    | inl hit ↦ inr (x.mark, rw hit, rw hit)
    | inr miss ↦ rw miss (contains-mark_of a xs)
  ]

  erase_absent : (a : A) (xs : List A) → contains a xs ≡ false → erase eq a xs ≡ xs
  erase_absent a [] h = refl
  erase_absent a (x ∷ xs) h = elim (Bool-cases (eq.beq x a)) [
    | inl hit ↦ cc (rw hit at h)
    | inr miss ↦ rw miss (ap (◌∷◌ x) (erase_absent a xs (rw miss at h)))
  ]

  -- `Remove` tells whether the item is queued, and takes it out of the queue.
  pub remove_lem :
      (a : A) (q : Queue A)
      → IsIndexed eq q
      → ((remove eq a q).0 ≡ contains a (items q))
        × (items (remove eq a q).1 ≡ erase eq a (items q))
        × IsIndexed eq (remove eq a q).1
  unfolding remove
  remove_lem a q i = elim (contains-mark_of a q.base) [
    | inl (e, c) ↦ rw (i.index_ok a ∙ e) (sym c, sym (erase_absent a (items q) c), i)
    | inr (m, e, c) ↦ rw (i.index_ok a ∙ e) (
      sym c,
      items_of-remove_mark a m q.base i.marks e,
      record {
        nodup = rw (items_of-remove_mark a m q.base i.marks e) (Nodup-erase a (items q) i.nodup);
        index_ok = λ b.
            get_key-delete_key eq a b q.index
            ∙ ap (λ (o : Option ℕ). if eq.beq a b then none else o) (i.index_ok b)
            ∙ sym (mark_of-remove_mark a b m q.base i.nodup i.marks e);
        marks = DistinctMarks-remove_mark m q.base i.marks;
        fresh = All-remove_mark (λ e. e.mark < q.next) m q.base i.fresh;
      },
    )
  ]
