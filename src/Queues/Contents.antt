-- ===== src/Queues/Contents.antt =====
-- The items of a queue in order, and what the methods do to them.
use open_cidn.Base.{
  ℕ, ◌<◌, ◌≡◌, refl, sym, ◌∙◌, ap, subst, inl, inr, false, ◌==◌, if◌then◌else◌, Bool-cases, Option,
  none, some, List, [], ◌∷◌, ◌++◌, All, All-append, All-mono, Eq, arith,
}
use open_cidn.Maps.{get_key, get_key-set_key, get_key-delete_key, beq_comm, beq_apart}
use open_cidn.Queues.Fifo.{Element, Queue, add, take_front, get}

module _ {ℓ} {A : Type ℓ} where
  abbrev pub items_of : List (Element A) → List A
  items_of [] = []
  items_of (e ∷ es) = e.item ∷ items_of es

  abbrev pub items : Queue A → List A
  items q = items_of q.base

  abbrev pub Unmarked : ℕ → List (Element A) → Type 0
  Unmarked m = All (λ e. (e.mark == m) ≡ false)

  abbrev pub DistinctMarks : List (Element A) → Type 0
  DistinctMarks [] = Unit
  DistinctMarks (e ∷ es) = Unmarked e.mark es × DistinctMarks es

module _ {ℓ} {A : Type ℓ} (eq : Eq A) where
  abbrev pub Absent : A → List A → Type 0
  Absent a xs = All (λ x. eq.beq x a ≡ false) xs

  abbrev pub Nodup : List A → Type 0
  Nodup [] = Unit
  Nodup (x ∷ xs) = Absent x xs × Nodup xs

  -- The mark of the element that holds an item.
  abbrev pub mark_of : A → List (Element A) → Option ℕ
  mark_of a [] = none
  mark_of a (e ∷ es) = if eq.beq e.item a then some e.mark else mark_of a es

  -- The first occurrence of an item taken out.
  abbrev pub erase : A → List A → List A
  erase a [] = []
  erase a (x ∷ xs) = if eq.beq x a then xs else x ∷ erase a xs

  -- No item is queued twice, and the index gives the element of each item and no others.
  pub record IsIndexed (q : Queue A) : Type ℓ where
    pub nodup : Nodup (items q)
    pub index_ok : (a : A) → get_key eq a q.index ≡ mark_of a q.base
    pub marks : DistinctMarks q.base
    pub fresh : All (λ (e : Element A). e.mark < q.next) q.base

  pub mark_of-Absent :
      (a : A) (es : List (Element A)) → Absent a (items_of es) → mark_of a es ≡ none
  mark_of-Absent a [] h = refl
  mark_of-Absent a (e ∷ es) h = rw h.0 (mark_of-Absent a es h.1)

  mark_of-append :
      (a b : A) (m : ℕ) (es : List (Element A))
      → Absent a (items_of es)
      → mark_of b (es ++ record { mark = m; item = a } ∷ [])
        ≡ (if eq.beq a b then some m else mark_of b es)
  mark_of-append a b m [] h = refl
  mark_of-append a b m (e ∷ es) h = elim (Bool-cases (eq.beq e.item b)) [
    | inl hit ↦ rw (hit, beq_apart eq e.item a b h.0 hit)
    | inr miss ↦ rw miss (mark_of-append a b m es h.1)
  ]

  items_of-append :
      (es : List (Element A)) (e : Element A) → items_of (es ++ e ∷ []) ≡ items_of es ++ e.item ∷ []
  items_of-append [] e = refl
  items_of-append (x ∷ xs) e = rw (items_of-append xs e)

  Nodup-append : (xs : List A) (a : A) → Absent a xs → Nodup xs → Nodup (xs ++ a ∷ [])
  Nodup-append [] a h d = (tt, tt)
  Nodup-append (x ∷ xs) a h d =
      (All-append _ xs (a ∷ []) d.0 (beq_comm eq a x ∙ h.0, tt), Nodup-append xs a h.1 d.1)

  DistinctMarks-append :
      (es : List (Element A)) (e : Element A)
      → All (λ (x : Element A). x.mark < e.mark) es
      → DistinctMarks es
      → DistinctMarks (es ++ e ∷ [])
  DistinctMarks-append [] e h d = (tt, tt)
  DistinctMarks-append (x ∷ xs) e h d =
      let low = h.0 in
      (All-append _ xs (e ∷ []) d.0 (ground arith, tt), DistinctMarks-append xs e h.1 d.1)

  pub items-add : (a : A) (q : Queue A) → items (add eq a q) ≡ items q ++ a ∷ []
  unfolding add
  items-add a q = items_of-append q.base (record { mark = q.next; item = a })

  pub add-IsIndexed :
      (a : A) (q : Queue A) → Absent a (items q) → IsIndexed q → IsIndexed (add eq a q)
  unfolding add
  add-IsIndexed a q h i = record {
    nodup =
        rw (items_of-append q.base (record { mark = q.next; item = a }))
          (Nodup-append (items q) a h i.nodup);
    index_ok = λ b.
        get_key-set_key eq a b q.next q.index
        ∙ ap (λ (o : Option ℕ). if eq.beq a b then some q.next else o) (i.index_ok b)
        ∙ sym (mark_of-append a b q.next q.base h);
    marks = DistinctMarks-append q.base _ i.fresh i.marks;
    fresh =
        All-append _ q.base _
          (All-mono _ _ (λ (e : Element A) (f : e.mark < q.next). omega arith) q.base i.fresh)
          (omega arith, tt);
  }

  -- `Get` on the list of items.
  abbrev pub Gets : List A → Option A × Queue A → Type ℓ
  Gets [] r = (r.0 ≡ none) × (items r.1 ≡ [])
  Gets (x ∷ xs) r = (r.0 ≡ some x) × (items r.1 ≡ xs)

  pub get-Gets : (q : Queue A) → Gets (items q) (get eq q)
  unfolding get
  get-Gets q = go q.base refl
    where
      go : (es : List (Element A)) → q.base ≡ es → Gets (items_of es) (take_front eq es q)
      go [] e = (refl, ap items_of e)
      go (x ∷ xs) e = (refl, refl)

  front :
      (b : A) (x : Element A) (xs : List (Element A)) {o : Option ℕ}
      → Absent x.item (items_of xs)
      → o ≡ mark_of b (x ∷ xs)
      → (if eq.beq x.item b then none else o) ≡ mark_of b xs
  front b x xs h e = elim (Bool-cases (eq.beq x.item b)) [
    | inl hit ↦
        let same : x.item ≡ b = (eq.beq_iff x.item b).0 hit in
        rw hit (sym (mark_of-Absent b xs (subst (λ (y : A). Absent y (items_of xs)) same h)))
    | inr miss ↦ rw miss (rw miss at e)
  ]

  pub get-IsIndexed : (q : Queue A) → IsIndexed q → IsIndexed (get eq q).1
  unfolding get
  get-IsIndexed q i = go q.base refl
    where
      go : (es : List (Element A)) → q.base ≡ es → IsIndexed (take_front eq es q).1
      go [] e = i
      go (x ∷ xs) e =
          let nodup : Nodup (items_of (x ∷ xs)) = rw e at (i.nodup) in
          let marks : DistinctMarks (x ∷ xs) = rw e at (i.marks) in
          let fresh : All (λ (y : Element A). y.mark < q.next) (x ∷ xs) = rw e at (i.fresh) in
          record {
            nodup = nodup.1;
            index_ok = λ b.
                get_key-delete_key eq x.item b q.index
                ∙ front b x xs nodup.0 (i.index_ok b ∙ ap (mark_of b) e);
            marks = marks.1;
            fresh = fresh.1;
          }
