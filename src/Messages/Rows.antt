-- ===== src/Messages/Rows.antt =====
-- Updates of the one row that an id names, in a table where ids are distinct.
use open_cidn.Base.{
  ◌≡◌, refl, ap, inl, inr, Bool, true, false, not, ◌&&◌, ◌||◌, if◌then◌else◌, Bool-cases, ℤ, int_eq,
  int_eq_iff, List, [], ◌∷◌, All, find, some,
}
use open_cidn.Messages.Table.{Row, update_rows, affected, row_eq, by_id, alive}
use open_cidn.Messages.WellFormed.{Distinct}
use open_cidn.Messages.Edges.{row_at}

-- A WHERE clause that begins with `id = ?`.
abbrev pub at_id : ℤ → (Row → Bool) → Row → Bool
at_id id q s = int_eq s.id id && q s

module _ (id : ℤ) (q : Row → Bool) (f : Row → Row) where
  update_rows_apart :
      (rows : List Row)
      → All (λ s. int_eq s.id id ≡ false) rows
      → update_rows (at_id id q) f rows ≡ rows
  unfolding update_rows
  update_rows_apart [] h = refl
  update_rows_apart (r ∷ rs) h = rw (h.0, update_rows_apart rs h.1)

  affected_apart :
      (found : Bool) (rows : List Row)
      → All (λ s. int_eq s.id id ≡ false) rows
      → affected found (at_id id q) f rows ≡ 0
  unfolding affected
  affected_apart found [] h = refl
  affected_apart found (r ∷ rs) h = rw h.0 (affected_apart found rs h.1)

  apart_of_eq :
      (r : Row) (rows : List Row)
      → All (λ s. int_eq s.id r.id ≡ false) rows
      → int_eq r.id id ≡ true
      → All (λ s. int_eq s.id id ≡ false) rows
  apart_of_eq r rows h hit = let e : r.id ≡ id = (int_eq_iff r.id id).0 hit in rw e at h

  -- The rest of the clause fails on the named row: nothing changes.
  pub update_rows_miss :
      (rows : List Row) (r : Row)
      → Distinct rows
      → row_at id rows ≡ some r
      → q r ≡ false
      → (found : Bool)
      → (update_rows (at_id id q) f rows ≡ rows) × (affected found (at_id id q) f rows ≡ 0)
  unfolding update_rows affected row_at
  update_rows_miss [] r d e h found = cc
  update_rows_miss (x ∷ xs) r d e h found = elim (Bool-cases (int_eq x.id id)) [
    | inl hit ↦
        let same : x ≡ r = cc (rw hit at e) in
        let miss : q x ≡ false = rw same h in
        let a = apart_of_eq x xs d.0 hit in
        (rw (miss, hit, update_rows_apart xs a), rw (miss, hit) (affected_apart found xs a))
    | inr miss ↦
        let ih = update_rows_miss xs r d.1 (rw miss at e) h found in (rw (miss, ih.0), rw miss ih.1)
  ]

  -- The clause holds of the named row: that row changes, and is reported if it differs.
  pub update_rows_hit :
      (rows : List Row) (r : Row)
      → Distinct rows
      → row_at id rows ≡ some r
      → q r ≡ true
      → (f r).id ≡ r.id
      → (found : Bool)
      → (row_at id (update_rows (at_id id q) f rows) ≡ some (f r))
        × (affected found (at_id id q) f rows ≡ (if found || not (row_eq r (f r)) then 1 else 0))
  unfolding update_rows affected row_at
  update_rows_hit [] r d e h k found = cc
  update_rows_hit (x ∷ xs) r d e h k found = elim (Bool-cases (int_eq x.id id)) [
    | inl hit ↦
        let same : x ≡ r = cc (rw hit at e) in
        let pass : q x ≡ true = rw same h in
        let named : int_eq (f x).id id ≡ true =
          rw (let kept : (f x).id ≡ x.id = rw same k in kept) hit in
        let a = apart_of_eq x xs d.0 hit in
        (
          rw (hit, pass, named) (ap (λ (y : Row). some (f y)) same),
          rw (hit, pass, ← same, affected_apart found xs a),
        )
    | inr miss ↦
        let ih = update_rows_hit xs r d.1 (rw miss at e) h k found in
        (rw (miss, miss) ih.0, rw miss ih.1)
  ]

  -- The rows of other ids are left alone.
  pub update_rows_other :
      (rows : List Row) (other : ℤ)
      → ((s : Row) → (f s).id ≡ s.id)
      → int_eq id other ≡ false
      → row_at other (update_rows (at_id id q) f rows) ≡ row_at other rows
  unfolding update_rows row_at
  update_rows_other [] other k h = refl
  update_rows_other (x ∷ xs) other k h = elim (Bool-cases (int_eq x.id id)) [
    | inl hit ↦
        let miss : int_eq x.id other ≡ false = rw ((int_eq_iff x.id id).0 hit) h in
        elim (Bool-cases (q x)) [
          | inl pass ↦
              let moved : int_eq (f x).id other ≡ false = rw (k x) miss in
              rw (hit, pass, moved, miss) (update_rows_other xs other k h)
          | inr fail ↦ rw (hit, fail, miss) (update_rows_other xs other k h)
        ]
    | inr miss ↦ rw (miss, update_rows_other xs other k h)
  ]

-- Selecting by id finds the named row if it is not deleted.
pub find-by_id :
    (id : ℤ) (rows : List Row) (r : Row)
    → row_at id rows ≡ some r
    → alive r ≡ true
    → find (by_id id) rows ≡ some r
unfolding row_at by_id
find-by_id id [] r e h = cc
find-by_id id (x ∷ xs) r e h = elim (Bool-cases (int_eq x.id id)) [
  | inl hit ↦
      let same : x ≡ r = cc (rw hit at e) in
      let live : alive x ≡ true = rw same h in rw (hit, live) (ap some same)
  | inr miss ↦ rw miss (find-by_id id xs r (rw miss at e) h)
]
