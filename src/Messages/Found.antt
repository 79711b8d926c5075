-- ===== src/Messages/Found.antt =====
-- What a query finds in the table, and how updates and inserts change the number of rows
-- (pkg/queue/dao/messgae.go).
use open_cidn.Base.{
  suc, ◌+◌, ◌≡◌, refl, ◌∙◌, ap, inl, inr, Bool, true, false, if◌then◌else◌, Bool-cases, ℤ, int_eq,
  int_eq_refl, int_eq_iff, int_eq_comm, subst, List, [], ◌∷◌, ◌++◌, All, find, count, length, arith,
  some, none,
}
use open_cidn.Messages.Table.{Row, Table, Update, update, guard, assign, update_rows, run}
use open_cidn.Messages.WellFormed.{Distinct}
use open_cidn.Messages.Edges.{row_at}

pub apart_named :
    (id other : ℤ) (rows : List Row) (r : Row)
    → All (λ s. int_eq s.id other ≡ false) rows
    → row_at id rows ≡ some r
    → int_eq other id ≡ false
unfolding row_at
apart_named id other [] r h e = cc
apart_named id other (x ∷ xs) r h e = elim (Bool-cases (int_eq x.id id)) [
  | inl hit ↦
      let same : x.id ≡ id = (int_eq_iff x.id id).0 hit in int_eq_comm other id ∙ rw (← same) h.0
  | inr miss ↦ apart_named id other xs r h.1 (rw miss at e)
]

pub find-append :
    (p : Row → Bool) (rows : List Row) (r : Row)
    → find p rows ≡ none
    → p r ≡ true
    → find p (rows ++ r ∷ []) ≡ some r
find-append p [] r e h = rw h
find-append p (x ∷ xs) r e h = elim (Bool-cases (p x)) [
  | inl hit ↦ cc (rw hit at e)
  | inr miss ↦ rw miss (find-append p xs r (rw miss at e) h)
]

pub count-append :
    (p : Row → Bool) (xs ys : List Row) → count p (xs ++ ys) ≡ count p xs + count p ys
count-append p [] ys = omega arith
count-append p (x ∷ xs) ys = ground (arith, count-append p xs ys)

pub count-none : (p : Row → Bool) (rows : List Row) → find p rows ≡ none → count p rows ≡ 0
count-none p [] e = refl
count-none p (x ∷ xs) e = elim (Bool-cases (p x)) [
  | inl hit ↦ cc (rw hit at e)
  | inr miss ↦ rw miss (count-none p xs (rw miss at e))
]

pub length-update_rows :
    (p : Row → Bool) (f : Row → Row) (rows : List Row) → length (update_rows p f rows) ≡ length rows
unfolding update_rows
length-update_rows p f [] = refl
length-update_rows p f (x ∷ xs) = ap suc (length-update_rows p f xs)

pub length-update : (t : Table) (u : Update) → length (run (update u) t).rows ≡ length t.rows
unfolding run
length-update t u = length-update_rows (guard t.collates u) (assign t.now u) t.rows

-- A row that a query finds is the row of its id.
pub row_at-find :
    (p : Row → Bool) (rows : List Row) (r : Row)
    → Distinct rows
    → find p rows ≡ some r
    → (p r ≡ true) × (row_at r.id rows ≡ some r)
unfolding row_at
row_at-find p [] r d e = cc
row_at-find p (x ∷ xs) r d e = elim (Bool-cases (p x)) [
  | inl hit ↦
      let same : x ≡ r = cc (rw hit at e) in
      (
        subst (λ (y : Row). p y ≡ true) same hit,
        subst (λ (y : Row). (if int_eq x.id y.id then some x else row_at y.id xs) ≡ some y) same
            (rw (int_eq_refl x.id)),
      )
  | inr miss ↦
      let (pass, row) = row_at-find p xs r d.1 (rw miss at e) in
      let other : int_eq x.id r.id ≡ false = apart_named r.id x.id xs r d.0 row in
      (pass, rw other row)
]
