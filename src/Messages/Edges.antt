-- ===== src/Messages/Edges.antt =====
-- The life of a message: pending, processing under a lease, and then completed, failed, or pending
-- again. A row is followed by its id, which is never given out twice.
use open_cidn.Base.{
  ℕ, ◌≡◌, refl, ◌≢◌, ◌⊎◌, inl, inr, Bool, true, false, if◌then◌else◌, Bool-cases, ℤ, int_eq,
  int_eq_iff, Bytes, List, [], ◌∷◌, ◌++◌, All, filter, arith, Option, some, none, All-filter,
}
use mathlib.Core.Option
use open_cidn.Messages.WellFormed.{Distinct}
use open_cidn.Messages.Model.{status_pending, status_processing, status_completed, status_failed}
use open_cidn.Messages.Table.{Row, Table, Update, guard, assign, update_rows}
use open_cidn.Messages.Issued.{IsIssuedUpdate}

-- One change of a row.
pub data Edge (r s : Row) : Type 0 where
  stays : s.status ≡ r.status → s.lease ≡ r.lease → Edge r s
  taken :
      r.status ≡ status_pending
      → r.delete_at ≡ none
      → s.status ≡ status_processing
      → s.lease ≢ []
      → Edge r s
  completes : r.status ≡ status_processing → s.status ≡ status_completed → s.lease ≡ [] → Edge r s
  fails : r.status ≡ status_processing → s.status ≡ status_failed → s.lease ≡ [] → Edge r s
  returns : r.status ≡ status_processing → s.status ≡ status_pending → s.lease ≡ [] → Edge r s

pub data History (r : Row) : Row → Type 0 where
  here : History r r
  moved : {s t : Row} → History r s → Edge s t → t.id ≡ s.id → t.content ≡ s.content → History r t

pub assign-Edge :
    (same : Bytes → Bytes → Bool) (now : ℕ) (u : Update) (r : Row)
    → IsIssuedUpdate u
    → guard same u r ≡ true
    → Edge r (assign now u r)
unfolding guard assign
assign-Edge same now (Update.update_message content lease priority status attr id) r i g = absurd i
assign-Edge same now (Update.update_priority priority id bound) r i g = stays refl refl
assign-Edge same now (Update.delete_message id) r i g = stays refl refl
assign-Edge same now (Update.consume status lease id old_status old_lease) r i g =
    taken (ground arith) (ground arith) i.0 i.1
assign-Edge same now (Update.heartbeat attr id lease status) r i g = stays refl refl
assign-Edge same now (Update.completed status lease id old_lease old_status) r i g =
    completes (ground arith) i.0 i.1
assign-Edge same now (Update.set_failed status lease attr id old_lease old_status) r i g =
    fails (ground arith) i.0 i.1
assign-Edge same now (Update.cancel lease status id old_lease old_status) r i g =
    returns (ground arith) i.0 i.1
assign-Edge same now (Update.reset_to_pending status lease id old_status) r i g =
    returns (ground arith) i.0 i.1

pub assign_kept :
    (now : ℕ) (u : Update) (r : Row)
    → IsIssuedUpdate u
    → ((assign now u r).id ≡ r.id) × ((assign now u r).content ≡ r.content)
unfolding assign
assign_kept now (Update.update_message content lease priority status attr id) r i = absurd i
assign_kept now u r i = ground arith

-- The row of an id, deleted or not.
unfoldable pub row_at : ℤ → List Row → Option Row
row_at id [] = none
row_at id (r ∷ rs) = if int_eq r.id id then some r else row_at id rs

-- What became of the row `r`: it is gone for good, or it came by a history to what it is.
pub data Outlives (r : Row) (t : Table) : Type 0 where
  gone : row_at r.id t.rows ≡ none → Outlives r t
  lives : (s : Row) → row_at r.id t.rows ≡ some s → History r s → Outlives r t

module _ (same : Bytes → Bytes → Bool) (now : ℕ) (u : Update) (i : IsIssuedUpdate u) where
  abbrev pub after_one : Row → Row
  after_one r = if guard same u r then assign now u r else r

  pub id-after_one : (r : Row) → (after_one r).id ≡ r.id
  id-after_one r = ground (arith, (assign_kept now u r i).0)

  pub after_one-Edge : (r : Row) → Edge r (after_one r)
  after_one-Edge r = elim (Bool-cases (guard same u r)) [
    | inl g ↦ rw g (assign-Edge same now u r i g)
    | inr g ↦ rw g (stays refl refl)
  ]

  pub after_one_kept : (r : Row) → ((after_one r).id ≡ r.id) × ((after_one r).content ≡ r.content)
  after_one_kept r = ground (arith, assign_kept now u r i)

  -- The row of an id after an update is the updated row of that id.
  pub row_at-update_rows :
      (id : ℤ) (rows : List Row)
      → row_at id (update_rows (guard same u) (assign now u) rows)
        ≡ Option.map after_one (row_at id rows)
  unfolding row_at update_rows
  row_at-update_rows id [] = refl
  row_at-update_rows id (r ∷ rs) = elim (Bool-cases (int_eq r.id id)) [
    | inl hit ↦ rw (id-after_one r, hit)
    | inr miss ↦ rw (id-after_one r, miss) (row_at-update_rows id rs)
  ]

pub row_at-append :
    (id : ℤ) (rows : List Row) (r : Row)
    → int_eq r.id id ≡ false
    → row_at id (rows ++ r ∷ []) ≡ row_at id rows
unfolding row_at
row_at-append id [] r h = rw h
row_at-append id (x ∷ xs) r h = rw (row_at-append id xs r h)

pub row_at_apart :
    (id : ℤ) (rows : List Row) → All (λ s. int_eq s.id id ≡ false) rows → row_at id rows ≡ none
unfolding row_at
row_at_apart id [] h = refl
row_at_apart id (x ∷ xs) h = rw h.0 (row_at_apart id xs h.1)

-- Deleting rows for good removes the row of an id or leaves it.
pub row_at-filter :
    (id : ℤ) (p : Row → Bool) (rows : List Row)
    → Distinct rows
    → (row_at id (filter p rows) ≡ none) ⊎ (row_at id (filter p rows) ≡ row_at id rows)
unfolding row_at
row_at-filter id p [] d = inl refl
row_at-filter id p (x ∷ xs) d = elim (Bool-cases (p x)) [
  | inl keep ↦ rw keep (elim (Bool-cases (int_eq x.id id)) [
    | inl hit ↦ rw hit (inr refl)
    | inr miss ↦ rw miss (row_at-filter id p xs d.1)
  ])
  | inr drop ↦ rw drop (elim (Bool-cases (int_eq x.id id)) [
    | inl hit ↦ inl (
        row_at_apart id (filter p xs)
          (All-filter _ p xs (let e : x.id ≡ id = (int_eq_iff x.id id).0 hit in rw e at d.0)))
    | inr miss ↦ rw miss (row_at-filter id p xs d.1)
  ])
]
