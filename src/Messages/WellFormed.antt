-- ===== src/Messages/WellFormed.antt =====
-- What holds of the table between statements.
use open_cidn.Base.{
  ℕ, suc, ◌+◌, ◌≤◌, ◌≡◌, refl, ◌≢◌, ◌⊎◌, inl, inr, Bool, true, false, ℤ, pos, negsuc, int_eq,
  IsAssigned, new_apart, Bytes, List, [], ◌∷◌, ◌++◌, All, filter, arith, Bool-cases, All-append,
  All-filter, All-mono,
}
use open_cidn.Messages.Model.{status_pending, status_processing, status_completed, status_failed}
use open_cidn.Messages.Table.{
  Row, Table, Update, Statement, insert, update, clean_up, run, guard, assign, update_rows,
}
use open_cidn.Messages.Issued.{IsIssued, IsIssuedUpdate, IsStable, TurnsIssued}
use open_cidn.Messages.World.{World}
use open_cidn.Messages.Calls.{Call, serve_all, serve_all-keeps}

-- A row has one of the four statuses, and a lease exactly while it is processing.
pub record IsSound (next now : ℕ) (r : Row) : Type 0 where
  pub assigned : IsAssigned next r.id
  pub beaten : r.last_heartbeat ≤ now
  pub status :
      ((r.status ≡ status_pending) × (r.lease ≡ []))
      ⊎ ((r.status ≡ status_processing) × (r.lease ≢ []))
      ⊎ ((r.status ≡ status_completed) × (r.lease ≡ []))
      ⊎ ((r.status ≡ status_failed) × (r.lease ≡ []))

abbrev pub Distinct : List Row → Type 0
Distinct [] = Unit
Distinct (r ∷ rs) = All (λ s. int_eq s.id r.id ≡ false) rs × Distinct rs

pub record IsWellFormed (t : Table) : Type 0 where
  pub sound : All (IsSound t.next_id t.now) t.rows
  pub distinct : Distinct t.rows

assign-id : (now : ℕ) (u : Update) (r : Row) → (assign now u r).id ≡ r.id
unfolding assign
assign-id now u r = ground arith

assign-IsSound :
    (same : Bytes → Bytes → Bool) (next now : ℕ) (u : Update) (r : Row)
    → IsIssuedUpdate u
    → guard same u r ≡ true
    → IsSound next now r
    → IsSound next now (assign now u r)
unfolding assign guard
assign-IsSound same next now (Update.update_message a b c d e f) r i g h = absurd i
assign-IsSound same next now u r i g h = ground arith

update_rows-IsSound :
    (next : ℕ) (t : Table) (u : Update) (rows : List Row)
    → IsIssuedUpdate u
    → All (IsSound next t.now) rows
    → All (IsSound next t.now) (update_rows (guard t.collates u) (assign t.now u) rows)
unfolding update_rows
update_rows-IsSound next t u [] i h = tt
update_rows-IsSound next t u (r ∷ rs) i h = (
  elim (Bool-cases (guard t.collates u r)) [
    | inl e ↦ rw e (assign-IsSound t.collates next t.now u r i e h.0)
    | inr e ↦ rw e h.0
  ],
  update_rows-IsSound next t u rs i h.1,
)

apart-update_rows :
    (id : ℤ) (p : Row → Bool) (now : ℕ) (u : Update) (rows : List Row)
    → All (λ s. int_eq s.id id ≡ false) rows
    → All (λ s. int_eq s.id id ≡ false) (update_rows p (assign now u) rows)
unfolding update_rows
apart-update_rows id p now u [] h = tt
apart-update_rows id p now u (r ∷ rs) h = (
  elim (Bool-cases (p r)) [ inl e ↦ rw (e, assign-id now u r) h.0 | inr e ↦ rw e h.0 ],
  apart-update_rows id p now u rs h.1,
)

pub update_rows-Distinct :
    (p : Row → Bool) (now : ℕ) (u : Update) (rows : List Row)
    → Distinct rows
    → Distinct (update_rows p (assign now u) rows)
unfolding update_rows
update_rows-Distinct p now u [] d = tt
update_rows-Distinct p now u (r ∷ rs) d = (
  elim (Bool-cases (p r)) [
    | inl e ↦ rw (e, assign-id now u r) (apart-update_rows r.id p now u rs d.0)
    | inr e ↦ rw e (apart-update_rows r.id p now u rs d.0)
  ],
  update_rows-Distinct p now u rs d.1,
)

filter-Distinct : (p : Row → Bool) (rows : List Row) → Distinct rows → Distinct (filter p rows)
filter-Distinct p [] d = tt
filter-Distinct p (r ∷ rs) d = elim (Bool-cases (p r)) [
  | inl e ↦ rw e (All-filter _ p rs d.0, filter-Distinct p rs d.1)
  | inr e ↦ rw e (filter-Distinct p rs d.1)
]

append-Distinct :
    (n now : ℕ) (rows : List Row) (r : Row)
    → r.id ≡ pos n
    → All (IsSound n now) rows
    → Distinct rows
    → Distinct (rows ++ r ∷ [])
append-Distinct n now [] r e s d = (tt, tt)
append-Distinct n now (x ∷ xs) r e s d = (
  All-append _ xs (r ∷ []) d.0 (rw e (new_apart n x.id s.0.assigned), tt),
  append-Distinct n now xs r e s.1 d.1,
)

IsSound-mono :
    (n m now later : ℕ) → n ≤ m → now ≤ later → (r : Row) → IsSound n now r → IsSound m later r
IsSound-mono n m now later h k r s = record {
  assigned = wider r.id s.assigned;
  beaten = omega arith;
  status = s.status;
}
  where
    wider : (id : ℤ) → IsAssigned n id → IsAssigned m id
    wider (pos i) a = omega arith
    wider (negsuc i) a = a

run-IsWellFormed :
    (s : Statement) (t : Table) → IsIssued s → IsWellFormed t → IsWellFormed (run s t)
unfolding run
run-IsWellFormed (insert content lease priority status attr) t i h = record {
  sound =
      All-append _ t.rows _
        (All-mono _ _
          (IsSound-mono t.next_id (suc t.next_id) t.now t.now (omega arith) (omega arith)) t.rows
          h.sound)
        (record { assigned = omega arith; beaten = omega arith; status = inl (i.1, i.0) }, tt);
  distinct = append-Distinct t.next_id t.now t.rows _ refl h.sound h.distinct;
}
run-IsWellFormed (update u) t i h = record {
  sound = update_rows-IsSound t.next_id t u t.rows i h.sound;
  distinct = update_rows-Distinct _ t.now u t.rows h.distinct;
}
run-IsWellFormed clean_up t i h = record {
  sound = All-filter _ _ t.rows h.sound;
  distinct = filter-Distinct _ t.rows h.distinct;
}

pub IsWellFormed-stable : IsStable IsWellFormed
IsWellFormed-stable = record {
  by_run = run-IsWellFormed;
  by_time = λ n t h. record {
    sound =
        All-mono _ _
          (IsSound-mono t.next_id t.next_id t.now (t.now + n) (omega arith) (omega arith)) t.rows
          h.sound;
    distinct = h.distinct;
  };
}

-- Whatever is requested, in whatever order, with whatever statements of the dao, as its handlers
-- send them, the other servers run between two statements, and whichever statements fail: from a
-- well-formed table the server comes to one. Ids stay distinct and below the next one, every status
-- is one of pending, processing, completed and failed, no heartbeat lies ahead of the clock, and a
-- row has a lease exactly while it is processing.
pub serve_all-IsWellFormed :
    (cs : List Call) (w : World)
    → TurnsIssued w.turns
    → IsWellFormed w.table
    → IsWellFormed (serve_all cs w).table
serve_all-IsWellFormed cs w ts h = serve_all-keeps IsWellFormed-stable cs w ts h
