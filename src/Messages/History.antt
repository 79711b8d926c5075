-- ===== src/Messages/History.antt =====
-- The life of a message through every sequence of requests, rounds and foreign statements.
use open_cidn.Base.{
  ℕ, ◌≡◌, refl, sym, ◌⊎◌, inl, inr, not, Bool-cases, ℤ, pos, negsuc, int_eq, IsAssigned, new_apart,
  int_eq_iff, List, [], ◌∷◌, All, arith, some, ap, subst, ◌∙◌,
}
use open_cidn.Messages.WellFormed.{IsSound, IsWellFormed, IsWellFormed-stable}
use open_cidn.Messages.Model.{status_completed, status_failed}
use open_cidn.Messages.Table.{Row, Table, Statement, insert, update, clean_up, run, purged}
use open_cidn.Messages.Issued.{IsIssued, IsStable, TurnsIssued}
use open_cidn.Messages.World.{World}
use open_cidn.Messages.Calls.{Call, serve_all, serve_all-keeps}
use open_cidn.Messages.Edges.{
  Edge, stays, taken, completes, fails, returns, History, here, moved, row_at, Outlives, gone,
  lives, after_one, after_one-Edge, after_one_kept, row_at-update_rows, row_at-append,
  row_at-filter,
}

-- The table is well formed, has given out the id of `r`, and `r` has had a history.
pub record Follows (r : Row) (t : Table) : Type 0 where
  pub formed : IsWellFormed t
  pub assigned : IsAssigned t.next_id r.id
  pub outlives : Outlives r t

run-Outlives :
    (r : Row) (s : Statement) (t : Table)
    → IsIssued s
    → IsWellFormed t
    → IsAssigned t.next_id r.id
    → Outlives r t
    → Outlives r (run s t)
unfolding run
run-Outlives r (insert content lease priority status attr) t i w a (gone e) =
    gone (row_at-append r.id t.rows _ (new_apart t.next_id r.id a) ∙ e)
run-Outlives r (insert content lease priority status attr) t i w a (lives s e h) =
    lives s (row_at-append r.id t.rows _ (new_apart t.next_id r.id a) ∙ e) h
run-Outlives r (update u) t i w a (gone e) =
    gone (rw (row_at-update_rows t.collates t.now u i r.id t.rows, e))
run-Outlives r (update u) t i w a (lives s e h) =
    lives (after_one t.collates t.now u i s)
      (rw (row_at-update_rows t.collates t.now u i r.id t.rows, e))
      (moved h (after_one-Edge t.collates t.now u i s) (after_one_kept t.collates t.now u i s).0
        (after_one_kept t.collates t.now u i s).1)
run-Outlives r clean_up t i w a o =
    elim (row_at-filter r.id (λ x. not (purged t.now x)) t.rows w.distinct) [
      | inl e ↦ gone e
      | inr e ↦ elim o [ gone f ↦ gone (e ∙ f) | lives s f h ↦ lives s (e ∙ f) h ]
    ]

run-IsAssigned :
    (s : Statement) (t : Table) (id : ℤ) → IsAssigned t.next_id id → IsAssigned (run s t).next_id id
unfolding run
run-IsAssigned (insert content lease priority status attr) t (pos k) a = omega arith
run-IsAssigned (insert content lease priority status attr) t (negsuc k) a = a
run-IsAssigned (update u) t id a = a
run-IsAssigned clean_up t id a = a

pub Follows-stable : (r : Row) → IsStable (Follows r)
Follows-stable r = record {
  by_run = λ s t i f. record {
    formed = IsWellFormed-stable.by_run s t i f.formed;
    assigned = run-IsAssigned s t r.id f.assigned;
    outlives = run-Outlives r s t i f.formed f.assigned f.outlives;
  };
  by_time = λ n t f. record {
    formed = IsWellFormed-stable.by_time n t f.formed;
    assigned = f.assigned;
    outlives = elim f.outlives [ gone e ↦ gone e | lives s e h ↦ lives s e h ];
  };
}

row_at-IsAssigned :
    (id : ℤ) (next now : ℕ) (rows : List Row) (r : Row)
    → All (IsSound next now) rows
    → row_at id rows ≡ some r
    → (r.id ≡ id) × IsAssigned next r.id
unfolding row_at
row_at-IsAssigned id next now [] r s e = cc
row_at-IsAssigned id next now (x ∷ xs) r s e = elim (Bool-cases (int_eq x.id id)) [
  | inl hit ↦
      let same : x ≡ r = cc (rw hit at e) in
      (
        ap (λ (y : Row). y.id) (sym same) ∙ (int_eq_iff x.id id).0 hit,
        subst (λ (y : Row). IsAssigned next y.id) same s.0.assigned,
      )
  | inr miss ↦ row_at-IsAssigned id next now xs r s.1 (rw miss at e)
]

-- Whatever is requested and whatever the other servers do, from a well-formed table: a row that is
-- in the table before is either no longer there, or it has come from what it was by steps of the
-- diagram (taken from pending with a lease; from processing to completed, failed or pending without
-- a lease), and its id and content are as before.
pub serve_all-History :
    (cs : List Call) (w : World) (r : Row)
    → TurnsIssued w.turns
    → IsWellFormed w.table
    → row_at r.id w.table.rows ≡ some r
    → Outlives r (serve_all cs w).table
serve_all-History cs w r ts wf e =
    (serve_all-keeps (Follows-stable r) cs w ts (record {
      formed = wf;
      assigned = (row_at-IsAssigned r.id w.table.next_id w.table.now w.table.rows r wf.sound e).1;
      outlives = lives r e here;
    })).outlives

-- A completed or failed row stays so along every history, and without a lease.
abbrev pub IsFinal : Row → Type 0
IsFinal r = (r.status ≡ status_completed) ⊎ (r.status ≡ status_failed)

History-IsFinal :
    {r s : Row} → IsFinal r → History r s → (s.status ≡ r.status) × (s.lease ≡ r.lease)
History-IsFinal f here = (refl, refl)
History-IsFinal {r} f (moved {s = m} h e i c) = final_edge e (History-IsFinal f h)
  where
    final_edge :
        {s : Row}
        → Edge m s
        → (m.status ≡ r.status) × (m.lease ≡ r.lease)
        → (s.status ≡ r.status) × (s.lease ≡ r.lease)
    final_edge (stays a b) k = (a ∙ k.0, b ∙ k.1)
    final_edge (taken a d b c) k = ground arith
    final_edge (completes a b c) k = ground arith
    final_edge (fails a b c) k = ground arith
    final_edge (returns a b c) k = ground arith

-- From a well-formed table, whatever is requested and whatever the other servers do: a completed or
-- failed row that is still there has the status and the lease that it had.
pub serve_all-IsFinal :
    (cs : List Call) (w : World) (r s : Row)
    → TurnsIssued w.turns
    → IsWellFormed w.table
    → row_at r.id w.table.rows ≡ some r
    → IsFinal r
    → row_at r.id (serve_all cs w).table.rows ≡ some s
    → (s.status ≡ r.status) × (s.lease ≡ r.lease)
serve_all-IsFinal cs w r s ts wf e f found = elim (serve_all-History cs w r ts wf e) [
  | gone g ↦ cc
  | lives m g h ↦
      let same : m ≡ s = cc (sym g ∙ found) in
      subst (λ (x : Row). (x.status ≡ r.status) × (x.lease ≡ r.lease)) same (History-IsFinal f h)
]
