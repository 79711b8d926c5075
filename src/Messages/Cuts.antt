-- ===== src/Messages/Cuts.antt =====
-- The two loops of a scheduled round (pkg/queue/controller/message.go), on a table that is cut at
-- the row that the loop has come to.
use open_cidn.Base.{
  ℕ, ◌≡◌, refl, ◌∙◌, ap, subst, inl, inr, Bool, true, false, ◌&&◌, ◌==◌, if◌then◌else◌, Bool-cases,
  ℤ, int_eq, int_eq_comm, int_eq_refl, List, [], ◌∷◌, ◌++◌, map, filter, All, arith, some, ok,
}
use mathlib.Core.List.{append_assoc}
use open_cidn.Messages.Model.{
  Message, status_pending, status_processing, status_completed, status_failed, status_cleanup,
}
use open_cidn.Messages.Table.{
  Row, Table, Update, update, guard, assign, update_rows, row_eq, alive, run, unleased, is_stale,
  is_finished,
}
use open_cidn.Messages.Watch.{Watch, response_of, append_watch_channel, append_watch_list_channels}
use open_cidn.Messages.World.{◌>>=◌, exec}
use open_cidn.Messages.Dao
use open_cidn.Messages.Service
use open_cidn.Messages.Schedule
use open_cidn.Messages.WellFormed.{Distinct, update_rows-Distinct}
use open_cidn.Messages.Edges.{row_at}
use open_cidn.Messages.Rows.{at_id}
use open_cidn.Messages.Quiet.{quiet, checked, checked_hit}
use open_cidn.Messages.Leases.{settled}

abbrev pub with_rows : Table → List Row → Table
with_rows t rows = record t { rows = rows }

-- The ids of the other rows, in a table cut at one row.
pub Distinct-cut :
    (done xs : List Row) (x : Row)
    → Distinct (done ++ x ∷ xs)
    → All (λ s. int_eq s.id x.id ≡ false) done × All (λ s. int_eq s.id x.id ≡ false) xs
Distinct-cut [] xs x d = (tt, d.0)
Distinct-cut (y ∷ ys) xs x d =
    let (before, after) = Distinct-cut ys xs x d.1 in
    ((int_eq_comm y.id x.id ∙ first ys d.0, before), after)
  where
    first :
        (ys : List Row)
        → All (λ s. int_eq s.id y.id ≡ false) (ys ++ x ∷ xs)
        → int_eq x.id y.id ≡ false
    first [] h = h.0
    first (z ∷ zs) h = first zs h.1

module _ (q : Row → Bool) (f : Row → Row) (x : Row) where
  pub update_rows_past :
      (xs : List Row)
      → All (λ s. int_eq s.id x.id ≡ false) xs
      → update_rows (at_id x.id q) f xs ≡ xs
  unfolding update_rows
  update_rows_past [] h = refl
  update_rows_past (y ∷ ys) h = rw (h.0, update_rows_past ys h.1)

  -- An update of the row at the cut changes that row alone.
  pub update_rows_cut :
      (done xs : List Row)
      → All (λ s. int_eq s.id x.id ≡ false) done
      → All (λ s. int_eq s.id x.id ≡ false) xs
      → q x ≡ true
      → update_rows (at_id x.id q) f (done ++ x ∷ xs) ≡ done ++ f x ∷ xs
  unfolding update_rows
  update_rows_cut [] xs h k e = rw (int_eq_refl x.id, e, update_rows_past xs k)
  update_rows_cut (y ∷ ys) xs h k e = rw (h.0, update_rows_cut ys xs h.1 k e)

  pub row_at_cut :
      (done xs : List Row)
      → All (λ s. int_eq s.id x.id ≡ false) done
      → row_at x.id (done ++ x ∷ xs) ≡ some x
  unfolding row_at
  row_at_cut [] xs h = rw int_eq_refl
  row_at_cut (y ∷ ys) xs h = rw h.0 (row_at_cut ys xs h.1)

abbrev pub reset_update : ℤ → Update
reset_update id = Update.reset_to_pending status_pending [] id status_processing

-- What becomes of a stale row.
abbrev pub released : Row → Row
released = settled status_pending

abbrev pub release_one : ℕ → Row → Row
release_one now r = if is_stale status_processing now r then released r else r

abbrev pub stale_items : ℕ → List Row → List Message
stale_items now rows = map unleased (filter (is_stale status_processing now) rows)

-- An update of the row at the cut, in place.
pub rows_cut :
    (t : Table) (done xs : List Row) (x : Row) (u : Update) (q : Row → Bool)
    → guard t.collates u ≡ at_id x.id q
    → Distinct (done ++ x ∷ xs)
    → q x ≡ true
    → (run (update u) (with_rows t (done ++ x ∷ xs)) ≡ with_rows t (done ++ assign t.now u x ∷ xs))
      × Distinct (done ++ assign t.now u x ∷ xs)
unfolding run
rows_cut t done xs x u q e d h =
    let cut = Distinct-cut done xs x d in
    let rows : update_rows (guard t.collates u) (assign t.now u) (done ++ x ∷ xs)
        ≡ done ++ assign t.now u x ∷ xs =
      rw e (update_rows_cut q (assign t.now u) x done xs cut.0 cut.1 h) in
    (
      ap (with_rows t) rows,
      subst Distinct rows (update_rows-Distinct (guard t.collates u) t.now u (done ++ x ∷ xs) d),
    )

pub release_cut :
    (t : Table) (done xs : List Row) (x : Row) (watch : Watch)
    → Distinct (done ++ x ∷ xs)
    → is_stale status_processing t.now x ≡ true
    → (checked (reset_update x.id) (quiet (with_rows t (done ++ x ∷ xs)) watch)
        ≡ (ok tt, quiet (with_rows t (done ++ released x ∷ xs)) watch))
      × Distinct (done ++ released x ∷ xs)
unfolding guard assign row_eq is_stale
release_cut t done xs x watch d stale =
    let q = λ (s : Row). s.status == status_processing && alive s in
    let u = reset_update x.id in
    let cut = Distinct-cut done xs x d in
    let rows = rows_cut t done xs x u q refl d (ground arith) in
    let row = row_at_cut q (assign t.now u) x done xs cut.0 in
    (
      (checked_hit x.id q u (with_rows t (done ++ x ∷ xs)) watch x refl d row (ground arith) refl
            (ground arith)).0
          ∙ ap (λ (t' : Table). (ok tt, quiet t' watch)) rows.0,
      rows.1,
    )

pub release_all_lem :
    (t : Table) (done xs : List Row) (watch : Watch)
    → Distinct (done ++ xs)
    → (watch' : Watch) × (Schedule.release_all
          (stale_items t.now xs)
          (quiet (with_rows t (done ++ xs)) watch)
        ≡ (ok tt, quiet (with_rows t (done ++ map (release_one t.now) xs)) watch'))
unfolding Schedule.release_all Schedule.release_after ◌>>=◌ Service.reset_to_pending
    Dao.reset_to_pending
release_all_lem t done [] watch d = (watch, refl)
release_all_lem t done (x ∷ xs) watch d = elim (Bool-cases (is_stale status_processing t.now x)) [
  | inr fresh ↦
      let ih = release_all_lem t (done ++ x ∷ []) xs watch (simp append_assoc d) in
      rw fresh (simp append_assoc at ih)
  | inl stale ↦
      let step = release_cut t done xs x watch d stale in
      let watch' =
        append_watch_list_channels (Schedule.notice (unleased x))
          (append_watch_channel x.id (Schedule.notice (unleased x)) watch) in
      let ih = release_all_lem t (done ++ released x ∷ []) xs watch' (simp append_assoc step.1) in
      rw (stale, step.0) (simp append_assoc at ih)
]

-- The row that is marked as deleted now.
abbrev pub deleted : ℕ → Row → Row
deleted now r = record r { delete_at = some now }

abbrev pub is_done : ℕ → Row → Bool
is_done now r = is_finished status_completed status_failed now r

abbrev pub delete_one : ℕ → Row → Row
delete_one now r = if is_done now r then deleted now r else r

abbrev pub done_items : ℕ → List Row → List Message
done_items now rows = map unleased (filter (is_done now) rows)

pub delete_cut :
    (t : Table) (done xs : List Row) (x : Row) (watch : Watch)
    → Distinct (done ++ x ∷ xs)
    → is_done t.now x ≡ true
    → (Service.delete_by_id x.id (quiet (with_rows t (done ++ x ∷ xs)) watch)
        ≡ (ok tt, quiet (with_rows t (done ++ deleted t.now x ∷ xs)) watch))
      × Distinct (done ++ deleted t.now x ∷ xs)
unfolding guard assign is_finished Service.delete_by_id Dao.delete_by_id ◌>>=◌ exec
delete_cut t done xs x watch d old =
    let rows = rows_cut t done xs x (Update.delete_message x.id) alive refl d (ground arith) in
    (ap (λ (t' : Table). (ok tt, quiet t' watch)) rows.0, rows.1)

pub delete_all_lem :
    (t : Table) (done xs : List Row) (watch : Watch)
    → Distinct (done ++ xs)
    → (watch' : Watch) × (Schedule.delete_all
          (done_items t.now xs)
          (quiet (with_rows t (done ++ xs)) watch)
        ≡ (ok tt, quiet (with_rows t (done ++ map (delete_one t.now) xs)) watch'))
unfolding Schedule.delete_all ◌>>=◌
delete_all_lem t done [] watch d = (watch, refl)
delete_all_lem t done (x ∷ xs) watch d = elim (Bool-cases (is_done t.now x)) [
  | inr fresh ↦
      let ih = delete_all_lem t (done ++ x ∷ []) xs watch (simp append_assoc d) in
      rw fresh (simp append_assoc at ih)
  | inl old ↦
      let step = delete_cut t done xs x watch d old in
      let watch' =
        append_watch_list_channels
          (record (response_of (unleased x)) { status = status_cleanup; last_heartbeat = 0 })
          watch in
      let ih =
        delete_all_lem t (done ++ deleted t.now x ∷ []) xs watch' (simp append_assoc step.1) in
      rw (old, step.0) (simp append_assoc at ih)
]
