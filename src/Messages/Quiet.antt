-- ===== src/Messages/Quiet.antt =====
-- A server that is alone with its table: nobody runs statements between its own, and the
-- connection answers. What the service methods do there to the row that they name.
use open_cidn.Base.{◌≡◌, Bool, true, false, not, ◌||◌, ℤ, [], some, ok, err}
use open_cidn.Messages.Table.{
  Row, Table, Update, update, guard, assign, row_eq, alive, run, report, message_of,
}
use open_cidn.Messages.Watch.{Watch}
use open_cidn.Messages.World.{
  World, Exec, DbError, no_rows_affected, ◌>>=◌, exec, query, or_no_rows,
}
use open_cidn.Messages.Dao
use open_cidn.Messages.Service
use open_cidn.Messages.WellFormed.{Distinct}
use open_cidn.Messages.Edges.{row_at}
use open_cidn.Messages.Rows.{at_id, update_rows_miss, update_rows_hit, find-by_id}

abbrev pub quiet : Table → Watch → World
quiet t watch = record { table = t; turns = []; watch = watch }

-- A service method: an update that fails where it affects no row.
abbrev pub checked : Update → Exec DbError (Unit {0})
checked u = exec (update u) >>= λ n. Service.some_affected n

module _ (id : ℤ) (q : Row → Bool) (u : Update) (t : Table) (watch : Watch) (r : Row)
    (clause : guard t.collates u ≡ at_id id q) (distinct : Distinct t.rows)
    (named : row_at id t.rows ≡ some r) where
  -- The named row does not meet the rest of the clause: an error, and nothing has changed.
  pub checked_miss : q r ≡ false → checked u (quiet t watch) ≡ (err no_rows_affected, quiet t watch)
  unfolding ◌>>=◌ exec run report Service.some_affected
  checked_miss h =
      let m = update_rows_miss id q (assign t.now u) t.rows r distinct named h t.found_rows in
      rw (clause, m.0, m.1)

  -- It does, and it changes or the driver counts the rows found.
  pub checked_hit :
      q r ≡ true
      → (assign t.now u r).id ≡ r.id
      → (t.found_rows || not (row_eq r (assign t.now u r))) ≡ true
      → (checked u (quiet t watch) ≡ (ok tt, quiet (run (update u) t) watch))
        × (row_at id (run (update u) t).rows ≡ some (assign t.now u r))
  unfolding ◌>>=◌ exec run report Service.some_affected
  checked_hit h k c =
      let m = update_rows_hit id q (assign t.now u) t.rows r distinct named h k t.found_rows in
      (rw (clause, m.1, c), rw clause m.0)

  -- It does, it does not change, and the driver counts the rows changed.
  pub checked_same :
      q r ≡ true
      → (assign t.now u r).id ≡ r.id
      → (t.found_rows || not (row_eq r (assign t.now u r))) ≡ false
      → checked u (quiet t watch) ≡ (err no_rows_affected, quiet (run (update u) t) watch)
  unfolding ◌>>=◌ exec run report Service.some_affected
  checked_same h k c =
      let m = update_rows_hit id q (assign t.now u) t.rows r distinct named h k t.found_rows in
      rw (clause, m.1, c)

module _ (id : ℤ) (t : Table) (watch : Watch) (r : Row) (named : row_at id t.rows ≡ some r) where
  pub get_by_id_hit :
      alive r ≡ true → Service.get_by_id id (quiet t watch) ≡ (ok (message_of r), quiet t watch)
  unfolding ◌>>=◌ query Service.get_by_id Dao.get_by_id or_no_rows
  get_by_id_hit h = rw (find-by_id id t.rows r named h)
