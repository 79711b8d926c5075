-- ===== src/Examples/Tables.antt =====
-- The theorems on all sequences of requests, and on rounds, on the table of the examples.
use open_cidn.Base.{◌≡◌, refl, inl, int_eq, pos, bytes, some, List, [], ◌∷◌, arith, ap}
use open_cidn.Messages.Model.{status_pending}
use open_cidn.Messages.Table.{Table, is_stale, is_finished}
use open_cidn.Messages.Calls.{Call, serve, serve_all}
use open_cidn.Messages.Schedule
use open_cidn.Messages.Controller
use open_cidn.Messages.WellFormed.{IsWellFormed, serve_all-IsWellFormed}
use open_cidn.Messages.Edges.{row_at, Outlives}
use open_cidn.Messages.History.{serve_all-History, serve_all-IsFinal}
use open_cidn.Messages.Quiet.{quiet}
use open_cidn.Messages.Leases.{lease_body, settled}
use open_cidn.Messages.Rounds.{tidied, round_lem, consume_then_round}
use open_cidn.Messages.Cuts.{with_rows}
use open_cidn.Examples.Data.{
  jobs, jobs-IsWellFormed, no_watch, busy, waiting_row, done_row, row_1, row_3, id_1, blank,
  not_empty, asks,
}

abbrev calls : List Call
calls =
    Call.create (some (asks (bytes "e") (pos 2)))
    ∷ Call.consume (bytes "1") (lease_body (bytes "w"))
    ∷ Call.tick
    ∷ []

serve_all-IsWellFormed_example : IsWellFormed (serve_all calls busy).table
serve_all-IsWellFormed_example =
    serve_all-IsWellFormed calls busy (((refl, refl), tt), (tt, tt)) jobs-IsWellFormed

serve_all-History_example : Outlives waiting_row (serve_all calls busy).table
serve_all-History_example =
    serve_all-History calls busy waiting_row (((refl, refl), tt), (tt, tt)) jobs-IsWellFormed row_1

done_stays :
    row_at (pos 3) (serve_all (Call.tick ∷ []) (quiet jobs no_watch)).table.rows ≡ some done_row
unfolding serve_all serve row_at int_eq is_stale is_finished
done_stays =
    ap (λ (t : Table). row_at (pos 3) t.rows) (round_lem jobs no_watch jobs-IsWellFormed.distinct)

serve_all-IsFinal_example : (done_row.status ≡ done_row.status) × (done_row.lease ≡ done_row.lease)
serve_all-IsFinal_example =
    serve_all-IsFinal (Call.tick ∷ []) (quiet jobs no_watch) done_row done_row tt jobs-IsWellFormed
      row_3 (inl refl) done_stays

round_lem_example :
    (Schedule.round (quiet jobs no_watch)).1.table ≡ with_rows jobs (tidied 100 jobs.rows)
round_lem_example = round_lem jobs no_watch jobs-IsWellFormed.distinct

consume_then_round_example :
    row_at
      (pos 1)
      (Schedule.round
        (Controller.consume
          (bytes "1")
          (lease_body (bytes "w"))
          (quiet jobs no_watch)).1).1.table.rows
    ≡ some (settled status_pending waiting_row)
consume_then_round_example =
    consume_then_round (bytes "1") (pos 1) jobs no_watch waiting_row (bytes "w") id_1
      jobs-IsWellFormed row_1 refl refl refl blank (not_empty _ _) (omega arith)
