-- ===== src/Examples/Workers.antt =====
-- The theorems on the calls of workers, on the table of the examples.
use open_cidn.Base.{
  ◌≡◌, refl, ok, err, true, false, int_eq, int_lt, pos, Bytes, bytes, str_eq, some,
}
use open_cidn.Messages.Model.{zero_attr, status_completed}
use open_cidn.Messages.Table.{run, update, message_of}
use open_cidn.Messages.Watch.{response_of}
use open_cidn.Messages.Request.{fails, entity, no_content}
use open_cidn.Messages.Controller
use open_cidn.Messages.Edges.{row_at}
use open_cidn.Messages.Quiet.{quiet}
use open_cidn.Messages.Leases.{
  lease_body, attr_body, told, held, leased, settled, consume_update, complete_update, consume_ok,
  complete_ok, stranger_refused,
}
use open_cidn.Messages.Exclusion.{consume_once, heartbeat_repeated}
use open_cidn.Examples.Data.{
  jobs, jobs-IsWellFormed, same_second, same_second-IsWellFormed, no_watch, waiting_row, held_row,
  row_1, row_2, id_1, id_2, blank, not_empty,
}

abbrev me : Bytes
me = bytes "w"

abbrev you : Bytes
you = bytes "x"

mine : held jobs me held_row ≡ true
unfolding str_eq
mine = refl

not_yours : held jobs you held_row ≡ false
unfolding str_eq
not_yours = refl

consume_ok_example :
    (Controller.consume (bytes "1") (lease_body me) (quiet jobs no_watch) ≡ (
      ok (entity 200 (response_of (message_of (leased me waiting_row)))),
      quiet
          (run (update (consume_update (pos 1) me)) jobs)
          (told (pos 1) (response_of (message_of (leased me waiting_row))) no_watch),
    ))
    × (row_at (pos 1) (run (update (consume_update (pos 1) me)) jobs).rows
        ≡ some (leased me waiting_row))
consume_ok_example =
    consume_ok (bytes "1") (pos 1) jobs no_watch waiting_row id_1 jobs-IsWellFormed row_1 me
      (not_empty _ _) refl refl refl blank

complete_ok_example :
    (Controller.complete (bytes "2") (lease_body me) (quiet jobs no_watch) ≡ (
      ok no_content,
      quiet
          (run (update (complete_update (pos 2) me)) jobs)
          (told (pos 2) (response_of (message_of (settled status_completed held_row))) no_watch),
    ))
    × (row_at (pos 2) (run (update (complete_update (pos 2) me)) jobs).rows
        ≡ some (settled status_completed held_row))
complete_ok_example =
    complete_ok (bytes "2") (pos 2) jobs no_watch held_row id_2 jobs-IsWellFormed row_2 me
      (not_empty _ _) mine

stranger_refused_example :
    (Controller.complete (bytes "2") (lease_body you) (quiet jobs no_watch)
      ≡ (err (fails 406 (bytes "MessageNotAcceptabledError")), quiet jobs no_watch))
    × (Controller.cancel (bytes "2") (lease_body you) (quiet jobs no_watch)
        ≡ (err (fails 406 (bytes "MessageNotAcceptableError")), quiet jobs no_watch))
    × (Controller.fail (bytes "2") (attr_body you zero_attr) (quiet jobs no_watch)
        ≡ (err (fails 406 (bytes "MessageNotAcceptableError")), quiet jobs no_watch))
    × (Controller.heartbeat (bytes "2") (attr_body you zero_attr) (quiet jobs no_watch)
        ≡ (err (fails 406 (bytes "MessageNotAcceptableError")), quiet jobs no_watch))
stranger_refused_example =
    stranger_refused (bytes "2") (pos 2) jobs no_watch held_row id_2 jobs-IsWellFormed row_2 you
      zero_attr (not_empty _ _) refl not_yours

consume_once_example :
    Controller.consume
      (bytes "1")
      (lease_body you)
      (Controller.consume (bytes "1") (lease_body me) (quiet jobs no_watch)).1
    ≡ (
      err (fails 406 (bytes "MessageNotAcceptableError")),
      (Controller.consume (bytes "1") (lease_body me) (quiet jobs no_watch)).1,
    )
consume_once_example =
    consume_once (bytes "1") (bytes "1") (pos 1) jobs no_watch waiting_row me you id_1 id_1
      jobs-IsWellFormed row_1 refl refl refl blank (not_empty _ _) (not_empty _ _)

nothing_new :
    record held_row { last_heartbeat = 90; attr = Controller.merge zero_attr zero_attr } ≡ held_row
unfolding Controller.merge int_eq int_lt
nothing_new = refl

heartbeat_repeated_example :
    (Controller.heartbeat (bytes "2") (attr_body me zero_attr) (quiet same_second no_watch)).0
    ≡ err (fails 406 (bytes "MessageNotAcceptableError"))
heartbeat_repeated_example =
    heartbeat_repeated (bytes "2") (pos 2) same_second no_watch held_row zero_attr id_2
      same_second-IsWellFormed row_2 me (not_empty _ _) mine refl nothing_new
