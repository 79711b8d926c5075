-- ===== src/Examples/Creating.antt =====
-- The theorems on `Create`, on the table of the examples.
use open_cidn.Base.{◌≡◌, refl, ok, true, pos, bytes, str_eq, some, none, find, count, length}
use open_cidn.Messages.Model.{zero_attr}
use open_cidn.Messages.Table.{Row, message_of, by_content}
use open_cidn.Messages.Watch.{response_of}
use open_cidn.Messages.Request.{entity}
use open_cidn.Messages.Controller
use open_cidn.Messages.Quiet.{quiet}
use open_cidn.Messages.Create.{racing, fresh, higher, create_twice, create_race}
use open_cidn.Messages.Edges.{row_at}
use open_cidn.Examples.Data.{jobs, jobs-IsWellFormed, no_watch, asks}

unknown : find (by_content jobs.collates (bytes "e")) jobs.rows ≡ none
unfolding by_content str_eq
unknown = refl

itself : jobs.collates (bytes "e") (bytes "e") ≡ true
unfolding str_eq
itself = refl

abbrev new : Row
new = fresh (asks (bytes "e") (pos 2)) jobs no_watch

create_twice_example :
    ((Controller.create
        (some (asks (bytes "e") (pos 5)))
        (Controller.create (some (asks (bytes "e") (pos 2))) (quiet jobs no_watch)).1).0
      ≡ ok (
          entity 200 (response_of (message_of (record new { priority = higher (pos 2) (pos 5) })))))
    × (row_at new.id
          (Controller.create
            (some (asks (bytes "e") (pos 5)))
            (Controller.create
              (some (asks (bytes "e") (pos 2)))
              (quiet jobs no_watch)).1).1.table.rows
        ≡ some (record new { priority = higher (pos 2) (pos 5) }))
    × (length
          (Controller.create
            (some (asks (bytes "e") (pos 5)))
            (Controller.create
              (some (asks (bytes "e") (pos 2)))
              (quiet jobs no_watch)).1).1.table.rows
        ≡ 4)
create_twice_example =
    create_twice (asks (bytes "e") (pos 2)) (asks (bytes "e") (pos 5)) jobs no_watch refl unknown
      itself jobs-IsWellFormed

create_race_example :
    ((Controller.answer
        (Controller.create
          (some (asks (bytes "e") (pos 2)))
          (racing (asks (bytes "e") (pos 2)) (pos 1) zero_attr jobs no_watch)).0).code
      ≡ 201)
    × (count
          (by_content str_eq (bytes "e"))
          (Controller.create
            (some (asks (bytes "e") (pos 2)))
            (racing (asks (bytes "e") (pos 2)) (pos 1) zero_attr jobs no_watch)).1.table.rows
        ≡ 2)
create_race_example =
    create_race (asks (bytes "e") (pos 2)) jobs no_watch (pos 1) zero_attr unknown itself
