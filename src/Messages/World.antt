-- ===== src/Messages/World.antt =====
-- What a request's code runs in: the table, the statements that other clients run before each of
-- its own, whether the connection answers, and the watch channels. A method that returns
-- `(value, error)` is an action with errors in `E`; an early return with a response is an error too.
use open_cidn.Base.{ℕ, ◌+◌, Result, ok, err, Option, none, some, List, [], ◌∷◌}
use open_cidn.Messages.Table.{Table, Statement, run, report}
use open_cidn.Messages.Watch.{Watch}

-- What happens elsewhere between two statements of a request.
pub data Event : Type 0 where
  sql : Statement → Event
  passes : ℕ → Event

-- A statement is carried out and answered, or refused, or carried out with the answer lost.
pub data Outcome : Type 0 where
  answered refused lost : Outcome

pub record Turn : Type 0 where
  pub before : List Event
  pub outcome : Outcome

pub record World : Type 0 where
  pub table : Table
  pub turns : List Turn
  pub watch : Watch

unfoldable pub happen : List Event → Table → Table
happen [] t = t
happen (sql s ∷ es) t = happen es (run s t)
happen (passes n ∷ es) t = happen es (record t { now = t.now + n })

-- The error values that the code tells apart.
pub data DbError : Type 0 where
  no_rows failed no_rows_affected : DbError

abbrev pub Exec : Type 0 → Type 0 → Type 0
Exec E A = World → Result E A × World

module _ {E A : Type 0} where
  unfoldable pub pure : A → Exec E A
  pure a w = (ok a, w)

  unfoldable pub raise : E → Exec E A
  raise e w = (err e, w)

abbrev pub relabel : {E F A : Type 0} → (E → F) → Result E A → Result F A
relabel g (ok a) = ok a
relabel g (err e) = err (g e)

-- `if err != nil { return g(err) }`.
infixl 6 ◌or◌
unfoldable pub ◌or◌ : {E F A : Type 0} → Exec E A → (E → F) → Exec F A
◌or◌ m g w = (relabel g (m w).0, (m w).1)

-- The error as a value, for code that goes on after looking at it.
unfoldable pub attempt : {E F A : Type 0} → Exec E A → Exec F (Result E A)
attempt m w = (ok (m w).0, (m w).1)

-- A change of the controller's channels.
unfoldable pub register : {E A : Type 0} → (Watch → A × Watch) → Exec E A
register f w = let (a, watch) = f w.watch in (ok a, record w { watch = watch })

module _ {E A B : Type 0} where
  abbrev pub continue : (A → Exec E B) → Result E A → Exec E B
  continue f (ok a) w = f a w
  continue f (err e) w = (err e, w)

  -- Opening this opens the actions above too.
  infixl 5 ◌>>=◌ ◌>>◌
  unfoldable pub ◌>>=◌ : Exec E A → (A → Exec E B) → Exec E B
  unfolding pure raise ◌or◌ attempt register
  ◌>>=◌ m f w = continue f (m w).0 (m w).1

  abbrev pub ◌>>◌ : Exec E A → Exec E B → Exec E B
  m >> k = m >>= λ _. k

abbrev pub notify : {E : Type 0} → (Watch → Watch) → Exec E (Unit {0})
notify f = register λ w. (tt, f w)

-- The next turn; once they are used up nobody else is there and the connection answers.
unfoldable pub next_turn : List Turn → Turn × List Turn
next_turn [] = (record { before = []; outcome = answered }, [])
next_turn (t ∷ ts) = (t, ts)

abbrev pub executed : Statement → Table → Outcome → Result DbError ℕ × Table
executed s t answered = (ok (report s t), run s t)
executed s t refused = (err failed, t)
executed s t lost = (err failed, run s t)

-- `db.ExecContext`.
unfoldable pub exec : Statement → Exec DbError ℕ
unfolding next_turn happen
exec s w =
    let (turn, turns) = next_turn w.turns in
    let (result, table) = executed s (happen turn.before w.table) turn.outcome in
    (result, record w { table = table; turns = turns })

abbrev pub selected : {A : Type 0} → (Table → A) → Table → Outcome → Result DbError A
selected q t answered = ok (q t)
selected q t _ = err failed

-- `db.QueryContext` with the loop over its rows.
unfoldable pub query : {A : Type 0} → (Table → A) → Exec DbError A
unfolding next_turn happen
query q w =
    let (turn, turns) = next_turn w.turns in
    let table = happen turn.before w.table in
    (selected q table turn.outcome, record w { table = table; turns = turns })

-- `db.QueryRowContext` with its `Scan`.
unfoldable pub or_no_rows : {A : Type 0} → Option A → Exec DbError A
or_no_rows none = raise no_rows
or_no_rows (some a) = pure a
