-- ===== src/Messages/Issued.antt =====
-- The statements that the server issues, and actions that keep what such statements keep.
use open_cidn.Base.{
  ℕ, ◌+◌, ◌≡◌, ◌≢◌, Bool, true, false, if◌then◌else◌, Result, ok, err, Option, none, some, List, [],
  ◌∷◌,
}
use open_cidn.Messages.Model.{status_pending, status_processing, status_completed, status_failed}
use open_cidn.Messages.Table.{Table, Update, Statement, insert, update, clean_up, run}
use open_cidn.Messages.Watch.{Watch}
use open_cidn.Messages.World.{
  Event, sql, passes, Outcome, answered, refused, lost, Turn, World, Exec, pure, raise, ◌>>=◌, ◌or◌,
  attempt, continue, next_turn, executed, exec, query, or_no_rows, no_rows, register, happen,
}

-- The arguments with which pkg/queue/dao/messgae.go sends each statement on behalf of a handler;
-- no handler calls `UpdateByID`.
abbrev pub IsIssuedUpdate : Update → Type 0
IsIssuedUpdate (Update.update_message content lease priority status attr id) = ⊥
IsIssuedUpdate (Update.update_priority priority id bound) = priority ≡ bound
IsIssuedUpdate (Update.delete_message id) = Unit
IsIssuedUpdate (Update.consume status lease id old_status old_lease) =
    (status ≡ status_processing) × (lease ≢ []) × (old_status ≡ status_pending) × (old_lease ≡ [])
IsIssuedUpdate (Update.heartbeat attr id lease status) = status ≡ status_processing
IsIssuedUpdate (Update.completed status lease id old_lease old_status) =
    (status ≡ status_completed) × (lease ≡ []) × (old_status ≡ status_processing)
IsIssuedUpdate (Update.set_failed status lease attr id old_lease old_status) =
    (status ≡ status_failed) × (lease ≡ []) × (old_status ≡ status_processing)
IsIssuedUpdate (Update.cancel lease status id old_lease old_status) =
    (status ≡ status_pending) × (lease ≡ []) × (old_status ≡ status_processing)
IsIssuedUpdate (Update.reset_to_pending status lease id old_status) =
    (status ≡ status_pending) × (lease ≡ []) × (old_status ≡ status_processing)

abbrev pub IsIssued : Statement → Type 0
IsIssued (insert content lease priority status attr) = (lease ≡ []) × (status ≡ status_pending)
IsIssued (update u) = IsIssuedUpdate u
IsIssued clean_up = Unit

abbrev pub AllIssued : List Event → Type 0
AllIssued [] = Unit
AllIssued (sql s ∷ es) = IsIssued s × AllIssued es
AllIssued (passes n ∷ es) = AllIssued es

-- Everybody else who uses the table is such a server too.
abbrev pub TurnsIssued : List Turn → Type 0
TurnsIssued [] = Unit
TurnsIssued (turn ∷ turns) = AllIssued turn.before × TurnsIssued turns

-- A predicate that the server's statements and the passing of time keep.
pub record IsStable (P : Table → Type 0) : Type 0 where
  pub by_run : (s : Statement) (t : Table) → IsIssued s → P t → P (run s t)
  pub by_time : (n : ℕ) (t : Table) → P t → P (record t { now = t.now + n })

-- An action that keeps a predicate of the table, whatever others do and whether or not it fails.
pub record Keeps (P : Table → Type 0) {E A : Type 0} (m : Exec E A) : Type 0 where
  pub at :
      (w : World) → TurnsIssued w.turns → P w.table → TurnsIssued (m w).1.turns × P (m w).1.table

module _ {P : Table → Type 0} (stable : IsStable P) where
  pub happen-stable : (es : List Event) (t : Table) → AllIssued es → P t → P (happen es t)
  unfolding happen
  happen-stable [] t a h = h
  happen-stable (sql s ∷ es) t a h = happen-stable es (run s t) a.1 (stable.by_run s t a.0 h)
  happen-stable (passes n ∷ es) t a h = happen-stable es _ a (stable.by_time n t h)

  executed-stable :
      (s : Statement) (t : Table) (o : Outcome) → IsIssued s → P t → P (executed s t o).1
  executed-stable s t answered i h = stable.by_run s t i h
  executed-stable s t refused i h = h
  executed-stable s t lost i h = stable.by_run s t i h

  next_turn-issued :
      (turns : List Turn)
      → TurnsIssued turns
      → AllIssued (next_turn turns).0.before × TurnsIssued (next_turn turns).1
  unfolding next_turn
  next_turn-issued [] h = (tt, tt)
  next_turn-issued (turn ∷ turns) h = h

  pub Keeps-exec : (s : Statement) → IsIssued s → Keeps P (exec s)
  unfolding exec
  Keeps-exec s i = record {
    at = λ w ts h.
        let n = next_turn-issued w.turns ts in
        (
          n.1,
          executed-stable s _ (next_turn w.turns).0.outcome i
              (happen-stable (next_turn w.turns).0.before w.table n.0 h),
        );
  }

  pub Keeps-query : {A : Type 0} (q : Table → A) → Keeps P (query q)
  unfolding query
  Keeps-query q = record {
    at = λ w ts h.
        let n = next_turn-issued w.turns ts in
        (n.1, happen-stable (next_turn w.turns).0.before w.table n.0 h);
  }

module _ {P : Table → Type 0} {E A : Type 0} where
  pub Keeps-pure : (a : A) → Keeps P {E = E} (pure a)
  unfolding pure
  Keeps-pure a = record { at = λ w ts h. (ts, h) }

  pub Keeps-raise : (e : E) → Keeps P {E = E} {A = A} (raise e)
  unfolding raise
  Keeps-raise e = record { at = λ w ts h. (ts, h) }

module _ {P : Table → Type 0} {E A B : Type 0} where
  continue-keeps :
      (f : A → Exec E B)
      → ((a : A) → Keeps P (f a))
      → (r : Result E A) (w : World) → TurnsIssued w.turns
      → P w.table
      → TurnsIssued (continue f r w).1.turns × P (continue f r w).1.table
  continue-keeps f kf (ok a) w ts h = (kf a).at w ts h
  continue-keeps f kf (err e) w ts h = (ts, h)

  pub Keeps-bind :
      (m : Exec E A) (f : A → Exec E B) → Keeps P m → ((a : A) → Keeps P (f a)) → Keeps P (m >>= f)
  unfolding ◌>>=◌
  Keeps-bind m f km kf = record {
    at = λ w ts h. let k = km.at w ts h in continue-keeps f kf (m w).0 (m w).1 k.0 k.1;
  }

module _ {P : Table → Type 0} {E F A : Type 0} where
  pub Keeps-or : (m : Exec E A) (g : E → F) → Keeps P m → Keeps P (m or g)
  unfolding ◌or◌
  Keeps-or m g km = record { at = λ w ts h. km.at w ts h }

  pub Keeps-attempt : (m : Exec E A) → Keeps P m → Keeps P {E = F} (attempt m)
  unfolding attempt
  Keeps-attempt m km = record { at = λ w ts h. km.at w ts h }

module _ {P : Table → Type 0} {E A : Type 0} where
  pub Keeps-register : (f : Watch → A × Watch) → Keeps P {E = E} (register f)
  unfolding register
  Keeps-register f = record { at = λ w ts h. (ts, h) }

  pub Keeps-if : (b : Bool) (m n : Exec E A) → Keeps P m → Keeps P n → Keeps P (if b then m else n)
  Keeps-if true m n km kn = km
  Keeps-if false m n km kn = kn

module _ {P : Table → Type 0} {A : Type 0} where
  pub Keeps-or_no_rows : (o : Option A) → Keeps P (or_no_rows o)
  unfolding or_no_rows
  Keeps-or_no_rows none = Keeps-raise no_rows
  Keeps-or_no_rows (some a) = Keeps-pure a

pub ruleset keeps_rules = (
  Keeps-pure, Keeps-raise, Keeps-bind, Keeps-or, Keeps-attempt, Keeps-register, Keeps-if,
  Keeps-or_no_rows, Keeps-query, Keeps-exec,
)
