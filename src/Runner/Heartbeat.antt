-- ===== src/Runner/Heartbeat.antt =====
-- pkg/runner/runner.go: how the runner tells the queue of the job that it is at.
use open_cidn.Base.{if◌then◌else◌, ℤ, negsuc, int_eq, Bytes, Option, none, some, List, [], ◌∷◌}

-- How the job ended: well, by a cancelled context, or by another error.
pub data End : Type 0 where
  done : End
  canceled : Bytes → End
  broken : Bytes → End

-- What the loop waits for; sizes and progress are what the counters hold then.
pub data Event : Type 0 where
  tick : ℤ → ℤ → Event
  job_ended : End → ℤ → ℤ → Event
  stopped : Event

pub data Call : Type 0 where
  beat : ℤ → ℤ → Call
  complete : Call
  failed : Bytes → Call
  cancel : Call

-- What ends the loop is told to the queue by these calls.
abbrev pub closing : Event → List Call
closing (tick size progress) = []
closing (job_ended done size progress) = beat size progress ∷ complete ∷ []
closing (job_ended (canceled e) size progress) = cancel ∷ []
closing (job_ended (broken e) size progress) = failed e ∷ []
closing stopped = cancel ∷ []

-- `errors.Join`, as the list of its errors.
abbrev joined : Bytes → Option Bytes → List Bytes
joined e none = e ∷ []
joined e (some e') = e ∷ e' ∷ []

abbrev as_list : Option Bytes → List Bytes
as_list none = []
as_list (some e) = e ∷ []

-- `Q` is the state of the queue, `call` a call of it, with its error. The answer is the calls that
-- were made and the errors that are returned.
module _ {Q : Type 0} (call : Call → Q → Option Bytes × Q) where
  abbrev pub Told : Type 0
  Told = List Call × List Bytes × Q

  abbrev ended_by : List Call → (Option Bytes → List Bytes) → Option Bytes × Q → Told
  ended_by calls errors (e, q) = (calls, errors e, q)

  unfoldable pub end_job : End → ℤ → ℤ → Q → Told
  end_job done size progress q =
      ended_by (beat size progress ∷ complete ∷ []) as_list
        (call complete (call (beat size progress) q).1)
  end_job (canceled e) size progress q = ended_by (cancel ∷ []) (joined e) (call cancel q)
  end_job (broken e) size progress q = ended_by (failed e ∷ []) (joined e) (call (failed e) q)

  abbrev pub adding : Call → Option Told → Option Told
  adding c none = none
  adding c (some (calls, errors, q)) = some (c ∷ calls, errors, q)

  -- `none` as long as the loop waits for more. `prev` is the progress that was told last, or -1.
  unfoldable pub heartbeat : ℤ → List Event → Q → Option Told
  heartbeat prev [] q = none
  heartbeat prev (tick size progress ∷ events) q =
      let same = int_eq prev progress in
      let next = if same then negsuc 0 else progress in
      let q' = if same then q else (call (beat size progress) q).1 in
      let rest = heartbeat next events q' in if same then rest else adding (beat size progress) rest
  heartbeat prev (job_ended e size progress ∷ events) q = some (end_job e size progress q)
  heartbeat prev (stopped ∷ events) q = some (ended_by (cancel ∷ []) as_list (call cancel q))
