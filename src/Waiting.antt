-- ===== src/Waiting.antt =====
-- `waitingQueue` of pkg/manifests/manifest.go and pkg/blobs/blobs.go: a job is created, and its
-- messages are watched until it has an end.
use open_cidn.Base.{
  ℤ, ◌≡◌, ◌≢◌, ◌⊎◌, inl, inr, refl, sym, ◌∙◌, Bool, true, false, Bool-cases, ==_iff, ◌||◌, not,
  ◌==◌, if◌then◌else◌, Bytes, bytes, Option, none, some, List, [], ◌∷◌, ◌++◌, Result, ok, err, All,
  decimal,
}
use open_cidn.Messages.Model.{
  status_pending, status_processing, status_completed, status_failed, MessageAttr,
}
use open_cidn.Messages.Watch.{MessageResponse}

-- What the loop meets: a message, a closed channel with the answer to the new watch, the end of the
-- request with its error.
pub data Notice : Type 0 where
  message : MessageResponse → Notice
  closed : Option Bytes → Notice
  cancelled : Bytes → Notice

-- The client of the queue, by what it answers: `watch` is an error, or none. `quote` is Go's `%q`.
pub record QueueClient : Type 0 where
  pub create : Bytes → ℤ → MessageAttr → Result Bytes MessageResponse
  pub watch : ℤ → Option Bytes
  pub notices : List Notice
  pub quote : Bytes → Bytes

abbrev pub waits : MessageResponse → Bool
waits mr = mr.status == status_pending || mr.status == status_processing

-- The loop; `none` as long as it goes on.
unfoldable pub wait : List Notice → Option (Result Bytes MessageResponse)
wait [] = none
wait (cancelled e ∷ notices) = some (err e)
wait (closed none ∷ notices) = wait notices
wait (closed (some e) ∷ notices) = some (err (bytes "failed to re-watch message: " ++ e))
wait (message mr ∷ notices) = if not (waits mr) then some (ok mr) else wait notices

-- `none` is success, otherwise the error.
unfoldable pub ended : QueueClient → Bytes → MessageResponse → Option Bytes
ended c msg mr =
    if mr.status == status_completed
    then none
    else if mr.status == status_failed
    then some (c.quote msg ++ bytes " Queue Error: " ++ mr.attr.error)
    else some
        (bytes "unexpected status " ++ decimal mr.status ++ bytes " for message " ++ c.quote msg)

unfoldable pub ended_by :
    QueueClient → Bytes → Option (Result Bytes MessageResponse) → Option (Option Bytes)
ended_by c msg none = none
ended_by c msg (some (err e)) = some (some e)
ended_by c msg (some (ok mr)) = some (ended c msg mr)

unfoldable pub created_by :
    QueueClient → Bytes → Result Bytes MessageResponse → Option (Option Bytes)
created_by c msg (err e) = some (some (bytes "failed to create queue: " ++ e))
created_by c msg (ok mr) =
    if waits mr
    then elim (c.watch mr.message_id) [
      | some e ↦ some (some (bytes "failed to watch message: " ++ e))
      | none ↦ ended_by c msg (wait c.notices)
    ]
    else some (ended c msg mr)

-- `none` as long as the caller waits, `some none` for success. `raised` is the weight plus one.
unfoldable pub waiting_queue : QueueClient → Bytes → ℤ → MessageAttr → Option (Option Bytes)
waiting_queue c msg raised attr = created_by c msg (c.create msg raised attr)

-- Before the notice nothing ends the loop.
abbrev pub IsIdle : Notice → Type 0
IsIdle (message mr) = waits mr ≡ true
IsIdle (closed e) = e ≡ none
IsIdle (cancelled e) = ⊥

wait_idle : (before after : List Notice) → All IsIdle before → wait (before ++ after) ≡ wait after
unfolding wait
wait_idle [] after h = refl
wait_idle (message mr ∷ before) after h = rw h.0 (wait_idle before after h.1)
wait_idle (closed none ∷ before) after h = wait_idle before after h.1
wait_idle (closed (some e) ∷ before) after h = cc (h.0)
wait_idle (cancelled e ∷ before) after h = absurd h.0

-- What the end of a job is for its caller: success exactly if it is completed, the job's own error if
-- it failed, and an error with the status otherwise.
abbrev pub Tells : QueueClient → Bytes → MessageResponse → Option Bytes → Type 0
Tells c msg mr none = mr.status ≡ status_completed
Tells c msg mr (some e) =
    ((mr.status ≡ status_failed) × (e ≡ c.quote msg ++ bytes " Queue Error: " ++ mr.attr.error))
    ⊎ ((mr.status ≢ status_completed)
        × (mr.status ≢ status_failed)
        × (e
            ≡ bytes "unexpected status "
              ++ decimal mr.status
              ++ bytes " for message "
              ++ c.quote msg))

ended-Tells :
    (c : QueueClient) (msg : Bytes) (mr : MessageResponse) → Tells c msg mr (ended c msg mr)
unfolding ended
ended-Tells c msg mr = elim (Bool-cases (mr.status == status_completed)) [
  | inl done ↦ rw done ((==_iff mr.status status_completed).0 done)
  | inr open_end ↦ rw open_end (elim (Bool-cases (mr.status == status_failed)) [
    | inl failed ↦ rw failed (inl ((==_iff mr.status status_failed).0 failed, refl))
    | inr other ↦ rw other (
        inr (
          λ e. cc (sym open_end ∙ (==_iff mr.status status_completed).1 e),
          λ e. cc (sym other ∙ (==_iff mr.status status_failed).1 e),
          refl,
        ))
  ])
]

-- A job that waits when it is created, and whose channel can be watched, comes to an end with the
-- first message that says that it does not wait any more, whatever channels were closed and watched
-- again before: with success exactly if it is completed, with its own error if it failed, and with
-- an error that names the status otherwise.
pub waiting_queue_ends :
    (c : QueueClient) (msg : Bytes) (raised : ℤ) (attr : MessageAttr) (first last : MessageResponse)
    (before after : List Notice)
    → c.create msg raised attr ≡ ok first
    → waits first ≡ true
    → c.watch first.message_id ≡ none
    → c.notices ≡ before ++ message last ∷ after
    → All IsIdle before
    → waits last ≡ false
    → (answer : Option Bytes) × ((waiting_queue c msg raised attr ≡ some answer)
        × Tells c msg last answer)
unfolding waiting_queue created_by ended_by wait
waiting_queue_ends c msg raised attr first last before after h w watched n idle final = (
  ended c msg last,
  (
    rw h (
        rw (w, watched) (rw n (rw (wait_idle before (message last ∷ after) idle) (rw final refl)))),
    ended-Tells c msg last,
  ),
)
