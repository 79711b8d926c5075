-- ===== src/Runner/Ended.antt =====
-- pkg/runner/runner.go: how the loop of `heartbeat` ends.
use open_cidn.Base.{
  ◌≡◌, refl, ap, inl, inr, Bool-cases, ℤ, negsuc, int_eq, Bytes, Option, some, List, [], ◌∷◌, ◌++◌,
  All,
}
use open_cidn.Runner.Heartbeat.{
  done, canceled, broken, Event, tick, job_ended, stopped, Call, beat, closing, end_job, heartbeat,
  adding,
}

abbrev pub IsTick : Event → Type 0
IsTick (tick size progress) = Unit
IsTick (job_ended e size progress) = ⊥
IsTick stopped = ⊥

abbrev pub IsEnd : Event → Type 0
IsEnd (tick size progress) = ⊥
IsEnd (job_ended e size progress) = Unit
IsEnd stopped = Unit

abbrev pub IsBeat : Call → Type 0
IsBeat c = (size : ℤ) × ((progress : ℤ) × (c ≡ beat size progress))

module _ {Q : Type 0} (call : Call → Q → Option Bytes × Q) where
  ends_at_once :
      (prev : ℤ) (e : Event) (events : List Event) (q : Q)
      → IsEnd e
      → (rest : List Bytes × Q) × (heartbeat call prev (e ∷ events) q
          ≡ some (closing e, rest.0, rest.1))
  unfolding heartbeat end_job
  ends_at_once prev (tick size progress) events q h = absurd h
  ends_at_once prev (job_ended done size progress) events q h = (_, refl)
  ends_at_once prev (job_ended (canceled e) size progress) events q h = (_, refl)
  ends_at_once prev (job_ended (broken e) size progress) events q h = (_, refl)
  ends_at_once prev stopped events q h = (_, refl)

  -- With the first event that is not a tick the loop is over. Until then only heartbeats were sent,
  -- and what is sent last is how the job ended: a heartbeat and that it is complete, its error, or
  -- that it is given back.
  pub heartbeat_lem :
      (prev : ℤ) (before : List Event) (e : Event) (after : List Event) (q : Q)
      → All IsTick before
      → IsEnd e
      → (beats : List Call) × ((rest : List Bytes × Q) × (All IsBeat beats
            × (heartbeat call prev (before ++ e ∷ after) q
                ≡ some (beats ++ closing e, rest.0, rest.1))))
  unfolding heartbeat
  heartbeat_lem prev [] e after q t h =
      let (rest, now) = ends_at_once prev e after q h in ([], (rest, (tt, now)))
  heartbeat_lem prev (job_ended x size progress ∷ before) e after q t h = absurd t.0
  heartbeat_lem prev (stopped ∷ before) e after q t h = absurd t.0
  heartbeat_lem prev (tick size progress ∷ before) e after q t h =
      elim (Bool-cases (int_eq prev progress)) [
        | inl same ↦
            let (beats, (rest, (all, ends))) = heartbeat_lem (negsuc 0) before e after q t.1 h in
            (beats, (rest, (all, rw same ends)))
        | inr other ↦
            let (beats, (rest, (all, ends))) =
              heartbeat_lem progress before e after (call (beat size progress) q).1 t.1 h in
            (
              beat size progress ∷ beats,
              (
                rest,
                (
                  ((size, (progress, refl)), all),
                  rw other (ap (adding call (beat size progress)) ends),
                ),
              ),
            )
      ]
