-- ===== src/Messages/Leases.antt =====
-- Who holds a message: what `consume` gives, and what it and the calls of a holder refuse.
use open_cidn.Base.{
  ℕ, ◌≡◌, refl, ◌≢◌, Bool, true, false, ◌&&◌, ◌==◌, ℤ, Bytes, bytes, [], ◌∷◌, arith, Option, some,
  none, ok, err,
}
use open_cidn.Messages.Model.{
  MessageAttr, status_pending, status_processing, status_completed, status_failed,
}
use open_cidn.Messages.Table.{
  Row, Table, Update, update, guard, assign, row_eq, alive, run, message_of,
}
use open_cidn.Messages.Watch.{
  Watch, MessageResponse, response_of, append_watch_channel, append_watch_list_channels,
}
use open_cidn.Messages.World.{◌>>=◌}
use open_cidn.Messages.Request.{
  LeaseRequest, AttrRequest, fails, entity, no_content, parse_int, path_id, read_entity,
  require_lease,
}
use open_cidn.Messages.Dao
use open_cidn.Messages.Service
use open_cidn.Messages.Controller
use open_cidn.Messages.WellFormed.{IsWellFormed}
use open_cidn.Messages.Edges.{row_at}
use open_cidn.Messages.Rows.{at_id}
use open_cidn.Messages.Quiet.{quiet, checked_hit, checked_miss, get_by_id_hit}

abbrev pub lease_body : Bytes → Option LeaseRequest
lease_body lease = some (record { lease = lease })

abbrev pub consume_update : ℤ → Bytes → Update
consume_update id lease = Update.consume status_processing lease id status_pending []

abbrev pub complete_update : ℤ → Bytes → Update
complete_update id lease = Update.completed status_completed [] id lease status_processing

abbrev pub cancel_update : ℤ → Bytes → Update
cancel_update id lease = Update.cancel [] status_pending id lease status_processing

abbrev pub fail_update : ℤ → Bytes → MessageAttr → Update
fail_update id lease attr = Update.set_failed status_failed [] attr id lease status_processing

abbrev pub heartbeat_update : ℤ → Bytes → MessageAttr → Update
heartbeat_update id lease attr = Update.heartbeat attr id lease status_processing

abbrev pub attr_body : Bytes → MessageAttr → Option AttrRequest
attr_body lease attr = some (record { lease = lease; attr = attr })

abbrev pub told : ℤ → MessageResponse → Watch → Watch
told id mr watch = append_watch_list_channels mr (append_watch_channel id mr watch)

-- The row under a lease.
abbrev pub leased : Bytes → Row → Row
leased lease r = record r { status = status_processing; lease = lease }

-- The row that is settled with a status, and free of its lease.
abbrev pub settled : ℕ → Row → Row
settled status r = record r { status = status; lease = [] }

-- The rest of the WHERE clause of the calls that a lease holder makes.
abbrev pub held : Table → Bytes → Row → Bool
held t lease s = t.collates s.lease lease && (s.status == status_processing && alive s)

module _ (text : Bytes) (id : ℤ) (t : Table) (watch : Watch) (r : Row)
    (parsed : parse_int text ≡ some id) (wf : IsWellFormed t)
    (named : row_at id t.rows ≡ some r) where
  -- For a server that is alone with a well-formed table, a path that names the row, and a lease
  -- that is not empty: a worker that asks for a pending row, free of a lease and not deleted, gets
  -- it (the collation compares the empty text with itself as equal). The reply is the message as
  -- processing, the row has the worker's lease, and the watchers of the message and of the list are
  -- told.
  pub consume_ok :
      (lease : Bytes)
      → lease ≢ []
      → r.status ≡ status_pending
      → r.lease ≡ []
      → r.delete_at ≡ none
      → t.collates [] [] ≡ true
      → let t' = run (update (consume_update id lease)) t in
        let mr = response_of (message_of (leased lease r)) in
        (Controller.consume text (lease_body lease) (quiet t watch)
          ≡ (ok (entity 200 mr), quiet t' (told id mr watch)))
        × (row_at id t'.rows ≡ some (leased lease r))
  unfolding Controller.consume ◌>>=◌ path_id read_entity require_lease Controller.announce
      Service.consume Dao.consume guard assign row_eq
  consume_ok [] h s l d k = absurd (h refl)
  consume_ok (c ∷ cs) h s l d k =
      let u = consume_update id (c ∷ cs) in
      let hit =
        checked_hit id (λ s. s.status == status_pending && (t.collates s.lease [] && alive s)) u t
          watch r refl wf.distinct named (ground arith) refl (ground arith) in
      let got = get_by_id_hit id (run (update u) t) watch (leased (c ∷ cs) r) hit.1 (rw d) in
      (rw (parsed, hit.0, got), hit.1)

  -- For a server that is alone with a well-formed table, a path that names the row, and a lease
  -- that is not empty: a request for a row that is not pending is answered 406, and nothing
  -- changes.
  pub consume_refused :
      (lease : Bytes)
      → lease ≢ []
      → r.status ≢ status_pending
      → Controller.consume text (lease_body lease) (quiet t watch)
        ≡ (err (fails 406 (bytes "MessageNotAcceptableError")), quiet t watch)
  unfolding Controller.consume ◌>>=◌ path_id read_entity require_lease Service.consume Dao.consume
      guard Controller.not_acceptable
  consume_refused [] h n = absurd (h refl)
  consume_refused (c ∷ cs) h n =
      let miss =
        checked_miss id (λ s. s.status == status_pending && (t.collates s.lease [] && alive s))
          (consume_update id (c ∷ cs)) t watch r refl wf.distinct named (ground arith) in
      rw (parsed, miss)

  -- For a server that is alone with a well-formed table, a path that names the row, and a lease
  -- that is not empty: the holder completes its message. The row is completed and free of its
  -- lease, its attributes are as before, and the watchers are told.
  pub complete_ok :
      (lease : Bytes)
      → lease ≢ []
      → held t lease r ≡ true
      → let t' = run (update (complete_update id lease)) t in
        let mr = response_of (message_of (settled status_completed r)) in
        (Controller.complete text (lease_body lease) (quiet t watch)
          ≡ (ok no_content, quiet t' (told id mr watch)))
        × (row_at id t'.rows ≡ some (settled status_completed r))
  unfolding Controller.complete ◌>>=◌ path_id read_entity require_lease Controller.announce
      Service.complete Dao.complete guard assign row_eq
  complete_ok [] h k = absurd (h refl)
  complete_ok (c ∷ cs) h k =
      let u = complete_update id (c ∷ cs) in
      let hit =
        checked_hit id (held t (c ∷ cs)) u t watch r refl wf.distinct named k refl (ground arith) in
      let got =
        get_by_id_hit id (run (update u) t) watch (settled status_completed r) hit.1
          (ground arith) in
      (rw (parsed, hit.0, got), hit.1)

  -- For a server that is alone with a well-formed table, a path that names the row, and a lease
  -- that is not empty: the holder gives the message back. The row is pending and free of its lease,
  -- and the watchers are told.
  pub cancel_ok :
      (lease : Bytes)
      → lease ≢ []
      → held t lease r ≡ true
      → let t' = run (update (cancel_update id lease)) t in
        let mr = response_of (message_of (settled status_pending r)) in
        (Controller.cancel text (lease_body lease) (quiet t watch)
          ≡ (ok no_content, quiet t' (told id mr watch)))
        × (row_at id t'.rows ≡ some (settled status_pending r))
  unfolding Controller.cancel ◌>>=◌ path_id read_entity require_lease Controller.announce
      Service.cancel Dao.cancel guard assign row_eq
  cancel_ok [] h k = absurd (h refl)
  cancel_ok (c ∷ cs) h k =
      let u = cancel_update id (c ∷ cs) in
      let hit =
        checked_hit id (held t (c ∷ cs)) u t watch r refl wf.distinct named k refl (ground arith) in
      let got =
        get_by_id_hit id (run (update u) t) watch (settled status_pending r) hit.1 (ground arith) in
      (rw (parsed, hit.0, got), hit.1)

  -- For a server that is alone with a well-formed table, a path that names the row, and a lease
  -- that is not empty: the holder reports a failure. The row is failed and free of its lease, what
  -- is stored of it stays but for its error, and the watchers are told.
  pub fail_ok :
      (lease : Bytes) (attr : MessageAttr)
      → lease ≢ []
      → held t lease r ≡ true
      → let stored = record (r.attr) { error = attr.error } in
        let t' = run (update (fail_update id lease stored)) t in
        let r' = record (settled status_failed r) { attr = stored } in
        (Controller.fail text (attr_body lease attr) (quiet t watch)
          ≡ (ok no_content, quiet t' (told id (response_of (message_of r')) watch)))
        × (row_at id t'.rows ≡ some r')
  unfolding Controller.fail ◌>>=◌ path_id read_entity require_lease Controller.announce Service.fail
      Dao.fail guard assign row_eq
  fail_ok [] attr h k = absurd (h refl)
  fail_ok (c ∷ cs) attr h k =
      let stored = record (r.attr) { error = attr.error } in
      let u = fail_update id (c ∷ cs) stored in
      let before = get_by_id_hit id t watch r named (ground arith) in
      let hit =
        checked_hit id (held t (c ∷ cs)) u t watch r refl wf.distinct named k refl (ground arith) in
      let got =
        get_by_id_hit id (run (update u) t) watch
          (record (settled status_failed r) { attr = stored }) hit.1 (ground arith) in
      (rw (parsed, before, hit.0, got), hit.1)

  -- For a server that is alone with a well-formed table, a path that names the row, and a lease
  -- that is not empty: who does not hold the row, which is not deleted, can neither complete nor
  -- cancel nor fail it nor send a heartbeat for it. Each is answered 406, and nothing changes.
  pub stranger_refused :
      (lease : Bytes) (attr : MessageAttr)
      → lease ≢ []
      → r.delete_at ≡ none
      → held t lease r ≡ false
      → (Controller.complete text (lease_body lease) (quiet t watch)
          ≡ (err (fails 406 (bytes "MessageNotAcceptabledError")), quiet t watch))
        × (Controller.cancel text (lease_body lease) (quiet t watch)
            ≡ (err (fails 406 (bytes "MessageNotAcceptableError")), quiet t watch))
        × (Controller.fail text (attr_body lease attr) (quiet t watch)
            ≡ (err (fails 406 (bytes "MessageNotAcceptableError")), quiet t watch))
        × (Controller.heartbeat text (attr_body lease attr) (quiet t watch)
            ≡ (err (fails 406 (bytes "MessageNotAcceptableError")), quiet t watch))
  unfolding Controller.complete Controller.cancel Controller.fail Controller.heartbeat ◌>>=◌ path_id
      read_entity require_lease Service.complete Dao.complete Service.cancel Dao.cancel Service.fail
      Dao.fail Service.heartbeat Dao.heartbeat guard
  stranger_refused [] attr h d k = absurd (h refl)
  stranger_refused (c ∷ cs) attr h d k =
      let before = get_by_id_hit id t watch r named (rw d) in
      let miss = λ (u : Update) (e : guard t.collates u ≡ at_id id (held t (c ∷ cs))).
        checked_miss id (held t (c ∷ cs)) u t watch r e wf.distinct named k in
      (
        rw (parsed, miss (complete_update id (c ∷ cs)) refl),
        rw (parsed, miss (cancel_update id (c ∷ cs)) refl),
        rw (
          parsed,
          before,
          miss (fail_update id (c ∷ cs) (record (r.attr) { error = attr.error })) refl,
        ),
        rw (
          parsed,
          before,
          miss (heartbeat_update id (c ∷ cs) (Controller.merge attr r.attr)) refl,
        ),
      )
