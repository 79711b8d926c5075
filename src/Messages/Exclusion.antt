-- ===== src/Messages/Exclusion.antt =====
-- What the lease protocol guarantees, and where the driver's count of affected rows breaks it.
use open_cidn.Base.{
  ◌≡◌, refl, ◌≢◌, ◌<◌, true, false, ℤ, Bytes, bytes, ◌∷◌, [], some, none, ok, err, arith, ◌⊎◌,
}
use open_cidn.Messages.Model.{MessageAttr, status_pending}
use open_cidn.Messages.Table.{
  Row, Table, update, run, guard, assign, row_eq, message_of, row_eq_refl,
}
use open_cidn.Messages.Watch.{Watch, response_of}
use open_cidn.Messages.World.{◌>>=◌}
use open_cidn.Messages.Request.{fails, no_content, parse_int, path_id, read_entity, require_lease}
use open_cidn.Messages.Dao
use open_cidn.Messages.Service
use open_cidn.Messages.Controller
use open_cidn.Messages.WellFormed.{IsWellFormed, IsWellFormed-stable}
use open_cidn.Messages.Edges.{row_at}
use open_cidn.Messages.Quiet.{quiet, checked_hit, checked_same, get_by_id_hit}
use open_cidn.Messages.Leases.{
  lease_body, attr_body, consume_update, heartbeat_update, held, leased, told, consume_ok,
  consume_refused,
}

-- A message goes to one worker: for a server that is alone with a well-formed table and a row that
-- is pending, free of a lease and not deleted, after a `consume` of it with a lease that is not
-- empty a further one, by the same or another worker, is answered 406 and changes nothing (the
-- collation compares the empty text with itself as equal).
pub consume_once :
    (text again : Bytes) (id : ℤ) (t : Table) (watch : Watch) (r : Row) (lease other : Bytes)
    → parse_int text ≡ some id
    → parse_int again ≡ some id
    → IsWellFormed t
    → row_at id t.rows ≡ some r
    → r.status ≡ status_pending
    → r.lease ≡ []
    → r.delete_at ≡ none
    → t.collates [] [] ≡ true
    → lease ≢ []
    → other ≢ []
    → let w = (Controller.consume text (lease_body lease) (quiet t watch)).1 in
      Controller.consume again (lease_body other) w
      ≡ (err (fails 406 (bytes "MessageNotAcceptableError")), w)
consume_once text again id t watch r lease other p p' wf e s l d k h h' =
    let (taken, row) = consume_ok text id t watch r p wf e lease h s l d k in
    rw taken (
      consume_refused again id (run (update (consume_update id lease)) t)
        (told id (response_of (message_of (leased lease r))) watch) (leased lease r) p'
        (IsWellFormed-stable.by_run (update (consume_update id lease)) t (refl, h, refl, refl) wf)
        row other h' (omega arith))

module _ (text : Bytes) (id : ℤ) (t : Table) (watch : Watch) (r : Row) (attr : MessageAttr)
    (parsed : parse_int text ≡ some id) (wf : IsWellFormed t)
    (named : row_at id t.rows ≡ some r) where
  -- The row after a heartbeat.
  abbrev pub beaten : Row
  beaten = record r { last_heartbeat = t.now; attr = Controller.merge attr r.attr }

  -- For a server that is alone with a well-formed table, a path that names the row, and a lease
  -- that is not empty: the holder's heartbeat is accepted if the clock has moved on since the last
  -- one, or if the driver counts the rows found. It sets the time, and of the stored attributes the
  -- progress that is sent unless it is 0 and the size that is sent if it is above 0.
  pub heartbeat_ok :
      (lease : Bytes)
      → lease ≢ []
      → held t lease r ≡ true
      → (r.last_heartbeat < t.now) ⊎ (t.found_rows ≡ true)
      → let t' = run (update (heartbeat_update id lease (Controller.merge attr r.attr))) t in
        ((Controller.heartbeat text (attr_body lease attr) (quiet t watch)).0 ≡ ok no_content)
        × ((Controller.heartbeat text (attr_body lease attr) (quiet t watch)).1.table ≡ t')
        × (row_at id t'.rows ≡ some beaten)
  unfolding Controller.heartbeat ◌>>=◌ path_id read_entity require_lease Controller.announce
      Service.heartbeat Dao.heartbeat guard assign row_eq
  heartbeat_ok [] h k m = absurd (h refl)
  heartbeat_ok (c ∷ cs) h k m =
      let u = heartbeat_update id (c ∷ cs) (Controller.merge attr r.attr) in
      let before = get_by_id_hit id t watch r named (ground arith) in
      let hit =
        checked_hit id (held t (c ∷ cs)) u t watch r refl wf.distinct named k refl (ground arith) in
      (rw (parsed, before, hit.0), rw (parsed, before, hit.0), hit.1)

  -- For a server that is alone with a well-formed table, a path that names the row, and a lease
  -- that is not empty: where the driver counts the rows changed, its default, a heartbeat of the
  -- holder that leaves the row as it is, such as a second one within the same second that reports
  -- nothing new, is answered 406, as if the lease were lost.
  pub heartbeat_repeated :
      (lease : Bytes)
      → lease ≢ []
      → held t lease r ≡ true
      → t.found_rows ≡ false
      → beaten ≡ r
      → (Controller.heartbeat text (attr_body lease attr) (quiet t watch)).0
        ≡ err (fails 406 (bytes "MessageNotAcceptableError"))
  unfolding Controller.heartbeat ◌>>=◌ path_id read_entity require_lease Service.heartbeat
      Dao.heartbeat guard assign Controller.not_acceptable
  heartbeat_repeated [] h k f e = absurd (h refl)
  heartbeat_repeated (c ∷ cs) h k f e =
      let u = heartbeat_update id (c ∷ cs) (Controller.merge attr r.attr) in
      let before = get_by_id_hit id t watch r named (ground arith) in
      let same =
        checked_same id (held t (c ∷ cs)) u t watch r refl wf.distinct named k refl
          (let same = row_eq_refl r in rw (f, e, same)) in
      rw (parsed, before, same)
