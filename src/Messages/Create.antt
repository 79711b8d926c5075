-- ===== src/Messages/Create.antt =====
-- What `Create` does: one message for a content, its priority only ever raised.
use open_cidn.Base.{
  suc, ◌≡◌, refl, ◌∙◌, ◌≢◌, ◌⊎◌, inl, inr, true, false, ◌&&◌, ◌==◌, if◌then◌else◌, Bool-cases, ℤ,
  int_lt, [], ◌∷◌, ◌++◌, find, count, length, length-append, arith, some, none, ok,
}
use open_cidn.Messages.Model.{MessageAttr, status_pending}
use open_cidn.Messages.Table.{
  Row, Table, Update, insert, update, guard, assign, by_content, alive, run, report, message_of,
  new_row,
}
use open_cidn.Messages.Watch.{Watch, response_of, append_watch_list_channels}
use open_cidn.Messages.World.{World, ◌>>=◌, exec, query, or_no_rows, sql, answered}
use open_cidn.Messages.Request.{MessageRequest, entity, read_entity}
use open_cidn.Messages.Dao
use open_cidn.Messages.Service
use open_cidn.Messages.Controller
use open_cidn.Messages.WellFormed.{IsWellFormed, IsWellFormed-stable}
use open_cidn.Messages.Edges.{row_at}
use open_cidn.Messages.Rows.{update_rows_hit}
use open_cidn.Messages.Quiet.{quiet}
use open_cidn.Messages.Found.{find-append, count-append, count-none, length-update, row_at-find}

abbrev pub raise_update : Row → MessageRequest → Update
raise_update r request = Update.update_priority request.priority r.id request.priority

module _ (request : MessageRequest) (t : Table) (watch : Watch) (r : Row) (wf : IsWellFormed t)
    (found : find (by_content t.collates request.content) t.rows ≡ some r) where
  -- For a server that is alone with a well-formed table and a content that is there: a pending
  -- message with a lower priority gets the priority that is asked for, and the watchers of the list
  -- are told.
  pub create_raises :
      r.status ≡ status_pending
      → int_lt r.priority request.priority ≡ true
      → let t' = run (update (raise_update r request)) t in
        let r' = record r { priority = request.priority } in
        (Controller.create (some request) (quiet t watch) ≡ (
          ok (entity 200 (response_of (message_of r'))),
          quiet t' (append_watch_list_channels (response_of (message_of r')) watch),
        ))
        × (row_at r.id t'.rows ≡ some r')
  unfolding Controller.create Controller.create_after ◌>>=◌ read_entity Service.get_by_content
      Dao.get_by_content query or_no_rows Service.update_priority_by_id Dao.update_priority_by_id
      exec run guard assign by_content
  create_raises s h =
      let (pass, row) =
        row_at-find (by_content t.collates request.content) t.rows r wf.distinct found in
      (
        rw (found, s, h),
        (update_rows_hit r.id (λ s. int_lt s.priority request.priority && alive s)
            (assign t.now (raise_update r request)) t.rows r wf.distinct row (ground arith) refl
            t.found_rows).0,
      )

  -- For a server that is alone with a well-formed table and a content that is there: a message that
  -- is not pending, or whose priority is not lower, is answered as it is, and nothing changes.
  pub create_keeps :
      (r.status ≢ status_pending) ⊎ (int_lt r.priority request.priority ≡ false)
      → Controller.create (some request) (quiet t watch)
        ≡ (ok (entity 200 (response_of (message_of r))), quiet t watch)
  unfolding Controller.create Controller.create_after ◌>>=◌ read_entity Service.get_by_content
      Dao.get_by_content query or_no_rows
  create_keeps (inl s) =
      let no : (r.status == status_pending) ≡ false = ground arith in rw (found, no)
  create_keeps (inr h) = elim (Bool-cases (r.status == status_pending)) [
    | inl e ↦ rw (found, e, h)
    | inr e ↦ rw (found, e)
  ]

module _ (request : MessageRequest) (t : Table) (watch : Watch) where
  abbrev pub fresh : Row
  fresh = new_row t request.content [] request.priority status_pending request.attr

  -- For a server that is alone with a table: a content that is not there is added as pending, with
  -- the next id, and the watchers of the list are told.
  pub create_adds :
      find (by_content t.collates request.content) t.rows ≡ none
      → let mr = record (response_of (message_of fresh)) { last_heartbeat = 0 } in
        Controller.create (some request) (quiet t watch) ≡ (
          ok (entity 201 mr),
          quiet
              (record t { rows = t.rows ++ fresh ∷ []; next_id = suc t.next_id })
              (append_watch_list_channels mr watch),
        )
  unfolding Controller.create Controller.create_after ◌>>=◌ read_entity Service.get_by_content
      Dao.get_by_content query or_no_rows Service.create Dao.create exec run report
  create_adds e = rw e

abbrev pub higher : ℤ → ℤ → ℤ
higher a b = if int_lt a b then b else a

-- Asking twice for a content makes one message, for a server that is alone with a well-formed table
-- that does not have it: the first request adds a pending row, and after the second, which adds
-- none, that row has the higher of the two priorities and is what the second is answered (the
-- collation compares the content with itself as equal).
pub create_twice :
    (first second : MessageRequest) (t : Table) (watch : Watch)
    → second.content ≡ first.content
    → find (by_content t.collates first.content) t.rows ≡ none
    → t.collates first.content first.content ≡ true
    → IsWellFormed t
    → let w = (Controller.create (some first) (quiet t watch)).1 in
      let w' = Controller.create (some second) w in
      let r = record (fresh first t watch) { priority = higher first.priority second.priority } in
      (w'.0 ≡ ok (entity 200 (response_of (message_of r))))
      × (row_at r.id w'.1.table.rows ≡ some r)
      × (length w'.1.table.rows ≡ suc (length t.rows))
create_twice first second t watch same none_there reflexive wf =
    let t' = record t { rows = t.rows ++ fresh first t watch ∷ []; next_id = suc t.next_id } in
    let watch' =
      append_watch_list_channels
        (record (response_of (message_of (fresh first t watch))) { last_heartbeat = 0 }) watch in
    let wf' =
      IsWellFormed-stable.by_run (insert first.content [] first.priority status_pending first.attr)
        t (refl, refl) wf in
    let found : find (by_content t.collates second.content) t'.rows ≡ some (fresh first t watch) =
      rw same (
        find-append (by_content t.collates first.content) t.rows (fresh first t watch) none_there
          (unfold by_content in rw reflexive)) in
    let grown : length (t.rows ++ fresh first t watch ∷ []) ≡ suc (length t.rows) =
      omega (arith, length-append t.rows (fresh first t watch ∷ [])) in
    rw (create_adds first t watch none_there)
      (elim (Bool-cases (int_lt first.priority second.priority)) [
        | inl less ↦
            let (raised, row) =
              create_raises second t' watch' (fresh first t watch) (unfold run in wf') found refl
                less in
            rw (less, raised)
              (refl, row, length-update t' (raise_update (fresh first t watch) second) ∙ grown)
        | inr more ↦
            let kept =
              create_keeps second t' watch' (fresh first t watch) (unfold run in wf') found
                (inr more) in
            let whole : IsWellFormed t' = unfold run in wf' in
            let (pass, row) =
              row_at-find (by_content t.collates second.content) t'.rows (fresh first t watch)
                whole.distinct found in
            rw (more, kept) (refl, row, grown)
      ])

-- The world in which another server adds the content between the look-up and the insert.
abbrev pub racing : MessageRequest → ℤ → MessageAttr → Table → Watch → World
racing request priority attr t watch = record {
  table = t;
  turns =
      record { before = []; outcome = answered }
      ∷ record {
        before = sql (insert request.content [] priority status_pending attr) ∷ [];
        outcome = answered;
      }
      ∷ [];
  watch = watch;
}

-- Nothing in the table keeps two servers from adding the same content: where another server adds it
-- between the look-up and the insert of this one, the reply is still 201, and two rows of the
-- content are in the table.
pub create_race :
    (request : MessageRequest) (t : Table) (watch : Watch) (priority : ℤ) (attr : MessageAttr)
    → find (by_content t.collates request.content) t.rows ≡ none
    → t.collates request.content request.content ≡ true
    → let r = Controller.create (some request) (racing request priority attr t watch) in
      ((Controller.answer r.0).code ≡ 201)
      × (count (by_content t.collates request.content) r.1.table.rows ≡ 2)
unfolding Controller.create Controller.create_after ◌>>=◌ read_entity Service.get_by_content
    Dao.get_by_content query or_no_rows Service.create Dao.create exec run report
create_race request t watch priority attr e k =
    let p = by_content t.collates request.content in
    let theirs = new_row t request.content [] priority status_pending attr in
    let t' = record t { rows = t.rows ++ theirs ∷ []; next_id = suc t.next_id } in
    let ours = new_row t' request.content [] request.priority status_pending request.attr in
    let hit : p theirs ≡ true = unfold by_content in rw k in
    let hit' : p ours ≡ true = unfold by_content in rw k in
    let one : count p (theirs ∷ []) ≡ 1 = rw hit in
    let two : count p (ours ∷ []) ≡ 1 = rw hit' in
    let zero_there = count-none p t.rows e in
    (
      rw e,
      rw e (
          omega (
            arith,
            count-append p (t.rows ++ theirs ∷ []) (ours ∷ []),
            count-append p t.rows (theirs ∷ []),
          )),
    )
