-- ===== src/Messages/Rounds.antt =====
-- What a scheduled round does to the whole table, for a server that is alone with it.
use open_cidn.Base.{
  ℕ, ◌+◌, ◌<◌, ◌≡◌, refl, ◌∙◌, ap, ◌≢◌, inl, inr, Bool, true, false, not, Bool-cases, ℤ, int_eq,
  Bytes, List, [], ◌∷◌, map, filter, All, arith, some, none,
}
use open_cidn.Messages.Model.{status_pending}
use open_cidn.Messages.Table.{
  Row, Table, update, guard, assign, update_rows, run, message_of, is_stale, is_finished, purged,
}
use open_cidn.Messages.Watch.{Watch, response_of}
use open_cidn.Messages.World.{◌>>=◌, query, exec}
use open_cidn.Messages.Dao
use open_cidn.Messages.Service
use open_cidn.Messages.Schedule
use open_cidn.Messages.WellFormed.{Distinct, IsWellFormed, update_rows-Distinct}
use open_cidn.Messages.Edges.{row_at}
use open_cidn.Messages.Quiet.{quiet}
use open_cidn.Messages.Leases.{settled, leased, lease_body, told, consume_update, consume_ok}
use open_cidn.Messages.Request.{parse_int}
use open_cidn.Messages.Controller
use open_cidn.Messages.Cuts.{with_rows, release_one, release_all_lem, delete_one, delete_all_lem}

-- A round as a function of one row; `none` where the row is purged.
abbrev pub tidy : ℕ → Row → Row
tidy now r = delete_one now (release_one now r)

abbrev pub tidied : ℕ → List Row → List Row
tidied now rows = filter (λ r. not (purged now r)) (map (tidy now) rows)

map-Distinct :
    (f : Row → Row)
    → ((r : Row) → (f r).id ≡ r.id)
    → (rows : List Row) → Distinct rows
    → Distinct (map f rows)
map-Distinct f k [] d = tt
map-Distinct f k (r ∷ rs) d = (apart rs d.0, map-Distinct f k rs d.1)
  where
    apart :
        (ss : List Row)
        → All (λ s. int_eq s.id r.id ≡ false) ss
        → All (λ s. int_eq s.id (f r).id ≡ false) (map f ss)
    apart [] h = tt
    apart (s ∷ ss) h = (rw (k s, k r) h.0, apart ss h.1)

release_one-id : (now : ℕ) (r : Row) → (release_one now r).id ≡ r.id
release_one-id now r = ground arith

map-map : (f g : Row → Row) (rows : List Row) → map g (map f rows) ≡ map (λ r. g (f r)) rows
map-map f g [] = refl
map-map f g (r ∷ rs) = rw (map-map f g rs)

-- One round, for a server that is alone with a table of distinct ids, does exactly this to it: a
-- processing row without a heartbeat for more than a minute becomes pending and free of its lease;
-- a completed or failed row without one for more than an hour is marked as deleted; a row that was
-- marked more than eight hours ago is purged; and nothing else changes. Only rows that are not
-- marked as deleted are released or marked.
pub round_lem :
    (t : Table) (watch : Watch)
    → Distinct t.rows
    → (Schedule.round (quiet t watch)).1.table ≡ with_rows t (tidied t.now t.rows)
unfolding Schedule.round Schedule.release_listed Schedule.delete_listed ◌>>=◌ Service.get_stale
    Dao.get_stale Service.get_completed_and_failed Dao.get_completed_and_failed Service.clean_up
    Dao.clean query exec run
round_lem t watch d =
    let (w1, released_all) = release_all_lem t [] t.rows watch d in
    let mid = map (release_one t.now) t.rows in
    let d' = map-Distinct (release_one t.now) (release_one-id t.now) t.rows d in
    let (w2, deleted_all) = delete_all_lem t [] mid w1 d' in
    rw (released_all, deleted_all)
      (ap (λ (l : List Row). with_rows t (filter (λ r. not (purged t.now r)) l))
        (map-map (release_one t.now) (delete_one t.now) t.rows))

row_at-map :
    (id : ℤ) (f : Row → Row)
    → ((r : Row) → (f r).id ≡ r.id)
    → (rows : List Row) (r : Row) → row_at id rows ≡ some r
    → row_at id (map f rows) ≡ some (f r)
unfolding row_at
row_at-map id f k [] r e = cc
row_at-map id f k (x ∷ xs) r e = elim (Bool-cases (int_eq x.id id)) [
  | inl hit ↦
      let same : x ≡ r = cc (rw hit at e) in
      let named : int_eq (f x).id id ≡ true = rw (k x) hit in
      rw named (ap (λ (y : Row). some (f y)) same)
  | inr miss ↦
      let other : int_eq (f x).id id ≡ false = rw (k x) miss in
      rw other (row_at-map id f k xs r (rw miss at e))
]

row_at-filter_pass :
    (id : ℤ) (p : Row → Bool) (rows : List Row) (r : Row)
    → row_at id rows ≡ some r
    → p r ≡ true
    → row_at id (filter p rows) ≡ some r
unfolding row_at
row_at-filter_pass id p [] r e h = cc
row_at-filter_pass id p (x ∷ xs) r e h = elim (Bool-cases (int_eq x.id id)) [
  | inl hit ↦
      let same : x ≡ r = cc (rw hit at e) in
      let pass : p x ≡ true = rw same h in rw (pass, hit) (ap some same)
  | inr miss ↦ elim (Bool-cases (p x)) [
    | inl pass ↦ rw (pass, miss) (row_at-filter_pass id p xs r (rw miss at e) h)
    | inr fail ↦ rw fail (row_at-filter_pass id p xs r (rw miss at e) h)
  ]
]

tidy-id : (now : ℕ) (r : Row) → (tidy now r).id ≡ r.id
tidy-id now r = ground arith

tidy-leased :
    (now : ℕ) (lease : Bytes) (r : Row)
    → r.delete_at ≡ none
    → r.last_heartbeat + 60 < now
    → tidy now (leased lease r) ≡ settled status_pending r
unfolding is_stale is_finished
tidy-leased now lease r d h = ground arith

-- `consume` does not set the heartbeat. So a message of a well-formed table, pending, free of a
-- lease and not deleted, that has waited for more than a minute when a worker takes it is taken
-- away again by the next round, if nobody else runs a statement in between: it is pending and free
-- once more, though the worker was told that it has it.
pub consume_then_round :
    (text : Bytes) (id : ℤ) (t : Table) (watch : Watch) (r : Row) (lease : Bytes)
    → parse_int text ≡ some id
    → IsWellFormed t
    → row_at id t.rows ≡ some r
    → r.status ≡ status_pending
    → r.lease ≡ []
    → r.delete_at ≡ none
    → t.collates [] [] ≡ true
    → lease ≢ []
    → r.last_heartbeat + 60 < t.now
    → let w = (Controller.consume text (lease_body lease) (quiet t watch)).1 in
      row_at id (Schedule.round w).1.table.rows ≡ some (settled status_pending r)
unfolding run
consume_then_round text id t watch r lease p wf e s l d k h old =
    let (taken, row) = consume_ok text id t watch r p wf e lease h s l d k in
    let u = consume_update id lease in
    let rows = update_rows (guard t.collates u) (assign t.now u) t.rows in
    let after =
      round_lem (run (update u) t) (told id (response_of (message_of (leased lease r))) watch)
        (update_rows-Distinct (guard t.collates u) t.now u t.rows wf.distinct) in
    rw (taken, after)
      (row_at-filter_pass id (λ s. not (purged t.now s)) (map (tidy t.now) rows)
        (settled status_pending r)
        (row_at-map id (tidy t.now) (tidy-id t.now) rows (leased lease r) row
          ∙ ap some (tidy-leased t.now lease r d old))
        (rw d))
