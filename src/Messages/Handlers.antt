-- ===== src/Messages/Handlers.antt =====
-- Every handler, and the scheduled round, keeps what the server's statements keep.
use open_cidn.Base.{ℕ, ℤ, Bytes, Result, ok, err, Option, none, some, List, [], ◌∷◌, ◌≢◌}
use open_cidn.Messages.Model.{Message}
use open_cidn.Messages.Table.{Table}
use open_cidn.Messages.Watch.{MessageResponse}
use open_cidn.Messages.World.{DbError, no_rows, failed, no_rows_affected, Exec, ◌>>=◌, ◌>>◌}
use open_cidn.Messages.Request.{
  MessageRequest, LeaseRequest, AttrRequest, Response, parse_int, id_or_fail, path_id, read_entity,
  require_lease,
}
use open_cidn.Messages.Dao
use open_cidn.Messages.Service
use open_cidn.Messages.Controller
use open_cidn.Messages.Schedule
use open_cidn.Messages.Issued.{IsStable, Keeps, Keeps-bind, keeps_rules}

module _ {P : Table → Type 0} (stable : IsStable P) where
  Keeps-some_affected : (n : ℕ) → Keeps P (Service.some_affected n)
  unfolding Service.some_affected
  Keeps-some_affected n = search keeps_rules

  Keeps-get_by_id : (id : ℤ) → Keeps P (Service.get_by_id id)
  unfolding Service.get_by_id Dao.get_by_id
  Keeps-get_by_id id = search keeps_rules

  Keeps-path_id : (text : Bytes) → Keeps P (path_id text)
  unfolding path_id
  Keeps-path_id text = elim (parse_int text) as (λ o. Keeps P (id_or_fail o)) [
    | none ↦ search keeps_rules
    | some id ↦ search keeps_rules
  ]

  Keeps-read_entity : {A : Type 0} (o : Option A) (name : Bytes) → Keeps P (read_entity o name)
  unfolding read_entity
  Keeps-read_entity none name = search keeps_rules
  Keeps-read_entity (some a) name = search keeps_rules

  -- What follows the check may use that the lease is not empty.
  Keeps-require_lease :
      {A : Type 0} (lease : Bytes) (k : Exec Response A)
      → (lease ≢ [] → Keeps P k)
      → Keeps P (require_lease lease >> k)
  unfolding require_lease ◌>>=◌
  Keeps-require_lease [] k h = record { at = λ w ts p. (ts, p) }
  Keeps-require_lease (c ∷ cs) k h = h (λ e. cc)

  Keeps-announce : (id : ℤ) (mr : MessageResponse) → Keeps P (Controller.announce id mr)
  unfolding Controller.announce
  Keeps-announce id mr = search keeps_rules

  ruleset parts = (
    keeps_rules, Keeps-some_affected, Keeps-get_by_id, Keeps-path_id, Keeps-read_entity,
    Keeps-announce,
  )

  Keeps-create_after :
      (request : MessageRequest) (r : Result DbError Message)
      → Keeps P (Controller.create_after request r)
  unfolding Controller.create_after Service.create Dao.create Service.update_priority_by_id
      Dao.update_priority_by_id
  Keeps-create_after request (ok m) = search parts depth 8
  Keeps-create_after request (err no_rows) = search parts
  Keeps-create_after request (err failed) = search parts
  Keeps-create_after request (err no_rows_affected) = search parts

  pub Keeps-create : (body : Option MessageRequest) → Keeps P (Controller.create body)
  unfolding Controller.create Service.get_by_content Dao.get_by_content
  Keeps-create body = search (parts, Keeps-create_after)

  pub Keeps-list : (watch : Bytes) → Keeps P (Controller.list watch)
  unfolding Controller.list Service.list Dao.list
  Keeps-list watch = search parts

  pub Keeps-get : (text watch : Bytes) → Keeps P (Controller.get text watch)
  unfolding Controller.get
  Keeps-get text watch = search parts depth 9

  pub Keeps-consume :
      (text : Bytes) (body : Option LeaseRequest) → Keeps P (Controller.consume text body)
  unfolding Controller.consume Service.consume Dao.consume
  Keeps-consume text body = Keeps-bind _ _ (Keeps-path_id text) λ id.
      Keeps-bind _ _ (Keeps-read_entity body _)
        λ request. Keeps-require_lease request.lease _ λ h. search parts depth 9

  pub Keeps-heartbeat :
      (text : Bytes) (body : Option AttrRequest) → Keeps P (Controller.heartbeat text body)
  unfolding Controller.heartbeat Service.heartbeat Dao.heartbeat
  Keeps-heartbeat text body = Keeps-bind _ _ (Keeps-path_id text) λ id.
      Keeps-bind _ _ (Keeps-read_entity body _)
        λ request. Keeps-require_lease request.lease _ λ h. search parts depth 9

  pub Keeps-complete :
      (text : Bytes) (body : Option LeaseRequest) → Keeps P (Controller.complete text body)
  unfolding Controller.complete Service.complete Dao.complete
  Keeps-complete text body = Keeps-bind _ _ (Keeps-path_id text) λ id.
      Keeps-bind _ _ (Keeps-read_entity body _)
        λ request. Keeps-require_lease request.lease _ λ h. search parts depth 9

  pub Keeps-fail : (text : Bytes) (body : Option AttrRequest) → Keeps P (Controller.fail text body)
  unfolding Controller.fail Service.fail Dao.fail
  Keeps-fail text body = Keeps-bind _ _ (Keeps-path_id text) λ id.
      Keeps-bind _ _ (Keeps-read_entity body _)
        λ request. Keeps-require_lease request.lease _ λ h. search parts depth 9

  pub Keeps-cancel :
      (text : Bytes) (body : Option LeaseRequest) → Keeps P (Controller.cancel text body)
  unfolding Controller.cancel Service.cancel Dao.cancel
  Keeps-cancel text body = Keeps-bind _ _ (Keeps-path_id text) λ id.
      Keeps-bind _ _ (Keeps-read_entity body _)
        λ request. Keeps-require_lease request.lease _ λ h. search parts depth 9

  Keeps-release_after :
      (m : Message) (r : Result DbError (Unit {0})) → Keeps P (Schedule.release_after m r)
  unfolding Schedule.release_after
  Keeps-release_after m (ok u) = search keeps_rules
  Keeps-release_after m (err e) = search keeps_rules

  Keeps-release_all : (items : List Message) → Keeps P (Schedule.release_all items)
  unfolding Schedule.release_all Service.reset_to_pending Dao.reset_to_pending
  Keeps-release_all [] = search keeps_rules
  Keeps-release_all (item ∷ items) =
      let ih = Keeps-release_all items in search (parts, Keeps-release_after)

  Keeps-delete_all : (items : List Message) → Keeps P (Schedule.delete_all items)
  unfolding Schedule.delete_all Service.delete_by_id Dao.delete_by_id
  Keeps-delete_all [] = search keeps_rules
  Keeps-delete_all (item ∷ items) = let ih = Keeps-delete_all items in search parts depth 9

  Keeps-release_listed : (r : Result DbError (List Message)) → Keeps P (Schedule.release_listed r)
  unfolding Schedule.release_listed
  Keeps-release_listed (ok items) = Keeps-release_all items
  Keeps-release_listed (err e) = search keeps_rules

  Keeps-delete_listed : (r : Result DbError (List Message)) → Keeps P (Schedule.delete_listed r)
  unfolding Schedule.delete_listed
  Keeps-delete_listed (ok items) = Keeps-delete_all items
  Keeps-delete_listed (err e) = search keeps_rules

  pub Keeps-round : Keeps P Schedule.round
  unfolding Schedule.round Service.get_stale Dao.get_stale Service.get_completed_and_failed
      Dao.get_completed_and_failed Service.clean_up Dao.clean
  Keeps-round = search (parts, Keeps-release_listed, Keeps-delete_listed) depth 9
