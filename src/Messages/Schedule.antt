-- ===== src/Messages/Schedule.antt =====
-- One round of `Schedule` in pkg/queue/controller/message.go, which a ticker starts each minute.
use open_cidn.Base.{List, [], ◌∷◌, Result, ok, err}
use open_cidn.Messages.Model.{Message, status_pending, status_cleanup}
use open_cidn.Messages.Watch.{
  MessageResponse, response_of, append_watch_channel, append_watch_list_channels,
}
use open_cidn.Messages.World.{Exec, DbError, pure, ◌>>=◌, ◌>>◌, attempt, notify}
use open_cidn.Messages.Service

-- The response that is sent out leaves the heartbeat at the zero time.
abbrev pub notice : Message → MessageResponse
notice item = record (response_of item) { status = status_pending; last_heartbeat = 0 }

unfoldable pub release_after : Message → Result DbError (Unit {0}) → Exec DbError (Unit {0})
release_after item (err e) = pure tt
release_after item (ok u) = do
  notify (append_watch_channel item.message_id (notice item))
  notify (append_watch_list_channels (notice item))

unfoldable pub release_all : List Message → Exec DbError (Unit {0})
unfolding release_after
release_all [] = pure tt
release_all (item ∷ items) = do
  done ← attempt (Service.reset_to_pending item.message_id)
  release_after item done
  release_all items

unfoldable pub delete_all : List Message → Exec DbError (Unit {0})
delete_all [] = pure tt
delete_all (item ∷ items) = do
  attempt {F = DbError} (Service.delete_by_id item.message_id) >>= λ _. pure tt
  notify (
      append_watch_list_channels
        (record (response_of item) { status = status_cleanup; last_heartbeat = 0 }))
  delete_all items

unfoldable pub release_listed : Result DbError (List Message) → Exec DbError (Unit {0})
release_listed (err e) = pure tt
release_listed (ok items) = release_all items

unfoldable pub delete_listed : Result DbError (List Message) → Exec DbError (Unit {0})
delete_listed (err e) = pure tt
delete_listed (ok items) = delete_all items

unfoldable pub round : Exec DbError (Unit {0})
unfolding release_listed delete_listed
round = do
  stale ← attempt Service.get_stale
  release_listed stale
  finished ← attempt Service.get_completed_and_failed
  delete_listed finished
  attempt {F = DbError} Service.clean_up >>= λ _. pure tt
