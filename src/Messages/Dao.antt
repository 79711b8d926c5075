-- ===== src/Messages/Dao.antt =====
-- pkg/queue/dao/messgae.go: one statement for each method, with the status codes it passes.
use open_cidn.Base.{ℕ, ℤ, Bytes, List, [], map, filter, find}
use mathlib.Core.Option
use open_cidn.Messages.Model.{
  MessageAttr, Message, status_pending, status_processing, status_completed, status_failed,
}
use open_cidn.Messages.Table.{
  Update, insert, update, clean_up, message_of, unleased, alive, by_id, by_content, is_stale,
  is_finished,
}
use open_cidn.Messages.World.{Exec, DbError, pure, ◌>>=◌, ◌>>◌, exec, query, or_no_rows}

unfoldable pub create : Message → Exec DbError ℕ
create m = exec (insert m.content m.lease m.priority status_pending m.attr)

unfoldable pub get_by_content : Bytes → Exec DbError Message
unfolding by_content
get_by_content content = do
  found ← query (λ t. find (by_content t.collates content) t.rows)
  or_no_rows (Option.map message_of found)

unfoldable pub get_by_id : ℤ → Exec DbError Message
unfolding by_id
get_by_id id = do
  found ← query (λ t. find (by_id id) t.rows)
  or_no_rows (Option.map message_of found)

unfoldable pub update_by_id : ℤ → Message → Exec DbError (Unit {0})
update_by_id id m = do
  exec (update (Update.update_message m.content m.lease m.priority m.status m.attr id))
  pure tt

unfoldable pub update_priority_by_id : ℤ → ℤ → Exec DbError (Unit {0})
update_priority_by_id id priority = do
  exec (update (Update.update_priority priority id priority))
  pure tt

unfoldable pub delete_by_id : ℤ → Exec DbError (Unit {0})
delete_by_id id = do exec (update (Update.delete_message id)); pure tt

unfoldable pub list : Exec DbError (List Message)
list = query (λ t. map unleased (filter alive t.rows))

unfoldable pub clean : Exec DbError (Unit {0})
clean = do exec clean_up; pure tt

unfoldable pub get_completed_and_failed : Exec DbError (List Message)
unfolding is_finished
get_completed_and_failed =
    query (λ t. map unleased (filter (is_finished status_completed status_failed t.now) t.rows))

unfoldable pub get_stale : Exec DbError (List Message)
unfolding is_stale
get_stale = query (λ t. map unleased (filter (is_stale status_processing t.now) t.rows))

unfoldable pub consume : ℤ → Bytes → Exec DbError ℕ
consume id lease = exec (update (Update.consume status_processing lease id status_pending []))

unfoldable pub heartbeat : ℤ → MessageAttr → Bytes → Exec DbError ℕ
heartbeat id attr lease = exec (update (Update.heartbeat attr id lease status_processing))

unfoldable pub complete : ℤ → Bytes → Exec DbError ℕ
complete id lease = exec (update (Update.completed status_completed [] id lease status_processing))

unfoldable pub fail : ℤ → Bytes → MessageAttr → Exec DbError ℕ
fail id lease attr =
    exec (update (Update.set_failed status_failed [] attr id lease status_processing))

unfoldable pub cancel : ℤ → Bytes → Exec DbError ℕ
cancel id lease = exec (update (Update.cancel [] status_pending id lease status_processing))

unfoldable pub reset_to_pending : ℤ → Exec DbError ℕ
reset_to_pending id = exec (update (Update.reset_to_pending status_pending [] id status_processing))
