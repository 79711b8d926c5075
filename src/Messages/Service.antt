-- ===== src/Messages/Service.antt =====
-- pkg/queue/service/message.go: where the statement reports no affected row, the method fails.
use open_cidn.Base.{ℕ, ◌==◌, if◌then◌else◌, ℤ, Bytes, List}
use open_cidn.Messages.Model.{MessageAttr, Message}
use open_cidn.Messages.World.{Exec, DbError, no_rows_affected, pure, raise, ◌>>=◌}
use open_cidn.Messages.Dao

-- `if rowsAffected == 0 { return fmt.Errorf(...) }`.
unfoldable pub some_affected : ℕ → Exec DbError (Unit {0})
some_affected n = if n == 0 then raise no_rows_affected else pure tt

unfoldable pub create : Message → Exec DbError ℕ
create m = Dao.create m

unfoldable pub get_by_id : ℤ → Exec DbError Message
get_by_id id = Dao.get_by_id id

unfoldable pub get_by_content : Bytes → Exec DbError Message
get_by_content content = Dao.get_by_content content

unfoldable pub update_by_id : ℤ → Message → Exec DbError (Unit {0})
update_by_id id m = Dao.update_by_id id m

unfoldable pub update_priority_by_id : ℤ → ℤ → Exec DbError (Unit {0})
update_priority_by_id id priority = Dao.update_priority_by_id id priority

unfoldable pub delete_by_id : ℤ → Exec DbError (Unit {0})
delete_by_id id = Dao.delete_by_id id

unfoldable pub list : Exec DbError (List Message)
list = Dao.list

unfoldable pub consume : ℤ → Bytes → Exec DbError (Unit {0})
unfolding some_affected
consume id lease = do n ← Dao.consume id lease; some_affected n

unfoldable pub heartbeat : ℤ → MessageAttr → Bytes → Exec DbError (Unit {0})
unfolding some_affected
heartbeat id attr lease = do n ← Dao.heartbeat id attr lease; some_affected n

unfoldable pub complete : ℤ → Bytes → Exec DbError (Unit {0})
unfolding some_affected
complete id lease = do n ← Dao.complete id lease; some_affected n

unfoldable pub fail : ℤ → Bytes → MessageAttr → Exec DbError (Unit {0})
unfolding some_affected
fail id lease attr = do n ← Dao.fail id lease attr; some_affected n

unfoldable pub cancel : ℤ → Bytes → Exec DbError (Unit {0})
unfolding some_affected
cancel id lease = do n ← Dao.cancel id lease; some_affected n

unfoldable pub clean_up : Exec DbError (Unit {0})
clean_up = Dao.clean

unfoldable pub get_completed_and_failed : Exec DbError (List Message)
get_completed_and_failed = Dao.get_completed_and_failed

unfoldable pub get_stale : Exec DbError (List Message)
get_stale = Dao.get_stale

unfoldable pub reset_to_pending : ℤ → Exec DbError (Unit {0})
unfolding some_affected
reset_to_pending id = do n ← Dao.reset_to_pending id; some_affected n
