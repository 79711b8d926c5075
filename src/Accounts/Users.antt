-- ===== src/Accounts/Users.antt =====
-- The transactions of pkg/auth/service/user.go.
use open_cidn.Base.{ltb, if◌then◌else◌, ℕ, Bytes, Result, ok, err}
use open_cidn.Accounts.Session.{
  Login, AccountError, no_rows, failed, account_exists, account_unknown, Act, pure, raise, handle,
  ◌>>=◌, ◌>>◌, begin, rollback, commit, create_user, create_login, get_by_account, update_login,
}

-- `if err != nil { tx.Rollback(); return err }`.
abbrev pub or_rolled_back : {A : Type 0} → Result AccountError A → Act A
or_rolled_back (ok a) = pure a
or_rolled_back (err e) = do rollback; raise e

-- The second row, and the commit.
unfoldable pub create_rest : ℕ → Bytes → Bytes → Act ℕ
unfolding ◌>>=◌
create_rest id account password = do
  handle (create_login id account password) or_rolled_back
  commit
  pure id

unfoldable pub create_after : Bytes → Bytes → Bytes → Result AccountError Login → Act ℕ
unfolding ◌>>=◌
create_after nickname account password (ok login) = do rollback; raise account_exists
create_after nickname account password (err no_rows) = do
  id ← handle (create_user nickname) or_rolled_back
  create_rest id account password
create_after nickname account password (err e) = do rollback; raise failed

-- `Create`.
unfoldable pub create : Bytes → Bytes → Bytes → Act ℕ
unfolding ◌>>=◌
create nickname account password = do
  begin
  handle (get_by_account account) (create_after nickname account password)

unfoldable pub update_after : Bytes → Result AccountError Login → Act (Unit {0})
unfolding ◌>>=◌
update_after password (ok login) = do
  handle (update_login login.login_id password) or_rolled_back
  commit
update_after password (err no_rows) = raise account_unknown
update_after password (err e) = do rollback; raise failed

-- A request with the context that its transactions are begun with. The context ends with the
-- request, and `database/sql` rolls back what is then open of them.
unfoldable pub within_request : {A : Type 0} → Act A → Act A
within_request m s =
    let (r, s') = m s in
    (r, record s' { opened = if ltb s.opened s'.opened then s.opened else s'.opened })

-- `UpdatePassword`, up to its return. For an account that is not there it returns without ending its
-- transaction, which is rolled back when the request ends.
unfoldable pub update_password : Bytes → Bytes → Act (Unit {0})
unfolding ◌>>=◌ update_after
update_password account password = do begin; handle (get_by_account account) (update_after password)
