-- ===== src/Accounts/Session.antt =====
-- What the service of users runs in: the tables `users` and `logins` as committed and as the
-- transaction sees them (with the collation that compares accounts), how many transactions are open, and which of its statements fail. Other
-- transactions do not come between.
use open_cidn.Base.{
  ℕ, suc, ◌-◌, Bool, false, not, ◌&&◌, ◌==◌, if◌then◌else◌, Bytes, Result, ok, err, Option, none,
  some, List, [], ◌∷◌, ◌++◌, map, find,
}

pub record User : Type 0 where
  pub user_id : ℕ
  pub nickname : Bytes

pub record Login : Type 0 where
  pub login_id : ℕ
  pub user_id : ℕ
  pub kind : Bytes
  pub account : Bytes
  pub password : Bytes
  pub deleted : Bool

pub record Tables : Type 0 where
  pub users : List User
  pub logins : List Login
  pub next_user : ℕ
  pub next_login : ℕ
  pub collates : Bytes → Bytes → Bool

pub record Session : Type 0 where
  pub committed : Tables
  pub working : Tables
  pub opened : ℕ
  pub fails : ℕ → Bool
  pub clock : ℕ

pub data AccountError : Type 0 where
  no_rows failed account_exists account_unknown : AccountError

abbrev pub Act : Type 0 → Type 0
Act A = Session → Result AccountError A × Session

module _ {A : Type 0} where
  unfoldable pub pure : A → Act A
  pure a s = (ok a, s)

  unfoldable pub raise : AccountError → Act A
  raise e s = (err e, s)

module _ {A B : Type 0} where
  abbrev pub continue :
      (Result AccountError A → Act B)
      → Result AccountError A × Session
      → Result AccountError B × Session
  continue f (r, s) = f r s

  -- The error as a value.
  unfoldable pub handle : Act A → (Result AccountError A → Act B) → Act B
  handle m f s = continue f (m s)

  abbrev pub passed : (A → Act B) → Result AccountError A → Act B
  passed f (ok a) = f a
  passed f (err e) = raise e

  infixl 5 ◌>>=◌ ◌>>◌
  unfoldable pub ◌>>=◌ : Act A → (A → Act B) → Act B
  unfolding handle pure raise
  ◌>>=◌ m f = handle m (passed f)

  abbrev pub ◌>>◌ : Act A → Act B → Act B
  m >> k = m >>= λ _. k

-- A statement of the transaction.
unfoldable pub exec : {A : Type 0} → (Tables → A × Tables) → Act A
exec f s =
    let s' = record s { clock = suc s.clock } in
    if s.fails s.clock
    then (err failed, s')
    else (ok (f s.working).0, record s' { working = (f s.working).1 })

unfoldable pub begin : Act (Unit {0})
begin s =
    let s' = record s { clock = suc s.clock } in
    if s.fails s.clock
    then (err failed, s')
    else (ok tt, record s' { working = s.committed; opened = suc s.opened })

unfoldable pub rollback : Act (Unit {0})
rollback s = (ok tt, record s { opened = s.opened - 1 })

-- A commit that fails has closed the transaction too.
unfoldable pub commit : Act (Unit {0})
commit s =
    let s' = record s { clock = suc s.clock; opened = s.opened - 1 } in
    if s.fails s.clock then (err failed, s') else (ok tt, record s' { committed = s.working })

-- pkg/auth/dao/user.go and pkg/auth/dao/login.go.
abbrev pub with_user : Bytes → Tables → Tables
with_user nickname t = record t {
  users = t.users ++ record { user_id = t.next_user; nickname = nickname } ∷ [];
  next_user = suc t.next_user;
}

abbrev pub with_login : ℕ → Bytes → Bytes → Tables → Tables
with_login id account password t = record t {
  logins =
      t.logins
      ++ record {
        login_id = t.next_login;
        user_id = id;
        kind = [];
        account = account;
        password = password;
        deleted = false;
      }
        ∷ [];
  next_login = suc t.next_login;
}

unfoldable pub create_user : Bytes → Act ℕ
create_user nickname = exec λ t. (t.next_user, with_user nickname t)

unfoldable pub create_login : ℕ → Bytes → Bytes → Act ℕ
create_login id account password = exec λ t. (t.next_login, with_login id account password t)

abbrev pub has_account : (Bytes → Bytes → Bool) → Bytes → Login → Bool
has_account same account l = same l.account account && not l.deleted

abbrev pub row_or_error : Option Login → Act Login
row_or_error none = raise no_rows
row_or_error (some l) = pure l

unfoldable pub get_by_account : Bytes → Act Login
unfolding ◌>>=◌
get_by_account account = do
  found ← exec (λ t. (find (has_account t.collates account) t.logins, t))
  row_or_error found

abbrev pub set_password : ℕ → Bytes → Login → Login
set_password id password l =
    if l.login_id == id && not l.deleted then record l { password = password } else l

abbrev pub with_password : ℕ → Bytes → Tables → Tables
with_password id password t = record t { logins = map (set_password id password) t.logins }

unfoldable pub update_login : ℕ → Bytes → Act (Unit {0})
update_login id password = exec λ t. (tt, with_password id password t)
