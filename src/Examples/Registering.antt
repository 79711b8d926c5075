-- ===== src/Examples/Registering.antt =====
-- The theorems on the transactions of users.
use open_cidn.Base.{◌≡◌, ◌⊎◌, refl, false, bytes, str_eq, ok, Result, some, none, [], ◌∷◌}
use open_cidn.Accounts.Session.{
  Login, Session, AccountError, with_password, begin, get_by_account, exec, ◌>>=◌,
}
use open_cidn.Accounts.Users.{create, update_after, update_password, within_request}
use open_cidn.Accounts.Atomic.{IsError, login_of, registered, create_atomic, update_password_ends}

abbrev alice : Login
alice = record {
  login_id = 1;
  user_id = 1;
  kind = [];
  account = bytes "alice";
  password = bytes "old";
  deleted = false;
}

abbrev quiet_session : Session
quiet_session = record {
  committed = record {
    users = [];
    logins = alice ∷ [];
    next_user = 2;
    next_login = 2;
    collates = str_eq;
  };
  working = record { users = []; logins = []; next_user = 0; next_login = 0; collates = str_eq };
  opened = 0;
  fails = λ n. false;
  clock = 0;
}

create_atomic_example :
    ((create (bytes "Bob") (bytes "bob") (bytes "pw") quiet_session).1.opened ≡ 0)
    × ((((create (bytes "Bob") (bytes "bob") (bytes "pw") quiet_session).0 ≡ ok 2)
          × (login_of (bytes "bob") quiet_session ≡ none)
          × ((create (bytes "Bob") (bytes "bob") (bytes "pw") quiet_session).1.committed
              ≡ registered (bytes "Bob") (bytes "bob") (bytes "pw") quiet_session.committed))
        ⊎ (IsError (create (bytes "Bob") (bytes "bob") (bytes "pw") quiet_session).0
            × ((create (bytes "Bob") (bytes "bob") (bytes "pw") quiet_session).1.committed
                ≡ quiet_session.committed)))
create_atomic_example = create_atomic (bytes "Bob") (bytes "bob") (bytes "pw") quiet_session

-- Nobody is called bob.
abbrev returned : Result AccountError (Unit {0}) × Session
returned = update_password (bytes "bob") (bytes "new") quiet_session

abbrev over : Result AccountError (Unit {0}) × Session
over = within_request (update_password (bytes "bob") (bytes "new")) quiet_session

update_password_ends_example :
    (over.0 ≡ returned.0)
    × (over.1.opened ≡ 0)
    × (over.1.committed ≡ returned.1.committed)
    × (((l : Login) × ((login_of (bytes "bob") quiet_session ≡ some l)
            × (returned.0 ≡ ok tt)
            × (returned.1.committed
                ≡ with_password l.login_id (bytes "new") quiet_session.committed)))
        ⊎ (IsError returned.0 × (returned.1.committed ≡ quiet_session.committed)))
    × ((returned.1.opened ≡ 0)
        ⊎ ((login_of (bytes "bob") quiet_session ≡ none) × (returned.1.opened ≡ 1)))
update_password_ends_example = update_password_ends (bytes "bob") (bytes "new") quiet_session

-- The transaction is open when `UpdatePassword` returns.
left_open : returned.1.opened ≡ 1
unfolding update_password update_after begin get_by_account exec ◌>>=◌ str_eq
left_open = refl
