-- ===== src/Accounts/Atomic.antt =====
-- What the transactions of users leave behind (pkg/auth/service/user.go).
use open_cidn.Base.{
  ℕ, suc, ◌-◌, ◌≡◌, refl, ◌⊎◌, inl, inr, Bool-cases, Bytes, Result, ok, err, Option, none, some,
  Option-cases, find, arith, ltb, if◌then◌else◌,
}
use open_cidn.Accounts.Session.{
  Login, Tables, Session, AccountError, no_rows, failed, account_exists, ◌>>=◌, exec, begin,
  rollback, commit, with_user, with_login, with_password, create_user, create_login, has_account,
  get_by_account, update_login,
}
use open_cidn.Accounts.Users.{
  create, create_rest, create_after, update_after, update_password, within_request,
}

abbrev pub IsError : {A : Type 0} → Result AccountError A → Type 0
IsError (ok a) = ⊥
IsError (err e) = Unit

-- The login that the committed tables have for an account.
abbrev pub login_of : Bytes → Session → Option Login
login_of account s = find (has_account s.committed.collates account) s.committed.logins

-- Both rows of a new user.
abbrev pub registered : Bytes → Bytes → Bytes → Tables → Tables
registered nickname account password t =
    with_login t.next_user account password (with_user nickname t)

closed : (n : ℕ) → suc n - 1 ≡ n
closed n = omega arith

-- What is to become of the tables and of the transaction.
abbrev Ends : Tables → Session → ℕ → ℕ → Result AccountError ℕ × Session → Type 0
Ends new s id opened (r, s') =
    (s'.opened ≡ opened)
    × (((r ≡ ok id) × (s'.committed ≡ new)) ⊎ (IsError r × (s'.committed ≡ s.committed)))

create_login_lem :
    (id : ℕ) (account password : Bytes) (s : Session) (opened : ℕ)
    → s.opened - 1 ≡ opened
    → Ends
        (with_login id account password s.working)
        s
        id
        opened
        (create_rest id account password s)
unfolding create_rest ◌>>=◌ exec create_login rollback commit
create_login_lem id account password s opened o = elim (Bool-cases (s.fails s.clock)) [
  | inl f ↦ rw f (o, inr (tt, refl))
  | inr f ↦ rw f (elim (Bool-cases (s.fails (suc s.clock))) [
    | inl g ↦ rw g (o, inr (tt, refl))
    | inr g ↦ rw g (o, inl (refl, refl))
  ])
]

create_user_lem :
    (nickname account password : Bytes) (s : Session) (opened : ℕ)
    → s.opened - 1 ≡ opened
    → Ends
        (registered nickname account password s.working)
        s
        s.working.next_user
        opened
        (create_after nickname account password (err no_rows) s)
unfolding create_after ◌>>=◌ exec create_user rollback
create_user_lem nickname account password s opened o = elim (Bool-cases (s.fails s.clock)) [
  | inl f ↦ rw f (o, inr (tt, refl))
  | inr f ↦ rw f (create_login_lem s.working.next_user account password _ opened o)
]

-- A fact that is known beside the first of two outcomes.
with_login_of : {A B C D : Type 0} (P : Type 0) → P → A × ((B × C) ⊎ D) → A × ((B × P × C) ⊎ D)
with_login_of P p (a, inl (b, c)) = (a, inl (b, p, c))
with_login_of P p (a, inr d) = (a, inr d)

create_failed :
    (nickname account password : Bytes) (s : Session)
    → create_after nickname account password (err failed) s
      ≡ (err failed, record s { opened = s.opened - 1 })
unfolding create_after ◌>>=◌ rollback
create_failed nickname account password s = refl

create_taken :
    (nickname account password : Bytes) (l : Login) (s : Session)
    → create_after nickname account password (ok l) s
      ≡ (err account_exists, record s { opened = s.opened - 1 })
unfolding create_after ◌>>=◌ rollback
create_taken nickname account password l s = refl

-- Whichever statements fail, `Create` leaves no transaction open, and either adds the user and the
-- login together, for an account that nobody has, and returns the new id, or fails and leaves the
-- tables as they were.
pub create_atomic :
    (nickname account password : Bytes) (s : Session)
    → let (r, s') = create nickname account password s in
      (s'.opened ≡ s.opened)
      × (((r ≡ ok s.committed.next_user)
            × (login_of account s ≡ none)
            × (s'.committed ≡ registered nickname account password s.committed))
          ⊎ (IsError r × (s'.committed ≡ s.committed)))
unfolding create ◌>>=◌ begin get_by_account exec
create_atomic nickname account password s = elim (Bool-cases (s.fails s.clock)) [
  | inl f ↦ rw f (refl, inr (tt, refl))
  | inr f ↦ rw f (elim (Bool-cases (s.fails (suc s.clock))) [
    | inl g ↦ rw (g, create_failed) (closed s.opened, inr (tt, refl))
    | inr g ↦ rw g (elim (Option-cases (login_of account s)) [
      | inr (l, h) ↦ rw (h, create_taken) (closed s.opened, inr (tt, refl))
      | inl h ↦ rw h (
          with_login_of _ refl
            (create_user_lem nickname account password _ s.opened (closed s.opened)))
    ])
  ])
]

-- `UpdatePassword` for an account that somebody has leaves no transaction open, and either changes
-- the password of that login or fails and changes nothing.
pub update_password_atomic :
    (account password : Bytes) (s : Session) (l : Login)
    → login_of account s ≡ some l
    → let (r, s') = update_password account password s in
      (s'.opened ≡ s.opened)
      × (((r ≡ ok tt) × (s'.committed ≡ with_password l.login_id password s.committed))
          ⊎ (IsError r × (s'.committed ≡ s.committed)))
unfolding update_password update_after ◌>>=◌ begin get_by_account exec update_login rollback commit
update_password_atomic account password s l h = elim (Bool-cases (s.fails s.clock)) [
  | inl f ↦ rw f (refl, inr (tt, refl))
  | inr f ↦ elim (Bool-cases (s.fails (suc s.clock))) [
    | inl g ↦ rw (f, g) (closed s.opened, inr (tt, refl))
    | inr g ↦ elim (Bool-cases (s.fails (suc (suc s.clock)))) [
      | inl i ↦ rw (f, g, h, i) (closed s.opened, inr (tt, refl))
      | inr i ↦ elim (Bool-cases (s.fails (suc (suc (suc s.clock))))) [
        | inl j ↦ rw (f, g, h, i, j) (closed s.opened, inr (tt, refl))
        | inr j ↦ rw (f, g, h, i, j) (closed s.opened, inl (refl, refl))
      ]
    ]
  ]
]

-- For an account that nobody has nothing is changed, and if no statement fails the transaction is
-- still open when `UpdatePassword` returns.
update_password_unknown :
    (account password : Bytes) (s : Session)
    → login_of account s ≡ none
    → let (r, s') = update_password account password s in
      IsError r
      × (s'.committed ≡ s.committed)
      × ((s'.opened ≡ s.opened) ⊎ (s'.opened ≡ suc s.opened))
unfolding update_password update_after ◌>>=◌ begin get_by_account exec rollback
update_password_unknown account password s h = elim (Bool-cases (s.fails s.clock)) [
  | inl f ↦ rw f (tt, refl, inl refl)
  | inr f ↦ elim (Bool-cases (s.fails (suc s.clock))) [
    | inl g ↦ rw (f, g) (tt, refl, inl (closed s.opened))
    | inr g ↦ rw (f, g, h) (tt, refl, inr refl)
  ]
]

ended_even : (m n : ℕ) → m ≡ n → (if ltb n m then n else m) ≡ n
ended_even m n h = ground (arith, h)

ended_late : (m n : ℕ) → m ≡ suc n → (if ltb n m then n else m) ≡ n
ended_late m n h = ground (arith, h)

-- A request that changes a password, whichever statements fail: when it is over no transaction of it
-- is open, and either somebody has the account and the password of that login alone is changed, or
-- an error is returned and nothing is changed. The transaction is over when `UpdatePassword`
-- returns, except perhaps for an account that nobody has, where the end of the request ends it.
pub update_password_ends :
    (account password : Bytes) (s : Session)
    → let (r, s') = update_password account password s in
      let (r'', s'') = within_request (update_password account password) s in
      (r'' ≡ r)
      × (s''.opened ≡ s.opened)
      × (s''.committed ≡ s'.committed)
      × (((l : Login) × ((login_of account s ≡ some l)
              × (r ≡ ok tt)
              × (s'.committed ≡ with_password l.login_id password s.committed)))
          ⊎ (IsError r × (s'.committed ≡ s.committed)))
      × ((s'.opened ≡ s.opened) ⊎ ((login_of account s ≡ none) × (s'.opened ≡ suc s.opened)))
unfolding within_request
update_password_ends account password s = elim (Option-cases (login_of account s)) [
  | inr (l, h) ↦
      let (over, ends) = update_password_atomic account password s l h in
      (
        refl,
        ended_even _ s.opened over,
        refl,
        elim ends [
          | inl (fine, changed) ↦ inl (l, (h, fine, changed))
          | inr (e, kept) ↦ inr (e, kept)
        ],
        inl over,
      )
  | inl h ↦
      let (e, kept, open_yet) = update_password_unknown account password s h in
      elim open_yet [
        | inl over ↦ (refl, ended_even _ s.opened over, refl, inr (e, kept), inl over)
        | inr late ↦ (refl, ended_late _ s.opened late, refl, inr (e, kept), inr (h, late))
      ]
]
