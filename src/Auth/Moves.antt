-- ===== src/Auth/Moves.antt =====
-- An abstract view of what the handlers of internal/server/auth.go may do to the accounts and the
-- sessions: moves, each with who may make it.
use archer.Prelude.{ℕ, Bool, true, false, not, ◌&&◌, some, Text, ◌==◌, ◌≡◌, text_eq, length}
use archer.Net.{Platform}
use archer.Users.{
  User, UserStore, role_admin, role_viewer, status_active, status_pending, authenticate,
  create_user, create_session, set_password, update_user_role, approve_user, delete_user,
  delete_session, delete_sessions_for_user, prune_expired_sessions,
}
use archer.Users.Rows.{SomeUser}

abbrev pub IsAdmin : User → Type 0
IsAdmin u = (text_eq u.role role_admin ≡ true) × (text_eq u.status status_active ≡ true)

-- The account with this id is an active admin.
abbrev pub Rules : ℕ → UserStore → Type 0
Rules me s = SomeUser (λ u. IsAdmin u × ((u.id == me) ≡ true)) s

pub data Move (platform : Platform) : UserStore → UserStore → Type 0 where
  -- a session ends: it expires, its user logs out or is no longer active, an admin changes the account
  leave : (token : Text) (s : UserStore) → Move platform s (delete_session token s)
  sweep : (now : ℕ) (s : UserStore) → Move platform s (prune_expired_sessions now s)
  revoke : (id : ℕ) (s : UserStore) → Move platform s (delete_sessions_for_user id s)
  -- anyone may ask for an account, which is a viewer's and pending
  join :
      (now salt : ℕ) (saved : Bool) (email first_name last_name password : Text) (s : UserStore)
      → Move platform s
          (create_user platform now salt saved email first_name last_name password role_viewer
            status_pending s).0
  -- the first account is an active admin's
  found :
      (now salt : ℕ) (saved : Bool) (email first_name last_name password : Text) (s : UserStore)
      → (length s.rows == 0) ≡ true
      → Move platform s
          (create_user platform now salt saved email first_name last_name password role_admin
            status_active s).0
  -- a session begins for an account that is not pending
  enter :
      (now : ℕ) (token : Text) (stamped : Bool) (id : ℕ) (s : UserStore)
      → SomeUser (λ u. (text_eq u.status status_pending ≡ false) × ((u.id == id) ≡ true)) s
      → Move platform s (create_session now token stamped id s)
  -- an account's password is set by its user, who has proved another, or by an admin
  renew :
      (salt : ℕ) (saved : Bool) (id : ℕ) (email current password : Text) (u : User) (s : UserStore)
      → authenticate platform email current s ≡ some u
      → SomeUser (λ v. (v.email ≡ email) × ((v.id == id) ≡ true)) s
      → Move platform s (set_password platform salt saved id password s).0
  reset :
      (me salt : ℕ) (saved : Bool) (id : ℕ) (password : Text) (s : UserStore)
      → Rules me s
      → (id == me) ≡ false
      → Move platform s (set_password platform salt saved id password s).0
  -- an active admin makes an active account, or changes one, but does not demote or delete his own
  appoint :
      (me now salt : ℕ) (saved : Bool) (email first_name last_name password role : Text)
      (s : UserStore)
      → Rules me s
      → Move platform s
          (create_user platform now salt saved email first_name last_name password role
            status_active s).0
  approve :
      (me : ℕ) (saved : Bool) (id : ℕ) (s : UserStore)
      → Rules me s
      → Move platform s (approve_user saved id s).0
  assign :
      (me : ℕ) (saved : Bool) (id : ℕ) (role : Text) (s : UserStore)
      → Rules me s
      → (id == me && not (text_eq role role_admin)) ≡ false
      → Move platform s (update_user_role saved id role s).0
  remove :
      (me : ℕ) (saved : Bool) (id : ℕ) (s : UserStore)
      → Rules me s
      → (id == me) ≡ false
      → Move platform s (delete_user saved id s).0

pub data Moves (platform : Platform) (s : UserStore) : UserStore → Type 0 where
  rest : Moves platform s s
  next : {t u : UserStore} → Moves platform s t → Move platform t u → Moves platform s u

module _ {platform : Platform} where
  pub one : {s t : UserStore} → Move platform s t → Moves platform s t
  one m = next rest m

  pub Moves-append :
      {s t u : UserStore} → Moves platform s t → Moves platform t u → Moves platform s u
  Moves-append m rest = m
  Moves-append m (next n k) = next (Moves-append m n) k
