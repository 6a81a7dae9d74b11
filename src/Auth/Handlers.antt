-- ===== src/Auth/Handlers.antt =====
-- The handlers of internal/server/auth.go and of the routes that reach them, and the pruning of
-- sessions. A JSON body is decoded already, or refused with a code. Of an audit row the details and
-- the values before and after are left out. An id in a path is what strconv.Atoi reads, if that is
-- not negative.
pub mod Accounts
use archer.Prelude.{
  ℕ, Bool, true, false, not, ◌&&◌, ◌||◌, Option, none, some, List, [], ◌∷◌, ◌++◌, Text, codes, ltb,
  ◌==◌, if◌then◌else◌, text_eq, length, trim_space,
}
use archer.Net.{Net, Platform}
use archer.Users.{
  User, UserStore, role_admin, role_viewer, status_pending, status_active, email_exists, user_count,
  normalize_email, create_user, authenticate, create_session, get_session, delete_session,
}
use archer.Auth.{Request, Reply, error, redirect, page, pending, signed_in, valid_email}
use archer.RateLimit.{Buckets, Verdict, allow_nil_safe}

pub record AuditEntry : Type 0 where
  pub action : Text
  pub actor_id : ℕ
  pub actor_email : Text
  pub target_id : Option ℕ
  pub target_name : Text
  pub source : Text

-- the fields of Server that the handlers read or change
pub record Server : Type 0 where
  pub users : UserStore
  pub rate_limit : Option Buckets
  pub audit_log : List AuditEntry

-- What a handler gets from outside: the time, the random token and salt that it would draw, whether
-- the database makes its write to the accounts, and whether it stamps findings_seen_at.
pub record Env : Type 0 where
  pub now : ℕ
  pub token : Text
  pub salt : ℕ
  pub saved : Bool
  pub stamped : Bool

pub record LoginForm : Type 0 where
  pub email : Text
  pub password : Text

pub record RegisterForm : Type 0 where
  pub first_name : Text
  pub last_name : Text
  pub email : Text
  pub password : Text
  pub confirm : Text

-- recordAuditLogin
unfoldable pub record_audit_login : Request → Text → ℕ → Text → Server → Server
record_audit_login r action id email s = record s {
  audit_log =
      s.audit_log
      ++ (record {
        action = action;
        actor_id = id;
        actor_email = email;
        target_id = none;
        target_name = [];
        source = r.source;
      }
          ∷ []);
}

abbrev pub min_password : ℕ
min_password = 8

-- the session of a user who signs in, with the token of the cookie
unfoldable pub open_session : Env → ℕ → Server → Server
open_session e id s = record s { users = create_session e.now e.token e.stamped id s.users }

abbrev pub bad_login : Reply
bad_login = page (codes "Invalid email or password.")

-- handleLogin after Authenticate
unfoldable pub login_as : Env → Request → Text → Option User → Server → Server × Reply
login_as e r email none s = (record_audit_login r (codes "login_failure") 0 email s, bad_login)
login_as e r email (some u) s =
    if text_eq u.status status_pending
    then (record_audit_login r (codes "login_failure") u.id u.email s, bad_login)
    else (
      record_audit_login r (codes "login_success") u.id u.email (open_session e u.id s),
      signed_in e.token,
    )

-- What follows the rate limit: the handler goes on, or refuses and perhaps audits.
abbrev pub unless_limited : Request → Verdict → (Server → Server × Reply) → Server → Server × Reply
unless_limited r v handler s = if v.allowed then handler s else (
  if v.should_audit then record_audit_login r (codes "request_rate_limited") 0 [] s else s,
  error 429,
)

module _ (net : Net) where
  unfoldable pub rate_limited : Env → Request → (Server → Server × Reply) → Server → Server × Reply
  rate_limited e r handler s =
      let (buckets, v) = allow_nil_safe net e.now s.rate_limit r.source in
      unless_limited r v handler (record s { rate_limit = buckets })

-- the switch on the method: a page for GET, the handler for POST
abbrev pub by_method : Request → (Server → Server × Reply) → Server → Server × Reply
by_method r handler s =
    if text_eq r.method (codes "GET")
    then (s, page [])
    else if text_eq r.method (codes "POST")
    then handler s
    else (s, error 405)

module _ (platform : Platform) where
  unfoldable pub post_login : Env → Request → LoginForm → Server → Server × Reply
  post_login e r form s =
      let email = normalize_email platform form.email in
      if not (valid_email email)
      then (
        record_audit_login r (codes "login_failure") 0 email s,
        page (codes "Enter a valid email address."),
      )
      else login_as e r email (authenticate platform email form.password s.users) s

  -- what follows CreateUser in handleRegister
  unfoldable pub registered :
      Env → Request → Text → Bool → UserStore × Option User → Server → Server × Reply
  registered e r email first (us, none) s =
      (record s { users = us }, page (codes "Registration failed. Please try again."))
  registered e r email false (us, some u) s =
      (record_audit_login r (codes "user_register") 0 email (record s { users = us }), pending)
  registered e r email true (us, some u) s = (
    open_session e u.id
        (record_audit_login r (codes "admin_bootstrap") u.id u.email (record s { users = us })),
    signed_in e.token,
  )

  -- the locked part of handleRegister: the first account is an active admin, any other a pending
  -- viewer
  unfoldable pub bootstrap : Env → Request → Text → Text → Text → Text → Server → Server × Reply
  bootstrap e r first_name last_name email password s =
      let first = user_count s.users == 0 in
      registered e r email first
        (create_user platform e.now e.salt e.saved email first_name last_name password
          (if first then role_admin else role_viewer)
          (if first then status_active else status_pending) s.users)
        s

  unfoldable pub post_register : Env → Request → RegisterForm → Server → Server × Reply
  post_register e r form s =
      let first_name = trim_space form.first_name in
      let last_name = trim_space form.last_name in
      let email = normalize_email platform form.email in
      if text_eq first_name []
      then (s, page (codes "First name is required."))
      else if text_eq last_name []
      then (s, page (codes "Last name is required."))
      else if not (valid_email email)
      then (s, page (codes "Enter a valid email address."))
      else if ltb (length form.password) min_password
      then (s, page (codes "Password must be at least 8 characters."))
      else if not (text_eq form.password form.confirm)
      then (s, page (codes "Passwords do not match."))
      else if email_exists email s.users
      then (s, pending)
      else bootstrap e r first_name last_name email form.password s

  module _ (net : Net) where
    unfoldable pub handle_login : Env → Request → LoginForm → Server → Server × Reply
    handle_login e r form s = by_method r (rate_limited net e r (post_login e r form)) s

    unfoldable pub handle_register : Env → Request → RegisterForm → Server → Server × Reply
    handle_register e r form s = by_method r (rate_limited net e r (post_register e r form)) s

abbrev pub audit_logout : Request → Option User → Server → Server
audit_logout r none s = s
audit_logout r (some u) s =
    if not (u.id == 0) then record_audit_login r (codes "logout") u.id u.email s else s

abbrev pub logout_of : Env → Request → Option Text → Server → Server
logout_of e r none s = s
logout_of e r (some token) s =
    let (us, u) = get_session e.now token s.users in
    audit_logout r u (record s { users = delete_session token us })

-- handleLogout, whose cookie is emptied by its reply
unfoldable pub handle_logout : Env → Request → Server → Server × Reply
handle_logout e r s = (logout_of e r r.cookie s, redirect (codes "/login"))
