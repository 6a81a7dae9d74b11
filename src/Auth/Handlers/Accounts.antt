-- ===== src/Auth/Handlers/Accounts.antt =====
-- The handlers of internal/server/auth.go that change accounts, their routes, and any sequence of
-- requests.
use archer.Prelude.{
  ℕ, Bool, true, false, not, ◌&&◌, ◌||◌, Option, none, some, List, [], ◌∷◌, ◌++◌, Text, codes, ltb,
  ◌==◌, if◌then◌else◌, text_eq, length, trim_space,
}
use archer.Net.{Net, Platform}
use archer.Users.{
  User, UserStore, role_admin, role_analyst, status_active, is_valid_role, get_user_by_id,
  email_exists, normalize_email, create_user, authenticate, set_password, update_user_role,
  approve_user, delete_user, delete_sessions_for_user, prune_expired_sessions, list_users,
  without_hash,
}
use archer.Auth.{
  Request, Reply, error, done, done_with, created, listed, Context, Gate, refused, admitted,
  valid_email, require_auth, require_role,
}
use archer.Auth.Handlers.{
  Server, Env, LoginForm, RegisterForm, min_password, open_session, handle_login, handle_register,
  handle_logout,
}

pub data Body (A : Type 0) : Type 0 where
  undecoded : ℕ → Body A
  decoded : A → Body A

pub record PasswordChange : Type 0 where
  pub current_password : Text
  pub new_password : Text
  pub confirm : Text

pub record NewUser : Type 0 where
  pub email : Text
  pub password : Text
  pub role : Text
  pub first_name : Text
  pub last_name : Text

-- a field that is absent is empty
pub record Patch : Type 0 where
  pub role : Text
  pub status : Text
  pub password : Text

-- The routes that reach a handler of accounts, and what each reads of the request.
pub data Call : Type 0 where
  login : LoginForm → Call
  register : RegisterForm → Call
  logout : Call
  me_password : Body PasswordChange → Call
  users : Body NewUser → Call
  user_item : Option ℕ → Body Patch → Call

-- What happens to the server: a request, or the hourly pruning of sessions.
pub data Event : Type 0 where
  request : Env → Request → Call → Event
  prune : ℕ → Event

-- recordAudit
unfoldable pub record_audit : Request → Context → Text → ℕ → Text → Server → Server
record_audit r c action id name s = record s {
  audit_log =
      s.audit_log
      ++ (record {
        action = action;
        actor_id = c.user.id;
        actor_email = c.user.email;
        target_id = some id;
        target_name = name;
        source = r.source;
      }
          ∷ []);
}

abbrev pub email_of : Option User → Text
email_of none = []
email_of (some u) = u.email

-- What a change of account `id` does once the store has answered: the sessions of the account are
-- dropped and the change is audited, or there is no such account.
unfoldable pub settle :
    Request → Context → Text → ℕ → ℕ → UserStore × Bool → Server → Server × Reply
settle r c action id code (us, true) s = (
  record_audit r c action id (email_of (get_user_by_id id s.users))
      (record s { users = delete_sessions_for_user id us }),
  done,
)
settle r c action id code (us, false) s = (record s { users = us }, error code)

-- PATCH with a status
unfoldable pub patch_status : Env → Request → Context → ℕ → Patch → Server → Server × Reply
patch_status e r c id req s =
    if not (text_eq req.status status_active)
    then (s, error 400)
    else settle r c (codes "user_status_change") id 404 (approve_user e.saved id s.users) s

-- PATCH with a role
unfoldable pub patch_role : Env → Request → Context → ℕ → Patch → Server → Server × Reply
patch_role e r c id req s =
    if text_eq req.role []
    then (s, error 400)
    else if not (is_valid_role req.role)
    then (s, error 400)
    else if id == c.user.id && not (text_eq req.role role_admin)
    then (s, error 400)
    else settle r c (codes "user_role_change") id 404 (update_user_role e.saved id req.role s.users)
        s

unfoldable pub delete_item : Env → Request → Context → ℕ → Server → Server × Reply
delete_item e r c id s =
    if id == c.user.id
    then (s, error 400)
    else settle r c (codes "user_delete") id 404 (delete_user e.saved id s.users) s

abbrev pub listing : Context → Server → List User
listing c s =
    if text_eq c.user.role role_admin
    then list_users s.users
    else record (without_hash c.user) { status = []; created_at = [] } ∷ []

module _ (platform : Platform) where
  abbrev pub reset_of : Env → Request → Context → ℕ → Text → Option User → Server → Server × Reply
  reset_of e r c id password none s = (s, error 404)
  reset_of e r c id password (some before) s =
      settle r c (codes "user_password_reset") id 500
        (set_password platform e.salt e.saved id password s.users) s

  -- PATCH with a password
  unfoldable pub patch_password : Env → Request → Context → ℕ → Patch → Server → Server × Reply
  patch_password e r c id req s =
      if id == c.user.id
      then (s, error 400)
      else if ltb (length req.password) min_password
      then (s, error 400)
      else reset_of e r c id req.password (get_user_by_id id s.users) s

  abbrev pub patch_item : Env → Request → Context → ℕ → Body Patch → Server → Server × Reply
  patch_item e r c id (undecoded code) s = (s, error code)
  patch_item e r c id (decoded req) s =
      if not (text_eq req.status [])
      then patch_status e r c id req s
      else if not (text_eq req.password [])
      then patch_password e r c id req s
      else patch_role e r c id req s

  -- handleUserItem
  unfoldable pub handle_user_item :
      Env → Request → Context → Option ℕ → Body Patch → Server → Server × Reply
  handle_user_item e r c none body s = (s, error 400)
  handle_user_item e r c (some id) body s =
      if text_eq r.method (codes "PATCH")
      then patch_item e r c id body s
      else if text_eq r.method (codes "DELETE")
      then delete_item e r c id s
      else (s, error 405)

  -- what follows CreateUser in handleUsersCollection
  abbrev pub created_user : Request → Context → UserStore × Option User → Server → Server × Reply
  created_user r c (us, none) s = (record s { users = us }, error 500)
  created_user r c (us, some u) s =
      (record_audit r c (codes "user_create") u.id u.email (record s { users = us }), created u)

  unfoldable pub post_user : Env → Request → Context → Body NewUser → Server → Server × Reply
  post_user e r c (undecoded code) s = (s, error code)
  post_user e r c (decoded req) s =
      let email = normalize_email platform req.email in
      let first_name = trim_space req.first_name in
      let last_name = trim_space req.last_name in
      if text_eq first_name [] || text_eq last_name []
      then (s, error 400)
      else if not (valid_email email)
      then (s, error 400)
      else if ltb (length req.password) min_password
      then (s, error 400)
      else if email_exists email s.users
      then (s, error 409)
      else created_user r c
          (create_user platform e.now e.salt e.saved email first_name last_name req.password
            (if is_valid_role req.role then req.role else role_analyst) status_active s.users)
          s

  unfoldable pub handle_users_collection :
      Env → Request → Context → Body NewUser → Server → Server × Reply
  handle_users_collection e r c body s =
      if text_eq r.method (codes "GET")
      then (s, listed (listing c s))
      else if text_eq r.method (codes "POST")
      then (if not (text_eq c.user.role role_admin) then (s, error 403) else post_user e r c body s)
      else (s, error 405)

  -- what follows SetPassword in handleMePassword
  abbrev pub password_changed : Env → Request → Context → UserStore × Bool → Server → Server × Reply
  password_changed e r c (us, false) s = (record s { users = us }, error 500)
  password_changed e r c (us, true) s = (
    record_audit r c (codes "user_password_change") c.user.id c.user.email
        (open_session e c.user.id (record s { users = delete_sessions_for_user c.user.id us })),
    done_with e.token,
  )

  abbrev pub change_password :
      Env → Request → Context → PasswordChange → Option User → Server → Server × Reply
  change_password e r c req none s = (s, error 403)
  change_password e r c req (some u) s =
      if ltb (length req.new_password) min_password
      then (s, error 400)
      else if not (text_eq req.new_password req.confirm)
      then (s, error 400)
      else password_changed e r c
          (set_password platform e.salt e.saved c.user.id req.new_password s.users) s

  unfoldable pub handle_me_password :
      Env → Request → Context → Body PasswordChange → Server → Server × Reply
  handle_me_password e r c body s =
      if not (text_eq r.method (codes "POST")) then (s, error 405) else elim body [
        | undecoded code ↦ (s, error code)
        | decoded req ↦
            change_password e r c req
              (authenticate platform c.user.email req.current_password s.users) s
      ]

  abbrev pub behind : Gate → (Context → Server → Server × Reply) → Server → Server × Reply
  behind (refused reply) handler s = (s, reply)
  behind (admitted c) handler s = handler c s

  -- a handler behind requireAuth, and requireRole if roles are named
  unfoldable pub authed :
      Env → Request → (Gate → Gate) → (Context → Server → Server × Reply) → Server → Server × Reply
  authed e r role handler s =
      let (us, g) = require_auth platform e.now r s.users in
      behind (role g) handler (record s { users = us })

  unfoldable pub serve : Net → Env → Request → Call → Server → Server × Reply
  serve net e r (login form) s = handle_login platform net e r form s
  serve net e r (register form) s = handle_register platform net e r form s
  serve net e r logout s = handle_logout e r s
  serve net e r (me_password body) s = authed e r (λ g. g) (λ c. handle_me_password e r c body) s
  serve net e r (users body) s = authed e r (λ g. g) (λ c. handle_users_collection e r c body) s
  serve net e r (user_item id body) s =
      authed e r (require_role (role_admin ∷ [])) (λ c. handle_user_item e r c id body) s

  unfoldable pub step : Net → Event → Server → Server
  step net (request e r call) s = (serve net e r call s).0
  step net (prune now) s = record s { users = prune_expired_sessions now s.users }

  unfoldable pub run : Net → List Event → Server → Server
  run net [] s = s
  run net (v ∷ vs) s = run net vs (step net v s)
