-- ===== src/Auth/Refine.antt =====
-- The handlers of /login and /register in internal/server/auth.go, and the moves that they make.
pub mod Accounts
pub mod Routes
use archer.Prelude.{
  ℕ, Bool, true, false, not, ◌&&◌, ◌||◌, Option, none, some, List, [], ◌∷◌, Text, codes, ltb, ◌==◌,
  ◌≡◌, inl, inr, refl, ap, sym, subst, ◌∙◌, if◌then◌else◌, if_intro, text_eq, arith, Bool-cases,
  Some-all, trim_space, Option-cases, text_eq_sound, ==_iff, any, length,
}
use archer.Net.{Net, Platform}
use archer.Users.{
  User, Row, UserStore, role_admin, role_analyst, role_viewer, status_active, status_pending,
  is_valid_role, find_row, user_of, get_user_by_id, get_user_by_email, get_session, resolve,
  email_exists, user_count, create_user, create_session, set_password, update_user_role,
  approve_user, delete_user, delete_session, delete_sessions_for_user, prune_expired_sessions,
  authenticate, checked, normalize_email,
}
use archer.Users.Rows.{
  SomeUser, create_user-some, get_user_by_id-SomeUser, authenticate-SomeUser, find_row-id,
}
use archer.RateLimit.{allow_nil_safe, Verdict}
use archer.Auth.{
  Request, Reply, error, Context, Gate, refused, admitted, require_auth, require_role, pass_user,
  pass_cookie, valid_email,
}
use archer.Auth.Admission.{Served, require_auth-admitted}
use archer.Auth.Moves.{
  IsAdmin, Rules, Move, Moves, leave, sweep, revoke, join, found, enter, renew, reset, appoint,
  approve, assign, remove, rest, next, one, Moves-append,
}
use archer.Auth.Handlers.{
  Server, Env, LoginForm, RegisterForm, record_audit_login, open_session, login_as, unless_limited,
  rate_limited, post_login, registered, bootstrap, post_register, handle_login, handle_register,
  logout_of, audit_logout, handle_logout, by_method, min_password,
}
use archer.Auth.Handlers.Accounts.{
  Body, decoded, undecoded, Patch, NewUser, PasswordChange, record_audit, settle, patch_status,
  patch_role, delete_item, reset_of, patch_password, patch_item, handle_user_item, created_user,
  post_user, handle_users_collection, password_changed, change_password, handle_me_password, Call,
  login, register, logout, me_password, users, user_item, authed, behind, serve, Event, request,
  prune, step, run,
}

pub eq_self : (n : ℕ) → (n == n) ≡ true
eq_self n = ground arith

pub not_pending : (t : Text) → text_eq t status_active ≡ true → text_eq t status_pending ≡ false
not_pending t h =
    let e = text_eq_sound t status_active h in
    subst (λ v. text_eq v status_pending ≡ false) {x = status_active} {y = t} (sym e) refl

abbrev pub NotPending : ℕ → User → Type 0
NotPending id u = (text_eq u.status status_pending ≡ false) × ((u.id == id) ≡ true)

module _ (platform : Platform) where
  -- What a handler makes of the server are moves.
  pub record Refines (s : UserStore) (x : Server × Reply) : Type 0 where
    pub moves : Moves platform s x.0.users

  pub branch :
      (u : UserStore) (b : Bool) (x y : Server × Reply)
      → (b ≡ true → Refines u x)
      → (b ≡ false → Refines u y)
      → Refines u (if b then x else y)
  branch u true x y h k = h refl
  branch u false x y h k = k refl

  -- A test refuses, or the handler goes on.
  pub past :
      (s : Server) (b : Bool) (reply : Reply) (x : Server × Reply)
      → (b ≡ false → Refines s.users x)
      → Refines s.users (if b then (s, reply) else x)
  past s true reply x h = record { moves = rest }
  past s false reply x h = h refl

  pub settle-Refines :
      (r : Request) (c : Context) (action : Text) (id code : ℕ) (x : UserStore × Bool) (s : Server)
      → Moves platform s.users x.0
      → Refines s.users (settle r c action id code x s)
  unfolding settle record_audit
  settle-Refines r c action id code (us, true) s h = record { moves = next h (revoke id us) }
  settle-Refines r c action id code (us, false) s h = record { moves = h }

  module _ (e : Env) (r : Request) where
    login_as-Refines :
        (email : Text) (o : Option User) (s : Server)
        → ((u : User) → o ≡ some u → (P : User → Type 0) → P u → SomeUser P s.users)
        → Refines s.users (login_as e r email o s)
    unfolding login_as record_audit_login open_session
    login_as-Refines email none s h = record { moves = rest }
    login_as-Refines email (some u) s h =
        if_intro (Refines s.users) (text_eq u.status status_pending) (λ p. record { moves = rest })
          (λ p. record {
            moves = one (
                enter e.now e.token e.stamped u.id s.users
                  (h u refl (NotPending u.id) (p, eq_self u.id)));
          })

    registered-Refines :
        (email : Text) (first : Bool) (x : UserStore × Option User) (s : Server)
        → Moves platform s.users x.0
        → ((u : User) → x.1 ≡ some u → first ≡ true → SomeUser (NotPending u.id) x.0)
        → Refines s.users (registered platform e r email first x s)
    unfolding registered record_audit_login open_session
    registered-Refines email first (us, none) s h k = record { moves = h }
    registered-Refines email false (us, some u) s h k = record { moves = h }
    registered-Refines email true (us, some u) s h k = record {
      moves = next h (enter e.now e.token e.stamped u.id us (k u refl refl));
    }

    pub post_login-Refines :
        (form : LoginForm) (s : Server) → Refines s.users (post_login platform e r form s)
    unfolding post_login record_audit_login
    post_login-Refines form s =
        if_intro (Refines s.users) (not (valid_email (normalize_email platform form.email)))
          (λ p. record { moves = rest })
          (λ p.
            login_as-Refines _ _ s
              (λ u a P k. authenticate-SomeUser P platform _ form.password u s.users a k))

    pub bootstrap-Refines :
        (first_name last_name email password : Text) (first : Bool) (s : Server)
        → (length s.users.rows == 0) ≡ first
        → Refines s.users (bootstrap platform e r first_name last_name email password s)
    unfolding bootstrap user_count
    bootstrap-Refines first_name last_name email password true s h = rw h (
        registered-Refines email true
          (create_user platform e.now e.salt e.saved email first_name last_name password role_admin
            status_active s.users)
          s (one (found e.now e.salt e.saved email first_name last_name password s.users h))
          (λ u a f.
            Some-all (λ (r : Row). (r.user.status ≡ status_active) × (r.user.id ≡ u.id))
              (λ (r : Row). NotPending u.id r.user)
              (create_user platform e.now e.salt e.saved email first_name last_name password
                role_admin status_active s.users).0.rows
              (λ q k. (
                not_pending q.user.status (
                    subst (λ t. text_eq t status_active ≡ true) {x = status_active}
                      {y = q.user.status} (sym k.0) refl),
                subst (λ n. (n == u.id) ≡ true) (sym k.1) (eq_self u.id),
              ))
              (create_user-some platform e.now e.salt e.saved email first_name last_name password
                role_admin status_active u s.users a)))
    bootstrap-Refines first_name last_name email password false s h = rw h (
        registered-Refines email false
          (create_user platform e.now e.salt e.saved email first_name last_name password role_viewer
            status_pending s.users)
          s (one (join e.now e.salt e.saved email first_name last_name password s.users))
          (λ u a f. cc))

    pub post_register-Refines :
        (form : RegisterForm) (s : Server) → Refines s.users (post_register platform e r form s)
    unfolding post_register
    post_register-Refines form s =
        let email = normalize_email platform form.email in
        past s (text_eq (trim_space form.first_name) []) _ _ λ p.
          past s (text_eq (trim_space form.last_name) []) _ _ λ p.
            past s (not (valid_email email)) _ _ λ p.
              past s (ltb (length form.password) min_password) _ _ λ p.
                past s (not (text_eq form.password form.confirm)) _ _ λ p.
                  past s (email_exists email s.users) _ _ λ p.
                    bootstrap-Refines (trim_space form.first_name) (trim_space form.last_name) email
                      form.password (length s.users.rows == 0) s refl

    pub rate_limited-Refines :
        (net : Net) (handler : Server → Server × Reply) (s : Server)
        → ((t : Server) → t.users ≡ s.users → Refines s.users (handler t))
        → Refines s.users (rate_limited net e r handler s)
    unfolding rate_limited record_audit_login
    rate_limited-Refines net handler s h =
        let (buckets, v) = allow_nil_safe net e.now s.rate_limit r.source in
        if_intro (Refines s.users) v.allowed (λ p. h (record s { rate_limit = buckets }) refl)
          (λ p. elim (Bool-cases v.should_audit) [
            | inl q ↦ rw q (record { moves = rest })
            | inr q ↦ rw q (record { moves = rest })
          ])

    by_method-Refines :
        (handler : Server → Server × Reply) (s : Server)
        → Refines s.users (handler s)
        → Refines s.users (by_method r handler s)
    by_method-Refines handler s h = past s (text_eq r.method (codes "GET")) _ _ λ p.
        branch s.users (text_eq r.method (codes "POST")) _ _ (λ p. h) (λ p. record { moves = rest })

    pub handle_login-Refines :
        (net : Net) (form : LoginForm) (s : Server)
        → Refines s.users (handle_login platform net e r form s)
    unfolding handle_login
    handle_login-Refines net form s =
        by_method-Refines (rate_limited net e r (post_login platform e r form)) s (
          rate_limited-Refines net _ s (λ t q.
            subst (λ us. Refines us (post_login platform e r form t)) q
              (post_login-Refines form t)))

    pub handle_register-Refines :
        (net : Net) (form : RegisterForm) (s : Server)
        → Refines s.users (handle_register platform net e r form s)
    unfolding handle_register
    handle_register-Refines net form s =
        by_method-Refines (rate_limited net e r (post_register platform e r form)) s (
          rate_limited-Refines net _ s (λ t q.
            subst (λ us. Refines us (post_register platform e r form t)) q
              (post_register-Refines form t)))
