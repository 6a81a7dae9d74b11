-- ===== src/Auth/Refine/Accounts.antt =====
-- The handlers of accounts in internal/server/auth.go, and the moves that they make.
use archer.Prelude.{
  ℕ, Bool, true, false, not, ◌&&◌, ◌||◌, Option, none, some, [], Text, codes, ltb, ◌==◌, ◌≡◌, inl,
  inr, refl, sym, subst, if◌then◌else◌, if_intro, text_eq, Bool-cases, Some-all, trim_space,
  Option-cases, length,
}
use archer.Net.{Platform}
use archer.Users.{
  User, Row, UserStore, role_admin, role_analyst, status_active, is_valid_role, get_user_by_id,
  get_session, resolve, email_exists, delete_session, delete_sessions_for_user, authenticate,
  normalize_email,
}
use archer.Users.Rows.{SomeUser, set_password-SomeUser, get_user_by_id-SomeUser}
use archer.Auth.{
  Request, Context, require_auth, pass_user, pass_cookie, valid_email, is_unsafe_method,
  cross_origin_request,
}
use archer.Auth.Admission.{Served}
use archer.Auth.Refine.{Refines, not_pending, branch, past, settle-Refines, eq_self, NotPending}
use archer.Auth.Moves.{
  IsAdmin, Rules, Moves, leave, revoke, enter, renew, reset, appoint, approve, assign, remove, rest,
  next, one,
}
use archer.Auth.Handlers.{
  Server, Env, record_audit_login, open_session, logout_of, audit_logout, min_password,
}
use archer.Auth.Handlers.Accounts.{
  Body, decoded, undecoded, Patch, NewUser, PasswordChange, record_audit, patch_status, patch_role,
  delete_item, reset_of, patch_password, patch_item, handle_user_item, created_user, post_user,
  handle_users_collection, password_changed, change_password, handle_me_password,
}

module _ (platform : Platform) where
  module _ (e : Env) (r : Request) where
    pub Served-Rules :
        (c : Context) (s : Server)
        → Served platform e.now r s.users c
        → text_eq c.user.role role_admin ≡ true
        → Rules c.user.id s.users
    Served-Rules c s v a =
        get_user_by_id-SomeUser (λ u. IsAdmin u × ((u.id == c.user.id) ≡ true)) v.session.user_id
          c.user s.users v.user_eq ((a, v.is_active), eq_self c.user.id)

    module _ (c : Context) where
      patch_status-Refines :
          (id : ℕ) (req : Patch) (s : Server)
          → Rules c.user.id s.users
          → Refines platform s.users (patch_status e r c id req s)
      unfolding patch_status
      patch_status-Refines id req s me =
          past platform s (not (text_eq req.status status_active)) _ _ λ p.
            settle-Refines platform r c _ id _ _ s (one (approve c.user.id e.saved id s.users me))

      patch_role-Refines :
          (id : ℕ) (req : Patch) (s : Server)
          → Rules c.user.id s.users
          → Refines platform s.users (patch_role e r c id req s)
      unfolding patch_role
      patch_role-Refines id req s me = past platform s (text_eq req.role []) _ _ λ p.
          past platform s (not (is_valid_role req.role)) _ _ λ p.
            past platform s (id == c.user.id && not (text_eq req.role role_admin)) _ _ λ g.
              settle-Refines platform r c _ id _ _ s
                (one (assign c.user.id e.saved id req.role s.users me g))

      delete_item-Refines :
          (id : ℕ) (s : Server)
          → Rules c.user.id s.users
          → Refines platform s.users (delete_item e r c id s)
      unfolding delete_item
      delete_item-Refines id s me = past platform s (id == c.user.id) _ _ λ g.
          settle-Refines platform r c _ id _ _ s (one (remove c.user.id e.saved id s.users me g))

      reset_of-Refines :
          (id : ℕ) (password : Text) (o : Option User) (s : Server)
          → Rules c.user.id s.users
          → (id == c.user.id) ≡ false
          → Refines platform s.users (reset_of platform e r c id password o s)
      reset_of-Refines id password none s me g = record { moves = rest }
      reset_of-Refines id password (some u) s me g =
          settle-Refines platform r c _ id _ _ s
            (one (reset c.user.id e.salt e.saved id password s.users me g))

      patch_item-Refines :
          (id : ℕ) (body : Body Patch) (s : Server)
          → Rules c.user.id s.users
          → Refines platform s.users (patch_item platform e r c id body s)
      unfolding patch_password
      patch_item-Refines id (undecoded code) s me = record { moves = rest }
      patch_item-Refines id (decoded req) s me =
          branch platform s.users (not (text_eq req.status [])) _ _
            (λ p. patch_status-Refines id req s me)
            (λ p.
              branch platform s.users (not (text_eq req.password [])) _ _
                (λ q. past platform s (id == c.user.id) _ _ λ g.
                  past platform s (ltb (length req.password) min_password) _ _
                    λ t. reset_of-Refines id req.password (get_user_by_id id s.users) s me g)
                (λ q. patch_role-Refines id req s me))

      pub handle_user_item-Refines :
          (id : Option ℕ) (body : Body Patch) (s : Server)
          → Rules c.user.id s.users
          → Refines platform s.users (handle_user_item platform e r c id body s)
      unfolding handle_user_item
      handle_user_item-Refines none body s me = record { moves = rest }
      handle_user_item-Refines (some id) body s me =
          branch platform s.users (text_eq r.method (codes "PATCH")) _ _
            (λ p. patch_item-Refines id body s me)
            (λ p.
              branch platform s.users (text_eq r.method (codes "DELETE")) _ _
                (λ q. delete_item-Refines id s me) (λ q. record { moves = rest }))

      created_user-Refines :
          (x : UserStore × Option User) (s : Server)
          → Moves platform s.users x.0
          → Refines platform s.users (created_user platform r c x s)
      unfolding record_audit
      created_user-Refines (us, none) s h = record { moves = h }
      created_user-Refines (us, some u) s h = record { moves = h }

      post_user-Refines :
          (body : Body NewUser) (s : Server)
          → Rules c.user.id s.users
          → Refines platform s.users (post_user platform e r c body s)
      unfolding post_user
      post_user-Refines (undecoded code) s me = record { moves = rest }
      post_user-Refines (decoded req) s me =
          let email = normalize_email platform req.email in
          let first_name = trim_space req.first_name in
          let last_name = trim_space req.last_name in
          past platform s (text_eq first_name [] || text_eq last_name []) _ _ λ p.
            past platform s (not (valid_email email)) _ _ λ p.
              past platform s (ltb (length req.password) min_password) _ _ λ p.
                past platform s (email_exists email s.users) _ _ λ p. created_user-Refines _ s (
                  one (
                    appoint c.user.id e.now e.salt e.saved email first_name last_name req.password
                      (if is_valid_role req.role then req.role else role_analyst) s.users me))

      password_changed-Refines :
          (x : UserStore × Bool) (s : Server)
          → Moves platform s.users x.0
          → SomeUser (NotPending c.user.id) x.0
          → Refines platform s.users (password_changed platform e r c x s)
      unfolding record_audit open_session delete_sessions_for_user
      password_changed-Refines (us, false) s h k = record { moves = h }
      password_changed-Refines (us, true) s h k = record {
        moves =
            next (next h (revoke c.user.id us))
              (enter e.now e.token e.stamped c.user.id (delete_sessions_for_user c.user.id us) k);
      }

      change_password-Refines :
          (req : PasswordChange) (o : Option User) (s : Server)
          → authenticate platform c.user.email req.current_password s.users ≡ o
          → SomeUser (λ v. (v.email ≡ c.user.email) × NotPending c.user.id v) s.users
          → Refines platform s.users (change_password platform e r c req o s)
      change_password-Refines req none s a h = record { moves = rest }
      change_password-Refines req (some u) s a h =
          past platform s (ltb (length req.new_password) min_password) _ _ λ p.
            past platform s (not (text_eq req.new_password req.confirm)) _ _ λ p.
              password_changed-Refines _ s
                (one (
                  renew e.salt e.saved c.user.id c.user.email req.current_password req.new_password
                    u s.users a
                    (Some-all
                      (λ (q : Row). (q.user.email ≡ c.user.email) × NotPending c.user.id q.user)
                      (λ (q : Row).
                        (q.user.email ≡ c.user.email) × ((q.user.id == c.user.id) ≡ true))
                      s.users.rows (λ q k. (k.0, k.1.1)) h)))
                (set_password-SomeUser (NotPending c.user.id) platform e.salt e.saved c.user.id
                  req.new_password s.users (λ v hash k. k)
                  (Some-all
                    (λ (q : Row). (q.user.email ≡ c.user.email) × NotPending c.user.id q.user)
                    (λ (q : Row). NotPending c.user.id q.user) s.users.rows (λ q k. k.1) h))

      -- A context that a request is let through with.
      module _ (s : Server) (v : Served platform e.now r s.users c) where
        account : SomeUser (λ u. (u.email ≡ c.user.email) × NotPending c.user.id u) s.users
        account =
            get_user_by_id-SomeUser (λ u. (u.email ≡ c.user.email) × NotPending c.user.id u)
              v.session.user_id c.user s.users v.user_eq
              (refl, (not_pending c.user.status v.is_active, eq_self c.user.id))

        pub handle_me_password-Refines :
            (body : Body PasswordChange)
            → Refines platform s.users (handle_me_password platform e r c body s)
        unfolding handle_me_password
        handle_me_password-Refines (undecoded code) =
            past platform s (not (text_eq r.method (codes "POST"))) _ _ λ p. record { moves = rest }
        handle_me_password-Refines (decoded req) =
            past platform s (not (text_eq r.method (codes "POST"))) _ _
              λ p. change_password-Refines req _ s refl account

        pub handle_users_collection-Refines :
            (body : Body NewUser)
            → Refines platform s.users (handle_users_collection platform e r c body s)
        unfolding handle_users_collection
        handle_users_collection-Refines body =
            past platform s (text_eq r.method (codes "GET")) _ _ λ p.
              branch platform s.users (text_eq r.method (codes "POST")) _ _
                (λ q. elim (Bool-cases (text_eq c.user.role role_admin)) [
                  | inl a ↦ rw a (post_user-Refines body s (Served-Rules c s v a))
                  | inr a ↦ rw a (record { moves = rest })
                ])
                (λ q. record { moves = rest })

    audit_logout-users : (u : Option User) (s : Server) → (audit_logout r u s).users ≡ s.users
    unfolding record_audit_login
    audit_logout-users none s = refl
    audit_logout-users (some u) s =
        if_intro (λ (t : Server). t.users ≡ s.users) (not (u.id == 0)) (λ p. refl) (λ p. refl)

    get_session-Moves :
        (token : Text) (s : UserStore) → Moves platform s (get_session e.now token s).0
    unfolding get_session
    get_session-Moves token s = elim (Option-cases (s.sessions token)) [
      | inl p ↦ subst (λ o. Moves platform s (resolve e.now token o s).0) (sym p) rest
      | inr (x, p) ↦
          subst (λ o. Moves platform s (resolve e.now token o s).0) (sym p)
            (elim (Bool-cases (ltb x.expires_at e.now)) [
              | inl q ↦ rw q (one (leave token s))
              | inr q ↦ rw q rest
            ])
    ]

    pub logout_of-Moves :
        (cookie : Option Text) (s : Server) → Moves platform s.users (logout_of e r cookie s).users
    logout_of-Moves none s = rest
    logout_of-Moves (some token) s =
        let (us, u) = get_session e.now token s.users in
        subst (Moves platform s.users)
          (sym (audit_logout-users u (record s { users = delete_session token us })))
          (next (get_session-Moves token s.users) (leave token (get_session e.now token s.users).0))

    pub require_auth-Moves : (s : UserStore) → Moves platform s (require_auth platform e.now r s).0
    unfolding require_auth
    require_auth-Moves s = pass_cookie-Moves r.cookie
      where
        pass_user-Moves :
            (token : Text) (us : UserStore) (o : Option User)
            → Moves platform s us
            → Moves platform s (pass_user platform r token (us, o)).0
        pass_user-Moves token us none h = h
        pass_user-Moves token us (some u) h = elim (Bool-cases (text_eq u.status status_active)) [
          | inl p ↦
              rw p
                (elim (Bool-cases (is_unsafe_method r.method && cross_origin_request platform r)) [
                  | inl q ↦ rw q h
                  | inr q ↦ rw q h
                ])
          | inr p ↦ rw p (next h (leave token us))
        ]

        pass_cookie-Moves :
            (cookie : Option Text) → Moves platform s (pass_cookie platform e.now r cookie s).0
        pass_cookie-Moves none = rest
        pass_cookie-Moves (some token) =
            let (us, u) = get_session e.now token s in
            pass_user-Moves token us u (get_session-Moves token s)
