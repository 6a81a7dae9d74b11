-- ===== src/Auth/Revoke.antt =====
-- What a change of an account by handleUserItem of internal/server/auth.go does to its sessions.
use archer.Prelude.{
  ℕ, Bool, true, false, not, ◌&&◌, Option, none, some, [], Text, codes, ltb, ◌==◌, ◌≡◌, ◌↔◌, subst,
  refl, text_eq, if◌then◌else◌, arith, length,
}
use archer.Net.{Platform}
use archer.Users.{
  User, Session, UserStore, delete_sessions_for_user, unless_owned, get_user_by_id, approve_user,
  set_password, update_user_role, delete_user, update_user, with_hash, is_valid_role, role_admin,
  status_active,
}
use archer.Auth.{Request, Reply, error, done, Context}
use archer.Auth.Handlers.{Server, Env, min_password}
use archer.Auth.Handlers.Accounts.{
  Body, decoded, undecoded, Patch, record_audit, settle, patch_status, patch_role, delete_item,
  reset_of, patch_password, patch_item, handle_user_item,
}

-- The sessions of the account end, and no others.
abbrev pub Ends : ℕ → UserStore → UserStore → Type 0
Ends id s t =
    (token : Text) (x : Session)
    → (t.sessions token ≡ some x) ↔ ((s.sessions token ≡ some x) × ((x.user_id == id) ≡ false))

-- If the reply says that the change is made, the sessions of the account have ended.
record Revokes (id : ℕ) (s : Server) (x : Server × Reply) : Type 0 where
  pub revokes : x.1 ≡ done → Ends id s.users x.0.users

unless_owned_iff :
    (id : ℕ) (o : Option Session) (x : Session)
    → (unless_owned id o ≡ some x) ↔ ((o ≡ some x) × ((x.user_id == id) ≡ false))
unless_owned_iff id none x = (λ e. cc, λ h. cc (h.0))
unless_owned_iff id (some y) x =
    ((λ e. (ground (arith, e), ground (arith, e))), λ h. ground (arith, h.0, h.1))

refusal : (id code : ℕ) (s : Server) → Revokes id s (s, error code)
refusal id code s = record { revokes = λ h. cc }

past :
    (id : ℕ) (b : Bool) (code : ℕ) (s : Server) (x : Server × Reply)
    → Revokes id s x
    → Revokes id s (if b then (s, error code) else x)
past id true code s x h = refusal id code s
past id false code s x h = h

branch :
    (id : ℕ) (b : Bool) (s : Server) (x y : Server × Reply)
    → Revokes id s x
    → Revokes id s y
    → Revokes id s (if b then x else y)
branch id true s x y h k = h
branch id false s x y h k = k

settle-Revokes :
    (r : Request) (c : Context) (action : Text) (id code : ℕ) (x : UserStore × Bool) (s : Server)
    → x.0.sessions ≡ s.users.sessions
    → Revokes id s (settle r c action id code x s)
unfolding settle record_audit delete_sessions_for_user
settle-Revokes r c action id code (us, true) s h = record {
  revokes = λ k token x.
      subst
        (λ m.
          (unless_owned id (us.sessions token) ≡ some x)
          ↔ ((m token ≡ some x) × ((x.user_id == id) ≡ false)))
        {x = us.sessions} {y = s.users.sessions} h (unless_owned_iff id (us.sessions token) x);
}
settle-Revokes r c action id code (us, false) s h = record { revokes = λ k. cc }

update_user-sessions :
    (saved : Bool) (id : ℕ) (g : User → User) (s : UserStore)
    → (update_user saved id g s).0.sessions ≡ s.sessions
update_user-sessions true id g s = refl
update_user-sessions false id g s = refl

delete_user-sessions :
    (saved : Bool) (id : ℕ) (s : UserStore) → (delete_user saved id s).0.sessions ≡ s.sessions
unfolding delete_user
delete_user-sessions true id s = refl
delete_user-sessions false id s = refl

with_hash-sessions :
    (platform : Platform) (saved : Bool) (id : ℕ) (o : Option Text) (s : UserStore)
    → (with_hash platform saved id o s).0.sessions ≡ s.sessions
with_hash-sessions platform saved id none s = refl
with_hash-sessions platform true id (some h) s = refl
with_hash-sessions platform false id (some h) s = refl

module _ (platform : Platform) (e : Env) (r : Request) where
  reset_of-Revokes :
      (c : Context) (id : ℕ) (password : Text) (o : Option User) (s : Server)
      → Revokes id s (reset_of platform e r c id password o s)
  unfolding set_password
  reset_of-Revokes c id password none s = refusal id 404 s
  reset_of-Revokes c id password (some u) s =
      settle-Revokes r c _ id 500 (set_password platform e.salt e.saved id password s.users) s
        (with_hash-sessions platform e.saved id _ s.users)

  patch_item-Revokes :
      (c : Context) (id : ℕ) (body : Body Patch) (s : Server)
      → Revokes id s (patch_item platform e r c id body s)
  unfolding patch_status patch_password patch_role approve_user update_user_role
  patch_item-Revokes c id (undecoded code) s = refusal id code s
  patch_item-Revokes c id (decoded req) s =
      branch id (not (text_eq req.status [])) s _ _
        (past id (not (text_eq req.status status_active)) 400 s _ (
          settle-Revokes r c _ id 404 (approve_user e.saved id s.users) s
            (update_user-sessions e.saved id _ s.users)))
        (branch id (not (text_eq req.password [])) s _ _
          (past id (id == c.user.id) 400 s _ (
            past id (ltb (length req.password) min_password) 400 s _
              (reset_of-Revokes c id req.password (get_user_by_id id s.users) s)))
          (past id (text_eq req.role []) 400 s _ (
            past id (not (is_valid_role req.role)) 400 s _ (
              past id (id == c.user.id && not (text_eq req.role role_admin)) 400 s _ (
                settle-Revokes r c _ id 404 (update_user_role e.saved id req.role s.users) s
                  (update_user-sessions e.saved id _ s.users))))))

  handle_user_item-Revokes :
      (c : Context) (id : ℕ) (body : Body Patch) (s : Server)
      → Revokes id s (handle_user_item platform e r c (some id) body s)
  unfolding handle_user_item delete_item
  handle_user_item-Revokes c id body s =
      branch id (text_eq r.method (codes "PATCH")) s _ _ (patch_item-Revokes c id body s) (
        branch id (text_eq r.method (codes "DELETE")) s _ _
          (past id (id == c.user.id) 400 s _ (
            settle-Revokes r c _ id 404 (delete_user e.saved id s.users) s
              (delete_user-sessions e.saved id s.users)))
          (refusal id 405 s))

  -- For any admin, account and PATCH or DELETE of it, in any state of the server: if the reply is that
  -- the change is made, each session of the account has ended and the others are as they were.
  pub handle_user_item-Ends :
      (c : Context) (id : ℕ) (body : Body Patch) (s : Server)
      → (handle_user_item platform e r c (some id) body s).1 ≡ done
      → Ends id s.users (handle_user_item platform e r c (some id) body s).0.users
  handle_user_item-Ends c id body s h = (handle_user_item-Revokes c id body s).revokes h
