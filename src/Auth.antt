-- ===== src/Auth.antt =====
-- Who a request is served for: requireAuth, requireRole and their helpers in
-- internal/server/middleware.go, and validEmail of internal/server/auth.go.
pub mod Handlers
pub mod Admission
pub mod Moves
pub mod Refine
pub mod Admin
pub mod Sound
pub mod Revoke
pub mod SignIn
use archer.Prelude.{
  ℕ, suc, ◌+◌, ◌-◌, Bool, true, false, not, ◌&&◌, ◌||◌, Option, none, some, List, [], ◌∷◌, ◌++◌,
  Text, codes, ltb, leb, ◌==◌, if◌then◌else◌, text_eq, any, length, take, drop, has_prefix,
  index_byte, last_index_byte,
}
use archer.Net.{Platform}
use archer.Users.{User, UserStore, status_active, get_session, delete_session, session_new_boundary}
use archer.RateLimit.{Buckets}

-- What is read of a request. `cookie` is the value of the session cookie; `source` is what sourceIP
-- returns; a header that is absent is empty.
pub record Request : Type 0 where
  pub method : Text
  pub path : Text
  pub cookie : Option Text
  pub origin : Text
  pub referer : Text
  pub host : Text
  pub source : Text

-- What a handler answers with: an HTTP error, a redirect, a page with an error message, the
-- registration page that says "pending", a cookie with a redirect to "/", `{"ok":true}` with no
-- cookie or a new one, an account or the accounts as JSON.
pub data Reply : Type 0 where
  error : ℕ → Reply
  redirect : Text → Reply
  page : Text → Reply
  pending : Reply
  signed_in : Text → Reply
  done : Reply
  done_with : Text → Reply
  created : User → Reply
  listed : List User → Reply

-- what requireAuth puts in the context of a request
pub record Context : Type 0 where
  pub user : User
  pub boundary : ℕ
  pub token : Text

pub data Gate : Type 0 where
  refused : Reply → Gate
  admitted : Context → Gate

unfoldable pub is_unsafe_method : Text → Bool
is_unsafe_method m =
    any (λ v. text_eq m v) (codes "POST" ∷ codes "PUT" ∷ codes "PATCH" ∷ codes "DELETE" ∷ [])

unfoldable pub redirect_or_unauthorized : Text → Reply
redirect_or_unauthorized p =
    if leb 5 (length p) && text_eq (take 5 p) (codes "/api/") || text_eq p (codes "/events")
    then error 401
    else redirect (codes "/login")

abbrev pub email_parts : Text → Option ℕ → Text → Bool
email_parts local none domain = false
email_parts local (some dot) domain =
    if ltb dot 1 || dot == length domain - 1
    then false
    else not (
        any (λ c. any (λ (d : ℕ). d == c) (b' ' ∷ b'\t' ∷ b'\n' ∷ b'\r' ∷ []))
          (local ++ (b'@' ∷ domain)))

abbrev pub email_at : Text → Option ℕ → Bool
email_at s none = false
email_at s (some at) =
    let local = take at s in
    let domain = drop (suc at) s in
    if ltb at 1 || (text_eq local [] || text_eq domain [])
    then false
    else email_parts local (last_index_byte domain b'.') domain

-- validEmail
unfoldable pub valid_email : Text → Bool
unfolding index_byte last_index_byte
valid_email s = email_at s (index_byte s b'@')

module _ (platform : Platform) where
  open platform use {url_host}

  abbrev pub other_host : Text → Option Text → Bool
  other_host host none = true
  other_host host (some h) = not (text_eq h host)

  unfoldable pub cross_origin_request : Request → Bool
  cross_origin_request r =
      if not (text_eq r.origin [])
      then other_host r.host (url_host r.origin)
      else if not (text_eq r.referer [])
      then other_host r.host (url_host r.referer)
      else false

  abbrev pub pass_user : Request → Text → UserStore × Option User → UserStore × Gate
  pass_user r token (s, none) = (s, refused (redirect_or_unauthorized r.path))
  pass_user r token (s, some u) =
      if not (text_eq u.status status_active)
      then (delete_session token s, refused (redirect_or_unauthorized r.path))
      else if is_unsafe_method r.method && cross_origin_request r
      then (s, refused (error 403))
      else (
        s,
        admitted (record { user = u; boundary = session_new_boundary token s; token = token }),
      )

  abbrev pub pass_cookie : ℕ → Request → Option Text → UserStore → UserStore × Gate
  pass_cookie now r none s = (s, refused (redirect_or_unauthorized r.path))
  pass_cookie now r (some token) s = pass_user r token (get_session now token s)

  -- requireAuth, up to the call of the next handler
  unfoldable pub require_auth : ℕ → Request → UserStore → UserStore × Gate
  require_auth now r s = pass_cookie now r r.cookie s

-- requireRole, inside requireAuth
unfoldable pub require_role : List Text → Gate → Gate
require_role roles (refused reply) = refused reply
require_role roles (admitted c) =
    if any (λ v. text_eq v c.user.role) roles then admitted c else refused (error 403)
