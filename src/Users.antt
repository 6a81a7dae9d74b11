-- ===== src/Users.antt =====
-- The accounts and sessions of internal/store/userstore.go and internal/model/user.go.
-- The table `users` is the list of its rows in the order of their ids, which AUTOINCREMENT draws from
-- a counter. A read of the database does not fail; whether a write does is an argument. Instants are
-- numbers of nanoseconds since the epoch.
pub mod Rows
pub mod Sessions
use archer.Prelude.{
  ℕ, suc, ◌+◌, ◌/◌, Bool, true, false, not, ◌&&◌, ◌||◌, Option, none, some, List, [], ◌∷◌, ◌++◌,
  map, Text, codes, ltb, ◌==◌, if◌then◌else◌, text_eq, any, length, equal_fold, to_lower,
  trim_space,
}
use archer.Net.{Platform}

abbrev pub role_admin : Text
role_admin = codes "admin"

abbrev pub role_analyst : Text
role_analyst = codes "analyst"

abbrev pub role_viewer : Text
role_viewer = codes "viewer"

abbrev pub valid_roles : List Text
valid_roles = role_admin ∷ role_analyst ∷ role_viewer ∷ []

unfoldable pub is_valid_role : Text → Bool
is_valid_role r = any (λ v. text_eq v r) valid_roles

abbrev pub status_pending : Text
status_pending = codes "pending"

abbrev pub status_active : Text
status_active = codes "active"

pub record User : Type 0 where
  pub id : ℕ
  pub email : Text
  pub first_name : Text
  pub last_name : Text
  pub password_hash : Text
  pub role : Text
  pub status : Text
  pub created_at : Text

unfoldable pub display_name : User → Text
display_name u =
    if not (text_eq u.first_name []) || not (text_eq u.last_name [])
    then u.first_name ++ (codes " " ++ u.last_name)
    else u.email

-- a row of the table `users`
pub record Row : Type 0 where
  pub user : User
  pub findings_seen_at : ℕ

-- userSession
pub record Session : Type 0 where
  pub user_id : ℕ
  pub expires_at : ℕ
  pub new_boundary : ℕ
  pub modal_high_water : ℕ

pub record UserStore : Type 0 where
  pub rows : List Row
  pub last_id : ℕ
  pub sessions : Text → Option Session

-- 24 hours
abbrev pub session_lifetime : ℕ
session_lifetime = 86_400_000_000_000

abbrev pub unix : ℕ → ℕ
unix now = now / 1_000_000_000

-- `SELECT … WHERE`, its first row
unfoldable pub find_row : (User → Bool) → List Row → Option Row
find_row p [] = none
find_row p (r ∷ rs) = let rest = find_row p rs in if p r.user then some r else rest

abbrev pub user_of : Option Row → Option User
user_of none = none
user_of (some r) = some r.user

unfoldable pub get_user_by_id : ℕ → UserStore → Option User
get_user_by_id id s = user_of (find_row (λ u. u.id == id) s.rows)

-- COLLATE NOCASE folds ASCII letters.
unfoldable pub get_user_by_email : Text → UserStore → Option User
get_user_by_email email s = user_of (find_row (λ u. equal_fold u.email email) s.rows)

unfoldable pub email_exists : Text → UserStore → Bool
email_exists email s = any (λ (r : Row). equal_fold r.user.email email) s.rows

unfoldable pub user_count : UserStore → ℕ
user_count s = length s.rows

abbrev pub without_hash : User → User
without_hash u = record u { password_hash = [] }

unfoldable pub list_users : UserStore → List User
list_users s = map (λ (r : Row). without_hash r.user) s.rows

-- `UPDATE users … WHERE id = ?`, and whether it affects a row
unfoldable pub update_rows : ℕ → (User → User) → List Row → List Row
update_rows id g [] = []
update_rows id g (r ∷ rs) =
    (if r.user.id == id then record r { user = g r.user } else r) ∷ update_rows id g rs

unfoldable pub has_row : ℕ → List Row → Bool
has_row id rs = any (λ (r : Row). r.user.id == id) rs

abbrev pub update_user : Bool → ℕ → (User → User) → UserStore → UserStore × Bool
update_user saved id g s =
    if saved then (record s { rows = update_rows id g s.rows }, has_row id s.rows) else (s, false)

unfoldable pub update_user_role : Bool → ℕ → Text → UserStore → UserStore × Bool
update_user_role saved id role s = update_user saved id (λ u. record u { role = role }) s

unfoldable pub approve_user : Bool → ℕ → UserStore → UserStore × Bool
approve_user saved id s = update_user saved id (λ u. record u { status = status_active }) s

unfoldable pub drop_rows : ℕ → List Row → List Row
drop_rows id [] = []
drop_rows id (r ∷ rs) = let rest = drop_rows id rs in if r.user.id == id then rest else r ∷ rest

unfoldable pub delete_user : Bool → ℕ → UserStore → UserStore × Bool
delete_user saved id s =
    if saved then (record s { rows = drop_rows id s.rows }, has_row id s.rows) else (s, false)

-- Sessions

abbrev pub unless_past : ℕ → Option Session → Option Session
unless_past now none = none
unless_past now (some x) = if ltb x.expires_at now then none else some x

unfoldable pub prune_expired_sessions : ℕ → UserStore → UserStore
prune_expired_sessions now s = record s { sessions = λ t. unless_past now (s.sessions t) }

unfoldable pub delete_session : Text → UserStore → UserStore
delete_session token s = record s { sessions = λ t. if text_eq t token then none else s.sessions t }

abbrev pub unless_owned : ℕ → Option Session → Option Session
unless_owned id none = none
unless_owned id (some x) = if x.user_id == id then none else some x

unfoldable pub delete_sessions_for_user : ℕ → UserStore → UserStore
delete_sessions_for_user id s = record s { sessions = λ t. unless_owned id (s.sessions t) }

unfoldable pub set_session : Text → Session → UserStore → UserStore
set_session token x s = record s {
  sessions = λ t. if text_eq t token then some x else s.sessions t;
}

abbrev pub seen_at : Option Row → ℕ
seen_at none = 0
seen_at (some r) = r.findings_seen_at

-- `UPDATE users SET findings_seen_at = ? WHERE id = ?`
unfoldable pub stamp_rows : ℕ → ℕ → List Row → List Row
stamp_rows id at [] = []
stamp_rows id at (r ∷ rs) =
    (if r.user.id == id then record r { findings_seen_at = at } else r) ∷ stamp_rows id at rs

abbrev pub new_session : ℕ → ℕ → UserStore → Session
new_session now id s = record {
  user_id = id;
  expires_at = now + session_lifetime;
  new_boundary = seen_at (find_row (λ u. u.id == id) s.rows);
  modal_high_water = 0;
}

-- CreateSession with the token that it draws, and whether the row's stamp is written
unfoldable pub create_session : ℕ → Text → Bool → ℕ → UserStore → UserStore
create_session now token stamped id s =
    set_session token (new_session now id s)
      (record s { rows = if stamped then stamp_rows id (unix now) s.rows else s.rows })

abbrev pub boundary_of : Option Session → ℕ
boundary_of none = 0
boundary_of (some x) = x.new_boundary

unfoldable pub session_new_boundary : Text → UserStore → ℕ
session_new_boundary token s = boundary_of (s.sessions token)

abbrev pub high_water_of : Option Session → ℕ
high_water_of none = 0
high_water_of (some x) = x.modal_high_water

unfoldable pub session_modal_high_water : Text → UserStore → ℕ
session_modal_high_water token s = high_water_of (s.sessions token)

abbrev pub shown_at : Text → ℕ → Option Session → UserStore → UserStore
shown_at token count none s = s
shown_at token count (some x) s =
    if ltb x.modal_high_water count
    then set_session token (record x { modal_high_water = count }) s
    else s

unfoldable pub mark_session_modal_shown : Text → ℕ → UserStore → UserStore
mark_session_modal_shown token count s = shown_at token count (s.sessions token) s

abbrev pub resolve : ℕ → Text → Option Session → UserStore → UserStore × Option User
resolve now token none s = (s, none)
resolve now token (some x) s =
    if ltb x.expires_at now then (delete_session token s, none) else (s, get_user_by_id x.user_id s)

-- GetSession
unfoldable pub get_session : ℕ → Text → UserStore → UserStore × Option User
get_session now token s = resolve now token (s.sessions token) s

-- The column email is UNIQUE, byte by byte.
unfoldable pub email_taken : Text → List Row → Bool
email_taken email rs = any (λ (r : Row). text_eq r.user.email email) rs

module _ (platform : Platform) where
  open platform use {generate, agrees, nfc, show_time}

  unfoldable pub normalize_email : Text → Text
  normalize_email s = to_lower (nfc (trim_space s))

  -- The INSERT of CreateUser.
  unfoldable pub insert_user : ℕ → Bool → User → UserStore → UserStore × Option User
  insert_user now saved u s =
      let id = suc s.last_id in
      if saved && not (email_taken u.email s.rows)
      then (
        record s {
          rows =
              s.rows ++ (record { user = record u { id = id }; findings_seen_at = unix now } ∷ []);
          last_id = id;
        },
        some (without_hash (record u { id = id })),
      )
      else (s, none)

  abbrev pub hashed_user :
      ℕ → Bool → Option Text → (Text → User) → UserStore → UserStore × Option User
  hashed_user now saved none u s = (s, none)
  hashed_user now saved (some hash) u s = insert_user now saved (u hash) s

  -- CreateUser
  unfoldable pub create_user :
      ℕ → ℕ → Bool → Text → Text → Text → Text → Text → Text → UserStore → UserStore × Option User
  create_user now salt saved email first_name last_name password role status s =
      hashed_user now saved (generate salt password)
        (λ hash. record {
          id = 0;
          email = email;
          first_name = first_name;
          last_name = last_name;
          password_hash = hash;
          role = role;
          status = status;
          created_at = show_time now;
        })
        s

  abbrev pub checked : Text → Option User → Option User
  checked password none = none
  checked password (some u) = if agrees u.password_hash password then some u else none

  unfoldable pub authenticate : Text → Text → UserStore → Option User
  authenticate email password s = checked password (get_user_by_email email s)

  abbrev pub with_hash : Bool → ℕ → Option Text → UserStore → UserStore × Bool
  with_hash saved id none s = (s, false)
  with_hash saved id (some hash) s =
      if saved
      then (
        record s { rows = update_rows id (λ u. record u { password_hash = hash }) s.rows },
        true,
      )
      else (s, false)

  -- SetPassword, and that it returns no error
  unfoldable pub set_password : ℕ → Bool → ℕ → Text → UserStore → UserStore × Bool
  set_password salt saved id password s = with_hash saved id (generate salt password) s
