-- ===== src/Examples/Accounts.antt =====
-- The accounts at two concrete ones, an admin's and an analyst's, who is signed in.
use archer.Prelude.{
  ◌≤◌, ◌≡◌, ◌↔◌, refl, true, none, some, List, [], ◌∷◌, Text, codes, if◌then◌else◌, text_eq, inl,
  inr, arith, Bool-cases, subst, to_lower, trim_space, equal_fold,
}
use archer.Examples.Instances.{small_net, small_platform}
use archer.Users.{
  User, Session, UserStore, role_admin, role_analyst, status_active, get_session, normalize_email,
  get_user_by_email, find_row, authenticate, has_row, delete_user,
}
use archer.Auth.{Request, Context, admitted, done, signed_in, require_auth, valid_email}
use archer.Auth.Admission.{Served, require_auth_iff}
use archer.Auth.Admin.{HasAdmin, run-HasAdmin}
use archer.Auth.Moves.{Moves}
use archer.Auth.Sound.{ActiveIn, Sound}
use archer.Auth.Sound.Kept.{run-Sound}
use archer.Auth.Refine.Routes.{run-Moves}
use archer.Auth.Revoke.{Ends, handle_user_item-Ends}
use archer.Auth.SignIn.{MayEnter, post_login_iff, get_session-post_login}
use archer.Auth.Handlers.{Server, Env, LoginForm, post_login, login_as}
use archer.Auth.Handlers.Accounts.{
  undecoded, Event, request, prune, user_item, login, run, handle_user_item, delete_item, settle,
}

abbrev root : User
root = record {
  id = 1;
  email = codes "root@corp.io";
  first_name = codes "Root";
  last_name = codes "Lee";
  password_hash = codes "opensesame";
  role = role_admin;
  status = status_active;
  created_at = [];
}

abbrev kim : User
kim = record root { id = 2; email = codes "kim@corp.io"; role = role_analyst }

abbrev kim_session : Session
kim_session = record { user_id = 2; expires_at = 9000; new_boundary = 0; modal_high_water = 0 }

abbrev two : UserStore
two = record {
  rows =
      record { user = root; findings_seen_at = 0 }
      ∷ record { user = kim; findings_seen_at = 0 }
      ∷ [];
  last_id = 2;
  sessions = λ t. if text_eq t (codes "k1") then some kim_session else none;
}

abbrev server : Server
server = record { users = two; rate_limit = none; audit_log = [] }

abbrev from_kim : Request
from_kim = record {
  method = codes "DELETE";
  path = codes "/api/users/2";
  cookie = some (codes "k1");
  origin = [];
  referer = [];
  host = codes "archer";
  source = codes "10.0.0.5";
}

abbrev at_noon : Env
at_noon = record { now = 7000; token = codes "k2"; salt = 0; saved = true; stamped = true }

abbrev root_form : LoginForm
root_form = record { email = codes " Root@corp.io"; password = codes "opensesame" }

abbrev events : List Event
events =
    request at_noon from_kim (login root_form)
    ∷ request at_noon from_kim (user_item (some 1) (undecoded 400))
    ∷ prune 9500
    ∷ []

abbrev by_root : Context
by_root = record { user = root; boundary = 0; token = codes "k2" }

abbrev by_kim : Context
by_kim = record { user = kim; boundary = 0; token = codes "k1" }

two-entered :
    (token : Text) (x : Session)
    → (if text_eq token (codes "k1") then some kim_session else none) ≡ some x
    → (x.user_id ≤ 2) × ActiveIn x.user_id two.rows
two-entered token x e = elim (Bool-cases (text_eq token (codes "k1"))) [
  | inl p ↦
      let same : kim_session ≡ x = ground (arith, p, e) in
      subst (λ (y : Session). (y.user_id ≤ 2) × ActiveIn y.user_id two.rows) same
        (omega arith, ((λ h. refl), ((λ h. refl), tt)))
  | inr p ↦ absurd (ground (arith, p, e))
]

two-Sound : Sound two
two-Sound = record {
  table = (omega arith, refl, (refl, tt), (omega arith, refl, tt, tt));
  entered = two-entered;
}

run-HasAdmin_example : HasAdmin (run small_platform small_net events server).users
run-HasAdmin_example = run-HasAdmin small_platform small_net events server (inl (refl, refl))

run-Sound_example : Sound (run small_platform small_net events server).users
run-Sound_example = run-Sound small_platform small_net events server two-Sound

run-Moves_example :
    Moves small_platform server.users (run small_platform small_net events server).users
run-Moves_example = run-Moves small_platform small_net events server

require_auth_iff_example :
    (require_auth small_platform 7000 from_kim two ≡ (two, admitted by_kim))
    ↔ Served small_platform 7000 from_kim two by_kim
require_auth_iff_example = require_auth_iff small_platform 7000 from_kim two by_kim

removes :
    (handle_user_item small_platform at_noon from_kim by_root (some 2) (undecoded 400) server).1
    ≡ done
unfolding handle_user_item delete_item settle delete_user has_row
removes = refl

handle_user_item-Ends_example :
    Ends 2 two
      (handle_user_item small_platform at_noon from_kim by_root
        (some 2)
        (undecoded 400)
        server).0.users
handle_user_item-Ends_example =
    handle_user_item-Ends small_platform at_noon from_kim by_root 2 (undecoded 400) server removes

post_login_iff_example :
    ((post_login small_platform at_noon from_kim root_form server).1 ≡ signed_in (codes "k2"))
    ↔ ((u : User) × MayEnter small_platform at_noon from_kim root_form server u)
post_login_iff_example = post_login_iff small_platform at_noon from_kim root_form server

enters : (post_login small_platform at_noon from_kim root_form server).1 ≡ signed_in (codes "k2")
unfolding post_login login_as authenticate get_user_by_email find_row normalize_email valid_email
    to_lower trim_space equal_fold
enters = refl

get_session-post_login_example :
    (u : User) × MayEnter small_platform at_noon from_kim root_form server u
    × ((get_session 8000
          (codes "k2")
          (post_login small_platform at_noon from_kim root_form server).0.users).1
        ≡ some u)
get_session-post_login_example =
    get_session-post_login small_platform at_noon from_kim root_form server 8000 two-Sound
      (omega arith) enters
