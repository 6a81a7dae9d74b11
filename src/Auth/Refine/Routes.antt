-- ===== src/Auth/Refine/Routes.antt =====
-- Any request to the routes of internal/server/auth.go, and any sequence of requests.
use archer.Prelude.{
  true, List, [], ◌∷◌, ◌≡◌, inl, inr, refl, ap, sym, subst, text_eq, arith, Bool-cases,
  text_eq_flip,
}
use archer.Net.{Net, Platform}
use archer.Users.{UserStore, role_admin}
use archer.Auth.{Request, Reply, Context, Gate, refused, admitted, require_auth, require_role}
use archer.Auth.Admission.{Served, require_auth-admitted}
use archer.Auth.Refine.{Refines, handle_login-Refines, handle_register-Refines}
use archer.Auth.Refine.Accounts.{
  handle_me_password-Refines, handle_users_collection-Refines, handle_user_item-Refines,
  require_auth-Moves, logout_of-Moves, Served-Rules,
}
use archer.Auth.Moves.{Moves, sweep, rest, one, Moves-append}
use archer.Auth.Handlers.{Server, Env, handle_logout}
use archer.Auth.Handlers.Accounts.{
  Call, login, register, logout, me_password, users, user_item, authed, behind, serve, Event,
  request, prune, step, run,
}

module _ (platform : Platform) where
  behind-Refines :
      (u : UserStore) (g : Gate) (handler : Context → Server → Server × Reply) (t : Server)
      → Moves platform u t.users
      → ((c : Context) → g ≡ admitted c → Refines platform t.users (handler c t))
      → Refines platform u (behind platform g handler t)
  behind-Refines u (refused reply) handler t h k = record { moves = h }
  behind-Refines u (admitted c) handler t h k = record { moves = Moves-append h (k c refl).moves }

  -- What a role's middleware lets through has come through requireAuth.
  record Admits (role : Gate → Gate) (extra : Context → Type 0) : Type 0 where
    pub of_role : (g : Gate) (c : Context) → role g ≡ admitted c → (g ≡ admitted c) × extra c

  Admits_any : Admits (λ g. g) (λ c. Unit {0})
  Admits_any = record { of_role = λ g c h. (h, tt) }

  require_role-admitted :
      (g : Gate) (c : Context)
      → require_role (role_admin ∷ []) g ≡ admitted c
      → (g ≡ admitted c) × (text_eq c.user.role role_admin ≡ true)
  unfolding require_role
  require_role-admitted (refused reply) c h = cc
  require_role-admitted (admitted d) c h = elim (Bool-cases (text_eq role_admin d.user.role)) [
    | inl p ↦
        let e : d ≡ c = ground (arith, p, h) in
        (
          ap (λ x. admitted x) e,
          subst (λ (x : Context). text_eq x.user.role role_admin ≡ true) e
              (text_eq_flip role_admin d.user.role p),
        )
    | inr p ↦ absurd (ground (arith, p, h))
  ]

  Admits_admin :
      Admits (require_role (role_admin ∷ [])) (λ c. text_eq c.user.role role_admin ≡ true)
  Admits_admin = record { of_role = require_role-admitted }

  module _ (e : Env) (r : Request) where
    authed-Refines :
        (role : Gate → Gate) (extra : Context → Type 0)
        (handler : Context → Server → Server × Reply) (s : Server)
        → Admits role extra
        → ((c : Context) (t : Server)
            → Served platform e.now r t.users c
            → extra c
            → Refines platform t.users (handler c t))
        → Refines platform s.users (authed platform e r role handler s)
    unfolding authed
    authed-Refines role extra handler s m h =
        let (us, g) = require_auth platform e.now r s.users in
        behind-Refines s.users (role g) handler (record s { users = us })
          (require_auth-Moves platform e r s.users)
          λ c a.
            let (through, x) = m.of_role g c a in
            let (served, same) = require_auth-admitted platform e.now r s.users c through in
            h c (record s { users = us })
              (subst (λ u. Served platform e.now r u c) (sym same) served) x

    serve-Refines :
        (net : Net) (call : Call) (s : Server)
        → Refines platform s.users (serve platform net e r call s)
    unfolding serve handle_logout
    serve-Refines net (login form) s = handle_login-Refines platform e r net form s
    serve-Refines net (register form) s = handle_register-Refines platform e r net form s
    serve-Refines net logout s = record { moves = logout_of-Moves platform e r r.cookie s }
    serve-Refines net (me_password body) s =
        authed-Refines _ _ _ s Admits_any
          (λ c t v x. handle_me_password-Refines platform e r c t v body)
    serve-Refines net (users body) s =
        authed-Refines _ _ _ s Admits_any
          (λ c t v x. handle_users_collection-Refines platform e r c t v body)
    serve-Refines net (user_item id body) s = authed-Refines _ _ _ s Admits_admin (λ c t v a.
        handle_user_item-Refines platform e r c id body t (Served-Rules platform e r c t v a))

  step-Moves :
      (net : Net) (event : Event) (s : Server)
      → Moves platform s.users (step platform net event s).users
  unfolding step
  step-Moves net (request e r call) s = (serve-Refines e r net call s).moves
  step-Moves net (prune now) s = one (sweep now s.users)

  -- Whatever requests come, in any order and between prunings, they change the accounts and sessions
  -- by moves only.
  pub run-Moves :
      (net : Net) (events : List Event) (s : Server)
      → Moves platform s.users (run platform net events s).users
  unfolding run
  run-Moves net [] s = rest
  run-Moves net (v ∷ vs) s =
      Moves-append (step-Moves net v s) (run-Moves net vs (step platform net v s))
