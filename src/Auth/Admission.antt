-- ===== src/Auth/Admission.antt =====
-- Whom requireAuth and requireRole of internal/server/middleware.go let through.
use archer.Prelude.{
  ℕ, true, false, ◌&&◌, Option, none, some, Text, ltb, ◌≡◌, ◌↔◌, refl, sym, ap, ◌∙◌, text_eq, arith,
  Bool-cases, Option-cases, inl, inr, subst,
}
use archer.Net.{Platform}
use archer.Users.{
  User, Session, UserStore, status_active, get_user_by_id, get_session, session_new_boundary,
  resolve, boundary_of,
}
use archer.Auth.{
  Request, Context, Gate, admitted, is_unsafe_method, cross_origin_request, pass_user, pass_cookie,
  require_auth,
}

-- The request has the cookie of a session that has not expired, the session's user is a row with
-- status "active", and a request that may change state is not from another origin.
pub record Served (platform : Platform) (now : ℕ) (r : Request) (s : UserStore) (c : Context)
    : Type 0 where
  pub session : Session
  pub cookie_eq : r.cookie ≡ some c.token
  pub session_eq : s.sessions c.token ≡ some session
  pub unexpired : ltb session.expires_at now ≡ false
  pub user_eq : get_user_by_id session.user_id s ≡ some c.user
  pub is_active : text_eq c.user.status status_active ≡ true
  pub same_origin : (is_unsafe_method r.method && cross_origin_request platform r) ≡ false
  pub boundary_eq : c.boundary ≡ session.new_boundary

-- A session that has not expired resolves to its user.
pub get_session_unexpired :
    (now : ℕ) (token : Text) (x : Session) (s : UserStore)
    → s.sessions token ≡ some x
    → ltb x.expires_at now ≡ false
    → get_session now token s ≡ (s, get_user_by_id x.user_id s)
unfolding get_session
get_session_unexpired now token x s e f = ap (λ o. resolve now token o s) e ∙ rw f refl

-- What resolves has a session that has not expired, and changes nothing.
pub get_session-some :
    (now : ℕ) (token : Text) (s : UserStore) (u : User)
    → (get_session now token s).1 ≡ some u
    → (x : Session) × (s.sessions token ≡ some x)
      × (ltb x.expires_at now ≡ false)
      × (get_user_by_id x.user_id s ≡ some u)
      × ((get_session now token s).0 ≡ s)
unfolding get_session
get_session-some now token s u h = elim (Option-cases (s.sessions token)) [
  | inl e ↦ absurd (ground (arith, e, h))
  | inr (x, e) ↦ elim (Bool-cases (ltb x.expires_at now)) [
    | inl p ↦ absurd (ground (arith, e, p, h))
    | inr p ↦ (x, e, p, ground (arith, e, p, h), ground (arith, e, p, h))
  ]
]

module _ (platform : Platform) where
  context_of : User → Text → UserStore → Context
  context_of u token s = record { user = u; boundary = session_new_boundary token s; token = token }

  pass_user_active :
      (r : Request) (token : Text) (s : UserStore) (u : User)
      → text_eq u.status status_active ≡ true
      → (is_unsafe_method r.method && cross_origin_request platform r) ≡ false
      → pass_user platform r token (s, some u) ≡ (s, admitted (context_of u token s))
  unfolding context_of
  pass_user_active r token s u p q = ground (arith, p, q)

  pass_user-admitted :
      (r : Request) (token : Text) (us s : UserStore) (o : Option User) (c : Context)
      → (pass_user platform r token (us, o)).1 ≡ admitted c
      → (o ≡ some c.user)
        × (text_eq c.user.status status_active ≡ true)
        × ((is_unsafe_method r.method && cross_origin_request platform r) ≡ false)
        × (c.token ≡ token)
        × (c.boundary ≡ session_new_boundary token us)
        × ((pass_user platform r token (us, o)).0 ≡ us)
  unfolding context_of
  pass_user-admitted r token us s none c h = absurd (ground (arith, h))
  pass_user-admitted r token us s (some u) c h =
      elim (Bool-cases (text_eq u.status status_active)) [
        | inr p ↦ absurd (ground (arith, p, h))
        | inl p ↦ elim (Bool-cases (is_unsafe_method r.method && cross_origin_request platform r)) [
          | inl q ↦ absurd (ground (arith, p, q, h))
          | inr q ↦
              let run = pass_user_active r token us u p q in
              let e : context_of u token us ≡ c = cc (run, h) in
              (
                ap (λ (d : Context). some d.user) e,
                subst (λ (d : Context). text_eq d.user.status status_active ≡ true) e p,
                q,
                ap (λ (d : Context). d.token) (sym e),
                ap (λ (d : Context). d.boundary) (sym e),
                ap (λ (g : UserStore × Gate). g.0) run,
              )
        ]
      ]

  -- What lets a request through, and that it changes nothing.
  pub require_auth-admitted :
      (now : ℕ) (r : Request) (s : UserStore) (c : Context)
      → (require_auth platform now r s).1 ≡ admitted c
      → Served platform now r s c × ((require_auth platform now r s).0 ≡ s)
  unfolding require_auth session_new_boundary
  require_auth-admitted now r s c h = elim (Option-cases r.cookie) [
    | inl e ↦
        let refusal = ap (λ o. (pass_cookie platform now r o s).1) e in absurd (cc (refusal, h))
    | inr (token, e) ↦
        let g = get_session now token s in
        let run = ap (λ o. pass_cookie platform now r o s) e in
        let (ue, act, so, te, be, ge) =
          pass_user-admitted r token g.0 s g.1 c
            (sym (ap (λ (p : UserStore × Gate). p.1) run) ∙ h) in
        let (x, xe, ex, xu, gs) = get_session-some now token s c.user ue in
        (
          record {
            session = x;
            cookie_eq = e ∙ ap (λ t. some t) (sym te);
            session_eq = ap s.sessions te ∙ xe;
            unexpired = ex;
            user_eq = xu;
            is_active = act;
            same_origin = so;
            boundary_eq = be ∙ ap (session_new_boundary token) gs ∙ ap boundary_of xe;
          },
          ap (λ (p : UserStore × Gate). p.0) run ∙ ge ∙ gs,
        )
  ]

  -- For any request, user store and context: a request is let through with this context, the store
  -- as it was, exactly when it is to be served.
  pub require_auth_iff :
      (now : ℕ) (r : Request) (s : UserStore) (c : Context)
      → (require_auth platform now r s ≡ (s, admitted c)) ↔ Served platform now r s c
  unfolding require_auth session_new_boundary context_of
  require_auth_iff now r s c = (
    λ h. (require_auth-admitted now r s c (ap (λ (p : UserStore × Gate). p.1) h)).0,
    λ v.
        let found = get_session_unexpired now c.token v.session s v.session_eq v.unexpired in
        let boundary : session_new_boundary c.token s ≡ c.boundary =
          ground (arith, v.session_eq, v.boundary_eq) in
        ap (λ o. pass_cookie platform now r o s) v.cookie_eq
        ∙ ap (pass_user platform r c.token) found
        ∙ ap (λ o. pass_user platform r c.token (s, o)) v.user_eq
        ∙ pass_user_active r c.token s c.user v.is_active v.same_origin
        ∙ ap (λ b. (s, admitted (record c { boundary = b }))) boundary,
  )
