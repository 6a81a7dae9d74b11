-- ===== src/Auth/SignIn.antt =====
-- Signing in by handleLogin of internal/server/auth.go, and the session that it gives.
use archer.Prelude.{
  ℕ, ◌+◌, ◌≤◌, Bool, true, false, Option, none, some, List, [], ◌∷◌, Text, ltb, ◌==◌, ◌≡◌, ◌↔◌,
  refl, sym, subst, ap, ◌∙◌, text_eq, text_eq_refl, equal_fold, All, inl, inr, arith, Bool-cases,
}
use archer.Net.{Platform}
use archer.Users.{
  User, Row, UserStore, status_pending, find_row, user_of, stamp_rows, get_user_by_id,
  get_user_by_email, get_session, create_session, set_session, authenticate, checked,
  normalize_email, session_lifetime, new_session,
}
use archer.Auth.{Request, signed_in, valid_email}
use archer.Auth.Admission.{get_session_unexpired}
use archer.Auth.Sound.{IsTable, Sound}
use archer.Auth.Handlers.{
  Server, Env, LoginForm, record_audit_login, open_session, login_as, post_login,
}

find_row-All :
    (P : Row → Type 0) (p : User → Bool) (rs : List Row) (r : Row)
    → find_row p rs ≡ some r
    → All P rs
    → P r
unfolding find_row
find_row-All P p [] r e a = cc
find_row-All P p (q ∷ rs) r e (h, a) = elim (Bool-cases (p q.user)) [
  | inl t ↦ subst P (ground (arith, t, e)) h
  | inr t ↦ find_row-All P p rs r (ground (arith, t, e)) a
]

-- In a table with different ids the row that is found is the one that its id finds.
find_row-id :
    (last : ℕ) (p : User → Bool) (rs : List Row) (r : Row)
    → IsTable last rs
    → find_row p rs ≡ some r
    → find_row (λ u. u.id == r.user.id) rs ≡ some r
unfolding find_row
find_row-id last p [] r t e = cc
find_row-id last p (q ∷ rs) r (a, b, c, d) e = elim (Bool-cases (p q.user)) [
  | inl t ↦ let same : q ≡ r = ground (arith, t, e) in ground (arith, same)
  | inr t ↦
      let e' : find_row p rs ≡ some r = ground (arith, t, e) in
      let other = find_row-All (λ (x : Row). (x.user.id == q.user.id) ≡ false) p rs r e' c in
      ground (arith, other, find_row-id last p rs r d e')
]

find_row-stamp_rows :
    (id at k : ℕ) (rs : List Row)
    → user_of (find_row (λ u. u.id == k) (stamp_rows id at rs))
      ≡ user_of (find_row (λ u. u.id == k) rs)
unfolding find_row stamp_rows
find_row-stamp_rows id at k [] = refl
find_row-stamp_rows id at k (r ∷ rs) = ground (arith, find_row-stamp_rows id at k rs)

get_user_by_id-create_session :
    (now : ℕ) (token : Text) (stamped : Bool) (id k : ℕ) (s : UserStore)
    → get_user_by_id k (create_session now token stamped id s) ≡ get_user_by_id k s
unfolding get_user_by_id create_session set_session
get_user_by_id-create_session now token true id k s = find_row-stamp_rows id _ k s.rows
get_user_by_id-create_session now token false id k s = refl

-- A new session resolves to its user as long as it lives.
get_session-create_session :
    (now later : ℕ) (token : Text) (stamped : Bool) (id : ℕ) (s : UserStore)
    → later ≤ now + session_lifetime
    → (get_session later token (create_session now token stamped id s)).1 ≡ get_user_by_id id s
unfolding get_session create_session set_session
get_session-create_session now later token stamped id s h =
    let t = create_session now token stamped id s in
    let x = new_session now id s in
    let alive : ltb x.expires_at later ≡ false = ground (arith, h) in
    let held : t.sessions token ≡ some x = ground (arith, text_eq_refl token) in
    ap (λ (p : UserStore × Option User). p.1) (get_session_unexpired later token x t held alive)
    ∙ get_user_by_id-create_session now token stamped id id s

user_of-some :
    (o : Option Row) (u : User) → user_of o ≡ some u → (r : Row) × (o ≡ some r) × (r.user ≡ u)
user_of-some none u e = cc
user_of-some (some r) u e = (r, refl, ground (arith, e))

-- In a table with different ids an account that is found by its email is found by its id.
get_user_by_id-get_user_by_email :
    (email : Text) (u : User) (s : UserStore)
    → IsTable s.last_id s.rows
    → get_user_by_email email s ≡ some u
    → get_user_by_id u.id s ≡ some u
unfolding get_user_by_email get_user_by_id
get_user_by_id-get_user_by_email email u s t e =
    let p = λ (v : User). equal_fold v.email email in
    let (r, found, same) = user_of-some (find_row p s.rows) u e in
    subst (λ (v : User). user_of (find_row (λ w. w.id == v.id) s.rows) ≡ some v) same
      (ap user_of (find_row-id s.last_id p s.rows r t found))

checked_iff :
    (platform : Platform) (password : Text) (o : Option User) (u : User)
    → (checked platform password o ≡ some u)
      ↔ ((o ≡ some u) × (platform.agrees u.password_hash password ≡ true))
checked_iff platform password none u = (λ e. cc, λ h. cc (h.0))
checked_iff platform password (some v) u = (
  λ e. elim (Bool-cases (platform.agrees v.password_hash password)) [
    | inl p ↦
        let same : v ≡ u = ground (arith, p, e) in
        (
          ap (λ w. some w) same,
          subst (λ (w : User). platform.agrees w.password_hash password ≡ true) same p,
        )
    | inr p ↦ absurd (ground (arith, p, e))
  ],
  λ h.
      let same : v ≡ u = cc (h.0) in
      let agree =
        subst (λ (w : User). platform.agrees w.password_hash password ≡ true) (sym same) h.1 in
      rw agree h.0,
)

module _ (platform : Platform) (e : Env) (r : Request) (form : LoginForm) (s : Server) where
  -- The form's email is well formed, and an account has it, with the password, that is not pending.
  abbrev pub MayEnter : User → Type 0
  MayEnter u =
      (valid_email (normalize_email platform form.email) ≡ true)
      × (get_user_by_email (normalize_email platform form.email) s.users ≡ some u)
      × (platform.agrees u.password_hash form.password ≡ true)
      × (text_eq u.status status_pending ≡ false)

  login_as-signed_in :
      (email : Text) (o : Option User)
      → (login_as e r email o s).1 ≡ signed_in e.token
      → (u : User) × (o ≡ some u)
        × (text_eq u.status status_pending ≡ false)
        × ((login_as e r email o s).0.users ≡ create_session e.now e.token e.stamped u.id s.users)
  unfolding login_as record_audit_login open_session
  login_as-signed_in email none h = cc
  login_as-signed_in email (some u) h = elim (Bool-cases (text_eq u.status status_pending)) [
    | inl p ↦ absurd (ground (arith, p, h))
    | inr p ↦ (u, refl, p, ground (arith, p))
  ]

  login_as_enters :
      (email : Text) (u : User)
      → text_eq u.status status_pending ≡ false
      → (login_as e r email (some u) s).1 ≡ signed_in e.token
  unfolding login_as
  login_as_enters email u h = rw h refl

  -- A POST to /login past the rate limit, on any state of the server, is answered by a cookie exactly
  -- when the form's email, normalised, is well formed, an account has it, its hash agrees with the
  -- password, and the account is not pending.
  pub post_login_iff :
      ((post_login platform e r form s).1 ≡ signed_in e.token) ↔ ((u : User) × MayEnter u)
  unfolding post_login authenticate
  post_login_iff =
      let email = normalize_email platform form.email in
      let o = get_user_by_email email s.users in
      (
        λ h. elim (Bool-cases (valid_email email)) [
          | inr p ↦ absurd (ground (arith, p, h))
          | inl p ↦
              let h' : (login_as e r email (checked platform form.password o) s).1
                  ≡ signed_in e.token =
                ground (arith, p, h) in
              let (u, a, b, c) = login_as-signed_in email (checked platform form.password o) h' in
              let (f, g) = (checked_iff platform form.password o u).0 a in (u, (p, f, g, b))
        ],
        λ h.
            let (u, (p, f, g, b)) = h in
            let a = (checked_iff platform form.password o u).1 (f, g) in
            rw p (ap (λ q. (login_as e r email q s).1) a ∙ login_as_enters email u b),
      )

  -- Where the accounts are sound, a cookie that a POST to /login gives resolves for 24 hours, while
  -- nothing else changes, to the account that had the form's email, password and no pending status.
  pub get_session-post_login :
      (later : ℕ)
      → Sound s.users
      → later ≤ e.now + session_lifetime
      → (post_login platform e r form s).1 ≡ signed_in e.token
      → (u : User) × MayEnter u
        × ((get_session later e.token (post_login platform e r form s).0.users).1 ≡ some u)
  unfolding post_login authenticate
  get_session-post_login later v l h =
      let email = normalize_email platform form.email in
      let o = get_user_by_email email s.users in
      elim (Bool-cases (valid_email email)) [
        | inr p ↦ absurd (ground (arith, p, h))
        | inl p ↦
            let h' : (login_as e r email (checked platform form.password o) s).1
                ≡ signed_in e.token =
              ground (arith, p, h) in
            let (u, a, b, c) = login_as-signed_in email (checked platform form.password o) h' in
            let (f, g) = (checked_iff platform form.password o u).0 a in
            let found = get_user_by_id-get_user_by_email email u s.users v.table f in
            (
              u,
              (p, f, g, b),
              rw p (
                  ap (λ us. (get_session later e.token us).1) c
                  ∙ get_session-create_session e.now later e.token e.stamped u.id s.users l
                  ∙ found),
            )
      ]
