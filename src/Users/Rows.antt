-- ===== src/Users/Rows.antt =====
-- What the writes to the table of internal/store/userstore.go keep of its rows.
use archer.Prelude.{
  ℕ, suc, equal_fold, Some-right, Bool, true, false, Option, none, some, List, [], ◌∷◌, Text, ◌==◌,
  ◌≡◌, inl, inr, refl, sym, if_intro, Some, Some-left, subst, not, ◌&&◌, arith, Bool-cases, Text,
}
use archer.Net.{Platform}
use archer.Users.{
  User, Row, UserStore, find_row, user_of, update_rows, drop_rows, stamp_rows, update_user,
  delete_user, create_session, create_user, hashed_user, insert_user, email_taken, set_password,
  with_hash, set_session, get_user_by_id, get_user_by_email, authenticate, checked,
}

-- Some row's user has the property.
abbrev pub SomeUser : (User → Type 0) → UserStore → Type 0
SomeUser holds s = Some (λ (r : Row). holds r.user) s.rows

module _ (P : User → Type 0) where
  of_find :
      (p : User → Bool) (rs : List Row) (u : User)
      → user_of (find_row p rs) ≡ some u
      → P u
      → Some (λ (r : Row). P r.user) rs
  unfolding find_row
  of_find p [] u e h = cc
  of_find p (r ∷ rs) u e h = elim (Bool-cases (p r.user)) [
    | inl q ↦ let e' : r.user ≡ u = ground (arith, q, e) in inl (subst P (sym e') h)
    | inr q ↦ inr (of_find p rs u (ground (arith, q, e)) h)
  ]

  update_rows-Some :
      (id : ℕ) (g : User → User) (rs : List Row)
      → ((u : User) → (u.id == id) ≡ true → P u → P (g u))
      → Some (λ (r : Row). P r.user) rs
      → Some (λ (r : Row). P r.user) (update_rows id g rs)
  unfolding update_rows
  update_rows-Some id g [] k h = absurd h
  update_rows-Some id g (r ∷ rs) k (inr h) = inr (update_rows-Some id g rs k h)
  update_rows-Some id g (r ∷ rs) k (inl h) =
      inl (if_intro (λ (q : Row). P q.user) (r.user.id == id) (λ e. k r.user e h) (λ e. h))

  pub stamp_rows-Some :
      (id at : ℕ) (rs : List Row)
      → Some (λ (r : Row). P r.user) rs
      → Some (λ (r : Row). P r.user) (stamp_rows id at rs)
  unfolding stamp_rows
  stamp_rows-Some id at [] h = absurd h
  stamp_rows-Some id at (r ∷ rs) (inr h) = inr (stamp_rows-Some id at rs h)
  stamp_rows-Some id at (r ∷ rs) (inl h) =
      inl (if_intro (λ (q : Row). P q.user) (r.user.id == id) (λ e. h) (λ e. h))

  drop_rows-Some :
      (id : ℕ) (rs : List Row)
      → ((u : User) → P u → (u.id == id) ≡ false)
      → Some (λ (r : Row). P r.user) rs
      → Some (λ (r : Row). P r.user) (drop_rows id rs)
  unfolding drop_rows
  drop_rows-Some id [] k h = absurd h
  drop_rows-Some id (r ∷ rs) k (inl h) = rw (k r.user h) (inl h)
  drop_rows-Some id (r ∷ rs) k (inr h) = elim (Bool-cases (r.user.id == id)) [
    | inl e ↦ rw e (drop_rows-Some id rs k h)
    | inr e ↦ rw e (inr (drop_rows-Some id rs k h))
  ]

  pub create_session-SomeUser :
      (now : ℕ) (token : Text) (stamped : Bool) (id : ℕ) (s : UserStore)
      → SomeUser P s
      → SomeUser P (create_session now token stamped id s)
  unfolding create_session set_session
  create_session-SomeUser now token true id s h = stamp_rows-Some id _ s.rows h
  create_session-SomeUser now token false id s h = h

  pub delete_user-SomeUser :
      (saved : Bool) (id : ℕ) (s : UserStore)
      → ((u : User) → P u → (u.id == id) ≡ false)
      → SomeUser P s
      → SomeUser P (delete_user saved id s).0
  unfolding delete_user
  delete_user-SomeUser true id s k h = drop_rows-Some id s.rows k h
  delete_user-SomeUser false id s k h = h

  pub update_user-SomeUser :
      (saved : Bool) (id : ℕ) (g : User → User) (s : UserStore)
      → ((u : User) → (u.id == id) ≡ true → P u → P (g u))
      → SomeUser P s
      → SomeUser P (update_user saved id g s).0
  update_user-SomeUser true id g s k h = update_rows-Some id g s.rows k h
  update_user-SomeUser false id g s k h = h

  module _ (platform : Platform) where
    with_hash-SomeUser :
        (saved : Bool) (id : ℕ) (hash : Option Text) (s : UserStore)
        → ((u : User) (hash : Text) → P u → P (record u { password_hash = hash }))
        → SomeUser P s
        → SomeUser P (with_hash platform saved id hash s).0
    with_hash-SomeUser saved id none s k h = h
    with_hash-SomeUser true id (some hash) s k h =
        update_rows-Some id _ s.rows (λ u e p. k u hash p) h
    with_hash-SomeUser false id (some hash) s k h = h

    pub set_password-SomeUser :
        (salt : ℕ) (saved : Bool) (id : ℕ) (password : Text) (s : UserStore)
        → ((u : User) (hash : Text) → P u → P (record u { password_hash = hash }))
        → SomeUser P s
        → SomeUser P (set_password platform salt saved id password s).0
    unfolding set_password
    set_password-SomeUser salt saved id password s k h = with_hash-SomeUser saved id _ s k h

    hashed_user-SomeUser :
        (now : ℕ) (saved : Bool) (hash : Option Text) (u : Text → User) (s : UserStore)
        → SomeUser P s
        → SomeUser P (hashed_user platform now saved hash u s).0
    unfolding insert_user
    hashed_user-SomeUser now saved none u s h = h
    hashed_user-SomeUser now saved (some hash) u s h =
        elim (Bool-cases (saved && not (email_taken (u hash).email s.rows))) [
          | inl e ↦ rw e (Some-left (λ (r : Row). P r.user) s.rows _ h)
          | inr e ↦ rw e h
        ]

    pub create_user-SomeUser :
        (now salt : ℕ) (saved : Bool) (email first_name last_name password role status : Text)
        (s : UserStore)
        → SomeUser P s
        → SomeUser P
            (create_user platform now salt saved email first_name last_name password role status
              s).0
    unfolding create_user
    create_user-SomeUser now salt saved email first_name last_name password role status s h =
        hashed_user-SomeUser now saved _ _ s h

module _ (platform : Platform) where
  module _ (P : User → Type 0) where
    hashed_user-some :
        (now : ℕ) (saved : Bool) (hash : Option Text) (f : Text → User) (u : User) (s : UserStore)
        → ((h : Text) → P (record (f h) { id = suc s.last_id }))
        → (hashed_user platform now saved hash f s).1 ≡ some u
        → SomeUser (λ v. P v × (v.id ≡ u.id)) (hashed_user platform now saved hash f s).0
    unfolding insert_user
    hashed_user-some now saved none f u s k h = cc
    hashed_user-some now saved (some hash) f u s k h =
        elim (Bool-cases (saved && not (email_taken (f hash).email s.rows))) [
          | inl e ↦
              let same : suc s.last_id ≡ u.id = ground (arith, e, h) in
              rw e (
                Some-right (λ (r : Row). P r.user × (r.user.id ≡ u.id)) s.rows _
                  (inl (k hash, same)))
          | inr e ↦ absurd (ground (arith, e, h))
        ]

  -- The account that CreateUser returns is in the table, with the status asked for.
  pub create_user-some :
      (now salt : ℕ) (saved : Bool) (email first_name last_name password role status : Text)
      (u : User) (s : UserStore)
      → (create_user platform now salt saved email first_name last_name password role status s).1
        ≡ some u
      → SomeUser
          (λ v. (v.status ≡ status) × (v.id ≡ u.id))
          (create_user platform now salt saved email first_name last_name password role status s).0
  unfolding create_user
  create_user-some now salt saved email first_name last_name password role status u s h =
      hashed_user-some (λ v. v.status ≡ status) now saved _ _ u s (λ hash. refl) h

-- An account that is found is in the table.
pub get_user_by_id-SomeUser :
    (P : User → Type 0) (id : ℕ) (u : User) (s : UserStore)
    → get_user_by_id id s ≡ some u
    → P u
    → SomeUser P s
unfolding get_user_by_id
get_user_by_id-SomeUser P id u s e h = of_find P (λ v. v.id == id) s.rows u e h

checked-some :
    (platform : Platform) (password : Text) (o : Option User) (u : User)
    → checked platform password o ≡ some u
    → o ≡ some u
checked-some platform password none u h = cc
checked-some platform password (some v) u h = ground (arith, h)

pub authenticate-SomeUser :
    (P : User → Type 0) (platform : Platform) (email password : Text) (u : User) (s : UserStore)
    → authenticate platform email password s ≡ some u
    → P u
    → SomeUser P s
unfolding authenticate get_user_by_email
authenticate-SomeUser P platform email password u s e h =
    of_find P (λ v. equal_fold v.email email) s.rows u
      (checked-some platform password (get_user_by_email email s) u e) h

pub find_row-id :
    (id : ℕ) (rs : List Row) (u : User)
    → user_of (find_row (λ v. v.id == id) rs) ≡ some u
    → (u.id == id) ≡ true
unfolding find_row
find_row-id id [] u h = cc
find_row-id id (r ∷ rs) u h = elim (Bool-cases (r.user.id == id)) [
  | inl e ↦ ground (arith, e, h)
  | inr e ↦ find_row-id id rs u (ground (arith, e, h))
]
