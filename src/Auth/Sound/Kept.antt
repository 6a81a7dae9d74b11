-- ===== src/Auth/Sound/Kept.antt =====
-- Every move of internal/server/auth.go keeps the sessions to active accounts.
use archer.Prelude.{
  ℕ, suc, ◌≤◌, Bool, true, false, not, ◌&&◌, Option, none, some, List, [], ◌∷◌, ◌++◌, Text, ◌==◌,
  ◌≡◌, ◌⊎◌, refl, subst, text_eq, if◌then◌else◌, All, All-append, All-map, Some, inl, inr, arith,
  Bool-cases,
}
use archer.Net.{Net, Platform}
use archer.Users.{
  User, Row, Session, UserStore, status_active, status_pending, stamp_rows, delete_session,
  delete_sessions_for_user, unless_owned, prune_expired_sessions, unless_past, update_user,
  update_user_role, approve_user, delete_user, create_user, hashed_user, insert_user, email_taken,
  create_session, set_session, set_password, with_hash, unix,
}
use archer.Users.Rows.{SomeUser, stamp_rows-Some}
use archer.Auth.Refine.{NotPending}
use archer.Auth.Moves.{
  Move, Moves, leave, sweep, revoke, join, found, enter, renew, reset, appoint, approve, assign,
  remove, rest, next,
}
use archer.Auth.Handlers.{Server}
use archer.Auth.Handlers.Accounts.{Event, run}
use archer.Auth.Refine.Routes.{run-Moves}
use archer.Auth.Sound.{
  IsStatus, IsTable, ActiveIn, Sound, update_rows-Sound, stamp_rows-Sound, fewer-Sound,
  drop_rows-Sound,
}

append-IsTable :
    (last : ℕ) (rs : List Row) (u : User) (at : ℕ)
    → IsStatus u.status
    → IsTable last rs
    → u.id ≡ suc last
    → IsTable (suc last) (rs ++ (record { user = u; findings_seen_at = at } ∷ []))
append-IsTable last [] u at k t e = (omega arith, k, tt, tt)
append-IsTable last (r ∷ rs) u at k (a, b, c, d) e = (
  omega arith,
  b,
  All-append (λ (q : Row). (q.user.id == r.user.id) ≡ false) rs _ c (ground arith, tt),
  append-IsTable last rs u at k d e,
)

insert_user-Sound :
    (platform : Platform) (now : ℕ) (saved : Bool) (u : User) (s : UserStore)
    → IsStatus u.status
    → Sound s
    → Sound (insert_user platform now saved u s).0
unfolding insert_user
insert_user-Sound platform now saved u s k v =
    elim (Bool-cases (saved && not (email_taken u.email s.rows))) [
      | inr e ↦ rw e v
      | inl e ↦ rw e (record {
        table =
            append-IsTable s.last_id s.rows (record u { id = suc s.last_id }) (unix now) k v.table
              refl;
        entered = λ token x f.
            let (a, b) = v.entered token x f in
            (
              omega arith,
              All-append
                  (λ (r : Row).
                    (r.user.id == x.user_id) ≡ true → text_eq r.user.status status_active ≡ true)
                  s.rows _ b ((λ q. absurd (ground (arith, a, q))), tt),
            );
      })
    ]

hashed_user-Sound :
    (platform : Platform) (now : ℕ) (saved : Bool) (hash : Option Text) (f : Text → User)
    (s : UserStore)
    → ((h : Text) → IsStatus (f h).status)
    → Sound s
    → Sound (hashed_user platform now saved hash f s).0
hashed_user-Sound platform now saved none f s k v = v
hashed_user-Sound platform now saved (some h) f s k v =
    insert_user-Sound platform now saved (f h) s (k h) v

create_user-Sound :
    (platform : Platform) (now salt : ℕ) (saved : Bool)
    (email first_name last_name password role status : Text) (s : UserStore)
    → IsStatus status
    → Sound s
    → Sound
        (create_user platform now salt saved email first_name last_name password role status s).0
unfolding create_user
create_user-Sound platform now salt saved email first_name last_name password role status s k v =
    hashed_user-Sound platform now saved _ _ s (λ h. k) v

with_hash-Sound :
    (platform : Platform) (saved : Bool) (id : ℕ) (hash : Option Text) (s : UserStore)
    → Sound s
    → Sound (with_hash platform saved id hash s).0
with_hash-Sound platform saved id none s v = v
with_hash-Sound platform true id (some h) s v =
    update_rows-Sound id (λ u. record u { password_hash = h }) s (λ u. refl) (λ u. inl refl) v
with_hash-Sound platform false id (some h) s v = v

set_password-Sound :
    (platform : Platform) (salt : ℕ) (saved : Bool) (id : ℕ) (password : Text) (s : UserStore)
    → Sound s
    → Sound (set_password platform salt saved id password s).0
unfolding set_password
set_password-Sound platform salt saved id password s v = with_hash-Sound platform saved id _ s v

update_user-Sound :
    (saved : Bool) (id : ℕ) (g : User → User) (s : UserStore)
    → ((u : User) → (g u).id ≡ u.id)
    → ((u : User) → ((g u).status ≡ u.status) ⊎ ((g u).status ≡ status_active))
    → Sound s
    → Sound (update_user saved id g s).0
update_user-Sound true id g s i k v = update_rows-Sound id g s i k v
update_user-Sound false id g s i k v = v

-- An account that is not pending is the only one with its id, and active.
others :
    (id i : ℕ) (rs : List Row)
    → All (λ (q : Row). (q.user.id == i) ≡ false) rs
    → Some (λ (q : Row). NotPending id q.user) rs
    → (i == id) ≡ false
others id i [] a h = absurd h
others id i (r ∷ rs) (p, a) (inl (k, e)) = ground (arith, p, e)
others id i (r ∷ rs) (p, a) (inr h) = others id i rs a h

status_case :
    (t : Text) → IsStatus t → text_eq t status_pending ≡ false → text_eq t status_active ≡ true
status_case t k h = ground (arith, k, h)

entering :
    (id last : ℕ) (rs : List Row)
    → IsTable last rs
    → Some (λ (r : Row). NotPending id r.user) rs
    → (id ≤ last) × ActiveIn id rs
entering id last [] t h = absurd h
entering id last (r ∷ rs) (a, b, c, d) (inl (k, e)) =
    let same : r.user.id ≡ id = ground (arith, e) in
    (
      subst (λ i. i ≤ last) same a,
      (
        (λ f. status_case r.user.status b k),
        All-map (λ (q : Row). (q.user.id == r.user.id) ≡ false)
            (λ (q : Row). (q.user.id == id) ≡ true → text_eq q.user.status status_active ≡ true) rs
            (λ q n f. absurd (ground (arith, n, f, same))) c,
      ),
    )
entering id last (r ∷ rs) (a, b, c, d) (inr h) =
    let (le, act) = entering id last rs d h in
    (le, ((λ e. absurd (cc (e, others id r.user.id rs c h))), act))

set_session-Sound :
    (token : Text) (x : Session) (s : UserStore)
    → (x.user_id ≤ s.last_id) × ActiveIn x.user_id s.rows
    → Sound s
    → Sound (set_session token x s)
unfolding set_session
set_session-Sound token x s h v = record {
  table = v.table;
  entered = λ t y e. elim (Bool-cases (text_eq t token)) [
    | inl p ↦
        let same : x ≡ y = ground (arith, p, e) in
        subst (λ (z : Session). (z.user_id ≤ s.last_id) × ActiveIn z.user_id s.rows) same h
    | inr p ↦ v.entered t y (ground (arith, p, e))
  ];
}

create_session-Sound :
    (now : ℕ) (token : Text) (stamped : Bool) (id : ℕ) (s : UserStore)
    → SomeUser (NotPending id) s
    → Sound s
    → Sound (create_session now token stamped id s)
unfolding create_session
create_session-Sound now token true id s h v =
    let v' = stamp_rows-Sound id (unix now) s v in
    set_session-Sound token _ (record s { rows = stamp_rows id (unix now) s.rows })
      (entering id s.last_id _ v'.table (stamp_rows-Some (NotPending id) id (unix now) s.rows h)) v'
create_session-Sound now token false id s h v =
    set_session-Sound token _ s (entering id s.last_id s.rows v.table h) v

delete_user-Sound :
    (saved : Bool) (id : ℕ) (s : UserStore) → Sound s → Sound (delete_user saved id s).0
unfolding delete_user
delete_user-Sound true id s v = drop_rows-Sound id s v
delete_user-Sound false id s v = v

unless_past-some :
    (now : ℕ) (o : Option Session) (x : Session) → unless_past now o ≡ some x → o ≡ some x
unless_past-some now none x e = e
unless_past-some now (some y) x e = ground (arith, e)

unless_owned-some :
    (id : ℕ) (o : Option Session) (x : Session) → unless_owned id o ≡ some x → o ≡ some x
unless_owned-some id none x e = e
unless_owned-some id (some y) x e = ground (arith, e)

module _ (platform : Platform) where
  Move-Sound : {s t : UserStore} → Move platform s t → Sound s → Sound t
  unfolding delete_session prune_expired_sessions delete_sessions_for_user update_user_role
      approve_user
  Move-Sound (leave token s) v =
      fewer-Sound s (λ t. if text_eq t token then none else s.sessions t)
        (λ t x e. ground (arith, e)) v
  Move-Sound (sweep now s) v =
      fewer-Sound s (λ t. unless_past now (s.sessions t))
        (λ t x e. unless_past-some now (s.sessions t) x e) v
  Move-Sound (revoke id s) v =
      fewer-Sound s (λ t. unless_owned id (s.sessions t))
        (λ t x e. unless_owned-some id (s.sessions t) x e) v
  Move-Sound (join now salt saved email f l password s) v =
      create_user-Sound platform now salt saved email f l password _ _ s refl v
  Move-Sound (found now salt saved email f l password s e) v =
      create_user-Sound platform now salt saved email f l password _ _ s refl v
  Move-Sound (enter now token stamped id s g) v = create_session-Sound now token stamped id s g v
  Move-Sound (renew salt saved id email current password u s a g) v =
      set_password-Sound platform salt saved id password s v
  Move-Sound (reset me salt saved id password s g e) v =
      set_password-Sound platform salt saved id password s v
  Move-Sound (appoint me now salt saved email f l password role s g) v =
      create_user-Sound platform now salt saved email f l password _ _ s refl v
  Move-Sound (approve me saved id s g) v =
      update_user-Sound saved id _ s (λ u. refl) (λ u. inr refl) v
  Move-Sound (assign me saved id role s g e) v =
      update_user-Sound saved id _ s (λ u. refl) (λ u. inl refl) v
  Move-Sound (remove me saved id s g e) v = delete_user-Sound saved id s v

  Moves-Sound : {s t : UserStore} → Moves platform s t → Sound s → Sound t
  Moves-Sound rest v = v
  Moves-Sound (next m k) v = Move-Sound k (Moves-Sound m v)

  -- If the rows of the accounts have different ids, none above the last one given, with the status
  -- "pending" or "active", and every session is of an id that has been given, whose row is active if
  -- it is there, then so it is after any sequence of requests, each handled whole, and of prunings.
  pub run-Sound :
      (net : Net) (events : List Event) (s : Server)
      → Sound s.users
      → Sound (run platform net events s).users
  run-Sound net events s v = Moves-Sound (run-Moves platform net events s) v
