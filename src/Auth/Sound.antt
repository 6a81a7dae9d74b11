-- ===== src/Auth/Sound.antt =====
-- Which accounts have sessions, under the requests that internal/server/auth.go handles.
pub mod Kept
use archer.Prelude.{
  ℕ, suc, ◌≤◌, Bool, true, false, not, ◌&&◌, ◌||◌, Option, none, some, List, [], ◌∷◌, ◌++◌, map,
  Text, ◌==◌, ◌≡◌, ◌⊎◌, refl, sym, subst, ap, ◌∙◌, text_eq, if◌then◌else◌, if_intro, All,
  All-append, All-map, Some, inl, inr, arith, Bool-cases, Option-cases, ltb,
}
use archer.Net.{Net, Platform}
use archer.Users.{
  User, Row, Session, UserStore, role_admin, status_active, status_pending, update_rows, stamp_rows,
  drop_rows, delete_session, delete_sessions_for_user, unless_owned, prune_expired_sessions,
  unless_past, update_user, update_user_role, approve_user, delete_user, create_user, hashed_user,
  insert_user, email_taken, create_session, set_session, set_password, with_hash, unix, seen_at,
  find_row, session_lifetime, without_hash,
}
use archer.Users.Rows.{SomeUser}
use archer.Auth.Refine.{NotPending}
use archer.Auth.Moves.{
  Rules, Move, Moves, leave, sweep, revoke, join, found, enter, renew, reset, appoint, approve,
  assign, remove, rest, next,
}
use archer.Auth.Handlers.{Server}
use archer.Auth.Handlers.Accounts.{Event, run}
use archer.Auth.Refine.Routes.{run-Moves}

abbrev pub IsStatus : Text → Type 0
IsStatus t = (text_eq t status_pending || text_eq t status_active) ≡ true

-- The rows have different ids, none above the last that was given, and a status each.
abbrev pub IsTable : ℕ → List Row → Type 0
IsTable last [] = Unit
IsTable last (r ∷ rs) =
    (r.user.id ≤ last)
    × IsStatus r.user.status
    × All (λ (q : Row). (q.user.id == r.user.id) ≡ false) rs
    × IsTable last rs

-- An account with this id is active.
abbrev pub ActiveIn : ℕ → List Row → Type 0
ActiveIn id rs =
    All (λ (r : Row). (r.user.id == id) ≡ true → text_eq r.user.status status_active ≡ true) rs

-- A session is of an account that has been made and, if it is still there, is active.
pub record Sound (s : UserStore) : Type 0 where
  pub table : IsTable s.last_id s.rows
  pub entered :
      (token : Text) (x : Session)
      → s.sessions token ≡ some x
      → (x.user_id ≤ s.last_id) × ActiveIn x.user_id s.rows

-- A change of rows that keeps the ids, and keeps a status or makes it active.
pub record Mild (h : Row → Row) : Type 0 where
  pub same_id : (r : Row) → (h r).user.id ≡ r.user.id
  pub same_status :
      (r : Row) → ((h r).user.status ≡ r.user.status) ⊎ ((h r).user.status ≡ status_active)

module _ (h : Row → Row) (m : Mild h) where
  All-Mild :
      (P : ℕ → Type 0) (rs : List Row)
      → All (λ (r : Row). P r.user.id) rs
      → All (λ (r : Row). P r.user.id) (map h rs)
  All-Mild P [] a = tt
  All-Mild P (r ∷ rs) (p, a) = (subst P (sym (m.same_id r)) p, All-Mild P rs a)

  status-Mild : (r : Row) → IsStatus r.user.status → IsStatus (h r).user.status
  status-Mild r k = elim (m.same_status r) [
    | inl e ↦ subst IsStatus (sym e) k
    | inr e ↦ subst IsStatus (sym e) refl
  ]

  status_active-Mild :
      (r : Row)
      → text_eq r.user.status status_active ≡ true
      → text_eq (h r).user.status status_active ≡ true
  status_active-Mild r k = elim (m.same_status r) [
    | inl e ↦ subst (λ t. text_eq t status_active ≡ true) (sym e) k
    | inr e ↦ subst (λ t. text_eq t status_active ≡ true) (sym e) refl
  ]

  map-IsTable : (last : ℕ) (rs : List Row) → IsTable last rs → IsTable last (map h rs)
  map-IsTable last [] t = tt
  map-IsTable last (r ∷ rs) (a, b, c, d) = (
    subst (λ i. i ≤ last) (sym (m.same_id r)) a,
    status-Mild r b,
    subst (λ i. All (λ (q : Row). (q.user.id == i) ≡ false) (map h rs)) (sym (m.same_id r))
        (All-Mild (λ i. (i == r.user.id) ≡ false) rs c),
    map-IsTable last rs d,
  )

  map-ActiveIn : (id : ℕ) (rs : List Row) → ActiveIn id rs → ActiveIn id (map h rs)
  map-ActiveIn id [] a = tt
  map-ActiveIn id (r ∷ rs) (p, a) = (
    λ e. status_active-Mild r (p (ap (λ i. i == id) (sym (m.same_id r)) ∙ e)),
    map-ActiveIn id rs a,
  )

  map-Sound : (s : UserStore) → Sound s → Sound (record s { rows = map h s.rows })
  map-Sound s v = record {
    table = map-IsTable s.last_id s.rows v.table;
    entered = λ token x e. let (a, b) = v.entered token x e in (a, map-ActiveIn x.user_id s.rows b);
  }

abbrev changed_row : ℕ → (User → User) → Row → Row
changed_row id g r = if r.user.id == id then record r { user = g r.user } else r

update_rows-map :
    (id : ℕ) (g : User → User) (rs : List Row) → update_rows id g rs ≡ map (changed_row id g) rs
unfolding update_rows
update_rows-map id g [] = refl
update_rows-map id g (r ∷ rs) = ap (λ qs. changed_row id g r ∷ qs) (update_rows-map id g rs)

abbrev stamped_row : ℕ → ℕ → Row → Row
stamped_row id at r = if r.user.id == id then record r { findings_seen_at = at } else r

stamp_rows-map : (id at : ℕ) (rs : List Row) → stamp_rows id at rs ≡ map (stamped_row id at) rs
unfolding stamp_rows
stamp_rows-map id at [] = refl
stamp_rows-map id at (r ∷ rs) = ap (λ qs. stamped_row id at r ∷ qs) (stamp_rows-map id at rs)

changed_row-Mild :
    (id : ℕ) (g : User → User)
    → ((u : User) → (g u).id ≡ u.id)
    → ((u : User) → ((g u).status ≡ u.status) ⊎ ((g u).status ≡ status_active))
    → Mild (changed_row id g)
changed_row-Mild id g i k = record {
  same_id = λ r.
      if_intro (λ (q : Row). q.user.id ≡ r.user.id) (r.user.id == id) (λ e. i r.user) (λ e. refl);
  same_status = λ r.
      if_intro (λ (q : Row). (q.user.status ≡ r.user.status) ⊎ (q.user.status ≡ status_active))
        (r.user.id == id) (λ e. k r.user) (λ e. inl refl);
}

stamped_row-Mild : (id at : ℕ) → Mild (stamped_row id at)
stamped_row-Mild id at = record {
  same_id =
      λ r. if_intro (λ (q : Row). q.user.id ≡ r.user.id) (r.user.id == id) (λ e. refl) (λ e. refl);
  same_status = λ r.
      if_intro (λ (q : Row). (q.user.status ≡ r.user.status) ⊎ (q.user.status ≡ status_active))
        (r.user.id == id) (λ e. inl refl) (λ e. inl refl);
}

pub update_rows-Sound :
    (id : ℕ) (g : User → User) (s : UserStore)
    → ((u : User) → (g u).id ≡ u.id)
    → ((u : User) → ((g u).status ≡ u.status) ⊎ ((g u).status ≡ status_active))
    → Sound s
    → Sound (record s { rows = update_rows id g s.rows })
update_rows-Sound id g s i k v =
    subst (λ rs. Sound (record s { rows = rs })) (sym (update_rows-map id g s.rows))
      (map-Sound (changed_row id g) (changed_row-Mild id g i k) s v)

pub stamp_rows-Sound :
    (id at : ℕ) (s : UserStore) → Sound s → Sound (record s { rows = stamp_rows id at s.rows })
stamp_rows-Sound id at s v =
    subst (λ rs. Sound (record s { rows = rs })) (sym (stamp_rows-map id at s.rows))
      (map-Sound (stamped_row id at) (stamped_row-Mild id at) s v)

-- Fewer sessions.
pub fewer-Sound :
    (s : UserStore) (m : Text → Option Session)
    → ((t : Text) (x : Session) → m t ≡ some x → s.sessions t ≡ some x)
    → Sound s
    → Sound (record s { sessions = m })
fewer-Sound s m k v = record {
  table = v.table;
  entered = λ token x e. v.entered token x (k token x e);
}

drop_rows-All : (P : Row → Type 0) (id : ℕ) (rs : List Row) → All P rs → All P (drop_rows id rs)
unfolding drop_rows
drop_rows-All P id [] a = tt
drop_rows-All P id (r ∷ rs) (p, a) = elim (Bool-cases (r.user.id == id)) [
  | inl e ↦ rw e (drop_rows-All P id rs a)
  | inr e ↦ rw e (p, drop_rows-All P id rs a)
]

drop_rows-IsTable : (id last : ℕ) (rs : List Row) → IsTable last rs → IsTable last (drop_rows id rs)
unfolding drop_rows
drop_rows-IsTable id last [] t = tt
drop_rows-IsTable id last (r ∷ rs) (a, b, c, d) = elim (Bool-cases (r.user.id == id)) [
  | inl e ↦ rw e (drop_rows-IsTable id last rs d)
  | inr e ↦ rw e (
    a,
    b,
    drop_rows-All (λ (q : Row). (q.user.id == r.user.id) ≡ false) id rs c,
    drop_rows-IsTable id last rs d,
  )
]

pub drop_rows-Sound :
    (id : ℕ) (s : UserStore) → Sound s → Sound (record s { rows = drop_rows id s.rows })
drop_rows-Sound id s v = record {
  table = drop_rows-IsTable id s.last_id s.rows v.table;
  entered = λ token x e.
      let (a, b) = v.entered token x e in
      (
        a,
        drop_rows-All
            (λ (r : Row).
              (r.user.id == x.user_id) ≡ true → text_eq r.user.status status_active ≡ true)
            id s.rows b,
      );
}
