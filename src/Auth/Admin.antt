-- ===== src/Auth/Admin.antt =====
-- The active admins under the requests that internal/server/auth.go handles.
use archer.Prelude.{
  ℕ, Bool, true, false, not, ◌&&◌, List, Text, ◌==◌, ◌≡◌, refl, text_eq, Some-all, arith,
}
use archer.Net.{Net, Platform}
use archer.Users.{
  Row, UserStore, role_admin, delete_session, delete_sessions_for_user, prune_expired_sessions,
  update_user_role, approve_user, delete_user,
}
use archer.Users.Rows.{
  SomeUser, create_session-SomeUser, delete_user-SomeUser, update_user-SomeUser,
  set_password-SomeUser, create_user-SomeUser,
}
use archer.Auth.Moves.{
  IsAdmin, Rules, Move, Moves, leave, sweep, revoke, join, found, enter, renew, reset, appoint,
  approve, assign, remove, rest, next,
}
use archer.Auth.Handlers.{Server}
use archer.Auth.Handlers.Accounts.{Event, run}
use archer.Auth.Refine.Routes.{run-Moves}

abbrev pub HasAdmin : UserStore → Type 0
HasAdmin s = SomeUser IsAdmin s

forget_id : (me : ℕ) (s : UserStore) → Rules me s → HasAdmin s
forget_id me s h =
    Some-all (λ (r : Row). IsAdmin r.user × ((r.user.id == me) ≡ true))
      (λ (r : Row). IsAdmin r.user) s.rows (λ r k. k.0) h

-- An admin whose account the other id is not stays out of the change.
other_id : (a me id : ℕ) → (id == me) ≡ false → (a == me) ≡ true → (a == id) ≡ false
other_id a me id h k = ground (arith, h, k)

approve_user-Rules :
    (me : ℕ) (saved : Bool) (id : ℕ) (s : UserStore)
    → Rules me s
    → Rules me (approve_user saved id s).0
unfolding approve_user
approve_user-Rules me saved id s h =
    update_user-SomeUser (λ u. IsAdmin u × ((u.id == me) ≡ true)) saved id _ s
      (λ u e k. ((k.0.0, refl), k.1)) h

assign_case :
    (me a id : ℕ) (role old : Text)
    → (id == me && not (text_eq role role_admin)) ≡ false
    → (a == id) ≡ true
    → (a == me) ≡ true
    → text_eq role role_admin ≡ true
assign_case me a id role old g e k = ground (arith, g, e, k)

update_user_role-Rules :
    (me : ℕ) (saved : Bool) (id : ℕ) (role : Text) (s : UserStore)
    → (id == me && not (text_eq role role_admin)) ≡ false
    → Rules me s
    → Rules me (update_user_role saved id role s).0
unfolding update_user_role
update_user_role-Rules me saved id role s g h =
    update_user-SomeUser (λ u. IsAdmin u × ((u.id == me) ≡ true)) saved id _ s
      (λ u e k. ((assign_case me u.id id role u.role g e k.1, k.0.1), k.1)) h

module _ (platform : Platform) where
  Move-HasAdmin : {s t : UserStore} → Move platform s t → HasAdmin s → HasAdmin t
  unfolding delete_session prune_expired_sessions delete_sessions_for_user
  Move-HasAdmin (leave token s) h = h
  Move-HasAdmin (sweep now s) h = h
  Move-HasAdmin (revoke id s) h = h
  Move-HasAdmin (join now salt saved email f l password s) h =
      create_user-SomeUser IsAdmin platform now salt saved email f l password _ _ s h
  Move-HasAdmin (found now salt saved email f l password s e) h =
      create_user-SomeUser IsAdmin platform now salt saved email f l password _ _ s h
  Move-HasAdmin (enter now token stamped id s g) h =
      create_session-SomeUser IsAdmin now token stamped id s h
  Move-HasAdmin (renew salt saved id email current password u s a g) h =
      set_password-SomeUser IsAdmin platform salt saved id password s (λ v hash k. k) h
  Move-HasAdmin (reset me salt saved id password s g e) h =
      set_password-SomeUser IsAdmin platform salt saved id password s (λ v hash k. k) h
  Move-HasAdmin (appoint me now salt saved email f l password role s g) h =
      create_user-SomeUser IsAdmin platform now salt saved email f l password _ _ s h
  Move-HasAdmin (approve me saved id s g) h =
      forget_id me (approve_user saved id s).0 (approve_user-Rules me saved id s g)
  Move-HasAdmin (assign me saved id role s g e) h =
      forget_id me (update_user_role saved id role s).0
        (update_user_role-Rules me saved id role s e g)
  Move-HasAdmin (remove me saved id s g e) h = forget_id me (delete_user saved id s).0 (
      delete_user-SomeUser (λ u. IsAdmin u × ((u.id == me) ≡ true)) saved id s
        (λ u k. other_id u.id me id e k.1) g)

  Moves-HasAdmin : {s t : UserStore} → Moves platform s t → HasAdmin s → HasAdmin t
  Moves-HasAdmin rest h = h
  Moves-HasAdmin (next m k) h = Move-HasAdmin k (Moves-HasAdmin m h)

  -- If an account is an active admin's, then after any sequence of requests, each handled whole, and
  -- of prunings there is still an active admin.
  pub run-HasAdmin :
      (net : Net) (events : List Event) (s : Server)
      → HasAdmin s.users
      → HasAdmin (run platform net events s).users
  run-HasAdmin net events s h = Moves-HasAdmin (run-Moves platform net events s) h
