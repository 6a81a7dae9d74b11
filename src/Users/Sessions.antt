-- ===== src/Users/Sessions.antt =====
-- Sessions of internal/store/userstore.go in the course of time.
use archer.Prelude.{
  ℕ, ◌≤◌, true, Option, none, some, List, [], ◌∷◌, Text, ltb, ◌≡◌, refl, ap, text_eq_refl,
  if◌then◌else◌, arith, Bool-cases, inl, inr,
}
use archer.Users.{
  Session, UserStore, get_user_by_id, get_session, resolve, prune_expired_sessions, unless_past,
  mark_session_modal_shown, session_modal_high_water, high_water_of, set_session,
}

resolve_past :
    (now later : ℕ) (token : Text) (o : Option Session) (s : UserStore)
    → now ≤ later
    → (resolve later token (unless_past now o) (prune_expired_sessions now s)).1
      ≡ (resolve later token o s).1
unfolding prune_expired_sessions get_user_by_id
resolve_past now later token none s h = refl
resolve_past now later token (some x) s h = elim (Bool-cases (ltb x.expires_at now)) [
  | inl p ↦ let past : ltb x.expires_at later ≡ true = ground (arith, p, h) in rw (p, past) refl
  | inr p ↦
      rw p (elim (Bool-cases (ltb x.expires_at later)) [ inl q ↦ rw q refl | inr q ↦ rw q refl ])
]

-- For any token, at a time that is not before the pruning: it resolves to the same account, or to
-- none, whether or not the expired sessions have been pruned.
pub get_session-prune_expired_sessions :
    (now later : ℕ) (token : Text) (s : UserStore)
    → now ≤ later
    → (get_session later token (prune_expired_sessions now s)).1 ≡ (get_session later token s).1
unfolding get_session prune_expired_sessions
get_session-prune_expired_sessions now later token s h =
    resolve_past now later token (s.sessions token) s h

-- The modal shown at several counts, one after the other.
pub shown : Text → List ℕ → UserStore → UserStore
shown token [] s = s
shown token (n ∷ ns) s = shown token ns (mark_session_modal_shown token n s)

pub largest : ℕ → List ℕ → ℕ
largest m [] = m
largest m (n ∷ ns) = largest (if ltb m n then n else m) ns

mark_session_modal_shown_lem :
    (token : Text) (n : ℕ) (x : Session) (s : UserStore)
    → s.sessions token ≡ some x
    → (mark_session_modal_shown token n s).sessions token
      ≡ some (record x {
        modal_high_water = if ltb x.modal_high_water n then n else x.modal_high_water;
      })
unfolding mark_session_modal_shown set_session
mark_session_modal_shown_lem token n x s e = elim (Bool-cases (ltb x.modal_high_water n)) [
  | inl p ↦ ground (arith, e, p, text_eq_refl token)
  | inr p ↦ ground (arith, e, p)
]

-- For the token of a session: after the modal has been shown at any counts, the high water is the
-- largest of them and of the one before, so it never falls.
pub session_modal_high_water-shown :
    (token : Text) (counts : List ℕ) (x : Session) (s : UserStore)
    → s.sessions token ≡ some x
    → session_modal_high_water token (shown token counts s) ≡ largest x.modal_high_water counts
unfolding session_modal_high_water shown largest
session_modal_high_water-shown token [] x s e = ap high_water_of e
session_modal_high_water-shown token (n ∷ ns) x s e =
    session_modal_high_water-shown token ns _ (mark_session_modal_shown token n s)
      (mark_session_modal_shown_lem token n x s e)
