-- ===== src/Glob/StarSubject.antt =====
-- What the wildcard loop does on a subject that itself holds a star: the test `p[ip] == str[is]`
-- comes before the test for a star, so the pattern's star is spent on one byte.
use archer.Prelude.{
  ℕ, zero, suc, ◌<◌, ◌≡◌, inl, inr, refl, true, false, some, none, [], ◌∷◌, ◌++◌, Text, length,
  length-append, to_lower, Bool-cases, arith, ap,
}
use archer.Glob.{glob_loop, glob_run, glob_match}
use archer.Glob.Spec.{Globs, end, one, leave, take, StarFree}
use archer.Glob.Correct.{StarFree-to_lower, answer-true}

-- With no star saved and none in the pattern, the loop compares byte by byte.
loop_aligned :
    (f : ℕ) (p s : Text) → StarFree p → glob_loop f p s none ≡ some true → length p ≡ length s
unfolding glob_loop
loop_aligned zero p s h e = cc
loop_aligned (suc f) [] [] h e = refl
loop_aligned (suc f) (x ∷ p) [] h e = ground (arith, h.0)
loop_aligned (suc f) [] (c ∷ s) h e = cc
loop_aligned (suc f) (x ∷ p) (c ∷ s) h e = ground (arith, h.0, loop_aligned f p s h.1)

loop_star_star :
    (f : ℕ) (p s : Text)
    → StarFree p
    → glob_loop f (b'*' ∷ p) (b'*' ∷ s) none ≡ some true
    → length p ≡ length s
unfolding glob_loop
loop_star_star zero p s h e = cc
loop_star_star (suc f) p s h e = loop_aligned f p s h e

length-to_lower : (s : Text) → length (to_lower s) ≡ length s
unfolding to_lower
length-to_lower [] = refl
length-to_lower (c ∷ s) = ap suc (length-to_lower s)

Globs-self : (p : Text) → StarFree p → Globs p p
Globs-self [] h = end
Globs-self (x ∷ p) h = one (inr refl) h.0 (Globs-self p h.1)

Globs-suffix : (p u : Text) → StarFree p → Globs (b'*' ∷ p) (u ++ p)
Globs-suffix p [] h = leave refl (Globs-self p h)
Globs-suffix p (c ∷ u) h = take refl (Globs-suffix p u h)

-- A first star against a first star leaves two texts of one length to be compared.
glob_match-star_star :
    (p s : Text) → StarFree p → glob_match (b'*' ∷ p) (b'*' ∷ s) ≡ true → length p ≡ length s
unfolding glob_match glob_run to_lower
glob_match-star_star p s h e = omega (
  arith,
  length-to_lower p,
  length-to_lower s,
  loop_star_star _ (to_lower p) (to_lower s) (StarFree-to_lower p h) (answer-true _ e),
)

-- For a pattern `*p` with no other star and a text `*up` with u not empty: the pattern stands
-- for the text, but globMatch does not accept it.
pub glob_match-star_subject :
    (p u : Text)
    → StarFree p
    → 0 < length u
    → Globs (b'*' ∷ p) (b'*' ∷ u ++ p) × (glob_match (b'*' ∷ p) (b'*' ∷ u ++ p) ≡ false)
glob_match-star_subject p u h n = (Globs-suffix p (b'*' ∷ u) h, refused)
  where
    refused : glob_match (b'*' ∷ p) (b'*' ∷ u ++ p) ≡ false
    refused = elim (Bool-cases (glob_match (b'*' ∷ p) (b'*' ∷ u ++ p))) [
      | inl e ↦ absurd (omega (arith, glob_match-star_star p (u ++ p) h e, length-append u p))
      | inr e ↦ e
    ]
