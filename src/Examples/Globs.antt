-- ===== src/Examples/Globs.antt =====
-- The wildcard matcher, the matcher of a list and the pattern predicate at concrete texts.
use archer.Prelude.{
  ◌≡◌, ◌↔◌, refl, some, true, false, not, ◌&&◌, List, [], ◌∷◌, ◌++◌, Text, codes, any, text_eq,
  to_lower, arith,
}
use archer.Examples.Instances.{small_net}
use archer.Glob.{glob_match}
use archer.Glob.Spec.{Globs, StarFree}
use archer.Glob.Correct.{glob_match_iff}
use archer.Glob.StarSubject.{glob_match-star_subject}
use archer.Query.Match.{string_pattern_match}
use archer.Query.Match.Pattern.{Occurs, string_pattern_match_iff}
use archer.Matcher.{compile, matches}
use archer.Matcher.Tiers.{entry_accepts, matches-compile}

ab_free : StarFree (codes "Ab")
ab_free = (λ e. omega (arith, e), ((λ e. omega (arith, e)), tt))

glob_match_iff_example :
    (glob_match (codes "*B") (codes "Ab") ≡ true)
    ↔ Globs (to_lower (codes "*B")) (to_lower (codes "Ab"))
glob_match_iff_example = glob_match_iff (codes "*B") (codes "Ab") ab_free

glob_matched : glob_match (codes "a*b") (codes "axb") ≡ true
unfolding glob_match to_lower
glob_matched = refl

glob_match-star_subject_example :
    Globs (b'*' ∷ codes "b") (b'*' ∷ codes "a" ++ codes "b")
    × (glob_match (b'*' ∷ codes "b") (b'*' ∷ codes "a" ++ codes "b") ≡ false)
glob_match-star_subject_example =
    glob_match-star_subject (codes "b") (codes "a") ((λ e. omega (arith, e)), tt) (omega arith)

string_pattern_match_iff_example :
    (string_pattern_match (codes "Ab") (codes "?b") ≡ true)
    ↔ Occurs (to_lower (codes "?b")) (to_lower (codes "Ab"))
string_pattern_match_iff_example = string_pattern_match_iff (codes "Ab") (codes "?b") ab_free

abbrev lines : List Text
lines = codes "# private" ∷ codes "10.0.0.0/24" ∷ codes "*.evil.com" ∷ codes "192.0.2.1" ∷ []

matches-compile_example : matches small_net (some (compile small_net lines)) (codes "10.0.0.7") ≡ (
    not (text_eq (codes "10.0.0.7") [])
    && any (λ e. entry_accepts small_net e (codes "10.0.0.7")) lines)
matches-compile_example = matches-compile small_net lines (codes "10.0.0.7")
